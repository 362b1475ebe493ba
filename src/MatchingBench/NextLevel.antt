-- ===== src/MatchingBench/NextLevel.antt =====
-- A sell at the next ask level of bench/bench_matching.cpp.
use lowlat_matching_engine.Common.{
  ℕ, ◌+◌, ◌*◌, ◌^◌, ◌≤◌, ◌<◌, ◌≡◌, refl, sym, ap, ap₂, ◌∙◌, arith, some, List, [], ◌∷◌, ◌++◌,
}
use lowlat_matching_engine.Types.{sell}
use lowlat_matching_engine.Index.Probing.{IsCapacity}
use lowlat_matching_engine.Sink.{Sink, emit}
use lowlat_matching_engine.Clob.{Clob, Outcome, submit_limit_order}
use lowlat_matching_engine.Clob.Invariant.{requeue}
use lowlat_matching_engine.Clob.View.{Entry, View, Represents, Represents_congr}
use lowlat_matching_engine.Clob.Count.{active_orders-resting}
use lowlat_matching_engine.Clob.Submit.{Submitted, filled, rested, no_slot, submit_limit_order_lem}
use lowlat_matching_engine.Workload.OneLevel.{sell-Trades}
use lowlat_matching_engine.Workload.OneLevel.Orders.{no_slots}
use lowlat_matching_engine.MatchingBench.Ladder.{
  unit_of, ladder, ladder-above, ladder-grow, resting-ladder, ladder-HasId,
}

module _ (max_orders : ℕ) (hash : ℕ → ℕ) (cap : IsCapacity (2 * max_orders)) (levels : ℕ) where
  -- The first `b` levels are filled, and all of them are prices of the book.
  pub record Laddered (c : Clob) (b : ℕ) : Type 0 where
    pub stored : Represents max_orders hash cap c (ladder 0 b)
    pub low : c.min_price ≤ 10001
    pub high : 10000 + levels ≤ c.max_price

module _ (max_orders : ℕ) (hash : ℕ → ℕ) (cap : IsCapacity (2 * max_orders)) {S : Type 0}
    (sink : Sink S) (levels : ℕ) (few : levels ≤ max_orders) (word : levels < 2 ^ 63) where
  module _ {c : Clob} (b : ℕ) (executions : S) (more : b < levels)
      (w : Laddered max_orders hash cap levels c b) where
    -- What a sell at the next level makes of the book.
    pub record Grew (o : Outcome S) : Type 0 where
      pub ladder_on : Laddered max_orders hash cap levels o.book (b + 1)
      pub reports : o.executions ≡ executions

    grew :
        (o : Outcome S)
        → Submitted max_orders hash cap sink c (ladder 0 b) (b + 1) sell (10001 + b) 1 executions o
        → Grew o
    unfolding emit
    grew o (filled v' es t yes_it same s x) =
        let (none_made, view, left) = sell-Trades (λ p. refl) t in
        absurd (let e : 0 ≡ 1 = left in omega (arith, e))
    grew o (rested v' es left some_left t yes_it same s x) =
        let (none_made, view, all) = sell-Trades (λ p. refl) t in
        record {
          ladder_on = record {
            stored =
                Represents_congr max_orders hash cap o.book _ (ladder 0 (b + 1))
                  (λ s p range. sym (
                    ap₂
                      (λ (u : View) (m : ℕ).
                        requeue u sell (10001 + b)
                          (u sell (10001 + b) ++ record { order_id = b + 1; qty = m } ∷ []) s p)
                      view all
                    ∙ ap
                        (λ (q : List Entry).
                          requeue (ladder 0 b) sell (10001 + b) (q ++ unit_of b ∷ []) s p)
                        (ladder-above 0 b (10001 + b) (omega arith))
                    ∙ ladder-grow b s p))
                  s;
            low = omega (arith, w.low, same.0);
            high = omega (arith, w.high, same.1);
          };
          reports = x ∙ ap (emit sink executions) none_made ∙ refl;
        }
    grew o (no_slot z u is) =
        let count = active_orders-resting max_orders hash cap w.stored in
        absurd (
          omega (
            arith,
            count.1,
            no_slots max_orders hash cap sink 0 c z,
            few,
            more,
            resting-ladder c.min_price c.max_price b,
          ))

    pub ask_lem :
        (o : Outcome S) × (submit_limit_order max_orders hash sink c
            (b + 1)
            sell
            (10001 + b)
            1
            executions
          ≡ some o)
        × Grew o
    ask_lem =
        let (o, ran, did) =
          submit_limit_order_lem max_orders hash cap sink (b + 1) sell (10001 + b) 1 executions
            (omega arith) w.stored (omega (arith, w.low), omega (arith, w.high, more)) (omega arith)
            (omega arith)
            (λ r. absurd (omega (arith, ladder-HasId b (b + 1) r.side r.price r.waits))) in
        (o, ran, grew o did)
