-- ===== src/Workload/OneLevel/Orders.antt =====
-- A sell at the price of the sells that wait in a book of src/fixed_clob.hpp, and a buy of exactly what
-- the oldest of them is for.
use mathlib.Core.Path.{subst}
use lowlat_matching_engine.Common.{
  ℕ, ◌*◌, ◌^◌, ◌<◌, ◌≡◌, refl, sym, ap, ap₂, ◌∙◌, inl, inr, arith, true, some, List, [], ◌∷◌, ◌++◌,
  length,
}
use lowlat_matching_engine.Types.{Side, buy, sell}
use lowlat_matching_engine.Pool
use lowlat_matching_engine.Index.{IsId}
use lowlat_matching_engine.Index.Probing.{IsCapacity}
use lowlat_matching_engine.Sink.{Sink, emit}
use lowlat_matching_engine.Clob.{Clob, Outcome, submit_limit_order, available_slots}
use lowlat_matching_engine.Clob.Invariant.{requeue, InRange, SameRange, requeue_away, spot_cases}
use lowlat_matching_engine.Clob.View.{Entry, View, Represents, Represents_congr, trade}
use lowlat_matching_engine.Clob.Create.{empty_view}
use lowlat_matching_engine.Clob.Cancel.{HasId, IsResting}
use lowlat_matching_engine.Clob.Count.{active_orders-resting}
use lowlat_matching_engine.Clob.Submit.{Submitted, filled, rested, no_slot, submit_limit_order_lem}
use lowlat_matching_engine.Workload.OneLevel.{
  asks_at, asks_at-here, requeue-asks_at, resting-asks_at, cons_apart, sell-Trades, buy-Trades,
}

module _ (max_orders : ℕ) (hash : ℕ → ℕ) (cap : IsCapacity (2 * max_orders)) (price : ℕ) where
  -- What holds of the book between two orders.
  pub record Waits (c : Clob) (q : List Entry) : Type 0 where
    pub stored : Represents max_orders hash cap c (asks_at price q)
    pub range : InRange c price

module _ (max_orders : ℕ) (hash : ℕ → ℕ) (cap : IsCapacity (2 * max_orders)) {S : Type 0}
    (sink : Sink S) (price : ℕ) where
  -- What a submission that is accepted makes of the book and the executions.
  pub record Took (o : Outcome S) (q : List Entry) (executions : S) : Type 0 where
    pub accepted : o.accepted ≡ true
    pub waits : Waits max_orders hash cap price o.book q
    pub reports : o.executions ≡ executions

  away_lem :
      {c : Clob} (id : ℕ) (q : List Entry) → (¬ HasId id q) → ¬ IsResting c (asks_at price q) id
  away_lem id q new w = elim (spot_cases w.side sell w.price price) [
    | inl (side, at) ↦ new (
        subst (λ (r : List Entry). HasId id r)
          (ap₂ (λ (s : Side) (p : ℕ). asks_at price q s p) side at ∙ asks_at-here price q) w.waits)
    | inr away ↦
        subst (λ (r : List Entry). HasId id r)
          (requeue_away empty_view sell price q w.side w.price away) w.waits
  ]

  pub no_slots : (c : Clob) → c.pool.top ≡ 0 → available_slots max_orders hash c ≡ 0
  unfolding available_slots Pool.available
  no_slots c z = z

  moved : (c c' : Clob) → InRange c price → SameRange c c' → InRange c' price
  moved c c' range same = (omega (arith, range.0, same.0), omega (arith, range.1, same.1))

  module _ {c : Clob} (id qty : ℕ) (executions : S) (nonzero : IsId id) (pos : 0 < qty)
      (word : qty < 2 ^ 64) where
    pub sell_lem :
        (q : List Entry)
        → Waits max_orders hash cap price c q
        → length q < max_orders
        → (¬ HasId id q)
        → (o : Outcome S) × (submit_limit_order max_orders hash sink c id sell price qty executions
            ≡ some o)
          × Took o (q ++ record { order_id = id; qty = qty } ∷ []) executions
    unfolding emit
    sell_lem q w room new =
        let (o, ran, did) =
          submit_limit_order_lem max_orders hash cap sink id sell price qty executions nonzero
            w.stored w.range pos word (away_lem id q new) in
        (o, ran, took o did)
      where
        took :
            (o : Outcome S)
            → Submitted max_orders hash cap sink c (asks_at price q) id sell price qty executions o
            → Took o (q ++ record { order_id = id; qty = qty } ∷ []) executions
        took o (filled v' es t yes_it same s x) =
            let (none_made, view, left) = sell-Trades (λ p. refl) t in
            absurd (omega (arith, left, pos))
        took o (rested v' es left some_left t yes_it same s x) =
            let (none_made, view, all) = sell-Trades (λ p. refl) t in
            record {
              accepted = yes_it;
              waits = record {
                stored =
                    Represents_congr max_orders hash cap o.book _
                      (asks_at price (q ++ record { order_id = id; qty = qty } ∷ []))
                      (λ s p range. sym (
                        ap₂
                          (λ (u : View) (m : ℕ).
                            requeue u sell price
                              (u sell price ++ record { order_id = id; qty = m } ∷ []) s p)
                          view all
                        ∙ ap
                            (λ (r : List Entry).
                              requeue (asks_at price q) sell price
                                (r ++ record { order_id = id; qty = qty } ∷ []) s p)
                            (asks_at-here price q)
                        ∙ requeue-asks_at price q (q ++ record { order_id = id; qty = qty } ∷ []) s
                            p))
                      s;
                range = moved c o.book w.range same;
              };
              reports = x ∙ ap (emit sink executions) none_made ∙ refl;
            }
        took o (no_slot z u is) =
            let count = active_orders-resting max_orders hash cap w.stored in
            absurd (
              omega (
                arith,
                count.1,
                no_slots c z,
                room,
                resting-asks_at c.min_price c.max_price price q,
              ))

    pub buy_lem :
        (e : Entry) (q : List Entry)
        → Waits max_orders hash cap price c (e ∷ q)
        → qty ≡ e.qty
        → (¬ HasId id (e ∷ q))
        → (o : Outcome S) × (submit_limit_order max_orders hash sink c id buy price qty executions
            ≡ some o)
          × Took o q (sink.emplace_back executions (trade id e.order_id price e.qty))
    unfolding emit
    buy_lem e q w same new =
        let (o, ran, did) =
          submit_limit_order_lem max_orders hash cap sink id buy price qty executions nonzero
            w.stored w.range pos word (away_lem id (e ∷ q) new) in
        (o, ran, took o did)
      where
        took :
            (o : Outcome S)
            → Submitted max_orders hash cap sink c
                (asks_at price (e ∷ q))
                id
                buy
                price
                qty
                executions
                o
            → Took o q (sink.emplace_back executions (trade id e.order_id price e.qty))
        took o (filled v' es t yes_it range s x) =
            let (over, made, view) = buy-Trades e q w.range.0 w.range.1 pos same t in
            record {
              accepted = yes_it;
              waits = record {
                stored =
                    Represents_congr max_orders hash cap o.book v' (asks_at price q)
                      (λ s p i. sym (view s p)) s;
                range = moved c o.book w.range range;
              };
              reports = x ∙ ap (emit sink executions) made ∙ refl;
            }
        took o (rested v' es left some_left t yes_it range s x) =
            let (over, made, view) = buy-Trades e q w.range.0 w.range.1 pos same t in
            absurd (omega (arith, over, some_left))
        took o (no_slot z u is) = absurd (
            cons_apart
              (sym (asks_at-here price (e ∷ q)) ∙ u price w.range.0 w.range.1 (omega arith)))
