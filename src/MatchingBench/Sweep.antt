-- ===== src/MatchingBench/Sweep.antt =====
-- The sweep of bench/bench_matching.cpp: one unit is sold at each level, and one buy takes them all.
use mathlib.Core.Path.{subst}
use lowlat_matching_engine.Common.{
  ℕ, zero, suc, ◌+◌, ◌-◌, ◌*◌, ◌^◌, ◌≤◌, ◌<◌, ◌≡◌, refl, sym, ap, ◌∙◌, arith, true, some, [], ◌∷◌,
  add64,
}
use lowlat_matching_engine.Types.{Side, buy, sell}
use lowlat_matching_engine.Index.Probing.{IsCapacity}
use lowlat_matching_engine.Sink.{Sink, ExecutionBuffer, buffer_sink, emit, reserve}
use lowlat_matching_engine.Clob
use lowlat_matching_engine.Clob.{Clob, Outcome, submit_limit_order}
use lowlat_matching_engine.Clob.View.{View, Represents_congr}
use lowlat_matching_engine.Clob.Create.{empty_view, new-Represents}
use lowlat_matching_engine.Clob.Count.{active_orders-resting}
use lowlat_matching_engine.Clob.Waiting.{orders_resting}
use lowlat_matching_engine.Clob.Submit.{Submitted, filled, rested, no_slot, submit_limit_order_lem}
use lowlat_matching_engine.Workload.OneLevel.{resting_from-nothing}
use lowlat_matching_engine.Pipeline.{Engine}
use lowlat_matching_engine.Pipeline.Runs.{no_executions}
use lowlat_matching_engine.Profile.FullMatch.{emit-size, reserve-size}
use lowlat_matching_engine.MatchingBench.{
  submit_one, submit_loop, level_ask, sweeping_bid, sweep_orders, sweep_engine,
  run_matching_sweep_ask_levels,
}
use lowlat_matching_engine.MatchingBench.Ladder.{
  unit_of, ladder, sweep_trades, length-sweep_trades, ladder-in, unit_there, sweep-Trades,
  ladder-empty, ladder-HasId,
}
use lowlat_matching_engine.MatchingBench.NextLevel.{Laddered, ask_lem}

module _ (max_orders : ℕ) (hash : ℕ → ℕ) (cap : IsCapacity (2 * max_orders)) {S : Type 0}
    (sink : Sink S) (levels : ℕ) (few : levels ≤ max_orders) (word : levels < 2 ^ 63) where
  -- The loop fills the levels that are left.
  fill_lem :
      (rounds b : ℕ) (c : Clob) (executions : S)
      → b + rounds ≡ levels
      → Laddered max_orders hash cap levels c b
      → (e : Engine S) × (submit_loop max_orders hash sink level_ask rounds b
            (record { book = c; executions = executions })
          ≡ some e)
        × Laddered max_orders hash cap levels e.book levels
        × (e.executions ≡ executions)
  unfolding submit_loop submit_one
  fill_lem zero b c executions count w = (
    record { book = c; executions = executions },
    refl,
    subst (Laddered max_orders hash cap levels c) (omega (arith, count)) w,
    refl,
  )
  fill_lem (suc rounds) b c executions count w =
      let (o, ran, did) =
        ask_lem max_orders hash cap sink levels few word b executions (omega (arith, count)) w in
      let (e, rest, full, same) =
        fill_lem rounds (b + 1) o.book o.executions (omega (arith, count)) did.ladder_on in
      let id : add64 b 1 ≡ b + 1 = omega (arith, word, count) in
      let price : add64 10001 b ≡ 10001 + b = omega (arith, word, count) in
      (e, rw (submit_loop, submit_one, id, price, ran) rest, full, same ∙ did.reports)

  -- The last buy takes all levels.
  module _ {c : Clob} (executions : S) (some_level : 0 < levels)
      (w : Laddered max_orders hash cap levels c levels) where
    record Swept (o : Outcome S) : Type 0 where
      pub bare : Clob.empty max_orders hash o.book ≡ true
      pub reports : o.executions ≡ emit sink executions (sweep_trades (levels + 1) levels 0)

    swept :
        (o : Outcome S)
        → Submitted max_orders hash cap sink c
            (ladder 0 levels)
            (levels + 1)
            buy
            (10000 + levels)
            levels
            executions
            o
        → Swept o
    swept o (filled v' es t yes_it same s x) =
        let (over, made, view) = sweep-Trades 0 w.low w.high (λ s p. refl) (omega arith) t in
        record {
          bare = (active_orders-resting max_orders hash cap s).2.1 (nothing v' view o.book);
          reports = x ∙ ap (emit sink executions) made;
        }
      where
        nothing :
            (v' : View)
            → ((s : Side) (p : ℕ) → v' s p ≡ ladder levels levels s p)
            → (c' : Clob) → orders_resting c'.min_price c'.max_price v' ≡ 0
        nothing v' view c' =
            let span = c'.max_price + 1 - c'.min_price in
            omega (
              arith,
              resting_from-nothing (v' buy) span c'.min_price
                  (λ p l. view buy p ∙ ladder-empty levels buy p),
              resting_from-nothing (v' sell) span c'.min_price
                  (λ p l. view sell p ∙ ladder-empty levels sell p),
            )
    swept o (rested v' es left some_left t yes_it same s x) =
        let (over, made, view) = sweep-Trades 0 w.low w.high (λ s p. refl) (omega arith) t in
        absurd (omega (arith, over, some_left))
    swept o (no_slot z u is) =
        let there : ladder 0 levels sell 10001 ≡ unit_of (10001 - 10001) ∷ [] =
          ladder-in 0 levels 10001 (omega arith) (omega (arith, some_level)) in
        absurd (
          unit_there (
            sym there
            ∙ u 10001 w.low (omega (arith, w.high, some_level)) (omega (arith, some_level))))

    sweep_lem :
        (o : Outcome S) × (submit_one max_orders hash sink
            (record { book = c; executions = executions })
            (sweeping_bid levels)
          ≡ some (record { book = o.book; executions = o.executions }))
        × Swept o
    unfolding submit_one
    sweep_lem =
        let (o, ran, did) =
          submit_limit_order_lem max_orders hash cap sink (levels + 1) buy (10000 + levels) levels
            executions (omega arith) w.stored (omega (arith, w.low), omega (arith, w.high))
            some_level (omega (arith, word))
            (λ r.
              absurd (omega (arith, ladder-HasId levels (levels + 1) r.side r.price r.waits))) in
        let id : add64 levels 1 ≡ levels + 1 = omega (arith, word) in
        let price : add64 10000 levels ≡ 10000 + levels = omega (arith, word) in
        (o, rw (submit_one, id, price, ran), swept o did)

sweep_cap : IsCapacity (2 * sweep_orders)
sweep_cap = record { log = 16; single_bit = refl; many = omega arith; word = omega arith }

-- With at least one level and at most 15000, all of them prices of the book, the benchmark that
-- sells one unit at each level and buys them all runs to its end; then the book is empty, and the
-- executions are one unit of each level, from the lowest price up.
pub run_matching_sweep_ask_levels_lem :
    (hash keys values : ℕ → ℕ) (levels : ℕ)
    → 0 < levels
    → levels ≤ 15000
    → (e : Engine ExecutionBuffer) × (run_matching_sweep_ask_levels hash keys values levels
        ≡ some e)
      × (Clob.empty sweep_orders hash e.book ≡ true)
      × (e.executions
          ≡ emit buffer_sink (reserve no_executions levels) (sweep_trades (levels + 1) levels 0))
      × (e.executions.size ≡ levels)
unfolding run_matching_sweep_ask_levels sweep_engine no_executions
run_matching_sweep_ask_levels_lem hash keys values levels some_level few =
    let (stored, low, high) =
      new-Represents sweep_orders hash sweep_cap keys values 8000 25000 (omega arith) (omega arith)
        (omega arith) (omega arith) in
    let fits : levels ≤ sweep_orders = omega (arith, few) in
    let (e, ran, full, same) =
      fill_lem sweep_orders hash sweep_cap buffer_sink levels fits (omega (arith, few)) levels 0
        (Clob.new sweep_orders hash keys values 8000 25000) (reserve no_executions levels)
        (omega arith)
        (record {
          stored =
              Represents_congr sweep_orders hash sweep_cap _ empty_view (ladder 0 0)
                (λ s p i. ladder-empty 0 s p) stored;
          low = omega (arith, low);
          high = omega (arith, high, few);
        }) in
    let (o, took, did) =
      sweep_lem sweep_orders hash sweep_cap buffer_sink levels fits (omega (arith, few))
        e.executions some_level full in
    let reports =
      did.reports
      ∙ ap (λ (b : ExecutionBuffer). emit buffer_sink b (sweep_trades (levels + 1) levels 0))
          same in
    let start : (reserve no_executions levels).size ≡ 0 = reserve-size no_executions levels in
    let trades = length-sweep_trades (levels + 1) levels 0 in
    (
      record { book = o.book; executions = o.executions },
      rw (run_matching_sweep_ask_levels, ran, took),
      did.bare,
      reports,
      ap (λ (b : ExecutionBuffer). b.size) reports
          ∙ emit-size (reserve no_executions levels) (sweep_trades (levels + 1) levels 0)
              (omega (arith, start, trades, few))
          ∙ omega (arith, start, trades),
    )
