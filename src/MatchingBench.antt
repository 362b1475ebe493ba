-- ===== src/MatchingBench.antt =====
-- bench/bench_matching.cpp and bench/bench_matching_hot.cpp: streams of orders submitted to a new book
-- by one thread. The timing around the loops is left out.
pub mod Ladder
pub mod Streams
pub mod NextLevel
pub mod Sweep
pub mod Hot
use lowlat_matching_engine.Common.{ℕ, zero, suc, ◌+◌, Option, none, some, List, [], ◌∷◌, add64}
use lowlat_matching_engine.Types.{buy, sell, OrderCommand, add_limit}
use lowlat_matching_engine.Sink.{Sink, ExecutionBuffer, buffer_sink, null_sink, reserve}
use lowlat_matching_engine.Clob
use lowlat_matching_engine.Clob.{Clob, submit_limit_order}
use lowlat_matching_engine.Workload.{
  make_add_only_commands, make_full_match_commands, make_non_crossing_buys_commands,
}
use lowlat_matching_engine.Pipeline.{Engine}
use lowlat_matching_engine.Profile.{ask, bid}
use lowlat_matching_engine.Pipeline.Runs.{no_executions, initial_engine}

module _ (max_orders : ℕ) (hash : ℕ → ℕ) {S : Type 0} (sink : Sink S) where
  -- The book and the executions after one order, whether it is accepted or not.
  unfoldable pub submit_one : Engine S → OrderCommand → Option (Engine S)
  submit_one e order =
      elim (submit_limit_order max_orders hash sink e.book order.order_id order.side order.price
        order.qty e.executions) [
          | none ↦ none
          | some o ↦ some (record { book = o.book; executions = o.executions })
        ]

  -- `for (const auto &command : commands)`
  unfoldable pub submit_commands : Engine S → List OrderCommand → Option (Engine S)
  unfolding submit_one
  submit_commands e [] = some e
  submit_commands e (command ∷ rest) = elim (submit_one e command) [
    | none ↦ none
    | some e' ↦ submit_commands e' rest
  ]

  -- `for (i = 0; i < n; ++i)` over orders made in the loop, with the rounds that are left.
  unfoldable pub submit_loop : (ℕ → OrderCommand) → ℕ → ℕ → Engine S → Option (Engine S)
  unfolding submit_one
  submit_loop order zero i e = some e
  submit_loop order (suc rounds) i e = elim (submit_one e (order i)) [
    | none ↦ none
    | some e' ↦ submit_loop order rounds (i + 1) e'
  ]

-- The sell of one unit at the price of level `i`.
abbrev pub level_ask : ℕ → OrderCommand
level_ask i = record {
  order_id = add64 i 1;
  price = add64 10001 i;
  qty = 1;
  type = add_limit;
  side = sell;
}

-- The buy that takes all levels.
abbrev pub sweeping_bid : ℕ → OrderCommand
sweeping_bid levels = record {
  order_id = add64 levels 1;
  price = add64 10000 levels;
  qty = levels;
  type = add_limit;
  side = buy;
}

abbrev pub sweep_orders : ℕ
sweep_orders = 32768

module _ (hash : ℕ → ℕ) (keys values : ℕ → ℕ) where
  unfoldable pub run_matching_add_only : ℕ → Option (Engine ExecutionBuffer)
  run_matching_add_only n =
      submit_commands 1048576 hash buffer_sink (initial_engine hash keys values n)
        (make_add_only_commands n)

  unfoldable pub run_matching_full_match : ℕ → Option (Engine ExecutionBuffer)
  run_matching_full_match n =
      submit_commands 1048576 hash buffer_sink (initial_engine hash keys values n)
        (make_full_match_commands n)

  unfoldable pub run_matching_hot_add_only : ℕ → Option (Engine ExecutionBuffer)
  run_matching_hot_add_only n =
      submit_commands 1048576 hash buffer_sink (initial_engine hash keys values n)
        (make_non_crossing_buys_commands n)

  -- What the book and the buffer are before the levels are filled.
  unfoldable pub sweep_engine : ℕ → Engine ExecutionBuffer
  sweep_engine levels = record {
    book = Clob.new sweep_orders hash keys values 8000 25000;
    executions = reserve no_executions levels;
  }

  unfoldable pub run_matching_sweep_ask_levels : ℕ → Option (Engine ExecutionBuffer)
  run_matching_sweep_ask_levels levels =
      elim (submit_loop sweep_orders hash buffer_sink level_ask levels 0 (sweep_engine levels)) [
        | none ↦ none
        | some e ↦ submit_one sweep_orders hash buffer_sink e (sweeping_bid levels)
      ]

  unfoldable pub run_matching_hot_sweep_ask_levels : ℕ → Option (Engine ExecutionBuffer)
  run_matching_hot_sweep_ask_levels levels =
      elim (submit_loop sweep_orders hash buffer_sink level_ask levels 0 (sweep_engine levels)) [
        | none ↦ none
        | some e ↦ submit_one sweep_orders hash buffer_sink e (sweeping_bid levels)
      ]

  -- The sells go to a sink that drops what it is given, the buys to one that is as `executions`.
  unfoldable pub run_matching_hot_full_match : {S : Type 0} → Sink S → S → ℕ → Option (Engine S)
  run_matching_hot_full_match sink executions n =
      elim (submit_loop 1048576 hash null_sink ask n 0
        (record { book = Clob.new 1048576 hash keys values 8000 12000; executions = tt })) [
          | none ↦ none
          | some e ↦
              submit_loop 1048576 hash sink (bid n) n 0
                (record { book = e.book; executions = executions })
        ]
