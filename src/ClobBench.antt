-- ===== src/ClobBench.antt =====
-- bench/bench_fixed_clob.cpp: the orders of a command stream added to a new book, and then cancelled.
-- The timing around the loops is left out.
pub mod Steps
pub mod Emptied
pub mod Counted
use lowlat_matching_engine.Common.{ℕ, List, [], ◌∷◌}
use lowlat_matching_engine.Types.{OrderCommand}
use lowlat_matching_engine.Index.{fast_hash}
use lowlat_matching_engine.Clob
use lowlat_matching_engine.Clob.{Clob, add_order, cancel_order}
use lowlat_matching_engine.Workload.{make_add_only_commands}

module _ (max_orders : ℕ) (hash : ℕ → ℕ) where
  -- `for (const auto &command : commands) book.add_order(...)`
  unfoldable pub add_each : Clob → List OrderCommand → Clob
  add_each c [] = c
  add_each c (command ∷ rest) =
      add_each
        (add_order max_orders hash c command.order_id command.side command.price command.qty).1 rest

  -- `for (const auto &command : commands) book.cancel_order(command.order_id)`
  unfoldable pub cancel_each : Clob → List OrderCommand → Clob
  cancel_each c [] = c
  cancel_each c (command ∷ rest) =
      cancel_each (cancel_order max_orders hash c command.order_id).1 rest

abbrev pub bench_orders : ℕ
bench_orders = 1048576

module _ (keys values : ℕ → ℕ) where
  -- The book `FixedClob<1 << 20>(8000, 12000)`, with the default hash.
  abbrev pub bench_book : Clob
  bench_book = Clob.new bench_orders fast_hash keys values 8000 12000

  unfoldable pub run_add_only : ℕ → Clob
  run_add_only n = add_each bench_orders fast_hash bench_book (make_add_only_commands n)

  unfoldable pub run_add_then_cancel : ℕ → Clob
  run_add_then_cancel n =
      let commands = make_add_only_commands n in
      cancel_each bench_orders fast_hash (add_each bench_orders fast_hash bench_book commands)
        commands
