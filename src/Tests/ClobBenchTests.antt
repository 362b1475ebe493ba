-- ===== src/Tests/ClobBenchTests.antt =====
-- The streams of bench/bench_fixed_clob.cpp at three orders.
use lowlat_matching_engine.Common.{ℕ, ◌≡◌, arith, true}
use lowlat_matching_engine.Index.{fast_hash}
use lowlat_matching_engine.Clob
use lowlat_matching_engine.Clob.{Clob, active_orders}
use lowlat_matching_engine.ClobBench.{bench_orders, run_add_only, run_add_then_cancel}
use lowlat_matching_engine.ClobBench.Counted.{add_then_cancel_lem}

abbrev memory : ℕ → ℕ
memory i = i

add_then_cancel_lem_example :
    (active_orders bench_orders fast_hash (run_add_only memory memory 3) ≡ 3)
    × (Clob.empty bench_orders fast_hash (run_add_then_cancel memory memory 3) ≡ true)
add_then_cancel_lem_example = add_then_cancel_lem memory memory 3 (omega arith)
