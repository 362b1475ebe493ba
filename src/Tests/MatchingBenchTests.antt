-- ===== src/Tests/MatchingBenchTests.antt =====
-- The sweep of bench/bench_matching.cpp over ten levels, the fewest its registration asks for.
use lowlat_matching_engine.Common.{ℕ, ◌≡◌, arith, true, some}
use lowlat_matching_engine.Sink.{ExecutionBuffer, buffer_sink, emit, reserve}
use lowlat_matching_engine.Index.{fast_hash}
use lowlat_matching_engine.Clob
use lowlat_matching_engine.Pipeline.{Engine}
use lowlat_matching_engine.Pipeline.Runs.{no_executions}
use lowlat_matching_engine.MatchingBench.{sweep_orders, run_matching_sweep_ask_levels}
use lowlat_matching_engine.MatchingBench.Ladder.{sweep_trades}
use lowlat_matching_engine.MatchingBench.Sweep.{run_matching_sweep_ask_levels_lem}

abbrev memory : ℕ → ℕ
memory i = i

run_matching_sweep_ask_levels_lem_example :
    (e : Engine ExecutionBuffer) × (run_matching_sweep_ask_levels fast_hash memory memory 10
      ≡ some e)
    × (Clob.empty sweep_orders fast_hash e.book ≡ true)
    × (e.executions ≡ emit buffer_sink (reserve no_executions 10) (sweep_trades 11 10 0))
    × (e.executions.size ≡ 10)
run_matching_sweep_ask_levels_lem_example =
    run_matching_sweep_ask_levels_lem fast_hash memory memory 10 (omega arith) (omega arith)
