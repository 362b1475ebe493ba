-- ===== src/Tests/ProfileTests.antt =====
-- The full-match workload at the sizes of tools/profile_full_match.cpp, and at two orders.
use lowlat_matching_engine.Common.{ℕ, ◌≡◌, arith, true, some, List, [], length}
use lowlat_matching_engine.Types.{Execution, OrderCommand, add_limit}
use lowlat_matching_engine.Types
use lowlat_matching_engine.Sink.{vector_sink, buffer_sink, emit}
use lowlat_matching_engine.Index.{fast_hash}
use lowlat_matching_engine.Clob
use lowlat_matching_engine.Workload.{make_full_match_commands}
use lowlat_matching_engine.Workload
use lowlat_matching_engine.Pipeline.{
  Engine, push_each, pop_batches, apply_command, run_commands, Steps, start,
}
use lowlat_matching_engine.Pipeline.Benchmarks.{itself}
use lowlat_matching_engine.Pipeline.Runs.{queue_capacity, batch_size, initial_engine, BookRun}
use lowlat_matching_engine.Pipeline
use lowlat_matching_engine.Pipeline.FullMatch.{full_match_run_lem}
use lowlat_matching_engine.Profile.{
  run_profile_full_match, profile_orders, book_orders, profile_book,
}
use lowlat_matching_engine.Profile.Loops.{trades_of}
use lowlat_matching_engine.Profile.FullMatch.{
  run_profile_full_match_lem, full_match_commands_lem, vector_count, profile_cap, book-IsBare,
  profile_fits,
}

abbrev memory : ℕ → ℕ
memory i = i

run_profile_full_match_lem_example :
    run_profile_full_match book_orders fast_hash vector_sink
      (length {0})
      []
      profile_orders
      profile_orders
      (profile_book memory memory)
    ≡ some 0
run_profile_full_match_lem_example =
    run_profile_full_match_lem book_orders fast_hash profile_cap vector_sink (length {0}) []
      profile_orders profile_orders (profile_book memory memory)
      (book-IsBare fast_hash memory memory) profile_fits (vector_count profile_orders)

full_match_commands_lem_example :
    (e : Engine (List Execution)) × (run_commands book_orders fast_hash vector_sink
        (record { book = profile_book memory memory; executions = [] })
        (make_full_match_commands 2)
      ≡ some e)
    × (e.executions ≡ emit vector_sink [] (trades_of 2 2 0))
    × (Clob.empty book_orders fast_hash e.book ≡ true)
full_match_commands_lem_example =
    full_match_commands_lem book_orders fast_hash profile_cap vector_sink 2
      (profile_book memory memory) [] (book-IsBare fast_hash memory memory) (omega arith)

abbrev blank : ℕ → OrderCommand
blank i = Workload.limit_order 0 Types.buy 0 0

abbrev first : BookRun
first =
    Pipeline.begin blank blank (make_full_match_commands 2)
      (initial_engine fast_hash memory memory 2)

full_match_run_lem_example :
    (q : BookRun) × Steps itself
      (apply_command queue_capacity fast_hash buffer_sink)
      push_each
      (pop_batches batch_size)
      queue_capacity
      (length (make_full_match_commands 2))
      first
      q
    × (q.processed ≡ length (make_full_match_commands 2))
    × (q.engine.executions.size ≡ 2)
    × (Clob.empty queue_capacity fast_hash q.engine.book ≡ true)
full_match_run_lem_example =
    full_match_run_lem memory memory 2 (omega arith) blank blank fast_hash push_each
      (pop_batches batch_size) tt (omega arith) start
