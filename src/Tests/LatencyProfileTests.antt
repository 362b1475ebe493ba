-- ===== src/Tests/LatencyProfileTests.antt =====
-- tools/profile_pipeline_latency.cpp on three orders of each side and a ring of 64 commands.
use lowlat_matching_engine.Common.{ℕ, ◌+◌, ◌≡◌, refl, arith, some, length}
use lowlat_matching_engine.Sink.{buffer_sink}
use lowlat_matching_engine.Index.{fast_hash}
use lowlat_matching_engine.Ring.Slice.{IsRingCapacity}
use lowlat_matching_engine.Workload.{make_full_match_commands}
use lowlat_matching_engine.Pipeline.{push_each, pop_each, Steps, start, begin}
use lowlat_matching_engine.LatencyProfile.{
  TimedOrderCommand, cmd_of, apply_timed, result_of, profile_result, initial_profiled, TimedRun,
}
use lowlat_matching_engine.LatencyProfile.Rounds.{run_profile_lem}
use lowlat_matching_engine.Profile.{ask, book_orders}

sixty_four : IsRingCapacity 64
sixty_four = record { log = 6; single_bit = refl; small = omega arith; many = omega arith }

abbrev memory : ℕ → ℕ
memory i = i

-- A clock that moves on by 5 with each reading.
abbrev ticks : ℕ → ℕ
ticks i = i + i + i + i + i

abbrev blank : ℕ → TimedOrderCommand
blank i = record { cmd = ask 0; sent_ns = 0 }

abbrev first : TimedRun
first = begin blank blank (make_full_match_commands 3) (initial_profiled fast_hash memory memory 3)

run_profile_lem_example :
    (q : TimedRun) × Steps cmd_of
      (apply_timed book_orders fast_hash buffer_sink ticks)
      push_each
      pop_each
      64
      (length (make_full_match_commands 3))
      first
      q
    × (q.processed ≡ length (make_full_match_commands 3))
    × (profile_result fast_hash memory memory 64 3 q.engine
        ≡ some (result_of memory memory 64 q.engine))
    × (length q.engine.queue_latency.samples ≡ 6)
    × (length q.engine.service_latency.samples ≡ 6)
    × (length q.engine.end_to_end_latency.samples ≡ 6)
run_profile_lem_example =
    run_profile_lem fast_hash memory memory ticks 3 (omega arith) memory memory blank blank 64
      sixty_four start
