-- ===== src/LatencyProfile/Rounds.antt =====
-- The profiler of tools/profile_pipeline_latency.cpp on the full-match stream: whatever the clock reads
-- and however the threads interleave, none of its checks fails.
use lowlat_matching_engine.Common.{
  ℕ, ◌+◌, ◌^◌, ◌≤◌, ◌<◌, ◌≡◌, refl, sym, ap, ap₂, ◌∙◌, arith, true, some, List, map, length, ◌==◌,
}
use lowlat_matching_engine.Sink.{ExecutionBuffer, buffer_sink}
use lowlat_matching_engine.LatencyStats
use lowlat_matching_engine.LatencyStats.{LatencyStats}
use lowlat_matching_engine.Clob
use lowlat_matching_engine.Clob.{Clob, Outcome, submit_limit_order}
use lowlat_matching_engine.Workload.{generate, make_full_match_commands}
use lowlat_matching_engine.Ring.Slice.{IsRingCapacity}
use lowlat_matching_engine.Pipeline.{Engine, apply_all, push_each, pop_each, Steps}
use lowlat_matching_engine.Pipeline.Interleaving.{Steps_lem}
use lowlat_matching_engine.Pipeline.Sequences.{some_inj, apply_all-append}
use lowlat_matching_engine.Pipeline.Progress.{Steps-finish}
use lowlat_matching_engine.Pipeline.Starts.{trans}
use lowlat_matching_engine.Pipeline.Runs.{initial_engine}
use lowlat_matching_engine.Pipeline.FullMatch.{length-full_match, initial-IsBare, count}
use lowlat_matching_engine.Profile.{ask, bid, submit_each, book_orders}
use lowlat_matching_engine.Profile.FullMatch.{Waits-empty, both_loops, profile_cap}
use lowlat_matching_engine.LatencyProfile.{
  TimedOrderCommand, cmd_of, Profiled, apply_timed, result_of, profile_result, initial_profiled,
  TimedRun, RunProfile,
}
use lowlat_matching_engine.LatencyProfile.TimedLoop.{submit_each-Timed, map_split, untimed}

module _ (hash keys values clock : ℕ → ℕ) (n : ℕ) (few : n ≤ book_orders) where
  abbrev idle : Profiled ExecutionBuffer
  idle = initial_profiled hash keys values n

  -- The timed commands of the stream, however they are timed, are all carried out.
  timed_lem :
      (items : List TimedOrderCommand)
      → map cmd_of items ≡ make_full_match_commands n
      → (p : Profiled ExecutionBuffer) × (apply_all
            (apply_timed book_orders hash buffer_sink clock)
            idle
            items
          ≡ some p)
        × (p.engine.executions.size ≡ n)
        × (Clob.empty book_orders hash p.engine.book ≡ true)
        × (length p.queue_latency.samples ≡ n + n)
        × (length p.service_latency.samples ≡ n + n)
        × (length p.end_to_end_latency.samples ≡ n + n)
  unfolding make_full_match_commands initial_profiled LatencyStats.new
  timed_lem items same =
      let e = initial_engine hash keys values n in
      let (asks, ran, yes_it, kept, bids, ran', took) =
        both_loops book_orders hash profile_cap buffer_sink n e.book buffer_sink e.executions
          e.executions (initial-IsBare keys values n few hash) few in
      let (us, ws, whole, left, right) =
        map_split cmd_of (generate ask n 0) (generate (bid n) n 0) items same in
      let (p₁, first, one) =
        submit_each-Timed book_orders hash buffer_sink clock ask (λ i. refl) n 0 asks us idle ran
          yes_it left in
      let e₁ : (p₁.engine.book ≡ asks.book) × (p₁.engine.executions ≡ e.executions) = (
        ap (λ (x : Engine ExecutionBuffer). x.book) one.engine,
        ap (λ (x : Engine ExecutionBuffer). x.executions) one.engine ∙ kept,
      ) in
      let ran'' : submit_each book_orders hash buffer_sink (bid n) n 0 p₁.engine.book
            p₁.engine.executions
          ≡ some bids =
        ap₂ (submit_each book_orders hash buffer_sink (bid n) n 0) e₁.0 e₁.1 ∙ ran' in
      let (p₂, second, two) =
        submit_each-Timed book_orders hash buffer_sink clock (bid n) (λ i. refl) n 0 bids ws p₁
          ran'' took.accepted right in
      (
        p₂,
        ap (apply_all (apply_timed book_orders hash buffer_sink clock) idle) whole
            ∙ apply_all-append (apply_timed book_orders hash buffer_sink clock) idle p₁ us ws first
            ∙ second,
        ap (λ (x : Engine ExecutionBuffer). x.executions.size) two.engine
            ∙ ap (λ (x : ExecutionBuffer). x.size) took.reports
            ∙ count keys values n few hash,
        ap (λ (x : Engine ExecutionBuffer). Clob.empty book_orders hash x.book) two.engine
            ∙ Waits-empty book_orders hash profile_cap bids.book took.waits,
        omega (arith, one.queue, two.queue),
        omega (arith, one.service, two.service),
        omega (arith, one.end_to_end, two.end_to_end),
      )

  result_lem :
      (p50 p99 : ℕ → ℕ) (capacity : ℕ) (p : Profiled ExecutionBuffer)
      → p.engine.executions.size ≡ n
      → Clob.empty book_orders hash p.engine.book ≡ true
      → profile_result hash p50 p99 capacity n p ≡ some (result_of p50 p99 capacity p)
  unfolding profile_result
  result_lem p50 p99 capacity p size bare =
      let counted : p.engine.executions.size == n ≡ true = ground (arith, size) in
      rw (counted, bare)

  -- Whatever its clock reads, from every state that the two threads of the latency profiler reach
  -- on the full-match stream, with a ring of any capacity and no more orders of each side than the
  -- book has room for, they can go on until all commands are processed; then no check of the
  -- profiler fails, it returns its result, and each of the three latencies has been taken once for
  -- each command.
  pub run_profile_lem :
      (p50 p99 : ℕ → ℕ) (cells batch : ℕ → TimedOrderCommand) (capacity : ℕ)
      → IsRingCapacity capacity
      → {p : TimedRun}
      → RunProfile hash keys values cells batch clock capacity (make_full_match_commands n) n p
      → (q : TimedRun) × Steps cmd_of
          (apply_timed book_orders hash buffer_sink clock)
          push_each
          pop_each
          capacity
          (length (make_full_match_commands n))
          p
          q
        × (q.processed ≡ length (make_full_match_commands n))
        × (profile_result hash p50 p99 capacity n q.engine
            ≡ some (result_of p50 p99 capacity q.engine))
        × (length q.engine.queue_latency.samples ≡ n + n)
        × (length q.engine.service_latency.samples ≡ n + n)
        × (length q.engine.end_to_end_latency.samples ≡ n + n)
  run_profile_lem p50 p99 cells batch capacity ring_cap {p} steps =
      let handle = apply_timed book_orders hash buffer_sink clock in
      let commands = make_full_match_commands n in
      let short : length commands < 2 ^ 64 = omega (arith, length-full_match n, few) in
      let runs : (items : List TimedOrderCommand)
          → map cmd_of items ≡ commands
          → (e : Profiled ExecutionBuffer) × (apply_all handle idle items ≡ some e) =
        λ items same. let t = timed_lem items same in (t.0, t.1) in
      let (q, more, done) =
        Steps-finish cmd_of handle push_each pop_each capacity ring_cap untimed (λ c. refl) commands
          idle short runs tt tt steps in
      let (items, same, ran) =
        Steps_lem cmd_of handle push_each pop_each capacity ring_cap short
          (trans cmd_of handle push_each pop_each steps more) done in
      let (e, ran', size, bare, queue, service, end_to_end) = timed_lem items same in
      let is : e ≡ q.engine = some_inj (sym ran' ∙ ran) in
      let result =
        result_lem p50 p99 capacity q.engine
          (ap (λ (x : Profiled ExecutionBuffer). x.engine.executions.size) (sym is) ∙ size)
          (ap (λ (x : Profiled ExecutionBuffer). Clob.empty book_orders hash x.engine.book) (sym is)
            ∙ bare) in
      (
        q,
        more,
        done,
        result,
        ap (λ (x : Profiled ExecutionBuffer). length x.queue_latency.samples) (sym is) ∙ queue,
        ap (λ (x : Profiled ExecutionBuffer). length x.service_latency.samples) (sym is) ∙ service,
        ap (λ (x : Profiled ExecutionBuffer). length x.end_to_end_latency.samples) (sym is)
            ∙ end_to_end,
      )
