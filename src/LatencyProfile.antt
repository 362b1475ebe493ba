-- ===== src/LatencyProfile.antt =====
-- tools/profile_pipeline_latency.cpp: a pipeline whose commands carry the time of their sending, and
-- whose consumer takes latencies. `clock` is what the consumer's calls of `now_ns` read; `std::exit`
-- and output are left out, and a run that exits gives nothing.
pub mod TimedLoop
pub mod Rounds
use lowlat_matching_engine.Common.{
  ℕ, zero, suc, ◌+◌, ◌==◌, if◌then◌else◌, not, Option, none, some, List, [], length, sub64,
}
use lowlat_matching_engine.Types.{add_limit, cancel, OrderCommand}
use lowlat_matching_engine.Sink.{Sink, ExecutionBuffer, buffer_sink}
use lowlat_matching_engine.LatencyStats
use lowlat_matching_engine.LatencyStats.{LatencyStats}
use lowlat_matching_engine.Clob
use lowlat_matching_engine.Clob.{Clob, submit_limit_order, cancel_order}
use lowlat_matching_engine.Pipeline.{Engine, Pipeline, push_each, pop_each, Steps, begin}
use lowlat_matching_engine.Pipeline.Runs.{initial_engine}
use lowlat_matching_engine.Profile.{book_orders}

pub record TimedOrderCommand : Type 0 where
  pub cmd : OrderCommand
  pub sent_ns : ℕ

-- The command of a timed one.
abbrev pub cmd_of : TimedOrderCommand → OrderCommand
cmd_of timed = timed.cmd

-- What the consumer works on, and how often it has read the clock.
pub record Profiled (S : Type 0) : Type 0 where
  pub engine : Engine S
  pub queue_latency : LatencyStats
  pub service_latency : LatencyStats
  pub end_to_end_latency : LatencyStats
  pub readings : ℕ

module _ (max_orders : ℕ) (hash : ℕ → ℕ) {S : Type 0} (sink : Sink S) (clock : ℕ → ℕ) where
  -- The latencies of a command that was carried out.
  unfoldable pub finish_timed :
      Profiled S → TimedOrderCommand → (book : Clob) (executions : S) → Profiled S
  finish_timed p timed book executions =
      let received_ns = clock p.readings in
      let done_ns = clock (p.readings + 1) in
      record {
        engine = record { book = book; executions = executions };
        queue_latency = LatencyStats.add p.queue_latency (sub64 received_ns timed.sent_ns);
        service_latency = LatencyStats.add p.service_latency (sub64 done_ns received_ns);
        end_to_end_latency = LatencyStats.add p.end_to_end_latency (sub64 done_ns timed.sent_ns);
        readings = p.readings + 2;
      }

  unfoldable pub apply_timed : Profiled S → TimedOrderCommand → Option (Profiled S)
  unfolding finish_timed
  apply_timed p timed = elim timed.cmd.type [
    | add_limit ↦
        elim (submit_limit_order max_orders hash sink p.engine.book timed.cmd.order_id
          timed.cmd.side timed.cmd.price timed.cmd.qty p.engine.executions) [
            | none ↦ none
            | some o ↦ if o.accepted then some (finish_timed p timed o.book o.executions) else none
          ]
    | cancel ↦
        let (ok, book) = cancel_order max_orders hash p.engine.book timed.cmd.order_id in
        if ok then some (finish_timed p timed book p.engine.executions) else none
  ]

pub record ProfileResult : Type 0 where
  pub capacity : ℕ
  pub queue_p50_ns : ℕ
  pub queue_p99_ns : ℕ
  pub service_p50_ns : ℕ
  pub service_p99_ns : ℕ
  pub end_to_end_p99_ns : ℕ

-- The result that `run_profile` returns, less the elapsed time, which is a double. `p50` and `p99` are
-- the positions that the double arithmetic of `percentile` gives.
unfoldable pub result_of :
    {S : Type 0} (p50 p99 : ℕ → ℕ) (capacity : ℕ) → Profiled S → ProfileResult
result_of p50 p99 capacity p =
    let (queue_p50, queue_latency) = LatencyStats.percentile p.queue_latency p50 in
    let (service_p50, service_latency) = LatencyStats.percentile p.service_latency p50 in
    record {
      capacity = capacity;
      queue_p50_ns = queue_p50;
      queue_p99_ns = (LatencyStats.percentile queue_latency p99).0;
      service_p50_ns = service_p50;
      service_p99_ns = (LatencyStats.percentile service_latency p99).0;
      end_to_end_p99_ns = (LatencyStats.percentile p.end_to_end_latency p99).0;
    }

-- What is checked after both threads are joined.
unfoldable pub profile_result :
    (hash : ℕ → ℕ) (p50 p99 : ℕ → ℕ) (capacity expected_executions : ℕ)
    → Profiled ExecutionBuffer
    → Option ProfileResult
profile_result hash p50 p99 capacity expected_executions p =
    if not (p.engine.executions.size == expected_executions)
    then none
    else if not (Clob.empty book_orders hash p.engine.book)
    then none
    else some (result_of p50 p99 capacity p)

-- The consumer of `run_profile` at the start.
unfoldable pub initial_profiled :
    (ℕ → ℕ) → (keys values : ℕ → ℕ) → (expected_executions : ℕ) → Profiled ExecutionBuffer
initial_profiled hash keys values expected_executions = record {
  engine = initial_engine hash keys values expected_executions;
  queue_latency = LatencyStats.new;
  service_latency = LatencyStats.new;
  end_to_end_latency = LatencyStats.new;
  readings = 0;
}

abbrev pub TimedRun : Type 0
TimedRun = Pipeline OrderCommand TimedOrderCommand (Profiled ExecutionBuffer)

-- The states of the two threads of `run_profile`. The producer reads the clock each time it tries to
-- push, so that any time may be in the commands that are pushed.
module _ (hash : ℕ → ℕ) (keys values : ℕ → ℕ) (cells batch : ℕ → TimedOrderCommand) (clock : ℕ → ℕ)
    (capacity : ℕ) (commands : List OrderCommand) (expected_executions : ℕ) where
  abbrev pub RunProfile : TimedRun → Type 0
  RunProfile =
      Steps cmd_of (apply_timed book_orders hash buffer_sink clock) push_each pop_each capacity
        (length commands)
        (begin cells batch commands (initial_profiled hash keys values expected_executions))
