-- ===== src/Pipeline/Runs.antt =====
-- The benchmark functions of bench/bench_pipeline.cpp: which states the two threads of each can
-- reach. `keys`, `values`, `cells` and `batch` are what memory that is not initialised contains.
use lowlat_matching_engine.Common.{ℕ, List, [], length}
use lowlat_matching_engine.Types.{OrderCommand}
use lowlat_matching_engine.Sink.{ExecutionBuffer, no_execution, reserve, buffer_sink}
use lowlat_matching_engine.Index.{fast_hash}
use lowlat_matching_engine.Clob
use lowlat_matching_engine.Workload.{make_add_only_commands, make_full_match_commands}
use lowlat_matching_engine.Pipeline.{
  Engine, Pipeline, Producer, push_each, push_batches, Consumer, pop_each, pop_batches,
  apply_command, Steps, begin,
}
use lowlat_matching_engine.Pipeline.Benchmarks.{itself, apply_index, observe, indices, numbers}

abbrev pub queue_capacity : ℕ
queue_capacity = 1048576

abbrev pub batch_size : ℕ
batch_size = 32

unfoldable pub no_executions : ExecutionBuffer
no_executions = record { cells = λ _. no_execution; capacity = 0; size = 0 }

-- A new book and a buffer for `n` executions.
unfoldable pub initial_engine : (ℕ → ℕ) → (keys values : ℕ → ℕ) → ℕ → Engine ExecutionBuffer
initial_engine hash keys values n = record {
  book = Clob.new queue_capacity hash keys values 8000 12000;
  executions = reserve no_executions n;
}

abbrev pub BookRun : Type 0
BookRun = Pipeline OrderCommand OrderCommand (Engine ExecutionBuffer)

module _ (keys values : ℕ → ℕ) (n : ℕ) where
  module _ (cells batch : ℕ → OrderCommand) where
    -- The states of the two threads of a benchmark that runs the book on `commands`.
    abbrev pub RawExec : (ℕ → ℕ) → Producer → Consumer → List OrderCommand → BookRun → Type 0
    RawExec hash producer consumer commands =
        Steps itself (apply_command queue_capacity hash buffer_sink) producer consumer
          queue_capacity (length commands)
          (begin cells batch commands (initial_engine hash keys values n))

    abbrev pub FastAddOnlyRawExec : BookRun → Type 0
    FastAddOnlyRawExec = RawExec fast_hash push_each pop_each (make_add_only_commands n)

    abbrev pub FastFullMatchRawExec : BookRun → Type 0
    FastFullMatchRawExec = RawExec fast_hash push_each pop_each (make_full_match_commands n)

    abbrev pub FullMatchBatchPopRawExec : ℕ → (ℕ → ℕ) → BookRun → Type 0
    FullMatchBatchPopRawExec size hash =
        RawExec hash push_each (pop_batches size) (make_full_match_commands n)

    abbrev pub FullMatchBatchPushPopRawExec : ℕ → (ℕ → ℕ) → BookRun → Type 0
    FullMatchBatchPushPopRawExec size hash =
        RawExec hash (push_batches size) (pop_batches size) (make_full_match_commands n)

    -- Both threads first pin themselves to a core and ignore whether that worked.
    abbrev pub FullMatchBatchPopPinnedRawExec : ℕ → (ℕ → ℕ) → BookRun → Type 0
    FullMatchBatchPopPinnedRawExec size hash =
        RawExec hash push_each (pop_batches size) (make_full_match_commands n)

    abbrev pub FullMatchQueueOnly :
        ℕ → Pipeline OrderCommand OrderCommand (List OrderCommand) → Type 0
    FullMatchQueueOnly size =
        let commands = make_full_match_commands n in
        Steps itself observe push_each (pop_batches size) queue_capacity (length commands)
          (begin cells batch commands [])

  module _ (cells batch : ℕ → ℕ) where
    abbrev pub FastFullMatchIndexQueueRawExec : Pipeline ℕ ℕ (Engine ExecutionBuffer) → Type 0
    FastFullMatchIndexQueueRawExec =
        let commands = make_full_match_commands n in
        Steps itself (apply_index (apply_command queue_capacity fast_hash buffer_sink) commands)
          push_each pop_each queue_capacity (length commands)
          (begin cells batch (indices (length commands) 0) (initial_engine fast_hash keys values n))

    abbrev pub FullMatchIndexQueueOnly : Pipeline ℕ ℕ (List OrderCommand) → Type 0
    FullMatchIndexQueueOnly =
        let commands = make_full_match_commands n in
        Steps itself (apply_index observe commands) push_each pop_each queue_capacity
          (length commands) (begin cells batch (indices (length commands) 0) [])

    abbrev pub Uint64QueueOnly : Pipeline ℕ ℕ (List ℕ) → Type 0
    Uint64QueueOnly =
        Steps itself observe push_each pop_each queue_capacity n
          (begin cells batch (numbers n 0) [])
