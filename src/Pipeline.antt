-- ===== src/Pipeline.antt =====
-- The pipelines of bench/bench_pipeline.cpp: one thread pushes items into the ring, another pops them
-- and works on each. A step is one round of the loop of one thread.
pub mod Commands
pub mod Sequences
pub mod Interleaving
pub mod Starts
pub mod Progress
pub mod Benchmarks
pub mod Runs
pub mod FullMatch
use lowlat_matching_engine.Common.{
  ℕ, ◌+◌, ◌<◌, ◌≡◌, Bool, true, false, Option, none, some, List, [], ◌∷◌, map, add64, length, min,
  prefix, drop,
}
use lowlat_matching_engine.Types.{CommandType, add_limit, cancel, OrderCommand}
use lowlat_matching_engine.Sink.{Sink}
use lowlat_matching_engine.Ring
use lowlat_matching_engine.Ring.{Ring}
use lowlat_matching_engine.Clob.{Clob, submit_limit_order, cancel_order}

-- What the consumer owns where it runs the book.
pub record Engine (S : Type 0) : Type 0 where
  pub book : Clob
  pub executions : S

module _ (max_orders : ℕ) (hash : ℕ → ℕ) {S : Type 0} (sink : Sink S) where
  -- The branch on `command.type`.
  unfoldable pub apply_command : Engine S → OrderCommand → Option (Engine S)
  apply_command e command = elim command.type [
    | add_limit ↦
        elim (submit_limit_order max_orders hash sink e.book command.order_id command.side
          command.price command.qty e.executions) [
            | none ↦ none
            | some o ↦ some (record { book = o.book; executions = o.executions })
          ]
    | cancel ↦ some (record {
      book = (cancel_order max_orders hash e.book command.order_id).1;
      executions = e.executions;
    })
  ]

-- `for (i = 0; i < n; ++i)` over items, the work on one item being `handle`.
unfoldable pub apply_all : {A E : Type 0} → (E → A → Option E) → E → List A → Option E
apply_all handle e [] = some e
apply_all handle e (x ∷ rest) = elim (handle e x) [
  | none ↦ none
  | some e' ↦ apply_all handle e' rest
]

-- The commands applied one after another, with no ring in between.
abbrev pub run_commands :
    (max_orders : ℕ)
    → (ℕ → ℕ)
    → {S : Type 0} → Sink S
    → Engine S
    → List OrderCommand
    → Option (Engine S)
run_commands max_orders hash sink e commands =
    apply_all (apply_command max_orders hash sink) e commands

-- How a producer pushes: `push` of one item, or `push_many` of at most a batch.
pub data Producer : Type 0 where
  push_each : Producer
  push_batches : (size : ℕ) → Producer

-- How a consumer pops: `pop` of one item, or `pop_many` of at most a batch.
pub data Consumer : Type 0 where
  pop_each : Consumer
  pop_batches : (size : ℕ) → Consumer

-- Both threads: the ring, the sources of items that are not pushed yet, and what the consumer owns:
-- its array for a batch, what it works on, and `processed`.
pub record Pipeline (C A E : Type 0) : Type 0 where
  pub queue : Ring A
  pub to_push : List C
  pub batch : ℕ → A
  pub engine : E
  pub processed : ℕ

-- An item is made from the source `source_of` gives back; `total` is the number of sources.
module _ {C A E : Type 0} (source_of : A → C) (handle : E → A → Option E) (producer : Producer)
    (consumer : Consumer) where
  pub data Step (capacity total : ℕ) (p : Pipeline C A E) : Pipeline C A E → Type 0 where
    produce :
        (x : A) (rest : List C) (queue : Ring A)
        → producer ≡ push_each
        → p.to_push ≡ source_of x ∷ rest
        → Ring.push capacity p.queue x ≡ (true, queue)
        → Step capacity total p (record p { queue = queue; to_push = rest })
    produce_full :
        (x : A) (rest : List C) (queue : Ring A)
        → producer ≡ push_each
        → p.to_push ≡ source_of x ∷ rest
        → Ring.push capacity p.queue x ≡ (false, queue)
        → Step capacity total p (record p { queue = queue })
    produce_many :
        (size n : ℕ) (input : ℕ → A) (queue : Ring A)
        → producer ≡ push_batches size
        → 0 < length p.to_push
        → map source_of (prefix input 0 (length p.to_push)) ≡ p.to_push
        → Ring.push_many capacity p.queue input (min size (length p.to_push)) ≡ (n, queue)
        → Step capacity total p (record p { queue = queue; to_push = drop n p.to_push })
    consume :
        (x : A) (queue : Ring A) (engine : E)
        → consumer ≡ pop_each
        → p.processed < total
        → Ring.pop capacity p.queue ≡ (some x, queue)
        → handle p.engine x ≡ some engine
        → Step capacity total p
            (record p { queue = queue; engine = engine; processed = add64 p.processed 1 })
    consume_empty :
        (queue : Ring A)
        → consumer ≡ pop_each
        → p.processed < total
        → Ring.pop capacity p.queue ≡ (none, queue)
        → Step capacity total p (record p { queue = queue })
    consume_many :
        (size n : ℕ) (batch : ℕ → A) (queue : Ring A) (engine : E)
        → consumer ≡ pop_batches size
        → p.processed < total
        → Ring.pop_many capacity p.queue p.batch size ≡ (n, batch, queue)
        → apply_all handle p.engine (prefix batch 0 n) ≡ some engine
        → Step capacity total p (record p {
          queue = queue;
          batch = batch;
          engine = engine;
          processed = add64 p.processed n;
        })

  -- Any interleaving of rounds of the two threads.
  pub data Steps (capacity total : ℕ) (p : Pipeline C A E) : Pipeline C A E → Type 0 where
    start : Steps capacity total p p
    then :
        {q r : Pipeline C A E}
        → Steps capacity total p q
        → Step capacity total q r
        → Steps capacity total p r

-- Both threads at the start, the ring being new.
abbrev pub begin : {C A E : Type 0} → (ℕ → A) → (ℕ → A) → List C → E → Pipeline C A E
begin cells batch sources engine = record {
  queue = record { cells = cells; head = 0; tail = 0 };
  to_push = sources;
  batch = batch;
  engine = engine;
  processed = 0;
}
