-- ===== src/Tests/PipelineTests.antt =====
-- bench/bench_pipeline.cpp at a ring of two commands and a book of two orders: a sell is pushed, then
-- its cancellation, and both are processed.
use lowlat_matching_engine.Common.{
  ℕ, ◌+◌, map, ◌≡◌, refl, arith, true, Option, some, none, List, [], ◌∷◌,
}
use lowlat_matching_engine.Types.{buy, sell, Execution, OrderCommand, add_limit, cancel}
use lowlat_matching_engine.Pool
use lowlat_matching_engine.Index
use lowlat_matching_engine.Index.{fast_hash}
use lowlat_matching_engine.Index.Probing.{IsCapacity}
use lowlat_matching_engine.Sink.{vector_sink}
use lowlat_matching_engine.Ring
use lowlat_matching_engine.Ring.{Ring}
use lowlat_matching_engine.Ring.Slice.{IsRingCapacity}
use lowlat_matching_engine.Clob
use lowlat_matching_engine.Clob.{Clob}
use lowlat_matching_engine.Clob.Create.{empty_view, new-Represents}
use lowlat_matching_engine.Pipeline.{
  Engine, Pipeline, push_each, push_batches, pop_each, pop_batches, apply_all, apply_command,
  run_commands, produce, produce_many, consume, consume_many, Steps, start, then, begin,
}
use lowlat_matching_engine.Pipeline.Benchmarks.{
  apply_index, observe, indices, queue_only_lem, index_queue_lem, raw_exec_lem,
}
use lowlat_matching_engine.Pipeline.Commands.{IsSound, run_commands-IsSound}
use lowlat_matching_engine.Pipeline.Interleaving.{Steps_lem}

four : IsCapacity 4
four = record { log = 2; single_bit = refl; many = omega arith; word = omega arith }

two : IsRingCapacity 2
two = record { log = 1; single_bit = refl; small = omega arith; many = omega arith }

abbrev idle : Engine (List Execution)
idle = record { book = Clob.new 2 fast_hash (λ i. i) (λ i. i) 1 10; executions = [] }

abbrev ask : OrderCommand
ask = record { order_id = 7; price = 5; qty = 3; type = add_limit; side = sell }

abbrev withdrawal : OrderCommand
withdrawal = record { order_id = 7; price = 0; qty = 0; type = cancel; side = buy }

abbrev both : List OrderCommand
both = ask ∷ withdrawal ∷ []

idle-IsSound : IsSound 2 fast_hash four idle.book
idle-IsSound = record {
  view = empty_view;
  stored =
      (new-Represents 2 fast_hash four (λ i. i) (λ i. i) 1 10 (omega arith) (omega arith)
        (omega arith) (omega arith)).0;
  apart = λ bid ask bl bh al ah bne ane. absurd (bne refl);
}

run_commands-IsSound_example :
    (e : Engine (List Execution)) × (run_commands 2 fast_hash vector_sink idle both ≡ some e)
    × IsSound 2 fast_hash four e.book
run_commands-IsSound_example =
    run_commands-IsSound 2 fast_hash four vector_sink idle both idle-IsSound
      (omega arith, omega arith, (omega arith, omega arith, tt))

abbrev ring₀ : Ring OrderCommand
ring₀ = record { cells = λ _. ask; head = 0; tail = 0 }

abbrev ring₁ : Ring OrderCommand
ring₁ = (Ring.push 2 ring₀ ask).1

abbrev ring₂ : Ring OrderCommand
ring₂ = (Ring.push 2 ring₁ withdrawal).1

abbrev ring₃ : Ring OrderCommand
ring₃ = (Ring.pop 2 ring₂).1

abbrev ring₄ : Ring OrderCommand
ring₄ = (Ring.pop 2 ring₃).1

abbrev result : Option (Engine (List Execution)) → Engine (List Execution)
result none = idle
result (some e) = e

abbrev engine₁ : Engine (List Execution)
engine₁ = result (apply_command 2 fast_hash vector_sink idle ask)

abbrev engine₂ : Engine (List Execution)
engine₂ = result (apply_command 2 fast_hash vector_sink engine₁ withdrawal)

ring_steps :
    (Ring.push 2 ring₀ ask ≡ (true, ring₁))
    × (Ring.push 2 ring₁ withdrawal ≡ (true, ring₂))
    × (Ring.pop 2 ring₂ ≡ (some ask, ring₃))
    × (Ring.pop 2 ring₃ ≡ (some withdrawal, ring₄))
unfolding Ring.push Ring.pop Ring.masked
ring_steps = (refl, refl, refl, refl)

abbrev Run : Type 0
Run = Pipeline OrderCommand OrderCommand (Engine (List Execution))

abbrev finish : Run
finish = record { queue = ring₄; to_push = []; batch = λ _. ask; engine = engine₂; processed = 2 }

abbrev halfway : Run
halfway = record {
  queue = ring₁;
  to_push = withdrawal ∷ [];
  batch = λ _. ask;
  engine = idle;
  processed = 0;
}

engine_steps :
    (apply_command 2 fast_hash vector_sink idle ask ≡ some engine₁)
    × (apply_command 2 fast_hash vector_sink engine₁ withdrawal ≡ some engine₂)
unfolding apply_command Clob.new Index.find Index.new Index.clear Index.insert fast_hash
    Pool.allocate Pool.new Clob.add_order Clob.place_order Clob.append_to_level
    Clob.update_best_after_add Clob.level Clob.set_level Clob.set_order Index.wrap
    Clob.submit_limit_order Clob.match_order Clob.match_at_level Index.contains Clob.crosses
    Clob.remove_order_by_index Clob.unlink_from_level Clob.unlink_prev Clob.unlink_next Index.erase
    Pool.release Clob.cancel_order Clob.refresh_best_after_empty_level Clob.scan_down Clob.scan_up
    Clob.reduce_order_quantity
engine_steps = (refl, refl)

abbrev AddAndCancel : Run → Type 0
AddAndCancel =
    Steps (λ c. c) (apply_command 2 fast_hash vector_sink) push_each pop_each 2 2
      (begin (λ _. ask) (λ _. ask) both idle)

first_step : AddAndCancel halfway
first_step = then start (produce ask (withdrawal ∷ []) ring₁ refl refl ring_steps.0)

all_steps : AddAndCancel finish
all_steps =
    then
      (then (then first_step (produce withdrawal [] ring₂ refl refl ring_steps.1))
        (consume ask ring₃ engine₁ refl (omega arith) ring_steps.2 engine_steps.0))
      (consume withdrawal ring₄ engine₂ refl (omega arith) ring_steps.3 engine_steps.1)

Steps_lem_example :
    (items : List OrderCommand) × (map (λ c. c) items ≡ both)
    × (apply_all (apply_command 2 fast_hash vector_sink) idle items ≡ some engine₂)
Steps_lem_example =
    Steps_lem (λ c. c) (apply_command 2 fast_hash vector_sink) push_each pop_each 2 two
      (omega arith) all_steps refl

raw_exec_lem_example :
    (q : Run) × Steps
      (λ c. c)
      (apply_command 2 fast_hash vector_sink)
      push_each
      pop_each
      2
      2
      halfway
      q
    × (q.processed ≡ 2)
    × (run_commands 2 fast_hash vector_sink idle both ≡ some q.engine)
    × IsSound 2 fast_hash four q.engine.book
raw_exec_lem_example =
    raw_exec_lem push_each pop_each 2 two 2 fast_hash four vector_sink (omega arith)
      (omega arith, omega arith, (omega arith, omega arith, tt)) idle-IsSound tt tt first_step

abbrev numbers₃ : List ℕ
numbers₃ = 4 ∷ 5 ∷ 6 ∷ []

abbrev input : ℕ → ℕ
input i = i + 4

abbrev last : ℕ → ℕ
last i = 6

abbrev a₀ : Ring ℕ
a₀ = record { cells = λ _. 0; head = 0; tail = 0 }

abbrev a₁ : Ring ℕ
a₁ = (Ring.push_many 2 a₀ input 2).1

abbrev first_batch : ℕ × (ℕ → ℕ) × Ring ℕ
first_batch = Ring.pop_many 2 a₁ (λ _. 0) 2

abbrev a₂ : Ring ℕ
a₂ = (Ring.push_many 2 first_batch.2 last 1).1

abbrev last_batch : ℕ × (ℕ → ℕ) × Ring ℕ
last_batch = Ring.pop_many 2 a₂ first_batch.1 2

abbrev looked : Pipeline ℕ ℕ (List ℕ)
looked = record {
  queue = last_batch.2;
  to_push = [];
  batch = last_batch.1;
  engine = numbers₃;
  processed = 3;
}

-- The three numbers go through the ring in batches of two.
batch_steps :
    Steps
      (λ c. c)
      observe
      (push_batches 2)
      (pop_batches 2)
      2
      3
      (begin (λ _. 0) (λ _. 0) numbers₃ [])
      looked
unfolding Ring.push_many Ring.pop_many Ring.write_many Ring.read_many Ring.masked apply_all observe
batch_steps =
    then
      (then
        (then (then start (produce_many 2 2 input a₁ refl (omega arith) refl refl))
          (consume_many 2 2 first_batch.1 first_batch.2 (4 ∷ 5 ∷ []) refl (omega arith) refl refl))
        (produce_many 2 1 last a₂ refl (omega arith) refl refl))
      (consume_many 2 1 last_batch.1 last_batch.2 numbers₃ refl (omega arith) refl refl)

queue_only_lem_example : numbers₃ ≡ numbers₃
queue_only_lem_example =
    queue_only_lem (push_batches 2) (pop_batches 2) 2 two (omega arith) batch_steps refl

abbrev i₁ : Ring ℕ
i₁ = (Ring.push 2 a₀ 0).1

abbrev i₂ : Ring ℕ
i₂ = (Ring.pop 2 i₁).1

-- One command by its index.
index_steps :
    Steps
      (λ c. c)
      (apply_index observe (ask ∷ []))
      push_each
      pop_each
      2
      1
      (begin (λ _. 0) (λ _. 0) (indices 1 0) [])
      (record { queue = i₂; to_push = []; batch = λ _. 0; engine = ask ∷ []; processed = 1 })
unfolding Ring.push Ring.pop Ring.masked observe apply_index indices
index_steps =
    then (then start (produce 0 [] i₁ refl refl refl))
      (consume 0 i₂ (ask ∷ []) refl (omega arith) refl refl)

index_queue_lem_example : apply_all observe [] (ask ∷ []) ≡ some (ask ∷ [])
index_queue_lem_example =
    index_queue_lem push_each pop_each 2 two observe (ask ∷ []) (omega arith) index_steps refl
