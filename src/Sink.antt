-- ===== src/Sink.antt =====
-- src/execution_sink.hpp: where executions go. The book's template parameter `ExecutionSink` is the
-- interface `Sink`; `std::vector`, `ExecutionBuffer` and `NullExecutionSink` implement it.
pub mod Buffer
use lowlat_matching_engine.Common.{
  ℕ, zero, suc, ◌+◌, ◌≡◌, refl, List, [], ◌∷◌, ◌++◌, if◌then◌else◌, leb, update, add64,
}
use lowlat_matching_engine.Types.{Execution}

pub record Sink (S : Type 0) : Type 0 where
  pub emplace_back : S → Execution → S

abbrev pub no_execution : Execution
no_execution = record { incoming_order_id = 0; resting_order_id = 0; price = 0; qty = 0 }

-- `std::vector<Execution>`
abbrev pub vector_sink : Sink (List Execution)
vector_sink = record { emplace_back = λ s e. s ++ e ∷ [] }

-- `NullExecutionSink`
abbrev pub null_sink : Sink (Unit {0})
null_sink = record { emplace_back = λ s _. s }

-- `ExecutionBuffer`
pub record ExecutionBuffer : Type 0 where
  pub cells : ℕ → Execution
  pub capacity : ℕ
  pub size : ℕ

-- `std::copy_n`, with the cells that are left
unfoldable pub copy_n : ℕ → ℕ → (ℕ → Execution) → (ℕ → Execution) → ℕ → Execution
copy_n zero i from to = to
copy_n (suc n) i from to = copy_n n (i + 1) from (update to i (from i))

-- A null `data_` has no cell to copy: its `size_` is 0.
unfoldable pub reserve : ExecutionBuffer → ℕ → ExecutionBuffer
unfolding copy_n
reserve b new_capacity =
    if leb new_capacity b.capacity
    then b
    else record b { cells = copy_n b.size 0 b.cells (λ _. no_execution); capacity = new_capacity }

-- Its assertion, `size_ < capacity_`, is a precondition: what it gives where there is no room stands
-- for no run of the code.
unfoldable pub buffer_emplace_back : ExecutionBuffer → Execution → ExecutionBuffer
buffer_emplace_back b e = record b { cells = update b.cells b.size e; size = add64 b.size 1 }

unfoldable pub clear : ExecutionBuffer → ExecutionBuffer
clear b = record b { size = 0 }

abbrev pub buffer_sink : Sink ExecutionBuffer
unfolding buffer_emplace_back
buffer_sink = record { emplace_back = buffer_emplace_back }

-- A sequence of executions handed to a sink, in order.
module _ {S : Type 0} (sink : Sink S) where
  unfoldable pub emit : S → List Execution → S
  emit s [] = s
  emit s (e ∷ es) = emit (sink.emplace_back s e) es

  pub emit-append : (s : S) (xs ys : List Execution) → emit s (xs ++ ys) ≡ emit (emit s xs) ys
  unfolding emit
  emit-append s [] ys = refl
  emit-append s (e ∷ xs) ys = emit-append (sink.emplace_back s e) xs ys
