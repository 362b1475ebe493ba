-- ===== src/Sink/Buffer.antt =====
-- `ExecutionBuffer` of src/execution_sink.hpp does what a `std::vector` does.
use lowlat_matching_engine.Common.{
  ℕ, zero, suc, ◌+◌, ◌^◌, ◌<◌, ◌≤◌, ◌≡◌, refl, sym, ap, ◌∙◌, inl, inr, arith, List, [], ◌∷◌, ◌++◌,
  length, leb, Bool-cases, update, update_self, update_ne, add64, eq-cases, ap₂,
}
use lowlat_matching_engine.Types.{Execution}
use lowlat_matching_engine.Sink.{
  ExecutionBuffer, no_execution, copy_n, reserve, buffer_emplace_back, clear, buffer_sink,
  vector_sink, emit,
}

-- `n` cells from the first on.
abbrev cells_up_to : (ℕ → Execution) → ℕ → List Execution
cells_up_to cells zero = []
cells_up_to cells (suc n) = cells_up_to cells n ++ cells n ∷ []

-- The vector that a buffer stands for.
abbrev pub contents : ExecutionBuffer → List Execution
contents b = cells_up_to b.cells b.size

-- The buffer holds no more than it has room for, which is what its assertion asks for before each
-- execution it takes in.
pub record IsBuffer (b : ExecutionBuffer) : Type 0 where
  pub fits : b.size ≤ b.capacity
  pub word : b.capacity < 2 ^ 64

cells_up_to-congr :
    (f g : ℕ → Execution) (n : ℕ)
    → ((i : ℕ) → i < n → f i ≡ g i)
    → cells_up_to f n ≡ cells_up_to g n
cells_up_to-congr f g zero same = refl
cells_up_to-congr f g (suc n) same =
    let rest = cells_up_to-congr f g n (λ i h. same i (omega (arith, h))) in
    let last = same n (omega arith) in cc

-- Copying leaves the cells before it alone, and copies the others.
copy_n-below : (n i : ℕ) (from to : ℕ → Execution) (j : ℕ) → j < i → copy_n n i from to j ≡ to j
unfolding copy_n
copy_n-below zero i from to j h = refl
copy_n-below (suc n) i from to j h =
    copy_n-below n (i + 1) from (update to i (from i)) j (omega (arith, h))
    ∙ update_ne to (from i) (λ e. omega (arith, e, h))

copy_n-copied :
    (n i : ℕ) (from to : ℕ → Execution) (j : ℕ) → i ≤ j → j < i + n → copy_n n i from to j ≡ from j
unfolding copy_n
copy_n-copied zero i from to j l h = absurd (omega (arith, l, h))
copy_n-copied (suc n) i from to j l h = elim (eq-cases i j) [
  | inl here ↦
      copy_n-below n (i + 1) from (update to i (from i)) j (omega (arith, here))
      ∙ ap (update to i (from i)) (sym here)
      ∙ update_self to i (from i)
      ∙ ap from here
  | inr away ↦
      copy_n-copied n (i + 1) from (update to i (from i)) j (omega (arith, l, away))
        (omega (arith, h))
]

-- Reserving keeps the contents and makes the room asked for.
pub reserve_lem :
    (b : ExecutionBuffer) (n : ℕ)
    → IsBuffer b
    → n < 2 ^ 64
    → IsBuffer (reserve b n)
      × (contents (reserve b n) ≡ contents b)
      × (n ≤ (reserve b n).capacity)
      × ((reserve b n).size ≡ b.size)
unfolding reserve
reserve_lem b n v small = elim (Bool-cases (leb n b.capacity)) [
  | inl enough ↦ rw enough (v, refl, (let h : n ≤ b.capacity = ground (arith, enough) in h), refl)
  | inr more ↦
      let h : b.capacity < n = ground (arith, more) in
      rw more (
        record { fits = omega (arith, v.fits, h); word = small },
        cells_up_to-congr (copy_n b.size 0 b.cells (λ _. no_execution)) b.cells b.size (λ i h.
            copy_n-copied b.size 0 b.cells (λ _. no_execution) i (omega arith) (omega (arith, h))),
        omega arith,
        refl,
      )
]

-- An execution goes to the end, where there is room.
pub emplace_back_lem :
    (b : ExecutionBuffer) (e : Execution)
    → IsBuffer b
    → b.size < b.capacity
    → IsBuffer (buffer_emplace_back b e)
      × (contents (buffer_emplace_back b e) ≡ contents b ++ e ∷ [])
      × ((buffer_emplace_back b e).size ≡ suc b.size)
unfolding buffer_emplace_back
emplace_back_lem b e v room =
    let next : add64 b.size 1 ≡ suc b.size = omega (arith, v.word, room) in
    (
      record { fits = omega (arith, next, room); word = v.word },
      ap (cells_up_to (update b.cells b.size e)) next
          ∙ ap₂ (λ (q : List Execution) (x : Execution). q ++ x ∷ [])
              (cells_up_to-congr (update b.cells b.size e) b.cells b.size
                (λ i h. update_ne b.cells e (λ is. omega (arith, is, h))))
              (update_self b.cells b.size e),
      next,
    )

-- Executions for which there is room are kept as a vector keeps them.
emit-contents :
    (b : ExecutionBuffer) (es : List Execution)
    → IsBuffer b
    → b.size + length es ≤ b.capacity
    → IsBuffer (emit buffer_sink b es)
      × (contents (emit buffer_sink b es) ≡ emit vector_sink (contents b) es)
unfolding emit buffer_emplace_back
emit-contents b [] v room = (v, refl)
emit-contents b (e ∷ es) v room =
    let (v', grown, more) = emplace_back_lem b e v (omega (arith, room)) in
    let (v'', same) = emit-contents (buffer_emplace_back b e) es v' (omega (arith, more, room)) in
    (v'', same ∙ ap (λ (q : List Execution). emit vector_sink q es) grown)

-- Where memory is reserved for what a buffer holds and for some more executions, fewer than 2^64
-- in all, the buffer takes these in without outgrowing its memory and then holds what a vector
-- would; clear leaves it without any.
pub reserve-emit :
    (b : ExecutionBuffer) (n : ℕ) (es : List Execution)
    → IsBuffer b
    → b.size + length es ≤ n
    → n < 2 ^ 64
    → IsBuffer (emit buffer_sink (reserve b n) es)
      × (contents (emit buffer_sink (reserve b n) es) ≡ emit vector_sink (contents b) es)
      × (contents (clear (emit buffer_sink (reserve b n) es)) ≡ [])
unfolding clear
reserve-emit b n es v room small =
    let (ready, same, wide, size) = reserve_lem b n v small in
    let (ended, kept) = emit-contents (reserve b n) es ready (omega (arith, wide, size, room)) in
    (ended, kept ∙ ap (λ (q : List Execution). emit vector_sink q es) same, refl)
