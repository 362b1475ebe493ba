-- ===== src/SimdScan/Inputs.antt =====
-- The inputs of bench/bench_simd_scan.cpp, and what both scans of src/simd_scan.hpp find in them.
use lowlat_matching_engine.Common.{
  ℕ, zero, suc, ◌+◌, ◌-◌, ◌^◌, ◌≤◌, ◌<◌, ◌≡◌, ◌≢◌, refl, sym, ap, ◌∙◌, inl, inr, arith, none, some,
  if◌then◌else◌, ltb, true, false, update, update_self, update_ne, eq-cases, lt-cases,
}
use lowlat_matching_engine.SimdScan.{
  find_from, scalar_find_next_nonzero, Avx2, IsAvx2, avx2_find_next_nonzero,
}
use lowlat_matching_engine.SimdScan.Agrees.{avx2-scalar}

-- `std::vector<std::uint32_t>(n, 0)`
unfoldable pub make_all_zero : ℕ → ℕ → ℕ
make_all_zero n i = 0

unfoldable pub make_one_nonzero : ℕ → ℕ → ℕ → ℕ
unfolding make_all_zero
make_one_nonzero n pos = if ltb pos n then update (make_all_zero n) pos 1 else make_all_zero n

-- `for (i = 0; i < n; i += step)`, whose fuel is the number of words.
unfoldable pub sparse_from : (n step fuel i : ℕ) → (ℕ → ℕ) → ℕ → ℕ
sparse_from n step zero i a = a
sparse_from n step (suc fuel) i a =
    if ltb i n then sparse_from n step fuel (i + step) (update a i 1) else a

unfoldable pub make_sparse_every : ℕ → ℕ → ℕ → ℕ
unfolding sparse_from make_all_zero
make_sparse_every n step = sparse_from n step n 0 (make_all_zero n)

-- A scan over zero words finds nothing.
find_from-zeros :
    (a : ℕ → ℕ) (rounds i : ℕ)
    → ((j : ℕ) → i ≤ j → j < i + rounds → a j ≡ 0)
    → find_from a rounds i ≡ none
unfolding find_from
find_from-zeros a zero i h = refl
find_from-zeros a (suc rounds) i h =
    let here = h i (omega arith) (omega arith) in
    let rest =
      find_from-zeros a rounds (i + 1) (λ j l s. h j (omega (arith, l)) (omega (arith, s))) in
    ground (arith, here, rest)

-- A scan finds the first word that is not zero.
find_from-first :
    (a : ℕ → ℕ) (rounds i k : ℕ)
    → i ≤ k
    → k < i + rounds
    → ((j : ℕ) → i ≤ j → j < k → a j ≡ 0)
    → a k ≢ 0
    → find_from a rounds i ≡ some k
unfolding find_from
find_from-first a zero i k l h before here = absurd (omega (arith, l, h))
find_from-first a (suc rounds) i k l h before here = elim (eq-cases i k) [
  | inl same ↦ let there : a i ≢ 0 = λ e. here (ap a (sym same) ∙ e) in ground (arith, there, same)
  | inr away ↦
      let blank = before i (omega arith) (omega (arith, l, away)) in
      let rest =
        find_from-first a rounds (i + 1) k (omega (arith, l, away)) (omega (arith, h))
          (λ j l' s. before j (omega (arith, l')) s) here in
      ground (arith, blank, rest)
]

-- The loop leaves what is before its position alone.
sparse_from-below :
    (n step fuel i : ℕ) (a : ℕ → ℕ) (j : ℕ) → j < i → sparse_from n step fuel i a j ≡ a j
unfolding sparse_from
sparse_from-below n step zero i a j h = refl
sparse_from-below n step (suc fuel) i a j h = elim (lt-cases i n) [
  | inl inside ↦
      let test : ltb i n ≡ true = ground (arith, inside) in
      rw test (
        sparse_from-below n step fuel (i + step) (update a i 1) j (omega (arith, h))
        ∙ update_ne a 1 (λ e. omega (arith, e, h)))
  | inr outside ↦ let test : ltb i n ≡ false = ground (arith, outside) in rw test
]

-- The first words of the sparse array.
sparse_lem :
    (n step : ℕ)
    → 0 < step
    → step < n
    → (make_sparse_every n step step ≡ 1)
      × ((j : ℕ) → 1 ≤ j → j < step → make_sparse_every n step j ≡ 0)
unfolding make_sparse_every sparse_from make_all_zero
sparse_lem zero step pos inside = absurd (omega (arith, inside))
sparse_lem (suc zero) step pos inside = absurd (omega (arith, inside, pos))
sparse_lem (suc (suc n)) step pos inside =
    let marked = update (update (make_all_zero (suc (suc n))) 0 1) (0 + step) 1 in
    let start : ltb 0 (suc (suc n)) ≡ true = ground arith in
    let next : ltb (0 + step) (suc (suc n)) ≡ true = ground (arith, inside) in
    let two_rounds : (j : ℕ)
        → make_sparse_every (suc (suc n)) step j
          ≡ sparse_from (suc (suc n)) step n (0 + step + step) marked j =
      λ j. rw (start, next) in
    (
      two_rounds step
          ∙ sparse_from-below (suc (suc n)) step n (0 + step + step) marked step
              (omega (arith, pos))
          ∙ (let e : marked step ≡ 1 = ground arith in e),
      λ j l h.
          two_rounds j
          ∙ sparse_from-below (suc (suc n)) step n (0 + step + step) marked j (omega (arith, h))
          ∙ (let e : marked j ≡ 0 = ground (arith, l, h) in e),
    )

one_nonzero_lem :
    (n pos : ℕ)
    → pos < n
    → (make_one_nonzero n pos pos ≡ 1) × ((j : ℕ) → j ≢ pos → make_one_nonzero n pos j ≡ 0)
unfolding make_one_nonzero make_all_zero
one_nonzero_lem n pos inside =
    let test : ltb pos n ≡ true = ground (arith, inside) in
    (
      rw test (update_self (make_all_zero n) pos 1),
      λ j ne. rw test (update_ne (make_all_zero n) 1 (λ e. ne (sym e))),
    )

-- All words are 0 or 1.
make_all_zero-le : (n j : ℕ) → make_all_zero n j ≤ 1
unfolding make_all_zero
make_all_zero-le n j = omega arith

update-le : (a : ℕ → ℕ) (i j : ℕ) → ((j : ℕ) → a j ≤ 1) → update a i 1 j ≤ 1
update-le a i j words = let old = words j in ground (arith, old)

make_one_nonzero-le : (n pos j : ℕ) → make_one_nonzero n pos j ≤ 1
unfolding make_one_nonzero
make_one_nonzero-le n pos j = elim (lt-cases pos n) [
  | inl inside ↦
      let test : ltb pos n ≡ true = ground (arith, inside) in
      rw test (update-le (make_all_zero n) pos j (make_all_zero-le n))
  | inr outside ↦
      let test : ltb pos n ≡ false = ground (arith, outside) in rw test (make_all_zero-le n j)
]

sparse_from-le :
    (n step fuel i : ℕ) (a : ℕ → ℕ)
    → ((j : ℕ) → a j ≤ 1)
    → (j : ℕ) → sparse_from n step fuel i a j ≤ 1
unfolding sparse_from
sparse_from-le n step zero i a words j = words j
sparse_from-le n step (suc fuel) i a words j = elim (lt-cases i n) [
  | inl inside ↦
      let test : ltb i n ≡ true = ground (arith, inside) in
      rw test (sparse_from-le n step fuel (i + step) (update a i 1) (λ k. update-le a i k words) j)
  | inr outside ↦ let test : ltb i n ≡ false = ground (arith, outside) in rw test (words j)
]

make_sparse_every-le : (n step j : ℕ) → make_sparse_every n step j ≤ 1
unfolding make_sparse_every
make_sparse_every-le n step j = sparse_from-le n step n 0 (make_all_zero n) (make_all_zero-le n) j

scalar_inputs_lem :
    (n pos step : ℕ)
    → pos < n
    → 0 < step
    → step < n
    → (scalar_find_next_nonzero (make_all_zero n) n 0 ≡ none)
      × (scalar_find_next_nonzero (make_one_nonzero n pos) n 0 ≡ some pos)
      × (scalar_find_next_nonzero (make_sparse_every n step) n 1 ≡ some step)
unfolding scalar_find_next_nonzero make_all_zero
scalar_inputs_lem n pos step inside some_step short =
    let (there, elsewhere) = one_nonzero_lem n pos inside in
    let (marked, before) = sparse_lem n step some_step short in
    (
      find_from-zeros (make_all_zero n) (n - 0) 0 (λ j l h. refl),
      find_from-first (make_one_nonzero n pos) (n - 0) 0 pos (omega arith) (omega (arith, inside))
          (λ j l h. elsewhere j (omega (arith, h))) (omega (arith, there)),
      find_from-first (make_sparse_every n step) (n - 1) 1 step (omega (arith, some_step))
          (omega (arith, some_step, short)) before (omega (arith, marked)),
    )

-- With intrinsics that do what their documentation says, on 1 to 8 blocks at a time and n words, n
-- + 64 being less than 2^64, the AVX2 scan of all zeros finds nothing; of zeros with a one at a
-- position below n it finds that position; and from 1 on, of ones at every multiple of a positive
-- step below n, it finds the step.
pub inputs_lem :
    (isa : Avx2) (law : IsAvx2 isa) (n blocks pos step : ℕ)
    → n + 64 < 2 ^ 64
    → 0 < blocks
    → blocks ≤ 8
    → pos < n
    → 0 < step
    → step < n
    → (avx2_find_next_nonzero isa (make_all_zero n) n blocks 0 ≡ none)
      × (avx2_find_next_nonzero isa (make_one_nonzero n pos) n blocks 0 ≡ some pos)
      × (avx2_find_next_nonzero isa (make_sparse_every n step) n blocks 1 ≡ some step)
inputs_lem isa law n blocks pos step small some_blocks few inside some_step short =
    let (nothing, one, sparse) = scalar_inputs_lem n pos step inside some_step short in
    let same = λ (a : ℕ → ℕ) (words : (j : ℕ) → a j ≤ 1) (from : ℕ).
      avx2-scalar isa law a n (λ j l. omega (arith, words j)) small blocks from some_blocks few in
    (
      same (make_all_zero n) (make_all_zero-le n) 0 ∙ nothing,
      same (make_one_nonzero n pos) (make_one_nonzero-le n pos) 0 ∙ one,
      same (make_sparse_every n step) (make_sparse_every-le n step) 1 ∙ sparse,
    )
