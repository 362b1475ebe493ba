-- ===== src/Tests/SimdScanTests.antt =====
-- src/simd_scan.hpp on an array of words, with the intrinsics on registers that are functions from
-- lanes to words.
use lowlat_matching_engine.Common.{
  ℕ, ◌+◌, ◌-◌, ◌%◌, ◌^◌, ◌<◌, ◌≡◌, ◌∙◌, ◌==◌, if◌then◌else◌, refl, arith, none, some, update, ltb,
  true, false, inl, inr, lt-cases,
}
use lowlat_matching_engine.SimdScan
use lowlat_matching_engine.SimdScan.{
  scalar_find_next_nonzero, Avx2, IsAvx2, sign_bits, avx2_find_next_nonzero,
}
use lowlat_matching_engine.SimdScan.Inputs.{
  make_all_zero, make_one_nonzero, make_sparse_every, inputs_lem,
}
use lowlat_matching_engine.SimdScan.Agrees.{avx2-scalar}

-- What a register of eight lanes of 32 bits holds.
abbrev register : (ℕ → ℕ) → ℕ → ℕ
register x k = if ltb k 8 then x k % 2 ^ 32 else 0

abbrev isa : Avx2
isa = record {
  Vec = ℕ → ℕ;
  lane = register;
  setzero_si256 = register (λ _. 0);
  loadu_si256 = λ a i. register (λ k. a (i + k));
  cmpeq_epi32 = λ x y. register (λ k. if register x k == register y k then 2 ^ 32 - 1 else 0);
  movemask_ps = λ x. sign_bits 8 (register x);
}

-- A lane holds what is put in, where that is a 32-bit word.
register_lem : (x : ℕ → ℕ) (k : ℕ) → k < 8 → x k < 2 ^ 32 → register x k ≡ x k
register_lem x k low word =
    let test : ltb k 8 ≡ true = ground (arith, low) in
    let same : x k % 2 ^ 32 ≡ x k = omega (arith, word) in rw (test, same)

register_word : (x : ℕ → ℕ) (k : ℕ) → register x k < 2 ^ 32
register_word x k = elim (lt-cases k 8) [
  | inl low ↦
      let test : ltb k 8 ≡ true = ground (arith, low) in
      rw test (let e : x k % 2 ^ 32 < 2 ^ 32 = omega arith in e)
  | inr high ↦ let test : ltb k 8 ≡ false = ground (arith, high) in rw test (omega arith)
]

-- Holding it again changes nothing.
register-twice : (x : ℕ → ℕ) (k : ℕ) → k < 8 → register (register x) k ≡ register x k
register-twice x k low = register_lem (register x) k low (register_word x k)

isa-IsAvx2 : IsAvx2 isa
isa-IsAvx2 = record {
  lane-setzero = λ k low. register-twice (λ _. 0) k low ∙ register_lem (λ _. 0) k low (omega arith);
  lane-loadu = λ a i k low word.
      register-twice (λ k. a (i + k)) k low ∙ register_lem (λ k. a (i + k)) k low word;
  lane-cmpeq = λ x y k low.
      let eq = λ (k : ℕ). if register x k == register y k then 2 ^ 32 - 1 else 0 in
      register-twice eq k low ∙ register_lem eq k low (ground arith);
  movemask = λ x. refl;
}

-- 40 words, the one at 37 not zero.
abbrev words : ℕ → ℕ
words = update (λ _. 0) 37 9

small_words : (j : ℕ) → j < 40 → words j < 2 ^ 32
small_words j inside = ground arith

avx2-scalar_example : avx2_find_next_nonzero isa words 40 2 3 ≡ scalar_find_next_nonzero words 40 3
avx2-scalar_example =
    avx2-scalar isa isa-IsAvx2 words 40 small_words (omega arith) 2 3 (omega arith) (omega arith)

found : avx2_find_next_nonzero isa words 40 2 3 ≡ some 37
unfolding avx2_find_next_nonzero SimdScan.step_loop SimdScan.lane_loop SimdScan.tail_loop
    SimdScan.find_from SimdScan.block_mask SimdScan.zero_mask SimdScan.countr_one
found = refl

inputs_lem_example :
    (avx2_find_next_nonzero isa (make_all_zero 1024) 1024 4 0 ≡ none)
    × (avx2_find_next_nonzero isa (make_one_nonzero 1024 8) 1024 4 0 ≡ some 8)
    × (avx2_find_next_nonzero isa (make_sparse_every 1024 64) 1024 4 1 ≡ some 64)
inputs_lem_example =
    inputs_lem isa isa-IsAvx2 1024 4 8 64 (omega arith) (omega arith) (omega arith) (omega arith)
      (omega arith) (omega arith)
