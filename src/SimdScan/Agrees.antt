-- ===== src/SimdScan/Agrees.antt =====
-- The AVX2 scan of src/simd_scan.hpp finds what the scalar scan finds.
use lowlat_matching_engine.Common.{
  ℕ, zero, suc, ◌+◌, ◌-◌, ◌*◌, ◌^◌, ◌≤◌, ◌<◌, ◌≡◌, refl, sym, ap, ◌∙◌, inl, inr, arith, ◌==◌,
  if◌then◌else◌, leb, true, false, Option, none, some, eq-cases, lt-cases, add64, ne→==,
}
use lowlat_matching_engine.SimdScan.{
  find_from, scalar_find_next_nonzero, Avx2, IsAvx2, countr_one, lanes, zero_mask, block_mask,
  tail_loop, lane_loop, full, step_loop, avx2_find_next_nonzero,
}
use lowlat_matching_engine.SimdScan.Blocks.{zeros, zeros_lem, zero_mask_lem, block_mask_lem}

-- A scan goes on behind its first words, unless one of them is nonzero.
find_from-none :
    (a : ℕ → ℕ) (m k i : ℕ) → find_from a m i ≡ none → find_from a (m + k) i ≡ find_from a k (i + m)
unfolding find_from
find_from-none a zero k i e =
    ap (λ (r : ℕ). find_from a r i) (let e : 0 + k ≡ k = omega arith in e)
    ∙ ap (find_from a k) (let e : i ≡ i + 0 = omega arith in e)
find_from-none a (suc m) k i e = elim (eq-cases (a i) 0) [
  | inl here ↦
      ap (λ (r : ℕ). find_from a r i) (let e : suc m + k ≡ suc (m + k) = omega arith in e)
      ∙ (let s : find_from a (suc (m + k)) i ≡ find_from a (m + k) (i + 1) = ground (arith, here) in
          s)
      ∙ find_from-none a m k (i + 1) (ground (arith, here, e))
      ∙ ap (find_from a k) (let e : i + 1 + m ≡ i + suc m = omega arith in e)
  | inr here ↦ absurd (ground (arith, here, e))
]

find_from-some :
    (a : ℕ → ℕ) (m k i x : ℕ) → find_from a m i ≡ some x → find_from a (m + k) i ≡ some x
unfolding find_from
find_from-some a zero k i x e = absurd (ground (arith, e))
find_from-some a (suc m) k i x e = elim (eq-cases (a i) 0) [
  | inl here ↦
      ap (λ (r : ℕ). find_from a r i) (let e : suc m + k ≡ suc (m + k) = omega arith in e)
      ∙ (let s : find_from a (suc (m + k)) i ≡ find_from a (m + k) (i + 1) = ground (arith, here) in
          s)
      ∙ find_from-some a m k (i + 1) x (ground (arith, here, e))
  | inr here ↦
      ap (λ (r : ℕ). find_from a r i) (let e : suc m + k ≡ suc (m + k) = omega arith in e)
      ∙ (let s : find_from a (suc (m + k)) i ≡ some i = ground (arith, here) in s)
      ∙ (let s : some i ≡ some x = ground (arith, here, e) in s)
]

-- What a round of a loop over blocks of `m` words does.
round :
    (a : ℕ → ℕ) (n i m bits mask ones : ℕ) (rest : Option ℕ)
    → m ≤ bits
    → i + m ≤ n
    → n < 2 ^ 64
    → mask ≡ zeros a i m
    → ones ≡ 2 ^ m - 1
    → rest ≡ find_from a (n - (i + m)) (i + m)
    → (if mask == ones then rest else some (add64 i (countr_one bits mask))) ≡ find_from a (n - i) i
round a n i m bits mask ones rest wide fits small is all on =
    let rounds : n - i ≡ m + (n - (i + m)) = omega (arith, fits) in
    elim (zeros_lem a i m bits wide) [
      | inl (same, nothing) ↦
          let test : mask == ones ≡ true = ground (arith, is, all, same) in
          rw test (
            on
            ∙ sym (find_from-none a m (n - (i + m)) i nothing)
            ∙ ap (λ (r : ℕ). find_from a r i) (sym rounds))
      | inr (other, found, below) ↦
          let test : mask == ones ≡ false = ne→== mask ones (λ e. other (sym is ∙ e ∙ all)) in
          let at : add64 i (countr_one bits mask) ≡ i + countr_one bits (zeros a i m) =
            (let c = ap (countr_one bits) is in omega (arith, c, below, fits, small)) in
          rw test (
            ap (λ (k : ℕ). some k) at
            ∙ sym (find_from-some a m (n - (i + m)) i _ found)
            ∙ ap (λ (r : ℕ). find_from a r i) (sym rounds))
    ]

module _ (isa : Avx2) (law : IsAvx2 isa) (a : ℕ → ℕ) (n : ℕ)
    (words : (j : ℕ) → j < n → a j < 2 ^ 32) (small : n + 64 < 2 ^ 64) where
  lane_loop_lem :
      (fuel i : ℕ) → i ≤ n → n < fuel + i → lane_loop isa a n fuel i ≡ find_from a (n - i) i
  unfolding lane_loop tail_loop
  lane_loop_lem zero i h fuel = absurd (omega (arith, h, fuel))
  lane_loop_lem (suc fuel) i h some_fuel =
      let step : add64 i lanes ≡ i + lanes = omega (arith, small, h) in
      elim (lt-cases n (i + lanes)) [
        | inl over ↦
            let test : leb (add64 i lanes) n ≡ false = ground (arith, step, over) in rw test
        | inr fits ↦
            let test : leb (add64 i lanes) n ≡ true = ground (arith, step, fits) in
            rw test (
              round a n i 8 32 (zero_mask isa a n i) 255 (lane_loop isa a n fuel (add64 i lanes))
                (omega arith) fits (omega (arith, small)) (zero_mask_lem isa law a n words i fits)
                refl
                (ap (lane_loop isa a n fuel) step
                  ∙ lane_loop_lem fuel (i + lanes) fits (omega (arith, some_fuel))))
      ]

  full_lem : (blocks : ℕ) → full isa a n blocks ≡ 2 ^ (blocks * lanes) - 1
  full_lem blocks = elim (eq-cases blocks 8) [
    | inl e ↦
        let t : blocks == 8 ≡ true = ground (arith, e) in
        rw t (ap (λ (b : ℕ). 2 ^ (b * lanes) - 1) (sym e))
    | inr e ↦ let t : blocks == 8 ≡ false = ground (arith, e) in rw t
  ]

  step_loop_lem :
      (blocks fuel i : ℕ)
      → 0 < blocks
      → blocks ≤ 8
      → i ≤ n
      → n < fuel + i
      → step_loop isa a n blocks fuel i ≡ find_from a (n - i) i
  unfolding step_loop
  step_loop_lem blocks zero i some_blocks few h fuel = absurd (omega (arith, h, fuel))
  step_loop_lem blocks (suc fuel) i some_blocks few h some_fuel =
      let m = blocks * lanes in
      let step : add64 i m ≡ i + m = omega (arith, small, h, few) in
      elim (lt-cases n (i + m)) [
        | inl over ↦
            let test : leb (add64 i m) n ≡ false = ground (arith, step, over) in
            rw test (lane_loop_lem (n + 1) i h (omega arith))
        | inr fits ↦
            let test : leb (add64 i m) n ≡ true = ground (arith, step, fits) in
            rw test (
              round a n i m 64 (block_mask isa a n blocks 0 i 0) (full isa a n blocks)
                (step_loop isa a n blocks fuel (add64 i m)) (omega (arith, few)) fits
                (omega (arith, small))
                (block_mask_lem isa law a n words blocks i few fits (omega (arith, fits, small)))
                (full_lem blocks)
                (ap (step_loop isa a n blocks fuel) step
                  ∙ step_loop_lem blocks fuel (i + m) some_blocks few fits
                      (omega (arith, some_blocks, some_fuel))))
      ]

  -- On 1 to 8 blocks at a time and fewer than 2^64 - 64 words of 32 bits, with intrinsics that do
  -- on eight lanes what their documentation says, the AVX2 scan returns from every position what
  -- the scalar scan does.
  pub avx2-scalar :
      (blocks start : ℕ)
      → 0 < blocks
      → blocks ≤ 8
      → avx2_find_next_nonzero isa a n blocks start ≡ scalar_find_next_nonzero a n start
  unfolding avx2_find_next_nonzero scalar_find_next_nonzero find_from
  avx2-scalar blocks start some_blocks few = elim (lt-cases start n) [
    | inl inside ↦
        let test : leb n start ≡ false = ground (arith, inside) in
        rw test
          (step_loop_lem blocks (n + 1) start some_blocks few (omega (arith, inside)) (omega arith))
    | inr outside ↦
        let test : leb n start ≡ true = ground (arith, outside) in
        let none_left : n - start ≡ 0 = omega (arith, outside) in rw (test, none_left)
  ]
