-- ===== src/SimdScan/Blocks.antt =====
-- The masks of src/simd_scan.hpp: what a mask of zero words says of the words.
use Prim.Native.Nat.{bit_or}
use lowlat_matching_engine.Common.{
  ℕ, zero, suc, ◌+◌, ◌-◌, ◌*◌, ◌/◌, ◌%◌, ◌^◌, ◌≤◌, ◌<◌, ◌≡◌, ◌≢◌, refl, sym, ap, ap₂, ◌∙◌, ◌⊎◌, inl,
  inr, arith, ◌==◌, if◌then◌else◌, none, some, eq-cases, true, false, add64,
}
use native.Mathlib.Nat.{pow-suc, mul_assoc, mod-eq_of_lt}
use lowlat_matching_engine.Common.Bits.{bit_or-add, pow_pos, pow_le}
use lowlat_matching_engine.SimdScan.{
  find_from, Avx2, IsAvx2, sign_bits, countr_one, lanes, zero_mask, block_mask,
}

-- 1 for a zero word
abbrev pub zero_bit : ℕ → ℕ
zero_bit x = if x == 0 then 1 else 0

-- Which of `m` words from `i` on are zero, the first word lowest.
abbrev pub zeros : (ℕ → ℕ) → ℕ → ℕ → ℕ
zeros a i zero = 0
zeros a i (suc m) = zero_bit (a i) + 2 * zeros a (i + 1) m

zero_bit-zero : (x : ℕ) → x ≡ 0 → zero_bit x ≡ 1
zero_bit-zero x e = ground (arith, e)

zero_bit-nonzero : (x : ℕ) → x ≢ 0 → zero_bit x ≡ 0
zero_bit-nonzero x e = ground (arith, e)

zero_bit-le : (x : ℕ) → zero_bit x ≤ 1
zero_bit-le x = ground arith

pub zeros_lt : (a : ℕ → ℕ) (i m : ℕ) → zeros a i m < 2 ^ m
zeros_lt a i zero = omega arith
zeros_lt a i (suc m) = omega (arith, zero_bit-le (a i), zeros_lt a (i + 1) m, pow-suc 2 m)

countr_one-odd : (bits p x : ℕ) → x ≡ 1 + 2 * p → countr_one (suc bits) x ≡ countr_one bits p + 1
unfolding countr_one
countr_one-odd bits p x e =
    let half : x / 2 ≡ p = omega (arith, e) in
    let low : x % 2 == 1 ≡ true = ground (arith, e) in rw (low, half)

countr_one-even : (bits p x : ℕ) → x ≡ 2 * p → countr_one (suc bits) x ≡ 0
unfolding countr_one
countr_one-even bits p x e = let low : x % 2 == 1 ≡ false = ground (arith, e) in rw low

find_from-zero : (a : ℕ → ℕ) (m i : ℕ) → a i ≡ 0 → find_from a (suc m) i ≡ find_from a m (i + 1)
unfolding find_from
find_from-zero a m i e = ground (arith, e)

find_from-nonzero : (a : ℕ → ℕ) (m i : ℕ) → a i ≢ 0 → find_from a (suc m) i ≡ some i
unfolding find_from
find_from-nonzero a m i e = ground (arith, e)

-- A mask with all bits set says that no word of the block is nonzero, any other how many words come
-- before the first that is.
pub zeros_lem :
    (a : ℕ → ℕ) (i m bits : ℕ)
    → m ≤ bits
    → ((zeros a i m ≡ 2 ^ m - 1) × (find_from a m i ≡ none))
      ⊎ ((zeros a i m ≢ 2 ^ m - 1)
          × (find_from a m i ≡ some (i + countr_one bits (zeros a i m)))
          × (countr_one bits (zeros a i m) < m))
unfolding find_from
zeros_lem a i zero bits h = inl (omega arith, refl)
zeros_lem a i (suc m) zero h = absurd (omega (arith, h))
zeros_lem a i (suc m) (suc bits) h = elim (eq-cases (a i) 0) [
  | inl here ↦
      let bit = zero_bit-zero (a i) here in
      let mask : zeros a i (suc m) ≡ 1 + 2 * zeros a (i + 1) m = omega (arith, bit) in
      let count = countr_one-odd bits (zeros a (i + 1) m) (zeros a i (suc m)) mask in
      elim (zeros_lem a (i + 1) m bits (omega (arith, h))) [
        | inl (all, nothing) ↦
            inl (
              omega (arith, mask, all, pow-suc 2 m, pow_pos m),
              find_from-zero a m i here ∙ nothing,
            )
        | inr (some_there, found, below) ↦ inr (
          omega (arith, mask, some_there, pow-suc 2 m, pow_pos m),
          find_from-zero a m i here
              ∙ found
              ∙ ap (λ (k : ℕ). some k)
                  (let e : i + 1 + countr_one bits (zeros a (i + 1) m)
                        ≡ i + countr_one (suc bits) (zeros a i (suc m)) =
                      omega (arith, count) in
                    e),
          omega (arith, count, below),
        )
      ]
  | inr here ↦
      let bit = zero_bit-nonzero (a i) here in
      let mask : zeros a i (suc m) ≡ 2 * zeros a (i + 1) m = omega (arith, bit) in
      let count = countr_one-even bits (zeros a (i + 1) m) (zeros a i (suc m)) mask in
      inr (
        omega (arith, mask, pow-suc 2 m, pow_pos m),
        find_from-nonzero a m i here
            ∙ ap (λ (k : ℕ). some k)
                (let e : i ≡ i + countr_one (suc bits) (zeros a i (suc m)) = omega (arith, count) in
                  e),
        omega (arith, count),
      )
]

-- The mask of two blocks, one behind the other.
pub zeros_join :
    (a : ℕ → ℕ) (i m k : ℕ) → zeros a i (m + k) ≡ zeros a i m + zeros a (i + m) k * 2 ^ m
zeros_join a i zero k =
    ap₂ (zeros a) (let e : i ≡ i + 0 = omega arith in e) (let e : 0 + k ≡ k = omega arith in e)
    ∙ (let e : zeros a (i + 0) k ≡ 0 + zeros a (i + 0) k * 2 ^ 0 = omega arith in e)
zeros_join a i (suc m) k =
    let rest = zeros_join a (i + 1) m k in
    let behind : zeros a (i + 1 + m) k ≡ zeros a (i + suc m) k =
      ap (λ (j : ℕ). zeros a j k) (let e : i + 1 + m ≡ i + suc m = omega arith in e) in
    let power : zeros a (i + suc m) k * 2 ^ suc m ≡ zeros a (i + suc m) k * 2 ^ m * 2 =
      ap (λ (w : ℕ). zeros a (i + suc m) k * w) (pow-suc 2 m)
      ∙ sym (mul_assoc (zeros a (i + suc m) k) (2 ^ m) 2) in
    let shift : zeros a (i + 1 + m) k * 2 ^ m ≡ zeros a (i + suc m) k * 2 ^ m =
      ap (λ (w : ℕ). w * 2 ^ m) behind in
    ap (zeros a i) (let e : suc m + k ≡ suc (m + k) = omega arith in e)
    ∙ (let e : zeros a i (suc (m + k)) ≡ zeros a i (suc m) + zeros a (i + suc m) k * 2 ^ suc m =
          omega (arith, rest, power, shift) in
        e)

module _ (isa : Avx2) (law : IsAvx2 isa) (a : ℕ → ℕ) (n : ℕ)
    (words : (j : ℕ) → j < n → a j < 2 ^ 32) where
  lane_bit :
      (i k : ℕ)
      → k < 8
      → i + k < n
      → isa.lane (isa.cmpeq_epi32 (isa.loadu_si256 a i) isa.setzero_si256) k / 2 ^ 31
        ≡ zero_bit (a (i + k))
  lane_bit i k low inside =
      let eq = law.lane-cmpeq (isa.loadu_si256 a i) isa.setzero_si256 k low in
      let word = law.lane-loadu a i k low (words (i + k) inside) in
      let blank = law.lane-setzero k low in
      ap (λ (y : ℕ). y / 2 ^ 31)
        (eq ∙ ap₂ (λ (p q : ℕ). if p == q then 2 ^ 32 - 1 else 0) word blank)
      ∙ sign (a (i + k))
    where
      sign : (y : ℕ) → (if y == 0 then 2 ^ 32 - 1 else 0) / 2 ^ 31 ≡ zero_bit y
      sign y = ground arith

  signs :
      (i m : ℕ) (x : ℕ → ℕ)
      → ((j : ℕ) → j < m → x j / 2 ^ 31 ≡ zero_bit (a (i + j)))
      → sign_bits m x ≡ zeros a i m
  signs i zero x h = refl
  signs i (suc m) x h =
      let rest =
        signs (i + 1) m (λ k. x (k + 1))
          (λ j l.
            h (j + 1) (omega (arith, l))
            ∙ ap (λ (k : ℕ). zero_bit (a k))
                (let e : i + (j + 1) ≡ i + 1 + j = omega arith in e)) in
      let first : x 0 / 2 ^ 31 ≡ zero_bit (a i) =
        h 0 (omega arith) ∙ ap (λ (k : ℕ). zero_bit (a k)) (let e : i + 0 ≡ i = omega arith in e) in
      omega (arith, first, rest)

  pub zero_mask_lem : (i : ℕ) → i + lanes ≤ n → zero_mask isa a n i ≡ zeros a i lanes
  unfolding zero_mask
  zero_mask_lem i fits =
      law.movemask (isa.cmpeq_epi32 (isa.loadu_si256 a i) isa.setzero_si256)
      ∙ signs i 8 (isa.lane (isa.cmpeq_epi32 (isa.loadu_si256 a i) isa.setzero_si256))
          (λ j l. lane_bit i j l (omega (arith, fits, l)))

  -- The mask of `b` blocks joined with those of the blocks that are left.
  block_mask_from :
      (blocks b i : ℕ)
      → b + blocks ≤ 8
      → i + (b + blocks) * lanes ≤ n
      → i + (b + blocks) * lanes < 2 ^ 64
      → block_mask isa a n blocks b i (zeros a i (b * lanes)) ≡ zeros a i ((b + blocks) * lanes)
  unfolding block_mask
  block_mask_from zero b i few fits small =
      ap (zeros a i) (let e : b * lanes ≡ (b + 0) * lanes = omega arith in e)
  block_mask_from (suc blocks) b i few inside small =
      let at : add64 i (b * lanes) ≡ i + b * lanes = omega (arith, small) in
      let word : zero_mask isa a n (add64 i (b * lanes)) ≡ zeros a (i + b * lanes) lanes =
        zero_mask_lem (add64 i (b * lanes)) (omega (arith, at, inside))
        ∙ ap (λ (j : ℕ). zeros a j lanes) at in
      let fits : (zeros a (i + b * lanes) lanes * 2 ^ (b * lanes)) % 2 ^ 64
          ≡ zeros a (i + b * lanes) lanes * 2 ^ (b * lanes) =
        mod-eq_of_lt (
          omega (
            arith,
            zeros_join a i (b * lanes) lanes,
            zeros_lt a i (b * lanes + lanes),
            pow_le (b * lanes + lanes) (64 - (b * lanes + lanes)),
            ap (λ (k : ℕ). 2 ^ k)
                (let e : b * lanes + lanes + (64 - (b * lanes + lanes)) ≡ 64 = omega (arith, few) in
                  e),
          )) in
      let joined : bit_or (zeros a i (b * lanes))
            ((zero_mask isa a n (add64 i (b * lanes)) * 2 ^ (b * lanes)) % 2 ^ 64)
          ≡ zeros a i ((b + 1) * lanes) =
        ap (λ (w : ℕ). bit_or (zeros a i (b * lanes)) ((w * 2 ^ (b * lanes)) % 2 ^ 64)) word
        ∙ ap (bit_or (zeros a i (b * lanes))) fits
        ∙ bit_or-add (b * lanes) (zeros a i (b * lanes)) (zeros a (i + b * lanes) lanes)
            (zeros_lt a i (b * lanes))
        ∙ sym (zeros_join a i (b * lanes) lanes)
        ∙ ap (zeros a i) (let e : b * lanes + lanes ≡ (b + 1) * lanes = omega arith in e) in
      ap (block_mask isa a n blocks (b + 1) i) joined
      ∙ block_mask_from blocks (b + 1) i (omega (arith, few)) (omega (arith, inside))
          (omega (arith, small))
      ∙ ap (λ (k : ℕ). zeros a i (k * lanes))
          (let e : b + 1 + blocks ≡ b + suc blocks = omega arith in e)

  pub block_mask_lem :
      (blocks i : ℕ)
      → blocks ≤ 8
      → i + blocks * lanes ≤ n
      → i + blocks * lanes < 2 ^ 64
      → block_mask isa a n blocks 0 i 0 ≡ zeros a i (blocks * lanes)
  block_mask_lem blocks i few fits small =
      block_mask_from blocks 0 i (omega (arith, few)) (omega (arith, fits)) (omega (arith, small))
      ∙ ap (λ (k : ℕ). zeros a i (k * lanes)) (let e : 0 + blocks ≡ blocks = omega arith in e)
