-- ===== src/SimdScan.antt =====
-- src/simd_scan.hpp: the first nonzero word of an array from a position on, one word at a time or with
-- AVX2. The intrinsics are a parameter, `Avx2`.
pub mod Blocks
pub mod Agrees
pub mod Inputs
use Prim.Native.Nat.{bit_or}
use lowlat_matching_engine.Common.{
  ℕ, zero, suc, ◌+◌, ◌-◌, ◌*◌, ◌/◌, ◌%◌, ◌^◌, ◌<◌, ◌≡◌, ◌==◌, if◌then◌else◌, leb, ltb, Option, none,
  some, add64,
}

-- `for (; i < n; ++i)`, with the rounds that are left.
unfoldable pub find_from : (ℕ → ℕ) → ℕ → ℕ → Option ℕ
find_from a zero i = none
find_from a (suc rounds) i =
    let rest = find_from a rounds (i + 1) in if a i == 0 then rest else some i

unfoldable pub scalar_find_next_nonzero : (ℕ → ℕ) → ℕ → ℕ → Option ℕ
unfolding find_from
scalar_find_next_nonzero a n start = find_from a (n - start) start

-- The intrinsics on registers of eight lanes of 32 bits.
pub record Avx2 : Type 1 where
  pub Vec : Type 0
  pub lane : Vec → ℕ → ℕ
  pub setzero_si256 : Vec
  pub loadu_si256 : (ℕ → ℕ) → ℕ → Vec
  pub cmpeq_epi32 : Vec → Vec → Vec
  pub movemask_ps : Vec → ℕ

-- The sign bits of the first lanes, that of the first lane lowest.
abbrev pub sign_bits : ℕ → (ℕ → ℕ) → ℕ
sign_bits zero x = 0
sign_bits (suc lanes) x = x 0 / 2 ^ 31 + 2 * sign_bits lanes (λ k. x (k + 1))

-- What the documentation says of the eight lanes; a load reads the eight words from a position on,
-- which are 32-bit words.
pub record IsAvx2 (isa : Avx2) : Type 0 where
  pub lane-setzero : (k : ℕ) → k < 8 → isa.lane isa.setzero_si256 k ≡ 0
  pub lane-loadu :
      (a : ℕ → ℕ) (i k : ℕ)
      → k < 8
      → a (i + k) < 2 ^ 32
      → isa.lane (isa.loadu_si256 a i) k ≡ a (i + k)
  pub lane-cmpeq :
      (x y : isa.Vec) (k : ℕ)
      → k < 8
      → isa.lane (isa.cmpeq_epi32 x y) k ≡ (if isa.lane x k == isa.lane y k then 2 ^ 32 - 1 else 0)
  pub movemask : (x : isa.Vec) → isa.movemask_ps x ≡ sign_bits 8 (isa.lane x)

-- `std::countr_one` of a word of `bits` bits
unfoldable pub countr_one : ℕ → ℕ → ℕ
countr_one zero x = 0
countr_one (suc bits) x = let rest = countr_one bits (x / 2) in if x % 2 == 1 then rest + 1 else 0

abbrev pub lanes : ℕ
lanes = 8

module _ (isa : Avx2) (a : ℕ → ℕ) (n : ℕ) where
  -- `zero_mask` of the eight words from `i` on
  unfoldable pub zero_mask : ℕ → ℕ
  zero_mask i = isa.movemask_ps (isa.cmpeq_epi32 (isa.loadu_si256 a i) isa.setzero_si256)

  -- The loop over the blocks, with `blocks` left and `b` done.
  unfoldable pub block_mask : ℕ → ℕ → ℕ → ℕ → ℕ
  block_mask zero b i mask = mask
  block_mask (suc blocks) b i mask =
      block_mask blocks (b + 1) i
        (bit_or mask ((zero_mask (add64 i (b * lanes)) * 2 ^ (b * lanes)) % 2 ^ 64))

  -- The last loop.
  unfoldable pub tail_loop : ℕ → Option ℕ
  unfolding find_from
  tail_loop i = find_from a (n - i) i

  -- The loop over single blocks. Its fuel is more than the words that are left.
  unfoldable pub lane_loop : ℕ → ℕ → Option ℕ
  lane_loop zero i = none
  lane_loop (suc fuel) i =
      let rest = lane_loop fuel (add64 i lanes) in
      if leb (add64 i lanes) n
      then (if zero_mask i == 255 then rest else some (add64 i (countr_one 32 (zero_mask i))))
      else tail_loop i

  abbrev pub full : ℕ → ℕ
  full num_blocks = if num_blocks == 8 then 2 ^ 64 - 1 else 2 ^ (num_blocks * lanes) - 1

  -- The loop over `num_blocks` blocks at a time.
  unfoldable pub step_loop : ℕ → ℕ → ℕ → Option ℕ
  step_loop num_blocks zero i = none
  step_loop num_blocks (suc fuel) i =
      let rest = step_loop num_blocks fuel (add64 i (num_blocks * lanes)) in
      let mask = block_mask num_blocks 0 i 0 in
      if leb (add64 i (num_blocks * lanes)) n
      then (if mask == full num_blocks then rest else some (add64 i (countr_one 64 mask)))
      else lane_loop (n + 1) i

  unfoldable pub avx2_find_next_nonzero : ℕ → ℕ → Option ℕ
  avx2_find_next_nonzero num_blocks start =
      if leb n start then none else step_loop num_blocks (n + 1) start
