-- ===== src/Ring/Slice.antt =====
-- The cells of src/spsc_ring.hpp that hold elements, as the list from the oldest on.
use Prim.Native.Nat.{◌∣◌, bit_and}
use native.Mathlib.Nat.{
  mod-eq_of_lt, mod-eq-sub-mod, mod-lt, mod-add-mod, mod-mod_of_dvd, pow-suc, mul_assoc,
  dvd-mul_right,
}
use mathlib.Core.Path.{subst, subst₂}
use lowlat_matching_engine.Common.{
  ℕ, zero, suc, ◌+◌, ◌-◌, ◌*◌, ◌%◌, ◌^◌, ◌≤◌, ◌<◌, ◌≡◌, ◌≢◌, refl, sym, ap, ap₂, ◌∙◌, ◌⊎◌, inl, inr,
  arith, List, [], ◌∷◌, ◌++◌, length, lt-cases, add64,
}
use lowlat_matching_engine.Common.Bits.{bit_and-mask, pow_le}
use lowlat_matching_engine.Ring.{masked}

-- The two static assertions on `Capacity`, a `std::size_t`.
pub record IsRingCapacity (capacity : ℕ) : Type 0 where
  pub log : ℕ
  pub single_bit : capacity ≡ 2 ^ log
  pub small : log < 64
  pub many : 1 < capacity

pow_add : (a k : ℕ) → 2 ^ (a + k) ≡ 2 ^ a * 2 ^ k
pow_add a zero =
    ap (λ (n : ℕ). 2 ^ n) (let e : a + 0 ≡ a = omega arith in e)
    ∙ (let e : 2 ^ a ≡ 2 ^ a * 1 = omega arith in e)
pow_add a (suc k) =
    ap (λ (n : ℕ). 2 ^ n) (let e : a + suc k ≡ suc (a + k) = omega arith in e)
    ∙ pow-suc 2 (a + k)
    ∙ ap (λ (n : ℕ). n * 2) (pow_add a k)
    ∙ mul_assoc (2 ^ a) (2 ^ k) 2
    ∙ ap (λ (n : ℕ). 2 ^ a * n) (sym (pow-suc 2 k))

module _ {A : Type 0} (capacity : ℕ) where
  -- `n` elements from the counter `t` on.
  abbrev pub slice : (ℕ → A) → ℕ → ℕ → List A
  slice cells t zero = []
  slice cells t (suc n) = cells (t % capacity) ∷ slice cells (t + 1) n

  pub length-slice : (cells : ℕ → A) (t n : ℕ) → length (slice cells t n) ≡ n
  length-slice cells t zero = refl
  length-slice cells t (suc n) = omega (arith, length-slice cells (t + 1) n)

  pub slice_snoc :
      (cells : ℕ → A) (t n : ℕ)
      → slice cells t (suc n) ≡ slice cells t n ++ cells ((t + n) % capacity) ∷ []
  slice_snoc cells t zero =
      ap (λ (k : ℕ). cells (k % capacity) ∷ []) (let e : t ≡ t + 0 = omega arith in e)
  slice_snoc cells t (suc n) =
      ap (λ (q : List A). cells (t % capacity) ∷ q)
        (slice_snoc cells (t + 1) n
          ∙ ap (λ (k : ℕ). slice cells (t + 1) n ++ cells (k % capacity) ∷ [])
              (let e : t + 1 + n ≡ t + suc n = omega arith in e))

  pub slice_same :
      (cells cells' : ℕ → A) (t n : ℕ)
      → ((i : ℕ) → i < n → cells' ((t + i) % capacity) ≡ cells ((t + i) % capacity))
      → slice cells' t n ≡ slice cells t n
  slice_same cells cells' t zero same = refl
  slice_same cells cells' t (suc n) same =
      ap₂ (λ (x : A) (q : List A). x ∷ q)
        (subst (λ (k : ℕ). cells' (k % capacity) ≡ cells (k % capacity))
          (let e : t + 0 ≡ t = omega arith in e) (same 0 (omega arith)))
        (slice_same cells cells' (t + 1) n (λ i h.
          subst (λ (k : ℕ). cells' (k % capacity) ≡ cells (k % capacity))
            (let e : t + suc i ≡ t + 1 + i = omega arith in e) (same (suc i) (omega arith))))

  -- Counters with one remainder stand for the same cells.
  pub slice_wrap :
      (cells : ℕ → A) (t t' n : ℕ)
      → t % capacity ≡ t' % capacity
      → slice cells t n ≡ slice cells t' n
  slice_wrap cells t t' zero e = refl
  slice_wrap cells t t' (suc n) e =
      ap₂ (λ (k : ℕ) (q : List A). cells k ∷ q) e
        (slice_wrap cells (t + 1) (t' + 1) n (
          sym (mod-add-mod t capacity 1)
          ∙ ap (λ (k : ℕ). (k + 1) % capacity) e
          ∙ mod-add-mod t' capacity 1))

-- A sum below twice the modulus wraps at most once.
wrap_cases : (y m : ℕ) → y < m + m → ((y < m) × (y % m ≡ y)) ⊎ ((m ≤ y) × (y % m + m ≡ y))
wrap_cases y m h = elim (lt-cases y m) [
  | inl below ↦ inl (below, mod-eq_of_lt below)
  | inr above ↦
      let s : y % m ≡ (y - m) % m = mod-eq-sub-mod {n = y} {m = m} (omega (arith, above)) in
      let l : (y - m) % m ≡ y - m = mod-eq_of_lt (omega (arith, h, above)) in
      inr (omega (arith, above), omega (arith, s, l, above))
]

-- Fewer than `m` steps from one position lead to different positions.
pub steps_apart : (m t i n : ℕ) → i < n → n < m → (t + i) % m ≢ (t + n) % m
steps_apart m t i n h small e =
    apart (wrap_cases (t % m + i) m (omega (arith, r)))
      (wrap_cases (t % m + n) m (omega (arith, r)))
  where
    r : t % m < m
    r = mod-lt t (omega arith)

    same : (t % m + i) % m ≡ (t % m + n) % m
    same = mod-add-mod t m i ∙ e ∙ sym (mod-add-mod t m n)

    apart :
        ((t % m + i < m) × ((t % m + i) % m ≡ t % m + i))
          ⊎ ((m ≤ t % m + i) × ((t % m + i) % m + m ≡ t % m + i))
        → ((t % m + n < m) × ((t % m + n) % m ≡ t % m + n))
          ⊎ ((m ≤ t % m + n) × ((t % m + n) % m + m ≡ t % m + n))
        → ⊥
    apart (inl a) (inl b) = omega (arith, a.1, b.1, same)
    apart (inl a) (inr b) = omega (arith, a.1, b.1, same)
    apart (inr a) (inl b) = omega (arith, a.0, b.0)
    apart (inr a) (inr b) = omega (arith, a.1, b.1, same)

module _ (capacity : ℕ) (cap : IsRingCapacity capacity) where
  divides : capacity ∣ 2 ^ 64
  divides =
      subst₂ (λ (a b : ℕ). a ∣ b) (sym cap.single_bit)
        (sym (pow_add cap.log (64 - cap.log))
          ∙ ap (λ (n : ℕ). 2 ^ n)
              (let e : cap.log + (64 - cap.log) ≡ 64 = omega (arith, cap.small) in e))
        (dvd-mul_right (2 ^ cap.log) (2 ^ (64 - cap.log)))

  pub capacity_word : capacity < 2 ^ 64
  capacity_word = omega (
    arith,
    cap.single_bit,
    pow_le cap.log (63 - cap.log),
    ap (λ (n : ℕ). 2 ^ n) (let e : cap.log + (63 - cap.log) ≡ 63 = omega (arith, cap.small) in e),
  )

  pub wide : (x : ℕ) → x % 2 ^ 64 % capacity ≡ x % capacity
  wide x = mod-mod_of_dvd capacity x divides

  pub masked_lem : (i : ℕ) → masked capacity i ≡ i % capacity
  unfolding masked
  masked_lem i =
      ap (λ (c : ℕ). bit_and i (c - 1)) cap.single_bit
      ∙ bit_and-mask cap.log i
      ∙ ap (λ (c : ℕ). i % c) (sym cap.single_bit)

  -- Where the element with number `i` behind the counter `t` is stored.
  pub masked-add64 : (t i : ℕ) → masked capacity (add64 t i) ≡ (t + i) % capacity
  masked-add64 t i = masked_lem (add64 t i) ∙ wide (t + i)
