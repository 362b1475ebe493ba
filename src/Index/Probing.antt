-- ===== src/Index/Probing.antt =====
-- Positions that a probe of src/order_index.hpp visits, and how many cells are occupied.
use native.Mathlib.Nat.{mod-add-mod, mod-eq_of_lt, mod-eq-sub-mod, mod-lt}
use lowlat_matching_engine.Common.{
  ℕ, zero, suc, ◌+◌, ◌-◌, ◌%◌, ◌^◌, ◌≤◌, ◌<◌, ◌≡◌, refl, ap, ◌∙◌, inl, inr, arith, update, add64,
  lt-cases,
}
use lowlat_matching_engine.Common.Bits.{bit_and-mask}
use lowlat_matching_engine.Index.{State, free, occupied, deleted, wrap, home, next}

-- The two static assertions on `Capacity`, a `std::size_t`.
pub record IsCapacity (capacity : ℕ) : Type 0 where
  pub log : ℕ
  pub single_bit : capacity ≡ 2 ^ log
  pub many : 1 < capacity
  pub word : capacity < 2 ^ 64

abbrev pub weight : State → ℕ
weight free = 0
weight occupied = 1
weight deleted = 0

-- How many of the first `n` cells are occupied.
unfoldable pub count_occupied : (ℕ → State) → ℕ → ℕ
count_occupied states zero = 0
count_occupied states (suc n) = count_occupied states n + weight (states n)

count_above :
    (states : ℕ → State) (i : ℕ) (s : State) (n : ℕ)
    → n ≤ i
    → count_occupied (update states i s) n ≡ count_occupied states n
unfolding count_occupied
count_above states i s zero h = refl
count_above states i s (suc n) h = ground (arith, count_above states i s n)

pub count_occupied-update :
    (states : ℕ → State) (i : ℕ) (s : State) (n : ℕ)
    → i < n
    → count_occupied (update states i s) n + weight (states i) ≡ count_occupied states n + weight s
unfolding count_occupied
count_occupied-update states i s zero h = absurd (omega arith)
count_occupied-update states i s (suc n) h = elim (lt-cases i n) [
  | inl below ↦ ground (arith, count_occupied-update states i s n below)
  | inr last ↦ ground (arith, count_above states i s n)
]

weight-le : (s : State) → weight s ≤ 1
weight-le free = omega arith
weight-le occupied = omega arith
weight-le deleted = omega arith

pub count_occupied-le : (states : ℕ → State) (n : ℕ) → count_occupied states n ≤ n
unfolding count_occupied
count_occupied-le states zero = omega arith
count_occupied-le states (suc n) = omega (arith, count_occupied-le states n, weight-le (states n))

pub count_occupied_all :
    (states : ℕ → State) (n : ℕ)
    → ((p : ℕ) → p < n → states p ≡ occupied)
    → count_occupied states n ≡ n
unfolding count_occupied
count_occupied_all states zero h = refl
count_occupied_all states (suc n) h =
    omega
      (arith, count_occupied_all states n (λ p q. h p (omega arith)), ap weight (h n (omega arith)))

pub count_occupied_none : (n : ℕ) → count_occupied (λ _. free) n ≡ 0
unfolding count_occupied
count_occupied_none zero = refl
count_occupied_none (suc n) = omega (arith, count_occupied_none n)

-- An occupied cell counts.
pub count_occupied_pos :
    (states : ℕ → State) (i n : ℕ) → i < n → states i ≡ occupied → 0 < count_occupied states n
unfolding count_occupied
count_occupied_pos states i zero h o = absurd (omega arith)
count_occupied_pos states i (suc n) h o = elim (lt-cases i n) [
  | inl below ↦ omega (arith, count_occupied_pos states i n below o)
  | inr last ↦
      let same : i ≡ n = omega arith in
      omega (arith, ap (λ (j : ℕ). weight (states j)) same, ap weight o)
]

module _ (capacity : ℕ) (hash : ℕ → ℕ) (cap : IsCapacity capacity) where
  -- the position after `j` steps from `pos`
  abbrev pub at : ℕ → ℕ → ℕ
  at pos j = (pos + j) % capacity

  pub wrap-mod : (h : ℕ) → wrap capacity hash h ≡ h % capacity
  unfolding wrap
  wrap-mod h =
      let masked = bit_and-mask cap.log h in
      ap (λ (c : ℕ). Prim.Native.Nat.bit_and h (c - 1)) cap.single_bit
      ∙ masked
      ∙ ap (λ (c : ℕ). h % c) (mathlib.Core.Path.sym cap.single_bit)

  pub home-lt : (order_id : ℕ) → home capacity hash order_id < capacity
  unfolding home
  home-lt order_id = omega (
    arith,
    wrap-mod (hash order_id),
    mod-lt (hash order_id) {m = capacity} (omega (arith, cap.many)),
  )

  pub next_lem : (pos : ℕ) → pos < capacity → next capacity hash pos ≡ at pos 1
  unfolding next
  next_lem pos h =
      wrap-mod (add64 pos 1)
      ∙ ap (λ (x : ℕ). x % capacity) (let e : add64 pos 1 ≡ pos + 1 = omega (arith, cap.word) in e)

  pub next-lt : (pos : ℕ) → pos < capacity → next capacity hash pos < capacity
  next-lt pos h =
      omega (arith, next_lem pos h, mod-lt (pos + 1) {m = capacity} (omega (arith, cap.many)))

  pub at-zero : (pos : ℕ) → pos < capacity → at pos 0 ≡ pos
  at-zero pos h =
      ap (λ (x : ℕ). x % capacity) (let e : pos + 0 ≡ pos = omega arith in e) ∙ mod-eq_of_lt h

  pub at-next : (pos j : ℕ) → pos < capacity → at (next capacity hash pos) j ≡ at pos (suc j)
  at-next pos j h =
      ap (λ (x : ℕ). at x j) (next_lem pos h)
      ∙ mod-add-mod (pos + 1) capacity j
      ∙ ap (λ (x : ℕ). x % capacity) (let e : pos + 1 + j ≡ pos + suc j = omega arith in e)

  pub at-lt : (pos j : ℕ) → at pos j < capacity
  at-lt pos j = mod-lt (pos + j) (omega (arith, cap.many))

  -- A whole round of steps visits every position.
  pub at_onto :
      (pos p : ℕ) → pos < capacity → p < capacity → (j : ℕ) × (j < capacity) × (at pos j ≡ p)
  at_onto pos p h q = elim (lt-cases p pos) [
    | inl before ↦
        let j : ℕ = p + capacity - pos in
        let sum : pos + j ≡ p + capacity = omega arith in
        let back : p + capacity - capacity ≡ p = omega arith in
        (
          j,
          omega arith,
          ap (λ (x : ℕ). x % capacity) sum
              ∙ mod-eq-sub-mod {n = p + capacity} {m = capacity} (omega arith)
              ∙ ap (λ (x : ℕ). x % capacity) back
              ∙ mod-eq_of_lt q,
        )
    | inr after ↦
        let sum : pos + (p - pos) ≡ p = omega arith in
        (p - pos, omega arith, ap (λ (x : ℕ). x % capacity) sum ∙ mod-eq_of_lt q)
  ]
