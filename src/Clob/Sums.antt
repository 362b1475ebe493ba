-- ===== src/Clob/Sums.antt =====
-- Sums over the queues of the abstract book of src/fixed_clob.hpp.
use lowlat_matching_engine.Common.{
  ℕ, zero, suc, ◌+◌, ◌-◌, ◌≤◌, ◌<◌, ◌≡◌, ◌==◌, refl, ap, inl, inr, arith, if◌then◌else◌, List,
  eq-cases,
}
use lowlat_matching_engine.Types.{Side, buy, sell}
use lowlat_matching_engine.Clob.Invariant.{requeue}
use lowlat_matching_engine.Clob.View.{Entry, View}

-- What `weight` adds up to at `k` prices from `p` on.
abbrev pub sum_from : (List Entry → ℕ) → (ℕ → List Entry) → ℕ → ℕ → ℕ
sum_from weight q zero p = 0
sum_from weight q (suc k) p = weight (q p) + sum_from weight q k (p + 1)

-- What it adds up to between two prices, on both sides.
abbrev pub view_sum : (List Entry → ℕ) → ℕ → ℕ → View → ℕ
view_sum weight lo hi v =
    sum_from weight (v buy) (hi + 1 - lo) lo + sum_from weight (v sell) (hi + 1 - lo) lo

module _ (weight : List Entry → ℕ) where
  sum_from-away :
      (f : ℕ → List Entry) (price : ℕ) (q : List Entry) (k p : ℕ)
      → price < p
      → sum_from weight (λ x. if x == price then q else f x) k p ≡ sum_from weight f k p
  sum_from-away f price q zero p h = refl
  sum_from-away f price q (suc k) p h =
      let here : (if p == price then q else f p) ≡ f p = ground (arith, h) in
      omega (arith, ap weight here, sum_from-away f price q k (p + 1) (omega (arith, h)))

  sum_from-put :
      (f : ℕ → List Entry) (price : ℕ) (q : List Entry) (k p : ℕ)
      → p ≤ price
      → price < p + k
      → sum_from weight (λ x. if x == price then q else f x) k p + weight (f price)
        ≡ sum_from weight f k p + weight q
  sum_from-put f price q zero p l h = absurd (omega (arith, l, h))
  sum_from-put f price q (suc k) p l h = elim (eq-cases p price) [
    | inl here ↦
        let now : (if p == price then q else f p) ≡ q = ground (arith, here) in
        let old : f p ≡ f price = ap f here in
        omega (
          arith,
          ap weight now,
          ap weight old,
          sum_from-away f price q k (p + 1) (omega (arith, here)),
        )
    | inr away ↦
        let now : (if p == price then q else f p) ≡ f p = ground (arith, away) in
        omega (
          arith,
          ap weight now,
          sum_from-put f price q k (p + 1) (omega (arith, l, away)) (omega (arith, h)),
        )
  ]

  -- One queue in the place of another.
  pub view_sum-requeue :
      (lo hi : ℕ) (v : View) (side : Side) (price : ℕ) (q : List Entry)
      → lo ≤ price
      → price ≤ hi
      → view_sum weight lo hi (requeue v side price q) + weight (v side price)
        ≡ view_sum weight lo hi v + weight q
  view_sum-requeue lo hi v buy price q l h =
      let put = sum_from-put (v buy) price q (hi + 1 - lo) lo l (omega (arith, l, h)) in
      omega (arith, put)
  view_sum-requeue lo hi v sell price q l h =
      let put = sum_from-put (v sell) price q (hi + 1 - lo) lo l (omega (arith, l, h)) in
      omega (arith, put)
