-- ===== src/Clob/Best.antt =====
-- The best prices of src/fixed_clob.hpp: their update after an order is added.
use lowlat_matching_engine.Common.{
  ℕ, ◌≤◌, ◌≡◌, ◌≢◌, sym, ap, ◌∙◌, inl, inr, arith, Option, none, some, List, [], if◌then◌else◌, ltb,
  eq-cases, Bool-cases,
}
use lowlat_matching_engine.Types.{Side, buy, sell}
use lowlat_matching_engine.Clob.{Clob, level, best, opposite, update_best_after_add}
use lowlat_matching_engine.Clob.Invariant.{IsBest}

-- Two books that differ in their best prices at most.
pub record Agree (c c' : Clob) : Type 0 where
  pub min_price : c'.min_price ≡ c.min_price
  pub max_price : c'.max_price ≡ c.max_price
  pub pool : c'.pool ≡ c.pool
  pub order_lookup : c'.order_lookup ≡ c.order_lookup
  pub same_levels : (s : Side) (p : ℕ) → level c' s p ≡ level c s p

-- The better of a best price, if there is one, and a price.
abbrev pub improve : Side → Option ℕ → ℕ → Option ℕ
improve side none price = some price
improve buy (some b) price = if ltb b price then some price else some b
improve sell (some b) price = if ltb price b then some price else some b

pub record BestAdded (c : Clob) (side : Side) (price : ℕ) (c' : Clob) : Type 0 where
  pub agree : Agree c c'
  pub mine : best c' side ≡ improve side (best c side) price
  pub other : best c' (opposite side) ≡ best c (opposite side)

pub update_best_effect :
    (c : Clob) (side : Side) (price : ℕ)
    → BestAdded c side price (update_best_after_add c side price)
unfolding update_best_after_add level
update_best_effect c buy price = record {
  agree = record {
    min_price = ground arith;
    max_price = ground arith;
    pool = ground arith;
    order_lookup = ground arith;
    same_levels = λ s p. ground arith;
  };
  mine = ground arith;
  other = ground arith;
}
update_best_effect c sell price = record {
  agree = record {
    min_price = ground arith;
    max_price = ground arith;
    pool = ground arith;
    order_lookup = ground arith;
    same_levels = λ s p. ground arith;
  };
  mine = ground arith;
  other = ground arith;
}

pub IsBest-improve :
    (lo hi : ℕ) (side : Side) (q q' : ℕ → List ℕ) (b : Option ℕ) (price : ℕ)
    → lo ≤ price
    → price ≤ hi
    → IsBest lo hi side q b
    → q' price ≢ []
    → ((p : ℕ) → p ≢ price → q' p ≡ q p)
    → IsBest lo hi side q' (improve side b price)
IsBest-improve lo hi buy q q' none price l h old full same =
    (l, h, full, λ p lp hp better. same p (omega arith) ∙ old p lp hp)
IsBest-improve lo hi sell q q' none price l h old full same =
    (l, h, full, λ p lp hp better. same p (omega arith) ∙ old p lp hp)
IsBest-improve lo hi buy q q' (some b) price l h old full same = elim (Bool-cases (ltb b price)) [
  | inl up ↦ rw up (
    l,
    h,
    full,
    λ p lp hp better. same p (omega arith) ∙ old.3 p lp hp (ground (arith, up, better)),
  )
  | inr keep ↦ rw keep (
    old.0,
    old.1,
    (λ e. elim (eq-cases b price) [
      | inl s ↦ full (sym (ap q' s) ∙ e)
      | inr ne ↦ old.2 (sym (same b ne) ∙ e)
    ]),
    λ p lp hp better. same p (ground (arith, keep, better)) ∙ old.3 p lp hp better,
  )
]
IsBest-improve lo hi sell q q' (some b) price l h old full same = elim (Bool-cases (ltb price b)) [
  | inl up ↦ rw up (
    l,
    h,
    full,
    λ p lp hp better. same p (omega arith) ∙ old.3 p lp hp (ground (arith, up, better)),
  )
  | inr keep ↦ rw keep (
    old.0,
    old.1,
    (λ e. elim (eq-cases b price) [
      | inl s ↦ full (sym (ap q' s) ∙ e)
      | inr ne ↦ old.2 (sym (same b ne) ∙ e)
    ]),
    λ p lp hp better. same p (ground (arith, keep, better)) ∙ old.3 p lp hp better,
  )
]
