-- ===== src/Ring/Outcomes.antt =====
-- What the answer of a call of src/spsc_ring.hpp says of the ring.
use mathlib.Core.Path.{subst}
use lowlat_matching_engine.Common.{
  ℕ, ◌≡◌, ◌<◌, sym, ap, ◌∙◌, ◌⊎◌, inl, inr, arith, Bool, true, false, Option, none, some, List, [],
  ◌∷◌, ◌++◌, length, prefix, min, ◌-◌,
}
use lowlat_matching_engine.Ring.{Ring, push, pop, push_many, pop_many}
use lowlat_matching_engine.Ring.Slice.{IsRingCapacity}
use lowlat_matching_engine.Ring.Batches.{push_many_lem, pop_many_lem}
use lowlat_matching_engine.Ring.Calls.{contents, IsRing, push_lem, pop_lem}

module _ (capacity : ℕ) (cap : IsRingCapacity capacity) {A : Type 0} {r : Ring A}
    (v : IsRing capacity cap r) where
  pub push-true :
      (x : A) (q : Ring A)
      → push capacity r x ≡ (true, q)
      → IsRing capacity cap q × (contents capacity cap q ≡ contents capacity cap r ++ x ∷ [])
  push-true x q is = by_case (push_lem capacity cap x v)
    where
      Goal : Ring A → Type 0
      Goal q = IsRing capacity cap q × (contents capacity cap q ≡ contents capacity cap r ++ x ∷ [])

      by_case :
          ((length (contents capacity cap r) ≡ capacity) × (push capacity r x ≡ (false, r)))
            ⊎ ((length (contents capacity cap r) < capacity)
                × (r' : Ring A) × (push capacity r x ≡ (true, r'))
                × IsRing capacity cap r'
                × (contents capacity cap r' ≡ contents capacity cap r ++ x ∷ []))
          → Goal q
      by_case (inl (full, refused)) =
          let e = ap (λ (p : Bool × Ring A). p.0) (sym refused ∙ is) in absurd (ground (arith, e))
      by_case (inr (room, r', pushed, v', q')) =
          subst Goal (ap (λ (p : Bool × Ring A). p.1) (sym pushed ∙ is)) (v', q')

  pub push-false : (x : A) (q : Ring A) → push capacity r x ≡ (false, q) → q ≡ r
  push-false x q is = by_case (push_lem capacity cap x v)
    where
      by_case :
          ((length (contents capacity cap r) ≡ capacity) × (push capacity r x ≡ (false, r)))
            ⊎ ((length (contents capacity cap r) < capacity)
                × (r' : Ring A) × (push capacity r x ≡ (true, r'))
                × IsRing capacity cap r'
                × (contents capacity cap r' ≡ contents capacity cap r ++ x ∷ []))
          → q ≡ r
      by_case (inl (full, refused)) = ap (λ (p : Bool × Ring A). p.1) (sym is ∙ refused)
      by_case (inr (room, r', pushed, v', q')) =
          let e = ap (λ (p : Bool × Ring A). p.0) (sym pushed ∙ is) in absurd (ground (arith, e))

  pub pop-some :
      (x : A) (q : Ring A)
      → pop capacity r ≡ (some x, q)
      → IsRing capacity cap q × (contents capacity cap r ≡ x ∷ contents capacity cap q)
  pop-some x q is = by_case (pop_lem capacity cap v)
    where
      by_case :
          ((contents capacity cap r ≡ []) × (pop capacity r ≡ (none, r)))
            ⊎ ((y : A) × (ys : List A) × (contents capacity cap r ≡ y ∷ ys)
                × (r' : Ring A) × (pop capacity r ≡ (some y, r'))
                × IsRing capacity cap r'
                × (contents capacity cap r' ≡ ys))
          → IsRing capacity cap q × (contents capacity cap r ≡ x ∷ contents capacity cap q)
      by_case (inl (bare, failed)) =
          let e = ap (λ (p : Option A × Ring A). p.0) (sym failed ∙ is) in
          absurd (ground (arith, e))
      by_case (inr (y, ys, all, r', popped, v', rest)) =
          let ring = ap (λ (p : Option A × Ring A). p.1) (sym popped ∙ is) in
          let value =
            ap (λ (p : Option A × Ring A). elim p.0 [ none ↦ y | some z ↦ z ]) (sym popped ∙ is) in
          (
            subst (λ (q : Ring A). IsRing capacity cap q) ring v',
            all
                ∙ ap (λ (z : A). z ∷ ys) value
                ∙ ap (λ (zs : List A). x ∷ zs) (sym rest ∙ ap (contents capacity cap) ring),
          )

  pub pop-none :
      (q : Ring A) → pop capacity r ≡ (none, q) → (q ≡ r) × (contents capacity cap r ≡ [])
  pop-none q is = by_case (pop_lem capacity cap v)
    where
      by_case :
          ((contents capacity cap r ≡ []) × (pop capacity r ≡ (none, r)))
            ⊎ ((y : A) × (ys : List A) × (contents capacity cap r ≡ y ∷ ys)
                × (r' : Ring A) × (pop capacity r ≡ (some y, r'))
                × IsRing capacity cap r'
                × (contents capacity cap r' ≡ ys))
          → (q ≡ r) × (contents capacity cap r ≡ [])
      by_case (inl (bare, failed)) = (ap (λ (p : Option A × Ring A). p.1) (sym is ∙ failed), bare)
      by_case (inr (y, ys, all, r', popped, v', rest)) =
          let e = ap (λ (p : Option A × Ring A). p.0) (sym popped ∙ is) in
          absurd (ground (arith, e))

  pub push_many-pushed :
      (input : ℕ → A) (max_count n : ℕ) (q : Ring A)
      → push_many capacity r input max_count ≡ (n, q)
      → IsRing capacity cap q
        × (n ≡ min (capacity - length (contents capacity cap r)) max_count)
        × (contents capacity cap q ≡ contents capacity cap r ++ prefix input 0 n)
  push_many-pushed input max_count n q is =
      let (m, count, q', is', v', grown) = push_many_lem capacity cap input max_count v in
      let same : (m, q') ≡ (n, q) = sym is' ∙ is in subst Goal same (v', count, grown)
    where
      Goal : ℕ × Ring A → Type 0
      Goal p =
          IsRing capacity cap p.1
          × (p.0 ≡ min (capacity - length (contents capacity cap r)) max_count)
          × (contents capacity cap p.1 ≡ contents capacity cap r ++ prefix input 0 p.0)

  pub pop_many-popped :
      (out : ℕ → A) (max_count n : ℕ) (out' : ℕ → A) (q : Ring A)
      → pop_many capacity r out max_count ≡ (n, out', q)
      → IsRing capacity cap q
        × (n ≡ min (length (contents capacity cap r)) max_count)
        × (contents capacity cap r ≡ prefix out' 0 n ++ contents capacity cap q)
  pop_many-popped out max_count n out' q is =
      let (m, count, got, q', is', v', taken, kept) = pop_many_lem capacity cap out max_count v in
      let same : (m, got, q') ≡ (n, out', q) = sym is' ∙ is in subst Goal same (v', count, taken)
    where
      Goal : ℕ × (ℕ → A) × Ring A → Type 0
      Goal p =
          IsRing capacity cap p.2
          × (p.0 ≡ min (length (contents capacity cap r)) max_count)
          × (contents capacity cap r ≡ prefix p.1 0 p.0 ++ contents capacity cap p.2)
