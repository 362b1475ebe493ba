-- ===== src/Clob/Queues.antt =====
-- FIFO queues of src/fixed_clob.hpp as lists of pool indices: membership, no repetition, and the
-- doubly linked list that `next_idx` and `prev_idx` make of one.
use lowlat_matching_engine.Common.{
  ℕ, zero, suc, ◌+◌, ◌≤◌, ◌<◌, ◌≡◌, ◌≢◌, refl, sym, ap, ◌⊎◌, inl, inr, arith, List, [], ◌∷◌, ◌++◌,
  length, eq-cases, length-append,
}
use lowlat_matching_engine.Types.{Order, null_order_index}

abbrev pub Elem : ℕ → List ℕ → Type 0
Elem i [] = ⊥
Elem i (x ∷ q) = (i ≡ x) ⊎ Elem i q

abbrev pub IsNodup : List ℕ → Type 0
IsNodup [] = Unit
IsNodup (x ∷ q) = (¬ Elem x q) × IsNodup q

-- The head of a queue, as `head_idx` records it.
abbrev pub first : List ℕ → ℕ
first [] = null_order_index
first (x ∷ q) = x

-- The last index of a queue that comes after `prev`.
abbrev pub last_from : ℕ → List ℕ → ℕ
last_from prev [] = prev
last_from prev (x ∷ q) = last_from x q

-- The queue is linked both ways, behind `prev`.
abbrev pub Linked : (ℕ → Order) → ℕ → List ℕ → Type 0
Linked orders prev [] = Unit
Linked orders prev (i ∷ q) =
    ((orders i).prev_idx ≡ prev) × ((orders i).next_idx ≡ first q) × Linked orders i q

-- The quantities of a queue added up, with no wrap-around.
abbrev pub total : (ℕ → Order) → List ℕ → ℕ
total orders [] = 0
total orders (i ∷ q) = (orders i).qty + total orders q

pub Elem-nil : (i : ℕ) → ¬ Elem i []
Elem-nil i e = e

pub Elem-cases : (i : ℕ) (q : List ℕ) → Elem i q ⊎ (¬ Elem i q)
Elem-cases i [] = inr (λ e. e)
Elem-cases i (x ∷ q) = elim (eq-cases i x) [
  | inl here ↦ inl (inl here)
  | inr away ↦ elim (Elem-cases i q) [
    | inl there ↦ inl (inr there)
    | inr nowhere ↦ inr (λ e. both away nowhere e)
  ]
]
  where
    both : i ≢ x → (¬ Elem i q) → (i ≡ x) ⊎ Elem i q → ⊥
    both away nowhere (inl e) = away e
    both away nowhere (inr e) = nowhere e

pub Elem-left : (i : ℕ) (xs ys : List ℕ) → Elem i xs → Elem i (xs ++ ys)
Elem-left i [] ys e = absurd e
Elem-left i (x ∷ xs) ys (inl e) = inl e
Elem-left i (x ∷ xs) ys (inr e) = inr (Elem-left i xs ys e)

pub Elem-right : (i : ℕ) (xs ys : List ℕ) → Elem i ys → Elem i (xs ++ ys)
Elem-right i [] ys e = e
Elem-right i (x ∷ xs) ys e = inr (Elem-right i xs ys e)

pub Elem-append : (i : ℕ) (xs ys : List ℕ) → Elem i (xs ++ ys) → Elem i xs ⊎ Elem i ys
Elem-append i [] ys e = inr e
Elem-append i (x ∷ xs) ys (inl e) = inl (inl e)
Elem-append i (x ∷ xs) ys (inr e) = elim (Elem-append i xs ys e) [
  | inl l ↦ inl (inr l)
  | inr r ↦ inr r
]

-- A member splits its queue.
pub record Split (i : ℕ) (q : List ℕ) : Type 0 where
  pub before : List ℕ
  pub behind : List ℕ
  pub whole : q ≡ before ++ i ∷ behind

pub split : (i : ℕ) (q : List ℕ) → Elem i q → Split i q
split i [] e = absurd e
split i (x ∷ q) (inl e) = record { before = []; behind = q; whole = ap (λ (y : ℕ). y ∷ q) (sym e) }
split i (x ∷ q) (inr e) =
    let s = split i q e in
    record { before = x ∷ s.before; behind = s.behind; whole = ap (λ (r : List ℕ). x ∷ r) s.whole }

-- Taking out the middle of a queue without repetition.
pub Elem-outer : (j i : ℕ) (xs ys : List ℕ) → Elem j (xs ++ ys) → Elem j (xs ++ i ∷ ys)
Elem-outer j i xs ys e = elim (Elem-append j xs ys e) [
  | inl l ↦ Elem-left j xs (i ∷ ys) l
  | inr r ↦ Elem-right j xs (i ∷ ys) (inr r)
]

pub Elem-inner : (j i : ℕ) (xs ys : List ℕ) → Elem j (xs ++ i ∷ ys) → j ≢ i → Elem j (xs ++ ys)
Elem-inner j i xs ys e ne = elim (Elem-append j xs (i ∷ ys) e) [
  | inl l ↦ Elem-left j xs ys l
  | inr (inl here) ↦ absurd (ne here)
  | inr (inr r) ↦ Elem-right j xs ys r
]

pub middle_apart : (i : ℕ) (xs ys : List ℕ) → IsNodup (xs ++ i ∷ ys) → ¬ Elem i (xs ++ ys)
middle_apart i [] ys n e = n.0 e
middle_apart i (x ∷ xs) ys n (inl here) = n.0 (Elem-right x xs (i ∷ ys) (inl (sym here)))
middle_apart i (x ∷ xs) ys n (inr e) = middle_apart i xs ys n.1 e

pub IsNodup-outer : (i : ℕ) (xs ys : List ℕ) → IsNodup (xs ++ i ∷ ys) → IsNodup (xs ++ ys)
IsNodup-outer i [] ys n = n.1
IsNodup-outer i (x ∷ xs) ys n = (λ e. n.0 (Elem-outer x i xs ys e), IsNodup-outer i xs ys n.1)

pub IsNodup-snoc : (q : List ℕ) (i : ℕ) → IsNodup q → (¬ Elem i q) → IsNodup (q ++ i ∷ [])
IsNodup-snoc [] i n e = (λ x. x, tt)
IsNodup-snoc (x ∷ q) i n e =
    (λ m. fresh (Elem-append x q (i ∷ []) m), IsNodup-snoc q i n.1 (λ m. e (inr m)))
  where
    fresh : Elem x q ⊎ Elem x (i ∷ []) → ⊥
    fresh (inl m) = n.0 m
    fresh (inr (inl same)) = e (inl (sym same))
    fresh (inr (inr m)) = m

-- Indices below `n` without repetition are at most `n`.
pub pigeonhole : (n : ℕ) (q : List ℕ) → IsNodup q → ((i : ℕ) → Elem i q → i < n) → length q ≤ n
pigeonhole zero [] d h = omega arith
pigeonhole zero (x ∷ q) d h = absurd (omega (arith, h x (inl refl)))
pigeonhole (suc n) q d h = elim (Elem-cases n q) [
  | inr away ↦
      let few =
        pigeonhole n q d
          (λ i e. below i e (λ s. away (mathlib.Core.Path.subst (λ (x : ℕ). Elem x q) s e))) in
      omega (arith, few)
  | inl there ↦
      let s = split n q there in
      let d' = mathlib.Core.Path.subst IsNodup s.whole d in
      let few = pigeonhole n (s.before ++ s.behind) (IsNodup-outer n s.before s.behind d') (λ i e.
        below i
          (mathlib.Core.Path.subst (λ (r : List ℕ). Elem i r) (sym s.whole)
            (Elem-outer i n s.before s.behind e))
          (λ same.
            middle_apart n s.before s.behind d'
              (mathlib.Core.Path.subst (λ (x : ℕ). Elem x (s.before ++ s.behind)) same e))) in
      omega (
        arith,
        few,
        ap (length {0}) s.whole,
        length-append s.before (n ∷ s.behind),
        length-append s.before s.behind,
      )
]
  where
    below : (i : ℕ) → Elem i q → i ≢ n → i < n
    below i e ne = omega (arith, h i e)

pub IsNodup-append :
    (xs ys : List ℕ)
    → IsNodup xs
    → IsNodup ys
    → ((i : ℕ) → Elem i xs → ¬ Elem i ys)
    → IsNodup (xs ++ ys)
IsNodup-append [] ys n m apart = m
IsNodup-append (x ∷ xs) ys n m apart =
    (λ e. fresh (Elem-append x xs ys e), IsNodup-append xs ys n.1 m (λ i e. apart i (inr e)))
  where
    fresh : Elem x xs ⊎ Elem x ys → ⊥
    fresh (inl e) = n.0 e
    fresh (inr e) = apart x (inl refl) e

-- A queue without repetition is no longer than one with the same members.
pub length-le_of_Elem :
    (xs ys : List ℕ) → IsNodup xs → ((i : ℕ) → Elem i xs → Elem i ys) → length xs ≤ length ys
length-le_of_Elem [] ys n h = omega arith
length-le_of_Elem (x ∷ xs) ys n h =
    let s = split x ys (h x (inl refl)) in
    let few = length-le_of_Elem xs (s.before ++ s.behind) n.1 (λ i e.
      Elem-inner i x s.before s.behind
        (mathlib.Core.Path.subst (λ (q : List ℕ). Elem i q) s.whole (h i (inr e)))
        (λ same. n.0 (mathlib.Core.Path.subst (λ (j : ℕ). Elem j xs) same e))) in
    omega (
      arith,
      few,
      ap (length {0}) s.whole,
      length-append s.before (x ∷ s.behind),
      length-append s.before s.behind,
    )
