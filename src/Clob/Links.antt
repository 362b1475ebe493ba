-- ===== src/Clob/Links.antt =====
-- How appending to a queue and unlinking from it keep the two-way links of src/fixed_clob.hpp.
use lowlat_matching_engine.Common.{
  ℕ, ◌+◌, ◌≡◌, ◌≢◌, refl, sym, ◌∙◌, inl, inr, arith, List, [], ◌∷◌, ◌++◌, ◌==◌, if◌then◌else◌,
}
use lowlat_matching_engine.Types.{Order, null_order_index}
use lowlat_matching_engine.Clob.Queues.{
  Elem, IsNodup, first, last_from, Linked, total, Elem-left, Elem-right,
}

pub Linked-congr :
    (o o' : ℕ → Order) (prev : ℕ) (q : List ℕ)
    → ((i : ℕ) → Elem i q → ((o' i).prev_idx ≡ (o i).prev_idx) × ((o' i).next_idx ≡ (o i).next_idx))
    → Linked o prev q
    → Linked o' prev q
Linked-congr o o' prev [] same l = tt
Linked-congr o o' prev (x ∷ q) same l =
    let s = same x (inl refl) in
    (s.0 ∙ l.0, s.1 ∙ l.1, Linked-congr o o' x q (λ i e. same i (inr e)) l.2)

pub total_congr :
    (o o' : ℕ → Order) (q : List ℕ)
    → ((i : ℕ) → Elem i q → (o' i).qty ≡ (o i).qty)
    → total o' q ≡ total o q
total_congr o o' [] same = refl
total_congr o o' (x ∷ q) same =
    omega (arith, same x (inl refl), total_congr o o' q (λ i e. same i (inr e)))

pub total-append : (o : ℕ → Order) (xs ys : List ℕ) → total o (xs ++ ys) ≡ total o xs + total o ys
total-append o [] ys = omega arith
total-append o (x ∷ xs) ys = omega (arith, total-append o xs ys)

pub last_from-Elem : (x : ℕ) (q : List ℕ) → Elem (last_from x q) (x ∷ q)
last_from-Elem x [] = inl refl
last_from-Elem x (y ∷ q) = inr (last_from-Elem y q)

pub last_from_snoc : (prev : ℕ) (q : List ℕ) (i : ℕ) → last_from prev (q ++ i ∷ []) ≡ i
last_from_snoc prev [] i = refl
last_from_snoc prev (x ∷ q) i = last_from_snoc x q i

-- `idx` linked behind the last order of a queue that is not empty.
pub Linked-snoc :
    (o o' : ℕ → Order) (prev x : ℕ) (q : List ℕ) (idx : ℕ)
    → Linked o prev (x ∷ q)
    → IsNodup (x ∷ q)
    → ((i : ℕ)
        → Elem i (x ∷ q)
        → ((o' i).prev_idx ≡ (o i).prev_idx)
          × ((o' i).next_idx ≡ (if i == last_from x q then idx else (o i).next_idx)))
    → (o' idx).prev_idx ≡ last_from x q
    → (o' idx).next_idx ≡ null_order_index
    → Linked o' prev ((x ∷ q) ++ idx ∷ [])
Linked-snoc o o' prev x [] idx l n same p e =
    let s = same x (inl refl) in (s.0 ∙ l.0, ground (arith, s.1), (p, e, tt))
Linked-snoc o o' prev x (y ∷ q) idx l n same p e =
    let s = same x (inl refl) in
    let apart : x ≢ last_from y q =
      λ h. n.0 (mathlib.Core.Path.subst (λ (z : ℕ). Elem z (y ∷ q)) (sym h) (last_from-Elem y q)) in
    (
      s.0 ∙ l.0,
      ground (arith, s.1, apart, l.1),
      Linked-snoc o o' x y q idx l.2 n.1 (λ i m. same i (inr m)) p e,
    )

-- What unlinking `i`, with neighbours `p` and `n`, does to the links of another order.
abbrev pub Relinked : (ℕ → Order) → (ℕ → Order) → ℕ → ℕ → ℕ → Type 0
Relinked o o' p n j =
    ((o' j).next_idx ≡ (if j == p then n else (o j).next_idx))
    × ((o' j).prev_idx ≡ (if j == n then p else (o j).prev_idx))

first_apart : (x : ℕ) (ys : List ℕ) → x ≢ null_order_index → (¬ Elem x ys) → x ≢ first ys
first_apart x [] ne away e = ne e
first_apart x (y ∷ ys) ne away e = away (inl e)

-- The neighbours of the middle of a linked queue.
pub middle_links :
    (o : ℕ → Order) (prev i : ℕ) (xs ys : List ℕ)
    → Linked o prev (xs ++ i ∷ ys)
    → ((o i).prev_idx ≡ last_from prev xs) × ((o i).next_idx ≡ first ys)
middle_links o prev i [] ys l = (l.0, l.1)
middle_links o prev i (x ∷ xs) ys l = middle_links o x i xs ys l.2

Linked-behind :
    (o o' : ℕ → Order) (prev i : ℕ) (ys : List ℕ)
    → Linked o i ys
    → IsNodup ys
    → (¬ Elem prev ys)
    → ((j : ℕ) → Elem j ys → j ≢ null_order_index)
    → ((j : ℕ) → Elem j ys → Relinked o o' prev (first ys) j)
    → Linked o' prev ys
Linked-behind o o' prev i [] l n away real same = tt
Linked-behind o o' prev i (y ∷ ys) l n away real same =
    let s = same y (inl refl) in
    (
      ground (arith, s.1),
      (ground (arith, s.0, l.1, λ (h : y ≡ prev). away (inl (sym h)))),
      Linked-congr o o' y ys
          (λ j e.
            let r = same j (inr e) in
            let ne : j ≢ y = λ h. n.0 (mathlib.Core.Path.subst (λ (z : ℕ). Elem z ys) h e) in
            let np : j ≢ prev =
              λ h. away (inr (mathlib.Core.Path.subst (λ (z : ℕ). Elem z ys) h e)) in
            (ground (arith, r.1, ne), ground (arith, r.0, np)))
          l.2,
    )

-- A queue with its middle unlinked is linked.
pub Linked-unlink :
    (o o' : ℕ → Order) (prev i : ℕ) (xs ys : List ℕ)
    → Linked o prev (xs ++ i ∷ ys)
    → IsNodup (xs ++ i ∷ ys)
    → (¬ Elem prev (xs ++ i ∷ ys))
    → ((j : ℕ) → Elem j (xs ++ i ∷ ys) → j ≢ null_order_index)
    → ((j : ℕ) → Elem j (xs ++ ys) → Relinked o o' (last_from prev xs) (first ys) j)
    → Linked o' prev (xs ++ ys)
Linked-unlink o o' prev i [] ys l n away real same =
    Linked-behind o o' prev i ys l.2 n.1 (λ e. away (inr e)) (λ j e. real j (inr e)) same
Linked-unlink o o' prev i (x ∷ xs) ys l n away real same =
    let s = same x (inl refl) in
    let behind : ¬ Elem x ys = λ e. n.0 (Elem-right x xs (i ∷ ys) (inr e)) in
    let apart = first_apart x ys (real x (inl refl)) behind in
    (
      ground (arith, s.1, apart, l.0),
      next xs s.0 l.1 n.0,
      Linked-unlink o o' x i xs ys l.2 n.1 n.0 (λ j e. real j (inr e)) (λ j e. same j (inr e)),
    )
  where
    next :
        (xs : List ℕ)
        → (o' x).next_idx ≡ (if x == last_from x xs then first ys else (o x).next_idx)
        → (o x).next_idx ≡ first (xs ++ i ∷ ys)
        → (¬ Elem x (xs ++ i ∷ ys))
        → (o' x).next_idx ≡ first (xs ++ ys)
    next [] s l n = ground (arith, s)
    next (z ∷ zs) s l n =
        let ne : x ≢ last_from z zs = λ h. n (
          Elem-left x (z ∷ zs) (i ∷ ys)
            (mathlib.Core.Path.subst (λ (w : ℕ). Elem w (z ∷ zs)) (sym h) (last_from-Elem z zs))) in
        ground (arith, s, l, ne)

pub last_from_unlink :
    (prev i : ℕ) (xs : List ℕ) (y : ℕ) (ys : List ℕ)
    → last_from prev (xs ++ y ∷ ys) ≡ last_from prev (xs ++ i ∷ y ∷ ys)
last_from_unlink prev i [] y ys = refl
last_from_unlink prev i (x ∷ xs) y ys = last_from_unlink x i xs y ys

pub last_from_append : (prev : ℕ) (xs : List ℕ) → last_from prev (xs ++ []) ≡ last_from prev xs
last_from_append prev [] = refl
last_from_append prev (x ∷ xs) = last_from_append x xs
