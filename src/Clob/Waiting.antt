-- ===== src/Clob/Waiting.antt =====
-- The orders of src/fixed_clob.hpp that the queues hold and those that the cells of the index hold, as lists.
use mathlib.Core.Path.{subst}
use lowlat_matching_engine.Common.{
  ℕ, zero, suc, ◌+◌, ◌≤◌, ◌<◌, ◌≡◌, refl, sym, ap, ◌∙◌, ◌⊎◌, inl, inr, arith, List, [], ◌∷◌, ◌++◌,
  length, eq-cases,
}
use lowlat_matching_engine.Index.{Table, State, free, occupied, deleted}
use lowlat_matching_engine.Index.Probing.{weight, count_occupied}
use lowlat_matching_engine.Clob.Queues.{Elem, IsNodup, Elem-left, Elem-right, Elem-append}
use lowlat_matching_engine.Clob.Sums.{sum_from, view_sum}
use lowlat_matching_engine.Clob.View.{Entry, View}

-- The queues at `k` prices from `p` on, one behind another.
abbrev pub queues_from : (ℕ → List ℕ) → ℕ → ℕ → List ℕ
queues_from q zero p = []
queues_from q (suc k) p = q p ++ queues_from q k (p + 1)

-- How many orders wait at `k` prices from `p` on.
abbrev pub resting_from : (ℕ → List Entry) → ℕ → ℕ → ℕ
resting_from = sum_from (length {0})

-- How many orders wait between two prices, on both sides.
abbrev pub orders_resting : ℕ → ℕ → View → ℕ
orders_resting = view_sum (length {0})

pub Elem-queues_from :
    (q : ℕ → List ℕ) (k p price i : ℕ)
    → p ≤ price
    → price < p + k
    → Elem i (q price)
    → Elem i (queues_from q k p)
Elem-queues_from q zero p price i l h e = absurd (omega (arith, l, h))
Elem-queues_from q (suc k) p price i l h e = elim (eq-cases p price) [
  | inl here ↦
      Elem-left i (q p) (queues_from q k (p + 1)) (subst (λ (x : ℕ). Elem i (q x)) (sym here) e)
  | inr away ↦
      Elem-right i (q p) (queues_from q k (p + 1))
        (Elem-queues_from q k (p + 1) price i (omega (arith, l, away)) (omega (arith, h)) e)
]

pub queues_from-Elem :
    (q : ℕ → List ℕ) (k p i : ℕ)
    → Elem i (queues_from q k p)
    → (price : ℕ) × (p ≤ price) × (price < p + k) × Elem i (q price)
queues_from-Elem q zero p i e = absurd e
queues_from-Elem q (suc k) p i e = elim (Elem-append i (q p) (queues_from q k (p + 1)) e) [
  | inl here ↦ (p, omega arith, omega arith, here)
  | inr there ↦
      let (price, l, h, w) = queues_from-Elem q k (p + 1) i there in
      (price, omega (arith, l), omega (arith, h), w)
]

-- A cell's value before those of others, if the cell is occupied.
abbrev keep : State → ℕ → List ℕ → List ℕ
keep free x q = q
keep occupied x q = x ∷ q
keep deleted x q = q

length-keep : (s : State) (x : ℕ) (q : List ℕ) → length (keep s x q) ≡ length q + weight s
length-keep free x q = omega arith
length-keep occupied x q = omega arith
length-keep deleted x q = omega arith

Elem-keep : (s : State) (x : ℕ) (q : List ℕ) (i : ℕ) → Elem i q → Elem i (keep s x q)
Elem-keep free x q i e = e
Elem-keep occupied x q i e = inr e
Elem-keep deleted x q i e = e

keep-Elem :
    (s : State) (x : ℕ) (q : List ℕ) (i : ℕ)
    → Elem i (keep s x q)
    → Elem i q ⊎ ((s ≡ occupied) × (x ≡ i))
keep-Elem free x q i e = inl e
keep-Elem occupied x q i (inl e) = inr (refl, sym e)
keep-Elem occupied x q i (inr e) = inl e
keep-Elem deleted x q i e = inl e

pub IsNodup-keep :
    (s : State) (x : ℕ) (q : List ℕ)
    → IsNodup q
    → (s ≡ occupied → ¬ Elem x q)
    → IsNodup (keep s x q)
IsNodup-keep free x q n h = n
IsNodup-keep occupied x q n h = (h refl, n)
IsNodup-keep deleted x q n h = n

-- What the occupied ones of the first `n` cells hold.
abbrev pub held : Table → ℕ → List ℕ
held t zero = []
held t (suc n) = keep (t.states n) (t.values n) (held t n)

pub length-held : (t : Table) (n : ℕ) → length (held t n) ≡ count_occupied t.states n
unfolding count_occupied
length-held t zero = refl
length-held t (suc n) =
    omega (arith, length-keep (t.states n) (t.values n) (held t n), length-held t n)

pub Elem-held : (t : Table) (n p : ℕ) → p < n → t.states p ≡ occupied → Elem (t.values p) (held t n)
Elem-held t zero p h e = absurd (omega (arith, h))
Elem-held t (suc n) p h e = elim (eq-cases p n) [
  | inl same ↦
      subst (λ (s : State). Elem (t.values p) (keep s (t.values n) (held t n)))
        (sym e ∙ ap t.states same) (inl (ap t.values same))
  | inr away ↦
      Elem-keep (t.states n) (t.values n) (held t n) (t.values p)
        (Elem-held t n p (omega (arith, h, away)) e)
]

pub held-Elem :
    (t : Table) (n i : ℕ)
    → Elem i (held t n)
    → (p : ℕ) × (p < n) × (t.states p ≡ occupied) × (t.values p ≡ i)
held-Elem t zero i e = absurd e
held-Elem t (suc n) i e = elim (keep-Elem (t.states n) (t.values n) (held t n) i e) [
  | inl there ↦ let (p, h, o, is) = held-Elem t n i there in (p, omega (arith, h), o, is)
  | inr here ↦ (n, omega arith, here.0, here.1)
]
