-- ===== src/Clob/Middle.antt =====
-- A queue without an order in its middle, and a level whose order is freed.
use lowlat_matching_engine.Common.{
  ℕ, suc, ◌+◌, ◌≡◌, ◌≢◌, refl, inl, arith, List, [], ◌∷◌, ◌++◌, length, ◌==◌, if◌then◌else◌,
  length-append,
}
use lowlat_matching_engine.Types.{Side, buy, sell, Order, null_order_index}
use lowlat_matching_engine.Pool
use lowlat_matching_engine.Index.{Table}
use lowlat_matching_engine.Clob.{Clob, level}
use lowlat_matching_engine.Clob.Queues.{Elem, first, last_from, total}
use lowlat_matching_engine.Clob.Links.{
  total-append, last_from_unlink, last_from_append, last_from-Elem,
}

-- The book after the erasure and the release.
abbrev pub freed : Clob → Table → ℕ → Clob
freed c table idx = record c { order_lookup = table; pool = Pool.release c.pool idx }

pub level-freed :
    (c : Clob) (table : Table) (idx : ℕ) (s : Side) (p : ℕ)
    → level (freed c table idx) s p ≡ level c s p
unfolding level
level-freed c table idx buy p = refl
level-freed c table idx sell p = refl

pub first-middle :
    (prev i : ℕ) (xs ys : List ℕ) (h h' n p : ℕ)
    → h ≡ first (xs ++ i ∷ ys)
    → p ≡ last_from null_order_index xs
    → n ≡ first ys
    → ((j : ℕ) → Elem j xs → j ≢ null_order_index)
    → h' ≡ (if p == null_order_index then n else h)
    → h' ≡ first (xs ++ ys)
first-middle prev i [] ys h h' n p e ep en real eh = ground (arith, ep, en, eh)
first-middle prev i (x ∷ xs) ys h h' n p e ep en real eh =
    let ne = real (last_from x xs) (last_from-Elem x xs) in ground (arith, e, ep, eh, ne)

pub last-middle :
    (i : ℕ) (xs ys : List ℕ) (t t' n p : ℕ)
    → t ≡ last_from null_order_index (xs ++ i ∷ ys)
    → p ≡ last_from null_order_index xs
    → n ≡ first ys
    → ((j : ℕ) → Elem j ys → j ≢ null_order_index)
    → t' ≡ (if n == null_order_index then p else t)
    → t' ≡ last_from null_order_index (xs ++ ys)
last-middle i xs [] t t' n p e ep en real et =
    let a = last_from_append null_order_index xs in ground (arith, ep, en, et, a)
last-middle i xs (y ∷ ys) t t' n p e ep en real et =
    let ne = real y (inl refl) in
    let a = last_from_unlink null_order_index i xs y ys in ground (arith, e, en, et, ne, a)

pub total-middle :
    (o : ℕ → Order) (i : ℕ) (xs ys : List ℕ)
    → total o (xs ++ i ∷ ys) ≡ total o (xs ++ ys) + (o i).qty
total-middle o i xs ys = omega (arith, total-append o xs (i ∷ ys), total-append o xs ys)

pub length-middle : (i : ℕ) (xs ys : List ℕ) → length (xs ++ i ∷ ys) ≡ suc (length (xs ++ ys))
length-middle i xs ys = omega (arith, length-append xs (i ∷ ys), length-append xs ys)
