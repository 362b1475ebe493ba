-- ===== src/Clob/Count.antt =====
-- How many orders of src/fixed_clob.hpp rest, counted over all prices of both sides.
use mathlib.Core.Path.{subst}
use lowlat_matching_engine.Common.{
  ℕ, zero, suc, ◌+◌, ◌-◌, ◌*◌, ◌≤◌, ◌<◌, ◌≡◌, refl, sym, ap, ◌∙◌, inl, inr, arith, List, ◌++◌,
  length, length-append, true, ◌↔◌,
}
use lowlat_matching_engine.Types.{Side, buy, sell}
use lowlat_matching_engine.Index.{Table, occupied}
use lowlat_matching_engine.Index.Probing.{IsCapacity}
use lowlat_matching_engine.Index.Search.{find-held, find-some}
use lowlat_matching_engine.Clob
use lowlat_matching_engine.Clob.{Clob, order_at, active_orders, available_slots}
use lowlat_matching_engine.Clob.Queries.{active_orders_lem}
use lowlat_matching_engine.Clob.Queues.{
  Elem, IsNodup, Elem-left, Elem-right, Elem-append, IsNodup-append, length-le_of_Elem,
}
use lowlat_matching_engine.Clob.Invariant.{InRange, Listed}
use lowlat_matching_engine.Clob.View.{View, Represents, length-entries}
use lowlat_matching_engine.Clob.Waiting.{
  queues_from, resting_from, orders_resting, Elem-queues_from, queues_from-Elem, IsNodup-keep, held,
  length-held, Elem-held, held-Elem,
}

module _ (max_orders : ℕ) (hash : ℕ → ℕ) (cap : IsCapacity (2 * max_orders)) {c : Clob} {v : View}
    (r : Represents max_orders hash cap c v) where
  abbrev table : Table
  table = c.order_lookup

  -- The order that an occupied cell names waits, and bears the id that the cell has for its key.
  cell_lem :
      (p : ℕ)
      → p < 2 * max_orders
      → table.states p ≡ occupied
      → Listed c r.queues (table.keys p) (table.values p)
  cell_lem p h o = r.book.core.listed (table.keys p) (table.values p) (
      find-held (2 * max_orders) hash cap table (table.keys p) p r.book.core.table
        (record { in_range = h; is_occupied = o; key = refl }))

  IsNodup-held : (n : ℕ) → n ≤ 2 * max_orders → IsNodup (held table n)
  IsNodup-held zero h = tt
  IsNodup-held (suc n) h =
      IsNodup-keep (table.states n) (table.values n) (held table n)
        (IsNodup-held n (omega (arith, h)))
        (λ o e.
          let (p, below, o', same) = held-Elem table n (table.values n) e in
          let mine = cell_lem n (omega (arith, h)) o in
          let other = cell_lem p (omega (arith, below, h)) o' in
          let keys : table.keys p ≡ table.keys n =
            sym other.id_is ∙ ap (λ (i : ℕ). (order_at c i).order_id) same ∙ mine.id_is in
          let cells : p ≡ n =
            r.book.core.table.unique (table.keys n) p n
              (record { in_range = omega (arith, below, h); is_occupied = o'; key = keys })
              (record { in_range = omega (arith, h); is_occupied = o; key = refl }) in
          omega (arith, cells, below))

  abbrev span : ℕ
  span = c.max_price + 1 - c.min_price

  abbrev waiting : List ℕ
  waiting =
      queues_from (r.queues buy) span c.min_price ++ queues_from (r.queues sell) span c.min_price

  waiting-Elem :
      (i : ℕ) → Elem i waiting → (s : Side) × (p : ℕ) × InRange c p × Elem i (r.queues s p)
  waiting-Elem i e =
      elim (Elem-append i (queues_from (r.queues buy) span c.min_price)
        (queues_from (r.queues sell) span c.min_price) e) [
          | inl bid ↦
              let (p, l, h, w) = queues_from-Elem (r.queues buy) span c.min_price i bid in
              (buy, p, (l, omega (arith, h, r.book.core.range)), w)
          | inr ask ↦
              let (p, l, h, w) = queues_from-Elem (r.queues sell) span c.min_price i ask in
              (sell, p, (l, omega (arith, h, r.book.core.range)), w)
        ]

  Elem-waiting : (s : Side) (p i : ℕ) → InRange c p → Elem i (r.queues s p) → Elem i waiting
  Elem-waiting buy p i range e =
      Elem-left i (queues_from (r.queues buy) span c.min_price)
        (queues_from (r.queues sell) span c.min_price)
        (Elem-queues_from (r.queues buy) span c.min_price p i range.0
          (omega (arith, range.1, r.book.core.range)) e)
  Elem-waiting sell p i range e =
      Elem-right i (queues_from (r.queues buy) span c.min_price)
        (queues_from (r.queues sell) span c.min_price)
        (Elem-queues_from (r.queues sell) span c.min_price p i range.0
          (omega (arith, range.1, r.book.core.range)) e)

  IsNodup-side :
      (s : Side) (k p : ℕ)
      → c.min_price ≤ p
      → p + k ≤ c.max_price + 1
      → IsNodup (queues_from (r.queues s) k p)
  IsNodup-side s zero p l h = tt
  IsNodup-side s (suc k) p l h =
      let here : InRange c p = (l, omega (arith, h)) in
      IsNodup-append (r.queues s p) (queues_from (r.queues s) k (p + 1))
        (r.book.core.queues s p here).nodup
        (IsNodup-side s k (p + 1) (omega (arith, l)) (omega (arith, h)))
        (λ i e e'.
          let (price, l', h', w) = queues_from-Elem (r.queues s) k (p + 1) i e' in
          let m = (r.book.core.queues s p here).members i e in
          let there : InRange c price = (omega (arith, l, l'), omega (arith, h, h')) in
          let m' = (r.book.core.queues s price there).members i w in
          omega (arith, m.price_is, m'.price_is, l'))

  IsNodup-waiting : IsNodup waiting
  IsNodup-waiting =
      IsNodup-append (queues_from (r.queues buy) span c.min_price)
        (queues_from (r.queues sell) span c.min_price)
        (IsNodup-side buy span c.min_price (omega arith) (omega (arith, r.book.core.range)))
        (IsNodup-side sell span c.min_price (omega arith) (omega (arith, r.book.core.range)))
        (λ i e e'.
          let (p, l, h, w) = queues_from-Elem (r.queues buy) span c.min_price i e in
          let (p', l', h', w') = queues_from-Elem (r.queues sell) span c.min_price i e' in
          let m = (r.book.core.queues buy p (l, omega (arith, h, r.book.core.range))).members i w in
          let m' =
            (r.book.core.queues sell p' (l', omega (arith, h', r.book.core.range))).members i w' in
          let e : buy ≡ sell = sym m.side_is ∙ m'.side_is in ground (arith, e))

  -- As many orders wait as the table holds.
  table-waiting : length waiting ≡ table.size
  table-waiting =
      let all = 2 * max_orders in
      let few = length-le_of_Elem (held table all) waiting (IsNodup-held all (omega arith)) (λ i e.
        let (p, below, o, is) = held-Elem table all i e in
        let w = cell_lem p below o in
        subst (λ (j : ℕ). Elem j waiting) is
          (Elem-waiting (order_at c (table.values p)).side (order_at c (table.values p)).price
            (table.values p) w.price_in w.waits)) in
      let many = length-le_of_Elem waiting (held table all) IsNodup-waiting (λ i e.
        let (s, p, range, w) = waiting-Elem i e in
        let m = (r.book.core.queues s p range).members i w in
        let (cell, holds, is) = find-some all hash cap table (order_at c i).order_id i m.indexed in
        subst (λ (j : ℕ). Elem j (held table all)) is
          (Elem-held table all cell holds.in_range holds.is_occupied)) in
      omega (arith, few, many, length-held table all, r.book.core.table.counted)

  length-side :
      (s : Side) (k p : ℕ)
      → c.min_price ≤ p
      → p + k ≤ c.max_price + 1
      → length (queues_from (r.queues s) k p) ≡ resting_from (v s) k p
  length-side s zero p l h = refl
  length-side s (suc k) p l h = omega (
    arith,
    length-append (r.queues s p) (queues_from (r.queues s) k (p + 1)),
    length-side s k (p + 1) (omega (arith, l)) (omega (arith, h)),
    length-entries c (r.queues s p),
    ap (length {0}) (r.shows s p (l, omega (arith, h))),
  )

  -- In a well-formed book active_orders is the number of orders that rest at all prices of both
  -- sides, available_slots makes up the rest of the capacity, and empty holds exactly where no
  -- order rests.
  pub active_orders-resting :
      (active_orders max_orders hash c ≡ orders_resting c.min_price c.max_price v)
      × (available_slots max_orders hash c + orders_resting c.min_price c.max_price v ≡ max_orders)
      × ((Clob.empty max_orders hash c ≡ true) ↔ (orders_resting c.min_price c.max_price v ≡ 0))
  active_orders-resting =
      let (sum, size, bare) = active_orders_lem r in
      let count : active_orders max_orders hash c ≡ orders_resting c.min_price c.max_price v =
        omega (
          arith,
          size,
          table-waiting,
          length-append (queues_from (r.queues buy) span c.min_price)
              (queues_from (r.queues sell) span c.min_price),
          length-side buy span c.min_price (omega arith) (omega (arith, r.book.core.range)),
          length-side sell span c.min_price (omega arith) (omega (arith, r.book.core.range)),
        ) in
      (count, omega (arith, sum, count), ((λ e. sym count ∙ bare.0 e), (λ e. bare.1 (count ∙ e))))
