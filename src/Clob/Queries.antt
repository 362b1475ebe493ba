-- ===== src/Clob/Queries.antt =====
-- The queries of src/fixed_clob.hpp against the abstract book.
use mathlib.Core.Path.{subst}
use lowlat_matching_engine.Common.{
  ℕ, ◌-◌, ◌<◌, ◌+◌, ◌*◌, ◌%◌, ◌^◌, ◌≤◌, ◌≡◌, ◌↔◌, refl, sym, ap, ◌∙◌, inl, inr, arith, Option, none,
  some, List, [], ◌∷◌, length, ◌==◌, true, false, Option-cases,
}
use lowlat_matching_engine.Types.{Side, buy, sell, null_order_index}
use lowlat_matching_engine.Pool
use lowlat_matching_engine.Pool.Laws.{used_lem}
use lowlat_matching_engine.Index.Probing.{IsCapacity}
use lowlat_matching_engine.Clob
use lowlat_matching_engine.Clob.{
  index, range_size, Clob, level, order_at, best, best_bid, best_ask, quantity_at, order_count_at,
  front_order_id, back_order_id, active_orders, available_slots, valid_price, level_of, id_at,
  index, levels,
}
use lowlat_matching_engine.Clob.Queues.{Elem, first, last_from}
use lowlat_matching_engine.Clob.Links.{last_from-Elem}
use lowlat_matching_engine.Clob.Invariant.{InRange, Member, IsBest, Member-ne_null}
use lowlat_matching_engine.Clob.View.{
  Entry, View, entries, quantities, Represents, length-entries, quantities-entries,
}
use lowlat_matching_engine.Clob.Requests.{valid_price-true, valid_price-false}
use lowlat_matching_engine.Clob.Trades.{IsTop}
use lowlat_matching_engine.Clob.Crossing.{best_is, IsTop-of_best}

-- The ids of the oldest and of the youngest order of a queue.
abbrev pub front_id : List Entry → Option ℕ
front_id [] = none
front_id (e ∷ q) = some e.order_id

abbrev last_id : ℕ → List Entry → ℕ
last_id order_id [] = order_id
last_id order_id (e ∷ q) = last_id e.order_id q

abbrev pub back_id : List Entry → Option ℕ
back_id [] = none
back_id (e ∷ q) = some (last_id e.order_id q)

last_id-entries :
    (c : Clob) (x : ℕ) (q : List ℕ)
    → last_id (order_at c x).order_id (entries c q) ≡ (order_at c (last_from x q)).order_id
last_id-entries c x [] = refl
last_id-entries c x (y ∷ q) = last_id-entries c y q

-- At a price out of range the queries return 0, or no id.
pub queries_out_of_range :
    (c : Clob) (s : Side) (p : ℕ)
    → (¬ InRange c p)
    → (quantity_at c s p ≡ 0)
      × (order_count_at c s p ≡ 0)
      × (front_order_id c s p ≡ none)
      × (back_order_id c s p ≡ none)
unfolding quantity_at order_count_at front_order_id back_order_id level
queries_out_of_range c s p out =
    let invalid = valid_price-false c p out in (rw invalid, rw invalid, rw invalid, rw invalid)

-- At a price in range the index of the level is below range_size, the size of both level arrays,
-- where the maximum price is a 64-bit word and the range does not hold all 2^64 prices.
pub index-range_size :
    (c : Clob) (p : ℕ)
    → InRange c p
    → c.max_price - c.min_price + 1 < 2 ^ 64
    → c.max_price < 2 ^ 64
    → index c p < range_size c
unfolding range_size
index-range_size c p i fits word = omega (arith, i.0, i.1, fits, word)

abbrev pub best_of : Clob → Side → Option (ℕ × ℕ)
best_of c buy = best_bid c
best_of c sell = best_ask c

-- The answer is the best price at which orders of a side rest, with the quantity there modulo
-- 2 ^ 64, or nothing where no order of the side rests.
abbrev pub IsBestLevel : Clob → View → Side → Option (ℕ × ℕ) → Type 0
IsBestLevel c v s none = (p : ℕ) → c.min_price ≤ p → p ≤ c.max_price → v s p ≡ []
IsBestLevel c v s (some l) =
    IsTop c.min_price c.max_price s v l.0 × (l.1 ≡ quantities (v s l.0) % 2 ^ 64)

best_of-level : (c : Clob) (s : Side) → best_of c s ≡ level_of c s (best c s)
unfolding best_bid best_ask
best_of-level c buy = refl
best_of-level c sell = refl

module _ {max_orders : ℕ} {hash : ℕ → ℕ} {cap : IsCapacity (2 * max_orders)} {c : Clob}
    {v : View} where
  -- At a price of a well-formed book the queries return the quantities that wait added up, modulo
  -- 2^64, the number of the orders, and the ids of the oldest and the youngest.
  pub queries-InRange :
      (s : Side) (p : ℕ)
      → Represents max_orders hash cap c v
      → InRange c p
      → (quantity_at c s p ≡ quantities (v s p) % 2 ^ 64)
        × (order_count_at c s p ≡ length (v s p))
        × (front_order_id c s p ≡ front_id (v s p))
        × (back_order_id c s p ≡ back_id (v s p))
  unfolding quantity_at order_count_at front_order_id back_order_id level
  queries-InRange s p r i =
      let own = r.book.core.queues s p i in
      let shown = r.shows s p i in
      let valid = valid_price-true c p i in
      let all = ap quantities shown ∙ quantities-entries c (r.queues s p) in
      let many = ap (length {0}) shown ∙ length-entries c (r.queues s p) in
      let amount = own.quantity in
      let number = own.count in
      let front_is : front_order_id c s p ≡ id_at c (level c s p).head_idx = rw valid in
      let back_is : back_order_id c s p ≡ id_at c (level c s p).tail_idx = rw valid in
      (
        rw (valid, amount, all),
        rw (valid, number, many),
        front_is
            ∙ ap (id_at c) own.head
            ∙ front (r.queues s p) own.members
            ∙ ap front_id (sym shown),
        back_is ∙ ap (id_at c) own.tail ∙ back (r.queues s p) own.members ∙ ap back_id (sym shown),
      )
    where
      real : (j : ℕ) → Member max_orders hash c s p j → (j == null_order_index) ≡ false
      real j m =
          let ne = Member-ne_null max_orders hash c s p j r.book.core.pool.small m in
          ground (arith, ne)

      front :
          (q : List ℕ)
          → ((j : ℕ) → Elem j q → Member max_orders hash c s p j)
          → id_at c (first q) ≡ front_id (entries c q)
      front [] members = ground arith
      front (x ∷ q) members = let e = real x (members x (inl refl)) in ground (arith, e)

      back :
          (q : List ℕ)
          → ((j : ℕ) → Elem j q → Member max_orders hash c s p j)
          → id_at c (last_from null_order_index q) ≡ back_id (entries c q)
      back [] members = ground arith
      back (x ∷ q) members =
          let e = real (last_from x q) (members (last_from x q) (last_from-Elem x q)) in
          let is : id_at c (last_from x q) ≡ some (order_at c (last_from x q)).order_id =
            ground (arith, e) in
          is ∙ ap (λ (k : ℕ). some k) (sym (last_id-entries c x q))

  -- In a well-formed book best_bid and best_ask return the best price at which orders of the side
  -- rest, with the quantity there modulo 2^64, and nothing exactly where no order of the side
  -- rests.
  pub best_lem : Represents max_orders hash cap c v → (s : Side) → IsBestLevel c v s (best_of c s)
  unfolding level
  best_lem r s =
      subst (IsBestLevel c v s) (sym (best_of-level c s)) (elim (Option-cases (best c s)) [
        | inl unset ↦
            subst (λ (x : Option ℕ). IsBestLevel c v s (level_of c s x)) (sym unset)
              (λ p l h.
                r.shows s p (l, h)
                ∙ ap (entries c) (
                    subst (λ (x : Option ℕ). IsBest c.min_price c.max_price s (r.queues s) x) unset
                      (best_is max_orders hash cap c r.queues s r.book) p l h))
        | inr (b, set) ↦
            subst (λ (x : Option ℕ). IsBestLevel c v s (level_of c s x)) (sym set)
              (let top = IsTop-of_best max_orders hash cap r s b set in
                let i : InRange c b = (top.low, top.high) in
                let all = ap quantities (r.shows s b i) ∙ quantities-entries c (r.queues s b) in
                (top, (r.book.core.queues s b i).quantity ∙ ap (λ (n : ℕ). n % 2 ^ 64) (sym all)))
      ])

  -- In a well-formed book active_orders and available_slots add up to the capacity, active_orders
  -- is the size of the index, and empty holds exactly where it is zero.
  pub active_orders_lem :
      Represents max_orders hash cap c v
      → (active_orders max_orders hash c + available_slots max_orders hash c ≡ max_orders)
        × (active_orders max_orders hash c ≡ c.order_lookup.size)
        × ((Clob.empty max_orders hash c ≡ true) ↔ (active_orders max_orders hash c ≡ 0))
  unfolding active_orders available_slots Clob.empty Pool.available
  active_orders_lem r =
      let u = used_lem r.book.core.pool in (u.0, omega (arith, u.0, r.book.core.sized), u.1)
