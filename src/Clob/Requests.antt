-- ===== src/Clob/Requests.antt =====
-- `add_order` and `cancel_order` of src/fixed_clob.hpp against the abstract book, on every branch.
use mathlib.Core.Path.{subst, subst₂}
use lowlat_matching_engine.Common.{
  ℕ, ◌-◌, ◌*◌, ◌^◌, ◌<◌, ◌≡◌, ◌≢◌, sym, ap, ap₂, ◌∙◌, ◌⊎◌, inl, inr, arith, Option, none, some,
  List, [], ◌∷◌, ◌++◌, ◌==◌, eq-cases, true, false, Bool, Bool-cases, ◌||◌, not,
}
use lowlat_matching_engine.Types.{Side, Order, null_order_index}
use lowlat_matching_engine.Pool
use lowlat_matching_engine.Pool.{Pool}
use lowlat_matching_engine.Pool.Laws
use lowlat_matching_engine.Pool.Laws.{
  IsFree, Allocated, allocate-Allocated, allocate-none, allocate-some,
}
use lowlat_matching_engine.Index
use lowlat_matching_engine.Index.{Table, IsId}
use lowlat_matching_engine.Index.Probing.{IsCapacity}
use lowlat_matching_engine.Index.Insert.{insert_new, insert_present}
use lowlat_matching_engine.Clob.{Clob, level, valid_price, add_order, place_order}
use lowlat_matching_engine.Clob.Queues.{last_from}
use lowlat_matching_engine.Clob.Invariant.{
  Queues, requeue, InRange, IsBook, SameRange, requeue_here, requeue_away, spot_cases, last_cases,
}
use lowlat_matching_engine.Clob.Place.{Placed, place_effect, reserved}
use lowlat_matching_engine.Clob.Add.{Adding, kept}
use lowlat_matching_engine.Clob.Add.Book.{IsBook-place}
use lowlat_matching_engine.Clob.View.{
  Entry, View, entry, entries, entries_congr, entries-append, Represents,
}

pub valid_price-true : (c : Clob) (p : ℕ) → InRange c p → valid_price c p ≡ true
valid_price-true c p r = ground (arith, r.0, r.1)

pub valid_price-false : (c : Clob) (p : ℕ) → (¬ InRange c p) → valid_price c p ≡ false
valid_price-false c p out = elim (Bool-cases (valid_price c p)) [
  | inl yes_it ↦ absurd (out (ground (arith, yes_it), ground (arith, yes_it)))
  | inr it ↦ it
]

module _ (max_orders : ℕ) (hash : ℕ → ℕ) (cap : IsCapacity (2 * max_orders)) where
  -- What `order_lookup_.find` returns.
  abbrev pub lookup : Clob → ℕ → Option ℕ
  lookup c order_id = Index.find (2 * max_orders) hash c.order_lookup order_id

  room :
      (c : Clob) (b : Queues)
      → IsBook max_orders hash cap c b
      → c.order_lookup.size < 2 * max_orders
  room c b v = omega (arith, v.core.sized, cap.many)

  tail_apart :
      (c : Clob) (b : Queues) (side : Side) (price idx : ℕ)
      → IsBook max_orders hash cap c b
      → InRange c price
      → IsFree c.pool idx
      → idx < max_orders
      → idx ≢ (level c side price).tail_idx
  tail_apart c b side price idx v r free small e =
      let own = v.core.queues side price r in
      elim (last_cases (b side price)) [
        | inl bare ↦
            omega
              (arith, e, own.tail, ap (last_from null_order_index) bare, v.core.pool.small, small)
        | inr last ↦
            let m = own.members (last_from null_order_index (b side price)) last in
            m.busy (subst (λ (k : ℕ). IsFree c.pool k) (e ∙ own.tail) free)
      ]

  -- A new order of a positive 64-bit quantity at a price of a well-formed book, with an id other
  -- than 0 that the index does not know and a free slot, is accepted: it waits behind the orders
  -- at its side and price, all else is as before, and the book is well formed.
  pub add_order_accepts :
      {c : Clob} {v : View} (order_id : ℕ) (side : Side) (price qty : ℕ)
      → IsId order_id
      → Represents max_orders hash cap c v
      → InRange c price
      → 0 < qty
      → qty < 2 ^ 64
      → lookup c order_id ≡ none
      → c.pool.top ≢ 0
      → (c' : Clob) × (add_order max_orders hash c order_id side price qty ≡ (true, c'))
        × SameRange c c'
        × Represents max_orders hash cap c'
            (requeue v side price (v side price ++ record { order_id = order_id; qty = qty } ∷ []))
  unfolding add_order
  add_order_accepts {c} {v} order_id side price qty id r range pos word absent some_free =
      let b = r.queues in
      let idx = c.pool.free_stack (c.pool.top - 1) in
      let pool : Pool = record c.pool { top = c.pool.top - 1 } in
      let got : Pool.allocate c.pool ≡ (some idx, pool) = allocate-some c.pool some_free in
      let al : Allocated max_orders c.pool idx pool = allocate-Allocated r.book.core.pool got in
      let (table, stored, ins) =
        insert_new (2 * max_orders) hash cap c.order_lookup order_id idx id r.book.core.table absent
          (room c b r.book) in
      let c' = place_order (reserved c pool table) idx order_id side price qty in
      let placed : Placed c pool table idx order_id side price qty c' =
        place_effect c pool table idx order_id side price qty al.orders_kept
          (tail_apart c b side price idx r.book range al.was_free al.in_range) in
      let adding : Adding max_orders hash cap c b pool table idx order_id side price qty c' =
        record {
          core = r.book.core;
          price_in = range;
          qty_pos = pos;
          qty_word = word;
          alloc = al;
          nonzero = id;
          absent = absent;
          ins = ins;
          placed = placed;
        } in
      let new : entry c' idx ≡ record { order_id = order_id; qty = qty } =
        ap (λ (o : Order). record { order_id = o.order_id; qty = o.qty }) placed.added in
      (
        c',
        steps (ground (arith, pos)) (valid_price-true c price range) idx pool got table stored,
        (placed.min_price, placed.max_price),
        record {
          queues = requeue b side price (b side price ++ idx ∷ []);
          book = IsBook-place max_orders hash cap side adding r.book;
          shows = λ s p i.
              let i' : InRange c p =
                (omega (arith, placed.min_price, i.0), omega (arith, placed.max_price, i.1)) in
              let same = λ (s : Side) (p : ℕ) (i : InRange c p). entries_congr c c' (b s p) (λ j e.
                kept max_orders hash cap adding s p j ((r.book.core.queues s p i).members j e)) in
              elim (spot_cases s side p price) [
                | inl (es, ep) ↦
                    subst₂
                      (λ (s : Side) (p : ℕ).
                        requeue v side price
                          (v side price ++ record { order_id = order_id; qty = qty } ∷ []) s p
                        ≡ entries c' (requeue b side price (b side price ++ idx ∷ []) s p))
                      (sym es) (sym ep)
                      (requeue_here v side price _
                        ∙ ap₂ (λ (q : List Entry) (e : Entry). q ++ e ∷ [])
                            (r.shows side price range ∙ sym (same side price range)) (sym new)
                        ∙ sym (entries-append c' (b side price) (idx ∷ []))
                        ∙ ap (entries c') (sym (requeue_here b side price _)))
                | inr away ↦
                    requeue_away v side price _ s p away
                    ∙ r.shows s p i'
                    ∙ sym (same s p i')
                    ∙ ap (entries c') (sym (requeue_away b side price _ s p away))
              ];
        },
      )
    where
      steps :
          (qty == 0) ≡ false
          → valid_price c price ≡ true
          → (idx : ℕ) (pool : Pool) → Pool.allocate c.pool ≡ (some idx, pool)
          → (table : Table)
          → Index.insert (2 * max_orders) hash c.order_lookup order_id idx ≡ (true, table)
          → add_order max_orders hash c order_id side price qty
            ≡ (true, place_order (reserved c pool table) idx order_id side price qty)
      steps e₁ e₂ idx pool got table stored =
          let got₀ = ap (λ (r : Option ℕ × Pool). r.0) got in
          let got₁ = ap (λ (r : Option ℕ × Pool). r.1) got in
          let stored₀ = ap (λ (r : Bool × Table). r.0) stored in
          let stored₁ = ap (λ (r : Bool × Table). r.1) stored in
          rw (e₁, e₂, got₀, got₁, stored₀, stored₁)

  -- An order of no quantity, at a price out of range, with no free slot, or of an id the index of
  -- a well-formed book knows is refused, and the book is exactly as it was.
  pub add_order_refuses :
      {c : Clob} {v : View} (order_id : ℕ) (side : Side) (price qty : ℕ)
      → Represents max_orders hash cap c v
      → (qty ≡ 0)
        ⊎ (¬ InRange c price)
        ⊎ (c.pool.top ≡ 0)
        ⊎ ((i : ℕ) × (lookup c order_id ≡ some i))
      → add_order max_orders hash c order_id side price qty ≡ (false, c)
  unfolding add_order
  add_order_refuses {c} order_id side price qty r (inl e) = ground (arith, e)
  add_order_refuses {c} order_id side price qty r (inr (inl out)) =
      let e = valid_price-false c price out in ground (arith, e)
  add_order_refuses {c} order_id side price qty r (inr (inr why)) =
      elim (Bool-cases (qty == 0 || not (valid_price c price))) [
        | inl bad ↦ rw bad
        | inr fine ↦ elim (eq-cases c.pool.top 0) [
          | inl used_up ↦
              let got = allocate-none c.pool used_up in
              let got₀ = ap (λ (r : Option ℕ × Pool). r.0) got in
              let got₁ = ap (λ (r : Option ℕ × Pool). r.1) got in rw (fine, got₀, got₁)
          | inr some_free ↦ refused fine some_free why
        ]
      ]
    where
      refused :
          (qty == 0 || not (valid_price c price)) ≡ false
          → c.pool.top ≢ 0
          → (c.pool.top ≡ 0) ⊎ ((i : ℕ) × (lookup c order_id ≡ some i))
          → add_order max_orders hash c order_id side price qty ≡ (false, c)
      refused fine some_free (inl used_up) = absurd (some_free used_up)
      refused fine some_free (inr (i, present)) =
          let idx = c.pool.free_stack (c.pool.top - 1) in
          let pool : Pool = record c.pool { top = c.pool.top - 1 } in
          let got : Pool.allocate c.pool ≡ (some idx, pool) = allocate-some c.pool some_free in
          let dup =
            insert_present (2 * max_orders) hash cap c.order_lookup order_id idx i r.book.core.table
              present in
          let back = Pool.Laws.release-allocate r.book.core.pool got in
          let got₀ = ap (λ (r : Option ℕ × Pool). r.0) got in
          let got₁ = ap (λ (r : Option ℕ × Pool). r.1) got in
          let dup₀ = ap (λ (r : Bool × Table). r.0) dup in
          let dup₁ = ap (λ (r : Bool × Table). r.1) dup in rw (fine, got₀, got₁, dup₀, dup₁, back)
