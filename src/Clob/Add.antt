-- ===== src/Clob/Add.antt =====
-- `add_order` of src/fixed_clob.hpp: the new order waits at the end of its queue.
pub mod Book
use mathlib.Core.Path.{subst}
use lowlat_matching_engine.Common.{
  ℕ, ◌+◌, ◌*◌, ◌^◌, ◌≤◌, ◌<◌, ◌≡◌, ◌≢◌, refl, sym, ap, ◌∙◌, inl, inr, arith, Option, none, some,
  not, ◌&&◌, List, [], ◌∷◌, ◌++◌, length, ◌==◌, if◌then◌else◌, eq-cases, length-append,
}
use lowlat_matching_engine.Types.{Side, buy, sell, Order, PriceLevel, null_order_index, level_empty}
use lowlat_matching_engine.Pool
use lowlat_matching_engine.Pool.{Pool}
use lowlat_matching_engine.Pool.Laws
use lowlat_matching_engine.Pool.Laws.{IsFree, Allocated}
use lowlat_matching_engine.Index
use lowlat_matching_engine.Index.{IsId, Table}
use lowlat_matching_engine.Index.Probing.{IsCapacity}
use lowlat_matching_engine.Index.Write.{Inserted}
use lowlat_matching_engine.Clob.{Clob, level, order_at, best, opposite}
use lowlat_matching_engine.Clob.Queues.{
  Elem, first, last_from, Linked, total, Elem-left, Elem-right, Elem-append, IsNodup-snoc,
  pigeonhole,
}
use lowlat_matching_engine.Clob.Links.{Linked-snoc, total_congr, total-append, last_from_snoc}
use lowlat_matching_engine.Clob.Invariant.{
  Queues, requeue, InRange, IsBest, Member, IsQueue, Listed, IsCore, IsBook, IsQueue-frame,
  SameOrder, Member-frame, Member-apart, spot_cases, requeue_here, requeue_away, IsBest-congr,
  index_apart, IsFree_congr, last_cases,
}
use lowlat_matching_engine.Clob.Best.{IsBest-improve}
use lowlat_matching_engine.Clob.Place.{Placed}

tail_test :
    (l : PriceLevel) (i t idx n : ℕ)
    → l.order_count ≢ 0
    → l.tail_idx ≡ t
    → (if not (level_empty l) && i == l.tail_idx then idx else n) ≡ (if i == t then idx else n)
tail_test l i t idx n filled e = ground arith

prev_test :
    (l : PriceLevel) (t : ℕ)
    → l.order_count ≢ 0
    → l.tail_idx ≡ t
    → (if level_empty l then null_order_index else l.tail_idx) ≡ t
prev_test l t filled e = ground arith

module _ (max_orders : ℕ) (hash : ℕ → ℕ) (cap : IsCapacity (2 * max_orders)) where
  -- The premises of an addition: a well-formed book, a free pool index, a new key.
  pub record Adding (c : Clob) (b : Queues) (pool : Pool) (table : Table) (idx order_id : ℕ)
      (side : Side) (price qty : ℕ) (c' : Clob) : Type 0 where
    pub core : IsCore max_orders hash cap c b
    pub price_in : InRange c price
    pub qty_pos : 0 < qty
    pub qty_word : qty < 2 ^ 64
    pub alloc : Allocated max_orders c.pool idx pool
    pub nonzero : IsId order_id
    pub absent : Index.find (2 * max_orders) hash c.order_lookup order_id ≡ none
    pub ins : Inserted (2 * max_orders) hash cap c.order_lookup order_id idx table
    pub placed : Placed c pool table idx order_id side price qty c'

  module _ {c : Clob} {b : Queues} {pool : Pool} {table : Table} {idx order_id : ℕ} {side : Side}
      {price qty : ℕ} {c' : Clob} (a : Adding c b pool table idx order_id side price qty c') where
    abbrev home : List ℕ
    home = b side price

    own : IsQueue max_orders hash c side price (b side price)
    own = a.core.queues side price a.price_in

    small : max_orders < 2 ^ 32
    small = a.core.pool.small

    -- A waiting order is not the new one.
    waiting_apart : (s : Side) (p i : ℕ) → Member max_orders hash c s p i → i ≢ idx
    waiting_apart s p i m e = m.busy (subst (λ (x : ℕ). IsFree c.pool x) (sym e) a.alloc.was_free)

    busy_after : (i : ℕ) → (¬ IsFree pool i) → ¬ IsFree c'.pool i
    busy_after i busy f = busy (IsFree_congr pool c'.pool i a.placed.free_stack a.placed.top f)

    find-after :
        (k : ℕ)
        → Index.find (2 * max_orders) hash c'.order_lookup k
          ≡ (if k == order_id then some idx else Index.find (2 * max_orders) hash c.order_lookup k)
    find-after k =
        ap (λ (t : Table). Index.find (2 * max_orders) hash t k) a.placed.order_lookup
        ∙ a.ins.reads k

    still_indexed :
        (k i : ℕ)
        → Index.find (2 * max_orders) hash c.order_lookup k ≡ some i
        → Index.find (2 * max_orders) hash c'.order_lookup k ≡ some i
    still_indexed k i found =
        let other : k ≢ order_id = λ e.
          let f = sym (ap (Index.find (2 * max_orders) hash c.order_lookup) e) ∙ found in
          ground (arith, f, a.absent) in
        let f = find-after k in ground (arith, f, other, found)

    pub kept : (s : Side) (p i : ℕ) → Member max_orders hash c s p i → SameOrder c c' i
    kept s p i m =
        let o = a.placed.others i (waiting_apart s p i m) in
        record {
          order_id = ap (λ (o : Order). o.order_id) o;
          price = ap (λ (o : Order). o.price) o;
          qty = ap (λ (o : Order). o.qty) o;
          side = ap (λ (o : Order). o.side) o;
        }

    Member-kept :
        (s : Side) (p i : ℕ) → Member max_orders hash c s p i → Member max_orders hash c' s p i
    Member-kept s p i m =
        Member-frame max_orders hash c c' s p i (kept s p i m)
          (busy_after i (λ f. m.busy (a.alloc.none_added i f)))
          (still_indexed (order_at c i).order_id i m.indexed) m

    Member-new : Member max_orders hash c' side price idx
    Member-new =
        let o = a.placed.added in
        let f = find-after (order_at c' idx).order_id in
        record {
          in_range = a.alloc.in_range;
          side_is = ap (λ (o : Order). o.side) o;
          price_is = ap (λ (o : Order). o.price) o;
          qty_pos = omega (arith, ap (λ (o : Order). o.qty) o, a.qty_pos);
          qty_word = omega (arith, ap (λ (o : Order). o.qty) o, a.qty_word);
          busy = busy_after idx a.alloc.taken;
          indexed = ground (arith, f, ap (λ (o : Order). o.order_id) o);
        }

    -- Orders of the other queues are untouched, links included.
    other_order :
        (s : Side) (p i : ℕ)
        → (s ≡ side → p ≢ price)
        → InRange c p
        → Elem i (b s p)
        → order_at c' i ≡ order_at c i
    other_order s p i away r e =
        let m = (a.core.queues s p r).members i e in
        let o = a.placed.others i (waiting_apart s p i m) in
        elim (last_cases (b side price)) [
          | inl bare ↦
              let zero_count : (level c side price).order_count ≡ 0 =
                own.count ∙ ap (length {0}) bare in
              ground (arith, o, zero_count)
          | inr last ↦
              let tail : Elem (level c side price).tail_idx (b side price) =
                subst (λ (x : ℕ). Elem x (b side price)) (sym own.tail) last in
              let ne : i ≢ (level c side price).tail_idx = λ same.
                let m' = own.members i (subst (λ (x : ℕ). Elem x (b side price)) (sym same) tail) in
                let both = Member-apart max_orders hash c s side p price i m m' in
                away both.0 both.1 in
              ground (arith, o, ne)
        ]

    count_small : length (b side price) ≤ max_orders
    count_small = pigeonhole max_orders (b side price) own.nodup (λ i e. (own.members i e).in_range)

    fresh_idx : ¬ Elem idx (b side price)
    fresh_idx e = waiting_apart side price idx (own.members idx e) refl

    -- The links of the queue with the new order behind it.
    Linked-after :
        (q : List ℕ)
        → IsQueue max_orders hash c side price q
        → Linked c'.pool.orders null_order_index (q ++ idx ∷ [])
    Linked-after [] old =
        let o = a.placed.added in
        (
          ground (arith, ap (λ (o : Order). o.prev_idx) o, old.count),
          ap (λ (o : Order). o.next_idx) o,
          tt,
        )
    Linked-after (x ∷ q) old =
        let o = a.placed.added in
        let filled : (level c side price).order_count ≢ 0 =
          λ e. absurd (omega (arith, e, old.count)) in
        Linked-snoc c.pool.orders c'.pool.orders null_order_index x q idx old.linked old.nodup
          (λ i e.
            let s = a.placed.others i (waiting_apart side price i (old.members i e)) in
            (
              ap (λ (o : Order). o.prev_idx) s,
              ap (λ (o : Order). o.next_idx) s
                  ∙ tail_test (level c side price) i (last_from x q) idx (order_at c i).next_idx
                      filled old.tail,
            ))
          (ap (λ (o : Order). o.prev_idx) o
            ∙ prev_test (level c side price) (last_from x q) filled old.tail)
          (ap (λ (o : Order). o.next_idx) o)

    head_after :
        (q : List ℕ)
        → IsQueue max_orders hash c side price q
        → (level c' side price).head_idx ≡ first (q ++ idx ∷ [])
    head_after [] old = ground (arith, ap (λ (l : PriceLevel). l.head_idx) a.placed.here, old.count)
    head_after (x ∷ q) old =
        ground (arith, ap (λ (l : PriceLevel). l.head_idx) a.placed.here, old.count, old.head)

    members_after :
        (i : ℕ) → Elem i (b side price ++ idx ∷ []) → Member max_orders hash c' side price i
    members_after i e = elim (Elem-append i (b side price) (idx ∷ []) e) [
      | inl old ↦ Member-kept side price i (own.members i old)
      | inr (inl new) ↦
          subst (λ (x : ℕ). Member max_orders hash c' side price x) (sym new) Member-new
      | inr (inr nowhere) ↦ absurd nowhere
    ]

    total_after :
        total c'.pool.orders (b side price ++ idx ∷ []) ≡ total c.pool.orders (b side price) + qty
    total_after =
        let o = ap (λ (o : Order). o.qty) a.placed.added in
        let same =
          total_congr c.pool.orders c'.pool.orders (b side price)
            (λ i e. (kept side price i (own.members i e)).qty) in
        omega (arith, total-append c'.pool.orders (b side price) (idx ∷ []), same, o)

    IsQueue-after : IsQueue max_orders hash c' side price (b side price ++ idx ∷ [])
    IsQueue-after = record {
      linked = Linked-after (b side price) own;
      nodup = IsNodup-snoc (b side price) idx own.nodup fresh_idx;
      members = members_after;
      head = head_after (b side price) own;
      tail =
          ap (λ (l : PriceLevel). l.tail_idx) a.placed.here
          ∙ sym (last_from_snoc null_order_index (b side price) idx);
      count = omega (
        arith,
        ap (λ (l : PriceLevel). l.order_count) a.placed.here,
        own.count,
        count_small,
        small,
        length-append (b side price) (idx ∷ []),
      );
      quantity =
          omega
            (arith, ap (λ (l : PriceLevel). l.total_qty) a.placed.here, own.quantity, total_after);
    }
