-- ===== src/Clob/Reduce.antt =====
-- `reduce_order_quantity` of src/fixed_clob.hpp: the oldest order of a queue trades in part.
pub mod Book
use mathlib.Core.Path.{subst, subst₂}
use lowlat_matching_engine.Common.{
  ℕ, ◌-◌, ◌*◌, ◌^◌, ◌<◌, ◌≡◌, ◌≢◌, refl, sym, ap, ap₂, ◌∙◌, inl, inr, arith, Option, List, ◌∷◌,
  eq-cases,
}
use lowlat_matching_engine.Types.{Side, buy, sell, Order, PriceLevel, null_order_index}
use lowlat_matching_engine.Pool
use lowlat_matching_engine.Pool.Laws
use lowlat_matching_engine.Index
use lowlat_matching_engine.Index.{Table}
use lowlat_matching_engine.Index.Search
use lowlat_matching_engine.Index.Probing.{IsCapacity}
use lowlat_matching_engine.Clob.{Clob, order_at}
use lowlat_matching_engine.Clob.Queues.{Elem}
use lowlat_matching_engine.Clob.Links.{Linked-congr, total_congr}
use lowlat_matching_engine.Clob.Effects.{Reduced}
use lowlat_matching_engine.Clob.Invariant.{
  requeue, InRange, IsBest, Member, IsQueue, IsCore, IsQueue-frame, SameOrder, Member-apart,
  requeue_here, requeue_away, spot_cases, index_apart, IsFree_congr,
}
use lowlat_matching_engine.Clob.View.{Entry, View, entry, entries, entries_congr, Represents}

module _ (max_orders : ℕ) (hash : ℕ → ℕ) (cap : IsCapacity (2 * max_orders)) where
  module _ {c : Clob} {v : View} (r : Represents max_orders hash cap c v) (side : Side)
      (price idx : ℕ) (q : List ℕ) (traded : ℕ) (c' : Clob) (range : InRange c price)
      (front : r.queues side price ≡ idx ∷ q) (less : traded < (order_at c idx).qty)
      (eff : Reduced c side price idx traded c') where
    own : IsQueue max_orders hash c side price (idx ∷ q)
    own =
        subst (λ (z : List ℕ). IsQueue max_orders hash c side price z) front
          (r.book.core.queues side price range)

    self : Member max_orders hash c side price idx
    self = own.members idx (inl refl)

    new_qty : (order_at c' idx).qty ≡ (order_at c idx).qty - traded
    new_qty = omega (arith, ap (λ (o : Order). o.qty) eff.reduced, less, self.qty_word)

    rest_apart : (j : ℕ) → Elem j q → j ≢ idx
    rest_apart j e same = own.nodup.0 (subst (λ (k : ℕ). Elem k q) same e)

    find-same :
        (k : ℕ)
        → Index.find (2 * max_orders) hash c'.order_lookup k
          ≡ Index.find (2 * max_orders) hash c.order_lookup k
    find-same k = ap (λ (t : Table). Index.find (2 * max_orders) hash t k) eff.frame.order_lookup

    -- All but the quantity of an order stays.
    links :
        (j : ℕ)
        → ((order_at c' j).prev_idx ≡ (order_at c j).prev_idx)
          × ((order_at c' j).next_idx ≡ (order_at c j).next_idx)
          × ((order_at c' j).order_id ≡ (order_at c j).order_id)
          × ((order_at c' j).side ≡ (order_at c j).side)
          × ((order_at c' j).price ≡ (order_at c j).price)
    links j = elim (eq-cases j idx) [
      | inl same ↦
          subst
            (λ (k : ℕ).
              ((order_at c' k).prev_idx ≡ (order_at c k).prev_idx)
              × ((order_at c' k).next_idx ≡ (order_at c k).next_idx)
              × ((order_at c' k).order_id ≡ (order_at c k).order_id)
              × ((order_at c' k).side ≡ (order_at c k).side)
              × ((order_at c' k).price ≡ (order_at c k).price))
            (sym same)
            (
              ap (λ (o : Order). o.prev_idx) eff.reduced,
              ap (λ (o : Order). o.next_idx) eff.reduced,
              ap (λ (o : Order). o.order_id) eff.reduced,
              ap (λ (o : Order). o.side) eff.reduced,
              ap (λ (o : Order). o.price) eff.reduced,
            )
      | inr ne ↦
          let o = eff.others j ne in
          (
            ap (λ (o : Order). o.prev_idx) o,
            ap (λ (o : Order). o.next_idx) o,
            ap (λ (o : Order). o.order_id) o,
            ap (λ (o : Order). o.side) o,
            ap (λ (o : Order). o.price) o,
          )
    ]

    qty_cases :
        (j : ℕ)
        → 0 < (order_at c j).qty
        → (order_at c j).qty < 2 ^ 64
        → (0 < (order_at c' j).qty) × ((order_at c' j).qty < 2 ^ 64)
    qty_cases j pos word = elim (eq-cases j idx) [
      | inl same ↦
          let e = ap (λ (k : ℕ). (order_at c' k).qty) same in
          (omega (arith, e, new_qty, less), omega (arith, e, new_qty, self.qty_word))
      | inr ne ↦
          let e = ap (λ (o : Order). o.qty) (eff.others j ne) in
          (omega (arith, e, pos), omega (arith, e, word))
    ]

    Member-reduced :
        (s : Side) (p j : ℕ) → Member max_orders hash c s p j → Member max_orders hash c' s p j
    Member-reduced s p j m =
        let l = links j in
        let n = qty_cases j m.qty_pos m.qty_word in
        record {
          in_range = m.in_range;
          side_is = l.3 ∙ m.side_is;
          price_is = l.4 ∙ m.price_is;
          qty_pos = n.0;
          qty_word = n.1;
          busy = λ f. m.busy (IsFree_congr c.pool c'.pool j eff.frame.free_stack eff.frame.top f);
          indexed =
              ap (Index.find (2 * max_orders) hash c'.order_lookup) l.2
              ∙ find-same (order_at c j).order_id
              ∙ m.indexed;
        }

    IsQueue-reduced : IsQueue max_orders hash c' side price (idx ∷ q)
    IsQueue-reduced = record {
      linked =
          Linked-congr c.pool.orders c'.pool.orders null_order_index (idx ∷ q)
            (λ i e. let l = links i in (l.0, l.1)) own.linked;
      nodup = own.nodup;
      members = λ i e. Member-reduced side price i (own.members i e);
      head = ap (λ (l : PriceLevel). l.head_idx) eff.here ∙ own.head;
      tail = ap (λ (l : PriceLevel). l.tail_idx) eff.here ∙ own.tail;
      count = ap (λ (l : PriceLevel). l.order_count) eff.here ∙ own.count;
      quantity = omega (
        arith,
        ap (λ (l : PriceLevel). l.total_qty) eff.here,
        own.quantity,
        new_qty,
        less,
        self.qty_word,
        total_congr c.pool.orders c'.pool.orders q
            (λ i e. ap (λ (o : Order). o.qty) (eff.others i (rest_apart i e))),
      );
    }
