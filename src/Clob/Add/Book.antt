-- ===== src/Clob/Add/Book.antt =====
-- The book of src/fixed_clob.hpp with the new order is well formed.
use mathlib.Core.Path.{subst}
use lowlat_matching_engine.Common.{
  ℕ, ◌*◌, ◌≡◌, ◌≢◌, refl, sym, ap, ◌∙◌, inl, inr, arith, Option, some, List, [], ◌∷◌, ◌++◌,
  eq-cases,
}
use lowlat_matching_engine.Types.{Side, buy, sell, Order}
use lowlat_matching_engine.Pool
use lowlat_matching_engine.Pool.{Pool}
use lowlat_matching_engine.Pool.Laws
use lowlat_matching_engine.Pool.Laws.{IsFree, Allocated}
use lowlat_matching_engine.Index
use lowlat_matching_engine.Index.{Table}
use lowlat_matching_engine.Index.Probing.{IsCapacity}
use lowlat_matching_engine.Clob.{Clob, order_at, best, opposite}
use lowlat_matching_engine.Clob.Queues.{Elem, Elem-left, Elem-right}
use lowlat_matching_engine.Clob.Invariant.{
  Queues, requeue, InRange, IsBest, IsQueue, Listed, IsCore, IsBook, IsQueue-frame, spot_cases,
  requeue_here, requeue_away, IsBest-congr, index_apart,
}
use lowlat_matching_engine.Clob.Best.{IsBest-improve}
use lowlat_matching_engine.Clob.Add.{
  Adding, find-after, kept, Member-kept, other_order, IsQueue-after,
}

module _ (max_orders : ℕ) (hash : ℕ → ℕ) (cap : IsCapacity (2 * max_orders)) where
  module _ {c : Clob} {b : Queues} {pool : Pool} {table : Table} {idx order_id : ℕ} {side : Side}
      {price qty : ℕ} {c' : Clob}
      (a : Adding max_orders hash cap c b pool table idx order_id side price qty c') where
    abbrev after : Queues
    after = requeue b side price (b side price ++ idx ∷ [])

    queues_after : (s : Side) (p : ℕ) → InRange c' p → IsQueue max_orders hash c' s p (after s p)
    queues_after s p r =
        let r' : InRange c p =
          (omega (arith, a.placed.min_price, r.0), omega (arith, a.placed.max_price, r.1)) in
        elim (spot_cases s side p price) [
          | inl (es, ep) ↦
              mathlib.Core.Path.subst₂
                (λ (s : Side) (p : ℕ). IsQueue max_orders hash c' s p (after s p)) (sym es) (sym ep)
                (subst (λ (q : List ℕ). IsQueue max_orders hash c' side price q)
                  (sym (requeue_here b side price _)) (IsQueue-after max_orders hash cap a))
          | inr away ↦
              let old = a.core.queues s p r' in
              subst (λ (q : List ℕ). IsQueue max_orders hash c' s p q)
                (sym (requeue_away b side price _ s p away))
                (IsQueue-frame max_orders hash c c' s p (b s p)
                  (a.placed.elsewhere s p
                    (λ e. index_apart c p price r' a.price_in a.core.word (away e)))
                  (λ j e. other_order max_orders hash cap a s p j away r' e)
                  (λ j e. Member-kept max_orders hash cap a s p j (old.members j e)) old)
        ]

    -- A waiting order still waits.
    waits_after : (s : Side) (p i : ℕ) → Elem i (b s p) → Elem i (after s p)
    waits_after s p i e = elim (spot_cases s side p price) [
      | inl (es, ep) ↦
          mathlib.Core.Path.subst₂ (λ (s : Side) (p : ℕ). Elem i (after s p)) (sym es) (sym ep)
            (subst (Elem i) (sym (requeue_here b side price _)) (
              Elem-left i (b side price) (idx ∷ [])
                (mathlib.Core.Path.subst₂ (λ (s : Side) (p : ℕ). Elem i (b s p)) es ep e)))
      | inr away ↦ subst (Elem i) (sym (requeue_away b side price _ s p away)) e
    ]

    range_after : (p : ℕ) → InRange c p → InRange c' p
    range_after p r =
        (omega (arith, a.placed.min_price, r.0), omega (arith, a.placed.max_price, r.1))

    Listed-after :
        (k i : ℕ)
        → Index.find (2 * max_orders) hash c'.order_lookup k ≡ some i
        → Listed c' after k i
    Listed-after k i found = elim (eq-cases k order_id) [
      | inl new ↦
          let f = find-after max_orders hash cap a k in
          let it : i ≡ idx = ground (arith, f, new, found) in
          let o = a.placed.added in
          subst (λ (x : ℕ). Listed c' after k x) (sym it)
            (record {
              nonzero = λ z. a.nonzero (sym new ∙ z);
              id_is = ap (λ (o : Order). o.order_id) o ∙ sym new;
              price_in =
                  subst (InRange c') (sym (ap (λ (o : Order). o.price) o))
                    (range_after price a.price_in);
              waits =
                  mathlib.Core.Path.subst₂ (λ (s : Side) (p : ℕ). Elem idx (after s p))
                    (sym (ap (λ (o : Order). o.side) o)) (sym (ap (λ (o : Order). o.price) o))
                    (subst (Elem idx) (sym (requeue_here b side price _))
                      (Elem-right idx (b side price) (idx ∷ []) (inl refl)));
            })
      | inr other ↦
          let f = find-after max_orders hash cap a k in
          let was : Index.find (2 * max_orders) hash c.order_lookup k ≡ some i =
            ground (arith, f, other, found) in
          let l = a.core.listed k i was in
          let m =
            (a.core.queues (order_at c i).side (order_at c i).price l.price_in).members i l.waits in
          let same = kept max_orders hash cap a (order_at c i).side (order_at c i).price i m in
          record {
            nonzero = l.nonzero;
            id_is = same.order_id ∙ l.id_is;
            price_in =
                subst (InRange c') (sym same.price) (range_after (order_at c i).price l.price_in);
            waits =
                mathlib.Core.Path.subst₂ (λ (s : Side) (p : ℕ). Elem i (after s p)) (sym same.side)
                  (sym same.price) (waits_after (order_at c i).side (order_at c i).price i l.waits);
          }
    ]

    IsCore-after : IsCore max_orders hash cap c' after
    IsCore-after = record {
      range = omega (arith, a.placed.min_price, a.placed.max_price, a.core.range);
      word = omega (arith, a.placed.max_price, a.core.word);
      spans = omega (arith, a.placed.min_price, a.placed.max_price, a.core.spans);
      pool = Pool.Laws.IsValid-congr pool c'.pool a.placed.free_stack a.placed.top a.alloc.valid;
      table =
          subst (λ (t : Table). Index.Search.IsValid (2 * max_orders) hash cap t)
            (sym a.placed.order_lookup) a.ins.valid;
      queues = queues_after;
      listed = Listed-after;
      sized = omega (
        arith,
        ap (λ (t : Table). t.size) a.placed.order_lookup,
        a.ins.grown,
        a.placed.top,
        a.alloc.shrunk,
        a.core.sized,
      );
    }

    snoc_filled : (q : List ℕ) → q ++ idx ∷ [] ≢ []
    snoc_filled [] e = cc
    snoc_filled (x ∷ q) e = cc

    best_mine :
        IsBest c.min_price c.max_price side (b side) (best c side)
        → IsBest c'.min_price c'.max_price side (after side) (best c' side)
    best_mine old =
        mathlib.Core.Path.subst₃ (λ (lo hi : ℕ) (x : Option ℕ). IsBest lo hi side (after side) x)
          (sym a.placed.min_price) (sym a.placed.max_price) (sym a.placed.mine)
          (IsBest-improve c.min_price c.max_price side (b side) (after side) (best c side) price
            a.price_in.0 a.price_in.1 old
            (λ e. snoc_filled (b side price) (sym (requeue_here b side price _) ∙ e))
            (λ p ne. requeue_away b side price _ side p (λ _. ne)))

    opposite_apart : (s : Side) → opposite s ≢ s
    opposite_apart buy e = ground (arith, e)
    opposite_apart sell e = ground (arith, e)

    best_other :
        IsBest c.min_price c.max_price (opposite side) (b (opposite side)) (best c (opposite side))
        → IsBest c'.min_price c'.max_price
            (opposite side)
            (after (opposite side))
            (best c' (opposite side))
    best_other old =
        mathlib.Core.Path.subst₃
          (λ (lo hi : ℕ) (x : Option ℕ). IsBest lo hi (opposite side) (after (opposite side)) x)
          (sym a.placed.min_price) (sym a.placed.max_price) (sym a.placed.other)
          (IsBest-congr c.min_price c.max_price (opposite side) (b (opposite side))
            (after (opposite side)) (best c (opposite side))
            (λ p.
              requeue_away b side price _ (opposite side) p (λ e. absurd (opposite_apart side e)))
            old)

  -- The book with the new order is well formed.
  pub IsBook-place :
      {c : Clob} {b : Queues} {pool : Pool} {table : Table} {idx order_id : ℕ} (side : Side)
      {price qty : ℕ} {c' : Clob}
      → Adding max_orders hash cap c b pool table idx order_id side price qty c'
      → IsBook max_orders hash cap c b
      → IsBook max_orders hash cap c' (requeue b side price (b side price ++ idx ∷ []))
  IsBook-place buy a v = record {
    core = IsCore-after a;
    bids = best_mine a v.bids;
    asks = best_other a v.asks;
  }
  IsBook-place sell a v = record {
    core = IsCore-after a;
    bids = best_other a v.bids;
    asks = best_mine a v.asks;
  }
