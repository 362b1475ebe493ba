-- ===== src/Clob/Remove/Core.antt =====
-- The book of src/fixed_clob.hpp without the order, all but its best prices.
use mathlib.Core.Path.{subst, subst₂}
use lowlat_matching_engine.Common.{
  ℕ, ◌*◌, ◌≡◌, ◌≢◌, sym, ap, ◌∙◌, inl, inr, arith, some, List, ◌++◌,
}
use lowlat_matching_engine.Types.{Side}
use lowlat_matching_engine.Index
use lowlat_matching_engine.Index.{Table}
use lowlat_matching_engine.Index.Probing.{IsCapacity}
use lowlat_matching_engine.Clob.{Clob, order_at}
use lowlat_matching_engine.Clob.Queues.{Elem, Elem-inner}
use lowlat_matching_engine.Clob.Invariant.{
  Queues, requeue, InRange, Member, IsQueue, Listed, IsCore, IsQueue-frame, Member-apart,
  Member-ne_null, spot_cases, requeue_here, requeue_away, index_apart,
}
use lowlat_matching_engine.Clob.Remove.{
  Removing, c₂, self, rel, level₂, kept₂, Member₂, other_order, IsQueue₂,
}

module _ (max_orders : ℕ) (hash : ℕ → ℕ) (cap : IsCapacity (2 * max_orders)) where
  module _ {c : Clob} {b : Queues} {idx : ℕ} {side : Side} {price : ℕ} {xs ys : List ℕ} {c₁ : Clob}
      {table : Table} (a : Removing max_orders hash cap c b idx side price xs ys c₁ table) where
    abbrev after₂ : Queues
    after₂ = requeue b side price (xs ++ ys)

    range₂ : (p : ℕ) → InRange c p → InRange (c₂ max_orders hash cap a) p
    range₂ p r =
        (omega (arith, a.unl.frame.min_price, r.0), omega (arith, a.unl.frame.max_price, r.1))

    queues₂ :
        (s : Side) (p : ℕ)
        → InRange (c₂ max_orders hash cap a) p
        → IsQueue max_orders hash (c₂ max_orders hash cap a) s p (after₂ s p)
    queues₂ s p r =
        let r' : InRange c p =
          (omega (arith, a.unl.frame.min_price, r.0), omega (arith, a.unl.frame.max_price, r.1)) in
        elim (spot_cases s side p price) [
          | inl (es, ep) ↦
              subst₂
                (λ (s : Side) (p : ℕ).
                  IsQueue max_orders hash (c₂ max_orders hash cap a) s p (after₂ s p))
                (sym es) (sym ep)
                (subst
                  (λ (q : List ℕ). IsQueue max_orders hash (c₂ max_orders hash cap a) side price q)
                  (sym (requeue_here b side price (xs ++ ys))) (IsQueue₂ max_orders hash cap a))
          | inr away ↦
              let old = a.core.queues s p r' in
              let apart = λ (j : ℕ) (e : Elem j (b s p)) (same : j ≡ idx).
                let m = subst (λ (k : ℕ). Member max_orders hash c s p k) same (old.members j e) in
                let both =
                  Member-apart max_orders hash c s side p price idx m
                    (self max_orders hash cap a) in
                away both.0 both.1 in
              subst (λ (q : List ℕ). IsQueue max_orders hash (c₂ max_orders hash cap a) s p q)
                (sym (requeue_away b side price (xs ++ ys) s p away))
                (IsQueue-frame max_orders hash c (c₂ max_orders hash cap a) s p (b s p)
                  (level₂ max_orders hash cap a s p
                    ∙ a.unl.elsewhere s p
                        (λ e. index_apart c p price r' a.price_in a.core.word (away e)))
                  (λ j e. other_order max_orders hash cap a s p j away (old.members j e))
                  (λ j e. Member₂ max_orders hash cap a s p j (apart j e) (old.members j e)) old)
        ]

    waits₂ : (s : Side) (p i : ℕ) → i ≢ idx → Elem i (b s p) → Elem i (after₂ s p)
    waits₂ s p i ne e = elim (spot_cases s side p price) [
      | inl (es, ep) ↦
          subst₂ (λ (s : Side) (p : ℕ). Elem i (after₂ s p)) (sym es) (sym ep)
            (subst (Elem i) (sym (requeue_here b side price (xs ++ ys))) (
              Elem-inner i idx xs ys
                (subst (Elem i) a.whole (subst₂ (λ (s : Side) (p : ℕ). Elem i (b s p)) es ep e))
                ne))
      | inr away ↦ subst (Elem i) (sym (requeue_away b side price (xs ++ ys) s p away)) e
    ]

    listed₂ :
        (k i : ℕ)
        → Index.find (2 * max_orders) hash table k ≡ some i
        → Listed (c₂ max_orders hash cap a) after₂ k i
    listed₂ k i found =
        let r = a.era.reads k in
        let other : k ≢ (order_at c idx).order_id = λ e. ground (arith, r, e, found) in
        let was : Index.find (2 * max_orders) hash c.order_lookup k ≡ some i =
          ground (arith, r, other, found) in
        let l = a.core.listed k i was in
        let ne : i ≢ idx = λ e. other (sym l.id_is ∙ ap (λ (j : ℕ). (order_at c j).order_id) e) in
        let m =
          (a.core.queues (order_at c i).side (order_at c i).price l.price_in).members i l.waits in
        let same = kept₂ max_orders hash cap a i ne (
          Member-ne_null max_orders hash c (order_at c i).side (order_at c i).price i
            a.core.pool.small m) in
        record {
          nonzero = l.nonzero;
          id_is = same.order_id ∙ l.id_is;
          price_in =
              subst (InRange (c₂ max_orders hash cap a)) (sym same.price)
                (range₂ (order_at c i).price l.price_in);
          waits =
              subst₂ (λ (s : Side) (p : ℕ). Elem i (after₂ s p)) (sym same.side) (sym same.price)
                (waits₂ (order_at c i).side (order_at c i).price i ne l.waits);
        }

    pub IsCore-removed : IsCore max_orders hash cap (c₂ max_orders hash cap a) after₂
    IsCore-removed = record {
      range = omega (arith, a.unl.frame.min_price, a.unl.frame.max_price, a.core.range);
      word = omega (arith, a.unl.frame.max_price, a.core.word);
      spans = omega (arith, a.unl.frame.min_price, a.unl.frame.max_price, a.core.spans);
      pool = (rel max_orders hash cap a).valid;
      table = a.era.valid;
      queues = queues₂;
      listed = listed₂;
      sized =
          omega
            (arith, a.era.shrunk, (rel max_orders hash cap a).grown, a.unl.frame.top, a.core.sized);
    }
