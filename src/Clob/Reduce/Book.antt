-- ===== src/Clob/Reduce/Book.antt =====
-- The book of src/fixed_clob.hpp after a part of its first order is taken.
use mathlib.Core.Path.{subst, subst₂}
use lowlat_matching_engine.Common.{
  ℕ, ◌-◌, ◌*◌, ◌<◌, ◌≡◌, ◌≢◌, sym, ap, ap₂, ◌∙◌, inl, inr, arith, Option, List, ◌∷◌,
}
use lowlat_matching_engine.Types.{Side, buy, sell, Order}
use lowlat_matching_engine.Pool
use lowlat_matching_engine.Pool.Laws
use lowlat_matching_engine.Index
use lowlat_matching_engine.Index.{Table}
use lowlat_matching_engine.Index.Search
use lowlat_matching_engine.Index.Probing.{IsCapacity}
use lowlat_matching_engine.Clob.{Clob, order_at}
use lowlat_matching_engine.Clob.Queues.{Elem}
use lowlat_matching_engine.Clob.Effects.{Reduced}
use lowlat_matching_engine.Clob.Invariant.{
  requeue, InRange, IsBest, Member, IsQueue, IsCore, IsQueue-frame, SameOrder, Member-apart,
  requeue_here, requeue_away, spot_cases, index_apart,
}
use lowlat_matching_engine.Clob.View.{Entry, View, entry, entries, entries_congr, Represents}
use lowlat_matching_engine.Clob.Reduce.{
  self, new_qty, rest_apart, find-same, links, Member-reduced, IsQueue-reduced,
}

module _ (max_orders : ℕ) (hash : ℕ → ℕ) (cap : IsCapacity (2 * max_orders)) where
  module _ {c : Clob} {v : View} (r : Represents max_orders hash cap c v) (side : Side)
      (price idx : ℕ) (q : List ℕ) (traded : ℕ) (c' : Clob) (range : InRange c price)
      (front : r.queues side price ≡ idx ∷ q) (less : traded < (order_at c idx).qty)
      (eff : Reduced c side price idx traded c') where
    queues-reduced :
        (s : Side) (p : ℕ) → InRange c' p → IsQueue max_orders hash c' s p (r.queues s p)
    queues-reduced s p i' =
        let i : InRange c p =
          (omega (arith, eff.frame.min_price, i'.0), omega (arith, eff.frame.max_price, i'.1)) in
        elim (spot_cases s side p price) [
          | inl (es, ep) ↦
              subst₂ (λ (s : Side) (p : ℕ). IsQueue max_orders hash c' s p (r.queues s p)) (sym es)
                (sym ep)
                (subst (λ (z : List ℕ). IsQueue max_orders hash c' side price z) (sym front)
                  (IsQueue-reduced max_orders hash cap r side price idx q traded c' range front less
                    eff))
          | inr away ↦
              let old = r.book.core.queues s p i in
              IsQueue-frame max_orders hash c c' s p (r.queues s p)
                (eff.elsewhere s p (λ e. index_apart c p price i range r.book.core.word (away e)))
                (λ j e. eff.others j (λ same.
                  let m =
                    subst (λ (k : ℕ). Member max_orders hash c s p k) same (old.members j e) in
                  let both =
                    Member-apart max_orders hash c s side p price idx m (
                      self max_orders hash cap r side price idx q traded c' range front less eff) in
                  away both.0 both.1))
                (λ j e.
                  Member-reduced max_orders hash cap r side price idx q traded c' range front less
                    eff s p j (old.members j e))
                old
        ]

    IsCore-reduced : IsCore max_orders hash cap c' r.queues
    IsCore-reduced = record {
      range = omega (arith, eff.frame.min_price, eff.frame.max_price, r.book.core.range);
      word = omega (arith, eff.frame.max_price, r.book.core.word);
      spans = omega (arith, eff.frame.min_price, eff.frame.max_price, r.book.core.spans);
      pool =
          Pool.Laws.IsValid-congr c.pool c'.pool eff.frame.free_stack eff.frame.top
            r.book.core.pool;
      table =
          subst (λ (t : Table). Index.Search.IsValid (2 * max_orders) hash cap t)
            (sym eff.frame.order_lookup) r.book.core.table;
      queues = queues-reduced;
      listed = λ k i found.
          let l = r.book.core.listed k i (
            sym (find-same max_orders hash cap r side price idx q traded c' range front less eff k)
            ∙ found) in
          let o = links max_orders hash cap r side price idx q traded c' range front less eff i in
          record {
            nonzero = l.nonzero;
            id_is = o.2 ∙ l.id_is;
            price_in = subst (InRange c') (sym o.4) (
              omega (arith, eff.frame.min_price, l.price_in),
              omega (arith, eff.frame.max_price, l.price_in),
            );
            waits =
                subst₂ (λ (s : Side) (p : ℕ). Elem i (r.queues s p)) (sym o.3) (sym o.4) l.waits;
          };
      sized = omega (
        arith,
        ap (λ (t : Table). t.size) eff.frame.order_lookup,
        eff.frame.top,
        r.book.core.sized,
      );
    }

    IsBest-reduced :
        (s : Side) (b b' : Option ℕ)
        → b' ≡ b
        → IsBest c.min_price c.max_price s (r.queues s) b
        → IsBest c'.min_price c'.max_price s (r.queues s) b'
    IsBest-reduced s b b' e old =
        mathlib.Core.Path.subst₃ (λ (lo hi : ℕ) (x : Option ℕ). IsBest lo hi s (r.queues s) x)
          (sym eff.frame.min_price) (sym eff.frame.max_price) (sym e) old

    -- The oldest order keeps its place with what is left of its quantity.
    pub Represents-reduced : Represents max_orders hash cap c' (
        requeue v side price (
          record { order_id = (order_at c idx).order_id; qty = (order_at c idx).qty - traded }
          ∷ entries c q))
    Represents-reduced = record {
      queues = r.queues;
      book = record {
        core = IsCore-reduced;
        bids = IsBest-reduced buy c.best_bid c'.best_bid eff.frame.best_bid r.book.bids;
        asks = IsBest-reduced sell c.best_ask c'.best_ask eff.frame.best_ask r.book.asks;
      };
      shows = λ s p i'.
          let i : InRange c p =
            (omega (arith, eff.frame.min_price, i'.0), omega (arith, eff.frame.max_price, i'.1)) in
          elim (spot_cases s side p price) [
            | inl (es, ep) ↦
                subst₂
                  (λ (s : Side) (p : ℕ).
                    requeue v side price
                      (record {
                        order_id = (order_at c idx).order_id;
                        qty = (order_at c idx).qty - traded;
                      }
                        ∷ entries c q)
                      s p
                    ≡ entries c' (r.queues s p))
                  (sym es) (sym ep)
                  (requeue_here v side price _
                    ∙ ap₂ (λ (e : Entry) (z : List Entry). e ∷ z) first_entry
                        (sym (
                          entries_congr c c' q (λ j e. same_order j (
                            rest_apart max_orders hash cap r side price idx q traded c' range front
                              less eff j e))))
                    ∙ ap (entries c') (sym front))
            | inr away ↦
                requeue_away v side price _ s p away
                ∙ r.shows s p i
                ∙ sym (entries_congr c c' (r.queues s p) (λ j e. same_order j (out s p j away i e)))
          ];
    }
      where
        first_entry :
            record { order_id = (order_at c idx).order_id; qty = (order_at c idx).qty - traded }
            ≡ entry c' idx
        first_entry =
            let l =
              links max_orders hash cap r side price idx q traded c' range front less eff idx in
            ap₂ (λ (k n : ℕ). record { order_id = k; qty = n }) (sym l.2)
              (sym (new_qty max_orders hash cap r side price idx q traded c' range front less eff))

        same_order : (j : ℕ) → j ≢ idx → SameOrder c c' j
        same_order j ne =
            let o = eff.others j ne in
            record {
              order_id = ap (λ (o : Order). o.order_id) o;
              price = ap (λ (o : Order). o.price) o;
              qty = ap (λ (o : Order). o.qty) o;
              side = ap (λ (o : Order). o.side) o;
            }

        out :
            (s : Side) (p j : ℕ)
            → (s ≡ side → p ≢ price)
            → InRange c p
            → Elem j (r.queues s p)
            → j ≢ idx
        out s p j away i e same =
            let m = (r.book.core.queues s p i).members j e in
            away
              (sym m.side_is
                ∙ ap (λ (k : ℕ). (order_at c k).side) same
                ∙ (self max_orders hash cap r side price idx q traded c' range front less
                    eff).side_is)
              (sym m.price_is
                ∙ ap (λ (k : ℕ). (order_at c k).price) same
                ∙ (self max_orders hash cap r side price idx q traded c' range front less
                    eff).price_is)
