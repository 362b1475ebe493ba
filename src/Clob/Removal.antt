-- ===== src/Clob/Removal.antt =====
-- `remove_order_by_index` of src/fixed_clob.hpp as a whole, the best price included.
pub mod Whole
use mathlib.Core.Path.{subst, subst₃}
use lowlat_matching_engine.Common.{
  ℕ, ◌+◌, ◌*◌, ◌≡◌, ◌≢◌, ◌↔◌, refl, sym, ap, ap₂, ◌∙◌, inl, inr, arith, Option, List, [], ◌∷◌, ◌++◌,
  length, ◌==◌, if◌then◌else◌, true, Bool, Bool-cases,
}
use lowlat_matching_engine.Types.{Side, buy, sell, Order, PriceLevel, null_order_index, level_empty}
use lowlat_matching_engine.Pool
use lowlat_matching_engine.Pool.Laws
use lowlat_matching_engine.Index
use lowlat_matching_engine.Index.{Table}
use lowlat_matching_engine.Index.Probing.{IsCapacity}
use lowlat_matching_engine.Index.Search
use lowlat_matching_engine.Index.Erase.{Erased, erase_present}
use lowlat_matching_engine.Clob.{
  Clob, index, level, levels, order_at, best, opposite, unlink_from_level, remove_order_by_index,
  refresh_best_after_empty_level,
}
use lowlat_matching_engine.Clob.Queues.{
  Elem, first, last_from, split, Split, Elem-left, Elem-right, middle_apart, Elem-nil,
}
use lowlat_matching_engine.Clob.Links.{last_from-Elem, middle_links}
use lowlat_matching_engine.Clob.Effects.{Unlinked, unlink_effect}
use lowlat_matching_engine.Clob.Best.{Agree}
use lowlat_matching_engine.Clob.Refresh.{Mirrors, refresh_best_effect}
use lowlat_matching_engine.Clob.Invariant.{
  Queues, requeue, InRange, IsBest, Member, IsQueue, IsCore, IsBook, IsQueue-frame, SameOrder,
  Member-frame, Member-ne_null, requeue_here, requeue_away, IsBest-congr, IsBest-still,
  IsFree_congr,
}
use lowlat_matching_engine.Clob.Remove.{Removing}
use lowlat_matching_engine.Clob.Middle.{freed}
use lowlat_matching_engine.Clob.Remove.Core.{IsCore-removed}

length-zero : (q : List ℕ) (n : ℕ) → n ≡ length q → ((n == 0) ≡ true) ↔ (q ≡ [])
length-zero [] n e = (λ _. refl, λ _. ground (arith, e))
length-zero (x ∷ q) n e =
    (λ z. absurd (let t : n ≡ 0 = ground (arith, z) in omega (arith, e, t)), λ z. cc z)

level_lem : (c : Clob) (s : Side) (p : ℕ) → level c s p ≡ levels c s (index c p)
unfolding level
level_lem c s p = refl

module _ (max_orders : ℕ) (hash : ℕ → ℕ) where
  pub Mirrors-core :
      (cap : IsCapacity (2 * max_orders)) (c : Clob) (b : Queues) (s : Side)
      → IsCore max_orders hash cap c b
      → Mirrors c.min_price c.max_price (levels c s) (b s)
  Mirrors-core cap c b s core p l h = length-zero (b s p) (levels c s (index c p)).order_count (
      sym (ap (λ (v : PriceLevel). v.order_count) (level_lem c s p))
      ∙ (core.queues s p (l, h)).count)

  -- The invariant but the best prices does not see the best prices.
  pub IsCore-Agree :
      (cap : IsCapacity (2 * max_orders)) (c c' : Clob) (b : Queues)
      → Agree c c'
      → IsCore max_orders hash cap c b
      → IsCore max_orders hash cap c' b
  IsCore-Agree cap c c' b g core = record {
    range = omega (arith, g.min_price, g.max_price, core.range);
    word = omega (arith, g.max_price, core.word);
    spans = omega (arith, g.min_price, g.max_price, core.spans);
    pool = subst (λ (p : Pool.Pool). Pool.Laws.IsValid max_orders p) (sym g.pool) core.pool;
    table =
        subst (λ (t : Table). Index.Search.IsValid (2 * max_orders) hash cap t) (sym g.order_lookup)
          core.table;
    queues = λ s p r.
        let r' : InRange c p = (omega (arith, g.min_price, r.0), omega (arith, g.max_price, r.1)) in
        let old = core.queues s p r' in
        IsQueue-frame max_orders hash c c' s p (b s p) (g.same_levels s p) (λ j e. orders j)
          (λ j e. member s p j (old.members j e)) old;
    listed = λ k i found.
        let l =
          core.listed k i (
            sym (ap (λ (t : Table). Index.find (2 * max_orders) hash t k) g.order_lookup)
            ∙ found) in
        record {
          nonzero = l.nonzero;
          id_is = ap (λ (o : Order). o.order_id) (orders i) ∙ l.id_is;
          price_in =
              subst (λ (o : Order). InRange c' o.price) (sym (orders i))
                (omega (arith, g.min_price, l.price_in), omega (arith, g.max_price, l.price_in));
          waits = subst (λ (o : Order). Elem i (b o.side o.price)) (sym (orders i)) l.waits;
        };
    sized = omega (
      arith,
      ap (λ (t : Table). t.size) g.order_lookup,
      ap (λ (p : Pool.Pool). p.top) g.pool,
      core.sized,
    );
  }
    where
      orders : (j : ℕ) → order_at c' j ≡ order_at c j
      orders j = ap (λ (p : Pool.Pool). p.orders j) g.pool

      member :
          (s : Side) (p j : ℕ) → Member max_orders hash c s p j → Member max_orders hash c' s p j
      member s p j m =
          Member-frame max_orders hash c c' s p j
            (record {
              order_id = ap (λ (o : Order). o.order_id) (orders j);
              price = ap (λ (o : Order). o.price) (orders j);
              qty = ap (λ (o : Order). o.qty) (orders j);
              side = ap (λ (o : Order). o.side) (orders j);
            })
            (λ f. m.busy (
              IsFree_congr c.pool c'.pool j (ap (λ (p : Pool.Pool). p.free_stack) g.pool)
                (ap (λ (p : Pool.Pool). p.top) g.pool) f))
            (ap (λ (t : Table). Index.find (2 * max_orders) hash t (order_at c j).order_id)
                g.order_lookup
              ∙ m.indexed)
            m

  -- The order `idx` has left the book, and every other order is as it was.
  pub record Removed (cap : IsCapacity (2 * max_orders)) (c : Clob) (b : Queues) (idx : ℕ)
      (side : Side) (price : ℕ) (c' : Clob) : Type 0 where
    pub before : List ℕ
    pub behind : List ℕ
    pub whole : b side price ≡ before ++ idx ∷ behind
    pub book : IsBook max_orders hash cap c' (requeue b side price (before ++ behind))
    pub kept : (s : Side) (p i : ℕ) → InRange c p → Elem i (b s p) → i ≢ idx → SameOrder c c' i
    pub min_price : c'.min_price ≡ c.min_price
    pub max_price : c'.max_price ≡ c.max_price
    pub grown : c'.pool.top ≡ c.pool.top + 1

  IsBest-by :
      (lo hi lo' hi' : ℕ) (side : Side) (q : ℕ → List ℕ) (b b' : Option ℕ)
      → lo' ≡ lo
      → hi' ≡ hi
      → b' ≡ b
      → IsBest lo hi side q b
      → IsBest lo' hi' side q b'
  IsBest-by lo hi lo' hi' side q b b' el eh eb old =
      subst₃ (λ (l h : ℕ) (x : Option ℕ). IsBest l h side q x) (sym el) (sym eh) (sym eb) old

  best-of :
      (cap : IsCapacity (2 * max_orders)) (c : Clob) (b : Queues) (s : Side)
      → IsBook max_orders hash cap c b
      → IsBest c.min_price c.max_price s (b s) (best c s)
  best-of cap c b buy v = v.bids
  best-of cap c b sell v = v.asks

  IsBook-of :
      (cap : IsCapacity (2 * max_orders)) (c : Clob) (b : Queues) (s : Side)
      → IsCore max_orders hash cap c b
      → IsBest c.min_price c.max_price s (b s) (best c s)
      → IsBest c.min_price c.max_price (opposite s) (b (opposite s)) (best c (opposite s))
      → IsBook max_orders hash cap c b
  IsBook-of cap c b buy core mine other = record { core = core; bids = mine; asks = other }
  IsBook-of cap c b sell core mine other = record { core = core; bids = other; asks = mine }

  best-frame :
      (c c' : Clob)
      → c'.best_bid ≡ c.best_bid
      → c'.best_ask ≡ c.best_ask
      → (s : Side) → best c' s ≡ best c s
  best-frame c c' bid ask buy = bid
  best-frame c c' bid ask sell = ask

  opposite_apart : (s : Side) → opposite s ≢ s
  opposite_apart buy e = ground (arith, e)
  opposite_apart sell e = ground (arith, e)

  prev_apart :
      (i : ℕ) (xs : List ℕ)
      → i ≢ null_order_index
      → (¬ Elem i xs)
      → last_from null_order_index xs ≢ i
  prev_apart i [] nz away e = nz (sym e)
  prev_apart i (x ∷ xs) nz away e =
      away (subst (λ (k : ℕ). Elem k (x ∷ xs)) e (last_from-Elem x xs))

  next_apart : (i : ℕ) (ys : List ℕ) → i ≢ null_order_index → (¬ Elem i ys) → first ys ≢ i
  next_apart i [] nz away e = nz (sym e)
  next_apart i (y ∷ ys) nz away e = away (inl (sym e))
