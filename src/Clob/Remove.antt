-- ===== src/Clob/Remove.antt =====
-- `remove_order_by_index` of src/fixed_clob.hpp up to the best price: the order leaves its queue, the
-- index and the pool, and the book stays well formed.
pub mod Core
use mathlib.Core.Path.{subst, subst₂}
use lowlat_matching_engine.Common.{
  ℕ, suc, ◌+◌, ◌*◌, ◌≤◌, ◌<◌, ◌≡◌, ◌≢◌, refl, sym, ap, ap₂, ◌∙◌, inl, inr, arith, some, List, [],
  ◌∷◌, ◌++◌, length, ◌==◌, if◌then◌else◌, length-append,
}
use lowlat_matching_engine.Types.{Side, buy, sell, Order, PriceLevel, null_order_index}
use lowlat_matching_engine.Pool
use lowlat_matching_engine.Pool.Laws
use lowlat_matching_engine.Pool.Laws.{IsFree, Released}
use lowlat_matching_engine.Index
use lowlat_matching_engine.Index.{Table}
use lowlat_matching_engine.Index.Probing.{IsCapacity}
use lowlat_matching_engine.Index.Erase.{Erased}
use lowlat_matching_engine.Clob.{Clob, level, order_at}
use lowlat_matching_engine.Clob.Queues.{
  Elem, first, last_from, total, Elem-left, Elem-right, Elem-outer, Elem-inner, middle_apart,
  IsNodup-outer, pigeonhole,
}
use lowlat_matching_engine.Clob.Links.{
  Relinked, middle_links, Linked-unlink, total_congr, total-append, last_from_unlink,
  last_from_append, last_from-Elem,
}
use lowlat_matching_engine.Clob.Effects.{Unlinked}
use lowlat_matching_engine.Clob.Invariant.{
  Queues, requeue, InRange, Member, IsQueue, Listed, IsCore, IsQueue-frame, SameOrder, Member-frame,
  Member-apart, Member-ne_null, spot_cases, requeue_here, requeue_away, index_apart, IsFree_congr,
}
use lowlat_matching_engine.Clob.Middle.{
  freed, level-freed, first-middle, last-middle, total-middle, length-middle,
}

module _ (max_orders : ℕ) (hash : ℕ → ℕ) (cap : IsCapacity (2 * max_orders)) where
  -- The premises of a removal: a well-formed book in which `idx` waits behind `xs` and before `ys`.
  pub record Removing (c : Clob) (b : Queues) (idx : ℕ) (side : Side) (price : ℕ) (xs ys : List ℕ)
      (c₁ : Clob) (table : Table) : Type 0 where
    pub core : IsCore max_orders hash cap c b
    pub price_in : InRange c price
    pub whole : b side price ≡ xs ++ idx ∷ ys
    pub unl : Unlinked c side price idx c₁
    pub era : Erased (2 * max_orders) hash cap c.order_lookup (order_at c idx).order_id table

  module _ {c : Clob} {b : Queues} {idx : ℕ} {side : Side} {price : ℕ} {xs ys : List ℕ} {c₁ : Clob}
      {table : Table} (a : Removing c b idx side price xs ys c₁ table) where
    abbrev c₂ : Clob
    c₂ = freed c₁ table idx

    own : IsQueue max_orders hash c side price (xs ++ idx ∷ ys)
    own =
        subst (λ (q : List ℕ). IsQueue max_orders hash c side price q) a.whole
          (a.core.queues side price a.price_in)

    self : Member max_orders hash c side price idx
    self = own.members idx (Elem-right idx xs (idx ∷ ys) (inl refl))

    links :
        ((order_at c idx).prev_idx ≡ last_from null_order_index xs)
        × ((order_at c idx).next_idx ≡ first ys)
    links = middle_links c.pool.orders null_order_index idx xs ys own.linked

    real : (j : ℕ) → Elem j (xs ++ idx ∷ ys) → j ≢ null_order_index
    real j e = Member-ne_null max_orders hash c side price j a.core.pool.small (own.members j e)

    valid₁ : Pool.Laws.IsValid max_orders c₁.pool
    valid₁ =
        Pool.Laws.IsValid-congr c.pool c₁.pool a.unl.frame.free_stack a.unl.frame.top a.core.pool

    room₁ : c₁.pool.top < max_orders
    room₁ = omega (arith, a.unl.frame.top, a.era.shrunk, a.core.sized)

    rel : Released max_orders c₁.pool idx (Pool.release c₁.pool idx)
    rel =
        Pool.Laws.release-Released valid₁ self.in_range room₁ (λ f.
          self.busy (IsFree_congr c.pool c₁.pool idx a.unl.frame.free_stack a.unl.frame.top f))

    order₂ : (j : ℕ) → order_at c₂ j ≡ order_at c₁ j
    order₂ j = ap (λ (o : ℕ → Order). o j) rel.orders_kept

    level₂ : (s : Side) (p : ℕ) → level c₂ s p ≡ level c₁ s p
    level₂ s p = level-freed c₁ table idx s p

    busy₂ : (i : ℕ) → i ≢ idx → (¬ IsFree c.pool i) → ¬ IsFree c₂.pool i
    busy₂ i ne busy f = busy (
        IsFree_congr c.pool c₁.pool i a.unl.frame.free_stack a.unl.frame.top
          (rel.none_added i ne f))

    -- What the removal does to another order.
    others₂ :
        (j : ℕ)
        → j ≢ idx
        → j ≢ null_order_index
        → order_at c₂ j ≡ record (order_at c j) {
          next_idx =
              if j == (order_at c idx).prev_idx
              then (order_at c idx).next_idx
              else (order_at c j).next_idx;
          prev_idx =
              if j == (order_at c idx).next_idx
              then (order_at c idx).prev_idx
              else (order_at c j).prev_idx;
        }
    others₂ j ne nz = order₂ j ∙ a.unl.others j ne nz

    kept₂ : (j : ℕ) → j ≢ idx → j ≢ null_order_index → SameOrder c c₂ j
    kept₂ j ne nz =
        let o = others₂ j ne nz in
        record {
          order_id = ap (λ (o : Order). o.order_id) o;
          price = ap (λ (o : Order). o.price) o;
          qty = ap (λ (o : Order). o.qty) o;
          side = ap (λ (o : Order). o.side) o;
        }

    Member₂ :
        (s : Side) (p i : ℕ)
        → i ≢ idx
        → Member max_orders hash c s p i
        → Member max_orders hash c₂ s p i
    Member₂ s p i ne m =
        let other : (order_at c i).order_id ≢ (order_at c idx).order_id = λ e.
          let f =
            sym m.indexed ∙ ap (Index.find (2 * max_orders) hash c.order_lookup) e ∙ self.indexed in
          ne (ground (arith, f)) in
        let r = a.era.reads (order_at c i).order_id in
        Member-frame max_orders hash c c₂ s p i
          (kept₂ i ne (Member-ne_null max_orders hash c s p i a.core.pool.small m))
          (busy₂ i ne m.busy) (ground (arith, r, other, m.indexed)) m

    neighbours :
        ((j : ℕ) → j ≡ (order_at c idx).prev_idx → j ≢ null_order_index → Elem j (xs ++ idx ∷ ys))
        × ((j : ℕ) → j ≡ (order_at c idx).next_idx → j ≢ null_order_index → Elem j (xs ++ idx ∷ ys))
    neighbours = (λ j e nz. before xs j (e ∙ links.0) nz, λ j e nz. behind ys j (e ∙ links.1) nz)
      where
        before :
            (zs : List ℕ) (j : ℕ)
            → j ≡ last_from null_order_index zs
            → j ≢ null_order_index
            → Elem j (zs ++ idx ∷ ys)
        before [] j e nz = absurd (nz e)
        before (z ∷ zs) j e nz =
            Elem-left j (z ∷ zs) (idx ∷ ys)
              (subst (λ (k : ℕ). Elem k (z ∷ zs)) (sym e) (last_from-Elem z zs))

        behind :
            (zs : List ℕ) (j : ℕ) → j ≡ first zs → j ≢ null_order_index → Elem j (xs ++ idx ∷ zs)
        behind [] j e nz = absurd (nz e)
        behind (z ∷ zs) j e nz = Elem-right j xs (idx ∷ z ∷ zs) (inr (inl e))

    -- Orders of the other queues are untouched, links included.
    other_order :
        (s : Side) (p i : ℕ)
        → (s ≡ side → p ≢ price)
        → Member max_orders hash c s p i
        → order_at c₂ i ≡ order_at c i
    other_order s p i away m =
        let nz = Member-ne_null max_orders hash c s p i a.core.pool.small m in
        let out : ¬ Elem i (xs ++ idx ∷ ys) = λ e.
          let both = Member-apart max_orders hash c s side p price i m (own.members i e) in
          away both.0 both.1 in
        let ne : i ≢ idx = λ e. out (
          subst (λ (k : ℕ). Elem k (xs ++ idx ∷ ys)) (sym e)
            (Elem-right idx xs (idx ∷ ys) (inl refl))) in
        let np : i ≢ (order_at c idx).prev_idx = λ e. out (neighbours.0 i e nz) in
        let nn : i ≢ (order_at c idx).next_idx = λ e. out (neighbours.1 i e nz) in
        let o = others₂ i ne nz in ground (arith, o, np, nn)

    apart_middle : (j : ℕ) → Elem j (xs ++ ys) → j ≢ idx
    apart_middle j e same =
        middle_apart idx xs ys own.nodup (subst (λ (k : ℕ). Elem k (xs ++ ys)) same e)

    relinked :
        (j : ℕ)
        → Elem j (xs ++ ys)
        → Relinked c.pool.orders c₂.pool.orders (last_from null_order_index xs) (first ys) j
    relinked j e =
        let o = others₂ j (apart_middle j e) (real j (Elem-outer j idx xs ys e)) in
        (
          ap (λ (o : Order). o.next_idx) o
              ∙ ap₂ (λ (p n : ℕ). if j == p then n else (order_at c j).next_idx) links.0 links.1,
          ap (λ (o : Order). o.prev_idx) o
              ∙ ap₂ (λ (p n : ℕ). if j == n then p else (order_at c j).prev_idx) links.0 links.1,
        )

    count_small : length (xs ++ idx ∷ ys) ≤ max_orders
    count_small =
        pigeonhole max_orders (xs ++ idx ∷ ys) own.nodup (λ i e. (own.members i e).in_range)

    here₂ : level c₂ side price ≡ level c₁ side price
    here₂ = level₂ side price

    total₂ : total c₂.pool.orders (xs ++ ys) ≡ total c.pool.orders (xs ++ ys)
    total₂ =
        total_congr c.pool.orders c₂.pool.orders (xs ++ ys)
          (λ i e. (kept₂ i (apart_middle i e) (real i (Elem-outer i idx xs ys e))).qty)

    IsQueue₂ : IsQueue max_orders hash c₂ side price (xs ++ ys)
    IsQueue₂ =
        let h = here₂ ∙ a.unl.here in
        record {
          linked =
              Linked-unlink c.pool.orders c₂.pool.orders null_order_index idx xs ys own.linked
                own.nodup (λ e. real null_order_index e refl) real relinked;
          nodup = IsNodup-outer idx xs ys own.nodup;
          members = λ i e.
              Member₂ side price i (apart_middle i e) (own.members i (Elem-outer i idx xs ys e));
          head =
              first-middle null_order_index idx xs ys (level c side price).head_idx
                (level c₂ side price).head_idx (order_at c idx).next_idx (order_at c idx).prev_idx
                own.head links.0 links.1 (λ j e. real j (Elem-left j xs (idx ∷ ys) e))
                (ap (λ (l : PriceLevel). l.head_idx) h);
          tail =
              last-middle idx xs ys (level c side price).tail_idx (level c₂ side price).tail_idx
                (order_at c idx).next_idx (order_at c idx).prev_idx own.tail links.0 links.1
                (λ j e. real j (Elem-right j xs (idx ∷ ys) (inr e)))
                (ap (λ (l : PriceLevel). l.tail_idx) h);
          count = omega (
            arith,
            ap (λ (l : PriceLevel). l.order_count) h,
            own.count,
            count_small,
            a.core.pool.small,
            length-middle idx xs ys,
          );
          quantity = omega (
            arith,
            ap (λ (l : PriceLevel). l.total_qty) h,
            own.quantity,
            total-middle c.pool.orders idx xs ys,
            total₂,
            self.qty_word,
          );
        }
