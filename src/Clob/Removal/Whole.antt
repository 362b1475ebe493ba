-- ===== src/Clob/Removal/Whole.antt =====
-- `remove_order_by_index` of src/fixed_clob.hpp, all of it.
use mathlib.Core.Path.{subst}
use lowlat_matching_engine.Common.{
  ℕ, ◌*◌, ◌≡◌, ◌≢◌, refl, sym, ap, ap₂, ◌∙◌, inl, inr, arith, List, [], ◌∷◌, ◌++◌, if◌then◌else◌,
  true, Bool, Bool-cases,
}
use lowlat_matching_engine.Types.{Side, Order, PriceLevel, null_order_index, level_empty}
use lowlat_matching_engine.Pool
use lowlat_matching_engine.Index
use lowlat_matching_engine.Index.{Table}
use lowlat_matching_engine.Index.Probing.{IsCapacity}
use lowlat_matching_engine.Index.Erase.{Erased, erase_present}
use lowlat_matching_engine.Clob.{
  Clob, level, order_at, best, opposite, unlink_from_level, remove_order_by_index,
  refresh_best_after_empty_level,
}
use lowlat_matching_engine.Clob.Queues.{
  Elem, split, Split, Elem-left, Elem-right, middle_apart, Elem-nil,
}
use lowlat_matching_engine.Clob.Links.{middle_links}
use lowlat_matching_engine.Clob.Effects.{Unlinked, unlink_effect}
use lowlat_matching_engine.Clob.Refresh.{refresh_best_effect}
use lowlat_matching_engine.Clob.Invariant.{
  Queues, requeue, InRange, IsBest, Member, IsQueue, IsCore, IsBook, Member-ne_null, requeue_here,
  requeue_away, IsBest-congr, IsBest-still,
}
use lowlat_matching_engine.Clob.Remove.{Removing}
use lowlat_matching_engine.Clob.Middle.{freed}
use lowlat_matching_engine.Clob.Remove.Core.{IsCore-removed}
use lowlat_matching_engine.Clob.Removal.{
  level_lem, Mirrors-core, IsCore-Agree, Removed, IsBest-by, best-of, IsBook-of, best-frame,
  opposite_apart, prev_apart, next_apart,
}

module _ (max_orders : ℕ) (hash : ℕ → ℕ) where
  module _ (cap : IsCapacity (2 * max_orders)) (c : Clob) (b : Queues) (idx : ℕ)
      (v : IsBook max_orders hash cap c b) (price_in : InRange c (order_at c idx).price)
      (waits : Elem idx (b (order_at c idx).side (order_at c idx).price)) where
    abbrev side : Side
    side = (order_at c idx).side

    abbrev price : ℕ
    price = (order_at c idx).price

    cut : Split idx (b side price)
    cut = split idx (b side price) waits

    abbrev c₁ : Clob
    c₁ = unlink_from_level c side price idx

    own : IsQueue max_orders hash c side price (cut.before ++ idx ∷ cut.behind)
    own =
        subst (λ (q : List ℕ). IsQueue max_orders hash c side price q) cut.whole
          (v.core.queues side price price_in)

    self : Member max_orders hash c side price idx
    self = own.members idx (Elem-right idx cut.before (idx ∷ cut.behind) (inl refl))

    not_null : idx ≢ null_order_index
    not_null = Member-ne_null max_orders hash c side price idx v.core.pool.small self

    unl : Unlinked c side price idx c₁
    unl =
        let links =
          middle_links c.pool.orders null_order_index idx cut.before cut.behind own.linked in
        let away = middle_apart idx cut.before cut.behind own.nodup in
        unlink_effect c side price idx
          (λ e.
            prev_apart max_orders hash idx cut.before not_null
              (λ m. away (Elem-left idx cut.before cut.behind m)) (sym links.0 ∙ e))
          (λ e.
            next_apart max_orders hash idx cut.behind not_null
              (λ m. away (Elem-right idx cut.before cut.behind m)) (sym links.1 ∙ e))

    erased :
        (t : Table) × (Index.erase (2 * max_orders) hash c.order_lookup (order_at c idx).order_id
          ≡ (true, t))
        × Erased (2 * max_orders) hash cap c.order_lookup (order_at c idx).order_id t
    erased =
        erase_present (2 * max_orders) hash cap c.order_lookup (order_at c idx).order_id idx
          v.core.table self.indexed

    removing : Removing max_orders hash cap c b idx side price cut.before cut.behind c₁ erased.0
    removing = record {
      core = v.core;
      price_in = price_in;
      whole = cut.whole;
      unl = unl;
      era = erased.2;
    }

    abbrev c₂ : Clob
    c₂ = freed c₁ erased.0 idx

    abbrev after : Queues
    after = requeue b side price (cut.before ++ cut.behind)

    core₂ : IsCore max_orders hash cap c₂ after
    core₂ = IsCore-removed max_orders hash cap removing

    finish : Clob
    finish =
        if level_empty (level c₂ side price)
        then refresh_best_after_empty_level c₂ side price
        else c₂

    remove_steps : remove_order_by_index max_orders hash c idx ≡ finish
    unfolding remove_order_by_index finish
    remove_steps =
        let table : (Index.erase (2 * max_orders) hash c₁.order_lookup (order_at c₁ idx).order_id).1
            ≡ erased.0 =
          ap₂ (λ (t : Table) (k : ℕ). (Index.erase (2 * max_orders) hash t k).1)
            unl.frame.order_lookup (ap (λ (o : Order). o.order_id) unl.removed)
          ∙ ap (λ (r : Bool × Table). r.1) erased.1 in
        ap
          (λ (t : Table).
            if level_empty (level (freed c₁ t idx) side price)
            then refresh_best_after_empty_level (freed c₁ t idx) side price
            else freed c₁ t idx)
          table

    best₂ : (s : Side) → best c₂ s ≡ best c s
    best₂ s = best-frame max_orders hash c c₂ unl.frame.best_bid unl.frame.best_ask s

    filled : b side price ≢ []
    filled e = Elem-nil idx (subst (Elem idx) e waits)

    old₂ : (s : Side) → IsBest c₂.min_price c₂.max_price s (b s) (best c₂ s)
    old₂ s =
        IsBest-by max_orders hash c.min_price c.max_price c₂.min_price c₂.max_price s (b s)
          (best c s) (best c₂ s) unl.frame.min_price unl.frame.max_price (best₂ s)
          (best-of max_orders hash cap c b s v)

    in₂ : InRange c₂ price
    in₂ = (
      omega (arith, unl.frame.min_price, price_in.0),
      omega (arith, unl.frame.max_price, price_in.1),
    )

    away : (p : ℕ) → p ≢ price → after side p ≡ b side p
    away p ne = requeue_away b side price (cut.before ++ cut.behind) side p (λ _. ne)

    other : (p : ℕ) → after (opposite side) p ≡ b (opposite side) p
    other p =
        requeue_away b side price (cut.before ++ cut.behind) (opposite side) p
          (λ e. absurd (opposite_apart max_orders hash side e))

    order-freed : (j : ℕ) → order_at c₂ j ≡ order_at c₁ j
    unfolding Pool.release
    order-freed j = refl

    Removed-by :
        (c' : Clob)
        → IsBook max_orders hash cap c' after
        → c'.pool ≡ c₂.pool
        → c'.min_price ≡ c₂.min_price
        → c'.max_price ≡ c₂.max_price
        → Removed max_orders hash cap c b idx side price c'
    Removed-by c' book pool lo hi = record {
      before = cut.before;
      behind = cut.behind;
      whole = cut.whole;
      book = book;
      kept = λ s p i r e ne.
          let m = (v.core.queues s p r).members i e in
          let o =
            ap (λ (q : Pool.Pool). q.orders i) pool
            ∙ order-freed i
            ∙ unl.others i ne (Member-ne_null max_orders hash c s p i v.core.pool.small m) in
          record {
            order_id = ap (λ (o : Order). o.order_id) o;
            price = ap (λ (o : Order). o.price) o;
            qty = ap (λ (o : Order). o.qty) o;
            side = ap (λ (o : Order). o.side) o;
          };
      min_price = lo ∙ unl.frame.min_price;
      max_price = hi ∙ unl.frame.max_price;
      grown =
          omega
            (arith, ap (λ (q : Pool.Pool). q.top) pool, core₂.sized, erased.2.shrunk, v.core.sized);
    }

    -- Removing a waiting order keeps the book well formed.
    pub remove_order_lem :
        Removed max_orders hash cap c b idx side price (remove_order_by_index max_orders hash c idx)
    unfolding finish
    remove_order_lem =
        let mirror = Mirrors-core max_orders hash cap c₂ after side core₂ price in₂.0 in₂.1 in
        let lvl = ap (λ (l : PriceLevel). level_empty l) (level_lem c₂ side price) in
        let after_here = requeue_here b side price (cut.before ++ cut.behind) in
        let others =
          IsBest-congr c₂.min_price c₂.max_price (opposite side) (b (opposite side))
            (after (opposite side)) (best c₂ (opposite side)) other (old₂ (opposite side)) in
        elim (Bool-cases (level_empty (level c₂ side price))) [
          | inl empty ↦
              let r =
                refresh_best_effect c₂ side price (b side) (after side) in₂.0 in₂.1
                  (Mirrors-core max_orders hash cap c₂ after side core₂) (old₂ side) filled
                  (mirror.0 (sym lvl ∙ empty)) away in
              let c₃ = refresh_best_after_empty_level c₂ side price in
              let same : remove_order_by_index max_orders hash c idx ≡ c₃ =
                remove_steps ∙ ap (λ (t : Bool). if t then c₃ else c₂) empty in
              subst (λ (d : Clob). Removed max_orders hash cap c b idx side price d) (sym same)
                (Removed-by c₃
                  (IsBook-of max_orders hash cap c₃ after side
                    (IsCore-Agree max_orders hash cap c₂ c₃ after r.agree core₂)
                    (IsBest-by max_orders hash c₂.min_price c₂.max_price c₃.min_price c₃.max_price
                      side (after side) (best c₃ side) (best c₃ side) r.agree.min_price
                      r.agree.max_price refl r.mine)
                    (IsBest-by max_orders hash c₂.min_price c₂.max_price c₃.min_price c₃.max_price
                      (opposite side) (after (opposite side)) (best c₂ (opposite side))
                      (best c₃ (opposite side)) r.agree.min_price r.agree.max_price r.other others))
                  r.agree.pool r.agree.min_price r.agree.max_price)
          | inr more ↦
              let still =
                IsBest-still c₂.min_price c₂.max_price side (b side) (after side) (best c₂ side)
                  price in₂.0 in₂.1 (old₂ side) filled
                  (λ e. let t = lvl ∙ mirror.1 e in ground (arith, t, more)) away in
              let same : remove_order_by_index max_orders hash c idx ≡ c₂ =
                remove_steps
                ∙ ap (λ (t : Bool). if t then refresh_best_after_empty_level c₂ side price else c₂)
                    more in
              subst (λ (d : Clob). Removed max_orders hash cap c b idx side price d) (sym same)
                (Removed-by c₂ (IsBook-of max_orders hash cap c₂ after side core₂ still others) refl
                  refl refl)
        ]
