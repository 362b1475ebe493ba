-- ===== src/Clob/Place.antt =====
-- `place_order`, the end of `add_order` in src/fixed_clob.hpp, cell by cell against the book before
-- the allocation and the insertion.
use lowlat_matching_engine.Common.{
  ℕ, ◌≡◌, ◌≢◌, refl, sym, ap, ap₂, ◌∙◌, arith, Option, not, ◌&&◌, ◌==◌, if◌then◌else◌, add64,
}
use lowlat_matching_engine.Types.{Side, buy, sell, Order, PriceLevel, null_order_index, level_empty}
use lowlat_matching_engine.Pool.{Pool}
use lowlat_matching_engine.Index.{Table}
use lowlat_matching_engine.Clob.{
  Clob, index, level, order_at, set_order, best, opposite, append_to_level, update_best_after_add,
  place_order,
}
use lowlat_matching_engine.Clob.Effects.{OtherLevels, Appended, append_effect}
use lowlat_matching_engine.Clob.Best.{improve, BestAdded, update_best_effect}

-- The book after the allocation and the insertion.
abbrev pub reserved : Clob → Pool → Table → Clob
reserved c pool table = record c { pool = pool; order_lookup = table }

abbrev pub fresh_order : Clob → ℕ → ℕ → Side → ℕ → ℕ → Order
fresh_order c idx order_id side price qty = record (order_at c idx) {
  order_id = order_id;
  price = price;
  qty = qty;
  side = side;
}

abbrev pub staged : Clob → ℕ → ℕ → Side → ℕ → ℕ → Clob
staged c idx order_id side price qty = set_order c idx (fresh_order c idx order_id side price qty)

pub record Placed (c : Clob) (pool : Pool) (table : Table) (idx order_id : ℕ) (side : Side)
    (price qty : ℕ) (c' : Clob) : Type 0 where
  pub min_price : c'.min_price ≡ c.min_price
  pub max_price : c'.max_price ≡ c.max_price
  pub free_stack : c'.pool.free_stack ≡ pool.free_stack
  pub top : c'.pool.top ≡ pool.top
  pub order_lookup : c'.order_lookup ≡ table
  pub mine : best c' side ≡ improve side (best c side) price
  pub other : best c' (opposite side) ≡ best c (opposite side)
  pub elsewhere : OtherLevels c c' side price
  pub here : level c' side price ≡ record {
    head_idx = if level_empty (level c side price) then idx else (level c side price).head_idx;
    tail_idx = idx;
    total_qty = add64 (level c side price).total_qty qty;
    order_count = add64 (level c side price).order_count 1;
  }
  pub added : order_at c' idx ≡ record {
    order_id = order_id;
    price = price;
    qty = qty;
    next_idx = null_order_index;
    prev_idx =
        if level_empty (level c side price)
        then null_order_index
        else (level c side price).tail_idx;
    side = side;
  }
  pub others :
      (j : ℕ)
      → j ≢ idx
      → order_at c' j ≡ record (order_at c j) {
        next_idx =
            if not (level_empty (level c side price)) && j == (level c side price).tail_idx
            then idx
            else (order_at c j).next_idx;
      }

module _ (c : Clob) (pool : Pool) (table : Table) (idx order_id : ℕ) (side : Side)
    (price qty : ℕ) where
  abbrev c₁ : Clob
  c₁ = staged (reserved c pool table) idx order_id side price qty

  level-c₁ : (s : Side) (p : ℕ) → level c₁ s p ≡ level c s p
  unfolding level set_order
  level-c₁ buy p = refl
  level-c₁ sell p = refl

  index-c₁ : (p : ℕ) → index c₁ p ≡ index c p
  unfolding set_order
  index-c₁ p = refl

  frame-c₁ :
      (c₁.min_price ≡ c.min_price)
      × (c₁.max_price ≡ c.max_price)
      × (c₁.pool.free_stack ≡ pool.free_stack)
      × (c₁.pool.top ≡ pool.top)
      × (c₁.order_lookup ≡ table)
      × (c₁.best_bid ≡ c.best_bid)
      × (c₁.best_ask ≡ c.best_ask)
  unfolding set_order
  frame-c₁ = (refl, refl, refl, refl, refl, refl, refl)

  order-c₁ : order_at c₁ idx ≡ fresh_order (reserved c pool table) idx order_id side price qty
  unfolding set_order
  order-c₁ = ground arith

  others-c₁ : (j : ℕ) → j ≢ idx → order_at c₁ j ≡ pool.orders j
  unfolding set_order
  others-c₁ j ne = ground (arith, ne)

  place_order_steps :
      place_order (reserved c pool table) idx order_id side price qty
      ≡ update_best_after_add (append_to_level c₁ side price idx) side price
  unfolding place_order
  place_order_steps = refl

  best-side :
      (a d : Clob)
      → a.best_bid ≡ d.best_bid
      → a.best_ask ≡ d.best_ask
      → (s : Side) → best a s ≡ best d s
  best-side a d bid ask buy = bid
  best-side a d bid ask sell = ask

  pub place_effect :
      pool.orders ≡ c.pool.orders
      → idx ≢ (level c side price).tail_idx
      → Placed c pool table idx order_id side price qty
          (place_order (reserved c pool table) idx order_id side price qty)
  place_effect same apart =
      let l₁ = level-c₁ side price in
      let app : Appended c₁ side price idx (append_to_level c₁ side price idx) =
        append_effect c₁ side price idx (λ e. apart (e ∙ ap (λ (l : PriceLevel). l.tail_idx) l₁)) in
      let up : BestAdded (append_to_level c₁ side price idx) side price
          (update_best_after_add (append_to_level c₁ side price idx) side price) =
        update_best_effect (append_to_level c₁ side price idx) side price in
      let orders = λ (j : ℕ). ap (λ (q : Pool). q.orders j) up.agree.pool in
      let old =
        best-side (append_to_level c₁ side price idx) c (app.frame.best_bid ∙ frame-c₁.5)
          (app.frame.best_ask ∙ frame-c₁.6) in
      let olds = old side in
      let oldo = old (opposite side) in
      rw place_order_steps (record {
        min_price = up.agree.min_price ∙ app.frame.min_price ∙ frame-c₁.0;
        max_price = up.agree.max_price ∙ app.frame.max_price ∙ frame-c₁.1;
        free_stack =
            ap (λ (q : Pool). q.free_stack) up.agree.pool ∙ app.frame.free_stack ∙ frame-c₁.2;
        top = ap (λ (q : Pool). q.top) up.agree.pool ∙ app.frame.top ∙ frame-c₁.3;
        order_lookup = up.agree.order_lookup ∙ app.frame.order_lookup ∙ frame-c₁.4;
        mine = up.mine ∙ ap (λ (b : Option ℕ). improve side b price) olds;
        other = up.other ∙ oldo;
        elsewhere = λ s p away.
            up.agree.same_levels s p
            ∙ app.elsewhere s p (λ e k. away e (sym (index-c₁ p) ∙ k ∙ index-c₁ price))
            ∙ level-c₁ s p;
        here =
            up.agree.same_levels side price
            ∙ app.here
            ∙ ap₂
                (λ (l : PriceLevel) (o : Order). record {
                  head_idx = if level_empty l then idx else l.head_idx;
                  tail_idx = idx;
                  total_qty = add64 l.total_qty o.qty;
                  order_count = add64 l.order_count 1;
                })
                l₁ order-c₁;
        added =
            orders idx
            ∙ app.added
            ∙ ap₂
                (λ (l : PriceLevel) (o : Order). record o {
                  prev_idx = if level_empty l then null_order_index else l.tail_idx;
                  next_idx = null_order_index;
                })
                l₁ order-c₁;
        others = λ j ne.
            orders j
            ∙ app.others j ne
            ∙ ap₂
                (λ (l : PriceLevel) (o : Order). record o {
                  next_idx = if not (level_empty l) && j == l.tail_idx then idx else o.next_idx;
                })
                l₁ (others-c₁ j ne ∙ ap (λ (f : ℕ → Order). f j) same);
      })
