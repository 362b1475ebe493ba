-- ===== src/Clob/Effects.antt =====
-- What the steps of src/fixed_clob.hpp that write through references change, cell by cell.
use lowlat_matching_engine.Common.{ℕ, ◌≡◌, ◌≢◌, arith, not, ◌&&◌, ◌==◌, if◌then◌else◌, add64, sub64}
use lowlat_matching_engine.Types.{Side, buy, sell, null_order_index, level_empty}
use lowlat_matching_engine.Clob.{
  Clob, index, level, set_level, order_at, set_order, append_to_level, unlink_from_level,
  unlink_prev, unlink_next, reduce_order_quantity,
}

-- What no step on the queues changes.
pub record SameFrame (c c' : Clob) : Type 0 where
  pub min_price : c'.min_price ≡ c.min_price
  pub max_price : c'.max_price ≡ c.max_price
  pub free_stack : c'.pool.free_stack ≡ c.pool.free_stack
  pub top : c'.pool.top ≡ c.pool.top
  pub order_lookup : c'.order_lookup ≡ c.order_lookup
  pub best_bid : c'.best_bid ≡ c.best_bid
  pub best_ask : c'.best_ask ≡ c.best_ask

-- The levels other than the one at `side` and `price` stay.
abbrev pub OtherLevels : Clob → Clob → Side → ℕ → Type 0
OtherLevels c c' side price =
    (s : Side) (p : ℕ) → (s ≡ side → index c p ≢ index c price) → level c' s p ≡ level c s p

pub record Appended (c : Clob) (side : Side) (price idx : ℕ) (c' : Clob) : Type 0 where
  pub frame : SameFrame c c'
  pub elsewhere : OtherLevels c c' side price
  pub here : level c' side price ≡ record {
    head_idx = if level_empty (level c side price) then idx else (level c side price).head_idx;
    tail_idx = idx;
    total_qty = add64 (level c side price).total_qty (order_at c idx).qty;
    order_count = add64 (level c side price).order_count 1;
  }
  pub added : order_at c' idx ≡ record (order_at c idx) {
    prev_idx =
        if level_empty (level c side price)
        then null_order_index
        else (level c side price).tail_idx;
    next_idx = null_order_index;
  }
  pub others :
      (j : ℕ)
      → j ≢ idx
      → order_at c' j ≡ record (order_at c j) {
        next_idx =
            if not (level_empty (level c side price)) && j == (level c side price).tail_idx
            then idx
            else (order_at c j).next_idx;
      }

pub append_effect :
    (c : Clob) (side : Side) (price idx : ℕ)
    → idx ≢ (level c side price).tail_idx
    → Appended c side price idx (append_to_level c side price idx)
unfolding append_to_level level set_level set_order
append_effect c buy price idx apart = record {
  frame = ground arith;
  elsewhere = λ s p h. ground (arith, h);
  here = ground arith;
  added = ground arith;
  others = λ j ne. ground arith;
}
append_effect c sell price idx apart = record {
  frame = ground arith;
  elsewhere = λ s p h. ground (arith, h);
  here = ground arith;
  added = ground arith;
  others = λ j ne. ground arith;
}

pub record Unlinked (c : Clob) (side : Side) (price idx : ℕ) (c' : Clob) : Type 0 where
  pub frame : SameFrame c c'
  pub elsewhere : OtherLevels c c' side price
  pub here : level c' side price ≡ record {
    head_idx =
        if (order_at c idx).prev_idx == null_order_index
        then (order_at c idx).next_idx
        else (level c side price).head_idx;
    tail_idx =
        if (order_at c idx).next_idx == null_order_index
        then (order_at c idx).prev_idx
        else (level c side price).tail_idx;
    total_qty = sub64 (level c side price).total_qty (order_at c idx).qty;
    order_count = sub64 (level c side price).order_count 1;
  }
  pub removed :
      order_at c' idx
      ≡ record (order_at c idx) { prev_idx = null_order_index; next_idx = null_order_index }
  pub others :
      (j : ℕ)
      → j ≢ idx
      → j ≢ null_order_index
      → order_at c' j ≡ record (order_at c j) {
        next_idx =
            if j == (order_at c idx).prev_idx
            then (order_at c idx).next_idx
            else (order_at c j).next_idx;
        prev_idx =
            if j == (order_at c idx).next_idx
            then (order_at c idx).prev_idx
            else (order_at c j).prev_idx;
      }

pub unlink_effect :
    (c : Clob) (side : Side) (price idx : ℕ)
    → (order_at c idx).prev_idx ≢ idx
    → (order_at c idx).next_idx ≢ idx
    → Unlinked c side price idx (unlink_from_level c side price idx)
unfolding unlink_from_level unlink_prev unlink_next level set_level set_order
unlink_effect c buy price idx np nn = record {
  frame = ground arith;
  elsewhere = λ s p h. ground (arith, h);
  here = ground arith;
  removed = ground arith;
  others = λ j ne nz. ground arith;
}
unlink_effect c sell price idx np nn = record {
  frame = ground arith;
  elsewhere = λ s p h. ground (arith, h);
  here = ground arith;
  removed = ground arith;
  others = λ j ne nz. ground arith;
}

pub record Reduced (c : Clob) (side : Side) (price idx traded_qty : ℕ) (c' : Clob) : Type 0 where
  pub frame : SameFrame c c'
  pub elsewhere : OtherLevels c c' side price
  pub here :
      level c' side price
      ≡ record (level c side price) { total_qty = sub64 (level c side price).total_qty traded_qty }
  pub reduced :
      order_at c' idx ≡ record (order_at c idx) { qty = sub64 (order_at c idx).qty traded_qty }
  pub others : (j : ℕ) → j ≢ idx → order_at c' j ≡ order_at c j

pub reduce_effect :
    (c : Clob) (side : Side) (price idx traded_qty : ℕ)
    → Reduced c side price idx traded_qty (reduce_order_quantity c idx traded_qty side price)
unfolding reduce_order_quantity level set_level set_order
reduce_effect c buy price idx traded_qty = record {
  frame = ground arith;
  elsewhere = λ s p h. ground (arith, h);
  here = ground arith;
  reduced = ground arith;
  others = λ j ne. ground arith;
}
reduce_effect c sell price idx traded_qty = record {
  frame = ground arith;
  elsewhere = λ s p h. ground (arith, h);
  here = ground arith;
  reduced = ground arith;
  others = λ j ne. ground arith;
}
