-- ===== src/Clob/Levels.antt =====
-- The parts of src/fixed_clob.hpp that read and write price levels, links and best prices.
use lowlat_matching_engine.Common.{
  ℕ, zero, suc, ◌+◌, ◌-◌, ◌==◌, if◌then◌else◌, ltb, leb, ◌&&◌, Bool, true, false, Option, none,
  some, update, add64, sub64,
}
use lowlat_matching_engine.Types.{Side, buy, sell, null_order_index, Order, PriceLevel, level_empty}
use lowlat_matching_engine.Pool
use lowlat_matching_engine.Pool.{Pool}
use lowlat_matching_engine.Index.{Table}

pub record Clob : Type 0 where
  pub min_price : ℕ
  pub max_price : ℕ
  pub pool : Pool
  pub bid_levels : ℕ → PriceLevel
  pub ask_levels : ℕ → PriceLevel
  pub order_lookup : Table
  pub best_bid : Option ℕ
  pub best_ask : Option ℕ

-- Its assertion is `min_price_ <= max_price_`.
unfoldable pub range_size : Clob → ℕ
range_size c = add64 (sub64 c.max_price c.min_price) 1

abbrev pub valid_price : Clob → ℕ → Bool
valid_price c price = leb c.min_price price && leb price c.max_price

-- Its assertion is `valid_price(price)`.
abbrev pub index : Clob → ℕ → ℕ
index c price = sub64 price c.min_price

-- `level`, as a read and as a write through the reference.
abbrev pub levels : Clob → Side → ℕ → PriceLevel
levels c buy = c.bid_levels
levels c sell = c.ask_levels

unfoldable pub level : Clob → Side → ℕ → PriceLevel
level c side price = levels c side (index c price)

unfoldable pub set_level : Clob → Side → ℕ → PriceLevel → Clob
set_level c buy price lvl = record c { bid_levels = update c.bid_levels (index c price) lvl }
set_level c sell price lvl = record c { ask_levels = update c.ask_levels (index c price) lvl }

abbrev pub order_at : Clob → ℕ → Order
order_at c idx = Pool.get c.pool idx

unfoldable pub set_order : Clob → ℕ → Order → Clob
set_order c idx order = record c { pool = Pool.put c.pool idx order }

-- Its assertion is that the side is not empty.
abbrev pub best : Clob → Side → Option ℕ
best c buy = c.best_bid
best c sell = c.best_ask

unfoldable pub set_best : Clob → Side → Option ℕ → Clob
set_best c buy p = record c { best_bid = p }
set_best c sell p = record c { best_ask = p }

abbrev pub opposite : Side → Side
opposite buy = sell
opposite sell = buy

-- `Level` of a best price: the price and the quantity at it.
abbrev pub level_of : Clob → Side → Option ℕ → Option (ℕ × ℕ)
level_of c side none = none
level_of c side (some price) = some (price, (levels c side (index c price)).total_qty)

unfoldable pub best_bid : Clob → Option (ℕ × ℕ)
best_bid c = level_of c buy c.best_bid

unfoldable pub best_ask : Clob → Option (ℕ × ℕ)
best_ask c = level_of c sell c.best_ask

unfoldable pub quantity_at : Clob → Side → ℕ → ℕ
unfolding level
quantity_at c side price = if valid_price c price then (level c side price).total_qty else 0

unfoldable pub order_count_at : Clob → Side → ℕ → ℕ
unfolding level
order_count_at c side price = if valid_price c price then (level c side price).order_count else 0

-- The order id behind a level's head or tail.
abbrev pub id_at : Clob → ℕ → Option ℕ
id_at c idx = if idx == null_order_index then none else some (order_at c idx).order_id

unfoldable pub front_order_id : Clob → Side → ℕ → Option ℕ
unfolding level
front_order_id c side price =
    if valid_price c price then id_at c (level c side price).head_idx else none

unfoldable pub back_order_id : Clob → Side → ℕ → Option ℕ
unfolding level
back_order_id c side price =
    if valid_price c price then id_at c (level c side price).tail_idx else none

-- `best_bid_.has_value() && *best_bid_ >= incoming_price`, and its mirror.
unfoldable pub crosses : Clob → Side → ℕ → Bool
crosses c buy price = elim c.best_ask [ none ↦ false | some ask ↦ leb ask price ]
crosses c sell price = elim c.best_bid [ none ↦ false | some bid ↦ leb price bid ]

unfoldable pub append_to_level : Clob → Side → ℕ → ℕ → Clob
unfolding level set_level set_order
append_to_level c side price idx =
    let lvl = level c side price in
    let order = order_at c idx in
    if level_empty lvl
    then (let c₁ =
          set_order c idx
            (record order { prev_idx = null_order_index; next_idx = null_order_index }) in
        set_level c₁ side price (record lvl {
          head_idx = idx;
          tail_idx = idx;
          total_qty = add64 lvl.total_qty order.qty;
          order_count = add64 lvl.order_count 1;
        }))
    else (let c₁ = set_order c lvl.tail_idx (record (order_at c lvl.tail_idx) { next_idx = idx }) in
        let c₂ =
          set_order c₁ idx
            (record (order_at c₁ idx) { prev_idx = lvl.tail_idx; next_idx = null_order_index }) in
        set_level c₂ side price (record lvl {
          tail_idx = idx;
          total_qty = add64 lvl.total_qty (order_at c₂ idx).qty;
          order_count = add64 lvl.order_count 1;
        }))

unfoldable pub update_best_after_add : Clob → Side → ℕ → Clob
update_best_after_add c buy price = elim c.best_bid [
  | none ↦ record c { best_bid = some price }
  | some bid ↦ if ltb bid price then record c { best_bid = some price } else c
]
update_best_after_add c sell price = elim c.best_ask [
  | none ↦ record c { best_ask = some price }
  | some ask ↦ if ltb price ask then record c { best_ask = some price } else c
]

-- The first half of `unlink_from_level`: the predecessor, or the head, skips the order.
unfoldable pub unlink_prev : Clob → Side → ℕ → ℕ → ℕ → Clob
unfolding level set_level set_order
unlink_prev c side price prev_idx next_idx =
    if prev_idx == null_order_index
    then set_level c side price (record (level c side price) { head_idx = next_idx })
    else set_order c prev_idx (record (order_at c prev_idx) { next_idx = next_idx })

-- The second half: the successor, or the tail.
unfoldable pub unlink_next : Clob → Side → ℕ → ℕ → ℕ → Clob
unfolding level set_level set_order
unlink_next c side price prev_idx next_idx =
    if next_idx == null_order_index
    then set_level c side price (record (level c side price) { tail_idx = prev_idx })
    else set_order c next_idx (record (order_at c next_idx) { prev_idx = prev_idx })

unfoldable pub unlink_from_level : Clob → Side → ℕ → ℕ → Clob
unfolding level set_level set_order unlink_prev unlink_next
unlink_from_level c side price idx =
    let prev_idx = (order_at c idx).prev_idx in
    let next_idx = (order_at c idx).next_idx in
    let c₁ = unlink_prev c side price prev_idx next_idx in
    let c₂ = unlink_next c₁ side price prev_idx next_idx in
    let c₃ =
      set_order c₂ idx
        (record (order_at c₂ idx) { prev_idx = null_order_index; next_idx = null_order_index }) in
    let lvl = level c₃ side price in
    set_level c₃ side price (record lvl {
      total_qty = sub64 lvl.total_qty (order_at c₃ idx).qty;
      order_count = sub64 lvl.order_count 1;
    })

-- `while (price > min_price_) { --price; … }`, with the `price - min_price_` rounds that are left.
unfoldable pub scan_down : (ℕ → PriceLevel) → ℕ → ℕ → ℕ → Option ℕ
scan_down lvls min_price zero price = none
scan_down lvls min_price (suc rounds) price =
    elim (level_empty (lvls (sub64 (price - 1) min_price))) [
      | false ↦ some (price - 1)
      | true ↦ scan_down lvls min_price rounds (price - 1)
    ]

-- `while (price < max_price_) { ++price; … }`, with the `max_price_ - price` rounds that are left.
unfoldable pub scan_up : (ℕ → PriceLevel) → ℕ → ℕ → ℕ → Option ℕ
scan_up lvls min_price zero price = none
scan_up lvls min_price (suc rounds) price =
    elim (level_empty (lvls (sub64 (price + 1) min_price))) [
      | false ↦ some (price + 1)
      | true ↦ scan_up lvls min_price rounds (price + 1)
    ]

unfoldable pub refresh_best_after_empty_level : Clob → Side → ℕ → Clob
unfolding scan_down scan_up
refresh_best_after_empty_level c buy price = elim c.best_bid [
  | none ↦ c
  | some bid ↦
      if price == bid
      then record c { best_bid = scan_down c.bid_levels c.min_price (price - c.min_price) price }
      else c
]
refresh_best_after_empty_level c sell price = elim c.best_ask [
  | none ↦ c
  | some ask ↦
      if price == ask
      then record c { best_ask = scan_up c.ask_levels c.min_price (c.max_price - price) price }
      else c
]

-- Its assertion is that the order keeps some quantity.
unfoldable pub reduce_order_quantity : Clob → ℕ → ℕ → Side → ℕ → Clob
unfolding level set_level set_order
reduce_order_quantity c idx traded_qty side price =
    let order = order_at c idx in
    let c₁ = set_order c idx (record order { qty = sub64 order.qty traded_qty }) in
    let lvl = level c₁ side price in
    set_level c₁ side price (record lvl { total_qty = sub64 lvl.total_qty traded_qty })

-- The end of `add_order`, with the index allocated and the key inserted.
unfoldable pub place_order : Clob → ℕ → ℕ → Side → ℕ → ℕ → Clob
place_order c idx order_id side price qty =
    let c₁ =
      set_order c idx
        (record (order_at c idx) { order_id = order_id; price = price; qty = qty; side = side }) in
    update_best_after_add (append_to_level c₁ side price idx) side price
