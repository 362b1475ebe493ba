-- ===== src/Clob.antt =====
-- src/fixed_clob.hpp: the order book. A reference to a level is its side and price, and a
-- reference to an order is its pool index, so that two references to one object stay one object.
pub mod Levels
pub mod Queues
pub mod Links
pub mod Effects
pub mod Invariant
pub mod Best
pub mod Refresh
pub mod Place
pub mod Add
pub mod Middle
pub mod Remove
pub mod Removal
pub mod View
pub mod Requests
pub mod Cancel
pub mod Reduce
pub mod Consume
pub mod MatchSteps
pub mod LevelSteps
pub mod MatchLevel
pub mod Trades
pub mod Crossing
pub mod MatchOrder
pub mod Submit
pub mod Create
pub mod Apart
pub mod Session
pub mod Queries
pub mod Sums
pub mod Conserve
pub mod Waiting
pub mod Count
unfoldable pub use Levels.*
use lowlat_matching_engine.Common.{
  ℕ, zero, suc, ◌+◌, ◌-◌, ◌*◌, ◌==◌, if◌then◌else◌, ltb, leb, ◌&&◌, ◌||◌, not, Bool, true, false,
  Option, none, some, update, add64, sub64,
}
use lowlat_matching_engine.Types.{
  Side, buy, sell, null_order_index, Order, PriceLevel, default_level, level_empty,
}
use lowlat_matching_engine.Pool
use lowlat_matching_engine.Pool.{Pool}
use lowlat_matching_engine.Index
use lowlat_matching_engine.Index.{Table}
use lowlat_matching_engine.Sink.{Sink}

-- The state of the matching loops: the book, `incoming_qty` and the sink.
pub record Matching (S : Type 0) : Type 0 where
  pub book : Clob
  pub incoming_qty : ℕ
  pub executions : S

-- What a submission returns and leaves behind.
pub record Outcome (S : Type 0) : Type 0 where
  pub accepted : Bool
  pub book : Clob
  pub executions : S

module _ (max_orders : ℕ) (hash : ℕ → ℕ) where
  -- `2 * MaxOrders`
  abbrev pub slots : ℕ
  slots = 2 * max_orders

  -- The constructor. A vector of levels is a function from its positions, the first `range_size` of
  -- them the vector's; the invariant of the book excludes the range of all 2^64 prices, for which
  -- `range_size` wraps to 0.
  unfoldable pub new : (keys values : ℕ → ℕ) → ℕ → ℕ → Clob
  new keys values min_price max_price = record {
    min_price = min_price;
    max_price = max_price;
    pool = Pool.new max_orders;
    bid_levels = λ _. default_level;
    ask_levels = λ _. default_level;
    order_lookup = Index.new slots hash keys values;
    best_bid = none;
    best_ask = none;
  }

  unfoldable pub active_orders : Clob → ℕ
  active_orders c = Pool.used max_orders c.pool

  unfoldable pub available_slots : Clob → ℕ
  available_slots c = Pool.available c.pool

  unfoldable pub empty : Clob → Bool
  empty c = Pool.empty max_orders c.pool

  unfoldable pub add_order : Clob → ℕ → Side → ℕ → ℕ → Bool × Clob
  add_order c order_id side price qty =
      if qty == 0 || not (valid_price c price)
      then (false, c)
      else (let (maybe_idx, pool) = Pool.allocate c.pool in
          elim maybe_idx [
            | none ↦ (false, record c { pool = pool })
            | some idx ↦
                let (inserted, table) = Index.insert slots hash c.order_lookup order_id idx in
                if inserted
                then (
                  true,
                  place_order (record c { pool = pool; order_lookup = table }) idx order_id side
                      price qty,
                )
                else (false, record c { pool = Pool.release pool idx; order_lookup = table })
          ])

  unfoldable pub remove_order_by_index : Clob → ℕ → Clob
  remove_order_by_index c idx =
      let side = (order_at c idx).side in
      let price = (order_at c idx).price in
      let c₁ = unlink_from_level c side price idx in
      let (_, table) = Index.erase slots hash c₁.order_lookup (order_at c₁ idx).order_id in
      let c₂ = record c₁ { order_lookup = table; pool = Pool.release c₁.pool idx } in
      if level_empty (level c₂ side price) then refresh_best_after_empty_level c₂ side price else c₂

  -- Its look-up asserts `Index.IsId order_id`.
  unfoldable pub cancel_order : Clob → ℕ → Bool × Clob
  cancel_order c order_id = elim (Index.find slots hash c.order_lookup order_id) [
    | none ↦ (false, c)
    | some idx ↦ (true, remove_order_by_index c idx)
  ]

  module _ {S : Type 0} (sink : Sink S) where
    -- `match_at_level` on the level at `side` and `price`. `none`: the fuel ran out.
    unfoldable pub match_at_level : ℕ → Side → ℕ → ℕ → Matching S → Option (Matching S)
    match_at_level zero side price incoming_order_id m = none
    match_at_level (suc fuel) side price incoming_order_id m =
        let lvl = level m.book side price in
        let resting_order = order_at m.book lvl.head_idx in
        elim (ltb 0 m.incoming_qty && ltb 0 lvl.order_count) [
          | false ↦ some m
          | true ↦ elim (ltb m.incoming_qty resting_order.qty) [
            | true ↦ some (record {
              book = reduce_order_quantity m.book lvl.head_idx m.incoming_qty side price;
              incoming_qty = 0;
              executions = sink.emplace_back m.executions (record {
                incoming_order_id = incoming_order_id;
                resting_order_id = resting_order.order_id;
                price = resting_order.price;
                qty = m.incoming_qty;
              });
            })
            | false ↦ match_at_level fuel side price incoming_order_id (record {
              book = remove_order_by_index m.book lvl.head_idx;
              incoming_qty = sub64 m.incoming_qty resting_order.qty;
              executions = sink.emplace_back m.executions (record {
                incoming_order_id = incoming_order_id;
                resting_order_id = resting_order.order_id;
                price = resting_order.price;
                qty = resting_order.qty;
              });
            })
          ]
        ]

    -- `match_order`. Where it crosses, the best opposite price is there.
    unfoldable pub match_order : ℕ → ℕ → Side → ℕ → Matching S → Option (Matching S)
    match_order zero incoming_order_id side price m = none
    match_order (suc fuel) incoming_order_id side price m =
        elim (ltb 0 m.incoming_qty && crosses m.book side price) [
          | false ↦ some m
          | true ↦ elim (best m.book (opposite side)) [
            | none ↦ none
            | some level_price ↦
                elim (match_at_level (max_orders + 1) (opposite side) level_price incoming_order_id
                  m) [ none ↦ none | some m' ↦ match_order fuel incoming_order_id side price m' ]
          ]
        ]

    -- Its look-up, behind the first test, asserts `Index.IsId order_id`.
    unfoldable pub submit_limit_order : Clob → ℕ → Side → ℕ → ℕ → S → Option (Outcome S)
    submit_limit_order c order_id side price qty executions =
        if qty == 0 || not (valid_price c price)
        then some (record { accepted = false; book = c; executions = executions })
        else if Index.contains slots hash c.order_lookup order_id
        then some (record { accepted = false; book = c; executions = executions })
        else elim (match_order (max_orders + 1) order_id side price
            (record { book = c; incoming_qty = qty; executions = executions })) [
              | none ↦ none
              | some m ↦
                  if m.incoming_qty == 0
                  then some (record { accepted = true; book = m.book; executions = m.executions })
                  else (let (accepted, book) =
                        add_order m.book order_id side price m.incoming_qty in
                      some (record { accepted = accepted; book = book; executions = m.executions }))
            ]
