-- ===== src/Types.antt =====
-- The data of src/types.hpp, src/order.hpp, src/price_level.hpp, src/execution.hpp and
-- src/order_command.hpp. A `std::uint64_t` or `std::uint32_t` is a native number.
use lowlat_matching_engine.Common.{ℕ, ◌-◌, ◌^◌, ◌==◌, Bool}

pub data Side : Type 0 where
  buy sell : Side

-- `null_order_index`, the largest `std::uint32_t`.
abbrev pub null_order_index : ℕ
null_order_index = 2 ^ 32 - 1

pub record Order : Type 0 where
  pub order_id : ℕ
  pub price : ℕ
  pub qty : ℕ
  pub next_idx : ℕ
  pub prev_idx : ℕ
  pub side : Side

abbrev pub default_order : Order
default_order = record {
  order_id = 0;
  price = 0;
  qty = 0;
  next_idx = null_order_index;
  prev_idx = null_order_index;
  side = buy;
}

pub record PriceLevel : Type 0 where
  pub head_idx : ℕ
  pub tail_idx : ℕ
  pub total_qty : ℕ
  pub order_count : ℕ

abbrev pub default_level : PriceLevel
default_level = record {
  head_idx = null_order_index;
  tail_idx = null_order_index;
  total_qty = 0;
  order_count = 0;
}

-- `PriceLevel::empty`
abbrev pub level_empty : PriceLevel → Bool
level_empty lvl = lvl.order_count == 0

pub record Execution : Type 0 where
  pub incoming_order_id : ℕ
  pub resting_order_id : ℕ
  pub price : ℕ
  pub qty : ℕ

pub data CommandType : Type 0 where
  add_limit cancel : CommandType

pub record OrderCommand : Type 0 where
  pub order_id : ℕ
  pub price : ℕ
  pub qty : ℕ
  pub type : CommandType
  pub side : Side
