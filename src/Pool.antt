-- ===== src/Pool.antt =====
-- src/order_pool.hpp: the preallocated orders and the stack of free indices. `max_orders` is the
-- template parameter.
pub mod Laws
use lowlat_matching_engine.Common.{
  ℕ, zero, suc, ◌+◌, ◌-◌, ◌%◌, ◌^◌, ◌==◌, if◌then◌else◌, Bool, Option, none, some, update, add64,
  sub64,
}
use lowlat_matching_engine.Types.{Order, default_order}

pub record Pool : Type 0 where
  pub orders : ℕ → Order
  pub free_stack : ℕ → ℕ
  pub top : ℕ

-- `for (OrderIndex i = …; i < MaxOrders; ++i) free_stack_[i] = i`, with the rounds that are left.
-- `++i` is on 32 bits.
fill : ℕ → ℕ → (ℕ → ℕ) → ℕ → ℕ
fill zero i stack = stack
fill (suc rounds) i stack = fill rounds ((i + 1) % 2 ^ 32) (update stack i i)

unfoldable pub allocate : Pool → Option ℕ × Pool
allocate p =
    if p.top == 0
    then (none, p)
    else (some (p.free_stack (p.top - 1)), record p { top = p.top - 1 })

-- Its assertions are `idx < MaxOrders` and `top_ < MaxOrders`.
unfoldable pub release : Pool → ℕ → Pool
release p idx = record p { free_stack = update p.free_stack p.top idx; top = add64 p.top 1 }

-- `get`, as a read and as a write through the reference. Its assertion is `idx < MaxOrders`.
abbrev pub get : Pool → ℕ → Order
get p idx = p.orders idx

abbrev pub put : Pool → ℕ → Order → Pool
put p idx order = record p { orders = update p.orders idx order }

unfoldable pub available : Pool → ℕ
available p = p.top

pub full : Pool → Bool
full p = p.top == 0

module _ (max_orders : ℕ) where
  unfoldable pub new : Pool
  unfolding fill
  new = record {
    orders = λ _. default_order;
    free_stack = fill max_orders 0 (λ _. 0);
    top = max_orders;
  }

  pub capacity : ℕ
  capacity = max_orders

  unfoldable pub used : Pool → ℕ
  used p = sub64 max_orders p.top

  unfoldable pub empty : Pool → Bool
  empty p = p.top == max_orders
