-- ===== src/Index.antt =====
-- src/order_index.hpp: the open-addressing table from order ids to pool indices.
pub mod Probing
pub mod Search
pub mod Taken
pub mod Probe
pub mod Write
pub mod Insert
pub mod Erase
use Prim.Native.Nat.{bit_and, bit_xor}
use lowlat_matching_engine.Common.{
  ℕ, zero, suc, ◌≢◌, ◌+◌, ◌-◌, ◌*◌, ◌/◌, ◌%◌, ◌^◌, ◌==◌, if◌then◌else◌, Bool, true, false, Option,
  none, some, update, add64, sub64, mul64,
}

-- `FastOrderIdHash`
unfoldable pub fast_hash : ℕ → ℕ
fast_hash x = bit_xor x (x / 2 ^ 32)

-- `RobustOrderIdHash`
unfoldable pub robust_hash : ℕ → ℕ
robust_hash x =
    let x₁ = bit_xor x (x / 2 ^ 33) in
    let x₂ = mul64 x₁ 0xff51afd7ed558ccd in
    let x₃ = bit_xor x₂ (x₂ / 2 ^ 33) in
    let x₄ = mul64 x₃ 0xc4ceb9fe1a85ec53 in bit_xor x₄ (x₄ / 2 ^ 33)

-- `assert(order_id != 0)`, the condition under which `insert`, `find` and `erase` may be called. It
-- is a precondition: what these functions give at 0 stands for no run of the code.
abbrev pub IsId : ℕ → Type 0
IsId order_id = order_id ≢ 0

pub data State : Type 0 where
  free occupied deleted : State

pub record Table : Type 0 where
  pub keys : ℕ → ℕ
  pub values : ℕ → ℕ
  pub states : ℕ → State
  pub size : ℕ

-- What the probe loop of `insert` ends with: the key is there, or `first_deleted`.
pub data Slot : Type 0 where
  duplicate : Slot
  vacant : ℕ → Slot

unfoldable pub clear : Table → Table
clear t = record t { states = λ _. free; size = 0 }

unfoldable pub size : Table → ℕ
size t = t.size

unfoldable pub empty : Table → Bool
empty t = t.size == 0

-- `capacity` and `hash` are the template parameters.
module _ (capacity : ℕ) (hash : ℕ → ℕ) where
  -- `h & mask()`
  unfoldable pub wrap : ℕ → ℕ
  wrap h = bit_and h (capacity - 1)

  -- the position that a probe starts at
  unfoldable pub home : ℕ → ℕ
  home order_id = wrap (hash order_id)

  -- `pos = (pos + 1) & mask()`
  unfoldable pub next : ℕ → ℕ
  next pos = wrap (add64 pos 1)

  -- `if (first_deleted == Capacity) first_deleted = pos;`
  unfoldable pub remember : ℕ → ℕ → ℕ
  remember first_deleted pos = if first_deleted == capacity then pos else first_deleted

  -- The loop of `insert`, with the steps that are left.
  unfoldable pub probe : Table → ℕ → ℕ → ℕ → ℕ → Slot
  unfolding next remember
  probe t order_id zero pos first_deleted = vacant first_deleted
  probe t order_id (suc steps) pos first_deleted = elim (t.states pos) [
    | free ↦ vacant (remember first_deleted pos)
    | deleted ↦ probe t order_id steps (next pos) (remember first_deleted pos)
    | occupied ↦ elim (t.keys pos == order_id) [
      | true ↦ duplicate
      | false ↦ probe t order_id steps (next pos) first_deleted
    ]
  ]

  -- What `insert` does after its loop.
  unfoldable pub place : Table → ℕ → ℕ → Slot → Bool × Table
  place t order_id idx duplicate = (false, t)
  place t order_id idx (vacant first_deleted) = if first_deleted == capacity then (false, t) else (
    true,
    record t {
      keys = update t.keys first_deleted order_id;
      values = update t.values first_deleted idx;
      states = update t.states first_deleted occupied;
      size = add64 t.size 1;
    },
  )

  -- Its assertion is `IsId order_id`.
  unfoldable pub insert : Table → ℕ → ℕ → Bool × Table
  unfolding probe place home
  insert t order_id idx = place t order_id idx (probe t order_id capacity (home order_id) capacity)

  -- The loop of `find` and `erase`, with the steps that are left: the position of the key.
  unfoldable pub locate : Table → ℕ → ℕ → ℕ → Option ℕ
  unfolding next
  locate t order_id zero pos = none
  locate t order_id (suc steps) pos = elim (t.states pos) [
    | free ↦ none
    | deleted ↦ locate t order_id steps (next pos)
    | occupied ↦ elim (t.keys pos == order_id) [
      | true ↦ some pos
      | false ↦ locate t order_id steps (next pos)
    ]
  ]

  -- Its assertion is `IsId order_id`; `contains` and the book's `submit_limit_order` and
  -- `cancel_order`, which call it, inherit it.
  unfoldable pub find : Table → ℕ → Option ℕ
  unfolding locate home
  find t order_id = elim (locate t order_id capacity (home order_id)) [
    | none ↦ none
    | some pos ↦ some (t.values pos)
  ]

  -- Its assertion is `IsId order_id`.
  unfoldable pub erase : Table → ℕ → Bool × Table
  unfolding locate home
  erase t order_id = elim (locate t order_id capacity (home order_id)) [
    | none ↦ (false, t)
    | some pos ↦ (true, record t { states = update t.states pos deleted; size = sub64 t.size 1 })
  ]

  unfoldable pub contains : Table → ℕ → Bool
  unfolding find
  contains t order_id = elim (find t order_id) [ none ↦ false | some _ ↦ true ]

  unfoldable pub full : Table → Bool
  full t = t.size == capacity

  -- The constructor. `make_unique_for_overwrite` leaves keys and values unspecified.
  unfoldable pub new : (keys values : ℕ → ℕ) → Table
  unfolding clear
  new keys values = clear (record { keys = keys; values = values; states = λ _. free; size = 0 })
