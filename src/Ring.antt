-- ===== src/Ring.antt =====
-- src/spsc_ring.hpp: the single-producer single-consumer ring. `capacity` is the template
-- parameter; `head` and `tail` are counters that wrap at 2 ^ 64 and are masked at each access.
pub mod Slice
pub mod Calls
pub mod Batches
pub mod Outcomes
pub mod Atomic
use Prim.Native.Nat.{bit_and}
use lowlat_matching_engine.Common.{
  ℕ, zero, suc, ◌+◌, ◌-◌, ◌==◌, if◌then◌else◌, leb, Bool, true, false, Option, none, some, update,
  add64, sub64, min,
}

pub record Ring (A : Type 0) : Type 0 where
  pub cells : ℕ → A
  pub head : ℕ
  pub tail : ℕ

-- The constructor: value-initialised cells, counters at 0.
unfoldable pub new : {A : Type 0} → A → Ring A
new initial = record { cells = λ _. initial; head = 0; tail = 0 }

module _ (capacity : ℕ) where
  -- `i & (Capacity - 1)`
  unfoldable pub masked : ℕ → ℕ
  masked i = bit_and i (capacity - 1)

  module _ {A : Type 0} where
    unfoldable pub push : Ring A → A → Bool × Ring A
    push r x =
        if leb capacity (sub64 r.head r.tail)
        then (false, r)
        else (true, record r { cells = update r.cells (masked r.head) x; head = add64 r.head 1 })

    -- The option is what goes through the reference `x`.
    unfoldable pub pop : Ring A → Option A × Ring A
    pop r =
        if r.head == r.tail
        then (none, r)
        else (some (r.cells (masked r.tail)), record r { tail = add64 r.tail 1 })

    -- `data_[(head + i) & mask()] = in[i]`, with the rounds that are left.
    unfoldable pub write_many : ℕ → ℕ → ℕ → (ℕ → A) → (ℕ → A) → ℕ → A
    write_many zero i head input cells = cells
    write_many (suc n) i head input cells =
        write_many n (i + 1) head input (update cells (masked (add64 head i)) (input i))

    -- `out[i] = data_[(tail + i) & mask()]`, with the rounds that are left.
    unfoldable pub read_many : ℕ → ℕ → ℕ → (ℕ → A) → (ℕ → A) → ℕ → A
    read_many zero i tail cells out = out
    read_many (suc n) i tail cells out =
        read_many n (i + 1) tail cells (update out i (cells (masked (add64 tail i))))

    unfoldable pub push_many : Ring A → (ℕ → A) → ℕ → ℕ × Ring A
    unfolding write_many
    push_many r input max_count =
        let used = sub64 r.head r.tail in
        let count = min (sub64 capacity used) max_count in
        if count == 0 then (0, r) else (
          count,
          record r { cells = write_many count 0 r.head input r.cells; head = add64 r.head count },
        )

    unfoldable pub pop_many : Ring A → (ℕ → A) → ℕ → ℕ × (ℕ → A) × Ring A
    unfolding read_many
    pop_many r out max_count =
        let count = min (sub64 r.head r.tail) max_count in
        if count == 0
        then (0, out, r)
        else (count, read_many count 0 r.tail r.cells out, record r { tail = add64 r.tail count })
