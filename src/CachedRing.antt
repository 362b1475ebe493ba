-- ===== src/CachedRing.antt =====
-- src/spsc_ring_cached.hpp: the ring in which each side keeps a copy of the other side's counter and
-- reads the counter itself only where the copy says that it cannot go on.
pub mod Refine
pub mod Batches
pub mod Atomic
use lowlat_matching_engine.Common.{
  ℕ, ◌-◌, ◌^◌, ◌==◌, if◌then◌else◌, leb, Bool, true, false, Option, none, some, update, add64,
  sub64, min,
}
use lowlat_matching_engine.Ring.{masked, write_many, read_many}

pub record CachedRing (A : Type 0) : Type 0 where
  pub cells : ℕ → A
  -- `ProducerState`
  pub head : ℕ
  pub cached_tail : ℕ
  -- `ConsumerState`
  pub tail : ℕ
  pub cached_head : ℕ

-- The constructor: value-initialised cells, counters and copies at 0.
unfoldable pub new : {A : Type 0} → A → CachedRing A
new initial = record { cells = λ _. initial; head = 0; cached_tail = 0; tail = 0; cached_head = 0 }

module _ (capacity : ℕ) {A : Type 0} where
  -- The end of `push`, where there is room.
  unfoldable pub put : CachedRing A → A → Bool × CachedRing A
  put r x =
      (true, record r { cells = update r.cells (masked capacity r.head) x; head = add64 r.head 1 })

  unfoldable pub push : CachedRing A → A → Bool × CachedRing A
  push r x =
      if leb capacity (sub64 r.head r.cached_tail)
      then (let r₁ = record r { cached_tail = r.tail } in
          if leb capacity (sub64 r₁.head r₁.cached_tail) then (false, r₁) else put r₁ x)
      else put r x

  -- The end of `pop`, where there is an element.
  unfoldable pub take : CachedRing A → Option A × CachedRing A
  take r = (some (r.cells (masked capacity r.tail)), record r { tail = add64 r.tail 1 })

  -- The option is what goes through the reference `x`.
  unfoldable pub pop : CachedRing A → Option A × CachedRing A
  pop r =
      if r.cached_head == r.tail
      then (let r₁ = record r { cached_head = r.head } in
          if r₁.cached_head == r₁.tail then (none, r₁) else take r₁)
      else take r

  -- The end of `push_many`, with `used` slots used.
  unfoldable pub put_many : CachedRing A → ℕ → (ℕ → A) → ℕ → ℕ × CachedRing A
  put_many r used input max_count =
      let count = min (sub64 capacity used) max_count in
      if count == 0 then (0, r) else (
        count,
        record r {
          cells = write_many capacity count 0 r.head input r.cells;
          head = add64 r.head count;
        },
      )

  unfoldable pub push_many : CachedRing A → (ℕ → A) → ℕ → ℕ × CachedRing A
  push_many r input max_count =
      if leb capacity (sub64 r.head r.cached_tail)
      then (let r₁ = record r { cached_tail = r.tail } in
          if leb capacity (sub64 r₁.head r₁.cached_tail)
          then (0, r₁)
          else put_many r₁ (sub64 r₁.head r₁.cached_tail) input max_count)
      else put_many r (sub64 r.head r.cached_tail) input max_count

  -- The end of `pop_many`.
  unfoldable pub take_many : CachedRing A → (ℕ → A) → ℕ → ℕ × (ℕ → A) × CachedRing A
  take_many r out max_count =
      let count = min (sub64 r.cached_head r.tail) max_count in
      if count == 0 then (0, out, r) else (
        count,
        read_many capacity count 0 r.tail r.cells out,
        record r { tail = add64 r.tail count },
      )

  unfoldable pub pop_many : CachedRing A → (ℕ → A) → ℕ → ℕ × (ℕ → A) × CachedRing A
  pop_many r out max_count =
      if r.cached_head == r.tail
      then (let r₁ = record r { cached_head = r.head } in
          if r₁.cached_head == r₁.tail then (0, out, r₁) else take_many r₁ out max_count)
      else take_many r out max_count
