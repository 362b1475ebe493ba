-- ===== src/CachedRing/Atomic.antt =====
-- `push` and `pop` of src/spsc_ring_cached.hpp, an access to shared memory at a time. A load of the
-- other thread's counter may return an older value, but none older than the copy it replaces.
pub mod Order
use lowlat_matching_engine.Common.{ℕ, ◌≤◌, ◌<◌, ◌≡◌, ◌≢◌, List, [], ◌∷◌, ◌++◌, update, add64, sub64}
use lowlat_matching_engine.Ring.{masked}
use lowlat_matching_engine.Ring.Atomic.{Visible}
use lowlat_matching_engine.CachedRing
use lowlat_matching_engine.CachedRing.{CachedRing}

-- Where `push` stands, with the local variables that are live there.
pub data CachedPushing : Type 0 where
  push_idle : CachedPushing
  push_refresh : (head : ℕ) → CachedPushing  -- the copy leaves no room
  push_ready : (head : ℕ) → CachedPushing  -- the copy leaves room
  push_written : (head : ℕ) → CachedPushing  -- the cell is written

-- Where `pop` stands.
pub data CachedPopping (A : Type 0) : Type 0 where
  pop_idle : CachedPopping A
  pop_refresh : (tail : ℕ) → CachedPopping A  -- the copy shows no element
  pop_ready : (tail : ℕ) → CachedPopping A  -- the copy shows one
  pop_read : (tail : ℕ) (x : A) → CachedPopping A  -- the cell is read

-- The ring with both copies, where both threads stand, what is still to be pushed and what was
-- popped.
pub record CachedSystem (A : Type 0) : Type 0 where
  pub ring : CachedRing A
  pub pushing : CachedPushing
  pub popping : CachedPopping A
  pub to_push : List A
  pub popped : List A

module _ (capacity : ℕ) {A : Type 0} where
  -- One access of one thread, with the local computation that follows it.
  pub data CachedStep (s : CachedSystem A) : CachedSystem A → Type 0 where
    head_with_room :
        (x : A) (rest : List A)
        → s.pushing ≡ push_idle
        → s.to_push ≡ x ∷ rest
        → sub64 s.ring.head s.ring.cached_tail < capacity
        → CachedStep s (record s { pushing = push_ready s.ring.head })
    head_without_room :
        (x : A) (rest : List A)
        → s.pushing ≡ push_idle
        → s.to_push ≡ x ∷ rest
        → capacity ≤ sub64 s.ring.head s.ring.cached_tail
        → CachedStep s (record s { pushing = push_refresh s.ring.head })
    tail_with_room :
        (head tail : ℕ)
        → s.pushing ≡ push_refresh head
        → Visible s.ring.cached_tail s.ring.tail tail
        → sub64 head tail < capacity
        → CachedStep s
            (record s { ring = record s.ring { cached_tail = tail }; pushing = push_ready head })
    tail_without_room :
        (head tail : ℕ)
        → s.pushing ≡ push_refresh head
        → Visible s.ring.cached_tail s.ring.tail tail
        → capacity ≤ sub64 head tail
        → CachedStep s
            (record s { ring = record s.ring { cached_tail = tail }; pushing = push_idle })
    write_cell :
        (head : ℕ) (x : A) (rest : List A)
        → s.pushing ≡ push_ready head
        → s.to_push ≡ x ∷ rest
        → CachedStep s (record s {
          ring = record s.ring { cells = update s.ring.cells (masked capacity head) x };
          pushing = push_written head;
        })
    write_head :
        (head : ℕ) (x : A) (rest : List A)
        → s.pushing ≡ push_written head
        → s.to_push ≡ x ∷ rest
        → CachedStep s (record s {
          ring = record s.ring { head = add64 head 1 };
          pushing = push_idle;
          to_push = rest;
        })
    tail_with_element :
        s.popping ≡ pop_idle
        → s.ring.cached_head ≢ s.ring.tail
        → CachedStep s (record s { popping = pop_ready s.ring.tail })
    tail_without_element :
        s.popping ≡ pop_idle
        → s.ring.cached_head ≡ s.ring.tail
        → CachedStep s (record s { popping = pop_refresh s.ring.tail })
    head_with_element :
        (tail head : ℕ)
        → s.popping ≡ pop_refresh tail
        → Visible s.ring.cached_head s.ring.head head
        → head ≢ tail
        → CachedStep s
            (record s { ring = record s.ring { cached_head = head }; popping = pop_ready tail })
    head_without_element :
        (tail head : ℕ)
        → s.popping ≡ pop_refresh tail
        → Visible s.ring.cached_head s.ring.head head
        → head ≡ tail
        → CachedStep s
            (record s { ring = record s.ring { cached_head = head }; popping = pop_idle })
    read_cell :
        (tail : ℕ)
        → s.popping ≡ pop_ready tail
        → CachedStep s (record s { popping = pop_read tail (s.ring.cells (masked capacity tail)) })
    write_tail :
        (tail : ℕ) (x : A)
        → s.popping ≡ pop_read tail x
        → CachedStep s (record s {
          ring = record s.ring { tail = add64 tail 1 };
          popping = pop_idle;
          popped = s.popped ++ x ∷ [];
        })

  -- Both threads start on a new ring, in which every cell holds `initial`.
  abbrev pub cached_init : A → List A → CachedSystem A
  cached_init initial items = record {
    ring = record { cells = λ _. initial; head = 0; cached_tail = 0; tail = 0; cached_head = 0 };
    pushing = push_idle;
    popping = pop_idle;
    to_push = items;
    popped = [];
  }

  pub data Run (initial : A) (items : List A) : CachedSystem A → Type 0 where
    start : Run initial items (cached_init initial items)
    after : {s t : CachedSystem A} → Run initial items s → CachedStep s t → Run initial items t
