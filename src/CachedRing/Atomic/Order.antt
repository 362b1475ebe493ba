-- ===== src/CachedRing/Atomic/Order.antt =====
-- Every step of the threads of src/spsc_ring_cached.hpp is one or two of those of src/spsc_ring.hpp: to
-- go by the copy is to load the value that was loaded last.
use mathlib.Core.Path.{subst}
use lowlat_matching_engine.Common.{ℕ, ◌^◌, ◌<◌, ◌≡◌, ◌≢◌, refl, ap, arith, List, ◌++◌, sub64}
use lowlat_matching_engine.Ring.{masked}
use lowlat_matching_engine.Ring.Slice.{IsRingCapacity}
use lowlat_matching_engine.Ring.Calls.{contents, IsRing}
use lowlat_matching_engine.Ring.Atomic.{
  Pushing, push_start, push_head, push_tail, push_stored, Popping, pop_start, pop_tail, pop_head,
  pop_copied, System, Visible, load_own_head, load_tail, full, store_cell, store_head,
  load_own_tail, load_head, empty, load_cell, store_tail, Reach, begin, later,
}
use lowlat_matching_engine.Ring.Atomic.Holds.{Inv}
use lowlat_matching_engine.Ring.Atomic.Order.{Inv-Reach, Reach-in_order, Reach-no_race}
use lowlat_matching_engine.CachedRing.Atomic.{
  CachedPushing, push_idle, push_refresh, push_ready, push_written, CachedPopping, pop_idle,
  pop_refresh, pop_ready, pop_read, CachedSystem, CachedStep, head_with_room, head_without_room,
  tail_with_room, tail_without_room, write_cell, write_head, tail_with_element,
  tail_without_element, head_with_element, head_without_element, read_cell, write_tail, Run, start,
  after,
}

-- Where the other ring's `push` stands, which has loaded the copy.
abbrev pub pushing_of : ℕ → CachedPushing → Pushing
pushing_of cached_tail push_idle = push_start
pushing_of cached_tail (push_refresh head) = push_head head
pushing_of cached_tail (push_ready head) = push_tail head cached_tail
pushing_of cached_tail (push_written head) = push_stored head

abbrev pub popping_of : {A : Type 0} → ℕ → CachedPopping A → Popping A
popping_of cached_head pop_idle = pop_start
popping_of cached_head (pop_refresh tail) = pop_tail tail
popping_of cached_head (pop_ready tail) = pop_head tail cached_head
popping_of cached_head (pop_read tail x) = pop_copied tail x

-- The same state of the ring without copies.
abbrev pub system_of : {A : Type 0} → CachedSystem A → System A
system_of s = record {
  ring = record { cells = s.ring.cells; head = s.ring.head; tail = s.ring.tail };
  pushing = pushing_of s.ring.cached_tail s.pushing;
  popping = popping_of s.ring.cached_head s.popping;
  seen_tail = s.ring.cached_tail;
  seen_head = s.ring.cached_head;
  to_push = s.to_push;
  popped = s.popped;
}

-- What was found out and needs no second look.
abbrev IsSafePush : ℕ → ℕ → CachedPushing → Type 0
IsSafePush capacity cached_tail (push_ready head) = sub64 head cached_tail < capacity
IsSafePush capacity cached_tail push_idle = Unit
IsSafePush capacity cached_tail (push_refresh head) = Unit
IsSafePush capacity cached_tail (push_written head) = Unit

abbrev IsSafePop : {A : Type 0} → ℕ → CachedPopping A → Type 0
IsSafePop cached_head (pop_ready tail) = cached_head ≢ tail
IsSafePop cached_head pop_idle = Unit
IsSafePop cached_head (pop_refresh tail) = Unit
IsSafePop cached_head (pop_read tail x) = Unit

-- The value loaded last may be loaded again.
again : (seen current : ℕ) → seen < 2 ^ 64 → Visible seen current seen
again seen current word = (word, omega (arith, word))

module _ (capacity : ℕ) (cap : IsRingCapacity capacity) {A : Type 0} where
  pub record Simulated (initial : A) (items : List A) (s : CachedSystem A) : Type 0 where
    pub reached : Reach capacity initial items (system_of s)
    pub safe_push : IsSafePush capacity s.ring.cached_tail s.pushing
    pub safe_pop : IsSafePop s.ring.cached_head s.popping

  module _ {initial : A} {items : List A} {s : CachedSystem A} (i : Simulated initial items s) where
    inv : Inv capacity cap items (system_of s)
    inv = Inv-Reach capacity cap i.reached

    Simulated-CachedStep :
        {t : CachedSystem A} → CachedStep capacity s t → Simulated initial items t
    Simulated-CachedStep (head_with_room x rest at left room) = record {
      reached =
          later
            (later i.reached (load_own_head x rest (ap (pushing_of s.ring.cached_tail) at) left))
            (load_tail s.ring.head s.ring.cached_tail refl
              (again s.ring.cached_tail s.ring.tail (inv.seen_tail_word)));
      safe_push = room;
      safe_pop = i.safe_pop;
    }
    Simulated-CachedStep (head_without_room x rest at left none_free) = record {
      reached = later i.reached (load_own_head x rest (ap (pushing_of s.ring.cached_tail) at) left);
      safe_push = tt;
      safe_pop = i.safe_pop;
    }
    Simulated-CachedStep (tail_with_room head tail at seen room) = record {
      reached = later i.reached (load_tail head tail (ap (pushing_of s.ring.cached_tail) at) seen);
      safe_push = room;
      safe_pop = i.safe_pop;
    }
    Simulated-CachedStep (tail_without_room head tail at seen none_free) = record {
      reached =
          later (later i.reached (load_tail head tail (ap (pushing_of s.ring.cached_tail) at) seen))
            (full head tail refl none_free);
      safe_push = tt;
      safe_pop = i.safe_pop;
    }
    Simulated-CachedStep (write_cell head x rest at left) = record {
      reached = later i.reached (
          store_cell head s.ring.cached_tail x rest (ap (pushing_of s.ring.cached_tail) at)
            (subst (IsSafePush capacity s.ring.cached_tail) at i.safe_push) left);
      safe_push = tt;
      safe_pop = i.safe_pop;
    }
    Simulated-CachedStep (write_head head x rest at left) = record {
      reached =
          later i.reached (store_head head x rest (ap (pushing_of s.ring.cached_tail) at) left);
      safe_push = tt;
      safe_pop = i.safe_pop;
    }
    Simulated-CachedStep (tail_with_element at there) = record {
      reached = later (later i.reached (load_own_tail (ap (popping_of s.ring.cached_head) at))) (
          load_head s.ring.tail s.ring.cached_head refl
            (again s.ring.cached_head s.ring.head (inv.seen_head_word)));
      safe_push = i.safe_push;
      safe_pop = there;
    }
    Simulated-CachedStep (tail_without_element at none_there) = record {
      reached = later i.reached (load_own_tail (ap (popping_of s.ring.cached_head) at));
      safe_push = i.safe_push;
      safe_pop = tt;
    }
    Simulated-CachedStep (head_with_element tail head at seen there) = record {
      reached = later i.reached (load_head tail head (ap (popping_of s.ring.cached_head) at) seen);
      safe_push = i.safe_push;
      safe_pop = there;
    }
    Simulated-CachedStep (head_without_element tail head at seen none_there) = record {
      reached =
          later (later i.reached (load_head tail head (ap (popping_of s.ring.cached_head) at) seen))
            (empty tail head refl none_there);
      safe_push = i.safe_push;
      safe_pop = tt;
    }
    Simulated-CachedStep (read_cell tail at) = record {
      reached = later i.reached (
          load_cell tail s.ring.cached_head (ap (popping_of s.ring.cached_head) at)
            (subst (IsSafePop s.ring.cached_head) at i.safe_pop));
      safe_push = i.safe_push;
      safe_pop = tt;
    }
    Simulated-CachedStep (write_tail tail x at) = record {
      reached = later i.reached (store_tail tail x (ap (popping_of s.ring.cached_head) at));
      safe_push = i.safe_push;
      safe_pop = tt;
    }

  pub Run-Simulated :
      {initial : A} {items : List A} {s : CachedSystem A}
      → Run capacity initial items s
      → Simulated initial items s
  Run-Simulated start = record { reached = begin; safe_push = tt; safe_pop = tt }
  Run-Simulated (after r step) = Simulated-CachedStep (Run-Simulated r) step

  -- In every state that the two threads of the ring with cached counters reach from a new ring, an
  -- access to shared memory at a time and with loads that may return older values of the other
  -- thread's counter, the ring is valid, and the items are those popped, then those in the ring,
  -- then those not pushed, in order.
  pub Run-in_order :
      {initial : A} {items : List A} {s : CachedSystem A}
      → Run capacity initial items s
      → IsRing capacity cap (system_of s).ring
        × (items ≡ s.popped ++ (contents capacity cap (system_of s).ring ++ s.to_push))
  Run-in_order r = Reach-in_order capacity cap (Run-Simulated r).reached

  -- In every state that the two threads of the ring with cached counters reach, where the producer
  -- is about to write a cell and the consumer about to read one, the two cells differ.
  pub Run-no_race :
      {initial : A} {items : List A} {s : CachedSystem A}
      → Run capacity initial items s
      → (head tail : ℕ) → s.pushing ≡ push_ready head
      → s.popping ≡ pop_ready tail
      → masked capacity head ≢ masked capacity tail
  Run-no_race {s = s} r head tail at at' =
      let i = Run-Simulated r in
      Reach-no_race capacity cap i.reached head s.ring.cached_tail tail s.ring.cached_head
        (ap (pushing_of s.ring.cached_tail) at)
        (subst (IsSafePush capacity s.ring.cached_tail) at i.safe_push)
        (ap (popping_of s.ring.cached_head) at')
        (subst (IsSafePop s.ring.cached_head) at' i.safe_pop)
