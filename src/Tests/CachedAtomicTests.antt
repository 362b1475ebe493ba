-- ===== src/Tests/CachedAtomicTests.antt =====
-- Both threads of src/spsc_ring_cached.hpp in the middle of a call, on a ring of two cells.
use lowlat_matching_engine.Common.{ℕ, ◌≡◌, ◌≢◌, refl, arith, List, [], ◌∷◌, ◌++◌, update}
use lowlat_matching_engine.Ring.{masked}
use lowlat_matching_engine.Ring.Slice.{IsRingCapacity}
use lowlat_matching_engine.Ring.Calls.{contents, IsRing}
use lowlat_matching_engine.CachedRing.Atomic.{
  push_ready, pop_ready, CachedSystem, head_with_room, write_cell, write_head, tail_without_element,
  head_with_element, Run, start, after,
}
use lowlat_matching_engine.CachedRing.Atomic.Order.{system_of, Run-in_order, Run-no_race}

two : IsRingCapacity 2
two = record { log = 1; single_bit = refl; small = omega arith; many = omega arith }

abbrev items : List ℕ
items = 5 ∷ 6 ∷ []

-- 5 is pushed; the producer is about to store 6, by its first copy of the tail; the consumer has
-- renewed its copy of the head and is about to read 5.
abbrev both_inside : CachedSystem ℕ
both_inside = record {
  ring = record {
    cells = update (λ _. 0) 0 5;
    head = 1;
    cached_tail = 0;
    tail = 0;
    cached_head = 1;
  };
  pushing = push_ready 1;
  popping = pop_ready 0;
  to_push = 6 ∷ [];
  popped = [];
}

both_inside-Run : Run 2 0 items both_inside
unfolding masked
both_inside-Run =
    let pushed =
      after
        (after (after start (head_with_room 5 (6 ∷ []) refl refl (omega arith)))
          (write_cell 0 5 (6 ∷ []) refl refl))
        (write_head 0 5 (6 ∷ []) refl refl) in
    let waiting = after pushed (tail_without_element refl refl) in
    let renewed =
      after waiting (head_with_element 0 1 refl (omega arith, omega arith) (omega arith)) in
    after renewed (head_with_room 6 [] refl refl (omega arith))

Run-in_order_example :
    IsRing 2 two (system_of both_inside).ring
    × (items ≡ [] ++ (contents 2 two (system_of both_inside).ring ++ 6 ∷ []))
Run-in_order_example = Run-in_order 2 two both_inside-Run

Run-no_race_example : masked 2 1 ≢ masked 2 0
Run-no_race_example = Run-no_race 2 two both_inside-Run 1 0 refl refl
