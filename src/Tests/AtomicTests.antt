-- ===== src/Tests/AtomicTests.antt =====
-- Both threads of src/spsc_ring.hpp in the middle of a call, on a ring of two cells.
use lowlat_matching_engine.Common.{ℕ, ◌≡◌, ◌≢◌, refl, arith, List, [], ◌∷◌, ◌++◌, update}
use lowlat_matching_engine.Ring.{masked}
use lowlat_matching_engine.Ring.Slice.{IsRingCapacity}
use lowlat_matching_engine.Ring.Calls.{contents, IsRing}
use lowlat_matching_engine.Ring.Atomic.{
  push_tail, pop_head, System, load_own_head, load_tail, store_cell, store_head, load_own_tail,
  load_head, Reach, begin, later,
}
use lowlat_matching_engine.Ring.Atomic.Order.{Reach-in_order, Reach-no_race}

two : IsRingCapacity 2
two = record { log = 1; single_bit = refl; small = omega arith; many = omega arith }

abbrev items : List ℕ
items = 5 ∷ 6 ∷ []

-- 5 is pushed, the producer is about to store 6, the consumer about to read 5.
abbrev both_inside : System ℕ
both_inside = record {
  ring = record { cells = update (λ _. 0) 0 5; head = 1; tail = 0 };
  pushing = push_tail 1 0;
  popping = pop_head 0 1;
  seen_tail = 0;
  seen_head = 1;
  to_push = 6 ∷ [];
  popped = [];
}

both_inside-Reach : Reach 2 0 items both_inside
unfolding masked
both_inside-Reach =
    let started =
      later (later begin (load_own_head 5 (6 ∷ []) refl refl))
        (load_tail 0 0 refl (omega arith, omega arith)) in
    let pushed =
      later (later started (store_cell 0 0 5 (6 ∷ []) refl (omega arith) refl))
        (store_head 0 5 (6 ∷ []) refl refl) in
    let again =
      later (later pushed (load_own_head 6 [] refl refl))
        (load_tail 1 0 refl (omega arith, omega arith)) in
    later (later again (load_own_tail refl)) (load_head 0 1 refl (omega arith, omega arith))

Reach-in_order_example :
    IsRing 2 two both_inside.ring × (items ≡ [] ++ (contents 2 two both_inside.ring ++ 6 ∷ []))
Reach-in_order_example = Reach-in_order 2 two both_inside-Reach

Reach-no_race_example : masked 2 1 ≢ masked 2 0
Reach-no_race_example =
    Reach-no_race 2 two both_inside-Reach 1 0 0 1 refl (omega arith) refl (omega arith)
