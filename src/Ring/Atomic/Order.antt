-- ===== src/Ring/Atomic/Order.antt =====
-- What the invariant gives for the two threads of src/spsc_ring.hpp: first in, first out, and no
-- access of both to one cell.
use mathlib.Core.Path.{subst}
use lowlat_matching_engine.Common.{ℕ, ◌<◌, ◌≡◌, ◌≢◌, refl, sym, ap, ◌∙◌, arith, List, ◌++◌, sub64}
use lowlat_matching_engine.Ring.{masked}
use lowlat_matching_engine.Ring.Slice.{IsRingCapacity}
use lowlat_matching_engine.Ring.Calls.{contents, IsRing}
use lowlat_matching_engine.Ring.Atomic.{
  Pushing, push_start, push_head, push_tail, Popping, pop_start, pop_tail, pop_head, pop_copied,
  System, Step, load_own_head, load_tail, full, store_cell, store_head, load_own_tail, load_head,
  empty, load_cell, store_tail, Reach, begin, later,
}
use lowlat_matching_engine.Ring.Atomic.Invariant.{
  Inv-load_tail, Inv-store_cell, Inv-store_head, Inv-load_head, Inv-store_tail,
}
use lowlat_matching_engine.Ring.Atomic.Holds.{IsPushing, IsPopping, Inv, Inv-IsRing, head-ne-tail}

module _ (capacity : ℕ) (cap : IsRingCapacity capacity) {A : Type 0} where
  -- A step that changes only where `push` stands.
  move_push :
      {items : List A} {s : System A} (at : Pushing)
      → Inv capacity cap items s
      → IsPushing capacity cap s.ring.cells s.ring.head s.seen_tail s.to_push at
      → Inv capacity cap items (record s { pushing = at })
  move_push at i w = record {
    head_word = i.head_word;
    tail_word = i.tail_word;
    seen_tail_word = i.seen_tail_word;
    seen_head_word = i.seen_head_word;
    behind = i.behind;
    fits = i.fits;
    ahead = i.ahead;
    in_push = w;
    in_pop = i.in_pop;
    split = i.split;
  }

  move_pop :
      {items : List A} {s : System A} (at : Popping A)
      → Inv capacity cap items s
      → IsPopping capacity cap s.ring.cells s.ring.tail s.seen_head at
      → Inv capacity cap items (record s { popping = at })
  move_pop at i w = record {
    head_word = i.head_word;
    tail_word = i.tail_word;
    seen_tail_word = i.seen_tail_word;
    seen_head_word = i.seen_head_word;
    behind = i.behind;
    fits = i.fits;
    ahead = i.ahead;
    in_push = i.in_push;
    in_pop = w;
    split = i.split;
  }

  Inv-Step :
      {items : List A} {s t : System A}
      → Inv capacity cap items s
      → Step capacity s t
      → Inv capacity cap items t
  Inv-Step {items} {s} i (load_own_head x rest at left) = move_push (push_head s.ring.head) i refl
  Inv-Step i (load_tail head tail at seen) = Inv-load_tail capacity cap i head tail at seen
  Inv-Step i (full head tail at none_free) = move_push push_start i tt
  Inv-Step i (store_cell head tail x rest at room left) =
      Inv-store_cell capacity cap i head tail x rest at room left
  Inv-Step i (store_head head x rest at left) = Inv-store_head capacity cap i head x rest at left
  Inv-Step {items} {s} i (load_own_tail at) = move_pop (pop_tail s.ring.tail) i refl
  Inv-Step i (load_head tail head at seen) = Inv-load_head capacity cap i tail head at seen
  Inv-Step i (empty tail head at none_there) = move_pop pop_start i tt
  Inv-Step {items} {s} i (load_cell tail head at some_there) =
      let (own, seen) =
        subst (IsPopping capacity cap s.ring.cells s.ring.tail s.seen_head) at i.in_pop in
      move_pop (pop_copied tail (s.ring.cells (masked capacity tail))) i (
        own,
        (λ e. some_there (seen ∙ e ∙ sym own)),
        ap (λ (k : ℕ). s.ring.cells (masked capacity k)) (sym own),
      )
  Inv-Step i (store_tail tail x at) = Inv-store_tail capacity cap i tail x at

  pub Inv-Reach :
      {initial : A} {items : List A} {s : System A}
      → Reach capacity initial items s
      → Inv capacity cap items s
  Inv-Reach {initial} {items} begin = record {
    head_word = omega arith;
    tail_word = omega arith;
    seen_tail_word = omega arith;
    seen_head_word = omega arith;
    behind = omega arith;
    fits = omega arith;
    ahead = omega arith;
    in_push = tt;
    in_pop = tt;
    split = refl;
  }
  Inv-Reach (later r step) = Inv-Step (Inv-Reach r) step

  -- In every state that the two threads reach from a new ring, an access to shared memory at a
  -- time and with loads that may return older values of the other thread's counter, the ring is
  -- valid, and the items are those popped, then those in the ring, then those not pushed, in
  -- order.
  pub Reach-in_order :
      {initial : A} {items : List A} {s : System A}
      → Reach capacity initial items s
      → IsRing capacity cap s.ring
        × (items ≡ s.popped ++ (contents capacity cap s.ring ++ s.to_push))
  Reach-in_order r = let i = Inv-Reach r in (Inv-IsRing capacity cap i, i.split)

  -- In every state that the two threads reach, where the producer is about to write a cell and the
  -- consumer about to read one, the two cells differ.
  pub Reach-no_race :
      {initial : A} {items : List A} {s : System A}
      → Reach capacity initial items s
      → (head tail tail' head' : ℕ) → s.pushing ≡ push_tail head tail
      → sub64 head tail < capacity
      → s.popping ≡ pop_head tail' head'
      → head' ≢ tail'
      → masked capacity head ≢ masked capacity tail'
  Reach-no_race {initial} {items} {s} r head tail tail' head' at room at' some_there e =
      let i = Inv-Reach r in
      let (own, seen) =
        subst (IsPushing capacity cap s.ring.cells s.ring.head s.seen_tail s.to_push) at
          i.in_push in
      let (own', seen') =
        subst (IsPopping capacity cap s.ring.cells s.ring.tail s.seen_head) at' i.in_pop in
      head-ne-tail capacity cap s.ring (Inv-IsRing capacity cap i)
        (omega (arith, own, seen, room, i.behind))
        (omega (arith, own', seen', some_there, i.ahead, i.seen_head_word, i.tail_word))
        (ap (masked capacity) (sym own) ∙ e ∙ ap (masked capacity) own')
