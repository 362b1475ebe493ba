-- ===== src/Ring/Atomic/Holds.antt =====
-- What the invariant of the two threads of src/spsc_ring.hpp is, and what it says of the cells.
use lowlat_matching_engine.Common.{
  ℕ, ◌+◌, ◌%◌, ◌^◌, ◌≤◌, ◌<◌, ◌≡◌, ◌≢◌, sym, ap, ◌∙◌, arith, List, ◌∷◌, ◌++◌, sub64,
}
use lowlat_matching_engine.Ring.{Ring, masked}
use lowlat_matching_engine.Ring.Slice.{IsRingCapacity, steps_apart, masked_lem}
use lowlat_matching_engine.Ring.Calls.{contents, IsRing, head_cell}
use lowlat_matching_engine.Ring.Atomic.{
  Pushing, push_start, push_head, push_tail, push_stored, Popping, pop_start, pop_tail, pop_head,
  pop_copied, System,
}

module _ (capacity : ℕ) (cap : IsRingCapacity capacity) {A : Type 0} where
  -- What the local variables of `push` say.
  abbrev pub IsPushing : (ℕ → A) → ℕ → ℕ → List A → Pushing → Type 0
  IsPushing cells h seen_tail to_push push_start = Unit
  IsPushing cells h seen_tail to_push (push_head head) = head ≡ h
  IsPushing cells h seen_tail to_push (push_tail head tail) = (head ≡ h) × (tail ≡ seen_tail)
  IsPushing cells h seen_tail to_push (push_stored head) =
      (head ≡ h)
      × (sub64 h seen_tail < capacity)
      × ((x : A) (rest : List A) → to_push ≡ x ∷ rest → cells (masked capacity h) ≡ x)

  -- What those of `pop` say.
  abbrev pub IsPopping : (ℕ → A) → ℕ → ℕ → Popping A → Type 0
  IsPopping cells t seen_head pop_start = Unit
  IsPopping cells t seen_head (pop_tail tail) = tail ≡ t
  IsPopping cells t seen_head (pop_head tail head) = (tail ≡ t) × (head ≡ seen_head)
  IsPopping cells t seen_head (pop_copied tail x) =
      (tail ≡ t) × (seen_head ≢ t) × (cells (masked capacity t) ≡ x)

  pub record Inv (items : List A) (s : System A) : Type 0 where
    pub head_word : s.ring.head < 2 ^ 64
    pub tail_word : s.ring.tail < 2 ^ 64
    pub seen_tail_word : s.seen_tail < 2 ^ 64
    pub seen_head_word : s.seen_head < 2 ^ 64
    pub behind : sub64 s.ring.head s.ring.tail ≤ sub64 s.ring.head s.seen_tail
    pub fits : sub64 s.ring.head s.seen_tail ≤ capacity
    pub ahead : sub64 s.seen_head s.ring.tail ≤ sub64 s.ring.head s.ring.tail
    pub in_push : IsPushing s.ring.cells s.ring.head s.seen_tail s.to_push s.pushing
    pub in_pop : IsPopping s.ring.cells s.ring.tail s.seen_head s.popping
    pub split : items ≡ s.popped ++ (contents capacity cap s.ring ++ s.to_push)

  pub Inv-IsRing : {items : List A} {s : System A} → Inv items s → IsRing capacity cap s.ring
  Inv-IsRing i = record {
    head_word = i.head_word;
    tail_word = i.tail_word;
    fits = omega (arith, i.behind, i.fits);
  }

  -- The cell that `push` writes is none of those that hold elements.
  pub head_apart :
      (r : Ring A)
      → IsRing capacity cap r
      → sub64 r.head r.tail < capacity
      → (i : ℕ) → i < sub64 r.head r.tail
      → masked capacity r.head ≢ (r.tail + i) % capacity
  head_apart r v room i below e =
      steps_apart capacity r.tail i (sub64 r.head r.tail) below room
        (sym e ∙ head_cell capacity cap r v)

  -- While an element is there, it is not the one that `pop` reads either.
  pub head-ne-tail :
      (r : Ring A)
      → IsRing capacity cap r
      → sub64 r.head r.tail < capacity
      → 0 < sub64 r.head r.tail
      → masked capacity r.head ≢ masked capacity r.tail
  head-ne-tail r v room some_there e = head_apart r v room 0 some_there (
      e
      ∙ masked_lem capacity cap r.tail
      ∙ ap (λ (k : ℕ). k % capacity) (let z : r.tail ≡ r.tail + 0 = omega arith in z))
