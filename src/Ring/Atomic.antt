-- ===== src/Ring/Atomic.antt =====
-- `push` and `pop` of src/spsc_ring.hpp, an access to shared memory at a time. A load of the other
-- thread's counter may return an older value, but none older than one it has returned before.
pub mod Holds
pub mod Invariant
pub mod Order
use lowlat_matching_engine.Common.{
  ℕ, ◌+◌, ◌^◌, ◌≤◌, ◌<◌, ◌≡◌, ◌≢◌, List, [], ◌∷◌, ◌++◌, update, add64, sub64,
}
use lowlat_matching_engine.Ring.{Ring, masked}

-- Where `push` stands, with the local variables that are live there.
pub data Pushing : Type 0 where
  push_start : Pushing
  push_head : (head : ℕ) → Pushing  -- `head` is loaded
  push_tail : (head tail : ℕ) → Pushing  -- `tail` too
  push_stored : (head : ℕ) → Pushing  -- the cell is written

-- Where `pop` stands.
pub data Popping (A : Type 0) : Type 0 where
  pop_start : Popping A
  pop_tail : (tail : ℕ) → Popping A  -- `tail` is loaded
  pop_head : (tail head : ℕ) → Popping A  -- `head` too
  pop_copied : (tail : ℕ) (x : A) → Popping A  -- the cell is read

-- The ring, where both threads stand, what each has seen of the other's counter last, what is still
-- to be pushed and what was popped.
pub record System (A : Type 0) : Type 0 where
  pub ring : Ring A
  pub pushing : Pushing
  pub popping : Popping A
  pub seen_tail : ℕ
  pub seen_head : ℕ
  pub to_push : List A
  pub popped : List A

-- `value` may be loaded from a counter that stands at `current`, after `seen`.
abbrev pub Visible : ℕ → ℕ → ℕ → Type 0
Visible seen current value = (value < 2 ^ 64) × (sub64 value seen ≤ sub64 current seen)

module _ (capacity : ℕ) {A : Type 0} where
  -- One access of one thread, with the local computation that follows it.
  pub data Step (s : System A) : System A → Type 0 where
    load_own_head :
        (x : A) (rest : List A)
        → s.pushing ≡ push_start
        → s.to_push ≡ x ∷ rest
        → Step s (record s { pushing = push_head s.ring.head })
    load_tail :
        (head tail : ℕ)
        → s.pushing ≡ push_head head
        → Visible s.seen_tail s.ring.tail tail
        → Step s (record s { pushing = push_tail head tail; seen_tail = tail })
    full :
        (head tail : ℕ)
        → s.pushing ≡ push_tail head tail
        → capacity ≤ sub64 head tail
        → Step s (record s { pushing = push_start })
    store_cell :
        (head tail : ℕ) (x : A) (rest : List A)
        → s.pushing ≡ push_tail head tail
        → sub64 head tail < capacity
        → s.to_push ≡ x ∷ rest
        → Step s (record s {
          ring = record s.ring { cells = update s.ring.cells (masked capacity head) x };
          pushing = push_stored head;
        })
    store_head :
        (head : ℕ) (x : A) (rest : List A)
        → s.pushing ≡ push_stored head
        → s.to_push ≡ x ∷ rest
        → Step s (record s {
          ring = record s.ring { head = add64 head 1 };
          pushing = push_start;
          to_push = rest;
        })
    load_own_tail : s.popping ≡ pop_start → Step s (record s { popping = pop_tail s.ring.tail })
    load_head :
        (tail head : ℕ)
        → s.popping ≡ pop_tail tail
        → Visible s.seen_head s.ring.head head
        → Step s (record s { popping = pop_head tail head; seen_head = head })
    empty :
        (tail head : ℕ)
        → s.popping ≡ pop_head tail head
        → head ≡ tail
        → Step s (record s { popping = pop_start })
    load_cell :
        (tail head : ℕ)
        → s.popping ≡ pop_head tail head
        → head ≢ tail
        → Step s (record s { popping = pop_copied tail (s.ring.cells (masked capacity tail)) })
    store_tail :
        (tail : ℕ) (x : A)
        → s.popping ≡ pop_copied tail x
        → Step s (record s {
          ring = record s.ring { tail = add64 tail 1 };
          popping = pop_start;
          popped = s.popped ++ x ∷ [];
        })

  -- Both threads start on a new ring, in which every cell holds `initial`.
  abbrev pub init : A → List A → System A
  init initial items = record {
    ring = record { cells = λ _. initial; head = 0; tail = 0 };
    pushing = push_start;
    popping = pop_start;
    seen_tail = 0;
    seen_head = 0;
    to_push = items;
    popped = [];
  }

  pub data Reach (initial : A) (items : List A) : System A → Type 0 where
    begin : Reach initial items (init initial items)
    later : {s t : System A} → Reach initial items s → Step s t → Reach initial items t
