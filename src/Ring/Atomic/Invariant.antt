-- ===== src/Ring/Atomic/Invariant.antt =====
-- Every store and every load of the two threads of src/spsc_ring.hpp keeps the invariant.
use mathlib.Core.Path.{subst}
use lowlat_matching_engine.Common.{
  ℕ, suc, ◌+◌, ◌-◌, ◌%◌, ◌<◌, ◌≡◌, refl, sym, ap, ap₂, ◌∙◌, arith, List, [], ◌∷◌, ◌++◌,
  append_assoc, update, update_self, update_ne, add64, sub64,
}
use lowlat_matching_engine.Ring.{masked}
use lowlat_matching_engine.Ring.Slice.{
  IsRingCapacity, slice, slice_same, slice_snoc, capacity_word, masked_lem,
}
use lowlat_matching_engine.Ring.Calls.{contents, head_cell, taken}
use lowlat_matching_engine.Ring.Atomic.{
  push_start, push_head, push_tail, push_stored, Popping, pop_start, pop_tail, pop_head, pop_copied,
  System, Visible,
}
use lowlat_matching_engine.Ring.Atomic.Holds.{
  IsPushing, IsPopping, Inv, Inv-IsRing, head_apart, head-ne-tail,
}

module _ (capacity : ℕ) (cap : IsRingCapacity capacity) {A : Type 0} where
  module _ {items : List A} {s : System A} (i : Inv capacity cap items s) where
    pub Inv-load_tail :
        (head tail : ℕ)
        → s.pushing ≡ push_head head
        → Visible s.seen_tail s.ring.tail tail
        → Inv capacity cap items (record s { pushing = push_tail head tail; seen_tail = tail })
    Inv-load_tail head tail at seen = record {
      head_word = i.head_word;
      tail_word = i.tail_word;
      seen_tail_word = seen.0;
      seen_head_word = i.seen_head_word;
      behind =
          omega
            (arith, i.behind, i.fits, seen.0, seen.1, i.head_word, i.tail_word, i.seen_tail_word);
      fits =
          omega
            (arith, i.behind, i.fits, seen.0, seen.1, i.head_word, i.tail_word, i.seen_tail_word);
      ahead = i.ahead;
      in_push = (
        subst (IsPushing capacity cap s.ring.cells s.ring.head s.seen_tail s.to_push) at i.in_push,
        refl,
      );
      in_pop = i.in_pop;
      split = i.split;
    }

    pub Inv-store_cell :
        (head tail : ℕ) (x : A) (rest : List A)
        → s.pushing ≡ push_tail head tail
        → sub64 head tail < capacity
        → s.to_push ≡ x ∷ rest
        → Inv capacity cap items (record s {
          ring = record s.ring { cells = update s.ring.cells (masked capacity head) x };
          pushing = push_stored head;
        })
    Inv-store_cell head tail x rest at room left =
        let (own, seen) =
          subst (IsPushing capacity cap s.ring.cells s.ring.head s.seen_tail s.to_push) at
            i.in_push in
        let room' : sub64 s.ring.head s.seen_tail < capacity = omega (arith, own, seen, room) in
        let free : sub64 s.ring.head s.ring.tail < capacity = omega (arith, room', i.behind) in
        record {
          head_word = i.head_word;
          tail_word = i.tail_word;
          seen_tail_word = i.seen_tail_word;
          seen_head_word = i.seen_head_word;
          behind = i.behind;
          fits = i.fits;
          ahead = i.ahead;
          in_push = (
            own,
            room',
            λ y rest' left'.
                ap
                  (λ (k : ℕ).
                    update s.ring.cells (masked capacity k) x (masked capacity s.ring.head))
                  own
                ∙ update_self s.ring.cells (masked capacity s.ring.head) x
                ∙ same_first (sym left ∙ left'),
          );
          in_pop = still_copied own free s.popping i.in_pop;
          split =
              i.split
              ∙ ap (λ (q : List A). s.popped ++ (q ++ s.to_push))
                  (sym (
                    slice_same capacity s.ring.cells (update s.ring.cells (masked capacity head) x)
                      s.ring.tail (sub64 s.ring.head s.ring.tail)
                      (λ k below. update_ne s.ring.cells x (λ e.
                        head_apart capacity cap s.ring (Inv-IsRing capacity cap i) free k below
                          (ap (masked capacity) (sym own) ∙ e)))));
        }
      where
        same_first : {y : A} {ys zs : List A} → x ∷ ys ≡ y ∷ zs → x ≡ y
        same_first e = cc

        still_copied :
            head ≡ s.ring.head
            → sub64 s.ring.head s.ring.tail < capacity
            → (p : Popping A) → IsPopping capacity cap s.ring.cells s.ring.tail s.seen_head p
            → IsPopping capacity cap
                (update s.ring.cells (masked capacity head) x)
                s.ring.tail
                s.seen_head
                p
        still_copied own free pop_start w = w
        still_copied own free (pop_tail tail) w = w
        still_copied own free (pop_head tail h) w = w
        still_copied own free (pop_copied tail y) (mine, apart, read) = (
          mine,
          apart,
          update_ne s.ring.cells x (λ e.
                head-ne-tail capacity cap s.ring (Inv-IsRing capacity cap i) free
                  (omega (arith, apart, i.ahead, i.seen_head_word, i.tail_word))
                  (ap (masked capacity) (sym own) ∙ e))
              ∙ read,
        )

    pub Inv-store_head :
        (head : ℕ) (x : A) (rest : List A)
        → s.pushing ≡ push_stored head
        → s.to_push ≡ x ∷ rest
        → Inv capacity cap items (record s {
          ring = record s.ring { head = add64 head 1 };
          pushing = push_start;
          to_push = rest;
        })
    Inv-store_head head x rest at left =
        let (own, room, cell) =
          subst (IsPushing capacity cap s.ring.cells s.ring.head s.seen_tail s.to_push) at
            i.in_push in
        let size = capacity_word capacity cap in
        let grown : sub64 (add64 head 1) s.ring.tail ≡ suc (sub64 s.ring.head s.ring.tail) =
          omega (arith, own, room, size, i.behind, i.head_word, i.tail_word) in
        let seen : sub64 (add64 head 1) s.seen_tail ≡ suc (sub64 s.ring.head s.seen_tail) =
          omega (arith, own, room, size, i.head_word, i.seen_tail_word) in
        let contents' : contents capacity cap (record s.ring { head = add64 head 1 })
            ≡ contents capacity cap s.ring ++ x ∷ [] =
          ap (slice capacity s.ring.cells s.ring.tail) grown
          ∙ slice_snoc capacity s.ring.cells s.ring.tail (sub64 s.ring.head s.ring.tail)
          ∙ ap (λ (y : A). contents capacity cap s.ring ++ y ∷ [])
              (ap s.ring.cells (sym (head_cell capacity cap s.ring (Inv-IsRing capacity cap i)))
                ∙ cell x rest left) in
        record {
          head_word = omega arith;
          tail_word = i.tail_word;
          seen_tail_word = i.seen_tail_word;
          seen_head_word = i.seen_head_word;
          behind = omega (arith, grown, seen, i.behind);
          fits = omega (arith, seen, room);
          ahead = omega (arith, grown, i.ahead);
          in_push = tt;
          in_pop = i.in_pop;
          split =
              i.split
              ∙ ap (λ (q : List A). s.popped ++ q)
                  (ap (λ (q : List A). contents capacity cap s.ring ++ q) left
                    ∙ sym (append_assoc (contents capacity cap s.ring) (x ∷ []) rest)
                    ∙ ap (λ (q : List A). q ++ rest) (sym contents'));
        }

    pub Inv-load_head :
        (tail head : ℕ)
        → s.popping ≡ pop_tail tail
        → Visible s.seen_head s.ring.head head
        → Inv capacity cap items (record s { popping = pop_head tail head; seen_head = head })
    Inv-load_head tail head at seen = record {
      head_word = i.head_word;
      tail_word = i.tail_word;
      seen_tail_word = i.seen_tail_word;
      seen_head_word = seen.0;
      behind = i.behind;
      fits = i.fits;
      ahead = omega (arith, i.ahead, seen.0, seen.1, i.head_word, i.tail_word, i.seen_head_word);
      in_push = i.in_push;
      in_pop =
          (subst (IsPopping capacity cap s.ring.cells s.ring.tail s.seen_head) at i.in_pop, refl);
      split = i.split;
    }

    pub Inv-store_tail :
        (tail : ℕ) (x : A)
        → s.popping ≡ pop_copied tail x
        → Inv capacity cap items (record s {
          ring = record s.ring { tail = add64 tail 1 };
          popping = pop_start;
          popped = s.popped ++ x ∷ [];
        })
    Inv-store_tail tail x at =
        let (own, apart, read) =
          subst (IsPopping capacity cap s.ring.cells s.ring.tail s.seen_head) at i.in_pop in
        let n = sub64 s.ring.head s.ring.tail - 1 in
        let count : sub64 s.ring.head s.ring.tail ≡ suc n =
          omega (arith, apart, i.ahead, i.seen_head_word, i.tail_word) in
        let shrunk : sub64 s.ring.head (add64 tail 1) ≡ n =
          omega (arith, own, count, i.head_word, i.tail_word) in
        let first : s.ring.cells (s.ring.tail % capacity) ≡ x =
          ap s.ring.cells (sym (masked_lem capacity cap s.ring.tail)) ∙ read in
        let rest : slice capacity s.ring.cells (s.ring.tail + 1) n
            ≡ contents capacity cap (record s.ring { tail = add64 tail 1 }) =
          sym (
            ap (slice capacity s.ring.cells (add64 tail 1)) shrunk
            ∙ taken capacity cap s.ring.cells tail 1 n
            ∙ ap (λ (k : ℕ). slice capacity s.ring.cells (k + 1) n) own) in
        record {
          head_word = i.head_word;
          tail_word = omega arith;
          seen_tail_word = i.seen_tail_word;
          seen_head_word = i.seen_head_word;
          behind = omega (arith, shrunk, count, i.behind);
          fits = i.fits;
          ahead = omega (arith, own, shrunk, count, apart, i.ahead, i.seen_head_word, i.tail_word);
          in_push = i.in_push;
          in_pop = tt;
          split =
              i.split
              ∙ ap (λ (q : List A). s.popped ++ (q ++ s.to_push))
                  (ap (slice capacity s.ring.cells s.ring.tail) count
                    ∙ ap₂ (λ (y : A) (q : List A). y ∷ q) first rest)
              ∙ sym (
                  append_assoc s.popped (x ∷ [])
                    (contents capacity cap (record s.ring { tail = add64 tail 1 }) ++ s.to_push));
        }
