-- ===== src/Ring/Calls.antt =====
-- The calls for one element of src/spsc_ring.hpp against the bounded queue it stands for.
use lowlat_matching_engine.Common.{
  ℕ, suc, ◌+◌, ◌-◌, ◌%◌, ◌^◌, ◌≤◌, ◌<◌, ◌≡◌, ◌≢◌, sym, ap, ap₂, ◌∙◌, ◌⊎◌, inl, inr, arith, none,
  some, List, [], ◌∷◌, ◌++◌, length, eq-cases, lt-cases, update, update_self, update_ne, add64,
  sub64, true, false,
}
use lowlat_matching_engine.Ring.{Ring, masked, push, pop}
use lowlat_matching_engine.Ring.Slice.{
  IsRingCapacity, slice, length-slice, slice_snoc, slice_same, slice_wrap, steps_apart, wide,
  capacity_word, masked_lem, masked-add64,
}

module _ (capacity : ℕ) (cap : IsRingCapacity capacity) {A : Type 0} where
  -- The elements in the ring, oldest first.
  abbrev pub contents : Ring A → List A
  contents r = slice capacity r.cells r.tail (sub64 r.head r.tail)

  -- The counters are words, and are apart by the capacity at most.
  pub record IsRing (r : Ring A) : Type 0 where
    pub head_word : r.head < 2 ^ 64
    pub tail_word : r.tail < 2 ^ 64
    pub fits : sub64 r.head r.tail ≤ capacity

  -- Where the next element goes: behind those that are there.
  pub head_cell :
      (r : Ring A) → IsRing r → masked capacity r.head ≡ (r.tail + sub64 r.head r.tail) % capacity
  head_cell r v =
      ap (masked capacity) (
        let e : r.head ≡ add64 r.tail (sub64 r.head r.tail) =
          omega (arith, v.head_word, v.tail_word) in
        e)
      ∙ masked-add64 capacity cap r.tail (sub64 r.head r.tail)

  -- Writing behind the elements keeps them.
  pub write_behind :
      (cells : ℕ → A) (t n : ℕ) (x : A)
      → n < capacity
      → slice capacity (update cells ((t + n) % capacity) x) t (suc n)
        ≡ slice capacity cells t n ++ x ∷ []
  write_behind cells t n x h =
      slice_snoc capacity (update cells ((t + n) % capacity) x) t n
      ∙ ap₂ (λ (q : List A) (y : A). q ++ y ∷ [])
          (slice_same capacity cells (update cells ((t + n) % capacity) x) t n
            (λ i below. update_ne cells x (λ e. steps_apart capacity t i n below h (sym e))))
          (update_self cells ((t + n) % capacity) x)

  -- After `n` elements are taken the counter stands at the rest.
  pub taken :
      (cells : ℕ → A) (t n k : ℕ)
      → slice capacity cells (add64 t n) k ≡ slice capacity cells (t + n) k
  taken cells t n k = slice_wrap capacity cells (add64 t n) (t + n) k (wide capacity cap (t + n))

  -- On a valid ring push is refused and changes nothing exactly where as many elements are there
  -- as fit; else it succeeds, the ring stays valid and the element stands behind those that were
  -- there.
  pub push_lem :
      {r : Ring A} (x : A)
      → IsRing r
      → ((length (contents r) ≡ capacity) × (push capacity r x ≡ (false, r)))
        ⊎ ((length (contents r) < capacity)
            × (r' : Ring A) × (push capacity r x ≡ (true, r'))
            × IsRing r'
            × (contents r' ≡ contents r ++ x ∷ []))
  unfolding push
  push_lem {r} x v =
      let len = length-slice capacity r.cells r.tail (sub64 r.head r.tail) in
      elim (lt-cases (sub64 r.head r.tail) capacity) [
        | inr full ↦ inl (omega (arith, len, full, v.fits), ground (arith, full))
        | inl room ↦
            let grown : sub64 (add64 r.head 1) r.tail ≡ suc (sub64 r.head r.tail) =
              omega (arith, room, capacity_word capacity cap, v.head_word, v.tail_word) in
            inr (
              omega (arith, len, room),
              record r { cells = update r.cells (masked capacity r.head) x; head = add64 r.head 1 },
              ground (arith, room),
              record {
                head_word = omega arith;
                tail_word = v.tail_word;
                fits = omega (arith, grown, room);
              },
              ap₂ (λ (j n : ℕ). slice capacity (update r.cells j x) r.tail n) (head_cell r v) grown
                  ∙ write_behind r.cells r.tail (sub64 r.head r.tail) x room,
            )
      ]

  -- On a valid ring pop fails and changes nothing exactly where no element is there; else it
  -- returns the oldest, the ring stays valid and the others remain in order.
  pub pop_lem :
      {r : Ring A}
      → IsRing r
      → ((contents r ≡ []) × (pop capacity r ≡ (none, r)))
        ⊎ ((x : A) × (xs : List A) × (contents r ≡ x ∷ xs)
            × (r' : Ring A) × (pop capacity r ≡ (some x, r'))
            × IsRing r'
            × (contents r' ≡ xs))
  unfolding pop
  pop_lem {r} v = elim (eq-cases (sub64 r.head r.tail) 0) [
    | inl none_there ↦
        let same : r.head ≡ r.tail = omega (arith, none_there, v.head_word, v.tail_word) in
        inl (ap (slice capacity r.cells r.tail) none_there, ground (arith, same))
    | inr some_there ↦
        let n = sub64 r.head r.tail - 1 in
        let apart : r.head ≢ r.tail = λ e. some_there (omega (arith, e)) in
        let count : sub64 r.head r.tail ≡ suc n = omega (arith, some_there) in
        let shrunk : sub64 r.head (add64 r.tail 1) ≡ n =
          omega (arith, some_there, v.head_word, v.tail_word) in
        inr (
          r.cells (r.tail % capacity),
          slice capacity r.cells (r.tail + 1) n,
          ap (slice capacity r.cells r.tail) count,
          record r { tail = add64 r.tail 1 },
          (let s : pop capacity r
                  ≡ (some (r.cells (masked capacity r.tail)), record r { tail = add64 r.tail 1 }) =
                ground (arith, apart) in
              s
              ∙ ap (λ (j : ℕ). (some (r.cells j), record r { tail = add64 r.tail 1 }))
                  (masked_lem capacity cap r.tail)),
          record {
            head_word = v.head_word;
            tail_word = omega arith;
            fits = omega (arith, shrunk, v.fits);
          },
          ap (slice capacity r.cells (add64 r.tail 1)) shrunk ∙ taken r.cells r.tail 1 n,
        )
  ]
