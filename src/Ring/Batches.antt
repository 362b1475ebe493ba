-- ===== src/Ring/Batches.antt =====
-- The batch calls of src/spsc_ring.hpp against the bounded queue it stands for.
use native.Mathlib.Nat.{mod-add-mod}
use lowlat_matching_engine.Common.{
  ℕ, zero, suc, ◌+◌, ◌-◌, ◌%◌, ◌≤◌, ◌<◌, ◌≡◌, refl, sym, ap, ap₂, ◌∙◌, arith, List, [], ◌∷◌, ◌++◌,
  length, append_nil, prefix, update, update_self, update_ne, add64, sub64, false, min, ◌==◌,
}
use lowlat_matching_engine.Ring.{Ring, masked, push_many, pop_many, write_many, read_many}
use lowlat_matching_engine.Ring.Slice.{
  IsRingCapacity, slice, length-slice, wide, capacity_word, masked-add64,
}
use lowlat_matching_engine.Ring.Calls.{contents, IsRing, write_behind, taken}

nonzero : (m : ℕ) → (suc m == 0) ≡ false
nonzero m = ground arith

module _ (capacity : ℕ) (cap : IsRingCapacity capacity) {A : Type 0} where
  snoc_append : (q : List A) (x : A) (ys : List A) → (q ++ x ∷ []) ++ ys ≡ q ++ x ∷ ys
  snoc_append [] x ys = refl
  snoc_append (y ∷ q) x ys = ap (λ (z : List A). y ∷ z) (snoc_append q x ys)

  -- The copying loop appends, `k` elements being in the ring when it starts and `i` copied.
  write_many_lem :
      (n i t k : ℕ) (head : ℕ) (input cells : ℕ → A)
      → ((j : ℕ) → masked capacity (add64 head j) ≡ (t + (k + j)) % capacity)
      → k + i + n ≤ capacity
      → slice capacity (write_many capacity n i head input cells) t (k + i + n)
        ≡ slice capacity cells t (k + i) ++ prefix input i n
  unfolding write_many
  write_many_lem zero i t k head input cells at room =
      ap (slice capacity cells t) (let e : k + i + 0 ≡ k + i = omega arith in e)
      ∙ sym (append_nil (slice capacity cells t (k + i)))
  write_many_lem (suc n) i t k head input cells at room =
      let cells' = update cells (masked capacity (add64 head i)) (input i) in
      let here : masked capacity (add64 head i) ≡ (t + (k + i)) % capacity = at i in
      ap (slice capacity (write_many capacity n (i + 1) head input cells') t)
        (let e : k + i + suc n ≡ k + (i + 1) + n = omega arith in e)
      ∙ write_many_lem n (i + 1) t k head input cells' at (omega (arith, room))
      ∙ ap (λ (q : List A). q ++ prefix input (i + 1) n)
          (ap₂ (λ (j m : ℕ). slice capacity (update cells j (input i)) t m) here
              (let e : k + (i + 1) ≡ suc (k + i) = omega arith in e)
            ∙ write_behind capacity cap cells t (k + i) (input i) (omega (arith, room)))
      ∙ snoc_append (slice capacity cells t (k + i)) (input i) (prefix input (i + 1) n)

  at_head :
      (r : Ring A)
      → IsRing capacity cap r
      → (j : ℕ) → masked capacity (add64 r.head j) ≡ (r.tail + (sub64 r.head r.tail + j)) % capacity
  at_head r v j =
      let used = sub64 r.head r.tail in
      masked-add64 capacity cap r.head j
      ∙ sym (mod-add-mod r.head capacity j)
      ∙ ap (λ (h : ℕ). (h + j) % capacity)
          (ap (λ (h : ℕ). h % capacity)
              (let e : r.head ≡ add64 r.tail used = omega (arith, v.head_word, v.tail_word) in e)
            ∙ wide capacity cap (r.tail + used))
      ∙ mod-add-mod (r.tail + used) capacity j
      ∙ ap (λ (h : ℕ). h % capacity)
          (let e : r.tail + used + j ≡ r.tail + (used + j) = omega arith in e)

  -- On a valid ring push_many pushes as many elements as are offered and fit, and the ring, still
  -- valid, holds those that were there and then the first ones offered, in order.
  pub push_many_lem :
      {r : Ring A} (input : ℕ → A) (max_count : ℕ)
      → IsRing capacity cap r
      → (n : ℕ) × (n ≡ min (capacity - length (contents capacity cap r)) max_count)
        × (r' : Ring A) × (push_many capacity r input max_count ≡ (n, r'))
        × IsRing capacity cap r'
        × (contents capacity cap r' ≡ contents capacity cap r ++ prefix input 0 n)
  unfolding push_many
  push_many_lem {r} input max_count v =
      let n = min (sub64 capacity used) max_count in
      let (r', is, v', q) = go n refl in
      (n, ap (λ (k : ℕ). min k max_count) (omega (arith, room, len)), r', is, v', q)
    where
      used : ℕ
      used = sub64 r.head r.tail

      len : length (contents capacity cap r) ≡ sub64 r.head r.tail
      len = length-slice capacity r.cells r.tail (sub64 r.head r.tail)

      room : sub64 capacity (sub64 r.head r.tail) ≡ capacity - sub64 r.head r.tail
      room = omega (arith, capacity_word capacity cap, v.fits)

      go :
          (n : ℕ)
          → min (sub64 capacity (sub64 r.head r.tail)) max_count ≡ n
          → (r' : Ring A) × (push_many capacity r input max_count ≡ (n, r'))
            × IsRing capacity cap r'
            × (contents capacity cap r' ≡ contents capacity cap r ++ prefix input 0 n)
      go zero e = (r, ground (arith, e), v, sym (append_nil (contents capacity cap r)))
      go (suc m) e =
          let small : suc m ≤ capacity - sub64 r.head r.tail = omega (arith, e, room) in
          let grown : sub64 (add64 r.head (suc m)) r.tail ≡ sub64 r.head r.tail + 0 + suc m =
            omega (arith, small, capacity_word capacity cap, v.head_word, v.tail_word, v.fits) in
          let start : sub64 r.head r.tail + 0 ≡ sub64 r.head r.tail = omega arith in
          (
            record r {
              cells = write_many capacity (suc m) 0 r.head input r.cells;
              head = add64 r.head (suc m);
            },
            rw (e, nonzero m),
            record {
              head_word = omega arith;
              tail_word = v.tail_word;
              fits = omega (arith, grown, small, v.fits);
            },
            ap (slice capacity (write_many capacity (suc m) 0 r.head input r.cells) r.tail) grown
                ∙ write_many_lem (suc m) 0 r.tail (sub64 r.head r.tail) r.head input r.cells
                    (at_head r v) (omega (arith, small, v.fits))
                ∙ ap (λ (k : ℕ). slice capacity r.cells r.tail k ++ prefix input 0 (suc m)) start,
          )

  -- The copying loop fills the array from `i` on with the elements from the counter `t + i` on, and
  -- leaves the rest of the array alone.
  read_many_below :
      (n i t : ℕ) (cells out : ℕ → A) (j : ℕ) → j < i → read_many capacity n i t cells out j ≡ out j
  unfolding read_many
  read_many_below zero i t cells out j below = refl
  read_many_below (suc n) i t cells out j below =
      read_many_below n (i + 1) t cells (update out i (cells (masked capacity (add64 t i)))) j
        (omega arith)
      ∙ update_ne out (cells (masked capacity (add64 t i))) (λ e. omega (arith, e, below))

  read_many_above :
      (n i t : ℕ) (cells out : ℕ → A) (j : ℕ)
      → i + n ≤ j
      → read_many capacity n i t cells out j ≡ out j
  unfolding read_many
  read_many_above zero i t cells out j above = refl
  read_many_above (suc n) i t cells out j above =
      read_many_above n (i + 1) t cells (update out i (cells (masked capacity (add64 t i)))) j
        (omega (arith, above))
      ∙ update_ne out (cells (masked capacity (add64 t i))) (λ e. omega (arith, e, above))

  read_many_lem :
      (n i t : ℕ) (cells out : ℕ → A)
      → prefix (read_many capacity n i t cells out) i n ≡ slice capacity cells (t + i) n
  unfolding read_many
  read_many_lem zero i t cells out = refl
  read_many_lem (suc n) i t cells out =
      let out' = update out i (cells (masked capacity (add64 t i))) in
      ap₂ (λ (x : A) (q : List A). x ∷ q)
        (read_many_below n (i + 1) t cells out' i (omega arith)
          ∙ update_self out i (cells (masked capacity (add64 t i)))
          ∙ ap cells (masked-add64 capacity cap t i))
        (read_many_lem n (i + 1) t cells out'
          ∙ ap (λ (k : ℕ). slice capacity cells k n)
              (let e : t + (i + 1) ≡ t + i + 1 = omega arith in e))

  slice_append :
      (cells : ℕ → A) (t n k : ℕ)
      → slice capacity cells t (n + k) ≡ slice capacity cells t n ++ slice capacity cells (t + n) k
  slice_append cells t zero k =
      ap₂ (λ (x y : ℕ). slice capacity cells x y) (let e : t ≡ t + 0 = omega arith in e)
        (let e : 0 + k ≡ k = omega arith in e)
  slice_append cells t (suc n) k =
      ap (slice capacity cells t) (let e : suc n + k ≡ suc (n + k) = omega arith in e)
      ∙ ap (λ (q : List A). cells (t % capacity) ∷ q)
          (slice_append cells (t + 1) n k
            ∙ ap (λ (x : ℕ). slice capacity cells (t + 1) n ++ slice capacity cells x k)
                (let e : t + 1 + n ≡ t + suc n = omega arith in e))

  -- On a valid ring pop_many pops as many elements as are asked for and there; they are the
  -- oldest, in order, at the start of the array, the rest of the array is unchanged, and the ring,
  -- still valid, holds the others in order.
  pub pop_many_lem :
      {r : Ring A} (out : ℕ → A) (max_count : ℕ)
      → IsRing capacity cap r
      → (n : ℕ) × (n ≡ min (length (contents capacity cap r)) max_count)
        × (out' : ℕ → A) × (r' : Ring A) × (pop_many capacity r out max_count ≡ (n, out', r'))
        × IsRing capacity cap r'
        × (contents capacity cap r ≡ prefix out' 0 n ++ contents capacity cap r')
        × ((j : ℕ) → n ≤ j → out' j ≡ out j)
  unfolding pop_many
  pop_many_lem {r} out max_count v =
      let n = min (sub64 r.head r.tail) max_count in
      let (out', r', is, v', q, rest) = go n refl in
      (n, ap (λ (k : ℕ). min k max_count) (sym len), out', r', is, v', q, rest)
    where
      len : length (contents capacity cap r) ≡ sub64 r.head r.tail
      len = length-slice capacity r.cells r.tail (sub64 r.head r.tail)

      go :
          (n : ℕ)
          → min (sub64 r.head r.tail) max_count ≡ n
          → (out' : ℕ → A) × (r' : Ring A) × (pop_many capacity r out max_count ≡ (n, out', r'))
            × IsRing capacity cap r'
            × (contents capacity cap r ≡ prefix out' 0 n ++ contents capacity cap r')
            × ((j : ℕ) → n ≤ j → out' j ≡ out j)
      go zero e = (out, r, ground (arith, e), v, refl, λ j h. refl)
      go (suc m) e =
          let small : suc m ≤ sub64 r.head r.tail = omega (arith, e) in
          let k = sub64 r.head r.tail - suc m in
          let whole : sub64 r.head r.tail ≡ suc m + k = omega (arith, small) in
          let shrunk : sub64 r.head (add64 r.tail (suc m)) ≡ k =
            omega (arith, small, v.head_word, v.tail_word) in
          let start : r.tail + 0 ≡ r.tail = omega arith in
          (
            read_many capacity (suc m) 0 r.tail r.cells out,
            record r { tail = add64 r.tail (suc m) },
            rw (e, nonzero m),
            record {
              head_word = v.head_word;
              tail_word = omega arith;
              fits = omega (arith, shrunk, v.fits);
            },
            ap (slice capacity r.cells r.tail) whole
                ∙ slice_append r.cells r.tail (suc m) k
                ∙ ap₂ (λ (q s : List A). q ++ s)
                    (sym (
                      read_many_lem (suc m) 0 r.tail r.cells out
                      ∙ ap (λ (x : ℕ). slice capacity r.cells x (suc m)) start))
                    (sym (
                      ap (slice capacity r.cells (add64 r.tail (suc m))) shrunk
                      ∙ taken capacity cap r.cells r.tail (suc m) k)),
            λ j h. read_many_above (suc m) 0 r.tail r.cells out j (omega (arith, h)),
          )
