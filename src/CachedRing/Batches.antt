-- ===== src/CachedRing/Batches.antt =====
-- The batch calls of src/spsc_ring_cached.hpp do what those of src/spsc_ring.hpp do.
use mathlib.Core.Path.{subst}
use lowlat_matching_engine.Common.{
  ℕ, zero, suc, ◌-◌, ◌≤◌, ◌<◌, ◌≡◌, ◌≢◌, refl, sym, ◌⊎◌, inl, inr, arith, eq-cases, lt-cases, add64,
  sub64, false, min, ◌==◌,
}
use lowlat_matching_engine.Ring
use lowlat_matching_engine.Ring.{Ring, masked, write_many, read_many}
use lowlat_matching_engine.CachedRing.{CachedRing, put_many, take_many, push_many, pop_many}
use lowlat_matching_engine.CachedRing.Refine.{
  plain, IsCachedRing, reload_tail, reload_head, IsCachedRing-put, IsCachedRing-take,
}

nonzero : (m : ℕ) → (suc m == 0) ≡ false
nonzero m = ground arith

module _ {A : Type 0} (capacity : ℕ) where
  -- What a batch that is offered does: the ring without copies, offered `k` elements, does the same,
  -- and where nothing is pushed nothing was offered or nothing fits.
  pub record PushedMany (r : CachedRing A) (input : ℕ → A) (max_count : ℕ) (p : ℕ × CachedRing A)
      : Type 0 where
    pub offered : ℕ
    pub offered_few : offered ≤ max_count
    pub same : Ring.push_many capacity (plain r) input offered ≡ (p.0, plain p.1)
    pub valid : IsCachedRing capacity p.1
    pub stuck : p.0 ≡ 0 → (max_count ≡ 0) ⊎ (sub64 r.head r.tail ≡ capacity)

  put_many_lem :
      {r : CachedRing A} (input : ℕ → A) (max_count : ℕ)
      → IsCachedRing capacity r
      → sub64 r.head r.cached_tail < capacity
      → PushedMany r input max_count
          (put_many capacity r (sub64 r.head r.cached_tail) input max_count)
  unfolding put_many Ring.push_many
  put_many_lem {r} input max_count v room =
      go (min (sub64 capacity (sub64 r.head r.cached_tail)) max_count) refl
    where
      shown : sub64 capacity (sub64 r.head r.cached_tail) ≡ capacity - sub64 r.head r.cached_tail
      shown = omega (arith, room, v.word)

      there : sub64 capacity (sub64 r.head r.tail) ≡ capacity - sub64 r.head r.tail
      there = omega (arith, room, v.word, v.producer)

      Goal : ℕ × CachedRing A → Type 0
      Goal p = PushedMany r input max_count p

      go :
          (n : ℕ)
          → min (sub64 capacity (sub64 r.head r.cached_tail)) max_count ≡ n
          → Goal (put_many capacity r (sub64 r.head r.cached_tail) input max_count)
      go zero e =
          let is : put_many capacity r (sub64 r.head r.cached_tail) input max_count ≡ (0, r) =
            ground (arith, e) in
          subst Goal (sym is) (record {
            offered = 0;
            offered_few = omega arith;
            same = ground arith;
            valid = v;
            stuck = λ _. inl (omega (arith, e, shown, room));
          })
      go (suc m) e =
          let r' : CachedRing A = record r {
            cells = write_many capacity (suc m) 0 r.head input r.cells;
            head = add64 r.head (suc m);
          } in
          let is : put_many capacity r (sub64 r.head r.cached_tail) input max_count ≡ (suc m, r') =
            rw (e, nonzero m) in
          let count : min (sub64 capacity (sub64 r.head r.tail)) (suc m) ≡ suc m =
            omega (arith, e, shown, there, v.producer, room) in
          subst Goal (sym is) (record {
            offered = suc m;
            offered_few = omega (arith, e);
            same = rw (count, nonzero m);
            valid = IsCachedRing-put capacity (suc m) _ v (omega (arith, e, shown));
            stuck = λ z. absurd (omega (arith, z));
          })

  -- On a valid ring with cached counters push_many does what that of the ring without copies does
  -- when it is offered some number of elements that is no larger, the ring stays valid, and it
  -- pushes nothing only where nothing is offered or the ring is full.
  pub push_many-PushedMany :
      {r : CachedRing A} (input : ℕ → A) (max_count : ℕ)
      → IsCachedRing capacity r
      → PushedMany r input max_count (push_many capacity r input max_count)
  unfolding push_many Ring.push_many
  push_many-PushedMany {r} input max_count v =
      elim (lt-cases (sub64 r.head r.cached_tail) capacity) [
        | inl room ↦
            ended (put_many capacity r (sub64 r.head r.cached_tail) input max_count)
              (ground (arith, room)) (put_many_lem input max_count v room)
        | inr stale ↦ elim (lt-cases (sub64 r.head r.tail) capacity) [
          | inl room ↦
              let d =
                put_many_lem {r = record r { cached_tail = r.tail }} input max_count
                  (reload_tail capacity v) room in
              ended
                (put_many capacity (record r { cached_tail = r.tail }) (sub64 r.head r.tail) input
                  max_count)
                (ground (arith, stale, room))
                (record {
                  offered = d.offered;
                  offered_few = d.offered_few;
                  same = d.same;
                  valid = d.valid;
                  stuck = d.stuck;
                })
          | inr full ↦
              ended (0, record r { cached_tail = r.tail }) (ground (arith, stale, full))
                (record {
                  offered = 0;
                  offered_few = omega arith;
                  same = ground arith;
                  valid = reload_tail capacity v;
                  stuck = λ _. inr (omega (arith, full, v.producer, v.fits));
                })
        ]
      ]
    where
      ended :
          (p : ℕ × CachedRing A)
          → push_many capacity r input max_count ≡ p
          → PushedMany r input max_count p
          → PushedMany r input max_count (push_many capacity r input max_count)
      ended p is d = subst (PushedMany r input max_count) (sym is) d

  -- What a batch that is asked for does: the ring without copies, asked for `k` elements, does the
  -- same, and where nothing is popped nothing was asked for or there is nothing.
  pub record PoppedMany (r : CachedRing A) (out : ℕ → A) (max_count : ℕ)
      (p : ℕ × (ℕ → A) × CachedRing A) : Type 0 where
    pub asked : ℕ
    pub asked_few : asked ≤ max_count
    pub same : Ring.pop_many capacity (plain r) out asked ≡ (p.0, p.1, plain p.2)
    pub valid : IsCachedRing capacity p.2
    pub stuck : p.0 ≡ 0 → (max_count ≡ 0) ⊎ (r.head ≡ r.tail)

  take_many_lem :
      {r : CachedRing A} (out : ℕ → A) (max_count : ℕ)
      → IsCachedRing capacity r
      → r.cached_head ≢ r.tail
      → PoppedMany r out max_count (take_many capacity r out max_count)
  unfolding take_many Ring.pop_many
  take_many_lem {r} out max_count v shown = go (min (sub64 r.cached_head r.tail) max_count) refl
    where
      some_shown : 0 < sub64 r.cached_head r.tail
      some_shown = omega (arith, shown, v.cached_head_word, v.tail_word)

      go :
          (n : ℕ)
          → min (sub64 r.cached_head r.tail) max_count ≡ n
          → PoppedMany r out max_count (take_many capacity r out max_count)
      go zero e =
          let is : take_many capacity r out max_count ≡ (0, out, r) = ground (arith, e) in
          subst (PoppedMany r out max_count) (sym is) (record {
            asked = 0;
            asked_few = omega arith;
            same = ground arith;
            valid = v;
            stuck = λ _. inl (omega (arith, e, some_shown));
          })
      go (suc m) e =
          let is : take_many capacity r out max_count ≡ (
            suc m,
            read_many capacity (suc m) 0 r.tail r.cells out,
            record r { tail = add64 r.tail (suc m) },
          ) =
            rw (e, nonzero m) in
          let count : min (sub64 r.head r.tail) (suc m) ≡ suc m = omega (arith, e, v.consumer) in
          subst (PoppedMany r out max_count) (sym is) (record {
            asked = suc m;
            asked_few = omega (arith, e);
            same = rw (count, nonzero m);
            valid = IsCachedRing-take capacity (suc m) v (omega (arith, e));
            stuck = λ z. absurd (omega (arith, z));
          })

  -- On a valid ring with cached counters pop_many does what that of the ring without copies does
  -- when it is asked for some number of elements that is no larger, the ring stays valid, and it
  -- pops nothing only where nothing is asked for or the ring is empty.
  pub pop_many-PoppedMany :
      {r : CachedRing A} (out : ℕ → A) (max_count : ℕ)
      → IsCachedRing capacity r
      → PoppedMany r out max_count (pop_many capacity r out max_count)
  unfolding pop_many Ring.pop_many
  pop_many-PoppedMany {r} out max_count v = elim (eq-cases r.cached_head r.tail) [
    | inr shown ↦
        ended (take_many capacity r out max_count) (ground (arith, shown))
          (take_many_lem out max_count v shown)
    | inl stale ↦ elim (eq-cases r.head r.tail) [
      | inr apart ↦
          let d =
            take_many_lem {r = record r { cached_head = r.head }} out max_count
              (reload_head capacity v) apart in
          ended (take_many capacity (record r { cached_head = r.head }) out max_count)
            (ground (arith, stale, apart))
            (record {
              asked = d.asked;
              asked_few = d.asked_few;
              same = d.same;
              valid = d.valid;
              stuck = d.stuck;
            })
      | inl empty ↦
          ended (0, out, record r { cached_head = r.head }) (ground (arith, stale, empty))
            (record {
              asked = 0;
              asked_few = omega arith;
              same = ground arith;
              valid = reload_head capacity v;
              stuck = λ _. inr empty;
            })
    ]
  ]
    where
      ended :
          (p : ℕ × (ℕ → A) × CachedRing A)
          → pop_many capacity r out max_count ≡ p
          → PoppedMany r out max_count p
          → PoppedMany r out max_count (pop_many capacity r out max_count)
      ended p is d = subst (PoppedMany r out max_count) (sym is) d

  -- On a valid ring with cached counters push_many and pop_many do what those of the ring without
  -- copies do when offered, or asked for, some number of elements that is no larger; the ring
  -- stays valid, and nothing is moved only where nothing is offered or asked for, or the ring is
  -- full or empty.
  pub batch_calls_lem :
      {r : CachedRing A} (input out : ℕ → A) (max_count : ℕ)
      → IsCachedRing capacity r
      → PushedMany r input max_count (push_many capacity r input max_count)
        × PoppedMany r out max_count (pop_many capacity r out max_count)
  batch_calls_lem input out max_count v =
      (push_many-PushedMany input max_count v, pop_many-PoppedMany out max_count v)
