-- ===== src/CachedRing/Refine.antt =====
-- The ring of src/spsc_ring_cached.hpp does what that of src/spsc_ring.hpp does.
use mathlib.Core.Path.{subst}
use lowlat_matching_engine.Common.{
  ℕ, ◌+◌, ◌^◌, ◌≤◌, ◌<◌, ◌≡◌, ◌≢◌, sym, inl, inr, arith, Option, none, eq-cases, lt-cases, add64,
  sub64, Bool, false,
}
use lowlat_matching_engine.Ring
use lowlat_matching_engine.Ring.{Ring, masked, write_many, read_many}
use lowlat_matching_engine.CachedRing.{CachedRing, put, take, push, pop}

module _ {A : Type 0} where
  -- The ring without the copies.
  abbrev pub plain : CachedRing A → Ring A
  plain r = record { cells = r.cells; head = r.head; tail = r.tail }

  -- The copies lag behind: the producer's does not show fewer elements than there are, nor more than
  -- fit, and the consumer's does not show more than there are.
  pub record IsCachedRing (capacity : ℕ) (r : CachedRing A) : Type 0 where
    pub word : capacity < 2 ^ 64
    pub head_word : r.head < 2 ^ 64
    pub tail_word : r.tail < 2 ^ 64
    pub cached_tail_word : r.cached_tail < 2 ^ 64
    pub cached_head_word : r.cached_head < 2 ^ 64
    pub producer : sub64 r.head r.tail ≤ sub64 r.head r.cached_tail
    pub fits : sub64 r.head r.cached_tail ≤ capacity
    pub consumer : sub64 r.cached_head r.tail ≤ sub64 r.head r.tail

  module _ (capacity : ℕ) where
    pub reload_tail :
        {r : CachedRing A}
        → IsCachedRing capacity r
        → IsCachedRing capacity (record r { cached_tail = r.tail })
    reload_tail v = record {
      word = v.word;
      head_word = v.head_word;
      tail_word = v.tail_word;
      cached_tail_word = v.tail_word;
      cached_head_word = v.cached_head_word;
      producer = omega arith;
      fits = omega (arith, v.fits, v.producer);
      consumer = v.consumer;
    }

    pub reload_head :
        {r : CachedRing A}
        → IsCachedRing capacity r
        → IsCachedRing capacity (record r { cached_head = r.head })
    reload_head v = record {
      word = v.word;
      head_word = v.head_word;
      tail_word = v.tail_word;
      cached_tail_word = v.cached_tail_word;
      cached_head_word = v.head_word;
      producer = v.producer;
      fits = v.fits;
      consumer = omega arith;
    }

    -- Storing `n` elements where the producer's copy shows that there is room.
    pub IsCachedRing-put :
        {r : CachedRing A} (n : ℕ) (cells : ℕ → A)
        → IsCachedRing capacity r
        → sub64 r.head r.cached_tail + n ≤ capacity
        → IsCachedRing capacity (record r { cells = cells; head = add64 r.head n })
    IsCachedRing-put {r} n cells v room =
        let shown : sub64 (add64 r.head n) r.cached_tail ≡ sub64 r.head r.cached_tail + n =
          omega (arith, room, v.word, v.head_word, v.cached_tail_word) in
        let there : sub64 (add64 r.head n) r.tail ≡ sub64 r.head r.tail + n =
          omega (arith, room, v.word, v.head_word, v.tail_word, v.producer) in
        record {
          word = v.word;
          head_word = omega arith;
          tail_word = v.tail_word;
          cached_tail_word = v.cached_tail_word;
          cached_head_word = v.cached_head_word;
          producer = omega (arith, shown, there, v.producer);
          fits = omega (arith, shown, room);
          consumer = omega (arith, there, v.consumer);
        }

    -- Taking `n` elements where the consumer's copy shows that they are there.
    pub IsCachedRing-take :
        {r : CachedRing A} (n : ℕ)
        → IsCachedRing capacity r
        → n ≤ sub64 r.cached_head r.tail
        → IsCachedRing capacity (record r { tail = add64 r.tail n })
    IsCachedRing-take {r} n v some_there =
        let shown : sub64 r.cached_head (add64 r.tail n) + n ≡ sub64 r.cached_head r.tail =
          omega (arith, some_there, v.cached_head_word, v.tail_word) in
        let there : sub64 r.head (add64 r.tail n) + n ≡ sub64 r.head r.tail =
          omega (arith, some_there, v.head_word, v.tail_word, v.consumer) in
        record {
          word = v.word;
          head_word = v.head_word;
          tail_word = omega arith;
          cached_tail_word = v.cached_tail_word;
          cached_head_word = v.cached_head_word;
          producer = omega (arith, there, v.producer);
          fits = v.fits;
          consumer = omega (arith, shown, there, v.consumer);
        }

    -- On a valid ring with cached counters push answers and stores as push of the ring without
    -- copies does, and the ring stays valid.
    pub push-Ring :
        {r : CachedRing A} (x : A)
        → IsCachedRing capacity r
        → (Ring.push capacity (plain r) x ≡ ((push capacity r x).0, plain (push capacity r x).1))
          × IsCachedRing capacity (push capacity r x).1
    unfolding push put Ring.push
    push-Ring {r} x v = elim (lt-cases (sub64 r.head r.cached_tail) capacity) [
      | inl room ↦
          let room' : sub64 r.head r.tail < capacity = omega (arith, room, v.producer) in
          ended (put capacity r x) (ground (arith, room)) (ground (arith, room'))
            (IsCachedRing-put 1 _ v (omega (arith, room)))
      | inr stale ↦ elim (lt-cases (sub64 r.head r.tail) capacity) [
        | inl room ↦
            ended (put capacity (record r { cached_tail = r.tail }) x) (ground (arith, stale, room))
              (ground (arith, room)) (IsCachedRing-put 1 _ (reload_tail v) (omega (arith, room)))
        | inr full ↦
            ended (false, record r { cached_tail = r.tail }) (ground (arith, stale, full))
              (ground (arith, full)) (reload_tail v)
      ]
    ]
      where
        ended :
            (p : Bool × CachedRing A)
            → push capacity r x ≡ p
            → Ring.push capacity (plain r) x ≡ (p.0, plain p.1)
            → IsCachedRing capacity p.1
            → (Ring.push capacity (plain r) x
                ≡ ((push capacity r x).0, plain (push capacity r x).1))
              × IsCachedRing capacity (push capacity r x).1
        ended p is same valid =
            subst
              (λ (q : Bool × CachedRing A).
                (Ring.push capacity (plain r) x ≡ (q.0, plain q.1)) × IsCachedRing capacity q.1)
              (sym is) (same, valid)

    -- On a valid ring with cached counters pop answers and takes as pop of the ring without copies
    -- does, and the ring stays valid.
    pub pop-Ring :
        {r : CachedRing A}
        → IsCachedRing capacity r
        → (Ring.pop capacity (plain r) ≡ ((pop capacity r).0, plain (pop capacity r).1))
          × IsCachedRing capacity (pop capacity r).1
    unfolding pop take Ring.pop
    pop-Ring {r} v = elim (eq-cases r.cached_head r.tail) [
      | inr shown ↦
          let some_shown : 1 ≤ sub64 r.cached_head r.tail =
            omega (arith, shown, v.cached_head_word, v.tail_word) in
          let apart : r.head ≢ r.tail = λ e. omega (arith, e, some_shown, v.consumer) in
          ended (take capacity r) (ground (arith, shown)) (ground (arith, apart))
            (IsCachedRing-take 1 v some_shown)
      | inl stale ↦ elim (eq-cases r.head r.tail) [
        | inr apart ↦
            let some_there : 1 ≤ sub64 r.head r.tail =
              omega (arith, apart, v.head_word, v.tail_word) in
            ended (take capacity (record r { cached_head = r.head })) (ground (arith, stale, apart))
              (ground (arith, apart)) (IsCachedRing-take 1 (reload_head v) some_there)
        | inl empty ↦
            ended (none, record r { cached_head = r.head }) (ground (arith, stale, empty))
              (ground (arith, empty)) (reload_head v)
      ]
    ]
      where
        ended :
            (p : Option A × CachedRing A)
            → pop capacity r ≡ p
            → Ring.pop capacity (plain r) ≡ (p.0, plain p.1)
            → IsCachedRing capacity p.1
            → (Ring.pop capacity (plain r) ≡ ((pop capacity r).0, plain (pop capacity r).1))
              × IsCachedRing capacity (pop capacity r).1
        ended p is same valid =
            subst
              (λ (q : Option A × CachedRing A).
                (Ring.pop capacity (plain r) ≡ (q.0, plain q.1)) × IsCachedRing capacity q.1)
              (sym is) (same, valid)

    -- On a valid ring with cached counters push and pop answer, store and take as those of the
    -- ring without copies do, whatever the copies show, and the ring stays valid.
    pub calls_lem :
        {r : CachedRing A} (x : A)
        → IsCachedRing capacity r
        → ((Ring.push capacity (plain r) x ≡ ((push capacity r x).0, plain (push capacity r x).1))
            × IsCachedRing capacity (push capacity r x).1)
          × ((Ring.pop capacity (plain r) ≡ ((pop capacity r).0, plain (pop capacity r).1))
              × IsCachedRing capacity (pop capacity r).1)
    calls_lem x v = (push-Ring x v, pop-Ring v)
