-- ===== src/Tests/RingTests.antt =====
-- src/spsc_ring.hpp and src/spsc_ring_cached.hpp at two cells, with counters about to wrap.
use lowlat_matching_engine.Common.{
  ℕ, ◌-◌, ◌^◌, ◌≤◌, ◌<◌, ◌≡◌, ◌⊎◌, refl, arith, true, false, some, none, List, [], ◌∷◌, ◌++◌,
  length, min, prefix,
}
use lowlat_matching_engine.Ring
use lowlat_matching_engine.Ring.{Ring, push, pop, push_many, pop_many}
use lowlat_matching_engine.Ring.Slice.{IsRingCapacity}
use lowlat_matching_engine.Ring.Calls.{contents, IsRing, push_lem, pop_lem}
use lowlat_matching_engine.Ring.Batches.{push_many_lem, pop_many_lem}
use lowlat_matching_engine.CachedRing
use lowlat_matching_engine.CachedRing.{CachedRing}
use lowlat_matching_engine.CachedRing.Refine.{plain, IsCachedRing, calls_lem}
use lowlat_matching_engine.CachedRing.Batches.{PushedMany, PoppedMany, batch_calls_lem}

two : IsRingCapacity 2
two = record { log = 1; single_bit = refl; small = omega arith; many = omega arith }

-- One element, 7, at the last counter before the wrap-around.
abbrev one : Ring ℕ
one = record { cells = λ _. 7; head = 0; tail = 2 ^ 64 - 1 }

one-IsRing : IsRing 2 two one
one-IsRing = record { head_word = omega arith; tail_word = omega arith; fits = omega arith }

push_lem_example :
    ((length (contents 2 two one) ≡ 2) × (push 2 one 8 ≡ (false, one)))
    ⊎ ((length (contents 2 two one) < 2)
        × (r : Ring ℕ) × (push 2 one 8 ≡ (true, r))
        × IsRing 2 two r
        × (contents 2 two r ≡ contents 2 two one ++ 8 ∷ []))
push_lem_example = push_lem 2 two 8 one-IsRing

pop_lem_example :
    ((contents 2 two one ≡ []) × (pop 2 one ≡ (none, one)))
    ⊎ ((x : ℕ) × (xs : List ℕ) × (contents 2 two one ≡ x ∷ xs)
        × (r : Ring ℕ) × (pop 2 one ≡ (some x, r))
        × IsRing 2 two r
        × (contents 2 two r ≡ xs))
pop_lem_example = pop_lem 2 two one-IsRing

push_many_lem_example :
    (n : ℕ) × (n ≡ min (2 - length (contents 2 two one)) 5)
    × (r : Ring ℕ) × (push_many 2 one (λ i. i) 5 ≡ (n, r))
    × IsRing 2 two r
    × (contents 2 two r ≡ contents 2 two one ++ prefix (λ i. i) 0 n)
push_many_lem_example = push_many_lem 2 two (λ i. i) 5 one-IsRing

pop_many_lem_example :
    (n : ℕ) × (n ≡ min (length (contents 2 two one)) 3)
    × (out : ℕ → ℕ) × (r : Ring ℕ) × (pop_many 2 one (λ _. 0) 3 ≡ (n, out, r))
    × IsRing 2 two r
    × (contents 2 two one ≡ prefix out 0 n ++ contents 2 two r)
    × ((j : ℕ) → n ≤ j → out j ≡ 0)
pop_many_lem_example = pop_many_lem 2 two (λ _. 0) 3 one-IsRing

-- The copies are stale: the producer sees a full ring and the consumer an empty one.
abbrev stale : CachedRing ℕ
stale = record {
  cells = λ _. 7;
  head = 0;
  cached_tail = 2 ^ 64 - 2;
  tail = 2 ^ 64 - 1;
  cached_head = 2 ^ 64 - 1;
}

stale-IsCachedRing : IsCachedRing 2 stale
stale-IsCachedRing = record {
  word = omega arith;
  head_word = omega arith;
  tail_word = omega arith;
  cached_tail_word = omega arith;
  cached_head_word = omega arith;
  producer = omega arith;
  fits = omega arith;
  consumer = omega arith;
}

calls_lem_example :
    ((push 2 (plain stale) 8 ≡ ((CachedRing.push 2 stale 8).0, plain (CachedRing.push 2 stale 8).1))
      × IsCachedRing 2 (CachedRing.push 2 stale 8).1)
    × ((pop 2 (plain stale) ≡ ((CachedRing.pop 2 stale).0, plain (CachedRing.pop 2 stale).1))
        × IsCachedRing 2 (CachedRing.pop 2 stale).1)
calls_lem_example = calls_lem 2 8 stale-IsCachedRing

batch_calls_lem_example :
    PushedMany 2 stale (λ i. i) 5 (CachedRing.push_many 2 stale (λ i. i) 5)
    × PoppedMany 2 stale (λ _. 0) 5 (CachedRing.pop_many 2 stale (λ _. 0) 5)
batch_calls_lem_example = batch_calls_lem 2 (λ i. i) (λ _. 0) 5 stale-IsCachedRing

abbrev fresh : Ring ℕ
fresh = Ring.new 0

-- A new ring, used across its capacity.
new_run :
    let r₁ = (push 2 fresh 4).1 in
    let r₂ = (push 2 r₁ 5).1 in
    let r₃ = (pop 2 r₂).1 in
    let r₄ = (push 2 r₃ 6).1 in
    ((push 2 r₂ 9).0 ≡ false) × ((pop 2 r₂).0 ≡ some 4) × ((pop 2 r₄).0 ≡ some 5)
unfolding Ring.new push pop Ring.masked
new_run = (refl, refl, refl)
