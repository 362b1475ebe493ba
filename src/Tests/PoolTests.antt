-- ===== src/Tests/PoolTests.antt =====
-- src/order_pool.hpp at a pool of two orders.
use lowlat_matching_engine.Common.{ℕ, ◌≡◌, ◌<◌, ◌+◌, ◌↔◌, refl, arith, some, none, true}
use lowlat_matching_engine.Pool.{Pool, new, allocate, release, used, empty}
use lowlat_matching_engine.Pool.Laws.{
  IsFree, IsValid, Allocated, Released, new_lem, allocate-Allocated, release-Released,
  release-allocate, allocate-release, used_lem,
}

abbrev two : Pool
two = new 2

abbrev one_left : Pool
one_left = (allocate two).1

allocate_twice :
    ((allocate two).0 ≡ some 1)
    × ((allocate one_left).0 ≡ some 0)
    × ((allocate (allocate one_left).1).0 ≡ none)
unfolding new allocate
allocate_twice = (refl, refl, refl)

new_lem_example : IsValid 2 two × ((i : ℕ) → i < 2 → IsFree two i)
new_lem_example = new_lem 2 (omega arith)

allocated : allocate two ≡ (some 1, one_left)
unfolding new allocate
allocated = refl

one_left-Allocated : Allocated 2 two 1 one_left
one_left-Allocated = allocate-Allocated new_lem_example.0 allocated

release-Released_example : Released 2 one_left 1 (release one_left 1)
release-Released_example =
    release-Released one_left-Allocated.valid (omega arith)
      (omega (arith, one_left-Allocated.shrunk, new_lem_example.0.fits)) one_left-Allocated.taken

release-allocate_example : release one_left 1 ≡ two
release-allocate_example = release-allocate new_lem_example.0 allocated

allocate-release_example : (allocate (release one_left 0)).0 ≡ some 0
allocate-release_example =
    allocate-release 0 one_left-Allocated.valid
      (omega (arith, one_left-Allocated.shrunk, new_lem_example.0.fits))

used_lem_example : (used 2 two + two.top ≡ 2) × ((empty 2 two ≡ true) ↔ (used 2 two ≡ 0))
used_lem_example = used_lem new_lem_example.0
