-- ===== src/Pool/Laws.antt =====
-- The free stack of src/order_pool.hpp: what is free, and what each operation does to it.
use lowlat_matching_engine.Common.{
  ℕ, zero, suc, ◌+◌, ◌-◌, ◌%◌, ◌^◌, ◌≤◌, ◌<◌, ◌≡◌, ◌≢◌, refl, ap, inl, inr, none, some, arith,
  update, update_self, update_same, add64, eq-cases, true, ◌↔◌,
}
use lowlat_matching_engine.Pool.{Pool, fill, new, allocate, release, used, empty}

-- `i` stands on the free stack.
abbrev pub IsFree : Pool → ℕ → Type 0
IsFree p i = (k : ℕ) × (k < p.top) × (p.free_stack k ≡ i)

-- The stack holds in-range indices, each once. A 32-bit index must name every order.
pub record IsValid (max_orders : ℕ) (p : Pool) : Type 0 where
  pub small : max_orders < 2 ^ 32
  pub fits : p.top ≤ max_orders
  pub in_range : (k : ℕ) → k < p.top → p.free_stack k < max_orders
  pub distinct : (j k : ℕ) → j < p.top → k < p.top → p.free_stack j ≡ p.free_stack k → j ≡ k

pub IsValid-congr :
    {max_orders : ℕ} (p p' : Pool)
    → p'.free_stack ≡ p.free_stack
    → p'.top ≡ p.top
    → IsValid max_orders p
    → IsValid max_orders p'
IsValid-congr p p' stack top v = record {
  small = v.small;
  fits = omega (arith, top, v.fits);
  in_range =
      λ k h. omega (arith, ap (λ (f : ℕ → ℕ). f k) stack, v.in_range k (omega (arith, top, h)));
  distinct = λ j k hj hk e.
      v.distinct j k (omega (arith, top, hj)) (omega (arith, top, hk))
        (omega (arith, ap (λ (f : ℕ → ℕ). f j) stack, ap (λ (f : ℕ → ℕ). f k) stack, e));
}

fill_lem :
    (rounds i : ℕ) (stack : ℕ → ℕ)
    → i + rounds < 2 ^ 32
    → ((k : ℕ) → k < i → stack k ≡ k)
    → (k : ℕ) → k < i + rounds
    → fill rounds i stack k ≡ k
unfolding fill
fill_lem zero i stack small done k h = done k (omega arith)
fill_lem (suc rounds) i stack small done k h =
    let next : (i + 1) % 2 ^ 32 ≡ i + 1 = omega arith in
    fill_lem rounds ((i + 1) % 2 ^ 32) (update stack i i) (omega arith)
      (λ j hj. ground (arith, done j)) k (omega arith)

-- A new pool of fewer than 2^32 orders is valid and has every index free.
pub new_lem :
    (max_orders : ℕ)
    → max_orders < 2 ^ 32
    → IsValid max_orders (new max_orders) × ((i : ℕ) → i < max_orders → IsFree (new max_orders) i)
unfolding new
new_lem max_orders small =
    let filled = fill_lem max_orders 0 (λ _. 0) (omega arith) (λ k h. absurd (omega arith)) in
    (
      record {
        small = small;
        fits = omega arith;
        in_range = λ k h. omega (arith, filled k (omega arith));
        distinct = λ j k hj hk e. omega (arith, filled j (omega arith), filled k (omega arith));
      },
      λ i h. (i, h, filled i (omega arith)),
    )

-- What `allocate` returns on each branch.
pub allocate-none : (p : Pool) → p.top ≡ 0 → allocate p ≡ (none, p)
unfolding allocate
allocate-none p h = ground arith

pub allocate-some :
    (p : Pool)
    → p.top ≢ 0
    → allocate p ≡ (some (p.free_stack (p.top - 1)), record p { top = p.top - 1 })
unfolding allocate
allocate-some p h = ground arith

-- The index that `allocate` returns is in range, was free and is not free any more; all other
-- indices keep their state, and the pool stays valid.
pub record Allocated (max_orders : ℕ) (p : Pool) (idx : ℕ) (p' : Pool) : Type 0 where
  pub valid : IsValid max_orders p'
  pub in_range : idx < max_orders
  pub was_free : IsFree p idx
  pub taken : ¬ IsFree p' idx
  pub others_kept : (i : ℕ) → i ≢ idx → IsFree p i → IsFree p' i
  pub none_added : (i : ℕ) → IsFree p' i → IsFree p i
  pub shrunk : p'.top + 1 ≡ p.top
  pub orders_kept : p'.orders ≡ p.orders

-- An index that allocate returns is in range, was free and is free no more; no other index
-- changes, and the pool stays valid.
pub allocate-Allocated :
    {max_orders : ℕ} {p : Pool} {idx : ℕ} {p' : Pool}
    → IsValid max_orders p
    → allocate p ≡ (some idx, p')
    → Allocated max_orders p idx p'
unfolding allocate
allocate-Allocated {max_orders} {p} {idx} {p'} v e = elim (eq-cases p.top 0) [
  | inl z ↦ ground arith
  | inr nz ↦
      let top : p'.top ≡ p.top - 1 = ground arith in
      let stack : p'.free_stack ≡ p.free_stack = ground arith in
      let got : p.free_stack (p.top - 1) ≡ idx = ground arith in
      let st = λ (k : ℕ). ap (λ (f : ℕ → ℕ). f k) stack in
      record {
        valid = record {
          small = v.small;
          fits = omega (arith, v.fits);
          in_range = λ k h. omega (arith, st k, v.in_range k (omega arith));
          distinct =
              λ j k hj hk q. v.distinct j k (omega arith) (omega arith) (omega (arith, st j, st k));
        };
        in_range = omega (arith, v.in_range (p.top - 1) (omega arith));
        was_free = (p.top - 1, omega arith, got);
        taken = λ f. omega (
          arith,
          v.distinct f.0 (p.top - 1) (omega (arith, f.1)) (omega arith)
              (omega (arith, f.2, st f.0)),
          f.1,
        );
        others_kept = λ i ne f. (f.0, still i ne f nz top got, omega (arith, st f.0, f.2));
        none_added = λ i f. (f.0, omega (arith, f.1), omega (arith, st f.0, f.2));
        shrunk = omega arith;
        orders_kept = ground arith;
      }
]
  where
    still :
        (i : ℕ)
        → i ≢ idx
        → (f : IsFree p i) → p.top ≢ 0
        → p'.top ≡ p.top - 1
        → p.free_stack (p.top - 1) ≡ idx
        → f.0 < p'.top
    still i ne f nz top got = elim (eq-cases f.0 (p.top - 1)) [
      | inl same ↦ absurd (ne (omega (arith, f.2, ap p.free_stack same)))
      | inr other ↦ omega (arith, f.1)
    ]

-- After `release idx` the index is free, all other indices keep their state, and the pool stays
-- valid.
pub record Released (max_orders : ℕ) (p : Pool) (idx : ℕ) (p' : Pool) : Type 0 where
  pub valid : IsValid max_orders p'
  pub freed : IsFree p' idx
  pub others_kept : (i : ℕ) → IsFree p i → IsFree p' i
  pub none_added : (i : ℕ) → i ≢ idx → IsFree p' i → IsFree p i
  pub grown : p'.top ≡ p.top + 1
  pub orders_kept : p'.orders ≡ p.orders

-- `release` of an index that is in range and not free makes it free, changes no other index and
-- keeps the pool valid.
pub release-Released :
    {max_orders : ℕ} {p : Pool} {idx : ℕ}
    → IsValid max_orders p
    → idx < max_orders
    → p.top < max_orders
    → ¬ IsFree p idx
    → Released max_orders p idx (release p idx)
unfolding release
release-Released {max_orders} {p} {idx} v small room busy =
    let top : add64 p.top 1 ≡ p.top + 1 = omega (arith, v.small) in
    record {
      valid = record {
        small = v.small;
        fits = omega arith;
        in_range = λ k h. ground (arith, v.in_range k);
        distinct = λ j k hj hk q. ground (
          arith,
          v.distinct j k,
          λ (r : p.free_stack j ≡ idx) (s : j < p.top). busy (j, s, r),
          λ (r : p.free_stack k ≡ idx) (s : k < p.top). busy (k, s, r),
        );
      };
      freed = (p.top, omega arith, update_self p.free_stack p.top idx);
      others_kept = λ i f. (f.0, omega (arith, f.1), ground (arith, f.1, f.2));
      none_added = λ i ne f. (f.0, ground (arith, f.1, f.2), ground (arith, f.1, f.2));
      grown = top;
      orders_kept = refl;
    }

-- Releasing the index that was just allocated restores the pool.
pub release-allocate :
    {max_orders : ℕ} {p : Pool} {idx : ℕ} {p' : Pool}
    → IsValid max_orders p
    → allocate p ≡ (some idx, p')
    → release p' idx ≡ p
unfolding allocate release
release-allocate {p} {idx} {p'} v e = elim (eq-cases p.top 0) [
  | inl z ↦ ground arith
  | inr nz ↦
      let got : p.free_stack (p.top - 1) ≡ idx = ground arith in
      let rest : record p { top = p.top - 1 } ≡ p' = ground arith in
      let top : add64 (p.top - 1) 1 ≡ p.top = omega (arith, v.small, v.fits) in
      rw (← rest, ← got, update_same p.free_stack (p.top - 1), top)
]

-- An index given back is the next one handed out.
pub allocate-release :
    {max_orders : ℕ} {p : Pool} (idx : ℕ)
    → IsValid max_orders p
    → p.top < max_orders
    → (allocate (release p idx)).0 ≡ some idx
unfolding allocate release
allocate-release {p} idx v room =
    let top : add64 p.top 1 ≡ p.top + 1 = omega (arith, v.small) in ground arith

-- `used` and the free indices add up to the capacity, and empty holds exactly when used is zero.
pub used_lem :
    {max_orders : ℕ} {p : Pool}
    → IsValid max_orders p
    → (used max_orders p + p.top ≡ max_orders)
      × ((empty max_orders p ≡ true) ↔ (used max_orders p ≡ 0))
unfolding used empty
used_lem {max_orders} {p} v = (omega (arith, v.small, v.fits), ground (arith, v.small, v.fits))
