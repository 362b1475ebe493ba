-- ===== src/IndexBench/Ids.antt =====
-- The ids of bench/bench_order_index.cpp are distinct, and none is 0.
use lowlat_matching_engine.Common.{
  ℕ, zero, suc, ◌+◌, ◌*◌, ◌%◌, ◌^◌, ◌≤◌, ◌<◌, ◌≡◌, refl, inl, inr, arith, length, add64,
}
use lowlat_matching_engine.Index
use lowlat_matching_engine.Index.{IsId, Table, insert, find, erase}
use lowlat_matching_engine.Clob.Queues.{Elem, IsNodup}
use lowlat_matching_engine.IndexBench.{
  sequential_from, make_sequential_ids, bad_low_bit_from, make_bad_low_bit_ids, IdPattern,
  sequential, bad_low_bits, make_ids,
}

pub new_size :
    (capacity : ℕ) (hash : ℕ → ℕ) (keys values : ℕ → ℕ)
    → (Index.new capacity hash keys values).size ≡ 0
unfolding Index.new Index.clear
new_size capacity hash keys values = refl

length-sequential_from : (n i : ℕ) → length (sequential_from n i) ≡ n
unfolding sequential_from
length-sequential_from zero i = refl
length-sequential_from (suc n) i = omega (arith, length-sequential_from n (i + 1))

length-bad_low_bit_from : (n i : ℕ) → length (bad_low_bit_from n i) ≡ n
unfolding bad_low_bit_from
length-bad_low_bit_from zero i = refl
length-bad_low_bit_from (suc n) i = omega (arith, length-bad_low_bit_from n (i + 1))

sequential_above : (k n i : ℕ) → i + n < 2 ^ 54 → Elem k (sequential_from n i) → i + 1 ≤ k
unfolding sequential_from
sequential_above k zero i small e = absurd e
sequential_above k (suc n) i small (inl here) = omega (arith, here, small)
sequential_above k (suc n) i small (inr there) =
    omega (arith, sequential_above k n (i + 1) (omega (arith, small)) there)

bad_low_bit_above :
    (k n i : ℕ) → i + n < 2 ^ 54 → Elem k (bad_low_bit_from n i) → (i + 1) * 2 ^ 10 ≤ k
unfolding bad_low_bit_from
bad_low_bit_above k zero i small e = absurd e
bad_low_bit_above k (suc n) i small (inl here) = omega (arith, here, small)
bad_low_bit_above k (suc n) i small (inr there) =
    omega (arith, bad_low_bit_above k n (i + 1) (omega (arith, small)) there)

sequential-IsNodup : (n i : ℕ) → i + n < 2 ^ 54 → IsNodup (sequential_from n i)
unfolding sequential_from
sequential-IsNodup zero i small = tt
sequential-IsNodup (suc n) i small = (
  λ e. omega (arith, sequential_above (add64 i 1) n (i + 1) (omega (arith, small)) e, small),
  sequential-IsNodup n (i + 1) (omega (arith, small)),
)

bad_low_bit-IsNodup : (n i : ℕ) → i + n < 2 ^ 54 → IsNodup (bad_low_bit_from n i)
unfolding bad_low_bit_from
bad_low_bit-IsNodup zero i small = tt
bad_low_bit-IsNodup (suc n) i small = (
  λ e. omega (
    arith,
    bad_low_bit_above ((add64 i 1 * 2 ^ 10) % 2 ^ 64) n (i + 1) (omega (arith, small)) e,
    small,
  ),
  bad_low_bit-IsNodup n (i + 1) (omega (arith, small)),
)

-- There are `n` ids, all different.
pub make_ids-IsNodup :
    (pattern_of_ids : IdPattern) (n : ℕ)
    → n < 2 ^ 54
    → (length (make_ids pattern_of_ids n) ≡ n) × IsNodup (make_ids pattern_of_ids n)
unfolding make_ids make_sequential_ids make_bad_low_bit_ids
make_ids-IsNodup sequential n small =
    (length-sequential_from n 0, sequential-IsNodup n 0 (omega (arith, small)))
make_ids-IsNodup bad_low_bits n small =
    (length-bad_low_bit_from n 0, bad_low_bit-IsNodup n 0 (omega (arith, small)))

pub make_ids-IsId :
    (pattern_of_ids : IdPattern) (n : ℕ)
    → n < 2 ^ 54
    → (q : ℕ) → Elem q (make_ids pattern_of_ids n)
    → IsId q
unfolding make_ids make_sequential_ids make_bad_low_bit_ids
make_ids-IsId sequential n small q e =
    let above = sequential_above q n 0 (omega (arith, small)) e in omega (arith, above)
make_ids-IsId bad_low_bits n small q e =
    let above = bad_low_bit_above q n 0 (omega (arith, small)) e in omega (arith, above)
