-- ===== src/IndexBench.antt =====
-- bench/bench_order_index.cpp: ids inserted into a new index, looked up and erased. The benchmarks of
-- `std::unordered_map` are left out.
pub mod Ids
pub mod Rounds
use lowlat_matching_engine.Common.{
  ℕ, zero, suc, ◌+◌, ◌*◌, ◌%◌, ◌^◌, Bool, Option, List, [], ◌∷◌, add64,
}
use lowlat_matching_engine.Index
use lowlat_matching_engine.Index.{Table, insert, find, erase}

-- `for (i = 0; i < n; ++i) ids.push_back(...)`, with the rounds that are left.
unfoldable pub sequential_from : ℕ → ℕ → List ℕ
sequential_from zero i = []
sequential_from (suc rounds) i = add64 i 1 ∷ sequential_from rounds (i + 1)

unfoldable pub make_sequential_ids : ℕ → List ℕ
unfolding sequential_from
make_sequential_ids n = sequential_from n 0

unfoldable pub bad_low_bit_from : ℕ → ℕ → List ℕ
bad_low_bit_from zero i = []
bad_low_bit_from (suc rounds) i = (add64 i 1 * 2 ^ 10) % 2 ^ 64 ∷ bad_low_bit_from rounds (i + 1)

unfoldable pub make_bad_low_bit_ids : ℕ → List ℕ
unfolding bad_low_bit_from
make_bad_low_bit_ids n = bad_low_bit_from n 0

pub data IdPattern : Type 0 where
  sequential bad_low_bits : IdPattern

unfoldable pub make_ids : IdPattern → ℕ → List ℕ
make_ids sequential n = make_sequential_ids n
make_ids bad_low_bits n = make_bad_low_bit_ids n

abbrev pub index_capacity : ℕ
index_capacity = 2097152

module _ (capacity : ℕ) (hash : ℕ → ℕ) where
  abbrev pub insert_order : Table → ℕ → Bool × Table
  insert_order index id = insert capacity hash index id 1

  -- The loops over the ids, with the answers of the calls.
  unfoldable pub insert_each : Table → List ℕ → List Bool × Table
  insert_each index [] = ([], index)
  insert_each index (id ∷ ids) =
      let (answer, index₁) = insert_order index id in
      let (answers, index₂) = insert_each index₁ ids in (answer ∷ answers, index₂)

  unfoldable pub find_each : Table → List ℕ → List (Option ℕ)
  find_each index [] = []
  find_each index (id ∷ ids) = find capacity hash index id ∷ find_each index ids

  unfoldable pub erase_each : Table → List ℕ → List Bool × Table
  erase_each index [] = ([], index)
  erase_each index (id ∷ ids) =
      let (answer, index₁) = erase capacity hash index id in
      let (answers, index₂) = erase_each index₁ ids in (answer ∷ answers, index₂)

  -- `keys` and `values` are what the memory of the new index contains.
  module _ (keys values : ℕ → ℕ) (pattern_of_ids : IdPattern) (n : ℕ) where
    unfoldable pub run_index_insert : List Bool × Table
    run_index_insert = insert_each (Index.new capacity hash keys values) (make_ids pattern_of_ids n)

    unfoldable pub run_index_find : List (Option ℕ)
    run_index_find =
        find_each (insert_each (Index.new capacity hash keys values) (make_ids pattern_of_ids n)).1
          (make_ids pattern_of_ids n)

    unfoldable pub run_index_erase : List Bool × Table
    run_index_erase =
        erase_each (insert_each (Index.new capacity hash keys values) (make_ids pattern_of_ids n)).1
          (make_ids pattern_of_ids n)
