-- ===== src/Tests/IndexTests.antt =====
-- src/order_index.hpp at a table of two cells.
use lowlat_matching_engine.Common.{ℕ, ◌≡◌, refl, arith, some, none, true, false, ◌∙◌}
use lowlat_matching_engine.Index
use lowlat_matching_engine.Index.{Table, fast_hash, robust_hash, insert, erase, find, new}
use lowlat_matching_engine.Index.Probing.{IsCapacity}
use lowlat_matching_engine.Index.Search.{IsValid}
use lowlat_matching_engine.Index.Write.{Inserted}
use lowlat_matching_engine.Index.Insert.{insert_present, insert_new, insert_full}
use lowlat_matching_engine.Index.Erase.{Erased, erase_present, new-IsValid}

two : IsCapacity 2
two = record { log = 1; single_bit = refl; many = omega arith; word = omega arith }

abbrev start : Table
start = new 2 fast_hash (λ i. i) (λ i. i)

new-IsValid_example : IsValid 2 fast_hash two start × ((q : ℕ) → find 2 fast_hash start q ≡ none)
new-IsValid_example = new-IsValid 2 fast_hash two (λ i. i) (λ i. i)

start_size : start.size ≡ 0
unfolding new Index.clear
start_size = refl

insert_new_example :
    (t : Table) × (insert 2 fast_hash start 5 70 ≡ (true, t))
    × Inserted 2 fast_hash two start 5 70 t
insert_new_example =
    insert_new 2 fast_hash two start 5 70 (omega arith) new-IsValid_example.0
      (new-IsValid_example.1 5) (omega (arith, start_size))

abbrev one_key : Table
one_key = insert_new_example.0

one_key_found : find 2 fast_hash one_key 5 ≡ some 70
one_key_found = insert_new_example.2.reads 5

insert_present_example : insert 2 fast_hash one_key 5 71 ≡ (false, one_key)
insert_present_example =
    insert_present 2 fast_hash two one_key 5 71 70 insert_new_example.2.valid one_key_found

second :
    (t : Table) × (insert 2 fast_hash one_key 7 80 ≡ (true, t))
    × Inserted 2 fast_hash two one_key 7 80 t
second =
    insert_new 2 fast_hash two one_key 7 80 (omega arith) insert_new_example.2.valid
      (insert_new_example.2.reads 7 ∙ new-IsValid_example.1 7)
      (omega (arith, start_size, insert_new_example.2.grown))

insert_full_example : insert 2 fast_hash second.0 9 90 ≡ (false, second.0)
insert_full_example =
    insert_full 2 fast_hash two second.0 9 90 second.2.valid
      (omega (arith, start_size, insert_new_example.2.grown, second.2.grown))

erase_present_example :
    (t : Table) × (erase 2 fast_hash second.0 5 ≡ (true, t)) × Erased 2 fast_hash two second.0 5 t
erase_present_example =
    erase_present 2 fast_hash two second.0 5 70 second.2.valid (second.2.reads 5 ∙ one_key_found)

-- Both keys hash to cell 1; the second is still found behind the tombstone of the first.
tombstone :
    let t₁ = (insert 2 fast_hash start 5 70).1 in
    let t₂ = (insert 2 fast_hash t₁ 7 80).1 in
    let t₃ = (erase 2 fast_hash t₂ 5).1 in
    (find 2 fast_hash t₃ 7 ≡ some 80) × (find 2 fast_hash t₃ 5 ≡ none)
unfolding insert erase find new fast_hash Index.wrap Index.clear
tombstone = (refl, refl)
