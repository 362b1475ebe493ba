-- ===== src/Tests/IndexBenchTests.antt =====
-- bench/bench_order_index.cpp at its smallest size.
use lowlat_matching_engine.Common.{ℕ, ◌≡◌, refl, arith, true, some, map}
use lowlat_matching_engine.Index.{Table, fast_hash}
use lowlat_matching_engine.Index.Probing.{IsCapacity}
use lowlat_matching_engine.IndexBench.{
  bad_low_bits, make_ids, index_capacity, run_index_insert, run_index_find, run_index_erase,
}
use lowlat_matching_engine.IndexBench.Rounds.{run_index_lem}

cap : IsCapacity index_capacity
cap = record { log = 21; single_bit = refl; many = omega arith; word = omega arith }

abbrev memory : ℕ → ℕ
memory i = i

run_index_lem_example :
    (t : Table) × (run_index_insert index_capacity fast_hash memory memory bad_low_bits 1000
      ≡ (map (λ _. true) (make_ids bad_low_bits 1000), t))
    × (t.size ≡ 1000)
    × (run_index_find index_capacity fast_hash memory memory bad_low_bits 1000
        ≡ map (λ _. some 1) (make_ids bad_low_bits 1000))
    × (t' : Table) × (run_index_erase index_capacity fast_hash memory memory bad_low_bits 1000
        ≡ (map (λ _. true) (make_ids bad_low_bits 1000), t'))
    × (t'.size ≡ 0)
run_index_lem_example =
    run_index_lem index_capacity fast_hash cap memory memory bad_low_bits 1000 (omega arith)
      (omega arith)
