-- ===== src/Tests/LatencyTests.antt =====
-- src/latency_stats.hpp at three samples, with `p` one half.
use lowlat_matching_engine.Common.{ℕ, ◌≡◌, ◌*◌, ◌/◌, refl, arith, [], ◌∷◌, true, some}
use lowlat_matching_engine.LatencyStats.{
  LatencyStats, add, ensure_sorted, percentile, Report, print,
}
use lowlat_matching_engine.LatencyStats.Printed.{IsReport, print_lem}
use lowlat_matching_engine.LatencyStats.Percentile.{
  IsCurrent, IsPercentile, percentile-IsPercentile,
}

abbrev three : LatencyStats
three = record { samples = 30 ∷ 10 ∷ 20 ∷ []; sorted_samples = 10 ∷ 30 ∷ []; sorted_dirty = true }

abbrev half : ℕ → ℕ
half n = n / 2

three-IsCurrent : IsCurrent three
three-IsCurrent e = ground (arith, e)

percentile-IsPercentile_example :
    IsPercentile three half (percentile three half).0 (percentile three half).1
percentile-IsPercentile_example = percentile-IsPercentile three half three-IsCurrent (omega arith)

median : (percentile three half).0 ≡ 20
unfolding percentile
median = refl

added : (percentile (add (percentile three half).1 5) half).0 ≡ 10
unfolding percentile add
added = refl

-- The positions of `p` in thousandths.
abbrev thousandths : ℕ → ℕ → ℕ
thousandths p n = n * p / 1000

abbrev whole_mean : ℕ → ℕ → ℕ
whole_mean sum count = sum / count

print_lem_example :
    (r : Report ℕ) × (print
        (thousandths 500)
        (thousandths 900)
        (thousandths 990)
        (thousandths 999)
        whole_mean
        three
      ≡ (some r, ensure_sorted three))
    × IsReport
        (thousandths 500)
        (thousandths 900)
        (thousandths 990)
        (thousandths 999)
        whole_mean
        (30 ∷ 10 ∷ 20 ∷ [])
        r
print_lem_example =
    print_lem whole_mean (λ n. omega arith) (λ n. omega arith) (λ n. omega arith) three
      three-IsCurrent (omega arith)
