-- ===== src/LatencyStats/Printed.antt =====
-- What `print` of src/latency_stats.hpp prints.
use lowlat_matching_engine.Common.{
  ℕ, zero, suc, ◌+◌, ◌-◌, ◌%◌, ◌^◌, ◌<◌, ◌≤◌, ◌≡◌, refl, sym, ap, ◌∙◌, inl, inr, arith, ◌==◌, false,
  ap₂, List, [], ◌∷◌, length, min, eq-cases, some, add64,
}
use lowlat_matching_engine.LatencyStats.{
  LatencyStats, sort_in, sort, nth, back, front, accumulate, ensure_sorted, percentile_sorted,
  Report, report, print,
}
use lowlat_matching_engine.LatencyStats.Percentile.{
  count, AllFrom, IsSorted, IsCurrent, sort-IsSorted, count-sort, length-sort, ensure_sorted_lem,
  percentile_sorted_lem,
}

nth-AllFrom : (x : ℕ) (xs : List ℕ) (i : ℕ) → AllFrom x xs → i < length xs → x ≤ nth xs i
unfolding nth
nth-AllFrom x [] i a h = absurd (omega (arith, h))
nth-AllFrom x (y ∷ xs) zero a h = a.0
nth-AllFrom x (y ∷ xs) (suc i) a h = nth-AllFrom x xs i a.1 (omega (arith, h))

-- Of a sorted list, a later element is no smaller.
nth_mono : (xs : List ℕ) (i j : ℕ) → IsSorted xs → i ≤ j → j < length xs → nth xs i ≤ nth xs j
unfolding nth
nth_mono [] i j s l h = absurd (omega (arith, h))
nth_mono (x ∷ xs) zero zero s l h = omega arith
nth_mono (x ∷ xs) zero (suc j) s l h = nth-AllFrom x xs j s.0 (omega (arith, h))
nth_mono (x ∷ xs) (suc i) zero s l h = absurd (omega (arith, l))
nth_mono (x ∷ xs) (suc i) (suc j) s l h = nth_mono xs i j s.1 (omega (arith, l)) (omega (arith, h))

-- An element that occurs is at some position.
nth-count : (x : ℕ) (xs : List ℕ) → 0 < count x xs → (i : ℕ) × (i < length xs) × (nth xs i ≡ x)
unfolding nth
nth-count x [] h = absurd (omega (arith, h))
nth-count x (y ∷ xs) h = elim (eq-cases x y) [
  | inl here ↦ (0, omega arith, sym here)
  | inr away ↦
      let later : 0 < count x xs = ground (arith, h, away) in
      let (i, l, is) = nth-count x xs later in (suc i, omega (arith, l), is)
]

-- The sum of the elements, which does not wrap.
abbrev pub total : List ℕ → ℕ
total [] = 0
total (x ∷ xs) = x + total xs

total-sort_in : (x : ℕ) (xs : List ℕ) → total (sort_in x xs) ≡ x + total xs
unfolding sort_in
total-sort_in x [] = refl
total-sort_in x (y ∷ ys) = let rest = total-sort_in x ys in ground (arith, rest)

total-sort : (xs : List ℕ) → total (sort xs) ≡ total xs
unfolding sort
total-sort [] = refl
total-sort (x ∷ xs) = omega (arith, total-sort_in x (sort xs), total-sort xs)

accumulate_lem :
    (xs : List ℕ) (sum : ℕ) → sum < 2 ^ 64 → accumulate xs sum ≡ (sum + total xs) % 2 ^ 64
unfolding accumulate
accumulate_lem [] sum word = omega (arith, word)
accumulate_lem (x ∷ xs) sum word =
    let rest = accumulate_lem xs (add64 sum x) (omega arith) in omega (arith, rest)

-- What `print` promises of the values it prints for the samples: the first, the last and four others
-- of the same samples in ascending order, each at the position of its percentile or at the last one
-- where that is beyond it.
pub record IsReport {W : Type 0} (at_p50 at_p90 at_p99 at_p999 : ℕ → ℕ) (mean : ℕ → ℕ → W)
    (samples : List ℕ) (r : Report W) : Type 0 where
  pub sorted : List ℕ
  pub ascending : IsSorted sorted
  pub same_counts : (x : ℕ) → count x sorted ≡ count x samples
  pub min_at : r.min_ns ≡ nth sorted 0
  pub p50_at : r.p50_ns ≡ nth sorted (min (at_p50 (length samples - 1)) (length samples - 1))
  pub p90_at : r.p90_ns ≡ nth sorted (min (at_p90 (length samples - 1)) (length samples - 1))
  pub p99_at : r.p99_ns ≡ nth sorted (min (at_p99 (length samples - 1)) (length samples - 1))
  pub p999_at : r.p999_ns ≡ nth sorted (min (at_p999 (length samples - 1)) (length samples - 1))
  pub max_at : r.max_ns ≡ nth sorted (length samples - 1)
  pub counted : r.count ≡ length samples
  pub mean_of : r.mean_ns ≡ mean (total samples % 2 ^ 64) (length samples)
  pub least : (x : ℕ) → 0 < count x samples → r.min_ns ≤ x
  pub greatest : (x : ℕ) → 0 < count x samples → x ≤ r.max_ns
  pub min_p50 : r.min_ns ≤ r.p50_ns
  pub p50_p90 : r.p50_ns ≤ r.p90_ns
  pub p90_p99 : r.p90_ns ≤ r.p99_ns
  pub p99_p999 : r.p99_ns ≤ r.p999_ns
  pub p999_max : r.p999_ns ≤ r.max_ns

module _ (sorted : List ℕ) (ascending : IsSorted sorted) (some_there : 0 < length sorted) where
  abbrev last : ℕ
  last = length sorted - 1

  -- A position that is nowhere before another picks no larger element.
  percentile_mono :
      (p q : ℕ → ℕ)
      → ((n : ℕ) → p n ≤ q n)
      → percentile_sorted sorted p ≤ percentile_sorted sorted q
  percentile_mono p q h = omega (
    arith,
    percentile_sorted_lem sorted p some_there,
    percentile_sorted_lem sorted q some_there,
    nth_mono sorted (min (p last) last) (min (q last) last) ascending (omega (arith, h last))
        (omega (arith, some_there)),
  )

  percentile-between :
      (p : ℕ → ℕ)
      → (front sorted ≤ percentile_sorted sorted p) × (percentile_sorted sorted p ≤ back sorted)
  unfolding back
  percentile-between p =
      let is = percentile_sorted_lem sorted p some_there in
      let inside : min (p last) last < length sorted = omega (arith, some_there) in
      (
        omega (arith, is, nth_mono sorted 0 (min (p last) last) ascending (omega arith) inside),
        omega (
          arith,
          is,
          nth_mono sorted (min (p last) last) last ascending (omega arith)
              (omega (arith, some_there)),
        ),
      )

  occurs-between : (x : ℕ) → 0 < count x sorted → (front sorted ≤ x) × (x ≤ back sorted)
  unfolding back
  occurs-between x h =
      let (i, inside, is) = nth-count x sorted h in
      (
        omega (arith, is, nth_mono sorted 0 i ascending (omega arith) inside),
        omega (
          arith,
          is,
          nth_mono sorted i last ascending (omega (arith, inside)) (omega (arith, inside)),
        ),
      )

module _ {W : Type 0} {at_p50 at_p90 at_p99 at_p999 : ℕ → ℕ} (mean : ℕ → ℕ → W)
    (to_p90 : (n : ℕ) → at_p50 n ≤ at_p90 n) (to_p99 : (n : ℕ) → at_p90 n ≤ at_p99 n)
    (to_p999 : (n : ℕ) → at_p99 n ≤ at_p999 n) where
  report-IsReport :
      (samples : List ℕ)
      → 0 < length samples
      → IsReport at_p50 at_p90 at_p99 at_p999 mean samples
          (report at_p50 at_p90 at_p99 at_p999 mean (sort samples))
  unfolding back
  report-IsReport samples some_there =
      let sorted = sort samples in
      let ascending = sort-IsSorted samples in
      let many = length-sort samples in
      let some_sorted : 0 < length sorted = omega (arith, many, some_there) in
      let sum : accumulate sorted 0 ≡ total samples % 2 ^ 64 =
        omega (arith, accumulate_lem sorted 0 (omega arith), total-sort samples) in
      let between = λ (x : ℕ) (h : 0 < count x samples).
        occurs-between sorted ascending some_sorted x (omega (arith, h, count-sort x samples)) in
      let at = λ (p : ℕ → ℕ).
        percentile_sorted_lem sorted p some_sorted
        ∙ ap (λ (n : ℕ). nth sorted (min (p (n - 1)) (n - 1))) many in
      record {
        sorted = sorted;
        ascending = ascending;
        same_counts = λ x. count-sort x samples;
        min_at = refl;
        p50_at = at at_p50;
        p90_at = at at_p90;
        p99_at = at at_p99;
        p999_at = at at_p999;
        max_at = ap (λ (n : ℕ). nth sorted (n - 1)) many;
        counted = many;
        mean_of = ap₂ mean sum many;
        least = λ x h. (between x h).0;
        greatest = λ x h. (between x h).1;
        min_p50 = (percentile-between sorted ascending some_sorted at_p50).0;
        p50_p90 = percentile_mono sorted ascending some_sorted at_p50 at_p90 to_p90;
        p90_p99 = percentile_mono sorted ascending some_sorted at_p90 at_p99 to_p99;
        p99_p999 = percentile_mono sorted ascending some_sorted at_p99 at_p999 to_p999;
        p999_max = (percentile-between sorted ascending some_sorted at_p999).1;
      }

  -- Of at least one sample, where the sorted copy is that of the samples unless it is marked
  -- dirty, and where the position of a larger percentile is no smaller, print prints the number of
  -- the samples, the mean of their sum modulo 2^64, and, of the samples in ascending order, the
  -- first as the minimum, the last as the maximum and, as each of the four percentiles, the one at
  -- its position, or the last one where that is beyond it. All samples lie between the minimum and
  -- the maximum, and the percentiles ascend between them.
  pub print_lem :
      (s : LatencyStats)
      → IsCurrent s
      → 0 < length s.samples
      → (r : Report W) × (print at_p50 at_p90 at_p99 at_p999 mean s ≡ (some r, ensure_sorted s))
        × IsReport at_p50 at_p90 at_p99 at_p999 mean s.samples r
  unfolding print
  print_lem s cur some_there =
      let made = report at_p50 at_p90 at_p99 at_p999 mean in
      let filled : (length s.samples == 0) ≡ false = ground (arith, some_there) in
      (
        made (sort s.samples),
        rw filled
            (ap (λ (q : List ℕ). (some (made q), ensure_sorted s)) (ensure_sorted_lem s cur).1),
        report-IsReport s.samples some_there,
      )
