-- ===== src/LatencyStats.antt =====
-- src/latency_stats.hpp: latency samples and their percentiles. The double `p` comes in only as
-- `position`, what `static_cast<std::size_t>(p * static_cast<double>(n))` is for each `n`.
pub mod Percentile
pub mod Printed
use lowlat_matching_engine.Common.{
  ℕ, zero, suc, ◌+◌, ◌-◌, ◌==◌, if◌then◌else◌, leb, ◌&&◌, not, Bool, true, false, List, [], ◌∷◌,
  ◌++◌, length, Option, none, some, add64,
}

pub record LatencyStats : Type 0 where
  pub samples : List ℕ
  pub sorted_samples : List ℕ
  pub sorted_dirty : Bool

unfoldable pub new : LatencyStats
new = record { samples = []; sorted_samples = []; sorted_dirty = true }

unfoldable pub add : LatencyStats → ℕ → LatencyStats
add s ns = record s { samples = s.samples ++ ns ∷ []; sorted_dirty = true }

abbrev pub size : LatencyStats → ℕ
size s = length s.samples

abbrev pub empty : LatencyStats → Bool
empty s = length s.samples == 0

-- `std::sort`
unfoldable pub sort_in : ℕ → List ℕ → List ℕ
sort_in x [] = x ∷ []
sort_in x (y ∷ ys) = if leb x y then x ∷ y ∷ ys else y ∷ sort_in x ys

unfoldable pub sort : List ℕ → List ℕ
unfolding sort_in
sort [] = []
sort (x ∷ xs) = sort_in x (sort xs)

-- `v[i]`, of a position in range
unfoldable pub nth : List ℕ → ℕ → ℕ
nth [] i = 0
nth (x ∷ xs) zero = x
nth (x ∷ xs) (suc i) = nth xs i

-- `v.back()`, of a vector that is not empty
unfoldable pub back : List ℕ → ℕ
unfolding nth
back xs = nth xs (length xs - 1)

unfoldable pub ensure_sorted : LatencyStats → LatencyStats
unfolding sort
ensure_sorted s =
    if not s.sorted_dirty && length s.sorted_samples == length s.samples
    then s
    else record s { sorted_samples = sort s.samples; sorted_dirty = false }

unfoldable pub percentile_sorted : List ℕ → (ℕ → ℕ) → ℕ
unfolding nth back
percentile_sorted sorted position =
    if length sorted == 0
    then 0
    else (let idx = position (length sorted - 1) in
        if leb (length sorted - 1) idx then back sorted else nth sorted idx)

-- The members that the source marks `mutable` change, so the object is returned too.
unfoldable pub percentile : LatencyStats → (ℕ → ℕ) → ℕ × LatencyStats
unfolding ensure_sorted percentile_sorted
percentile s position =
    if length s.samples == 0
    then (0, s)
    else (let s₁ = ensure_sorted s in (percentile_sorted s₁.sorted_samples position, s₁))

-- `v.front()`, of a vector that is not empty
abbrev pub front : List ℕ → ℕ
front xs = nth xs 0

-- `std::accumulate`, on 64 bits
unfoldable pub accumulate : List ℕ → ℕ → ℕ
accumulate [] sum = sum
accumulate (x ∷ xs) sum = accumulate xs (add64 sum x)

-- What `print` prints; `W` is the type of doubles.
pub record Report (W : Type 0) : Type 0 where
  pub count : ℕ
  pub mean_ns : W
  pub min_ns : ℕ
  pub p50_ns : ℕ
  pub p90_ns : ℕ
  pub p99_ns : ℕ
  pub p999_ns : ℕ
  pub max_ns : ℕ

-- The positions of `0.5`, `0.9`, `0.99` and `0.999`, and the mean as a double from the sum and the
-- count.
module _ {W : Type 0} (at_p50 at_p90 at_p99 at_p999 : ℕ → ℕ) (mean : ℕ → ℕ → W) where
  abbrev pub report : List ℕ → Report W
  report sorted = record {
    count = length sorted;
    mean_ns = mean (accumulate sorted 0) (length sorted);
    min_ns = front sorted;
    p50_ns = percentile_sorted sorted at_p50;
    p90_ns = percentile_sorted sorted at_p90;
    p99_ns = percentile_sorted sorted at_p99;
    p999_ns = percentile_sorted sorted at_p999;
    max_ns = back sorted;
  }

  -- `none` is the line that says there are no samples.
  unfoldable pub print : LatencyStats → Option (Report W) × LatencyStats
  unfolding ensure_sorted
  print s =
      if length s.samples == 0
      then (none, s)
      else (let s₁ = ensure_sorted s in (some (report s₁.sorted_samples), s₁))
