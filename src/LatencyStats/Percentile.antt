-- ===== src/LatencyStats/Percentile.antt =====
-- What `percentile` of src/latency_stats.hpp returns, whether or not the sorted copy is up to date.
use mathlib.Core.Path.{subst}
use lowlat_matching_engine.Common.{
  ℕ, suc, ◌-◌, ◌<◌, ◌≤◌, ◌≡◌, refl, sym, ap, ◌∙◌, inl, inr, arith, ◌==◌, if◌then◌else◌, ◌&&◌, not,
  false, Bool-cases, List, [], ◌∷◌, length, min, lt-cases,
}
use lowlat_matching_engine.LatencyStats.{
  LatencyStats, sort_in, sort, nth, back, ensure_sorted, percentile_sorted, percentile,
}

-- How often a number occurs.
abbrev pub count : ℕ → List ℕ → ℕ
count x [] = 0
count x (y ∷ ys) = if x == y then suc (count x ys) else count x ys

-- No element is above one that comes later.
abbrev pub AllFrom : ℕ → List ℕ → Type 0
AllFrom x [] = Unit
AllFrom x (y ∷ ys) = (x ≤ y) × AllFrom x ys

abbrev pub IsSorted : List ℕ → Type 0
IsSorted [] = Unit
IsSorted (x ∷ xs) = AllFrom x xs × IsSorted xs

AllFrom-le : (x y : ℕ) (xs : List ℕ) → x ≤ y → AllFrom y xs → AllFrom x xs
AllFrom-le x y [] h a = tt
AllFrom-le x y (z ∷ xs) h a = (omega (arith, h, a.0), AllFrom-le x y xs h a.1)

AllFrom-sort_in : (x y : ℕ) (ys : List ℕ) → x ≤ y → AllFrom x ys → AllFrom x (sort_in y ys)
unfolding sort_in
AllFrom-sort_in x y [] h a = (h, tt)
AllFrom-sort_in x y (z ∷ ys) h a = elim (lt-cases z y) [
  | inl less ↦
      let e : sort_in y (z ∷ ys) ≡ z ∷ sort_in y ys = ground (arith, less) in
      subst (AllFrom x) (sym e) (a.0, AllFrom-sort_in x y ys h a.1)
  | inr more ↦
      let e : sort_in y (z ∷ ys) ≡ y ∷ z ∷ ys = ground (arith, more) in
      subst (AllFrom x) (sym e) (h, a)
]

sort_in-IsSorted : (x : ℕ) (xs : List ℕ) → IsSorted xs → IsSorted (sort_in x xs)
unfolding sort_in
sort_in-IsSorted x [] s = (tt, tt)
sort_in-IsSorted x (y ∷ ys) s = elim (lt-cases y x) [
  | inl less ↦
      let e : sort_in x (y ∷ ys) ≡ y ∷ sort_in x ys = ground (arith, less) in
      subst IsSorted (sym e)
        (AllFrom-sort_in y x ys (omega (arith, less)) s.0, sort_in-IsSorted x ys s.1)
  | inr more ↦
      let e : sort_in x (y ∷ ys) ≡ x ∷ y ∷ ys = ground (arith, more) in
      subst IsSorted (sym e) ((omega (arith, more), AllFrom-le x y ys (omega (arith, more)) s.0), s)
]

pub sort-IsSorted : (xs : List ℕ) → IsSorted (sort xs)
unfolding sort
sort-IsSorted [] = tt
sort-IsSorted (x ∷ xs) = sort_in-IsSorted x (sort xs) (sort-IsSorted xs)

count-sort_in : (z x : ℕ) (xs : List ℕ) → count z (sort_in x xs) ≡ count z (x ∷ xs)
unfolding sort_in
count-sort_in z x [] = refl
count-sort_in z x (y ∷ ys) = let rest = count-sort_in z x ys in ground (arith, rest)

pub count-sort : (z : ℕ) (xs : List ℕ) → count z (sort xs) ≡ count z xs
unfolding sort
count-sort z [] = refl
count-sort z (x ∷ xs) =
    let rest = count-sort z xs in
    let step = count-sort_in z x (sort xs) in
    step ∙ (let e : count z (x ∷ sort xs) ≡ count z (x ∷ xs) = ground (arith, rest) in e)

length-sort_in : (x : ℕ) (xs : List ℕ) → length (sort_in x xs) ≡ suc (length xs)
unfolding sort_in
length-sort_in x [] = refl
length-sort_in x (y ∷ ys) = let rest = length-sort_in x ys in ground (arith, rest)

pub length-sort : (xs : List ℕ) → length (sort xs) ≡ length xs
unfolding sort
length-sort [] = refl
length-sort (x ∷ xs) = omega (arith, length-sort_in x (sort xs), length-sort xs)

-- The sorted copy is up to date unless it is marked dirty.
abbrev pub IsCurrent : LatencyStats → Type 0
IsCurrent s = s.sorted_dirty ≡ false → s.sorted_samples ≡ sort s.samples

-- What `percentile` promises of a value and of the object it leaves.
pub record IsPercentile (s : LatencyStats) (position : ℕ → ℕ) (value : ℕ) (s' : LatencyStats)
    : Type 0 where
  pub sorted : List ℕ
  pub ascending : IsSorted sorted
  pub same_counts : (x : ℕ) → count x sorted ≡ count x s.samples
  pub chosen : value ≡ nth sorted (min (position (length s.samples - 1)) (length s.samples - 1))
  pub samples_kept : s'.samples ≡ s.samples
  pub current : IsCurrent s'

pub ensure_sorted_lem :
    (s : LatencyStats)
    → IsCurrent s
    → ((ensure_sorted s).samples ≡ s.samples) × ((ensure_sorted s).sorted_samples ≡ sort s.samples)
unfolding ensure_sorted
ensure_sorted_lem s cur =
    elim (Bool-cases (not s.sorted_dirty && length s.sorted_samples == length s.samples)) [
      | inl fresh ↦
          let clean : s.sorted_dirty ≡ false = ground (arith, fresh) in
          let c = cur clean in
          let same : ensure_sorted s ≡ s = rw fresh in
          (
            ap (λ (x : LatencyStats). x.samples) same,
            ap (λ (x : LatencyStats). x.sorted_samples) same ∙ c,
          )
      | inr old ↦ (rw old, rw old)
    ]

pub percentile_sorted_lem :
    (sorted : List ℕ) (position : ℕ → ℕ)
    → 0 < length sorted
    → percentile_sorted sorted position
      ≡ nth sorted (min (position (length sorted - 1)) (length sorted - 1))
unfolding percentile_sorted back
percentile_sorted_lem sorted position some_there =
    elim (lt-cases (position (length sorted - 1)) (length sorted - 1)) [
      | inl below ↦
          let e : min (position (length sorted - 1)) (length sorted - 1)
              ≡ position (length sorted - 1) =
            omega (arith, below) in
          let p : percentile_sorted sorted position ≡ nth sorted (position (length sorted - 1)) =
            ground (arith, some_there, below) in
          p ∙ ap (nth sorted) (sym e)
      | inr above ↦
          let e : min (position (length sorted - 1)) (length sorted - 1) ≡ length sorted - 1 =
            omega (arith, above) in
          let p : percentile_sorted sorted position ≡ nth sorted (length sorted - 1) =
            ground (arith, some_there, above) in
          p ∙ ap (nth sorted) (sym e)
    ]

-- Of at least one sample, where the sorted copy is that of the samples unless it is marked dirty,
-- percentile returns the element of the samples in ascending order at the position computed, or
-- the last one where that is beyond it; the samples are kept and the sorted copy is up to date
-- afterwards.
pub percentile-IsPercentile :
    (s : LatencyStats) (position : ℕ → ℕ)
    → IsCurrent s
    → 0 < length s.samples
    → IsPercentile s position (percentile s position).0 (percentile s position).1
unfolding percentile
percentile-IsPercentile s position cur some_there =
    let l = ensure_sorted_lem s cur in
    let filled : (length s.samples == 0) ≡ false = ground (arith, some_there) in
    let run : percentile s position
        ≡ (percentile_sorted (ensure_sorted s).sorted_samples position, ensure_sorted s) =
      rw filled in
    let many = length-sort s.samples in
    subst (λ (r : ℕ × LatencyStats). IsPercentile s position r.0 r.1) (sym run)
      (record {
        sorted = sort s.samples;
        ascending = sort-IsSorted s.samples;
        same_counts = λ x. count-sort x s.samples;
        chosen =
            ap (λ (q : List ℕ). percentile_sorted q position) l.1
            ∙ percentile_sorted_lem (sort s.samples) position (omega (arith, many, some_there))
            ∙ ap (λ (n : ℕ). nth (sort s.samples) (min (position (n - 1)) (n - 1))) many;
        samples_kept = l.0;
        current = λ _. l.1 ∙ ap sort (sym l.0);
      })
