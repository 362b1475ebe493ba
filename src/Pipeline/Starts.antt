-- ===== src/Pipeline/Starts.antt =====
-- What the queue of a pipeline of bench/bench_pipeline.cpp starts with.
use lowlat_matching_engine.Common.{
  ℕ, zero, suc, ◌+◌, ◌<◌, ◌≡◌, refl, sym, ap, ap₂, ◌∙◌, ◌⊎◌, inl, inr, arith, Option, some, List,
  [], ◌∷◌, ◌++◌, map, length, Option-cases, prefix,
}
use lowlat_matching_engine.Ring.Slice.{IsRingCapacity}
use lowlat_matching_engine.Pipeline.{
  Pipeline, Producer, push_each, push_batches, Consumer, pop_each, pop_batches, apply_all, Steps,
  start, then,
}
use lowlat_matching_engine.Pipeline.Sequences.{length-map}

pub list_cases : {A : Type 0} (q : List A) → (q ≡ []) ⊎ ((x : A) × (xs : List A) × (q ≡ x ∷ xs))
list_cases [] = inl refl
list_cases (x ∷ xs) = inr (x, xs, refl)

module _ {A E : Type 0} (handle : E → A → Option E) where
  pub one-apply_all :
      (e e' : E) (x : A) → apply_all handle e (x ∷ []) ≡ some e' → handle e x ≡ some e'
  unfolding apply_all
  one-apply_all e e' x ran = elim (Option-cases (handle e x)) [
    | inl lost ↦ ground (arith, lost, ran)
    | inr (e₁, on) ↦
        let step : apply_all handle e (x ∷ []) ≡ some e₁ = rw (apply_all, on) in on ∙ sym step ∙ ran
  ]

  -- A run that succeeds has succeeded on what it started with.
  pub apply_all-first :
      (e e' : E) (xs ys : List A)
      → apply_all handle e (xs ++ ys) ≡ some e'
      → (e₁ : E) × (apply_all handle e xs ≡ some e₁)
  unfolding apply_all
  apply_all-first e e' [] ys ran = (e, refl)
  apply_all-first e e' (x ∷ xs) ys ran = elim (Option-cases (handle e x)) [
    | inl lost ↦ ground (arith, lost, ran)
    | inr (e₁, on) ↦
        let step : apply_all handle e ((x ∷ xs) ++ ys) ≡ apply_all handle e₁ (xs ++ ys) =
          rw (apply_all, on) in
        let (e₂, rest) = apply_all-first e₁ e' xs ys (sym step ∙ ran) in
        let step' : apply_all handle e (x ∷ xs) ≡ apply_all handle e₁ xs = rw (apply_all, on) in
        (e₂, step' ∙ rest)
  ]

-- The batches are not empty.
abbrev pub Pushes : Producer → Type 0
Pushes push_each = Unit
Pushes (push_batches size) = 0 < size

abbrev pub Pops : Consumer → Type 0
Pops pop_each = Unit
Pops (pop_batches size) = 0 < size

module _ {C A E : Type 0} (source_of : A → C) (handle : E → A → Option E) (producer : Producer)
    (consumer : Consumer) where
  pub trans :
      {capacity total : ℕ} {p q r : Pipeline C A E}
      → Steps source_of handle producer consumer capacity total p q
      → Steps source_of handle producer consumer capacity total q r
      → Steps source_of handle producer consumer capacity total p r
  trans first start = first
  trans first (then rest step) = then (trans first rest) step

module _ {C A E : Type 0} (source_of : A → C) (handle : E → A → Option E) (producer : Producer)
    (consumer : Consumer) (capacity : ℕ) (cap : IsRingCapacity capacity) (make : C → A)
    (makes : (c : C) → source_of (make c) ≡ c) where
  pub map-make : (cs : List C) → map source_of (map make cs) ≡ cs
  map-make [] = refl
  map-make (c ∷ cs) = ap₂ (λ (x : C) (xs : List C). x ∷ xs) (makes c) (map-make cs)

  -- `commands.data() + i` as an array, what is behind its end being left open.
  abbrev pub array : A → List A → ℕ → A
  array filler [] i = filler
  array filler (x ∷ xs) zero = x
  array filler (x ∷ xs) (suc i) = array filler xs i

  shifted :
      (filler x : A) (xs : List A) (i n : ℕ)
      → prefix (array filler (x ∷ xs)) (i + 1) n ≡ prefix (array filler xs) i n
  shifted filler x xs i zero = refl
  shifted filler x xs i (suc n) =
      ap₂ (λ (y : A) (q : List A). y ∷ q)
        (ap (array filler (x ∷ xs)) (let e : i + 1 ≡ suc i = omega arith in e))
        (shifted filler x xs (i + 1) n)

  prefix-array : (filler : A) (xs : List A) → prefix (array filler xs) 0 (length xs) ≡ xs
  prefix-array filler [] = refl
  prefix-array filler (x ∷ xs) =
      ap (λ (q : List A). x ∷ q) (shifted filler x xs 0 (length xs) ∙ prefix-array filler xs)

  pub starts :
      (filler : A) (cs : List C)
      → map source_of (prefix (array filler (map make cs)) 0 (length cs)) ≡ cs
  starts filler cs =
      ap (λ (n : ℕ). map source_of (prefix (array filler (map make cs)) 0 n))
        (sym (length-map make cs))
      ∙ ap (map source_of) (prefix-array filler (map make cs))
      ∙ map-make cs
