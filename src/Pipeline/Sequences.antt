-- ===== src/Pipeline/Sequences.antt =====
-- Lists of items, and the work on them in order, for bench/bench_pipeline.cpp.
use lowlat_matching_engine.Common.{
  ℕ, zero, suc, ◌+◌, ◌≤◌, ◌≡◌, refl, sym, ap, ap₂, ◌∙◌, inl, inr, arith, Option, none, some, List,
  [], ◌∷◌, ◌++◌, map, length, Option-cases, prefix, drop,
}
use lowlat_matching_engine.Pipeline.{apply_all}

pub some_inj : {A : Type 0} {x y : A} → some x ≡ some y → x ≡ y
some_inj {A} {x} e = ap (λ (o : Option A). elim o [ none ↦ x | some z ↦ z ]) e

pub map-append :
    {A C : Type 0} (f : A → C) (xs ys : List A) → map f (xs ++ ys) ≡ map f xs ++ map f ys
map-append f [] ys = refl
map-append f (x ∷ xs) ys = ap (λ (q : List _). f x ∷ q) (map-append f xs ys)

pub length-map : {A C : Type 0} (f : A → C) (xs : List A) → length (map f xs) ≡ length xs
length-map f [] = refl
length-map f (x ∷ xs) = omega (arith, length-map f xs)

pub length-zero : {A : Type 0} (q : List A) → length q ≡ 0 → q ≡ []
length-zero [] e = refl
length-zero (x ∷ q) e = absurd (omega (arith, e))

-- The sources of the first `n` items, and those behind them.
pub prefix-drop :
    {A C : Type 0} (f : A → C) (input : ℕ → A) (i n : ℕ) (xs : List C)
    → n ≤ length xs
    → map f (prefix input i (length xs)) ≡ xs
    → map f (prefix input i n) ++ drop n xs ≡ xs
prefix-drop f input i zero xs fits starts = refl
prefix-drop f input i (suc n) [] fits starts = absurd (omega (arith, fits))
prefix-drop {A} {C} f input i (suc n) (x ∷ xs) fits starts =
    ap₂ (λ (y : C) (ys : List C). y ∷ ys) (let e : f (input i) ≡ x = cc in e)
      (prefix-drop f input (i + 1) n xs (omega (arith, fits))
        (let e : map f (prefix input (i + 1) (length xs)) ≡ xs = cc in e))

module _ {A E : Type 0} (handle : E → A → Option E) where
  pub apply_all-append :
      (e e' : E) (xs ys : List A)
      → apply_all handle e xs ≡ some e'
      → apply_all handle e (xs ++ ys) ≡ apply_all handle e' ys
  unfolding apply_all
  apply_all-append e e' [] ys ran = ap (λ (z : E). apply_all handle z ys) (some_inj ran)
  apply_all-append e e' (x ∷ xs) ys ran = elim (Option-cases (handle e x)) [
    | inl lost ↦ ground (arith, lost, ran)
    | inr (e₁, on) ↦
        let step : apply_all handle e (x ∷ xs) ≡ apply_all handle e₁ xs = rw (apply_all, on) in
        let step' : apply_all handle e ((x ∷ xs) ++ ys) ≡ apply_all handle e₁ (xs ++ ys) =
          rw (apply_all, on) in
        step' ∙ apply_all-append e₁ e' xs ys (sym step ∙ ran)
  ]

  pub apply_all-one :
      (e e' : E) (x : A) → handle e x ≡ some e' → apply_all handle e (x ∷ []) ≡ some e'
  unfolding apply_all
  apply_all-one e e' x on = rw (apply_all, on)
