-- ===== src/Common/Arrays.antt =====
-- A C++ array as the function from its indices to its cells, and lists with native indices. The
-- bounds of an array are no part of the function.
use Prim.Native.Nat.{ℕ, zero, suc, ◌+◌, ◌-◌}
use mathlib.Core.Path.{◌≡◌, refl, ap, fun_ext}
use mathlib.Core.Logic.{◌≢◌}
use mathlib.Core.List.{List, [], ◌∷◌, ◌++◌}
use native.Mathlib.Omega.{arith}
use lowlat_matching_engine.Common.Tests.{◌==◌, if◌then◌else◌}

module _ {ℓ} {A : Type ℓ} where
  -- `a[i] = v`
  abbrev pub update : (ℕ → A) → ℕ → A → ℕ → A
  update f i v j = if i == j then v else f j

  pub update_self : (f : ℕ → A) (i : ℕ) (v : A) → update f i v i ≡ v
  update_self f i v = ground arith

  pub update_ne : (f : ℕ → A) {i j : ℕ} (v : A) → i ≢ j → update f i v j ≡ f j
  update_ne f v h = ground arith

  -- Writing back what a cell holds changes nothing.
  pub update_same : (f : ℕ → A) (i : ℕ) → update f i (f i) ≡ f
  update_same f i = fun_ext (λ j. point j)
    where
      point : (j : ℕ) → update f i (f i) j ≡ f j
      point j = ground arith

  abbrev pub length : List A → ℕ
  length [] = 0
  length (x ∷ xs) = suc (length xs)

  pub length-append : (xs ys : List A) → length (xs ++ ys) ≡ length xs + length ys
  length-append [] ys = omega arith
  length-append (x ∷ xs) ys = omega (arith, length-append xs ys)

  pub append_assoc : (xs ys zs : List A) → (xs ++ ys) ++ zs ≡ xs ++ (ys ++ zs)
  append_assoc [] ys zs = refl
  append_assoc (x ∷ xs) ys zs = ap (λ (q : List A). x ∷ q) (append_assoc xs ys zs)

  pub append_nil : (xs : List A) → xs ++ [] ≡ xs
  append_nil [] = refl
  append_nil (x ∷ xs) = ap (λ (q : List A). x ∷ q) (append_nil xs)

  -- The `n` elements of an array from `i` on.
  abbrev pub prefix : (ℕ → A) → ℕ → ℕ → List A
  prefix input i zero = []
  prefix input i (suc n) = input i ∷ prefix input (i + 1) n

  pub length-prefix : (input : ℕ → A) (i n : ℕ) → length (prefix input i n) ≡ n
  length-prefix input i zero = refl
  length-prefix input i (suc n) = omega (arith, length-prefix input (i + 1) n)

  abbrev pub drop : ℕ → List A → List A
  drop zero xs = xs
  drop (suc n) [] = []
  drop (suc n) (x ∷ xs) = drop n xs

  pub length-drop : (n : ℕ) (xs : List A) → length (drop n xs) ≡ length xs - n
  length-drop zero xs = omega arith
  length-drop (suc n) [] = omega arith
  length-drop (suc n) (x ∷ xs) = omega (arith, length-drop n xs)
