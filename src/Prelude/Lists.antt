-- ===== src/Prelude/Lists.antt =====
-- Lists under native lengths, membership as a test, and filters by a Boolean test.
use Prim.Native.Nat.{ℕ, suc, zero, ◌+◌, ◌≤◌}
use Prim.Native.String.{String}
use mathlib.Core.Path.{◌≡◌, refl, ap}
use mathlib.Core.Bool.{Bool, true, false, ◌&&◌, ◌||◌, not}
use mathlib.Core.List.{List, [], ◌∷◌, ◌++◌}
use mathlib.Core.Option.{Option, none, some}
use native.Mathlib.Omega.{arith}
use text.Mathlib.Text.{◌==◌}
use text.Mathlib.TextEquality.{eq_iff}
use adf.Prelude.Tests.{if◌then◌else◌}

module _ {ℓ} {A : Type ℓ} where
  abbrev pub length : List A → ℕ
  length [] = 0
  length (x ∷ xs) = suc (length xs)

  abbrev pub take : ℕ → List A → List A
  take zero xs = []
  take (suc n) [] = []
  take (suc n) (x ∷ xs) = x ∷ take n xs

  -- `[x for x in xs if test(x)]`
  abbrev pub keep : (A → Bool) → List A → List A
  keep test [] = []
  keep test (x ∷ xs) = let rest = keep test xs in if test x then x ∷ rest else rest

  abbrev pub last? : List A → Option A
  last? [] = none
  last? (x ∷ []) = some x
  last? (x ∷ y ∷ ys) = last? (y ∷ ys)

  pub length-append : (xs ys : List A) → length (xs ++ ys) ≡ length xs + length ys
  length-append [] ys = omega arith
  length-append (x ∷ xs) ys = omega (arith, length-append xs ys)

  pub length-keep-le : (test : A → Bool) (xs : List A) → length (keep test xs) ≤ length xs
  length-keep-le test [] = omega arith
  length-keep-le test (x ∷ xs) = ground (arith, length-keep-le test xs)

  pub last?-append : (xs : List A) (x : A) → last? (xs ++ x ∷ []) ≡ some x
  last?-append [] x = refl
  last?-append (y ∷ []) x = refl
  last?-append (y ∷ z ∷ zs) x = last?-append (z ∷ zs) x

abbrev pub contains : List String → String → Bool
contains [] s = false
contains (x ∷ xs) s = x == s || contains xs s

infix 50 ◌∈◌ ◌⊆◌
-- `s in xs`
abbrev pub ◌∈◌ : String → List String → Type 0
s ∈ xs = contains xs s ≡ true

abbrev pub ◌⊆◌ : List String → List String → Type 0
xs ⊆ ys = (s : String) → s ∈ xs → s ∈ ys

pub contains-append :
    (xs ys : List String) (s : String) → contains (xs ++ ys) s ≡ (contains xs s || contains ys s)
contains-append [] ys s = refl
contains-append (x ∷ xs) ys s = ground (arith, contains-append xs ys s)

pub contains-keep :
    (test : String → Bool) (xs : List String) (s : String)
    → contains (keep test xs) s ≡ (contains xs s && test s)
contains-keep test [] s = refl
contains-keep test (x ∷ xs) s = ground (arith, contains-keep test xs s, eq_iff x s)

-- `[x for x in xs if x not in ys]`
abbrev pub without : List String → List String → List String
without xs ys = keep (λ x. not (contains ys x)) xs

-- Nothing is left out of `ys` exactly where `xs` lies in `ys`.
pub subset_of_without-eq-nil : (xs ys : List String) → without xs ys ≡ [] → xs ⊆ ys
subset_of_without-eq-nil xs ys e s h =
    ground (arith, contains-keep (λ x. not (contains ys x)) xs s, ap (λ l. contains l s) e)

pub without-eq-nil_of_subset : (xs ys : List String) → xs ⊆ ys → without xs ys ≡ []
without-eq-nil_of_subset [] ys h = refl
without-eq-nil_of_subset (x ∷ xs) ys h = ground (
  arith,
  h x,
  eq_iff x x,
  without-eq-nil_of_subset xs ys (λ s m. h s (ground (arith, eq_iff x s))),
)
