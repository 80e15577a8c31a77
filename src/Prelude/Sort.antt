-- ===== src/Prelude/Sort.antt =====
-- `sorted` of texts by code points, and `sorted(set(...))`.
use Prim.Native.Char.{code}
use Prim.Native.String.{String}
use mathlib.Core.Path.{◌≡◌, refl}
use mathlib.Core.Bool.{Bool, true, false, ◌||◌}
use mathlib.Core.List.{List, [], ◌∷◌}
use native.Mathlib.Omega.{arith}
use text.Mathlib.Text.{◌==◌}
use text.Mathlib.TextEquality.{eq_iff}
use adf.Prelude.Tests.{ltb, nat_eq, if◌then◌else◌}
use adf.Prelude.Lists.{contains}

unfoldable pub text_lt : String → String → Bool
text_lt s String.[] = false
text_lt String.[] (String.◌∷◌ d t) = true
text_lt (String.◌∷◌ c s) (String.◌∷◌ d t) =
    let rest = text_lt s t in
    if ltb (code c) (code d) then true else if nat_eq (code c) (code d) then rest else false

-- The insertion behind a stable sort: `x` goes before the first element that it does not exceed.
unfoldable pub insert_sorted : String → List String → List String
insert_sorted x [] = x ∷ []
insert_sorted x (y ∷ ys) =
    let rest = insert_sorted x ys in if text_lt y x then y ∷ rest else x ∷ y ∷ ys

unfoldable pub sorted : List String → List String
unfolding insert_sorted
sorted [] = []
sorted (x ∷ xs) = insert_sorted x (sorted xs)

-- `set(xs)`: each element once
unfoldable pub distinct : List String → List String
distinct [] = []
distinct (x ∷ xs) = let rest = distinct xs in if contains rest x then rest else x ∷ rest

abbrev pub sorted_set : List String → List String
sorted_set xs = sorted (distinct xs)

contains-insert_sorted :
    (x : String) (xs : List String) (s : String)
    → contains (insert_sorted x xs) s ≡ (x == s || contains xs s)
unfolding insert_sorted
contains-insert_sorted x [] s = refl
contains-insert_sorted x (y ∷ ys) s = ground (arith, contains-insert_sorted x ys s)

pub contains-sorted : (xs : List String) (s : String) → contains (sorted xs) s ≡ contains xs s
unfolding sorted
contains-sorted [] s = refl
contains-sorted (x ∷ xs) s =
    ground (arith, contains-insert_sorted x (sorted xs) s, contains-sorted xs s)

pub contains-distinct : (xs : List String) (s : String) → contains (distinct xs) s ≡ contains xs s
unfolding distinct
contains-distinct [] s = refl
contains-distinct (x ∷ xs) s =
    ground (arith, contains-distinct xs s, contains-distinct xs x, eq_iff x s)

pub contains-sorted_set :
    (xs : List String) (s : String) → contains (sorted_set xs) s ≡ contains xs s
contains-sorted_set xs s = ground (arith, contains-sorted (distinct xs) s, contains-distinct xs s)
