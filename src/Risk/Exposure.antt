-- ===== src/Risk/Exposure.antt =====
-- agperms/src/agperms/risk.py: how the permission exposure and the autonomy category grow.
use adf.Prelude.{
  ℕ, ◌+◌, ◌≤◌, ◌≡◌, ap, subst, inl, inr, String, Bool, true, false, not, Option, none, some, List,
  [], ◌∷◌, map, Dict, contains, ◌∈◌, ◌⊆◌, keep, contains-keep, distinct, contains-distinct, ◌==◌,
  ◌&&◌, eq_iff, arith, Bool-cases,
}
use adf.Models.{Reversibility, rank}
use adf.Risk.{total_weight, permission_class_of, permission_exposure, autonomy_category}

-- `d` without `c`
abbrev remove : String → List String → List String
remove c = keep (λ x. not (x == c))

contains-remove :
    (c : String) (xs : List String) (s : String)
    → contains (remove c xs) s ≡ (contains xs s && not (s == c))
contains-remove c xs s = contains-keep (λ x. not (x == c)) xs s

-- A member's weight can be taken out of the total.
total_weight-remove :
    (w : String → ℕ) (c : String) (xs : List String)
    → c ∈ xs
    → w c + total_weight w (remove c xs) ≤ total_weight w xs
unfolding total_weight
total_weight-remove w c [] h = cc
total_weight-remove w c (x ∷ xs) h = elim (Bool-cases (x == c)) [
  | inl same ↦ rw same (
      subst (λ y. w y + total_weight w (remove c xs) ≤ w x + total_weight w xs)
        ((eq_iff x c).0 same) (omega (arith, remove-le w c xs)))
  | inr other ↦ rw other (omega (arith, total_weight-remove w c xs (ground arith)))
]
  where
    remove-le :
        (w : String → ℕ) (c : String) (xs : List String)
        → total_weight w (remove c xs) ≤ total_weight w xs
    remove-le w c [] = omega arith
    remove-le w c (x ∷ xs) = ground (arith, remove-le w c xs)

abbrev IsDistinct : List String → Type 0
IsDistinct [] = Unit
IsDistinct (x ∷ xs) = (contains xs x ≡ false) × IsDistinct xs

distinct-IsDistinct : (xs : List String) → IsDistinct (distinct xs)
unfolding distinct
distinct-IsDistinct [] = tt
distinct-IsDistinct (x ∷ xs) = elim (Bool-cases (contains (distinct xs) x)) [
  | inl old ↦ rw old (distinct-IsDistinct xs)
  | inr new ↦ rw new (new, distinct-IsDistinct xs)
]

total_weight_mono :
    (w : String → ℕ) (xs ys : List String)
    → IsDistinct xs
    → xs ⊆ ys
    → total_weight w xs ≤ total_weight w ys
unfolding total_weight
total_weight_mono w [] ys d h = omega arith
total_weight_mono w (x ∷ xs) ys d h = omega (
  arith,
  total_weight-remove w x ys (h x (ground (arith, eq_iff x x))),
  total_weight_mono w xs (remove x ys) d.1 rest,
)
  where
    rest : xs ⊆ remove x ys
    rest s m = rw (contains-remove x ys s) (ground (arith, h s, eq_iff x s, eq_iff s x, d.0, m))

map-subset : (f : String → String) (xs ys : List String) → xs ⊆ ys → map f xs ⊆ map f ys
map-subset f [] ys h s m = cc
map-subset f (x ∷ xs) ys h s m = elim (Bool-cases (f x == s)) [
  | inl same ↦ member f x ys s (h x (ground (arith, eq_iff x x))) same
  | inr other ↦ map-subset f xs ys (λ t n. h t (ground (arith, n))) s (ground (arith, m))
]
  where
    member :
        (f : String → String) (x : String) (ys : List String) (s : String)
        → x ∈ ys
        → (f x == s) ≡ true
        → s ∈ map f ys
    member f x [] s m e = cc
    member f x (y ∷ ys) s m e =
        ground (arith, eq_iff y x, eq_iff (f x) s, eq_iff (f y) s, ap f, member f x ys s)

-- Whoever holds more scopes is exposed at least as much, in every class and in the total: neither
-- the order of the scopes nor a scope that is held twice counts.
pub permission_exposure_mono :
    (weights : Dict ℕ) (classes : Dict String) (xs ys : List String)
    → xs ⊆ ys
    → ((permission_exposure weights classes xs).0 ⊆ (permission_exposure weights classes ys).0)
      × ((permission_exposure weights classes xs).1 ≤ (permission_exposure weights classes ys).1)
unfolding permission_exposure
permission_exposure_mono weights classes xs ys h =
    (held, total_weight_mono _ _ _ (distinct-IsDistinct (map f xs)) held)
  where
    f : String → String
    f = permission_class_of classes

    held : distinct (map f xs) ⊆ distinct (map f ys)
    held s m =
        rw (contains-distinct (map f ys) s)
          (map-subset f xs ys h s (rw (contains-distinct (map f xs) s) at m))

abbrev pub worst_rank : Option Reversibility → ℕ
worst_rank none = 0
worst_rank (some r) = rank r

-- The autonomy category is at most 3, and no lower for a subject whose tokens are as deep, whose
-- worst scope is as bad and that delegates if the other does.
pub autonomy_category_mono :
    (depth depth' : ℕ) (worst worst' : Option Reversibility) (delegates delegates' : Bool)
    → depth ≤ depth'
    → worst_rank worst ≤ worst_rank worst'
    → (delegates ≡ true → delegates' ≡ true)
    → (autonomy_category depth worst delegates ≤ autonomy_category depth' worst' delegates')
      × (autonomy_category depth' worst' delegates' ≤ 3)
unfolding autonomy_category rank
autonomy_category_mono d d' w w' g g' h k l = ground (arith, l)
