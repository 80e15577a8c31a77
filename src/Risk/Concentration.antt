-- ===== src/Risk/Concentration.antt =====
-- agperms/src/agperms/risk.py: `herfindahl`.
use adf.Prelude.{
  ℕ, zero, suc, ◌+◌, ◌-◌, ◌*◌, ◌≤◌, ◌<◌, ◌≡◌, ◌⊎◌, ◌↔◌, refl, ap, inl, inr, String, true, false,
  List, [], ◌∷◌, map, Dict, values, length, leb, arith, Bool-cases,
}
use adf.Risk.{sum, sum_squares, herfindahl}

le_cases : (a b : ℕ) → ((d : ℕ) × (b ≡ a + d)) ⊎ ((d : ℕ) × (a ≡ b + d))
le_cases a b = elim (Bool-cases (leb a b)) [
  | inl h ↦ inl (b - a, ground arith)
  | inr h ↦ inr (a - b, ground arith)
]

-- 2ab ≤ a² + b²
double_product-le : (a b : ℕ) → a * b + a * b ≤ a * a + b * b
double_product-le a b = elim (le_cases a b) [
  | inl (d, e) ↦ rw e (grind arith)
  | inr (d, e) ↦ rw e (grind arith)
]

cross-le : (v : ℕ) (vs : List ℕ) → v * sum vs + v * sum vs ≤ sum_squares vs + length vs * (v * v)
unfolding sum sum_squares
cross-le v [] = grind arith
cross-le v (x ∷ xs) = grind (arith, double_product-le v x, cross-le v xs)

-- the square of a sum is at most the number of terms times the sum of their squares
square_sum-le : (vs : List ℕ) → sum vs * sum vs ≤ length vs * sum_squares vs
unfolding sum sum_squares
square_sum-le [] = omega arith
square_sum-le (v ∷ vs) = grind (arith, square_sum-le vs, cross-le v vs)

sum_squares-le : (vs : List ℕ) → sum_squares vs ≤ sum vs * sum vs
unfolding sum sum_squares
sum_squares-le [] = omega arith
sum_squares-le (v ∷ vs) = grind (arith, sum_squares-le vs)

sum-scale : (k : ℕ) (vs : List ℕ) → sum (map (λ v. k * v) vs) ≡ k * sum vs
unfolding sum
sum-scale k [] = omega arith
sum-scale k (v ∷ vs) = grind (arith, sum-scale k vs)

sum_squares-scale :
    (k : ℕ) (vs : List ℕ) → sum_squares (map (λ v. k * v) vs) ≡ k * k * sum_squares vs
unfolding sum_squares
sum_squares-scale k [] = omega arith
sum_squares-scale k (v ∷ vs) = grind (arith, sum_squares-scale k vs)

abbrev pub scale : ℕ → Dict ℕ → Dict ℕ
scale k = map (λ (p : String × ℕ). (p.0, k * p.1))

values-scale :
    (k : ℕ) (shares : Dict ℕ) → values (scale k shares) ≡ map (λ v. k * v) (values shares)
unfolding values
values-scale k [] = refl
values-scale k ((name, v) ∷ rest) = ap (◌∷◌ (k * v)) (values-scale k rest)

abbrev pub IsShare : ℕ → List ℕ → Type 0
IsShare v [] = ⊥
IsShare v (x ∷ xs) = (v ≡ x) ⊎ IsShare v xs

zero_product : (a b : ℕ) → a * b ≡ 0 → (a ≡ 0) ⊎ (b ≡ 0)
zero_product zero b h = inl refl
zero_product (suc a) zero h = inr refl
zero_product (suc a) (suc b) h = absurd (grind arith)

lone-IsShare :
    (vs : List ℕ)
    → 0 < sum vs
    → sum_squares vs ≡ sum vs * sum vs
    → (v : ℕ) × IsShare v vs × (v ≡ sum vs)
unfolding sum sum_squares
lone-IsShare [] h e = absurd (omega arith)
lone-IsShare (v ∷ vs) h e = elim (zero_product v (sum vs) (grind (arith, sum_squares-le vs))) [
  | inr rest ↦ (v, inl refl, omega arith)
  | inl none_here ↦
      let (w, listed, whole) = lone-IsShare vs (omega arith) (grind arith) in
      (w, inr listed, omega arith)
]

share-le : (v : ℕ) (vs : List ℕ) → IsShare v vs → v ≤ sum vs
unfolding sum
share-le v [] h = elim h [ ]
share-le v (x ∷ xs) (inl e) = omega arith
share-le v (x ∷ xs) (inr h) = omega (arith, share-le v xs h)

whole_share : (v : ℕ) (vs : List ℕ) → IsShare v vs → v ≡ sum vs → sum_squares vs ≡ sum vs * sum vs
unfolding sum sum_squares
whole_share v [] h e = elim h [ ]
whole_share v (x ∷ xs) (inl h) e =
    let nothing : sum xs ≡ 0 = omega arith in
    let no_squares : sum_squares xs ≤ 0 = rw nothing at (sum_squares-le xs) in
    rw nothing (omega arith)
whole_share v (x ∷ xs) (inr h) e =
    let below : v ≤ sum xs = share-le v xs h in
    let first : x ≡ 0 = omega arith in rw first (omega (arith, whole_share v xs h (omega arith)))

-- For shares with a positive total, the concentration lies between one over the number of providers
-- and one; it is one exactly where some provider carries the whole total.
pub herfindahl_bounds :
    (shares : Dict ℕ)
    → 0 < sum (values shares)
    → ((herfindahl shares).0 ≤ (herfindahl shares).1)
      × ((herfindahl shares).1 ≤ length (values shares) * (herfindahl shares).0)
      × (((herfindahl shares).0 ≡ (herfindahl shares).1)
          ↔ ((v : ℕ) × IsShare v (values shares) × (v ≡ sum (values shares))))
unfolding herfindahl
herfindahl_bounds shares h =
    let vs : List ℕ = values shares in
    let some_total : leb (sum vs) 0 ≡ false = ground arith in
    rw some_total (
      sum_squares-le vs,
      square_sum-le vs,
      (lone-IsShare vs h, λ (v, listed, whole). whole_share v vs listed whole),
    )

-- Shares given as counts or as percentages have one concentration: multiplying every share by one
-- positive number leaves the quotient as it was.
pub herfindahl-scale :
    (k : ℕ) (shares : Dict ℕ)
    → 0 < k
    → (herfindahl (scale k shares)).0 * (herfindahl shares).1
      ≡ (herfindahl shares).0 * (herfindahl (scale k shares)).1
unfolding herfindahl
herfindahl-scale k shares h = elim (Bool-cases (leb (sum (values shares)) 0)) [
  | inl empty ↦
      let none_left : leb (sum (values (scale k shares))) 0 ≡ true =
        rw (values-scale k shares, sum-scale k (values shares)) (grind arith) in
      rw (empty, none_left) refl
  | inr full ↦
      let still_full : leb (sum (values (scale k shares))) 0 ≡ false =
        rw (values-scale k shares, sum-scale k (values shares)) (grind arith) in
      rw
        (
          full,
          still_full,
          values-scale k shares,
          sum-scale k (values shares),
          sum_squares-scale k (values shares),
        )
        (grind arith)
]
