-- ===== src/Models/Severity.antt =====
-- models.py: the severity order of `Reversibility`.
use adf.Prelude.{
  ℕ, ◌≤◌, ◌≡◌, ◌⊎◌, inl, inr, refl, none, some, List, [], ◌∷◌, arith, ltb, Bool-cases,
}
use adf.Models.{Reversibility, rank, worst_of}

abbrev pub AllAtMost : ℕ → List Reversibility → Type 0
AllAtMost n [] = Unit
AllAtMost n (r ∷ rs) = (rank r ≤ n) × AllAtMost n rs

abbrev pub IsListed : Reversibility → List Reversibility → Type 0
IsListed w [] = ⊥
IsListed w (r ∷ rs) = (w ≡ r) ⊎ IsListed w rs

AllAtMost-mono : (m n : ℕ) (rs : List Reversibility) → m ≤ n → AllAtMost m rs → AllAtMost n rs
AllAtMost-mono m n [] h a = tt
AllAtMost-mono m n (r ∷ rs) h a = (omega arith, AllAtMost-mono m n rs h a.1)

-- The worst of a list is one of its members, and no member ranks above it; only the empty list has
-- no worst member.
pub worst_of-max :
    (rs : List Reversibility)
    → ((worst_of rs ≡ none) × (rs ≡ []))
      ⊎ ((w : Reversibility) × (worst_of rs ≡ some w) × IsListed w rs × AllAtMost (rank w) rs)
unfolding worst_of
worst_of-max [] = inl (refl, refl)
worst_of-max (r ∷ rs) = elim (worst_of-max rs) [
  | inl (e, empty) ↦ inr (r, rw e, inl refl, (omega arith, rw empty tt))
  | inr (w, e, listed, above) ↦ elim (Bool-cases (ltb (rank w) (rank r))) [
    | inl up ↦ inr (
      r,
      rw (e, up),
      inl refl,
      (omega arith, AllAtMost-mono (rank w) (rank r) rs (ground arith) above),
    )
    | inr down ↦ inr (w, rw (e, down), inr listed, (ground arith, above))
  ]
]
