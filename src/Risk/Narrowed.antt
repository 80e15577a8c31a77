-- ===== src/Risk/Narrowed.antt =====
-- agperms/src/agperms/risk.py and firewall.py: the risk of a capability that `delegate` returns.
use adf.Prelude.{
  ℕ, ◌≤◌, ◌≡◌, inl, inr, String, false, Option, List, [], ◌∷◌, map, Dict, ◌∈◌, ◌⊆◌, arith, eq_iff,
  ◌==◌, Bool-cases, ap, sym,
}
use adf.Errors.{ok}
use adf.Env.{Env}
use adf.Config.{Config, reversibility_of, worst_reversibility}
use adf.Models.{Reversibility, rank, Capability, TokenClaims}
use adf.Models.Severity.{AllAtMost, IsListed, worst_of-max}
use adf.Tokens.{decode}
use adf.Firewall.{Firewall}
use adf.Firewall.Delegate.{delegate}
use adf.Firewall.Delegate.Narrowing.{delegate-IsNarrowed}
use adf.Risk.{permission_exposure}
use adf.Risk.Exposure.{permission_exposure_mono, worst_rank}

listed-le :
    (n : ℕ) (w : Reversibility) (rs : List Reversibility)
    → AllAtMost n rs
    → IsListed w rs
    → rank w ≤ n
listed-le n w [] a l = elim l [ ]
listed-le n w (r ∷ rs) a (inl e) = rw e (a.0)
listed-le n w (r ∷ rs) a (inr l) = listed-le n w rs a.1 l

IsListed-map :
    (c : Config) (s : String) (ys : List String)
    → s ∈ ys
    → IsListed (reversibility_of c s) (map (reversibility_of c) ys)
IsListed-map c s [] m = cc
IsListed-map c s (y ∷ ys) m = elim (Bool-cases (y == s)) [
  | inl same ↦ inl (ap (reversibility_of c) (sym ((eq_iff y s).0 same)))
  | inr other ↦ inr (IsListed-map c s ys (ground arith))
]

IsListed-from :
    (c : Config) (w : Reversibility) (xs ys : List String)
    → xs ⊆ ys
    → IsListed w (map (reversibility_of c) xs)
    → IsListed w (map (reversibility_of c) ys)
IsListed-from c w [] ys h l = elim l [ ]
IsListed-from c w (x ∷ xs) ys h (inl e) =
    rw e (IsListed-map c x ys (h x (ground (arith, eq_iff x x))))
IsListed-from c w (x ∷ xs) ys h (inr l) = IsListed-from c w xs ys (λ s m. h s (ground (arith, m))) l

pub worst_reversibility_mono :
    (c : Config) (xs ys : List String)
    → xs ⊆ ys
    → worst_rank (worst_reversibility c xs) ≤ worst_rank (worst_reversibility c ys)
unfolding worst_reversibility
worst_reversibility_mono c xs ys h = elim (worst_of-max (map (reversibility_of c) xs)) [
  | inl (e, _) ↦ rw e (omega arith)
  | inr (w, e, listed, _) ↦ rw e (elim (worst_of-max (map (reversibility_of c) ys)) [
    | inl (_, empty) ↦ absurd (rw empty at (IsListed-from c w xs ys h listed))
    | inr (v, f, _, above) ↦ rw f (listed-le (rank v) w _ above (IsListed-from c w xs ys h listed))
  ])
]

module _ (env : Env) where
  -- Where `delegate` returns a capability, the token it was given decodes to a parent, and under any
  -- table of weights the capability's scopes carry no more permission exposure than the parent's,
  -- and no worse reversibility.
  pub delegate_risk :
      (token to : String) (scopes : List String) (ttl : Option ℕ) (s t : Firewall)
      (child : Capability) (weights : Dict ℕ) (classes : Dict String)
      → delegate env token to scopes ttl s ≡ (ok child, t)
      → (parent : TokenClaims) × (decode env s.config token false ≡ ok parent)
        × ((permission_exposure weights classes child.claims.scopes).1
            ≤ (permission_exposure weights classes parent.scopes).1)
        × (worst_rank (worst_reversibility s.config child.claims.scopes)
            ≤ worst_rank (worst_reversibility s.config parent.scopes))
  delegate_risk token to scopes ttl s t child weights classes e =
      let (parent, read, narrow) = delegate-IsNarrowed env token to scopes ttl s t child e in
      (
        parent,
        read,
        (permission_exposure_mono weights classes _ _ narrow.held).1,
        worst_reversibility_mono s.config _ _ narrow.held,
      )
