-- ===== src/Risk/State.antt =====
-- agperms/src/agperms/risk.py: what the risk state of a subject is read from.
use adf.Prelude.{
  ℕ, ◌≡◌, refl, ◌∙◌, String, Bool, false, not, Option, none, some, List, [], ◌∷◌, ◌++◌, contains,
  contains-append, contains-sorted_set, keep, max, ltb, ◌==◌, ◌&&◌, ◌||◌, arith, Option-cases, inl,
  inr,
}
use mathlib.Core.Path.{ap₂}
use adf.Models.{TokenMetadata}
use adf.Audit.Rows.{Row}
use adf.Storage.{Memory, children, children_of, find_audit_rows, matches}
use adf.Risk.{grant_of, add_grant, add_grants, grant_rows, grant_profile, is_nil}

abbrev pub any : (Row → Bool) → List Row → Bool
any test [] = false
any test (row ∷ rows) = test row || any test rows

any-append :
    (test : Row → Bool) (xs ys : List Row) → any test (xs ++ ys) ≡ (any test xs || any test ys)
any-append test [] ys = refl
any-append test (x ∷ xs) ys = ground (arith, any-append test xs ys)

any-keep :
    (test kept : Row → Bool) (xs : List Row)
    → any test (keep kept xs) ≡ any (λ row. kept row && test row) xs
any-keep test kept [] = refl
any-keep test kept (x ∷ xs) = ground (arith, any-keep test kept xs)

any-or :
    (p q : Row → Bool) (xs : List Row) → (any p xs || any q xs) ≡ any (λ row. p row || q row) xs
any-or p q [] = refl
any-or p q (x ∷ xs) = ground (arith, any-or p q xs)

any-ext : (p q : Row → Bool) (xs : List Row) → ((row : Row) → p row ≡ q row) → any p xs ≡ any q xs
any-ext p q [] h = refl
any-ext p q (x ∷ xs) h = ground (arith, h x, any-ext p q xs h)

-- the row tells of a token of the subject's that holds the scope
abbrev pub holds : String → Option TokenMetadata → Bool
holds scope none = false
holds scope (some meta) = contains meta.scopes scope

-- the row tells of a token of the subject's that has children
abbrev pub delegates : Memory → Option TokenMetadata → Bool
delegates m none = false
delegates m (some meta) = not (is_nil (children m.edges meta.jti))

-- the row tells of a token of the subject's that lies deeper
abbrev pub lies_below : ℕ → Option TokenMetadata → Bool
lies_below n none = false
lies_below n (some meta) = ltb n meta.depth

is_nil-append : (xs : List String) → is_nil (xs ++ []) ≡ is_nil xs
is_nil-append [] = refl
is_nil-append (x ∷ xs) = refl

ltb-max : (n a b : ℕ) → ltb n (max a b) ≡ (ltb n a || ltb n b)
ltb-max n a b = ground arith

abbrev pub is_minting : Row → Bool
is_minting row = row.event.action == "root_minted" || row.event.action == "delegated"

module _ (m : Memory) (subject : String) where
  add_grants-contains :
      (scope : String) (rows : List Row) (scopes : List String) (deepest : ℕ) (delegated : Bool)
      → contains (add_grants m subject rows (scopes, deepest, delegated)).0 scope
        ≡ (contains scopes scope || any (λ row. holds scope (grant_of m subject row)) rows)
  unfolding add_grants add_grant
  add_grants-contains scope [] scopes deepest delegated = ground arith
  add_grants-contains scope (row ∷ rows) scopes deepest delegated =
      elim (Option-cases (grant_of m subject row)) [
        | inl e ↦ rw (e, add_grants) (add_grants-contains scope rows scopes deepest delegated)
        | inr (meta, e) ↦
            rw (e, add_grants)
              (add_grants-contains scope rows _ _ _
                ∙ ground (arith, contains-append scopes meta.scopes scope))
      ]

  add_grants-delegated :
      (rows : List Row) (scopes : List String) (deepest : ℕ) (delegated : Bool)
      → (add_grants m subject rows (scopes, deepest, delegated)).2
        ≡ (delegated || any (λ row. delegates m (grant_of m subject row)) rows)
  unfolding add_grants add_grant children_of
  add_grants-delegated [] scopes deepest delegated = ground arith
  add_grants-delegated (row ∷ rows) scopes deepest delegated =
      elim (Option-cases (grant_of m subject row)) [
        | inl e ↦ rw (e, add_grants) (add_grants-delegated rows scopes deepest delegated)
        | inr (meta, e) ↦
            rw (e, add_grants)
              (add_grants-delegated rows _ _ _
                ∙ ground (arith, is_nil-append (children m.edges meta.jti)))
      ]

  any-grant_rows :
      (test : Row → Bool)
      → any test (grant_rows m) ≡ any (λ row. is_minting row && test row) m.audit
  unfolding grant_rows find_audit_rows matches
  any-grant_rows test =
      let named : String → Row → Bool =
        λ name row. matches (some name) (some row.event.action) && matches none row.event.jti in
      let root : Row → Bool = named "root_minted" in
      let child : Row → Bool = named "delegated" in
      any-append test (keep root m.audit) (keep child m.audit)
      ∙ ap₂ ◌||◌ (any-keep test root m.audit) (any-keep test child m.audit)
      ∙ any-or (λ row. root row && test row) (λ row. child row && test row) m.audit
      ∙ any-ext (λ row. root row && test row || child row && test row)
          (λ row. is_minting row && test row) m.audit (λ row. ground arith)

  add_grants-deepest :
      (n : ℕ) (rows : List Row) (scopes : List String) (deepest : ℕ) (delegated : Bool)
      → ltb n (add_grants m subject rows (scopes, deepest, delegated)).1
        ≡ (ltb n deepest || any (λ row. lies_below n (grant_of m subject row)) rows)
  unfolding add_grants add_grant
  add_grants-deepest n [] scopes deepest delegated = ground arith
  add_grants-deepest n (row ∷ rows) scopes deepest delegated =
      elim (Option-cases (grant_of m subject row)) [
        | inl e ↦ rw (e, add_grants) (add_grants-deepest n rows scopes deepest delegated)
        | inr (meta, e) ↦
            rw (e, add_grants)
              (add_grants-deepest n rows _ _ _ ∙ ground (arith, ltb-max n deepest meta.depth))
      ]

  -- the profile, as tests of the audit rows
  pub profile_rows :
      (scope : String) (n : ℕ)
      → (contains (grant_profile m subject).0 scope
          ≡ any (λ row. is_minting row && holds scope (grant_of m subject row)) m.audit)
        × (ltb n (grant_profile m subject).1
            ≡ any (λ row. is_minting row && lies_below n (grant_of m subject row)) m.audit)
        × ((grant_profile m subject).2
            ≡ any (λ row. is_minting row && delegates m (grant_of m subject row)) m.audit)
  unfolding grant_profile
  profile_rows scope n = (
    contains-sorted_set _ scope
        ∙ add_grants-contains scope (grant_rows m) [] 0 false
        ∙ any-grant_rows _,
    add_grants-deepest n (grant_rows m) [] 0 false
        ∙ ground (arith, any-grant_rows (λ row. lies_below n (grant_of m subject row))),
    add_grants-delegated (grant_rows m) [] 0 false ∙ any-grant_rows _,
  )
