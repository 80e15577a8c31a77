-- ===== src/Storage/Revoked.antt =====
-- What `revoke_many` does to the table of revocations.
use adf.Prelude.{
  ℕ, String, ◌≡◌, refl, ◌&&◌, not, Option, none, some, List, [], ◌∷◌, Dict, lookup, insert, has_key,
  contains, arith, eq_iff, lookup-insert, if◌then◌else◌,
}
use adf.Storage.{Revocation, revoke_many}

abbrev pub entry : String → String → Option String → ℕ → Revocation
entry jti root reason at = record {
  jti = jti;
  revoked_at = at;
  root_of_revocation = root;
  reason = reason;
}

-- the record of `j` after the call: the old one if there was one
abbrev pub record_after :
    List String → String → Option String → ℕ → String → Option Revocation → Option Revocation
record_after jtis root reason at j (some old) = some old
record_after jtis root reason at j none =
    if contains jtis j then some (entry j root reason at) else none

module _ (root : String) (reason : Option String) (at : ℕ) where
  -- After `revoke_many` every listed token is revoked. A token that was revoked before keeps its
  -- first record, and no other token's record changes.
  pub lookup-revoke_many :
      (jtis : List String) (d : Dict Revocation) (j : String)
      → lookup j (revoke_many jtis root reason at d).0
        ≡ record_after jtis root reason at j (lookup j d)
  unfolding revoke_many
  lookup-revoke_many [] d j = ground arith
  lookup-revoke_many (jti ∷ jtis) d j = ground (
    arith,
    eq_iff jti j,
    lookup-insert jti j (entry jti root reason at) d,
    lookup-revoke_many jtis (if has_key jti d then d else insert jti (entry jti root reason at) d)
        j,
  )

  -- The tokens reported as newly revoked are the listed ones that were not revoked before.
  pub newly-revoke_many :
      (jtis : List String) (d : Dict Revocation) (j : String)
      → contains (revoke_many jtis root reason at d).1 j ≡ (contains jtis j && not (has_key j d))
  unfolding revoke_many
  newly-revoke_many [] d j = refl
  newly-revoke_many (jti ∷ jtis) d j = ground (
    arith,
    eq_iff jti j,
    lookup-insert jti j (entry jti root reason at) d,
    newly-revoke_many jtis (if has_key jti d then d else insert jti (entry jti root reason at) d) j,
  )
