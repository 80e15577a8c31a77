-- ===== src/Risk/Profile.antt =====
-- agperms/src/agperms/risk.py: `_grant_profile`, against the audit rows and the stored tokens.
use adf.Prelude.{
  ℕ, ◌<◌, ◌≡◌, ◌≢◌, ◌↔◌, ◌⊎◌, inl, inr, refl, sym, ap, ◌∙◌, String, Bool, true, false, not, Option,
  none, some, List, [], ◌∷◌, lookup, ◌∈◌, ◌==◌, ◌&&◌, arith, eq_iff, Bool-cases, Option-cases,
  if◌then◌else◌,
}
use adf.Models.{TokenMetadata}
use adf.Audit.Rows.{Row}
use adf.Storage.{Memory, children, get_token}
use adf.Risk.{token_of, grant_of, grant_profile, is_nil}
use adf.Risk.State.{any, is_minting, holds, lies_below, delegates, profile_rows}

abbrev pub Among : Row → List Row → Type 0
Among r [] = ⊥
Among r (x ∷ xs) = (x ≡ r) ⊎ Among r xs

-- An audit row of a minted root or of a delegation names the stored token, which is the subject's.
pub record IsGrantOf (m : Memory) (subject : String) (meta : TokenMetadata) : Type 0 where
  pub row : Row
  pub logged : Among row m.audit
  pub minting : (row.event.action ≡ "root_minted") ⊎ (row.event.action ≡ "delegated")
  pub jti : String
  pub names : row.event.jti ≡ some jti
  pub nonempty : jti ≢ ""
  pub stored : lookup jti m.tokens ≡ some meta
  pub owner : meta.subject_id ≡ subject

any-Among :
    (test : Row → Bool) (rows : List Row)
    → any test rows ≡ true
    → (row : Row) × Among row rows × (test row ≡ true)
any-Among test [] h = absurd (cc)
any-Among test (x ∷ xs) h = elim (Bool-cases (test x)) [
  | inl e ↦ (x, inl refl, e)
  | inr e ↦ let (row, m, t) = any-Among test xs (ground (arith, h, e)) in (row, inr m, t)
]

Among-any :
    (test : Row → Bool) (rows : List Row) (row : Row)
    → Among row rows
    → test row ≡ true
    → any test rows ≡ true
Among-any test [] row m h = absurd m
Among-any test (x ∷ xs) row (inl e) h =
    let same : test x ≡ true = ap test e ∙ h in ground (arith, same)
Among-any test (x ∷ xs) row (inr m) h = ground (arith, Among-any test xs row m h)

module _ (m : Memory) (subject : String) where
  -- what a row must say to grant this token
  abbrev Names : Row → TokenMetadata → Type 0
  Names row meta =
      (jti : String) × (row.event.jti ≡ some jti)
      × (jti ≢ "")
      × (lookup jti m.tokens ≡ some meta)
      × (meta.subject_id ≡ subject)

  grant_of-Names :
      (row : Row) (meta : TokenMetadata) → grant_of m subject row ≡ some meta → Names row meta
  unfolding grant_of token_of get_token
  grant_of-Names row meta h = go row.event.jti refl h
    where
      owned : Option TokenMetadata → Option TokenMetadata
      owned o = elim o [ none ↦ none | some x ↦ if x.subject_id == subject then some x else none ]

      owner_case :
          (o : Option TokenMetadata)
          → owned o ≡ some meta
          → (o ≡ some meta) × (meta.subject_id ≡ subject)
      owner_case none h = absurd (cc)
      owner_case (some x) h = elim (Bool-cases (x.subject_id == subject)) [
        | inl e ↦
            let same : x ≡ meta = ground (arith, h, e) in
            (
              ap (λ (v : TokenMetadata). some v) same,
              ap (λ (v : TokenMetadata). v.subject_id) (sym same)
                  ∙ (eq_iff x.subject_id subject).0 e,
            )
        | inr e ↦ absurd (ground (arith, h, e))
      ]

      go :
          (o : Option String)
          → row.event.jti ≡ o
          → owned
              (elim o [ none ↦ none | some jti ↦ if jti == "" then none else lookup jti m.tokens ])
            ≡ some meta
          → Names row meta
      go none e h = absurd (cc)
      go (some jti) e h = elim (Bool-cases (jti == "")) [
        | inl empty ↦ absurd (ground (arith, h, empty))
        | inr given ↦
            let (stored, owner) = owner_case (lookup jti m.tokens) (rw given at h) in
            (jti, e, λ blank. ground (arith, given, (eq_iff jti "").1 blank), stored, owner)
      ]

  Names-grant_of :
      (row : Row) (meta : TokenMetadata) → Names row meta → grant_of m subject row ≡ some meta
  unfolding grant_of token_of get_token
  Names-grant_of row meta (jti, e, nonempty, stored, owner) =
      ground (arith, e, eq_iff jti "", nonempty, stored, eq_iff meta.subject_id subject, owner)

  -- a test of the granted tokens, read off the rows
  granted :
      (test : Option TokenMetadata → Bool)
      → test none ≡ false
      → (any (λ row. is_minting row && test (grant_of m subject row)) m.audit ≡ true)
        ↔ ((meta : TokenMetadata) × IsGrantOf m subject meta × (test (some meta) ≡ true))
  granted test blank = (forth, back)
    where
      tested : Row → Bool
      tested row = is_minting row && test (grant_of m subject row)

      forth :
          any tested m.audit ≡ true
          → (meta : TokenMetadata) × IsGrantOf m subject meta × (test (some meta) ≡ true)
      forth h =
          let (row, logged, told) = any-Among tested m.audit h in
          elim (Option-cases (grant_of m subject row)) [
            | inl gone ↦ absurd (ground (arith, told, ap test gone, blank))
            | inr (meta, e) ↦
                let (jti, names, nonempty, stored, owner) = grant_of-Names row meta e in
                (
                  meta,
                  record {
                    row = row;
                    logged = logged;
                    minting = ground (
                      arith,
                      told,
                      eq_iff row.event.action "root_minted",
                      eq_iff row.event.action "delegated",
                    );
                    jti = jti;
                    names = names;
                    nonempty = nonempty;
                    stored = stored;
                    owner = owner;
                  },
                  ground (arith, told, ap test e),
                )
          ]

      back :
          (meta : TokenMetadata) × IsGrantOf m subject meta × (test (some meta) ≡ true)
          → any tested m.audit ≡ true
      back (meta, g, h) = Among-any tested m.audit g.row g.logged (
          ground (
            arith,
            ap test (Names-grant_of g.row meta (g.jti, g.names, g.nonempty, g.stored, g.owner)),
            h,
            g.minting,
            eq_iff g.row.event.action "root_minted",
            eq_iff g.row.event.action "delegated",
          ))

  first_child : (xs : List String) → (not (is_nil xs) ≡ true) ↔ ((child : String) × (child ∈ xs))
  first_child [] = (λ h. absurd (cc), λ (child, h). absurd (cc))
  first_child (x ∷ xs) = (λ h. (x, ground (arith, eq_iff x x)), λ h. refl)

  delegates-child :
      (meta : TokenMetadata)
      → (delegates m (some meta) ≡ true) ↔ ((child : String) × (child ∈ children m.edges meta.jti))
  delegates-child meta = first_child (children m.edges meta.jti)

  -- A scope is in the profile of a subject, a depth lies below its deepest, and it delegates, each
  -- exactly where an audit row of a minted root or of a delegation names, with a token id that is not
  -- empty, a stored token of the subject that holds the scope, lies deeper, or has a child. No other
  -- row counts, that of a granted approval included.
  pub grant_profile-reads :
      (scope : String) (n : ℕ)
      → let (scopes, deepest, delegates_further) = grant_profile m subject in
        ((scope ∈ scopes)
          ↔ ((meta : TokenMetadata) × IsGrantOf m subject meta × (scope ∈ meta.scopes)))
        × ((n < deepest) ↔ ((meta : TokenMetadata) × IsGrantOf m subject meta × (n < meta.depth)))
        × ((delegates_further ≡ true) ↔ (
            (meta : TokenMetadata) × IsGrantOf m subject meta
            × ((child : String) × (child ∈ children m.edges meta.jti))))
  grant_profile-reads scope n =
      let (scopes, deepest, delegated) = profile_rows m subject scope n in
      let held = granted (holds scope) refl in
      let below = granted (lies_below n) refl in
      let further = granted (delegates m) refl in
      (
        (λ h. held.0 (sym scopes ∙ h), λ h. scopes ∙ held.1 h),
        (
          λ h.
              let (meta, g, deeper) = below.0 (sym deepest ∙ ground arith) in
              (meta, g, ground arith),
          λ (meta, g, deeper).
              let h = deepest ∙ below.1 (meta, g, ground arith) in ground (arith, h),
        ),
        (
          λ h.
              let (meta, g, child) = further.0 (sym delegated ∙ h) in
              (meta, g, (delegates-child meta).0 child),
          λ (meta, g, child). delegated ∙ further.1 (meta, g, (delegates-child meta).1 child),
        ),
      )
