-- ===== src/Risk/Counts.antt =====
-- agperms/src/agperms/risk.py: `_authority_counts`, against what an audit row and a stored token say.
use adf.Prelude.{
  ℕ, ◌+◌, ◌≤◌, ◌≡◌, ◌≢◌, refl, ap, subst, String, Bool, true, false, Option, none, some, List, [],
  ◌∷◌, lookup, ◌&&◌, keep, arith, eq_iff, Bool-cases, Option-cases, inl, inr,
}
use adf.Env.{Env}
use adf.Models.{TokenMetadata}
use adf.Audit.Rows.{Row}
use adf.Storage.{Memory, get_token, find_audit_rows, matches}
use adf.Risk.{token_of, is_autonomous, is_actor, row_at_or_after, count_authority, authority_counts}

module _ (env : Env) where
  row_at_or_after_mono :
      (since later : ℕ) (row : Row)
      → since ≤ later
      → row_at_or_after env (some later) row ≡ true
      → row_at_or_after env (some since) row ≡ true
  unfolding row_at_or_after
  row_at_or_after_mono since later row h e = ground arith

module _ (env : Env) (m : Memory) (subject : String) where
  count_authority_mono :
      (since later : ℕ) (rows : List Row)
      → since ≤ later
      → ((count_authority env m subject (some later) rows).0
          ≤ (count_authority env m subject (some since) rows).0)
        × ((count_authority env m subject (some later) rows).1
            ≤ (count_authority env m subject (some since) rows).1)
  unfolding count_authority
  count_authority_mono since later [] h = omega arith
  count_authority_mono since later (row ∷ rows) h =
      ground
        (arith, row_at_or_after_mono env since later row h, count_authority_mono since later rows h)

  -- no bound, or the row's time is not a time, or it is not before the bound
  abbrev pub IsInWindow : Option ℕ → Row → Type 0
  IsInWindow none row = Unit
  IsInWindow (some bound) row =
      (stamp : ℕ) → env.fromisoformat row.event.event_ts ≡ some stamp → bound ≤ stamp

  -- the row tells of an action that the subject started, in the window
  abbrev pub IsObserved : Option ℕ → Row → Type 0
  IsObserved since row =
      (row.event.action ≡ "action_started")
      × (row.event.actor_id ≡ some subject)
      × IsInWindow since row

  -- the row names a stored token that was minted with an approval
  pub record IsSupervised (row : Row) : Type 0 where
    pub jti : String
    pub meta : TokenMetadata
    pub names : row.event.jti ≡ some jti
    pub nonempty : jti ≢ ""
    pub stored : lookup jti m.tokens ≡ some meta
    pub approved : meta.approval_required ≡ true

  -- The rows hold so many observed actions, and so many of these without an approval.
  pub data Counts (since : Option ℕ) : List Row → ℕ → ℕ → Type 0 where
    no_rows : Counts since [] 0 0
    passed_over :
        {row : Row} {rows : List Row} {total autonomous : ℕ}
        → (IsObserved since row → ⊥)
        → Counts since rows total autonomous
        → Counts since (row ∷ rows) total autonomous
    supervised :
        {row : Row} {rows : List Row} {total autonomous : ℕ}
        → IsObserved since row
        → IsSupervised row
        → Counts since rows total autonomous
        → Counts since (row ∷ rows) (total + 1) autonomous
    unsupervised :
        {row : Row} {rows : List Row} {total autonomous : ℕ}
        → IsObserved since row
        → (IsSupervised row → ⊥)
        → Counts since rows total autonomous
        → Counts since (row ∷ rows) (total + 1) (autonomous + 1)

  row_at_or_after-IsInWindow :
      (since : Option ℕ) (row : Row) → row_at_or_after env since row ≡ true → IsInWindow since row
  unfolding row_at_or_after
  row_at_or_after-IsInWindow none row h = tt
  row_at_or_after-IsInWindow (some bound) row h = λ stamp e. ground arith

  IsInWindow-row_at_or_after :
      (since : Option ℕ) (row : Row) → IsInWindow since row → row_at_or_after env since row ≡ true
  unfolding row_at_or_after
  IsInWindow-row_at_or_after none row h = refl
  IsInWindow-row_at_or_after (some bound) row h =
      elim (Option-cases (env.fromisoformat row.event.event_ts)) [
        | inl e ↦ rw (e, row_at_or_after) refl
        | inr (stamp, e) ↦ ground (arith, e, h stamp e)
      ]

  is_actor-eq : (o : Option String) → is_actor subject o ≡ true → o ≡ some subject
  is_actor-eq none h = absurd (cc)
  is_actor-eq (some id) h = ap (λ (s : String). some s) ((eq_iff id subject).0 h)

  eq-is_actor : (o : Option String) → o ≡ some subject → is_actor subject o ≡ true
  eq-is_actor o h = ground (arith, ap (is_actor subject) h, eq_iff subject subject)

  IsSupervised-case : (row : Row) → is_autonomous (token_of m row) ≡ false → IsSupervised row
  unfolding token_of get_token
  IsSupervised-case row h = elim (Option-cases row.event.jti) [
    | inl e ↦ absurd (ground (arith, h, e))
    | inr (jti, e) ↦ elim (Option-cases (lookup jti m.tokens)) [
      | inl gone ↦ absurd (ground (arith, h, e, gone))
      | inr (meta, stored) ↦ record {
        jti = jti;
        meta = meta;
        names = e;
        nonempty = λ blank. absurd (ground (arith, h, e, (eq_iff jti "").1 blank));
        stored = stored;
        approved = ground (arith, h, e, stored);
      }
    ]
  ]

  autonomous_case : (row : Row) → is_autonomous (token_of m row) ≡ true → IsSupervised row → ⊥
  unfolding token_of get_token
  autonomous_case row h s =
      absurd (ground (arith, h, s.names, eq_iff s.jti "", s.nonempty, s.stored, s.approved))

  abbrev started : Row → Bool
  unfolding matches
  started row =
      matches (some "action_started") (some row.event.action) && matches none row.event.jti

  abbrev tested : Option ℕ → Row → Bool
  tested since row = is_actor subject row.event.actor_id && row_at_or_after env since row

  tested-IsObserved :
      (since : Option ℕ) (row : Row)
      → started row ≡ true
      → tested since row ≡ true
      → IsObserved since row
  unfolding started matches
  tested-IsObserved since row s t = (
    (eq_iff row.event.action "action_started").0 (ground arith),
    is_actor-eq row.event.actor_id (ground arith),
    row_at_or_after-IsInWindow since row (ground arith),
  )

  IsObserved-tested :
      (since : Option ℕ) (row : Row)
      → IsObserved since row
      → (started row ≡ true) × (tested since row ≡ true)
  unfolding started matches
  IsObserved-tested since row (action, actor, window) = (
    ground (arith, (eq_iff row.event.action "action_started").1 action),
    ground
        (arith, eq-is_actor row.event.actor_id actor, IsInWindow-row_at_or_after since row window),
  )

  Counts-eq :
      (since : Option ℕ) (rows : List Row) (n k n' k' : ℕ)
      → n ≡ n'
      → k ≡ k'
      → Counts since rows n k
      → Counts since rows n' k'
  Counts-eq since rows n k n' k' e f c =
      subst (λ x. Counts since rows x k') e (subst (λ y. Counts since rows n y) f c)

  count_authority-Counts :
      (since : Option ℕ) (rows : List Row)
      → Counts since rows
          (count_authority env m subject since (keep started rows)).0
          (count_authority env m subject since (keep started rows)).1
  unfolding count_authority
  count_authority-Counts since [] = no_rows
  count_authority-Counts since (row ∷ rows) =
      let rest = count_authority-Counts since rows in
      elim (Bool-cases (started row)) [
        | inl s ↦ elim (Bool-cases (tested since row)) [
          | inl t ↦ elim (Bool-cases (is_autonomous (token_of m row))) [
            | inl a ↦
                Counts-eq since _ _ _ _ _ (ground (arith, s, t)) (ground (arith, s, t, a))
                  (unsupervised (tested-IsObserved since row s t) (autonomous_case row a) rest)
            | inr a ↦
                Counts-eq since _ _ _ _ _ (ground (arith, s, t)) (ground (arith, s, t, a))
                  (supervised (tested-IsObserved since row s t) (IsSupervised-case row a) rest)
          ]
          | inr t ↦
              Counts-eq since _ _ _ _ _ (ground (arith, s, t)) (ground (arith, s, t))
                (passed_over (λ o. absurd (ground (arith, t, IsObserved-tested since row o))) rest)
        ]
        | inr s ↦
            Counts-eq since _ _ _ _ _ (ground (arith, s)) (ground (arith, s))
              (passed_over (λ o. absurd (ground (arith, s, IsObserved-tested since row o))) rest)
      ]

  -- Over the audit rows, the actions counted are those that the subject started in the window, and
  -- the autonomous ones those of them whose row names no stored token that was minted with an
  -- approval. A window that starts later counts no more of either.
  pub authority_counts-reads :
      (since later : ℕ)
      → since ≤ later
      → let (observed, autonomous) = authority_counts env m subject (some since) in
        let (observed', autonomous') = authority_counts env m subject (some later) in
        Counts (some since) m.audit observed autonomous
        × (observed' ≤ observed)
        × (autonomous' ≤ autonomous)
  unfolding authority_counts find_audit_rows
  authority_counts-reads since later h =
      let (fewer, fewer_own) = count_authority_mono since later (keep started m.audit) h in
      (count_authority-Counts (some since) m.audit, fewer, fewer_own)
