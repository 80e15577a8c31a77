-- ===== src/Firewall/Revoke/Subtree.antt =====
-- What `revoke` does to the tokens below the revoked one.
use adf.Prelude.{
  ℕ, ◌+◌, String, Bool, true, false, ◌||◌, ◌≡◌, ◌≢◌, ◌⊎◌, none, refl, ap, sym, ◌∙◌, subst, Option,
  some, List, [], ◌∷◌, lookup, has_key, contains, ◌∈◌, arith, eq_iff, not, Dict, Bool-cases, inl,
  inr,
}
use adf.Errors.{ok}
use adf.Exec.{gets, ◌>>=◌}
use adf.Exec.Rules.{Keeps, Keeps-if, Keeps-bind, Keeps-pure, keeps_rules}
use adf.Env.{Env}
use adf.Models.{
  ActionRecord, ActionReview, TokenClaims, VerifyResult, ancestor_jtis, needs_human_review,
}
use adf.Audit.Rows.{AuditEvent, Row}
use adf.Storage.{Memory, Revocation, put_review, actions_for_review, append_audit_batch}
use adf.Storage.Walk.{descendants_breadth_first}
use adf.Storage.Descendants.{IsBelow, mem-descendants_breadth_first}
use adf.Storage.Revoked.{entry, record_after, lookup-revoke_many}
use adf.Firewall.{Firewall, write, utcnow, fresh_id, new_event, log}
use adf.Firewall.Tables.{HasTable, fresh_id-table, new_event-table, log-table, write-table}
use adf.Firewall.Run.{Step, run}
use adf.Firewall.Kept.Revoked.{run-revoked}
use adf.Firewall.Verify.{verify}
use adf.Firewall.Verify.Live.{IsAlive}
use adf.Firewall.Verify.Decision.{verify-IsGranted}
use adf.Tokens.{decode}
use adf.Firewall.Revoke.{
  classify_action, clamp_reason, revoke_targets, queue_review, queue_reviews, report_revocation,
  revoke,
}

abbrev revocations : Memory → Dict Revocation
revocations m = m.revoked

skips : (rows : List Row) (m : Memory) → revocations (append_audit_batch rows m) ≡ revocations m
unfolding append_audit_batch
skips rows m = refl

module _ (env : Env) (d : Dict Revocation) where
  put_review-reports : (r : ActionReview) → Keeps (HasTable revocations d) (write (put_review r))
  unfolding put_review
  put_review-reports r = write-table env revocations skips d (put_review r) (λ m. refl)

  fresh_id-reports : Keeps (HasTable revocations d) (fresh_id env)
  fresh_id-reports = fresh_id-table env revocations skips d

  new_event-reports : (action : String) → Keeps (HasTable revocations d) (new_event env action)
  new_event-reports = new_event-table env revocations skips d

  log-reports : (e : AuditEvent) → Keeps (HasTable revocations d) (log env e)
  log-reports = log-table env revocations skips d

  queue_review-reports :
      (a : ActionRecord) (at : ℕ) (root : String)
      → Keeps (HasTable revocations d) (queue_review env a at root)
  unfolding queue_review
  queue_review-reports a at root =
      search (keeps_rules, fresh_id-reports, put_review-reports, new_event-reports, log-reports)
        depth 40

  queue_reviews-reports :
      (already : List String) (at : ℕ) (root : String) (actions : List ActionRecord)
      → Keeps (HasTable revocations d) (queue_reviews env already at root actions)
  unfolding queue_reviews
  queue_reviews-reports already at root [] = search keeps_rules
  queue_reviews-reports already at root (a ∷ rest) =
      let ih = queue_reviews-reports already at root rest in
      Keeps-if (contains already a.action_id || not (needs_human_review (classify_action a))) _ _ ih
        (Keeps-bind (queue_review env a at root) _ (queue_review-reports a at root)
          λ r. Keeps-bind (queue_reviews env already at root rest) _ ih λ rs. Keeps-pure (r ∷ rs))

  report-reports :
      (jti : String) (reason : Option String) (at : ℕ) (targets : List String)
      (found : List ActionRecord)
      → Keeps (HasTable revocations d) (report_revocation env jti reason at targets found)
  unfolding report_revocation
  report-reports jti reason at targets found =
      search (keeps_rules, queue_reviews-reports, new_event-reports, log-reports) depth 40

ok-injective : {c e : TokenClaims} → ok c ≡ ok e → c ≡ e
ok-injective h = ground arith

not_both : (b : Bool) → b ≡ true → b ≡ false → ⊥
not_both b t f = ground arith

named_alive :
    (m : Memory) (c : TokenClaims) (d : String)
    → IsAlive m c
    → d ∈ c.jti ∷ ancestor_jtis c
    → has_key d m.revoked ≡ false
named_alive m c d alive named = ground (arith, eq_iff c.jti d, alive.itself, alive.ancestors d)

module _ (env : Env) (jti : String) (reason : Option String) (s : Firewall) where
  lookup-listed :
      (d : String)
      → lookup d (revoke env jti reason s).1.storage.revoked
        ≡ record_after
            (descendants_breadth_first s.storage jti)
            jti
            (clamp_reason reason)
            (env.clock s.reads)
            d
            (lookup d s.storage.revoked)
  unfolding revoke ◌>>=◌ gets utcnow write revoke_targets
  lookup-listed d =
      let targets = descendants_breadth_first s.storage jti in
      let at = env.clock s.reads in
      let m = revoke_targets targets jti (clamp_reason reason) at s.storage in
      let after : Firewall = record s { storage = m; reads = s.reads + 1 } in
      ap (lookup d) (
        (report-reports env m.revoked jti reason at targets
            (actions_for_review s.storage targets)).at
          after refl)
      ∙ lookup-revoke_many jti (clamp_reason reason) at targets s.storage.revoked d

  -- What `revoke` leaves of any token's record: a token at or below the revoked one in the delegation
  -- edges that had no record gets one, stamped with the call's clock reading, the root of the
  -- revocation and the clamped reason. The record of any other token, and any record that was there
  -- before, is as it was.
  pub lookup-revoke :
      (d : String)
      → (IsBelow s.storage.edges jti d
          × (lookup d s.storage.revoked ≡ none)
          × (lookup d (revoke env jti reason s).1.storage.revoked
              ≡ some (record {
                jti = d;
                revoked_at = env.clock s.reads;
                root_of_revocation = jti;
                reason = clamp_reason reason;
              })))
        ⊎ (((lookup d s.storage.revoked ≢ none) ⊎ ¬ IsBelow s.storage.edges jti d)
            × (lookup d (revoke env jti reason s).1.storage.revoked ≡ lookup d s.storage.revoked))
  lookup-revoke d = go (lookup d s.storage.revoked) refl
    where
      targets : List String
      targets = descendants_breadth_first s.storage jti

      go :
          (o : Option Revocation)
          → lookup d s.storage.revoked ≡ o
          → (IsBelow s.storage.edges jti d
              × (o ≡ none)
              × (lookup d (revoke env jti reason s).1.storage.revoked
                  ≡ some (entry d jti (clamp_reason reason) (env.clock s.reads))))
            ⊎ (((o ≢ none) ⊎ ¬ IsBelow s.storage.edges jti d)
                × (lookup d (revoke env jti reason s).1.storage.revoked ≡ o))
      go (some old) e = inr (inl (λ h. cc), ground (arith, lookup-listed d, e))
      go none e = elim (Bool-cases (contains targets d)) [
        | inl found ↦ inl (
          (mem-descendants_breadth_first s.storage jti d).0 found,
          refl,
          ground (arith, lookup-listed d, e, found),
        )
        | inr missed ↦ inr (
          inr (λ below.
              not_both (contains targets d)
                ((mem-descendants_breadth_first s.storage jti d).1 below) missed),
          ground (arith, lookup-listed d, e, missed),
        )
      ]

  -- After `revoke`, every token at or below the revoked one is revoked.
  pub revoke-subtree :
      (d : String)
      → IsBelow s.storage.edges jti d
      → has_key d (revoke env jti reason s).1.storage.revoked ≡ true
  revoke-subtree d below =
      ground (arith, lookup-listed d, (mem-descendants_breadth_first s.storage jti d).1 below)

  -- Once `revoke` was called, whatever the firewall is asked to do after that, `verify` finds no token
  -- valid whose claims name, as the token itself or as an ancestor, a token at or below the revoked
  -- one.
  pub revoke-refuses :
      (ts : List Step) (d token scope : String) (t : Firewall) (r : VerifyResult) (c : TokenClaims)
      → IsBelow s.storage.edges jti d
      → decode env (run env ts (revoke env jti reason s).1).config token false ≡ ok c
      → d ∈ c.jti ∷ ancestor_jtis c
      → verify env (some token) scope (run env ts (revoke env jti reason s).1) ≡ (ok r, t)
      → r.valid ≡ false
  revoke-refuses ts d token scope t r c below reads named e = elim (Bool-cases r.valid) [
    | inr refused ↦ refused
    | inl valid ↦
        let after = run env ts (revoke env jti reason s).1 in
        let (granted, _, g) = verify-IsGranted env token scope after t r e valid in
        let same : granted ≡ c = ok-injective (sym g.reads ∙ reads) in
        let gone = run-revoked env ts (revoke env jti reason s).1 d (revoke-subtree d below) in
        absurd (
          not_both (has_key d after.storage.revoked) gone (
            named_alive after.storage c d (subst (IsAlive after.storage) same g.cleared.alive)
              named))
  ]
