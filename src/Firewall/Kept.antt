-- ===== src/Firewall/Kept.antt =====
-- The methods of the firewall against an invariant of the storage and the audit tail.
pub mod Later
pub mod Audited
pub mod Revoked
pub mod Changes
pub mod Runs
pub mod Keyed
use adf.Prelude.{
  ℕ, String, Bool, true, false, not, ◌||◌, ◌≡◌, refl, Option, none, some, List, [], ◌∷◌, is_some,
  contains, if◌then◌else◌, Bool-cases, Option-cases, inl, inr,
}
use adf.Errors.{Error, Result, ok, err}
use adf.Exec.{Exec, pure, raise, lift, gets, modify, when, ◌>>=◌, ◌>>◌}
use adf.Exec.Rules.{Keeps, Keeps-if, Keeps-bind, Keeps-pure, keeps_rules}
use adf.Env.{Env}
use adf.Models.{
  TokenClaims, TokenMetadata, Capability, PendingApproval, ActionRecord, CompletionState,
  Reversibility, VerifyResult, ActionReview,
}
use adf.Guardrails.Anomaly.{Finding}
use adf.Guardrails.Circuit.{Circuit}
use adf.Firewall.{Firewall, Fw, write, try_write}
use adf.Firewall.Steps.{
  Change, token_put, edge_added, targets_revoked, approval_put, approval_updated, action_put,
  action_closed, review_put, review_updated, storage_closed, Stable, write-Keeps, try_write-Keeps,
  ask_revoked-Keeps, any_revoked-Keeps, utcnow-Keeps, utcnow_ts-Keeps, fresh_id-Keeps,
  new_event-Keeps, log-Keeps, read_token-Keeps, require_closed-Keeps, modify-Keeps, spend-Keeps,
  record_call-Keeps, observe-Keeps, resolve_subject-Keeps,
}
use adf.Firewall.Mint.{persist_token, issue_root, issue_child, mint_root}
use adf.Firewall.Delegate.{
  decode_live, check_root, assert_root_alive, park_for_approval, refuse_escalation, refuse_depth,
  flag_anomaly, divert_to_approval, grant, delegate,
}
use adf.Firewall.Verify.{
  deny_verify, deny_unread, allow, judge_scope, judge_ancestors, judge_live, judge, conclude,
  verify_claims, verify_read, verify_present, verify, claims_or_raise, require,
}
use adf.Firewall.Actions.{
  close_handle, open_action, run_body, finish_action, action, Body, ActionHandle,
}
use adf.Models.{needs_human_review}
use adf.Firewall.Revoke.{
  classify_action, queue_review, queue_reviews, report_revocation, revoke, revoke_targets,
}
use adf.Firewall.Reviews.{resolve_review}
use adf.Firewall.Approvals.{
  decide_approval, refuse_stale, load_pending, reject_revoked, reject_expired, grant_approval,
  approve, deny, hand_over, withhold, collect_from, collect, expire_one, expire_all,
  expire_stale_approvals, pending_approvals,
}
use adf.Firewall.Lineage.{chain, reset_circuit, read_circuit, close_firewall}
use adf.Storage.{
  add_edge, put_approval, put_review, update_review, update_approval, put_action, close_action,
  close,
}

pub ruleset step_rules = (
  keeps_rules, utcnow-Keeps, utcnow_ts-Keeps, fresh_id-Keeps, new_event-Keeps, log-Keeps,
  ask_revoked-Keeps, any_revoked-Keeps, read_token-Keeps, require_closed-Keeps, spend-Keeps,
  record_call-Keeps, observe-Keeps, resolve_subject-Keeps,
)

module _ (env : Env) {P : Firewall → Type 0} (st : Stable env P) where
  pub persist_token-Keeps : (c : Capability) (p : Option String) → Keeps P (persist_token c p)
  unfolding persist_token
  persist_token-Keeps c p = try_write-Keeps env st _ (λ m m' e. token_put _ e)

  issue_root-Keeps :
      (id : String) (scopes : List String) (ttl depth : ℕ)
      → Keeps P (issue_root env id scopes ttl depth)
  unfolding issue_root
  issue_root-Keeps id scopes ttl depth = search step_rules depth 20

  pub issue_child-Keeps :
      (parent : TokenClaims) (id : String) (scopes : List String) (exp : ℕ) (b : Bool)
      (o : Option String)
      → Keeps P (issue_child env parent id scopes exp b o)
  unfolding issue_child
  issue_child-Keeps parent id scopes exp b o = search step_rules depth 20

  pub mint_root-Keeps :
      (subject : String) (scopes : List String) (ttl depth : Option ℕ)
      → Keeps P (mint_root env subject scopes ttl depth)
  unfolding mint_root
  mint_root-Keeps subject scopes ttl depth =
      search (step_rules, persist_token-Keeps, issue_root-Keeps) depth 40

  decode_live-Keeps : (token : String) → Keeps P (decode_live env token)
  unfolding decode_live
  decode_live-Keeps token = search step_rules depth 40

  check_root-Keeps : (jti : String) (o : Option TokenMetadata) → Keeps P (check_root env jti o)
  unfolding check_root
  check_root-Keeps jti none = search step_rules
  check_root-Keeps jti (some root) = search step_rules depth 40

  assert_root_alive-Keeps : (c : TokenClaims) → Keeps P (assert_root_alive env c)
  unfolding assert_root_alive
  assert_root_alive-Keeps c = search (step_rules, check_root-Keeps)

  put_approval-Keeps : (a : PendingApproval) → Keeps P (write (put_approval a))
  put_approval-Keeps a = write-Keeps env st (put_approval a) (λ m. approval_put a)

  park_for_approval-Keeps :
      (parent : TokenClaims) (to : String) (requested : List String) (ttl : ℕ)
      (sensitive : List String)
      → Keeps P (park_for_approval env parent to requested ttl sensitive)
  unfolding park_for_approval
  park_for_approval-Keeps parent to requested ttl sensitive =
      search (step_rules, put_approval-Keeps) depth 60

  refuse_escalation-Keeps :
      (parent : TokenClaims) (to : String) (requested refused : List String)
      → Keeps P (refuse_escalation env parent to requested refused)
  unfolding refuse_escalation
  refuse_escalation-Keeps parent to requested refused = search step_rules depth 40

  refuse_depth-Keeps :
      (parent : TokenClaims) (to : String) (requested : List String) (depth : ℕ)
      → Keeps P (refuse_depth env parent to requested depth)
  unfolding refuse_depth
  refuse_depth-Keeps parent to requested depth = search step_rules depth 40

  flag_anomaly-Keeps :
      (parent : TokenClaims) (to : String) (requested : List String) (fs : List Finding)
      → Keeps P (flag_anomaly env parent to requested fs)
  unfolding flag_anomaly
  flag_anomaly-Keeps parent to requested fs = search step_rules depth 40

  divert-Keeps :
      (parent : TokenClaims) (to : String) (requested : List String) (ttl : ℕ)
      (sensitive : List String)
      → Keeps P (divert_to_approval env parent to requested ttl sensitive)
  unfolding divert_to_approval
  divert-Keeps parent to requested ttl sensitive =
      search (step_rules, park_for_approval-Keeps) depth 40

  pub add_edge-Keeps : (p c : String) → Keeps P (write (add_edge p c))
  add_edge-Keeps p c = write-Keeps env st (add_edge p c) (λ m. edge_added p c)

  grant-Keeps :
      (parent : TokenClaims) (to : String) (requested : List String) (exp : ℕ)
      → Keeps P (grant env parent to requested exp)
  unfolding grant
  grant-Keeps parent to requested exp =
      search (step_rules, issue_child-Keeps, persist_token-Keeps, add_edge-Keeps) depth 60

  pub delegate-Keeps :
      (token to : String) (scopes : List String) (ttl : Option ℕ)
      → Keeps P (delegate env token to scopes ttl)
  unfolding delegate
  delegate-Keeps token to scopes ttl =
      search
        (
          step_rules, decode_live-Keeps, assert_root_alive-Keeps, refuse_escalation-Keeps,
          refuse_depth-Keeps, flag_anomaly-Keeps, divert-Keeps, grant-Keeps,
        )
        depth 80

  deny_verify-Keeps :
      (c : TokenClaims) (scope reason : String) → Keeps P (deny_verify env c scope reason)
  unfolding deny_verify
  deny_verify-Keeps c scope reason = search step_rules depth 40

  deny_unread-Keeps : (e : Error) (scope : String) → Keeps P (deny_unread env e scope)
  unfolding deny_unread
  deny_unread-Keeps e scope = search step_rules depth 40

  allow-Keeps : (c : TokenClaims) (scope : String) → Keeps P (allow env c scope)
  unfolding allow
  allow-Keeps c scope = search step_rules depth 40

  judge_scope-Keeps :
      (c : TokenClaims) (scope : String) (b : Bool) → Keeps P (judge_scope env c scope b)
  unfolding judge_scope
  judge_scope-Keeps c scope true = search step_rules
  judge_scope-Keeps c scope false = search step_rules

  judge_ancestors-Keeps :
      (c : TokenClaims) (scope : String) (b : Bool) → Keeps P (judge_ancestors env c scope b)
  unfolding judge_ancestors
  judge_ancestors-Keeps c scope true = search step_rules
  judge_ancestors-Keeps c scope false = search (step_rules, judge_scope-Keeps) depth 20

  judge-Keeps : (c : TokenClaims) (scope : String) (now : ℕ) → Keeps P (judge env c scope now)
  unfolding judge judge_live
  judge-Keeps c scope now = search (step_rules, judge_ancestors-Keeps) depth 20

  conclude-Keeps :
      (c : TokenClaims) (scope : String) (o : Option String) → Keeps P (conclude env c scope o)
  unfolding conclude
  conclude-Keeps c scope none = allow-Keeps c scope
  conclude-Keeps c scope (some r) = deny_verify-Keeps c scope r

  verify_read-Keeps : (r : Result TokenClaims) (scope : String) → Keeps P (verify_read env r scope)
  unfolding verify_read verify_claims
  verify_read-Keeps (err e) scope = deny_unread-Keeps e scope
  verify_read-Keeps (ok c) scope = search (step_rules, judge-Keeps, conclude-Keeps) depth 30

  verify_present-Keeps :
      (token : Option String) (scope : String) → Keeps P (verify_present env token scope)
  unfolding verify_present
  verify_present-Keeps none scope = search step_rules
  verify_present-Keeps (some t) scope = search (step_rules, verify_read-Keeps) depth 20

  pub verify-Keeps : (token : Option String) (scope : String) → Keeps P (verify env token scope)
  unfolding verify
  verify-Keeps token scope = search (step_rules, verify_present-Keeps) depth 20

  claims_or_raise-Keeps : (r : VerifyResult) → Keeps P (claims_or_raise env r)
  unfolding claims_or_raise
  claims_or_raise-Keeps r = elim (Bool-cases r.valid) [
    | inl v ↦ elim (Option-cases r.claims) [
      | inl e ↦ rw (v, e) (search step_rules)
      | inr (c, e) ↦ rw (v, e) (search step_rules)
    ]
    | inr v ↦ rw v (search step_rules)
  ]

  pub require-Keeps : (token : Option String) (scope : String) → Keeps P (require env token scope)
  unfolding require
  require-Keeps token scope = search (step_rules, verify-Keeps, claims_or_raise-Keeps) depth 20
