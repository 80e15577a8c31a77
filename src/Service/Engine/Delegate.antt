-- ===== src/Service/Engine/Delegate.antt =====
-- checkpoint_service/engine/delegation_engine.py: `delegate`, and the checks of the parent token.
pub mod Minted
pub mod Narrowing
use Prim.Native.String
use adf.Prelude.{
  ℕ, ◌+◌, String, Bool, true, false, not, Option, none, some, List, [], ◌∷◌, keep, ltb, nat_eq, min,
  contains, sorted_set, without, length,
}
use adf.Errors.{
  Result, scope_escalation_denied, depth_limit_exceeded, parent_token_invalid, root_chain_broken,
  reason_expired, reason_revoked,
}
use adf.Exec.{Exec, pure, raise, lift, gets, when, ◌>>=◌, ◌>>◌}
use adf.Time.{from_ts}
use adf.Json.{int, str, bool, strs, dict}
use adf.Env.{Env}
use adf.Config.{sensitive_subset}
use adf.Models.{TokenClaims, TokenMetadata, Capability, PendingApproval, ancestor_jtis}
use adf.Guardrails.Anomaly.{Finding}
use adf.Firewall.Mint.{is_empty}
use adf.Firewall.Delegate.{as_parent, depth_text, has_findings}
use adf.Service.Engine.{
  Platform, Engine, Eng, ask_revoked, any_revoked, record_edge, persist_token, add_approval,
}
use adf.Service.Engine.Guards.{
  utcnow, utcnow_ts, fresh_id, new_event, log, resolve_or_create, spend, record_call,
  require_closed, observe,
}
use adf.Service.Engine.Tokens.{issue_child, read_token}

-- `MintedToken | PendingApprovalCreated`
pub data Delegated : Type 0 where
  minted : Capability → Delegated
  pending : PendingApproval → Delegated

module _ (env : Env) (p : Platform) where
  -- `_decode_live_parent`
  unfoldable pub decode_live_parent : String → Eng p TokenClaims
  decode_live_parent parent_token = do
    read ← read_token env p parent_token
    claims ← lift (as_parent read)
    now ← utcnow_ts env p
    when (ltb claims.exp now) (raise (parent_token_invalid reason_expired))
    gone ← ask_revoked p claims.jti
    when gone (raise (parent_token_invalid reason_revoked))
    lost ← any_revoked p (ancestor_jtis claims)
    when lost (raise (parent_token_invalid reason_revoked))
    pure claims

  unfoldable pub check_root : String → Option TokenMetadata → Eng p (Unit {0})
  check_root root_jti none =
      raise (root_chain_broken "chain does not terminate at a known root token")
  check_root root_jti (some root) = do
    when (not (nat_eq root.depth 0)) (raise (root_chain_broken "chain root is not a depth-0 token"))
    now ← utcnow env p
    when (ltb root.expires_at now) (raise (root_chain_broken "root token has expired"))
    gone ← ask_revoked p root_jti
    when gone (raise (root_chain_broken "root token has been revoked"))

  -- `_assert_root_alive`
  unfoldable pub assert_root_alive : TokenClaims → Eng p (Unit {0})
  assert_root_alive parent = do
    root ← gets (λ s. p.tokens.get parent.root_jti s.tables.tokens)
    check_root parent.root_jti root

  unfoldable pub refuse_escalation :
      TokenClaims → String → List String → List String → Eng p (Unit {0})
  refuse_escalation parent child_agent_id requested denied_scopes = do
    e ← new_event env p "scope_escalation_denied"
    log env p (record e {
      actor_id = some parent.sub;
      parent_jti = some parent.jti;
      root_jti = some parent.root_jti;
      scopes = some requested;
      denied_scopes = some denied_scopes;
      decision = some "deny";
      reason = some "requested scopes exceed parent grant";
      depth = some (parent.depth + 1);
      detail = some (dict (("child_agent_id", str child_agent_id) ∷ []));
    })
    record_call env p true (some parent.sub) true
    raise (scope_escalation_denied requested (sorted_set parent.scopes) denied_scopes)

  unfoldable pub refuse_depth : TokenClaims → String → List String → ℕ → Eng p (Unit {0})
  unfolding depth_text
  refuse_depth parent child_agent_id requested child_depth = do
    e ← new_event env p "depth_limit_exceeded"
    log env p (record e {
      actor_id = some parent.sub;
      parent_jti = some parent.jti;
      root_jti = some parent.root_jti;
      scopes = some requested;
      decision = some "deny";
      reason = some (depth_text env child_depth parent.max_depth);
      depth = some child_depth;
      detail = some (dict (("child_agent_id", str child_agent_id) ∷ []));
    })
    record_call env p true (some parent.sub) true
    raise (depth_limit_exceeded child_depth parent.max_depth)

  -- an anomaly is logged and never blocks
  unfoldable pub flag_anomaly : TokenClaims → String → List String → List Finding → Eng p (Unit {0})
  flag_anomaly parent child_agent_id requested findings = when (has_findings env findings) (do
    e ← new_event env p "anomaly_detected"
    log env p (record e {
      actor_id = some parent.sub;
      parent_jti = some parent.jti;
      root_jti = some parent.root_jti;
      scopes = some requested;
      decision = some "flag";
      reason = some (env.finding_text findings);
      detail =
          some (dict (("child_agent_id", str child_agent_id) ∷ ("auto_blocked", bool false) ∷ []));
    }))

  -- `_create_pending_approval`
  unfoldable pub create_pending_approval :
      TokenClaims → String → List String → ℕ → Eng p PendingApproval
  create_pending_approval parent child_agent_id requested ttl_seconds = do
    sensitive ← gets (λ s. sensitive_subset s.settings requested)
    child ← resolve_or_create env p child_agent_id "agent"
    approval_id ← fresh_id env p
    now ← utcnow_ts env p
    expires_at ← gets (λ s. min (now + s.settings.approval_timeout_seconds) parent.exp)
    created ← utcnow env p
    let approval : PendingApproval = record {
      approval_id = approval_id;
      parent_jti = parent.jti;
      parent_subject_id = parent.sub;
      child_agent_id = child_agent_id;
      child_subject_id = child.subject_id;
      requested_scopes = requested;
      sensitive_scopes = sensitive;
      ttl_seconds = ttl_seconds;
      parent_exp = parent.exp;
      status = "pending";
      created_at = created;
      expires_at = from_ts expires_at;
      decided_at = none;
      approved_by = none;
      child_jti = none;
      child_token = none;
      collected = false;
    }
    add_approval p approval
    e ← new_event env p "approval_pending"
    log env p (record e {
      actor_id = some parent.sub;
      parent_jti = some parent.jti;
      root_jti = some parent.root_jti;
      scopes = some requested;
      decision = some "pending";
      reason =
          some
            (String.◌++◌ "sensitive scopes require human approval: " (env.repr (strs sensitive)));
      depth = some (parent.depth + 1);
      detail =
          some
            (dict (("approval_id", str approval_id) ∷ ("child_agent_id", str child_agent_id) ∷ []));
    })
    pure approval

  unfoldable pub divert : TokenClaims → String → List String → ℕ → Eng p Delegated
  divert parent child_agent_id requested ttl_seconds = do
    approval ← create_pending_approval parent child_agent_id requested ttl_seconds
    record_call env p false (some parent.sub) false
    pure (pending approval)

  -- the part of `delegate` that mints
  unfoldable pub grant : TokenClaims → String → List String → ℕ → Eng p Delegated
  grant parent child_agent_id requested child_exp = do
    child ← resolve_or_create env p child_agent_id "agent"
    capability ← issue_child env p parent child.subject_id requested child_exp false none
    persist_token p capability (some parent.jti)
    record_edge p parent.jti capability.claims.jti
    e ← new_event env p "token_minted"
    log env p (record e {
      actor_id = some parent.sub;
      jti = some capability.claims.jti;
      parent_jti = some parent.jti;
      root_jti = some capability.claims.root_jti;
      scopes = some capability.claims.scopes;
      decision = some "allow";
      depth = some capability.claims.depth;
      detail = some (
          dict (
            ("child_agent_id", str child_agent_id)
            ∷ ("child_subject_id", str child.subject_id)
            ∷ ("exp", int capability.claims.exp)
            ∷ []));
    })
    record_call env p false (some parent.sub) false
    pure (minted capability)

  unfoldable pub grant_or_divert :
      TokenClaims → String → List String → ℕ → ℕ → List String → Eng p Delegated
  grant_or_divert parent child_agent_id requested ttl_seconds child_exp [] =
      grant parent child_agent_id requested child_exp
  grant_or_divert parent child_agent_id requested ttl_seconds child_exp (_ ∷ _) =
      divert parent child_agent_id requested ttl_seconds

  unfoldable pub delegate : String → String → List String → ℕ → Eng p Delegated
  delegate parent_token child_agent_id requested ttl_seconds = do
    require_closed env p
    parent ← decode_live_parent parent_token
    spend env p parent.sub "delegate"
    assert_root_alive parent
    let denied_scopes = without requested parent.scopes
    when (not (is_empty denied_scopes))
        (refuse_escalation parent child_agent_id requested denied_scopes)
    let child_depth = parent.depth + 1
    when (ltb parent.max_depth child_depth)
        (refuse_depth parent child_agent_id requested child_depth)
    findings ← observe env p parent.sub (length requested)
    flag_anomaly parent child_agent_id requested findings
    now ← utcnow_ts env p
    let child_exp = min (now + ttl_seconds) parent.exp
    sensitive ← gets (λ s. keep (contains s.settings.sensitive_scopes) requested)
    grant_or_divert parent child_agent_id requested ttl_seconds child_exp sensitive
