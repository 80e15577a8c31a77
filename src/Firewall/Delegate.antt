-- ===== src/Firewall/Delegate.antt =====
-- agperms/src/agperms/firewall.py: `delegate`, and the checks of the token that delegates.
pub mod Narrowing
use Prim.Native.String
use adf.Prelude.{
  ℕ, zero, suc, ◌+◌, String, Bool, true, false, not, Option, none, some, List, [], ◌∷◌, map, ltb,
  nat_eq, min, ◌==◌, sorted_set, without, length, if◌then◌else◌,
}
use adf.Errors.{
  Error, Result, ok, err, value_error, token_error, scope_escalation_denied, depth_limit_exceeded,
  parent_token_invalid, root_chain_broken, approval_required, reason_expired, reason_revoked,
}
use adf.Exec.{Exec, pure, raise, lift, gets, when, ◌>>=◌, ◌>>◌}
use adf.Time.{timestamp, from_ts, truncate_reason}
use adf.Json.{Json, int, str, bool, strs, dict}
use adf.Env.{Env}
use adf.Config.{sensitive_subset}
use adf.Models.{TokenClaims, TokenMetadata, Capability, PendingApproval, ancestor_jtis}
use adf.Guardrails.Anomaly.{Finding}
use adf.Storage.{get_token, add_edge, put_approval}
use adf.Firewall.{
  Firewall, Fw, or_default, write, ask_revoked, any_revoked, utcnow, utcnow_ts, fresh_id, new_event,
  log, spend, record_call, require_closed, observe, resolve_subject, read_token,
}
use adf.Firewall.Mint.{issue_child, persist_token, is_empty}

-- `raise ParentTokenInvalid(exc.reason) from exc`
unfoldable pub as_parent : Result TokenClaims → Result TokenClaims
as_parent (ok claims) = ok claims
as_parent (err (token_error reason)) = err (parent_token_invalid reason)
as_parent (err e) = err e

module _ (env : Env) where
  -- `_decode_live`
  unfoldable pub decode_live : String → Fw TokenClaims
  decode_live token = do
    read ← read_token env token
    claims ← lift (as_parent read)
    now ← utcnow_ts env
    when (ltb claims.exp now) (raise (parent_token_invalid reason_expired))
    gone ← ask_revoked claims.jti
    when gone (raise (parent_token_invalid reason_revoked))
    lost ← any_revoked (ancestor_jtis claims)
    when lost (raise (parent_token_invalid reason_revoked))
    pure claims

  unfoldable pub check_root : String → Option TokenMetadata → Fw (Unit {0})
  check_root root_jti none = raise (root_chain_broken "chain does not terminate at a known root")
  check_root root_jti (some root) = do
    when (not (nat_eq root.depth 0))
        (raise (root_chain_broken "chain root is not a depth-0 capability"))
    now ← utcnow env
    when (ltb root.expires_at now) (raise (root_chain_broken "root capability has expired"))
    gone ← ask_revoked root_jti
    when gone (raise (root_chain_broken "root capability has been revoked"))

  -- `_assert_root_alive`
  unfoldable pub assert_root_alive : TokenClaims → Fw (Unit {0})
  assert_root_alive claims = do
    root ← gets (λ s. get_token s.storage claims.root_jti)
    check_root claims.root_jti root

  -- `_park_for_approval`
  unfoldable pub park_for_approval :
      TokenClaims → String → List String → ℕ → List String → Fw PendingApproval
  park_for_approval parent child_agent_id requested ttl_seconds sensitive = do
    child ← resolve_subject env child_agent_id "agent"
    approval_id ← fresh_id env
    now ← utcnow_ts env
    expires_ts ← gets (λ s. min (now + s.config.approval_timeout_seconds) parent.exp)
    created ← utcnow env
    let approval : PendingApproval = record {
      approval_id = approval_id;
      parent_jti = parent.jti;
      parent_subject_id = parent.sub;
      child_agent_id = child_agent_id;
      child_subject_id = child.subject_id;
      requested_scopes = requested;
      sensitive_scopes = sensitive;
      ttl_seconds = ttl_seconds;
      parent_exp = parent.exp;
      status = "pending";
      created_at = created;
      expires_at = from_ts expires_ts;
      decided_at = none;
      approved_by = none;
      child_jti = none;
      child_token = none;
      collected = false;
    }
    write (put_approval approval)
    e ← new_event env "approval_pending"
    log env (record e {
      actor_id = some parent.sub;
      parent_jti = some parent.jti;
      root_jti = some parent.root_jti;
      scopes = some requested;
      decision = some "pending";
      reason = some (String.◌++◌ "sensitive scopes require approval: " (env.repr (strs sensitive)));
      depth = some (parent.depth + 1);
      detail =
          some
            (dict (("approval_id", str approval_id) ∷ ("child_agent_id", str child_agent_id) ∷ []));
    })
    pure approval

  -- the refusal of a scope that the parent does not hold
  unfoldable pub refuse_escalation :
      TokenClaims → String → List String → List String → Fw (Unit {0})
  refuse_escalation parent to requested denied_scopes = do
    e ← new_event env "escalation_denied"
    log env (record e {
      actor_id = some parent.sub;
      parent_jti = some parent.jti;
      root_jti = some parent.root_jti;
      scopes = some requested;
      denied_scopes = some denied_scopes;
      decision = some "deny";
      reason = some "requested scopes exceed the parent grant";
      depth = some (parent.depth + 1);
      detail = some (dict (("child_agent_id", str to) ∷ []));
    })
    record_call env true (some parent.sub) true
    raise (scope_escalation_denied requested (sorted_set parent.scopes) denied_scopes)

  unfoldable pub depth_text : ℕ → ℕ → String
  depth_text depth max_depth = String.◌++◌ "depth " (
      String.◌++◌ (env.repr (int depth))
        (String.◌++◌ " exceeds max_depth " (env.repr (int max_depth))))

  -- the refusal of a chain that would be too deep
  unfoldable pub refuse_depth : TokenClaims → String → List String → ℕ → Fw (Unit {0})
  unfolding depth_text
  refuse_depth parent to requested child_depth = do
    e ← new_event env "depth_limit_exceeded"
    log env (record e {
      actor_id = some parent.sub;
      parent_jti = some parent.jti;
      root_jti = some parent.root_jti;
      scopes = some requested;
      decision = some "deny";
      reason = some (depth_text child_depth parent.max_depth);
      depth = some child_depth;
      detail = some (dict (("child_agent_id", str to) ∷ []));
    })
    record_call env true (some parent.sub) true
    raise (depth_limit_exceeded child_depth parent.max_depth)

  abbrev pub has_findings : List Finding → Bool
  has_findings [] = false
  has_findings (f ∷ fs) = true

  -- an anomaly is logged and never blocks
  unfoldable pub flag_anomaly : TokenClaims → String → List String → List Finding → Fw (Unit {0})
  flag_anomaly parent to requested findings = when (has_findings findings) (do
    e ← new_event env "anomaly_flagged"
    log env (record e {
      actor_id = some parent.sub;
      parent_jti = some parent.jti;
      root_jti = some parent.root_jti;
      scopes = some requested;
      decision = some "flag";
      reason = some (truncate_reason (env.finding_text findings));
      detail = some (dict (("child_agent_id", str to) ∷ ("auto_blocked", bool false) ∷ []));
    }))

  -- a sensitive request is parked, and nothing is minted
  unfoldable pub divert_to_approval :
      TokenClaims → String → List String → ℕ → List String → Fw (Unit {0})
  divert_to_approval parent to requested ttl sensitive = do
    approval ← park_for_approval parent to requested ttl sensitive
    record_call env false (some parent.sub) false
    raise (approval_required approval.approval_id requested sensitive)

  -- the part of `delegate` that mints
  unfoldable pub grant : TokenClaims → String → List String → ℕ → Fw Capability
  grant parent to requested child_exp = do
    child ← resolve_subject env to "agent"
    minted ← issue_child env parent child.subject_id requested child_exp false none
    persist_token minted (some parent.jti)
    write (add_edge parent.jti minted.claims.jti)
    e ← new_event env "delegated"
    log env (record e {
      actor_id = some parent.sub;
      jti = some minted.claims.jti;
      parent_jti = some parent.jti;
      root_jti = some minted.claims.root_jti;
      scopes = some minted.claims.scopes;
      decision = some "allow";
      depth = some minted.claims.depth;
      detail = some (
          dict (
            ("child_agent_id", str to)
            ∷ ("child_subject_id", str child.subject_id)
            ∷ ("exp", int minted.claims.exp)
            ∷ []));
    })
    record_call env false (some parent.sub) false
    pure minted

  unfoldable pub delegate : String → String → List String → Option ℕ → Fw Capability
  delegate parent_token to scopes ttl_seconds = do
    require_closed env
    when (is_empty scopes) (raise (value_error "a delegation with no scopes grants nothing"))
    parent ← decode_live parent_token
    spend env parent.sub "delegate"
    assert_root_alive parent
    let requested = sorted_set scopes
    let denied_scopes = without requested parent.scopes
    when (not (is_empty denied_scopes)) (refuse_escalation parent to requested denied_scopes)
    let child_depth = parent.depth + 1
    when (ltb parent.max_depth child_depth) (refuse_depth parent to requested child_depth)
    findings ← observe env parent.sub (length requested)
    flag_anomaly parent to requested findings
    requested_ttl ← gets (λ s. or_default ttl_seconds s.config.default_ttl_seconds)
    now ← utcnow_ts env
    let child_exp = min (now + requested_ttl) parent.exp
    sensitive ← gets (λ s. sensitive_subset s.config requested)
    when (not (is_empty sensitive)) (divert_to_approval parent to requested requested_ttl sensitive)
    grant parent to requested child_exp
