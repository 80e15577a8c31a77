-- ===== src/Firewall/Approvals.antt =====
-- agperms/src/agperms/firewall.py: the approval gate.
pub mod Gate
pub mod Once
use adf.Prelude.{
  ℕ, suc, ◌+◌, String, Bool, true, false, not, Option, none, some, List, [], ◌∷◌, ltb, min, lookup,
  ◌==◌, ◌&&◌, ◌||◌, if◌then◌else◌,
}
use Prim.Native.String
use adf.Errors.{
  Error, Result, ok, err, value_error, key_error, denied, parent_token_invalid, root_chain_broken,
  reason_revoked, reason_expired,
}
use adf.Exec.{Exec, pure, raise, lift, gets, when, ◌>>=◌, ◌>>◌}
use adf.Time.{truncate_reason}
use adf.Json.{Json, str, strs, dict}
use adf.Env.{Env}
use adf.Models.{Capability, PendingApproval, TokenMetadata, is_pending}
use adf.Storage.{get_token, add_edge, update_approval, list_approvals}
use adf.Tokens
use adf.Firewall.{Firewall, Fw, write, try_write, ask_revoked, utcnow, utcnow_ts, new_event, log}
use adf.Firewall.Mint.{issue_child, persist_token, claims_from_metadata}

-- the record that `_decide_approval` writes
unfoldable pub decided :
    PendingApproval → String → Option String → Option String → Option String → ℕ → PendingApproval
decided a status approver child_jti child_token at = record a {
  status = status;
  decided_at = some at;
  approved_by = approver;
  child_jti = child_jti;
  child_token = child_token;
}

unfoldable pub require_approval : Option PendingApproval → Result PendingApproval
require_approval none = err (key_error "unknown approval")
require_approval (some a) = ok a

unfoldable pub require_parent : Option TokenMetadata → Result TokenMetadata
require_parent none = err (root_chain_broken "parent token record not found")
require_parent (some meta) = ok meta

module _ (env : Env) where
  -- `_decide_approval`
  unfoldable pub decide_approval :
      PendingApproval → String → Option String → Option String → Option String → Fw (Unit {0})
  decide_approval a status approver child_jti child_token = do
    at ← utcnow env
    try_write (update_approval (decided a status approver child_jti child_token at))

  -- a pending request whose time is up is marked expired, and refused
  unfoldable pub refuse_stale : PendingApproval → Fw (Unit {0})
  refuse_stale a = do
    now ← utcnow env
    when (ltb a.expires_at now)
        (do decide_approval a "expired" none none none; raise (value_error "approval has expired"))

  -- `_load_pending`
  unfoldable pub load_pending : String → Fw PendingApproval
  load_pending approval_id = do
    found ← gets (λ s. lookup approval_id s.storage.approvals)
    a ← lift (require_approval found)
    when (is_pending a) (refuse_stale a)
    when (not (is_pending a)) (raise (value_error "approval is already decided"))
    pure a

  unfoldable pub reject_revoked : PendingApproval → String → Fw (Unit {0})
  reject_revoked a approver = do
    decide_approval a "denied" (some approver) none none
    e ← new_event env "approval_rejected"
    log env (record e {
      actor_id = some approver;
      parent_jti = some a.parent_jti;
      decision = some "deny";
      reason = some "parent was revoked while approval was pending";
      detail = some (dict (("approval_id", str a.approval_id) ∷ []));
    })
    raise (parent_token_invalid reason_revoked)

  unfoldable pub reject_expired : PendingApproval → String → Fw (Unit {0})
  reject_expired a approver = do
    decide_approval a "expired" (some approver) none none
    raise (parent_token_invalid reason_expired)

  -- the part of `approve` that mints
  unfoldable pub grant_approval : PendingApproval → TokenMetadata → String → Fw Capability
  grant_approval a parent_meta approver = do
    read ← gets (λ s. claims_from_metadata env s.config parent_meta)
    parent ← lift read
    now ← utcnow_ts env
    let child_exp = min (now + a.ttl_seconds) a.parent_exp
    minted ←
        issue_child env parent a.child_subject_id a.requested_scopes child_exp true (some approver)
    persist_token minted (some a.parent_jti)
    write (add_edge a.parent_jti minted.claims.jti)
    decide_approval a "approved" (some approver) (some minted.claims.jti) (some minted.token)
    e ← new_event env "approval_granted"
    log env (record e {
      actor_id = some approver;
      jti = some minted.claims.jti;
      parent_jti = some a.parent_jti;
      root_jti = some minted.claims.root_jti;
      scopes = some minted.claims.scopes;
      decision = some "allow";
      depth = some minted.claims.depth;
      detail = some (
          dict (
            ("approval_id", str a.approval_id)
            ∷ ("child_agent_id", str a.child_agent_id)
            ∷ ("sensitive_scopes", strs a.sensitive_scopes)
            ∷ []));
    })
    pure minted

  unfoldable pub approve : String → String → Fw Capability
  approve approval_id approver = do
    a ← load_pending approval_id
    found ← gets (λ s. get_token s.storage a.parent_jti)
    parent_meta ← lift (require_parent found)
    gone ← ask_revoked a.parent_jti
    when gone (reject_revoked a approver)
    now ← utcnow_ts env
    when (ltb a.parent_exp now) (reject_expired a approver)
    grant_approval a parent_meta approver

  abbrev deny_reason : Option String → String
  deny_reason none = "denied by human"
  deny_reason (some reason) = if reason == "" then "denied by human" else truncate_reason reason

  unfoldable pub deny : String → String → Option String → Fw (Unit {0})
  deny approval_id approver reason = do
    a ← load_pending approval_id
    decide_approval a "denied" (some approver) none none
    e ← new_event env "approval_denied"
    log env (record e {
      actor_id = some approver;
      parent_jti = some a.parent_jti;
      scopes = some a.requested_scopes;
      decision = some "deny";
      reason = some (deny_reason reason);
      detail = some (
          dict
            (("approval_id", str a.approval_id) ∷ ("child_agent_id", str a.child_agent_id) ∷ []));
    })

  -- the approved token's text, where there is one
  abbrev collectable : PendingApproval → Option String
  collectable a = if a.status == "approved" then a.child_token else none

  -- `PendingApproval` is a dataclass with slots, so a record has no `__dict__`, and what is written
  -- back is the record as it was.
  unfoldable pub hand_over : PendingApproval → String → Fw (Option Capability)
  hand_over a token = do
    read ← gets (λ s. Tokens.decode env s.config token false)
    claims ← lift read
    when (not a.collected) (try_write (update_approval a))
    pure (some (record { token = token; claims = claims }))

  unfoldable pub withhold : PendingApproval → Fw (Option Capability)
  withhold a =
      if a.status == "denied" || a.status == "expired"
      then raise (denied (String.◌++◌ "approval_" a.status))
      else pure none

  unfoldable pub collect_from : PendingApproval → Option String → Fw (Option Capability)
  collect_from a none = withhold a
  collect_from a (some token) = if token == "" then withhold a else hand_over a token

  unfoldable pub collect : String → Fw (Option Capability)
  collect approval_id = do
    found ← gets (λ s. lookup approval_id s.storage.approvals)
    a ← lift (require_approval found)
    collect_from a (collectable a)

  unfoldable pub expire_one : PendingApproval → Fw (Unit {0})
  expire_one a = do
    decide_approval a "expired" none none none
    e ← new_event env "approval_expired"
    log env (record e {
      parent_jti = some a.parent_jti;
      scopes = some a.requested_scopes;
      decision = some "deny";
      reason = some "approval request timed out without human action";
      detail = some (dict (("approval_id", str a.approval_id) ∷ []));
    })

  -- the loop of `expire_stale_approvals`
  unfoldable pub expire_all : ℕ → ℕ → List PendingApproval → Fw ℕ
  expire_all now count [] = pure count
  expire_all now count (a ∷ pending) =
      let stale = ltb a.expires_at now in
      let rest = expire_all now (if stale then suc count else count) pending in
      do when stale (expire_one a); rest

  unfoldable pub expire_stale_approvals : Fw ℕ
  expire_stale_approvals = do
    now ← utcnow env
    pending ← gets (λ s. list_approvals s.storage (some "pending"))
    expire_all now 0 pending

  unfoldable pub pending_approvals : Fw (List PendingApproval)
  pending_approvals = do
    expire_stale_approvals
    gets (λ s. list_approvals s.storage (some "pending"))
