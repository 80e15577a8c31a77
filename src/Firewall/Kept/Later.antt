-- ===== src/Firewall/Kept/Later.antt =====
-- The methods behind `verify`: actions, revocation, reviews, approvals and the calls on components.
use adf.Prelude.{ℕ, String, not, ◌||◌, refl, Option, none, some, List, [], ◌∷◌, contains}
use adf.Errors.{Error}
use adf.Exec.{modify}
use adf.Exec.Rules.{Keeps, Keeps-if, Keeps-bind, Keeps-pure}
use adf.Env.{Env}
use adf.Models.{
  TokenClaims, TokenMetadata, PendingApproval, ActionRecord, CompletionState, Reversibility,
  ActionReview,
}
use adf.Guardrails.Circuit.{Circuit}
use adf.Firewall.{Firewall, write, try_write}
use adf.Firewall.Steps.{
  targets_revoked, approval_updated, action_put, action_closed, review_put, review_updated,
  storage_closed, Stable, write-Keeps, try_write-Keeps, modify-Keeps,
}
use adf.Firewall.Actions.{
  close_handle, open_action, run_body, finish_action, action, Body, ActionHandle,
}
use adf.Models.{needs_human_review}
use adf.Firewall.Revoke.{
  classify_action, queue_review, queue_reviews, report_revocation, revoke, revoke_targets,
}
use adf.Firewall.Reviews.{resolve_review}
use adf.Firewall.Approvals.{
  decide_approval, refuse_stale, load_pending, reject_revoked, reject_expired, grant_approval,
  approve, deny, hand_over, withhold, collect_from, collect, expire_one, expire_all,
  expire_stale_approvals, pending_approvals,
}
use adf.Firewall.Lineage.{chain, reset_circuit, read_circuit, close_firewall}
use adf.Storage.{put_review, update_review, update_approval, put_action, close_action, close}
use adf.Firewall.Kept.{
  step_rules, issue_child-Keeps, persist_token-Keeps, add_edge-Keeps, require-Keeps,
}

module _ (env : Env) {P : Firewall → Type 0} (st : Stable env P) where
  close_action-Keeps :
      (id : String) (state : CompletionState) (at : ℕ) (reason : Option String)
      → Keeps P (write (close_action id state at reason))
  close_action-Keeps id state at reason =
      write-Keeps env st (close_action id state at reason) (λ m. action_closed id state at reason)

  put_action-Keeps : (a : ActionRecord) → Keeps P (try_write (put_action a))
  put_action-Keeps a = try_write-Keeps env st (put_action a) (λ m m' e. action_put a e)

  close_handle-Keeps :
      (h : ActionHandle) (c : TokenClaims) (state : CompletionState) (reason : Option String)
      → Keeps P (close_handle env h c state reason)
  unfolding close_handle
  close_handle-Keeps h c state reason = search (step_rules, close_action-Keeps) depth 40

  open_action-Keeps :
      (c : TokenClaims) (scope name : String) (r : Option Reversibility)
      → Keeps P (open_action env c scope name r)
  unfolding open_action
  open_action-Keeps c scope name r = search (step_rules, put_action-Keeps) depth 40

  finish_action-Keeps :
      (h : ActionHandle) (c : TokenClaims) (o : Option Error) → Keeps P (finish_action env h c o)
  unfolding finish_action
  finish_action-Keeps h c none = close_handle-Keeps h c _ none
  finish_action-Keeps h c (some e) = search (step_rules, close_handle-Keeps) depth 20

  -- the guarded code keeps what it is asked to keep
  pub action-Keeps :
      (token scope name : String) (r : Option Reversibility) (body : Body)
      → ((h : ActionHandle) (s : Firewall) → P s → P (body h s).1)
      → Keeps P (action env token scope name r body)
  unfolding action run_body
  action-Keeps token scope name r body honest =
      let body_keeps : (h : ActionHandle) → Keeps P (run_body env body h) =
        λ h. record { at = honest h } in
      search (step_rules, require-Keeps env st, open_action-Keeps, finish_action-Keeps, body_keeps)
        depth 40

  put_review-Keeps : (r : ActionReview) → Keeps P (write (put_review r))
  put_review-Keeps r = write-Keeps env st (put_review r) (λ m. review_put r)

  queue_review-Keeps :
      (a : ActionRecord) (at : ℕ) (root : String) → Keeps P (queue_review env a at root)
  unfolding queue_review
  queue_review-Keeps a at root = search (step_rules, put_review-Keeps) depth 40

  queue_reviews-Keeps :
      (already : List String) (at : ℕ) (root : String) (actions : List ActionRecord)
      → Keeps P (queue_reviews env already at root actions)
  unfolding queue_reviews
  queue_reviews-Keeps already at root [] = search step_rules
  queue_reviews-Keeps already at root (a ∷ rest) =
      let ih = queue_reviews-Keeps already at root rest in
      Keeps-if (contains already a.action_id || not (needs_human_review (classify_action a))) _ _ ih
        (Keeps-bind (queue_review env a at root) _ (queue_review-Keeps a at root)
          λ r. Keeps-bind (queue_reviews env already at root rest) _ ih λ rs. Keeps-pure (r ∷ rs))

  revoke_targets-Keeps :
      (targets : List String) (root : String) (reason : Option String) (at : ℕ)
      → Keeps P (write (revoke_targets targets root reason at))
  revoke_targets-Keeps targets root reason at =
      write-Keeps env st (revoke_targets targets root reason at)
        (λ m. targets_revoked targets root reason at)

  pub report-Keeps :
      (jti : String) (reason : Option String) (at : ℕ) (targets : List String)
      (found : List ActionRecord)
      → Keeps P (report_revocation env jti reason at targets found)
  unfolding report_revocation
  report-Keeps jti reason at targets found = search (step_rules, queue_reviews-Keeps) depth 40

  pub revoke-Keeps : (jti : String) (reason : Option String) → Keeps P (revoke env jti reason)
  unfolding revoke
  revoke-Keeps jti reason = search (step_rules, revoke_targets-Keeps, report-Keeps) depth 40

  update_review-Keeps : (r : ActionReview) → Keeps P (try_write (update_review r))
  update_review-Keeps r = try_write-Keeps env st (update_review r) (λ m m' e. review_updated r e)

  pub resolve_review-Keeps : (id note by : String) → Keeps P (resolve_review env id note by)
  unfolding resolve_review
  resolve_review-Keeps id note by = search (step_rules, update_review-Keeps) depth 40

  update_approval-Keeps : (a : PendingApproval) → Keeps P (try_write (update_approval a))
  update_approval-Keeps a =
      try_write-Keeps env st (update_approval a) (λ m m' e. approval_updated a e)

  decide_approval-Keeps :
      (a : PendingApproval) (status : String) (approver jti token : Option String)
      → Keeps P (decide_approval env a status approver jti token)
  unfolding decide_approval
  decide_approval-Keeps a status approver jti token =
      search (step_rules, update_approval-Keeps) depth 20

  load_pending-Keeps : (id : String) → Keeps P (load_pending env id)
  unfolding load_pending refuse_stale
  load_pending-Keeps id = search (step_rules, decide_approval-Keeps) depth 40

  reject_revoked-Keeps :
      (a : PendingApproval) (approver : String) → Keeps P (reject_revoked env a approver)
  unfolding reject_revoked
  reject_revoked-Keeps a approver = search (step_rules, decide_approval-Keeps) depth 40

  reject_expired-Keeps :
      (a : PendingApproval) (approver : String) → Keeps P (reject_expired env a approver)
  unfolding reject_expired
  reject_expired-Keeps a approver = search (step_rules, decide_approval-Keeps) depth 40

  grant_approval-Keeps :
      (a : PendingApproval) (meta : TokenMetadata) (approver : String)
      → Keeps P (grant_approval env a meta approver)
  unfolding grant_approval
  grant_approval-Keeps a meta approver =
      search
        (
          step_rules,
          issue_child-Keeps env st,
          persist_token-Keeps env st,
          add_edge-Keeps env st,
          decide_approval-Keeps,
        )
        depth 60

  pub approve-Keeps : (id approver : String) → Keeps P (approve env id approver)
  unfolding approve
  approve-Keeps id approver =
      search
        (
          step_rules, load_pending-Keeps, reject_revoked-Keeps, reject_expired-Keeps,
          grant_approval-Keeps,
        )
        depth 60

  pub deny-Keeps :
      (id approver : String) (reason : Option String) → Keeps P (deny env id approver reason)
  unfolding deny
  deny-Keeps id approver reason =
      search (step_rules, load_pending-Keeps, decide_approval-Keeps) depth 40

  hand_over-Keeps : (a : PendingApproval) (token : String) → Keeps P (hand_over env a token)
  unfolding hand_over
  hand_over-Keeps a token = search (step_rules, update_approval-Keeps) depth 20

  withhold-Keeps : (a : PendingApproval) → Keeps P (withhold env a)
  unfolding withhold
  withhold-Keeps a = search step_rules

  collect_from-Keeps : (a : PendingApproval) (o : Option String) → Keeps P (collect_from env a o)
  unfolding collect_from
  collect_from-Keeps a none = withhold-Keeps a
  collect_from-Keeps a (some t) = search (step_rules, withhold-Keeps, hand_over-Keeps)

  pub collect-Keeps : (id : String) → Keeps P (collect env id)
  unfolding collect
  collect-Keeps id = search (step_rules, collect_from-Keeps) depth 20

  expire_one-Keeps : (a : PendingApproval) → Keeps P (expire_one env a)
  unfolding expire_one
  expire_one-Keeps a = search (step_rules, decide_approval-Keeps) depth 20

  expire_all-Keeps :
      (now n : ℕ) (pending : List PendingApproval) → Keeps P (expire_all env now n pending)
  unfolding expire_all
  expire_all-Keeps now n [] = search step_rules
  expire_all-Keeps now n (a ∷ rest) =
      let ih = λ (k : ℕ). expire_all-Keeps now k rest in
      search (step_rules, expire_one-Keeps, ih) depth 20

  pub expire_stale-Keeps : Keeps P (expire_stale_approvals env)
  unfolding expire_stale_approvals
  expire_stale-Keeps = search (step_rules, expire_all-Keeps) depth 20

  pub pending_approvals-Keeps : Keeps P (pending_approvals env)
  unfolding pending_approvals
  pending_approvals-Keeps = search (step_rules, expire_stale-Keeps) depth 20

  pub chain-Keeps : (jti : String) → Keeps P (chain env jti)
  unfolding chain
  chain-Keeps jti = search step_rules depth 40

  reset_state-Keeps : (f : Firewall → Circuit) → Keeps P (modify (λ s. record s { circuit = f s }))
  reset_state-Keeps f = modify-Keeps env st (λ s. record s { circuit = f s }) (λ s. (refl, refl))

  pub reset_circuit-Keeps : Keeps P (reset_circuit env)
  unfolding reset_circuit read_circuit
  reset_circuit-Keeps = search (step_rules, reset_state-Keeps) depth 40

  pub close_firewall-Keeps : Keeps P (close_firewall env)
  unfolding close_firewall
  close_firewall-Keeps = write-Keeps env st close (λ m. storage_closed)
