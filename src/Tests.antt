-- ===== src/Tests.antt =====
-- Concrete runs of the program: the data, and one application of each theorem.
mod Data
mod Core
mod Flow
mod Parts
mod Rules
mod Risks
mod Tables
mod Mirrored
mod Logged
mod Served
mod Durable
use adf.Audit
use adf.Audit.Rows
use adf.Config
use adf.Errors
use adf.Exec
use adf.Firewall
use adf.Firewall.Actions
use adf.Firewall.Approvals
use adf.Firewall.Delegate
use adf.Firewall.Lineage
use adf.Firewall.Mint
use adf.Firewall.Reviews
use adf.Firewall.Revoke
use adf.Firewall.Run
use adf.Firewall.Verify
use adf.Guardrails.Anomaly
use adf.Guardrails.Circuit
use adf.Guardrails.Rate
use adf.Models
use adf.Models.Payload
use adf.Prelude
use adf.Risk
use adf.Sql.Records
use adf.Sql.Store
use adf.Sql.Store.Logs
use adf.Sql.Store.Work
use adf.Service.Revocation
use adf.Service.Revocation.Events
use adf.Service.AuditLogger
use adf.Sql.Runs
use adf.Storage
use adf.Storage.Walk
use adf.Time
use adf.Tokens

-- every definition of the program, to evaluate at concrete inputs
program : Unit {0}
unfolding adf.Audit.event_to_payload adf.Audit.current_tail adf.Audit.broken
    adf.Audit.canonical_content adf.Audit.compute_row_hash adf.Audit.chain_rows adf.Audit.log_batch
    adf.Audit.verify_from adf.Audit.verify_integrity adf.Audit.Rows.blank_event
    adf.Audit.Rows.row_with_id adf.Config.validate_config adf.Config.is_exempt
    adf.Config.register_exempt_subject adf.Config.is_sensitive adf.Config.sensitive_subset
    adf.Config.reversibility_of adf.Config.worst_reversibility adf.Errors.is_denial adf.Exec.pure
    adf.Exec.raise adf.Exec.lift adf.Exec.gets adf.Exec.◌>>=◌ adf.Exec.modify adf.Exec.when
    adf.Firewall.new_firewall adf.Firewall.write adf.Firewall.try_write adf.Firewall.ask_revoked
    adf.Firewall.any_revoked adf.Firewall.utcnow adf.Firewall.utcnow_ts adf.Firewall.fresh_id
    adf.Firewall.new_event adf.Firewall.log adf.Firewall.spend_at adf.Firewall.spend
    adf.Firewall.settle_outcome adf.Firewall.audit_trip adf.Firewall.record_call
    adf.Firewall.require_closed adf.Firewall.observe_at adf.Firewall.observe
    adf.Firewall.store_subject adf.Firewall.resolve_subject adf.Firewall.read_token
    adf.Firewall.Actions.add_notes adf.Firewall.Actions.close_handle
    adf.Firewall.Actions.open_action adf.Firewall.Actions.run_body
    adf.Firewall.Actions.finish_action adf.Firewall.Actions.action adf.Firewall.Approvals.decided
    adf.Firewall.Approvals.require_approval adf.Firewall.Approvals.require_parent
    adf.Firewall.Approvals.decide_approval adf.Firewall.Approvals.refuse_stale
    adf.Firewall.Approvals.load_pending adf.Firewall.Approvals.reject_revoked
    adf.Firewall.Approvals.reject_expired adf.Firewall.Approvals.grant_approval
    adf.Firewall.Approvals.approve adf.Firewall.Approvals.deny adf.Firewall.Approvals.hand_over
    adf.Firewall.Approvals.withhold adf.Firewall.Approvals.collect_from
    adf.Firewall.Approvals.collect adf.Firewall.Approvals.expire_one
    adf.Firewall.Approvals.expire_all adf.Firewall.Approvals.expire_stale_approvals
    adf.Firewall.Approvals.pending_approvals adf.Firewall.Delegate.as_parent
    adf.Firewall.Delegate.decode_live adf.Firewall.Delegate.check_root
    adf.Firewall.Delegate.assert_root_alive adf.Firewall.Delegate.park_for_approval
    adf.Firewall.Delegate.refuse_escalation adf.Firewall.Delegate.refuse_depth
    adf.Firewall.Delegate.flag_anomaly adf.Firewall.Delegate.divert_to_approval
    adf.Firewall.Delegate.grant adf.Firewall.Delegate.delegate adf.Firewall.Lineage.parent_of
    adf.Firewall.Lineage.walk_up adf.Firewall.Lineage.lineage adf.Firewall.Lineage.hop
    adf.Firewall.Lineage.require_leaf adf.Firewall.Lineage.chain
    adf.Firewall.Lineage.verify_audit_integrity adf.Firewall.Lineage.read_circuit
    adf.Firewall.Lineage.reset_circuit adf.Firewall.Lineage.close_firewall
    adf.Firewall.Mint.metadata_of adf.Firewall.Mint.persist_token adf.Firewall.Mint.issued_for
    adf.Firewall.Mint.claims_from_metadata adf.Firewall.Mint.issue_root
    adf.Firewall.Mint.issue_child adf.Firewall.Mint.mint_root adf.Firewall.Reviews.queue_priority
    adf.Firewall.Reviews.pending_reviews adf.Firewall.Reviews.resolved
    adf.Firewall.Reviews.require_unresolved adf.Firewall.Reviews.resolve_review
    adf.Firewall.Revoke.classify_action adf.Firewall.Revoke.completion_urgency
    adf.Firewall.Revoke.review_priority adf.Firewall.Revoke.clamp_reason
    adf.Firewall.Revoke.revoke_targets adf.Firewall.Revoke.queue_review
    adf.Firewall.Revoke.queue_reviews adf.Firewall.Revoke.report_revocation
    adf.Firewall.Revoke.revoke adf.Firewall.Run.perform adf.Firewall.Run.perform_all
    adf.Firewall.Run.body_of adf.Firewall.Run.take_step adf.Firewall.Run.run
    adf.Firewall.Verify.refusal adf.Firewall.Verify.allowed adf.Firewall.Verify.deny_verify
    adf.Firewall.Verify.deny_unread adf.Firewall.Verify.allow adf.Firewall.Verify.judge_scope
    adf.Firewall.Verify.judge_ancestors adf.Firewall.Verify.judge_live adf.Firewall.Verify.judge
    adf.Firewall.Verify.conclude adf.Firewall.Verify.verify_claims adf.Firewall.Verify.verify_read
    adf.Firewall.Verify.verify_present adf.Firewall.Verify.verify
    adf.Firewall.Verify.claims_or_raise adf.Firewall.Verify.require
    adf.Guardrails.Anomaly.push_capped adf.Guardrails.Anomaly.mean_std adf.Guardrails.Anomaly.beyond
    adf.Guardrails.Anomaly.is_high_outlier adf.Guardrails.Anomaly.is_low_outlier
    adf.Guardrails.Anomaly.interval_finding adf.Guardrails.Anomaly.scope_finding
    adf.Guardrails.Anomaly.observe adf.Guardrails.Anomaly.observe_delegation
    adf.Guardrails.Circuit.drop_stale adf.Guardrails.Circuit.count_errors
    adf.Guardrails.Circuit.trip_for adf.Guardrails.Circuit.is_unrecorded
    adf.Guardrails.Circuit.settle adf.Guardrails.Circuit.record_outcome
    adf.Guardrails.Circuit.check_circuit adf.Guardrails.Circuit.circuit_state
    adf.Guardrails.Circuit.reset_breaker adf.Guardrails.Rate.drop_before
    adf.Guardrails.Rate.hit_bucket adf.Guardrails.Rate.hit adf.Guardrails.Rate.count_live
    adf.Guardrails.Rate.count adf.Guardrails.Rate.limit_for adf.Guardrails.Rate.rate_key
    adf.Guardrails.Rate.check_rate adf.Models.needs_human_review adf.Models.completion_text
    adf.Models.is_clean adf.Models.reversibility_text adf.Models.rank adf.Models.worst_of
    adf.Models.is_root adf.Models.remaining_scopes adf.Models.raise_for_status
    adf.Models.check_review adf.Models.Payload.entry_to_dict adf.Models.Payload.require_key
    adf.Models.Payload.require_list adf.Models.Payload.chain_or_empty adf.Models.Payload.to_payload
    adf.Models.Payload.py_str adf.Models.Payload.py_int adf.Models.Payload.entry_from_dict
    adf.Models.Payload.entries_from_dicts adf.Models.Payload.from_payload adf.Prelude.lookup
    adf.Prelude.insert adf.Prelude.erase adf.Prelude.values adf.Prelude.text_lt
    adf.Prelude.insert_sorted adf.Prelude.sorted adf.Prelude.distinct adf.Storage.insert_by
    adf.Storage.sort_by adf.Storage.insert_down adf.Storage.sort_down adf.Storage.put_token
    adf.Storage.get_token adf.Storage.add_edge adf.Storage.children_of adf.Storage.is_revoked
    adf.Storage.revoked_among adf.Storage.revoke_many adf.Storage.find_subject_id
    adf.Storage.get_or_create_subject adf.Storage.get_subject adf.Storage.audit_tail_hash
    adf.Storage.number_rows adf.Storage.append_audit_batch adf.Storage.matches
    adf.Storage.find_audit_rows adf.Storage.put_approval adf.Storage.update_approval
    adf.Storage.list_approvals adf.Storage.put_action adf.Storage.close_action
    adf.Storage.wants_review adf.Storage.actions_named adf.Storage.reviewable
    adf.Storage.actions_for_review adf.Storage.put_review adf.Storage.update_review
    adf.Storage.list_reviews adf.Storage.close adf.Storage.Walk.offer adf.Storage.Walk.offer_all
    adf.Storage.Walk.expand adf.Storage.Walk.loop adf.Storage.Walk.all_children
    adf.Storage.Walk.descendants_breadth_first adf.Time.is_space adf.Time.collapse
    adf.Time.text_length adf.Time.text_take adf.Time.truncate_text adf.Tokens.root_claims
    adf.Tokens.chain_entry_for adf.Tokens.child_claims adf.Tokens.encode adf.Tokens.issue
    adf.Tokens.read_decoded adf.Tokens.decode adf.Risk.permission_class_of adf.Risk.weight_table
    adf.Risk.class_weight adf.Risk.total_weight adf.Risk.permission_exposure
    adf.Risk.autonomy_category adf.Risk.count_evidence adf.Risk.sum adf.Risk.sum_squares
    adf.Risk.herfindahl adf.Risk.concentration_of adf.Risk.token_of adf.Risk.grant_of
    adf.Risk.add_grant adf.Risk.add_grants adf.Risk.grant_rows adf.Risk.grant_profile
    adf.Risk.row_at_or_after adf.Risk.count_authority adf.Risk.authority_counts
    adf.Risk.gather_evidence adf.Risk.governance_tier adf.Risk.compute_risk_state
    adf.Sql.Records.action_row adf.Sql.Records.completion_of adf.Sql.Records.reversibility_of_text
    adf.Sql.Records.read_state adf.Sql.Records.read_reversibility adf.Sql.Records.to_action
    adf.Sql.Records.review_row adf.Sql.Records.to_review adf.Sql.Store.read_all
    adf.Sql.Store.revocation_rows adf.Sql.Store.open_session adf.Sql.Store.insert_token
    adf.Sql.Store.put_token adf.Sql.Store.get_token adf.Sql.Store.add_edge adf.Sql.Store.children_of
    adf.Sql.Store.descendants_breadth_first adf.Sql.Store.is_revoked adf.Sql.Store.revoked_among
    adf.Sql.Store.insert_revocations adf.Sql.Store.commit_revocations adf.Sql.Store.revoke_many
    adf.Sql.Store.close adf.Sql.Store.Logs.find_subject adf.Sql.Store.Logs.create_subject
    adf.Sql.Store.Logs.get_or_create_subject adf.Sql.Store.Logs.get_subject
    adf.Sql.Store.Logs.get_subjects adf.Sql.Store.Logs.audit_tail_hash
    adf.Sql.Store.Logs.insert_audit adf.Sql.Store.Logs.append_audit_batch
    adf.Sql.Store.Logs.iter_audit_rows adf.Sql.Store.Logs.find_audit_rows
    adf.Sql.Store.Logs.count_audit_rows adf.Sql.Store.Work.copy_decision
    adf.Sql.Store.Work.closed_row adf.Sql.Store.Work.wants_review_row
    adf.Sql.Store.Work.copy_finding adf.Sql.Store.Work.insert_approval
    adf.Sql.Store.Work.put_approval adf.Sql.Store.Work.get_approval
    adf.Sql.Store.Work.update_approval adf.Sql.Store.Work.list_approvals
    adf.Sql.Store.Work.insert_action adf.Sql.Store.Work.put_action adf.Sql.Store.Work.close_row
    adf.Sql.Store.Work.close_action adf.Sql.Store.Work.get_action
    adf.Sql.Store.Work.actions_for_review adf.Sql.Store.Work.insert_review
    adf.Sql.Store.Work.put_review adf.Sql.Store.Work.get_review adf.Sql.Store.Work.update_review
    adf.Sql.Store.Work.list_reviews adf.Sql.Runs.on_memory adf.Sql.Runs.run_memory
    adf.Sql.Runs.on_database adf.Sql.Runs.run_database adf.Service.Revocation.record_edge
    adf.Service.Revocation.collect_subtree adf.Service.Revocation.cache_add
    adf.Service.Revocation.revoke_subtree adf.Service.Revocation.rebuild_cache
    adf.Service.Revocation.is_revoked adf.Service.Revocation.revoked_among
    adf.Service.Revocation.Events.start_up adf.Service.Revocation.Events.happens
    adf.Service.Revocation.Events.happen adf.Service.AuditLogger.is_bufferable
    adf.Service.AuditLogger.load_tail adf.Service.AuditLogger.write_batch
    adf.Service.AuditLogger.flush adf.Service.AuditLogger.log adf.Service.AuditLogger.start
    adf.Service.AuditLogger.stop adf.Service.AuditLogger.verify_integrity
    adf.Service.AuditLogger.does adf.Service.AuditLogger.do_all adf.Service.Engine.rollback
    adf.Service.Engine.session_scope adf.Service.Engine.ask_revoked adf.Service.Engine.any_revoked
    adf.Service.Engine.record_edge adf.Service.Engine.find_subject adf.Service.Engine.create_subject
    adf.Service.Engine.persist_token adf.Service.Engine.add_approval
    adf.Service.Engine.Guards.utcnow adf.Service.Engine.Guards.utcnow_ts
    adf.Service.Engine.Guards.fresh_id adf.Service.Engine.Guards.new_event
    adf.Service.Engine.Guards.log adf.Service.Engine.Guards.resolve_or_create
    adf.Service.Engine.Guards.limit_for adf.Service.Engine.Guards.rate_key
    adf.Service.Engine.Guards.spend_local adf.Service.Engine.Guards.spent_redis
    adf.Service.Engine.Guards.spend_with adf.Service.Engine.Guards.spend_at
    adf.Service.Engine.Guards.spend adf.Service.Engine.Guards.settle_outcome
    adf.Service.Engine.Guards.attempt adf.Service.Engine.Guards.audit_trip
    adf.Service.Engine.Guards.record_call adf.Service.Engine.Guards.require_closed
    adf.Service.Engine.Guards.observe_at adf.Service.Engine.Guards.observe
    adf.Service.Engine.Tokens.issue adf.Service.Engine.Tokens.issue_root
    adf.Service.Engine.Tokens.issue_child adf.Service.Engine.Tokens.read_decoded
    adf.Service.Engine.Tokens.decode adf.Service.Engine.Tokens.read_token
    adf.Service.Engine.Mint.mint_root adf.Service.Engine.Mint.revoke_subtree
    adf.Service.Engine.Mint.revoke adf.Service.Engine.Delegate.decode_live_parent
    adf.Service.Engine.Delegate.check_root adf.Service.Engine.Delegate.assert_root_alive
    adf.Service.Engine.Delegate.refuse_escalation adf.Service.Engine.Delegate.refuse_depth
    adf.Service.Engine.Delegate.flag_anomaly adf.Service.Engine.Delegate.create_pending_approval
    adf.Service.Engine.Delegate.divert adf.Service.Engine.Delegate.grant
    adf.Service.Engine.Delegate.grant_or_divert adf.Service.Engine.Delegate.delegate
    adf.Service.Engine.Verify.deny adf.Service.Engine.Verify.deny_unread
    adf.Service.Engine.Verify.allow adf.Service.Engine.Verify.judge_scope
    adf.Service.Engine.Verify.judge_ancestors adf.Service.Engine.Verify.judge_live
    adf.Service.Engine.Verify.judge adf.Service.Engine.Verify.conclude
    adf.Service.Engine.Verify.verify_claims adf.Service.Engine.Verify.verify_read
    adf.Service.Engine.Verify.verify adf.Firewall.Delegate.depth_text
program = tt
