-- ===== src/Firewall/Kept/Keyed.antt =====
-- The ids of requests, and the keys that they are stored under, in a run.
use adf.Prelude.{
  String, ◌≡◌, refl, ap, sym, subst, some, List, Dict, lookup, insert, arith, eq_iff, lookup-insert,
}
use adf.Errors.{ok}
use adf.Env.{Env}
use adf.Config.{Config}
use adf.Models.{PendingApproval}
use adf.Storage.{
  Memory, put_token, add_edge, get_or_create_subject, put_approval, update_approval, put_action,
  close_action, put_review, update_review, close, append_audit_batch,
}
use adf.Audit.{log_batch}
use adf.Firewall.{new_firewall, log}
use adf.Firewall.Revoke.{revoke_targets}
use adf.Firewall.Steps.{
  Change, token_put, edge_added, targets_revoked, subject_stored, approval_put, approval_updated,
  action_put, action_closed, review_put, review_updated, storage_closed, Stable,
}
use adf.Firewall.Run.{Step, run}
use adf.Firewall.Kept.Runs.{run-keeps}
use adf.Firewall.Approvals.Once.{IsKeyed}

abbrev KeyedTable : Dict PendingApproval → Type 0
KeyedTable d = (id : String) (a : PendingApproval) → lookup id d ≡ some a → a.approval_id ≡ id

insert-keyed :
    (a : PendingApproval) (d : Dict PendingApproval)
    → KeyedTable d
    → KeyedTable (insert a.approval_id a d)
insert-keyed a d keyed id b h =
    ground (arith, eq_iff a.approval_id id, lookup-insert a.approval_id id a d, keyed id b)

update-keyed :
    (a : PendingApproval) (m : Memory) {n : Memory}
    → update_approval a m ≡ ok n
    → KeyedTable m.approvals
    → KeyedTable n.approvals
unfolding update_approval
update-keyed a m e keyed = subst KeyedTable (ground arith) (insert-keyed a m.approvals keyed)

same-keyed :
    (m n : Memory) → n.approvals ≡ m.approvals → KeyedTable m.approvals → KeyedTable n.approvals
same-keyed m n e keyed = subst KeyedTable (sym e) keyed

Change-keyed : {m n : Memory} → Change m n → KeyedTable m.approvals → KeyedTable n.approvals
unfolding put_token add_edge revoke_targets get_or_create_subject put_approval put_action
    close_action put_review update_review close
Change-keyed {m} {n} (token_put meta e) = same-keyed m n (ground arith)
Change-keyed {m} {n} (edge_added p c) = same-keyed m n refl
Change-keyed {m} {n} (targets_revoked ts root reason at) = same-keyed m n refl
Change-keyed {m} {n} (subject_stored f h k l e) = same-keyed m n (ground arith)
Change-keyed {m} {n} (approval_put a) = insert-keyed a m.approvals
Change-keyed {m} {n} (approval_updated a e) = update-keyed a m e
Change-keyed {m} {n} (action_put a e) = same-keyed m n (ground arith)
Change-keyed {m} {n} (action_closed id state at reason) = same-keyed m n (ground arith)
Change-keyed {m} {n} (review_put r) = same-keyed m n refl
Change-keyed {m} {n} (review_updated r e) = same-keyed m n (ground arith)
Change-keyed {m} {n} storage_closed = same-keyed m n refl

module _ (env : Env) where
  IsKeyed-stable : Stable env IsKeyed
  unfolding log log_batch append_audit_batch
  IsKeyed-stable = record {
    quiet = λ s t same tails p.
        same-keyed s.storage t.storage (ap (λ (m : Memory). m.approvals) same) p;
    changed = λ s m c p. Change-keyed c p;
    logged = λ s e p. p;
  }

  -- Whatever a new firewall is asked to do, each request is stored under its own id.
  pub run-IsKeyed : (c : Config) (ts : List Step) → IsKeyed (run env ts (new_firewall c))
  unfolding new_firewall lookup
  run-IsKeyed c ts = run-keeps env IsKeyed-stable ts (new_firewall c) (λ id a h. ground arith)
