-- ===== src/Firewall/Kept/Changes.antt =====
-- The audit rows, the revocations and the token records under a change of the storage.
use adf.Prelude.{
  ℕ, String, true, ◌≡◌, refl, ap, ◌∙◌, Option, none, some, List, Dict, lookup, insert, has_key,
  arith, eq_iff, lookup-insert, Option-cases, inl, inr,
}
use adf.Errors.{ok}
use adf.Models.{
  TokenMetadata, ActionRecord, CompletionState, Subject, PendingApproval, ActionReview,
}
use adf.Storage.{
  Memory, put_token, add_edge, get_or_create_subject, put_approval, update_approval, put_action,
  close_action, put_review, update_review, close,
}
use adf.Storage.Revoked.{lookup-revoke_many}
use adf.Firewall.Revoke.{revoke_targets}
use adf.Firewall.Steps.{
  Change, token_put, edge_added, targets_revoked, subject_stored, approval_put, approval_updated,
  action_put, action_closed, review_put, review_updated, storage_closed,
}

pub record Grows (m n : Memory) : Type 0 where
  pub audit : n.audit ≡ m.audit
  pub revoked : (jti : String) → has_key jti m.revoked ≡ true → has_key jti n.revoked ≡ true
  pub tokens :
      (jti : String) (meta : TokenMetadata)
      → lookup jti m.tokens ≡ some meta
      → lookup jti n.tokens ≡ some meta

same_tables-Grows :
    (m n : Memory) → n.audit ≡ m.audit → n.revoked ≡ m.revoked → n.tokens ≡ m.tokens → Grows m n
same_tables-Grows m n a r t = record {
  audit = a;
  revoked = λ jti h. ap (has_key jti) r ∙ h;
  tokens = λ jti meta h. ap (lookup jti) t ∙ h;
}

insert-keeps :
    (jti key : String) (meta new : TokenMetadata) (d : Dict TokenMetadata)
    → lookup key d ≡ none
    → lookup jti d ≡ some meta
    → lookup jti (insert key new d) ≡ some meta
insert-keeps jti key meta new d absent h =
    ground (arith, eq_iff key jti, lookup-insert key jti new d)

put_token-Grows : (meta : TokenMetadata) (m n : Memory) → put_token meta m ≡ ok n → Grows m n
unfolding put_token
put_token-Grows meta m n e = elim (Option-cases (lookup meta.jti m.tokens)) [
  | inl absent ↦
      let same : n ≡ record m { tokens = insert meta.jti meta m.tokens } = ground arith in
      record {
        audit = ap (λ (k : Memory). k.audit) same;
        revoked = λ jti h. ap (λ (k : Memory). has_key jti k.revoked) same ∙ h;
        tokens = λ jti old h.
            ap (λ (k : Memory). lookup jti k.tokens) same
            ∙ insert-keeps jti meta.jti old meta m.tokens absent h;
      }
  | inr (old, found) ↦ ground arith
]

revoke_targets-Grows :
    (targets : List String) (root : String) (reason : Option String) (at : ℕ) (m : Memory)
    → Grows m (revoke_targets targets root reason at m)
unfolding revoke_targets
revoke_targets-Grows targets root reason at m = record {
  audit = refl;
  revoked = λ jti h. ground (arith, lookup-revoke_many root reason at targets m.revoked jti);
  tokens = λ jti meta h. h;
}

subject_stored-Grows :
    (fresh hash kind label : String) (m : Memory) {subject : Subject} {n : Memory}
    → get_or_create_subject fresh hash kind label m ≡ some (subject, n)
    → Grows m n
unfolding get_or_create_subject
subject_stored-Grows fresh hash kind label m e =
    same_tables-Grows _ _ (ground arith) (ground arith) (ground arith)

put_action-Grows : (a : ActionRecord) (m : Memory) {n : Memory} → put_action a m ≡ ok n → Grows m n
unfolding put_action
put_action-Grows a m e = same_tables-Grows _ _ (ground arith) (ground arith) (ground arith)

close_action-Grows :
    (id : String) (state : CompletionState) (at : ℕ) (reason : Option String) (m : Memory)
    → Grows m (close_action id state at reason m)
unfolding close_action
close_action-Grows id state at reason m =
    same_tables-Grows _ _ (ground arith) (ground arith) (ground arith)

update_approval-Grows :
    (a : PendingApproval) (m : Memory) {n : Memory} → update_approval a m ≡ ok n → Grows m n
unfolding update_approval
update_approval-Grows a m e = same_tables-Grows _ _ (ground arith) (ground arith) (ground arith)

update_review-Grows :
    (r : ActionReview) (m : Memory) {n : Memory} → update_review r m ≡ ok n → Grows m n
unfolding update_review
update_review-Grows r m e = same_tables-Grows _ _ (ground arith) (ground arith) (ground arith)

-- A change keeps the audit rows as they are, every revocation, and every token record.
pub Change-Grows : {m n : Memory} → Change m n → Grows m n
unfolding add_edge put_approval put_review close
Change-Grows (token_put meta e) = put_token-Grows meta _ _ e
Change-Grows (edge_added parent child) = same_tables-Grows _ _ refl refl refl
Change-Grows {m} (targets_revoked targets root reason at) =
    revoke_targets-Grows targets root reason at m
Change-Grows {m} (subject_stored fresh hash kind label e) =
    subject_stored-Grows fresh hash kind label m e
Change-Grows (approval_put a) = same_tables-Grows _ _ refl refl refl
Change-Grows {m} (approval_updated a e) = update_approval-Grows a m e
Change-Grows {m} (action_put a e) = put_action-Grows a m e
Change-Grows {m} (action_closed id state at reason) = close_action-Grows id state at reason m
Change-Grows (review_put r) = same_tables-Grows _ _ refl refl refl
Change-Grows {m} (review_updated r e) = update_review-Grows r m e
Change-Grows storage_closed = same_tables-Grows _ _ refl refl refl
