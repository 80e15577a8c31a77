-- ===== src/Sql/Store/Work.antt =====
-- agperms/src/agperms/storage/sql.py: approvals, actions and reviews.
use adf.Prelude.{
  ℕ, String, Bool, false, not, Option, none, some, List, [], ◌∷◌, keep, contains, is_some, ◌==◌,
  ◌||◌,
}
use adf.Errors.{storage_error, integrity_error}
use adf.Exec.{pure, raise, lift, gets, modify, when, ◌>>=◌, ◌>>◌}
use adf.Models.{PendingApproval, ActionRecord, ActionReview, CompletionState, completion_text}
use adf.Storage.{matches, same_flag, sort_by, sort_down}
use adf.Sql.Records.{ActionRow, ReviewRow, action_row, to_action, review_row, to_review}
use adf.Sql.Store.{Engine, Db, open_session, committed, read_all, read_one}

-- only the columns that a decision changes
unfoldable pub copy_decision : PendingApproval → PendingApproval → PendingApproval
copy_decision a row = record row {
  status = a.status;
  decided_at = a.decided_at;
  approved_by = a.approved_by;
  child_jti = a.child_jti;
  child_token = a.child_token;
  collected = a.collected;
}

unfoldable pub closed_row : CompletionState → ℕ → Option String → ActionRow → ActionRow
unfolding completion_text
closed_row state at reason row = record row {
  state = some (completion_text state);
  finished_at = some at;
  failure_reason = reason;
}

-- open, or closed and not as clean
unfoldable pub wants_review_row : ActionRow → Bool
wants_review_row row =
    not (is_some row.finished_at) || not (elim row.state [ none ↦ false | some s ↦ s == "CLEAN" ])

unfoldable pub copy_finding : ActionReview → ReviewRow → ReviewRow
copy_finding r row = record row {
  reviewed = r.reviewed;
  reviewed_by = r.reviewed_by;
  reviewed_at = r.reviewed_at;
}

module _ (e : Engine) where
  unfoldable pub insert_approval : PendingApproval → Db e (Unit {0})
  insert_approval a db =
      committed e integrity_error (λ s. record db { approvals = s })
        (e.approvals.insert (a ∷ []) db.approvals) db

  unfoldable pub put_approval : PendingApproval → Db e (Unit {0})
  unfolding insert_approval
  put_approval a = do open_session e; insert_approval a

  unfoldable pub get_approval : String → Db e (Option PendingApproval)
  get_approval id = do open_session e; gets (λ db. e.approvals.get id db.approvals)

  unfoldable pub update_approval : PendingApproval → Db e (Unit {0})
  unfolding copy_decision
  update_approval a = do
    open_session e
    row ← gets (λ db. e.approvals.get a.approval_id db.approvals)
    when (not (is_some row)) (raise (storage_error "unknown approval"))
    modify (λ db. record db {
      approvals = e.approvals.update a.approval_id (copy_decision a) db.approvals;
    })

  unfoldable pub list_approvals : Option String → Db e (List PendingApproval)
  unfolding matches sort_down
  list_approvals status = do
    open_session e
    gets (λ db.
        sort_down (λ (a : PendingApproval). a.created_at)
          (keep (λ (a : PendingApproval). matches status (some a.status))
            (e.approvals.select db.approvals)))

  unfoldable pub insert_action : ActionRow → Db e (Unit {0})
  insert_action row db =
      committed e (storage_error "action already recorded") (λ s. record db { actions = s })
        (e.actions.insert (row ∷ []) db.actions) db

  unfoldable pub put_action : ActionRecord → Db e (Unit {0})
  unfolding insert_action action_row
  put_action a = do open_session e; insert_action (action_row a)

  unfoldable pub close_row :
      String → CompletionState → ℕ → Option String → Option ActionRow → Db e (Option ActionRecord)
  unfolding closed_row to_action
  close_row id state at reason none = pure none
  close_row id state at reason (some row) = do
    modify
        (λ db. record db { actions = e.actions.update id (closed_row state at reason) db.actions })
    read ← lift (to_action (closed_row state at reason row))
    pure (some read)

  unfoldable pub close_action :
      String → CompletionState → ℕ → Option String → Db e (Option ActionRecord)
  unfolding close_row
  close_action id state at reason = do
    open_session e
    row ← gets (λ db. e.actions.get id db.actions)
    close_row id state at reason row

  unfoldable pub get_action : String → Db e (Option ActionRecord)
  unfolding to_action
  get_action id = do
    open_session e
    row ← gets (λ db. e.actions.get id db.actions)
    lift (read_one to_action row)

  unfoldable pub actions_for_review : List String → Db e (List ActionRecord)
  unfolding wants_review_row sort_by read_all to_action
  actions_for_review [] = pure []
  actions_for_review (jti ∷ jtis) = do
    open_session e
    rows ← gets (λ db.
        sort_by (λ (r : ActionRow). r.started_at)
          (keep (λ (r : ActionRow). contains (jti ∷ jtis) r.jti) (e.actions.select db.actions)))
    lift (read_all to_action (keep wants_review_row rows))

  unfoldable pub insert_review : ReviewRow → Db e (Unit {0})
  insert_review row db =
      committed e integrity_error (λ s. record db { reviews = s })
        (e.reviews.insert (row ∷ []) db.reviews) db

  unfoldable pub put_review : ActionReview → Db e (Unit {0})
  unfolding insert_review review_row
  put_review r = do open_session e; insert_review (review_row r)

  unfoldable pub get_review : String → Db e (Option ActionReview)
  unfolding to_review
  get_review id = do
    open_session e
    row ← gets (λ db. e.reviews.get id db.reviews)
    lift (read_one to_review row)

  unfoldable pub update_review : ActionReview → Db e (Unit {0})
  unfolding copy_finding
  update_review r = do
    open_session e
    row ← gets (λ db. e.reviews.get r.review_id db.reviews)
    when (not (is_some row)) (raise (storage_error "unknown review"))
    modify (λ db. record db { reviews = e.reviews.update r.review_id (copy_finding r) db.reviews })

  unfoldable pub list_reviews : Option Bool → Db e (List ActionReview)
  unfolding sort_down read_all to_review
  list_reviews reviewed = do
    open_session e
    rows ← gets (λ db.
        sort_down (λ (r : ReviewRow). r.revoked_at)
          (keep (λ (r : ReviewRow). same_flag reviewed r.reviewed) (e.reviews.select db.reviews)))
    lift (read_all to_review rows)
