-- ===== src/Sql/Runs.antt =====
-- storage/sql.py: sequences of storage calls, on the database and on the memory storage.
use adf.Prelude.{ℕ, String, Bool, false, ◌≡◌, refl, ap, Option, none, some, List, [], ◌∷◌, lookup}
use mathlib.Core.Path.{ap₂}
use adf.Errors.{Result, ok, err}
use adf.Audit.Rows.{Row}
use adf.Models.{
  TokenMetadata, PendingApproval, ActionRecord, ActionReview, CompletionState, check_review,
}
use adf.Storage
use adf.Storage.{Memory}
use adf.Storage.Walk.Rounds.{IsDistinct}
use adf.Sql.Table.{hashes, repeats}
use adf.Sql.Records.{review_row}
use adf.Sql.Store.{Engine, Database, put_token, get_token, add_edge, is_revoked, revoke_many}
use adf.Sql.Store.Logs.{append_audit_batch, audit_tail_hash}
use adf.Sql.Store.Work.{
  put_approval, get_approval, update_approval, copy_decision, get_action, get_review, put_action,
  close_action, put_review, update_review, copy_finding,
}
use adf.Sql.Refines.{Keys, Refines, Agrees, attempt, row_of}
use adf.Sql.Tokens.{put_token-Agrees, get_token-Agrees, add_edge-Agrees, is_revoked-Agrees}
use adf.Sql.Revocations.{revoke_many-Agrees, revoked_by, append_audit_batch-Agrees}
use adf.Sql.Reads.{
  get_approval-Agrees, get_action-Agrees, get_review-Agrees, audit_tail_hash-Agrees,
}
use adf.Sql.Work.{
  closed, put_approval-Agrees, update_approval-Agrees, put_action-Agrees, close_action-Agrees,
  put_review-Agrees, update_review-Agrees,
}

-- The calls on tokens, edges and revocations, those that write or read one request, action, review or
-- the audit log's tail, and those that append audit rows. The others stand apart: the walks answer
-- alike in `Sql.Walk`, lists come in an order of their own, and after `close` the two storages differ.
pub data Call : Type 0 where
  putting_token : TokenMetadata → Call
  getting_token : String → Call
  adding_edge : String → String → Call
  asking_revoked : String → Call
  revoking : List String → String → Option String → ℕ → Call
  appending : List Row → Call
  putting_approval : PendingApproval → Call
  updating_approval : PendingApproval → Call
  putting_action : ActionRecord → Call
  closing_action : String → CompletionState → ℕ → Option String → Call
  putting_review : ActionReview → Call
  updating_review : ActionReview → Call
  asking_approval : String → Call
  asking_action : String → Call
  asking_review : String → Call
  asking_tail : Call

pub data Answer : Type 0 where
  done : Answer
  token : Option TokenMetadata → Answer
  flag : Bool → Answer
  jtis : List String → Answer
  action : Option ActionRecord → Answer
  approval : Option PendingApproval → Answer
  review : Option ActionReview → Answer
  tail : Option String → Answer

abbrev pub as_result : {A : Type 0} → (A → Answer) → Result A → Result Answer
as_result f (ok a) = ok (f a)
as_result f (err exc) = err exc

abbrev pub answer : {A S : Type 0} → (A → Answer) → Result A × S → Result Answer × S
answer f x = (as_result f x.0, x.1)

abbrev pub nothing : Unit {0} → Answer
nothing _ = done

unfoldable pub on_memory : Call → Memory → Result Answer × Memory
on_memory (putting_token meta) m = answer nothing (attempt (Storage.put_token meta) m)
on_memory (getting_token jti) m = (ok (token (Storage.get_token m jti)), m)
on_memory (adding_edge p c) m = (ok done, Storage.add_edge p c m)
on_memory (asking_revoked jti) m = answer flag (Storage.is_revoked m jti, m)
on_memory (revoking ids root reason at) m = answer jtis (revoked_by m root reason at ids)
on_memory (appending rows) m = (ok done, Storage.append_audit_batch rows m)
on_memory (putting_approval a) m = (ok done, Storage.put_approval a m)
on_memory (updating_approval a) m = answer nothing (attempt (Storage.update_approval a) m)
on_memory (putting_action a) m = answer nothing (attempt (Storage.put_action a) m)
on_memory (closing_action id state at reason) m = (
  ok (action (row_of (closed state at reason) (lookup id m.actions))),
  Storage.close_action id state at reason m,
)
on_memory (putting_review a) m = (ok done, Storage.put_review a m)
on_memory (updating_review a) m = answer nothing (attempt (Storage.update_review a) m)
on_memory (asking_approval id) m = (ok (approval (lookup id m.approvals)), m)
on_memory (asking_action id) m = (ok (action (lookup id m.actions)), m)
on_memory (asking_review id) m = (ok (review (lookup id m.reviews)), m)
on_memory asking_tail m = (ok (tail (Storage.audit_tail_hash m)), m)

-- What a caller keeps to: no token is revoked twice in one call, new requests, reviews and audit rows
-- have new ids and hashes, an update changes only what the update writes, and a review that is read
-- is one that its own constructor accepts.
abbrev pub Fits : Call → Memory → Type 0
Fits (revoking ids root reason at) m = IsDistinct ids
Fits (appending rows) m = repeats (hashes m.audit) (hashes rows) ≡ false
Fits (putting_approval a) m = lookup a.approval_id m.approvals ≡ none
Fits (updating_approval a) m =
    (old : PendingApproval) → lookup a.approval_id m.approvals ≡ some old → copy_decision a old ≡ a
Fits (putting_review a) m = lookup a.review_id m.reviews ≡ none
Fits (updating_review a) m =
    (old : ActionReview)
    → lookup a.review_id m.reviews ≡ some old
    → copy_finding a (review_row old) ≡ review_row a
Fits (asking_review id) m =
    (a : ActionReview) → lookup id m.reviews ≡ some a → check_review a ≡ ok a
Fits _ m = Unit {0}

abbrev pub AllFit : List Call → Memory → Type 0
AllFit [] m = Unit {0}
AllFit (c ∷ cs) m = Fits c m × AllFit cs (on_memory c m).1

-- the answers in turn; an exception does not keep the caller from calling again
unfoldable pub run_memory : List Call → Memory → List (Result Answer) × Memory
run_memory [] m = ([], m)
run_memory (c ∷ cs) m =
    let (answers, m') = run_memory cs (on_memory c m).1 in ((on_memory c m).0 ∷ answers, m')

module _ (e : Engine) where
  unfoldable pub on_database : Call → Database e → Result Answer × Database e
  on_database (putting_token meta) db = answer nothing (put_token e meta db)
  on_database (getting_token jti) db = answer token (get_token e jti db)
  on_database (adding_edge p c) db = answer nothing (add_edge e p c db)
  on_database (asking_revoked jti) db = answer flag (is_revoked e jti db)
  on_database (revoking ids root reason at) db = answer jtis (revoke_many e ids root reason at db)
  on_database (appending rows) db = answer nothing (append_audit_batch e rows db)
  on_database (putting_approval a) db = answer nothing (put_approval e a db)
  on_database (updating_approval a) db = answer nothing (update_approval e a db)
  on_database (putting_action a) db = answer nothing (put_action e a db)
  on_database (closing_action id state at reason) db =
      answer action (close_action e id state at reason db)
  on_database (putting_review a) db = answer nothing (put_review e a db)
  on_database (updating_review a) db = answer nothing (update_review e a db)
  on_database (asking_approval id) db = answer approval (get_approval e id db)
  on_database (asking_action id) db = answer action (get_action e id db)
  on_database (asking_review id) db = answer review (get_review e id db)
  on_database asking_tail db = answer tail (audit_tail_hash e db)

  unfoldable pub run_database : List Call → Database e → List (Result Answer) × Database e
  run_database [] db = ([], db)
  run_database (c ∷ cs) db =
      let (answers, db') = run_database cs (on_database c db).1 in
      ((on_database c db).0 ∷ answers, db')

  answer-Agrees :
      {A : Type 0} (f : A → Answer) (x : Result A × Database e) (y : Result A × Memory)
      → Agrees e x y
      → Agrees e (answer f x) (answer f y)
  answer-Agrees f x y (same, refines) = (ap (as_result f) same, refines)

  module _ (keys : Keys e) where
    step-Agrees :
        (c : Call) (db : Database e) (m : Memory)
        → Refines e db m
        → Fits c m
        → Agrees e (on_database c db) (on_memory c m)
    unfolding on_database on_memory
    step-Agrees (putting_token meta) db m r h =
        answer-Agrees nothing _ _ (put_token-Agrees e keys db m r meta)
    step-Agrees (getting_token jti) db m r h =
        answer-Agrees token _ _ (get_token-Agrees e keys db m r jti)
    step-Agrees (adding_edge p c) db m r h =
        answer-Agrees nothing _ _ (add_edge-Agrees e keys db m r p c)
    step-Agrees (asking_revoked jti) db m r h =
        answer-Agrees flag _ _ (is_revoked-Agrees e keys db m r jti)
    step-Agrees (revoking ids root reason at) db m r h =
        answer-Agrees jtis _ _ (revoke_many-Agrees e keys db m r root reason at ids h)
    step-Agrees (appending rows) db m r h =
        answer-Agrees nothing _ _ (append_audit_batch-Agrees e keys db m r rows h)
    step-Agrees (putting_approval a) db m r h =
        answer-Agrees nothing _ _ (put_approval-Agrees e keys db m r a h)
    step-Agrees (updating_approval a) db m r h =
        answer-Agrees nothing _ _ (update_approval-Agrees e keys db m r a h)
    step-Agrees (putting_action a) db m r h =
        answer-Agrees nothing _ _ (put_action-Agrees e keys db m r a)
    step-Agrees (closing_action id state at reason) db m r h =
        answer-Agrees action _ _ (close_action-Agrees e keys db m r id state at reason)
    step-Agrees (putting_review a) db m r h =
        answer-Agrees nothing _ _ (put_review-Agrees e keys db m r a h)
    step-Agrees (updating_review a) db m r h =
        answer-Agrees nothing _ _ (update_review-Agrees e keys db m r a h)
    step-Agrees (asking_approval id) db m r h =
        answer-Agrees approval _ _ (get_approval-Agrees e db m r id)
    step-Agrees (asking_action id) db m r h =
        answer-Agrees action _ _ (get_action-Agrees e db m r id)
    step-Agrees (asking_review id) db m r h =
        answer-Agrees review _ _ (get_review-Agrees e db m r id h)
    step-Agrees asking_tail db m r h = answer-Agrees tail _ _ (audit_tail_hash-Agrees e db m r)

    -- Where an open and reachable database stands for an open memory storage, any sequence of the
    -- listed calls whose callers keep to `Fits` gets the same answers and the same exceptions from
    -- both, in the same order, and leaves a database that stands for the memory storage that is left.
    -- Listed are put_token, get_token, add_edge, is_revoked, revoke_many, append_audit_batch,
    -- audit_tail_hash, put_action, get_action, close_action, and putting, getting and updating an
    -- approval or a review. The calls that answer with a list, those on subjects, and all calls after
    -- `close` are not among them.
    pub run_database-Refines :
        (calls : List Call) (db : Database e) (m : Memory)
        → Refines e db m
        → AllFit calls m
        → ((run_database calls db).0 ≡ (run_memory calls m).0)
          × Refines e (run_database calls db).1 (run_memory calls m).1
    unfolding run_database run_memory
    run_database-Refines [] db m r fits = (refl, r)
    run_database-Refines (c ∷ cs) db m r fits =
        let (same, refines) = step-Agrees c db m r fits.0 in
        let (rest, last) = run_database-Refines cs _ _ refines fits.1 in (ap₂ ◌∷◌ same rest, last)
