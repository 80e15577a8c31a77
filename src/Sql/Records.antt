-- ===== src/Sql/Records.antt =====
-- storage/sql.py: the rows of actions and reviews, whose enumerations are stored as texts. Every other
-- row has the fields of the type that it stores, where times are in UTC and sequences are lists.
use adf.Prelude.{ℕ, String, Bool, ◌≡◌, refl, Option, none, some, ◌==◌, if◌then◌else◌}
use adf.Errors.{Result, ok, err, value_error, ◌>>=◌}
use adf.Models.{
  CompletionState, clean, partial, unknown, completion_text, Reversibility, idempotent, reversible,
  compensable, irreversible, reversibility_text, ActionRecord, ActionReview, check_review,
}

pub record ActionRow : Type 0 where
  pub action_id : String
  pub jti : String
  pub subject_id : String
  pub name : String
  pub scope : String
  pub started_at : ℕ
  pub finished_at : Option ℕ
  pub state : Option String
  pub failure_reason : Option String
  pub reversibility : Option String

pub record ReviewRow : Type 0 where
  pub review_id : String
  pub jti : String
  pub action_id : String
  pub action_name : String
  pub classification : String
  pub revoked_at : ℕ
  pub revocation_root_jti : String
  pub reviewed : Bool
  pub reviewed_by : Option String
  pub reviewed_at : Option ℕ

-- `action.state.value if action.state else None`
abbrev pub state_text : Option CompletionState → Option String
unfolding completion_text
state_text none = none
state_text (some s) = some (completion_text s)

unfoldable pub action_row : ActionRecord → ActionRow
unfolding completion_text reversibility_text
action_row a = record {
  action_id = a.action_id;
  jti = a.jti;
  subject_id = a.subject_id;
  name = a.name;
  scope = a.scope;
  started_at = a.started_at;
  finished_at = a.finished_at;
  state = state_text a.state;
  failure_reason = a.failure_reason;
  reversibility = some (reversibility_text a.reversibility);
}

-- `CompletionState(text)`
unfoldable pub completion_of : String → Result CompletionState
completion_of text =
    if text == "CLEAN"
    then ok clean
    else if text == "PARTIAL"
    then ok partial
    else if text == "UNKNOWN"
    then ok unknown
    else err (value_error "not a CompletionState")

-- `Reversibility(text)`
unfoldable pub reversibility_of_text : String → Result Reversibility
reversibility_of_text text =
    if text == "IDEMPOTENT"
    then ok idempotent
    else if text == "REVERSIBLE"
    then ok reversible
    else if text == "COMPENSABLE"
    then ok compensable
    else if text == "IRREVERSIBLE"
    then ok irreversible
    else err (value_error "not a Reversibility")

-- an empty text counts as none
unfoldable pub read_state : Option String → Result (Option CompletionState)
unfolding completion_of
read_state none = ok none
read_state (some text) = if text == "" then ok none else do s ← completion_of text; ok (some s)

-- a row from before actions were typed reads back as irreversible
unfoldable pub read_reversibility : Option String → Result Reversibility
unfolding reversibility_of_text
read_reversibility none = ok irreversible
read_reversibility (some text) = if text == "" then ok irreversible else reversibility_of_text text

unfoldable pub to_action : ActionRow → Result ActionRecord
unfolding read_state read_reversibility
to_action row = do
  state ← read_state row.state
  reversibility ← read_reversibility row.reversibility
  ok (record {
    action_id = row.action_id;
    jti = row.jti;
    subject_id = row.subject_id;
    name = row.name;
    scope = row.scope;
    started_at = row.started_at;
    finished_at = row.finished_at;
    state = state;
    failure_reason = row.failure_reason;
    reversibility = reversibility;
  })

unfoldable pub review_row : ActionReview → ReviewRow
unfolding completion_text
review_row r = record {
  review_id = r.review_id;
  jti = r.jti;
  action_id = r.action_id;
  action_name = r.action_name;
  classification = completion_text r.classification;
  revoked_at = r.revoked_at;
  revocation_root_jti = r.revocation_root_jti;
  reviewed = r.reviewed;
  reviewed_by = r.reviewed_by;
  reviewed_at = r.reviewed_at;
}

-- the constructor of `ActionReview` refuses a clean action
unfoldable pub to_review : ReviewRow → Result ActionReview
unfolding completion_of check_review
to_review row = do
  classification ← completion_of row.classification
  check_review (record {
    review_id = row.review_id;
    jti = row.jti;
    action_id = row.action_id;
    action_name = row.action_name;
    classification = classification;
    revoked_at = row.revoked_at;
    revocation_root_jti = row.revocation_root_jti;
    reviewed = row.reviewed;
    reviewed_by = row.reviewed_by;
    reviewed_at = row.reviewed_at;
  })

completion_of-text : (s : CompletionState) → completion_of (completion_text s) ≡ ok s
unfolding completion_of completion_text
completion_of-text clean = refl
completion_of-text partial = refl
completion_of-text unknown = refl

read_state-text : (s : Option CompletionState) → read_state (state_text s) ≡ ok s
unfolding read_state completion_text completion_of
read_state-text none = refl
read_state-text (some clean) = refl
read_state-text (some partial) = refl
read_state-text (some unknown) = refl

read_reversibility-text :
    (r : Reversibility) → read_reversibility (some (reversibility_text r)) ≡ ok r
unfolding read_reversibility reversibility_text
read_reversibility-text idempotent = refl
read_reversibility-text reversible = refl
read_reversibility-text compensable = refl
read_reversibility-text irreversible = refl

pub read-action_row : (a : ActionRecord) → to_action (action_row a) ≡ ok a
unfolding to_action action_row
read-action_row a = rw (read_state-text a.state, read_reversibility-text a.reversibility) refl

pub read-review_row : (r : ActionReview) → check_review r ≡ ok r → to_review (review_row r) ≡ ok r
unfolding to_review review_row
read-review_row r h = rw (completion_of-text r.classification) h

-- An action that is written as a row and read back is the action, and a review that its own
-- constructor accepts is read back as it was written.
pub to_action-row :
    (a : ActionRecord) (r : ActionReview)
    → check_review r ≡ ok r
    → (to_action (action_row a) ≡ ok a) × (to_review (review_row r) ≡ ok r)
to_action-row a r h = (read-action_row a, read-review_row r h)
