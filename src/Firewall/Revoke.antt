-- ===== src/Firewall/Revoke.antt =====
-- agperms/src/agperms/firewall.py: `revoke`, and the classification of the actions that it finds open.
pub mod Subtree
pub mod Classify
use Prim.Native.String
use adf.Prelude.{
  ℕ, ◌+◌, ◌*◌, ◌||◌, String, Bool, true, false, not, Option, none, some, List, [], ◌∷◌, map,
  contains, length, ◌==◌, is_some, if◌then◌else◌,
}
use adf.Errors.{Result, ok, err}
use adf.Exec.{Exec, pure, raise, lift, gets, when, ◌>>=◌, ◌>>◌}
use adf.Time.{truncate_reason}
use adf.Json.{Json, int, str, strs, dict}
use adf.Env.{Env}
use adf.Models.{
  CompletionState, clean, partial, unknown, needs_human_review, completion_text, check_review, rank,
  reversibility_text, ActionRecord, ActionReview, RevocationResult,
}
use adf.Storage.{Memory, Revocation, revoke_many, actions_for_review, put_review, list_reviews}
use adf.Storage.Walk.{descendants_breadth_first}
use adf.Firewall.{Firewall, Fw, write, utcnow, fresh_id, new_event, log}

-- an action with no closing record is UNKNOWN, never CLEAN
unfoldable pub classify_action : ActionRecord → CompletionState
classify_action a = elim a.finished_at [
  | none ↦ unknown
  | some t ↦ elim a.state [ none ↦ unknown | some s ↦ s ]
]

-- `_COMPLETION_URGENCY`
unfoldable pub completion_urgency : CompletionState → ℕ
completion_urgency unknown = 2
completion_urgency partial = 1
completion_urgency clean = 0

unfoldable pub review_priority : ActionRecord → ℕ
unfolding completion_urgency classify_action
review_priority a = completion_urgency (classify_action a) * 10 + rank a.reversibility

-- `truncate_reason(reason) if reason else None`
unfoldable pub clamp_reason : Option String → Option String
clamp_reason none = none
clamp_reason (some reason) = if reason == "" then none else some (truncate_reason reason)

unfoldable pub revoke_targets : List String → String → Option String → ℕ → Memory → Memory
revoke_targets targets root reason at m = record m {
  revoked = (revoke_many targets root reason at m.revoked).0;
}

module _ (env : Env) where
  unfoldable pub queue_review : ActionRecord → ℕ → String → Fw ActionReview
  queue_review a revoked_at root_jti = do
    let classification = classify_action a
    review_id ← fresh_id env
    review ← lift (
        check_review (record {
          review_id = review_id;
          jti = a.jti;
          action_id = a.action_id;
          action_name = a.name;
          classification = classification;
          revoked_at = revoked_at;
          revocation_root_jti = root_jti;
          reviewed = false;
          reviewed_by = none;
          reviewed_at = none;
        }))
    write (put_review review)
    e ← new_event env "review_queued"
    log env (record e {
      actor_id = some a.subject_id;
      jti = some a.jti;
      required_scope = some a.scope;
      decision = some "flag";
      reason =
          some (String.◌++◌ "action needs review at revocation: " (completion_text classification));
      detail = some (
          dict (
            ("review_id", str review.review_id)
            ∷ ("action_id", str a.action_id)
            ∷ ("action_name", str a.name)
            ∷ ("completion_state", str (completion_text classification))
            ∷ ("reversibility", str (reversibility_text a.reversibility))
            ∷ ("review_priority", int (review_priority a))
            ∷ []));
    })
    pure review

  -- the loop of `_queue_reviews`; `already` holds the actions that have a review
  unfoldable pub queue_reviews :
      List String → ℕ → String → List ActionRecord → Fw (List ActionReview)
  queue_reviews already revoked_at root_jti [] = pure []
  queue_reviews already revoked_at root_jti (a ∷ candidates) =
      let rest = queue_reviews already revoked_at root_jti candidates in
      if contains already a.action_id || not (needs_human_review (classify_action a))
      then rest
      else (do review ← queue_review a revoked_at root_jti; reviews ← rest; pure (review ∷ reviews))

  -- the part of `revoke` behind `revoke_many`
  unfoldable pub report_revocation :
      String → Option String → ℕ → List String → List ActionRecord → Fw RevocationResult
  report_revocation jti reason revoked_at targets candidates = do
    already ← gets (λ s. map (λ (r : ActionReview). r.action_id) (list_reviews s.storage none))
    reviews ← queue_reviews already revoked_at jti candidates
    e ← new_event env "revoked"
    log env (record e {
      jti = some jti;
      decision = some "revoke";
      reason = clamp_reason reason;
      detail = some (
          dict (
            ("subtree_count", int (length targets))
            ∷ ("revoked_jtis", strs targets)
            ∷ ("actions_reviewed", int (length candidates))
            ∷ ("reviews_queued", strs (map (λ (r : ActionReview). r.review_id) reviews))
            ∷ []));
    })
    pure (record { revoked_jtis = targets; reviews = reviews })

  unfoldable pub revoke : String → Option String → Fw RevocationResult
  revoke jti reason = do
    targets ← gets (λ s. descendants_breadth_first s.storage jti)
    revoked_at ← utcnow env
    candidates ← gets (λ s. actions_for_review s.storage targets)
    write (revoke_targets targets jti (clamp_reason reason) revoked_at)
    report_revocation jti reason revoked_at targets candidates
