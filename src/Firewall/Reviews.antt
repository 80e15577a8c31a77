-- ===== src/Firewall/Reviews.antt =====
-- agperms/src/agperms/firewall.py: the review queue.
pub mod Resolve
use adf.Prelude.{
  ℕ, ◌+◌, ◌*◌, String, Bool, true, false, Option, none, some, List, [], ◌∷◌, ◌==◌, if◌then◌else◌,
}
use adf.Errors.{Result, ok, err, value_error, key_error}
use adf.Exec.{pure, raise, lift, gets, when, ◌>>=◌, ◌>>◌}
use adf.Time.{truncate_reason, collapse}
use adf.Json.{str, dict}
use adf.Env.{Env}
use adf.Models.{
  Reversibility, irreversible, rank, completion_text, ActionRecord, ActionReview, check_review,
}
use adf.Storage.{Memory, list_reviews, update_review, sort_down}
use adf.Firewall.{Fw, try_write, utcnow, new_event, log}
use adf.Firewall.Revoke.{completion_urgency}
use adf.Prelude.{lookup}

-- a review whose action is gone ranks as irreversible
abbrev pub action_reversibility : Option ActionRecord → Reversibility
action_reversibility none = irreversible
action_reversibility (some a) = a.reversibility

-- The pair of urgency and rank, compared in that order; a rank is below 10.
unfoldable pub queue_priority : Memory → ActionReview → ℕ
queue_priority m r =
    completion_urgency r.classification * 10
    + rank (action_reversibility (lookup r.action_id m.actions))

unfoldable pub pending_reviews : Memory → Bool → Bool → List ActionReview
pending_reviews m include_resolved order_by_priority =
    let reviews = list_reviews m (if include_resolved then none else some false) in
    if order_by_priority then sort_down (queue_priority m) reviews else reviews

-- the review with the human's finding
unfoldable pub resolved : ActionReview → String → ℕ → ActionReview
resolved r reviewed_by at = record r {
  reviewed = true;
  reviewed_by = some reviewed_by;
  reviewed_at = some at;
}

unfoldable pub require_unresolved : Option ActionReview → Result ActionReview
require_unresolved none = err (key_error "unknown review")
require_unresolved (some r) =
    if r.reviewed then err (value_error "review is already resolved") else ok r

module _ (env : Env) where
  unfoldable pub resolve_review : String → String → String → Fw ActionReview
  resolve_review review_id note reviewed_by = do
    when (collapse false false note == "")
        (raise (value_error "a review note is required; it is the evidentiary record"))
    found ← gets (λ s. lookup review_id s.storage.reviews)
    existing ← lift (require_unresolved found)
    at ← utcnow env
    updated ← lift (check_review (resolved existing reviewed_by at))
    try_write (update_review updated)
    e ← new_event env "review_resolved"
    log env (record e {
      actor_id = some reviewed_by;
      jti = some existing.jti;
      decision = some "reviewed";
      reason = some (truncate_reason note);
      detail = some (
          dict (
            ("review_id", str existing.review_id)
            ∷ ("action_id", str existing.action_id)
            ∷ ("action_name", str existing.action_name)
            ∷ ("completion_state", str (completion_text existing.classification))
            ∷ ("note", str (truncate_reason note))
            ∷ ("reviewed_by", str reviewed_by)
            ∷ []));
    })
    pure updated
