-- ===== src/Firewall/Revoke/Classify.antt =====
-- agperms/src/agperms/firewall.py: `classify_action`, and the results of `revoke`.
use adf.Prelude.{
  ℕ, ◌<◌, String, true, ◌||◌, ◌≡◌, refl, ap, ◌∙◌, Option, some, List, [], ◌∷◌, contains, not, arith,
  Option-cases, inl, inr,
}
use adf.Errors.{ok}
use adf.Exec.{lift}
use adf.Exec.Rules.{
  Returns, Returns-pure, Returns-if, Returns-bind, returns_rules, Gives, Gives-bind, Gives-any,
  Gives-gets, Gives-pure, Gives-known, Gives-weaken, Gives-returned,
}
use adf.Env.{Env}
use adf.Models.{
  ActionRecord, ActionReview, Reversibility, clean, needs_human_review, is_clean, check_review,
  rank, RevocationResult,
}
use adf.Storage.{Memory}
use adf.Storage.Walk.{descendants_breadth_first}
use adf.Firewall.{Firewall}
use adf.Firewall.Returning.{
  write-Returns, utcnow-Returns, fresh_id-Returns, new_event-Returns, log-Returns,
}
use adf.Firewall.Revoke.{
  classify_action, completion_urgency, review_priority, queue_review, queue_reviews,
  report_revocation, revoke,
}

-- An action counts as clean only where it was closed, and closed as clean.
pub classify_action-clean :
    (a : ActionRecord)
    → classify_action a ≡ clean
    → ((t : ℕ) × (a.finished_at ≡ some t)) × (a.state ≡ some clean)
unfolding classify_action
classify_action-clean a h = elim (Option-cases a.finished_at) [
  | inl e ↦ ground arith
  | inr (t, e) ↦ ((t, e), ground arith)
]

rank_lt : (r : Reversibility) → rank r < 10
unfolding rank
rank_lt r = ground arith

-- The completion decides the priority before the reversibility does.
pub review_priority-lt :
    (a b : ActionRecord)
    → completion_urgency (classify_action a) < completion_urgency (classify_action b)
    → review_priority a < review_priority b
unfolding review_priority
review_priority-lt a b h = omega (arith, h, rank_lt a.reversibility, rank_lt b.reversibility)

check_review-ok :
    (r : ActionReview) → needs_human_review r.classification ≡ true → check_review r ≡ ok r
unfolding check_review is_clean needs_human_review
check_review-ok r needs = ground arith

module _ (env : Env) where
  review-Returns :
      (r : ActionReview)
      → needs_human_review r.classification ≡ true
      → Returns {S = Firewall} (lift (check_review r))
  unfolding lift
  review-Returns r needs = record { at = λ s. (r, check_review-ok r needs) }

  queue_review-Returns :
      (a : ActionRecord) (at : ℕ) (root : String)
      → needs_human_review (classify_action a) ≡ true
      → Returns (queue_review env a at root)
  unfolding queue_review
  queue_review-Returns a at root needs =
      search
        (
          returns_rules, write-Returns, fresh_id-Returns, new_event-Returns, log-Returns,
          review-Returns,
        )
        depth 40

  queue_reviews-Returns :
      (already : List String) (at : ℕ) (root : String) (actions : List ActionRecord)
      → Returns (queue_reviews env already at root actions)
  unfolding queue_reviews
  queue_reviews-Returns already at root [] = search returns_rules
  queue_reviews-Returns already at root (a ∷ rest) =
      let ih = queue_reviews-Returns already at root rest in
      Returns-if (contains already a.action_id || not (needs_human_review (classify_action a)))
        (λ _. ih)
        (λ e.
          Returns-bind (queue_review env a at root) _
            (queue_review-Returns a at root (ground arith))
            λ r.
              Returns-bind (queue_reviews env already at root rest) _ ih
                λ rs. Returns-pure (r ∷ rs))

  report-Returns :
      (jti : String) (reason : Option String) (at : ℕ) (targets : List String)
      (found : List ActionRecord)
      → Returns (report_revocation env jti reason at targets found)
  unfolding report_revocation
  report-Returns jti reason at targets found =
      search (returns_rules, queue_reviews-Returns, new_event-Returns, log-Returns) depth 40

  revoke-Returns : (jti : String) (reason : Option String) → Returns (revoke env jti reason)
  unfolding revoke
  revoke-Returns jti reason =
      search (returns_rules, utcnow-Returns, write-Returns, report-Returns) depth 40

  report-gives :
      {P : Firewall → Type 0} (jti : String) (reason : Option String) (at : ℕ)
      (targets : List String) (found : List ActionRecord)
      → Gives P
          (report_revocation env jti reason at targets found)
          (λ r t. r.revoked_jtis ≡ targets)
  unfolding report_revocation
  report-gives jti reason at targets found = Gives-bind Gives-any λ _.
      Gives-bind Gives-any λ reviews. Gives-bind Gives-any λ e. Gives-bind Gives-any λ _.
        Gives-weaken (λ r t (h, e). ap (λ (v : RevocationResult). v.revoked_jtis) e) (Gives-pure _)

  revoke-gives :
      (m : Memory) (jti : String) (reason : Option String)
      → Gives
          (λ s. s.storage ≡ m)
          (revoke env jti reason)
          (λ r t. r.revoked_jtis ≡ descendants_breadth_first m jti)
  unfolding revoke
  revoke-gives m jti reason =
      Gives-bind
        (Gives-weaken (λ r t (h, e). e ∙ ap (λ m. descendants_breadth_first m jti) h)
          (Gives-gets _))
        λ targets. Gives-known λ found. Gives-bind Gives-any λ at.
          Gives-bind Gives-any λ candidates.
            Gives-bind Gives-any
              λ _. Gives-weaken (λ r t e. e ∙ found) (report-gives jti reason at targets candidates)

  -- `revoke` never raises, in whatever state, and returns the tokens that the walk of the delegation
  -- edges lists.
  pub revoke-total :
      (jti : String) (reason : Option String) (s : Firewall)
      → (r : RevocationResult) × ((revoke env jti reason s).0 ≡ ok r)
        × (r.revoked_jtis ≡ descendants_breadth_first s.storage jti)
  revoke-total jti reason s =
      let (r, e) = (revoke-Returns jti reason).at s in
      (
        r,
        e,
        Gives-returned (revoke-gives s.storage jti reason) refl
            (ap (λ a. (a, (revoke env jti reason s).1)) e),
      )
