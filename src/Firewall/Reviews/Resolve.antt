-- ===== src/Firewall/Reviews/Resolve.antt =====
-- What a resolved review leaves.
use adf.Prelude.{
  ℕ, String, false, ◌≡◌, refl, sym, ◌∙◌, subst, Option, none, some, List, lookup, arith, ◌==◌,
  lookup-insert_self,
}
use adf.Errors.{Result, ok, err}
use adf.Exec.Rules.{
  Gives, Gives-bind, Gives-keeps, Gives-any, Gives-gets, Gives-lift, Gives-raise, Gives-pure,
  Gives-fact, Gives-known, Gives-unless, Gives-weaken, Gives-returned, Post,
}
use adf.Time.{collapse}
use adf.Env.{Env}
use adf.Models.{ActionReview, check_review}
use adf.Audit.Rows.{Row}
use adf.Storage.{Memory, update_review, append_audit_batch}
use adf.Firewall.{Firewall, try_write, stored}
use adf.Firewall.Tables.{HasTable, new_event-table, log-table}
use adf.Firewall.Reviews.{resolved, require_unresolved, resolve_review}

abbrev review_of : String → Memory → Option ActionReview
review_of id m = lookup id m.reviews

review_of-append :
    (id : String) (rows : List Row) (m : Memory)
    → review_of id (append_audit_batch rows m) ≡ review_of id m
unfolding append_audit_batch
review_of-append id rows m = refl

update_review-ok :
    (r : ActionReview) (m n : Memory) → update_review r m ≡ ok n → review_of r.review_id n ≡ some r
unfolding update_review
update_review-ok r m n e = ground (arith, lookup-insert_self r.review_id r m.reviews)

require_unresolved-ok :
    (o : Option ActionReview) (r : ActionReview)
    → require_unresolved o ≡ ok r
    → (o ≡ some r) × (r.reviewed ≡ false)
unfolding require_unresolved
require_unresolved-ok none r e = ground arith
require_unresolved-ok (some q) r e = ground arith

check_review-same : (r q : ActionReview) → check_review r ≡ ok q → r ≡ q
unfolding check_review
check_review-same r q e = ground arith

-- the review `r` is `old` with the finding of this person, and is stored
pub record IsResolved (old : ActionReview) (reviewed_by : String) (r : ActionReview) (t : Firewall)
    : Type 0 where
  pub pending : old.reviewed ≡ false
  pub finding : (at : ℕ) × (r ≡ resolved old reviewed_by at)
  pub recorded : lookup r.review_id t.storage.reviews ≡ some r

module _ (env : Env) where
  stored_at :
      (r : ActionReview) (s : Firewall) (m : Result Memory)
      → update_review r s.storage ≡ m
      → Post (λ _ t. review_of r.review_id t.storage ≡ some r) (stored s m)
  stored_at r s (ok m) e = update_review-ok r s.storage m e
  stored_at r s (err x) e = tt

  update-gives :
      {P : Firewall → Type 0} (r : ActionReview)
      → Gives P (try_write (update_review r)) (λ _ t. HasTable (review_of r.review_id) (some r) t)
  unfolding try_write
  update-gives r = record { at = λ s p. stored_at r s _ refl }

  resolve_review-gives :
      (id note reviewed_by : String) (o : Option ActionReview)
      → Gives (HasTable (review_of id) o) (resolve_review env id note reviewed_by) (λ r t.
        ((collapse false false note == "") ≡ false)
        × ((old : ActionReview) × (o ≡ some old) × IsResolved old reviewed_by r t))
  unfolding resolve_review
  resolve_review-gives id note reviewed_by o = Gives-bind (Gives-unless _ (Gives-raise _)) λ _.
      Gives-fact λ noted. Gives-bind (Gives-weaken (λ r t (h, e). e ∙ h) (Gives-gets _)) λ found.
        Gives-known λ same. Gives-bind (Gives-lift (require_unresolved found)) λ old.
          Gives-fact λ unresolved. Gives-bind Gives-any λ at.
            Gives-bind (Gives-lift (check_review (resolved old reviewed_by at))) λ r.
              Gives-fact λ checked. Gives-bind (update-gives r) λ _.
                Gives-bind
                  (Gives-keeps (
                    new_event-table env (review_of r.review_id) (review_of-append r.review_id)
                      (some r) _))
                  λ e.
                    Gives-bind
                      (Gives-keeps (
                        log-table env (review_of r.review_id) (review_of-append r.review_id)
                          (some r) _))
                      λ _.
                        Gives-weaken
                          (λ q t (h, e).
                            let told = require_unresolved-ok found old unresolved in
                            (
                              noted,
                              (
                                old,
                                sym same ∙ told.0,
                                subst (λ q. IsResolved old reviewed_by q t) (sym e)
                                    (record {
                                      pending = told.1;
                                      finding = (
                                        at,
                                        sym (
                                            check_review-same (resolved old reviewed_by at) r
                                              checked),
                                      );
                                      recorded = h;
                                    }),
                              ),
                            ))
                          (Gives-pure r)

  -- Where `resolve_review` returns a review, the note is not blank, a review that was not resolved is
  -- stored under the id, and the returned one is that review with the person's name and a time, and is
  -- stored under its own id.
  pub resolve_review-IsResolved :
      (id note reviewed_by : String) (s t : Firewall) (r : ActionReview)
      → resolve_review env id note reviewed_by s ≡ (ok r, t)
      → ((collapse false false note == "") ≡ false)
        × ((old : ActionReview) × (lookup id s.storage.reviews ≡ some old)
            × IsResolved old reviewed_by r t)
  resolve_review-IsResolved id note reviewed_by s t r e =
      Gives-returned (resolve_review-gives id note reviewed_by (lookup id s.storage.reviews)) refl e
