-- ===== src/Sql/Work.antt =====
-- storage/sql.py: approvals, actions and reviews, against the memory storage.
use adf.Prelude.{
  ℕ, String, Bool, true, false, not, ◌≡◌, refl, sym, ap, ◌∙◌, Option, none, some, List, [], ◌∷◌,
  ◌++◌, Dict, lookup, insert, lookup-insert, has_key, is_some, ◌==◌, Bool-cases, Option-cases, inl,
  inr, if◌then◌else◌,
}
use mathlib.Core.Path.{ap₂}
use adf.Errors.{Error, Result, ok, err, storage_error, integrity_error}
use adf.Exec.{pure, raise, lift, modify, when, ◌>>=◌, ◌>>◌}
use adf.Models.{PendingApproval, ActionRecord, ActionReview, CompletionState}
use adf.Storage
use adf.Storage.{Memory, or_nil}
use adf.Sql.Table.{accepts_one, rejects_one, assigns_one}
use adf.Sql.Records.{ActionRow, ReviewRow, action_row, review_row, read-action_row}
use adf.Sql.Store.{Engine, Database}
use adf.Sql.Store.Work.{
  insert_approval, put_approval, update_approval, copy_decision, insert_action, put_action,
  close_action, closed_row, close_row, insert_review, put_review, update_review, copy_finding,
}
use adf.Sql.Refines.{
  Keys, Refines, Agrees, settled, attempt, agree, opened, saves, row_of, with_approvals,
  with_actions, with_reviews,
}

-- the action with its end
abbrev pub closed : CompletionState → ℕ → Option String → ActionRecord → ActionRecord
closed state at reason a = record a {
  finished_at = some at;
  state = some state;
  failure_reason = reason;
}

row_of-if {ℓ} :
    {A B : Type ℓ} (f : A → B) (b : Bool) (a : A) (o : Option A)
    → (if b then some (f a) else row_of f o) ≡ row_of f (if b then some a else o)
row_of-if f true a o = refl
row_of-if f false a o = refl

module _ (e : Engine) (keys : Keys e) (db : Database e) (m : Memory) (r : Refines e db m) where
  pub put_approval-Agrees :
      (a : PendingApproval)
      → lookup a.approval_id m.approvals ≡ none
      → Agrees e (put_approval e a db) (ok tt, Storage.put_approval a m)
  unfolding put_approval insert_approval Storage.put_approval
  put_approval-Agrees a new =
      let put : e.approvals.State → Database e = λ s. record db { approvals = s } in
      let (t, entered, reads) =
        accepts_one keys.approvals a db.approvals (ap is_some (r.approvals a.approval_id ∙ new)) in
      agree (saves (insert_approval e a) integrity_error put db r.db_open entered refl) refl (
        refl,
        with_approvals r t (insert a.approval_id a m.approvals) (λ k.
            reads k
            ∙ ap (λ o. if a.approval_id == k then some a else o) (r.approvals k)
            ∙ sym (lookup-insert a.approval_id k a m.approvals)),
      )

  pub update_approval-Agrees :
      (a : PendingApproval)
      → ((old : PendingApproval)
          → lookup a.approval_id m.approvals ≡ some old
          → copy_decision a old ≡ a)
      → Agrees e (update_approval e a db) (attempt (Storage.update_approval a) m)
  unfolding update_approval copy_decision Storage.update_approval ◌>>=◌ when modify
  update_approval-Agrees a fits =
      let exc : Error = storage_error "unknown approval" in
      let t : e.approvals.State = e.approvals.update a.approval_id (copy_decision a) db.approvals in
      let rest : Option PendingApproval → Result (Unit {0}) × Database e = λ o.
        (do
          when (not (is_some o)) (raise exc)
          modify (λ db. record db {
            approvals = e.approvals.update a.approval_id (copy_decision a) db.approvals;
          }))
          db in
      elim (Option-cases (lookup a.approval_id m.approvals)) [
        | inl gone ↦
            let kept : Storage.update_approval a m ≡ err exc = rw gone refl in
            agree (opened _ db r.db_open ∙ ap rest (r.approvals a.approval_id ∙ gone))
              (ap (settled m) kept) (refl, r)
        | inr (old, found) ↦
            let stored : Storage.update_approval a m
                ≡ ok (record m { approvals = insert a.approval_id a m.approvals }) =
              rw found refl in
            agree (opened _ db r.db_open ∙ ap rest (r.approvals a.approval_id ∙ found))
              (ap (settled m) stored)
              (
                refl,
                with_approvals r t (insert a.approval_id a m.approvals) (λ k.
                    assigns_one keys.approvals a.approval_id k (copy_decision a) db.approvals
                      (λ x. refl) (r.approvals a.approval_id ∙ found) (fits old found)
                    ∙ ap (λ o. if a.approval_id == k then some a else o) (r.approvals k)
                    ∙ sym (lookup-insert a.approval_id k a m.approvals)),
              )
      ]

  -- a stored action is a row of the table
  seen_action :
      (id : String) (a : ActionRecord)
      → lookup id m.actions ≡ some a
      → e.actions.get id db.actions ≡ some (action_row a)
  seen_action id a found = r.actions id ∙ ap (row_of action_row) found

  -- the rows behind one entry that was written
  written_action :
      (id : String) (a : ActionRecord) (t : e.actions.State)
      → ((k : String)
          → e.actions.get k t
            ≡ (if id == k then some (action_row a) else e.actions.get k db.actions))
      → (k : String) → e.actions.get k t ≡ row_of action_row (lookup k (insert id a m.actions))
  written_action id a t reads k =
      reads k
      ∙ ap (λ o. if id == k then some (action_row a) else o) (r.actions k)
      ∙ row_of-if action_row (id == k) a (lookup k m.actions)
      ∙ ap (row_of action_row) (sym (lookup-insert id k a m.actions))

  written_review :
      (id : String) (a : ActionReview) (t : e.reviews.State)
      → ((k : String)
          → e.reviews.get k t
            ≡ (if id == k then some (review_row a) else e.reviews.get k db.reviews))
      → (k : String) → e.reviews.get k t ≡ row_of review_row (lookup k (insert id a m.reviews))
  written_review id a t reads k =
      reads k
      ∙ ap (λ o. if id == k then some (review_row a) else o) (r.reviews k)
      ∙ row_of-if review_row (id == k) a (lookup k m.reviews)
      ∙ ap (row_of review_row) (sym (lookup-insert id k a m.reviews))

  is_some-row_of : (o : Option ActionRecord) → is_some (row_of action_row o) ≡ is_some o
  is_some-row_of none = refl
  is_some-row_of (some a) = refl

  pub put_action-Agrees :
      (a : ActionRecord) → Agrees e (put_action e a db) (attempt (Storage.put_action a) m)
  unfolding put_action insert_action action_row Storage.put_action
  put_action-Agrees a =
      let exc : Error = storage_error "action already recorded" in
      let put : e.actions.State → Database e = λ s. record db { actions = s } in
      let known =
        ap is_some (r.actions a.action_id) ∙ is_some-row_of (lookup a.action_id m.actions) in
      elim (Bool-cases (has_key a.action_id m.actions)) [
        | inl taken ↦
            let refused = rejects_one keys.actions (action_row a) db.actions (known ∙ taken) in
            let kept : Storage.put_action a m ≡ err exc = rw taken refl in
            agree (saves (insert_action e (action_row a)) exc put db r.db_open refused refl)
              (ap (settled m) kept) (refl, r)
        | inr free ↦
            let (t, entered, reads) =
              accepts_one keys.actions (action_row a) db.actions (known ∙ free) in
            let by_jti : Dict (List String) =
              insert a.jti (or_nil (lookup a.jti m.actions_by_jti) ++ a.action_id ∷ [])
                m.actions_by_jti in
            let stored : Storage.put_action a m
                ≡ ok (record m {
                  actions = insert a.action_id a m.actions;
                  actions_by_jti = by_jti;
                }) =
              rw free refl in
            agree (saves (insert_action e (action_row a)) exc put db r.db_open entered refl)
              (ap (settled m) stored)
              (
                refl,
                with_actions r t (insert a.action_id a m.actions) by_jti
                    (written_action a.action_id a t reads),
              )
      ]

  pub close_action-Agrees :
      (id : String) (state : CompletionState) (at : ℕ) (reason : Option String)
      → Agrees e (close_action e id state at reason db) (
        ok (row_of (closed state at reason) (lookup id m.actions)),
        Storage.close_action id state at reason m,
      )
  unfolding close_action close_row closed_row action_row Storage.close_action ◌>>=◌ modify
  close_action-Agrees id state at reason =
      let t : e.actions.State = e.actions.update id (closed_row state at reason) db.actions in
      let go : Option ActionRow → Result (Option ActionRecord) × Database e =
        λ o. close_row e id state at reason o db in
      let answer : Option ActionRecord → Memory → Result (Option ActionRecord) × Memory =
        λ o m'. (ok (row_of (closed state at reason) o), m') in
      let read : Result ActionRecord → Result (Option ActionRecord) × Database e =
        λ x. (do found ← lift x; pure (some found)) (record db { actions = t }) in
      elim (Option-cases (lookup id m.actions)) [
        | inl gone ↦
            let kept : Storage.close_action id state at reason m ≡ m =
              rw (gone, Storage.close_action) refl in
            agree (opened _ db r.db_open ∙ ap go (r.actions id ∙ ap (row_of action_row) gone))
              (ap₂ answer gone kept) (refl, r)
        | inr (a, found) ↦
            let a' : ActionRecord = closed state at reason a in
            let stored : Storage.close_action id state at reason m
                ≡ record m { actions = insert id a' m.actions } =
              rw (found, Storage.close_action) refl in
            agree
              (opened _ db r.db_open
                ∙ ap go (seen_action id a found)
                ∙ ap read (read-action_row a'))
              (ap₂ answer found stored)
              (
                refl,
                with_actions r t (insert id a' m.actions) m.actions_by_jti (
                    written_action id a' t (λ k.
                      assigns_one keys.actions id k (closed_row state at reason) db.actions
                        (λ x. refl) (seen_action id a found) refl)),
              )
      ]

  pub put_review-Agrees :
      (a : ActionReview)
      → lookup a.review_id m.reviews ≡ none
      → Agrees e (put_review e a db) (ok tt, Storage.put_review a m)
  unfolding put_review insert_review review_row Storage.put_review
  put_review-Agrees a new =
      let put : e.reviews.State → Database e = λ s. record db { reviews = s } in
      let (t, entered, reads) =
        accepts_one keys.reviews (review_row a) db.reviews
          (ap is_some (r.reviews a.review_id ∙ ap (row_of review_row) new)) in
      agree (saves (insert_review e (review_row a)) integrity_error put db r.db_open entered refl)
        refl
        (
          refl,
          with_reviews r t (insert a.review_id a m.reviews) (written_review a.review_id a t reads),
        )

  pub update_review-Agrees :
      (a : ActionReview)
      → ((old : ActionReview)
          → lookup a.review_id m.reviews ≡ some old
          → copy_finding a (review_row old) ≡ review_row a)
      → Agrees e (update_review e a db) (attempt (Storage.update_review a) m)
  unfolding update_review copy_finding review_row Storage.update_review ◌>>=◌ when modify
  update_review-Agrees a fits =
      let exc : Error = storage_error "unknown review" in
      let t : e.reviews.State = e.reviews.update a.review_id (copy_finding a) db.reviews in
      let rest : Option ReviewRow → Result (Unit {0}) × Database e = λ o.
        (do
          when (not (is_some o)) (raise exc)
          modify (λ db. record db {
            reviews = e.reviews.update a.review_id (copy_finding a) db.reviews;
          }))
          db in
      elim (Option-cases (lookup a.review_id m.reviews)) [
        | inl gone ↦
            let kept : Storage.update_review a m ≡ err exc = rw gone refl in
            agree
              (opened _ db r.db_open
                ∙ ap rest (r.reviews a.review_id ∙ ap (row_of review_row) gone))
              (ap (settled m) kept) (refl, r)
        | inr (old, found) ↦
            let stored : Storage.update_review a m
                ≡ ok (record m { reviews = insert a.review_id a m.reviews }) =
              rw found refl in
            let row = r.reviews a.review_id ∙ ap (row_of review_row) found in
            agree (opened _ db r.db_open ∙ ap rest row) (ap (settled m) stored) (
              refl,
              with_reviews r t (insert a.review_id a m.reviews) (
                  written_review a.review_id a t (λ k.
                    assigns_one keys.reviews a.review_id k (copy_finding a) db.reviews (λ x. refl)
                      row (fits old found))),
            )
      ]
