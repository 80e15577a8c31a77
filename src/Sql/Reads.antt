-- ===== src/Sql/Reads.antt =====
-- storage/sql.py: what is read by an id, and the tail of the audit log, against the memory storage.
use adf.Prelude.{String, ◌≡◌, refl, sym, ap, ◌∙◌, Option, none, some, List, [], ◌∷◌, last?, lookup}
use adf.Errors.{ok}
use adf.Exec.{gets, lift, ◌>>=◌}
use adf.Audit.Rows.{Row, row_with_id}
use adf.Models.{ActionRecord, ActionReview, check_review}
use adf.Storage
use adf.Storage.{Memory}
use adf.Sql.Table.{unnumbered}
use adf.Sql.Records.{action_row, review_row, to_action, to_review, read-action_row, read-review_row}
use adf.Sql.Store.{Engine, Database, read_one}
use adf.Sql.Store.Work.{get_approval, get_action, get_review}
use adf.Sql.Store.Logs.{audit_tail_hash}
use adf.Sql.Refines.{Refines, Agrees, agree, opened, row_of}

abbrev hash_of : Option Row → Option String
hash_of o = elim o [ none ↦ none | some row ↦ some row.row_hash ]

hash_of-unnumbered : (rows : List Row) → hash_of (last? (unnumbered rows)) ≡ hash_of (last? rows)
unfolding row_with_id
hash_of-unnumbered [] = refl
hash_of-unnumbered (x ∷ []) = refl
hash_of-unnumbered (x ∷ y ∷ ys) = hash_of-unnumbered (y ∷ ys)

read_one-action : (o : Option ActionRecord) → read_one to_action (row_of action_row o) ≡ ok o
read_one-action none = refl
read_one-action (some a) = rw (read_one, read-action_row a) refl

module _ (e : Engine) (db : Database e) (m : Memory) (r : Refines e db m) where
  pub get_approval-Agrees :
      (id : String) → Agrees e (get_approval e id db) (ok (lookup id m.approvals), m)
  unfolding get_approval gets
  get_approval-Agrees id = agree (opened _ db r.db_open) refl (ap ok (r.approvals id), r)

  pub get_action-Agrees :
      (id : String) → Agrees e (get_action e id db) (ok (lookup id m.actions), m)
  unfolding get_action gets lift ◌>>=◌
  get_action-Agrees id =
      agree (opened _ db r.db_open) refl
        (ap (read_one to_action) (r.actions id) ∙ read_one-action (lookup id m.actions), r)

  -- a stored review is one that its own constructor accepts
  read_one-review :
      (o : Option ActionReview)
      → ((a : ActionReview) → o ≡ some a → check_review a ≡ ok a)
      → read_one to_review (row_of review_row o) ≡ ok o
  read_one-review none h = refl
  read_one-review (some a) h = rw (read_one, read-review_row a (h a refl)) refl

  pub get_review-Agrees :
      (id : String)
      → ((a : ActionReview) → lookup id m.reviews ≡ some a → check_review a ≡ ok a)
      → Agrees e (get_review e id db) (ok (lookup id m.reviews), m)
  unfolding get_review gets lift ◌>>=◌
  get_review-Agrees id h =
      agree (opened _ db r.db_open) refl
        (ap (read_one to_review) (r.reviews id) ∙ read_one-review (lookup id m.reviews) h, r)

  pub audit_tail_hash-Agrees : Agrees e (audit_tail_hash e db) (ok (Storage.audit_tail_hash m), m)
  unfolding audit_tail_hash Storage.audit_tail_hash gets ◌>>=◌
  audit_tail_hash-Agrees = agree (opened _ db r.db_open) refl (
    ap ok (
        sym (hash_of-unnumbered (e.audit.select db.audit))
        ∙ ap (λ rows. hash_of (last? rows)) r.audit
        ∙ hash_of-unnumbered m.audit),
    r,
  )
