-- ===== src/Sql/Store/Logs.antt =====
-- agperms/src/agperms/storage/sql.py: subjects and the audit log.
use adf.Prelude.{
  ℕ, String, Bool, Option, none, some, List, [], ◌∷◌, keep, take, contains, length, last?, ◌==◌,
  ◌&&◌,
}
use mathlib.Core.List.{reverse}
use adf.Errors.{Result, ok, err, integrity_error}
use adf.Exec.{pure, gets, ◌>>=◌, ◌>>◌}
use adf.Audit.Rows.{Row}
use adf.Models.{Subject}
use adf.Storage.{matches}
use adf.Sql.Store.{Engine, Database, Db, open_session, committed}

abbrev pub named : String → String → Subject → Bool
named hash kind s = s.identifier_hash == hash && s.kind == kind

-- `session.scalar(select(_Subject).where(...))`
abbrev pub first : List Subject → Option Subject
first [] = none
first (s ∷ ss) = some s

module _ (e : Engine) where
  unfoldable pub find_subject : String → String → Database e → Option Subject
  find_subject hash kind db = first (keep (named hash kind) (e.subjects.select db.subjects))

  -- after a lost race the winner's row counts
  abbrev pub winner_of :
      Subject → Database e → Option Subject → Option e.subjects.State → Result Subject × Database e
  winner_of row db again (some s) = (ok row, record db { subjects = s })
  winner_of row db none none = (err integrity_error, db)
  winner_of row db (some found) none = (ok found, db)

  unfoldable pub create_subject : Subject → Db e Subject
  unfolding find_subject
  create_subject row db =
      winner_of row db (find_subject row.identifier_hash row.kind db)
        (e.subjects.insert (row ∷ []) db.subjects)

  -- `fresh` is `f"{kind}:{uuid.uuid4()}"`
  unfoldable pub get_or_create_subject : String → String → String → String → Db e Subject
  unfolding create_subject find_subject
  get_or_create_subject fresh hash kind label = do
    open_session e
    known ← gets (find_subject hash kind)
    elim known [
      | some found ↦ pure found
      | none ↦ create_subject (record {
        subject_id = fresh;
        identifier_hash = hash;
        kind = kind;
        display_label = label;
      })
    ]

  unfoldable pub get_subject : String → Db e (Option Subject)
  get_subject id = do open_session e; gets (λ db. e.subjects.get id db.subjects)

  -- the dictionary is keyed by the subjects' ids
  unfoldable pub get_subjects : List String → Db e (List Subject)
  get_subjects [] = pure []
  get_subjects (id ∷ ids) = do
    open_session e
    gets (λ db.
        keep (λ (s : Subject). contains (id ∷ ids) s.subject_id) (e.subjects.select db.subjects))

  -- `order_by(id.desc()).limit(1)`
  unfoldable pub audit_tail_hash : Db e (Option String)
  audit_tail_hash = do
    open_session e
    row ← gets (λ db. last? (e.audit.select db.audit))
    pure (elim row [ none ↦ none | some r ↦ some r.row_hash ])

  unfoldable pub insert_audit : List Row → Db e (Unit {0})
  insert_audit rows db =
      committed e integrity_error (λ s. record db { audit = s }) (e.audit.insert rows db.audit) db

  unfoldable pub append_audit_batch : List Row → Db e (Unit {0})
  unfolding insert_audit
  append_audit_batch [] = pure tt
  append_audit_batch (row ∷ rows) = do open_session e; insert_audit (row ∷ rows)

  unfoldable pub iter_audit_rows : Db e (List Row)
  iter_audit_rows = do open_session e; gets (λ db. e.audit.select db.audit)

  unfoldable pub find_audit_rows : Option String → Option String → Option ℕ → Db e (List Row)
  unfolding matches
  find_audit_rows action jti limit = do
    open_session e
    found ← gets (λ db.
        keep (λ (r : Row). matches action (some r.event.action) && matches jti r.event.jti)
          (e.audit.select db.audit))
    pure (elim limit [ none ↦ found | some n ↦ take n (reverse found) ])

  unfoldable pub count_audit_rows : Db e ℕ
  count_audit_rows = do open_session e; gets (λ db. length (e.audit.select db.audit))
