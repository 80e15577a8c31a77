-- ===== src/Sql/Store.antt =====
-- agperms/src/agperms/storage/sql.py: the state and the methods of `SqlStorage`. A lost connection is
-- modelled in `is_revoked`, which turns it into a `StorageError`; elsewhere its exception passes through.
pub mod Logs
pub mod Work
use adf.Prelude.{
  ℕ, suc, String, Bool, true, false, not, Option, none, some, List, [], ◌∷◌, map, keep, take,
  contains, length, last?, is_some, distinct, ◌==◌, ◌&&◌, ◌||◌, if◌then◌else◌,
}
use mathlib.Core.List.{reverse}
use adf.Errors.{Error, Result, ok, err, storage_error, integrity_error}
use adf.Exec.{Exec, pure, raise, lift, gets, modify, when, ◌>>=◌, ◌>>◌}
use adf.Audit.Rows.{Row}
use adf.Models.{
  TokenMetadata, Subject, PendingApproval, ActionRecord, ActionReview, CompletionState,
  completion_text,
}
use adf.Storage.{Revocation, matches, same_flag, sort_by, sort_down}
use adf.Storage.Walk.{loop, start}
use adf.Sql.Table.{Table, Edge}
use adf.Sql.Records.{ActionRow, ReviewRow, action_row, to_action, review_row, to_review}

pub record Engine : Type 1 where
  pub tokens : Table TokenMetadata
  pub edges : Table Edge
  pub revocations : Table Revocation
  pub subjects : Table Subject
  -- selected in the order of the ids, which the table gives
  pub audit : Table Row
  pub approvals : Table PendingApproval
  pub actions : Table ActionRow
  pub reviews : Table ReviewRow

pub record Database (e : Engine) : Type 0 where
  pub tokens : e.tokens.State
  pub edges : e.edges.State
  pub revocations : e.revocations.State
  pub subjects : e.subjects.State
  pub audit : e.audit.State
  pub approvals : e.approvals.State
  pub actions : e.actions.State
  pub reviews : e.reviews.State
  pub reachable : Bool
  pub closed : Bool

module _ {R S : Type 0} where
  -- `[read(row) for row in rows]`
  unfoldable pub read_all : (S → Result R) → List S → Result (List R)
  read_all read [] = ok []
  read_all read (row ∷ rows) = elim (read row) [
    | err exc ↦ err exc
    | ok r ↦ elim (read_all read rows) [ err exc ↦ err exc | ok rs ↦ ok (r ∷ rs) ]
  ]

  -- `read(row) if row else None`
  abbrev pub read_one : (S → Result R) → Option S → Result (Option R)
  read_one read none = ok none
  read_one read (some row) = elim (read row) [ err exc ↦ err exc | ok r ↦ ok (some r) ]

abbrev pub children_in : List Edge → List String → List String
children_in edges ps =
    map (λ (x : Edge). x.child_jti) (keep (λ (x : Edge). contains ps x.parent_jti) edges)

abbrev pub all_children : List Edge → List String
all_children = map (λ (x : Edge). x.child_jti)

abbrev pub revoked_in : List Revocation → List String → List String
revoked_in rows jtis =
    map (λ (r : Revocation). r.jti) (keep (λ (r : Revocation). contains jtis r.jti) rows)

unfoldable pub revocation_rows : List String → String → Option String → ℕ → List Revocation
revocation_rows jtis root reason at =
    map (λ jti. record { jti = jti; revoked_at = at; root_of_revocation = root; reason = reason })
      jtis

module _ (e : Engine) where
  abbrev pub Db : Type 0 → Type 0
  Db A = Exec (Database e) A

  -- `self._session()`
  unfoldable pub open_session : Db (Unit {0})
  open_session db = (if db.closed then err (storage_error "storage is closed") else ok tt, db)

  -- what a commit leaves, or the exception that its `IntegrityError` becomes
  abbrev pub committed :
      {S : Type 0}
      → Error
      → (S → Database e)
      → Option S
      → Database e
      → Result (Unit {0}) × Database e
  committed exc put none db = (err exc, db)
  committed exc put (some s) db = (ok tt, put s)

  unfoldable pub insert_token : TokenMetadata → Db (Unit {0})
  insert_token meta db =
      committed (storage_error "token already recorded") (λ s. record db { tokens = s })
        (e.tokens.insert (meta ∷ []) db.tokens) db

  unfoldable pub put_token : TokenMetadata → Db (Unit {0})
  put_token meta = do open_session; insert_token meta

  unfoldable pub get_token : String → Db (Option TokenMetadata)
  get_token jti = do open_session; gets (λ db. e.tokens.get jti db.tokens)

  -- a duplicate edge is rolled back
  abbrev pub edge_committed : Option e.edges.State → Database e → Database e
  edge_committed none db = db
  edge_committed (some s) db = record db { edges = s }

  unfoldable pub add_edge : String → String → Db (Unit {0})
  add_edge parent child = do
    open_session
    modify (λ db.
        edge_committed
          (e.edges.insert (record { parent_jti = parent; child_jti = child } ∷ []) db.edges) db)

  unfoldable pub children_of : List String → Db (List String)
  children_of [] = pure []
  children_of (p ∷ ps) = do
    open_session
    gets (λ db. children_in (e.edges.select db.edges) (p ∷ ps))

  -- Each round asks for the children of its level; the state does not change, so only the first
  -- session can be refused.
  unfoldable pub descendants_breadth_first : String → Db (List String)
  unfolding loop
  descendants_breadth_first root = do
    open_session
    gets (λ db.
        let edges = e.edges.select db.edges in
        (loop (children_in edges) (suc (length (all_children edges))) (start root)).order)

  -- an unreachable store must not answer "not revoked"
  unfoldable pub is_revoked : String → Db Bool
  is_revoked jti = do
    open_session
    reachable ← gets (λ db. db.reachable)
    if reachable
        then gets (λ db. is_some (e.revocations.get jti db.revocations))
        else raise (storage_error "cannot determine revocation state")

  unfoldable pub revoked_among : List String → Db (List String)
  revoked_among [] = pure []
  revoked_among (jti ∷ jtis) = do
    open_session
    gets (λ db. revoked_in (e.revocations.select db.revocations) (jti ∷ jtis))

  unfoldable pub insert_revocations : List Revocation → Db (Unit {0})
  insert_revocations rows db =
      committed integrity_error (λ s. record db { revocations = s })
        (e.revocations.insert rows db.revocations) db

  -- one transaction for the fresh tokens
  unfoldable pub commit_revocations : List String → String → Option String → ℕ → Db (List String)
  unfolding insert_revocations revocation_rows
  commit_revocations [] root reason at = pure []
  commit_revocations (jti ∷ jtis) root reason at = do
    open_session
    insert_revocations (revocation_rows (jti ∷ jtis) root reason at)
    pure (jti ∷ jtis)

  unfoldable pub revoke_many : List String → String → Option String → ℕ → Db (List String)
  unfolding revoked_among commit_revocations
  revoke_many jtis root reason at = do
    already ← revoked_among jtis
    commit_revocations (keep (λ jti. not (contains already jti)) jtis) root reason at

  unfoldable pub close : Db (Unit {0})
  close db = (ok tt, record db { closed = true })
