-- ===== src/Audit.antt =====
-- agperms/src/agperms/_audit.py: the hash chain. The lock is left out: an append is one step.
pub mod Rows
pub mod Chain
use adf.Prelude.{
  ℕ, ◌+◌, String, Bool, true, false, Option, none, some, List, [], ◌∷◌, ◌==◌, if◌then◌else◌,
}
use Prim.Native.String.{◌++◌}
use adf.Env.{Env}
use adf.Json.{Json, null, int, strs, str, str_or_null, obj, Fields, end, field}
use adf.Audit.Rows.{AuditEvent, Row}
use adf.Models.{IntegrityReport}
use adf.Storage.{Memory, audit_tail_hash, append_audit_batch}

abbrev pub genesis_hash : String
genesis_hash = "0000000000000000000000000000000000000000000000000000000000000000"

abbrev pub strs_or_null : Option (List String) → Json
strs_or_null none = null
strs_or_null (some ss) = strs ss

abbrev pub int_or_null : Option ℕ → Json
int_or_null none = null
int_or_null (some n) = int n

abbrev pub json_or_null : Option Json → Json
json_or_null none = null
json_or_null (some v) = v

-- `to_payload`, whose keys are those of `_HASHED_FIELDS` in that order
unfoldable pub event_to_payload : AuditEvent → Json
event_to_payload e = obj (
    field "action" (str e.action) (
      field "actor_id" (str_or_null e.actor_id) (
        field "actor_hash" (str_or_null e.actor_hash) (
          field "jti" (str_or_null e.jti) (
            field "parent_jti" (str_or_null e.parent_jti) (
              field "root_jti" (str_or_null e.root_jti) (
                field "scopes" (strs_or_null e.scopes) (
                  field "denied_scopes" (strs_or_null e.denied_scopes) (
                    field "required_scope" (str_or_null e.required_scope) (
                      field "decision" (str_or_null e.decision) (
                        field "reason" (str_or_null e.reason) (
                          field "depth" (int_or_null e.depth) (
                            field "detail" (json_or_null e.detail)
                              (field "event_ts" (str e.event_ts) end))))))))))))))

-- `self._tail`, else the stored tail, else the genesis hash. An empty hash text counts as none.
unfoldable pub current_tail : Option String → Memory → String
current_tail (some hash) m = hash
current_tail none m = elim (audit_tail_hash m) [
  | none ↦ genesis_hash
  | some hash ↦ if hash == "" then genesis_hash else hash
]

unfoldable pub broken : ℕ → ℕ → IntegrityReport
broken index row_id = record {
  intact = false;
  rows_checked = index;
  first_broken_row_id = some row_id;
}

module _ (env : Env) where
  unfoldable pub canonical_content : AuditEvent → String
  canonical_content e = env.dumps (event_to_payload e)

  unfoldable pub compute_row_hash : String → AuditEvent → String
  unfolding canonical_content
  compute_row_hash prev_hash e = env.sha256 (prev_hash ++ canonical_content e)

  -- the loop of `log_batch`: the chained rows, and the hash of the last one
  unfoldable pub chain_rows : String → List AuditEvent → List Row × String
  chain_rows prev [] = ([], prev)
  chain_rows prev (e ∷ es) =
      let hash = compute_row_hash prev e in
      let (rows, tail) = chain_rows hash es in
      (record { id = 0; event = e; prev_hash = prev; row_hash = hash } ∷ rows, tail)

  -- the new tail, and the storage with the rows appended
  unfoldable pub log_batch : List AuditEvent → Option String → Memory → Option String × Memory
  unfolding chain_rows current_tail
  log_batch [] tail m = (tail, m)
  log_batch (e ∷ es) tail m =
      let (rows, tail') = chain_rows (current_tail tail m) (e ∷ es) in
      (some tail', append_audit_batch rows m)

  -- the loop of `verify_integrity`, at row `index` with the hash of the row before
  unfoldable pub verify_from : ℕ → String → List Row → IntegrityReport
  unfolding broken
  verify_from index prev [] = record {
    intact = true;
    rows_checked = index;
    first_broken_row_id = none;
  }
  verify_from index prev (row ∷ rows) =
      let rest = verify_from (index + 1) row.row_hash rows in
      if row.prev_hash == prev
      then if compute_row_hash prev row.event == row.row_hash then rest else broken index row.id
      else broken index row.id

  unfoldable pub verify_integrity : Memory → IntegrityReport
  unfolding verify_from
  verify_integrity m = verify_from 0 genesis_hash m.audit
