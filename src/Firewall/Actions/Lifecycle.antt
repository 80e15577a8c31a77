-- ===== src/Firewall/Actions/Lifecycle.antt =====
-- What the guarded action leaves in its record.
use adf.Prelude.{ℕ, String, ◌≡◌, refl, Option, none, some, List, lookup, lookup-insert_self}
use adf.Errors.{Error, Result, ok, err}
use adf.Exec.{pure, raise, ◌>>=◌}
use adf.Exec.Rules.{Keeps}
use adf.Env.{Env}
use adf.Time.{truncate_reason}
use adf.Models.{ActionRecord, CompletionState, clean, partial, TokenClaims}
use adf.Audit.{log_batch}
use adf.Audit.Rows.{AuditEvent, Row}
use adf.Storage.{Memory, close_action, append_audit_batch}
use adf.Firewall.{Firewall, write, utcnow, new_event, log}
use adf.Firewall.Tables.{HasTable, new_event-table, log-table}
use adf.Firewall.Actions.{ActionHandle, close_handle, finish_action}

abbrev action_of : String → Memory → Option ActionRecord
action_of id m = lookup id m.actions

skips :
    (id : String) (rows : List Row) (m : Memory)
    → action_of id (append_audit_batch rows m) ≡ action_of id m
unfolding append_audit_batch
skips id rows m = refl

-- the record as `close_action` closes it
abbrev pub closed_as : CompletionState → Option String → ℕ → ActionRecord → ActionRecord
closed_as state reason at a = record a {
  finished_at = some at;
  state = some state;
  failure_reason = reason;
}

-- how the body's outcome is recorded
abbrev pub outcome_state : Option Error → CompletionState
outcome_state none = clean
outcome_state (some e) = partial

close_action-found :
    (id : String) (state : CompletionState) (at : ℕ) (reason : Option String) (m : Memory)
    (a : ActionRecord)
    → lookup id m.actions ≡ some a
    → lookup id (close_action id state at reason m).actions ≡ some (closed_as state reason at a)
unfolding close_action
close_action-found id state at reason m a found =
    rw (close_action, found) (lookup-insert_self id (closed_as state reason at a) m.actions)

module _ (env : Env) where
  abbrev pub outcome_reason : Option Error → Option String
  outcome_reason none = none
  outcome_reason (some e) = some (truncate_reason (env.error_text e))

  abbrev pub outcome_result : Option Error → Result (Unit {0})
  outcome_result none = ok tt
  outcome_result (some e) = err e

  audited-Keeps :
      (id : String) (o : Option ActionRecord) (e : AuditEvent)
      → Keeps (HasTable (action_of id) o) (log env e)
  audited-Keeps id o = log-table env (action_of id) (skips id) o

  announced-Keeps :
      (id : String) (o : Option ActionRecord) (name : String)
      → Keeps (HasTable (action_of id) o) (new_event env name)
  announced-Keeps id o = new_event-table env (action_of id) (skips id) o

  close_handle-closes :
      (h : ActionHandle) (c : TokenClaims) (state : CompletionState) (reason : Option String)
      (s : Firewall) (a : ActionRecord)
      → lookup h.action_id s.storage.actions ≡ some a
      → ((close_handle env h c state reason s).0 ≡ ok tt)
        × (lookup h.action_id (close_handle env h c state reason s).1.storage.actions
            ≡ some (closed_as state reason (env.clock s.reads) a))
  unfolding close_handle ◌>>=◌ utcnow write new_event log pure log_batch append_audit_batch
  close_handle-closes h c state reason s a found =
      (refl, close_action-found h.action_id state (env.clock s.reads) reason s.storage a found)

  -- Where the action of the handle is stored, leaving the guarded block closes its record at the
  -- clock's reading: as clean where the body returned, else as partial with the clamped text of the
  -- exception. The exception is raised again.
  pub finish_action-closes :
      (h : ActionHandle) (c : TokenClaims) (outcome : Option Error) (s : Firewall)
      (a : ActionRecord)
      → lookup h.action_id s.storage.actions ≡ some a
      → ((finish_action env h c outcome s).0 ≡ outcome_result outcome)
        × (lookup h.action_id (finish_action env h c outcome s).1.storage.actions
            ≡ some
                (closed_as (outcome_state outcome) (outcome_reason outcome) (env.clock s.reads) a))
  unfolding finish_action ◌>>=◌ raise
  finish_action-closes h c none s a found = close_handle-closes h c clean none s a found
  finish_action-closes h c (some e) s a found =
      let closes =
        close_handle-closes h c partial (some (truncate_reason (env.error_text e))) s a found in
      (rw closes.0 refl, rw closes.0 closes.1)
