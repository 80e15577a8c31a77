-- ===== src/Firewall/Tables.antt =====
-- A table of the storage that is no audit log, under the clock, the ids and the log.
use adf.Prelude.{String, ◌≡◌, ◌∙◌, List}
use adf.Exec.Rules.{Keeps, keeps_rules}
use adf.Env.{Env}
use adf.Audit.{log_batch}
use adf.Audit.Rows.{AuditEvent, Row}
use adf.Storage.{Memory, append_audit_batch}
use adf.Firewall.{Firewall, write, utcnow, utcnow_ts, fresh_id, new_event, log, ask_revoked}

abbrev pub HasTable : {X : Type 0} → (Memory → X) → X → Firewall → Type 0
HasTable T d s = T s.storage ≡ d

module _ (env : Env) {X : Type 0} (T : Memory → X)
    (skips : (rows : List Row) (m : Memory) → T (append_audit_batch rows m) ≡ T m) (d : X) where
  pub utcnow-table : Keeps (HasTable T d) (utcnow env)
  unfolding utcnow
  utcnow-table = record { at = λ s h. h }

  pub utcnow_ts-table : Keeps (HasTable T d) (utcnow_ts env)
  unfolding utcnow_ts
  utcnow_ts-table = search (keeps_rules, utcnow-table)

  pub fresh_id-table : Keeps (HasTable T d) (fresh_id env)
  unfolding fresh_id
  fresh_id-table = record { at = λ s h. h }

  pub ask_revoked-table : (jti : String) → Keeps (HasTable T d) (ask_revoked jti)
  unfolding ask_revoked
  ask_revoked-table jti = record { at = λ s h. h }

  pub new_event-table : (action : String) → Keeps (HasTable T d) (new_event env action)
  unfolding new_event
  new_event-table action = search (keeps_rules, utcnow-table)

  pub log-table : (e : AuditEvent) → Keeps (HasTable T d) (log env e)
  unfolding log log_batch
  log-table e = record { at = λ s h. skips _ s.storage ∙ h }

  pub write-table :
      (f : Memory → Memory) → ((m : Memory) → T (f m) ≡ T m) → Keeps (HasTable T d) (write f)
  unfolding write
  write-table f same = record { at = λ s h. same s.storage ∙ h }
