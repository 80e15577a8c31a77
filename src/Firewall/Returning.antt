-- ===== src/Firewall/Returning.antt =====
-- The firewall's own actions that raise nothing.
use adf.Prelude.{String, refl}
use adf.Exec.Rules.{Returns, returns_rules}
use adf.Env.{Env}
use adf.Storage.{Memory}
use adf.Audit.Rows.{AuditEvent}
use adf.Firewall.{write, utcnow, fresh_id, new_event, log}

module _ (env : Env) where
  pub write-Returns : (f : Memory → Memory) → Returns (write f)
  unfolding write
  write-Returns f = record { at = λ s. (tt, refl) }

  pub utcnow-Returns : Returns (utcnow env)
  unfolding utcnow
  utcnow-Returns = record { at = λ s. (env.clock s.reads, refl) }

  pub fresh_id-Returns : Returns (fresh_id env)
  unfolding fresh_id
  fresh_id-Returns = record { at = λ s. (env.uuid4 s.ids, refl) }

  pub new_event-Returns : (action : String) → Returns (new_event env action)
  unfolding new_event
  new_event-Returns action = search (returns_rules, utcnow-Returns)

  pub log-Returns : (e : AuditEvent) → Returns (log env e)
  unfolding log
  log-Returns e = record { at = λ s. (tt, refl) }
