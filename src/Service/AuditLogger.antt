-- ===== src/Service/AuditLogger.antt =====
-- checkpoint_service/engine/audit_logger.py: `AuditLogger` with its database. The hash chain is that of
-- agperms/src/agperms/_audit.py; latencies, the lock and the timer of the background task are left out.
pub mod Chained
pub mod Delivery
use adf.Prelude.{
  ℕ, String, Bool, true, false, not, Option, none, some, List, [], ◌∷◌, ◌++◌, map, length, last?,
  ◌==◌, ◌&&◌, leb, if◌then◌else◌,
}
use adf.Errors.{Result, ok, err, integrity_error}
use adf.Env.{Env}
use adf.Exec.{Exec}
use adf.Models.{IntegrityReport}
use adf.Audit.{genesis_hash, chain_rows, verify_from}
use adf.Audit.Rows.{AuditEvent, Row}
use adf.Sql.Table.{Table}

pub record AuditLogger (T : Table Row) : Type 0 where
  pub table : T.State
  pub buffer : List AuditEvent
  pub buffer_max_size : ℕ
  pub tail_hash : Option String

-- `BUFFERABLE`
unfoldable pub is_bufferable : AuditEvent → Bool
is_bufferable e = e.action == "verify_success"

-- the hash of the row with the greatest id, which is selected last
abbrev pub hash_or_genesis : Option Row → String
hash_or_genesis none = genesis_hash
hash_or_genesis (some row) = row.row_hash

module _ (env : Env) (T : Table Row) where
  abbrev pub tip : T.State → String
  tip table = hash_or_genesis (last? (T.select table))

  unfoldable pub load_tail : AuditLogger T → AuditLogger T
  load_tail s = record s { tail_hash = some (tip s.table) }

  abbrev pub with_tail : Option String → AuditLogger T → AuditLogger T
  unfolding load_tail
  with_tail none s = load_tail s
  with_tail (some _) s = s

  abbrev pub tail_at : Option String → T.State → String
  tail_at none table = tip table
  tail_at (some hash) table = hash

  -- `session.commit()`, and `self._tail_hash = prev` behind it
  abbrev pub committed : String → AuditLogger T → Option T.State → Result (Unit {0}) × AuditLogger T
  committed prev s none = (err integrity_error, s)
  committed prev s (some t) = (ok tt, record s { table = t; tail_hash = some prev })

  unfoldable pub write_batch : List AuditEvent → Exec (AuditLogger T) (Unit {0})
  write_batch events s =
      let (rows, prev) = chain_rows env (tail_at s.tail_hash s.table) events in
      committed prev (with_tail s.tail_hash s) (T.insert rows s.table)

  abbrev pub counted : {S : Type 0} → ℕ → Result (Unit {0}) × S → Result ℕ × S
  counted n (ok _, s) = (ok n, s)
  counted n (err exc, s) = (err exc, s)

  abbrev pub flush_pending : List AuditEvent → Exec (AuditLogger T) ℕ
  unfolding write_batch
  flush_pending [] s = (ok 0, s)
  flush_pending (e ∷ es) s =
      counted (length (e ∷ es)) (write_batch (e ∷ es) (record s { buffer = [] }))

  -- the buffer is emptied before its events are written
  unfoldable pub flush : Exec (AuditLogger T) ℕ
  unfolding write_batch
  flush s = flush_pending s.buffer s

  abbrev pub answered : {S A : Type 0} → Result A × S → Result (Unit {0}) × S
  answered (ok _, s) = (ok tt, s)
  answered (err exc, s) = (err exc, s)

  abbrev pub buffered : Bool → Exec (AuditLogger T) (Unit {0})
  unfolding flush
  buffered should_flush s = if should_flush then answered (flush s) else (ok tt, s)

  unfoldable pub log : AuditEvent → Bool → Exec (AuditLogger T) (Unit {0})
  unfolding is_bufferable write_batch flush
  log event force_sync s =
      let queue = s.buffer ++ event ∷ [] in
      if not force_sync && is_bufferable event
      then buffered (leb s.buffer_max_size (length queue)) (record s { buffer = queue })
      else write_batch (event ∷ []) s

  -- the background task may run `flush` at any time
  unfoldable pub start : AuditLogger T → AuditLogger T
  unfolding load_tail
  start s = load_tail s

  unfoldable pub stop : Exec (AuditLogger T) ℕ
  unfolding flush
  stop s = flush s

  unfoldable pub verify_integrity : AuditLogger T → IntegrityReport
  verify_integrity s = verify_from env 0 genesis_hash (T.select s.table)

  -- what a process that serves requests does with its logger
  pub data Step : Type 0 where
    logging : AuditEvent → Bool → Step
    flushing : Step
    -- the process ends, its buffer with it, and another one starts
    restarting : Step

  abbrev pub restart : AuditLogger T → AuditLogger T
  unfolding start
  restart s = start (record s { buffer = []; tail_hash = none })

  unfoldable pub does : Step → AuditLogger T → AuditLogger T
  unfolding log flush start
  does (logging event force_sync) s = (log event force_sync s).1
  does flushing s = (flush s).1
  does restarting s = restart s

  unfoldable pub do_all : List Step → AuditLogger T → AuditLogger T
  unfolding does
  do_all [] s = s
  do_all (a ∷ steps) s = do_all steps (does a s)
