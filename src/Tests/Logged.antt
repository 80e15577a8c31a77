-- ===== src/Tests/Logged.antt =====
-- The theorems on the audit logger of the service, at a list of rows.
use adf.Prelude.{
  Bool, true, false, ◌≡◌, refl, sym, ap, ◌∙◌, ◌+◌, ◌≤◌, ◌<◌, none, some, List, [], ◌∷◌, ◌++◌,
  length, arith, if◌then◌else◌,
}
use adf.Errors.{ok, integrity_error}
use adf.Audit.Rows.{AuditEvent, Row, blank_event}
use adf.Sql.Table.{Table, unnumbered}
use adf.Sql.Revocations.{unnumbered-append}
use adf.Service.AuditLogger.{
  AuditLogger, logging, flushing, restarting, flush, start, stop, verify_integrity, do_all,
}
use adf.Service.AuditLogger.Chained.{IsAppending, do_all-intact}
use adf.Service.AuditLogger.Delivery.{tally, stored}
use adf.Service.AuditLogger.Delivery.Promises.{do_all-once, flush-loses, stop-delivers}
use adf.Tests.{program}
use adf.Tests.Data.{world}

-- a table that takes a batch where `takes` allows it
abbrev pub rows_where : (List Row → Bool) → Table Row
rows_where takes = record {
  State = List Row;
  select = λ s. s;
  get = λ k s. none;
  insert = λ rows s. if takes s then some (s ++ rows) else none;
  update = λ k f s. s;
}

rows_where-IsAppending : (takes : List Row → Bool) → IsAppending (rows_where takes)
rows_where-IsAppending takes = record { appends = λ rows s t e. go rows s t (takes s) e }
  where
    go :
        (rows s t : List Row) (taken : Bool)
        → (if taken then some (s ++ rows) else none) ≡ some t
        → unnumbered t ≡ unnumbered s ++ unnumbered rows
    go rows s t true e =
        let same : s ++ rows ≡ t = cc in ap unnumbered (sym same) ∙ unnumbered-append s rows
    go rows s t false e = absurd (cc)

abbrev pub open_table : Table Row
open_table = rows_where (λ s. true)

abbrev checked : AuditEvent
unfolding blank_event
checked = blank_event "verify_success" "t1"

abbrev denied : AuditEvent
unfolding blank_event
denied = blank_event "verify_denied" "t2"

abbrev new_logger : (takes : List Row → Bool) → AuditLogger (rows_where takes)
new_logger takes = record {
  table = [];
  buffer = checked ∷ [];
  buffer_max_size = 3;
  tail_hash = none;
}

do_all-intact_example :
    (verify_integrity world open_table (
      do_all world open_table
        (logging checked false
          ∷ logging denied false
          ∷ flushing
          ∷ restarting
          ∷ logging checked true
          ∷ [])
        (start world open_table (new_logger (λ s. true))))).intact
    ≡ true
unfolding program
do_all-intact_example =
    do_all-intact world open_table (rows_where-IsAppending (λ s. true))
      (logging checked false
        ∷ logging denied false
        ∷ flushing
        ∷ restarting
        ∷ logging checked true
        ∷ [])
      (new_logger (λ s. true)) refl

do_all-once_example :
    (tally
          (λ e. true)
          (stored world open_table
            (do_all world open_table (flushing ∷ restarting ∷ []) (new_logger (λ s. true))))
        + tally
            (λ e. true)
            (do_all world open_table (flushing ∷ restarting ∷ []) (new_logger (λ s. true))).buffer
      ≤ 0 + tally (λ e. true) (checked ∷ []) + 0)
    × (0
        ≤ tally
            (λ e. true)
            (stored world open_table
              (do_all world open_table (flushing ∷ restarting ∷ []) (new_logger (λ s. true)))))
do_all-once_example =
    do_all-once world open_table (rows_where-IsAppending (λ s. true)) (λ e. true)
      (flushing ∷ restarting ∷ []) (new_logger (λ s. true))

-- a database that is down
abbrev closed_table : Table Row
closed_table = rows_where (λ s. false)

flush-loses_example :
    ((flush world closed_table (new_logger (λ s. false))).1.buffer ≡ [])
    × (tally
          (λ e. true)
          (stored world closed_table (
            do_all world closed_table
              (flushing ∷ [])
              (flush world closed_table (new_logger (λ s. false))).1))
        ≤ 0)
unfolding program
flush-loses_example =
    flush-loses world closed_table (rows_where-IsAppending (λ s. false)) (λ e. true) integrity_error
      (flushing ∷ []) (new_logger (λ s. false)) refl

stop-delivers_example :
    let x =
      do_all world open_table
        (logging denied false ∷ logging checked false ∷ [])
        (new_logger (λ s. true)) in
    (length x.buffer < x.buffer_max_size)
    × ((stop world open_table x).0 ≡ ok (length x.buffer))
    × ((stop world open_table x).1.buffer ≡ [])
    × ((p : AuditEvent → Bool)
        → tally p (stored world open_table (stop world open_table x).1)
          ≡ 0 + tally p (checked ∷ []) + tally p (denied ∷ checked ∷ []))
unfolding program
stop-delivers_example =
    stop-delivers world open_table (rows_where-IsAppending (λ s. true)) (λ rows s. refl)
      (logging denied false ∷ logging checked false ∷ []) (new_logger (λ s. true)) refl
      (omega arith)
