-- ===== src/Service/AuditLogger/Chained.antt =====
-- checkpoint_service/engine/audit_logger.py: the hash chain behind the buffer.
use adf.Prelude.{
  ℕ, String, Bool, true, false, not, ◌≡◌, refl, sym, ap, ◌∙◌, subst, Option, none, some, List, [],
  ◌∷◌, ◌++◌, length, last?, leb, ◌&&◌, if◌then◌else◌,
}
use adf.Errors.{Result, ok, err}
use adf.Env.{Env}
use adf.Models.{IntegrityReport}
use adf.Audit.{genesis_hash, chain_rows}
use adf.Audit.Rows.{AuditEvent, Row, row_with_id}
use adf.Audit.Chain.{
  IsChained, tail_of, chain_rows-IsChained, IsChained-append, tail_of-append, verify_from-chained,
  IsChained-verify_from,
}
use adf.Sql.Table.{Table, unnumbered}
use adf.Service.AuditLogger.{
  AuditLogger, is_bufferable, hash_or_genesis, load_tail, with_tail, tail_at, committed,
  write_batch, counted, flush_pending, flush, answered, buffered, log, start, verify_integrity,
  Step, logging, flushing, restarting, does, do_all,
}

-- a commit that does not raise puts the new rows behind the stored ones, with ids of its own
pub record IsAppending (T : Table Row) : Type 0 where
  pub appends :
      (rows : List Row) (s t : T.State)
      → T.insert rows s ≡ some t
      → unnumbered (T.select t) ≡ unnumbered (T.select s) ++ unnumbered rows

module _ (env : Env) where
  IsChained-unnumbered :
      (prev : String) (rows : List Row)
      → IsChained env prev rows
      → IsChained env prev (unnumbered rows)
  unfolding row_with_id
  IsChained-unnumbered prev [] c = tt
  IsChained-unnumbered prev (row ∷ rows) c = (c.0, c.1, IsChained-unnumbered row.row_hash rows c.2)

  unnumbered-IsChained :
      (prev : String) (rows : List Row)
      → IsChained env prev (unnumbered rows)
      → IsChained env prev rows
  unfolding row_with_id
  unnumbered-IsChained prev [] c = tt
  unnumbered-IsChained prev (row ∷ rows) c = (c.0, c.1, unnumbered-IsChained row.row_hash rows c.2)

  tail_of-unnumbered :
      (prev : String) (rows : List Row) → tail_of env prev (unnumbered rows) ≡ tail_of env prev rows
  unfolding row_with_id
  tail_of-unnumbered prev [] = refl
  tail_of-unnumbered prev (row ∷ rows) = tail_of-unnumbered row.row_hash rows

  tail_of-last? :
      (prev : String) (row : Row) (rows : List Row)
      → hash_or_genesis (last? (row ∷ rows)) ≡ tail_of env prev (row ∷ rows)
  tail_of-last? prev row [] = refl
  tail_of-last? prev row (next ∷ rows) = tail_of-last? row.row_hash next rows

  tip-tail_of : (rows : List Row) → hash_or_genesis (last? rows) ≡ tail_of env genesis_hash rows
  tip-tail_of [] = refl
  tip-tail_of (row ∷ rows) = tail_of-last? genesis_hash row rows

module _ (env : Env) (T : Table Row) (law : IsAppending T) where
  -- the log is chained, and a remembered tail is the hash of its last row
  abbrev pub IsSound : AuditLogger T → Type 0
  IsSound s =
      IsChained env genesis_hash (T.select s.table)
      × (tail_at env T s.tail_hash s.table ≡ tail_of env genesis_hash (T.select s.table))

  load_tail-IsSound :
      (s : AuditLogger T)
      → IsChained env genesis_hash (T.select s.table)
      → IsSound (load_tail env T s)
  unfolding load_tail
  load_tail-IsSound s c = (c, tip-tail_of env (T.select s.table))

  with_tail-IsSound : (s : AuditLogger T) → IsSound s → IsSound (with_tail env T s.tail_hash s)
  unfolding with_tail load_tail
  with_tail-IsSound s h = go s.tail_hash refl
    where
      go : (o : Option String) → s.tail_hash ≡ o → IsSound (with_tail env T o s)
      go none e = load_tail-IsSound s h.0
      go (some hash) e = h

  committed-IsSound :
      (events : List AuditEvent) (s x : AuditLogger T)
      → IsSound s
      → IsSound x
      → let made = chain_rows env (tail_at env T s.tail_hash s.table) events in
        IsSound (committed env T made.1 x (T.insert made.0 s.table)).1
  committed-IsSound events s x h hx = go (T.insert rows s.table) refl
    where
      prev : String
      prev = tail_at env T s.tail_hash s.table

      rows : List Row
      rows = (chain_rows env prev events).0

      go :
          (o : Option T.State)
          → T.insert rows s.table ≡ o
          → IsSound (committed env T (chain_rows env prev events).1 x o).1
      go none e = hx
      go (some t) e =
          let (chained, tail) = chain_rows-IsChained env prev events in
          let both = law.appends rows s.table t e in
          let old : List Row = unnumbered (T.select s.table) in
          let old_tail : tail_of env genesis_hash old ≡ prev =
            tail_of-unnumbered env genesis_hash (T.select s.table) ∙ sym h.1 in
          (
            unnumbered-IsChained env genesis_hash (T.select t) (
                subst (IsChained env genesis_hash) (sym both) (
                  IsChained-append env genesis_hash old (unnumbered rows)
                    (IsChained-unnumbered env genesis_hash (T.select s.table) h.0)
                    (subst (λ p. IsChained env p (unnumbered rows)) (sym old_tail)
                      (IsChained-unnumbered env prev rows chained)))),
            sym (
                sym (tail_of-unnumbered env genesis_hash (T.select t))
                ∙ ap (tail_of env genesis_hash) both
                ∙ tail_of-append env genesis_hash old (unnumbered rows)
                ∙ ap (λ p. tail_of env p (unnumbered rows)) old_tail
                ∙ tail_of-unnumbered env prev rows
                ∙ tail),
          )

  write_batch-IsSound :
      (events : List AuditEvent) (s : AuditLogger T)
      → IsSound s
      → IsSound (write_batch env T events s).1
  unfolding write_batch
  write_batch-IsSound events s h =
      committed-IsSound events s (with_tail env T s.tail_hash s) h (with_tail-IsSound s h)

  flush-IsSound : (s : AuditLogger T) → IsSound s → IsSound (flush env T s).1
  unfolding flush
  flush-IsSound s h = go s.buffer
    where
      counted_case :
          (n : ℕ) (x : Result (Unit {0}) × AuditLogger T)
          → IsSound x.1
          → IsSound (counted env T n x).1
      counted_case n (ok _, s) h = h
      counted_case n (err exc, s) h = h

      go : (pending : List AuditEvent) → IsSound (flush_pending env T pending s).1
      go [] = h
      go (e ∷ es) =
          counted_case _ (write_batch env T (e ∷ es) (record s { buffer = [] }))
            (write_batch-IsSound (e ∷ es) (record s { buffer = [] }) h)

  log-IsSound :
      (event : AuditEvent) (force_sync : Bool) (s : AuditLogger T)
      → IsSound s
      → IsSound (log env T event force_sync s).1
  unfolding log
  log-IsSound event force_sync s h = go (not force_sync && is_bufferable event)
    where
      queued : AuditLogger T
      queued = record s { buffer = s.buffer ++ event ∷ [] }

      answered_case : (x : Result ℕ × AuditLogger T) → IsSound x.1 → IsSound (answered env T x).1
      answered_case (ok _, s) h = h
      answered_case (err exc, s) h = h

      buffered_case : (due : Bool) → IsSound (buffered env T due queued).1
      buffered_case true = answered_case (flush env T queued) (flush-IsSound queued h)
      buffered_case false = h

      go :
          (waits : Bool)
          → IsSound
              (if waits
                then buffered env T (leb s.buffer_max_size (length queued.buffer)) queued
                else write_batch env T (event ∷ []) s).1
      go true = buffered_case (leb s.buffer_max_size (length queued.buffer))
      go false = write_batch-IsSound (event ∷ []) s h

  does-IsSound : (step : Step env T) (s : AuditLogger T) → IsSound s → IsSound (does env T step s)
  unfolding does start
  does-IsSound (logging event force_sync) s h = log-IsSound event force_sync s h
  does-IsSound flushing s h = flush-IsSound s h
  does-IsSound restarting s h = load_tail-IsSound (record s { buffer = []; tail_hash = none }) h.0

  do_all-IsSound :
      (steps : List (Step env T)) (s : AuditLogger T) → IsSound s → IsSound (do_all env T steps s)
  unfolding do_all
  do_all-IsSound [] s h = h
  do_all-IsSound (step ∷ steps) s h =
      do_all-IsSound steps (does env T step s) (does-IsSound step s h)

  -- Where a logger has loaded its tail from a log that the verifier reports as intact, the log stays
  -- intact through any events logged, buffered or not, any flushes, commits that fail and new starts.
  pub do_all-intact :
      (steps : List (Step env T)) (s : AuditLogger T)
      → (verify_integrity env T s).intact ≡ true
      → (verify_integrity env T (do_all env T steps (start env T s))).intact ≡ true
  unfolding verify_integrity start
  do_all-intact steps s h =
      let (chained, _) =
        do_all-IsSound steps (load_tail env T s)
          (load_tail-IsSound s (IsChained-verify_from env 0 genesis_hash (T.select s.table) h)) in
      ap (λ (r : IntegrityReport). r.intact) (verify_from-chained env 0 genesis_hash _ chained)
