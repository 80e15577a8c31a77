-- ===== src/Service/AuditLogger/Delivery/Promises.antt =====
-- checkpoint_service/engine/audit_logger.py: which logged events reach the log.
use adf.Prelude.{
  ℕ, ◌+◌, ◌≤◌, ◌<◌, Bool, true, false, not, ◌≡◌, refl, ap, Option, none, some, List, [], ◌∷◌, ◌++◌,
  length, is_some, arith, leb, ◌&&◌, if◌then◌else◌,
}
use adf.Errors.{Error, Result, ok, err}
use adf.Env.{Env}
use adf.Audit.{chain_rows}
use adf.Audit.Rows.{AuditEvent, Row}
use adf.Sql.Table.{Table}
use adf.Service.AuditLogger.{
  AuditLogger, is_bufferable, load_tail, with_tail, tail_at, committed, write_batch, counted,
  flush_pending, flush, answered, buffered, log, start, stop, Step, logging, flushing, restarting,
  restart, does, do_all,
}
use adf.Service.AuditLogger.Chained.{IsAppending}
use adf.Service.AuditLogger.Delivery.{is_ok, tally, stored, logged, stays_up, flush-Flushed}
use adf.Service.AuditLogger.Delivery.Served.{flush-Served, log-Served}

module _ (env : Env) (T : Table Row) (law : IsAppending T) where
  -- Whatever a logger does, flushes whose commit raises and new starts included, no event is in the log
  -- more often than it was logged, and no event leaves the log.
  pub do_all-once :
      (p : AuditEvent → Bool) (steps : List (Step env T)) (s : AuditLogger T)
      → (tally p (stored env T (do_all env T steps s)) + tally p (do_all env T steps s).buffer
          ≤ tally p (stored env T s) + tally p s.buffer + tally p (logged env T steps))
        × (tally p (stored env T s) ≤ tally p (stored env T (do_all env T steps s)))
  unfolding do_all does start load_tail
  do_all-once p [] s = (omega arith, omega arith)
  do_all-once p (logging e force_sync ∷ steps) s =
      let once = log-Served env T law p e force_sync s in
      let (rest, on) = do_all-once p steps (log env T e force_sync s).1 in
      (omega (arith, once.most, rest), omega (arith, once.grows, on))
  do_all-once p (flushing ∷ steps) s =
      let once = flush-Served env T law p s in
      let (rest, on) = do_all-once p steps (flush env T s).1 in
      (omega (arith, once.most, rest), omega (arith, once.grows, on))
  do_all-once p (restarting ∷ steps) s =
      let (rest, on) = do_all-once p steps (restart env T s) in (omega (arith, rest), on)

  -- The buffered events of a flush whose commit raises are lost without a crash: whatever the logger
  -- does next, the log holds no more events than it did and those that are logged later.
  pub flush-loses :
      (p : AuditEvent → Bool) (exc : Error) (steps : List (Step env T)) (s : AuditLogger T)
      → (flush env T s).0 ≡ err exc
      → ((flush env T s).1.buffer ≡ [])
        × (tally p (stored env T (do_all env T steps (flush env T s).1))
            ≤ tally p (stored env T s) + tally p (logged env T steps))
  flush-loses p exc steps s raised =
      let f = flush-Flushed env T law p s in
      let (rest, _) = do_all-once p steps (flush env T s).1 in
      let failed : is_ok (flush env T s).0 ≡ false = ap is_ok raised in
      let nothing : tally p (flush env T s).1.buffer ≡ 0 = ap (tally p) f.rest in
      (f.rest, ground (arith, f.in_log, failed, nothing, rest))

  module _ (takes : (rows : List Row) (t : T.State) → is_some (T.insert rows t) ≡ true) where
    write_batch-ok : (es : List AuditEvent) (s : AuditLogger T) → (write_batch env T es s).0 ≡ ok tt
    unfolding write_batch
    write_batch-ok es s = go (T.insert _ s.table) (takes _ s.table)
      where
        go :
            (o : Option T.State)
            → is_some o ≡ true
            → (committed env T
                (chain_rows env (tail_at env T s.tail_hash s.table) es).1
                (with_tail env T s.tail_hash s)
                o).0
              ≡ ok tt
        go none h = absurd (ground (arith, h))
        go (some t) h = refl

    flush-ok : (s : AuditLogger T) → (flush env T s).0 ≡ ok (length s.buffer)
    unfolding flush
    flush-ok s = go s.buffer
      where
        counted_case :
            (n : ℕ) (x : Result (Unit {0}) × AuditLogger T)
            → x.0 ≡ ok tt
            → (counted env T n x).0 ≡ ok n
        counted_case n (ok _, x) h = refl
        counted_case n (err exc, x) h = absurd (cc)

        go : (pending : List AuditEvent) → (flush_pending env T pending s).0 ≡ ok (length pending)
        go [] = refl
        go (v ∷ vs) =
            counted_case _ (write_batch env T (v ∷ vs) (record s { buffer = [] }))
              (write_batch-ok (v ∷ vs) (record s { buffer = [] }))

    log-ok :
        (event : AuditEvent) (force_sync : Bool) (s : AuditLogger T)
        → (log env T event force_sync s).0 ≡ ok tt
    unfolding log
    log-ok event force_sync s = go (not force_sync && is_bufferable event)
      where
        queued : AuditLogger T
        queued = record s { buffer = s.buffer ++ event ∷ [] }

        answered_case :
            (n : ℕ) (x : Result ℕ × AuditLogger T) → x.0 ≡ ok n → (answered env T x).0 ≡ ok tt
        answered_case n (ok _, x) h = refl
        answered_case n (err exc, x) h = absurd (cc)

        buffered_case : (due : Bool) → (buffered env T due queued).0 ≡ ok tt
        buffered_case true = answered_case _ (flush env T queued) (flush-ok queued)
        buffered_case false = refl

        go :
            (waits : Bool)
            → (if waits
                then buffered env T (leb s.buffer_max_size (length queued.buffer)) queued
                else write_batch env T (event ∷ []) s).0
              ≡ ok tt
        go true = buffered_case (leb s.buffer_max_size (length queued.buffer))
        go false = write_batch-ok (event ∷ []) s

    do_all-all :
        (p : AuditEvent → Bool) (steps : List (Step env T)) (s : AuditLogger T)
        → stays_up env T steps ≡ true
        → tally p (stored env T (do_all env T steps s)) + tally p (do_all env T steps s).buffer
          ≡ tally p (stored env T s) + tally p s.buffer + tally p (logged env T steps)
    unfolding do_all does
    do_all-all p [] s up = omega arith
    do_all-all p (logging e force_sync ∷ steps) s up =
        let once = (log-Served env T law p e force_sync s).all (ap is_ok (log-ok e force_sync s)) in
        omega (arith, once, do_all-all p steps (log env T e force_sync s).1 up)
    do_all-all p (flushing ∷ steps) s up =
        let once = (flush-Served env T law p s).all (ap is_ok (flush-ok s)) in
        omega (arith, once, do_all-all p steps (flush env T s).1 up)
    do_all-all p (restarting ∷ steps) s up = absurd (ground (arith, up))

    do_all-short :
        (steps : List (Step env T)) (s : AuditLogger T)
        → stays_up env T steps ≡ true
        → length s.buffer < s.buffer_max_size
        → length (do_all env T steps s).buffer < (do_all env T steps s).buffer_max_size
    unfolding do_all does
    do_all-short [] s up h = h
    do_all-short (logging e force_sync ∷ steps) s up h =
        do_all-short steps (log env T e force_sync s).1 up
          ((log-Served env T law (λ _. true) e force_sync s).short h)
    do_all-short (flushing ∷ steps) s up h =
        do_all-short steps (flush env T s).1 up ((flush-Served env T law (λ _. true) s).short h)
    do_all-short (restarting ∷ steps) s up h = absurd (ground (arith, up))

    -- Where every commit goes through and the process runs until it is stopped, fewer events than the
    -- buffer's size are waiting at any time, `stop` writes them all, and then every event that was
    -- waiting or has been logged is in the log exactly once more than it was.
    pub stop-delivers :
        (steps : List (Step env T)) (s : AuditLogger T)
        → stays_up env T steps ≡ true
        → length s.buffer < s.buffer_max_size
        → let x = do_all env T steps s in
          (length x.buffer < x.buffer_max_size)
          × ((stop env T x).0 ≡ ok (length x.buffer))
          × ((stop env T x).1.buffer ≡ [])
          × ((p : AuditEvent → Bool)
              → tally p (stored env T (stop env T x).1)
                ≡ tally p (stored env T s) + tally p s.buffer + tally p (logged env T steps))
    unfolding stop
    stop-delivers steps s up h =
        let x : AuditLogger T = do_all env T steps s in
        (
          do_all-short steps s up h,
          flush-ok x,
          (flush-Flushed env T law (λ _. true) x).rest,
          λ p.
              let f = flush-Flushed env T law p x in
              ground (arith, f.in_log, ap is_ok (flush-ok x), do_all-all p steps s up),
        )
