-- ===== src/Service/AuditLogger/Delivery/Served.antt =====
-- checkpoint_service/engine/audit_logger.py: one call, and what it does with the events.
use adf.Prelude.{
  ℕ, ◌+◌, ◌≤◌, ◌<◌, Bool, true, false, not, ◌≡◌, refl, ap, List, [], ◌∷◌, ◌++◌, length, arith, leb,
  ◌&&◌, if◌then◌else◌,
}
use adf.Errors.{Result, ok, err}
use adf.Env.{Env}
use adf.Audit.Rows.{AuditEvent, Row}
use adf.Sql.Table.{Table}
use adf.Service.AuditLogger.{
  AuditLogger, is_bufferable, write_batch, flush, answered, buffered, log,
}
use adf.Service.AuditLogger.Chained.{IsAppending}
use adf.Service.AuditLogger.Delivery.{
  is_ok, tally, tally-append, stored, Wrote, write_batch-Wrote, Flushed, flush-Flushed,
}

module _ (env : Env) (T : Table Row) (law : IsAppending T) where
  -- an event that is logged once is in the log or in the buffer at most once more, and exactly once
  -- more where nothing was raised
  pub record Served (p : AuditEvent → Bool) (es : List AuditEvent) (s x : AuditLogger T)
      (done : Bool) : Type 0 where
    pub most :
        tally p (stored env T x) + tally p x.buffer
        ≤ tally p (stored env T s) + tally p s.buffer + tally p es
    pub all :
        done ≡ true
        → tally p (stored env T x) + tally p x.buffer
          ≡ tally p (stored env T s) + tally p s.buffer + tally p es
    pub grows : tally p (stored env T s) ≤ tally p (stored env T x)
    pub short : length s.buffer < s.buffer_max_size → length x.buffer < x.buffer_max_size

  pub flush-Served :
      (p : AuditEvent → Bool) (s : AuditLogger T)
      → Served p [] s (flush env T s).1 (is_ok (flush env T s).0)
  flush-Served p s = go (is_ok (flush env T s).0) (flush-Flushed env T law p s)
    where
      go :
          (wrote : Bool)
          → Flushed env T law p s (flush env T s).1 wrote
          → Served p [] s (flush env T s).1 wrote
      go wrote f =
          let nothing : tally p (flush env T s).1.buffer ≡ 0 = ap (tally p) f.rest in
          let none_left : length (flush env T s).1.buffer ≡ 0 = ap length f.rest in
          record {
            most = ground (arith, f.in_log, nothing);
            all = λ done. ground (arith, f.in_log, nothing, done);
            grows = ground (arith, f.in_log);
            short = λ h. ground (arith, none_left, f.size, h);
          }

  pub log-Served :
      (p : AuditEvent → Bool) (event : AuditEvent) (force_sync : Bool) (s : AuditLogger T)
      → Served p
          (event ∷ [])
          s
          (log env T event force_sync s).1
          (is_ok (log env T event force_sync s).0)
  unfolding log
  log-Served p event force_sync s = go (not force_sync && is_bufferable event)
    where
      queued : AuditLogger T
      queued = record s { buffer = s.buffer ++ event ∷ [] }

      more : tally p queued.buffer ≡ tally p s.buffer + tally p (event ∷ [])
      more = tally-append p s.buffer (event ∷ [])

      answered_case :
          (x : Result ℕ × AuditLogger T)
          → Served p [] queued x.1 (is_ok x.0)
          → (length s.buffer < s.buffer_max_size → length x.1.buffer < x.1.buffer_max_size)
          → Served p (event ∷ []) s (answered env T x).1 (is_ok (answered env T x).0)
      answered_case (ok _, x) h b = record {
        most = ground (arith, h.most, more);
        all = λ done. ground (arith, h.all refl, more);
        grows = h.grows;
        short = b;
      }
      answered_case (err exc, x) h b = record {
        most = ground (arith, h.most, more);
        all = λ done. absurd (cc);
        grows = h.grows;
        short = b;
      }

      cleared : length (flush env T queued).1.buffer ≡ 0
      cleared = ap length (flush-Flushed env T law p queued).rest

      same_size : (flush env T queued).1.buffer_max_size ≡ s.buffer_max_size
      same_size = (flush-Flushed env T law p queued).size

      buffered_case :
          (due : Bool)
          → leb s.buffer_max_size (length queued.buffer) ≡ due
          → Served p
              (event ∷ [])
              s
              (buffered env T due queued).1
              (is_ok (buffered env T due queued).0)
      buffered_case true e =
          answered_case (flush env T queued) (flush-Served p queued)
            (λ h. ground (arith, cleared, same_size, h))
      buffered_case false e = record {
        most = ground (arith, more);
        all = λ done. ground (arith, more);
        grows = ground arith;
        short = λ h. ground (arith, e);
      }

      write_case :
          (wrote : Bool) (x : AuditLogger T)
          → Wrote env T law p (event ∷ []) s x wrote
          → Served p (event ∷ []) s x wrote
      write_case wrote x w =
          let same : tally p x.buffer ≡ tally p s.buffer = ap (tally p) w.rest in
          let same_length : length x.buffer ≡ length s.buffer = ap length w.rest in
          record {
            most = ground (arith, w.in_log, same);
            all = λ done. ground (arith, w.in_log, same, done);
            grows = ground (arith, w.in_log);
            short = λ h. ground (arith, same_length, w.size, h);
          }

      go :
          (waits : Bool)
          → let out =
              if waits
              then buffered env T (leb s.buffer_max_size (length queued.buffer)) queued
              else write_batch env T (event ∷ []) s in
            Served p (event ∷ []) s out.1 (is_ok out.0)
      go true = buffered_case (leb s.buffer_max_size (length queued.buffer)) refl
      go false =
          write_case (is_ok (write_batch env T (event ∷ []) s).0)
            (write_batch env T (event ∷ []) s).1 (write_batch-Wrote env T law p (event ∷ []) s)
