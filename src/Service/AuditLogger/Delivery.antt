-- ===== src/Service/AuditLogger/Delivery.antt =====
-- checkpoint_service/engine/audit_logger.py: what becomes of a logged event.
pub mod Served
pub mod Promises
use adf.Prelude.{
  ℕ, zero, ◌+◌, ◌≤◌, ◌<◌, String, Bool, true, false, not, ◌≡◌, refl, sym, ap, ◌∙◌, subst, Option,
  none, some, List, [], ◌∷◌, ◌++◌, map, keep, length, length-append, is_some, arith, leb, ltb, ◌&&◌,
  if◌then◌else◌,
}
use adf.Errors.{Result, ok, err}
use adf.Env.{Env}
use adf.Audit.{chain_rows, compute_row_hash}
use adf.Audit.Rows.{AuditEvent, Row, row_with_id}
use adf.Sql.Table.{Table, unnumbered}
use adf.Service.AuditLogger.{
  AuditLogger, is_bufferable, load_tail, with_tail, tail_at, committed, write_batch, counted,
  flush_pending, flush, answered, buffered, log, start, stop, Step, logging, flushing, restarting,
  restart, does, do_all,
}
use adf.Service.AuditLogger.Chained.{IsAppending}

abbrev pub is_ok : {A : Type 0} → Result A → Bool
is_ok (ok _) = true
is_ok (err _) = false

-- how many of the events pass a test
abbrev pub tally : (AuditEvent → Bool) → List AuditEvent → ℕ
tally p [] = 0
tally p (e ∷ es) = (if p e then 1 else 0) + tally p es

pub tally-append :
    (p : AuditEvent → Bool) (xs ys : List AuditEvent) → tally p (xs ++ ys) ≡ tally p xs + tally p ys
tally-append p [] ys = omega arith
tally-append p (x ∷ xs) ys = omega (arith, tally-append p xs ys)

abbrev pub of_row : Row → AuditEvent
of_row row = row.event

map-unnumbered : (rows : List Row) → map of_row (unnumbered rows) ≡ map of_row rows
unfolding row_with_id
map-unnumbered [] = refl
map-unnumbered (row ∷ rows) = ap (λ es. row.event ∷ es) (map-unnumbered rows)

map-append : (xs ys : List Row) → map of_row (xs ++ ys) ≡ map of_row xs ++ map of_row ys
map-append [] ys = refl
map-append (x ∷ xs) ys = ap (λ es. x.event ∷ es) (map-append xs ys)

map-chain_rows :
    (env : Env) (prev : String) (es : List AuditEvent) → map of_row (chain_rows env prev es).0 ≡ es
unfolding chain_rows
map-chain_rows env prev [] = refl
map-chain_rows env prev (e ∷ es) =
    ap (λ xs. e ∷ xs) (map-chain_rows env (compute_row_hash env prev e) es)

module _ (env : Env) (T : Table Row) where
  -- the events in the log
  abbrev pub stored : AuditLogger T → List AuditEvent
  stored s = map of_row (T.select s.table)

  abbrev pub logged : List (Step env T) → List AuditEvent
  logged [] = []
  logged (logging e _ ∷ steps) = e ∷ logged steps
  logged (flushing ∷ steps) = logged steps
  logged (restarting ∷ steps) = logged steps

  -- the process does not end before it is told to stop
  abbrev pub stays_up : List (Step env T) → Bool
  stays_up [] = true
  stays_up (logging _ _ ∷ steps) = stays_up steps
  stays_up (flushing ∷ steps) = stays_up steps
  stays_up (restarting ∷ steps) = false

module _ (env : Env) (T : Table Row) (law : IsAppending T) where
  -- a batch is in the log or, where its commit raised, not; the buffer is as it was
  pub record Wrote (p : AuditEvent → Bool) (es : List AuditEvent) (s x : AuditLogger T)
      (wrote : Bool) : Type 0 where
    pub in_log :
        tally p (stored env T x) ≡ tally p (stored env T s) + (if wrote then tally p es else 0)
    pub rest : x.buffer ≡ s.buffer
    pub size : x.buffer_max_size ≡ s.buffer_max_size

  tally-stored :
      (p : AuditEvent → Bool) (prev : String) (es : List AuditEvent) (s t : T.State)
      → T.insert (chain_rows env prev es).0 s ≡ some t
      → tally p (map of_row (T.select t)) ≡ tally p (map of_row (T.select s)) + tally p es
  tally-stored p prev es s t e =
      let rows : List Row = (chain_rows env prev es).0 in
      let same : map of_row (T.select t) ≡ map of_row (T.select s) ++ es =
        sym (map-unnumbered (T.select t))
        ∙ ap (map of_row) (law.appends rows s t e)
        ∙ map-append (unnumbered (T.select s)) (unnumbered rows)
        ∙ ap (λ xs. xs ++ map of_row (unnumbered rows)) (map-unnumbered (T.select s))
        ∙ ap (λ ys. map of_row (T.select s) ++ ys)
            (map-unnumbered rows ∙ map-chain_rows env prev es) in
      ap (tally p) same ∙ tally-append p (map of_row (T.select s)) es

  pub write_batch-Wrote :
      (p : AuditEvent → Bool) (es : List AuditEvent) (s : AuditLogger T)
      → Wrote p es s (write_batch env T es s).1 (is_ok (write_batch env T es s).0)
  unfolding write_batch with_tail load_tail
  write_batch-Wrote p es s = go (T.insert _ s.table) refl (tail_case s.tail_hash)
    where
      prev : String
      prev = tail_at env T s.tail_hash s.table

      tail_case : (o : Option String) → Wrote p es s (with_tail env T o s) false
      tail_case none = record { in_log = omega arith; rest = refl; size = refl }
      tail_case (some _) = record { in_log = omega arith; rest = refl; size = refl }

      go :
          (o : Option T.State)
          → T.insert (chain_rows env prev es).0 s.table ≡ o
          → Wrote p es s (with_tail env T s.tail_hash s) false
          → let out =
              committed env T (chain_rows env prev es).1 (with_tail env T s.tail_hash s) o in
            Wrote p es s out.1 (is_ok out.0)
      go none e w = w
      go (some t) e w = record {
        in_log = tally-stored p prev es s.table t e;
        rest = w.rest;
        size = w.size;
      }

  -- a flush empties the buffer, whether its batch got into the log or not
  pub record Flushed (p : AuditEvent → Bool) (s x : AuditLogger T) (wrote : Bool) : Type 0 where
    pub in_log :
        tally p (stored env T x)
        ≡ tally p (stored env T s) + (if wrote then tally p s.buffer else 0)
    pub rest : x.buffer ≡ []
    pub size : x.buffer_max_size ≡ s.buffer_max_size

  pub flush-Flushed :
      (p : AuditEvent → Bool) (s : AuditLogger T)
      → Flushed p s (flush env T s).1 (is_ok (flush env T s).0)
  unfolding flush
  flush-Flushed p s = go s.buffer refl
    where
      counted_case :
          (n : ℕ) (x : Result (Unit {0}) × AuditLogger T)
          → Flushed p s x.1 (is_ok x.0)
          → Flushed p s (counted env T n x).1 (is_ok (counted env T n x).0)
      counted_case n (ok _, x) h = h
      counted_case n (err exc, x) h = h

      go :
          (pending : List AuditEvent)
          → s.buffer ≡ pending
          → Flushed p s (flush_pending env T pending s).1 (is_ok (flush_pending env T pending s).0)
      go [] e = record { in_log = ground (arith, e); rest = e; size = refl }
      go (v ∷ vs) e =
          let cleared : AuditLogger T = record s { buffer = [] } in
          let w = write_batch-Wrote p (v ∷ vs) cleared in
          counted_case (length (v ∷ vs)) (write_batch env T (v ∷ vs) cleared) (record {
            in_log =
                w.in_log
                ∙ ap
                    (λ q.
                      tally p (stored env T s)
                      + (if is_ok (write_batch env T (v ∷ vs) cleared).0 then tally p q else 0))
                    (sym e);
            rest = w.rest;
            size = w.size;
          })
