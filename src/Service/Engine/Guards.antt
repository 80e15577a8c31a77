-- ===== src/Service/Engine/Guards.antt =====
-- checkpoint_service/engine/guardrails.py, subjects.py and the audit log, as a request calls them. The
-- breaker and the detector are those of agperms/src/agperms/_guardrails.py.
use Prim.Native.String
use adf.Prelude.{
  ℕ, ◌+◌, String, Bool, false, not, Option, none, some, List, [], ◌∷◌, ltb, ◌==◌, if◌then◌else◌,
}
use adf.Errors.{Result, ok, err, rate_limit_exceeded}
use adf.Exec.{pure, gets, modify, when, ◌>>=◌, ◌>>◌}
use adf.Time.{timestamp}
use adf.Json.{str, dict}
use adf.Env.{Env}
use adf.Config.{Config, register_exempt_subject, is_exempt}
use adf.Models.{Subject}
use adf.Guardrails.Rate.{Buckets, window_seconds}
use adf.Guardrails.Rate
use adf.Guardrails.Circuit.{Trip, record_outcome, is_unrecorded, check_circuit}
use adf.Guardrails.Anomaly.{Finding, observe_delegation}
use adf.Audit.Rows.{AuditEvent, blank_event}
use adf.Firewall.{prefixed}
use adf.Service.AuditLogger.{AuditLogger}
use adf.Service.AuditLogger
use adf.Service.Revocation.{client_if}
use adf.Service.Engine.{Platform, Engine, Eng, find_subject, create_subject}

module _ (env : Env) (p : Platform) where
  unfoldable pub utcnow : Eng p ℕ
  utcnow s = (ok (env.clock s.reads), record s { reads = s.reads + 1 })

  unfoldable pub utcnow_ts : Eng p ℕ
  utcnow_ts = do now ← utcnow; pure (timestamp now)

  unfoldable pub fresh_id : Eng p String
  fresh_id s = (ok (env.uuid4 s.ids), record s { ids = s.ids + 1 })

  unfoldable pub new_event : String → Eng p AuditEvent
  new_event action = do now ← utcnow; pure (blank_event action (env.isoformat now))

  abbrev pub logged :
      Engine p → Result (Unit {0}) × AuditLogger p.audit → Result (Unit {0}) × Engine p
  logged s (r, a) = (r, record s { audit = a })

  -- `self._audit.log`, which has a session of its own
  unfoldable pub log : AuditEvent → Eng p (Unit {0})
  log e s = logged s (AuditLogger.log env p.audit e false s.audit)

  unfoldable pub resolve_or_create : String → String → Eng p Subject
  resolve_or_create identifier kind = do
    digest ← gets (λ s. env.sha256 (String.◌++◌ identifier s.settings.pii_salt))
    existing ← gets (find_subject p digest kind)
    subject ← elim existing [
      | some found ↦ pure found
      | none ↦ (do
        fresh ← fresh_id
        create_subject p (record {
          subject_id = prefixed kind fresh;
          identifier_hash = digest;
          kind = kind;
          display_label = identifier;
        }))
    ]
    modify (λ s. record s {
      settings = register_exempt_subject identifier subject.subject_id s.settings;
    })
    pure subject

  -- the limit of an action
  unfoldable pub limit_for : Config → String → ℕ
  limit_for c action =
      if action == "delegate" then c.rate_limit_delegate_per_min else c.rate_limit_verify_per_min

  -- `f"{RATE_KEY_PREFIX}{action}:{subject_id}"`
  unfoldable pub rate_key : String → String → String
  rate_key action subject = String.◌++◌ "adf:rate:" (String.◌++◌ action (String.◌++◌ ":" subject))

  abbrev pub within : String → ℕ → ℕ → Result (Unit {0})
  within subject limit used =
      if ltb limit used then err (rate_limit_exceeded subject limit window_seconds) else ok tt

  -- the window in the process
  unfoldable pub spend_local : ℕ → String → String → Eng p (Unit {0})
  unfolding rate_key limit_for
  spend_local now subject action s =
      let (windows, used) = Rate.hit now (rate_key action subject) window_seconds s.local_windows in
      (within subject (limit_for s.settings action) used, record s { local_windows = windows })

  unfoldable pub spent_redis :
      ℕ
      → String
      → String
      → Engine p
      → Option (ℕ × p.backend.redis.State)
      → Result (Unit {0}) × Engine p
  unfolding spend_local limit_for
  spent_redis now subject action s none =
      spend_local now subject action (record s { available = false })
  spent_redis now subject action s (some (used, c)) =
      (within subject (limit_for s.settings action) used, record s { client = some c })

  unfoldable pub spend_with :
      ℕ → String → String → Engine p → Option p.backend.redis.State → Result (Unit {0}) × Engine p
  unfolding spend_local spent_redis rate_key
  spend_with now subject action s none = spend_local now subject action s
  spend_with now subject action s (some c) =
      spent_redis now subject action s
        (p.backend.redis.hit (rate_key action subject) now window_seconds c)

  unfoldable pub spend_at : ℕ → String → String → Eng p (Unit {0})
  unfolding spend_with spent_redis spend_local
  spend_at now subject action s =
      spend_with now subject action s (client_if p.backend s.available s.client)

  -- `RateLimiter.check`
  unfoldable pub spend : String → String → Eng p (Unit {0})
  spend subject action = do
    exempt ← gets (λ s. is_exempt s.settings subject)
    when (not exempt) (do now ← utcnow; spend_at now subject action)

  unfoldable pub settle_outcome : ℕ → Bool → Option String → Bool → Eng p (Option Trip)
  settle_outcome now error subject denial s =
      let (k, tripped) = record_outcome s.settings now error subject denial s.circuit in
      (ok tripped, record s { circuit = k })

  -- what the callback raises is only logged
  abbrev pub swallowed : Result (Unit {0}) × Engine p → Result (Unit {0}) × Engine p
  swallowed (r, s) = (ok tt, s)

  unfoldable pub attempt : Eng p (Unit {0}) → Eng p (Unit {0})
  attempt action s = swallowed (action s)

  -- the callback that `AppContainer` registers
  unfoldable pub audit_trip : Option Trip → Eng p (Unit {0})
  audit_trip none = pure tt
  audit_trip (some t) = attempt (do
    text ← gets (λ s. env.trip_text s.settings t)
    e ← new_event "circuit_opened"
    log (record e {
      decision = some "deny";
      reason = some text;
      detail = some (dict (("break_glass_endpoint", str "POST /api/v1/admin/circuit/reset") ∷ []));
    }))

  -- `CircuitBreaker.record`
  unfoldable pub record_call : Bool → Option String → Bool → Eng p (Unit {0})
  record_call error subject denial = do
    skipped ← gets (λ s. is_unrecorded s.settings subject)
    when (not skipped)
        (do now ← utcnow; tripped ← settle_outcome now error subject denial; audit_trip tripped)

  -- `CircuitBreaker.check`
  unfoldable pub require_closed : Eng p (Unit {0})
  require_closed s = (check_circuit (env.trip_text s.settings) s.circuit, s)

  unfoldable pub observe_at : ℕ → String → ℕ → Eng p (List Finding)
  observe_at now subject scope_count s =
      let (d, findings) = observe_delegation s.settings now subject scope_count s.baselines in
      (ok findings, record s { baselines = d })

  -- `AnomalyDetector.observe_delegation`
  unfoldable pub observe : String → ℕ → Eng p (List Finding)
  observe subject scope_count = do now ← utcnow; observe_at now subject scope_count
