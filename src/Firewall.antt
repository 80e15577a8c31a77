-- ===== src/Firewall.antt =====
-- agperms/src/agperms/firewall.py: the state of a `Firewall` and the actions that its methods are
-- made of. The methods are in the modules below.
pub mod Steps
pub mod Settled
pub mod Tables
pub mod Returning
pub mod Kept
pub mod Run
pub mod Mint
pub mod Delegate
pub mod Verify
pub mod Actions
pub mod Revoke
pub mod Reviews
pub mod Approvals
pub mod Lineage
use Prim.Native.String
use adf.Prelude.{
  ℕ, zero, suc, ◌+◌, String, Bool, true, false, not, Option, none, some, List, [], ◌∷◌, Dict,
  is_some, ◌==◌, min, if◌then◌else◌,
}
use adf.Errors.{
  Error, Result, ok, err, key_error, parent_token_invalid, root_chain_broken, token_error,
  reason_expired, reason_revoked,
}
use adf.Exec.{Exec, pure, raise, lift, gets, modify, when, ◌>>=◌, ◌>>◌}
use adf.Time.{timestamp, truncate_reason, from_ts}
use adf.Json.{Json, strs}
use adf.Env.{Env}
use adf.Config.{Config, register_exempt_subject, is_exempt}
use adf.Models.{
  TokenClaims, TokenMetadata, Capability, Subject, DelegationChainEntry, ancestor_jtis,
}
use adf.Models.Payload.{entry_to_dict}
use adf.Audit
use adf.Audit.{log_batch}
use adf.Audit.Rows.{AuditEvent, blank_event}
use adf.Storage
use adf.Storage.{Memory, empty_memory, find_subject_id, get_or_create_subject, put_token, get_token}
use adf.Guardrails.Rate.{Buckets, check_rate}
use adf.Guardrails.Circuit.{
  Circuit, closed_circuit, Trip, record_outcome, is_unrecorded, check_circuit,
}
use adf.Guardrails.Anomaly.{Baselines, Finding, observe_delegation}
use adf.Tokens

pub record Firewall : Type 0 where
  pub config : Config
  pub storage : Memory
  -- the hash of the last audit row, once this firewall wrote one
  pub tail : Option String
  pub buckets : Buckets
  pub circuit : Circuit
  pub baselines : Baselines
  -- how often the clock was read and an id was drawn
  pub reads : ℕ
  pub ids : ℕ

-- `__init__`, on an empty storage
unfoldable pub new_firewall : Config → Firewall
new_firewall config = record {
  config = config;
  storage = empty_memory;
  tail = none;
  buckets = [];
  circuit = closed_circuit;
  baselines = [];
  reads = 0;
  ids = 0;
}

abbrev pub Fw : Type 0 → Type 0
Fw A = Exec Firewall A

-- a change of the storage, and one that may fail and then changes nothing
unfoldable pub write : (Memory → Memory) → Fw (Unit {0})
write f s = (ok tt, record s { storage = f s.storage })

abbrev pub stored : Firewall → Result Memory → Result (Unit {0}) × Firewall
stored s (ok m) = (ok tt, record s { storage = m })
stored s (err e) = (err e, s)

-- `f"{kind}:{uuid}"`
abbrev pub prefixed : String → String → String
prefixed kind id = String.◌++◌ kind (String.◌++◌ ":" id)

abbrev pub subject_stored_in : Firewall → Option (Subject × Memory) → Result Subject × Firewall
subject_stored_in s none = (err (key_error "subject"), s)
subject_stored_in s (some (subject, m)) = (ok subject, record s { storage = m })

unfoldable pub try_write : (Memory → Result Memory) → Fw (Unit {0})
try_write f s = stored s (f s.storage)

-- `is_revoked` of the storage
unfoldable pub ask_revoked : String → Fw Bool
ask_revoked jti s = (Storage.is_revoked s.storage jti, s)

-- `any` of the listed tokens, asked one by one
unfoldable pub any_revoked : List String → Fw Bool
any_revoked [] = pure false
any_revoked (jti ∷ jtis) =
    let rest = any_revoked jtis in do found ← ask_revoked jti; if found then pure true else rest

-- `ttl_seconds or default`: 0 counts as not given
abbrev pub or_default : Option ℕ → ℕ → ℕ
or_default none d = d
or_default (some zero) d = d
or_default (some (suc n)) d = suc n

module _ (env : Env) where
  unfoldable pub utcnow : Fw ℕ
  utcnow s = (ok (env.clock s.reads), record s { reads = s.reads + 1 })

  unfoldable pub utcnow_ts : Fw ℕ
  utcnow_ts = do now ← utcnow; pure (timestamp now)

  unfoldable pub fresh_id : Fw String
  fresh_id s = (ok (env.uuid4 s.ids), record s { ids = s.ids + 1 })

  unfoldable pub new_event : String → Fw AuditEvent
  new_event action = do now ← utcnow; pure (blank_event action (env.isoformat now))

  unfoldable pub log : AuditEvent → Fw (Unit {0})
  log e s =
      let (tail, m) = log_batch env (e ∷ []) s.tail s.storage in
      (ok tt, record s { tail = tail; storage = m })

  unfoldable pub spend_at : ℕ → String → String → Fw (Unit {0})
  spend_at now subject action s =
      let (r, d) = check_rate s.config now subject action s.buckets in (r, record s { buckets = d })

  -- `self._rate.check`, which reads no clock for an exempt subject
  unfoldable pub spend : String → String → Fw (Unit {0})
  spend subject action = do
    exempt ← gets (λ s. is_exempt s.config subject)
    when (not exempt) (do now ← utcnow; spend_at now subject action)

  unfoldable pub settle_outcome : ℕ → Bool → Option String → Bool → Fw (Option Trip)
  settle_outcome now error subject denial s =
      let (k, tripped) = record_outcome s.config now error subject denial s.circuit in
      (ok tripped, record s { circuit = k })

  -- the callback that audits the trip
  unfoldable pub audit_trip : Option Trip → Fw (Unit {0})
  audit_trip none = pure tt
  audit_trip (some t) = do
    e ← new_event "circuit_opened"
    text ← gets (λ s. env.trip_text s.config t)
    log (record e { decision = some "deny"; reason = some (truncate_reason text) })

  -- `self._circuit.record`
  unfoldable pub record_call : Bool → Option String → Bool → Fw (Unit {0})
  record_call error subject denial = do
    skipped ← gets (λ s. is_unrecorded s.config subject)
    when (not skipped)
        (do now ← utcnow; tripped ← settle_outcome now error subject denial; audit_trip tripped)

  -- `self._circuit.check`
  unfoldable pub require_closed : Fw (Unit {0})
  require_closed s = (check_circuit (env.trip_text s.config) s.circuit, s)

  unfoldable pub observe_at : ℕ → String → ℕ → Fw (List Finding)
  observe_at now subject scope_count s =
      let (d, findings) = observe_delegation s.config now subject scope_count s.baselines in
      (ok findings, record s { baselines = d })

  -- `self._anomaly.observe_delegation`
  unfoldable pub observe : String → ℕ → Fw (List Finding)
  observe subject scope_count = do now ← utcnow; observe_at now subject scope_count

  -- `get_or_create_subject`, which draws an id only for a new subject
  unfoldable pub store_subject : String → String → String → String → Fw Subject
  store_subject fresh hash kind label s =
      subject_stored_in s (get_or_create_subject (prefixed kind fresh) hash kind label s.storage)

  unfoldable pub resolve_subject : String → String → Fw Subject
  resolve_subject identifier kind = do
    hash ← gets (λ s. env.sha256 (String.◌++◌ identifier s.config.pii_salt))
    known ← gets (λ s. is_some (find_subject_id hash kind s.storage.subject_by_hash))
    fresh ← if known then pure "" else fresh_id
    subject ← store_subject fresh hash kind identifier
    modify
        (λ s. record s { config = register_exempt_subject identifier subject.subject_id s.config })
    pure subject

  -- `self._tokens.decode`
  unfoldable pub read_token : String → Fw (Result TokenClaims)
  read_token token = gets (λ s. Tokens.decode env s.config token false)
