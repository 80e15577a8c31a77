-- ===== src/Service/Engine.antt =====
-- checkpoint_service/engine: the state behind a request, and the calls of its session: revocation.py,
-- subjects.py and the tables of delegation_engine.py. A request has one session, which db/session.py
-- commits or rolls back.
pub mod Guards
pub mod Tokens
pub mod Live
pub mod Mint
pub mod Delegate
pub mod Verify
use Prim.Native.String
use adf.Prelude.{
  ℕ, ◌+◌, String, Bool, true, false, not, Option, none, some, List, [], ◌∷◌, map, keep, is_some,
  ltb, ◌==◌, if◌then◌else◌,
}
use adf.Errors.{
  Error, Result, ok, err, integrity_error, rate_limit_exceeded, token_error, reason_expired,
  reason_invalid_signature, reason_malformed,
}
use adf.Exec.{Exec, pure, raise, lift, gets, modify, when, ◌>>=◌, ◌>>◌}
use adf.Time.{timestamp}
use adf.Json.{Json, str, dict}
use adf.Env.{
  Env, Decoded, payload, expired_signature, invalid_signature, decode_error, invalid_token,
}
use adf.Config.{Config, register_exempt_subject, is_exempt}
use adf.Models.{TokenClaims, TokenMetadata, Capability, PendingApproval, Subject}
use adf.Guardrails.Rate.{Buckets, window_seconds}
use adf.Guardrails.Rate
use adf.Guardrails.Circuit.{Circuit, Trip, record_outcome, is_unrecorded, check_circuit}
use adf.Guardrails.Anomaly.{Baselines, Finding, observe_delegation}
use adf.Audit.Rows.{AuditEvent, Row, blank_event}
use adf.Sql.Table.{Table, Edge}
use adf.Sql.Store.Logs.{named, first}
use adf.Tokens.{root_claims, child_claims}
use adf.Firewall.{prefixed}
use adf.Firewall.Mint.{metadata_of}
use adf.Service.AuditLogger.{AuditLogger}
use adf.Service.AuditLogger
use adf.Service.Revocation.{Backend, RevocationStore, Store, client_if, mirror_edge}
use adf.Service.Revocation

-- the tables, Redis, and the schema of the claims in pydantic
pub record Platform : Type 1 where
  pub backend : Backend
  pub tokens : Table TokenMetadata
  pub subjects : Table Subject
  pub approvals : Table PendingApproval
  pub audit : Table Row
  -- `TokenClaims.model_validate(payload)`, `none` where it raises, and `model_dump(mode="json")`
  pub model_validate : Json → Option TokenClaims
  pub model_dump : TokenClaims → Json

pub record Tables (p : Platform) : Type 0 where
  pub revocations : p.backend.revocations.State
  pub edges : p.backend.edges.State
  pub tokens : p.tokens.State
  pub subjects : p.subjects.State
  pub approvals : p.approvals.State

pub record Engine (p : Platform) : Type 0 where
  -- `Settings`, whose fields are those of `Config`
  pub settings : Config
  -- what the session sees, and what a rollback returns to
  pub tables : Tables p
  pub saved : Tables p
  pub client : Option p.backend.redis.State
  pub available : Bool
  pub audit : AuditLogger p.audit
  pub local_windows : Buckets
  pub circuit : Circuit
  pub baselines : Baselines
  -- how often the clock was read and an id was drawn
  pub reads : ℕ
  pub ids : ℕ

module _ (p : Platform) where
  abbrev pub Eng : Type 0 → Type 0
  Eng A = Exec (Engine p) A

  -- the revocation store in this session
  abbrev pub view : Engine p → Store p.backend
  view s = record {
    revocations = s.tables.revocations;
    edges = s.tables.edges;
    client = s.client;
    available = s.available;
  }

  abbrev pub with_view : Engine p → Store p.backend → Engine p
  with_view s x = record s {
    tables = record s.tables { revocations = x.revocations; edges = x.edges };
    client = x.client;
    available = x.available;
  }

  abbrev pub on_view : {A : Type 0} → Engine p → Result A × Store p.backend → Result A × Engine p
  on_view s (r, x) = (r, with_view s x)

  unfoldable pub rollback : Engine p → Engine p
  rollback s = record s { tables = s.saved }

  -- `session_scope` around a request
  abbrev pub scoped : {A : Type 0} → Result A × Engine p → Result A × Engine p
  unfolding rollback
  scoped (ok a, s) = (ok a, record s { saved = s.tables })
  scoped (err exc, s) = (err exc, rollback s)

  unfoldable pub session_scope : {A : Type 0} → Eng A → Eng A
  unfolding rollback
  session_scope action s = scoped (action (record s { saved = s.tables }))

  -- `self._revocation.is_revoked(jti, session)`
  unfoldable pub ask_revoked : String → Eng Bool
  ask_revoked jti s = on_view s (Revocation.is_revoked p.backend true jti (view s))

  unfoldable pub any_revoked : List String → Eng Bool
  any_revoked [] = pure false
  any_revoked (jti ∷ jtis) =
      let rest = any_revoked jtis in do found ← ask_revoked jti; if found then pure true else rest

  -- `record_edge`: where the edge is there already, the session is rolled back
  abbrev pub edge_flushed : String → String → Engine p → Option p.backend.edges.State → Engine p
  unfolding rollback
  edge_flushed parent_jti child_jti s (some _) =
      with_view s (Revocation.record_edge p.backend parent_jti child_jti (view s))
  edge_flushed parent_jti child_jti s none =
      let s' = rollback s in
      let x = view s' in
      with_view s'
        (mirror_edge p.backend parent_jti child_jti x (client_if p.backend x.available x.client))

  unfoldable pub record_edge : String → String → Eng (Unit {0})
  record_edge parent_jti child_jti s = (
    ok tt,
    edge_flushed parent_jti child_jti s (
        p.backend.edges.insert (record { parent_jti = parent_jti; child_jti = child_jti } ∷ [])
          s.tables.edges),
  )

  unfoldable pub find_subject : String → String → Engine p → Option Subject
  find_subject digest kind s =
      first (keep (named digest kind) (p.subjects.select s.tables.subjects))

  -- after a lost race the session is rolled back, and the winner's row counts
  abbrev pub raced : Engine p → Option Subject → Result Subject × Engine p
  raced s (some found) = (ok found, s)
  raced s none = (err integrity_error, s)

  abbrev pub subject_flushed :
      Subject → Engine p → Option p.subjects.State → Result Subject × Engine p
  unfolding rollback find_subject
  subject_flushed row s (some t) = (ok row, record s { tables = record s.tables { subjects = t } })
  subject_flushed row s none =
      raced (rollback s) (find_subject row.identifier_hash row.kind (rollback s))

  unfoldable pub create_subject : Subject → Eng Subject
  create_subject row s = subject_flushed row s (p.subjects.insert (row ∷ []) s.tables.subjects)

  abbrev pub token_flushed : Engine p → Option p.tokens.State → Result (Unit {0}) × Engine p
  token_flushed s none = (err integrity_error, s)
  token_flushed s (some t) = (ok tt, record s { tables = record s.tables { tokens = t } })

  -- `_persist_token`
  unfoldable pub persist_token : Capability → Option String → Eng (Unit {0})
  persist_token minted parent_jti s =
      token_flushed s (p.tokens.insert (metadata_of minted.claims parent_jti ∷ []) s.tables.tokens)

  abbrev pub approval_flushed : Engine p → Option p.approvals.State → Result (Unit {0}) × Engine p
  approval_flushed s none = (err integrity_error, s)
  approval_flushed s (some t) = (ok tt, record s { tables = record s.tables { approvals = t } })

  unfoldable pub add_approval : PendingApproval → Eng (Unit {0})
  add_approval row s = approval_flushed s (p.approvals.insert (row ∷ []) s.tables.approvals)
