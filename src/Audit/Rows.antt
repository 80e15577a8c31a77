-- ===== src/Audit/Rows.antt =====
-- agperms/src/agperms/_audit.py: `AuditEvent`, and the row that stores one. The latency, which is
-- not hashed, is left out.
use adf.Prelude.{ℕ, String, Option, none, List}
use adf.Json.{Json}

pub record AuditEvent : Type 0 where
  pub action : String
  pub actor_id : Option String
  pub actor_hash : Option String
  pub jti : Option String
  pub parent_jti : Option String
  pub root_jti : Option String
  pub scopes : Option (List String)
  pub denied_scopes : Option (List String)
  pub required_scope : Option String
  pub decision : Option String
  pub reason : Option String
  pub depth : Option ℕ
  pub detail : Option Json
  pub event_ts : String

-- `AuditEvent(action=..., event_ts=...)`, every other field `None`
unfoldable pub blank_event : String → String → AuditEvent
blank_event action ts = record {
  action = action;
  actor_id = none;
  actor_hash = none;
  jti = none;
  parent_jti = none;
  root_jti = none;
  scopes = none;
  denied_scopes = none;
  required_scope = none;
  decision = none;
  reason = none;
  depth = none;
  detail = none;
  event_ts = ts;
}

pub record Row : Type 0 where
  pub id : ℕ
  pub event : AuditEvent
  pub prev_hash : String
  pub row_hash : String

unfoldable pub row_with_id : ℕ → Row → Row
row_with_id n row = record row { id = n }
