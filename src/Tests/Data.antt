-- ===== src/Tests/Data.antt =====
-- The outside world and the firewall that the examples start from: a root token, a child token that was
-- delegated from it, a pending request and an action that is still open.
use adf.Prelude.{ℕ, zero, suc, ◌+◌, ◌*◌, String, false, none, some, [], ◌∷◌, ◌==◌, if◌then◌else◌}
use Prim.Native.String
use adf.Json.{Json, obj, field, str}
use adf.Env.{Env, Decoded, payload, invalid_signature}
use adf.Config.{Config, default_config}
use adf.Models.{
  TokenClaims, TokenMetadata, DelegationChainEntry, PendingApproval, ActionRecord, compensable,
}
use adf.Models.Payload.{to_payload}
use adf.Time.{second}
use adf.Storage.{Memory, empty_memory}
use adf.Firewall.{Firewall}

abbrev pub root_claims : TokenClaims
root_claims = record {
  jti = "root";
  sub = "human:1";
  iss = "agperms";
  issued_for = "human:1";
  scopes = "read" ∷ "send_email" ∷ "write" ∷ [];
  depth = 0;
  max_depth = 3;
  iat = 0;
  exp = 5000;
  root_jti = "root";
  delegation_chain = [];
  approval_required = false;
  approved_by = none;
}

abbrev pub root_entry : DelegationChainEntry
root_entry = record { agent_id = "human:1"; jti = "root"; scopes = root_claims.scopes; ts = "t" }

abbrev pub child_claims : TokenClaims
child_claims = record {
  jti = "child";
  sub = "agent:1";
  iss = "agperms";
  issued_for = "agent:root";
  scopes = "read" ∷ [];
  depth = 1;
  max_depth = 3;
  iat = 0;
  exp = 5000;
  root_jti = "root";
  delegation_chain = root_entry ∷ [];
  approval_required = false;
  approved_by = none;
}

abbrev pub decoded_token : String → Decoded
decoded_token token =
    if token == "root-token"
    then payload (to_payload root_claims)
    else if token == "child-token"
    then payload (to_payload child_claims)
    else invalid_signature

abbrev pub marks : ℕ → String
marks zero = "i"
marks (suc n) = String.◌++◌ "i" (marks n)

-- the text of an object is the text of its first field
abbrev pub first_text : Json → String
first_text (obj (field k (str s) rest)) = s
first_text _ = ""

-- The hash is the text itself, so it has no collisions; only the two tokens decode.
abbrev pub world : Env
world = record {
  clock = λ k. 1000 * second + k;
  uuid4 = marks;
  sha256 = λ text. text;
  dumps = first_text;
  repr = λ v. "";
  int_of_text = λ text. none;
  isoformat = λ t. "t";
  fromisoformat = λ text. if text == "t" then some 1000 else none;
  trip_text = λ c t. "";
  finding_text = λ fs. "";
  error_text = λ e. "boom";
  jwt_encode = λ v secret algorithm. "new-token";
  jwt_decode = λ token secret algorithm issuer verify_exp. decoded_token token;
}

abbrev pub settings : Config
settings = record default_config { jwt_secret = "secret"; pii_salt = "salt" }

abbrev pub root_record : TokenMetadata
root_record = record {
  jti = "root";
  subject_id = "human:1";
  parent_jti = none;
  root_jti = "root";
  depth = 0;
  max_depth = 3;
  scopes = root_claims.scopes;
  delegation_chain = [];
  issued_at = 0;
  expires_at = 5000 * second;
  approval_required = false;
  approved_by = none;
}

abbrev pub request : PendingApproval
request = record {
  approval_id = "r1";
  parent_jti = "root";
  parent_subject_id = "human:1";
  child_agent_id = "agent-x";
  child_subject_id = "agent:2";
  requested_scopes = "send_email" ∷ [];
  sensitive_scopes = "send_email" ∷ [];
  ttl_seconds = 60;
  parent_exp = 5000;
  status = "pending";
  created_at = 0;
  expires_at = 2000 * second;
  decided_at = none;
  approved_by = none;
  child_jti = none;
  child_token = none;
  collected = false;
}

abbrev pub open_record : ActionRecord
open_record = record {
  action_id = "a1";
  jti = "child";
  subject_id = "agent:1";
  name = "sync";
  scope = "read";
  started_at = 7;
  finished_at = none;
  state = none;
  failure_reason = none;
  reversibility = compensable;
}

abbrev pub stocked : Memory
stocked = record empty_memory {
  tokens = ("root", root_record) ∷ [];
  edges = ("root", "child" ∷ []) ∷ [];
  approvals = ("r1", request) ∷ [];
  actions = ("a1", open_record) ∷ [];
  actions_by_jti = ("child", "a1" ∷ []) ∷ [];
}

abbrev pub start : Firewall
start = record {
  config = settings;
  storage = stocked;
  tail = none;
  buckets = [];
  circuit = record { events = []; is_open = false; opened_at = none; reason = none };
  baselines = [];
  reads = 0;
  ids = 0;
}
