-- ===== src/Tests/Served.antt =====
-- The theorems on the engine of the service, at the tokens of the examples.
use adf.Prelude.{true, ◌≡◌, refl, Option, none, some, [], ◌∷◌}
use adf.Errors.{Result, ok, err}
use adf.Guardrails.Circuit.{closed_circuit}
use adf.Models.{TokenClaims, VerifyResult, Capability}
use adf.Models.Payload.{to_payload, from_payload}
use adf.Service.Engine.{Platform, Engine}
use adf.Service.Engine.Delegate.{Delegated, minted, delegate}
use adf.Service.Engine.Delegate.Narrowing.{IsNarrowedFrom, service_delegate-IsNarrowed}
use adf.Service.Engine.Verify.{verify}
use adf.Service.Engine.Verify.Granted.{IsGranted, service_verify-IsGranted}
use adf.Tests.{program}
use adf.Tests.Data.{world, settings, root_record, child_claims}
use adf.Tests.Tables.{keyed, keyed-IsKeyed}
use adf.Tests.Mirrored.{backend, server-IsRedis, running, running-Mirrors}
use adf.Tests.Logged.{open_table}

abbrev if_ok : Result TokenClaims → Option TokenClaims
if_ok (ok claims) = some claims
if_ok (err exc) = none

abbrev platform : Platform
platform = record {
  backend = backend;
  tokens = keyed (λ r. r.jti);
  subjects = keyed (λ r. r.subject_id);
  approvals = keyed (λ r. r.approval_id);
  audit = open_table;
  model_validate = λ v. if_ok (from_payload world v);
  model_dump = to_payload;
}

-- the root and its child, over the tables and the Redis of the examples on revocation
abbrev serving : Engine platform
serving = record {
  settings = settings;
  tables = record {
    revocations = running.revocations;
    edges = running.edges;
    tokens = root_record ∷ [];
    subjects = [];
    approvals = [];
  };
  saved = record {
    revocations = running.revocations;
    edges = running.edges;
    tokens = root_record ∷ [];
    subjects = [];
    approvals = [];
  };
  client = running.client;
  available = running.available;
  audit = record { table = []; buffer = []; buffer_max_size = 3; tail_hash = none };
  local_windows = [];
  circuit = closed_circuit;
  baselines = [];
  reads = 0;
  ids = 0;
}

abbrev granted : VerifyResult
granted = record { valid = true; reason = none; claims = some child_claims }

served_verify :
    verify world platform "child-token" "read" serving
    ≡ (ok granted, (verify world platform "child-token" "read" serving).1)
unfolding program
served_verify = refl

service_verify-IsGranted_example :
    (c : TokenClaims) × (granted.claims ≡ some c)
    × IsGranted world platform
        (keyed-IsKeyed (λ r. r.jti))
        server-IsRedis
        serving
        "child-token"
        "read"
        c
service_verify-IsGranted_example =
    service_verify-IsGranted world platform (keyed-IsKeyed (λ r. r.jti)) server-IsRedis
      "child-token" "read" serving (verify world platform "child-token" "read" serving).1 granted
      running-Mirrors served_verify refl

abbrev child_of : Result Delegated → Capability
child_of (ok (minted child)) = child
child_of _ = record { token = ""; claims = child_claims }

abbrev new_child : Capability
new_child = child_of (delegate world platform "root-token" "agent-y" ("read" ∷ []) 60 serving).0

served_delegate : delegate world platform "root-token" "agent-y" ("read" ∷ []) 60 serving ≡ (
  ok (minted new_child),
  (delegate world platform "root-token" "agent-y" ("read" ∷ []) 60 serving).1,
)
unfolding program
served_delegate = refl

service_delegate-IsNarrowed_example :
    IsNarrowedFrom world platform
      (keyed-IsKeyed (λ r. r.jti))
      server-IsRedis
      serving
      "root-token"
      ("read" ∷ [])
      new_child
service_delegate-IsNarrowed_example =
    service_delegate-IsNarrowed world platform (keyed-IsKeyed (λ r. r.jti)) server-IsRedis serving
      "root-token" "agent-y" ("read" ∷ []) 60
      (delegate world platform "root-token" "agent-y" ("read" ∷ []) 60 serving).1 new_child
      running-Mirrors served_delegate
