-- ===== src/Tests/Rules.antt =====
-- The theorems on the guardrails, the tokens, the models and the policy.
use adf.Prelude.{
  ℕ, Bool, ◌-◌, ◌*◌, ◌<◌, true, false, ◌≡◌, ◌≢◌, ◌↔◌, ◌⊎◌, refl, ◌==◌, if◌then◌else◌, none, some,
  List, [], ◌∷◌, ◌++◌, lookup, length, arith, eq_iff,
}
use adf.Tests.{program}
use adf.Tests.Data.{world, settings, child_claims}
use adf.Errors.{ok, err, token_error, reason_invalid_signature, reason_malformed}
use adf.Time.{second}
use adf.Config.{Config, validate_config, is_exempt}
use adf.Models.Payload.{to_payload, from_payload}
use adf.Models.Payload.RoundTrip.{from-to_payload}
use adf.Tokens.{issue, decode}
use adf.Tokens.Issue.{IsSigned, decode-issue}
use adf.Guardrails.Rate.{bucket_of, rate_key, check_rate, limit_for, window_seconds}
use adf.Guardrails.Rate.Budget.{Tracks, Tracks-empty, since, check_rate-Tracks}
use adf.Guardrails.Circuit.{Circuit, closed_circuit, is_unrecorded, record_outcome, call_volume}
use adf.Guardrails.Circuit.Window.{Follows, recent, cutoff_of}
use adf.Guardrails.Circuit.Trips.{IsSettled, errors_in, record_outcome-opens}
use adf.Guardrails.Circuit.Denials.{Outcome, IsQuiet}

agent_not_exempt : is_exempt settings "agent:1" ≡ false
unfolding program
agent_not_exempt = refl

no_calls : Tracks 0 (bucket_of (lookup (rate_key "verify" "agent:1") [])) []
unfolding program
no_calls = Tracks-empty

check_rate-Tracks_example :
    ((check_rate settings 5 "agent:1" "verify" []).0 ≡ ok tt
      ↔ (length (since (5 - window_seconds * second) []) < limit_for settings "verify"))
    × Tracks 5
        (bucket_of
          (lookup (rate_key "verify" "agent:1") (check_rate settings 5 "agent:1" "verify" []).1))
        ([] ++ 5 ∷ [])
check_rate-Tracks_example =
    check_rate-Tracks settings 0 5 "agent:1" "verify" [] [] (omega arith) agent_not_exempt no_calls

abbrev opened_circuit : Circuit
opened_circuit = record {
  events = [];
  is_open = true;
  opened_at = some 3;
  reason = some (call_volume 9);
}

-- a policy that trips at the first error
abbrev touchy : Config
touchy = record settings { circuit_min_samples = 1 }

touchy_opens : (record_outcome touchy 7 true none false closed_circuit).0.is_open ≡ true
unfolding program
touchy_opens = refl

-- an error at time 0, which the books have dropped by the hour
abbrev long_ago : List (ℕ × Bool)
long_ago = (0, true) ∷ []

abbrev hour : ℕ
hour = 3600 * second

long_ago-Follows : Follows touchy hour closed_circuit.events long_ago
unfolding program
long_ago-Follows = record { ordered = tt; past = tt; window = λ cutoff h. ground arith }

none_recorded : is_unrecorded touchy none ≡ false
unfolding program
none_recorded = refl

record_outcome-opens_example :
    let told = long_ago ++ (hour, true) ∷ [] in
    let window = recent (cutoff_of touchy hour) told in
    IsSettled touchy hour
      (length window)
      (errors_in window)
      closed_circuit
      (record_outcome touchy hour true none false closed_circuit)
    × Follows touchy hour (record_outcome touchy hour true none false closed_circuit).0.events told
record_outcome-opens_example =
    record_outcome-opens touchy hour hour true none false closed_circuit long_ago (omega arith)
      none_recorded refl long_ago-Follows

abbrev denials : List Outcome
denials =
    record { now = 1; error = true; subject = some "agent:1"; denial = true }
    ∷ record { now = 2; error = false; subject = none; denial = false }
    ∷ []

closed-IsQuiet : IsQuiet touchy closed_circuit
unfolding program
closed-IsQuiet = record { errors = refl; volume = λ h. ground arith }

from-to_payload_example : from_payload world (to_payload child_claims) ≡ ok child_claims
from-to_payload_example = from-to_payload world child_claims

-- a signer and a reader that know one token of one key and issuer
abbrev signer : adf.Env.Env
signer = record world {
  jwt_encode = λ v secret algorithm. if secret == "secret" then "signed" else "";
  jwt_decode = λ token secret algorithm issuer verify_exp.
      if token == "signed"
      then if secret == "secret"
        then if issuer == "agperms"
          then adf.Env.payload (to_payload child_claims)
          else adf.Env.invalid_token
        else adf.Env.invalid_signature
      else adf.Env.decode_error;
}

signer-IsSigned :
    IsSigned signer (to_payload child_claims) settings.jwt_secret settings.jwt_algorithm
unfolding program
signer-IsSigned = record {
  nonempty = λ h. ground (arith, eq_iff "signed" "");
  reads = λ issuer h. ground (arith, eq_iff issuer "agperms");
  forged = λ other issuer h. ground (arith, eq_iff other "secret");
  foreign = λ issuer h. ground (arith, eq_iff issuer "agperms");
}

-- another service that trusts another issuer
abbrev elsewhere : Config
elsewhere = record settings { issuer = "other" }

decode-issue_example :
    let minted = issue signer settings child_claims in
    let decoded = decode signer elsewhere minted.token false in
    (minted.claims ≡ child_claims)
    × ((elsewhere.jwt_secret ≡ settings.jwt_secret)
          × (elsewhere.issuer ≡ child_claims.iss)
          × (decoded ≡ ok child_claims)
        ⊎ (elsewhere.jwt_secret ≢ settings.jwt_secret)
          × (decoded ≡ err (token_error reason_invalid_signature))
        ⊎ (elsewhere.jwt_secret ≡ settings.jwt_secret)
          × (elsewhere.issuer ≢ child_claims.iss)
          × (decoded ≡ err (token_error reason_malformed)))
decode-issue_example = decode-issue signer settings elsewhere child_claims refl signer-IsSigned

settings_valid : validate_config "s" "p" settings ≡ ok settings
unfolding program
settings_valid = refl
