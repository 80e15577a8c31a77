-- ===== src/Env.antt =====
-- What the program takes from outside: the clock, random ids, hashing, JSON text and PyJWT.
use adf.Prelude.{ℕ, String, Bool, Option, List}
use adf.Config.{Config}
use adf.Guardrails.Circuit.{Trip}
use adf.Guardrails.Anomaly.{Finding}
use adf.Errors.{Error}
use adf.Json.{Json}

-- What `jwt.decode` answers: a payload, or one of the exceptions that `TokenEngine.decode` tells
-- apart.
pub data Decoded : Type 0 where
  payload : Json → Decoded
  expired_signature invalid_signature decode_error invalid_token : Decoded

-- The clock counts microseconds from the epoch. Each reading of the clock and each fresh id has an
-- index, which the state counts, so two readings in one call may differ.
pub record Env : Type 0 where
  pub clock : ℕ → ℕ
  pub uuid4 : ℕ → String
  -- `hashlib.sha256(text.encode()).hexdigest()`
  pub sha256 : String → String
  -- `json.dumps(value, sort_keys=True, separators=(",", ":"), default=str)`
  pub dumps : Json → String
  -- Python's text of a value that is no text
  pub repr : Json → String
  -- `int(text)`, if the text reads as a number
  pub int_of_text : String → Option ℕ
  -- `as_utc(t).isoformat()`
  pub isoformat : ℕ → String
  -- `as_utc(datetime.fromisoformat(text))`, where the text reads as a time
  pub fromisoformat : String → Option ℕ
  -- the texts that name an error rate, a call volume or an anomaly, with their decimal fractions
  pub trip_text : Config → Trip → String
  pub finding_text : List Finding → String
  -- `f"{type(exc).__name__}: {exc}"`
  pub error_text : Error → String
  -- payload, secret, algorithm
  pub jwt_encode : Json → String → String → String
  -- token, secret, algorithm, issuer, verify_exp
  pub jwt_decode : String → String → String → String → Bool → Decoded
