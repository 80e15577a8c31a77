-- ===== src/Errors.antt =====
-- agperms/src/agperms/errors.py: the exceptions, as values, and the results of fallible functions.
-- The builtin `ValueError` and `KeyError`, which the program raises too, carry their message.
use adf.Prelude.{ℕ, String, Bool, true, false, Option, List}

-- the reasons of a denial
abbrev pub reason_expired : String
reason_expired = "expired"

abbrev pub reason_revoked : String
reason_revoked = "revoked"

abbrev pub reason_invalid_signature : String
reason_invalid_signature = "invalid_signature"

abbrev pub reason_scope_not_granted : String
reason_scope_not_granted = "scope_not_granted"

abbrev pub reason_circuit_open : String
reason_circuit_open = "circuit_open"

abbrev pub reason_malformed : String
reason_malformed = "malformed_token"

abbrev pub reason_missing_token : String
reason_missing_token = "missing_token"

pub data Error : Type 0 where
  value_error : String → Error
  key_error : String → Error
  configuration_error : String → Error
  storage_error : String → Error
  token_error : String → Error
  denied : String → Error
  -- requested scopes, scopes that the parent holds, scopes refused
  scope_escalation_denied : List String → List String → List String → Error
  depth_limit_exceeded : ℕ → ℕ → Error
  parent_token_invalid : String → Error
  root_chain_broken : String → Error
  -- approval id, requested scopes, sensitive scopes
  approval_required : String → List String → List String → Error
  -- subject, limit, window in seconds
  rate_limit_exceeded : String → ℕ → ℕ → Error
  circuit_open : Option String → Error
  assertion_error : Error
  runtime_error : String → Error
  -- `sqlalchemy.exc.IntegrityError`, where the storage lets it through
  integrity_error : Error
  -- an exception of the caller's own code, by its text
  caller_error : String → Error

pub data Result {ℓ} (A : Type ℓ) : Type ℓ where
  ok : A → Result A
  err : Error → Result A

infixl 5 ◌>>=◌ ◌>>◌
abbrev pub ◌>>=◌ {ℓ κ} : {A : Type ℓ} {B : Type κ} → Result A → (A → Result B) → Result B
ok a >>= f = f a
err e >>= f = err e

abbrev pub ◌>>◌ {ℓ κ} : {A : Type ℓ} {B : Type κ} → Result A → Result B → Result B
m >> n = m >>= λ _. n

-- the subclasses of `Denied`, which a caller's `except PermissionError` catches
unfoldable pub is_denial : Error → Bool
is_denial (denied r) = true
is_denial (scope_escalation_denied r a d) = true
is_denial (depth_limit_exceeded d m) = true
is_denial (parent_token_invalid r) = true
is_denial (root_chain_broken r) = true
is_denial (approval_required i r s) = true
is_denial (rate_limit_exceeded s l w) = true
is_denial (circuit_open d) = true
is_denial _ = false
