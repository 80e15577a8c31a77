-- ===== src/Tokens.antt =====
-- agperms/src/agperms/_tokens.py: `TokenEngine`. Fresh ids and clock readings are arguments.
pub mod Issue
use Prim.Native.String
use adf.Prelude.{
  ℕ, ◌+◌, String, Bool, true, false, Option, none, some, List, [], ◌∷◌, ◌++◌, sorted_set, ◌==◌,
  if◌then◌else◌,
}
use adf.Errors.{
  Result, ok, err, token_error, reason_expired, reason_invalid_signature, reason_malformed,
}
use adf.Json.{Json}
use adf.Env.{
  Env, Decoded, payload, expired_signature, invalid_signature, decode_error, invalid_token,
}
use adf.Config.{Config}
use adf.Models.{DelegationChainEntry, TokenClaims, Capability}
use adf.Models.Payload.{to_payload, from_payload}

-- the claims of `mint_root`
unfoldable pub root_claims : Config → String → ℕ → String → List String → ℕ → ℕ → TokenClaims
root_claims c jti now subject_id scopes ttl_seconds max_depth = record {
  jti = jti;
  sub = subject_id;
  iss = c.issuer;
  issued_for = subject_id;
  scopes = sorted_set scopes;
  depth = 0;
  max_depth = max_depth;
  iat = now;
  exp = now + ttl_seconds;
  root_jti = jti;
  delegation_chain = [];
  approval_required = false;
  approved_by = none;
}

-- `chain_entry_for`; `ts` is `iso(utcnow())`
unfoldable pub chain_entry_for : String → TokenClaims → DelegationChainEntry
chain_entry_for ts claims = record {
  agent_id = claims.sub;
  jti = claims.jti;
  scopes = sorted_set claims.scopes;
  ts = ts;
}

-- the claims of `mint_child`
unfoldable pub child_claims :
    Config
    → String
    → ℕ
    → String
    → TokenClaims
    → String
    → List String
    → ℕ
    → Bool
    → Option String
    → TokenClaims
unfolding chain_entry_for
child_claims c jti now ts parent child_subject_id scopes exp approval_required approved_by =
    record {
      jti = jti;
      sub = child_subject_id;
      iss = c.issuer;
      issued_for = String.◌++◌ "agent:" parent.jti;
      scopes = sorted_set scopes;
      depth = parent.depth + 1;
      max_depth = parent.max_depth;
      iat = now;
      exp = exp;
      root_jti = parent.root_jti;
      delegation_chain = parent.delegation_chain ++ chain_entry_for ts parent ∷ [];
      approval_required = approval_required;
      approved_by = approved_by;
    }

module _ (env : Env) (c : Config) where
  -- `_encode`
  unfoldable pub encode : TokenClaims → String
  encode claims = env.jwt_encode (to_payload claims) c.jwt_secret c.jwt_algorithm

  unfoldable pub issue : TokenClaims → Capability
  unfolding encode
  issue claims = record { token = encode claims; claims = claims }

  -- the `except` clauses of `decode`
  unfoldable pub read_decoded : Decoded → Result TokenClaims
  read_decoded (payload v) = from_payload env v
  read_decoded expired_signature = err (token_error reason_expired)
  read_decoded invalid_signature = err (token_error reason_invalid_signature)
  read_decoded decode_error = err (token_error reason_invalid_signature)
  read_decoded invalid_token = err (token_error reason_malformed)

  unfoldable pub decode : String → Bool → Result TokenClaims
  unfolding read_decoded
  decode token verify_exp =
      if token == ""
      then err (token_error reason_malformed)
      else read_decoded (env.jwt_decode token c.jwt_secret c.jwt_algorithm c.issuer verify_exp)
