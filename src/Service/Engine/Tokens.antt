-- ===== src/Service/Engine/Tokens.antt =====
-- checkpoint_service/engine/token_engine.py: the claims are those of agperms/src/agperms/_tokens.py.
use adf.Prelude.{ℕ, String, Bool, false, Option, none, some, List}
use adf.Errors.{
  Result, ok, err, token_error, reason_expired, reason_invalid_signature, reason_malformed,
}
use adf.Exec.{gets, ◌>>=◌}
use adf.Env.{
  Env, Decoded, payload, expired_signature, invalid_signature, decode_error, invalid_token,
}
use adf.Config.{Config}
use adf.Models.{TokenClaims, Capability}
use adf.Tokens.{root_claims, child_claims}
use adf.Service.Engine.{Platform, Eng}
use adf.Service.Engine.Guards.{utcnow, utcnow_ts, fresh_id}

module _ (env : Env) (p : Platform) where
  -- `TokenEngine._encode`, in the token that carries the claims
  unfoldable pub issue : Config → TokenClaims → Capability
  issue c claims = record {
    token = env.jwt_encode (p.model_dump claims) c.jwt_secret c.jwt_algorithm;
    claims = claims;
  }

  -- `TokenEngine.mint_root`
  unfoldable pub issue_root : String → List String → ℕ → ℕ → Eng p Capability
  issue_root subject_id scopes ttl_seconds max_depth = do
    jti ← fresh_id env p
    now ← utcnow_ts env p
    gets (λ s.
        issue s.settings (root_claims s.settings jti now subject_id scopes ttl_seconds max_depth))

  -- `TokenEngine.mint_child`
  unfoldable pub issue_child :
      TokenClaims → String → List String → ℕ → Bool → Option String → Eng p Capability
  issue_child parent child_subject_id scopes exp approval_required approved_by = do
    now ← utcnow_ts env p
    stamp ← utcnow env p
    jti ← fresh_id env p
    gets (λ s. issue s.settings (
        child_claims s.settings jti now (env.isoformat stamp) parent child_subject_id scopes exp
          approval_required approved_by))

  abbrev pub validated : Option TokenClaims → Result TokenClaims
  validated none = err (token_error reason_malformed)
  validated (some claims) = ok claims

  unfoldable pub read_decoded : Decoded → Result TokenClaims
  read_decoded (payload v) = validated (p.model_validate v)
  read_decoded expired_signature = err (token_error reason_expired)
  read_decoded invalid_signature = err (token_error reason_invalid_signature)
  read_decoded decode_error = err (token_error reason_invalid_signature)
  read_decoded invalid_token = err (token_error reason_malformed)

  -- `TokenEngine.decode`, with `verify_exp=False`
  unfoldable pub decode : Config → String → Result TokenClaims
  unfolding read_decoded
  decode c token = read_decoded (env.jwt_decode token c.jwt_secret c.jwt_algorithm c.issuer false)

  unfoldable pub read_token : String → Eng p (Result TokenClaims)
  unfolding decode
  read_token token = gets (λ s. decode s.settings token)
