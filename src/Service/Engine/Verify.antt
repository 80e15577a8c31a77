-- ===== src/Service/Engine/Verify.antt =====
-- checkpoint_service/engine/delegation_engine.py: `verify`. Latencies are left out.
pub mod Granted
use adf.Prelude.{
  ℕ, String, Bool, true, false, Option, none, some, List, ltb, contains, if◌then◌else◌,
}
use adf.Errors.{
  Error, Result, ok, err, token_error, reason_expired, reason_revoked, reason_circuit_open,
  reason_scope_not_granted,
}
use adf.Exec.{Exec, pure, gets, ◌>>=◌, ◌>>◌}
use adf.Env.{Env}
use adf.Models.{TokenClaims, VerifyResult, ancestor_jtis}
use adf.Firewall.Verify.{refusal, allowed, reason_of}
use adf.Service.Engine.{Platform, Engine, Eng, ask_revoked, any_revoked}
use adf.Service.Engine.Guards.{utcnow_ts, new_event, log, spend, record_call}
use adf.Service.Engine.Tokens.{read_token}

module _ (env : Env) (p : Platform) where
  -- the inner function `deny`
  unfoldable pub deny : TokenClaims → String → String → Eng p VerifyResult
  deny claims required_scope reason = do
    record_call env p true (some claims.sub) true
    e ← new_event env p "verify_denied"
    log env p (record e {
      actor_id = some claims.sub;
      jti = some claims.jti;
      root_jti = some claims.root_jti;
      required_scope = some required_scope;
      scopes = some claims.scopes;
      decision = some "deny";
      reason = some reason;
      depth = some claims.depth;
    })
    pure (refusal reason (some claims))

  -- a forged or malformed token
  unfoldable pub deny_unread : Error → String → Eng p VerifyResult
  deny_unread exc required_scope = do
    record_call env p true none true
    e ← new_event env p "verify_denied"
    log env p (record e {
      required_scope = some required_scope;
      decision = some "deny";
      reason = some (reason_of exc);
    })
    pure (refusal (reason_of exc) none)

  unfoldable pub allow : TokenClaims → String → Eng p VerifyResult
  allow claims required_scope = do
    record_call env p false (some claims.sub) false
    e ← new_event env p "verify_success"
    log env p (record e {
      actor_id = some claims.sub;
      jti = some claims.jti;
      root_jti = some claims.root_jti;
      required_scope = some required_scope;
      scopes = some claims.scopes;
      decision = some "allow";
      depth = some claims.depth;
    })
    pure (allowed claims)

  unfoldable pub judge_scope : TokenClaims → String → Bool → Eng p (Option String)
  judge_scope claims required_scope true = pure (some reason_revoked)
  judge_scope claims required_scope false =
      pure (if contains claims.scopes required_scope then none else some reason_scope_not_granted)

  unfoldable pub judge_ancestors : TokenClaims → String → Bool → Eng p (Option String)
  judge_ancestors claims required_scope true = pure (some reason_revoked)
  judge_ancestors claims required_scope false = do
    lost ← any_revoked p (ancestor_jtis claims)
    judge_scope claims required_scope lost

  unfoldable pub judge_live : TokenClaims → String → Eng p (Option String)
  judge_live claims required_scope = do
    gone ← ask_revoked p claims.jti
    judge_ancestors claims required_scope gone

  -- the checks 3 to 5: the reason of the first that fails
  unfoldable pub judge : TokenClaims → String → ℕ → Eng p (Option String)
  judge claims required_scope now =
      if ltb claims.exp now then pure (some reason_expired) else judge_live claims required_scope

  unfoldable pub conclude : TokenClaims → String → Option String → Eng p VerifyResult
  conclude claims required_scope none = allow claims required_scope
  conclude claims required_scope (some reason) = deny claims required_scope reason

  unfoldable pub verify_claims : TokenClaims → String → Eng p VerifyResult
  verify_claims claims required_scope = do
    spend env p claims.sub "verify"
    now ← utcnow_ts env p
    verdict ← judge claims required_scope now
    conclude claims required_scope verdict

  unfoldable pub verify_read : Result TokenClaims → String → Eng p VerifyResult
  verify_read (err exc) required_scope = deny_unread exc required_scope
  verify_read (ok claims) required_scope = verify_claims claims required_scope

  unfoldable pub verify : String → String → Eng p VerifyResult
  verify token required_scope = do
    opened ← gets (λ s. s.circuit.is_open)
    (if opened
        then pure (refusal reason_circuit_open none)
        else (do read ← read_token env p token; verify_read read required_scope))
