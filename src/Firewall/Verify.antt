-- ===== src/Firewall/Verify.antt =====
-- agperms/src/agperms/firewall.py: `verify` and `require`. Latencies are left out.
pub mod Live
pub mod Decision
pub mod Complete
use adf.Prelude.{
  ℕ, String, Bool, true, false, not, Option, none, some, List, [], ◌∷◌, ltb, contains, ◌==◌,
  if◌then◌else◌,
}
use adf.Errors.{
  Error, Result, ok, err, denied, token_error, assertion_error, reason_expired, reason_revoked,
  reason_missing_token, reason_circuit_open, reason_scope_not_granted,
}
use adf.Exec.{Exec, pure, raise, lift, gets, when, ◌>>=◌, ◌>>◌}
use adf.Env.{Env}
use adf.Models.{TokenClaims, VerifyResult, or_denied, ancestor_jtis}
use adf.Firewall.{
  Firewall, Fw, ask_revoked, any_revoked, utcnow_ts, new_event, log, spend, record_call, read_token,
}

unfoldable pub refusal : String → Option TokenClaims → VerifyResult
refusal reason claims = record { valid = false; reason = some reason; claims = claims }

unfoldable pub allowed : TokenClaims → VerifyResult
allowed claims = record { valid = true; reason = none; claims = some claims }

-- `exc.reason`
abbrev pub reason_of : Error → String
reason_of (token_error reason) = reason
reason_of _ = ""

module _ (env : Env) where
  -- the inner function `deny`
  unfoldable pub deny_verify : TokenClaims → String → String → Fw VerifyResult
  deny_verify claims required_scope reason = do
    record_call env true (some claims.sub) true
    e ← new_event env "verify_denied"
    log env (record e {
      actor_id = some claims.sub;
      jti = some claims.jti;
      root_jti = some claims.root_jti;
      required_scope = some required_scope;
      scopes = some claims.scopes;
      decision = some "deny";
      reason = some reason;
      depth = some claims.depth;
    })
    pure (refusal reason (some claims))

  -- a forged or malformed token
  unfoldable pub deny_unread : Error → String → Fw VerifyResult
  deny_unread exc required_scope = do
    record_call env true none true
    e ← new_event env "verify_denied"
    log env (record e {
      required_scope = some required_scope;
      decision = some "deny";
      reason = some (reason_of exc);
    })
    pure (refusal (reason_of exc) none)

  unfoldable pub allow : TokenClaims → String → Fw VerifyResult
  allow claims required_scope = do
    record_call env false (some claims.sub) false
    e ← new_event env "verify_allowed"
    log env (record e {
      actor_id = some claims.sub;
      jti = some claims.jti;
      root_jti = some claims.root_jti;
      required_scope = some required_scope;
      scopes = some claims.scopes;
      decision = some "allow";
      depth = some claims.depth;
    })
    pure (allowed claims)

  unfoldable pub judge_scope : TokenClaims → String → Bool → Fw (Option String)
  judge_scope claims required_scope true = pure (some reason_revoked)
  judge_scope claims required_scope false =
      pure (if contains claims.scopes required_scope then none else some reason_scope_not_granted)

  unfoldable pub judge_ancestors : TokenClaims → String → Bool → Fw (Option String)
  judge_ancestors claims required_scope true = pure (some reason_revoked)
  judge_ancestors claims required_scope false = do
    lost ← any_revoked (ancestor_jtis claims)
    judge_scope claims required_scope lost

  -- every ancestor too: revoking a parent must kill its descendants
  unfoldable pub judge_live : TokenClaims → String → Fw (Option String)
  judge_live claims required_scope = do
    gone ← ask_revoked claims.jti
    judge_ancestors claims required_scope gone

  -- the checks behind the signature: expiry, the token's revocation, its ancestors', the scope
  unfoldable pub judge : TokenClaims → String → ℕ → Fw (Option String)
  judge claims required_scope now =
      if ltb claims.exp now then pure (some reason_expired) else judge_live claims required_scope

  unfoldable pub conclude : TokenClaims → String → Option String → Fw VerifyResult
  conclude claims required_scope none = allow claims required_scope
  conclude claims required_scope (some reason) = deny_verify claims required_scope reason

  unfoldable pub verify_claims : TokenClaims → String → Fw VerifyResult
  verify_claims claims required_scope = do
    spend env claims.sub "verify"
    now ← utcnow_ts env
    verdict ← judge claims required_scope now
    conclude claims required_scope verdict

  unfoldable pub verify_read : Result TokenClaims → String → Fw VerifyResult
  verify_read (err exc) required_scope = deny_unread exc required_scope
  verify_read (ok claims) required_scope = verify_claims claims required_scope

  unfoldable pub verify_present : Option String → String → Fw VerifyResult
  verify_present none required_scope = pure (refusal reason_missing_token none)
  verify_present (some token) required_scope =
      if token == ""
      then pure (refusal reason_missing_token none)
      else (do read ← read_token env token; verify_read read required_scope)

  unfoldable pub verify : Option String → String → Fw VerifyResult
  verify token required_scope = do
    opened ← gets (λ s. s.circuit.is_open)
    (if opened
        then pure (refusal reason_circuit_open none)
        else verify_present token required_scope)

  unfoldable pub claims_or_raise : VerifyResult → Fw TokenClaims
  claims_or_raise r =
      if r.valid
      then elim r.claims [ none ↦ raise assertion_error | some claims ↦ pure claims ]
      else raise (denied (or_denied r.reason))

  unfoldable pub require : Option String → String → Fw TokenClaims
  require token required_scope = do result ← verify token required_scope; claims_or_raise result
