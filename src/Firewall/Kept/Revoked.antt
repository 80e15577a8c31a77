-- ===== src/Firewall/Kept/Revoked.antt =====
-- Revocations and token records in a run of calls.
use adf.Prelude.{String, true, ◌≡◌, ap, ◌∙◌, some, List, lookup, has_key}
use adf.Env.{Env}
use adf.Models.{TokenMetadata}
use adf.Storage.{Memory, append_audit_batch}
use adf.Audit.{log_batch}
use adf.Firewall.{Firewall, log}
use adf.Firewall.Steps.{Stable}
use adf.Firewall.Run.{Step, run}
use adf.Firewall.Kept.Changes.{Change-Grows}
use adf.Firewall.Kept.Runs.{run-keeps}

module _ (env : Env) where
  revoked_stable : (jti : String) → Stable env (λ s. has_key jti s.storage.revoked ≡ true)
  unfolding log log_batch append_audit_batch
  revoked_stable jti = record {
    quiet = λ s t same tails p. ap (λ (m : Memory). has_key jti m.revoked) same ∙ p;
    changed = λ s m c p. (Change-Grows c).revoked jti p;
    logged = λ s e p. p;
  }

  -- A revoked token stays revoked, whatever the firewall is asked to do afterwards.
  pub run-revoked :
      (ts : List Step) (s : Firewall) (jti : String)
      → has_key jti s.storage.revoked ≡ true
      → has_key jti (run env ts s).storage.revoked ≡ true
  run-revoked ts s jti p = run-keeps env (revoked_stable jti) ts s p

  recorded_stable :
      (jti : String) (meta : TokenMetadata)
      → Stable env (λ s. lookup jti s.storage.tokens ≡ some meta)
  unfolding log log_batch append_audit_batch
  recorded_stable jti meta = record {
    quiet = λ s t same tails p. ap (λ (m : Memory). lookup jti m.tokens) same ∙ p;
    changed = λ s m c p. (Change-Grows c).tokens jti meta p;
    logged = λ s e p. p;
  }

  -- The record of a token never changes: its scopes, its expiry and its chain stay as they were
  -- when it was minted.
  pub run-recorded :
      (ts : List Step) (s : Firewall) (jti : String) (meta : TokenMetadata)
      → lookup jti s.storage.tokens ≡ some meta
      → lookup jti (run env ts s).storage.tokens ≡ some meta
  run-recorded ts s jti meta p = run-keeps env (recorded_stable jti meta) ts s p
