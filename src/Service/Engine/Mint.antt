-- ===== src/Service/Engine/Mint.antt =====
-- checkpoint_service/engine/delegation_engine.py: `mint_root` and `revoke`.
use adf.Prelude.{ℕ, String, Option, none, some, List, [], ◌∷◌, min, length}
use adf.Exec.{pure, gets, ◌>>=◌, ◌>>◌}
use adf.Json.{int, strs, dict}
use adf.Env.{Env}
use adf.Models.{Capability}
use adf.Firewall.{or_default}
use adf.Service.Engine.{Platform, Eng, on_view, view, persist_token}
use adf.Service.Engine.Guards.{utcnow, new_event, log, resolve_or_create}
use adf.Service.Engine.Tokens.{issue_root}
use adf.Service.Revocation

module _ (env : Env) (p : Platform) where
  unfoldable pub mint_root : String → List String → ℕ → Option ℕ → Eng p Capability
  mint_root human_id scopes ttl_seconds max_depth = do
    subject ← resolve_or_create env p human_id "human"
    effective_depth ← gets (λ s. or_default max_depth s.settings.max_delegation_depth)
    ttl ← gets (λ s. min ttl_seconds s.settings.max_ttl_seconds)
    minted ← issue_root env p subject.subject_id scopes ttl effective_depth
    persist_token p minted none
    e ← new_event env p "root_token_minted"
    log env p (record e {
      actor_id = some subject.subject_id;
      actor_hash = some subject.identifier_hash;
      jti = some minted.claims.jti;
      root_jti = some minted.claims.jti;
      scopes = some minted.claims.scopes;
      depth = some 0;
      decision = some "allow";
      detail = some (dict (("ttl_seconds", int ttl) ∷ ("max_depth", int effective_depth) ∷ []));
    })
    pure minted

  -- `self._revocation.revoke_subtree`
  unfoldable pub revoke_subtree : String → Option String → ℕ → Eng p (List String)
  revoke_subtree jti reason at s =
      on_view p s (Revocation.revoke_subtree p.backend jti reason at (view p s))

  unfoldable pub revoke : String → Option String → String → Eng p (List String)
  revoke jti reason actor_id = do
    now ← utcnow env p
    revoked ← revoke_subtree jti reason now
    e ← new_event env p "token_revoked"
    log env p (record e {
      actor_id = some actor_id;
      jti = some jti;
      decision = some "revoke";
      reason = reason;
      detail =
          some
            (dict (("subtree_count", int (length revoked)) ∷ ("revoked_jtis", strs revoked) ∷ []));
    })
    pure revoked
