-- ===== src/Firewall/Mint.antt =====
-- agperms/src/agperms/firewall.py: `mint_root`, and how a minted token is recorded and read back.
pub mod Child
use adf.Prelude.{
  ℕ, zero, suc, String, Bool, true, false, Option, none, some, List, [], ◌∷◌, map, ltb, min, ◌==◌,
  if◌then◌else◌,
}
use Prim.Native.String
use adf.Errors.{Result, ok, value_error, ◌>>=◌ as bind}
use adf.Exec.{Exec, pure, raise, lift, gets, when, ◌>>=◌, ◌>>◌}
use adf.Time.{timestamp, from_ts}
use adf.Json.{Json, int, dict}
use adf.Env.{Env}
use adf.Config.{Config}
use adf.Models.{TokenClaims, TokenMetadata, Capability, DelegationChainEntry}
use adf.Models.Payload.{entry_to_dict, entries_from_dicts}
use adf.Storage.{put_token}
use adf.Tokens
use adf.Firewall.{
  Firewall, Fw, or_default, try_write, utcnow, utcnow_ts, fresh_id, new_event, log, resolve_subject,
}

unfoldable pub metadata_of : TokenClaims → Option String → TokenMetadata
metadata_of claims parent_jti = record {
  jti = claims.jti;
  subject_id = claims.sub;
  parent_jti = parent_jti;
  root_jti = claims.root_jti;
  depth = claims.depth;
  max_depth = claims.max_depth;
  scopes = claims.scopes;
  delegation_chain = map entry_to_dict claims.delegation_chain;
  issued_at = from_ts claims.iat;
  expires_at = from_ts claims.exp;
  approval_required = claims.approval_required;
  approved_by = claims.approved_by;
}

-- `_persist_token`
unfoldable pub persist_token : Capability → Option String → Fw (Unit {0})
persist_token minted parent_jti = try_write (put_token (metadata_of minted.claims parent_jti))

abbrev pub is_empty : List String → Bool
is_empty [] = true
is_empty (x ∷ xs) = false

unfoldable pub issued_for : TokenMetadata → String
issued_for meta = elim meta.parent_jti [ none ↦ meta.subject_id | some p ↦ String.◌++◌ "agent:" p ]

module _ (env : Env) where
  -- `_claims_from_metadata`
  unfoldable pub claims_from_metadata : Config → TokenMetadata → Result TokenClaims
  claims_from_metadata c meta = bind (entries_from_dicts env meta.delegation_chain) λ chain.
      ok (record {
        jti = meta.jti;
        sub = meta.subject_id;
        iss = c.issuer;
        issued_for = issued_for meta;
        scopes = meta.scopes;
        depth = meta.depth;
        max_depth = meta.max_depth;
        iat = timestamp meta.issued_at;
        exp = timestamp meta.expires_at;
        root_jti = meta.root_jti;
        delegation_chain = chain;
        approval_required = meta.approval_required;
        approved_by = meta.approved_by;
      })

  -- `TokenEngine.mint_root`
  unfoldable pub issue_root : String → List String → ℕ → ℕ → Fw Capability
  issue_root subject_id scopes ttl_seconds max_depth = do
    jti ← fresh_id env
    now ← utcnow_ts env
    gets (λ s.
        Tokens.issue env s.config
          (Tokens.root_claims s.config jti now subject_id scopes ttl_seconds max_depth))

  -- `TokenEngine.mint_child`
  unfoldable pub issue_child :
      TokenClaims → String → List String → ℕ → Bool → Option String → Fw Capability
  issue_child parent child_subject_id scopes exp approval_required approved_by = do
    now ← utcnow_ts env
    stamp ← utcnow env
    jti ← fresh_id env
    gets (λ s. Tokens.issue env s.config (
        Tokens.child_claims s.config jti now (env.isoformat stamp) parent child_subject_id scopes
          exp approval_required approved_by))

  unfoldable pub mint_root : String → List String → Option ℕ → Option ℕ → Fw Capability
  mint_root subject scopes ttl_seconds max_depth = do
    when (is_empty scopes) (raise (value_error "a root capability with no scopes grants nothing"))
    ttl ←
        gets
          (λ s. min (or_default ttl_seconds s.config.default_ttl_seconds) s.config.max_ttl_seconds)
    ceiling ← gets (λ s. or_default max_depth s.config.max_delegation_depth)
    when (ltb ceiling 1) (raise (value_error "max_depth must be >= 1"))
    holder ← resolve_subject env subject "human"
    minted ← issue_root holder.subject_id scopes ttl ceiling
    persist_token minted none
    e ← new_event env "root_minted"
    log env (record e {
      actor_id = some holder.subject_id;
      actor_hash = some holder.identifier_hash;
      jti = some minted.claims.jti;
      root_jti = some minted.claims.jti;
      scopes = some minted.claims.scopes;
      depth = some 0;
      decision = some "allow";
      detail = some (dict (("ttl_seconds", int ttl) ∷ ("max_depth", int ceiling) ∷ []));
    })
    pure minted
