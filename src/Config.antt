-- ===== src/Config.antt =====
-- agperms/src/agperms/config.py: the policy of a firewall. The error-rate threshold and the sigma
-- threshold are fractions, given by numerator and denominator, where the source has floats.
pub mod Policy
use adf.Prelude.{
  ℕ, ◌<◌, String, Bool, true, false, not, Option, none, some, List, [], ◌∷◌, map, ◌&&◌, ◌||◌, ◌==◌,
  Dict, lookup, contains, keep, ltb, leb, sorted, if◌then◌else◌,
}
use adf.Errors.{Result, ok, err, configuration_error, ◌>>=◌, ◌>>◌}
use adf.Models.{Reversibility, irreversible, compensable, worst_of}

abbrev pub default_sensitive_scopes : List String
default_sensitive_scopes =
    "send_email" ∷ "spend_money" ∷ "delete_data" ∷ "post_public_content" ∷ "transfer_funds"
    ∷ "execute_code" ∷ []

abbrev pub default_scope_reversibility : Dict Reversibility
default_scope_reversibility =
    ("send_email", irreversible)
    ∷ ("spend_money", compensable)
    ∷ ("delete_data", irreversible)
    ∷ ("post_public_content", irreversible)
    ∷ ("transfer_funds", irreversible)
    ∷ ("execute_code", irreversible)
    ∷ []

pub record Config : Type 0 where
  pub jwt_secret : String
  pub jwt_algorithm : String
  pub issuer : String
  pub max_delegation_depth : ℕ
  pub default_ttl_seconds : ℕ
  pub max_ttl_seconds : ℕ
  pub pii_salt : String
  pub sensitive_scopes : List String
  pub approval_timeout_seconds : ℕ
  pub scope_reversibility : Dict Reversibility
  pub rate_limit_delegate_per_min : ℕ
  pub rate_limit_verify_per_min : ℕ
  pub rate_limit_action_per_min : ℕ
  pub circuit_window_seconds : ℕ
  pub threshold_num : ℕ
  pub threshold_den : ℕ
  pub circuit_min_samples : ℕ
  pub circuit_volume_ceiling : ℕ
  pub circuit_count_policy_denials : Bool
  pub sigma_num : ℕ
  pub sigma_den : ℕ
  pub anomaly_min_baseline_samples : ℕ
  pub exempt_agents : List String
  pub exempt_subject_ids : List String
  pub secret_generated : Bool

-- the field defaults, before `__post_init__`
abbrev pub default_config : Config
default_config = record {
  jwt_secret = "";
  jwt_algorithm = "HS256";
  issuer = "agperms";
  max_delegation_depth = 5;
  default_ttl_seconds = 3600;
  max_ttl_seconds = 86400;
  pii_salt = "";
  sensitive_scopes = default_sensitive_scopes;
  approval_timeout_seconds = 300;
  scope_reversibility = default_scope_reversibility;
  rate_limit_delegate_per_min = 60;
  rate_limit_verify_per_min = 300;
  rate_limit_action_per_min = 600;
  circuit_window_seconds = 60;
  threshold_num = 1;
  threshold_den = 4;
  circuit_min_samples = 20;
  circuit_volume_ceiling = 10000;
  circuit_count_policy_denials = false;
  sigma_num = 3;
  sigma_den = 1;
  anomaly_min_baseline_samples = 10;
  exempt_agents = [];
  exempt_subject_ids = [];
  secret_generated = false;
}

abbrev check : Bool → String → Result (Unit {0})
check true message = err (configuration_error message)
check false message = ok tt

-- `__post_init__`; `secret` and `salt` are what `secrets.token_urlsafe` draws
unfoldable pub validate_config : String → String → Config → Result Config
validate_config secret salt c = do
  check (ltb c.max_delegation_depth 1) "max_delegation_depth must be >= 1"
  check (not (ltb 0 c.threshold_num && leb c.threshold_num c.threshold_den))
      "circuit_error_rate_threshold must be in (0, 1]"
  check (leb c.default_ttl_seconds 0 || leb c.max_ttl_seconds 0) "ttl values must be positive"
  check (not (contains ("HS256" ∷ "HS384" ∷ "HS512" ∷ []) c.jwt_algorithm))
      "unsupported jwt_algorithm"
  let no_secret = c.jwt_secret == ""
  ok (record c {
    jwt_secret = if no_secret then secret else c.jwt_secret;
    secret_generated = if no_secret then true else c.secret_generated;
    pii_salt = if c.pii_salt == "" then salt else c.pii_salt;
  })

unfoldable pub is_exempt : Config → String → Bool
is_exempt c agent_id =
    if agent_id == ""
    then false
    else contains c.exempt_agents agent_id || contains c.exempt_subject_ids agent_id

unfoldable pub register_exempt_subject : String → String → Config → Config
register_exempt_subject raw subject_id c =
    if contains c.exempt_agents raw
    then record c { exempt_subject_ids = subject_id ∷ c.exempt_subject_ids }
    else c

unfoldable pub is_sensitive : Config → String → Bool
is_sensitive c scope = contains c.sensitive_scopes scope

unfoldable pub sensitive_subset : Config → List String → List String
sensitive_subset c scopes = sorted (keep (λ s. contains c.sensitive_scopes s) scopes)

-- a scope that nobody classified is irreversible
unfoldable pub reversibility_of : Config → String → Reversibility
reversibility_of c scope = elim (lookup scope c.scope_reversibility) [
  | none ↦ irreversible
  | some r ↦ r
]

unfoldable pub worst_reversibility : Config → List String → Option Reversibility
worst_reversibility c scopes = worst_of (map (reversibility_of c) scopes)
