-- ===== src/Config/Policy.antt =====
-- agperms/src/agperms/config.py: validation, sensitive scopes, reversibility and exemption.
use adf.Prelude.{
  ◌≤◌, ◌<◌, ◌≡◌, String, false, none, some, List, [], ◌∷◌, contains, ◌∈◌, lookup, arith, eq_iff,
  contains-sorted, contains-keep, ◌&&◌, ◌∙◌, ◌||◌, ◌==◌, not,
}
use adf.Errors.{ok}
use adf.Models.{irreversible, worst_of}
use adf.Config.{
  Config, validate_config, sensitive_subset, reversibility_of, worst_reversibility, is_exempt,
  register_exempt_subject,
}

-- A configuration that passes validation has a positive depth ceiling and positive lifetimes, a
-- threshold in (0, 1], and a signing secret that is the caller's unless that was empty.
pub validate_config-ok :
    (secret salt : String) (c d : Config)
    → validate_config secret salt c ≡ ok d
    → (1 ≤ d.max_delegation_depth)
      × (0 < d.default_ttl_seconds)
      × (0 < d.max_ttl_seconds)
      × (0 < d.threshold_num)
      × (d.threshold_num ≤ d.threshold_den)
      × (d.secret_generated ≡ false → d.jwt_secret ≡ c.jwt_secret)
unfolding validate_config
validate_config-ok secret salt c d h = ground arith

-- The sensitive subset holds exactly the requested scopes that the policy marks.
pub contains-sensitive_subset :
    (c : Config) (scopes : List String) (s : String)
    → contains (sensitive_subset c scopes) s ≡ (contains scopes s && contains c.sensitive_scopes s)
unfolding sensitive_subset
contains-sensitive_subset c scopes s =
    contains-sorted _ s ∙ contains-keep (λ x. contains c.sensitive_scopes x) scopes s

-- A scope that the policy does not classify makes any request that holds it irreversible.
pub worst_reversibility-unclassified :
    (c : Config) (scopes : List String) (s : String)
    → lookup s c.scope_reversibility ≡ none
    → s ∈ scopes
    → worst_reversibility c scopes ≡ some irreversible
unfolding worst_reversibility worst_of reversibility_of
worst_reversibility-unclassified c [] s h m = cc
worst_reversibility-unclassified c (x ∷ xs) s h m =
    ground (arith, eq_iff x s, worst_reversibility-unclassified c xs s h)

-- A subject whose raw name is exempt is exempt under the opaque id that it resolves to, and no other
-- id becomes exempt by the registration.
pub is_exempt-register :
    (c : Config) (raw id other : String)
    → is_exempt (register_exempt_subject raw id c) other
      ≡ (is_exempt c other || contains c.exempt_agents raw && (id == other) && not (other == ""))
unfolding is_exempt register_exempt_subject
is_exempt-register c raw id other = ground (arith, eq_iff id other)
