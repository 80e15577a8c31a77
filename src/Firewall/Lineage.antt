-- ===== src/Firewall/Lineage.antt =====
-- agperms/src/agperms/firewall.py: `chain`, and the calls that read or reset a component.
pub mod Ends
use adf.Prelude.{
  ℕ, zero, suc, String, true, false, Option, none, some, List, [], ◌∷◌, map, ltb, contains, length,
  ◌==◌, if◌then◌else◌,
}
use mathlib.Core.List.{reverse}
use adf.Errors.{Result, ok, err, key_error}
use adf.Exec.{lift, gets, modify, ◌>>=◌, ◌>>◌}
use adf.Json.{bool, str_or_null, dict}
use adf.Env.{Env}
use adf.Models.{TokenMetadata, Subject, ChainHop, IntegrityReport}
use adf.Audit.{verify_integrity}
use adf.Guardrails.Circuit.{CircuitState, circuit_state, reset_breaker, Trip}
use adf.Storage.{Memory, get_token, revoked_among, get_subject, close}
use adf.Firewall.{Firewall, Fw, write, utcnow, new_event, log}

-- an empty parent id counts as none
unfoldable pub parent_of : Memory → TokenMetadata → Option TokenMetadata
parent_of m meta = elim meta.parent_jti [
  | none ↦ none
  | some p ↦ if p == "" then none else get_token m p
]

-- the `while` loop, leaf first; it ends at a token without a parent, or at one that was seen
unfoldable pub walk_up : ℕ → Memory → List String → Option TokenMetadata → List TokenMetadata
walk_up zero m seen cursor = []
walk_up (suc fuel) m seen none = []
walk_up (suc fuel) m seen (some meta) = elim (contains seen meta.jti) [
  | true ↦ []
  | false ↦ meta ∷ walk_up fuel m (meta.jti ∷ seen) (parent_of m meta)
]

-- Each round sees one more stored token.
unfoldable pub lineage : Memory → TokenMetadata → List TokenMetadata
lineage m leaf = reverse (walk_up (suc (suc (length m.tokens))) m [] (some leaf))

abbrev pub label_of : Option Subject → Option String
label_of none = none
label_of (some s) = some s.display_label

unfoldable pub hop : Memory → List String → ℕ → TokenMetadata → ChainHop
hop m revoked now meta = record {
  jti = meta.jti;
  subject_id = meta.subject_id;
  display_label = label_of (get_subject m meta.subject_id);
  scopes = meta.scopes;
  depth = meta.depth;
  issued_at = meta.issued_at;
  expires_at = meta.expires_at;
  revoked = contains revoked meta.jti;
  expired = ltb meta.expires_at now;
}

unfoldable pub require_leaf : Option TokenMetadata → Result TokenMetadata
require_leaf none = err (key_error "unknown jti")
require_leaf (some meta) = ok meta

module _ (env : Env) where
  unfoldable pub chain : String → Fw (List ChainHop)
  chain jti = do
    found ← gets (λ s. get_token s.storage jti)
    leaf ← lift (require_leaf found)
    line ← gets (λ s. lineage s.storage leaf)
    revoked ← gets (λ s. revoked_among s.storage (map (λ (t : TokenMetadata). t.jti) line))
    now ← utcnow env
    gets (λ s. map (hop s.storage revoked now) line)

  unfoldable pub verify_audit_integrity : Fw IntegrityReport
  verify_audit_integrity = gets (λ s. verify_integrity env s.storage)

  unfoldable pub read_circuit : Fw CircuitState
  read_circuit = do now ← utcnow env; gets (λ s. circuit_state s.config now s.circuit)

  trip_of : Firewall → Option Trip → Option String
  trip_of s none = none
  trip_of s (some t) = some (env.trip_text s.config t)

  -- break glass: nothing else closes the breaker
  unfoldable pub reset_circuit : Fw (Unit {0})
  unfolding trip_of
  reset_circuit = do
    previous ← read_circuit
    why ← gets (λ s. trip_of s previous.reason)
    modify (λ s. record s { circuit = reset_breaker s.circuit })
    e ← new_event env "circuit_reset"
    log env (record e {
      decision = some "allow";
      reason = some "break glass: manual circuit reset";
      detail =
          some (
            dict (("was_open", bool previous.is_open) ∷ ("previous_reason", str_or_null why) ∷ []));
    })

  unfoldable pub close_firewall : Fw (Unit {0})
  close_firewall = write close
