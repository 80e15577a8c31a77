-- ===== src/Risk.antt =====
-- agperms/src/agperms/risk.py: the risk state of a subject. Weights are in halves, so that the table's
-- 0.5 is 1, and shares are natural numbers; a quotient is a pair of numerator and denominator. A
-- dictionary that is `None` and an empty one act alike where both are tested for truth.
pub mod Exposure
pub mod Narrowed
pub mod Concentration
pub mod State
pub mod Profile
pub mod Counts
pub mod Authority
use adf.Prelude.{
  ℕ, ◌+◌, ◌*◌, ◌<◌, String, Bool, true, false, not, Option, none, some, List, [], ◌∷◌, ◌++◌, map,
  Dict, lookup, values, contains, length, max, ltb, leb, is_some, ◌==◌, ◌&&◌, ◌||◌, sorted,
  distinct, if◌then◌else◌,
}
use adf.Env.{Env}
use adf.Config.{Config, worst_reversibility}
use adf.Models.{
  Reversibility, idempotent, reversible, compensable, irreversible, TokenMetadata, IntegrityReport,
}
use adf.Audit.{verify_integrity}
use adf.Audit.Rows.{Row}
use adf.Storage.{Memory, get_token, children_of, find_audit_rows}
use adf.Firewall.{Firewall}
use adf.Firewall.Reviews.{pending_reviews}

-- `PERMISSION_WEIGHTS`, in halves
abbrev pub permission_weights : Dict ℕ
permission_weights =
    ("read", 1)
    ∷ ("email", 2)
    ∷ ("scheduling", 4)
    ∷ ("record_modification", 8)
    ∷ ("payments", 16)
    ∷ ("code_execution", 16)
    ∷ ("physical_control", 30)
    ∷ []

-- `DEFAULT_SCOPE_PERMISSION_CLASS`
abbrev pub default_scope_permission_class : Dict String
default_scope_permission_class =
    ("read_calendar", "read")
    ∷ ("read_email", "read")
    ∷ ("send_email", "email")
    ∷ ("post_public_content", "email")
    ∷ ("schedule_meeting", "scheduling")
    ∷ ("delete_data", "record_modification")
    ∷ ("spend_money", "payments")
    ∷ ("transfer_funds", "payments")
    ∷ ("execute_code", "code_execution")
    ∷ []

abbrev pub fallback_permission_class : String
fallback_permission_class = "record_modification"

pub record Evidence : Type 0 where
  pub durable_storage : Bool
  pub persistent_signing_key : Bool
  pub audit_chain_intact : Bool
  pub review_queue_clear : Bool
  pub approval_gate_configured : Bool

pub record RiskState : Type 0 where
  pub subject_id : String
  pub alpha : ℕ
  -- autonomous, observed
  pub beta : Option (ℕ × ℕ)
  pub eta : List String
  pub eta_exposure : ℕ
  pub tier : ℕ
  pub evidence : Evidence
  pub dependency_shares : Option (Dict ℕ)
  pub dependency_concentration : Option (ℕ × ℕ)
  pub actions_observed : ℕ
  pub actions_autonomous : ℕ
  pub worst : Option Reversibility

abbrev pub beta_is_measured : RiskState → Bool
beta_is_measured r = is_some r.beta

-- `d.get(k, v)`
abbrev pub get_or {ℓ} : {V : Type ℓ} → Option V → V → V
get_or none v = v
get_or (some w) v = w

unfoldable pub permission_class_of : Dict String → String → String
permission_class_of overrides scope =
    get_or (lookup scope overrides)
      (get_or (lookup scope default_scope_permission_class) fallback_permission_class)

-- `weights or PERMISSION_WEIGHTS`
unfoldable pub weight_table : Dict ℕ → Dict ℕ
weight_table [] = permission_weights
weight_table (entry ∷ rest) = entry ∷ rest

-- a class that the table lacks weighs as the fallback class, else 1.0
unfoldable pub class_weight : Dict ℕ → String → ℕ
class_weight table c = get_or (lookup c table) (get_or (lookup fallback_permission_class table) 2)

unfoldable pub total_weight : (String → ℕ) → List String → ℕ
total_weight weight [] = 0
total_weight weight (c ∷ cs) = weight c + total_weight weight cs

-- the set of classes, each once, and their weight
unfoldable pub permission_exposure : Dict ℕ → Dict String → List String → List String × ℕ
unfolding distinct total_weight class_weight weight_table permission_class_of
permission_exposure weights overrides scopes =
    let classes = distinct (map (permission_class_of overrides) scopes) in
    (classes, total_weight (class_weight (weight_table weights)) classes)

unfoldable pub autonomy_category : ℕ → Option Reversibility → Bool → ℕ
autonomy_category depth none delegates_further = 0
autonomy_category depth (some idempotent) delegates_further = 0
autonomy_category depth (some reversible) delegates_further = 1
autonomy_category depth (some compensable) delegates_further =
    if delegates_further || ltb 1 depth then 3 else 2
autonomy_category depth (some irreversible) delegates_further =
    if delegates_further || ltb 1 depth then 3 else 2

abbrev pub is_nil {ℓ} : {A : Type ℓ} → List A → Bool
is_nil [] = true
is_nil (x ∷ xs) = false

abbrev pub one_if : Bool → ℕ
one_if true = 1
one_if false = 0

-- `sum(1 for passed in evidence.values() if passed)`
unfoldable pub count_evidence : Evidence → ℕ
count_evidence e =
    one_if e.durable_storage
    + one_if e.persistent_signing_key
    + one_if e.audit_chain_intact
    + one_if e.review_queue_clear
    + one_if e.approval_gate_configured

-- `sum(shares.values())`
unfoldable pub sum : List ℕ → ℕ
sum [] = 0
sum (v ∷ vs) = v + sum vs

unfoldable pub sum_squares : List ℕ → ℕ
sum_squares [] = 0
sum_squares (v ∷ vs) = v * v + sum_squares vs

-- over the common denominator, the square of the total; 0 where the total is 0
unfoldable pub herfindahl : Dict ℕ → ℕ × ℕ
unfolding sum sum_squares values
herfindahl shares =
    let total = sum (values shares) in
    if leb total 0 then (0, 1) else (sum_squares (values shares), total * total)

-- `herfindahl(dependency_shares) if dependency_shares else None`
unfoldable pub concentration_of : Option (Dict ℕ) → Option (ℕ × ℕ)
concentration_of none = none
concentration_of (some []) = none
concentration_of (some (entry ∷ rest)) = some (herfindahl (entry ∷ rest))

-- `row.get("jti")` as a token, an empty id counting as none
unfoldable pub token_of : Memory → Row → Option TokenMetadata
unfolding get_token
token_of m row = elim row.event.jti [
  | none ↦ none
  | some jti ↦ if jti == "" then none else get_token m jti
]

unfoldable pub grant_of : Memory → String → Row → Option TokenMetadata
unfolding token_of
grant_of m subject row = elim (token_of m row) [
  | none ↦ none
  | some meta ↦ if meta.subject_id == subject then some meta else none
]

-- the loop of `_grant_profile`: scopes, deepest, delegated
unfoldable pub add_grant :
    Memory → Option TokenMetadata → List String × ℕ × Bool → List String × ℕ × Bool
unfolding children_of
add_grant m none (scopes, deepest, delegated) = (scopes, deepest, delegated)
add_grant m (some meta) (scopes, deepest, delegated) = (
  scopes ++ meta.scopes,
  max deepest meta.depth,
  delegated || not (is_nil (children_of m.edges (meta.jti ∷ []))),
)

unfoldable pub add_grants :
    Memory → String → List Row → List String × ℕ × Bool → List String × ℕ × Bool
unfolding grant_of add_grant
add_grants m subject [] profile = profile
add_grants m subject (row ∷ rows) profile =
    add_grants m subject rows (add_grant m (grant_of m subject row) profile)

unfoldable pub grant_rows : Memory → List Row
unfolding find_audit_rows
grant_rows m =
    find_audit_rows m (some "root_minted") none none
    ++ find_audit_rows m (some "delegated") none none

unfoldable pub grant_profile : Memory → String → List String × ℕ × Bool
unfolding add_grants grant_rows sorted distinct
grant_profile m subject =
    let (scopes, deepest, delegated) = add_grants m subject (grant_rows m) ([], 0, false) in
    (sorted (distinct scopes), deepest, delegated)

-- no metadata: nothing shows that a human approved the action
abbrev pub is_autonomous : Option TokenMetadata → Bool
is_autonomous none = true
is_autonomous (some meta) = not meta.approval_required

abbrev pub is_actor : String → Option String → Bool
is_actor subject none = false
is_actor subject (some id) = id == subject

module _ (env : Env) where
  -- `_row_at_or_after`, and the test before it that there is a bound
  unfoldable pub row_at_or_after : Option ℕ → Row → Bool
  row_at_or_after none row = true
  row_at_or_after (some since) row = elim (env.fromisoformat row.event.event_ts) [
    | none ↦ true
    | some stamp ↦ leb since stamp
  ]

  -- the loop of `_authority_counts`: total, autonomous
  unfoldable pub count_authority : Memory → String → Option ℕ → List Row → ℕ × ℕ
  unfolding row_at_or_after token_of
  count_authority m subject since [] = (0, 0)
  count_authority m subject since (row ∷ rows) =
      let (total, autonomous) = count_authority m subject since rows in
      if is_actor subject row.event.actor_id && row_at_or_after since row
      then (total + 1, autonomous + one_if (is_autonomous (token_of m row)))
      else (total, autonomous)

  unfoldable pub authority_counts : Memory → String → Option ℕ → ℕ × ℕ
  unfolding count_authority find_audit_rows
  authority_counts m subject since =
      count_authority m subject since (find_audit_rows m (some "action_started") none none)

  -- `durable` is what the storage says of itself
  unfoldable pub gather_evidence : Bool → Firewall → Evidence
  unfolding verify_integrity pending_reviews
  gather_evidence durable fw =
      let report = verify_integrity env fw.storage in
      record {
        durable_storage = durable;
        persistent_signing_key = not fw.config.secret_generated;
        audit_chain_intact = report.intact;
        review_queue_clear = is_nil (pending_reviews fw.storage false false);
        approval_gate_configured = not (is_nil fw.config.sensitive_scopes);
      }

  unfoldable pub governance_tier : Bool → Firewall → ℕ × Evidence
  unfolding gather_evidence count_evidence
  governance_tier durable fw =
      let evidence = gather_evidence durable fw in (count_evidence evidence, evidence)

  unfoldable pub compute_risk_state :
      Bool → Firewall → String → Option ℕ → Option (Dict ℕ) → Dict ℕ → Dict String → RiskState
  unfolding grant_profile worst_reversibility permission_exposure authority_counts governance_tier
      autonomy_category concentration_of
  compute_risk_state durable fw subject since shares weights classes =
      let (scopes, depth, delegates_further) = grant_profile fw.storage subject in
      let worst = worst_reversibility fw.config scopes in
      let (eta, exposure) = permission_exposure weights classes scopes in
      let (observed, autonomous) = authority_counts fw.storage subject since in
      let (tier, evidence) = governance_tier durable fw in
      record {
        subject_id = subject;
        alpha = autonomy_category depth worst delegates_further;
        beta = if leb observed 0 then none else some (autonomous, observed);
        eta = eta;
        eta_exposure = exposure;
        tier = tier;
        evidence = evidence;
        dependency_shares = shares;
        dependency_concentration = concentration_of shares;
        actions_observed = observed;
        actions_autonomous = autonomous;
        worst = worst;
      }
