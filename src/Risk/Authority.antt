-- ===== src/Risk/Authority.antt =====
-- agperms/src/agperms/risk.py: what the risk state counts and how its numbers hang together.
use adf.Prelude.{
  ℕ, ◌+◌, ◌≤◌, ◌<◌, ◌≡◌, ◌↔◌, refl, sym, ap, ◌∙◌, String, Bool, true, false, Option, none, some,
  List, [], ◌∷◌, Dict, keep, values, not, ◌≢◌, arith,
}
use adf.Env.{Env}
use adf.Models.{Reversibility, ActionReview}
use adf.Config.{worst_reversibility}
use adf.Audit.{verify_integrity}
use adf.Audit.Rows.{Row}
use adf.Storage.{Memory, find_audit_rows, list_reviews, sort_down, insert_down}
use adf.Firewall.{Firewall}
use adf.Firewall.Reviews.{pending_reviews}
use adf.Risk.{
  RiskState, is_nil, token_of, is_autonomous, one_if, count_authority, authority_counts,
  autonomy_category, count_evidence, gather_evidence, governance_tier, grant_profile,
  compute_risk_state,
}

one_if-le : (b : Bool) → one_if b ≤ 1
one_if-le b = ground arith

module _ (env : Env) (m : Memory) (subject : String) where
  autonomous-le-observed :
      (since : Option ℕ) (rows : List Row)
      → (count_authority env m subject since rows).1 ≤ (count_authority env m subject since rows).0
  unfolding count_authority
  autonomous-le-observed since [] = omega arith
  autonomous-le-observed since (row ∷ rows) =
      ground (arith, autonomous-le-observed since rows, one_if-le (is_autonomous (token_of m row)))

is_nil-insert_down :
    (key : ActionReview → ℕ) (r : ActionReview) (rs : List ActionReview)
    → is_nil (insert_down key r rs) ≡ false
unfolding insert_down
is_nil-insert_down key r [] = refl
is_nil-insert_down key r (x ∷ xs) = ground arith

is_nil-sort_down :
    (key : ActionReview → ℕ) (rs : List ActionReview) → is_nil (sort_down key rs) ≡ is_nil rs
unfolding sort_down
is_nil-sort_down key [] = refl
is_nil-sort_down key (r ∷ rs) = is_nil-insert_down key r (sort_down key rs)

abbrev pub unresolved : Memory → List ActionReview
unresolved m = keep (λ (r : ActionReview). not r.reviewed) (values m.reviews)

queue_clear : (m : Memory) → is_nil (pending_reviews m false false) ≡ is_nil (unresolved m)
unfolding pending_reviews list_reviews
queue_clear m = is_nil-sort_down _ (unresolved m)

-- how the components of a risk state hang together
pub record IsCoherent (env : Env) (durable : Bool) (fw : Firewall) (r : RiskState) : Type 0 where
  pub alpha_le : r.alpha ≤ 3
  pub tier_le : r.tier ≤ 5
  pub tier_full : (r.tier ≡ 5) ↔ (
      (durable ≡ true)
      × (fw.config.secret_generated ≡ false)
      × ((verify_integrity env fw.storage).intact ≡ true)
      × (unresolved fw.storage ≡ [])
      × (fw.config.sensitive_scopes ≢ []))
  pub unmeasured : (r.beta ≡ none) ↔ (r.actions_observed ≡ 0)
  pub measured :
      (a o : ℕ)
      → r.beta ≡ some (a, o)
      → (a ≡ r.actions_autonomous) × (o ≡ r.actions_observed) × (0 < o) × (a ≤ o)

not_nil {ℓ} : {A : Type ℓ} (xs : List A) → xs ≢ [] → is_nil xs ≡ false
not_nil [] h = absurd (h refl)
not_nil (x ∷ xs) h = refl

is_nil→eq {ℓ} : {A : Type ℓ} (xs : List A) → (is_nil xs ≡ true) ↔ (xs ≡ [])
is_nil→eq [] = (λ h. refl, λ h. refl)
is_nil→eq (x ∷ xs) = (λ h. cc, λ h. cc)

one_if-eq-one : (b : Bool) → one_if b ≡ 1 → b ≡ true
one_if-eq-one b h = ground arith

all_five :
    (a b c d e : Bool)
    → one_if a + one_if b + one_if c + one_if d + one_if e ≡ 5
    → (a ≡ true) × (b ≡ true) × (c ≡ true) × (d ≡ true) × (e ≡ true)
all_five a b c d e h = (
  one_if-eq-one a (omega (arith, one_if-le)),
  one_if-eq-one b (omega (arith, one_if-le)),
  one_if-eq-one c (omega (arith, one_if-le)),
  one_if-eq-one d (omega (arith, one_if-le)),
  one_if-eq-one e (omega (arith, one_if-le)),
)

module _ (env : Env) where
  tier-le : (durable : Bool) (fw : Firewall) → (governance_tier env durable fw).0 ≤ 5
  unfolding governance_tier count_evidence
  tier-le durable fw = omega (arith, one_if-le)

  tier-full :
      (durable : Bool) (fw : Firewall)
      → ((governance_tier env durable fw).0 ≡ 5) ↔ (
          (durable ≡ true)
          × (fw.config.secret_generated ≡ false)
          × ((verify_integrity env fw.storage).intact ≡ true)
          × (unresolved fw.storage ≡ [])
          × (fw.config.sensitive_scopes ≢ []))
  unfolding governance_tier count_evidence gather_evidence
  tier-full durable fw = (
    λ h.
        let (a, b, c, d, e) = all_five _ _ _ _ _ h in
        (
          a,
          ground arith,
          c,
          (is_nil→eq (unresolved fw.storage)).0 (sym (queue_clear fw.storage) ∙ d),
          λ none_set. ground (arith, ap is_nil none_set),
        ),
    λ (a, b, c, d, e).
        let clear : is_nil (pending_reviews fw.storage false false) ≡ true =
          queue_clear fw.storage ∙ (is_nil→eq (unresolved fw.storage)).1 d in
        let gated : is_nil fw.config.sensitive_scopes ≡ false =
          not_nil fw.config.sensitive_scopes e in
        rw (a, b, c, clear, gated) refl,
  )

  autonomy-le :
      (depth : ℕ) (worst : Option Reversibility) (delegates : Bool)
      → autonomy_category depth worst delegates ≤ 3
  unfolding autonomy_category
  autonomy-le depth worst delegates = ground arith

  -- In a computed risk state the category is at most 3 and the tier at most 5; the tier is 5 exactly
  -- where the storage is durable, the signing secret was supplied, the audit log verifies, every
  -- review is resolved and some scope is sensitive; and the authority ratio is absent exactly where
  -- no action was observed, and otherwise divides the autonomous actions by at least as many
  -- observed ones.
  pub compute_risk_state-IsCoherent :
      (durable : Bool) (fw : Firewall) (subject : String) (since : Option ℕ)
      (shares : Option (Dict ℕ)) (weights : Dict ℕ) (classes : Dict String)
      → IsCoherent env durable fw
          (compute_risk_state env durable fw subject since shares weights classes)
  unfolding compute_risk_state authority_counts
  compute_risk_state-IsCoherent durable fw subject since shares weights classes = record {
    alpha_le =
        autonomy-le (grant_profile fw.storage subject).1
          (worst_reversibility fw.config (grant_profile fw.storage subject).0)
          (grant_profile fw.storage subject).2;
    tier_le = tier-le durable fw;
    tier_full = tier-full durable fw;
    unmeasured = ground arith;
    measured = λ a o e. ground (
      arith,
      autonomous-le-observed env fw.storage subject since
          (find_audit_rows fw.storage (some "action_started") none none),
    );
  }
