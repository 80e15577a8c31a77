-- ===== src/Tests/Risks.antt =====
-- The theorems on the risk state.
use adf.Prelude.{
  ℕ, ◌*◌, ◌<◌, ◌≤◌, true, false, ◌≡◌, ◌↔◌, refl, String, none, some, List, [], ◌∷◌, Dict, ◌⊆◌, ◌∈◌,
  values, length, arith,
}
use adf.Tests.{program}
use adf.Tests.Data.{world, stocked, start, root_claims}
use adf.Tests.Core.{minted, delegated}
use adf.Errors.{ok}
use adf.Models.{compensable, idempotent, TokenClaims, TokenMetadata}
use adf.Config.{worst_reversibility}
use adf.Audit.Rows.{Row, blank_event}
use adf.Storage.{Memory, children}
use adf.Tokens.{decode}
use adf.Firewall.{Firewall}
use adf.Firewall.Delegate.{delegate}
use adf.Risk.{
  permission_exposure, herfindahl, grant_profile, authority_counts, compute_risk_state, sum,
}
use adf.Risk.Exposure.{worst_rank}
use adf.Risk.Narrowed.{delegate_risk}
use adf.Risk.Concentration.{herfindahl_bounds, IsShare}
use adf.Risk.Profile.{IsGrantOf, grant_profile-reads}
use adf.Risk.Counts.{Counts, authority_counts-reads}
use adf.Risk.Authority.{IsCoherent, compute_risk_state-IsCoherent}

abbrev one_mail : List String
one_mail = "send_email" ∷ []

abbrev two_mails : List String
two_mails = "post_public_content" ∷ "send_email" ∷ "spend_money" ∷ "send_email" ∷ []

one_mail-subset : one_mail ⊆ two_mails
one_mail-subset s h = ground arith

-- two scopes that send mail are one class; payments weigh 8.0
two_mails_exposure : (permission_exposure [] [] two_mails).1 ≡ 18
unfolding program
two_mails_exposure = refl

worse : worst_rank (some idempotent) ≤ worst_rank (some compensable)
unfolding program
worse = omega arith

delegate_risk_example :
    (parent : TokenClaims) × (decode world start.config "root-token" false ≡ ok parent)
    × ((permission_exposure [] [] minted.claims.scopes).1
        ≤ (permission_exposure [] [] parent.scopes).1)
    × (worst_rank (worst_reversibility start.config minted.claims.scopes)
        ≤ worst_rank (worst_reversibility start.config parent.scopes))
delegate_risk_example =
    delegate_risk world "root-token" "agent-y" ("read" ∷ []) (some 60) start
      (delegate world "root-token" "agent-y" ("read" ∷ []) (some 60) start).1 minted [] [] delegated

abbrev vendors : Dict ℕ
vendors = ("cloud", 3) ∷ ("model", 1) ∷ []

vendors_total : 0 < sum (values vendors)
unfolding program
vendors_total = omega arith

herfindahl_bounds_example :
    ((herfindahl vendors).0 ≤ (herfindahl vendors).1)
    × ((herfindahl vendors).1 ≤ length (values vendors) * (herfindahl vendors).0)
    × (((herfindahl vendors).0 ≡ (herfindahl vendors).1)
        ↔ ((v : ℕ) × IsShare v (values vendors) × (v ≡ sum (values vendors))))
herfindahl_bounds_example = herfindahl_bounds vendors vendors_total

abbrev told : String → String → Row
unfolding blank_event
told action jti = record {
  id = 1;
  event = record (blank_event action "t") { jti = some jti; actor_id = some "human:1" };
  prev_hash = "";
  row_hash = "";
}

abbrev logged : Memory
logged = record stocked { audit = told "root_minted" "root" ∷ told "action_started" "root" ∷ [] }

grant_profile-reads_example :
    let (scopes, deepest, delegates_further) = grant_profile logged "human:1" in
    (("read" ∈ scopes)
      ↔ ((meta : TokenMetadata) × IsGrantOf logged "human:1" meta × ("read" ∈ meta.scopes)))
    × ((0 < deepest)
        ↔ ((meta : TokenMetadata) × IsGrantOf logged "human:1" meta × (0 < meta.depth)))
    × ((delegates_further ≡ true) ↔ (
        (meta : TokenMetadata) × IsGrantOf logged "human:1" meta
        × ((child : String) × (child ∈ children logged.edges meta.jti))))
grant_profile-reads_example = grant_profile-reads logged "human:1" "read" 0

logged_profile : grant_profile logged "human:1" ≡ (root_claims.scopes, 0, true)
unfolding program
logged_profile = refl

authority_counts-reads_example :
    let (observed, autonomous) = authority_counts world logged "human:1" (some 500) in
    let (observed', autonomous') = authority_counts world logged "human:1" (some 2000) in
    Counts world logged "human:1" (some 500) logged.audit observed autonomous
    × (observed' ≤ observed)
    × (autonomous' ≤ autonomous)
authority_counts-reads_example =
    authority_counts-reads world logged "human:1" 500 2000 (omega arith)

logged_counts :
    (authority_counts world logged "human:1" (some 500) ≡ (1, 1))
    × (authority_counts world logged "human:1" (some 2000) ≡ (0, 0))
unfolding program
logged_counts = (refl, refl)

abbrev audited : Firewall
audited = record start { storage = logged }

compute_risk_state-IsCoherent_example :
    IsCoherent world true audited
      (compute_risk_state world true audited "human:1" none (some vendors) [] [])
compute_risk_state-IsCoherent_example =
    compute_risk_state-IsCoherent world true audited "human:1" none (some vendors) [] []
