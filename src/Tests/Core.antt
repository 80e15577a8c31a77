-- ===== src/Tests/Core.antt =====
-- The theorems on delegation, verification and revocation at the start of the examples.
use adf.Prelude.{◌≤◌, ◌≢◌, ◌⊎◌, true, false, ◌≡◌, refl, none, some, [], ◌∷◌}
use adf.Errors.{ok}
use adf.Models.{TokenClaims, VerifyResult, Capability}
use adf.Tests.{program}
use adf.Tests.Data.{world, start, root_claims, child_claims, open_record}
use adf.Firewall.{Firewall, spend}
use adf.Firewall.Run.{called, verifying, run}
use adf.Firewall.Verify.{verify, allowed}
use adf.Firewall.Verify.Live.{IsAlive}
use adf.Firewall.Verify.Complete.{verify_complete}
use adf.Time.{timestamp}
use adf.Firewall.Revoke.{revoke}
use adf.Firewall.Delegate.{delegate}
use adf.Firewall.Delegate.Narrowing.{IsNarrowed, delegate-IsNarrowed}
use adf.Firewall.Verify.Decision.{IsGranted, verify-IsGranted}
use adf.Firewall.Revoke.Subtree.{lookup-revoke, revoke-refuses}
use adf.Firewall.Revoke.Classify.{revoke-total}
use adf.Firewall.Revoke.{clamp_reason, classify_action, completion_urgency}
use adf.Storage.Descendants.{IsBelow}
use adf.Storage.Walk.{descendants_breadth_first}
use adf.Tokens.{decode}
use adf.Models.{RevocationResult, ActionRecord, clean}
use adf.Prelude.{lookup, ◌<◌}
use native.Mathlib.Omega.{arith}

abbrev later : Firewall
later =
    run world (called (verifying (some "child-token") "read") ∷ [])
      (revoke world "root" none start).1

abbrev refused : VerifyResult
refused = record { valid = false; reason = some "revoked"; claims = some child_claims }

late_verify :
    verify world (some "child-token") "read" later
    ≡ (ok refused, (verify world (some "child-token") "read" later).1)
unfolding program
late_verify = refl

abbrev pub minted : Capability
minted = record {
  token = "new-token";
  claims = record {
    jti = "ii";
    sub = "agent:i";
    iss = "agperms";
    issued_for = "agent:root";
    scopes = "read" ∷ [];
    depth = 1;
    max_depth = 3;
    iat = 1000;
    exp = 1060;
    root_jti = "root";
    delegation_chain =
        record { agent_id = "human:1"; jti = "root"; scopes = root_claims.scopes; ts = "t" } ∷ [];
    approval_required = false;
    approved_by = none;
  };
}

pub delegated :
    delegate world "root-token" "agent-y" ("read" ∷ []) (some 60) start
    ≡ (ok minted, (delegate world "root-token" "agent-y" ("read" ∷ []) (some 60) start).1)
unfolding program
delegated = refl

child-IsBelow : IsBelow start.storage.edges "root" "child"
unfolding program
child-IsBelow = IsBelow.step IsBelow.here refl

late_decode : decode world later.config "child-token" false ≡ ok child_claims
unfolding program
late_decode = refl

revoke-refuses_example : refused.valid ≡ false
revoke-refuses_example =
    revoke-refuses world "root" none start (called (verifying (some "child-token") "read") ∷ [])
      "child" "child-token" "read" (verify world (some "child-token") "read" later).1 refused
      child_claims child-IsBelow late_decode refl late_verify

delegate-IsNarrowed_example :
    (parent : TokenClaims) × (decode world start.config "root-token" false ≡ ok parent)
    × IsNarrowed start.config ("read" ∷ []) parent minted.claims
delegate-IsNarrowed_example =
    delegate-IsNarrowed world "root-token" "agent-y" ("read" ∷ []) (some 60) start
      (delegate world "root-token" "agent-y" ("read" ∷ []) (some 60) start).1 minted delegated

abbrev granted : VerifyResult
granted = record { valid = true; reason = none; claims = some child_claims }

early_verify :
    verify world (some "child-token") "read" start
    ≡ (ok granted, (verify world (some "child-token") "read" start).1)
unfolding program
early_verify = refl

verify-IsGranted_example :
    (c : TokenClaims) × (granted.claims ≡ some c) × IsGranted world start "child-token" "read" c
verify-IsGranted_example =
    verify-IsGranted world "child-token" "read" start
      (verify world (some "child-token") "read" start).1 granted early_verify refl

start_checks :
    (decode world start.config "child-token" false ≡ ok child_claims)
    × ((spend world child_claims.sub "verify" start).0 ≡ ok tt)
unfolding program
start_checks = (refl, refl)

child-IsAlive : IsAlive start.storage child_claims
unfolding program
child-IsAlive = record { opened = refl; itself = refl; ancestors = λ jti m. refl }

start_fresh :
    timestamp (world.clock (spend world child_claims.sub "verify" start).1.reads) ≤ child_claims.exp
unfolding program
start_fresh = omega arith

verify_complete_example :
    (verify world (some "child-token") "read" start).0 ≡ ok (allowed child_claims)
verify_complete_example =
    verify_complete world "child-token" "read" start child_claims refl refl start_checks.0
      start_checks.1 start_fresh child-IsAlive refl

lookup-revoke_example :
    (IsBelow start.storage.edges "root" "child"
      × (lookup "child" start.storage.revoked ≡ none)
      × (lookup "child" (revoke world "root" none start).1.storage.revoked
          ≡ some (record {
            jti = "child";
            revoked_at = world.clock start.reads;
            root_of_revocation = "root";
            reason = clamp_reason none;
          })))
    ⊎ (((lookup "child" start.storage.revoked ≢ none)
          ⊎ ¬ IsBelow start.storage.edges "root" "child")
        × (lookup "child" (revoke world "root" none start).1.storage.revoked
            ≡ lookup "child" start.storage.revoked))
lookup-revoke_example = lookup-revoke world "root" none start "child"

revoke-total_example :
    (r : RevocationResult) × ((revoke world "root" none start).0 ≡ ok r)
    × (r.revoked_jtis ≡ descendants_breadth_first start.storage "root")
revoke-total_example = revoke-total world "root" none start

abbrev closed_record : ActionRecord
closed_record = record open_record { finished_at = some 9; state = some clean }

urgency_lt :
    completion_urgency (classify_action closed_record)
    < completion_urgency (classify_action open_record)
unfolding program
urgency_lt = omega arith

is_clean_record : classify_action closed_record ≡ clean
unfolding program
is_clean_record = refl
