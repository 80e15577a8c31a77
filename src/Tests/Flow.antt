-- ===== src/Tests/Flow.antt =====
-- The theorems on whole runs, on approvals and on guarded actions.
use adf.Prelude.{false, true, ◌≡◌, refl, none, some, List, [], ◌∷◌, lookup, has_key, arith, eq_iff}
use adf.Errors.{ok, err, value_error}
use adf.Models.{Capability, PendingApproval, irreversible}
use adf.Audit.{verify_integrity}
use adf.Tests.{program}
use adf.Tests.Data.{world, start, settings, root_record, request, open_record, child_claims}
use adf.Firewall.{Firewall, new_firewall}
use adf.Firewall.Run.{Step, called, acted, minting, delegating, verifying, revoking, expiring, run}
use adf.Firewall.Kept.Audited.{run-intact}
use adf.Firewall.Kept.Revoked.{run-revoked}
use adf.Firewall.Revoke.{revoke}
use adf.Models.{ActionReview, unknown}
use adf.Time.{collapse}
use adf.Prelude.{◌==◌}
use adf.Firewall.Reviews.{resolve_review}
use adf.Firewall.Reviews.Resolve.{IsResolved, resolve_review-IsResolved}
use adf.Firewall.Approvals.{approve, collect}
use adf.Firewall.Approvals.Once.{IsKeyed, approve-once, collect-same}
use adf.Firewall.Actions.{ActionHandle, finish_action}
use adf.Firewall.Actions.Lifecycle.{
  closed_as, outcome_state, outcome_reason, outcome_result, finish_action-closes,
}

abbrev script : List Step
script =
    called (minting "alice" ("read" ∷ []) none none)
    ∷ called (delegating "root-token" "agent-x" ("read" ∷ []) none)
    ∷ acted "child-token" "read" "sync" none (verifying none "read" ∷ []) [] none
    ∷ called (revoking "root" none)
    ∷ called expiring
    ∷ []

run-intact_example :
    (verify_integrity world (run world script (new_firewall settings)).storage).intact ≡ true
run-intact_example = run-intact world settings script

abbrev revoked_firewall : Firewall
revoked_firewall = (revoke world "root" none start).1

child_gone : has_key "child" revoked_firewall.storage.revoked ≡ true
unfolding program
child_gone = refl

run-revoked_example : has_key "child" (run world script revoked_firewall).storage.revoked ≡ true
run-revoked_example = run-revoked world script revoked_firewall "child" child_gone

root_there : lookup "root" start.storage.tokens ≡ some root_record
unfolding program
root_there = refl

abbrev approved_token : Capability
approved_token = record {
  token = "new-token";
  claims = record {
    jti = "i";
    sub = "agent:2";
    iss = "agperms";
    issued_for = "agent:root";
    scopes = "send_email" ∷ [];
    depth = 1;
    max_depth = 3;
    iat = 1000;
    exp = 1060;
    root_jti = "root";
    delegation_chain =
        record { agent_id = "human:1"; jti = "root"; scopes = root_record.scopes; ts = "t" } ∷ [];
    approval_required = true;
    approved_by = some "bob";
  };
}

abbrev approved_firewall : Firewall
approved_firewall = (approve world "r1" "bob" start).1

approved : approve world "r1" "bob" start ≡ (ok approved_token, approved_firewall)
unfolding program
approved = refl

start-IsKeyed : IsKeyed start
unfolding program
start-IsKeyed id a h = ground (arith, eq_iff "r1" id)

approve-once_example :
    approve world "r1" "eve" approved_firewall
    ≡ (err (value_error "approval is already decided"), approved_firewall)
approve-once_example =
    approve-once world "r1" "bob" "eve" start approved_firewall approved_token start-IsKeyed
      approved

collect-same_example : (collect world "r1" start).1 ≡ start
collect-same_example = collect-same world "r1" start start-IsKeyed

abbrev denied_request : PendingApproval
denied_request = record request { status = "denied" }

abbrev denied_start : Firewall
denied_start = record start {
  storage = record start.storage { approvals = ("r1", denied_request) ∷ [] };
}

denied_there : lookup "r1" denied_start.storage.approvals ≡ some denied_request
unfolding program
denied_there = refl

abbrev waiting : ActionReview
waiting = record {
  review_id = "v1";
  jti = "child";
  action_id = "a1";
  action_name = "sync";
  classification = unknown;
  revoked_at = 9;
  revocation_root_jti = "root";
  reviewed = false;
  reviewed_by = none;
  reviewed_at = none;
}

abbrev reviewing : Firewall
reviewing = record start { storage = record start.storage { reviews = ("v1", waiting) ∷ [] } }

abbrev settled : ActionReview
settled = record waiting {
  reviewed = true;
  reviewed_by = some "bob";
  reviewed_at = some (world.clock 0);
}

review_resolved :
    resolve_review world "v1" "checked" "bob" reviewing
    ≡ (ok settled, (resolve_review world "v1" "checked" "bob" reviewing).1)
unfolding program
review_resolved = refl

resolve_review-IsResolved_example :
    ((collapse false false "checked" == "") ≡ false)
    × ((old : ActionReview) × (lookup "v1" reviewing.storage.reviews ≡ some old)
        × IsResolved old "bob" settled (resolve_review world "v1" "checked" "bob" reviewing).1)
resolve_review-IsResolved_example =
    resolve_review-IsResolved world "v1" "checked" "bob" reviewing
      (resolve_review world "v1" "checked" "bob" reviewing).1 settled review_resolved

abbrev handle : ActionHandle
handle = record {
  action_id = "a1";
  jti = "child";
  name = "sync";
  scope = "read";
  reversibility = irreversible;
  notes = [];
}

open_there : lookup "a1" start.storage.actions ≡ some open_record
unfolding program
open_there = refl

finish_action-closes_example :
    ((finish_action world handle child_claims (some (value_error "x")) start).0
      ≡ outcome_result world (some (value_error "x")))
    × (lookup "a1"
          (finish_action world handle child_claims (some (value_error "x")) start).1.storage.actions
        ≡ some (
            closed_as
              (outcome_state (some (value_error "x")))
              (outcome_reason world (some (value_error "x")))
              (world.clock start.reads)
              open_record))
finish_action-closes_example =
    finish_action-closes world handle child_claims (some (value_error "x")) start open_record
      open_there
