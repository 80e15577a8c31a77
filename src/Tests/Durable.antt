-- ===== src/Tests/Durable.antt =====
-- The theorems on the durable storage, at a database that stands for the memory storage of the examples.
use adf.Prelude.{String, true, false, ◌≡◌, ◌↔◌, refl, none, some, List, [], ◌∷◌, ◌∈◌, arith, eq_iff}
use adf.Errors.{ok}
use adf.Models.{ActionReview, partial, check_review}
use adf.Storage
use adf.Storage.Walk
use adf.Storage.Walk.Rounds.{IsDistinct}
use adf.Sql.Records.{action_row, to_action, review_row, to_review, to_action-row}
use adf.Sql.Store.{Database, descendants_breadth_first}
use adf.Sql.Refines.{Refines}
use adf.Sql.Walk.{descendants_breadth_first-same}
use adf.Sql.Runs.{
  Call, adding_edge, asking_revoked, revoking, closing_action, asking_action, asking_approval,
  asking_review, asking_tail, run_database, run_memory, AllFit, run_database-Refines,
}
use adf.Tests.{program}
use adf.Tests.Data.{root_record, request, open_record, stocked}
use adf.Tests.Tables.{lists, lists-Keys}

abbrev filled : Database lists
unfolding action_row
filled = record {
  tokens = root_record ∷ [];
  edges = record { parent_jti = "root"; child_jti = "child" } ∷ [];
  revocations = [];
  subjects = [];
  audit = [];
  approvals = request ∷ [];
  actions = action_row open_record ∷ [];
  reviews = [];
  reachable = true;
  closed = false;
}

filled-Refines : Refines lists filled stocked
unfolding program
filled-Refines = record {
  db_open = refl;
  memory_open = refl;
  reachable = refl;
  tokens = λ k. refl;
  edges = λ p c. ground (arith, eq_iff "root" p);
  revoked = λ k. refl;
  audit = refl;
  approvals = λ k. refl;
  actions = λ k. ground (arith, eq_iff "a1" k);
  reviews = λ k. refl;
}

-- a second token under the root, and the revocation of all three
abbrev script : List Call
script =
    adding_edge "root" "other"
    ∷ revoking ("root" ∷ "child" ∷ "other" ∷ []) "root" none 5
    ∷ revoking ("child" ∷ "new" ∷ []) "child" none 6
    ∷ asking_revoked "child"
    ∷ closing_action "a1" partial 9 (some "boom")
    ∷ asking_action "a1"
    ∷ asking_approval "p1"
    ∷ asking_review "v1"
    ∷ asking_tail
    ∷ []

script-AllFit : AllFit script stocked
unfolding program
script-AllFit = (
  tt,
  (
    (refl, (refl, (refl, tt))),
    ((refl, (refl, tt)), (tt, (tt, (tt, (tt, ((λ a h. absurd (cc)), (tt, tt))))))),
  ),
)

run_database-Refines_example :
    ((run_database lists script filled).0 ≡ (run_memory script stocked).0)
    × Refines lists (run_database lists script filled).1 (run_memory script stocked).1
run_database-Refines_example =
    run_database-Refines lists lists-Keys script filled stocked filled-Refines script-AllFit

descendants_breadth_first-same_example :
    (order : List String) × (descendants_breadth_first lists "root" filled ≡ (ok order, filled))
    × IsDistinct order
    × ((v : String) → (v ∈ order) ↔ (v ∈ Storage.Walk.descendants_breadth_first stocked "root"))
descendants_breadth_first-same_example =
    descendants_breadth_first-same lists filled stocked filled-Refines "root"

abbrev to_review_later : ActionReview
to_review_later = record {
  review_id = "v1";
  jti = "child";
  action_id = "a1";
  action_name = "sync";
  classification = partial;
  revoked_at = 5;
  revocation_root_jti = "root";
  reviewed = false;
  reviewed_by = none;
  reviewed_at = none;
}

accepted : check_review to_review_later ≡ ok to_review_later
unfolding program
accepted = refl

to_action-row_example :
    (to_action (action_row open_record) ≡ ok open_record)
    × (to_review (review_row to_review_later) ≡ ok to_review_later)
to_action-row_example = to_action-row open_record to_review_later accepted
