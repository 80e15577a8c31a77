-- ===== src/Tests/Parts.antt =====
-- The theorems on the audit log, the storage, the guardrails, the tokens and the policy.
use Prim.Native.String
use adf.Prelude.{String, true, ◌≡◌, ◌≢◌, ◌↔◌, refl, none, List, [], ◌∷◌, lookup, arith, eq_iff, ◌∈◌}
use mathlib.Core.List.{reverse}
use adf.Prelude.{some}
use adf.Firewall.Lineage.{walk_up, lineage}
use adf.Firewall.Lineage.Ends.{IsFiled, lineage-enough}
use adf.Tests.Data.{root_record}
use adf.Tests.{program}
use adf.Tests.Data.{world, stocked}
use adf.Audit.{genesis_hash, canonical_content, verify_integrity, broken}
use adf.Audit.Rows.{AuditEvent, Row}
use adf.Audit.Chain.{IsChained, IsSound, verify_integrity_iff}
use adf.Audit.Chain.Tamper.{
  verify_integrity-modified, verify_integrity-removed, verify_integrity-truncated,
}
use adf.Storage.{Memory, empty_memory}
use adf.Storage.Walk.{descendants_breadth_first}
use adf.Storage.Descendants.{IsBelow, mem-descendants_breadth_first}

abbrev event : String → AuditEvent
event action = record {
  action = action;
  actor_id = none;
  actor_hash = none;
  jti = none;
  parent_jti = none;
  root_jti = none;
  scopes = none;
  denied_scopes = none;
  required_scope = none;
  decision = none;
  reason = none;
  depth = none;
  detail = none;
  event_ts = "t";
}

abbrev first_row : Row
first_row = record {
  id = 1;
  event = event "a";
  prev_hash = genesis_hash;
  row_hash = String.◌++◌ genesis_hash "a";
}

abbrev second_row : Row
second_row = record {
  id = 2;
  event = event "b";
  prev_hash = String.◌++◌ genesis_hash "a";
  row_hash = String.◌++◌ (String.◌++◌ genesis_hash "a") "b";
}

rows-IsChained : IsChained world genesis_hash (first_row ∷ second_row ∷ [])
unfolding program
rows-IsChained = (refl, refl, (refl, refl, tt))

abbrev logged : List Row → Memory
logged rows = record empty_memory { audit = rows }

verify_integrity_iff_example :
    ((verify_integrity world (logged (first_row ∷ second_row ∷ []))).intact ≡ true)
    ↔ IsChained world genesis_hash (first_row ∷ second_row ∷ [])
verify_integrity_iff_example = verify_integrity_iff world (logged (first_row ∷ second_row ∷ []))

content_changed : canonical_content world (event "x") ≢ canonical_content world second_row.event
unfolding program
content_changed h = ground (arith, eq_iff "x" "b")

verify_integrity-modified_example :
    verify_integrity world (logged (first_row ∷ record second_row { event = event "x" } ∷ []))
    ≡ broken 1 2
verify_integrity-modified_example =
    verify_integrity-modified world
      (logged (first_row ∷ record second_row { event = event "x" } ∷ [])) (first_row ∷ []) []
      second_row (event "x") (λ h. h) rows-IsChained refl content_changed

hash_moved : first_row.row_hash ≢ first_row.prev_hash
hash_moved h = ground (arith, eq_iff first_row.row_hash first_row.prev_hash)

verify_integrity-removed_example : verify_integrity world (logged (second_row ∷ [])) ≡ broken 0 2
verify_integrity-removed_example =
    verify_integrity-removed world (logged (second_row ∷ [])) [] [] first_row second_row
      rows-IsChained refl hash_moved

verify_integrity-truncated_example :
    (verify_integrity world (logged (first_row ∷ []))).intact ≡ true
verify_integrity-truncated_example =
    verify_integrity-truncated world (logged (first_row ∷ [])) (first_row ∷ []) (second_row ∷ [])
      rows-IsChained refl

empty-IsSound : IsSound world none empty_memory
unfolding program
empty-IsSound = record { chained = tt; synced = refl }

mem-descendants_breadth_first_example :
    ("child" ∈ descendants_breadth_first stocked "root" → IsBelow stocked.edges "root" "child")
    × (IsBelow stocked.edges "root" "child" → "child" ∈ descendants_breadth_first stocked "root")
mem-descendants_breadth_first_example = mem-descendants_breadth_first stocked "root" "child"

stocked-IsFiled : IsFiled stocked
unfolding program
stocked-IsFiled jti meta h = ground (arith, eq_iff "root" jti)

root_stored : lookup "root" stocked.tokens ≡ some root_record
unfolding program
root_stored = refl

lineage-enough_example :
    lineage stocked root_record ≡ reverse (walk_up 2 stocked [] (some root_record))
lineage-enough_example =
    lineage-enough stocked root_record 2 stocked-IsFiled root_stored (omega arith)
