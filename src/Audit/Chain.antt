-- ===== src/Audit/Chain.antt =====
-- The order of the rows in the hash chain: what a chained log is, for the writer and the verifier.
pub mod Tamper
use adf.Prelude.{
  ℕ, zero, suc, ◌+◌, String, Bool, ◌≡◌, ◌≢◌, refl, ap, sym, ◌∙◌, true, false, ◌↔◌, Option, none,
  some, List, [], ◌∷◌, ◌++◌, ◌==◌, arith, eq_iff, length, last?, if◌then◌else◌,
}
use adf.Env.{Env}
use adf.Models.{IntegrityReport}
use adf.Storage.{Memory, audit_tail_hash, number_rows, append_audit_batch}
use adf.Audit.Rows.{AuditEvent, Row, row_with_id}
use adf.Audit.{
  genesis_hash, canonical_content, compute_row_hash, chain_rows, current_tail, log_batch, broken,
  verify_from, verify_integrity,
}

module _ (env : Env) where
  -- each row names its predecessor's hash and carries its own
  abbrev pub IsChained : String → List Row → Type 0
  IsChained prev [] = Unit
  IsChained prev (row ∷ rows) =
      (row.prev_hash ≡ prev)
      × (row.row_hash ≡ compute_row_hash env prev row.event)
      × IsChained row.row_hash rows

  -- the hash of the last row
  abbrev pub tail_of : String → List Row → String
  tail_of prev [] = prev
  tail_of prev (row ∷ rows) = tail_of row.row_hash rows

  pub verify_from-chained :
      (index : ℕ) (prev : String) (rows : List Row)
      → IsChained prev rows
      → verify_from env index prev rows
        ≡ record { intact = true; rows_checked = index + length rows; first_broken_row_id = none }
  unfolding verify_from
  verify_from-chained index prev [] c = ground arith
  verify_from-chained index prev (row ∷ rows) c = ground (
    arith,
    eq_iff row.prev_hash prev,
    eq_iff (compute_row_hash env prev row.event) row.row_hash,
    verify_from-chained (index + 1) row.row_hash rows,
  )

  pub IsChained-verify_from :
      (index : ℕ) (prev : String) (rows : List Row)
      → (verify_from env index prev rows).intact ≡ true
      → IsChained prev rows
  unfolding verify_from
  IsChained-verify_from index prev [] h = tt
  IsChained-verify_from index prev (row ∷ rows) h = ground (
    arith,
    eq_iff row.prev_hash prev,
    eq_iff (compute_row_hash env prev row.event) row.row_hash,
    IsChained-verify_from (index + 1) row.row_hash rows,
  )

  -- The verifier reports an intact log exactly where every row names its predecessor's hash and
  -- carries the hash of its own content, from the genesis hash on.
  pub verify_integrity_iff :
      (m : Memory) → ((verify_integrity env m).intact ≡ true) ↔ IsChained genesis_hash m.audit
  unfolding verify_integrity
  verify_integrity_iff m = (
    IsChained-verify_from 0 genesis_hash m.audit,
    λ c. ap (λ (r : IntegrityReport). r.intact) (verify_from-chained 0 genesis_hash m.audit c),
  )

  -- The writer's tail is the hash of the last stored row.
  abbrev pub IsSynced : Option String → Memory → Type 0
  IsSynced tail m = current_tail tail m ≡ tail_of genesis_hash m.audit

  pub record IsSound (tail : Option String) (m : Memory) : Type 0 where
    pub chained : IsChained genesis_hash m.audit
    pub synced : IsSynced tail m

  pub IsChained-append :
      (prev : String) (xs ys : List Row)
      → IsChained prev xs
      → IsChained (tail_of prev xs) ys
      → IsChained prev (xs ++ ys)
  IsChained-append prev [] ys cx cy = cy
  IsChained-append prev (x ∷ xs) ys cx cy = (cx.0, cx.1, IsChained-append x.row_hash xs ys cx.2 cy)

  pub IsChained-prefix :
      (prev : String) (xs ys : List Row) → IsChained prev (xs ++ ys) → IsChained prev xs
  IsChained-prefix prev [] ys c = tt
  IsChained-prefix prev (x ∷ xs) ys c = (c.0, c.1, IsChained-prefix x.row_hash xs ys c.2)

  pub tail_of-append :
      (prev : String) (xs ys : List Row) → tail_of prev (xs ++ ys) ≡ tail_of (tail_of prev xs) ys
  tail_of-append prev [] ys = refl
  tail_of-append prev (x ∷ xs) ys = tail_of-append x.row_hash xs ys

  number_rows-IsChained :
      (id : ℕ) (prev : String) (rows : List Row)
      → IsChained prev rows
      → IsChained prev (number_rows id rows)
  unfolding number_rows row_with_id
  number_rows-IsChained id prev [] c = tt
  number_rows-IsChained id prev (row ∷ rows) c =
      (c.0, c.1, number_rows-IsChained (id + 1) row.row_hash rows c.2)

  tail_of-number_rows :
      (id : ℕ) (prev : String) (rows : List Row)
      → tail_of prev (number_rows id rows) ≡ tail_of prev rows
  unfolding number_rows row_with_id
  tail_of-number_rows id prev [] = refl
  tail_of-number_rows id prev (row ∷ rows) = tail_of-number_rows (id + 1) row.row_hash rows

  pub chain_rows-IsChained :
      (prev : String) (es : List AuditEvent)
      → IsChained prev (chain_rows env prev es).0
        × (tail_of prev (chain_rows env prev es).0 ≡ (chain_rows env prev es).1)
  unfolding chain_rows
  chain_rows-IsChained prev [] = (tt, refl)
  chain_rows-IsChained prev (e ∷ es) =
      let rest = chain_rows-IsChained (compute_row_hash env prev e) es in
      ((refl, refl, rest.0), rest.1)

  -- A batch of events, of any length, leaves a chained log and a tail that matches it.
  pub log_batch-IsSound :
      (es : List AuditEvent) (tail : Option String) (m : Memory)
      → IsSound tail m
      → IsSound (log_batch env es tail m).0 (log_batch env es tail m).1
  unfolding log_batch append_audit_batch
  log_batch-IsSound [] tail m s = s
  log_batch-IsSound (e ∷ es) tail m s =
      let prev = current_tail tail m in
      let rows = (chain_rows env prev (e ∷ es)).0 in
      let made = chain_rows-IsChained prev (e ∷ es) in
      let id = length m.audit + 1 in
      record {
        chained =
            IsChained-append genesis_hash m.audit (number_rows id rows) s.chained
              (rw (← s.synced) (number_rows-IsChained id prev rows made.0));
        synced = sym (
            tail_of-append genesis_hash m.audit (number_rows id rows)
            ∙ rw (← s.synced) (tail_of-number_rows id prev rows ∙ made.1));
      }
