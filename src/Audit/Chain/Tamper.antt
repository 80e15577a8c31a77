-- ===== src/Audit/Chain/Tamper.antt =====
-- Tampering with a stored log: a changed row, a row taken out, rows taken off the end.
use Prim.Native.String
use Prim.Native.String.append
use adf.Prelude.{
  ℕ, ◌+◌, String, ◌≡◌, ◌≢◌, ap, sym, ◌∙◌, true, List, [], ◌∷◌, ◌++◌, arith, eq_iff, length,
}
use adf.Env.{Env}
use adf.Storage.{Memory}
use adf.Audit.Rows.{AuditEvent, Row}
use adf.Audit.{
  genesis_hash, canonical_content, compute_row_hash, broken, verify_from, verify_integrity,
}
use adf.Audit.Chain.{IsChained, tail_of, IsChained-prefix, verify_integrity_iff}

append_cancel : (p s t : String) → String.◌++◌ p s ≡ String.◌++◌ p t → s ≡ t
append_cancel String.[] s t h = sym (append.nil s) ∙ h ∙ append.nil t
append_cancel (String.◌∷◌ c p) s t h =
    append_cancel p s t (cc (append.cons c p s, append.cons c p t))

module _ (env : Env) where
  verify_from-append :
      (index : ℕ) (prev : String) (xs ys : List Row)
      → IsChained env prev xs
      → verify_from env index prev (xs ++ ys)
        ≡ verify_from env (index + length xs) (tail_of env prev xs) ys
  unfolding verify_from
  verify_from-append index prev [] ys c = ground arith
  verify_from-append index prev (x ∷ xs) ys c = ground (
    arith,
    eq_iff x.prev_hash prev,
    eq_iff (compute_row_hash env prev x.event) x.row_hash,
    verify_from-append (index + 1) x.row_hash xs ys c.2,
  )

  IsChained-suffix :
      (prev : String) (xs ys : List Row)
      → IsChained env prev (xs ++ ys)
      → IsChained env (tail_of env prev xs) ys
  IsChained-suffix prev [] ys c = c
  IsChained-suffix prev (x ∷ xs) ys c = IsChained-suffix x.row_hash xs ys c.2

  -- `sha256` tells these two texts apart
  abbrev pub NoCollision : String → String → Type 0
  NoCollision s t = env.sha256 s ≡ env.sha256 t → s ≡ t

  hash_changed :
      (prev : String) (e e' : AuditEvent)
      → NoCollision
          (String.◌++◌ prev (canonical_content env e))
          (String.◌++◌ prev (canonical_content env e'))
      → canonical_content env e ≢ canonical_content env e'
      → compute_row_hash env prev e ≢ compute_row_hash env prev e'
  unfolding compute_row_hash
  hash_changed prev e e' injective changed h = changed (append_cancel prev _ _ (injective h))

  modified_head :
      (index : ℕ) (prev : String) (row : Row) (e : AuditEvent) (after : List Row)
      → row.prev_hash ≡ prev
      → compute_row_hash env prev e ≢ row.row_hash
      → verify_from env index prev (record row { event = e } ∷ after) ≡ broken index row.id
  unfolding verify_from
  modified_head index prev row e after named differs =
      ground (arith, eq_iff row.prev_hash prev, eq_iff (compute_row_hash env prev e) row.row_hash)

  misplaced_head :
      (index : ℕ) (prev : String) (row : Row) (after : List Row)
      → row.prev_hash ≢ prev
      → verify_from env index prev (row ∷ after) ≡ broken index row.id
  unfolding verify_from
  misplaced_head index prev row after named = ground (arith, eq_iff row.prev_hash prev)

  -- Where `sha256` does not collide on the old and the new text, changing the hashed content of one stored row of a chained log
  -- is reported at that row: the rows before it pass, and the report names it.
  pub verify_integrity-modified :
      (m : Memory) (before after : List Row) (row : Row) (e : AuditEvent)
      → NoCollision
          (String.◌++◌ (tail_of env genesis_hash before) (canonical_content env e))
          (String.◌++◌ (tail_of env genesis_hash before) (canonical_content env row.event))
      → IsChained env genesis_hash (before ++ row ∷ after)
      → m.audit ≡ before ++ record row { event = e } ∷ after
      → canonical_content env e ≢ canonical_content env row.event
      → verify_integrity env m ≡ broken (length before) row.id
  unfolding verify_integrity
  verify_integrity-modified m before after row e injective c stored changed =
      let prev = tail_of env genesis_hash before in
      let here = IsChained-suffix genesis_hash before (row ∷ after) c in
      let differs = hash_changed prev e row.event injective changed in
      ap (verify_from env 0 genesis_hash) stored
      ∙ verify_from-append 0 genesis_hash before _
          (IsChained-prefix env genesis_hash before (row ∷ after) c)
      ∙ modified_head (0 + length before) prev row e after here.0 (λ h. differs (h ∙ here.1))
      ∙ ap (λ n. broken n row.id) (omega arith)

  -- Taking one row out of the middle of a chained log is reported at the row that follows it, unless
  -- the row's hash happens to be the hash before it.
  pub verify_integrity-removed :
      (m : Memory) (before after : List Row) (row next : Row)
      → IsChained env genesis_hash (before ++ row ∷ next ∷ after)
      → m.audit ≡ before ++ next ∷ after
      → row.row_hash ≢ row.prev_hash
      → verify_integrity env m ≡ broken (length before) next.id
  unfolding verify_integrity
  verify_integrity-removed m before after row next c stored moved =
      let prev = tail_of env genesis_hash before in
      let here = IsChained-suffix genesis_hash before (row ∷ next ∷ after) c in
      ap (verify_from env 0 genesis_hash) stored
      ∙ verify_from-append 0 genesis_hash before _
          (IsChained-prefix env genesis_hash before (row ∷ next ∷ after) c)
      ∙ misplaced_head (0 + length before) prev next after
          (λ h. moved (sym here.2.0 ∙ h ∙ sym here.0))
      ∙ ap (λ n. broken n next.id) (omega arith)

  -- Taking rows off the end of a chained log is never reported: what is left is intact.
  pub verify_integrity-truncated :
      (m : Memory) (kept removed : List Row)
      → IsChained env genesis_hash (kept ++ removed)
      → m.audit ≡ kept
      → (verify_integrity env m).intact ≡ true
  verify_integrity-truncated m kept removed c stored =
      (verify_integrity_iff env m).1 (rw stored (IsChained-prefix env genesis_hash kept removed c))
