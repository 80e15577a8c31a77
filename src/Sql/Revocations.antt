-- ===== src/Sql/Revocations.antt =====
-- storage/sql.py: `revoke_many` and `append_audit_batch`, against the memory storage.
use adf.Prelude.{
  ℕ, ◌+◌, length, String, Bool, false, not, ◌≡◌, refl, sym, ap, ◌∙◌, Option, none, some, List, [],
  ◌∷◌, ◌++◌, map, Dict, keep, contains, contains-keep, ◌∈◌, lookup, insert, lookup-insert, has_key,
  is_some, ◌&&◌, arith, eq_iff, Bool-cases, inl, inr, if◌then◌else◌,
}
use mathlib.Core.Path.{ap₂}
use mathlib.Core.List.{append-nil}
use adf.Errors.{Result, ok, integrity_error}
use adf.Exec.{Exec, continue, pure, lift, gets, ◌>>=◌}
use adf.Audit.Rows.{Row, row_with_id}
use adf.Storage
use adf.Storage.{Memory, Revocation, number_rows}
use adf.Storage.Revoked.{entry, lookup-revoke_many}
use adf.Storage.Walk.Rounds.{IsDistinct}
use adf.Sql.Table.{clashes, find, unnumbered, hashes, repeats}
use adf.Sql.Store.{
  Engine, Database, committed, revoked_in, revoked_among, insert_revocations, revocation_rows,
  commit_revocations, revoke_many,
}
use adf.Sql.Store.Logs.{insert_audit, append_audit_batch}
use adf.Sql.Refines.{Keys, Refines, Agrees, agree, opened, saves, with_revoked, with_audit}

pub contains-revoked_in :
    (rows : List Revocation) (jtis : List String) (k : String)
    → contains (revoked_in rows jtis) k
      ≡ (contains jtis k && contains (map (λ (r : Revocation). r.jti) rows) k)
contains-revoked_in [] jtis k = ground arith
contains-revoked_in (row ∷ rows) jtis k =
    ground (arith, contains-revoked_in rows jtis k, eq_iff row.jti k)

keep-ext :
    (p q : String → Bool) (xs : List String)
    → ((x : String) → x ∈ xs → p x ≡ q x)
    → keep p xs ≡ keep q xs
keep-ext p q [] h = refl
keep-ext p q (x ∷ xs) h =
    ground (arith, h x, eq_iff x x, keep-ext p q xs (λ y m. h y (ground (arith, m))))

pub keep-IsDistinct :
    (p : String → Bool) (xs : List String) → IsDistinct xs → IsDistinct (keep p xs)
keep-IsDistinct p [] d = tt
keep-IsDistinct p (x ∷ xs) d = elim (Bool-cases (p x)) [
  | inl yes_ ↦ rw yes_ (ground (arith, contains-keep p xs x, d.0), keep-IsDistinct p xs d.1)
  | inr no_ ↦ rw no_ (keep-IsDistinct p xs d.1)
]

module _ (root : String) (reason : Option String) (at : ℕ) where
  -- Where no token is listed twice, the new ones come back in the order of the list.
  newly-keep :
      (jtis : List String) (d : Dict Revocation)
      → IsDistinct jtis
      → (Storage.revoke_many jtis root reason at d).1 ≡ keep (λ j. not (has_key j d)) jtis
  unfolding Storage.revoke_many
  newly-keep [] d h = refl
  newly-keep (jti ∷ jtis) d h = elim (Bool-cases (has_key jti d)) [
    | inl old ↦ rw old (newly-keep jtis d h.1)
    | inr new ↦ rw new (
        ap (◌∷◌ jti) (
          newly-keep jtis (insert jti (entry jti root reason at) d) h.1
          ∙ keep-ext _ _ jtis (λ j m.
            ground
              (arith, lookup-insert jti j (entry jti root reason at) d, eq_iff jti j, h.0, m))))
  ]

  pub find-rows :
      (jtis : List String) (k : String)
      → find (λ (r : Revocation). r.jti) k (revocation_rows jtis root reason at)
        ≡ (if contains jtis k then some (entry k root reason at) else none)
  unfolding revocation_rows
  find-rows [] k = refl
  find-rows (jti ∷ jtis) k = ground (arith, find-rows jtis k, eq_iff jti k)

  contains-rows :
      (jtis : List String) (k : String)
      → contains (map (λ (r : Revocation). r.jti) (revocation_rows jtis root reason at)) k
        ≡ contains jtis k
  unfolding revocation_rows
  contains-rows [] k = refl
  contains-rows (jti ∷ jtis) k = ground (arith, contains-rows jtis k)

  pub no_clash :
      (stored : String → Option Revocation) (jtis : List String)
      → IsDistinct jtis
      → ((k : String) → k ∈ jtis → is_some (stored k) ≡ false)
      → clashes (λ (r : Revocation). r.jti) stored (revocation_rows jtis root reason at) ≡ false
  unfolding revocation_rows
  no_clash stored [] d h = refl
  no_clash stored (jti ∷ jtis) d h = ground (
    arith,
    h jti,
    eq_iff jti jti,
    contains-rows jtis jti,
    d.0,
    no_clash stored jtis d.1 (λ k m. h k (ground (arith, m))),
  )

-- the memory call
abbrev pub revoked_by :
    Memory → String → Option String → ℕ → List String → Result (List String) × Memory
revoked_by m root reason at jtis =
    let (d, newly) = Storage.revoke_many jtis root reason at m.revoked in
    (ok newly, record m { revoked = d })

module _ (e : Engine) (keys : Keys e) (db : Database e) (m : Memory) (r : Refines e db m)
    (root : String) (reason : Option String) (at : ℕ) where
  -- The commit of fresh tokens, no one twice, writes a record for each of them.
  commit_lem :
      (fresh : List String) (d : Dict Revocation)
      → IsDistinct fresh
      → ((k : String) → k ∈ fresh → has_key k m.revoked ≡ false)
      → ((k : String)
          → lookup k d
            ≡ (if contains fresh k then some (entry k root reason at) else lookup k m.revoked))
      → (db' : Database e) × (commit_revocations e fresh root reason at db ≡ (ok fresh, db'))
        × Refines e db' (record m { revoked = d })
  unfolding commit_revocations insert_revocations ◌>>=◌ pure lift
  commit_lem [] d once new after =
      (db, refl, with_revoked r db.revocations d (λ k. r.revoked k ∙ sym (after k)))
  commit_lem (x ∷ xs) d once new after =
      let rows : List Revocation = revocation_rows (x ∷ xs) root reason at in
      let put : e.revocations.State → Database e = λ s. record db { revocations = s } in
      let back : Result (Unit {0}) × Database e → Result (List String) × Database e =
        λ p. continue p.0 (λ _. pure (x ∷ xs)) p.1 in
      let (t, entered, reads) = keys.revocations.accepts rows db.revocations (
        no_clash root reason at (λ k. e.revocations.get k db.revocations) (x ∷ xs) once
          (λ k h. ap is_some (r.revoked k) ∙ new k h)) in
      (
        put t,
        opened (λ _. insert_revocations e rows >>= λ _. pure (x ∷ xs)) db r.db_open
            ∙ ap (λ o. back (committed e integrity_error put o db)) entered,
        with_revoked r t d (λ k.
            ground
              (arith, reads k, find-rows root reason at (x ∷ xs) k, r.revoked k, after k, new k)),
      )

  fresh_lem :
      (jtis : List String)
      → keep (λ k. not (contains (revoked_in (e.revocations.select db.revocations) jtis) k)) jtis
        ≡ keep (λ k. not (has_key k m.revoked)) jtis
  fresh_lem jtis = keep-ext _ _ jtis (λ k h. ground (
    arith,
    h,
    contains-revoked_in (e.revocations.select db.revocations) jtis k,
    keys.revocations.selects k db.revocations,
    r.revoked k,
  ))

  pub revoke_many-Agrees :
      (jtis : List String)
      → IsDistinct jtis
      → Agrees e (revoke_many e jtis root reason at db) (revoked_by m root reason at jtis)
  unfolding revoke_many revoked_among ◌>>=◌ gets Storage.revoke_many
  revoke_many-Agrees [] once = (refl, with_revoked r db.revocations m.revoked r.revoked)
  revoke_many-Agrees (j ∷ js) once =
      let jtis : List String = j ∷ js in
      let fresh : List String = keep (λ k. not (has_key k m.revoked)) jtis in
      let d : Dict Revocation = (Storage.revoke_many jtis root reason at m.revoked).0 in
      let next : List String → Exec (Database e) (List String) = λ already.
        commit_revocations e (keep (λ k. not (contains already k)) jtis) root reason at in
      let rows : List Revocation = e.revocations.select db.revocations in
      let (db', done, refines) =
        commit_lem fresh d (keep-IsDistinct (λ k. not (has_key k m.revoked)) jtis once)
          (λ k h. ground (arith, contains-keep (λ k. not (has_key k m.revoked)) jtis k, h))
          (λ k. ground (
            arith,
            lookup-revoke_many root reason at jtis m.revoked k,
            contains-keep (λ k. not (has_key k m.revoked)) jtis k,
          )) in
      agree
        (ap (λ p. continue p.0 next p.1)
            (opened (λ _. gets (λ db. revoked_in (e.revocations.select db.revocations) jtis)) db
              r.db_open)
          ∙ ap (λ l. commit_revocations e l root reason at db) (fresh_lem jtis)
          ∙ done)
        (ap (λ l. (ok l, record m { revoked = d })) (newly-keep root reason at jtis m.revoked once))
        (refl, refines)

unnumbered-number : (id : ℕ) (rows : List Row) → unnumbered (number_rows id rows) ≡ unnumbered rows
unfolding number_rows row_with_id
unnumbered-number id [] = refl
unnumbered-number id (row ∷ rows) =
    ap (◌∷◌ (record row { id = 0 })) (unnumbered-number (id + 1) rows)

pub unnumbered-append : (xs ys : List Row) → unnumbered (xs ++ ys) ≡ unnumbered xs ++ unnumbered ys
unfolding row_with_id
unnumbered-append [] ys = refl
unnumbered-append (x ∷ xs) ys = ap (◌∷◌ (record x { id = 0 })) (unnumbered-append xs ys)

hashes-unnumbered : (rows : List Row) → hashes (unnumbered rows) ≡ hashes rows
unfolding row_with_id
hashes-unnumbered [] = refl
hashes-unnumbered (row ∷ rows) = ap (◌∷◌ row.row_hash) (hashes-unnumbered rows)

module _ (e : Engine) (keys : Keys e) (db : Database e) (m : Memory) (r : Refines e db m) where
  pub append_audit_batch-Agrees :
      (rows : List Row)
      → repeats (hashes m.audit) (hashes rows) ≡ false
      → Agrees e (append_audit_batch e rows db) (ok tt, Storage.append_audit_batch rows m)
  unfolding append_audit_batch insert_audit Storage.append_audit_batch pure lift number_rows
  append_audit_batch-Agrees [] fresh = (
    refl,
    with_audit r db.audit (m.audit ++ []) (r.audit ∙ ap unnumbered (sym (append-nil m.audit))),
  )
  append_audit_batch-Agrees (row ∷ rows) fresh =
      let put : e.audit.State → Database e = λ s. record db { audit = s } in
      let same : hashes (e.audit.select db.audit) ≡ hashes m.audit =
        sym (hashes-unnumbered (e.audit.select db.audit))
        ∙ ap hashes r.audit
        ∙ hashes-unnumbered m.audit in
      let (t, entered, reads) =
        keys.audit.accepts (row ∷ rows) db.audit
          (ap (λ l. repeats l (hashes (row ∷ rows))) same ∙ fresh) in
      let numbered : List Row = number_rows (length m.audit + 1) (row ∷ rows) in
      agree (saves (insert_audit e (row ∷ rows)) integrity_error put db r.db_open entered refl) refl
        (
          refl,
          with_audit r t (m.audit ++ numbered) (
              reads
              ∙ ap₂ ◌++◌ r.audit (sym (unnumbered-number (length m.audit + 1) (row ∷ rows)))
              ∙ sym (unnumbered-append m.audit numbered)),
        )
