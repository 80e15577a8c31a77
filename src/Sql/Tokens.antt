-- ===== src/Sql/Tokens.antt =====
-- storage/sql.py: tokens, edges and questions of revocation, against the memory storage.
use adf.Prelude.{
  String, Bool, true, false, ◌≡◌, refl, sym, ap, ◌∙◌, some, [], ◌∷◌, ◌++◌, contains, insert,
  lookup-insert, has_key, is_some, ◌==◌, ◌&&◌, ◌||◌, arith, eq_iff, contains-append, Bool-cases,
  inl, inr, if◌then◌else◌,
}
use adf.Errors.{Error, ok, err, storage_error}
use adf.Exec.{Exec, raise, gets, modify, ◌>>=◌}
use adf.Models.{TokenMetadata}
use adf.Storage
use adf.Storage.{Memory, children}
use adf.Sql.Table.{accepts_one, rejects_one}
use adf.Sql.Store.{
  Engine, Database, insert_token, put_token, get_token, add_edge, is_revoked, edge_committed,
}
use adf.Sql.Refines.{
  Keys, Refines, Agrees, settled, attempt, agree, opened, saves, with_tokens, with_edges,
}

then_branch {ℓ} : {A : Type ℓ} (b : Bool) (x y : A) → b ≡ true → (if b then x else y) ≡ x
then_branch true x y h = refl
then_branch false x y h = cc

else_branch {ℓ} : {A : Type ℓ} (b : Bool) (x y : A) → b ≡ false → (if b then x else y) ≡ y
else_branch true x y h = cc
else_branch false x y h = refl

module _ (e : Engine) (keys : Keys e) (db : Database e) (m : Memory) (r : Refines e db m) where
  pub put_token-Agrees :
      (meta : TokenMetadata) → Agrees e (put_token e meta db) (attempt (Storage.put_token meta) m)
  unfolding put_token insert_token Storage.put_token
  put_token-Agrees meta =
      let exc : Error = storage_error "token already recorded" in
      let put : e.tokens.State → Database e = λ s. record db { tokens = s } in
      elim (Bool-cases (has_key meta.jti m.tokens)) [
        | inl taken ↦
            let refused =
              rejects_one keys.tokens meta db.tokens (ap is_some (r.tokens meta.jti) ∙ taken) in
            let kept : Storage.put_token meta m ≡ err exc = rw taken refl in
            agree (saves (insert_token e meta) exc put db r.db_open refused refl)
              (ap (settled m) kept) (refl, r)
        | inr free ↦
            let (t, entered, reads) =
              accepts_one keys.tokens meta db.tokens (ap is_some (r.tokens meta.jti) ∙ free) in
            let stored : Storage.put_token meta m
                ≡ ok (record m { tokens = insert meta.jti meta m.tokens }) =
              rw free refl in
            agree (saves (insert_token e meta) exc put db r.db_open entered refl)
              (ap (settled m) stored)
              (
                refl,
                with_tokens r t (insert meta.jti meta m.tokens) (λ k.
                    reads k
                    ∙ ap (λ o. if meta.jti == k then some meta else o) (r.tokens k)
                    ∙ sym (lookup-insert meta.jti k meta m.tokens)),
              )
      ]

  pub get_token-Agrees :
      (jti : String) → Agrees e (get_token e jti db) (ok (Storage.get_token m jti), m)
  unfolding get_token gets Storage.get_token
  get_token-Agrees jti = agree (opened _ db r.db_open) refl (ap ok (r.tokens jti), r)

  pub is_revoked-Agrees :
      (jti : String) → Agrees e (is_revoked e jti db) (Storage.is_revoked m jti, m)
  unfolding is_revoked Storage.is_revoked ◌>>=◌
  is_revoked-Agrees jti =
      let answer : Exec (Database e) Bool =
        gets (λ db. is_some (e.revocations.get jti db.revocations)) in
      let lost : Exec (Database e) Bool =
        raise (storage_error "cannot determine revocation state") in
      agree
        (opened (λ _. do reachable ← gets (λ db. db.reachable); if reachable then answer else lost)
            db r.db_open
          ∙ ap (λ f. f db) (then_branch db.reachable answer lost r.reachable))
        (ap (λ x. (x, m)) (else_branch m.closed _ _ r.memory_open))
        (ap (λ o. ok (is_some o)) (r.revoked jti), r)

  -- the children after an edge was added
  children-add :
      (p c p' c' : String)
      → contains (children (Storage.add_edge p c m).edges p') c'
        ≡ (contains (children m.edges p') c' || p == p' && c == c')
  unfolding Storage.add_edge
  children-add p c p' c' = ground (
    arith,
    lookup-insert p p'
        (if contains (children m.edges p) c
          then children m.edges p
          else children m.edges p ++ c ∷ [])
        m.edges,
    contains-append (children m.edges p) (c ∷ []) c',
    eq_iff p p',
    eq_iff c c',
  )

  pub add_edge-Agrees :
      (p c : String) → Agrees e (add_edge e p c db) (ok tt, Storage.add_edge p c m)
  unfolding add_edge modify Storage.add_edge
  add_edge-Agrees p c = elim (Bool-cases (contains (children m.edges p) c)) [
    | inl old ↦
        let refused = keys.edges.rejects p c db.edges (r.edges p c ∙ old) in
        agree (opened _ db r.db_open ∙ ap (λ x. (ok tt, edge_committed e x db)) refused) refl (
          refl,
          with_edges r db.edges (Storage.add_edge p c m).edges (λ p' c'.
              ground (arith, r.edges p' c', children-add p c p' c', eq_iff p p', eq_iff c c', old)),
        )
    | inr new ↦
        let (t, entered, reads) = keys.edges.accepts p c db.edges (r.edges p c ∙ new) in
        agree (opened _ db r.db_open ∙ ap (λ x. (ok tt, edge_committed e x db)) entered) refl (
          refl,
          with_edges r t (Storage.add_edge p c m).edges
              (λ p' c'. ground (arith, reads p' c', r.edges p' c', children-add p c p' c')),
        )
  ]
