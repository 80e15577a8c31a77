-- ===== src/Service/Revocation/Answers.antt =====
-- checkpoint_service/engine/revocation.py: what one process answers over time, with Redis failing,
-- losing its keys or being started again in between.
use adf.Prelude.{
  ℕ, String, Bool, true, false, not, ◌≡◌, refl, sym, ap, ◌∙◌, subst, Option, none, some, List, keep,
  contains, contains-keep, ◌&&◌, ◌||◌, arith,
}
use adf.Errors.{Result, ok}
use adf.Storage.{Revocation}
use adf.Sql.Table.{IsKeyed}
use adf.Sql.Store.{revoked_in, revocation_rows}
use adf.Sql.Revocations.{contains-revoked_in, keep-IsDistinct, find-rows, no_clash}
use adf.Service.Redis.{IsRedis}
use adf.Service.Revocation.{
  Backend, Store, redis_at, collect_subtree, flushed, revoke_subtree, rebuild_cache, in_table,
  ask_member, ask_ready, ask_client, is_revoked, refilled, rebuild_at,
}
use adf.Service.Revocation.Mirror.{
  collect_subtree-IsDistinct, Mirrors, degrade-Mirrors, rebuild-Mirrors, cache_add-Mirrors,
}

module _ (b : Backend) (keys : IsKeyed b.revocations (λ r. r.jti)) (law : IsRedis b.redis) where
  fresh_in : Store b → List String → List String
  fresh_in s targets =
      keep (λ t. not (contains (revoked_in (b.revocations.select s.revocations) targets) t)) targets

  contains-fresh :
      (s : Store b) (targets : List String) (k : String)
      → contains (fresh_in s targets) k ≡ (contains targets k && not (in_table b s k))
  unfolding fresh_in
  contains-fresh s targets k = ground (
    arith,
    contains-keep (λ t. not (contains (revoked_in (b.revocations.select s.revocations) targets) t))
        targets k,
    contains-revoked_in (b.revocations.select s.revocations) targets k,
    keys.selects k s.revocations,
  )

  -- `revoke_subtree` returns the subtree, after which exactly its tokens are revoked besides those
  -- that were.
  pub revoke_subtree_lem :
      (jti : String) (reason : Option String) (at : ℕ) (s : Store b)
      → Mirrors b keys law s
      → ((revoke_subtree b jti reason at s).0 ≡ ok (collect_subtree b s jti))
        × Mirrors b keys law (revoke_subtree b jti reason at s).1
        × ((k : String)
            → in_table b (revoke_subtree b jti reason at s).1 k
              ≡ (in_table b s k || contains (collect_subtree b s jti) k))
  unfolding revoke_subtree fresh_in
  revoke_subtree_lem jti reason at s h =
      let targets : List String = collect_subtree b s jti in
      let fresh : List String = fresh_in s targets in
      let rows : List Revocation = revocation_rows fresh jti reason at in
      let (t, entered, reads) = keys.accepts rows s.revocations (
        no_clash jti reason at (λ k. b.revocations.get k s.revocations) fresh
          (keep-IsDistinct
            (λ t. not (contains (revoked_in (b.revocations.select s.revocations) targets) t))
            targets (collect_subtree-IsDistinct b s jti))
          (λ k m. ground (arith, contains-fresh s targets k, m))) in
      let s' : Store b = record s { revocations = t } in
      let grows : (k : String) → in_table b s' k ≡ (in_table b s k || contains targets k) =
        λ k. ground (arith, reads k, find-rows jti reason at fresh k, contains-fresh s targets k) in
      let (mirrors, same) = cache_add-Mirrors b keys law targets s s' refl h grows in
      subst
        (λ (x : Result (List String) × Store b).
          (x.0 ≡ ok targets)
          × Mirrors b keys law x.1
          × ((k : String) → in_table b x.1 k ≡ (in_table b s k || contains targets k)))
        (ap (flushed b targets s) (sym entered)) (refl, mirrors, λ k. same k ∙ grows k)

  -- A rebuild leaves the table alone.
  pub rebuild_cache-table :
      (s : Store b) (j : String) → in_table b (rebuild_cache b s).1 j ≡ in_table b s j
  unfolding rebuild_cache
  rebuild_cache-table s j = go (redis_at b s)
    where
      go : (o : Option b.redis.State) → in_table b (rebuild_at b s o).1 j ≡ in_table b s j
      go none = refl
      go (some c) = filled (b.redis.refill _ _ c)
        where
          filled : (o : Option b.redis.State) → in_table b (refilled b s o).1 j ≡ in_table b s j
          filled none = refl
          filled (some d) = refl

  -- With a session, `is_revoked` answers what the table says.
  pub is_revoked_lem :
      (jti : String) (s : Store b)
      → Mirrors b keys law s
      → ((is_revoked b true jti s).0 ≡ ok (in_table b s jti))
        × Mirrors b keys law (is_revoked b true jti s).1
        × ((k : String) → in_table b (is_revoked b true jti s).1 k ≡ in_table b s k)
  unfolding is_revoked
  is_revoked_lem jti s h = client_case (redis_at b s) refl
    where
      Answer : Result Bool × Store b → Type 0
      Answer x =
          (x.0 ≡ ok (in_table b s jti))
          × Mirrors b keys law x.1
          × ((k : String) → in_table b x.1 k ≡ in_table b s k)

      member_case :
          (c : b.redis.State) (o : Option Bool)
          → redis_at b s ≡ some c
          → law.ready c ≡ true
          → b.redis.sismember jti c ≡ o
          → Answer (ask_member b true jti s o)
      member_case c none e ready f = (refl, degrade-Mirrors b keys law s, λ k. refl)
      member_case c (some found) e ready f =
          (ap ok (sym (law.tells_member jti c found f) ∙ h c e ready jti), h, λ k. refl)

      ready_case :
          (c : b.redis.State) (o : Option Bool)
          → redis_at b s ≡ some c
          → b.redis.get_ready c ≡ o
          → Answer (ask_ready b true jti s c o)
      ready_case c none e f = (refl, degrade-Mirrors b keys law s, λ k. refl)
      ready_case c (some true) e f =
          member_case c (b.redis.sismember jti c) e (law.tells_ready c true f) refl
      ready_case c (some false) e f =
          (ap ok (rebuild_cache-table s jti), rebuild-Mirrors b keys law s h, rebuild_cache-table s)

      client_case :
          (o : Option b.redis.State) → redis_at b s ≡ o → Answer (ask_client b true jti s o)
      client_case none e = (refl, h, λ k. refl)
      client_case (some c) e = ready_case c (b.redis.get_ready c) e refl
