-- ===== src/Service/Revocation/Events.antt =====
-- checkpoint_service/engine/revocation.py, container.py and db/redis_client.py: one process over time.
use adf.Prelude.{
  ℕ, String, Bool, true, false, ◌≡◌, ap, ◌∙◌, Option, none, some, List, [], ◌∷◌, is_some, arith,
}
use adf.Errors.{ok}
use adf.Sql.Table.{IsKeyed}
use adf.Service.Redis.{IsRedis}
use adf.Service.Revocation.{
  Backend, Store, client_if, record_edge, revoke_subtree, rebuild_cache, in_table, is_revoked,
}
use adf.Service.Revocation.Subtree.{IsUnder, mem-collect_subtree}
use adf.Service.Revocation.Mirror.{
  Mirrors, MirrorsAt, record_edge-Mirrors, restart-Mirrors, rebuild-Mirrors,
}
use adf.Service.Revocation.Answers.{revoke_subtree_lem, is_revoked_lem, rebuild_cache-table}

-- `init_redis` with the client that connects, or none, and then `AppContainer.startup`
unfoldable pub start_up : (b : Backend) → Option b.redis.State → Store b → Store b
unfolding rebuild_cache
start_up b client s = (rebuild_cache b (record s { client = client; available = is_some client })).1

module _ (b : Backend) (keys : IsKeyed b.revocations (λ r. r.jti)) (law : IsRedis b.redis) where
  -- what the process does, and what happens to it
  pub data Event : Type 0 where
    revoking : String → Option String → ℕ → Event
    asking : String → Event
    linking : String → String → Event
    rebuilding : Event
    -- the server lost its keys: whatever it holds now, the sentinel is not among it
    losing : (c : b.redis.State) → law.ready c ≡ false → Event
    starting : Option b.redis.State → Event

  abbrev pub lose : b.redis.State → Option b.redis.State → Option b.redis.State
  lose c none = none
  lose c (some _) = some c

  unfoldable pub happens : Event → Store b → Store b
  unfolding revoke_subtree is_revoked record_edge rebuild_cache start_up
  happens (revoking jti reason at) s = (revoke_subtree b jti reason at s).1
  happens (asking jti) s = (is_revoked b true jti s).1
  happens (linking p k) s = record_edge b p k s
  happens rebuilding s = (rebuild_cache b s).1
  happens (losing c _) s = record s { client = lose c s.client }
  happens (starting client) s = start_up b client s

  unfoldable pub happen : List Event → Store b → Store b
  unfolding happens
  happen [] s = s
  happen (v ∷ vs) s = happen vs (happens v s)

  losing-Mirrors :
      (c : b.redis.State)
      → law.ready c ≡ false
      → (a : Bool) (o : Option b.redis.State) (table : String → Bool)
      → MirrorsAt b keys law (client_if b a (lose c o)) table
  losing-Mirrors c h a none table d e ready j = cc
  losing-Mirrors c h true (some x) table d e ready j =
      let same : c ≡ d = cc in absurd (ground (arith, h, ready, ap law.ready same))
  losing-Mirrors c h false (some x) table d e ready j = cc

  start_up-Mirrors :
      (client : Option b.redis.State) (s : Store b)
      → Mirrors b keys law (start_up b client s)
        × ((j : String) → in_table b (start_up b client s) j ≡ in_table b s j)
  unfolding start_up
  start_up-Mirrors client s =
      let s' : Store b = record s { client = client; available = is_some client } in
      (restart-Mirrors b keys law s' (λ e c f. absurd (cc)), rebuild_cache-table b keys law s')

  happens-Mirrors :
      (v : Event) (s : Store b)
      → Mirrors b keys law s
      → Mirrors b keys law (happens v s)
        × ((j : String) → in_table b s j ≡ true → in_table b (happens v s) j ≡ true)
  unfolding happens
  happens-Mirrors (revoking jti reason at) s h =
      let (_, mirrors, grows) = revoke_subtree_lem b keys law jti reason at s h in
      (mirrors, λ j old. ground (arith, grows j, old))
  happens-Mirrors (asking jti) s h =
      let (_, mirrors, same) = is_revoked_lem b keys law jti s h in (mirrors, λ j old. same j ∙ old)
  happens-Mirrors (linking p k) s h =
      let (mirrors, same) = record_edge-Mirrors b keys law p k s h in
      (mirrors, λ j old. same j ∙ old)
  happens-Mirrors rebuilding s h =
      (rebuild-Mirrors b keys law s h, λ j old. rebuild_cache-table b keys law s j ∙ old)
  happens-Mirrors (losing c lost) s h =
      (losing-Mirrors c lost s.available s.client (in_table b s), λ j old. old)
  happens-Mirrors (starting client) s h =
      let (mirrors, same) = start_up-Mirrors client s in (mirrors, λ j old. same j ∙ old)

  happen-Mirrors :
      (vs : List Event) (s : Store b)
      → Mirrors b keys law s
      → Mirrors b keys law (happen vs s)
        × ((j : String) → in_table b s j ≡ true → in_table b (happen vs s) j ≡ true)
  unfolding happen
  happen-Mirrors [] s h = (h, λ j old. old)
  happen-Mirrors (v ∷ vs) s h =
      let (mirrors, stays) = happens-Mirrors v s h in
      let (last, on) = happen-Mirrors vs (happens v s) mirrors in
      (last, λ j old. on j (stays j old))

  -- In one process whose cache mirrors the table: a token that `revoke_subtree` was given, or that the
  -- edges in the table lead to from it when it runs, is answered as revoked after whatever happens
  -- next, failing calls, lost keys and new starts included; and the answer for any token is then what
  -- the table says.
  pub is_revoked-always :
      (jti : String) (reason : Option String) (at : ℕ) (vs : List Event) (s : Store b) (j : String)
      → Mirrors b keys law s
      → IsUnder (b.edges.select s.edges) jti j
      → let later = happen vs (revoke_subtree b jti reason at s).1 in
        ((is_revoked b true j later).0 ≡ ok true)
        × ((k : String) → (is_revoked b true k later).0 ≡ ok (in_table b later k))
  is_revoked-always jti reason at vs s j h under =
      let (_, mirrors, grows) = revoke_subtree_lem b keys law jti reason at s h in
      let (last, stays) = happen-Mirrors vs (revoke_subtree b jti reason at s).1 mirrors in
      let answers : (k : String)
          → (is_revoked b true k (happen vs (revoke_subtree b jti reason at s).1)).0
            ≡ ok (in_table b (happen vs (revoke_subtree b jti reason at s).1) k) =
        λ k.
          (is_revoked_lem b keys law k (happen vs (revoke_subtree b jti reason at s).1) last).0 in
      (
        answers j
            ∙ ap ok (stays j (ground (arith, grows j, (mem-collect_subtree b s jti j).1 under))),
        answers,
      )
