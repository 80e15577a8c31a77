-- ===== src/Service/Revocation.antt =====
-- checkpoint_service/engine/revocation.py: `RevocationStore`, in the view of one session, with the
-- client and the flag of db/redis_client.py. Latencies and log messages are left out.
pub mod Subtree
pub mod Mirror
pub mod Answers
pub mod Events
pub mod Races
use adf.Prelude.{
  ℕ, suc, String, Bool, true, false, not, Option, none, some, List, [], ◌∷◌, map, keep, contains,
  length, is_some, if◌then◌else◌,
}
use adf.Errors.{Result, ok, err, integrity_error, runtime_error}
use adf.Exec.{Exec}
use adf.Storage.{Revocation}
use adf.Storage.Walk.{loop, start}
use adf.Sql.Table.{Table, Edge}
use adf.Sql.Store.{children_in, all_children, revoked_in, revocation_rows}
use adf.Service.Redis.{Redis}

pub record Backend : Type 1 where
  pub revocations : Table Revocation
  pub edges : Table Edge
  pub redis : Redis

pub record RevocationStore (b : Backend) : Type 0 where
  pub revocations : b.revocations.State
  pub edges : b.edges.State
  pub client : Option b.redis.State
  pub available : Bool

module _ (b : Backend) where
  abbrev pub Store : Type 0
  Store = RevocationStore b

  -- `get_redis()`, where `redis_available()`
  abbrev pub client_if : Bool → Option b.redis.State → Option b.redis.State
  client_if available none = none
  client_if available (some c) = if available then some c else none

  abbrev pub redis_at : Store → Option b.redis.State
  redis_at s = client_if s.available s.client

  -- `mark_unavailable`
  abbrev pub degrade : Store → Store
  degrade s = record s { available = false }

  -- what a write to Redis leaves
  abbrev pub written : Store → Option b.redis.State → Store
  written s none = degrade s
  written s (some c) = record s { client = some c }

  abbrev pub mirror_edge : String → String → Store → Option b.redis.State → Store
  mirror_edge p k s none = s
  mirror_edge p k s (some c) = written s (b.redis.sadd_edge p k c)

  abbrev pub edge_flushed : Store → Option b.edges.State → Store
  edge_flushed s none = s
  edge_flushed s (some t) = record s { edges = t }

  -- a duplicate edge is already recorded; the rollback takes nothing else where the session has no other
  -- pending row
  unfoldable pub record_edge : String → String → Store → Store
  record_edge p k s =
      let s' =
        edge_flushed s (b.edges.insert (record { parent_jti = p; child_jti = k } ∷ []) s.edges) in
      mirror_edge p k s' (redis_at s')

  unfoldable pub collect_subtree : Store → String → List String
  unfolding loop
  collect_subtree s root =
      let edges = b.edges.select s.edges in
      (loop (children_in edges) (suc (length (all_children edges))) (start root)).order

  abbrev pub mirror_revoked : List String → Store → Option b.redis.State → Store
  mirror_revoked jtis s none = s
  mirror_revoked [] s (some c) = s
  mirror_revoked (j ∷ js) s (some c) = written s (b.redis.sadd (j ∷ js) c)

  -- `_cache_add`
  unfoldable pub cache_add : List String → Store → Store
  cache_add jtis s = mirror_revoked jtis s (redis_at s)

  abbrev pub flushed :
      List String → Store → Option b.revocations.State → Result (List String) × Store
  unfolding cache_add
  flushed targets s none = (err integrity_error, s)
  flushed targets s (some t) = (ok targets, cache_add targets (record s { revocations = t }))

  -- the rows are flushed and mirrored; the session's owner commits them later
  unfoldable pub revoke_subtree : String → Option String → ℕ → Exec Store (List String)
  unfolding collect_subtree cache_add revocation_rows
  revoke_subtree jti reason at s =
      let targets = collect_subtree s jti in
      let already = revoked_in (b.revocations.select s.revocations) targets in
      let fresh = keep (λ t. not (contains already t)) targets in
      flushed targets s (b.revocations.insert (revocation_rows fresh jti reason at) s.revocations)

  abbrev pub revoked_jtis : Store → List String
  revoked_jtis s = map (λ (r : Revocation). r.jti) (b.revocations.select s.revocations)

  abbrev pub refilled : Store → Option b.redis.State → ℕ × Store
  refilled s none = (0, degrade s)
  refilled s (some c) = (length (revoked_jtis s), record s { client = some c })

  abbrev pub rebuild_at : Store → Option b.redis.State → ℕ × Store
  rebuild_at s none = (0, s)
  rebuild_at s (some c) = refilled s (b.redis.refill (revoked_jtis s) (b.edges.select s.edges) c)

  unfoldable pub rebuild_cache : Store → ℕ × Store
  rebuild_cache s = rebuild_at s (redis_at s)

  -- `session.get(Revocation, jti) is not None`
  abbrev pub in_table : Store → String → Bool
  in_table s jti = is_some (b.revocations.get jti s.revocations)

  -- the database, where a session was passed; else no answer rather than "not revoked"
  abbrev pub from_table : Bool → String → Exec Store Bool
  from_table false jti s = (err (runtime_error "refusing to answer (would fail open)"), s)
  from_table true jti s = (ok (in_table s jti), s)

  abbrev pub ask_member : Bool → String → Store → Option Bool → Result Bool × Store
  ask_member session jti s none = from_table session jti (degrade s)
  ask_member session jti s (some found) = (ok found, s)

  -- the sentinel is missing
  abbrev pub repair : Bool → String → Exec Store Bool
  unfolding rebuild_cache
  repair false jti s = from_table false jti s
  repair true jti s = from_table true jti (rebuild_cache s).1

  abbrev pub ask_ready : Bool → String → Store → b.redis.State → Option Bool → Result Bool × Store
  ask_ready session jti s c none = from_table session jti (degrade s)
  ask_ready session jti s c (some true) = ask_member session jti s (b.redis.sismember jti c)
  ask_ready session jti s c (some false) = repair session jti s

  abbrev pub ask_client : Bool → String → Store → Option b.redis.State → Result Bool × Store
  ask_client session jti s none = from_table session jti s
  ask_client session jti s (some c) = ask_ready session jti s c (b.redis.get_ready c)

  -- `session`: whether a session is passed
  unfoldable pub is_revoked : Bool → String → Exec Store Bool
  unfolding rebuild_cache
  is_revoked session jti s = ask_client session jti s (redis_at s)

  -- as `_revoked_among` reads the table
  unfoldable pub revoked_among : Store → List String → List String
  revoked_among s jtis = revoked_in (b.revocations.select s.revocations) jtis
