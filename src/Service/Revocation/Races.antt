-- ===== src/Service/Revocation/Races.antt =====
-- checkpoint_service/engine/revocation.py and db/session.py: two sessions, or two processes, over one
-- database and one Redis. A session sees its own rows before `session_scope` commits them.
use adf.Prelude.{
  ℕ, String, Bool, true, false, ◌≡◌, refl, ap, ◌∙◌, Option, none, some, List, [], ◌∷◌, is_some,
  arith,
}
use adf.Errors.{ok}
use adf.Sql.Table.{IsKeyed, Edge}
use adf.Service.Redis.{Redis, IsRedis}
use adf.Service.Revocation.{
  Backend, Store, client_if, degrade, redis_at, cache_add, mirror_revoked, flushed, collect_subtree,
  revoke_subtree, revoked_jtis, rebuild_cache, refilled, in_table, written, is_revoked,
}
use adf.Service.Revocation.Mirror.{Mirrors, degrade-Mirrors, collect_subtree-root}
use adf.Service.Revocation.Answers.{revoke_subtree_lem}

-- a Redis that answers every call
pub record IsUp (R : Redis) (law : IsRedis R) : Type 0 where
  pub answers_ready : (c : R.State) → R.get_ready c ≡ some (law.ready c)
  pub answers_member : (j : String) (c : R.State) → R.sismember j c ≡ some (law.holds c j)
  pub takes : (js : List String) (c : R.State) → (d : R.State) × (R.sadd js c ≡ some d)
  pub takes_all :
      (js : List String) (es : List Edge) (c : R.State)
      → (d : R.State) × (R.refill js es c ≡ some d)

module _ {b : Backend} where
  -- the view of a session: the rows that it sees, and what all of them share
  abbrev pub view : b.revocations.State → b.edges.State → Option b.redis.State → Bool → Store b
  view rows edges client available = record {
    revocations = rows;
    edges = edges;
    client = client;
    available = available;
  }

  -- another session rebuilds the cache meanwhile, as a process that starts does, from the rows that it
  -- sees
  abbrev pub rebuilt_from : b.revocations.State → Store b → Store b
  unfolding rebuild_cache
  rebuilt_from rows s = (rebuild_cache b (view rows s.edges s.client s.available)).1

  -- the state once the rows of the first session are committed, with what the other left in Redis
  abbrev pub once_committed : Store b → Store b → Store b
  once_committed ours theirs = record ours { client = theirs.client; available = theirs.available }

module _ (b : Backend) (keys : IsKeyed b.revocations (λ r. r.jti)) (law : IsRedis b.redis)
    (up : IsUp b.redis law) where
  -- the client that an answering Redis leaves, of which a fact holds
  abbrev Left : Store b → (b.redis.State → Type 0) → Type 0
  Left s P = (d : b.redis.State) × (s.client ≡ some d) × (s.available ≡ true) × P d

  written-Left :
      (s : Store b) (o : Option b.redis.State) (d : b.redis.State)
      → o ≡ some d
      → s.available ≡ true
      → Left (written b s o) (λ d. Unit)
  written-Left s none d e f = absurd (cc)
  written-Left s (some x) d e f = (x, refl, f, tt)

  mirror_revoked-Left :
      (js : List String) (s : Store b) (o : Option b.redis.State)
      → Left s (λ d. Unit)
      → Left (mirror_revoked b js s o) (λ d. Unit)
  mirror_revoked-Left js s none h = h
  mirror_revoked-Left [] s (some c) h = h
  mirror_revoked-Left (x ∷ xs) s (some c) (_, _, f, _) =
      let (d, g) = up.takes (x ∷ xs) c in written-Left s (b.redis.sadd (x ∷ xs) c) d g f

  cache_add-Left :
      (js : List String) (s : Store b) → Left s (λ d. Unit) → Left (cache_add b js s) (λ d. Unit)
  unfolding cache_add
  cache_add-Left js s h = mirror_revoked-Left js s (redis_at b s) h

  revoke_subtree-Left :
      (jti : String) (reason : Option String) (at : ℕ) (s : Store b)
      → Left s (λ d. Unit)
      → Left (revoke_subtree b jti reason at s).1 (λ d. Unit)
  unfolding revoke_subtree
  revoke_subtree-Left jti reason at s h = go (b.revocations.insert _ s.revocations)
    where
      go :
          (o : Option b.revocations.State)
          → Left (flushed b (collect_subtree b s jti) s o).1 (λ d. Unit)
      go none = h
      go (some t) = cache_add-Left (collect_subtree b s jti) (record s { revocations = t }) h

  -- a process that has given up on Redis leaves it as it is
  revoke_subtree-client :
      (jti : String) (reason : Option String) (at : ℕ) (s : Store b)
      → (revoke_subtree b jti reason at (degrade b s)).1.client ≡ s.client
  unfolding revoke_subtree cache_add
  revoke_subtree-client jti reason at s = go (b.revocations.insert _ s.revocations)
    where
      unasked :
          (js : List String) (o : Option b.redis.State) (x : Store b)
          → (mirror_revoked b js x (client_if b false o)).client ≡ x.client
      unasked js none x = refl
      unasked js (some c) x = refl

      go :
          (o : Option b.revocations.State)
          → (flushed b (collect_subtree b (degrade b s) jti) (degrade b s) o).1.client ≡ s.client
      go none = refl
      go (some t) =
          unasked (collect_subtree b (degrade b s) jti) s.client
            (record (degrade b s) { revocations = t })

  rebuilt_from-Left :
      (rows : b.revocations.State) (s : Store b)
      → Left s (λ d. Unit)
      → Left (rebuilt_from rows s) (λ d.
        (law.ready d ≡ true) × ((j : String) → law.holds d j ≡ is_some (b.revocations.get j rows)))
  unfolding rebuild_cache
  rebuilt_from-Left rows s (c, e, f, _) = go s.client s.available e f
    where
      Holds : b.redis.State → Type 0
      Holds d =
          (law.ready d ≡ true) × ((j : String) → law.holds d j ≡ is_some (b.revocations.get j rows))

      go :
          (o : Option b.redis.State) (a : Bool)
          → o ≡ some c
          → a ≡ true
          → Left (rebuild_cache b (view rows s.edges o a)).1 Holds
      go none a e f = absurd (cc)
      go (some x) false e f = absurd (cc)
      go (some x) true e f =
          let (d, g) = up.takes_all (revoked_jtis b s') (b.edges.select s.edges) x in
          filled (b.redis.refill (revoked_jtis b s') (b.edges.select s.edges) x) d refl g
        where
          s' : Store b
          s' = view rows s.edges (some x) true

          filled :
              (o : Option b.redis.State) (d : b.redis.State)
              → b.redis.refill (revoked_jtis b s') (b.edges.select s.edges) x ≡ o
              → b.redis.refill (revoked_jtis b s') (b.edges.select s.edges) x ≡ some d
              → Left (refilled b s' o).1 Holds
          filled none d p q = absurd (cc)
          filled (some y) d p q =
              let (ready, held) = law.refills (revoked_jtis b s') (b.edges.select s.edges) x y p in
              (y, refl, refl, (ready, λ j. held j ∙ keys.selects j rows))

  from_is_some : {A : Type 0} (o : Option A) → is_some o ≡ true → (a : A) × (o ≡ some a)
  from_is_some none h = absurd (ground (arith, h))
  from_is_some (some a) h = (a, refl)

  asks_cache :
      (j : String) (s : Store b) (d : b.redis.State)
      → s.client ≡ some d
      → s.available ≡ true
      → law.ready d ≡ true
      → (is_revoked b true j s).0 ≡ ok (law.holds d j)
  unfolding is_revoked
  asks_cache j s d e f ready = rw (e, f, up.answers_ready d, ready, up.answers_member j d) refl

  -- While a `revoke_subtree` that has mirrored its tokens still waits for its commit, another session
  -- that rebuilds the cache takes the token out of it again and sets the sentinel: after the commit
  -- the row is there, and yet `is_revoked` answers that the token is not revoked, though no call to
  -- Redis failed.
  pub overtaken :
      (jti : String) (reason : Option String) (at : ℕ) (s : Store b)
      → Mirrors b keys law s
      → is_some s.client ≡ true
      → s.available ≡ true
      → in_table b s jti ≡ false
      → let ours = (revoke_subtree b jti reason at s).1 in
        let after = once_committed ours (rebuilt_from s.revocations ours) in
        (in_table b after jti ≡ true) × ((is_revoked b true jti after).0 ≡ ok false)
  overtaken jti reason at s h up_client up_flag free =
      let ours : Store b = (revoke_subtree b jti reason at s).1 in
      let (c, e) = from_is_some s.client up_client in
      let (_, _, grows) = revoke_subtree_lem b keys law jti reason at s h in
      let (d, f, g, (ready, held)) =
        rebuilt_from-Left s.revocations ours
          (revoke_subtree-Left jti reason at s (c, e, up_flag, tt)) in
      let after : Store b = once_committed ours (rebuilt_from s.revocations ours) in
      (
        ground (arith, grows jti, collect_subtree-root b s jti),
        asks_cache jti after d f g ready ∙ ap ok (held jti ∙ free),
      )

  -- A process that has given up on Redis revokes a token; another one, whose client still answers with
  -- the sentinel, goes on saying that the token is not revoked, though it sees the committed row.
  pub unreached :
      (jti : String) (reason : Option String) (at : ℕ) (s : Store b) (c : b.redis.State)
      → Mirrors b keys law s
      → s.client ≡ some c
      → law.ready c ≡ true
      → law.holds c jti ≡ false
      → let ours = (revoke_subtree b jti reason at (degrade b s)).1 in
        let other = record ours { client = ours.client; available = true } in
        (in_table b other jti ≡ true) × ((is_revoked b true jti other).0 ≡ ok false)
  unreached jti reason at s c h e ready held =
      let (_, _, grows) =
        revoke_subtree_lem b keys law jti reason at (degrade b s) (degrade-Mirrors b keys law s) in
      let ours : Store b = (revoke_subtree b jti reason at (degrade b s)).1 in
      let other : Store b = record ours { client = ours.client; available = true } in
      (
        ground (arith, grows jti, collect_subtree-root b (degrade b s) jti),
        asks_cache jti other c (revoke_subtree-client jti reason at s ∙ e) refl ready ∙ ap ok held,
      )
