-- ===== src/Service/Revocation/Mirror.antt =====
-- checkpoint_service/engine/revocation.py: the mirror in Redis, in one process.
use adf.Prelude.{ℕ}
use adf.Prelude.{
  suc, String, Bool, true, false, ◌≡◌, refl, sym, ap, ◌∙◌, subst, Option, none, some, List, [], ◌∷◌,
  contains, ◌∈◌, length, ◌||◌, arith, eq_iff,
}
use adf.Storage.Walk.{Walk, expand, start}
use adf.Storage.Walk.Rounds.{
  IsDistinct, distinct-offer_all, seen-offer_all, order-offer_all, loop_keeps,
}
use adf.Sql.Table.{IsKeyed}
use adf.Sql.Store.{children_in, all_children}
use adf.Service.Redis.{IsRedis}
use adf.Service.Revocation.{
  Backend, Store, client_if, redis_at, degrade, written, mirror_edge, edge_flushed, record_edge,
  collect_subtree, mirror_revoked, cache_add, revoked_jtis, refilled, rebuild_at, rebuild_cache,
  in_table,
}

-- A subtree lists no token twice.
pub collect_subtree-IsDistinct :
    (b : Backend) (s : Store b) (root : String) → IsDistinct (collect_subtree b s root)
unfolding collect_subtree
collect_subtree-IsDistinct b s root =
    let next = children_in (b.edges.select s.edges) in
    let (same, once) =
      loop_keeps next (λ (w : Walk). (w.order ≡ w.seen) × IsDistinct w.seen) (kept next)
        (suc (length (all_children (b.edges.select s.edges)))) (start root) (refl, (refl, tt)) in
    subst IsDistinct (sym same) once
  where
    kept :
        (next : List String → List String) (w : Walk)
        → (w.order ≡ w.seen) × IsDistinct w.seen
        → ((expand next w).order ≡ (expand next w).seen) × IsDistinct (expand next w).seen
    kept next w (same, once) = (
      order-offer_all (record w { queue = [] }) (next w.queue) same,
      distinct-offer_all (record w { queue = [] }) (next w.queue) once,
    )

-- The root of a subtree is one of its tokens.
pub collect_subtree-root :
    (b : Backend) (s : Store b) (root : String) → root ∈ collect_subtree b s root
unfolding collect_subtree
collect_subtree-root b s root =
    let next = children_in (b.edges.select s.edges) in
    let (same, met) =
      loop_keeps next (λ (w : Walk). (w.order ≡ w.seen) × (root ∈ w.seen)) (kept next)
        (suc (length (all_children (b.edges.select s.edges)))) (start root)
        (refl, ground (arith, eq_iff root root)) in
    subst (λ o. root ∈ o) (sym same) met
  where
    kept :
        (next : List String → List String) (w : Walk)
        → (w.order ≡ w.seen) × (root ∈ w.seen)
        → ((expand next w).order ≡ (expand next w).seen) × (root ∈ (expand next w).seen)
    kept next w (same, met) = (
      order-offer_all (record w { queue = [] }) (next w.queue) same,
      ground (arith, seen-offer_all (record w { queue = [] }) (next w.queue) root, met),
    )

module _ (b : Backend) (keys : IsKeyed b.revocations (λ r. r.jti)) (law : IsRedis b.redis) where
  abbrev pub MirrorsAt : Option b.redis.State → (String → Bool) → Type 0
  MirrorsAt o table =
      (c : b.redis.State) → o ≡ some c → law.ready c ≡ true → (j : String) → law.holds c j ≡ table j

  -- a client that is asked and carries the sentinel holds exactly the revoked tokens of the table
  abbrev pub Mirrors : Store b → Type 0
  Mirrors s = MirrorsAt (redis_at b s) (in_table b s)

  at_none : (table : String → Bool) → MirrorsAt none table
  at_none table c e ready j = cc

  at_false :
      (o : Option b.redis.State) (table : String → Bool) → MirrorsAt (client_if b false o) table
  at_false none table = at_none table
  at_false (some c) table = at_none table

  at_some :
      (d : b.redis.State) (table : String → Bool)
      → (law.ready d ≡ true → (j : String) → law.holds d j ≡ table j)
      → MirrorsAt (some d) table
  at_some d table h c e ready j =
      let same : d ≡ c = cc in
      subst (λ x. law.holds x j ≡ table j) same
        (h (subst (λ x. law.ready x ≡ true) (sym same) ready) j)

  at_if :
      (a : Bool) (d : b.redis.State) (table : String → Bool)
      → (law.ready d ≡ true → (j : String) → law.holds d j ≡ table j)
      → MirrorsAt (client_if b a (some d)) table
  at_if true d table h = at_some d table h
  at_if false d table h = at_none table

  pub degrade-Mirrors : (s : Store b) → Mirrors (degrade b s)
  degrade-Mirrors s = at_false s.client (in_table b s)

  written-Mirrors :
      (s : Store b) (o : Option b.redis.State)
      → ((d : b.redis.State)
          → o ≡ some d
          → law.ready d ≡ true
          → (j : String) → law.holds d j ≡ in_table b s j)
      → Mirrors (written b s o)
  written-Mirrors s none h = degrade-Mirrors s
  written-Mirrors s (some d) h = at_if s.available d (in_table b s) (h d refl)

  -- The rate limiter leaves the set and the sentinel alone.
  pub hit-Mirrors :
      (s : Store b) (key : String) (now window n : ℕ) (c d : b.redis.State)
      → redis_at b s ≡ some c
      → b.redis.hit key now window c ≡ some (n, d)
      → Mirrors s
      → Mirrors (record s { client = some d })
  hit-Mirrors s key now window n c d asked e h =
      let (kept, same) = law.hits key now window n c d e in
      at_if s.available d (in_table b s) (λ ready j. same j ∙ h c asked (sym kept ∙ ready) j)

  -- A rebuilt cache mirrors the table, whatever it held before.
  pub restart-Mirrors :
      (s : Store b) → (redis_at b s ≡ none → Mirrors s) → Mirrors (rebuild_cache b s).1
  unfolding rebuild_cache
  restart-Mirrors s h = go (redis_at b s) refl
    where
      go : (o : Option b.redis.State) → redis_at b s ≡ o → Mirrors (rebuild_at b s o).1
      go none e = h e
      go (some c) e =
          refill_case (b.redis.refill (revoked_jtis b s) (b.edges.select s.edges) c) refl
        where
          refill_case :
              (o : Option b.redis.State)
              → b.redis.refill (revoked_jtis b s) (b.edges.select s.edges) c ≡ o
              → Mirrors (refilled b s o).1
          refill_case none f = degrade-Mirrors s
          refill_case (some d) f =
              at_if s.available d (in_table b s)
                (λ _ j. (law.refills _ _ c d f).1 j ∙ keys.selects j s.revocations)

  pub rebuild-Mirrors : (s : Store b) → Mirrors s → Mirrors (rebuild_cache b s).1
  rebuild-Mirrors s h = restart-Mirrors s (λ e. h)

  -- The edges are not read back from Redis.
  pub record_edge-Mirrors :
      (p k : String) (s : Store b)
      → Mirrors s
      → Mirrors (record_edge b p k s)
        × ((j : String) → in_table b (record_edge b p k s) j ≡ in_table b s j)
  unfolding record_edge
  record_edge-Mirrors p k s h =
      edge_case (b.edges.insert (record { parent_jti = p; child_jti = k } ∷ []) s.edges)
    where
      mirror_case :
          (s' : Store b) (o : Option b.redis.State)
          → redis_at b s' ≡ o
          → Mirrors s'
          → Mirrors (mirror_edge b p k s' o)
            × ((j : String) → in_table b (mirror_edge b p k s' o) j ≡ in_table b s' j)
      mirror_case s' none e m = (m, λ j. refl)
      mirror_case s' (some c) e m = (
        written-Mirrors s' (b.redis.sadd_edge p k c) (λ d f ready j.
            let (kept, same) = law.adds_edge p k c d f in same j ∙ m c e (sym kept ∙ ready) j),
        λ j. written_table (b.redis.sadd_edge p k c) j,
      )
        where
          written_table :
              (o : Option b.redis.State) (j : String)
              → in_table b (written b s' o) j ≡ in_table b s' j
          written_table none j = refl
          written_table (some d) j = refl

      edge_case :
          (o : Option b.edges.State)
          → Mirrors (mirror_edge b p k (edge_flushed b s o) (redis_at b (edge_flushed b s o)))
            × ((j : String)
                → in_table b
                    (mirror_edge b p k (edge_flushed b s o) (redis_at b (edge_flushed b s o)))
                    j
                  ≡ in_table b s j)
      edge_case none = mirror_case s (redis_at b s) refl h
      edge_case (some t) = mirror_case (record s { edges = t }) (redis_at b s) refl h

  pub cache_add-Mirrors :
      (js : List String) (s s' : Store b)
      → redis_at b s' ≡ redis_at b s
      → Mirrors s
      → ((j : String) → in_table b s' j ≡ (in_table b s j || contains js j))
      → Mirrors (cache_add b js s')
        × ((j : String) → in_table b (cache_add b js s') j ≡ in_table b s' j)
  unfolding cache_add
  cache_add-Mirrors js s s' same h grows = go js (redis_at b s') refl grows
    where
      written_table :
          (o : Option b.redis.State) (j : String) → in_table b (written b s' o) j ≡ in_table b s' j
      written_table none j = refl
      written_table (some d) j = refl

      go :
          (js : List String) (o : Option b.redis.State)
          → redis_at b s' ≡ o
          → ((j : String) → in_table b s' j ≡ (in_table b s j || contains js j))
          → Mirrors (mirror_revoked b js s' o)
            × ((j : String) → in_table b (mirror_revoked b js s' o) j ≡ in_table b s' j)
      go js none e g = (λ c f. absurd (cc), λ j. refl)
      go [] (some c) e g =
          (λ d f ready j. h d (sym same ∙ f) ready j ∙ ground (arith, g j), λ j. refl)
      go (x ∷ xs) (some c) e g = (
        written-Mirrors s' (b.redis.sadd (x ∷ xs) c) (λ d f ready j.
            let (kept, held) = law.adds (x ∷ xs) c d f in
            held j
            ∙ ap (λ t. t || contains (x ∷ xs) j) (h c (sym same ∙ e) (sym kept ∙ ready) j)
            ∙ sym (g j)),
        written_table (b.redis.sadd (x ∷ xs) c),
      )
