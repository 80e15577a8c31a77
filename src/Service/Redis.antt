-- ===== src/Service/Redis.antt =====
-- What checkpoint_service/engine/revocation.py takes from a Redis client: the set of revoked tokens, the
-- sets of edges and the sentinel; and guardrails.py the window of the rate limiter. A call is `none` where it raises.
use adf.Prelude.{ℕ, String, Bool, true, ◌≡◌, Option, some, List, contains, ◌||◌}
use adf.Sql.Table.{Edge}

pub record Redis : Type 1 where
  pub State : Type 0
  -- `bool(client.get(CACHE_READY_KEY))`
  pub get_ready : State → Option Bool
  -- `client.sismember(REVOKED_SET_KEY, jti)`
  pub sismember : String → State → Option Bool
  -- `client.sadd(REVOKED_SET_KEY, *jtis)`
  pub sadd : List String → State → Option State
  -- `client.sadd(EDGES_KEY_PREFIX + parent_jti, child_jti)`
  pub sadd_edge : String → String → State → Option State
  -- the pipeline of `rebuild_cache`: the set deleted and filled, the edges added, the sentinel set
  pub refill : List String → List Edge → State → Option State
  -- the pipeline of `RateLimiter.check` at `key`, `now` and `window`: the entries before the window
  -- are removed, one is added, and those left are counted
  pub hit : String → ℕ → ℕ → State → Option (ℕ × State)

-- What the server holds, and that an answer, where there is one, tells it.
pub record IsRedis (R : Redis) : Type 0 where
  pub ready : R.State → Bool
  pub holds : R.State → String → Bool
  pub tells_ready : (c : R.State) (b : Bool) → R.get_ready c ≡ some b → ready c ≡ b
  pub tells_member :
      (j : String) (c : R.State) (b : Bool) → R.sismember j c ≡ some b → holds c j ≡ b
  pub adds :
      (js : List String) (c d : R.State)
      → R.sadd js c ≡ some d
      → (ready d ≡ ready c) × ((j : String) → holds d j ≡ (holds c j || contains js j))
  pub adds_edge :
      (p k : String) (c d : R.State)
      → R.sadd_edge p k c ≡ some d
      → (ready d ≡ ready c) × ((j : String) → holds d j ≡ holds c j)
  pub refills :
      (js : List String) (es : List Edge) (c d : R.State)
      → R.refill js es c ≡ some d
      → (ready d ≡ true) × ((j : String) → holds d j ≡ contains js j)
  pub hits :
      (key : String) (now window n : ℕ) (c d : R.State)
      → R.hit key now window c ≡ some (n, d)
      → (ready d ≡ ready c) × ((j : String) → holds d j ≡ holds c j)
