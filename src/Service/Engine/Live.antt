-- ===== src/Service/Engine/Live.antt =====
-- checkpoint_service/engine: what the checks of a request read, where the cache mirrors the table.
use adf.Prelude.{
  ℕ, ◌≤◌, String, Bool, true, false, ◌≡◌, refl, sym, ◌∙◌, Option, none, some, List, [], ◌∷◌, ◌∈◌,
  arith, eq_iff,
}
use adf.Errors.{Result, ok, err}
use adf.Exec.{pure, ◌>>=◌}
use adf.Exec.Rules.{
  Keeps, keeps_rules, Gives, Gives-bind, Gives-if, Gives-pure, Gives-fact, Gives-weaken, Post,
}
use adf.Env.{Env}
use adf.Time.{timestamp}
use adf.Guardrails.Rate.{window_seconds}
use adf.Audit.Rows.{AuditEvent}
use adf.Sql.Table.{IsKeyed}
use adf.Service.Redis.{IsRedis}
use adf.Service.Revocation.{Store, client_if, in_table, is_revoked}
use adf.Service.Revocation.Mirror.{Mirrors, degrade-Mirrors, hit-Mirrors}
use adf.Service.Revocation.Answers.{is_revoked_lem}
use adf.Service.Engine.{Platform, Engine, view, with_view, on_view, ask_revoked, any_revoked}
use adf.Service.Engine.Guards.{
  utcnow, utcnow_ts, new_event, log, observe_at, observe, require_closed, rate_key, spend_local,
  spent_redis, spend_with, spend_at, spend,
}

module _ (env : Env) (p : Platform) (keys : IsKeyed p.backend.revocations (λ r. r.jti))
    (law : IsRedis p.backend.redis) (before : Engine p) where
  -- the cache mirrors the table, which is that of the state before, as are the settings
  pub record IsLive (s : Engine p) : Type 0 where
    pub mirrors : Mirrors p.backend keys law (view p s)
    pub table :
        (j : String) → in_table p.backend (view p s) j ≡ in_table p.backend (view p before) j
    pub settings : s.settings ≡ before.settings
    pub reads : before.reads ≤ s.reads

  abbrev pub IsReading : ℕ → Type 0
  IsReading now = (k : ℕ) × (before.reads ≤ k) × (now ≡ timestamp (env.clock k))

  abbrev pub IsLiveToken : String → Type 0
  IsLiveToken jti = in_table p.backend (view p before) jti ≡ false

  pub utcnow-IsLive : Keeps IsLive (utcnow env p)
  unfolding utcnow
  utcnow-IsLive = record {
    at = λ s h. record {
      mirrors = h.mirrors;
      table = h.table;
      settings = h.settings;
      reads = omega (arith, h.reads);
    };
  }

  spend_local-IsLive :
      (now : ℕ) (subject action : String) (s : Engine p)
      → IsLive s
      → IsLive (spend_local env p now subject action s).1
  unfolding spend_local
  spend_local-IsLive now subject action s h = record {
    mirrors = h.mirrors;
    table = h.table;
    settings = h.settings;
    reads = h.reads;
  }

  spend_at-IsLive :
      (now : ℕ) (subject action : String) → Keeps IsLive (spend_at env p now subject action)
  unfolding spend_at spend_with spent_redis
  spend_at-IsLive now subject action = record {
    at = λ s h. go s h (client_if p.backend s.available s.client) refl;
  }
    where
      hit_case :
          (s : Engine p) (c : p.backend.redis.State) (o : Option (ℕ × p.backend.redis.State))
          → IsLive s
          → client_if p.backend s.available s.client ≡ some c
          → p.backend.redis.hit (rate_key env p action subject) now window_seconds c ≡ o
          → IsLive (spent_redis env p now subject action s o).1
      hit_case s c none h e f =
          spend_local-IsLive now subject action (record s { available = false })
            (record {
              mirrors = degrade-Mirrors p.backend keys law (view p s);
              table = h.table;
              settings = h.settings;
              reads = h.reads;
            })
      hit_case s c (some (n, d)) h e f = record {
        mirrors =
            hit-Mirrors p.backend keys law (view p s) (rate_key env p action subject) now
              window_seconds n c d e f h.mirrors;
        table = h.table;
        settings = h.settings;
        reads = h.reads;
      }

      go :
          (s : Engine p)
          → IsLive s
          → (o : Option p.backend.redis.State) → client_if p.backend s.available s.client ≡ o
          → IsLive (spend_with env p now subject action s o).1
      go s h none e = spend_local-IsLive now subject action s h
      go s h (some c) e =
          hit_case s c (p.backend.redis.hit (rate_key env p action subject) now window_seconds c) h
            e refl

  pub spend-IsLive : (subject action : String) → Keeps IsLive (spend env p subject action)
  unfolding spend
  spend-IsLive subject action = search (keeps_rules, utcnow-IsLive, spend_at-IsLive)

  pub utcnow_ts-gives : Gives IsLive (utcnow_ts env p) (λ now s. IsLive s × IsReading now)
  unfolding utcnow_ts utcnow ◌>>=◌ pure
  utcnow_ts-gives = record { at = λ s h. (utcnow-IsLive.at s h, (s.reads, h.reads, refl)) }

  with_view-IsLive :
      (s : Engine p) (x : Store p.backend)
      → IsLive s
      → Mirrors p.backend keys law x
      → ((j : String) → in_table p.backend x j ≡ in_table p.backend (view p s) j)
      → IsLive (with_view p s x)
  with_view-IsLive s x h m same = record {
    mirrors = m;
    table = λ j. same j ∙ h.table j;
    settings = h.settings;
    reads = h.reads;
  }

  asked :
      (jti : String) (s : Engine p) (out : Result Bool × Store p.backend)
      → IsLive s
      → (out.0 ≡ ok (in_table p.backend (view p s) jti))
        × Mirrors p.backend keys law out.1
        × ((j : String) → in_table p.backend out.1 j ≡ in_table p.backend (view p s) j)
      → Post
          (λ found s. IsLive s × (found ≡ in_table p.backend (view p before) jti))
          (on_view p s out)
  asked jti s (ok found, x) h (answer, m, same) =
      (with_view-IsLive s x h m same, ok_injective answer ∙ h.table jti)
    where
      ok_injective : {a b : Bool} → Result.ok a ≡ ok b → a ≡ b
      ok_injective e = cc
  asked jti s (err exc, x) h q = tt

  pub ask_revoked-gives :
      (jti : String)
      → Gives IsLive
          (ask_revoked p jti)
          (λ found s. IsLive s × (found ≡ in_table p.backend (view p before) jti))
  unfolding ask_revoked
  ask_revoked-gives jti = record {
    at = λ s h.
        asked jti s (is_revoked p.backend true jti (view p s)) h
          (is_revoked_lem p.backend keys law jti (view p s) h.mirrors);
  }

  pub ask_revoked-IsLive : (jti : String) → Keeps IsLive (ask_revoked p jti)
  unfolding ask_revoked
  ask_revoked-IsLive jti = record {
    at = λ s h.
        let (_, m, same) = is_revoked_lem p.backend keys law jti (view p s) h.mirrors in
        with_view-IsLive s (is_revoked p.backend true jti (view p s)).1 h m same;
  }

  abbrev pub AreLive : List String → Type 0
  AreLive jtis = (jti : String) → jti ∈ jtis → IsLiveToken jti

  add_live :
      (jti : String) (jtis : List String) → IsLiveToken jti → AreLive jtis → AreLive (jti ∷ jtis)
  add_live jti jtis live rest j m = ground (arith, eq_iff jti j, rest j)

  pub any_revoked-gives :
      (jtis : List String)
      → Gives IsLive (any_revoked p jtis) (λ lost s. IsLive s × (lost ≡ false → AreLive jtis))
  unfolding any_revoked
  any_revoked-gives [] = Gives-weaken (λ b s (h, e). (h, λ _ j m. ground arith)) (Gives-pure false)
  any_revoked-gives (jti ∷ jtis) = Gives-bind (ask_revoked-gives jti) λ found. Gives-fact λ tells.
      Gives-if found (λ lost. Gives-weaken (λ b s (h, e). (h, λ f. ground arith)) (Gives-pure true))
        (λ live.
          Gives-weaken (λ b s (h, rest). (h, λ f. add_live jti jtis (sym tells ∙ live) (rest f)))
            (any_revoked-gives jtis))

  pub new_event-IsLive : (action : String) → Keeps IsLive (new_event env p action)
  unfolding new_event
  new_event-IsLive action = search (keeps_rules, utcnow-IsLive)

  pub log-IsLive : (e : AuditEvent) → Keeps IsLive (log env p e)
  unfolding log
  log-IsLive e = record {
    at = λ s h. record {
      mirrors = h.mirrors;
      table = h.table;
      settings = h.settings;
      reads = h.reads;
    };
  }

  observe_at-IsLive :
      (now : ℕ) (subject : String) (n : ℕ) → Keeps IsLive (observe_at env p now subject n)
  unfolding observe_at
  observe_at-IsLive now subject n = record {
    at = λ s h. record {
      mirrors = h.mirrors;
      table = h.table;
      settings = h.settings;
      reads = h.reads;
    };
  }

  pub observe-IsLive : (subject : String) (n : ℕ) → Keeps IsLive (observe env p subject n)
  unfolding observe
  observe-IsLive subject n = search (keeps_rules, utcnow-IsLive, observe_at-IsLive)

  pub require_closed-IsLive : Keeps IsLive (require_closed env p)
  unfolding require_closed
  require_closed-IsLive = record { at = λ s h. h }
