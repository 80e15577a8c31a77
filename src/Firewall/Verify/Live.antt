-- ===== src/Firewall/Verify/Live.antt =====
-- What the checks of `verify` read: the clock, and the revocations of the storage it started from.
use adf.Prelude.{
  ℕ, ◌≤◌, String, Bool, true, false, ◌≡◌, refl, sym, ◌∙◌, subst, List, [], ◌∷◌, arith, eq_iff,
  has_key, ◌∈◌,
}
use adf.Errors.{Result, ok, err}
use adf.Exec.{pure, ◌>>=◌}
use adf.Exec.Rules.{
  Keeps, keeps_rules, Gives, Gives-bind, Gives-if, Gives-pure, Gives-fact, Post, Gives-weaken,
}
use adf.Env.{Env}
use adf.Time.{timestamp}
use adf.Models.{TokenClaims, ancestor_jtis}
use adf.Storage
use adf.Storage.{Memory}
use adf.Firewall.{Firewall, ask_revoked, any_revoked, utcnow, utcnow_ts, spend, spend_at}

-- `t` has the storage and the configuration of `s`, and has read the clock no less often
pub record IsAhead (s t : Firewall) : Type 0 where
  pub storage : t.storage ≡ s.storage
  pub config : t.config ≡ s.config
  pub reads : s.reads ≤ t.reads

-- the token and its ancestors are alive in this storage
pub record IsAlive (m : Memory) (c : TokenClaims) : Type 0 where
  pub opened : m.closed ≡ false
  pub itself : has_key c.jti m.revoked ≡ false
  pub ancestors : (jti : String) → jti ∈ ancestor_jtis c → has_key jti m.revoked ≡ false

module _ (env : Env) (s : Firewall) where
  pub IsAhead-refl : IsAhead s s
  IsAhead-refl = record { storage = refl; config = refl; reads = omega arith }

  -- a reading of the clock from `s` on
  abbrev pub IsReading : ℕ → Type 0
  IsReading now = (k : ℕ) × (s.reads ≤ k) × (now ≡ timestamp (env.clock k))

  utcnow-IsAhead : Keeps (IsAhead s) (utcnow env)
  unfolding utcnow
  utcnow-IsAhead = record {
    at = λ t h. record { storage = h.storage; config = h.config; reads = omega (arith, h.reads) };
  }

  spend_at-IsAhead :
      (now : ℕ) (subject call : String) → Keeps (IsAhead s) (spend_at env now subject call)
  unfolding spend_at
  spend_at-IsAhead now subject call = record {
    at = λ t h. record { storage = h.storage; config = h.config; reads = h.reads };
  }

  pub spend-IsAhead : (subject call : String) → Keeps (IsAhead s) (spend env subject call)
  unfolding spend
  spend-IsAhead subject call = search (keeps_rules, utcnow-IsAhead, spend_at-IsAhead)

  pub utcnow_ts-gives : Gives (IsAhead s) (utcnow_ts env) (λ now t. IsAhead s t × IsReading now)
  unfolding utcnow_ts utcnow ◌>>=◌ pure
  utcnow_ts-gives = record {
    at = λ t h. (
      record { storage = h.storage; config = h.config; reads = omega (arith, h.reads) },
      (t.reads, h.reads, refl),
    );
  }

  pub is_revoked-ok :
      (m : Memory) (jti : String) (b : Bool)
      → Storage.is_revoked m jti ≡ ok b
      → (m.closed ≡ false) × (has_key jti m.revoked ≡ b)
  unfolding Storage.is_revoked
  is_revoked-ok m jti b e = ground arith

  asked :
      (t : Firewall) (jti : String) (r : Result Bool)
      → IsAhead s t
      → Storage.is_revoked s.storage jti ≡ r
      → Post (λ b t. IsAhead s t × (Storage.is_revoked s.storage jti ≡ ok b)) (r, t)
  asked t jti (ok b) h e = (h, e)
  asked t jti (err x) h e = tt

  pub ask_revoked-gives :
      (jti : String)
      → Gives
          (IsAhead s)
          (ask_revoked jti)
          (λ b t. IsAhead s t × (Storage.is_revoked s.storage jti ≡ ok b))
  unfolding ask_revoked
  ask_revoked-gives jti = record {
    at = λ t h.
        subst
          (λ m.
            Post (λ b t. IsAhead s t × (Storage.is_revoked s.storage jti ≡ ok b))
              (Storage.is_revoked m jti, t))
          (sym h.storage) (asked t jti (Storage.is_revoked s.storage jti) h refl);
  }

  abbrev pub NoneRevoked : List String → Type 0
  NoneRevoked jtis = (jti : String) → jti ∈ jtis → has_key jti s.storage.revoked ≡ false

  add_live :
      (jti : String) (jtis : List String)
      → has_key jti s.storage.revoked ≡ false
      → NoneRevoked jtis
      → NoneRevoked (jti ∷ jtis)
  add_live jti jtis live rest j m = ground (arith, eq_iff jti j, rest j)

  pub any_revoked-gives :
      (jtis : List String)
      → Gives (IsAhead s) (any_revoked jtis) (λ b t. IsAhead s t × (b ≡ false → NoneRevoked jtis))
  unfolding any_revoked
  any_revoked-gives [] = Gives-weaken (λ b t (h, e). (h, λ _ j m. ground arith)) (Gives-pure false)
  any_revoked-gives (jti ∷ jtis) =
      let ih = any_revoked-gives jtis in
      Gives-bind (ask_revoked-gives jti) λ found. Gives-fact λ asks.
        Gives-if found
          (λ lost. Gives-weaken (λ b t (h, e). (h, λ f. ground arith)) (Gives-pure true))
          (λ live.
            Gives-weaken
              (λ b t (h, none_lost). (
                h,
                λ f.
                    add_live jti jtis ((is_revoked-ok s.storage jti found asks).1 ∙ live)
                      (none_lost f),
              ))
              ih)
