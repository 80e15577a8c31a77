-- ===== src/Service/Engine/Verify/Granted.antt =====
-- checkpoint_service/engine/delegation_engine.py: what a positive verification means.
use adf.Prelude.{
  ℕ, ◌≤◌, String, Bool, true, false, ◌≡◌, refl, ap, sym, subst, Option, none, some, ltb, arith, ◌∈◌,
}
use adf.Errors.{Result, ok, err, reason_revoked, reason_expired}
use adf.Exec.Rules.{
  Gives, Gives-bind, Gives-if, Gives-keeps, Gives-any, Gives-gets, Gives-pure, Gives-fact,
  Gives-weaken, Gives-returned,
}
use adf.Env.{Env}
use adf.Models.{TokenClaims, VerifyResult, ancestor_jtis}
use adf.Firewall.Verify.{refusal, allowed}
use adf.Sql.Table.{IsKeyed}
use adf.Service.Redis.{IsRedis}
use adf.Service.Revocation.{in_table}
use adf.Service.Revocation.Mirror.{Mirrors}
use adf.Service.Engine.{Platform, Engine, view}
use adf.Service.Engine.Tokens.{decode, read_token}
use adf.Service.Engine.Live.{
  IsLive, IsReading, IsLiveToken, AreLive, spend-IsLive, utcnow_ts-gives, ask_revoked-gives,
  any_revoked-gives,
}
use adf.Service.Engine.Verify.{
  deny, deny_unread, allow, judge_scope, judge_ancestors, judge_live, judge, conclude,
  verify_claims, verify_read, verify,
}

module _ (env : Env) (p : Platform) (keys : IsKeyed p.backend.revocations (λ r. r.jti))
    (law : IsRedis p.backend.redis) (s : Engine p) where
  -- what a positive answer says about the token's claims
  pub record IsGranted (token scope : String) (c : TokenClaims) : Type 0 where
    pub reads : decode env p s.settings token ≡ ok c
    pub itself : in_table p.backend (view p s) c.jti ≡ false
    pub ancestors :
        (jti : String) → jti ∈ ancestor_jtis c → in_table p.backend (view p s) jti ≡ false
    pub holds : scope ∈ c.scopes
    pub fresh : (now : ℕ) × IsReading env p keys law s now × (now ≤ c.exp)

  -- what the checks behind the expiry find
  abbrev IsCleared : TokenClaims → String → Type 0
  IsCleared c scope =
      IsLiveToken env p keys law s c.jti
      × AreLive env p keys law s (ancestor_jtis c)
      × (scope ∈ c.scopes)

  judge_scope-gives :
      (c : TokenClaims) (scope : String) (lost : Bool)
      → IsLiveToken env p keys law s c.jti
      → (lost ≡ false → AreLive env p keys law s (ancestor_jtis c))
      → Gives
          (λ t. Unit)
          (judge_scope env p c scope lost)
          (λ verdict t. verdict ≡ none → IsCleared c scope)
  unfolding judge_scope
  judge_scope-gives c scope true live rooted =
      Gives-weaken (λ v t (h, e) found. ground arith) (Gives-pure (some reason_revoked))
  judge_scope-gives c scope false live rooted =
      Gives-weaken (λ v t (h, e) found. (live, rooted refl, ground arith)) (Gives-pure _)

  judge_ancestors-gives :
      (c : TokenClaims) (scope : String) (gone : Bool)
      → gone ≡ in_table p.backend (view p s) c.jti
      → Gives
          (IsLive env p keys law s)
          (judge_ancestors env p c scope gone)
          (λ verdict t. verdict ≡ none → IsCleared c scope)
  unfolding judge_ancestors
  judge_ancestors-gives c scope true tells =
      Gives-weaken (λ v t (h, e) found. ground arith) (Gives-pure (some reason_revoked))
  judge_ancestors-gives c scope false tells =
      Gives-bind
        (Gives-weaken (λ b t (h, rooted). (tt, rooted))
          (any_revoked-gives env p keys law s (ancestor_jtis c)))
        λ lost. Gives-fact λ rooted. judge_scope-gives c scope lost (sym tells) rooted

  judge-gives :
      (c : TokenClaims) (scope : String) (now : ℕ)
      → Gives
          (IsLive env p keys law s)
          (judge env p c scope now)
          (λ verdict t. verdict ≡ none → (now ≤ c.exp) × IsCleared c scope)
  unfolding judge judge_live
  judge-gives c scope now =
      Gives-if (ltb c.exp now)
        (λ expired.
          Gives-weaken (λ v t (h, e) found. ground arith) (Gives-pure (some reason_expired)))
        (λ fresh. Gives-bind (ask_revoked-gives env p keys law s c.jti) λ gone. Gives-fact λ tells.
          Gives-weaken (λ v t f found. (ground arith, f found))
            (judge_ancestors-gives c scope gone tells))

  abbrev Answer : String → String → VerifyResult → Type 0
  Answer token scope r =
      r.valid ≡ true → (c : TokenClaims) × (r.claims ≡ some c) × IsGranted token scope c

  conclude-gives :
      (token scope : String) (c : TokenClaims) (verdict : Option String)
      → (verdict ≡ none → IsGranted token scope c)
      → Gives (λ t. Unit) (conclude env p c scope verdict) (λ r t. Answer token scope r)
  unfolding conclude allow deny allowed refusal
  conclude-gives token scope c none granted = Gives-bind Gives-any λ _. Gives-bind Gives-any λ e.
      Gives-bind Gives-any λ _.
        Gives-weaken (λ r t (h, e) valid. (c, ap (λ (v : VerifyResult). v.claims) e, granted refl))
          (Gives-pure (allowed c))
  conclude-gives token scope c (some reason) granted = Gives-bind Gives-any λ _.
      Gives-bind Gives-any λ e.
        Gives-bind Gives-any λ _.
          Gives-weaken (λ r t (h, e) valid. ground arith) (Gives-pure (refusal reason (some c)))

  verify_claims-gives :
      (token scope : String) (c : TokenClaims)
      → decode env p s.settings token ≡ ok c
      → Gives (IsLive env p keys law s) (verify_claims env p c scope) (λ r t. Answer token scope r)
  unfolding verify_claims
  verify_claims-gives token scope c reads =
      Gives-bind (Gives-keeps (spend-IsLive env p keys law s c.sub "verify")) λ _.
        Gives-bind (utcnow_ts-gives env p keys law s) λ now. Gives-fact λ reading.
          Gives-bind (Gives-weaken (λ v t f. (tt, f)) (judge-gives c scope now)) λ verdict.
            Gives-fact λ judged. conclude-gives token scope c verdict λ found.
              let (unexpired, (itself, ancestors, holds)) = judged found in
              record {
                reads = reads;
                itself = itself;
                ancestors = ancestors;
                holds = holds;
                fresh = (now, reading, unexpired);
              }

  verify_read-gives :
      (token scope : String) (r : Result TokenClaims)
      → r ≡ decode env p s.settings token
      → Gives (IsLive env p keys law s) (verify_read env p r scope) (λ a t. Answer token scope a)
  unfolding verify_read deny_unread refusal
  verify_read-gives token scope (ok c) e = verify_claims-gives token scope c (sym e)
  verify_read-gives token scope (err x) e = Gives-bind Gives-any λ _.
      Gives-bind Gives-any λ ev.
        Gives-bind Gives-any λ _. Gives-weaken (λ r t (h, e) valid. ground arith) (Gives-pure _)

  verify-gives :
      (token scope : String)
      → Gives (IsLive env p keys law s) (verify env p token scope) (λ a t. Answer token scope a)
  unfolding verify refusal read_token
  verify-gives token scope = Gives-bind (Gives-weaken (λ b t (h, e). h) (Gives-gets _)) λ opened.
      Gives-if opened (λ _. Gives-weaken (λ r t (h, e) valid. ground arith) (Gives-pure _))
        (λ _.
          Gives-bind
            (Gives-weaken (λ r t (h, e). (h, subst (λ k. r ≡ decode env p k token) h.settings e))
              (Gives-gets _))
            λ read. Gives-fact λ e. verify_read-gives token scope read e)

module _ (env : Env) (p : Platform) (keys : IsKeyed p.backend.revocations (λ r. r.jti))
    (law : IsRedis p.backend.redis) where
  -- Where the cache mirrors the table and the service's `verify` returns a valid outcome, the token
  -- decodes to the claims that the outcome carries, the claims hold the scope and had not expired at a
  -- reading of the clock that the call made, and neither the token nor an ancestor has a row in the
  -- table of revocations, whichever calls to Redis failed.
  pub service_verify-IsGranted :
      (token scope : String) (s t : Engine p) (r : VerifyResult)
      → Mirrors p.backend keys law (view p s)
      → verify env p token scope s ≡ (ok r, t)
      → r.valid ≡ true
      → (c : TokenClaims) × (r.claims ≡ some c) × IsGranted env p keys law s token scope c
  service_verify-IsGranted token scope s t r mirrors e valid =
      Gives-returned (verify-gives env p keys law s token scope)
        (record { mirrors = mirrors; table = λ j. refl; settings = refl; reads = omega arith }) e
        valid
