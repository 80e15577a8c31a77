-- ===== src/Firewall/Verify/Decision.antt =====
-- What a positive verification means.
use adf.Prelude.{
  ℕ, ◌≤◌, String, Bool, true, false, ◌≡◌, refl, ap, sym, ◌∙◌, subst, Option, none, some, ltb, arith,
  has_key, contains, ◌∈◌, ◌==◌, if◌then◌else◌,
}
use adf.Errors.{Result, ok, err, reason_revoked, reason_expired, reason_scope_not_granted}
use adf.Exec.Rules.{
  Gives, Gives-bind, Gives-if, Gives-keeps, Gives-any, Gives-gets, Gives-pure, Gives-fact,
  Gives-weaken, Gives-returned,
}
use adf.Env.{Env}
use adf.Models.{TokenClaims, VerifyResult, ancestor_jtis}
use adf.Storage
use adf.Storage.{Memory}
use adf.Tokens.{decode}
use adf.Firewall.{Firewall, read_token}
use adf.Firewall.Verify.{
  refusal, allowed, deny_verify, deny_unread, allow, judge_scope, judge_ancestors, judge_live,
  judge, conclude, verify_claims, verify_read, verify_present, verify,
}
use adf.Firewall.Verify.Live.{
  IsAhead, IsAlive, IsReading, NoneRevoked, IsAhead-refl, spend-IsAhead, utcnow_ts-gives,
  is_revoked-ok, ask_revoked-gives, any_revoked-gives,
}

module _ (env : Env) (s : Firewall) where
  -- what holds where the checks find nothing wrong
  pub record IsCleared (c : TokenClaims) (scope : String) : Type 0 where
    pub alive : IsAlive s.storage c
    pub holds : scope ∈ c.scopes

  IsCleared-scope :
      (c : TokenClaims) (scope : String)
      → s.storage.closed ≡ false
      → has_key c.jti s.storage.revoked ≡ false
      → NoneRevoked env s (ancestor_jtis c)
      → (if contains c.scopes scope then none else some reason_scope_not_granted) ≡ none
      → IsCleared c scope
  IsCleared-scope c scope opened live rooted e = record {
    alive = record { opened = opened; itself = live; ancestors = rooted };
    holds = ground arith;
  }

  judge_scope-gives :
      (c : TokenClaims) (scope : String) (lost : Bool)
      → s.storage.closed ≡ false
      → has_key c.jti s.storage.revoked ≡ false
      → (lost ≡ false → NoneRevoked env s (ancestor_jtis c))
      → Gives
          (λ t. Unit)
          (judge_scope env c scope lost)
          (λ verdict t. verdict ≡ none → IsCleared c scope)
  unfolding judge_scope
  judge_scope-gives c scope true opened live rooted =
      Gives-weaken (λ v t (h, e) none_wrong. ground arith) (Gives-pure (some reason_revoked))
  judge_scope-gives c scope false opened live rooted =
      Gives-weaken
        (λ v t (h, e) none_wrong.
          IsCleared-scope c scope opened live (rooted refl) (sym e ∙ none_wrong))
        (Gives-pure _)

  judge_ancestors-gives :
      (c : TokenClaims) (scope : String) (gone : Bool)
      → Storage.is_revoked s.storage c.jti ≡ ok gone
      → Gives
          (IsAhead s)
          (judge_ancestors env c scope gone)
          (λ verdict t. verdict ≡ none → IsCleared c scope)
  unfolding judge_ancestors
  judge_ancestors-gives c scope true asks =
      Gives-weaken (λ v t (h, e) none_wrong. ground arith) (Gives-pure (some reason_revoked))
  judge_ancestors-gives c scope false asks =
      let told = is_revoked-ok env s s.storage c.jti false asks in
      Gives-bind
        (Gives-weaken (λ b t (h, rooted). (tt, rooted)) (any_revoked-gives env s (ancestor_jtis c)))
        λ lost. Gives-fact λ rooted. judge_scope-gives c scope lost told.0 told.1 rooted

  judge-gives :
      (c : TokenClaims) (scope : String) (now : ℕ)
      → Gives
          (IsAhead s)
          (judge env c scope now)
          (λ verdict t. verdict ≡ none → (now ≤ c.exp) × IsCleared c scope)
  unfolding judge judge_live
  judge-gives c scope now =
      Gives-if (ltb c.exp now)
        (λ expired.
          Gives-weaken (λ v t (h, e) none_wrong. ground arith) (Gives-pure (some reason_expired)))
        (λ fresh. Gives-bind (ask_revoked-gives env s c.jti) λ gone. Gives-fact λ asks.
          Gives-weaken (λ v t f none_wrong. (ground arith, f none_wrong))
            (judge_ancestors-gives c scope gone asks))

  -- what a positive answer says about the token's claims
  pub record IsGranted (token scope : String) (c : TokenClaims) : Type 0 where
    pub reads : decode env s.config token false ≡ ok c
    pub cleared : IsCleared c scope
    pub fresh : (now : ℕ) × IsReading env s now × (now ≤ c.exp)

  abbrev Answer : String → String → VerifyResult → Type 0
  Answer token scope r =
      r.valid ≡ true → (c : TokenClaims) × (r.claims ≡ some c) × IsGranted token scope c

  conclude-gives :
      (token scope : String) (c : TokenClaims) (verdict : Option String)
      → (verdict ≡ none → IsGranted token scope c)
      → Gives (λ t. Unit) (conclude env c scope verdict) (λ r t. Answer token scope r)
  unfolding conclude allow deny_verify allowed refusal
  conclude-gives token scope c none granted = Gives-bind Gives-any λ _. Gives-bind Gives-any λ e.
      Gives-bind Gives-any λ _.
        Gives-weaken (λ r t (h, e) valid. (c, ap (λ (v : VerifyResult). v.claims) e, granted refl))
          (Gives-pure (allowed c))
  conclude-gives token scope c (some reason) granted = Gives-bind Gives-any λ _.
      Gives-bind Gives-any λ e.
        Gives-bind Gives-any λ _.
          Gives-weaken (λ r t (h, e) valid. ground arith) (Gives-pure (refusal reason (some c)))

  verify_claims-gives :
      (token scope : String) (c : TokenClaims)
      → decode env s.config token false ≡ ok c
      → Gives (IsAhead s) (verify_claims env c scope) (λ r t. Answer token scope r)
  unfolding verify_claims
  verify_claims-gives token scope c reads =
      Gives-bind (Gives-keeps (spend-IsAhead env s c.sub "verify")) λ _.
        Gives-bind (utcnow_ts-gives env s) λ now. Gives-fact λ reading.
          Gives-bind (Gives-weaken (λ v t f. (tt, f)) (judge-gives c scope now)) λ verdict.
            Gives-fact λ judged. conclude-gives token scope c verdict λ none_wrong.
              let found = judged none_wrong in
              record { reads = reads; cleared = found.1; fresh = (now, reading, found.0) }

  verify_read-gives :
      (token scope : String) (r : Result TokenClaims)
      → r ≡ decode env s.config token false
      → Gives (IsAhead s) (verify_read env r scope) (λ a t. Answer token scope a)
  unfolding verify_read deny_unread refusal
  verify_read-gives token scope (ok c) e = verify_claims-gives token scope c (sym e)
  verify_read-gives token scope (err x) e = Gives-bind Gives-any λ _.
      Gives-bind Gives-any λ ev.
        Gives-bind Gives-any λ _. Gives-weaken (λ r t (h, e) valid. ground arith) (Gives-pure _)

  verify_present-gives :
      (token scope : String)
      → Gives (IsAhead s) (verify_present env (some token) scope) (λ a t. Answer token scope a)
  unfolding verify_present refusal read_token
  verify_present-gives token scope =
      Gives-if (token == "")
        (λ empty. Gives-weaken (λ r t (h, e) valid. ground arith) (Gives-pure _))
        (λ given.
          Gives-bind
            (Gives-weaken (λ r t (h, e). (h, subst (λ k. r ≡ decode env k token false) h.config e))
              (Gives-gets _))
            λ read. Gives-fact λ e. verify_read-gives token scope read e)

  verify-gives :
      (token scope : String)
      → Gives (IsAhead s) (verify env (some token) scope) (λ a t. Answer token scope a)
  unfolding verify refusal
  verify-gives token scope = Gives-bind (Gives-weaken (λ b t (h, e). h) (Gives-gets _)) λ opened.
      Gives-if opened (λ _. Gives-weaken (λ r t (h, e) valid. ground arith) (Gives-pure _))
        (λ _. verify_present-gives token scope)

module _ (env : Env) where
  -- Where `verify` returns a valid result, the token decodes to the claims that the result carries.
  -- In the storage as the call found it neither the token nor an ancestor is revoked, and the storage
  -- is open. The claims hold the scope, and they had not expired at a reading of the clock that the
  -- call made.
  pub verify-IsGranted :
      (token scope : String) (s t : Firewall) (r : VerifyResult)
      → verify env (some token) scope s ≡ (ok r, t)
      → r.valid ≡ true
      → (c : TokenClaims) × (r.claims ≡ some c) × IsGranted env s token scope c
  verify-IsGranted token scope s t r e valid =
      Gives-returned (verify-gives env s token scope) (IsAhead-refl env s) e valid
