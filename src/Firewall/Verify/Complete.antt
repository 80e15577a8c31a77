-- ===== src/Firewall/Verify/Complete.antt =====
-- agperms/src/agperms/firewall.py: the path of `verify` to a valid result.
use adf.Prelude.{
  ℕ, ◌+◌, ◌≤◌, String, Bool, true, false, ◌≡◌, refl, ap, sym, ◌∙◌, subst, Option, none, some, List,
  [], ◌∷◌, ltb, arith, eq_iff, has_key, ◌∈◌, ◌==◌, if◌then◌else◌,
}
use adf.Errors.{Result, ok}
use adf.Exec.{pure, gets, ◌>>=◌}
use adf.Exec.Rules.{
  Gives, Gives-bind, Gives-any, Gives-pure, Gives-weaken, Gives-returned, Returns, returns_rules,
  bind-returned,
}
use adf.Env.{Env}
use adf.Time.{timestamp}
use adf.Models.{TokenClaims, VerifyResult, ancestor_jtis}
use adf.Guardrails.Circuit.{Trip}
use adf.Storage
use adf.Storage.{Memory}
use adf.Tokens.{decode}
use adf.Firewall.{
  Firewall, Fw, ask_revoked, any_revoked, utcnow, utcnow_ts, spend, settle_outcome, audit_trip,
  record_call, read_token,
}
use adf.Firewall.Returning.{utcnow-Returns, new_event-Returns, log-Returns}
use adf.Firewall.Verify.{
  allowed, allow, judge_scope, judge_ancestors, judge_live, judge, conclude, verify_claims,
  verify_read, verify_present, verify,
}
use adf.Firewall.Verify.Live.{IsAlive, IsAhead-refl, spend-IsAhead}

if_no : {A : Type 0} (b : Bool) (x y : A) → b ≡ false → (if b then x else y) ≡ y
if_no true x y h = ground arith
if_no false x y h = refl

module _ (env : Env) where
  settle_outcome-Returns :
      (now : ℕ) (error : Bool) (subject : Option String) (denial : Bool)
      → Returns (settle_outcome env now error subject denial)
  unfolding settle_outcome
  settle_outcome-Returns now error subject denial = record { at = λ s. (_, refl) }

  audit_trip-Returns : (t : Option Trip) → Returns (audit_trip env t)
  unfolding audit_trip
  audit_trip-Returns none = search returns_rules
  audit_trip-Returns (some t) = search (returns_rules, new_event-Returns, log-Returns) depth 20

  record_call-Returns :
      (error : Bool) (subject : Option String) (denial : Bool)
      → Returns (record_call env error subject denial)
  unfolding record_call
  record_call-Returns error subject denial =
      search (returns_rules, utcnow-Returns, settle_outcome-Returns, audit_trip-Returns) depth 20

  allow-Returns : (c : TokenClaims) (scope : String) → Returns (allow env c scope)
  unfolding allow
  allow-Returns c scope =
      search (returns_rules, record_call-Returns, new_event-Returns, log-Returns) depth 20

  allow-gives :
      (c : TokenClaims) (scope : String)
      → Gives (λ s. Unit) (allow env c scope) (λ r t. r ≡ allowed c)
  unfolding allow
  allow-gives c scope = Gives-bind Gives-any λ _.
      Gives-bind Gives-any
        λ e. Gives-bind Gives-any λ _. Gives-weaken (λ r t (h, e). e) (Gives-pure (allowed c))

  allow-ok :
      (c : TokenClaims) (scope : String) (s : Firewall) → (allow env c scope s).0 ≡ ok (allowed c)
  allow-ok c scope s =
      let (r, e) = (allow-Returns c scope).at s in
      e ∙ ap ok (Gives-returned (allow-gives c scope) tt (ap (λ a. (a, (allow env c scope s).1)) e))

  ask_revoked-live :
      (jti : String) (s : Firewall)
      → s.storage.closed ≡ false
      → has_key jti s.storage.revoked ≡ false
      → ask_revoked jti s ≡ (ok false, s)
  unfolding ask_revoked Storage.is_revoked
  ask_revoked-live jti s opened live = rw (opened, live) refl

  any_revoked-live :
      (jtis : List String) (s : Firewall)
      → s.storage.closed ≡ false
      → ((jti : String) → jti ∈ jtis → has_key jti s.storage.revoked ≡ false)
      → any_revoked jtis s ≡ (ok false, s)
  unfolding any_revoked pure
  any_revoked-live [] s opened live = refl
  any_revoked-live (jti ∷ jtis) s opened live =
      bind-returned (ask_revoked jti) _ s s false
        (ask_revoked-live jti s opened (live jti (ground (arith, eq_iff jti jti))))
      ∙ any_revoked-live jtis s opened (λ j m. live j (ground (arith, eq_iff jti j)))

  judge_live-clear :
      (c : TokenClaims) (scope : String) (s : Firewall)
      → IsAlive s.storage c
      → scope ∈ c.scopes
      → judge_live env c scope s ≡ (ok none, s)
  unfolding judge_live judge_ancestors judge_scope pure
  judge_live-clear c scope s alive held =
      bind-returned (ask_revoked c.jti) _ s s false
        (ask_revoked-live c.jti s alive.opened alive.itself)
      ∙ bind-returned (any_revoked (ancestor_jtis c)) _ s s false
          (any_revoked-live (ancestor_jtis c) s alive.opened alive.ancestors)
      ∙ rw held refl

  judge-clear :
      (c : TokenClaims) (scope : String) (now : ℕ) (s : Firewall)
      → now ≤ c.exp
      → IsAlive s.storage c
      → scope ∈ c.scopes
      → judge env c scope now s ≡ (ok none, s)
  unfolding judge
  judge-clear c scope now s fresh alive held =
      let unexpired : ltb c.exp now ≡ false = ground (arith, fresh) in
      rw unexpired (judge_live-clear c scope s alive held)

  verify_claims-ok :
      (c : TokenClaims) (scope : String) (s : Firewall)
      → (spend env c.sub "verify" s).0 ≡ ok tt
      → timestamp (env.clock (spend env c.sub "verify" s).1.reads) ≤ c.exp
      → IsAlive s.storage c
      → scope ∈ c.scopes
      → (verify_claims env c scope s).0 ≡ ok (allowed c)
  unfolding verify_claims utcnow_ts utcnow conclude ◌>>=◌ pure
  verify_claims-ok c scope s spent fresh alive held =
      let after = (spend env c.sub "verify" s).1 in
      let later : Firewall = record after { reads = after.reads + 1 } in
      let same : after.storage ≡ s.storage =
        ((spend-IsAhead env s c.sub "verify").at s (IsAhead-refl env s)).storage in
      ap (λ (r : Result VerifyResult × Firewall). r.0)
        (bind-returned (spend env c.sub "verify") _ s after tt (ap (λ a. (a, after)) spent)
          ∙ bind-returned (judge env c scope (timestamp (env.clock after.reads)))
              (conclude env c scope) later later none
              (judge-clear c scope (timestamp (env.clock after.reads)) later fresh
                (subst (λ m. IsAlive m c) (sym same) alive) held))
      ∙ allow-ok c scope later

  -- `verify` finds a token valid, with its claims, where the breaker is closed, the token is no empty
  -- text and decodes to the claims, the subject has budget left, the claims have not expired when the
  -- clock is read behind the budget check, the storage is open, neither the token nor an ancestor is
  -- revoked, and the claims hold the scope.
  pub verify_complete :
      (token scope : String) (s : Firewall) (c : TokenClaims)
      → s.circuit.is_open ≡ false
      → (token == "") ≡ false
      → decode env s.config token false ≡ ok c
      → (spend env c.sub "verify" s).0 ≡ ok tt
      → timestamp (env.clock (spend env c.sub "verify" s).1.reads) ≤ c.exp
      → IsAlive s.storage c
      → scope ∈ c.scopes
      → (verify env (some token) scope s).0 ≡ ok (allowed c)
  unfolding verify verify_present verify_read read_token ◌>>=◌ gets
  verify_complete token scope s c closed given reads spent fresh alive held =
      ap (λ (m : Fw VerifyResult). (m s).0) (if_no s.circuit.is_open _ _ closed)
      ∙ ap (λ (m : Fw VerifyResult). (m s).0) (if_no (token == "") _ _ given)
      ∙ ap (λ r. (verify_read env r scope s).0) reads
      ∙ verify_claims-ok c scope s spent fresh alive held
