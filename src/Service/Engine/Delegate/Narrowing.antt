-- ===== src/Service/Engine/Delegate/Narrowing.antt =====
-- checkpoint_service/engine/delegation_engine.py: what a token that `delegate` mints may do.
use adf.Prelude.{
  ℕ, ◌+◌, String, false, ◌≡◌, refl, sym, ◌∙◌, Option, none, some, List, [], ◌∷◌, keep, subst, arith,
  contains, ◌∈◌,
}
use adf.Errors.{ok}
use adf.Exec.Rules.{
  Keeps, keeps_rules, Keeps-raise, Keeps-bind, Keeps-when, Gives, Gives-bind, Gives-keeps,
  Gives-unless, Gives-raise, Gives-gets, Gives-lift, Gives-pure, Gives-fact, Gives-weaken,
  Gives-returned,
}
use adf.Env.{Env}
use adf.Models.{TokenClaims, TokenMetadata, Capability, ancestor_jtis}
use adf.Guardrails.Anomaly.{Finding}
use adf.Firewall.Mint.Child.{IsMintedFor}
use adf.Firewall.Delegate.{as_parent}
use adf.Firewall.Delegate.Narrowing.{IsNarrowed, as_parent-ok, is_empty-nil}
use adf.Sql.Table.{IsKeyed}
use adf.Service.Redis.{IsRedis}
use adf.Service.Revocation.{in_table}
use adf.Service.Revocation.Mirror.{Mirrors}
use adf.Service.Engine.{Platform, Engine, view}
use adf.Service.Engine.Tokens.{decode, read_token}
use adf.Service.Engine.Live.{
  IsLive, utcnow-IsLive, utcnow_ts-gives, spend-IsLive, ask_revoked-IsLive, ask_revoked-gives,
  any_revoked-gives, new_event-IsLive, log-IsLive, observe-IsLive, require_closed-IsLive,
}
use adf.Service.Engine.Delegate.{
  Delegated, minted, pending, decode_live_parent, check_root, assert_root_alive, flag_anomaly,
  grant_or_divert, delegate,
}
use adf.Service.Engine.Delegate.Minted.{
  refuse_escalation-raises, refuse_depth-raises, OfMinted, divert-gives, grant-gives, narrowed,
}

module _ (env : Env) (p : Platform) (keys : IsKeyed p.backend.revocations (λ r. r.jti))
    (law : IsRedis p.backend.redis) (before : Engine p) where
  -- the parent that the token names, with no revocation of it or of an ancestor in the table
  pub record IsLiveParent (token : String) (parent : TokenClaims) : Type 0 where
    pub reads : decode env p before.settings token ≡ ok parent
    pub itself : in_table p.backend (view p before) parent.jti ≡ false
    pub ancestors :
        (jti : String) → jti ∈ ancestor_jtis parent → in_table p.backend (view p before) jti ≡ false

  decode_live_parent-gives :
      (token : String)
      → Gives
          (IsLive env p keys law before)
          (decode_live_parent env p token)
          (λ parent s. IsLive env p keys law before s × IsLiveParent token parent)
  unfolding decode_live_parent read_token
  decode_live_parent-gives token =
      Gives-bind
        (Gives-weaken (λ r s (h, e). (h, subst (λ k. r ≡ decode env p k token) h.settings e))
          (Gives-gets _))
        λ read. Gives-fact λ reads. Gives-bind (Gives-lift (as_parent read)) λ claims.
          Gives-fact λ parsed.
            Gives-bind (Gives-weaken (λ n s (h, _). h) (utcnow_ts-gives env p keys law before))
              λ now. Gives-bind (Gives-unless _ (Gives-raise _)) λ _. Gives-fact λ fresh.
                Gives-bind (ask_revoked-gives env p keys law before claims.jti) λ gone.
                  Gives-fact λ tells. Gives-bind (Gives-unless _ (Gives-raise _)) λ _.
                    Gives-fact λ live.
                      Gives-bind (any_revoked-gives env p keys law before (ancestor_jtis claims))
                        λ lost. Gives-fact λ rooted.
                          Gives-bind (Gives-unless _ (Gives-raise _)) λ _. Gives-fact λ none_lost.
                            Gives-weaken
                              (λ parent s (h, e). (
                                h,
                                subst (IsLiveParent token) (sym e) (record {
                                  reads = sym reads ∙ as_parent-ok env read claims parsed;
                                  itself = sym tells ∙ live;
                                  ancestors = rooted none_lost;
                                }),
                              ))
                              (Gives-pure claims)

  check_root-IsLive :
      (root_jti : String) (root : Option TokenMetadata)
      → Keeps (IsLive env p keys law before) (check_root env p root_jti root)
  unfolding check_root
  check_root-IsLive root_jti none = Keeps-raise _
  check_root-IsLive root_jti (some root) = Keeps-bind _ _ (Keeps-when _ _ (Keeps-raise _)) λ _.
      Keeps-bind _ _ (utcnow-IsLive env p keys law before) λ now.
        Keeps-bind _ _ (Keeps-when _ _ (Keeps-raise _)) λ _.
          Keeps-bind _ _ (ask_revoked-IsLive env p keys law before root_jti)
            λ gone. Keeps-when _ _ (Keeps-raise _)

  assert_root_alive-IsLive :
      (parent : TokenClaims) → Keeps (IsLive env p keys law before) (assert_root_alive env p parent)
  unfolding assert_root_alive
  assert_root_alive-IsLive parent = search (keeps_rules, check_root-IsLive)

  flag_anomaly-IsLive :
      (parent : TokenClaims) (to : String) (requested : List String) (findings : List Finding)
      → Keeps (IsLive env p keys law before) (flag_anomaly env p parent to requested findings)
  unfolding flag_anomaly
  flag_anomaly-IsLive parent to requested findings =
      search (keeps_rules, new_event-IsLive env p keys law before, log-IsLive env p keys law before)

  -- what holds of a token minted by `delegate`
  pub record IsNarrowedFrom (token : String) (requested : List String) (child : Capability)
      : Type 0 where
    pub parent : TokenClaims
    pub live : IsLiveParent token parent
    pub narrowed : IsNarrowed before.settings requested parent child.claims

  grant_or_divert-gives :
      (token : String) (parent : TokenClaims) (to : String) (requested : List String) (ttl exp : ℕ)
      (sensitive : List String)
      → ((child : Capability)
          → sensitive ≡ []
          → IsMintedFor parent requested exp false none child.claims
          → IsNarrowedFrom token requested child)
      → Gives
          (IsLive env p keys law before)
          (grant_or_divert env p parent to requested ttl exp sensitive)
          (λ out s. OfMinted env p (IsNarrowedFrom token requested) out)
  unfolding grant_or_divert
  grant_or_divert-gives token parent to requested ttl exp [] fits =
      Gives-weaken (λ out s h. weaken out h) (grant-gives env p parent to requested exp)
    where
      weaken :
          (out : Delegated)
          → OfMinted env p (λ child. IsMintedFor parent requested exp false none child.claims) out
          → OfMinted env p (IsNarrowedFrom token requested) out
      weaken (minted child) h = fits child refl h
      weaken (pending approval) h = tt
  grant_or_divert-gives token parent to requested ttl exp (x ∷ xs) fits =
      divert-gives env p (IsNarrowedFrom token requested) parent to requested ttl

  delegate-gives :
      (token to : String) (requested : List String) (ttl : ℕ)
      → Gives
          (IsLive env p keys law before)
          (delegate env p token to requested ttl)
          (λ out s. OfMinted env p (IsNarrowedFrom token requested) out)
  unfolding delegate
  delegate-gives token to requested ttl =
      Gives-bind (Gives-keeps (require_closed-IsLive env p keys law before)) λ _.
        Gives-bind (decode_live_parent-gives token) λ parent. Gives-fact λ live.
          Gives-bind (Gives-keeps (spend-IsLive env p keys law before parent.sub "delegate")) λ _.
            Gives-bind (Gives-keeps (assert_root_alive-IsLive parent)) λ _.
              Gives-bind (Gives-unless _ (refuse_escalation-raises env p parent to _ _)) λ _.
                Gives-fact λ held.
                  Gives-bind (Gives-unless _ (refuse_depth-raises env p parent to _ _)) λ _.
                    Gives-fact λ shallow.
                      Gives-bind (Gives-keeps (observe-IsLive env p keys law before parent.sub _))
                        λ findings.
                          Gives-bind (Gives-keeps (flag_anomaly-IsLive parent to _ findings)) λ _.
                            Gives-bind
                              (Gives-weaken (λ n s (h, _). h)
                                (utcnow_ts-gives env p keys law before))
                              λ now.
                                Gives-bind
                                  (Gives-weaken
                                    (λ r s (h, e). (
                                      h,
                                      subst (λ k. r ≡ keep (contains k.sensitive_scopes) requested)
                                          h.settings e,
                                    ))
                                    (Gives-gets _))
                                  λ sensitive. Gives-fact λ found.
                                    grant_or_divert-gives token parent to requested ttl _ sensitive
                                      (λ child clean fits. record {
                                        parent = parent;
                                        live = live;
                                        narrowed =
                                            narrowed env before.settings requested parent
                                              child.claims (now + ttl) fits
                                              (is_empty-nil env _ held) (sym found ∙ clean) shallow;
                                      })

  -- Where the cache mirrors the table and the service's `delegate` returns a token, the token it was
  -- given decodes to a parent that has no revocation in the table, nor has an ancestor of it; the new
  -- claims hold exactly the requested scopes, each of them held by the parent and none sensitive, do
  -- not expire after the parent, and lie one deeper, within the parent's ceiling and under its root,
  -- with the parent behind its ancestors as theirs.
  pub service_delegate-IsNarrowed :
      (token to : String) (requested : List String) (ttl : ℕ) (t : Engine p) (child : Capability)
      → Mirrors p.backend keys law (view p before)
      → delegate env p token to requested ttl before ≡ (ok (minted child), t)
      → IsNarrowedFrom token requested child
  service_delegate-IsNarrowed token to requested ttl t child mirrors e =
      Gives-returned (delegate-gives token to requested ttl)
        (record { mirrors = mirrors; table = λ j. refl; settings = refl; reads = omega arith }) e
