-- ===== src/Firewall/Delegate/Narrowing.antt =====
-- What a delegated capability may do, against the capability that delegated it.
use adf.Prelude.{
  ℕ, ◌+◌, ◌≤◌, String, false, not, ◌≡◌, refl, ap, sym, ◌∙◌, Option, none, List, [], ◌∷◌, ltb, min,
  subst, arith, contains, ◌∈◌, ◌⊆◌, sorted_set, contains-sorted_set, without,
  subset_of_without-eq-nil,
}
use adf.Errors.{Result, ok, err, token_error}
use adf.Exec.Rules.{
  Gives, Gives-bind, Gives-keeps, Gives-unless, Gives-raise, Gives-any, Gives-gets, Gives-lift,
  Gives-pure, Gives-fact, Gives-known, Gives-weaken, Gives-returned,
}
use adf.Env.{Env}
use adf.Config.{Config, sensitive_subset}
use adf.Config.Policy.{contains-sensitive_subset}
use adf.Models.{TokenClaims, Capability, ancestor_jtis}
use adf.Tokens.{decode}
use adf.Firewall.{Firewall, read_token}
use adf.Firewall.Mint.{is_empty}
use adf.Firewall.Mint.Child.{IsChildOf, IsMintedFor, issue_child-gives}
use adf.Firewall.Delegate.{
  as_parent, decode_live, refuse_escalation, refuse_depth, divert_to_approval, grant, delegate,
}
use adf.Firewall.Settled.{
  HasConfig, utcnow_ts-settled, ask_revoked-settled, any_revoked-settled, require_closed-settled,
  spend-settled, observe-settled, assert_root_alive-settled, flag_anomaly-settled,
}

-- what `delegate` gives, against the parent that the token names
pub record IsNarrowed (c : Config) (scopes : List String) (parent child : TokenClaims)
    : Type 0 where
  pub family : IsChildOf parent child
  pub exact : (s : String) → contains child.scopes s ≡ contains scopes s
  pub held : child.scopes ⊆ parent.scopes
  pub insensitive : (s : String) → s ∈ child.scopes → contains c.sensitive_scopes s ≡ false
  pub expires : child.exp ≤ parent.exp
  pub bounded : child.depth ≤ parent.max_depth

module _ (env : Env) where
  refuse_escalation-raises :
      {P : Firewall → Type 0} (parent : TokenClaims) (to : String) (requested refused : List String)
      → Gives P (refuse_escalation env parent to requested refused) (λ _ _. ⊥)
  unfolding refuse_escalation
  refuse_escalation-raises parent to requested refused =
      Gives-bind Gives-any λ e. Gives-bind Gives-any λ _. Gives-bind Gives-any λ _. Gives-raise _

  refuse_depth-raises :
      {P : Firewall → Type 0} (parent : TokenClaims) (to : String) (requested : List String)
      (depth : ℕ)
      → Gives P (refuse_depth env parent to requested depth) (λ _ _. ⊥)
  unfolding refuse_depth
  refuse_depth-raises parent to requested depth =
      Gives-bind Gives-any λ e. Gives-bind Gives-any λ _. Gives-bind Gives-any λ _. Gives-raise _

  divert-raises :
      {P : Firewall → Type 0} (parent : TokenClaims) (to : String) (requested : List String)
      (ttl : ℕ) (sensitive : List String)
      → Gives P (divert_to_approval env parent to requested ttl sensitive) (λ _ _. ⊥)
  unfolding divert_to_approval
  divert-raises parent to requested ttl sensitive =
      Gives-bind Gives-any λ approval. Gives-bind Gives-any λ _. Gives-raise _

  grant-gives :
      {P : Firewall → Type 0} (parent : TokenClaims) (to : String) (requested : List String)
      (exp : ℕ)
      → Gives P
          (grant env parent to requested exp)
          (λ minted s. IsMintedFor parent requested exp false none minted.claims)
  unfolding grant
  grant-gives parent to requested exp = Gives-bind Gives-any λ child.
      Gives-bind (issue_child-gives env parent child.subject_id requested exp false none) λ minted.
        Gives-known λ fits. Gives-bind Gives-any λ _. Gives-bind Gives-any λ _.
          Gives-bind Gives-any λ e. Gives-bind Gives-any λ _. Gives-bind Gives-any λ _.
            Gives-weaken
              (λ m s (p, e).
                subst (λ (m : Capability). IsMintedFor parent requested exp false none m.claims)
                  (sym e) fits)
              (Gives-pure minted)

  pub as_parent-ok :
      (r : Result TokenClaims) (claims : TokenClaims) → as_parent r ≡ ok claims → r ≡ ok claims
  unfolding as_parent
  as_parent-ok (ok c) claims e = e
  as_parent-ok (err (token_error reason)) claims e = ground arith
  as_parent-ok (err e) claims h = h

  decode_live-gives :
      (c : Config) (token : String)
      → Gives
          (HasConfig c)
          (decode_live env token)
          (λ parent s. HasConfig c s × (decode env c token false ≡ ok parent))
  unfolding decode_live read_token
  decode_live-gives c token =
      Gives-bind
        (Gives-weaken (λ r s (h, e). (h, subst (λ k. r ≡ decode env k token false) h e))
          (Gives-gets _))
        λ read. Gives-fact λ reads. Gives-bind (Gives-lift (as_parent read)) λ claims.
          Gives-fact λ parsed. Gives-bind (Gives-keeps (utcnow_ts-settled env c)) λ now.
            Gives-bind (Gives-unless _ (Gives-raise _)) λ _. Gives-fact λ fresh.
              Gives-bind (Gives-keeps (ask_revoked-settled env c claims.jti)) λ gone.
                Gives-bind (Gives-unless _ (Gives-raise _)) λ _. Gives-fact λ live.
                  Gives-bind (Gives-keeps (any_revoked-settled env c (ancestor_jtis claims)))
                    λ lost. Gives-bind (Gives-unless _ (Gives-raise _)) λ _. Gives-fact λ rooted.
                      Gives-weaken
                        (λ p s (h, e).
                          (h, sym reads ∙ as_parent-ok read claims parsed ∙ ap ok (sym e)))
                        (Gives-pure claims)

  pub is_empty-nil : (xs : List String) → not (is_empty xs) ≡ false → xs ≡ []
  is_empty-nil [] h = refl
  is_empty-nil (x ∷ xs) h = ground arith

  insensitive_lem :
      (c : Config) (xs : List String) (s : String)
      → sensitive_subset c xs ≡ []
      → s ∈ xs
      → contains c.sensitive_scopes s ≡ false
  insensitive_lem c xs s none_found m =
      ground (arith, contains-sensitive_subset c xs s, ap (λ l. contains l s) none_found)

  narrowed :
      (c : Config) (scopes : List String) (parent child : TokenClaims) (exp : ℕ)
      → IsMintedFor parent (sorted_set scopes) (min exp parent.exp) false none child
      → without (sorted_set scopes) parent.scopes ≡ []
      → sensitive_subset c (sorted_set scopes) ≡ []
      → ltb parent.max_depth (parent.depth + 1) ≡ false
      → IsNarrowed c scopes parent child
  narrowed c scopes parent child exp fits held sensitive shallow =
      let same : (s : String) → contains child.scopes s ≡ contains (sorted_set scopes) s =
        λ s. ap (λ l. contains l s) fits.scopes_are ∙ contains-sorted_set (sorted_set scopes) s in
      record {
        family = fits.family;
        exact = λ s. same s ∙ contains-sorted_set scopes s;
        held = λ s m.
            subset_of_without-eq-nil (sorted_set scopes) parent.scopes held s (sym (same s) ∙ m);
        insensitive = λ s m. insensitive_lem c (sorted_set scopes) s sensitive (sym (same s) ∙ m);
        expires = ground (arith, fits.exp_is);
        bounded = ground (arith, fits.family.deeper);
      }

  delegate-gives :
      (c : Config) (token to : String) (scopes : List String) (ttl : Option ℕ)
      → Gives (HasConfig c) (delegate env token to scopes ttl) (λ child s.
        (parent : TokenClaims) × (decode env c token false ≡ ok parent)
        × IsNarrowed c scopes parent child.claims)
  unfolding delegate
  delegate-gives c token to scopes ttl =
      Gives-bind (Gives-keeps (require_closed-settled env c)) λ _.
        Gives-bind (Gives-unless _ (Gives-raise _)) λ _. Gives-fact λ nonempty.
          Gives-bind (decode_live-gives c token) λ parent. Gives-fact λ read.
            Gives-bind (Gives-keeps (spend-settled env c parent.sub "delegate")) λ _.
              Gives-bind (Gives-keeps (assert_root_alive-settled env c parent)) λ _.
                Gives-bind (Gives-unless _ (refuse_escalation-raises parent to _ _)) λ _.
                  Gives-fact λ held.
                    Gives-bind (Gives-unless _ (refuse_depth-raises parent to _ _)) λ _.
                      Gives-fact λ shallow.
                        Gives-bind (Gives-keeps (observe-settled env c parent.sub _)) λ findings.
                          Gives-bind (Gives-keeps (flag_anomaly-settled env c parent to _ findings))
                            λ _.
                              Gives-bind (Gives-weaken (λ r s (h, e). h) (Gives-gets _))
                                λ requested_ttl.
                                  Gives-bind (Gives-keeps (utcnow_ts-settled env c)) λ now.
                                    Gives-bind
                                      (Gives-weaken
                                        (λ r s (h, e). (
                                          h,
                                          subst (λ k. r ≡ sensitive_subset k (sorted_set scopes)) h
                                              e,
                                        ))
                                        (Gives-gets _))
                                      λ sensitive. Gives-fact λ found.
                                        Gives-bind
                                          (Gives-unless _
                                            (divert-raises parent to _ requested_ttl sensitive))
                                          λ _. Gives-fact λ insensitive.
                                            Gives-weaken
                                              (λ child s fits. (
                                                parent,
                                                read,
                                                narrowed c scopes parent child.claims
                                                    (now + requested_ttl) fits (is_empty-nil _ held)
                                                    (sym found ∙ is_empty-nil sensitive insensitive)
                                                    shallow,
                                              ))
                                              (grant-gives parent to (sorted_set scopes) _)

  -- Where `delegate` returns a capability, the token it was given decodes to a parent, and the new
  -- claims are narrowed from it: the scopes are exactly the requested ones, the parent holds each of
  -- them and none is sensitive; the expiry is not after the parent's; the depth is one more than the
  -- parent's and within its ceiling; the ceiling and the root are the parent's; and the ancestors
  -- are the parent's, then the parent.
  pub delegate-IsNarrowed :
      (token to : String) (scopes : List String) (ttl : Option ℕ) (s t : Firewall)
      (child : Capability)
      → delegate env token to scopes ttl s ≡ (ok child, t)
      → (parent : TokenClaims) × (decode env s.config token false ≡ ok parent)
        × IsNarrowed s.config scopes parent child.claims
  delegate-IsNarrowed token to scopes ttl s t child e =
      Gives-returned (delegate-gives s.config token to scopes ttl) refl e
