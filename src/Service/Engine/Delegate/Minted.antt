-- ===== src/Service/Engine/Delegate/Minted.antt =====
-- checkpoint_service/engine/delegation_engine.py: what `delegate` mints, and where it mints nothing.
use adf.Prelude.{
  ℕ, ◌+◌, String, Bool, false, ◌≡◌, ap, sym, ◌∙◌, Option, none, List, [], keep, ltb, min, subst,
  arith, contains, contains-keep, contains-sorted_set, without, subset_of_without-eq-nil,
}
use adf.Exec.Rules.{
  Gives, Gives-bind, Gives-raise, Gives-any, Gives-gets, Gives-pure, Gives-known, Gives-weaken,
}
use adf.Env.{Env}
use adf.Config.{Config}
use adf.Models.{TokenClaims, Capability}
use adf.Firewall.Mint.Child.{IsMintedFor, child_claims-IsMintedFor}
use adf.Firewall.Delegate.Narrowing.{IsNarrowed}
use adf.Service.Engine.{Platform, Engine}
use adf.Service.Engine.Tokens.{issue, issue_child}
use adf.Service.Engine.Delegate.{
  Delegated, minted, pending, refuse_escalation, refuse_depth, divert, grant,
}

module _ (env : Env) (p : Platform) where
  pub issue_child-gives :
      {P : Engine p → Type 0} (parent : TokenClaims) (subject : String) (scopes : List String)
      (exp : ℕ) (approval : Bool) (approver : Option String)
      → Gives P
          (issue_child env p parent subject scopes exp approval approver)
          (λ child s. IsMintedFor parent scopes exp approval approver child.claims)
  unfolding issue_child issue
  issue_child-gives parent subject scopes exp approval approver = Gives-bind Gives-any λ now.
      Gives-bind Gives-any λ stamp. Gives-bind Gives-any λ jti.
        Gives-weaken
          (λ child s (q, e).
            subst (λ (m : Capability). IsMintedFor parent scopes exp approval approver m.claims)
              (sym e)
              (child_claims-IsMintedFor env s.settings jti now (env.isoformat stamp) parent subject
                scopes exp approval approver))
          (Gives-gets _)

  pub refuse_escalation-raises :
      {P : Engine p → Type 0} (parent : TokenClaims) (to : String) (requested refused : List String)
      → Gives P (refuse_escalation env p parent to requested refused) (λ _ _. ⊥)
  unfolding refuse_escalation
  refuse_escalation-raises parent to requested refused =
      Gives-bind Gives-any λ e. Gives-bind Gives-any λ _. Gives-bind Gives-any λ _. Gives-raise _

  pub refuse_depth-raises :
      {P : Engine p → Type 0} (parent : TokenClaims) (to : String) (requested : List String)
      (depth : ℕ)
      → Gives P (refuse_depth env p parent to requested depth) (λ _ _. ⊥)
  unfolding refuse_depth
  refuse_depth-raises parent to requested depth =
      Gives-bind Gives-any λ e. Gives-bind Gives-any λ _. Gives-bind Gives-any λ _. Gives-raise _

  -- what holds of a token that is minted, where one is
  abbrev pub OfMinted : (Capability → Type 0) → Delegated → Type 0
  OfMinted Q (minted child) = Q child
  OfMinted Q (pending approval) = Unit

  pub divert-gives :
      {P : Engine p → Type 0} (Q : Capability → Type 0) (parent : TokenClaims) (to : String)
      (requested : List String) (ttl : ℕ)
      → Gives P (divert env p parent to requested ttl) (λ out s. OfMinted Q out)
  unfolding divert
  divert-gives Q parent to requested ttl = Gives-bind Gives-any λ approval.
      Gives-bind Gives-any λ _.
        Gives-weaken (λ out s (_, e). subst (OfMinted Q) (sym e) tt) (Gives-pure (pending approval))

  pub grant-gives :
      {P : Engine p → Type 0} (parent : TokenClaims) (to : String) (requested : List String)
      (exp : ℕ)
      → Gives P (grant env p parent to requested exp) (λ out s.
        OfMinted (λ child. IsMintedFor parent requested exp false none child.claims) out)
  unfolding grant
  grant-gives parent to requested exp = Gives-bind Gives-any λ child.
      Gives-bind (issue_child-gives parent child.subject_id requested exp false none) λ capability.
        Gives-known λ fits. Gives-bind Gives-any λ _. Gives-bind Gives-any λ _.
          Gives-bind Gives-any λ e. Gives-bind Gives-any λ _. Gives-bind Gives-any λ _.
            Gives-weaken
              (λ out s (_, e).
                subst (OfMinted (λ child. IsMintedFor parent requested exp false none child.claims))
                  (sym e) fits)
              (Gives-pure (minted capability))

pub narrowed :
    (env : Env) (c : Config) (requested : List String) (parent child : TokenClaims) (exp : ℕ)
    → IsMintedFor parent requested (min exp parent.exp) false none child
    → without requested parent.scopes ≡ []
    → keep (contains c.sensitive_scopes) requested ≡ []
    → ltb parent.max_depth (parent.depth + 1) ≡ false
    → IsNarrowed c requested parent child
narrowed env c requested parent child exp fits held sensitive shallow =
    let same : (s : String) → contains child.scopes s ≡ contains requested s =
      λ s. ap (λ l. contains l s) fits.scopes_are ∙ contains-sorted_set requested s in
    record {
      family = fits.family;
      exact = same;
      held = λ s m. subset_of_without-eq-nil requested parent.scopes held s (sym (same s) ∙ m);
      insensitive = λ s m. ground (
        arith,
        contains-keep (contains c.sensitive_scopes) requested s,
        ap (λ l. contains l s) sensitive,
        sym (same s) ∙ m,
      );
      expires = ground (arith, fits.exp_is);
      bounded = ground (arith, fits.family.deeper);
    }
