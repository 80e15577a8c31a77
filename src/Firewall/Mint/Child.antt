-- ===== src/Firewall/Mint/Child.antt =====
-- What a minted child capability takes from its parent.
use adf.Prelude.{
  ℕ, ◌+◌, String, Bool, ◌≡◌, refl, ap, sym, Option, List, [], ◌∷◌, ◌++◌, map, subst, sorted_set,
}
use adf.Exec.Rules.{Gives, Gives-bind, Gives-any, Gives-gets, Gives-weaken}
use adf.Env.{Env}
use adf.Config.{Config}
use adf.Models.{TokenClaims, Capability, ancestor_jtis}
use adf.Tokens.{issue, chain_entry_for, child_claims}
use adf.Firewall.{Firewall}
use adf.Firewall.Mint.{issue_child}

-- what a child capability takes from its parent
pub record IsChildOf (parent child : TokenClaims) : Type 0 where
  pub deeper : child.depth ≡ parent.depth + 1
  pub ceiling : child.max_depth ≡ parent.max_depth
  pub root : child.root_jti ≡ parent.root_jti
  pub ancestors : ancestor_jtis child ≡ ancestor_jtis parent ++ parent.jti ∷ []

-- what a capability minted for these scopes and this expiry holds
pub record IsMintedFor (parent : TokenClaims) (scopes : List String) (exp : ℕ) (approval : Bool)
    (approver : Option String) (child : TokenClaims) : Type 0 where
  pub family : IsChildOf parent child
  pub scopes_are : child.scopes ≡ sorted_set scopes
  pub exp_is : child.exp ≡ exp
  pub approval_is : child.approval_required ≡ approval
  pub approver_is : child.approved_by ≡ approver

map-append : {A B : Type 0} (f : A → B) (xs ys : List A) → map f (xs ++ ys) ≡ map f xs ++ map f ys
map-append f [] ys = refl
map-append f (x ∷ xs) ys = ap (λ l. f x ∷ l) (map-append f xs ys)

module _ (env : Env) where
  pub child_claims-IsMintedFor :
      (c : Config) (jti : String) (now : ℕ) (ts : String) (parent : TokenClaims) (subject : String)
      (scopes : List String) (exp : ℕ) (approval : Bool) (approver : Option String)
      → IsMintedFor parent scopes exp approval approver
          (child_claims c jti now ts parent subject scopes exp approval approver)
  unfolding child_claims chain_entry_for
  child_claims-IsMintedFor c jti now ts parent subject scopes exp approval approver = record {
    family = record {
      deeper = refl;
      ceiling = refl;
      root = refl;
      ancestors = map-append _ parent.delegation_chain _;
    };
    scopes_are = refl;
    exp_is = refl;
    approval_is = refl;
    approver_is = refl;
  }

  pub issue_child-gives :
      {P : Firewall → Type 0} (parent : TokenClaims) (subject : String) (scopes : List String)
      (exp : ℕ) (approval : Bool) (approver : Option String)
      → Gives P
          (issue_child env parent subject scopes exp approval approver)
          (λ minted s. IsMintedFor parent scopes exp approval approver minted.claims)
  unfolding issue_child issue
  issue_child-gives parent subject scopes exp approval approver = Gives-bind Gives-any λ now.
      Gives-bind Gives-any λ stamp. Gives-bind Gives-any λ jti.
        Gives-weaken
          (λ minted s (p, e).
            subst (λ (m : Capability). IsMintedFor parent scopes exp approval approver m.claims)
              (sym e)
              (child_claims-IsMintedFor s.config jti now (env.isoformat stamp) parent subject scopes
                exp approval approver))
          (Gives-gets _)
