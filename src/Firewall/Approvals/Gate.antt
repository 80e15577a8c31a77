-- ===== src/Firewall/Approvals/Gate.antt =====
-- agperms/src/agperms/firewall.py: what `approve` mints and leaves.
use adf.Prelude.{
  ℕ, ◌≤◌, min, String, true, ◌≡◌, refl, ap, sym, ◌∙◌, subst, Option, none, some, List, lookup,
  contains, arith, lookup-insert_self, contains-sorted_set,
}
use adf.Errors.{Result, ok, err}
use adf.Exec.Rules.{
  Keeps, Gives, Gives-bind, Gives-keeps, Gives-any, Gives-gets, Gives-lift, Gives-raise, Gives-pure,
  Gives-fact, Gives-known, Gives-unless, Gives-when, Gives-weaken, Gives-returned, Post,
}
use adf.Env.{Env}
use adf.Models.{TokenClaims, TokenMetadata, Capability, PendingApproval, is_pending}
use adf.Audit.Rows.{Row}
use adf.Storage.{Memory, update_approval, append_audit_batch}
use adf.Firewall.{Firewall, Fw, try_write, stored}
use adf.Firewall.Mint.Child.{IsMintedFor, issue_child-gives}
use adf.Firewall.Tables.{HasTable, utcnow-table, new_event-table, log-table}
use adf.Firewall.Approvals.{
  decided, require_approval, decide_approval, refuse_stale, load_pending, grant_approval, approve,
}

abbrev approval_of : String → Memory → Option PendingApproval
approval_of id m = lookup id m.approvals

skips :
    (id : String) (rows : List Row) (m : Memory)
    → approval_of id (append_audit_batch rows m) ≡ approval_of id m
unfolding append_audit_batch
skips id rows m = refl

update_approval-ok :
    (a : PendingApproval) (m n : Memory)
    → update_approval a m ≡ ok n
    → approval_of a.approval_id n ≡ some a
unfolding update_approval
update_approval-ok a m n e = ground (arith, lookup-insert_self a.approval_id a m.approvals)

require_approval-ok :
    (o : Option PendingApproval) (a : PendingApproval) → require_approval o ≡ ok a → o ≡ some a
unfolding require_approval
require_approval-ok none a e = ground arith
require_approval-ok (some b) a e = ground arith

-- what the approval of a request leaves behind
pub record IsApproved (a : PendingApproval) (approver : String) (minted : Capability) (t : Firewall)
    : Type 0 where
  pub exact : (s : String) → contains minted.claims.scopes s ≡ contains a.requested_scopes s
  pub expires : minted.claims.exp ≤ a.parent_exp
  pub marked : minted.claims.approval_required ≡ true
  pub approver_is : minted.claims.approved_by ≡ some approver
  pub recorded :
      (at : ℕ) × (lookup a.approval_id t.storage.approvals
        ≡ some
            (decided a "approved" (some approver) (some minted.claims.jti) (some minted.token) at))

module _ (env : Env) where
  stored_at :
      (a : PendingApproval) (s : Firewall) (r : Result Memory)
      → update_approval a s.storage ≡ r
      → Post (λ _ t. approval_of a.approval_id t.storage ≡ some a) (stored s r)
  stored_at a s (ok m) e = update_approval-ok a s.storage m e
  stored_at a s (err x) e = tt

  decide_approval-gives :
      {P : Firewall → Type 0} (a : PendingApproval) (status : String)
      (approver jti token : Option String)
      → Gives P (decide_approval env a status approver jti token) (λ _ t.
        (at : ℕ) × (approval_of a.approval_id t.storage
          ≡ some (decided a status approver jti token at)))
  unfolding decide_approval try_write decided
  decide_approval-gives a status approver jti token = Gives-bind Gives-any λ at.
      Gives-weaken (λ _ t e. (at, e))
        (record { at = λ s p. stored_at (decided a status approver jti token at) s _ refl })

  refuse_stale-gives :
      (id : String) (o : Option PendingApproval) (a : PendingApproval)
      → Gives
          (HasTable (approval_of id) o)
          (refuse_stale env a)
          (λ _ t. HasTable (approval_of id) o t)
  unfolding refuse_stale
  refuse_stale-gives id o a =
      Gives-bind (Gives-keeps (utcnow-table env (approval_of id) (skips id) o)) λ now.
        Gives-weaken (λ _ t (h, e). h) (Gives-unless _ (Gives-bind Gives-any λ _. Gives-raise _))

  load_pending-gives :
      (id : String) (o : Option PendingApproval)
      → Gives
          (HasTable (approval_of id) o)
          (load_pending env id)
          (λ a t. (o ≡ some a) × (is_pending a ≡ true))
  unfolding load_pending
  load_pending-gives id o =
      Gives-bind (Gives-weaken (λ r t (h, e). (h, sym (e ∙ h))) (Gives-gets _)) λ found.
        Gives-fact λ same. Gives-bind (Gives-lift (require_approval found)) λ a. Gives-fact λ there.
          Gives-bind (Gives-when _ (refuse_stale-gives id o a)) λ _.
            Gives-bind (Gives-unless _ (Gives-raise _)) λ _. Gives-fact λ pending.
              Gives-weaken
                (λ b t (h, e). (
                  same ∙ require_approval-ok found a there ∙ ap some (sym e),
                  ap (λ x. is_pending x) e ∙ ground (arith, pending),
                ))
                (Gives-pure a)

  -- the record that the approval of `a` leaves
  abbrev IsDecided : PendingApproval → String → Capability → Firewall → Type 0
  IsDecided a approver minted t =
      (at : ℕ) × (approval_of a.approval_id t.storage
        ≡ some
            (decided a "approved" (some approver) (some minted.claims.jti) (some minted.token) at))

  IsDecided-Keeps :
      {A : Type 0} (a : PendingApproval) (approver : String) (minted : Capability) (m : Fw A)
      → ((o : Option PendingApproval) → Keeps (HasTable (approval_of a.approval_id) o) m)
      → Keeps (IsDecided a approver minted) m
  IsDecided-Keeps a approver minted m k = record { at = λ s (at, h). (at, (k (some _)).at s h) }

  approved_lem :
      (a : PendingApproval) (approver : String) (parent : TokenClaims) (now : ℕ)
      (minted : Capability) (t : Firewall)
      → IsMintedFor parent a.requested_scopes
          (min now a.parent_exp)
          true
          (some approver)
          minted.claims
      → IsDecided a approver minted t
      → IsApproved a approver minted t
  approved_lem a approver parent now minted t fits written = record {
    exact = λ s. ap (λ l. contains l s) fits.scopes_are ∙ contains-sorted_set a.requested_scopes s;
    expires = ground (arith, fits.exp_is);
    marked = fits.approval_is;
    approver_is = fits.approver_is;
    recorded = written;
  }

  grant_approval-gives :
      {P : Firewall → Type 0} (a : PendingApproval) (meta : TokenMetadata) (approver : String)
      → Gives P (grant_approval env a meta approver) (λ minted t. IsApproved a approver minted t)
  unfolding grant_approval
  grant_approval-gives a meta approver =
      let T = approval_of a.approval_id in
      let skip = skips a.approval_id in
      Gives-bind Gives-any λ read. Gives-bind Gives-any λ parent. Gives-bind Gives-any λ now.
        Gives-bind
          (issue_child-gives env parent a.child_subject_id a.requested_scopes _ true
            (some approver))
          λ minted. Gives-known λ fits. Gives-bind Gives-any λ _. Gives-bind Gives-any λ _.
            Gives-bind
              (decide_approval-gives a "approved" (some approver) (some minted.claims.jti)
                (some minted.token))
              λ _.
                Gives-bind
                  (Gives-keeps (
                    IsDecided-Keeps a approver minted _
                      (λ o. new_event-table env T skip o "approval_granted")))
                  λ e.
                    Gives-bind
                      (Gives-keeps
                        (IsDecided-Keeps a approver minted _ (λ o. log-table env T skip o _)))
                      λ _.
                        Gives-weaken
                          (λ m t (h, e).
                            subst (λ m. IsApproved a approver m t) (sym e)
                              (approved_lem a approver parent _ minted t fits h))
                          (Gives-pure minted)

  approve-gives :
      (id approver : String) (o : Option PendingApproval)
      → Gives (HasTable (approval_of id) o) (approve env id approver) (λ minted t.
        (a : PendingApproval) × (o ≡ some a)
        × (is_pending a ≡ true)
        × IsApproved a approver minted t)
  unfolding approve
  approve-gives id approver o = Gives-bind (load_pending-gives id o) λ a.
      Gives-known λ (found, pending). Gives-bind Gives-any λ r. Gives-bind Gives-any λ meta.
        Gives-bind Gives-any λ gone. Gives-bind Gives-any λ _. Gives-bind Gives-any λ now.
          Gives-bind Gives-any λ _.
            Gives-weaken (λ minted t done. (a, found, pending, done))
              (grant_approval-gives a meta approver)

  pub approve-IsApproved :
      (id approver : String) (s t : Firewall) (minted : Capability)
      → approve env id approver s ≡ (ok minted, t)
      → (a : PendingApproval) × (lookup id s.storage.approvals ≡ some a)
        × (is_pending a ≡ true)
        × IsApproved a approver minted t
  approve-IsApproved id approver s t minted e =
      Gives-returned (approve-gives id approver (lookup id s.storage.approvals)) refl e
