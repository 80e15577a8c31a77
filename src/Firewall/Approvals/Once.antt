-- ===== src/Firewall/Approvals/Once.antt =====
-- agperms/src/agperms/firewall.py: requests that are decided, and `collect`.
use adf.Prelude.{
  String, false, ◌≡◌, refl, ap, sym, ◌∙◌, subst, Option, none, some, [], ◌∷◌, lookup, insert, arith,
  eq_iff, Dict,
}
use adf.Errors.{ok, err, value_error}
use adf.Exec.{pure, raise, lift, gets, when, ◌>>=◌}
use adf.Exec.Rules.{Keeps, keeps_rules}
use adf.Env.{Env}
use adf.Models.{Capability, PendingApproval, is_pending}
use adf.Storage.{update_approval}
use adf.Firewall.{Firewall, try_write}
use adf.Firewall.Approvals.{
  decided, require_approval, load_pending, approve, deny, hand_over, withhold, collect_from,
  collect,
}
use adf.Firewall.Approvals.Gate.{approve-IsApproved}

-- each request is stored under its own id
abbrev pub IsKeyed : Firewall → Type 0
IsKeyed s =
    (id : String) (a : PendingApproval)
    → lookup id s.storage.approvals ≡ some a
    → a.approval_id ≡ id

insert-same :
    {V : Type 0} (k : String) (v : V) (d : Dict V) → lookup k d ≡ some v → insert k v d ≡ d
unfolding lookup insert
insert-same k v [] h = ground arith
insert-same k v ((j, w) ∷ d) h = ground (arith, eq_iff j k, insert-same k v d)

module _ (env : Env) where
  load_pending-decided :
      (id : String) (a : PendingApproval) (s : Firewall)
      → lookup id s.storage.approvals ≡ some a
      → is_pending a ≡ false
      → load_pending env id s ≡ (err (value_error "approval is already decided"), s)
  unfolding load_pending ◌>>=◌ gets lift require_approval when raise pure
  load_pending-decided id a s found closed = rw (found, closed) refl

  -- A request that is no longer pending can be neither approved nor denied, and the attempt changes
  -- nothing.
  pub decide-decided :
      (id approver : String) (reason : Option String) (a : PendingApproval) (s : Firewall)
      → lookup id s.storage.approvals ≡ some a
      → is_pending a ≡ false
      → (approve env id approver s ≡ (err (value_error "approval is already decided"), s))
        × (deny env id approver reason s ≡ (err (value_error "approval is already decided"), s))
  unfolding approve deny ◌>>=◌
  decide-decided id approver reason a s found closed =
      let e = load_pending-decided id a s found closed in (rw e refl, rw e refl)

  -- Where requests are stored under their own ids, an approved request cannot be approved again: the
  -- second attempt raises and changes nothing.
  pub approve-once :
      (id approver other : String) (s t : Firewall) (minted : Capability)
      → IsKeyed s
      → approve env id approver s ≡ (ok minted, t)
      → approve env id other t ≡ (err (value_error "approval is already decided"), t)
  unfolding decided
  approve-once id approver other s t minted keyed e =
      let (a, found, pending, done) = approve-IsApproved env id approver s t minted e in
      let (at, written) = done.recorded in
      let d =
        decided a "approved" (some approver) (some minted.claims.jti) (some minted.token) at in
      (decide-decided id other none d t
        (subst (λ k. lookup k t.storage.approvals ≡ some d) (keyed id a found) written) refl).0

  module _ (a : PendingApproval) (s : Firewall)
      (found : lookup a.approval_id s.storage.approvals ≡ some a) where
    rewritten :
        (record s.storage { approvals = insert a.approval_id a s.storage.approvals }) ≡ s.storage
    rewritten =
        ap (λ d. record s.storage { approvals = d })
          (insert-same a.approval_id a s.storage.approvals found)

    update-same : (try_write (update_approval a) s).1 ≡ s
    unfolding try_write update_approval
    update-same = rw found (ap (λ m. record s { storage = m }) rewritten)

    update-Keeps : Keeps (λ t. t ≡ s) (try_write (update_approval a))
    update-Keeps = record {
      at = λ t h. ap (λ t. (try_write (update_approval a) t).1) h ∙ update-same;
    }

    withhold-Keeps : Keeps (λ t. t ≡ s) (withhold env a)
    unfolding withhold
    withhold-Keeps = search keeps_rules

    hand_over-Keeps : (token : String) → Keeps (λ t. t ≡ s) (hand_over env a token)
    unfolding hand_over
    hand_over-Keeps token = search (keeps_rules, update-Keeps) depth 20

    collect_from-Keeps : (o : Option String) → Keeps (λ t. t ≡ s) (collect_from env a o)
    unfolding collect_from
    collect_from-Keeps none = withhold-Keeps
    collect_from-Keeps (some token) = search (keeps_rules, withhold-Keeps, hand_over-Keeps)

  collect-found :
      (id : String) (s : Firewall) (o : Option PendingApproval)
      → lookup id s.storage.approvals ≡ o
      → IsKeyed s
      → (collect env id s).1 ≡ s
  unfolding collect ◌>>=◌ gets lift require_approval
  collect-found id s none e keyed = rw e refl
  collect-found id s (some a) e keyed = rw e (
      (collect_from-Keeps a s
          (subst (λ k. lookup k s.storage.approvals ≡ some a) (sym (keyed id a e)) e) _).at
        s refl)

  -- Where requests are stored under their own ids, `collect` leaves the firewall exactly as it was,
  -- whether it returns a token or raises: in particular it never marks a request as collected.
  pub collect-same : (id : String) (s : Firewall) → IsKeyed s → (collect env id s).1 ≡ s
  collect-same id s keyed = collect-found id s (lookup id s.storage.approvals) refl keyed
