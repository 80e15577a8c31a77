-- ===== src/Firewall/Steps.antt =====
-- What the firewall's methods may do to its storage, as a relation, and an invariant under it.
use adf.Prelude.{ℕ, String, Bool, ◌≡◌, refl, Option, none, some, List, [], ◌∷◌}
use adf.Errors.{Result, ok, err}
use adf.Exec.{modify}
use adf.Exec.Rules.{Keeps, keeps_rules}
use adf.Env.{Env}
use adf.Config.{Config}
use adf.Models.{
  TokenMetadata, Subject, PendingApproval, ActionRecord, ActionReview, CompletionState,
}
use adf.Audit.Rows.{AuditEvent}
use adf.Storage.{
  Memory, put_token, add_edge, get_or_create_subject, put_approval, update_approval, put_action,
  close_action, put_review, update_review, close,
}
use adf.Firewall.{
  Firewall, write, stored, try_write, ask_revoked, any_revoked, utcnow, utcnow_ts, fresh_id,
  new_event, log, spend, settle_outcome, audit_trip, record_call, require_closed, observe,
  store_subject, subject_stored_in, prefixed, resolve_subject, read_token, spend_at, observe_at,
}
use adf.Guardrails.Circuit.{Trip}
use adf.Firewall.Revoke.{revoke_targets}

-- one write of the storage, apart from the audit log
pub data Change (m : Memory) : Memory → Type 0 where
  token_put : (meta : TokenMetadata) {m' : Memory} → put_token meta m ≡ ok m' → Change m m'
  edge_added : (parent child : String) → Change m (add_edge parent child m)
  targets_revoked :
      (targets : List String) (root : String) (reason : Option String) (at : ℕ)
      → Change m (revoke_targets targets root reason at m)
  subject_stored :
      (fresh hash kind label : String) {subject : Subject} {m' : Memory}
      → get_or_create_subject fresh hash kind label m ≡ some (subject, m')
      → Change m m'
  approval_put : (a : PendingApproval) → Change m (put_approval a m)
  approval_updated : (a : PendingApproval) {m' : Memory} → update_approval a m ≡ ok m' → Change m m'
  action_put : (a : ActionRecord) {m' : Memory} → put_action a m ≡ ok m' → Change m m'
  action_closed :
      (id : String) (state : CompletionState) (at : ℕ) (reason : Option String)
      → Change m (close_action id state at reason m)
  review_put : (r : ActionReview) → Change m (put_review r m)
  review_updated : (r : ActionReview) {m' : Memory} → update_review r m ≡ ok m' → Change m m'
  storage_closed : Change m (close m)

-- `P` looks at the storage and the audit tail alone, and each change and each audit row keeps it.
pub record Stable (env : Env) (P : Firewall → Type 0) : Type 0 where
  pub quiet : (s t : Firewall) → t.storage ≡ s.storage → t.tail ≡ s.tail → P s → P t
  pub changed :
      (s : Firewall) (m : Memory) → Change s.storage m → P s → P (record s { storage = m })
  pub logged : (s : Firewall) (e : AuditEvent) → P s → P (log env e s).1

module _ (env : Env) {P : Firewall → Type 0} (st : Stable env P) where
  pub write-Keeps : (f : Memory → Memory) → ((m : Memory) → Change m (f m)) → Keeps P (write f)
  unfolding write
  write-Keeps f c = record { at = λ s p. st.changed s (f s.storage) (c s.storage) p }

  stored-keeps :
      (s : Firewall) (r : Result Memory)
      → ((m : Memory) → r ≡ ok m → Change s.storage m)
      → P s
      → P (stored s r).1
  stored-keeps s (ok m) c p = st.changed s m (c m refl) p
  stored-keeps s (err e) c p = p

  pub try_write-Keeps :
      (f : Memory → Result Memory)
      → ((m m' : Memory) → f m ≡ ok m' → Change m m')
      → Keeps P (try_write f)
  unfolding try_write
  try_write-Keeps f c = record { at = λ s p. stored-keeps s (f s.storage) (c s.storage) p }

  pub ask_revoked-Keeps : (jti : String) → Keeps P (ask_revoked jti)
  unfolding ask_revoked
  ask_revoked-Keeps jti = record { at = λ s p. p }

  pub any_revoked-Keeps : (jtis : List String) → Keeps P (any_revoked jtis)
  unfolding any_revoked
  any_revoked-Keeps [] = search keeps_rules
  any_revoked-Keeps (jti ∷ jtis) =
      let ih = any_revoked-Keeps jtis in search (keeps_rules, ask_revoked-Keeps)

  pub utcnow-Keeps : Keeps P (utcnow env)
  unfolding utcnow
  utcnow-Keeps = record { at = λ s p. st.quiet s _ refl refl p }

  pub utcnow_ts-Keeps : Keeps P (utcnow_ts env)
  unfolding utcnow_ts
  utcnow_ts-Keeps = search (keeps_rules, utcnow-Keeps)

  pub fresh_id-Keeps : Keeps P (fresh_id env)
  unfolding fresh_id
  fresh_id-Keeps = record { at = λ s p. st.quiet s _ refl refl p }

  pub new_event-Keeps : (action : String) → Keeps P (new_event env action)
  unfolding new_event
  new_event-Keeps action = search (keeps_rules, utcnow-Keeps)

  pub log-Keeps : (e : AuditEvent) → Keeps P (log env e)
  log-Keeps e = record { at = λ s p. st.logged s e p }

  pub read_token-Keeps : (token : String) → Keeps P (read_token env token)
  unfolding read_token
  read_token-Keeps token = search keeps_rules

  pub require_closed-Keeps : Keeps P (require_closed env)
  unfolding require_closed
  require_closed-Keeps = record { at = λ s p. p }

  pub modify-Keeps :
      (f : Firewall → Firewall)
      → ((s : Firewall) → ((f s).storage ≡ s.storage) × ((f s).tail ≡ s.tail))
      → Keeps P (modify f)
  unfolding modify
  modify-Keeps f same = record { at = λ s p. st.quiet s (f s) (same s).0 (same s).1 p }

  spend_at-Keeps : (now : ℕ) (subject action : String) → Keeps P (spend_at env now subject action)
  unfolding spend_at
  spend_at-Keeps now subject action = record { at = λ s p. st.quiet s _ refl refl p }

  pub spend-Keeps : (subject action : String) → Keeps P (spend env subject action)
  unfolding spend
  spend-Keeps subject action = search (keeps_rules, utcnow-Keeps, spend_at-Keeps)

  settle_outcome-Keeps :
      (now : ℕ) (error : Bool) (subject : Option String) (denial : Bool)
      → Keeps P (settle_outcome env now error subject denial)
  unfolding settle_outcome
  settle_outcome-Keeps now error subject denial = record { at = λ s p. st.quiet s _ refl refl p }

  audit_trip-Keeps : (t : Option Trip) → Keeps P (audit_trip env t)
  unfolding audit_trip
  audit_trip-Keeps none = search keeps_rules
  audit_trip-Keeps (some t) = search (keeps_rules, new_event-Keeps, log-Keeps)

  pub record_call-Keeps :
      (error : Bool) (subject : Option String) (denial : Bool)
      → Keeps P (record_call env error subject denial)
  unfolding record_call
  record_call-Keeps error subject denial =
      search (keeps_rules, utcnow-Keeps, settle_outcome-Keeps, audit_trip-Keeps)

  observe_at-Keeps : (now : ℕ) (subject : String) (n : ℕ) → Keeps P (observe_at env now subject n)
  unfolding observe_at
  observe_at-Keeps now subject n = record { at = λ s p. st.quiet s _ refl refl p }

  pub observe-Keeps : (subject : String) (n : ℕ) → Keeps P (observe env subject n)
  unfolding observe
  observe-Keeps subject n = search (keeps_rules, utcnow-Keeps, observe_at-Keeps)

  store_subject-Keeps :
      (fresh hash kind label : String) → Keeps P (store_subject env fresh hash kind label)
  unfolding store_subject
  store_subject-Keeps fresh hash kind label = record {
    at = λ s p.
        kept s (get_or_create_subject (prefixed kind fresh) hash kind label s.storage) refl p;
  }
    where
      kept :
          (s : Firewall) (o : Option (Subject × Memory))
          → get_or_create_subject (prefixed kind fresh) hash kind label s.storage ≡ o
          → P s
          → P (subject_stored_in s o).1
      kept s none e p = p
      kept s (some (subject, m)) e p =
          st.changed s m (subject_stored (prefixed kind fresh) hash kind label e) p

  same_config-Keeps : (f : Firewall → Config) → Keeps P (modify (λ s. record s { config = f s }))
  same_config-Keeps f = modify-Keeps (λ s. record s { config = f s }) (λ s. (refl, refl))

  pub resolve_subject-Keeps :
      (identifier kind : String) → Keeps P (resolve_subject env identifier kind)
  unfolding resolve_subject
  resolve_subject-Keeps identifier kind =
      search (keeps_rules, fresh_id-Keeps, store_subject-Keeps, same_config-Keeps) depth 14
