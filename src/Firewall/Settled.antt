-- ===== src/Firewall/Settled.antt =====
-- The configuration under the actions that resolve no subject.
use adf.Prelude.{ℕ, String, ◌≡◌, refl, Option, none, some, List, [], ◌∷◌}
use adf.Exec.Rules.{Keeps, keeps_rules}
use adf.Env.{Env}
use adf.Config.{Config}
use adf.Models.{TokenMetadata, TokenClaims}
use adf.Audit.Rows.{AuditEvent}
use adf.Guardrails.Anomaly.{Finding}
use adf.Firewall.{
  Firewall, Fw, ask_revoked, any_revoked, utcnow, utcnow_ts, new_event, log, spend, require_closed,
  observe, read_token, spend_at, observe_at,
}
use adf.Firewall.Delegate.{check_root, assert_root_alive, flag_anomaly}

abbrev pub HasConfig : Config → Firewall → Type 0
HasConfig c s = s.config ≡ c

module _ (env : Env) (c : Config) where
  same_config :
      {A : Type 0} (m : Fw A) → ((s : Firewall) → (m s).1.config ≡ s.config) → Keeps (HasConfig c) m
  same_config m same = record { at = λ s h. rw (same s) h }

  pub ask_revoked-settled : (jti : String) → Keeps (HasConfig c) (ask_revoked jti)
  unfolding ask_revoked
  ask_revoked-settled jti = same_config _ (λ s. refl)

  pub any_revoked-settled : (jtis : List String) → Keeps (HasConfig c) (any_revoked jtis)
  unfolding any_revoked
  any_revoked-settled [] = search keeps_rules
  any_revoked-settled (jti ∷ jtis) =
      let ih = any_revoked-settled jtis in search (keeps_rules, ask_revoked-settled)

  pub utcnow-settled : Keeps (HasConfig c) (utcnow env)
  unfolding utcnow
  utcnow-settled = same_config _ (λ s. refl)

  pub utcnow_ts-settled : Keeps (HasConfig c) (utcnow_ts env)
  unfolding utcnow_ts
  utcnow_ts-settled = search (keeps_rules, utcnow-settled)

  pub read_token-settled : (token : String) → Keeps (HasConfig c) (read_token env token)
  unfolding read_token
  read_token-settled token = search keeps_rules

  pub new_event-settled : (action : String) → Keeps (HasConfig c) (new_event env action)
  unfolding new_event
  new_event-settled action = search (keeps_rules, utcnow-settled)

  pub log-settled : (e : AuditEvent) → Keeps (HasConfig c) (log env e)
  unfolding log
  log-settled e = same_config _ (λ s. refl)

  pub require_closed-settled : Keeps (HasConfig c) (require_closed env)
  unfolding require_closed
  require_closed-settled = same_config _ (λ s. refl)

  spend_at-settled :
      (now : ℕ) (subject action : String) → Keeps (HasConfig c) (spend_at env now subject action)
  unfolding spend_at
  spend_at-settled now subject action = same_config _ (λ s. refl)

  pub spend-settled : (subject action : String) → Keeps (HasConfig c) (spend env subject action)
  unfolding spend
  spend-settled subject action = search (keeps_rules, utcnow-settled, spend_at-settled)

  observe_at-settled :
      (now : ℕ) (subject : String) (n : ℕ) → Keeps (HasConfig c) (observe_at env now subject n)
  unfolding observe_at
  observe_at-settled now subject n = same_config _ (λ s. refl)

  pub observe-settled : (subject : String) (n : ℕ) → Keeps (HasConfig c) (observe env subject n)
  unfolding observe
  observe-settled subject n = search (keeps_rules, utcnow-settled, observe_at-settled)

  check_root-settled :
      (jti : String) (o : Option TokenMetadata) → Keeps (HasConfig c) (check_root env jti o)
  unfolding check_root
  check_root-settled jti none = search keeps_rules
  check_root-settled jti (some root) =
      search (keeps_rules, utcnow-settled, ask_revoked-settled) depth 40

  pub assert_root_alive-settled :
      (claims : TokenClaims) → Keeps (HasConfig c) (assert_root_alive env claims)
  unfolding assert_root_alive
  assert_root_alive-settled claims = search (keeps_rules, check_root-settled)

  pub flag_anomaly-settled :
      (parent : TokenClaims) (to : String) (requested : List String) (fs : List Finding)
      → Keeps (HasConfig c) (flag_anomaly env parent to requested fs)
  unfolding flag_anomaly
  flag_anomaly-settled parent to requested fs =
      search (keeps_rules, new_event-settled, log-settled) depth 40

pub ruleset settled_rules = (
  keeps_rules, ask_revoked-settled, any_revoked-settled, utcnow-settled, utcnow_ts-settled,
  new_event-settled, log-settled, require_closed-settled, spend-settled, observe-settled,
  assert_root_alive-settled, flag_anomaly-settled,
)
