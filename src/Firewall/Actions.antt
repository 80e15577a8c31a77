-- ===== src/Firewall/Actions.antt =====
-- agperms/src/agperms/firewall.py: `action`, the context manager, and what it records on entry and
-- exit.
pub mod Lifecycle
use adf.Prelude.{
  ℕ, String, Bool, true, false, Option, none, some, List, [], ◌∷◌, map, if◌then◌else◌,
}
use adf.Errors.{Error, Result, ok, err}
use adf.Exec.{Exec, pure, raise, lift, gets, when, ◌>>=◌, ◌>>◌}
use adf.Time.{truncate_reason}
use adf.Json.{Json, str, strs, dict, fields, obj}
use adf.Env.{Env}
use adf.Config.{reversibility_of}
use adf.Models.{
  CompletionState, clean, partial, completion_text, is_clean, Reversibility, reversibility_text,
  TokenClaims, ActionRecord,
}
use adf.Storage.{put_action, close_action}
use adf.Firewall.{Firewall, Fw, write, try_write, utcnow, fresh_id, new_event, log, spend}
use adf.Firewall.Verify.{require}

pub record ActionHandle : Type 0 where
  pub action_id : String
  pub jti : String
  pub name : String
  pub scope : String
  pub reversibility : Reversibility
  pub notes : List String

-- `note`
unfoldable pub add_notes : List String → ActionHandle → ActionHandle
add_notes texts h = record h { notes = map truncate_reason texts }

-- What the guarded code does with the firewall: its notes, and the exception that it ends with, if any.
abbrev pub Body : Type 0
Body = ActionHandle → Firewall → (List String × Option Error) × Firewall

abbrev pub reversibility_or : Option Reversibility → Reversibility → Reversibility
reversibility_or none r = r
reversibility_or (some r) _ = r

abbrev notes_detail : List String → List (String × Json)
notes_detail [] = []
notes_detail (n ∷ ns) = ("notes", strs (n ∷ ns)) ∷ []

module _ (env : Env) where
  -- `_close_action`
  unfoldable pub close_handle :
      ActionHandle → TokenClaims → CompletionState → Option String → Fw (Unit {0})
  close_handle handle claims state failure_reason = do
    finished ← utcnow env
    write (close_action handle.action_id state finished failure_reason)
    e ← new_event env (if is_clean state then "action_completed" else "action_failed")
    log env (record e {
      actor_id = some claims.sub;
      jti = some claims.jti;
      root_jti = some claims.root_jti;
      required_scope = some handle.scope;
      decision = some (if is_clean state then "clean" else "partial");
      reason = failure_reason;
      depth = some claims.depth;
      detail = some (
          dict (
            ("action_id", str handle.action_id)
            ∷ ("action_name", str handle.name)
            ∷ ("completion_state", str (completion_text state))
            ∷ ("reversibility", str (reversibility_text handle.reversibility))
            ∷ notes_detail handle.notes));
    })

  -- the part before `yield`
  unfoldable pub open_action :
      TokenClaims → String → String → Option Reversibility → Fw ActionHandle
  open_action claims scope name reversibility = do
    spend env claims.sub "action"
    resolved ← gets (λ s. reversibility_or reversibility (reversibility_of s.config scope))
    action_id ← fresh_id env
    started ← utcnow env
    try_write (
        put_action (record {
          action_id = action_id;
          jti = claims.jti;
          subject_id = claims.sub;
          name = name;
          scope = scope;
          started_at = started;
          finished_at = none;
          state = none;
          failure_reason = none;
          reversibility = resolved;
        }))
    e ← new_event env "action_started"
    log env (record e {
      actor_id = some claims.sub;
      jti = some claims.jti;
      root_jti = some claims.root_jti;
      required_scope = some scope;
      decision = some "allow";
      depth = some claims.depth;
      detail = some (
          dict (
            ("action_id", str action_id)
            ∷ ("action_name", str name)
            ∷ ("reversibility", str (reversibility_text resolved))
            ∷ []));
    })
    pure (record {
      action_id = action_id;
      jti = claims.jti;
      name = name;
      scope = scope;
      reversibility = resolved;
      notes = [];
    })

  unfoldable pub run_body : Body → ActionHandle → Fw (List String × Option Error)
  run_body body handle s = let (r, s') = body handle s in (ok r, s')

  -- the part after `yield`: the exception is raised again
  unfoldable pub finish_action : ActionHandle → TokenClaims → Option Error → Fw (Unit {0})
  finish_action handle claims none = close_handle handle claims clean none
  finish_action handle claims (some exc) = do
    close_handle handle claims partial (some (truncate_reason (env.error_text exc)))
    raise exc

  unfoldable pub action : String → String → String → Option Reversibility → Body → Fw (Unit {0})
  action token scope name reversibility body = do
    claims ← require env (some token) scope
    handle ← open_action claims scope name reversibility
    outcome ← run_body body handle
    finish_action (add_notes outcome.0 handle) claims outcome.1
