-- ===== src/Firewall/Run.antt =====
-- agperms/src/agperms/firewall.py: the public methods as calls, and a run of them on one firewall.
use adf.Prelude.{ℕ, String, Option, List, [], ◌∷◌}
use adf.Errors.{Error}
use adf.Env.{Env}
use adf.Models.{Reversibility}
use adf.Firewall.{Firewall}
use adf.Firewall.Mint.{mint_root}
use adf.Firewall.Delegate.{delegate}
use adf.Firewall.Verify.{verify, require}
use adf.Firewall.Actions.{action, Body}
use adf.Firewall.Revoke.{revoke}
use adf.Firewall.Reviews.{resolve_review}
use adf.Firewall.Approvals.{approve, deny, collect, expire_stale_approvals, pending_approvals}
use adf.Firewall.Lineage.{chain, reset_circuit, close_firewall}

pub data Call : Type 0 where
  minting : (subject : String) (scopes : List String) (ttl depth : Option ℕ) → Call
  delegating : (token to : String) (scopes : List String) (ttl : Option ℕ) → Call
  verifying : (token : Option String) (scope : String) → Call
  requiring : (token : Option String) (scope : String) → Call
  revoking : (jti : String) (reason : Option String) → Call
  resolving : (review_id note reviewed_by : String) → Call
  approving : (approval_id approver : String) → Call
  denying : (approval_id approver : String) (reason : Option String) → Call
  collecting : (approval_id : String) → Call
  expiring : Call
  listing_pending : Call
  tracing : (jti : String) → Call
  resetting : Call
  closing : Call

-- a call, or a guarded action whose body makes calls and then returns or raises
pub data Step : Type 0 where
  called : (c : Call) → Step
  acted :
      (token scope name : String) (reversibility : Option Reversibility) (calls : List Call)
      (notes : List String) (raised : Option Error)
      → Step

module _ (env : Env) where
  unfoldable pub perform : Call → Firewall → Firewall
  perform (minting subject scopes ttl depth) s = (mint_root env subject scopes ttl depth s).1
  perform (delegating token to scopes ttl) s = (delegate env token to scopes ttl s).1
  perform (verifying token scope) s = (verify env token scope s).1
  perform (requiring token scope) s = (require env token scope s).1
  perform (revoking jti reason) s = (revoke env jti reason s).1
  perform (resolving review_id note reviewed_by) s =
      (resolve_review env review_id note reviewed_by s).1
  perform (approving approval_id approver) s = (approve env approval_id approver s).1
  perform (denying approval_id approver reason) s = (deny env approval_id approver reason s).1
  perform (collecting approval_id) s = (collect env approval_id s).1
  perform expiring s = (expire_stale_approvals env s).1
  perform listing_pending s = (pending_approvals env s).1
  perform (tracing jti) s = (chain env jti s).1
  perform resetting s = (reset_circuit env s).1
  perform closing s = (close_firewall env s).1

  unfoldable pub perform_all : List Call → Firewall → Firewall
  perform_all [] s = s
  perform_all (c ∷ cs) s = perform_all cs (perform c s)

  unfoldable pub body_of : List Call → List String → Option Error → Body
  body_of calls notes raised handle s = ((notes, raised), perform_all calls s)

  unfoldable pub take_step : Step → Firewall → Firewall
  take_step (called c) s = perform c s
  take_step (acted token scope name reversibility calls notes raised) s =
      (action env token scope name reversibility (body_of calls notes raised) s).1

  unfoldable pub run : List Step → Firewall → Firewall
  run [] s = s
  run (t ∷ ts) s = run ts (take_step t s)
