-- ===== src/Firewall/Kept/Runs.antt =====
-- Whole runs of calls against an invariant of the storage and the audit tail.
use adf.Prelude.{List, [], ◌∷◌}
use adf.Env.{Env}
use adf.Firewall.{Firewall}
use adf.Firewall.Steps.{Stable}
use adf.Firewall.Kept
use adf.Firewall.Kept.Later
use adf.Firewall.Run.{
  Call, minting, delegating, verifying, requiring, revoking, resolving, approving, denying,
  collecting, expiring, listing_pending, tracing, resetting, closing, Step, called, acted, perform,
  perform_all, body_of, take_step, run,
}

module _ (env : Env) {P : Firewall → Type 0} (st : Stable env P) where
  perform-keeps : (c : Call) (s : Firewall) → P s → P (perform env c s)
  unfolding perform
  perform-keeps (minting a b c d) s p = (Kept.mint_root-Keeps env st a b c d).at s p
  perform-keeps (delegating a b c d) s p = (Kept.delegate-Keeps env st a b c d).at s p
  perform-keeps (verifying a b) s p = (Kept.verify-Keeps env st a b).at s p
  perform-keeps (requiring a b) s p = (Kept.require-Keeps env st a b).at s p
  perform-keeps (revoking a b) s p = (Later.revoke-Keeps env st a b).at s p
  perform-keeps (resolving a b c) s p = (Later.resolve_review-Keeps env st a b c).at s p
  perform-keeps (approving a b) s p = (Later.approve-Keeps env st a b).at s p
  perform-keeps (denying a b c) s p = (Later.deny-Keeps env st a b c).at s p
  perform-keeps (collecting a) s p = (Later.collect-Keeps env st a).at s p
  perform-keeps expiring s p = (Later.expire_stale-Keeps env st).at s p
  perform-keeps listing_pending s p = (Later.pending_approvals-Keeps env st).at s p
  perform-keeps (tracing a) s p = (Later.chain-Keeps env st a).at s p
  perform-keeps resetting s p = (Later.reset_circuit-Keeps env st).at s p
  perform-keeps closing s p = (Later.close_firewall-Keeps env st).at s p

  perform_all-keeps : (cs : List Call) (s : Firewall) → P s → P (perform_all env cs s)
  unfolding perform_all
  perform_all-keeps [] s p = p
  perform_all-keeps (c ∷ cs) s p = perform_all-keeps cs (perform env c s) (perform-keeps c s p)

  take_step-keeps : (t : Step) (s : Firewall) → P s → P (take_step env t s)
  unfolding take_step body_of
  take_step-keeps (called c) s p = perform-keeps c s p
  take_step-keeps (acted token scope name r calls notes raised) s p =
      (Later.action-Keeps env st token scope name r (body_of env calls notes raised)
          (λ h s p. perform_all-keeps calls s p)).at
        s p

  pub run-keeps : (ts : List Step) (s : Firewall) → P s → P (run env ts s)
  unfolding run
  run-keeps [] s p = p
  run-keeps (t ∷ ts) s p = run-keeps ts (take_step env t s) (take_step-keeps t s p)
