-- ===== src/Firewall/Kept/Audited.antt =====
-- The audit log in a run of calls.
use adf.Prelude.{String, true, ◌≡◌, refl, ap, sym, ◌∙◌, subst, Option, none, some, List, [], ◌∷◌}
use adf.Env.{Env}
use adf.Config.{Config}
use adf.Storage.{Memory, audit_tail_hash}
use adf.Audit.{verify_integrity, genesis_hash, current_tail}
use adf.Audit.Chain.{IsChained, IsSound, tail_of, log_batch-IsSound, verify_integrity_iff}
use adf.Firewall.{Firewall, new_firewall, log}
use adf.Firewall.Steps.{Stable}
use adf.Firewall.Run.{Step, run}
use adf.Firewall.Kept.Changes.{Change-Grows}
use adf.Firewall.Kept.Runs.{run-keeps}

module _ (env : Env) where
  -- the tail is read from the audit rows of a memory alone
  current_tail-audit :
      (tail : Option String) (m n : Memory)
      → n.audit ≡ m.audit
      → current_tail tail n ≡ current_tail tail m
  unfolding current_tail audit_tail_hash
  current_tail-audit (some hash) m n e = refl
  current_tail-audit none m n e = rw e refl

  IsSound-audit :
      (tail : Option String) (m n : Memory)
      → n.audit ≡ m.audit
      → IsSound env tail m
      → IsSound env tail n
  IsSound-audit tail m n e s = record {
    chained = subst (IsChained env genesis_hash) (sym e) s.chained;
    synced = current_tail-audit tail m n e ∙ s.synced ∙ ap (tail_of env genesis_hash) (sym e);
  }

  audited_stable : Stable env (λ s. IsSound env s.tail s.storage)
  unfolding log
  audited_stable = record {
    quiet = λ s t same tails p. rw (same, tails) p;
    changed = λ s m c p. IsSound-audit s.tail s.storage m (Change-Grows c).audit p;
    logged = λ s e p. log_batch-IsSound env (e ∷ []) s.tail s.storage p;
  }

  -- A run keeps the log chained, and the tail that the firewall remembers matches its last row.
  pub run-IsSound :
      (ts : List Step) (s : Firewall)
      → IsSound env s.tail s.storage
      → IsSound env (run env ts s).tail (run env ts s).storage
  run-IsSound ts s p = run-keeps env audited_stable ts s p

  -- Whatever a new firewall is asked to do, the verifier then reports its audit log as intact.
  pub run-intact :
      (c : Config) (ts : List Step)
      → (verify_integrity env (run env ts (new_firewall c)).storage).intact ≡ true
  unfolding new_firewall current_tail audit_tail_hash
  run-intact c ts =
      let start : IsSound env (new_firewall c).tail (new_firewall c).storage = record {
        chained = tt;
        synced = refl;
      } in
      let done = run-IsSound ts (new_firewall c) start in
      (verify_integrity_iff env (run env ts (new_firewall c)).storage).1 done.chained
