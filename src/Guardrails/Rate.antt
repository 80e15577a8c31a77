-- ===== src/Guardrails/Rate.antt =====
-- agperms/src/agperms/_guardrails.py: `LocalWindowCache` and `RateLimiter`. Times are microseconds;
-- a clock reading is an argument.
pub mod Budget
use Prim.Native.String
use adf.Prelude.{
  ℕ, ◌+◌, ◌-◌, ◌*◌, String, Bool, Option, none, some, List, [], ◌∷◌, ◌++◌, Dict, lookup, insert,
  length, keep, ltb, leb, ◌==◌, if◌then◌else◌,
}
use adf.Time.{second}
use adf.Errors.{Result, ok, err, rate_limit_exceeded}
use adf.Config.{Config, is_exempt}

-- the bucket of each key: the hits in the window, oldest first
abbrev pub Buckets : Type 0
Buckets = Dict (List ℕ)

abbrev pub bucket_of : Option (List ℕ) → List ℕ
bucket_of none = []
bucket_of (some b) = b

-- `while bucket and bucket[0] < cutoff: bucket.popleft()`
unfoldable pub drop_before : ℕ → List ℕ → List ℕ
drop_before cutoff [] = []
drop_before cutoff (t ∷ ts) =
    let rest = drop_before cutoff ts in if ltb t cutoff then rest else t ∷ ts

unfoldable pub hit_bucket : ℕ → ℕ → List ℕ → List ℕ
unfolding drop_before
hit_bucket now window b = drop_before (now - window * second) b ++ now ∷ []

-- the buckets after the hit, and the count in the window
unfoldable pub hit : ℕ → String → ℕ → Buckets → Buckets × ℕ
unfolding hit_bucket
hit now key window d =
    let b = hit_bucket now window (bucket_of (lookup key d)) in (insert key b d, length b)

unfoldable pub count_live : ℕ → List ℕ → ℕ
count_live cutoff b = length (keep (λ t. leb cutoff t) b)

unfoldable pub count : ℕ → String → ℕ → Buckets → ℕ
unfolding count_live
count now key window d = count_live (now - window * second) (bucket_of (lookup key d))

abbrev pub window_seconds : ℕ
window_seconds = 60

-- `_limit_for`
unfoldable pub limit_for : Config → String → ℕ
limit_for c action =
    if action == "delegate"
    then c.rate_limit_delegate_per_min
    else if action == "action"
    then c.rate_limit_action_per_min
    else c.rate_limit_verify_per_min

-- `f"rate:{action}:{subject_id}"`
unfoldable pub rate_key : String → String → String
rate_key action subject = String.◌++◌ "rate:" (String.◌++◌ action (String.◌++◌ ":" subject))

-- One unit of budget is spent, also by a call that is refused.
unfoldable pub check_rate : Config → ℕ → String → String → Buckets → Result (Unit {0}) × Buckets
unfolding hit limit_for
check_rate c now subject action d =
    if is_exempt c subject
    then (ok tt, d)
    else let (d', used) = hit now (rate_key action subject) window_seconds d in
      let limit = limit_for c action in
      if ltb limit used
      then (err (rate_limit_exceeded subject limit window_seconds), d')
      else (ok tt, d')
