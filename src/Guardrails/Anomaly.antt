-- ===== src/Guardrails/Anomaly.antt =====
-- agperms/src/agperms/_guardrails.py: `AnomalyDetector`. Where the source computes with floats, the
-- tests here are the same comparisons of fractions and square roots, multiplied out over ℕ: for n
-- values with sum S and sum of squares Q, the mean is S / n and the sample variance is
-- (n * Q - S * S) / (n * (n - 1)). Intervals are microseconds; a clock that steps back counts as an
-- interval of 0.
pub mod Flags
use adf.Prelude.{
  ℕ, ◌+◌, ◌-◌, ◌*◌, max, String, Bool, true, false, Option, none, some, List, [], ◌∷◌, ◌++◌, ◌&&◌,
  ◌||◌, Dict, lookup, insert, length, ltb, leb, if◌then◌else◌,
}
use adf.Config.{Config}

pub record Baseline : Type 0 where
  pub intervals : List ℕ
  pub scope_counts : List ℕ
  pub last_seen : Option ℕ

abbrev pub new_baseline : Baseline
new_baseline = record { intervals = []; scope_counts = []; last_seen = none }

-- `deque(maxlen=100).append`
unfoldable pub push_capped : ℕ → List ℕ → List ℕ
push_capped x xs =
    if leb 100 (length xs)
    then elim xs [ [] ↦ x ∷ [] | _ ∷ rest ↦ rest ++ x ∷ [] ]
    else xs ++ x ∷ []

pub record Stats : Type 0 where
  -- the values, at least 1 (the mean of none is 0), and their sum
  pub number : ℕ
  pub total : ℕ
  -- n * Q - S * S: zero exactly where the standard deviation is zero
  pub spread : ℕ

abbrev pub sum : List ℕ → ℕ
sum [] = 0
sum (x ∷ xs) = x + sum xs

abbrev pub sum_squares : List ℕ → ℕ
sum_squares [] = 0
sum_squares (x ∷ xs) = x * x + sum_squares xs

-- `_mean_std`
unfoldable pub mean_std : List ℕ → Stats
mean_std values =
    let n = max 1 (length values) in
    let total = sum values in
    record { number = n; total = total; spread = n * sum_squares values - total * total }

-- `d > sigma * std`, for the distance `d` of n values times n
unfoldable pub beyond : Config → Stats → ℕ → Bool
beyond c s d =
    ltb 0 d
    && ltb (c.sigma_num * c.sigma_num * s.number * s.spread)
        (d * d * (s.number - 1) * (c.sigma_den * c.sigma_den))

-- `_is_high_outlier`
unfoldable pub is_high_outlier : Config → ℕ → Stats → Bool
unfolding beyond
is_high_outlier c value s =
    if ltb 0 s.spread
    then beyond c s (value * s.number - s.total)
    else ltb (max (s.total * 2) (s.total + s.number)) (value * s.number)

-- `_is_low_outlier`
unfoldable pub is_low_outlier : Config → ℕ → Stats → Bool
unfolding beyond
is_low_outlier c value s =
    if ltb 0 s.spread
    then beyond c s (s.total - value * s.number)
    else ltb (value * s.number * 2) s.total

pub data Finding : Type 0 where
  fast_interval : ℕ → Stats → Finding
  many_scopes : ℕ → Stats → Finding

abbrev pub Baselines : Type 0
Baselines = Dict Baseline

abbrev pub baseline_of : Option Baseline → Baseline
baseline_of none = new_baseline
baseline_of (some b) = b

unfoldable pub interval_finding : Config → ℕ → List ℕ → List Finding
unfolding mean_std is_low_outlier
interval_finding c interval seen =
    if leb c.anomaly_min_baseline_samples (length seen) && is_low_outlier c interval (mean_std seen)
    then fast_interval interval (mean_std seen) ∷ []
    else []

unfoldable pub scope_finding : Config → ℕ → List ℕ → List Finding
unfolding mean_std is_high_outlier
scope_finding c scope_count seen =
    if leb c.anomaly_min_baseline_samples (length seen)
      && is_high_outlier c scope_count (mean_std seen)
    then many_scopes scope_count (mean_std seen) ∷ []
    else []

-- The subject's baseline after a delegation, and what looks anomalous about it.
unfoldable pub observe : Config → ℕ → ℕ → Baseline → Baseline × List Finding
unfolding interval_finding scope_finding push_capped
observe c now scope_count b =
    let scopes = scope_finding c scope_count b.scope_counts in
    let counts = push_capped scope_count b.scope_counts in
    elim b.last_seen [
      | none ↦ (record b { scope_counts = counts; last_seen = some now }, scopes)
      | some t ↦ (
        record {
          intervals = push_capped (now - t) b.intervals;
          scope_counts = counts;
          last_seen = some now;
        },
        interval_finding c (now - t) b.intervals ++ scopes,
      )
    ]

unfoldable pub observe_delegation : Config → ℕ → String → ℕ → Baselines → Baselines × List Finding
unfolding observe
observe_delegation c now subject scope_count d =
    let (b, findings) = observe c now scope_count (baseline_of (lookup subject d)) in
    (insert subject b d, findings)
