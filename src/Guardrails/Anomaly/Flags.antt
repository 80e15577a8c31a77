-- ===== src/Guardrails/Anomaly/Flags.antt =====
-- agperms/src/agperms/_guardrails.py: the windows and the flags of the anomaly detector.
use adf.Prelude.{
  ℕ, zero, suc, ◌+◌, ◌-◌, ◌*◌, ◌≤◌, ◌<◌, max, ◌≡◌, refl, ap, true, ◌↔◌, some, List, [], ◌∷◌, length,
  length-append, arith, Option-cases, inl, inr,
}
use adf.Config.{Config}
use adf.Guardrails.Anomaly.{
  Baseline, push_capped, sum, sum_squares, mean_std, is_high_outlier, observe,
}

pub record IsCapped (b : Baseline) : Type 0 where
  pub intervals : length b.intervals ≤ 100
  pub scope_counts : length b.scope_counts ≤ 100

push_capped-le : (x : ℕ) (xs : List ℕ) → length xs ≤ 100 → length (push_capped x xs) ≤ 100
unfolding push_capped
push_capped-le x [] h = omega arith
push_capped-le x (y ∷ ys) h =
    ground (arith, length-append ys (x ∷ []), length-append (y ∷ ys) (x ∷ []))

-- A delegation keeps at most 100 intervals and 100 scope counts, notes the time, and flags nothing
-- while neither window has reached the sample minimum.
pub observe_lem :
    (c : Config) (now scope_count : ℕ) (b : Baseline)
    → IsCapped b
    → IsCapped (observe c now scope_count b).0
      × ((observe c now scope_count b).0.last_seen ≡ some now)
      × (length b.intervals < c.anomaly_min_baseline_samples
          → length b.scope_counts < c.anomaly_min_baseline_samples
          → (observe c now scope_count b).1 ≡ [])
unfolding observe
observe_lem c now scope_count b k = elim (Option-cases b.last_seen) [
  | inl e ↦ rw e (
    record {
      intervals = k.intervals;
      scope_counts = push_capped-le scope_count b.scope_counts k.scope_counts;
    },
    refl,
    λ h j. ground arith,
  )
  | inr (t, e) ↦ rw e (
    record {
      intervals = push_capped-le (now - t) b.intervals k.intervals;
      scope_counts = push_capped-le scope_count b.scope_counts k.scope_counts;
    },
    refl,
    λ h j. ground arith,
  )
]

abbrev pub replicate : ℕ → ℕ → List ℕ
replicate zero v = []
replicate (suc n) v = v ∷ replicate n v

sum-replicate : (n v : ℕ) → sum (replicate n v) ≡ n * v
sum-replicate zero v = omega arith
sum-replicate (suc n) v = omega (arith, sum-replicate n v)

sum_squares-replicate : (n v : ℕ) → sum_squares (replicate n v) ≡ n * (v * v)
sum_squares-replicate zero v = omega arith
sum_squares-replicate (suc n) v = omega (arith, sum_squares-replicate n v)

length-replicate : (n v : ℕ) → length (replicate n v) ≡ n
length-replicate zero v = refl
length-replicate (suc n) v = ap suc (length-replicate n v)

stats-replicate :
    (n v : ℕ)
    → mean_std (replicate (suc n) v) ≡ record { number = suc n; total = suc n * v; spread = 0 }
unfolding mean_std
stats-replicate n v = rw (sum-replicate (suc n) v) (
    rw (sum_squares-replicate (suc n) v) (
      rw (length-replicate (suc n) v) (
        let number : max 1 (suc n) ≡ suc n = omega arith in
        let spread : max 1 (suc n) * (suc n * (v * v)) - suc n * v * (suc n * v) ≡ 0 =
          rw number (omega arith) in
        λ i. record { number = number i; total = suc n * v; spread = spread i })))

scale_le : (a b k : ℕ) → a ≤ b → a * suc k ≤ b * suc k
scale_le a b k h = grind arith

scale_lt : (a b k : ℕ) → a < b → a * suc k < b * suc k
scale_lt a b k h = omega (arith, scale_le (a + 1) b k (omega arith))

-- For an agent that always asked for `v` scopes, at least once, a request is flagged exactly where it
-- exceeds both twice `v` and `v + 1`.
pub is_high_outlier-stable :
    (c : Config) (n v value : ℕ)
    → (is_high_outlier c value (mean_std (replicate (suc n) v)) ≡ true)
      ↔ (max (v * 2) (v + 1) < value)
unfolding is_high_outlier
is_high_outlier-stable c n v value = rw (stats-replicate n v) (
  λ h. ground (arith, scale_le value (v * 2) n, scale_le value (v + 1) n),
  λ h. ground (arith, scale_lt (v * 2) value n, scale_lt (v + 1) value n),
)
