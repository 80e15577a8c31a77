-- ===== src/Guardrails/Circuit/Denials.antt =====
-- The breaker of agperms/src/agperms/_guardrails.py under successes and policy denials.
use adf.Prelude.{
  ℕ, ◌-◌, ◌*◌, ◌≤◌, ◌<◌, ◌≡◌, refl, ap, String, Bool, true, false, not, Option, none, some, List,
  [], ◌∷◌, ◌++◌, ◌&&◌, length, arith, Bool-cases, inl, inr, if◌then◌else◌,
}
use adf.Time.{second}
use adf.Config.{Config}
use adf.Guardrails.Circuit.{
  Trip, call_volume, Circuit, drop_stale, count_errors, trip_for, record_outcome, settle,
  is_unrecorded,
}

drop_stale-errors :
    (c : ℕ) (es : List (ℕ × Bool)) → count_errors (drop_stale c es) ≤ count_errors es
unfolding drop_stale count_errors
drop_stale-errors c [] = omega arith
drop_stale-errors c ((t, e) ∷ es) = ground (arith, drop_stale-errors c es)

errors_snoc :
    (t : ℕ) (es : List (ℕ × Bool)) → count_errors (es ++ (t, false) ∷ []) ≡ count_errors es
unfolding count_errors
errors_snoc t [] = refl
errors_snoc t ((u, e) ∷ es) = ground (arith, errors_snoc t es)

-- One outcome as `record` is given it: the time, whether it is an error, whose, and whether it is a
-- policy denial.
pub record Outcome : Type 0 where
  pub now : ℕ
  pub error : Bool
  pub subject : Option String
  pub denial : Bool

abbrev pub record_all : Config → List Outcome → Circuit → Circuit
record_all c [] k = k
record_all c (o ∷ os) k = record_all c os (record_outcome c o.now o.error o.subject o.denial k).0

-- every error is a policy denial
abbrev pub AllHarmless : List Outcome → Type 0
AllHarmless [] = Unit
AllHarmless (o ∷ os) = ((o.error ≡ true) → (o.denial ≡ true)) × AllHarmless os

-- no error is on the books, and the breaker is closed or opened for the call volume alone
pub record IsQuiet (c : Config) (k : Circuit) : Type 0 where
  pub errors : count_errors k.events ≡ 0
  pub volume :
      k.is_open ≡ true
      → (n : ℕ) × (k.reason ≡ some (call_volume n)) × (c.circuit_volume_ceiling < n)

mul_pos : (a b : ℕ) → 0 < a → 0 < b → 0 < a * b
mul_pos a b h k = grind arith

trip_for-quiet :
    (c : Config) (samples : ℕ) (t : Trip)
    → 0 < c.threshold_num
    → trip_for c samples 0 ≡ some t
    → (t ≡ call_volume samples) × (c.circuit_volume_ceiling < samples)
unfolding trip_for
trip_for-quiet c samples t h e = ground (arith, mul_pos c.threshold_num samples)

settle-IsQuiet :
    (c : Config) (now : ℕ) (k : Circuit) (events : List (ℕ × Bool)) (o : Option Trip)
    → IsQuiet c k
    → count_errors events ≡ 0
    → ((t : Trip)
        → o ≡ some t
        → (t ≡ call_volume (length events)) × (c.circuit_volume_ceiling < length events))
    → IsQuiet c (settle now k events o).0
unfolding settle
settle-IsQuiet c now k events none q empty due = record { errors = empty; volume = q.volume }
settle-IsQuiet c now k events (some t) q empty due =
    let (volume, over) = due t refl in
    record { errors = empty; volume = λ h. (length events, ap some volume, over) }

record_outcome-IsQuiet :
    (c : Config) (o : Outcome) (k : Circuit)
    → 0 < c.threshold_num
    → c.circuit_count_policy_denials ≡ false
    → (o.error ≡ true → o.denial ≡ true)
    → IsQuiet c k
    → IsQuiet c (record_outcome c o.now o.error o.subject o.denial k).0
unfolding record_outcome
record_outcome-IsQuiet c o k positive uncounted harmless q =
    let cutoff = o.now - c.circuit_window_seconds * second in
    let counted = o.error && not (o.denial && not c.circuit_count_policy_denials) in
    let before = k.events ++ (o.now, counted) ∷ [] in
    let events = drop_stale cutoff before in
    let free : counted ≡ false = ground arith in
    let clean : count_errors events ≡ 0 = omega (
      arith,
      drop_stale-errors cutoff before,
      ap (λ e. count_errors (k.events ++ (o.now, e) ∷ [])) free,
      errors_snoc o.now k.events,
      q.errors,
    ) in
    elim (Bool-cases (is_unrecorded c o.subject)) [
      | inl u ↦ rw u q
      | inr u ↦ rw u (
          settle-IsQuiet c o.now k events
            (if k.is_open then none else trip_for c (length events) (count_errors events)) q clean
            (λ t e. trip_for-quiet c (length events) t positive (rw (← clean) (ground arith))))
    ]

-- Where the policy does not count denials, a breaker with no error on its books stays so through any
-- sequence of successes and policy denials, from whatever subjects and at whatever times; it can
-- open only for a call volume above the ceiling.
pub record_all-IsQuiet :
    (c : Config) (os : List Outcome) (k : Circuit)
    → 0 < c.threshold_num
    → c.circuit_count_policy_denials ≡ false
    → AllHarmless os
    → IsQuiet c k
    → IsQuiet c (record_all c os k)
record_all-IsQuiet c [] k positive uncounted harmless q = q
record_all-IsQuiet c (o ∷ os) k positive uncounted harmless q =
    record_all-IsQuiet c os (record_outcome c o.now o.error o.subject o.denial k).0 positive
      uncounted harmless.1 (record_outcome-IsQuiet c o k positive uncounted harmless.0 q)
