-- ===== src/Guardrails/Circuit.antt =====
-- agperms/src/agperms/_guardrails.py: `CircuitBreaker`. An error rate is compared with the threshold
-- as a fraction, without rounding.
pub mod Window
pub mod Trips
pub mod Denials
use adf.Prelude.{
  ℕ, ◌-◌, ◌*◌, String, Bool, true, false, not, Option, none, some, List, [], ◌∷◌, ◌++◌, ◌&&◌, ◌||◌,
  length, keep, ltb, leb, ◌==◌, if◌then◌else◌,
}
use adf.Time.{second}
use adf.Errors.{Result, ok, err, circuit_open}
use adf.Config.{Config, is_exempt}

-- why the breaker opened: the error rate or the volume, with the samples then in the window
pub data Trip : Type 0 where
  error_rate : ℕ → ℕ → Trip
  call_volume : ℕ → Trip

pub record Circuit : Type 0 where
  -- time and whether it was an error, oldest first
  pub events : List (ℕ × Bool)
  pub is_open : Bool
  pub opened_at : Option ℕ
  pub reason : Option Trip

abbrev pub closed_circuit : Circuit
closed_circuit = record { events = []; is_open = false; opened_at = none; reason = none }

-- `while events and events[0][0] < cutoff: events.popleft()`
unfoldable pub drop_stale : ℕ → List (ℕ × Bool) → List (ℕ × Bool)
drop_stale cutoff [] = []
drop_stale cutoff ((t, e) ∷ es) =
    let rest = drop_stale cutoff es in if ltb t cutoff then rest else (t, e) ∷ es

unfoldable pub count_errors : List (ℕ × Bool) → ℕ
count_errors es = length (keep (λ (e : ℕ × Bool). e.1) es)

-- the trip that a window of `samples` calls with `errors` errors causes, if any
unfoldable pub trip_for : Config → ℕ → ℕ → Option Trip
trip_for c samples errors =
    if leb c.circuit_min_samples samples
      && leb (c.threshold_num * samples) (errors * c.threshold_den)
      && ltb 0 samples
    then some (error_rate errors samples)
    else if ltb c.circuit_volume_ceiling samples
    then some (call_volume samples)
    else none

-- whether the outcome is left out of the books
unfoldable pub is_unrecorded : Config → Option String → Bool
is_unrecorded c none = false
is_unrecorded c (some subject) = not (subject == "") && is_exempt c subject

-- the state after the window is counted: opened, if there is a trip
unfoldable pub settle : ℕ → Circuit → List (ℕ × Bool) → Option Trip → Circuit × Option Trip
settle now k events none = (record k { events = events }, none)
settle now k events (some t) =
    (record { events = events; is_open = true; opened_at = some now; reason = some t }, some t)

-- The breaker after one outcome, and the trip if this outcome opened it.
unfoldable pub record_outcome :
    Config → ℕ → Bool → Option String → Bool → Circuit → Circuit × Option Trip
unfolding trip_for count_errors drop_stale is_unrecorded settle
record_outcome c now error subject policy_denial k =
    if is_unrecorded c subject
    then (k, none)
    else let counted = error && not (policy_denial && not c.circuit_count_policy_denials) in
      let events =
        drop_stale (now - c.circuit_window_seconds * second) (k.events ++ (now, counted) ∷ []) in
      let tripped = if k.is_open then none else trip_for c (length events) (count_errors events) in
      settle now k events tripped

-- `check`
unfoldable pub check_circuit : (Trip → String) → Circuit → Result (Unit {0})
check_circuit text k =
    if k.is_open
    then err (circuit_open (elim k.reason [ none ↦ none | some t ↦ some (text t) ]))
    else ok tt

pub record CircuitState : Type 0 where
  pub is_open : Bool
  pub opened_at : Option ℕ
  pub reason : Option Trip
  pub samples : ℕ
  pub errors : ℕ

unfoldable pub circuit_state : Config → ℕ → Circuit → CircuitState
unfolding count_errors
circuit_state c now k =
    let live =
      keep (λ (e : ℕ × Bool). leb (now - c.circuit_window_seconds * second) e.0) k.events in
    record {
      is_open = k.is_open;
      opened_at = k.opened_at;
      reason = k.reason;
      samples = length live;
      errors = count_errors live;
    }

-- `reset`
unfoldable pub reset_breaker : Circuit → Circuit
reset_breaker k = closed_circuit
