-- ===== src/Guardrails/Circuit/Trips.antt =====
-- agperms/src/agperms/_guardrails.py: the breaker under one recorded outcome.
use adf.Prelude.{
  ℕ, ◌*◌, ◌≤◌, ◌<◌, ◌≡◌, refl, sym, ap, ◌∙◌, subst, String, Bool, true, false, not, ◌⊎◌, Option,
  none, some, List, [], ◌∷◌, ◌++◌, ◌&&◌, length, keep, arith, inl, inr, leb, ltb, Bool-cases,
}
use adf.Config.{Config}
use adf.Guardrails.Circuit.{
  Trip, error_rate, call_volume, Circuit, count_errors, trip_for, record_outcome, settle,
  is_unrecorded, drop_stale,
}
use adf.Guardrails.Circuit.Window.{
  Follows, recent, cutoff_of, drop_stale-window, drop_stale-Follows,
}

-- An open breaker stays open, with the reason and the time it opened, whatever outcome is recorded,
-- and reports no new trip.
pub record_outcome-open :
    (c : Config) (now : ℕ) (error : Bool) (subject : Option String) (denial : Bool) (k : Circuit)
    → k.is_open ≡ true
    → ((record_outcome c now error subject denial k).0.is_open ≡ true)
      × ((record_outcome c now error subject denial k).0.reason ≡ k.reason)
      × ((record_outcome c now error subject denial k).0.opened_at ≡ k.opened_at)
      × ((record_outcome c now error subject denial k).1 ≡ none)
unfolding record_outcome
record_outcome-open c now error subject denial k h = ground arith

-- why a breaker may open: enough samples at the error threshold, or too many calls
abbrev pub IsDue : Config → ℕ → ℕ → Type 0
IsDue c samples errors =
    (c.circuit_min_samples ≤ samples) × (c.threshold_num * samples ≤ errors * c.threshold_den)
    ⊎ (c.circuit_volume_ceiling < samples)

abbrev pub errors_in : List (ℕ × Bool) → ℕ
errors_in es = length (keep (λ (e : ℕ × Bool). e.1) es)

-- the trip that is reported for a window
abbrev pub IsTripOf : ℕ → ℕ → Option Trip → Type 0
IsTripOf samples errors o =
    (o ≡ some (error_rate errors samples)) ⊎ (o ≡ some (call_volume samples))

trip_for-IsDue :
    (c : Config) (samples errors : ℕ)
    → 0 < samples
    → (IsDue c samples errors × IsTripOf samples errors (trip_for c samples errors))
      ⊎ ((IsDue c samples errors → ⊥) × (trip_for c samples errors ≡ none))
unfolding trip_for
trip_for-IsDue c samples errors h =
    let enough = leb c.circuit_min_samples samples in
    let high = leb (c.threshold_num * samples) (errors * c.threshold_den) in
    let over = ltb c.circuit_volume_ceiling samples in
    elim (Bool-cases (enough && high)) [
      | inl e ↦ inl (inl (ground arith, ground arith), inl (ground arith))
      | inr e ↦ elim (Bool-cases over) [
        | inl v ↦ inl (inr (ground arith), inr (ground arith))
        | inr v ↦ inr (λ d. absurd (ground arith), ground arith)
      ]
    ]

window-pos :
    (cutoff now : ℕ) (e : Bool) (history : List (ℕ × Bool))
    → cutoff ≤ now
    → 0 < length (recent cutoff (history ++ (now, e) ∷ []))
window-pos cutoff now e [] h = ground arith
window-pos cutoff now e ((t, f) ∷ es) h = ground (arith, window-pos cutoff now e es h)

-- what a closed breaker is after an outcome whose window holds so many samples and errors
abbrev pub IsSettled : Config → ℕ → ℕ → ℕ → Circuit → Circuit × Option Trip → Type 0
IsSettled c now samples errors k (after, trip) =
    (IsDue c samples errors
      × (after.is_open ≡ true)
      × (after.opened_at ≡ some now)
      × (after.reason ≡ trip)
      × IsTripOf samples errors trip)
    ⊎ ((IsDue c samples errors → ⊥)
        × (after.is_open ≡ false)
        × (after.opened_at ≡ k.opened_at)
        × (after.reason ≡ k.reason)
        × (trip ≡ none))

settle-IsSettled :
    (c : Config) (now samples errors : ℕ) (k : Circuit) (events : List (ℕ × Bool))
    → k.is_open ≡ false
    → 0 < samples
    → IsSettled c now samples errors k (settle now k events (trip_for c samples errors))
unfolding settle
settle-IsSettled c now samples errors k events closed pos =
    elim (trip_for-IsDue c samples errors pos) [
      | inl (due, inl e) ↦ rw e (inl (due, refl, refl, refl, inl refl))
      | inl (due, inr e) ↦ rw e (inl (due, refl, refl, refl, inr refl))
      | inr (calm, e) ↦ rw e (inr (calm, closed, refl, refl, refl))
    ]

settle-events :
    (now : ℕ) (k : Circuit) (events : List (ℕ × Bool)) (o : Option Trip)
    → (settle now k events o).0.events ≡ events
unfolding settle
settle-events now k events none = refl
settle-events now k events (some t) = refl

-- an outcome that a closed breaker records, with the window that it finds
record_outcome-closed :
    (c : Config) (now : ℕ) (error : Bool) (subject : Option String) (denial : Bool) (k : Circuit)
    (window : List (ℕ × Bool))
    → is_unrecorded c subject ≡ false
    → k.is_open ≡ false
    → drop_stale
        (cutoff_of c now)
        (k.events ++ (now, error && not (denial && not c.circuit_count_policy_denials)) ∷ [])
      ≡ window
    → record_outcome c now error subject denial k
      ≡ settle now k window (trip_for c (length window) (errors_in window))
unfolding record_outcome count_errors
record_outcome-closed c now error subject denial k window u h same = rw (u, h, same)

-- A closed breaker whose events stand for all outcomes recorded before, at times that do not fall,
-- records one more from a subject that is not exempt, as an error unless it is a policy denial that
-- is not counted. It opens exactly where the outcomes of the whole history in the window up to now
-- reach the sample minimum and the error threshold, or exceed the volume ceiling; it then stores the
-- time and the reason that it reports, with the numbers of that window, and otherwise stays as it
-- was and reports nothing; and its events then stand for the history with this outcome.
pub record_outcome-opens :
    (c : Config) (t now : ℕ) (error : Bool) (subject : Option String) (denial : Bool) (k : Circuit)
    (history : List (ℕ × Bool))
    → t ≤ now
    → is_unrecorded c subject ≡ false
    → k.is_open ≡ false
    → Follows c t k.events history
    → let counted = error && not (denial && not c.circuit_count_policy_denials) in
      let told = history ++ (now, counted) ∷ [] in
      let window = recent (cutoff_of c now) told in
      IsSettled c now
        (length window)
        (errors_in window)
        k
        (record_outcome c now error subject denial k)
      × Follows c now (record_outcome c now error subject denial k).0.events told
record_outcome-opens c t now error subject denial k history h recorded closed follows =
    let counted = error && not (denial && not c.circuit_count_policy_denials) in
    let told = history ++ (now, counted) ∷ [] in
    let window = recent (cutoff_of c now) told in
    let same = drop_stale-window c t now counted k.events history h follows in
    let next = drop_stale-Follows c t now counted k.events history h follows in
    let pos = window-pos (cutoff_of c now) now counted history (omega arith) in
    let trip = trip_for c (length window) (errors_in window) in
    let settled = record_outcome-closed c now error subject denial k window recorded closed same in
    (
      subst (IsSettled c now (length window) (errors_in window) k) (sym settled)
          (settle-IsSettled c now (length window) (errors_in window) k window closed pos),
      subst (λ l. Follows c now l told)
          (same ∙ sym (settle-events now k window trip) ∙ ap (λ x. x.0.events) (sym settled)) next,
    )
