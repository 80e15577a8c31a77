-- ===== src/Guardrails/Circuit/Window.antt =====
-- The window of the breaker of agperms/src/agperms/_guardrails.py, against the history of all outcomes.
use adf.Prelude.{
  ℕ, ◌-◌, ◌*◌, ◌≤◌, ◌≡◌, refl, ap, sym, ◌∙◌, Bool, List, [], ◌∷◌, ◌++◌, keep, leb, arith,
}
use adf.Time.{second}
use adf.Config.{Config}
use adf.Guardrails.Circuit.{drop_stale}

abbrev pub AllFrom : ℕ → List (ℕ × Bool) → Type 0
AllFrom n [] = Unit
AllFrom n ((t, e) ∷ es) = (n ≤ t) × AllFrom n es

abbrev pub AllUpTo : ℕ → List (ℕ × Bool) → Type 0
AllUpTo n [] = Unit
AllUpTo n ((t, e) ∷ es) = (t ≤ n) × AllUpTo n es

abbrev pub IsOrdered : List (ℕ × Bool) → Type 0
IsOrdered [] = Unit
IsOrdered ((t, e) ∷ es) = AllFrom t es × IsOrdered es

-- the outcomes of the list from `cutoff` on
abbrev pub recent : ℕ → List (ℕ × Bool) → List (ℕ × Bool)
recent cutoff = keep (λ (e : ℕ × Bool). leb cutoff e.0)

abbrev pub cutoff_of : Config → ℕ → ℕ
cutoff_of c now = now - c.circuit_window_seconds * second

-- The events on the books stand for the history of outcomes up to the time.
pub record Follows (c : Config) (now : ℕ) (events history : List (ℕ × Bool)) : Type 0 where
  pub ordered : IsOrdered events
  pub past : AllUpTo now events
  pub window :
      (cutoff : ℕ) → cutoff_of c now ≤ cutoff → recent cutoff events ≡ recent cutoff history

pub Follows-empty : (c : Config) → Follows c 0 [] []
Follows-empty c = record { ordered = tt; past = tt; window = λ cutoff h. refl }

recent_all :
    (cutoff t : ℕ) (es : List (ℕ × Bool)) → cutoff ≤ t → AllFrom t es → recent cutoff es ≡ es
recent_all cutoff t [] h a = refl
recent_all cutoff t ((u, e) ∷ es) h a = ground (arith, recent_all cutoff t es h a.1)

-- On ordered events the loop that drops from the front drops all that is too old.
drop_stale-recent :
    (cutoff : ℕ) (es : List (ℕ × Bool)) → IsOrdered es → drop_stale cutoff es ≡ recent cutoff es
unfolding drop_stale
drop_stale-recent cutoff [] s = refl
drop_stale-recent cutoff ((t, e) ∷ es) s =
    ground (arith, drop_stale-recent cutoff es s.1, recent_all cutoff t es)

recent-drop_stale :
    (cutoff d : ℕ) (es : List (ℕ × Bool))
    → d ≤ cutoff
    → recent cutoff (drop_stale d es) ≡ recent cutoff es
unfolding drop_stale
recent-drop_stale cutoff d [] h = refl
recent-drop_stale cutoff d ((t, e) ∷ es) h = ground (arith, recent-drop_stale cutoff d es h)

recent-append :
    (cutoff : ℕ) (xs ys : List (ℕ × Bool))
    → recent cutoff (xs ++ ys) ≡ recent cutoff xs ++ recent cutoff ys
recent-append cutoff [] ys = refl
recent-append cutoff (x ∷ xs) ys = ground (arith, recent-append cutoff xs ys)

drop_stale-AllFrom :
    (n cutoff : ℕ) (es : List (ℕ × Bool)) → AllFrom n es → AllFrom n (drop_stale cutoff es)
unfolding drop_stale
drop_stale-AllFrom n cutoff [] a = tt
drop_stale-AllFrom n cutoff ((t, e) ∷ es) a = ground (arith, drop_stale-AllFrom n cutoff es a.1)

drop_stale-IsOrdered :
    (cutoff : ℕ) (es : List (ℕ × Bool)) → IsOrdered es → IsOrdered (drop_stale cutoff es)
unfolding drop_stale
drop_stale-IsOrdered cutoff [] s = tt
drop_stale-IsOrdered cutoff ((t, e) ∷ es) s =
    ground (arith, drop_stale-IsOrdered cutoff es s.1, s.0)

drop_stale-AllUpTo :
    (n cutoff : ℕ) (es : List (ℕ × Bool)) → AllUpTo n es → AllUpTo n (drop_stale cutoff es)
unfolding drop_stale
drop_stale-AllUpTo n cutoff [] a = tt
drop_stale-AllUpTo n cutoff ((t, e) ∷ es) a = ground (arith, drop_stale-AllUpTo n cutoff es a.1)

from_snoc :
    (n t : ℕ) (e : Bool) (es : List (ℕ × Bool))
    → n ≤ t
    → AllFrom n es
    → AllFrom n (es ++ (t, e) ∷ [])
from_snoc n t e [] h a = (h, tt)
from_snoc n t e ((u, f) ∷ es) h a = (a.0, from_snoc n t e es h a.1)

up_to_snoc :
    (n t : ℕ) (e : Bool) (es : List (ℕ × Bool))
    → n ≤ t
    → AllUpTo n es
    → AllUpTo t (es ++ (t, e) ∷ [])
up_to_snoc n t e [] h a = (omega arith, tt)
up_to_snoc n t e ((u, f) ∷ es) h a = (omega arith, up_to_snoc n t e es h a.1)

IsOrdered-snoc :
    (n t : ℕ) (e : Bool) (es : List (ℕ × Bool))
    → n ≤ t
    → AllUpTo n es
    → IsOrdered es
    → IsOrdered (es ++ (t, e) ∷ [])
IsOrdered-snoc n t e [] h a s = (tt, tt)
IsOrdered-snoc n t e ((u, f) ∷ es) h a s =
    (from_snoc u t e es (omega arith) s.0, IsOrdered-snoc n t e es h a.1 s.1)

module _ (c : Config) (t now : ℕ) (error : Bool) (events history : List (ℕ × Bool)) (h : t ≤ now)
    (k : Follows c t events history) where
  added : List (ℕ × Bool)
  added = events ++ (now, error) ∷ []

  added-IsOrdered : IsOrdered added
  unfolding added
  added-IsOrdered = IsOrdered-snoc t now error events h k.past k.ordered

  added-recent :
      (cutoff : ℕ)
      → cutoff_of c now ≤ cutoff
      → recent cutoff added ≡ recent cutoff (history ++ (now, error) ∷ [])
  unfolding added
  added-recent cutoff after =
      recent-append cutoff events ((now, error) ∷ [])
      ∙ ap (λ l. l ++ recent cutoff ((now, error) ∷ [])) (k.window cutoff (omega arith))
      ∙ sym (recent-append cutoff history ((now, error) ∷ []))

  -- after one more outcome, the events are those of the history in the window
  pub drop_stale-window :
      drop_stale (cutoff_of c now) (events ++ (now, error) ∷ [])
      ≡ recent (cutoff_of c now) (history ++ (now, error) ∷ [])
  unfolding added
  drop_stale-window =
      drop_stale-recent (cutoff_of c now) added added-IsOrdered
      ∙ added-recent (cutoff_of c now) (omega arith)

  pub drop_stale-Follows :
      Follows c now
        (drop_stale (cutoff_of c now) (events ++ (now, error) ∷ []))
        (history ++ (now, error) ∷ [])
  unfolding added
  drop_stale-Follows = record {
    ordered = drop_stale-IsOrdered (cutoff_of c now) added added-IsOrdered;
    past = drop_stale-AllUpTo now (cutoff_of c now) added (up_to_snoc t now error events h k.past);
    window = λ cutoff after.
        recent-drop_stale cutoff (cutoff_of c now) added after ∙ added-recent cutoff after;
  }
