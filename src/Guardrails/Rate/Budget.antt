-- ===== src/Guardrails/Rate/Budget.antt =====
-- The budget of one subject and action over a history of calls at times that do not fall.
use adf.Prelude.{
  ℕ, suc, ◌-◌, ◌*◌, ◌≤◌, ◌<◌, ◌≡◌, refl, ap, sym, subst, ◌∙◌, String, false, ◌↔◌, List, [], ◌∷◌,
  ◌++◌, lookup, length, keep, leb, ltb, length-append, lookup-insert_self, arith, Bool-cases, inl,
  inr,
}
use adf.Time.{second}
use adf.Errors.{ok}
use adf.Config.{Config, is_exempt}
use adf.Guardrails.Rate.{
  Buckets, bucket_of, drop_before, hit_bucket, window_seconds, limit_for, rate_key, check_rate,
}

abbrev pub AllAtLeast : ℕ → List ℕ → Type 0
AllAtLeast n [] = Unit
AllAtLeast n (t ∷ ts) = (n ≤ t) × AllAtLeast n ts

abbrev pub AllAtMost : ℕ → List ℕ → Type 0
AllAtMost n [] = Unit
AllAtMost n (t ∷ ts) = (t ≤ n) × AllAtMost n ts

abbrev pub IsAscending : List ℕ → Type 0
IsAscending [] = Unit
IsAscending (t ∷ ts) = AllAtLeast t ts × IsAscending ts

-- the times of the list from `cutoff` on
abbrev pub since : ℕ → List ℕ → List ℕ
since cutoff = keep (λ t. leb cutoff t)

since_all : (c t : ℕ) (ts : List ℕ) → c ≤ t → AllAtLeast t ts → since c ts ≡ ts
since_all c t [] h a = refl
since_all c t (x ∷ xs) h a = ground (arith, since_all c t xs h a.1)

-- On an ascending bucket the loop that drops from the front drops all that is too old.
drop_before-since : (c : ℕ) (b : List ℕ) → IsAscending b → drop_before c b ≡ since c b
unfolding drop_before
drop_before-since c [] s = refl
drop_before-since c (t ∷ ts) s = ground (arith, drop_before-since c ts s.1, since_all c t ts)

since-drop_before : (c d : ℕ) (b : List ℕ) → d ≤ c → since c (drop_before d b) ≡ since c b
unfolding drop_before
since-drop_before c d [] h = refl
since-drop_before c d (t ∷ ts) h = ground (arith, since-drop_before c d ts h)

since-append : (c : ℕ) (xs ys : List ℕ) → since c (xs ++ ys) ≡ since c xs ++ since c ys
since-append c [] ys = refl
since-append c (x ∷ xs) ys = ground (arith, since-append c xs ys)

drop_before-AllAtLeast : (n c : ℕ) (b : List ℕ) → AllAtLeast n b → AllAtLeast n (drop_before c b)
unfolding drop_before
drop_before-AllAtLeast n c [] a = tt
drop_before-AllAtLeast n c (t ∷ ts) a = ground (arith, drop_before-AllAtLeast n c ts a.1)

drop_before-IsAscending : (c : ℕ) (b : List ℕ) → IsAscending b → IsAscending (drop_before c b)
unfolding drop_before
drop_before-IsAscending c [] s = tt
drop_before-IsAscending c (t ∷ ts) s = ground (arith, drop_before-IsAscending c ts s.1, s.0)

drop_before-AllAtMost : (n c : ℕ) (b : List ℕ) → AllAtMost n b → AllAtMost n (drop_before c b)
unfolding drop_before
drop_before-AllAtMost n c [] a = tt
drop_before-AllAtMost n c (t ∷ ts) a = ground (arith, drop_before-AllAtMost n c ts a.1)

at_least_snoc : (n t : ℕ) (b : List ℕ) → n ≤ t → AllAtLeast n b → AllAtLeast n (b ++ t ∷ [])
at_least_snoc n t [] h a = (h, tt)
at_least_snoc n t (x ∷ xs) h a = (a.0, at_least_snoc n t xs h a.1)

at_most_snoc : (n t : ℕ) (b : List ℕ) → n ≤ t → AllAtMost n b → AllAtMost t (b ++ t ∷ [])
at_most_snoc n t [] h a = (omega arith, tt)
at_most_snoc n t (x ∷ xs) h a = (omega arith, at_most_snoc n t xs h a.1)

IsAscending-snoc :
    (n t : ℕ) (b : List ℕ) → n ≤ t → AllAtMost n b → IsAscending b → IsAscending (b ++ t ∷ [])
IsAscending-snoc n t [] h a s = (tt, tt)
IsAscending-snoc n t (x ∷ xs) h a s =
    (at_least_snoc x t xs (omega arith) s.0, IsAscending-snoc n t xs h a.1 s.1)

-- The bucket `b` stands for the history of calls up to time `now`.
pub record Tracks (now : ℕ) (b history : List ℕ) : Type 0 where
  pub ascending : IsAscending b
  pub past : AllAtMost now b
  pub window : (c : ℕ) → now - window_seconds * second ≤ c → since c b ≡ since c history

pub Tracks-empty : Tracks 0 [] []
Tracks-empty = record { ascending = tt; past = tt; window = λ c h. refl }

pub hit_bucket-Tracks :
    (t now : ℕ) (b history : List ℕ)
    → t ≤ now
    → Tracks t b history
    → Tracks now (hit_bucket now window_seconds b) (history ++ now ∷ [])
unfolding hit_bucket
hit_bucket-Tracks t now b history h k =
    let cutoff = now - window_seconds * second in
    record {
      ascending =
          IsAscending-snoc t now (drop_before cutoff b) h (drop_before-AllAtMost t cutoff b k.past)
            (drop_before-IsAscending cutoff b k.ascending);
      past = at_most_snoc t now (drop_before cutoff b) h (drop_before-AllAtMost t cutoff b k.past);
      window = λ c after.
          since-append c (drop_before cutoff b) (now ∷ [])
          ∙ ap (λ l. l ++ since c (now ∷ []))
              (since-drop_before c cutoff b after ∙ k.window c (omega arith))
          ∙ sym (since-append c history (now ∷ []));
    }

length-hit_bucket :
    (t now : ℕ) (b history : List ℕ)
    → t ≤ now
    → Tracks t b history
    → length (hit_bucket now window_seconds b)
      ≡ suc (length (since (now - window_seconds * second) history))
unfolding hit_bucket
length-hit_bucket t now b history h k =
    let cutoff = now - window_seconds * second in
    omega (
      arith,
      length-append (drop_before cutoff b) (now ∷ []),
      ap length (drop_before-since cutoff b k.ascending),
      ap length (k.window cutoff (omega arith)),
    )

-- For a subject that is not exempt, whose bucket stands for its earlier calls: the call at `now`
-- passes exactly where fewer calls than the limit, refused ones included, fall in the last 60
-- seconds; and afterwards the bucket stands for the history with this call.
pub check_rate-Tracks :
    (c : Config) (t now : ℕ) (subject action : String) (d : Buckets) (history : List ℕ)
    → t ≤ now
    → is_exempt c subject ≡ false
    → Tracks t (bucket_of (lookup (rate_key action subject) d)) history
    → ((check_rate c now subject action d).0 ≡ ok tt
        ↔ (length (since (now - window_seconds * second) history) < limit_for c action))
      × Tracks now
          (bucket_of (lookup (rate_key action subject) (check_rate c now subject action d).1))
          (history ++ now ∷ [])
unfolding check_rate
check_rate-Tracks c t now subject action d history h exempt k =
    let key = rate_key action subject in
    let b = bucket_of (lookup key d) in
    let size = length-hit_bucket t now b history h k in
    let next = hit_bucket-Tracks t now b history h k in
    let bucket = hit_bucket now window_seconds b in
    let stored = lookup-insert_self key bucket d in
    let kept = subst (λ o. Tracks now (bucket_of o) (history ++ now ∷ [])) (sym stored) next in
    rw exempt (elim (Bool-cases (ltb (limit_for c action) (length bucket))) [
      | inl over ↦ rw over ((λ e. cc, λ few. absurd (ground arith)), kept)
      | inr within ↦ rw within ((λ e. ground arith, λ few. refl), kept)
    ])
