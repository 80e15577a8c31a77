-- ===== src/Storage/Walk/Rounds.antt =====
-- The rounds of the walk over the delegation edges: `offer`, and the queue after one round.
use adf.Prelude.{
  ℕ, zero, suc, ◌+◌, ◌≤◌, ◌<◌, String, ◌≡◌, refl, ap, true, false, ◌&&◌, ◌||◌, not, List, [], ◌∷◌,
  ◌++◌, ◌⊎◌, inl, inr, Dict, lookup, contains, ◌∈◌, ◌⊆◌, without, length, arith, eq_iff,
  contains-append, length-append, length-keep-le, List-cases, Bool-cases,
}
use adf.Storage.{children, children_of}
use adf.Storage.Walk.{Walk, offer, offer_all, expand, loop, all_children}

-- no text twice
abbrev pub IsDistinct : List String → Type 0
IsDistinct [] = Unit
IsDistinct (x ∷ xs) = (contains xs x ≡ false) × IsDistinct xs

distinct_snoc :
    (xs : List String) (c : String)
    → IsDistinct xs
    → contains xs c ≡ false
    → IsDistinct (xs ++ c ∷ [])
distinct_snoc [] c d h = (refl, tt)
distinct_snoc (x ∷ xs) c d h = (
  ground (arith, contains-append xs (c ∷ []) x, eq_iff c x, eq_iff x c, d.0),
  distinct_snoc xs c d.1 (ground arith),
)

pub seen-offer_all :
    (w : Walk) (cs : List String) (v : String)
    → contains (offer_all w cs).seen v ≡ (contains w.seen v || contains cs v)
unfolding offer_all
seen-offer_all w [] v = ground arith
seen-offer_all w (c ∷ cs) v =
    ground (arith, seen-offer_all (offer w c) cs v, contains-append w.seen (c ∷ []) v, eq_iff c v)

pub queue-offer_all :
    (w : Walk) (cs : List String) (v : String)
    → contains (offer_all w cs).queue v
      ≡ (contains w.queue v || contains cs v && not (contains w.seen v))
unfolding offer_all
queue-offer_all w [] v = ground arith
queue-offer_all w (c ∷ cs) v = ground (
  arith,
  queue-offer_all (offer w c) cs v,
  contains-append w.seen (c ∷ []) v,
  contains-append w.queue (c ∷ []) v,
  eq_iff c v,
)

pub order-offer_all :
    (w : Walk) (cs : List String)
    → w.order ≡ w.seen
    → (offer_all w cs).order ≡ (offer_all w cs).seen
unfolding offer_all
order-offer_all w [] h = h
order-offer_all w (c ∷ cs) h = order-offer_all (offer w c) cs (ground arith)

pub distinct-offer_all :
    (w : Walk) (cs : List String) → IsDistinct w.seen → IsDistinct (offer_all w cs).seen
unfolding offer_all
distinct-offer_all w [] h = h
distinct-offer_all w (c ∷ cs) h =
    distinct-offer_all (offer w c) cs (elim (Bool-cases (contains w.seen c)) [
      | inl e ↦ rw e h
      | inr e ↦ rw e (distinct_snoc w.seen c h e)
    ])

module _ (all : List String) where
  -- the children not yet seen
  abbrev pub missing : List String → ℕ
  missing seen = length (without all seen)

pub missing_le : (all seen : List String) → missing all seen ≤ length all
missing_le all seen = length-keep-le (λ x. not (contains seen x)) all

missing_snoc_le :
    (all seen : List String) (c : String) → missing all (seen ++ c ∷ []) ≤ missing all seen
missing_snoc_le [] seen c = omega arith
missing_snoc_le (a ∷ all) seen c =
    ground (arith, missing_snoc_le all seen c, contains-append seen (c ∷ []) a)

missing_snoc_lt :
    (all seen : List String) (c : String)
    → c ∈ all
    → contains seen c ≡ false
    → missing all (seen ++ c ∷ []) < missing all seen
missing_snoc_lt [] seen c m h = cc
missing_snoc_lt (a ∷ all) seen c m h = ground (
  arith,
  missing_snoc_lt all seen c,
  missing_snoc_le all seen c,
  contains-append seen (c ∷ []) a,
  eq_iff c a,
  eq_iff a c,
)

-- Each new entry of the queue is one missing child less.
offer_size :
    (all : List String) (w : Walk) (c : String)
    → c ∈ all
    → missing all (offer w c).seen + length (offer w c).queue ≤ missing all w.seen + length w.queue
unfolding offer
offer_size all w c m = elim (Bool-cases (contains w.seen c)) [
  | inl e ↦ rw e (omega arith)
  | inr e ↦ rw e (omega (arith, missing_snoc_lt all w.seen c m e, length-append w.queue (c ∷ [])))
]

offer_all_size :
    (all : List String) (w : Walk) (cs : List String)
    → cs ⊆ all
    → missing all (offer_all w cs).seen + length (offer_all w cs).queue
      ≤ missing all w.seen + length w.queue
unfolding offer_all
offer_all_size all w [] h = omega arith
offer_all_size all w (c ∷ cs) h = omega (
  arith,
  offer_size all w c (h c (ground (arith, eq_iff c c))),
  offer_all_size all (offer w c) cs (λ s m. h s (ground (arith, eq_iff c s))),
)

children_subset : (edges : Dict (List String)) (u : String) → children edges u ⊆ all_children edges
unfolding all_children lookup
children_subset [] u s h = h
children_subset ((p, cs) ∷ d) u s h =
    ground (arith, contains-append cs (all_children d) s, children_subset d u s, eq_iff p u)

pub children_of_subset :
    (edges : Dict (List String)) (ps : List String) → children_of edges ps ⊆ all_children edges
unfolding children_of
children_of_subset edges [] s h = elim (Bool-cases true) [ inl e ↦ cc | inr e ↦ cc ]
children_of_subset edges (p ∷ ps) s h = ground (
  arith,
  contains-append (children edges p) (children_of edges ps) s,
  children_subset edges p s,
  children_of_subset edges ps s,
)

module _ (next : List String → List String) where
  expand_size :
      (all : List String) (w : Walk)
      → next w.queue ⊆ all
      → missing all (expand next w).seen + length (expand next w).queue ≤ missing all w.seen
  unfolding expand
  expand_size all w bounded =
      omega (arith, offer_all_size all (record w { queue = [] }) (next w.queue) bounded)

  -- The `while` loop ends with an empty queue where the fuel exceeds the children not yet seen.
  pub loop_ends :
      (all : List String)
      → ((ps : List String) → next ps ⊆ all)
      → (fuel : ℕ) (w : Walk) → (missing all w.seen < fuel) ⊎ (w.queue ≡ [])
      → (loop next fuel w).queue ≡ []
  unfolding loop
  loop_ends all bounded zero w (inl h) = absurd (omega arith)
  loop_ends all bounded zero w (inr h) = h
  loop_ends all bounded (suc fuel) w h = elim (List-cases w.queue) [
    | inl e ↦ rw (e, loop) e
    | inr (x, xs, e) ↦
        rw (e, loop)
          (loop_ends all bounded fuel (expand next w) (elim (List-cases (expand next w).queue) [
            | inl done ↦ inr done
            | inr (y, ys, more) ↦
                inl (ground (arith, expand_size all w (bounded w.queue), ap length more))
          ]))
  ]

  -- An invariant that one round keeps holds at the end.
  pub loop_keeps {ℓ} :
      (P : Walk → Type ℓ)
      → ((w : Walk) → P w → P (expand next w))
      → (fuel : ℕ) (w : Walk) → P w
      → P (loop next fuel w)
  unfolding loop
  loop_keeps P step zero w p = p
  loop_keeps P step (suc fuel) w p = elim (List-cases w.queue) [
    | inl e ↦ rw (e, loop) p
    | inr (x, xs, e) ↦ rw (e, loop) (loop_keeps P step fuel (expand next w) (step w p))
  ]
