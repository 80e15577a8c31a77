-- ===== src/Storage/Descendants.antt =====
-- The delegation tree that `descendants_breadth_first` walks.
use adf.Prelude.{
  ℕ, suc, ◌⊆◌, length, String, ◌≡◌, refl, ap, sym, subst, ◌⊎◌, inl, inr, List, [], ◌∷◌, Dict,
  contains, ◌∈◌, arith, eq_iff, contains-append, Bool-cases,
}
use adf.Storage.{Memory, children, children_of}
use adf.Storage.Walk.{Walk, expand, loop, all_children, start, rounds, descendants_breadth_first}
use adf.Storage.Walk.Rounds.{
  IsDistinct, seen-offer_all, queue-offer_all, order-offer_all, distinct-offer_all, missing_le,
  children_of_subset, loop_ends, loop_keeps,
}

-- the tokens at or below `root` in the delegation tree
pub data IsBelow (edges : Dict (List String)) (root : String) : String → Type 0 where
  here : IsBelow edges root root
  step : {u v : String} → IsBelow edges root u → v ∈ children edges u → IsBelow edges root v

mem-children_of :
    (edges : Dict (List String)) (ps : List String) (v : String)
    → v ∈ children_of edges ps
    → (u : String) × (u ∈ ps) × (v ∈ children edges u)
unfolding children_of
mem-children_of edges [] v h = absurd (ground arith)
mem-children_of edges (p ∷ ps) v h = elim (Bool-cases (contains (children edges p) v)) [
  | inl e ↦ (p, ground (arith, eq_iff p p), e)
  | inr e ↦
      let (u, m, c) =
        mem-children_of edges ps v
          (ground (arith, contains-append (children edges p) (children_of edges ps) v)) in
      (u, ground arith, c)
]

children_of-mem :
    (edges : Dict (List String)) (ps : List String) (u v : String)
    → u ∈ ps
    → v ∈ children edges u
    → v ∈ children_of edges ps
unfolding children_of
children_of-mem edges [] u v m c = absurd (ground arith)
children_of-mem edges (p ∷ ps) u v m c = ground (
  arith,
  eq_iff p u,
  contains-append (children edges p) (children_of edges ps) v,
  children_of-mem edges ps u v,
)

-- The walk by any `next` that names, for each level, the children in the edges, in any order and any
-- number of times.
module _ (edges : Dict (List String)) (next : List String → List String)
    (named : (ps : List String) (v : String)
      → contains (next ps) v ≡ contains (children_of edges ps) v)
    (root : String) where
  record Inv (w : Walk) : Type 0 where
    same : w.order ≡ w.seen
    distinct : IsDistinct w.seen
    source : root ∈ w.seen
    sound : (v : String) → v ∈ w.seen → IsBelow edges root v
    queued : (v : String) → v ∈ w.queue → v ∈ w.seen
    closed : (u v : String) → u ∈ w.seen → v ∈ children edges u → (u ∈ w.queue) ⊎ (v ∈ w.seen)

  Inv-start : Inv (start root)
  Inv-start = record {
    same = refl;
    distinct = (refl, tt);
    source = ground (arith, eq_iff root root);
    sound = λ v m.
        let e : root ≡ v = ground (arith, eq_iff root v) in subst (IsBelow edges root) e here;
    queued = λ v m. m;
    closed = λ u v m c. inl m;
  }

  Inv-expand : (w : Walk) → Inv w → Inv (expand next w)
  unfolding expand
  Inv-expand w h =
      let w' : Walk = record w { queue = [] } in
      let cs : List String = next w.queue in
      let seen = λ (v : String). seen-offer_all w' cs v in
      let queue = λ (v : String). queue-offer_all w' cs v in
      record {
        same = order-offer_all w' cs h.same;
        distinct = distinct-offer_all w' cs h.distinct;
        source = ground (arith, seen root, h.source);
        sound = λ v m. elim (Bool-cases (contains w.seen v)) [
          | inl e ↦ h.sound v e
          | inr e ↦
              let (u, m', c) =
                mem-children_of edges w.queue v (ground (arith, seen v, named w.queue v)) in
              step (h.sound u (h.queued u m')) c
        ];
        queued = λ v m. ground (arith, seen v, queue v);
        closed = λ u v m c. ground (
          arith,
          seen u,
          seen v,
          named w.queue v,
          queue u,
          h.closed u v,
          λ (q : u ∈ w.queue). children_of-mem edges w.queue u v q c,
        );
      }

  walked-Inv : (fuel : ℕ) → Inv (loop next fuel (start root))
  walked-Inv fuel = loop_keeps next Inv Inv-expand fuel (start root) Inv-start

  -- With a round for each child in a list that names them all, and one more, the walk has found
  -- exactly the tokens at or below the root.
  pub order-loop :
      (all : List String)
      → ((ps : List String) → next ps ⊆ all)
      → (v : String)
      → (v ∈ (loop next (suc (length all)) (start root)).order → IsBelow edges root v)
        × (IsBelow edges root v → v ∈ (loop next (suc (length all)) (start root)).order)
  order-loop all bounded v = (
    λ h. inv.sound v (subst (λ l. v ∈ l) inv.same h),
    λ b. subst (λ l. v ∈ l) (sym inv.same) (complete v b),
  )
    where
      walked : Walk
      walked = loop next (suc (length all)) (start root)

      inv : Inv walked
      inv = walked-Inv (suc (length all))

      ends : walked.queue ≡ []
      ends =
          loop_ends next all bounded (suc (length all)) (start root)
            (inl (omega (arith, missing_le all (root ∷ []))))

      complete : (v : String) → IsBelow edges root v → v ∈ walked.seen
      complete v here = inv.source
      complete v (step {u} b c) = elim (inv.closed u v (complete u b) c) [
        | inl q ↦ absurd (ground (arith, ap (λ l. contains l u) ends))
        | inr m ↦ m
      ]

  pub order-loop-IsDistinct : (fuel : ℕ) → IsDistinct (loop next fuel (start root)).order
  order-loop-IsDistinct fuel =
      let inv = walked-Inv fuel in subst IsDistinct (sym inv.same) inv.distinct

-- `descendants_breadth_first` ends with its queue empty and returns exactly the tokens at or below
-- the root in the delegation edges, whatever the edges are (cycles included).
pub mem-descendants_breadth_first :
    (m : Memory) (root v : String)
    → (v ∈ descendants_breadth_first m root → IsBelow m.edges root v)
      × (IsBelow m.edges root v → v ∈ descendants_breadth_first m root)
unfolding descendants_breadth_first
mem-descendants_breadth_first m root v =
    order-loop m.edges (children_of m.edges) (λ ps s. refl) root (all_children m.edges)
      (children_of_subset m.edges) v

-- No token is listed twice.
pub descendants_breadth_first-IsDistinct :
    (m : Memory) (root : String) → IsDistinct (descendants_breadth_first m root)
unfolding descendants_breadth_first
descendants_breadth_first-IsDistinct m root =
    order-loop-IsDistinct m.edges (children_of m.edges) (λ ps s. refl) root (rounds m.edges)
