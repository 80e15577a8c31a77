-- ===== src/Sql/Walk.antt =====
-- storage/sql.py: `descendants_breadth_first`, against the memory storage's.
use adf.Prelude.{
  suc, String, Bool, false, ◌≡◌, refl, sym, ◌∙◌, List, [], ◌∷◌, Dict, contains, ◌∈◌, ◌⊆◌,
  contains-append, length, ◌==◌, ◌&&◌, ◌||◌, ◌↔◌, arith, eq_iff,
}
use adf.Errors.{ok}
use adf.Exec.{gets}
use adf.Storage
use adf.Storage.{Memory, children}
use adf.Storage.Walk
use adf.Storage.Walk.{loop, start}
use adf.Storage.Walk.Rounds.{IsDistinct}
use adf.Storage.Descendants.{order-loop, order-loop-IsDistinct, mem-descendants_breadth_first}
use adf.Sql.Table.{Edge, linked}
use adf.Sql.Store.{Engine, Database, children_in, all_children, descendants_breadth_first}
use adf.Sql.Refines.{Refines, opened}

abbrev pub any_of : (String → Bool) → List String → Bool
any_of test [] = false
any_of test (p ∷ ps) = test p || any_of test ps

any_of-or :
    (f g : String → Bool) (ps : List String)
    → any_of (λ p. f p || g p) ps ≡ (any_of f ps || any_of g ps)
any_of-or f g [] = refl
any_of-or f g (p ∷ ps) = ground (arith, any_of-or f g ps)

pub any_of-ext :
    (f g : String → Bool) (ps : List String)
    → ((p : String) → f p ≡ g p)
    → any_of f ps ≡ any_of g ps
any_of-ext f g [] h = refl
any_of-ext f g (p ∷ ps) h = ground (arith, h p, any_of-ext f g ps h)

any_of-eq :
    (q : String) (b : Bool) (ps : List String) → any_of (λ p. q == p && b) ps ≡ (contains ps q && b)
any_of-eq q b [] = refl
any_of-eq q b (p ∷ ps) = ground (arith, any_of-eq q b ps, eq_iff q p, eq_iff p q)

any_of-false : (ps : List String) → any_of (λ p. false) ps ≡ false
any_of-false [] = refl
any_of-false (p ∷ ps) = any_of-false ps

pub contains-children_in :
    (edges : List Edge) (ps : List String) (v : String)
    → contains (children_in edges ps) v ≡ any_of (λ p. linked edges p v) ps
contains-children_in [] ps v = sym (any_of-false ps)
contains-children_in (x ∷ xs) ps v = ground (
  arith,
  contains-children_in xs ps v,
  any_of-or (λ p. x.parent_jti == p && x.child_jti == v) (λ p. linked xs p v) ps,
  any_of-eq x.parent_jti (x.child_jti == v) ps,
)

pub contains-children_of :
    (edges : Dict (List String)) (ps : List String) (v : String)
    → contains (Storage.children_of edges ps) v ≡ any_of (λ p. contains (children edges p) v) ps
unfolding Storage.children_of
contains-children_of edges [] v = refl
contains-children_of edges (p ∷ ps) v = ground (
  arith,
  contains-children_of edges ps v,
  contains-append (children edges p) (Storage.children_of edges ps) v,
)

pub children_in-subset :
    (edges : List Edge) (ps : List String) → children_in edges ps ⊆ all_children edges
children_in-subset [] ps v h = h
children_in-subset (x ∷ xs) ps v h = ground (arith, children_in-subset xs ps v)

module _ (e : Engine) (db : Database e) (m : Memory) (r : Refines e db m) (root : String) where
  abbrev edges : List Edge
  edges = e.edges.select db.edges

  named :
      (ps : List String) (v : String)
      → contains (children_in edges ps) v ≡ contains (Storage.children_of m.edges ps) v
  named ps v =
      contains-children_in edges ps v
      ∙ any_of-ext _ _ ps (λ p. r.edges p v)
      ∙ sym (contains-children_of m.edges ps v)

  -- Where a database stands for a memory storage, its walk of the delegation edges ends, leaves the
  -- database alone, lists no token twice, and lists the same tokens as the memory storage's walk,
  -- in whatever order the table gives its edges.
  pub descendants_breadth_first-same :
      (order : List String) × (descendants_breadth_first e root db ≡ (ok order, db))
      × IsDistinct order
      × ((v : String) → (v ∈ order) ↔ (v ∈ Storage.Walk.descendants_breadth_first m root))
  unfolding descendants_breadth_first gets
  descendants_breadth_first-same =
      let next : List String → List String = children_in edges in
      let all : List String = all_children edges in
      (
        (loop next (suc (length all)) (start root)).order,
        opened _ db r.db_open,
        order-loop-IsDistinct m.edges next named root (suc (length all)),
        λ v.
            let (found, finds) =
              order-loop m.edges next named root all (children_in-subset edges) v in
            let (below, listed) = mem-descendants_breadth_first m root v in
            (λ h. listed (found h), λ h. finds (below h)),
      )
