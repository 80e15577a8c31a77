-- ===== src/Service/Revocation/Subtree.antt =====
-- checkpoint_service/engine/revocation.py: what `_collect_subtree` collects, against the edges.
use adf.Prelude.{
  String, true, ◌≡◌, refl, sym, ◌∙◌, List, [], ◌∷◌, Dict, insert, lookup, lookup-insert, contains,
  ◌∈◌, arith, eq_iff,
}
use adf.Storage.{children}
use adf.Storage.Descendants.{IsBelow, here, step, order-loop}
use adf.Sql.Table.{Edge, linked}
use adf.Sql.Store.{children_in, all_children}
use adf.Sql.Walk.{any_of-ext, contains-children_in, contains-children_of, children_in-subset}
use adf.Service.Revocation.{Backend, Store, collect_subtree}

-- the token itself, and every token that a chain of edges leads to from it
pub data IsUnder (edges : List Edge) (root : String) : String → Type 0 where
  itself : IsUnder edges root root
  child : {u v : String} → IsUnder edges root u → linked edges u v ≡ true → IsUnder edges root v

-- the edges by their parents
as_dict : List Edge → Dict (List String)
as_dict [] = []
as_dict (x ∷ xs) =
    insert x.parent_jti (x.child_jti ∷ children (as_dict xs) x.parent_jti) (as_dict xs)

children-as_dict :
    (edges : List Edge) (p c : String) → linked edges p c ≡ contains (children (as_dict edges) p) c
unfolding as_dict lookup
children-as_dict [] p c = refl
children-as_dict (x ∷ xs) p c = ground (
  arith,
  lookup-insert x.parent_jti p (x.child_jti ∷ children (as_dict xs) x.parent_jti) (as_dict xs),
  children-as_dict xs p c,
  eq_iff x.parent_jti p,
)

IsBelow-IsUnder :
    (edges : List Edge) (root : String) {v : String}
    → IsBelow (as_dict edges) root v
    → IsUnder edges root v
IsBelow-IsUnder edges root here = itself
IsBelow-IsUnder edges root (step {u} {v} b m) =
    child (IsBelow-IsUnder edges root b) (children-as_dict edges u v ∙ m)

IsUnder-IsBelow :
    (edges : List Edge) (root : String) {v : String}
    → IsUnder edges root v
    → IsBelow (as_dict edges) root v
IsUnder-IsBelow edges root itself = here
IsUnder-IsBelow edges root (child {u} {v} b m) =
    step (IsUnder-IsBelow edges root b) (sym (children-as_dict edges u v) ∙ m)

-- `_collect_subtree` ends, and collects exactly the tokens under the root.
pub mem-collect_subtree :
    (b : Backend) (s : Store b) (root v : String)
    → (v ∈ collect_subtree b s root → IsUnder (b.edges.select s.edges) root v)
      × (IsUnder (b.edges.select s.edges) root v → v ∈ collect_subtree b s root)
unfolding collect_subtree
mem-collect_subtree b s root v =
    let edges : List Edge = b.edges.select s.edges in
    let (found, finds) =
      order-loop (as_dict edges) (children_in edges)
        (λ ps w.
          contains-children_in edges ps w
          ∙ any_of-ext _ _ ps (λ p. children-as_dict edges p w)
          ∙ sym (contains-children_of (as_dict edges) ps w))
        root (all_children edges) (children_in-subset edges) v in
    (λ h. IsBelow-IsUnder edges root (found h), λ h. finds (IsUnder-IsBelow edges root h))
