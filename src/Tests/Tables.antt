-- ===== src/Tests/Tables.antt =====
-- Tables as lists, which keep to the laws that the durable storage relies on.
use adf.Prelude.{
  String, Bool, false, ◌≡◌, refl, none, some, List, [], ◌∷◌, ◌++◌, map, contains, is_some, ◌==◌,
  ◌||◌, arith, eq_iff, Bool-cases, inl, inr, if◌then◌else◌,
}
use adf.Audit.Rows.{Row}
use adf.Sql.Table.{
  Table, IsKeyed, Edge, IsPaired, IsLog, linked, find, clashes, or_else, mapped, hashes, repeats,
}
use adf.Sql.Revocations.{unnumbered-append}
use adf.Sql.Store.{Engine}
use adf.Sql.Refines.{Keys}

module _ {R : Type 0} (key : R → String) where
  abbrev pub assign : String → (R → R) → List R → List R
  assign k f [] = []
  assign k f (r ∷ rs) = (if key r == k then f r else r) ∷ assign k f rs

  abbrev pub keyed : Table R
  keyed = record {
    State = List R;
    select = λ s. s;
    get = λ k s. find key k s;
    insert = λ rs s. if clashes key (λ k. find key k s) rs then none else some (rs ++ s);
    update = assign;
  }

  find-key : (k : String) (s : List R) (r : R) → find key k s ≡ some r → key r ≡ k
  find-key k [] r h = cc
  find-key k (x ∷ xs) r h = elim (Bool-cases (key x == k)) [
    | inl same ↦ ground (arith, eq_iff (key x) k, h, same)
    | inr other ↦ find-key k xs r (rw other at h)
  ]

  contains-keys : (k : String) (s : List R) → contains (map key s) k ≡ is_some (find key k s)
  contains-keys k [] = refl
  contains-keys k (x ∷ xs) = ground (arith, contains-keys k xs)

  find-append :
      (k : String) (xs ys : List R)
      → find key k (xs ++ ys) ≡ or_else (find key k xs) (find key k ys)
  find-append k [] ys = refl
  find-append k (x ∷ xs) ys = ground (arith, find-append k xs ys)

  find-assign :
      (k j : String) (f : R → R) (s : List R)
      → ((r : R) → key (f r) ≡ key r)
      → find key j (assign k f s) ≡ (if k == j then mapped f (find key j s) else find key j s)
  find-assign k j f [] h = ground arith
  find-assign k j f (x ∷ xs) h = ground (
    arith,
    find-assign k j f xs h,
    h x,
    eq_iff (key x) k,
    eq_iff (key x) j,
    eq_iff k j,
    eq_iff (key (f x)) j,
  )

  pub keyed-IsKeyed : IsKeyed keyed key
  keyed-IsKeyed = record {
    get_key = find-key;
    selects = contains-keys;
    accepts = λ rs s free. (rs ++ s, rw free refl, λ k. find-append k rs s);
    rejects = λ rs s taken. rw taken refl;
    assigns = find-assign;
  }

abbrev pub linked_any : List Edge → List Edge → Bool
linked_any [] s = false
linked_any (x ∷ xs) s = linked s x.parent_jti x.child_jti || linked_any xs s

abbrev pub edge_table : Table Edge
edge_table = record {
  State = List Edge;
  select = λ s. s;
  get = λ k s. none;
  insert = λ rs s. if linked_any rs s then none else some (rs ++ s);
  update = λ k f s. s;
}

edge_table-IsPaired : IsPaired edge_table
edge_table-IsPaired = record {
  accepts = λ p c s free.
      (record { parent_jti = p; child_jti = c } ∷ s, ground arith, λ p' c'. ground arith);
  rejects = λ p c s taken. ground arith;
}

abbrev pub log_table : Table Row
log_table = record {
  State = List Row;
  select = λ s. s;
  get = λ k s. none;
  insert = λ rows s. if repeats (hashes s) (hashes rows) then none else some (s ++ rows);
  update = λ k f s. s;
}

log_table-IsLog : IsLog log_table
log_table-IsLog = record {
  accepts = λ rows s fresh. (s ++ rows, rw fresh refl, unnumbered-append s rows);
  rejects = λ rows s taken. rw taken refl;
}

abbrev pub lists : Engine
lists = record {
  tokens = keyed (λ r. r.jti);
  edges = edge_table;
  revocations = keyed (λ r. r.jti);
  subjects = keyed (λ r. r.subject_id);
  audit = log_table;
  approvals = keyed (λ r. r.approval_id);
  actions = keyed (λ r. r.action_id);
  reviews = keyed (λ r. r.review_id);
}

pub lists-Keys : Keys lists
lists-Keys = record {
  tokens = keyed-IsKeyed (λ r. r.jti);
  edges = edge_table-IsPaired;
  revocations = keyed-IsKeyed (λ r. r.jti);
  audit = log_table-IsLog;
  approvals = keyed-IsKeyed (λ r. r.approval_id);
  actions = keyed-IsKeyed (λ r. r.action_id);
  reviews = keyed-IsKeyed (λ r. r.review_id);
}
