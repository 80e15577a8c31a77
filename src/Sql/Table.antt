-- ===== src/Sql/Table.antt =====
-- What storage/sql.py relies on of SQLAlchemy, for one mapped class.
use adf.Prelude.{
  String, Bool, true, false, ◌≡◌, Option, none, some, List, [], ◌∷◌, map, contains, is_some, ◌==◌,
  ◌&&◌, ◌||◌, ◌++◌, arith, eq_iff, if◌then◌else◌,
}
use adf.Audit.Rows.{Row, row_with_id}

-- A table of rows: `session.scalars(select(T)).all()`, `session.get(T, key)`, `session.add` of rows
-- with the commit behind it, which is `none` where it raises `IntegrityError` and is rolled back, and
-- the assignment to attributes of the row under a key, with its commit.
pub record Table (R : Type 0) : Type 1 where
  pub State : Type 0
  pub select : State → List R
  pub get : String → State → Option R
  pub insert : List R → State → Option State
  pub update : String → (R → R) → State → State

module _ {R : Type 0} (key : R → String) where
  abbrev pub find : String → List R → Option R
  find k [] = none
  find k (r ∷ rs) = if key r == k then some r else find k rs

  -- new rows of which one has the key of a stored row, or two have one key
  abbrev pub clashes : (String → Option R) → List R → Bool
  clashes stored [] = false
  clashes stored (r ∷ rs) =
      is_some (stored (key r)) || contains (map key rs) (key r) || clashes stored rs

abbrev pub or_else {ℓ} : {A : Type ℓ} → Option A → Option A → Option A
or_else none b = b
or_else (some a) b = some a

abbrev pub mapped {ℓ} : {A : Type ℓ} → (A → A) → Option A → Option A
mapped f none = none
mapped f (some a) = some (f a)

-- a table with the primary key `key`
pub record IsKeyed {R : Type 0} (T : Table R) (key : R → String) : Type 0 where
  pub get_key : (k : String) (s : T.State) (r : R) → T.get k s ≡ some r → key r ≡ k
  pub selects : (k : String) (s : T.State) → contains (map key (T.select s)) k ≡ is_some (T.get k s)
  pub accepts :
      (rs : List R) (s : T.State)
      → clashes key (λ k. T.get k s) rs ≡ false
      → (t : T.State) × (T.insert rs s ≡ some t)
        × ((k : String) → T.get k t ≡ or_else (find key k rs) (T.get k s))
  pub rejects :
      (rs : List R) (s : T.State) → clashes key (λ k. T.get k s) rs ≡ true → T.insert rs s ≡ none
  pub assigns :
      (k j : String) (f : R → R) (s : T.State)
      → ((r : R) → key (f r) ≡ key r)
      → T.get j (T.update k f s) ≡ (if k == j then mapped f (T.get j s) else T.get j s)

pub record Edge : Type 0 where
  pub parent_jti : String
  pub child_jti : String

abbrev pub linked : List Edge → String → String → Bool
linked [] p c = false
linked (e ∷ es) p c = (e.parent_jti == p && e.child_jti == c) || linked es p c

-- a table whose only constraint is that no pair of parent and child stands twice
pub record IsPaired (T : Table Edge) : Type 0 where
  pub accepts :
      (p c : String) (s : T.State)
      → linked (T.select s) p c ≡ false
      → (t : T.State) × (T.insert (record { parent_jti = p; child_jti = c } ∷ []) s ≡ some t)
        × ((p' c' : String)
            → linked (T.select t) p' c' ≡ (linked (T.select s) p' c' || p == p' && c == c'))
  pub rejects :
      (p c : String) (s : T.State)
      → linked (T.select s) p c ≡ true
      → T.insert (record { parent_jti = p; child_jti = c } ∷ []) s ≡ none

abbrev pub repeats : List String → List String → Bool
repeats seen [] = false
repeats seen (h ∷ hs) = contains seen h || repeats (h ∷ seen) hs

abbrev pub hashes : List Row → List String
hashes = map (λ (r : Row). r.row_hash)

-- the rows but for the ids that the table gives
abbrev pub unnumbered : List Row → List Row
unfolding row_with_id
unnumbered = map (row_with_id 0)

-- the table of audit rows, whose hashes are unique
pub record IsLog (T : Table Row) : Type 0 where
  pub accepts :
      (rows : List Row) (s : T.State)
      → repeats (hashes (T.select s)) (hashes rows) ≡ false
      → (t : T.State) × (T.insert rows s ≡ some t)
        × (unnumbered (T.select t) ≡ unnumbered (T.select s) ++ unnumbered rows)
  pub rejects :
      (rows : List Row) (s : T.State)
      → repeats (hashes (T.select s)) (hashes rows) ≡ true
      → T.insert rows s ≡ none

module _ {R : Type 0} {T : Table R} {key : R → String} (law : IsKeyed T key) where
  pub accepts_one :
      (row : R) (s : T.State)
      → is_some (T.get (key row) s) ≡ false
      → (t : T.State) × (T.insert (row ∷ []) s ≡ some t)
        × ((k : String) → T.get k t ≡ (if key row == k then some row else T.get k s))
  accepts_one row s free =
      let (t, e, reads) = law.accepts (row ∷ []) s (ground arith) in
      (t, e, λ k. ground (arith, reads k))

  pub rejects_one :
      (row : R) (s : T.State) → is_some (T.get (key row) s) ≡ true → T.insert (row ∷ []) s ≡ none
  rejects_one row s taken = law.rejects (row ∷ []) s (ground arith)

  pub assigns_one :
      (id k : String) (f : R → R) (s : T.State) {old new : R}
      → ((row : R) → key (f row) ≡ key row)
      → T.get id s ≡ some old
      → f old ≡ new
      → T.get k (T.update id f s) ≡ (if id == k then some new else T.get k s)
  assigns_one id k f s keeps found fits =
      ground (arith, law.assigns id k f s keeps, eq_iff id k, found, fits)
