-- ===== src/Json.antt =====
-- The values of a JSON document, as the program builds and reads them: token payloads, chain
-- entries and the `detail` of an audit event. Negative and fractional numbers do not occur in what
-- the program writes, and are left out.
use adf.Prelude.{
  ℕ, ◌≡◌, String, Bool, true, false, not, Option, none, some, List, [], ◌∷◌, ◌==◌, nat_eq,
  if◌then◌else◌,
}

mutual
  pub data Json : Type 0 where
    null : Json
    bool : Bool → Json
    int : ℕ → Json
    str : String → Json
    arr : Items → Json
    obj : Fields → Json

  pub data Items : Type 0 where
    nil : Items
    cons : Json → Items → Items

  pub data Fields : Type 0 where
    end : Fields
    field : String → Json → Fields → Fields

-- `d.get(k)`
abbrev pub get : String → Fields → Option Json
get k end = none
get k (field j v d) = if j == k then some v else get k d

abbrev pub keys : Fields → List String
keys end = []
keys (field j v d) = j ∷ keys d

abbrev pub elements : Items → List Json
elements nil = []
elements (cons v vs) = v ∷ elements vs

abbrev pub items : List Json → Items
items [] = nil
items (v ∷ vs) = cons v (items vs)

abbrev pub str_items : List String → Items
str_items [] = nil
str_items (s ∷ ss) = cons (str s) (str_items ss)

abbrev pub strs : List String → Json
strs ss = arr (str_items ss)

abbrev pub str_or_null : Option String → Json
str_or_null none = null
str_or_null (some s) = str s

-- `bool(v)`
abbrev pub truthy : Json → Bool
truthy null = false
truthy (bool b) = b
truthy (int n) = not (nat_eq n 0)
truthy (str s) = not (s == "")
truthy (arr nil) = false
truthy (arr (cons v vs)) = true
truthy (obj end) = false
truthy (obj (field k v d)) = true

pub elements-items : (vs : List Json) → elements (items vs) ≡ vs
elements-items [] = λ i. []
elements-items (v ∷ vs) = λ i. v ∷ elements-items vs i

abbrev pub fields : List (String × Json) → Fields
fields [] = end
fields ((k, v) ∷ d) = field k v (fields d)

abbrev pub dict : List (String × Json) → Json
dict d = obj (fields d)
