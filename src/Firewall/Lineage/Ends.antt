-- ===== src/Firewall/Lineage/Ends.antt =====
-- agperms/src/agperms/firewall.py: the `while` loop of `chain`, from a token to its root.
use adf.Prelude.{
  ℕ, zero, suc, ◌≤◌, ◌<◌, String, Bool, ◌≡◌, refl, ap, sym, subst, true, false, Option, none, some,
  List, [], ◌∷◌, Dict, lookup, contains, ◌∈◌, length, arith, eq_iff, Bool-cases, Option-cases, inl,
  inr, ◌==◌, if◌then◌else◌,
}
use mathlib.Core.List.{reverse}
use adf.Models.{TokenMetadata}
use adf.Storage.{Memory, get_token}
use adf.Storage.Walk.Rounds.{missing, missing_le}
use adf.Firewall.Lineage.{parent_of, walk_up, lineage}

-- each token is stored under its own id
abbrev pub IsFiled : Memory → Type 0
IsFiled m = (jti : String) (meta : TokenMetadata) → lookup jti m.tokens ≡ some meta → meta.jti ≡ jti

abbrev names : Dict TokenMetadata → List String
names [] = []
names ((jti, meta) ∷ d) = jti ∷ names d

length-names : (d : Dict TokenMetadata) → length (names d) ≡ length d
length-names [] = refl
length-names ((jti, meta) ∷ d) = ap suc (length-names d)

mem-names :
    (d : Dict TokenMetadata) (jti : String) (meta : TokenMetadata)
    → lookup jti d ≡ some meta
    → jti ∈ names d
unfolding lookup
mem-names [] jti meta h = ground arith
mem-names ((k, v) ∷ d) jti meta h = ground (arith, eq_iff k jti, mem-names d jti meta)

missing-cons-le : (all seen : List String) (c : String) → missing all (c ∷ seen) ≤ missing all seen
missing-cons-le [] seen c = omega arith
missing-cons-le (a ∷ all) seen c = ground (arith, missing-cons-le all seen c, eq_iff c a)

missing-cons-lt :
    (all seen : List String) (c : String)
    → c ∈ all
    → contains seen c ≡ false
    → missing all (c ∷ seen) < missing all seen
missing-cons-lt [] seen c m h = cc
missing-cons-lt (a ∷ all) seen c m h =
    ground (arith, missing-cons-lt all seen c, missing-cons-le all seen c, eq_iff c a, eq_iff a c)

-- the loop's cursor is a stored token
abbrev IsStored : Memory → Option TokenMetadata → Type 0
IsStored m none = Unit
IsStored m (some meta) = lookup meta.jti m.tokens ≡ some meta

found-IsStored :
    (m : Memory) (jti : String) (o : Option TokenMetadata)
    → IsFiled m
    → lookup jti m.tokens ≡ o
    → IsStored m o
found-IsStored m jti none filed e = tt
found-IsStored m jti (some meta) filed e =
    subst (λ k. lookup k m.tokens ≡ some meta) (sym (filed jti meta e)) e

if-IsStored :
    (m : Memory) (b : Bool) (o : Option TokenMetadata)
    → IsStored m o
    → IsStored m (if b then none else o)
if-IsStored m true o h = tt
if-IsStored m false o h = h

parent_of-IsStored : (m : Memory) (meta : TokenMetadata) → IsFiled m → IsStored m (parent_of m meta)
unfolding parent_of get_token
parent_of-IsStored m meta filed = elim (Option-cases meta.parent_jti) [
  | inl e ↦ rw (parent_of, e) tt
  | inr (p, e) ↦
      rw (parent_of, e)
        (if-IsStored m (p == "") (lookup p m.tokens)
          (found-IsStored m p (lookup p m.tokens) filed refl))
]

-- Two walks with more fuel than there are stored tokens left agree.
walk_up-same :
    (m : Memory) (fuel other : ℕ) (seen : List String) (cursor : Option TokenMetadata)
    → IsFiled m
    → IsStored m cursor
    → missing (names m.tokens) seen < fuel
    → missing (names m.tokens) seen < other
    → walk_up fuel m seen cursor ≡ walk_up other m seen cursor
unfolding walk_up
walk_up-same m zero other seen cursor filed stored h k = absurd (omega arith)
walk_up-same m (suc fuel) zero seen cursor filed stored h k = absurd (omega arith)
walk_up-same m (suc fuel) (suc other) seen none filed stored h k = refl
walk_up-same m (suc fuel) (suc other) seen (some meta) filed stored h k =
    elim (Bool-cases (contains seen meta.jti)) [
      | inl old ↦ rw (walk_up, old) refl
      | inr new ↦
          let less =
            missing-cons-lt (names m.tokens) seen meta.jti (mem-names m.tokens meta.jti meta stored)
              new in
          rw (walk_up, new)
            (ap (λ l. meta ∷ l)
              (walk_up-same m fuel other (meta.jti ∷ seen) (parent_of m meta) filed
                (parent_of-IsStored m meta filed) (omega (arith, less, h))
                (omega (arith, less, k))))
    ]

-- Where tokens are stored under their own ids, the walk from a stored token to its root ends by itself:
-- every amount of fuel above the number of stored tokens gives the same lineage, cycles included.
pub lineage-enough :
    (m : Memory) (leaf : TokenMetadata) (fuel : ℕ)
    → IsFiled m
    → lookup leaf.jti m.tokens ≡ some leaf
    → length m.tokens < fuel
    → lineage m leaf ≡ reverse (walk_up fuel m [] (some leaf))
unfolding lineage
lineage-enough m leaf fuel filed stored h =
    let bound = missing_le (names m.tokens) [] in
    let size = length-names m.tokens in
    ap reverse (
      walk_up-same m (suc (suc (length m.tokens))) fuel [] (some leaf) filed stored
        (omega (arith, bound, size)) (omega (arith, bound, size, h)))
