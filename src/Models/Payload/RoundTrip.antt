-- ===== src/Models/Payload/RoundTrip.antt =====
-- agperms/src/agperms/models.py: `to_payload` and `from_payload` together.
use adf.Prelude.{
  String, ◌≡◌, refl, ap, ◌⊆◌, Option, none, some, List, [], ◌∷◌, map, arith, without,
  subset_of_without-eq-nil, List-cases, inl, inr,
}
use adf.Errors.{ok}
use adf.Json.{
  Json, null, bool, int, str, arr, obj, Fields, keys, elements, items, str_items, str_or_null,
  elements-items,
}
use adf.Env.{Env}
use adf.Models.{DelegationChainEntry, TokenClaims}
use adf.Models.Payload.{
  entry_to_dict, to_payload, py_str, entry_from_dict, entries_from_dicts, approver_of,
  chain_or_empty, require_list, from_payload, allowed_claims,
}

module _ (env : Env) where
  map-py_str-str_items : (ss : List String) → map (py_str env) (elements (str_items ss)) ≡ ss
  unfolding py_str
  map-py_str-str_items [] = refl
  map-py_str-str_items (s ∷ ss) = ap (◌∷◌ s) (map-py_str-str_items ss)

  -- A chain entry that is written and read is the entry.
  pub from-to_dict : (e : DelegationChainEntry) → entry_from_dict env (entry_to_dict e) ≡ ok e
  unfolding entry_from_dict entry_to_dict
  from-to_dict e = rw (map-py_str-str_items e.scopes)

  pub entries_from_dicts-map :
      (es : List DelegationChainEntry) → entries_from_dicts env (map entry_to_dict es) ≡ ok es
  unfolding entries_from_dicts
  entries_from_dicts-map [] = refl
  entries_from_dicts-map (e ∷ es) = rw (from-to_dict e, entries_from_dicts-map es)

  chain_round_trip :
      (es : List DelegationChainEntry)
      → require_list (chain_or_empty (some (arr (items (map entry_to_dict es)))))
        ≡ ok (map entry_to_dict es)
  unfolding require_list chain_or_empty
  chain_round_trip [] = refl
  chain_round_trip (e ∷ es) = ap ok (elements-items (map entry_to_dict (e ∷ es)))

  approver_round_trip : (o : Option String) → approver_of env (some (str_or_null o)) ≡ o
  unfolding approver_of py_str
  approver_round_trip none = refl
  approver_round_trip (some s) = refl

  -- The claims that `to_payload` writes are the claims that `from_payload` reads back.
  pub from-to_payload : (c : TokenClaims) → from_payload env (to_payload c) ≡ ok c
  unfolding from_payload to_payload
  from-to_payload c = rw (chain_round_trip c.delegation_chain) (
      rw (entries_from_dicts-map c.delegation_chain)
        (rw (map-py_str-str_items c.scopes, approver_round_trip c.approved_by)))

  -- A payload that is read as claims is an object with no key outside the closed schema.
  pub from_payload-closed :
      (v : Json) (c : TokenClaims)
      → from_payload env v ≡ ok c
      → (d : Fields) × (v ≡ obj d) × (keys d ⊆ allowed_claims)
  unfolding from_payload
  from_payload-closed (obj d) c h = elim (List-cases (without (keys d) allowed_claims)) [
    | inl e ↦ (d, refl, subset_of_without-eq-nil (keys d) allowed_claims e)
    | inr (x, xs, e) ↦ absurd (ground arith)
  ]
  from_payload-closed null c h = cc
  from_payload-closed (bool b) c h = cc
  from_payload-closed (int n) c h = cc
  from_payload-closed (str s) c h = cc
  from_payload-closed (arr vs) c h = cc
