-- ===== src/Models/Payload.antt =====
-- models.py: the dictionaries that chain entries and claims are written to and read from.
pub mod RoundTrip
use adf.Prelude.{
  ℕ, String, Bool, true, false, not, Option, none, some, List, [], ◌∷◌, map, contains, without,
  if◌then◌else◌,
}
use adf.Errors.{Result, ok, err, token_error, reason_malformed, ◌>>=◌, ◌>>◌}
use adf.Json.{
  Json, null, bool, int, str, arr, obj, Items, Fields, end, field, get, keys, elements, items, strs,
  str_or_null, truthy,
}
use adf.Env.{Env}
use adf.Models.{DelegationChainEntry, TokenClaims}

unfoldable pub entry_to_dict : DelegationChainEntry → Json
entry_to_dict e = obj (
    field "agent_id" (str e.agent_id)
      (field "jti" (str e.jti) (field "scopes" (strs e.scopes) (field "ts" (str e.ts) end))))

abbrev pub malformed {ℓ} : {A : Type ℓ} → Result A
malformed = err (token_error reason_malformed)

-- `_ALLOWED_CLAIMS`
abbrev pub allowed_claims : List String
allowed_claims =
    "jti" ∷ "sub" ∷ "iss" ∷ "issued_for" ∷ "scopes" ∷ "delegation_chain" ∷ "depth" ∷ "max_depth"
    ∷ "iat" ∷ "exp" ∷ "approval_required" ∷ "approved_by" ∷ "root_jti" ∷ []

-- `payload[k]`, a `KeyError` becoming a `TokenError`
unfoldable pub require_key : String → Fields → Result Json
require_key k d = elim (get k d) [ none ↦ malformed | some v ↦ ok v ]

-- the elements of a list, or a `TypeError` becoming a `TokenError`
unfoldable pub require_list : Json → Result (List Json)
require_list (arr vs) = ok (elements vs)
require_list _ = malformed

-- `payload.get("delegation_chain") or []`
unfoldable pub chain_or_empty : Option Json → Json
chain_or_empty none = arr (items [])
chain_or_empty (some v) = if truthy v then v else arr (items [])

unfoldable pub to_payload : TokenClaims → Json
unfolding entry_to_dict
to_payload c = obj (
    field "jti" (str c.jti) (
      field "sub" (str c.sub) (
        field "iss" (str c.iss) (
          field "issued_for" (str c.issued_for) (
            field "scopes" (strs c.scopes) (
              field "delegation_chain" (arr (items (map entry_to_dict c.delegation_chain))) (
                field "depth" (int c.depth) (
                  field "max_depth" (int c.max_depth) (
                    field "iat" (int c.iat) (
                      field "exp" (int c.exp) (
                        field "approval_required" (bool c.approval_required) (
                          field "approved_by" (str_or_null c.approved_by)
                            (field "root_jti" (str c.root_jti) end)))))))))))))

module _ (env : Env) where
  -- `str(v)`
  unfoldable pub py_str : Json → String
  py_str (str s) = s
  py_str v = env.repr v

  -- `int(v)`
  unfoldable pub py_int : Json → Result ℕ
  py_int (int n) = ok n
  py_int (bool b) = ok (if b then 1 else 0)
  py_int (str s) = elim (env.int_of_text s) [ none ↦ malformed | some n ↦ ok n ]
  py_int _ = malformed

  unfoldable pub entry_from_dict : Json → Result DelegationChainEntry
  unfolding py_str require_key require_list
  entry_from_dict (obj raw) = do
    scopes ← require_key "scopes" raw
    scope_list ← require_list scopes
    agent_id ← require_key "agent_id" raw
    jti ← require_key "jti" raw
    ts ← require_key "ts" raw
    ok (record {
      agent_id = py_str agent_id;
      jti = py_str jti;
      scopes = map py_str scope_list;
      ts = py_str ts;
    })
  entry_from_dict _ = malformed

  unfoldable pub entries_from_dicts : List Json → Result (List DelegationChainEntry)
  unfolding entry_from_dict
  entries_from_dicts [] = ok []
  entries_from_dicts (v ∷ vs) = do e ← entry_from_dict v; es ← entries_from_dicts vs; ok (e ∷ es)

  approver_of : Option Json → Option String
  approver_of none = none
  approver_of (some null) = none
  approver_of (some v) = some (py_str v)

  approval_of : Option Json → Bool
  approval_of none = false
  approval_of (some v) = truthy v

  claims_of : Fields → Result TokenClaims
  unfolding py_str py_int require_key require_list chain_or_empty approver_of approval_of
  claims_of d = do
    scopes ← require_key "scopes" d
    scope_list ← require_list scopes
    chain_raw ← require_list (chain_or_empty (get "delegation_chain" d))
    jti ← require_key "jti" d
    sub ← require_key "sub" d
    iss ← require_key "iss" d
    issued_for ← require_key "issued_for" d
    chain ← entries_from_dicts chain_raw
    depth ← py_int (← require_key "depth" d)
    max_depth ← py_int (← require_key "max_depth" d)
    iat ← py_int (← require_key "iat" d)
    exp ← py_int (← require_key "exp" d)
    root_jti ← require_key "root_jti" d
    ok (record {
      jti = py_str jti;
      sub = py_str sub;
      iss = py_str iss;
      issued_for = py_str issued_for;
      scopes = map py_str scope_list;
      depth = depth;
      max_depth = max_depth;
      iat = iat;
      exp = exp;
      root_jti = py_str root_jti;
      delegation_chain = chain;
      approval_required = approval_of (get "approval_required" d);
      approved_by = approver_of (get "approved_by" d);
    })

  -- a claim outside the closed schema is refused, not ignored
  unfoldable pub from_payload : Json → Result TokenClaims
  unfolding claims_of
  from_payload (obj d) = elim (without (keys d) allowed_claims) [
    | [] ↦ claims_of d
    | _ ∷ _ ↦ malformed
  ]
  from_payload _ = malformed
