-- ===== src/Storage.antt =====
-- agperms/src/agperms/storage/memory.py: `MemoryStorage`. The lock is left out: a call is one step.
-- A set is a list without repetition; `deepcopy` has nothing to copy where values are immutable.
pub mod Walk
pub mod Descendants
pub mod Revoked
use adf.Prelude.{
  ℕ, suc, ◌+◌, String, Bool, true, false, not, Option, none, some, List, [], ◌∷◌, ◌++◌, map, Dict,
  lookup, insert, values, has_key, contains, length, take, keep, last?, ltb, is_some, ◌==◌, ◌&&◌,
  ◌||◌, if◌then◌else◌,
}
use mathlib.Core.List.{reverse}
use adf.Errors.{Result, ok, err, storage_error}
use adf.Audit.Rows.{Row, row_with_id}
use adf.Models.{
  TokenMetadata, Subject, PendingApproval, ActionRecord, ActionReview, CompletionState, is_clean,
  is_open,
}

pub record Revocation : Type 0 where
  pub jti : String
  pub revoked_at : ℕ
  pub root_of_revocation : String
  pub reason : Option String

pub record Memory : Type 0 where
  pub tokens : Dict TokenMetadata
  pub edges : Dict (List String)
  pub revoked : Dict Revocation
  pub subjects : Dict Subject
  -- identifier hash, kind, subject id
  pub subject_by_hash : List (String × String × String)
  pub audit : List Row
  pub approvals : Dict PendingApproval
  pub actions : Dict ActionRecord
  pub actions_by_jti : Dict (List String)
  pub reviews : Dict ActionReview
  pub closed : Bool

abbrev pub empty_memory : Memory
empty_memory = record {
  tokens = [];
  edges = [];
  revoked = [];
  subjects = [];
  subject_by_hash = [];
  audit = [];
  approvals = [];
  actions = [];
  actions_by_jti = [];
  reviews = [];
  closed = false;
}

-- `sorted(xs, key=key)` and `sorted(xs, key=key, reverse=True)`: both keep the order of equal keys
module _ {ℓ} {A : Type ℓ} (key : A → ℕ) where
  unfoldable pub insert_by : A → List A → List A
  insert_by x [] = x ∷ []
  insert_by x (y ∷ ys) =
      let rest = insert_by x ys in if ltb (key y) (key x) then y ∷ rest else x ∷ y ∷ ys

  unfoldable pub sort_by : List A → List A
  unfolding insert_by
  sort_by [] = []
  sort_by (x ∷ xs) = insert_by x (sort_by xs)

  unfoldable pub insert_down : A → List A → List A
  insert_down x [] = x ∷ []
  insert_down x (y ∷ ys) =
      let rest = insert_down x ys in if ltb (key x) (key y) then y ∷ rest else x ∷ y ∷ ys

  unfoldable pub sort_down : List A → List A
  unfolding insert_down
  sort_down [] = []
  sort_down (x ∷ xs) = insert_down x (sort_down xs)

abbrev pub or_nil : Option (List String) → List String
or_nil none = []
or_nil (some xs) = xs

unfoldable pub put_token : TokenMetadata → Memory → Result Memory
put_token meta m =
    if has_key meta.jti m.tokens
    then err (storage_error "token already recorded")
    else ok (record m { tokens = insert meta.jti meta m.tokens })

unfoldable pub get_token : Memory → String → Option TokenMetadata
get_token m jti = lookup jti m.tokens

-- `self._edges.get(parent, ())`
abbrev pub children : Dict (List String) → String → List String
children edges parent = or_nil (lookup parent edges)

-- a duplicate insert is a no-op
unfoldable pub add_edge : String → String → Memory → Memory
add_edge parent child m =
    let known = children m.edges parent in
    record m {
      edges = insert parent (if contains known child then known else known ++ child ∷ []) m.edges;
    }

unfoldable pub children_of : Dict (List String) → List String → List String
children_of edges [] = []
children_of edges (p ∷ ps) = children edges p ++ children_of edges ps

unfoldable pub is_revoked : Memory → String → Result Bool
is_revoked m jti =
    if m.closed
    then err (storage_error "storage is closed; cannot answer is_revoked")
    else ok (has_key jti m.revoked)

unfoldable pub revoked_among : Memory → List String → List String
revoked_among m = keep (λ jti. has_key jti m.revoked)

-- the new table, and the tokens that were not revoked before
unfoldable pub revoke_many :
    List String → String → Option String → ℕ → Dict Revocation → Dict Revocation × List String
revoke_many [] root reason at d = (d, [])
revoke_many (jti ∷ jtis) root reason at d =
    let entry : Revocation = record {
      jti = jti;
      revoked_at = at;
      root_of_revocation = root;
      reason = reason;
    } in
    let seen = has_key jti d in
    let (d', newly) = revoke_many jtis root reason at (if seen then d else insert jti entry d) in
    (d', if seen then newly else jti ∷ newly)

unfoldable pub find_subject_id : String → String → List (String × String × String) → Option String
find_subject_id hash kind [] = none
find_subject_id hash kind ((h, k, id) ∷ rest) =
    if h == hash && k == kind then some id else find_subject_id hash kind rest

-- `fresh` is `f"{kind}:{uuid.uuid4()}"`. A table entry without its subject raises `KeyError`.
unfoldable pub get_or_create_subject :
    String → String → String → String → Memory → Option (Subject × Memory)
unfolding find_subject_id
get_or_create_subject fresh hash kind label m = elim (find_subject_id hash kind m.subject_by_hash) [
  | some id ↦ elim (lookup id m.subjects) [ none ↦ none | some subject ↦ some (subject, m) ]
  | none ↦
      let subject : Subject = record {
        subject_id = fresh;
        identifier_hash = hash;
        kind = kind;
        display_label = label;
      } in
      some (
        subject,
        record m {
          subjects = insert fresh subject m.subjects;
          subject_by_hash = (hash, kind, fresh) ∷ m.subject_by_hash;
        },
      )
]

unfoldable pub get_subject : Memory → String → Option Subject
get_subject m id = lookup id m.subjects

-- `self._audit[-1]["row_hash"] if self._audit else None`
unfoldable pub audit_tail_hash : Memory → Option String
audit_tail_hash m = elim (last? m.audit) [ none ↦ none | some row ↦ some row.row_hash ]

unfoldable pub number_rows : ℕ → List Row → List Row
number_rows id [] = []
number_rows id (row ∷ rows) = row_with_id id row ∷ number_rows (id + 1) rows

unfoldable pub append_audit_batch : List Row → Memory → Memory
unfolding number_rows
append_audit_batch rows m = record m { audit = m.audit ++ number_rows (length m.audit + 1) rows }

unfoldable pub matches : Option String → Option String → Bool
matches none v = true
matches (some w) none = false
matches (some w) (some v) = v == w

unfoldable pub find_audit_rows : Memory → Option String → Option String → Option ℕ → List Row
unfolding matches
find_audit_rows m action jti limit =
    let found =
      keep (λ (r : Row). matches action (some r.event.action) && matches jti r.event.jti) m.audit in
    elim limit [ none ↦ found | some n ↦ take n (reverse found) ]

unfoldable pub put_approval : PendingApproval → Memory → Memory
put_approval a m = record m { approvals = insert a.approval_id a m.approvals }

unfoldable pub update_approval : PendingApproval → Memory → Result Memory
update_approval a m =
    if has_key a.approval_id m.approvals
    then ok (record m { approvals = insert a.approval_id a m.approvals })
    else err (storage_error "unknown approval")

unfoldable pub list_approvals : Memory → Option String → List PendingApproval
unfolding matches sort_down
list_approvals m status =
    sort_down (λ (a : PendingApproval). a.created_at)
      (keep (λ (a : PendingApproval). matches status (some a.status)) (values m.approvals))

unfoldable pub put_action : ActionRecord → Memory → Result Memory
put_action a m =
    if has_key a.action_id m.actions
    then err (storage_error "action already recorded")
    else ok (record m {
      actions = insert a.action_id a m.actions;
      actions_by_jti =
          insert a.jti (or_nil (lookup a.jti m.actions_by_jti) ++ a.action_id ∷ [])
            m.actions_by_jti;
    })

unfoldable pub close_action : String → CompletionState → ℕ → Option String → Memory → Memory
close_action id state at reason m = elim (lookup id m.actions) [
  | none ↦ m
  | some a ↦ record m {
    actions =
        insert id (record a { finished_at = some at; state = some state; failure_reason = reason })
          m.actions;
  }
]

abbrev pub state_is_clean : Option CompletionState → Bool
unfolding is_clean
state_is_clean none = false
state_is_clean (some s) = is_clean s

-- open (fate unknown) or closed and not clean
unfoldable pub wants_review : ActionRecord → Bool
unfolding is_clean
wants_review a = is_open a || not (state_is_clean a.state)

unfoldable pub actions_named : Dict ActionRecord → List String → List ActionRecord
unfolding wants_review
actions_named d [] = []
actions_named d (id ∷ ids) =
    let rest = actions_named d ids in
    elim (lookup id d) [ none ↦ rest | some a ↦ if wants_review a then a ∷ rest else rest ]

unfoldable pub reviewable : Memory → List String → List ActionRecord
unfolding actions_named
reviewable m [] = []
reviewable m (jti ∷ jtis) =
    actions_named m.actions (or_nil (lookup jti m.actions_by_jti)) ++ reviewable m jtis

unfoldable pub actions_for_review : Memory → List String → List ActionRecord
unfolding reviewable sort_by
actions_for_review m jtis = sort_by (λ (a : ActionRecord). a.started_at) (reviewable m jtis)

unfoldable pub put_review : ActionReview → Memory → Memory
put_review r m = record m { reviews = insert r.review_id r m.reviews }

unfoldable pub update_review : ActionReview → Memory → Result Memory
update_review r m =
    if has_key r.review_id m.reviews
    then ok (record m { reviews = insert r.review_id r m.reviews })
    else err (storage_error "unknown review")

abbrev pub same_flag : Option Bool → Bool → Bool
same_flag none b = true
same_flag (some true) b = b
same_flag (some false) b = not b

unfoldable pub list_reviews : Memory → Option Bool → List ActionReview
unfolding sort_down
list_reviews m reviewed =
    sort_down (λ (r : ActionReview). r.revoked_at)
      (keep (λ (r : ActionReview). same_flag reviewed r.reviewed) (values m.reviews))

unfoldable pub close : Memory → Memory
close m = record m { closed = true }
