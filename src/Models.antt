-- ===== src/Models.antt =====
-- agperms/src/agperms/models.py: the data types of the public API. Latencies and `__str__` are left
-- out. Times are microseconds from the epoch.
pub mod Payload
pub mod Severity
use adf.Prelude.{
  ℕ, String, Bool, true, false, not, Option, none, some, List, [], ◌∷◌, map, ◌==◌, is_some, leb,
  ltb, nat_eq, if◌then◌else◌,
}
use adf.Errors.{Result, ok, err, value_error, denied}
use adf.Json.{Json}

pub data CompletionState : Type 0 where
  clean partial unknown : CompletionState

unfoldable pub needs_human_review : CompletionState → Bool
needs_human_review clean = false
needs_human_review _ = true

-- `.value`
unfoldable pub completion_text : CompletionState → String
completion_text clean = "CLEAN"
completion_text partial = "PARTIAL"
completion_text unknown = "UNKNOWN"

unfoldable pub is_clean : CompletionState → Bool
is_clean clean = true
is_clean _ = false

pub data Reversibility : Type 0 where
  idempotent reversible compensable irreversible : Reversibility

unfoldable pub reversibility_text : Reversibility → String
reversibility_text idempotent = "IDEMPOTENT"
reversibility_text reversible = "REVERSIBLE"
reversibility_text compensable = "COMPENSABLE"
reversibility_text irreversible = "IRREVERSIBLE"

unfoldable pub rank : Reversibility → ℕ
rank idempotent = 0
rank reversible = 1
rank compensable = 2
rank irreversible = 3

-- the last element of a stable sort by rank: among the worst, the last one
unfoldable pub worst_of : List Reversibility → Option Reversibility
unfolding rank
worst_of [] = none
worst_of (r ∷ rs) = elim (worst_of rs) [
  | none ↦ some r
  | some w ↦ if ltb (rank w) (rank r) then some r else some w
]

pub record DelegationChainEntry : Type 0 where
  pub agent_id : String
  pub jti : String
  pub scopes : List String
  pub ts : String

pub record TokenClaims : Type 0 where
  pub jti : String
  pub sub : String
  pub iss : String
  pub issued_for : String
  pub scopes : List String
  pub depth : ℕ
  pub max_depth : ℕ
  pub iat : ℕ
  pub exp : ℕ
  pub root_jti : String
  pub delegation_chain : List DelegationChainEntry
  pub approval_required : Bool
  pub approved_by : Option String

unfoldable pub is_root : TokenClaims → Bool
is_root c = nat_eq c.depth 0

abbrev pub ancestor_jtis : TokenClaims → List String
ancestor_jtis c = map (λ (e : DelegationChainEntry). e.jti) c.delegation_chain

pub record Capability : Type 0 where
  pub token : String
  pub claims : TokenClaims

pub record VerifyResult : Type 0 where
  pub valid : Bool
  pub reason : Option String
  pub claims : Option TokenClaims

unfoldable pub remaining_scopes : VerifyResult → List String
remaining_scopes r = elim r.claims [ none ↦ [] | some c ↦ c.scopes ]

abbrev pub or_denied : Option String → String
or_denied none = "denied"
or_denied (some r) = if r == "" then "denied" else r

unfoldable pub raise_for_status : VerifyResult → Result (Unit {0})
raise_for_status r = if r.valid then ok tt else err (denied (or_denied r.reason))

pub record PendingApproval : Type 0 where
  pub approval_id : String
  pub parent_jti : String
  pub parent_subject_id : String
  pub child_agent_id : String
  pub child_subject_id : String
  pub requested_scopes : List String
  pub sensitive_scopes : List String
  pub ttl_seconds : ℕ
  pub parent_exp : ℕ
  pub status : String
  pub created_at : ℕ
  pub expires_at : ℕ
  pub decided_at : Option ℕ
  pub approved_by : Option String
  pub child_jti : Option String
  pub child_token : Option String
  pub collected : Bool

abbrev pub is_pending : PendingApproval → Bool
is_pending a = a.status == "pending"

pub record ActionRecord : Type 0 where
  pub action_id : String
  pub jti : String
  pub subject_id : String
  pub name : String
  pub scope : String
  pub started_at : ℕ
  pub finished_at : Option ℕ
  pub state : Option CompletionState
  pub failure_reason : Option String
  pub reversibility : Reversibility

abbrev pub is_open : ActionRecord → Bool
is_open a = not (is_some a.finished_at)

pub record ActionReview : Type 0 where
  pub review_id : String
  pub jti : String
  pub action_id : String
  pub action_name : String
  pub classification : CompletionState
  pub revoked_at : ℕ
  pub revocation_root_jti : String
  pub reviewed : Bool
  pub reviewed_by : Option String
  pub reviewed_at : Option ℕ

-- `__post_init__`
unfoldable pub check_review : ActionReview → Result ActionReview
unfolding is_clean
check_review r =
    if is_clean r.classification
    then err (value_error "CLEAN actions do not need review; only PARTIAL/UNKNOWN are queued")
    else ok r

pub record RevocationResult : Type 0 where
  pub revoked_jtis : List String
  pub reviews : List ActionReview

pub record ChainHop : Type 0 where
  pub jti : String
  pub subject_id : String
  pub display_label : Option String
  pub scopes : List String
  pub depth : ℕ
  pub issued_at : ℕ
  pub expires_at : ℕ
  pub revoked : Bool
  pub expired : Bool

pub record IntegrityReport : Type 0 where
  pub intact : Bool
  pub rows_checked : ℕ
  pub first_broken_row_id : Option ℕ

pub record TokenMetadata : Type 0 where
  pub jti : String
  pub subject_id : String
  pub parent_jti : Option String
  pub root_jti : String
  pub depth : ℕ
  pub max_depth : ℕ
  pub scopes : List String
  pub delegation_chain : List Json
  pub issued_at : ℕ
  pub expires_at : ℕ
  pub approval_required : Bool
  pub approved_by : Option String

pub record Subject : Type 0 where
  pub subject_id : String
  pub identifier_hash : String
  pub kind : String
  pub display_label : String
