-- ===== src/Sql/Refines.antt =====
-- storage/sql.py against storage/memory.py: when a database stands for the memory storage's state, and
-- the calls on tokens, edges and approvals.
use adf.Prelude.{
  String, Bool, true, false, ◌≡◌, refl, sym, ap, ◌∙◌, Option, none, some, List, contains, Dict,
  lookup, if◌then◌else◌,
}
use adf.Errors.{Error, Result, ok, err, storage_error}
use mathlib.Core.Path.{subst₂}
use adf.Exec.{Exec, continue, ◌>>=◌}
use adf.Audit.Rows.{Row}
use adf.Models.{TokenMetadata, PendingApproval, ActionRecord, ActionReview}
use adf.Storage.{Memory, Revocation, children}
use adf.Sql.Table.{IsKeyed, IsPaired, IsLog, linked, unnumbered}
use adf.Sql.Records.{action_row, review_row}
use adf.Sql.Store.{Engine, Database, open_session, committed}

-- what the storage relies on of the tables' keys
pub record Keys (e : Engine) : Type 0 where
  pub tokens : IsKeyed e.tokens (λ r. r.jti)
  pub edges : IsPaired e.edges
  pub revocations : IsKeyed e.revocations (λ r. r.jti)
  pub audit : IsLog e.audit
  pub approvals : IsKeyed e.approvals (λ r. r.approval_id)
  pub actions : IsKeyed e.actions (λ r. r.action_id)
  pub reviews : IsKeyed e.reviews (λ r. r.review_id)

abbrev pub row_of {ℓ} : {A B : Type ℓ} → (A → B) → Option A → Option B
row_of f none = none
row_of f (some a) = some (f a)

-- the open, reachable database answers every question of the open memory storage alike
pub record Refines (e : Engine) (db : Database e) (m : Memory) : Type 0 where
  pub db_open : db.closed ≡ false
  pub memory_open : m.closed ≡ false
  pub reachable : db.reachable ≡ true
  pub tokens : (k : String) → e.tokens.get k db.tokens ≡ lookup k m.tokens
  pub edges :
      (p c : String) → linked (e.edges.select db.edges) p c ≡ contains (children m.edges p) c
  pub revoked : (k : String) → e.revocations.get k db.revocations ≡ lookup k m.revoked
  pub audit : unnumbered (e.audit.select db.audit) ≡ unnumbered m.audit
  pub approvals : (k : String) → e.approvals.get k db.approvals ≡ lookup k m.approvals
  pub actions : (k : String) → e.actions.get k db.actions ≡ row_of action_row (lookup k m.actions)
  pub reviews : (k : String) → e.reviews.get k db.reviews ≡ row_of review_row (lookup k m.reviews)

-- one step of each: the same answer or the same exception, and states that go on refining
abbrev pub Agrees : (e : Engine) {A : Type 0} → Result A × Database e → Result A × Memory → Type 0
Agrees e sql mem = (sql.0 ≡ mem.0) × Refines e sql.1 mem.1

-- a memory call that may fail, and then changes nothing
abbrev pub settled : Memory → Result Memory → Result (Unit {0}) × Memory
settled m (ok m') = (ok tt, m')
settled m (err exc) = (err exc, m)

abbrev pub attempt : (Memory → Result Memory) → Exec Memory (Unit {0})
attempt f m = settled m (f m)

pub agree :
    {e : Engine} {A : Type 0} {x x' : Result A × Database e} {y y' : Result A × Memory}
    → x ≡ x'
    → y ≡ y'
    → Agrees e x' y'
    → Agrees e x y
agree {e} {A} {x} {x'} {y} {y'} p q h = subst₂ (Agrees e) (sym p) (sym q) h

opened_at :
    {e : Engine} {A : Type 0} (b : Bool) (next : Unit {0} → Exec (Database e) A) (db : Database e)
    → b ≡ false
    → continue (if b then err (storage_error "storage is closed") else ok tt) next db ≡ next tt db
opened_at false next db h = refl
opened_at true next db h = cc

-- An open storage gives a session.
pub opened :
    {e : Engine} {A : Type 0} (next : Unit {0} → Exec (Database e) A) (db : Database e)
    → db.closed ≡ false
    → (open_session e >>= next) db ≡ next tt db
unfolding open_session ◌>>=◌
opened next db h = opened_at db.closed next db h

-- A call that commits, behind a session: the commit decides.
pub saves :
    {e : Engine} {S : Type 0} (call : Exec (Database e) (Unit {0})) (exc : Error)
    (put : S → Database e) {o o' : Option S} (db : Database e)
    → db.closed ≡ false
    → o ≡ o'
    → call db ≡ committed e exc put o db
    → (open_session e >>= λ _. call) db ≡ committed e exc put o' db
saves {e} call exc put db h p q = opened (λ _. call) db h ∙ q ∙ ap (λ x. committed e exc put x db) p

-- One table replaced on both sides.
module _ {e : Engine} {db : Database e} {m : Memory} (r : Refines e db m) where
  pub with_tokens :
      (t : e.tokens.State) (d : Dict TokenMetadata)
      → ((k : String) → e.tokens.get k t ≡ lookup k d)
      → Refines e (record db { tokens = t }) (record m { tokens = d })
  with_tokens t d same = record {
    db_open = r.db_open;
    memory_open = r.memory_open;
    reachable = r.reachable;
    tokens = same;
    edges = r.edges;
    revoked = r.revoked;
    audit = r.audit;
    approvals = r.approvals;
    actions = r.actions;
    reviews = r.reviews;
  }

  pub with_edges :
      (t : e.edges.State) (d : Dict (List String))
      → ((p c : String) → linked (e.edges.select t) p c ≡ contains (children d p) c)
      → Refines e (record db { edges = t }) (record m { edges = d })
  with_edges t d same = record {
    db_open = r.db_open;
    memory_open = r.memory_open;
    reachable = r.reachable;
    tokens = r.tokens;
    edges = same;
    revoked = r.revoked;
    audit = r.audit;
    approvals = r.approvals;
    actions = r.actions;
    reviews = r.reviews;
  }

  pub with_revoked :
      (t : e.revocations.State) (d : Dict Revocation)
      → ((k : String) → e.revocations.get k t ≡ lookup k d)
      → Refines e (record db { revocations = t }) (record m { revoked = d })
  with_revoked t d same = record {
    db_open = r.db_open;
    memory_open = r.memory_open;
    reachable = r.reachable;
    tokens = r.tokens;
    edges = r.edges;
    revoked = same;
    audit = r.audit;
    approvals = r.approvals;
    actions = r.actions;
    reviews = r.reviews;
  }

  pub with_audit :
      (t : e.audit.State) (d : List Row)
      → (unnumbered (e.audit.select t) ≡ unnumbered d)
      → Refines e (record db { audit = t }) (record m { audit = d })
  with_audit t d same = record {
    db_open = r.db_open;
    memory_open = r.memory_open;
    reachable = r.reachable;
    tokens = r.tokens;
    edges = r.edges;
    revoked = r.revoked;
    audit = same;
    approvals = r.approvals;
    actions = r.actions;
    reviews = r.reviews;
  }

  pub with_approvals :
      (t : e.approvals.State) (d : Dict PendingApproval)
      → ((k : String) → e.approvals.get k t ≡ lookup k d)
      → Refines e (record db { approvals = t }) (record m { approvals = d })
  with_approvals t d same = record {
    db_open = r.db_open;
    memory_open = r.memory_open;
    reachable = r.reachable;
    tokens = r.tokens;
    edges = r.edges;
    revoked = r.revoked;
    audit = r.audit;
    approvals = same;
    actions = r.actions;
    reviews = r.reviews;
  }

  pub with_actions :
      (t : e.actions.State) (d : Dict ActionRecord) (by_jti : Dict (List String))
      → ((k : String) → e.actions.get k t ≡ row_of action_row (lookup k d))
      → Refines e (record db { actions = t }) (record m { actions = d; actions_by_jti = by_jti })
  with_actions t d by_jti same = record {
    db_open = r.db_open;
    memory_open = r.memory_open;
    reachable = r.reachable;
    tokens = r.tokens;
    edges = r.edges;
    revoked = r.revoked;
    audit = r.audit;
    approvals = r.approvals;
    actions = same;
    reviews = r.reviews;
  }

  pub with_reviews :
      (t : e.reviews.State) (d : Dict ActionReview)
      → ((k : String) → e.reviews.get k t ≡ row_of review_row (lookup k d))
      → Refines e (record db { reviews = t }) (record m { reviews = d })
  with_reviews t d same = record {
    db_open = r.db_open;
    memory_open = r.memory_open;
    reachable = r.reachable;
    tokens = r.tokens;
    edges = r.edges;
    revoked = r.revoked;
    audit = r.audit;
    approvals = r.approvals;
    actions = r.actions;
    reviews = same;
  }
