-- ===== src/Storage/Walk.antt =====
-- agperms/src/agperms/storage/memory.py: the loop of `descendants_breadth_first`, level by level. The
-- loop of storage/sql.py is the same code with its own `children_of`, so the loop takes that as `next`.
pub mod Rounds
use adf.Prelude.{
  ℕ, zero, suc, String, Bool, true, false, Option, List, [], ◌∷◌, ◌++◌, Dict, values, contains,
  length, if◌then◌else◌,
}
use adf.Storage.{Memory, children_of}

pub record Walk : Type 0 where
  pub seen : List String
  pub order : List String
  pub queue : List String

-- the body of the `for` loop
unfoldable pub offer : Walk → String → Walk
offer w child = if contains w.seen child then w else record {
  seen = w.seen ++ child ∷ [];
  order = w.order ++ child ∷ [];
  queue = w.queue ++ child ∷ [];
}

unfoldable pub offer_all : Walk → List String → Walk
unfolding offer
offer_all w [] = w
offer_all w (c ∷ cs) = offer_all (offer w c) cs

-- One round of the `while` loop: the queue is emptied, and the children of its level are offered.
unfoldable pub expand : (List String → List String) → Walk → Walk
unfolding offer_all
expand next w = offer_all (record w { queue = [] }) (next w.queue)

unfoldable pub loop : (List String → List String) → ℕ → Walk → Walk
unfolding expand
loop next zero w = w
loop next (suc fuel) w = elim w.queue [ [] ↦ w | _ ∷ _ ↦ loop next fuel (expand next w) ]

-- every child of the table, with repetitions
unfoldable pub all_children : Dict (List String) → List String
all_children [] = []
all_children ((p, cs) ∷ d) = cs ++ all_children d

-- the walk before the first round
abbrev pub start : String → Walk
start root = record { seen = root ∷ []; order = root ∷ []; queue = root ∷ [] }

-- A round that is not the last sees a new child, so there are at most as many rounds as children,
-- and one more.
abbrev pub rounds : Dict (List String) → ℕ
rounds edges = suc (length (all_children edges))

unfoldable pub descendants_breadth_first : Memory → String → List String
unfolding loop all_children children_of
descendants_breadth_first m root = (loop (children_of m.edges) (rounds m.edges) (start root)).order
