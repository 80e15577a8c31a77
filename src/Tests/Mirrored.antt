-- ===== src/Tests/Mirrored.antt =====
-- The theorems on the revocation store of the service, at lists and a Redis that answers every call.
use adf.Prelude.{
  String, Bool, true, false, ◌≡◌, refl, sym, ap, ◌∙◌, none, some, List, [], ◌∷◌, ◌++◌, contains,
  contains-append,
}
use adf.Errors.{ok}
use adf.Service.Redis.{Redis, IsRedis}
use adf.Service.Revocation.{Backend, Store, degrade, revoke_subtree, in_table, is_revoked}
use adf.Service.Revocation.Subtree.{itself, child}
use adf.Service.Revocation.Mirror.{Mirrors}
use adf.Service.Revocation.Events.{asking, linking, starting, happen, is_revoked-always}
use adf.Service.Revocation.Races.{IsUp, rebuilt_from, once_committed, overtaken, unreached}
use adf.Tests.{program}
use adf.Tests.Tables.{keyed, keyed-IsKeyed, edge_table}

-- the sentinel and the set
pub record Server : Type 0 where
  pub ready : Bool
  pub set : List String

abbrev pub the_server : List String → Server
the_server js = record { ready = true; set = js }

abbrev pub server : Redis
server = record {
  State = Server;
  get_ready = λ c. some c.ready;
  sismember = λ j c. some (contains c.set j);
  sadd = λ js c. some (record c { set = c.set ++ js });
  sadd_edge = λ p k c. some c;
  refill = λ js es c. some (the_server js);
  hit = λ key now window c. some (1, c);
}

pub server-IsRedis : IsRedis server
server-IsRedis = record {
  ready = λ c. c.ready;
  holds = λ c j. contains c.set j;
  tells_ready = λ c b h. cc;
  tells_member = λ j c b h. cc;
  adds = λ js c d h.
      let same : record c { set = c.set ++ js } ≡ d = cc in
      (
        ap (λ (x : Server). x.ready) (sym same),
        λ j. ap (λ (x : Server). contains x.set j) (sym same) ∙ contains-append c.set js j,
      );
  adds_edge = λ p k c d h.
      let same : c ≡ d = cc in
      (
        ap (λ (x : Server). x.ready) (sym same),
        λ j. ap (λ (x : Server). contains x.set j) (sym same),
      );
  refills = λ js es c d h.
      let same : the_server js ≡ d = cc in
      (
        ap (λ (x : Server). x.ready) (sym same),
        λ j. ap (λ (x : Server). contains x.set j) (sym same),
      );
  hits = λ key now window n c d h.
      let same : c ≡ d = cc in
      (
        ap (λ (x : Server). x.ready) (sym same),
        λ j. ap (λ (x : Server). contains x.set j) (sym same),
      );
}

server-IsUp : IsUp server server-IsRedis
unfolding server-IsRedis
server-IsUp = record {
  answers_ready = λ c. refl;
  answers_member = λ j c. refl;
  takes = λ js c. (record c { set = c.set ++ js }, refl);
  takes_all = λ js es c. (the_server js, refl);
}

abbrev pub backend : Backend
backend = record { revocations = keyed (λ r. r.jti); edges = edge_table; redis = server }

-- the root and its child, nothing revoked, an empty set with the sentinel
abbrev pub running : Store backend
running = record {
  revocations = [];
  edges = record { parent_jti = "root"; child_jti = "child" } ∷ [];
  client = some (the_server []);
  available = true;
}

pub running-Mirrors : Mirrors backend (keyed-IsKeyed (λ r. r.jti)) server-IsRedis running
unfolding server-IsRedis
running-Mirrors c e ready j =
    let same : the_server [] ≡ c = cc in ap (λ (x : Server). contains x.set j) (sym same)

abbrev later : Store backend
later =
    happen backend (keyed-IsKeyed (λ r. r.jti)) server-IsRedis
      (asking "other"
        ∷ linking "child" "leaf"
        ∷ starting none
        ∷ starting (some (the_server []))
        ∷ [])
      (revoke_subtree backend "root" none 5 running).1

is_revoked-always_example :
    ((is_revoked backend true "child" later).0 ≡ ok true)
    × ((k : String) → (is_revoked backend true k later).0 ≡ ok (in_table backend later k))
unfolding program
is_revoked-always_example =
    is_revoked-always backend (keyed-IsKeyed (λ r. r.jti)) server-IsRedis "root" none 5
      (asking "other"
        ∷ linking "child" "leaf"
        ∷ starting none
        ∷ starting (some (the_server []))
        ∷ [])
      running "child" running-Mirrors (child itself refl)

overtaken_example :
    (in_table backend
        (once_committed
          (revoke_subtree backend "root" none 5 running).1
          (rebuilt_from [] (revoke_subtree backend "root" none 5 running).1))
        "root"
      ≡ true)
    × ((is_revoked backend true "root" (
          once_committed
            (revoke_subtree backend "root" none 5 running).1
            (rebuilt_from [] (revoke_subtree backend "root" none 5 running).1))).0
        ≡ ok false)
overtaken_example =
    overtaken backend (keyed-IsKeyed (λ r. r.jti)) server-IsRedis server-IsUp "root" none 5 running
      running-Mirrors refl refl refl

unreached_example :
    (in_table backend
        (record (revoke_subtree backend "root" none 5 (degrade backend running)).1 {
          available = true;
        })
        "root"
      ≡ true)
    × ((is_revoked backend true "root"
          (record (revoke_subtree backend "root" none 5 (degrade backend running)).1 {
            available = true;
          })).0
        ≡ ok false)
unfolding server-IsRedis
unreached_example =
    unreached backend (keyed-IsKeyed (λ r. r.jti)) server-IsRedis server-IsUp "root" none 5 running
      (the_server []) running-Mirrors refl refl refl
