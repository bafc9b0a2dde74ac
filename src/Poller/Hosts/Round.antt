-- ===== src/Poller/Hosts/Round.antt =====
-- `BbonePoller.process_hosts` of resmgr/resmgr/resmgr_provider_pf9.py: one round.
use pf9_du.Prelude.{
  String, Bool, not, List, [], ◌∷◌, ◌++◌, any, map, select, ◌==◌, Option, none, some, if◌then◌else◌,
}
use pf9_du.Prelude.Assoc.{Assoc}
use pf9_du.Result.{Result, ok, err, bbmaster_not_found}
use pf9_du.Exec.{Exec, pure, lift, gets, ◌>>=◌, ◌>>◌}
use pf9_du.RolesMgr.{World}
use pf9_du.RolesMgr.Details.{Render}
use pf9_du.Poller.Hosts.{Backbone, Poll, ask}
use pf9_du.Poller.Hosts.Authorized.{authorized_hosts}
use pf9_du.Poller.Hosts.New.{process_new_hosts, cleanup_unauthorized_hosts}
use pf9_du.Poller.Hosts.Absent.{process_absent_hosts}
use pf9_du.Poller.Hosts.Existing.{process_existing_hosts}

-- Sets of ids as lists, in the order in which they are found.
abbrev pub is_in : String → List String → Bool
is_in id ids = any (λ j. j == id) ids

unfoldable pub add_ids : List String → List String → List String
add_ids [] ids = []
add_ids (id ∷ rest) ids =
    let more = add_ids rest (id ∷ ids) in
    let same = add_ids rest ids in if is_in id ids then same else id ∷ more

-- `set(ids)`
unfoldable pub set_of : List String → List String
unfolding add_ids
set_of ids = add_ids ids []

-- `a - b` and `a & b`
abbrev pub minus : List String → List String → List String
minus a b = select (λ id. not (is_in id b)) a

abbrev pub both : List String → List String → List String
both a b = select (λ id. is_in id b) a

abbrev pub keys_of : {A : Type 0} → Assoc A → List String
keys_of d = map (λ e. e.0) d

module _ (w : World) (b : Backbone) (render : Render) where
  -- The part in the `else` of the `try`; metrics are left out.
  unfoldable pub process_known : List String → Exec Poll (Unit {0})
  unfolding set_of
  process_known listed = do
    let bbone_ids = set_of listed
    db ← gets (λ s. s.sys.db)
    authorized ← lift (authorized_hosts render db)
    unauthorized ← gets (λ s. keys_of s.unauthorized)
    let all_ids = set_of (keys_of authorized ++ unauthorized)
    process_new_hosts w b (minus bbone_ids all_ids)
    process_absent_hosts w (minus all_ids bbone_ids) authorized
    process_existing_hosts w b (both all_ids bbone_ids) authorized
    cleanup_unauthorized_hosts w b

  abbrev pub known_or_skip : Result (List String) → Result (Option (List String))
  known_or_skip (ok ids) = ok (some ids)
  known_or_skip (err bbmaster_not_found) = ok none
  known_or_skip (err e) = err e

  abbrev pub process_found : Option (List String) → Exec Poll (Unit {0})
  process_found none = pure tt
  process_found (some ids) = process_known ids

  unfoldable pub process_hosts : Exec Poll (Unit {0})
  unfolding ask process_known
  process_hosts = do found ← ask (λ n. known_or_skip (b.host_ids n)); process_found found
