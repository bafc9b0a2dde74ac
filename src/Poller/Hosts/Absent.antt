-- ===== src/Poller/Hosts/Absent.antt =====
-- `_process_absent_hosts` of resmgr/resmgr/resmgr_provider_pf9.py.
use pf9_du.Prelude.{String, Bool, false, Option, none, some, List, if◌then◌else◌}
use pf9_du.Prelude.Assoc.{Assoc, get}
use pf9_du.Json.{Json}
use pf9_du.Result.{Result, ok, err, key_error, other_error}
use pf9_du.Exec.{Exec, pure, raise, gets, for_each, ◌>>=◌, ◌>>◌}
use pf9_du.Db.Hosts.{mark_host_state}
use pf9_du.RolesMgr.{World, Sys, on_db}
use pf9_du.Poller.{Outcome, advance_from_transient_state}
use pf9_du.Poller.Hosts.{Poll, ask, on_sys, publish}
use pf9_du.Poller.Hosts.Authorized.{Authorized}

-- The loop over the roles of a host always ends in three rounds for each role, so the first case does
-- not come up.
abbrev pub of_outcome : Outcome → Sys → Result (Unit {0}) × Sys
of_outcome none s = (err other_error, s)
of_outcome (some r) s = r

module _ (w : World) where
  -- `_advance_from_transient_state`; nothing is done for a host without details.
  unfoldable pub advance_host : String → Option Authorized → Exec Poll (Unit {0})
  unfolding on_sys
  advance_host host none = pure tt
  advance_host host (some a) =
      on_sys
        λ s. of_outcome (advance_from_transient_state w host a.details 3 a.details.role_details s) s

  unfoldable pub mark_responding : String → Bool → Exec Poll (Unit {0})
  unfolding ask on_sys on_db publish
  mark_responding host responding = do
    now ← ask (λ n. ok (w.now n))
    on_sys (on_db (mark_host_state now host responding))
    publish "change" host

  abbrev pub mark_absent : String → Option Authorized → Exec Poll (Unit {0})
  mark_absent host none = pure tt
  mark_absent host (some a) = if a.row.responding then mark_responding host false else pure tt

  -- The branch of an unauthorized host reads its tables at `id`, which is the function of Python: it
  -- is no key of them.
  abbrev pub absent_host : String → Option Authorized → Option Json → Exec Poll (Unit {0})
  absent_host host a (some info) = raise key_error
  absent_host host a none = do advance_host host a; mark_absent host a

  -- The body of the loop.
  unfoldable pub process_absent_host : Assoc Authorized → String → Exec Poll (Unit {0})
  unfolding advance_host mark_responding
  process_absent_host authorized_hosts host = do
    unauthorized ← gets (λ s. get host s.unauthorized)
    absent_host host (get host authorized_hosts) unauthorized

  unfoldable pub process_absent_hosts : List String → Assoc Authorized → Exec Poll (Unit {0})
  unfolding process_absent_host
  process_absent_hosts host_ids authorized_hosts =
      for_each host_ids (process_absent_host authorized_hosts)
