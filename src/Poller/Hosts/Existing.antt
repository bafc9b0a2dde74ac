-- ===== src/Poller/Hosts/Existing.antt =====
-- `_process_existing_hosts` of resmgr/resmgr/resmgr_provider_pf9.py, with
-- `RolesMgr.received_since_last_push`.
use pf9_du.Prelude.{
  ℕ, String, Bool, true, false, not, ◌&&◌, ◌||◌, Option, none, some, List, [], ltb, if◌then◌else◌,
}
use pf9_du.Prelude.Assoc.{Assoc, get, put}
use pf9_du.Json.{Json, Fields, null, str, dict, end, lookup, set_item, json_eq, truthy}
use pf9_du.Result.{
  Error, Result, ok, err, key_error, type_error, value_error, bbmaster_not_found,
  host_config_failed, some_or,
}
use pf9_du.Exec.{Exec, pure, raise, lift, gets, modify, for_each, try_except, ◌>>=◌, ◌>>◌}
use pf9_du.Config.{is_satisfied_by}
use pf9_du.RoleSettings.{index, update_custom_role_settings}
use pf9_du.Db.{Role, query_roles_for_host}
use pf9_du.RolesMgr.{World, Sys, push_configuration}
use pf9_du.Poller.{finish_role_converge, fail_role_converge}
use pf9_du.Poller.Hosts.{
  Backbone, Poll, on_sys, publish, add_timedrift_message, remove_timedrift_message,
  responding_within_threshold, time_at, keep_data, get_backbone_host, or_default,
}
use pf9_du.Poller.Hosts.Authorized.{Authorized}
use pf9_du.Poller.Hosts.Absent.{advance_host, mark_responding}
use pf9_du.Poller.Hosts.Reported.{update_role_status, update_info, hostname_of}

abbrev in_progress : Json → Bool
in_progress status = json_eq status (str "converging") || json_eq status (str "retrying")

module _ (w : World) (b : Backbone) where
  -- A time that cannot be read counts as received.
  abbrev later_than : Result ℕ → Option ℕ → Result Bool
  later_than (err value_error) pushed = ok true
  later_than (err e) pushed = err e
  later_than (ok time) none = ok true
  later_than (ok time) (some pushed) = ok (ltb pushed time)

  -- `received_since_last_push`
  unfoldable pub received_since_last_push : String → Fields → Sys → Result Bool
  received_since_last_push host host_info s =
      let v = or_default null (lookup "timestamp_on_du" host_info) in
      let later = later_than (b.parse_time v) (get host s.last_config_push_time) in
      if truthy v then later else ok true

  abbrev expected_config : Authorized → Option (List Role) → Result Fields
  expected_config a none = ok a.details.apps_config
  expected_config a (some []) = ok a.details.apps_config
  expected_config a (some roles) =
      update_custom_role_settings a.details.apps_config a.details.role_settings roles

  -- Whether the host, which is ok, has what is expected of it.
  abbrev has_converged : Bool → Fields → Fields → Result Bool
  has_converged false expected host_info = ok false
  has_converged true expected host_info = elim (index (dict host_info) "apps") [
    | err e ↦ err e
    | ok apps ↦ is_satisfied_by (some (dict expected)) apps
  ]

  abbrev push_if : Bool → String → Fields → Exec Poll (Unit {0})
  push_if true host expected = pure tt
  push_if false host expected = on_sys (push_configuration w host expected)

  abbrev finish_or_push : Bool → String → Authorized → Fields → Json → Exec Poll (Unit {0})
  finish_or_push true host a expected host_config = on_sys (finish_role_converge w host a.details)
  finish_or_push false host a expected host_config = do
    satisfied ← lift (is_satisfied_by (some (dict expected)) host_config)
    push_if satisfied host expected

  -- The settings that the source writes into the configuration of `a` are written again by
  -- `get_current_app_config`, from which finishing reads.
  unfoldable pub check_config : String → Authorized → Fields → Json → Bool → Exec Poll (Unit {0})
  unfolding on_sys
  check_config host a host_info status received = do
    let is_ok = json_eq status (str "ok")
    let host_config =
        or_default (dict end) (lookup (if is_ok then "apps" else "desired_apps") host_info)
    roles ← gets (λ s. query_roles_for_host host s.sys.db)
    expected ← lift (expected_config a roles)
    converged ← lift (has_converged (received && is_ok) expected host_info)
    finish_or_push converged host a expected host_config

  abbrev converge_host :
      Bool → Bool → String → Authorized → Fields → Json → Bool → Exec Poll (Unit {0})
  converge_host true heard host a host_info status received = on_sys (fail_role_converge w host)
  converge_host false false host a host_info status received =
      on_sys (finish_role_converge w host a.details)
  converge_host false true host a host_info status received =
      check_config host a host_info status received

  abbrev is_failed_status : Json → Bool
  is_failed_status status =
      not (json_eq status (str "ok") || (in_progress status || json_eq status (str "missing")))

  -- The body of the `try`.
  unfoldable pub update_authorized :
      String → Authorized → Fields → Json → Bool → Exec Poll (Unit {0})
  unfolding on_sys check_config
  update_authorized host a host_info status heard = do
    sys ← gets (λ s. s.sys)
    received ← lift (received_since_last_push host host_info sys)
    converge_host (received && is_failed_status status) heard host a host_info status received
    update_role_status host host_info
    update_info host a (lookup "info" host_info)

  abbrev log_failure : Error → Exec Poll (Unit {0})
  log_failure bbmaster_not_found = pure tt
  log_failure host_config_failed = pure tt
  log_failure e = raise e

  abbrev mark_if : Bool → String → Bool → Exec Poll (Unit {0})
  mark_if true host heard = pure tt
  mark_if false host heard = mark_responding w host heard

  abbrev same : Bool → Bool → Bool
  same true c = c
  same false c = not c

  abbrev authorized_host : String → Authorized → Fields → Json → Bool → Exec Poll (Unit {0})
  authorized_host host a host_info status heard = do
    mark_if (same a.row.responding heard) host heard
    try_except (update_authorized host a host_info status heard) log_failure

  -- `_unauthorized_hosts[host]['info']['hostname'] = hostname`, where it is another one.
  abbrev rename_host : String → Json → Json → Exec Poll (Unit {0})
  rename_host host hostname (dict info) = do
    old ← lift (index (dict info) "hostname")
    if json_eq old hostname then pure tt else (do
      modify (λ s. record s {
        unauthorized = put host (dict (set_item "hostname" hostname info)) s.unauthorized;
      })
      publish "change" host)
  rename_host host hostname info = raise type_error

  unfoldable pub update_unauthorized : String → ℕ → ℕ → Json → Exec Poll (Unit {0})
  unfolding publish
  update_unauthorized host status_time status_time_on_du hostname = do
    modify (λ s. record s {
      status_time = put host status_time s.status_time;
      status_time_on_du = put host status_time_on_du s.status_time_on_du;
    })
    unauthorized ← gets (λ s. get host s.unauthorized)
    if truthy hostname
        then (do info ← lift (some_or key_error unauthorized); rename_host host hostname info)
        else pure tt

  -- Whether the host counts as responding, and the message about its clock.
  abbrev heard_on_du : String → Bool → ℕ → ℕ → Exec Poll Bool
  heard_on_du host true time threshold = do remove_timedrift_message host; pure true
  heard_on_du host false time threshold = do
    on_du ← responding_within_threshold w b time threshold
    (if on_du then add_timedrift_message host else pure tt)
    pure on_du

  abbrev existing_host_seen : Option Authorized → String → Fields → Exec Poll (Unit {0})
  existing_host_seen authorized host host_info = do
    status_time ← lift (time_at w b "timestamp" host_info)
    status_time_on_du ← lift (time_at w b "timestamp_on_du" host_info)
    hostname ← lift (hostname_of host_info)
    keep_data host null host_info
    status ← lift (index (dict host_info) "status")
    let threshold =
        (if in_progress status
          then b.converging_non_responsive_host_timeout
          else b.default_non_responsive_host_timeout)
    responding ← responding_within_threshold w b status_time threshold
    heard ← heard_on_du host responding status_time_on_du threshold
    elim authorized [
      | some a ↦ authorized_host host a host_info status heard
      | none ↦ update_unauthorized host status_time status_time_on_du hostname
    ]

  abbrev existing_host_found : Option Authorized → String → Option Fields → Exec Poll (Unit {0})
  existing_host_found authorized host none = pure tt
  existing_host_found authorized host (some host_info) =
      existing_host_seen authorized host host_info

  -- The body of the loop.
  unfoldable pub process_existing_host : Assoc Authorized → String → Exec Poll (Unit {0})
  unfolding update_authorized update_unauthorized get_backbone_host
  process_existing_host authorized_hosts host = do
    advance_host w host (get host authorized_hosts)
    found ← get_backbone_host b host
    existing_host_found (get host authorized_hosts) host found

  unfoldable pub process_existing_hosts : List String → Assoc Authorized → Exec Poll (Unit {0})
  unfolding process_existing_host
  process_existing_hosts host_ids authorized_hosts =
      for_each host_ids (process_existing_host authorized_hosts)
