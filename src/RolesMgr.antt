-- ===== src/RolesMgr.antt =====
-- `RolesMgr` of resmgr/resmgr/resmgr_provider_pf9.py: the moves of the role state machine, with the
-- auth events and the configuration pushes that they run.
pub mod Moves
pub mod Details
pub mod Versions
pub mod Creation
use text.Mathlib.Text.{starts_with}
use pf9_du.Prelude.{
  ℕ, ◌+◌, String, Bool, true, false, not, ◌||◌, Option, none, some, List, [], ◌∷◌, ◌++◌, map, ◌==◌,
  any, select, if◌then◌else◌,
}
use pf9_du.Json.{Json, Fields, str, dict, end, field, lookup, has_key, remove, keys, truthy}
use pf9_du.Result.{
  Result, ok, err, attribute_error, other_error, du_config_error, bbmaster_not_found,
  host_config_failed, type_error, key_error,
}
use pf9_du.Exec.{Exec, pure, raise, lift, gets, ◌>>=◌, ◌>>◌}
use pf9_du.Db.{Db, Role, Host, RabbitCredential, query_role, query_role_with_version}
use pf9_du.DictSubst.{substitute}
use pf9_du.RoleSettings.{index, update_custom_role_settings}

pub data EventMethod : Type 0 where
  on_auth on_deauth on_auth_converged on_deauth_converged : EventMethod

-- What leaves the process, in order.
pub data Effect : Type 0 where
  event : EventMethod → Json → Effect
  push : String → Fields → Effect
  delete_user : String → Effect
  notify : String → String → Effect
  support_bundle : String → Effect

-- What the program does not decide: each answer may depend on how many calls went before. `put`
-- and `post_bundle` answer `none` for a failed request and otherwise whether the status was OK; `event_succeeds`
-- says whether loading the events module and calling its method raises nothing.
pub record World : Type 0 where
  pub is_file : String → Bool
  pub event_succeeds : EventMethod → Json → ℕ → Bool
  pub put : String → Fields → ℕ → Option Bool
  pub now : ℕ → ℕ
  pub post_bundle : String → ℕ → Option Bool

pub record Sys : Type 0 where
  pub db : Db
  pub calls : ℕ
  pub trace : List Effect
  pub last_config_push_time : List (String × ℕ)

-- The part of `query_host_and_app_details` for one host that the moves read.
pub record HostDetails : Type 0 where
  pub hostname : String
  pub apps_config : Fields
  pub apps_config_including_deauthed_roles : Fields
  pub role_settings : Fields
  pub role_details : List Role

unfoldable pub on_db {ℓ} : {A : Type ℓ} → (Db → Result A × Db) → Sys → Result A × Sys
on_db m s = let (r, db) = m s.db in (r, record s { db = db })

unfoldable pub record_effect : Effect → Exec Sys (Unit {0})
record_effect e s = (ok tt, record s { calls = s.calls + 1; trace = s.trace ++ e ∷ [] })

strip_du_config : Json → Json
strip_du_config (dict f) = dict (remove "du_config" f)
strip_du_config v = v

unfoldable pub filter_host_configuration : Fields → Fields
unfolding strip_du_config
filter_host_configuration end = end
filter_host_configuration (field k v f) = field k (strip_du_config v) (filter_host_configuration f)

unfoldable pub get_current_app_config : HostDetails → Bool → Result Fields
get_current_app_config host_details include_deauthed_roles =
    update_custom_role_settings
      (if include_deauthed_roles
        then host_details.apps_config_including_deauthed_roles
        else host_details.apps_config)
      host_details.role_settings host_details.role_details

-- `event_spec` of one app, or nothing to run.
unfoldable pub event_spec_of : String → List String → Json → Option Json
event_spec_of app_name role_apps (dict details) =
    if any (λ a. a == app_name) role_apps
    then elim (lookup "du_config" details) [ some (dict du) ↦ lookup "auth_events" du | _ ↦ none ]
    else none
event_spec_of app_name role_apps _ = none

-- `app_config.get(app_name, {}).get('config', {})`
host_config_of : Json → Json
host_config_of (dict details) = elim (lookup "config" details) [ none ↦ dict end | some c ↦ c ]
host_config_of _ = dict end

is_python : Fields → Bool
is_python spec = elim (lookup "type" spec) [ some (str t) ↦ t == "python" | _ ↦ false ]

module _ (w : World) where
  -- A module path that is a URL goes to `_fetch_event_module`, whose first line asks the function
  -- `urlparse` for an attribute that it does not have.
  unfoldable pub run_module : EventMethod → Fields → Option Json → Exec Sys (Unit {0})
  unfolding record_effect
  run_module method spec (some (str path)) s =
      if path == ""
      then (ok tt, s)
      else if starts_with path "http://" || starts_with path "https://"
      then (err attribute_error, s)
      else if not (w.is_file path)
      then (ok tt, s)
      else (
        if w.event_succeeds method (dict spec) s.calls then ok tt else err du_config_error,
        (record_effect (event method (dict spec)) s).1,
      )
  run_module method spec (some v) s = (if truthy v then err attribute_error else ok tt, s)
  run_module method spec none s = (ok tt, s)

  unfoldable pub run_python_event : EventMethod → Fields → Exec Sys (Unit {0})
  unfolding run_module
  run_python_event method spec = run_module method spec (lookup "module_path" spec)

  run_spec : EventMethod → Json → Json → Exec Sys (Unit {0})
  unfolding run_python_event is_python host_config_of
  run_spec method details (dict spec) =
      let spec' = substitute (field "__HOST_CONFIG__" (host_config_of details) end) spec in
      if is_python spec' then run_python_event method spec' else pure tt
  run_spec method details _ = raise attribute_error

  run_found : EventMethod → Json → Option Json → Exec Sys (Unit {0})
  unfolding run_spec
  run_found method details none = pure tt
  run_found method details (some spec) = run_spec method details spec

  -- The loop over the apps of the configuration.
  unfoldable pub run_app_events : EventMethod → List String → Fields → Exec Sys (Unit {0})
  unfolding run_found
  run_app_events method role_apps end = pure tt
  run_app_events method role_apps (field app_name details rest) = do
    run_found method details (event_spec_of app_name role_apps details)
    run_app_events method role_apps rest

  -- The version of the role's first app, by which the role's own row is found.
  unfoldable pub role_apps_of : String → Fields → Db → Result (List String)
  role_apps_of role_name app_config db = elim (query_role role_name db) [
    | none ↦ err attribute_error
    | some default_role ↦ elim (keys default_role.desiredconfig) [
      | [] ↦ err other_error
      | default_app ∷ _ ↦ elim (index (dict app_config) default_app) [
        | err e ↦ err e
        | ok app ↦ elim (index app "version") [
          | ok (str version) ↦ elim (query_role_with_version role_name version db) [
            | none ↦ err attribute_error
            | some role ↦ ok (keys role.desiredconfig)
          ]
          | ok _ ↦ err attribute_error
          | err e ↦ err e
        ]
      ]
    ]
  ]

  unfoldable pub run_event : EventMethod → String → Fields → Exec Sys (Unit {0})
  run_event method role_name app_config = do
    db ← gets (λ s. s.db)
    role_apps ← lift (role_apps_of role_name app_config db)
    run_app_events method role_apps app_config

  -- The PUT to the backbone.
  unfoldable pub push_configuration : String → Fields → Exec Sys (Unit {0})
  unfolding record_effect
  push_configuration host_id app_info s =
      let filtered = filter_host_configuration app_info in
      let pushed = (record_effect (push host_id filtered) s).1 in
      elim (w.put host_id filtered s.calls) [
        | none ↦ (err bbmaster_not_found, pushed)
        | some false ↦ (err host_config_failed, pushed)
        | some true ↦ (
          ok tt,
          record pushed {
            last_config_push_time = (host_id, w.now s.calls) ∷ s.last_config_push_time;
          },
        )
      ]

  -- Each failure of a deletion is logged and ignored.
  unfoldable pub delete_rabbit_credentials : List RabbitCredential → Exec Sys (Unit {0})
  unfolding record_effect
  delete_rabbit_credentials [] = pure tt
  delete_rabbit_credentials (c ∷ rest) = do
    record_effect (delete_user c.userid)
    delete_rabbit_credentials rest
