-- ===== src/Apps.antt =====
-- `process_apps` of bbone/pf9app/pf9app/algorithms.py: the change from the installed applications of
-- a host to the specified ones. The installed ones are given, as by `current_config`.
pub mod Calls
pub mod Probe
pub mod Counts
pub mod Quiet
pub mod Idle
use pf9_du.Prelude.{
  ℕ, ◌+◌, String, join, Bool, true, false, ◌&&◌, not, Option, none, some, List, [], ◌∷◌, ◌++◌, any,
  select, ◌==◌, if◌then◌else◌,
}
use pf9_du.Json.{Json, Fields, null, str, dict, end, field, lookup, has_key, keys, json_eq}
use pf9_du.Result.{
  Error, Result, ok, err, attribute_error, key_error, type_error, url_not_specified,
  package_file_name_not_specified, some_or,
}
use pf9_du.Exec.{Exec, pure, raise, lift, ◌>>=◌, ◌>>◌}
use pf9_du.Apps.Calls.{
  Action, Machine, Run, outcome, install_dep, create, download, install, uninstall, set_config,
  set_desired_service_states, get_app_ordering,
}
use pf9_du.Config.{is_dict_subset}
use pf9_du.RoleSettings.{index}

unfoldable pub versions_there : Fields → Result (Unit {0})
versions_there end = ok tt
versions_there (field k app rest) =
    let others = versions_there rest in elim (index app "version") [ err e ↦ err e | ok _ ↦ others ]

abbrev pub names_outside : List String → Fields → List String
names_outside names f = select (λ k. not (has_key k f)) names

abbrev pub names_inside : List String → Fields → List String
names_inside names f = select (λ k. has_key k f) names

module _ (m : Machine) where
  unfoldable pub act : Action → Exec Run (Unit {0})
  act a s =
      (outcome (m.raises a s.calls), record { calls = s.calls + 1; trace = s.trace ++ a ∷ [] })

  -- The names whose pattern matches; the first is taken.
  matching : String → Fields → List Json
  matching os_name end = []
  matching os_name (field k v f) =
      let rest = matching os_name f in if m.search k os_name then v ∷ rest else rest

  abbrev first_match : List Json → Result Json
  first_match [] = err package_file_name_not_specified
  first_match (v ∷ _) = ok v

  abbrev file_name : String → Json → Result Json
  file_name os_name (dict f) = elim (lookup os_name f) [
    | some v ↦ ok v
    | none ↦ first_match (matching os_name f)
  ]
  file_name os_name _ = err attribute_error

  abbrev joined : Json → Json → Result Json
  joined (str a) (str b) = ok (str (join a b))
  joined _ _ = err type_error

  -- The address, and whether its extension is to be changed.
  unfoldable pub url_from_app_spec : Fields → Exec Run (Json × Bool)
  unfolding matching
  url_from_app_spec spec =
      if has_key "pkginfo" spec
      then (do
        info ← lift (index (dict spec) "pkginfo")
        baseurl ← lift (index info "baseurl")
        files ← lift (index info "filenames_by_os")
        os_name ← lift m.os_name
        filename ← lift (file_name os_name files)
        url ← lift (joined baseurl filename)
        interpolated ← lift (m.interpolate url)
        pure (interpolated, false))
      else if has_key "url" spec
      then (do
        url ← lift (index (dict spec) "url")
        interpolated ← lift (m.interpolate url)
        pure (interpolated, true))
      else raise url_not_specified

  -- `.get('service_states')`, or else the state of the one service of the old kind; `running` is
  -- read only then.
  unfoldable pub services_of : String → Fields → Result Json
  services_of app_name spec = elim (lookup "service_states" spec) [
    | none ↦ elim (index (dict spec) "running") [
      | ok r ↦ ok (dict (field app_name r end))
      | err e ↦ err e
    ]
    | some null ↦ elim (index (dict spec) "running") [
      | ok r ↦ ok (dict (field app_name r end))
      | err e ↦ err e
    ]
    | some s ↦ ok s
  ]

  -- What the host reports; here a key with the value `None` counts.
  unfoldable pub current_services_of : String → Json → Result Json
  current_services_of app_name (dict app) = elim (lookup "service_states" app) [
    | some s ↦ ok s
    | none ↦ elim (index (dict app) "running") [
      | ok r ↦ ok (dict (field app_name r end))
      | err e ↦ err e
    ]
  ]
  current_services_of app_name _ = err type_error

  module _ (probe_only : Bool) where
    -- `if not probe_only: body`
    abbrev pub perform : Exec Run (Unit {0}) → Exec Run (Unit {0})
    perform body = if probe_only then pure tt else body

    abbrev pub new_remote_app : String → Fields → Exec Run (Unit {0})
    new_remote_app app_name spec = do
      url ← url_from_app_spec spec
      version ← lift (index (dict spec) "version")
      act (create app_name version url.0 url.1)

    abbrev pub start_services : String → Fields → Exec Run (Unit {0})
    start_services app_name spec = do
      services ← lift (services_of app_name spec)
      act (set_desired_service_states app_name services)

    abbrev pub replace_app : String → Fields → Json → Exec Run (Unit {0})
    replace_app app_name spec config = do
      new_remote_app app_name spec
      act (download app_name)
      act (uninstall app_name)
      act (install app_name)
      act (set_config app_name config)
      start_services app_name spec

    -- Another version is installed instead.
    unfoldable pub change_version : String → Fields → Json → Exec Run ℕ
    change_version app_name spec config = do perform (replace_app app_name spec config); pure 1

    -- The same version: the configuration and the services are compared.
    unfoldable pub change_config : String → Json → Json → Exec Run ℕ
    change_config app_name config current =
        if is_dict_subset config current
        then pure 0
        else do perform (act (set_config app_name config)); pure 1

    unfoldable pub change_services : String → Json → Json → Exec Run ℕ
    change_services app_name services current =
        if json_eq current services
        then pure 0
        else do perform (act (set_desired_service_states app_name services)); pure 1

    unfoldable pub update_app : String → Fields → Json → Json → Exec Run ℕ
    update_app app_name spec config current = do
      current_config ← lift (index current "config")
      changes ← change_config app_name config current_config
      services ← lift (services_of app_name spec)
      current_services ← lift (current_services_of app_name current)
      more ← change_services app_name services current_services
      pure (changes + more)

    unfoldable pub process_identical : String → Json → Json → Exec Run ℕ
    process_identical app_name (dict spec) current = do
      config ← lift (index (dict spec) "config")
      installed ← lift (index current "version")
      version ← lift (index (dict spec) "version")
      if json_eq installed version
          then update_app app_name spec config current
          else change_version app_name spec config
    process_identical app_name _ current = raise attribute_error

    abbrev pub install_new : String → Fields → Exec Run (Unit {0})
    install_new app_name spec = do
      config ← lift (index (dict spec) "config")
      new_remote_app app_name spec
      act (download app_name)
      act (install app_name)
      act (set_config app_name config)
      start_services app_name spec

    -- A specification that is no dictionary is refused by its first subscript.
    abbrev pub install_new_app : String → Json → Exec Run (Unit {0})
    install_new_app app_name (dict spec) = install_new app_name spec
    install_new_app app_name _ = raise type_error

    unfoldable pub process_new : String → Json → Exec Run ℕ
    process_new app_name spec = do perform (install_new_app app_name spec); pure 1

    unfoldable pub process_deleted : List String → Exec Run ℕ
    process_deleted [] = pure 0
    process_deleted (app_name ∷ names) = do
      perform (act (uninstall app_name))
      changes ← process_deleted names
      pure (1 + changes)

    unfoldable pub process_all_identical : List String → Fields → Fields → Exec Run ℕ
    process_all_identical [] new_config current_config = pure 0
    process_all_identical (app_name ∷ names) new_config current_config = do
      spec ← lift (some_or key_error (lookup app_name new_config))
      current ← lift (some_or key_error (lookup app_name current_config))
      changes ← process_identical app_name spec current
      more ← process_all_identical names new_config current_config
      pure (changes + more)

    unfoldable pub process_all_new : List String → Fields → Exec Run ℕ
    process_all_new [] new_config = pure 0
    process_all_new (app_name ∷ names) new_config = do
      spec ← lift (some_or key_error (lookup app_name new_config))
      changes ← process_new app_name spec
      more ← process_all_new names new_config
      pure (changes + more)

    -- The objects of the installed applications are made first; each needs its version. Sets are in the
    -- order of the dictionaries that they are made from.
    unfoldable pub process_apps : Bool → Fields → Fields → Exec Run ℕ
    process_apps non_destructive new_config current_config = do
      lift (versions_there current_config)
      new_names ←
          lift (get_app_ordering m (names_outside (keys new_config) current_config) new_config)
      identical ←
          lift (get_app_ordering m (names_inside (keys current_config) new_config) new_config)
      deleted ←
          process_deleted
            (if non_destructive then [] else names_outside (keys current_config) new_config)
      act install_dep
      changes ← process_all_identical identical new_config current_config
      added ← process_all_new new_names new_config
      pure (deleted + (changes + added))
