-- ===== src/RolesMgr/Versions.antt =====
-- The roles and their versions in `RolesMgr` of resmgr/resmgr/resmgr_provider_pf9.py: creating a role,
-- marking a version as active, and the queries.
use pf9_du.Prelude.{String, Option, none, some, List, [], ◌∷◌, ◌==◌, if◌then◌else◌}
use pf9_du.Json.{Json, Fields, str, dict, end, field, set_item}
use pf9_du.Result.{
  Result, ok, err, role_inactive_not_allowed, role_version_not_found, attribute_error,
}
use pf9_du.Exec.{Exec, raise}
use pf9_du.RoleSettings.{index}
use pf9_du.Db.{Db, Role, query_role, query_role_with_version, query_roles}
use pf9_du.Db.Roles.{mark_role_active}

-- The loop over the settings: the default of each.
abbrev default_of_setting : Json → Result Json
default_of_setting setting = index setting "default"

unfoldable pub default_settings : Fields → Result Fields
default_settings end = ok end
default_settings (field setting_name setting rest) =
    let others = default_settings rest in
    elim (default_of_setting setting) [
      | err e ↦ err e
      | ok v ↦ elim others [ err e ↦ err e | ok f ↦ ok (field setting_name v f) ]
    ]

-- The public part of a role; the key of its version differs between the queries.
unfoldable pub public_part : String → Role → Result Json
unfolding default_settings
public_part version_key role = elim (default_settings role.customizable_settings) [
  | err e ↦ err e
  | ok defaults ↦ ok (
      dict (
        field "name" (str role.rolename) (
          field "display_name" (str role.displayname) (
            field "description" (str role.description) (
              field version_key (str role.version)
                (field "default_settings" (dict defaults) end))))))
]

abbrev with_name : Role → Result Json → Result Fields
with_name role (ok v) = ok (field role.rolename v end)
with_name role (err e) = err e

-- The loop of `get_all_roles`; `f` is what has been collected.
unfoldable pub all_roles : List Role → Fields → Result Fields
unfolding public_part
all_roles [] f = ok f
all_roles (role ∷ roles) f = elim (public_part "active_version" role) [
  | err e ↦ err e
  | ok v ↦ all_roles roles (set_item role.rolename v f)
]

unfoldable pub get_all_roles : Exec Db Fields
unfolding all_roles
get_all_roles db = (all_roles (query_roles db) end, db)

unfoldable pub get_role : String → Exec Db (Option Fields)
unfolding public_part
get_role role_name db = elim (query_role role_name db) [
  | none ↦ (ok none, db)
  | some role ↦ elim (with_name role (public_part "active_version" role)) [
    | err e ↦ (err e, db)
    | ok f ↦ (ok (some f), db)
  ]
]

abbrev role_of_version : String → String → Db → Option Role
role_of_version role_name version db =
    if version == "active"
    then query_role role_name db
    else query_role_with_version role_name version db

unfoldable pub get_role_with_version : String → String → Exec Db Fields
unfolding public_part
get_role_with_version role_name version db = elim (role_of_version role_name version db) [
  | none ↦ (err role_version_not_found, db)
  | some role ↦ (with_name role (public_part "role_version" role), db)
]

-- `lower` is the method of texts.
unfoldable pub mark_role_version_active :
    (String → String) → String → String → Json → Exec Db (Unit {0})
mark_role_version_active lower role_name version (str active) =
    if lower active == "true"
    then mark_role_active role_name version
    else raise role_inactive_not_allowed
mark_role_version_active lower role_name version active = raise attribute_error

-- `get_app_versions`
app_versions : Fields → Result Fields
app_versions end = ok end
app_versions (field app config rest) =
    let others = app_versions rest in
    elim (index config "version") [
      | err e ↦ err e
      | ok v ↦ elim others [ err e ↦ err e | ok f ↦ ok (field app v f) ]
    ]

unfoldable pub get_app_versions : String → Exec Db (Option Fields)
unfolding app_versions
get_app_versions role_name db = elim (query_role role_name db) [
  | none ↦ (ok none, db)
  | some role ↦ elim (app_versions role.desiredconfig) [
    | err e ↦ (err e, db)
    | ok f ↦ (ok (some f), db)
  ]
]

active_configs : List Role → Fields → Fields
active_configs [] f = f
active_configs (role ∷ roles) f = active_configs roles (
    set_item role.rolename
      (dict (field "role_id" (str role.id) (field "config" (dict role.desiredconfig) end))) f)

unfoldable pub active_role_config : Db → Fields
unfolding active_configs
active_role_config db = active_configs (query_roles db) end
