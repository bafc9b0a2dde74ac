-- ===== src/RolesMgr/Details.antt =====
-- `ResMgrDB.query_host_and_app_details` of resmgr/resmgr/dbutils.py for one host: the configuration
-- that its roles ask for, as the moves read it.
use pf9_du.Prelude.{String, Bool, true, false, List, [], ◌∷◌}
use pf9_du.Json.{Fields, end, update}
use pf9_du.Result.{Result, ok, ◌>>=◌, attribute_error, some_or, key_error}
use pf9_du.RoleStates.{name, role_is_authed}
use pf9_du.Db.{Db, HostRoleAssociation, RabbitCredential, role_of, roles_of}
use pf9_du.Db.Associations.{get_all_role_associations}
use pf9_du.Db.Hosts.{query_host}
use pf9_du.RolesMgr.{HostDetails}
use pf9_du.RolesMgr.Moves.{query_rabbit_credentials}

-- `_substitute_host_role_params` on a host, a role and its configuration: it formats texts with the
-- values of the environment and the host's credentials for the role.
abbrev pub Render : Type 0
Render = String → String → List RabbitCredential → Fields → Result Fields

module _ (render : Render) (host_id : String) (db : Db) where
  -- `assigned_apps` and `assigned_apps_including_deauthed_roles`
  abbrev pub add_apps : Bool → Fields → Fields × Fields → Fields × Fields
  add_apps true desired (apps, all) = (update apps desired, update all desired)
  add_apps false desired (apps, all) = (apps, update all desired)

  unfoldable pub assigned_apps :
      List HostRoleAssociation → Fields × Fields → Result (Fields × Fields)
  assigned_apps [] acc = ok acc
  assigned_apps (a ∷ assocs) acc = do
    role ← some_or attribute_error (role_of a.role_id db.roles)
    desired ←
        render host_id role.rolename (query_rabbit_credentials host_id role.rolename db)
          role.desiredconfig
    authed ← some_or key_error (role_is_authed (name a.current_state))
    assigned_apps assocs (add_apps authed desired acc)

  unfoldable pub query_host_and_app_details : Result HostDetails
  unfolding assigned_apps
  query_host_and_app_details = do
    host ← some_or attribute_error (query_host host_id db)
    apps ← assigned_apps (get_all_role_associations host_id db) (end, end)
    ok (record {
      hostname = host.hostname;
      apps_config = apps.0;
      apps_config_including_deauthed_roles = apps.1;
      role_settings = host.role_settings;
      role_details = roles_of (get_all_role_associations host_id db) db.roles;
    })
