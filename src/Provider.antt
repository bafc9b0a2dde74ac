-- ===== src/Provider.antt =====
-- `ResMgrPf9Provider` of resmgr/resmgr/resmgr_provider_pf9.py: putting a role on a host and taking
-- it off, with the host inventory and the rabbit credentials.
pub mod Requests
pub mod Roles
pub mod Removal
use pf9_du.Prelude.{
  ℕ, ◌+◌, String, Bool, true, false, ◌&&◌, ◌||◌, not, Option, none, some, List, [], ◌∷◌, ◌++◌, map,
  ◌==◌, any, select, first?, update_where, if◌then◌else◌,
}
use pf9_du.Json.{Json, Fields, end, update}
use pf9_du.Result.{
  Error, Result, ok, err, attribute_error, unbound_local_error, other_error, host_not_found,
  host_down, role_not_found, role_version_not_found, role_update_conflict,
  rabbit_credentials_configure_error,
}
use pf9_du.Exec.{Exec, pure, raise, lift, gets, modify, ◌>>=◌, ◌>>◌, try_except}
use pf9_du.RoleStates.{
  RoleState, name, not_applied, start_apply, auth_error, applied, start_edit, start_deauth,
  deauth_error, role_is_authed,
}
use pf9_du.Db.{
  Db, Role, Host, HostRoleAssociation, RabbitCredential, query_role, query_role_with_version,
  role_of, roles_of, query_roles_for_host,
}
use pf9_du.Db.Associations.{
  advance_role_state, get_all_role_associations, remove_role_from_host, associate_role_to_host,
}
use pf9_du.Db.Hosts.{
  HostInfo, query_host, insert_update_host, associate_rabbit_credentials_to_host, role_for,
}
use pf9_du.RolesMgr.{World, Sys, HostDetails, delete_user, notify, on_db, record_effect}
use pf9_du.RolesMgr.Details.{Render, query_host_and_app_details}
use pf9_du.RolesMgr.Moves.{
  delete_host, query_rabbit_credentials, move_to_preauth_state, move_to_pre_deauth_state,
}

-- A host as the inventory describes it; `responding` is true where nothing is said about it.
pub record InventoryHost : Type 0 where
  pub roles : List String
  pub info : HostInfo
  pub responding : Bool

-- The tables that the provider shares with the poller, beside the database.
pub record Hub : Type 0 where
  pub sys : Sys
  pub unauthorized_hosts : List (String × InventoryHost)
  pub role_status : List (String × Option String)
  pub wake_ups : ℕ

-- The message broker's management interface, and the random names; the answers may depend on how
-- many calls went before, and say whether a call raises nothing.
pub record Broker : Type 0 where
  pub random_creds : ℕ → String × String
  pub create_user : String → String → ℕ → Bool
  pub set_permissions : String → Json → ℕ → Bool
  pub delete_user_raises : String → ℕ → Bool

unfoldable pub on_sys {ℓ} : {A : Type ℓ} → (Sys → Result A × Sys) → Hub → Result A × Hub
on_sys m s = let (r, sys) = m s.sys in (r, record s { sys = sys })

-- The three updates that are tried in turn, each a compare-and-swap.
unfoldable pub move_to_apply_edit_state : String → String → Exec Sys RoleState
unfolding on_db
move_to_apply_edit_state host_id role_name = do
  first ← on_db (advance_role_state host_id role_name not_applied start_apply)
  if first then pure start_apply else do
    second ← on_db (advance_role_state host_id role_name applied start_edit)
    if second then pure start_edit else do
      third ← on_db (advance_role_state host_id role_name auth_error start_apply)
      if third then pure start_apply else raise role_update_conflict

unfoldable pub move_to_deauth_state : String → String → Exec Sys RoleState
unfolding on_db
move_to_deauth_state host_id role_name = do
  first ← on_db (advance_role_state host_id role_name applied start_deauth)
  if first then pure start_deauth else do
    second ← on_db (advance_role_state host_id role_name deauth_error start_deauth)
    if second then pure start_deauth else do
      third ← on_db (advance_role_state host_id role_name auth_error start_deauth)
      if third then pure start_deauth else raise role_update_conflict

abbrev find_host : String → List (String × InventoryHost) → Option InventoryHost
find_host host_id [] = none
find_host host_id ((i, h) ∷ hosts) = if i == host_id then some h else find_host host_id hosts

abbrev pub drop_host {ℓ} : {A : Type ℓ} → String → List (String × A) → List (String × A)
drop_host host_id [] = []
drop_host host_id ((i, h) ∷ hosts) =
    let rest = drop_host host_id hosts in if i == host_id then rest else (i, h) ∷ rest

inventory_of : Db → Host → InventoryHost
inventory_of db h = record {
  roles = map (λ r. r.rolename) (roles_of (get_all_role_associations h.id db) db.roles);
  info = record {
    hostname = h.hostname;
    os_family = h.hostosfamily;
    arch = h.hostarch;
    os_info = h.hostosinfo;
  };
  responding = h.responding;
}

-- An authorized host is found in the database, another one in the poller's table.
unfoldable pub get_host : String → Hub → Option InventoryHost
unfolding inventory_of
get_host host_id s = elim (query_host host_id s.sys.db) [
  | some h ↦ some (inventory_of s.sys.db h)
  | none ↦ find_host host_id s.unauthorized_hosts
]

-- `host_inst['roles'].append(role_name)`, on the table's own value where the host is from it.
unfoldable pub append_role : String → String → Hub → Hub
append_role host_id role_name s = elim (query_host host_id s.sys.db) [
  | some _ ↦ s
  | none ↦ record s {
    unauthorized_hosts =
        map
          (λ e. (
            e.0,
            if e.0 == host_id then record e.1 { roles = e.1.roles ++ role_name ∷ [] } else e.1,
          ))
          s.unauthorized_hosts;
  }
]
