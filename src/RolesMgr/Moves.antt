-- ===== src/RolesMgr/Moves.antt =====
-- The moves between role states: `ResMgrDB.move_new_state` of resmgr/resmgr/dbutils.py and the
-- methods `RolesMgr.move_to_...` of resmgr/resmgr/resmgr_provider_pf9.py.
pub mod Keeps
pub mod Outcome
use pf9_du.Prelude.{
  String, Bool, true, false, ◌&&◌, not, Option, none, some, List, [], ◌∷◌, ◌==◌, select, count,
  nat_eq, leb, if◌then◌else◌,
}
use pf9_du.Json.{Fields}
use pf9_du.Result.{Error, Result, ok, err, other_error, du_config_error}
use pf9_du.Exec.{Exec, pure, raise, lift, gets, ◌>>=◌, ◌>>◌, try_except, continue}
use pf9_du.RoleStates.{
  RoleState, not_applied, start_apply, pre_auth, auth_converging, auth_converged, auth_error,
  applied, start_edit, pre_deauth, deauth_converging, deauth_converged, deauth_error, state_eq,
}
use pf9_du.Db.{Db, HostRoleAssociation, RabbitCredential}
use pf9_du.Db.Associations.{advance_role_state, get_all_role_associations, remove_role_from_host}
use pf9_du.RolesMgr.{
  World, Sys, HostDetails, EventMethod, on_auth, on_deauth, on_auth_converged, on_deauth_converged,
  on_db, get_current_app_config, run_event, push_configuration, delete_rabbit_credentials,
}

module _ (host_id role_name : String) (start_state success_state failure_state : RoleState) where
  -- `__exit__`: it returns no true value, so an exception of the body goes on.
  unfoldable pub exit_move : Result (Unit {0}) → Exec Sys (Unit {0})
  unfolding on_db
  exit_move (ok _) = do
    on_db (advance_role_state host_id role_name start_state success_state)
    pure tt
  exit_move (err e) =
      if state_eq start_state failure_state
      then raise e
      else do on_db (advance_role_state host_id role_name start_state failure_state); raise e

  -- `with db.move_new_state(...): body`
  unfoldable pub move_new_state : Exec Sys (Unit {0}) → Exec Sys (Unit {0})
  unfolding exit_move
  move_new_state body s = let (r, s') = body s in exit_move r s'

-- A session that deletes the host's row, and with it its rabbit credentials. The row must be there,
-- and no association may point at it.
unfoldable pub delete_host : String → Exec Db (Unit {0})
delete_host host_id db =
    if leb 1 (count (λ h. h.id == host_id) db.hosts)
      && nat_eq (count (λ a. a.host_id == host_id) db.assocs) 0
    then (
      ok tt,
      record db {
        hosts = select (λ h. not (h.id == host_id)) db.hosts;
        credentials = select (λ c. not (c.host_id == host_id)) db.credentials;
      },
    )
    else (err other_error, db)

unfoldable pub query_rabbit_credentials : String → String → Db → List RabbitCredential
query_rabbit_credentials host_id role_name db =
    select (λ c. c.host_id == host_id && c.rolename == role_name) db.credentials

module _ (w : World) (host_id : String) (host_details : HostDetails) (role_name : String) where
  unfoldable pub run_auth_event : EventMethod → Bool → Exec Sys (Unit {0})
  run_auth_event method include_deauthed_roles = do
    app_info ← lift (get_current_app_config host_details include_deauthed_roles)
    run_event w method role_name app_info

  unfoldable pub push_current : Exec Sys (Unit {0})
  push_current = do
    app_info ← lift (get_current_app_config host_details false)
    push_configuration w host_id app_info

  -- The configuration is computed before the `with` block is entered.
  preauth_from : RoleState → Fields → Exec Sys (Unit {0})
  preauth_from start_apply app_info =
      move_new_state host_id role_name start_apply pre_auth not_applied
        (run_event w on_auth role_name app_info)
  preauth_from start_edit app_info =
      move_new_state host_id role_name start_edit pre_auth applied
        (run_event w on_auth role_name app_info)
  preauth_from current_state app_info = raise du_config_error

  unfoldable pub move_to_preauth_state : RoleState → Exec Sys (Unit {0})
  unfolding preauth_from
  move_to_preauth_state current_state = do
    app_info ← lift (get_current_app_config host_details false)
    preauth_from current_state app_info

  unfoldable pub move_to_auth_converging_state : Exec Sys (Unit {0})
  move_to_auth_converging_state =
      move_new_state host_id role_name pre_auth auth_converging pre_auth push_current

  unfoldable pub move_to_pre_deauth_state : RoleState → Exec Sys (Unit {0})
  move_to_pre_deauth_state current_state =
      move_new_state host_id role_name current_state pre_deauth applied
        (run_auth_event on_deauth true)

  unfoldable pub remove_and_push : Exec Sys (Unit {0})
  remove_and_push = do
    credentials ← gets (λ s. query_rabbit_credentials host_id role_name s.db)
    delete_rabbit_credentials w credentials
    push_current

  unfoldable pub move_to_deauth_converging_state : Exec Sys (Unit {0})
  move_to_deauth_converging_state =
      move_new_state host_id role_name pre_deauth deauth_converging pre_deauth remove_and_push

  unfoldable pub move_to_applied_state : Exec Sys (Unit {0})
  move_to_applied_state =
      move_new_state host_id role_name auth_converged applied auth_error
        (run_auth_event on_auth_converged true)

  unfoldable pub delete_if_last : List HostRoleAssociation → Exec Sys (Unit {0})
  unfolding on_db
  delete_if_last [] = on_db (delete_host host_id)
  delete_if_last (_ ∷ _) = pure tt

  -- The removal of the association, and of the host with its last one.
  unfoldable pub drop_association : Exec Sys (Unit {0})
  unfolding on_db delete_if_last
  drop_association = do
    on_db (remove_role_from_host host_id role_name)
    left ← gets (λ s. get_all_role_associations host_id s.db)
    delete_if_last left

  unfoldable pub removal_failed : Error → Exec Sys (Unit {0})
  unfolding on_db
  removal_failed e = do
    on_db (advance_role_state host_id role_name deauth_converged deauth_error)
    pure tt

  -- Every exception ends in the error state, and none goes on.
  unfoldable pub move_to_not_applied_state : Exec Sys (Unit {0})
  move_to_not_applied_state =
      try_except (run_auth_event on_deauth_converged true >> drop_association) removal_failed
