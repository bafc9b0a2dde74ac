-- ===== src/Examples/Provider.antt =====
-- The theorems on requests, applied to one role on one host.
use pf9_du.Prelude.{◌≡◌, refl, true, false, [], ◌∷◌}
use pf9_du.Result.{ok, err, role_update_conflict}
use pf9_du.RoleStates.{start_apply, auth_error, auth_converging, applied}
use pf9_du.RolesMgr.Details.{Render}
use pf9_du.RolesMgr.Moves.Outcome.{IsAt}
use pf9_du.Provider.{Hub, Broker, InventoryHost, move_to_apply_edit_state, move_to_deauth_state}
use pf9_du.Provider.Roles.{delete_role}
use pf9_du.Provider.Requests.{move_to_apply_edit_state-IsAt, move_to_deauth_state-IsAt}
use pf9_du.Provider.Removal.{IsRequested, delete_role-IsRequested}
use pf9_du.Examples.{nova, sys_at, found-IsAt, world_where}

abbrev pub hub : Hub
hub = record { sys = sys_at applied; unauthorized_hosts = []; role_status = []; wake_ups = 0 }

abbrev pub broker : Broker
broker = record {
  random_creds = λ n. ("user1", "secret");
  create_user = λ u p n. true;
  set_permissions = λ u p n. true;
  delete_user_raises = λ u n. false;
}

abbrev pub render : Render
render = λ host role creds f. ok f

abbrev pub known : InventoryHost
known = record {
  roles = "nova" ∷ [];
  info = record { hostname = "node1"; os_family = "Linux"; arch = "x86_64"; os_info = "centos" };
  responding = true;
}

move_to_apply_edit_state-IsAt_example :
    ((move_to_apply_edit_state "h1" "nova" (sys_at auth_error)).0 ≡ ok start_apply)
    × IsAt "h1" "nova" start_apply (move_to_apply_edit_state "h1" "nova" (sys_at auth_error)).1
move_to_apply_edit_state-IsAt_example =
    move_to_apply_edit_state-IsAt "h1" "nova" auth_error (sys_at auth_error) (found-IsAt auth_error)

move_to_deauth_state-IsAt_example :
    ((move_to_deauth_state "h1" "nova" (sys_at auth_converging)).0 ≡ err role_update_conflict)
    × IsAt "h1" "nova" auth_converging (move_to_deauth_state "h1" "nova" (sys_at auth_converging)).1
move_to_deauth_state-IsAt_example =
    move_to_deauth_state-IsAt "h1" "nova" auth_converging (sys_at auth_converging)
      (found-IsAt auth_converging)

delete_role-IsRequested_example :
    IsRequested
      (world_where true)
      "h1"
      "nova"
      applied
      (delete_role (world_where true) broker render "h1" "nova" true hub)
unfolding pf9_du.Db.Hosts.query_host pf9_du.Db.roles_of
    pf9_du.Db.Associations.get_all_role_associations
delete_role-IsRequested_example =
    delete_role-IsRequested (world_where true) "h1" "nova" broker render nova known true applied hub
      refl (unfold pf9_du.Db.query_role in refl) (unfold pf9_du.Provider.get_host in refl) refl
      (found-IsAt applied)
