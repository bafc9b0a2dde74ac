-- ===== src/Provider/Roles.antt =====
-- `add_role` and `delete_role` of resmgr/resmgr/resmgr_provider_pf9.py, and the rabbit credentials
-- of a role on a host.
use pf9_du.Prelude.{
  ◌+◌, String, Bool, not, Option, none, some, List, [], ◌∷◌, ◌==◌, any, if◌then◌else◌,
}
use pf9_du.Json.{Json, Fields}
use pf9_du.Result.{
  ok, err, attribute_error, unbound_local_error, other_error, host_not_found, host_down,
  role_not_found, role_version_not_found, rabbit_credentials_configure_error,
}
use pf9_du.Exec.{Exec, pure, raise, gets, modify, ◌>>=◌, ◌>>◌, try_except}
use pf9_du.RoleStates.{RoleState}
use pf9_du.Db.{Role, RabbitCredential, query_role, query_roles_for_host}
use pf9_du.Db.Associations.{remove_role_from_host, associate_role_to_host}
use pf9_du.Db.Hosts.{insert_update_host, associate_rabbit_credentials_to_host, role_for}
use pf9_du.RolesMgr.{World, HostDetails, delete_user, notify, on_db, record_effect}
use pf9_du.RolesMgr.Details.{Render, query_host_and_app_details}
use pf9_du.RolesMgr.Moves.{
  delete_host, query_rabbit_credentials, move_to_preauth_state, move_to_pre_deauth_state,
}
use pf9_du.Provider.{
  Hub, Broker, InventoryHost, on_sys, drop_host, get_host, append_role, move_to_apply_edit_state,
  move_to_deauth_state,
}

abbrev pub publish : String → Exec Hub (Unit {0})
publish host_id = on_sys (record_effect (notify "change" host_id))

abbrev pub wake_up : Exec Hub (Unit {0})
wake_up = modify (λ s. record s { wake_ups = s.wake_ups + 1 })

-- A call that leaves the process.
abbrev counted : Hub → Hub
counted s = record s { sys = record s.sys { calls = s.sys.calls + 1 } }

module _ (w : World) (broker : Broker) (render : Render) (host_id role_name : String) where
  abbrev details_now : Exec Hub HostDetails
  details_now s = (query_host_and_app_details render host_id s.sys.db, s)

  delete_broker_user : String → Exec Hub (Unit {0})
  unfolding on_sys record_effect
  delete_broker_user user s = (
    if broker.delete_user_raises user s.sys.calls then err other_error else ok tt,
    (on_sys (record_effect (delete_user user)) s).1,
  )

  -- The credentials that the host has for the role, or new ones.
  credentials_for : List RabbitCredential → Exec Hub (String × String)
  credentials_for [] s = (ok (broker.random_creds s.sys.calls), counted s)
  credentials_for (c ∷ []) s = (ok (c.userid, c.password), s)
  credentials_for _ s = (err rabbit_credentials_configure_error, s)

  create_user : String → String → Exec Hub (Unit {0})
  create_user user password s =
      (if broker.create_user user password s.sys.calls then ok tt else err other_error, counted s)

  set_permissions : String → Json → Exec Hub (Unit {0})
  set_permissions user permissions s = (
    if broker.set_permissions user permissions s.sys.calls then ok tt else err other_error,
    counted s,
  )

  permit : String → Option Role → Exec Hub (Unit {0})
  unfolding delete_broker_user set_permissions
  permit user none = raise attribute_error
  permit user (some r) =
      try_except (set_permissions user r.rabbit_permissions)
        (λ e. delete_broker_user user >> raise rabbit_credentials_configure_error)

  unfoldable pub create_rabbit_credentials : Option String → Exec Hub (String × String)
  unfolding credentials_for create_user permit
  create_rabbit_credentials version = do
    found ← gets (λ s. query_rabbit_credentials host_id role_name s.sys.db)
    creds ← credentials_for found
    create_user creds.0 creds.1
    role ← gets (λ s. role_for role_name version s.sys.db)
    permit creds.0 role
    pure creds

  -- The `except` clause for a role that is new on the host.
  unfoldable pub undo_role : String → Exec Hub (Unit {0})
  unfolding delete_broker_user on_sys on_db
  undo_role user = do
    delete_broker_user user
    on_sys (on_db (remove_role_from_host host_id role_name))
    roles ← gets (λ s. query_roles_for_host host_id s.sys.db)
    elim roles [ some (_ ∷ _) ↦ pure tt | _ ↦ on_sys (on_db (delete_host host_id)) ]

  -- The part of the `try` block in which `rabbit_user` has no value yet.
  unfoldable pub start_role : Option String → Exec Hub (RoleState × String × String)
  unfolding on_sys
  start_role version = do
    curr_role_state ← on_sys (move_to_apply_edit_state host_id role_name)
    modify (λ s. record s { unauthorized_hosts = drop_host host_id s.unauthorized_hosts })
    creds ← create_rabbit_credentials version
    pure (curr_role_state, creds.0, creds.1)

  -- The `try` block with its `except` clause, which reads `rabbit_user`; that raises by itself where
  -- it has no value.
  unfoldable pub configure_role : InventoryHost → Option String → Fields → Exec Hub RoleState
  unfolding on_sys on_db
  configure_role host_inst version host_settings = do
    on_sys (on_db (insert_update_host host_id host_inst.info role_name version host_settings))
    role_is_new ← on_sys (on_db (associate_role_to_host host_id role_name version))
    started ←
        try_except (start_role version)
          (λ e. raise (if role_is_new then unbound_local_error else e))
    try_except
        (on_sys
          (on_db (associate_rabbit_credentials_to_host host_id role_name started.1 started.2)))
        (λ e. if role_is_new then undo_role started.1 >> raise e else raise e)
    pure started.0

  -- Without a version, or with an empty one, the active version is meant.
  abbrev missing_role : Option String → Exec Hub (Unit {0})
  missing_role none = raise role_not_found
  missing_role (some v) = raise (if v == "" then role_not_found else role_version_not_found)

  abbrev require_found : Option String → Option Role → Exec Hub (Unit {0})
  require_found version (some _) = pure tt
  require_found version none = missing_role version

  abbrev require_role : Option String → Exec Hub (Unit {0})
  require_role version s = require_found version (role_for role_name version s.sys.db) s

  require_host : Exec Hub InventoryHost
  require_host s = elim (get_host host_id s) [
    | none ↦ (err host_not_found, s)
    | some h ↦ if h.responding then (ok h, s) else (err host_down, s)
  ]

  -- Assigning a role to a host; the on_auth event runs within.
  unfoldable pub add_role : Option String → Fields → Exec Hub (Unit {0})
  unfolding require_host on_sys record_effect
  add_role version host_settings = do
    require_role version
    host_inst ← require_host
    modify (append_role host_id role_name)
    modify (λ s. record s { role_status = (host_id, none) ∷ drop_host host_id s.role_status })
    (elim host_inst.roles [ [] ↦ publish host_id | _ ↦ pure tt ])
    curr_role_state ← configure_role host_inst version host_settings
    host_details ← details_now
    on_sys (move_to_preauth_state w host_id host_details role_name curr_role_state)
    wake_up
    publish host_id

  unfoldable pub take_role : InventoryHost → Bool → Exec Hub (Unit {0})
  unfolding on_sys record_effect
  take_role host_inst wake_poller =
      if not (any (λ r. r == role_name) host_inst.roles) then pure tt else do
        curr_role_state ← on_sys (move_to_deauth_state host_id role_name)
        host_details ← details_now
        on_sys (move_to_pre_deauth_state w host_id host_details role_name curr_role_state)
        (if wake_poller then wake_up else pure tt)
        publish host_id

  -- What follows the two lookups.
  unfoldable pub delete_found : Option Role → Option InventoryHost → Bool → Exec Hub (Unit {0})
  delete_found none host_inst wake_poller = raise role_not_found
  delete_found (some _) none wake_poller = raise host_not_found
  delete_found (some _) (some host_inst) wake_poller = take_role host_inst wake_poller

  -- Taking a role off a host; the on_deauth event runs within.
  unfoldable pub delete_role : Bool → Exec Hub (Unit {0})
  unfolding delete_found
  delete_role wake_poller s =
      if any (λ e. e.0 == host_id) s.unauthorized_hosts
      then (ok tt, s)
      else delete_found (query_role role_name s.sys.db) (get_host host_id s) wake_poller s
