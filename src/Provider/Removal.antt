-- ===== src/Provider/Removal.antt =====
-- What `delete_role` does to the role's state.
use pf9_du.Prelude.{
  String, ◌≡◌, ◌⊎◌, inl, inr, refl, Bool, true, false, none, some, any, ◌==◌, if◌then◌else◌, List,
  [], ◌∷◌, ◌++◌,
}
use pf9_du.Result.{Error, Result, ok, err, role_update_conflict}
use pf9_du.Exec.{◌>>=◌, ◌>>◌, pure, lift, continue}
use pf9_du.RoleStates.{
  RoleState, applied, auth_error, start_deauth, pre_deauth, deauth_error, legal_transition,
}
use pf9_du.Db.{Role, query_role}
use pf9_du.RolesMgr.{World, HostDetails, Effect, notify, on_deauth, record_effect}
use pf9_du.RolesMgr.Details.{Render}
use pf9_du.RolesMgr.Moves.{move_to_pre_deauth_state, run_auth_event}
use pf9_du.RolesMgr.Moves.Keeps.{run_auth_event-KeepsDb}
use pf9_du.RolesMgr.Moves.Outcome.{IsAt, target}
use pf9_du.Poller.Rounds.{moved}
use pf9_du.Provider.{Hub, Broker, InventoryHost, on_sys, get_host}
use pf9_du.Provider.Roles.{wake_up, publish, take_role, delete_found, delete_role}
use pf9_du.Provider.Requests.{deauth_target, move_to_deauth_state-IsAt}

module _ (w : World) (host_id role_name : String) where
  -- The on_deauth event has run and the change of the host is published last, or something was raised:
  -- before the event, or by it.
  abbrev pub IsStarted : Result (Unit {0}) × Hub → Type 0
  IsStarted o =
      ((o.0 ≡ ok tt)
        × IsAt host_id role_name pre_deauth o.1.sys
        × ((before : List Effect) × (o.1.sys.trace ≡ before ++ notify "change" host_id ∷ [])))
      ⊎ ((e : Error) × (o.0 ≡ err e)
          × (IsAt host_id role_name start_deauth o.1.sys ⊎ IsAt host_id role_name applied o.1.sys))

  -- The removal of the role is under way, or refused as a conflict.
  abbrev pub IsRequested : RoleState → Result (Unit {0}) × Hub → Type 0
  IsRequested s0 o =
      ((deauth_target s0 ≡ some start_deauth) × IsStarted o)
      ⊎ ((deauth_target s0 ≡ none)
          × (o.0 ≡ err role_update_conflict)
          × IsAt host_id role_name s0 o.1.sys)

  after_move :
      (wake_poller : Bool) (r : Result (Unit {0})) (s : Hub)
      → IsAt host_id role_name (target host_id role_name start_deauth pre_deauth applied r) s.sys
      → IsStarted
          (continue r (λ _. (if wake_poller then wake_up else pure tt) >> publish host_id) s)
  unfolding on_sys record_effect
  after_move true (ok _) s at = inl (refl, at, (s.sys.trace, refl))
  after_move false (ok _) s at = inl (refl, at, (s.sys.trace, refl))
  after_move wake_poller (err e) s at = inr (e, refl, inr at)

  after_details :
      (wake_poller : Bool) (r : Result HostDetails) (s : Hub)
      → IsAt host_id role_name start_deauth s.sys
      → IsStarted (
          (lift r >>= (λ details.
              on_sys (move_to_pre_deauth_state w host_id details role_name start_deauth)
              >> ((if wake_poller then wake_up else pure tt) >> publish host_id)))
            s)
  unfolding on_sys move_to_pre_deauth_state
  after_details wake_poller (ok details) s at = after_move wake_poller _ _ (
      moved host_id role_name start_deauth pre_deauth applied (unfold legal_transition in refl)
        (inr (unfold legal_transition in refl))
        (run_auth_event w host_id details role_name on_deauth true)
        (run_auth_event-KeepsDb w host_id details role_name on_deauth true) s.sys at)
  after_details wake_poller (err e) s at = inr (e, refl, inl at)

  module _ (broker : Broker) (render : Render) where
    take_role-IsRequested :
        (host_inst : InventoryHost) (wake_poller : Bool) (s0 : RoleState) (s : Hub)
        → any (λ r. r == role_name) host_inst.roles ≡ true
        → IsAt host_id role_name s0 s.sys
        → IsRequested s0 (take_role w broker render host_id role_name host_inst wake_poller s)
    unfolding take_role on_sys
    take_role-IsRequested host_inst wake_poller applied s has at =
        let (r, there) = move_to_deauth_state-IsAt host_id role_name applied s.sys at in
        rw (has, r) (inl (refl, after_details wake_poller _ _ there))
    take_role-IsRequested host_inst wake_poller deauth_error s has at =
        let (r, there) = move_to_deauth_state-IsAt host_id role_name deauth_error s.sys at in
        rw (has, r) (inl (refl, after_details wake_poller _ _ there))
    take_role-IsRequested host_inst wake_poller auth_error s has at =
        let (r, there) = move_to_deauth_state-IsAt host_id role_name auth_error s.sys at in
        rw (has, r) (inl (refl, after_details wake_poller _ _ there))
    take_role-IsRequested host_inst wake_poller s0 s has at =
        let (r, there) = move_to_deauth_state-IsAt host_id role_name s0 s.sys at in
        rw (has, r) (inr (refl, refl, there))

    -- Removing a role that an authorized host has, and that has an active version, either starts the
    -- removal or is refused as a conflict. It starts from applied and the two error states; then the
    -- role is in pre-deauth and the change of the host is published last if the call returns, and the
    -- role is in start-deauth or applied if it raises. From any other state it is refused, and the role
    -- stays where it is.
    pub delete_role-IsRequested :
        (role : Role) (host_inst : InventoryHost) (wake_poller : Bool) (s0 : RoleState) (s : Hub)
        → any (λ e. e.0 == host_id) s.unauthorized_hosts ≡ false
        → query_role role_name s.sys.db ≡ some role
        → get_host host_id s ≡ some host_inst
        → any (λ r. r == role_name) host_inst.roles ≡ true
        → IsAt host_id role_name s0 s.sys
        → IsRequested s0 (delete_role w broker render host_id role_name wake_poller s)
    unfolding delete_role delete_found
    delete_role-IsRequested role host_inst wake_poller s0 s authorized active there has at =
        rw (authorized, active, there) (take_role-IsRequested host_inst wake_poller s0 s has at)
