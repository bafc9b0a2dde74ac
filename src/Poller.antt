-- ===== src/Poller.antt =====
-- The state machine part of `BbonePoller` (resmgr/resmgr/resmgr_provider_pf9.py): moving the roles
-- of a host on from transient states, and after the host has converged or has failed to.
pub mod Removal
pub mod Rounds
pub mod Messages
pub mod Hosts
pub mod Settling
pub mod Converged
use pf9_du.Prelude.{
  ℕ, zero, suc, ◌+◌, String, Bool, true, false, Option, none, some, List, [], ◌∷◌, ◌++◌, map,
  if◌then◌else◌,
}
use pf9_du.Result.{
  Error, Result, ok, err, type_error, unbound_local_error, support_request_failed, du_config_error,
}
use pf9_du.Exec.{Exec, pure, raise, lift, gets, ◌>>=◌, ◌>>◌, try_except}
use pf9_du.RoleStates.{
  RoleState, start_apply, pre_auth, auth_converging, auth_converged, auth_error, start_edit,
  start_deauth, pre_deauth, deauth_converging, deauth_converged, deauth_error,
}
use pf9_du.Db.{Role, HostRoleAssociation, query_roles_for_host}
use pf9_du.Db.Associations.{advance_role_state, get_current_role_association}
use pf9_du.RolesMgr.{World, Sys, HostDetails, support_bundle, on_db, record_effect}
use pf9_du.RolesMgr.Moves.{
  move_to_preauth_state, move_to_auth_converging_state, move_to_pre_deauth_state,
  move_to_deauth_converging_state, move_to_applied_state, move_to_not_applied_state,
}

-- The outcome of the `while` loop; `none` is no outcome of the source but fuel that ran out.
abbrev pub Outcome : Type 0
Outcome = Option (Result (Unit {0}) × Sys)

module _ (w : World) (host_id : String) (host_details : HostDetails) where
  module _ (role_name : String) where
    -- The branches of the loop's body; the result is `more_transitions`.
    unfoldable pub transition : RoleState → Exec Sys Bool
    transition start_apply = do
      move_to_preauth_state w host_id host_details role_name start_apply
      pure true
    transition start_edit = do
      move_to_preauth_state w host_id host_details role_name start_edit
      pure true
    transition pre_auth = do
      move_to_auth_converging_state w host_id host_details role_name
      pure true
    transition auth_converged = do
      move_to_applied_state w host_id host_details role_name
      pure false
    transition start_deauth = do
      move_to_pre_deauth_state w host_id host_details role_name start_deauth
      pure true
    transition pre_deauth = do
      move_to_deauth_converging_state w host_id host_details role_name
      pure true
    transition deauth_converged = do
      move_to_not_applied_state w host_id host_details role_name
      pure false
    transition _ = pure false

    abbrev pub again : Result Bool × Sys → (Sys → Outcome) → Outcome
    again (ok true, s) rest = rest s
    again (ok false, s) rest = some (ok tt, s)
    again (err e, s) rest = some (err e, s)

    -- `if not assoc: break`, or the loop's body on its state.
    unfoldable pub on_found : Result (Option HostRoleAssociation) → Sys → (Sys → Outcome) → Outcome
    on_found (err e) s rest = some (err e, s)
    on_found (ok none) s rest = some (ok tt, s)
    on_found (ok (some assoc)) s rest = again (transition assoc.current_state s) rest

    unfoldable pub advance_role : ℕ → Sys → Outcome
    advance_role zero s = none
    advance_role (suc fuel) s =
        let rest : Sys → Outcome = λ s'. advance_role fuel s' in
        on_found (get_current_role_association host_id role_name s.db).0 s rest

  abbrev pub after_role : Outcome → (Sys → Outcome) → Outcome
  after_role none rest = none
  after_role (some (ok _, s)) rest = rest s
  after_role (some (err e, s)) rest = some (err e, s)

  -- The `for` loop over the roles of the host.
  unfoldable pub advance_from_transient_state : ℕ → List Role → Sys → Outcome
  advance_from_transient_state fuel [] s = some (ok tt, s)
  advance_from_transient_state fuel (r ∷ roles) s =
      after_role (advance_role r.rolename fuel s) (advance_from_transient_state fuel roles)

  -- The body of the loop in `_finish_role_converge`.
  unfoldable pub finish_role : String → Exec Sys (Unit {0})
  unfolding on_db
  finish_role role_name = do
    moved ← on_db (advance_role_state host_id role_name auth_converging auth_converged)
    if moved then move_to_applied_state w host_id host_details role_name else do
      removed ← on_db (advance_role_state host_id role_name deauth_converging deauth_converged)
      if removed then move_to_not_applied_state w host_id host_details role_name else pure tt

  abbrev pub ignore_du_config_error : Error → Exec Sys (Unit {0})
  ignore_du_config_error du_config_error = pure tt
  ignore_du_config_error e = raise e

  finish_roles : List Role → Exec Sys (Unit {0})
  finish_roles [] = pure tt
  finish_roles (r ∷ roles) = do
    try_except (finish_role r.rolename) ignore_du_config_error
    finish_roles roles

  unfoldable pub finish_role_converge : Exec Sys (Unit {0})
  unfolding finish_roles
  finish_role_converge = do
    roles ← gets (λ s. query_roles_for_host host_id s.db)
    elim roles [ none ↦ pure tt | some l ↦ finish_roles l ]

module _ (w : World) (host_id : String) where
  -- The body of the loop in `_fail_role_converge`; the result says whether a state was changed.
  unfoldable pub fail_role : String → Exec Sys Bool
  unfolding on_db
  fail_role role_name = do
    failed ← on_db (advance_role_state host_id role_name auth_converging auth_error)
    if failed
        then pure true
        else on_db (advance_role_state host_id role_name deauth_converging deauth_error)

  unfoldable pub fail_roles : List Role → Bool → Exec Sys Bool
  fail_roles [] need_support_bundle = pure need_support_bundle
  fail_roles (r ∷ roles) need_support_bundle = do
    changed ← fail_role r.rolename
    fail_roles roles (if changed then true else need_support_bundle)

  -- The handler reads the status of the response, which is unbound if the request itself failed.
  unfoldable pub request_support_bundle : Exec Sys (Unit {0})
  unfolding record_effect
  request_support_bundle s = (
    elim (w.post_bundle host_id s.calls) [
      | none ↦ err unbound_local_error
      | some false ↦ err support_request_failed
      | some true ↦ ok tt
    ],
    (record_effect (support_bundle host_id) s).1,
  )

  unfoldable pub fail_role_converge : Exec Sys (Unit {0})
  fail_role_converge = do
    roles ← gets (λ s. query_roles_for_host host_id s.db)
    elim roles [
      | none ↦ raise type_error
      | some l ↦ do
        need_support_bundle ← fail_roles l false
        if need_support_bundle then request_support_bundle else pure tt
    ]
