-- ===== src/Poller/Removal.antt =====
-- How `move_to_not_applied_state` ends.
use pf9_du.Prelude.{
  String, subst, ◌≡◌, ◌⊎◌, inl, inr, refl, ap, ◌∙◌, true, not, List, [], ◌∷◌, map, arith, select,
}
use pf9_du.Result.{Error, Result, ok, err}
use pf9_du.Exec.{continue, handle, try_except, lift, ◌>>=◌}
use pf9_du.Json.{Fields}
use pf9_du.RoleStates.{RoleState, deauth_converged, deauth_error, legal_transition}
use pf9_du.Db.{Db, HostRoleAssociation, role_ids, is_assoc_of}
use pf9_du.Db.Associations.{advance_role_state, remove_role_from_host}
use pf9_du.Db.Associations.Laws.{view, states_of, advance_role_state-swaps}
use pf9_du.RolesMgr.{
  World, Sys, HostDetails, EventMethod, on_deauth_converged, get_current_app_config, run_event,
}
use pf9_du.RolesMgr.Moves.{
  move_to_not_applied_state, drop_association, delete_host, delete_if_last, removal_failed,
  run_auth_event,
}
use pf9_du.RolesMgr.Moves.Keeps.{run_auth_event-KeepsDb}
use pf9_du.RolesMgr.Moves.Outcome.{IsAt, advance-IsAt}

module _ (host_id role_name : String) where
  remove-view :
      (db : Db) → view host_id role_name (remove_role_from_host host_id role_name db).1 ≡ []
  unfolding view states_of remove_role_from_host role_ids
  remove-view db = none_left (role_ids role_name db) db.assocs
    where
      none_left :
          (ids : List String) (l : List HostRoleAssociation)
          → map
              (λ a. a.current_state)
              (select (is_assoc_of host_id ids) (select (λ a. not (is_assoc_of host_id ids a)) l))
            ≡ []
      none_left ids [] = refl
      none_left ids (a ∷ l) = ground (arith, none_left ids l)

  view-delete_host :
      (db : Db) → view host_id role_name (delete_host host_id db).1 ≡ view host_id role_name db
  unfolding view delete_host role_ids
  view-delete_host db = ground arith

  -- An advance finds nothing to move where the role is not associated.
  advance-absent :
      (old new : RoleState) (db : Db)
      → legal_transition old new ≡ true
      → view host_id role_name db ≡ []
      → view host_id role_name (advance_role_state host_id role_name old new db).1 ≡ []
  advance-absent old new db legal absent =
      let (_, after) = advance_role_state-swaps host_id role_name old new db legal in
      rw absent at after

module _ (w : World) (host_id : String) (host_details : HostDetails) (role_name : String) where
  delete_if_last-view :
      (left : List HostRoleAssociation) (s : Sys)
      → view host_id role_name s.db ≡ []
      → view host_id role_name (delete_if_last w host_id host_details role_name left s).1.db ≡ []
  unfolding delete_if_last
  delete_if_last-view [] s gone = view-delete_host host_id role_name s.db ∙ gone
  delete_if_last-view (_ ∷ _) s gone = gone

  drop-view :
      (s : Sys)
      → view host_id role_name (drop_association w host_id host_details role_name s).1.db ≡ []
  unfolding drop_association remove_role_from_host
  drop-view s =
      delete_if_last-view _ _ (unfold remove_role_from_host in remove-view host_id role_name s.db)

  -- What the event of a move raises or returns: the configuration is computed, then the event is run.
  abbrev pub event_answer : EventMethod → Sys → Result (Unit {0})
  event_answer method s = elim (get_current_app_config host_details true) [
    | err e ↦ err e
    | ok app_info ↦ (run_event w method role_name app_info s).0
  ]

  pub run_auth_event-answer :
      (method : EventMethod) (s : Sys)
      → (run_auth_event w host_id host_details role_name method true s).0 ≡ event_answer method s
  unfolding run_auth_event
  run_auth_event-answer method s = by_config (get_current_app_config host_details true)
    where
      by_config :
          (c : Result Fields)
          → ((lift c >>= run_event w method role_name) s).0
            ≡ elim c [ err e ↦ err e | ok app_info ↦ (run_event w method role_name app_info s).0 ]
      by_config (ok app_info) = refl
      by_config (err e) = refl

  abbrev IsGone : Result (Unit {0}) × Sys → Type 0
  IsGone o = (o.0 ≡ ok tt) × (view host_id role_name o.1.db ≡ [])

  -- How a removal ends, by what its event raised or returned: the role is gone, or in the error state;
  -- nothing is raised.
  abbrev pub IsRemoval : Result (Unit {0}) → Result (Unit {0}) × Sys → Type 0
  IsRemoval (ok _) o = (o.0 ≡ ok tt) × (view host_id role_name o.1.db ≡ [])
  IsRemoval (err e) o = (o.0 ≡ ok tt) × IsAt host_id role_name deauth_error o.1

  failed-IsGone :
      (e : Error) (s : Sys)
      → view host_id role_name s.db ≡ []
      → IsGone (removal_failed w host_id host_details role_name e s)
  unfolding removal_failed
  failed-IsGone e s gone =
      let (result, after) =
        advance_role_state-swaps host_id role_name deauth_converged deauth_error s.db
          (unfold legal_transition in refl) in
      rw result (refl, rw gone at after)

  failed_there :
      (e : Error) (s : Sys)
      → IsAt host_id role_name deauth_converged s
      → IsRemoval (err e) (removal_failed w host_id host_details role_name e s)
  unfolding removal_failed
  failed_there e s at =
      let (result, after) =
        advance-IsAt host_id role_name deauth_converged deauth_error s.db
          (unfold legal_transition in refl) at in
      rw result (refl, after)

  after-IsGone :
      (r : Result (Unit {0})) (s : Sys)
      → view host_id role_name s.db ≡ []
      → IsGone (handle r (removal_failed w host_id host_details role_name) s)
  after-IsGone (ok _) s gone = (refl, gone)
  after-IsGone (err e) s gone = failed-IsGone e s gone

  after_event :
      (r : Result (Unit {0})) (s : Sys)
      → IsAt host_id role_name deauth_converged s
      → IsRemoval r (
          try_except
            (continue r (λ _. drop_association w host_id host_details role_name))
            (removal_failed w host_id host_details role_name)
            s)
  after_event (ok _) s at = after-IsGone _ _ (drop-view s)
  after_event (err e) s at = failed_there e s at

  -- A role that the host has removed is gone if its event returns, and in the error state if its event
  -- raises; the move itself raises nothing.
  pub move_to_not_applied_state-ends :
      (s : Sys)
      → IsAt host_id role_name deauth_converged s
      → IsRemoval
          (event_answer on_deauth_converged s)
          (move_to_not_applied_state w host_id host_details role_name s)
  unfolding move_to_not_applied_state
  move_to_not_applied_state-ends s at =
      subst (λ r. IsRemoval r (move_to_not_applied_state w host_id host_details role_name s))
        (run_auth_event-answer on_deauth_converged s)
        (after_event _ _ (
          ap (view host_id role_name) (
            (run_auth_event-KeepsDb w host_id host_details role_name on_deauth_converged true).at s)
          ∙ at))

  -- A removal raises nothing, and the role is gone or in the error state.
  pub IsRemoval-either :
      (r : Result (Unit {0})) (o : Result (Unit {0}) × Sys)
      → IsRemoval r o
      → (o.0 ≡ ok tt)
        × ((view host_id role_name o.1.db ≡ []) ⊎ IsAt host_id role_name deauth_error o.1)
  IsRemoval-either (ok _) o (returned, gone) = (returned, inl gone)
  IsRemoval-either (err e) o (returned, at) = (returned, inr at)
