-- ===== src/Examples/Roles.antt =====
-- The theorems on role states, applied to one role on one host.
use pf9_du.Prelude.{◌≡◌, ◌↔◌, inr, refl, true, false, [], ◌∷◌, arith}
use pf9_du.Result.{ok}
use pf9_du.RoleStates.{
  state_eq, not_applied, start_apply, pre_auth, auth_converging, auth_converged, auth_error,
  applied, deauth_converged, legal_transition,
}
use pf9_du.Exec.{Exec}
use pf9_du.RoleStates.Graph.{Reaches, legal_transition_iff, no_dead_end, Edge}
use pf9_du.Db.{role_ids, is_assoc_of}
use pf9_du.Db.Associations.{advance_role_state}
use pf9_du.Db.Associations.Laws.{view, states_of, advance_role_state-swaps}
use pf9_du.RolesMgr.{Sys, on_auth_converged, on_deauth_converged}
use pf9_du.RolesMgr.Moves.{move_new_state, move_to_not_applied_state, run_auth_event}
use pf9_du.RolesMgr.Moves.Keeps.{run_auth_event-KeepsDb}
use pf9_du.RolesMgr.Moves.Outcome.{IsAt, target, move_new_state-IsAt}
use pf9_du.Poller.{advance_role, finish_role, fail_role}
use pf9_du.Poller.Removal.{IsRemoval, event_answer, move_to_not_applied_state-ends}
use pf9_du.Poller.Settling.{Settles, advance_role-Settles}
use pf9_du.Poller.Converged.{Finished, fail_role-IsAt, finish_role-Finished}
use pf9_du.Examples.{found-IsAt, db_at, sys_at, world_where, details}

legal_transition_iff_example :
    (legal_transition pre_auth auth_converging ≡ true) ↔ Edge pre_auth auth_converging
legal_transition_iff_example = legal_transition_iff pre_auth auth_converging

no_dead_end_example : Reaches auth_error applied × Reaches auth_error not_applied
no_dead_end_example = no_dead_end auth_error

advance_role_state-swaps_example :
    ((advance_role_state "h1" "nova" pre_auth auth_converging (db_at pre_auth)).0 ≡ ok true)
    × (view "h1" "nova" (advance_role_state "h1" "nova" pre_auth auth_converging (db_at pre_auth)).1
        ≡ auth_converging ∷ [])
unfolding view states_of role_ids is_assoc_of state_eq
advance_role_state-swaps_example =
    advance_role_state-swaps "h1" "nova" pre_auth auth_converging (db_at pre_auth)
      (unfold legal_transition in refl)

abbrev body : Exec Sys (Unit {0})
body = run_auth_event (world_where true) "h1" details "nova" on_auth_converged true

move_new_state-IsAt_example :
    ((move_new_state "h1" "nova" auth_converged applied auth_error body (sys_at auth_converged)).0
      ≡ (body (sys_at auth_converged)).0)
    × IsAt "h1" "nova"
        (target "h1" "nova" auth_converged applied auth_error (body (sys_at auth_converged)).0)
        (move_new_state "h1" "nova" auth_converged applied auth_error body
          (sys_at auth_converged)).1
move_new_state-IsAt_example =
    move_new_state-IsAt "h1" "nova" auth_converged applied auth_error body (sys_at auth_converged)
      (unfold legal_transition in refl) (inr (unfold legal_transition in refl))
      (run_auth_event-KeepsDb (world_where true) "h1" details "nova" on_auth_converged true)
      (found-IsAt auth_converged)

move_to_not_applied_state-ends_example :
    IsRemoval
      (world_where false)
      "h1"
      details
      "nova"
      (event_answer
        (world_where false)
        "h1"
        details
        "nova"
        on_deauth_converged
        (sys_at deauth_converged))
      (move_to_not_applied_state (world_where false) "h1" details "nova" (sys_at deauth_converged))
move_to_not_applied_state-ends_example =
    move_to_not_applied_state-ends (world_where false) "h1" details "nova" (sys_at deauth_converged)
      (found-IsAt deauth_converged)

advance_role-Settles_example :
    Settles
      (world_where true)
      "h1"
      details
      "nova"
      (advance_role (world_where true) "h1" details "nova" 3 (sys_at start_apply))
advance_role-Settles_example =
    advance_role-Settles (world_where true) "h1" details "nova" 3 (sys_at start_apply) (omega arith)

fail_role-IsAt_example :
    ((fail_role (world_where true) "h1" "nova" (sys_at auth_converging)).0 ≡ ok true)
    × IsAt "h1" "nova" auth_error
        (fail_role (world_where true) "h1" "nova" (sys_at auth_converging)).1
fail_role-IsAt_example =
    fail_role-IsAt (world_where true) "h1" "nova" auth_converging (sys_at auth_converging)
      (found-IsAt auth_converging)

finish_role-Finished_example :
    Finished
      (world_where false)
      "h1"
      details
      "nova"
      auth_converging
      (sys_at auth_converging)
      (finish_role (world_where false) "h1" details "nova" (sys_at auth_converging))
finish_role-Finished_example =
    finish_role-Finished (world_where false) "h1" details "nova" auth_converging
      (sys_at auth_converging) (found-IsAt auth_converging)
