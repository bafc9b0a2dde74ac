-- ===== src/Poller/Rounds.antt =====
-- What one round of the loop of `_advance_from_transient_state` comes to.
use pf9_du.Prelude.{ℕ, suc, ◌≤◌, String, ◌≡◌, ◌⊎◌, inl, inr, refl, Bool, true, false, [], arith}
use pf9_du.Result.{Error, Result, ok, err}
use pf9_du.Exec.{Exec, ◌>>=◌, lift, continue, pure}
use pf9_du.RoleStates.{
  RoleState, not_applied, start_apply, pre_auth, auth_converging, auth_converged, auth_error,
  applied, start_edit, start_deauth, pre_deauth, deauth_converging, deauth_converged, deauth_error,
  legal_transition,
}
use pf9_du.Db.Associations.Laws.{view}
use pf9_du.RolesMgr.{
  World, Sys, HostDetails, on_auth, on_deauth, on_auth_converged, get_current_app_config, run_event,
}
use pf9_du.RolesMgr.Moves.{
  move_new_state, move_to_preauth_state, move_to_auth_converging_state, move_to_pre_deauth_state,
  move_to_deauth_converging_state, move_to_applied_state,
}
use pf9_du.RolesMgr.Moves.Keeps.{
  KeepsDb, run_event-KeepsDb, run_auth_event-KeepsDb, push_current-KeepsDb, remove_and_push-KeepsDb,
}
use pf9_du.RolesMgr.Moves.Outcome.{IsAt, target, move_new_state-IsAt}
use pf9_du.Poller.Removal.{IsRemoval-either, move_to_not_applied_state-ends}
use pf9_du.Poller.{transition}

-- How many more rounds of the loop a state needs.
abbrev pub rounds_left : RoleState → ℕ
rounds_left start_apply = 2
rounds_left start_edit = 2
rounds_left start_deauth = 2
rounds_left pre_auth = 1
rounds_left auth_converged = 1
rounds_left pre_deauth = 1
rounds_left deauth_converged = 1
rounds_left _ = 0

-- The states from which the resource manager itself has to move on.
abbrev pub is_transient : RoleState → Bool
is_transient start_apply = true
is_transient start_edit = true
is_transient pre_auth = true
is_transient auth_converged = true
is_transient start_deauth = true
is_transient pre_deauth = true
is_transient deauth_converged = true
is_transient _ = false

module _ (host_id role_name : String) where
  -- The role is not on the host any more, or stands there in one state that is not transient.
  abbrev pub IsSettled : Sys → Type 0
  IsSettled s =
      (view host_id role_name s.db ≡ [])
      ⊎ ((t : RoleState) × IsAt host_id role_name t s × (is_transient t ≡ false))

  -- What one round can come to.
  abbrev pub Round : RoleState → Result Bool × Sys → Type 0
  Round s0 (r, s) =
      ((t : RoleState) × IsAt host_id role_name t s
        × (suc (rounds_left t) ≤ rounds_left s0)
        × (r ≡ ok true))
      ⊎ ((r ≡ ok false) × IsSettled s)
      ⊎ ((e : Error) × (r ≡ err e))

  module _ (s0 success failure : RoleState) where
    then_more :
        (r : Result (Unit {0})) (s : Sys)
        → suc (rounds_left success) ≤ rounds_left s0
        → IsAt host_id role_name (target host_id role_name s0 success failure r) s
        → Round s0 (continue r (λ _. pure true) s)
    then_more (ok _) s fewer at = inl (success, at, fewer, refl)
    then_more (err e) s fewer at = inr (inr (e, refl))

    then_done :
        (r : Result (Unit {0})) (s : Sys)
        → is_transient success ≡ false
        → IsAt host_id role_name (target host_id role_name s0 success failure r) s
        → Round s0 (continue r (λ _. pure false) s)
    then_done (ok _) s rests at = inr (inl (refl, inr (success, at, rests)))
    then_done (err e) s rests at = inr (inr (e, refl))

  -- The state after a move, without its result's equation.
  pub moved :
      (s0 success failure : RoleState)
      → legal_transition s0 success ≡ true
      → (s0 ≡ failure) ⊎ (legal_transition s0 failure ≡ true)
      → (body : Exec Sys (Unit {0})) → KeepsDb body
      → (s : Sys) → IsAt host_id role_name s0 s
      → let (r, s') = move_new_state host_id role_name s0 success failure body s in
        IsAt host_id role_name (target host_id role_name s0 success failure r) s'
  moved s0 success failure legal back body keeps s at =
      let (same, there) =
        move_new_state-IsAt host_id role_name s0 success failure body s legal back keeps at in
      rw (← same) at there

  before_move :
      {A : Type 0} (s0 : RoleState) (r : Result A) (m : A → Exec Sys (Unit {0})) (s : Sys)
      → ((a : A) → Round s0 (continue (m a s).0 (λ _. pure true) (m a s).1))
      → Round s0 ((lift r >>= m >>= λ _. pure true) s)
  before_move s0 (ok a) m s h = h a
  before_move s0 (err e) m s h = inr (inr (e, refl))

module _ (w : World) (host_id : String) (host_details : HostDetails) (role_name : String) where
  removed-Round :
      (r : Result (Unit {0})) (s : Sys)
      → ((r ≡ ok tt) × ((view host_id role_name s.db ≡ []) ⊎ IsAt host_id role_name deauth_error s))
      → Round host_id role_name deauth_converged (continue r (λ _. pure false) s)
  removed-Round (ok _) s (_, inl gone) = inr (inl (refl, inl gone))
  removed-Round (ok _) s (_, inr at) = inr (inl (refl, inr (deauth_error, at, refl)))
  removed-Round (err e) s (never, _) = cc

  pub transition-Round :
      (s0 : RoleState) (s : Sys)
      → IsAt host_id role_name s0 s
      → Round host_id role_name s0 (transition w host_id host_details role_name s0 s)
  unfolding transition move_to_preauth_state move_to_auth_converging_state move_to_pre_deauth_state
      move_to_deauth_converging_state move_to_applied_state
  transition-Round start_apply s at =
      before_move host_id role_name start_apply (get_current_app_config host_details false) _ s
        λ app_info. then_more host_id role_name start_apply pre_auth not_applied _ _ (omega arith) (
          moved host_id role_name start_apply pre_auth not_applied (unfold legal_transition in refl)
            (inr (unfold legal_transition in refl)) (run_event w on_auth role_name app_info)
            (run_event-KeepsDb w on_auth role_name app_info) s at)
  transition-Round start_edit s at =
      before_move host_id role_name start_edit (get_current_app_config host_details false) _ s
        λ app_info. then_more host_id role_name start_edit pre_auth applied _ _ (omega arith) (
          moved host_id role_name start_edit pre_auth applied (unfold legal_transition in refl)
            (inr (unfold legal_transition in refl)) (run_event w on_auth role_name app_info)
            (run_event-KeepsDb w on_auth role_name app_info) s at)
  transition-Round pre_auth s at =
      then_more host_id role_name pre_auth auth_converging pre_auth _ _ (omega arith) (
        moved host_id role_name pre_auth auth_converging pre_auth (unfold legal_transition in refl)
          (inl refl) _ (push_current-KeepsDb w host_id host_details role_name) s at)
  transition-Round start_deauth s at =
      then_more host_id role_name start_deauth pre_deauth applied _ _ (omega arith) (
        moved host_id role_name start_deauth pre_deauth applied (unfold legal_transition in refl)
          (inr (unfold legal_transition in refl)) _
          (run_auth_event-KeepsDb w host_id host_details role_name on_deauth true) s at)
  transition-Round pre_deauth s at =
      then_more host_id role_name pre_deauth deauth_converging pre_deauth _ _ (omega arith) (
        moved host_id role_name pre_deauth deauth_converging pre_deauth
          (unfold legal_transition in refl) (inl refl) _
          (remove_and_push-KeepsDb w host_id host_details role_name) s at)
  transition-Round auth_converged s at =
      then_done host_id role_name auth_converged applied auth_error _ _ refl (
        moved host_id role_name auth_converged applied auth_error (unfold legal_transition in refl)
          (inr (unfold legal_transition in refl)) _
          (run_auth_event-KeepsDb w host_id host_details role_name on_auth_converged true) s at)
  transition-Round deauth_converged s at = removed-Round _ _ (
      IsRemoval-either w host_id host_details role_name _ _
        (move_to_not_applied_state-ends w host_id host_details role_name s at))
  transition-Round _ s at = inr (inl (refl, inr (_, at, refl)))
