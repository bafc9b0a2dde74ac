-- ===== src/Poller/Converged.antt =====
-- What the poller does to a role when its host has converged, or has given up converging.
use pf9_du.Prelude.{String, subst, ◌≡◌, ◌⊎◌, inl, inr, refl, Bool, true, false}
use pf9_du.Result.{Result, ok, err}
use pf9_du.RoleStates.{
  RoleState, auth_converging, auth_converged, auth_error, applied, deauth_converging,
  deauth_converged, deauth_error, legal_transition, state_eq,
}
use pf9_du.Db.Associations.{advance_role_state}
use pf9_du.RolesMgr.{World, Sys, HostDetails, on_auth_converged, on_deauth_converged}
use pf9_du.RolesMgr.Moves.{move_new_state, move_to_applied_state, run_auth_event}
use pf9_du.RolesMgr.Moves.Keeps.{run_auth_event-KeepsDb}
use pf9_du.RolesMgr.Moves.Outcome.{IsAt, target, move_new_state-IsAt, advance-IsAt, advance-not_at}
use pf9_du.Poller.{finish_role, fail_role}
use pf9_du.Poller.Removal.{
  IsRemoval, event_answer, run_auth_event-answer, move_to_not_applied_state-ends,
}

-- The state that a host's failure leaves a role in.
abbrev pub failed_state : RoleState → RoleState
failed_state auth_converging = auth_error
failed_state deauth_converging = deauth_error
failed_state s = s

abbrev pub is_waiting : RoleState → Bool
is_waiting auth_converging = true
is_waiting deauth_converging = true
is_waiting _ = false

module _ (w : World) (host_id role_name : String) where
  fail_neither :
      (s0 : RoleState) (s : Sys)
      → state_eq s0 auth_converging ≡ false
      → state_eq s0 deauth_converging ≡ false
      → IsAt host_id role_name s0 s
      → ((fail_role w host_id role_name s).0 ≡ ok false)
        × IsAt host_id role_name s0 (fail_role w host_id role_name s).1
  unfolding fail_role
  fail_neither s0 s n1 n2 at =
      let (r1, at1) =
        advance-not_at host_id role_name auth_converging auth_error s0 s.db
          (unfold legal_transition in refl) n1 at in
      rw r1 (
        advance-not_at host_id role_name deauth_converging deauth_error s0 _
          (unfold legal_transition in refl) n2 at1)

  -- A role that waits for its host moves to the error state of its direction, and the change is
  -- reported; a role in any other state stays in it, and no change is reported.
  pub fail_role-IsAt :
      (s0 : RoleState) (s : Sys)
      → IsAt host_id role_name s0 s
      → ((fail_role w host_id role_name s).0 ≡ ok (is_waiting s0))
        × IsAt host_id role_name (failed_state s0) (fail_role w host_id role_name s).1
  unfolding fail_role
  fail_role-IsAt auth_converging s at =
      let (r1, at1) =
        advance-IsAt host_id role_name auth_converging auth_error s.db
          (unfold legal_transition in refl) at in
      rw r1 (refl, at1)
  fail_role-IsAt deauth_converging s at =
      let (r1, at1) =
        advance-not_at host_id role_name auth_converging auth_error deauth_converging s.db
          (unfold legal_transition in refl) (unfold state_eq in refl) at in
      rw r1 (
        advance-IsAt host_id role_name deauth_converging deauth_error _
          (unfold legal_transition in refl) at1)
  fail_role-IsAt s0 s at = fail_neither s0 s (unfold state_eq in refl) (unfold state_eq in refl) at

module _ (w : World) (host_id : String) (host_details : HostDetails) (role_name : String) where
  -- The tables after an advance; the event runs on these.
  abbrev pub advanced : RoleState → RoleState → Sys → Sys
  advanced old new s = record s { db = (advance_role_state host_id role_name old new s.db).1 }

  -- A role that is applied, by what its event raised or returned.
  abbrev pub IsApplied : Result (Unit {0}) → Result (Unit {0}) × Sys → Type 0
  IsApplied (ok _) o = (o.0 ≡ ok tt) × IsAt host_id role_name applied o.1
  IsApplied (err e) o = (o.0 ≡ err e) × IsAt host_id role_name auth_error o.1

  -- What the body of the loop over the roles comes to, by the state that it starts from.
  abbrev pub Finished : RoleState → Sys → Result (Unit {0}) × Sys → Type 0
  Finished s0 s o =
      ((s0 ≡ auth_converging)
        × IsApplied
            (event_answer w host_id host_details role_name on_auth_converged
              (advanced auth_converging auth_converged s))
            o)
      ⊎ ((s0 ≡ deauth_converging)
          × IsRemoval w host_id host_details role_name
              (event_answer w host_id host_details role_name on_deauth_converged (
                advanced deauth_converging deauth_converged
                  (advanced auth_converging auth_converged s)))
              o)
      ⊎ ((is_waiting s0 ≡ false) × (o.0 ≡ ok tt) × IsAt host_id role_name s0 o.1)

  applied_or_error :
      (r r' : Result (Unit {0})) (s : Sys)
      → r' ≡ r
      → IsAt host_id role_name (target host_id role_name auth_converged applied auth_error r) s
      → IsApplied r (r', s)
  applied_or_error (ok _) r' s same at = (same, at)
  applied_or_error (err e) r' s same at = (same, at)

  finish_neither :
      (s0 : RoleState) (s : Sys)
      → state_eq s0 auth_converging ≡ false
      → state_eq s0 deauth_converging ≡ false
      → IsAt host_id role_name s0 s
      → let (r, s') = finish_role w host_id host_details role_name s in
        (r ≡ ok tt) × IsAt host_id role_name s0 s'
  unfolding finish_role
  finish_neither s0 s n1 n2 at =
      let (r1, at1) =
        advance-not_at host_id role_name auth_converging auth_converged s0 s.db
          (unfold legal_transition in refl) n1 at in
      let (r2, at2) =
        advance-not_at host_id role_name deauth_converging deauth_converged s0 _
          (unfold legal_transition in refl) n2 at1 in
      rw (r1, r2) (refl, at2)

  -- A role that waits for its host to apply it becomes applied if its event returns, and goes to the
  -- error state, with the event's exception, if that raises; one that waits to be removed is gone if
  -- its event returns, and in the error state if that raises; any other role stays as it is.
  pub finish_role-Finished :
      (s0 : RoleState) (s : Sys)
      → IsAt host_id role_name s0 s
      → Finished s0 s (finish_role w host_id host_details role_name s)
  unfolding finish_role move_to_applied_state
  finish_role-Finished auth_converging s at =
      let (r1, at1) =
        advance-IsAt host_id role_name auth_converging auth_converged s.db
          (unfold legal_transition in refl) at in
      let body = run_auth_event w host_id host_details role_name on_auth_converged true in
      let converged = advanced auth_converging auth_converged s in
      let (same, there) =
        move_new_state-IsAt host_id role_name auth_converged applied auth_error body converged
          (unfold legal_transition in refl) (inr (unfold legal_transition in refl))
          (run_auth_event-KeepsDb w host_id host_details role_name on_auth_converged true) at1 in
      let (result, after) =
        move_new_state host_id role_name auth_converged applied auth_error body converged in
      rw r1 (
        inl (
          refl,
          subst (λ r. IsApplied r (result, after))
              (run_auth_event-answer w host_id host_details role_name on_auth_converged converged)
              (applied_or_error (body converged).0 result after same there),
        ))
  finish_role-Finished deauth_converging s at =
      let (r1, at1) =
        advance-not_at host_id role_name auth_converging auth_converged deauth_converging s.db
          (unfold legal_transition in refl) (unfold state_eq in refl) at in
      let (r2, at2) =
        advance-IsAt host_id role_name deauth_converging deauth_converged
          (advance_role_state host_id role_name auth_converging auth_converged s.db).1
          (unfold legal_transition in refl) at1 in
      rw (r1, r2)
        (inr (
          inl (
            refl,
            move_to_not_applied_state-ends w host_id host_details role_name
                (advanced deauth_converging deauth_converged
                  (advanced auth_converging auth_converged s))
                at2,
          )))
  finish_role-Finished s0 s at =
      let (result, there) =
        finish_neither s0 s (unfold state_eq in refl) (unfold state_eq in refl) at in
      inr (inr (refl, result, there))
