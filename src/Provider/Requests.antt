-- ===== src/Provider/Requests.antt =====
-- In which states a role can be requested for a host, or its removal, and which state follows.
use pf9_du.Prelude.{String, ◌≡◌, refl, true, false, Option, none, some, if◌then◌else◌}
use pf9_du.Result.{Result, ok, err, role_update_conflict}
use pf9_du.Exec.{Exec, ◌>>=◌, pure}
use pf9_du.RoleStates.{
  RoleState, not_applied, start_apply, auth_error, applied, start_edit, start_deauth, deauth_error,
  state_eq, legal_transition,
}
use pf9_du.Db.Associations.{advance_role_state}
use pf9_du.RolesMgr.{Sys, on_db}
use pf9_du.RolesMgr.Moves.Outcome.{IsAt, advance-IsAt, advance-not_at}
use pf9_du.Provider.{move_to_apply_edit_state, move_to_deauth_state}

-- The state that a request to apply or edit leads to; none where it is refused.
abbrev pub apply_target : RoleState → Option RoleState
apply_target not_applied = some start_apply
apply_target applied = some start_edit
apply_target auth_error = some start_apply
apply_target _ = none

-- The same for a request to remove.
abbrev pub deauth_target : RoleState → Option RoleState
deauth_target applied = some start_deauth
deauth_target deauth_error = some start_deauth
deauth_target auth_error = some start_deauth
deauth_target _ = none

abbrev pub answer : Option RoleState → Result RoleState
answer none = err role_update_conflict
answer (some t) = ok t

abbrev pub state_after : RoleState → Option RoleState → RoleState
state_after s0 none = s0
state_after s0 (some t) = t

module _ (host_id role_name : String) where
  abbrev Answers : RoleState → Option RoleState → Result RoleState × Sys → Type 0
  Answers s0 t o = (o.0 ≡ answer t) × IsAt host_id role_name (state_after s0 t) o.1

  abbrev attempt : RoleState → RoleState → Exec Sys RoleState → Exec Sys RoleState
  attempt old new rest =
      on_db (advance_role_state host_id role_name old new) >>= λ b. if b then pure new else rest

  attempt-hit :
      (old new : RoleState) (rest : Exec Sys RoleState) (s : Sys)
      → legal_transition old new ≡ true
      → IsAt host_id role_name old s
      → Answers old (some new) (attempt old new rest s)
  unfolding on_db
  attempt-hit old new rest s legal at =
      let (r, there) = advance-IsAt host_id role_name old new s.db legal at in rw r (refl, there)

  attempt-miss :
      (old new s0 : RoleState) (t : Option RoleState) (rest : Exec Sys RoleState) (s : Sys)
      → legal_transition old new ≡ true
      → state_eq s0 old ≡ false
      → ((s' : Sys) → IsAt host_id role_name s0 s' → Answers s0 t (rest s'))
      → IsAt host_id role_name s0 s
      → Answers s0 t (attempt old new rest s)
  unfolding on_db
  attempt-miss old new s0 t rest s legal other next at =
      let (r, there) = advance-not_at host_id role_name old new s0 s.db legal other at in
      rw r (next _ there)

  -- A request to apply a role is granted where the role is not-applied, applied or in auth-error: it
  -- then stands in start-apply, start-edit or start-apply. In any other state, deauth-error among
  -- them, it is refused as a conflict and the role stays where it is.
  pub move_to_apply_edit_state-IsAt :
      (s0 : RoleState) (s : Sys)
      → IsAt host_id role_name s0 s
      → ((move_to_apply_edit_state host_id role_name s).0 ≡ answer (apply_target s0))
        × IsAt host_id role_name
            (state_after s0 (apply_target s0))
            (move_to_apply_edit_state host_id role_name s).1
  unfolding move_to_apply_edit_state
  move_to_apply_edit_state-IsAt not_applied s0 at0 =
      attempt-hit not_applied start_apply _ s0 (unfold legal_transition in refl) at0
  move_to_apply_edit_state-IsAt applied s0 at0 =
      attempt-miss not_applied start_apply applied (some start_edit) _ s0
        (unfold legal_transition in refl) (unfold state_eq in refl)
        (λ s1 at1. attempt-hit applied start_edit _ s1 (unfold legal_transition in refl) at1) at0
  move_to_apply_edit_state-IsAt auth_error s0 at0 =
      attempt-miss not_applied start_apply auth_error (some start_apply) _ s0
        (unfold legal_transition in refl) (unfold state_eq in refl)
        (λ s1 at1.
          attempt-miss applied start_edit auth_error (some start_apply) _ s1
            (unfold legal_transition in refl) (unfold state_eq in refl)
            (λ s2 at2.
              attempt-hit auth_error start_apply _ s2 (unfold legal_transition in refl) at2)
            at1)
        at0
  move_to_apply_edit_state-IsAt t s0 at0 =
      attempt-miss not_applied start_apply t (apply_target t) _ s0 (unfold legal_transition in refl)
        (unfold state_eq in refl)
        (λ s1 at1.
          attempt-miss applied start_edit t (apply_target t) _ s1 (unfold legal_transition in refl)
            (unfold state_eq in refl)
            (λ s2 at2.
              attempt-miss auth_error start_apply t (apply_target t) _ s2
                (unfold legal_transition in refl) (unfold state_eq in refl) (λ s3 at3. (refl, at3))
                at2)
            at1)
        at0

  -- A request to remove a role is granted where the role is applied or in error, and the role then
  -- stands in start-deauth; in any other state it is refused as a conflict and the role stays where
  -- it is.
  pub move_to_deauth_state-IsAt :
      (s0 : RoleState) (s : Sys)
      → IsAt host_id role_name s0 s
      → ((move_to_deauth_state host_id role_name s).0 ≡ answer (deauth_target s0))
        × IsAt host_id role_name
            (state_after s0 (deauth_target s0))
            (move_to_deauth_state host_id role_name s).1
  unfolding move_to_deauth_state
  move_to_deauth_state-IsAt applied s0 at0 =
      attempt-hit applied start_deauth _ s0 (unfold legal_transition in refl) at0
  move_to_deauth_state-IsAt deauth_error s0 at0 =
      attempt-miss applied start_deauth deauth_error (some start_deauth) _ s0
        (unfold legal_transition in refl) (unfold state_eq in refl)
        (λ s1 at1. attempt-hit deauth_error start_deauth _ s1 (unfold legal_transition in refl) at1)
        at0
  move_to_deauth_state-IsAt auth_error s0 at0 =
      attempt-miss applied start_deauth auth_error (some start_deauth) _ s0
        (unfold legal_transition in refl) (unfold state_eq in refl)
        (λ s1 at1.
          attempt-miss deauth_error start_deauth auth_error (some start_deauth) _ s1
            (unfold legal_transition in refl) (unfold state_eq in refl)
            (λ s2 at2.
              attempt-hit auth_error start_deauth _ s2 (unfold legal_transition in refl) at2)
            at1)
        at0
  move_to_deauth_state-IsAt t s0 at0 =
      attempt-miss applied start_deauth t (deauth_target t) _ s0 (unfold legal_transition in refl)
        (unfold state_eq in refl)
        (λ s1 at1.
          attempt-miss deauth_error start_deauth t (deauth_target t) _ s1
            (unfold legal_transition in refl) (unfold state_eq in refl)
            (λ s2 at2.
              attempt-miss auth_error start_deauth t (deauth_target t) _ s2
                (unfold legal_transition in refl) (unfold state_eq in refl) (λ s3 at3. (refl, at3))
                at2)
            at1)
        at0
