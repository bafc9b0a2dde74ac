-- ===== src/RolesMgr/Moves/Outcome.antt =====
-- What a move does to the states in which the role stands on the host.
use pf9_du.Prelude.{String, ◌≡◌, ◌⊎◌, inl, inr, refl, ap, ◌∙◌, true, false, [], ◌∷◌, arith}
use pf9_du.Result.{Result, ok, err}
use pf9_du.Exec.{Exec}
use pf9_du.RoleStates.{RoleState, state_eq, legal_transition}
use pf9_du.RoleStates.Graph.{state_eq_iff}
use pf9_du.Db.{Db}
use pf9_du.Db.Associations.{advance_role_state}
use pf9_du.Db.Associations.Laws.{view, advance_role_state-swaps}
use pf9_du.RolesMgr.{Sys}
use pf9_du.RolesMgr.Moves.{exit_move, move_new_state}
use pf9_du.RolesMgr.Moves.Keeps.{KeepsDb}

pub state_eq_refl : (s : RoleState) → state_eq s s ≡ true
state_eq_refl s = (state_eq_iff s s).1 refl

module _ (host_id role_name : String) where
  -- The role stands on the host in the one state `s`.
  abbrev pub IsAt : RoleState → Sys → Type 0
  IsAt s sys = view host_id role_name sys.db ≡ s ∷ []

  pub advance-IsAt :
      (old new : RoleState) (db : Db)
      → legal_transition old new ≡ true
      → view host_id role_name db ≡ old ∷ []
      → ((advance_role_state host_id role_name old new db).0 ≡ ok true)
        × (view host_id role_name (advance_role_state host_id role_name old new db).1 ≡ new ∷ [])
  advance-IsAt old new db legal at =
      let (result, after) = advance_role_state-swaps host_id role_name old new db legal in
      (rw (at, state_eq_refl old) at result, rw (at, state_eq_refl old) at after)

  -- Not in the state assumed, the advance reports failure and changes nothing.
  pub advance-not_at :
      (old new s : RoleState) (db : Db)
      → legal_transition old new ≡ true
      → state_eq s old ≡ false
      → view host_id role_name db ≡ s ∷ []
      → ((advance_role_state host_id role_name old new db).0 ≡ ok false)
        × (view host_id role_name (advance_role_state host_id role_name old new db).1 ≡ s ∷ [])
  advance-not_at old new s db legal other at =
      let (result, after) = advance_role_state-swaps host_id role_name old new db legal in
      (rw (at, other) at result, rw (at, other) at after)

  module _ (start success failure : RoleState) where
    abbrev pub target : Result (Unit {0}) → RoleState
    target (ok _) = success
    target (err _) = failure

    exit_move-IsAt :
        (r : Result (Unit {0})) (s : Sys)
        → legal_transition start success ≡ true
        → (start ≡ failure) ⊎ (legal_transition start failure ≡ true)
        → IsAt start s
        → ((exit_move host_id role_name start success failure r s).0 ≡ r)
          × IsAt (target r) (exit_move host_id role_name start success failure r s).1
    unfolding exit_move
    exit_move-IsAt (ok _) s legal back at = ground (arith, advance-IsAt start success s.db legal at)
    exit_move-IsAt (err e) s legal (inl same) at =
        ground (arith, same, state_eq_refl start, state_eq_iff start failure)
    exit_move-IsAt (err e) s legal (inr lawful) at =
        ground (arith, state_eq_iff start failure, advance-IsAt start failure s.db lawful at)

    -- A move whose body leaves the database alone ends in the success state if the body returns and
    -- in the failure state if the body raises, and hands on what the body returned or raised.
    pub move_new_state-IsAt :
        (body : Exec Sys (Unit {0})) (s : Sys)
        → legal_transition start success ≡ true
        → (start ≡ failure) ⊎ (legal_transition start failure ≡ true)
        → KeepsDb body
        → IsAt start s
        → ((move_new_state host_id role_name start success failure body s).0 ≡ (body s).0)
          × IsAt
              (target (body s).0)
              (move_new_state host_id role_name start success failure body s).1
    unfolding move_new_state
    move_new_state-IsAt body s legal back keeps at =
        exit_move-IsAt (body s).0 (body s).1 legal back
          (ap (view host_id role_name) (keeps.at s) ∙ at)
