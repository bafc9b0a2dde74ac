-- ===== src/Poller/Settling.antt =====
-- `_advance_from_transient_state` ends, and leaves each role that it is done with in a state that
-- waits for the host or is settled.
use pf9_du.Prelude.{
  ℕ, zero, suc, ◌≤◌, ◌<◌, String, ◌≡◌, ◌⊎◌, inl, inr, refl, Bool, none, some, List, [], ◌∷◌, map,
  arith, select,
}
use pf9_du.Result.{Error, Result, ok, err, multiple_results}
use pf9_du.RoleStates.{RoleState, start_apply}
use pf9_du.Db.{Db, Role, HostRoleAssociation, role_ids, is_assoc_of}
use pf9_du.Db.Associations.{get_current_role_association, one_or_none}
use pf9_du.Db.Associations.Laws.{view, states_of}
use pf9_du.RolesMgr.{World, Sys, HostDetails}
use pf9_du.RolesMgr.Moves.Outcome.{IsAt}
use pf9_du.Poller.Rounds.{rounds_left, IsSettled, Round, transition-Round}
use pf9_du.Poller.{Outcome, again, advance_role, on_found, advance_from_transient_state}

one_or_none_cases :
    (l : List HostRoleAssociation)
    → ((map (λ a. a.current_state) l ≡ []) × (one_or_none l ≡ ok none))
      ⊎ ((a : HostRoleAssociation) × (map (λ b. b.current_state) l ≡ a.current_state ∷ [])
          × (one_or_none l ≡ ok (some a)))
      ⊎ (one_or_none l ≡ err multiple_results)
unfolding one_or_none
one_or_none_cases [] = inl (refl, refl)
one_or_none_cases (a ∷ []) = inr (inl (a, refl, refl))
one_or_none_cases (a ∷ b ∷ l) = inr (inr refl)

pub current_cases :
    (host_id role_name : String) (db : Db)
    → ((view host_id role_name db ≡ [])
        × ((get_current_role_association host_id role_name db).0 ≡ ok none))
      ⊎ ((a : HostRoleAssociation) × (view host_id role_name db ≡ a.current_state ∷ [])
          × ((get_current_role_association host_id role_name db).0 ≡ ok (some a)))
      ⊎ ((get_current_role_association host_id role_name db).0 ≡ err multiple_results)
unfolding view states_of get_current_role_association
current_cases host_id role_name db =
    one_or_none_cases (select (is_assoc_of host_id (role_ids role_name db)) db.assocs)

module _ (w : World) (host_id : String) (host_details : HostDetails) (role_name : String) where
  -- The loop returned and the role is settled, or it raised.
  abbrev pub Settles : Outcome → Type 0
  Settles o =
      (s : Sys) × (((o ≡ some (ok tt, s)) × IsSettled host_id role_name s)
        ⊎ ((e : Error) × (o ≡ some (err e, s))))

  abbrev Enough : ℕ → Sys → Type 0
  Enough fuel s = (0 < fuel) × ((t : RoleState) → IsAt host_id role_name t s → rounds_left t < fuel)

  one_more :
      (fuel : ℕ) (s0 : RoleState) (r : Result Bool) (s : Sys)
      → rounds_left s0 ≤ fuel
      → ((s' : Sys)
          → Enough fuel s'
          → Settles (advance_role w host_id host_details role_name fuel s'))
      → Round host_id role_name s0 (r, s)
      → Settles (
          again w host_id host_details role_name
            (r, s)
            (λ s'. advance_role w host_id host_details role_name fuel s'))
  one_more fuel s0 r s enough rest (inl (t, at, fewer, e)) =
      rw e (rest s (omega arith, λ t' at'. ground (arith, at, at')))
  one_more fuel s0 r s enough rest (inr (inl (e, settled))) = rw e (s, inl (refl, settled))
  one_more fuel s0 r s enough rest (inr (inr (x, e))) = rw e (s, inr (x, refl))

  Enough-Settles :
      (fuel : ℕ) (s : Sys)
      → Enough fuel s
      → Settles (advance_role w host_id host_details role_name fuel s)
  unfolding advance_role on_found
  Enough-Settles zero s (pos, _) = absurd (omega arith)
  Enough-Settles (suc fuel) s (_, enough) = elim (current_cases host_id role_name s.db) [
    | inl (gone, e) ↦ rw e (s, inl (refl, inl gone))
    | inr (inl (a, at, e)) ↦ rw e (
        one_more fuel a.current_state _ _ (omega (arith, enough a.current_state at))
          (Enough-Settles fuel)
          (transition-Round w host_id host_details role_name a.current_state s at))
    | inr (inr e) ↦ rw e (s, inr (multiple_results, refl))
  ]

  rounds_left-le : (t : RoleState) → rounds_left t ≤ 2
  rounds_left-le start_apply = omega arith
  rounds_left-le _ = omega arith

  -- The loop over one role ends after at most three rounds, whatever the state of the database and
  -- whatever fails on the way. Unless it ends with an exception, the role is then gone from the host
  -- or in one state that is not transient.
  pub advance_role-Settles :
      (fuel : ℕ) (s : Sys)
      → 3 ≤ fuel
      → Settles (advance_role w host_id host_details role_name fuel s)
  advance_role-Settles fuel s enough =
      Enough-Settles fuel s (omega arith, λ t at. omega (arith, rounds_left-le t))

-- The loop over all roles of a host ends too: three rounds for each role are enough.
advance_from_transient_state-total :
    (w : World) (host_id : String) (host_details : HostDetails) (fuel : ℕ) (roles : List Role)
    (s : Sys)
    → 3 ≤ fuel
    → (o : Result (Unit {0}) × Sys) × (advance_from_transient_state w host_id host_details fuel
          roles s
        ≡ some o)
unfolding advance_from_transient_state
advance_from_transient_state-total w host_id host_details fuel [] s enough = ((ok tt, s), refl)
advance_from_transient_state-total w host_id host_details fuel (role ∷ roles) s enough =
    let (s', after) = advance_role-Settles w host_id host_details role.rolename fuel s enough in
    elim after [
      | inl (e, _) ↦
          rw e (advance_from_transient_state-total w host_id host_details fuel roles s' enough)
      | inr (x, e) ↦ rw e ((err x, s'), refl)
    ]
