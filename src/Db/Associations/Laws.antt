-- ===== src/Db/Associations/Laws.antt =====
-- What the methods on associations do to the states of one role on one host.
use pf9_du.Prelude.{
  String, ◌≡◌, refl, Bool, true, false, List, [], ◌∷◌, map, arith, ◌==◌, select, update_where,
  count, nat_eq, if◌then◌else◌, eq_iff,
}
use pf9_du.Result.{ok}
use pf9_du.RoleStates.{RoleState, state_eq, legal_transition}
use pf9_du.Db.{Db, HostRoleAssociation, role_ids, is_assoc_of}
use pf9_du.Db.Associations.{in_state, advance_role_state}

-- The states in which a role stands on a host: one for each association, so at most one as long as
-- the role is not associated twice.
unfoldable pub states_of : String → List String → List HostRoleAssociation → List RoleState
states_of host_id ids l = map (λ a. a.current_state) (select (is_assoc_of host_id ids) l)

unfoldable pub view : String → String → Db → List RoleState
unfolding states_of
view host_id role_name db = states_of host_id (role_ids role_name db) db.assocs

abbrev pub swap : RoleState → RoleState → List RoleState → List RoleState
swap old new = update_where (λ s. state_eq s old) (λ _. new)

module _ (host_id : String) (ids : List String) (old new : RoleState) where
  abbrev advanced : List HostRoleAssociation → List HostRoleAssociation
  advanced = update_where (in_state host_id ids old) (λ a. record a { current_state = new })

  count-in_state :
      (l : List HostRoleAssociation)
      → count (in_state host_id ids old) l ≡ count (λ s. state_eq s old) (states_of host_id ids l)
  unfolding states_of
  count-in_state [] = refl
  count-in_state (a ∷ l) = ground (arith, count-in_state l)

  states_of-advanced :
      (l : List HostRoleAssociation)
      → states_of host_id ids (advanced l) ≡ swap old new (states_of host_id ids l)
  unfolding states_of is_assoc_of
  states_of-advanced [] = refl
  states_of-advanced (a ∷ l) = ground (arith, states_of-advanced l)

  states_of-other_host :
      (host : String) (others : List String) (l : List HostRoleAssociation)
      → (host_id == host) ≡ false
      → states_of host others (advanced l) ≡ states_of host others l
  unfolding states_of is_assoc_of
  states_of-other_host host others [] h = refl
  states_of-other_host host others (a ∷ l) h = ground (
    arith,
    states_of-other_host host others l h,
    eq_iff a.host_id host_id,
    eq_iff a.host_id host,
    eq_iff host_id host,
  )

module _ (host_id role_name : String) (old new : RoleState) (db : Db) where
  abbrev swappable : Bool
  swappable = nat_eq (count (λ s. state_eq s old) (view host_id role_name db)) 1

  -- A legal advance is a compare-and-swap on the states in which the role stands on the host: it
  -- reports success exactly when one association is in the assumed state, and then moves that
  -- association to the new state; otherwise it leaves the states as they are.
  pub advance_role_state-swaps :
      legal_transition old new ≡ true
      → ((advance_role_state host_id role_name old new db).0 ≡ ok swappable)
        × (view host_id role_name (advance_role_state host_id role_name old new db).1 ≡ (
            if swappable
            then swap old new (view host_id role_name db)
            else view host_id role_name db))
  unfolding advance_role_state view role_ids
  advance_role_state-swaps legal = (
    ground (arith, legal, count-in_state host_id (role_ids role_name db) old new db.assocs),
    ground (
      arith,
      legal,
      count-in_state host_id (role_ids role_name db) old new db.assocs,
      states_of-advanced host_id (role_ids role_name db) old new db.assocs,
    ),
  )

  -- An advance, legal or not, changes the state of no role on another host.
  advance_role_state-other_host :
      (other role : String)
      → (host_id == other) ≡ false
      → view other role (advance_role_state host_id role_name old new db).1 ≡ view other role db
  unfolding advance_role_state view role_ids
  advance_role_state-other_host other role apart = ground (
    arith,
    states_of-other_host host_id (role_ids role_name db) old new other (role_ids role db) db.assocs
        apart,
  )
