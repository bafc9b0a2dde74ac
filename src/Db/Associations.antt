-- ===== src/Db/Associations.antt =====
-- The rows of `host_role_map`: the compare-and-swap on which the role state machine runs, and the
-- other methods of `ResMgrDB` on associations.
pub mod Laws
use pf9_du.Prelude.{
  String, Bool, true, false, ◌&&◌, ◌||◌, not, Option, none, some, List, [], ◌∷◌, ◌++◌, map, ◌==◌,
  select, update_where, count, first?, nat_eq, if◌then◌else◌,
}
use pf9_du.Result.{
  Result, ok, err, Error, invalid_state, multiple_results, attribute_error, other_error,
}
use pf9_du.Exec.{Exec, pure, raise}
use pf9_du.RoleStates.{RoleState, not_applied, state_eq, legal_transition}
use pf9_du.Db.{
  Db, Role, HostRoleAssociation, role_ids, is_assoc_of, query_role, query_role_with_version,
}

abbrev in_state : String → List String → RoleState → HostRoleAssociation → Bool
in_state host_id ids s a = is_assoc_of host_id ids a && state_eq a.current_state s

-- `True` if exactly one row was in the assumed state; otherwise the session is closed without a
-- commit.
unfoldable pub advance_role_state : String → String → RoleState → RoleState → Exec Db Bool
advance_role_state host_id role_name current_state new_state db =
    let ids = role_ids role_name db in
    let updated = count (in_state host_id ids current_state) db.assocs in
    let after = record db {
      assocs =
          update_where (in_state host_id ids current_state)
            (λ a. record a { current_state = new_state }) db.assocs;
    } in
    if legal_transition current_state new_state
    then (if nat_eq updated 1 then (ok true, after) else (ok false, db))
    else (err invalid_state, db)

unfoldable pub get_all_role_associations : String → Db → List HostRoleAssociation
get_all_role_associations host_id db = select (λ a. a.host_id == host_id) db.assocs

-- `one_or_none`
unfoldable pub one_or_none : List HostRoleAssociation → Result (Option HostRoleAssociation)
one_or_none [] = ok none
one_or_none (a ∷ []) = ok (some a)
one_or_none _ = err multiple_results

unfoldable pub get_current_role_association : String → String → Exec Db (Option HostRoleAssociation)
unfolding one_or_none
get_current_role_association host_id role_name db =
    (one_or_none (select (is_assoc_of host_id (role_ids role_name db)) db.assocs), db)

-- All matching rows are deleted, also where there is more than one and the result is `False`.
unfoldable pub remove_role_from_host : String → String → Exec Db Bool
remove_role_from_host host_id role_name db =
    let ids = role_ids role_name db in
    let removed = count (is_assoc_of host_id ids) db.assocs in
    (
      ok (nat_eq removed 1),
      record db { assocs = select (λ a. not (is_assoc_of host_id ids a)) db.assocs },
    )

-- `assoc.role.rolename == role_name` for the row's role.
abbrev is_named : String → List Role → HostRoleAssociation → Bool
is_named role_name [] a = false
is_named role_name (r ∷ roles) a =
    if r.id == a.role_id then r.rolename == role_name else is_named role_name roles a

-- An old association is pointed at the role's row. Without a row, the first case reads an attribute
-- of `None`, and the second one is refused by the database.
associate_role : String → String → Option HostRoleAssociation → Option Role → Exec Db Bool
associate_role host_id role_name (some old) none db = (err attribute_error, db)
associate_role host_id role_name none none db = (err other_error, db)
associate_role host_id role_name (some old) (some role) db = (
  ok false,
  record db {
    assocs =
        update_where (λ a. a.host_id == host_id && a.role_id == old.role_id)
          (λ a. record a { role_id = role.id }) db.assocs;
  },
)
associate_role host_id role_name none (some role) db = (
  ok true,
  record db {
    assocs =
        db.assocs
        ++ record { host_id = host_id; role_id = role.id; current_state = not_applied } ∷ [];
  },
)

abbrev has_host : String → Db → Bool
has_host host_id db = nat_eq (count (λ h. h.id == host_id) db.hosts) 1

-- The version is `None` or a text; Python's `not version` holds of the empty text too.
unfoldable pub associate_role_to_host : String → String → Option String → Exec Db Bool
unfolding associate_role
associate_role_to_host host_id role_name version db =
    let role : Option Role = elim version [
      | none ↦ query_role role_name db
      | some v ↦ if v == "" then query_role role_name db else query_role_with_version role_name v db
    ] in
    if has_host host_id db
    then associate_role host_id role_name
        (first? (select (λ a. a.host_id == host_id && is_named role_name db.roles a) db.assocs))
        role db
    else (err attribute_error, db)
