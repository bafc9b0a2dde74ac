-- ===== src/Db.antt =====
-- The resource manager's tables and the queries on them (resmgr/resmgr/dbutils.py). A row is a
-- record and a table the list of its rows. A call of `ResMgrDB` is one transaction; failures of the
-- database itself are not modelled.
pub mod Associations
pub mod Roles
pub mod Hosts
use pf9_du.Prelude.{
  ℕ, String, Bool, true, false, ◌&&◌, Option, none, some, List, [], ◌∷◌, map, ◌==◌, any, select,
  first?,
}
use pf9_du.Json.{Json, Fields}
use pf9_du.RoleStates.{RoleState}

pub record Role : Type 0 where
  pub id : String
  pub rolename : String
  pub version : String
  pub displayname : String
  pub description : String
  pub desiredconfig : Fields
  pub active : Bool
  pub customizable_settings : Fields
  pub rabbit_permissions : Json

pub record Host : Type 0 where
  pub id : String
  pub hostname : String
  pub hostosfamily : String
  pub hostarch : String
  pub hostosinfo : String
  pub lastresponsetime : Option ℕ
  pub responding : Bool
  pub role_settings : Fields

pub record HostRoleAssociation : Type 0 where
  pub host_id : String
  pub role_id : String
  pub current_state : RoleState

pub record RabbitCredential : Type 0 where
  pub host_id : String
  pub rolename : String
  pub userid : String
  pub password : String

pub record Db : Type 0 where
  pub roles : List Role
  pub hosts : List Host
  pub assocs : List HostRoleAssociation
  pub credentials : List RabbitCredential

-- `SELECT id FROM roles WHERE rolename = ...`, the subquery of three methods.
unfoldable pub role_ids : String → Db → List String
role_ids role_name db = map (λ r. r.id) (select (λ r. r.rolename == role_name) db.roles)

-- The rows of `host_role_map` for a host and a role name, whatever the role's version.
unfoldable pub is_assoc_of : String → List String → HostRoleAssociation → Bool
is_assoc_of host_id ids a = a.host_id == host_id && any (λ i. i == a.role_id) ids

unfoldable pub query_role : String → Db → Option Role
query_role role_name db = first? (select (λ r. r.rolename == role_name && r.active) db.roles)

unfoldable pub query_role_with_version : String → String → Db → Option Role
query_role_with_version role_name version db =
    first? (select (λ r. r.rolename == role_name && r.version == version) db.roles)

unfoldable pub query_roles : Db → List Role
query_roles db = select (λ r. r.active) db.roles

-- `assoc.role`: the row that the foreign key names.
unfoldable pub role_of : String → List Role → Option Role
role_of role_id roles = first? (select (λ r. r.id == role_id) roles)

unfoldable pub roles_of : List HostRoleAssociation → List Role → List Role
unfolding role_of
roles_of [] roles = []
roles_of (a ∷ assocs) roles =
    let rest = roles_of assocs roles in
    elim (role_of a.role_id roles) [ none ↦ rest | some r ↦ r ∷ rest ]

-- `None` if the host has no row.
unfoldable pub query_roles_for_host : String → Db → Option (List Role)
query_roles_for_host host_id db = elim (first? (select (λ h. h.id == host_id) db.hosts)) [
  | none ↦ none
  | some h ↦ some (roles_of (select (λ a. a.host_id == host_id) db.assocs) db.roles)
]
