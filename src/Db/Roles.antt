-- ===== src/Db/Roles.antt =====
-- The versions of a role in the table `roles`, of which one is active: `save_role_in_db` and
-- `mark_role_active` of resmgr/resmgr/dbutils.py.
pub mod Active
use pf9_du.Prelude.{
  String, join, Bool, true, false, ◌&&◌, not, Option, none, some, List, [], ◌∷◌, ◌++◌, ◌==◌, any,
  update_where, if◌then◌else◌,
}
use pf9_du.Json.{Json, Fields}
use pf9_du.Result.{Result, ok, err, role_version_not_found}
use pf9_du.Exec.{Exec, ◌>>=◌, ◌>>◌, lift}
use pf9_du.Db.{Db, Role, query_role_with_version}

-- The `details` of a role, with the types that `create_role` asks for.
pub record RoleDetails : Type 0 where
  pub config : Fields
  pub customizable_settings : Fields
  pub display_name : String
  pub description : String
  pub rabbit_permissions : Json

abbrev pub is_version : String → String → Role → Bool
is_version name version r = r.rolename == name && r.version == version

abbrev pub is_other_version : String → String → Role → Bool
is_other_version name version r = r.rolename == name && not (r.version == version)

abbrev pub deactivate_others : String → String → List Role → List Role
deactivate_others name version =
    update_where (is_other_version name version) (λ r. record r { active = false })

-- `if not role: raise`, or the two updates. The first is a bulk update, which puts no object into the
-- session, so `_has_uncommitted_changes` sees only the assignments of the loop: without another
-- version there are none, and the session is closed without a commit.
unfoldable pub mark_found : String → String → Option Role → Exec Db (Unit {0})
mark_found name version none db = (err role_version_not_found, db)
mark_found name version (some _) db = (
  ok tt,
  if any (is_other_version name version) db.roles
      then (record db {
        roles =
            deactivate_others name version
              (update_where (is_version name version) (λ r. record r { active = true }) db.roles);
      })
      else db,
)

unfoldable pub mark_role_active : String → String → Exec Db (Unit {0})
unfolding mark_found
mark_role_active name version db =
    mark_found name version (query_role_with_version name version db) db

abbrev pub new_role : String → String → RoleDetails → Role
new_role name version details = record {
  id = join name (join "_" version);
  rolename = name;
  version = version;
  displayname = details.display_name;
  description = details.description;
  desiredconfig = details.config;
  active = true;
  customizable_settings = details.customizable_settings;
  rabbit_permissions = details.rabbit_permissions;
}

-- `session.merge`: the row with the same primary key is overwritten, else a row is inserted.
unfoldable pub merge_role : Role → List Role → List Role
merge_role r roles =
    if any (λ q. q.id == r.id) roles
    then update_where (λ q. q.id == r.id) (λ _. r) roles
    else roles ++ r ∷ []

-- Rendering a configuration with dummy values needs the environment and Python's `%`; it is the
-- argument `validate`, which raises or returns.
module _ (validate : Fields → Result (Unit {0})) where
  unfoldable pub save_role_in_db : String → String → RoleDetails → Exec Db (Unit {0})
  save_role_in_db name version details = do
    lift (validate details.config)
    lift (validate details.customizable_settings)
    (λ db. (
      ok tt,
      record db {
        roles =
            merge_role (new_role name version details) (deactivate_others name version db.roles);
      },
    ))
