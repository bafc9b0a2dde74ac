-- ===== src/Web/Roles.antt =====
-- `RolesController`, `RolesControllerV2` and `RoleAppVersionsController` of resmgr_controller.py.
use pf9_du.Prelude.{String, Option, none, some, if◌then◌else◌}
use pf9_du.Json.{Json, Fields, null, arr, dict, lookup}
use pf9_du.Result.{Error, key_error, role_version_exists, role_version_not_found}
use pf9_du.Web.{
  Request, Conf, Response, answer, abort, json_error, crash, Handler, ResMgrProvider, is_empty,
  values, attempt, call, with_body, enforce,
}

abbrev item_or : Option Json → (Error → Response) → Response
item_or none failed = failed key_error
item_or (some v) failed = answer v

abbrev creation_failed : Error → Response
creation_failed role_version_exists = json_error 409 role_version_exists
creation_failed e = json_error 400 e

abbrev version_failed : Error → Response
version_failed role_version_not_found = json_error 404 role_version_not_found
version_failed e = json_error 400 e

module _ {S : Type 0} (p : ResMgrProvider S) (conf : Conf) (req : Request) where
  unfoldable pub get_app_versions : String → Handler S
  get_app_versions name =
      call (p.get_app_versions name)
        λ out s. (if is_empty out then abort 404 else answer (dict out), s)

  unfoldable pub get_all_roles : Handler S
  unfolding values
  get_all_roles = call p.get_all_roles λ out s. (answer (arr (values out)), s)

  unfoldable pub get_role : String → Handler S
  get_role name =
      call (p.get_role name)
        λ out s. (if is_empty out then abort 404 else item_or (lookup name out) crash, s)

  abbrev create : Fields → Handler S
  create msg_body = attempt (p.create_role msg_body) (λ _. answer null) creation_failed

  unfoldable pub post_role : Handler S
  unfolding enforce with_body
  post_role = enforce conf req (with_body req create)

  -- The key is looked up within the `try`.
  unfoldable pub get_role_v2 : String → String → Handler S
  get_role_v2 name version =
      attempt (p.get_role_with_version name (conf.lower version))
        (λ out. item_or (lookup name out) version_failed) version_failed

  unfoldable pub put_role_v2 : String → String → String → Handler S
  unfolding enforce
  put_role_v2 name version active =
      enforce conf req
        (attempt (p.mark_role_version_active name version active) (λ _. answer null) version_failed)
