-- ===== src/Web/HostRoles.antt =====
-- `HostRolesController` and `HostRolesVersionController` of resmgr_controller.py.
use pf9_du.Prelude.{String, Option, none, some}
use pf9_du.Json.{Fields, null, dict}
use pf9_du.Result.{
  Error, role_not_found, host_not_found, host_down, host_config_failed, bbmaster_not_found,
  rabbit_credentials_configure_error, role_update_conflict, du_config_error,
}
use pf9_du.Web.{
  Request, Conf, Response, answer, abort, json_error, crash, Handler, ResMgrProvider, attempt,
  with_body, enforce,
}

-- The `except` clauses of both `put` methods.
unfoldable pub assignment_failed : Error → Response
assignment_failed role_not_found = json_error 404 role_not_found
assignment_failed host_not_found = json_error 404 host_not_found
assignment_failed host_down = json_error 404 host_down
assignment_failed host_config_failed = abort 500
assignment_failed bbmaster_not_found = abort 500
assignment_failed rabbit_credentials_configure_error = abort 500
assignment_failed role_update_conflict = json_error 409 role_update_conflict
assignment_failed du_config_error = json_error 400 du_config_error
assignment_failed e = crash e

-- Those of `delete`; the first two only log.
unfoldable pub removal_failed : Error → Response
removal_failed role_not_found = answer null
removal_failed host_not_found = answer null
removal_failed host_config_failed = abort 500
removal_failed bbmaster_not_found = abort 500
removal_failed role_update_conflict = json_error 409 role_update_conflict
removal_failed du_config_error = json_error 400 du_config_error
removal_failed e = crash e

unfoldable pub settings_failed : Error → Response
settings_failed role_not_found = abort 404
settings_failed host_not_found = abort 404
settings_failed host_config_failed = abort 404
settings_failed bbmaster_not_found = abort 404
settings_failed e = crash e

module _ {S : Type 0} (p : ResMgrProvider S) (conf : Conf) (req : Request) where
  abbrev pub assign : String → String → Option String → Fields → Handler S
  assign host_id role_name version msg_body =
      attempt (p.add_role host_id role_name version msg_body) (λ _. answer null) assignment_failed

  unfoldable pub put_host_role_version : String → String → String → Handler S
  unfolding enforce with_body assignment_failed
  put_host_role_version host_id role_name version =
      enforce conf req (with_body req (assign host_id role_name (some version)))

  unfoldable pub put_host_role : String → String → Handler S
  unfolding enforce with_body assignment_failed
  put_host_role host_id role_name = enforce conf req (with_body req (assign host_id role_name none))

  unfoldable pub delete_host_role : String → String → Handler S
  unfolding enforce removal_failed
  delete_host_role host_id role_name =
      enforce conf req (attempt (p.delete_role host_id role_name) (λ _. answer null) removal_failed)

  unfoldable pub get_host_role : String → String → Handler S
  unfolding settings_failed
  get_host_role host_id role_name =
      attempt (p.get_custom_settings host_id role_name) (λ f. answer (dict f)) settings_failed
