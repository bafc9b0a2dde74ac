-- ===== src/Web/Hosts.antt =====
-- The controllers of hosts, of their support bundles, commands and certificates, and of services, in
-- resmgr_controller.py.
use pf9_du.Prelude.{
  String, Bool, false, not, ◌||◌, Option, none, some, [], ◌∷◌, ◌==◌, if◌then◌else◌,
}
use pf9_du.Prelude.Assoc.{Assoc}
use pf9_du.Json.{Json, null, arr, dict, end, lookup}
use pf9_du.Result.{
  Error, Result, ok, err, attribute_error, key_error, host_not_found, host_config_failed,
  bbmaster_not_found, role_update_conflict, du_config_error, support_request_failed,
  support_command_request_failed, side_kick_not_found, cert_refresh_request_failed,
  service_not_found, service_config_failed,
}
use pf9_du.Web.{
  Request, Conf, Response, answer, abort, json_error, crash, Handler, ResMgrProvider, is_empty,
  values, attempt, call, refuse, with_body, enforce,
}

abbrev bundle_failed : Error → Response
bundle_failed support_request_failed = abort 503
bundle_failed side_kick_not_found = abort 503
bundle_failed e = crash e

abbrev command_failed : Error → Response
command_failed support_command_request_failed = abort 503
command_failed bbmaster_not_found = abort 503
command_failed e = crash e

abbrev refresh_failed : Error → Response
refresh_failed cert_refresh_request_failed = abort 503
refresh_failed bbmaster_not_found = abort 503
refresh_failed e = crash e

abbrev certs_failed : Error → Response
certs_failed host_not_found = abort 404
certs_failed e = crash e

abbrev deletion_failed : Error → Response
deletion_failed host_not_found = abort 404
deletion_failed host_config_failed = abort 500
deletion_failed bbmaster_not_found = abort 500
deletion_failed role_update_conflict = json_error 409 role_update_conflict
deletion_failed du_config_error = json_error 400 du_config_error
deletion_failed e = crash e

abbrev service_failed : Error → Response
service_failed service_not_found = abort 404
service_failed service_config_failed = abort 500
service_failed e = crash e

abbrev settings_of : Option Json → Response
settings_of none = crash key_error
settings_of (some v) = answer v

module _ {S : Type 0} (p : ResMgrProvider S) (conf : Conf) (req : Request) where
  abbrev pub list_hosts : Option Bool → Handler S
  list_hosts role_settings =
      call (p.get_all_hosts role_settings) λ res s. (answer (arr (values res)), s)

  unfoldable pub get_all_hosts : Handler S
  unfolding values
  get_all_hosts = list_hosts none

  -- The loop over the parameters of the query. Without any, the provider's own default is false.
  abbrev pub check_params : Assoc String → Option Bool → Handler S
  check_params [] role_settings = list_hosts role_settings
  check_params ((key, val) ∷ rest) role_settings =
      let next = check_params rest (some (conf.lower val == "true")) in
      if not (key == "role_settings")
      then refuse 400
      else if not (conf.lower val == "true" || conf.lower val == "false")
      then refuse 400
      else next

  unfoldable pub get_all_hosts_v2 : Assoc String → Handler S
  unfolding values
  get_all_hosts_v2 kwargs = check_params kwargs (some false)

  unfoldable pub get_host : String → Handler S
  get_host host_id =
      call (p.get_host host_id) λ out s. (if is_empty out then abort 404 else answer (dict out), s)

  unfoldable pub delete_host : String → Handler S
  unfolding enforce
  delete_host host_id =
      enforce conf req (attempt (p.delete_host host_id) (λ _. answer null) deletion_failed)

  abbrev if_found : String → Handler S → Handler S
  if_found host_id handler =
      call (p.get_host host_id) λ out. if is_empty out then refuse 404 else handler

  -- `hasattr` takes only an `AttributeError` for an absent body.
  abbrev with_json : Result Json → Handler S → (Json → Handler S) → Handler S
  with_json (ok v) absent k = k v
  with_json (err attribute_error) absent k = absent
  with_json (err e) absent k = λ s. (crash e, s)

  abbrev bundle : String → Json → Handler S
  bundle host_id msg_body =
      attempt (p.request_support_bundle host_id msg_body) (λ _. answer null) bundle_failed

  unfoldable pub post_support_bundle : String → Handler S
  unfolding enforce
  post_support_bundle host_id =
      enforce conf req
        (if_found host_id (with_json req.json_body (bundle host_id (dict end)) (bundle host_id)))

  unfoldable pub post_support_command : String → Handler S
  unfolding enforce
  post_support_command host_id = enforce conf req (
      if_found host_id (
        with_json req.json_body (refuse 400) (λ msg_body.
          attempt (p.run_support_command host_id msg_body) (λ _. answer null) command_failed)))

  unfoldable pub put_certs : String → Handler S
  unfolding enforce
  put_certs host_id = enforce conf req (
      if_found host_id (attempt (p.request_cert_refresh host_id) (λ _. answer null) refresh_failed))

  unfoldable pub get_certs : String → Handler S
  unfolding enforce
  get_certs host_id = enforce conf req (attempt (p.get_cert_info host_id) answer certs_failed)

  unfoldable pub get_service : String → Handler S
  unfolding enforce
  get_service service_name = enforce conf req (
      call (p.get_service_settings service_name)
        λ out s. (if is_empty out then abort 404 else settings_of (lookup "settings" out), s))

  unfoldable pub put_service : String → Handler S
  unfolding enforce with_body
  put_service service_name = enforce conf req (
      with_body req λ msg_body.
        attempt (p.set_service_settings service_name msg_body) (λ _. answer null) service_failed)
