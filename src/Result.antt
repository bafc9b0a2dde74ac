-- ===== src/Result.antt =====
-- What a Python call returns: a value, or the exception that it raises.
use pf9_du.Prelude.{Bool, true, false, Option, none, some}

pub data Error : Type 0 where
  -- the language's own
  type_error attribute_error key_error value_error assertion_error : Error
  unbound_local_error index_error : Error
  -- the agent's: pf9app/exceptions.py, a `Pf9Exception` each
  pf9_exception url_not_specified package_file_name_not_specified download_failed : Error
  service_ctrl_error config_operation_error not_installed : Error
  install_operation_failed remove_operation_failed update_operation_failed : Error
  -- the master's and the resource manager's
  invalid_state multiple_results du_config_error bbmaster_not_found host_config_failed : Error
  malformed_request support_command_request_failed cert_refresh_request_failed : Error
  service_not_found service_config_failed side_kick_not_found : Error
  role_key_malformed role_version_exists role_inactive_not_allowed : Error
  host_not_found host_down role_not_found role_version_not_found role_update_conflict : Error
  rabbit_credentials_configure_error support_request_failed other_error : Error
  -- those of the packages for processes and requests; `http_not_found` is the one with status 404
  os_error file_exists called_process_error connection_error http_error http_not_found : Error
  -- no exception: a loop on fuel that has run out of it, which the theorems exclude
  out_of_fuel : Error
  -- no exception: the process has become another one, and none of its handlers runs
  process_replaced : Error

pub data Result {ℓ} (A : Type ℓ) : Type ℓ where
  ok : A → Result A
  err : Error → Result A

infixl 5 ◌>>=◌ ◌>>◌
abbrev pub ◌>>=◌ {ℓ κ} : {A : Type ℓ} {B : Type κ} → Result A → (A → Result B) → Result B
ok a >>= f = f a
err e >>= f = err e

abbrev pub ◌>>◌ {ℓ κ} : {A : Type ℓ} {B : Type κ} → Result A → Result B → Result B
m >> k = m >>= λ _. k

-- `assert b`, or any test whose failure raises `e`.
abbrev pub require : Bool → Error → Result (Unit {0})
require true e = ok tt
require false e = err e

-- `d[k]` where a missing key raises `e`.
abbrev pub some_or {ℓ} : {A : Type ℓ} → Error → Option A → Result A
some_or e none = err e
some_or e (some a) = ok a
