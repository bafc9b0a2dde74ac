-- ===== src/Examples/Web.antt =====
-- The theorems on the web service, applied to one role on one host.
use pf9_du.Prelude.{◌≡◌, ◌⊎◌, refl, true, none, some}
use pf9_du.Json.{null, end}
use pf9_du.Result.{ok, role_version_not_found}
use pf9_du.Exec.{pure}
use pf9_du.Provider.{Hub}
use pf9_du.Web.{Request, Conf, ResMgrProvider, abort, crash}
use pf9_du.Web.HostRoles.{put_host_role_version}
use pf9_du.Web.Routes.{run, delete_host}
use pf9_du.Web.Policy.{is_open, ReadsPreserve, run-unprivileged}
use pf9_du.Web.Statuses.{pf9_provider, put_host_role_version-crashes}
use pf9_du.Examples.{world_where}
use pf9_du.Examples.Provider.{hub, broker, render}

abbrev other_calls : ResMgrProvider Hub
other_calls = record {
  get_all_roles = pure end;
  get_role = λ name. pure end;
  get_role_with_version = λ name version. pure end;
  get_app_versions = λ name. pure end;
  create_role = λ info. pure tt;
  mark_role_version_active = λ name version active. pure tt;
  get_host = λ host_id. pure end;
  get_all_hosts = λ role_settings. pure end;
  delete_host = λ host_id. pure tt;
  add_role = λ host_id role_name version settings. pure tt;
  delete_role = λ host_id role_name. pure tt;
  get_custom_settings = λ host_id role_name. pure end;
  request_support_bundle = λ host_id body. pure tt;
  run_support_command = λ host_id body. pure tt;
  request_cert_refresh = λ host_id. pure tt;
  get_cert_info = λ host_id. pure null;
  get_service_settings = λ name. pure end;
  set_service_settings = λ name settings. pure tt;
}

abbrev provider : ResMgrProvider Hub
provider = pf9_provider (world_where true) broker render other_calls

abbrev conf : Conf
conf = record { resmgr = none; lower = λ s. s }

abbrev by_admin : Request
by_admin = record { x_roles = some "member,admin"; body = ""; json_body = ok null }

abbrev by_member : Request
by_member = record { x_roles = some "member"; body = ""; json_body = ok null }

reads : ReadsPreserve provider conf by_member (λ s. s.wake_ups ≡ 0)
reads = record {
  roles = record { at = λ s h. h };
  role = λ name. record { at = λ s h. h };
  role_version = λ name version. record { at = λ s h. h };
  app_versions = λ name. record { at = λ s h. h };
  host = λ host_id. record { at = λ s h. h };
  hosts = λ role_settings. record { at = λ s h. h };
  settings = λ host_id role_name. record { at = λ s h. h };
}

run-unprivileged_example :
    ((is_open (delete_host "h1") ≡ true)
      ⊎ (run provider conf by_member (delete_host "h1") hub ≡ (abort 403, hub)))
    × ((run provider conf by_member (delete_host "h1") hub).1.wake_ups ≡ 0)
run-unprivileged_example =
    run-unprivileged provider conf by_member (λ s. s.wake_ups ≡ 0) reads (delete_host "h1") hub
      (unfold pf9_du.Web.do_enforce in refl) (unfold pf9_du.Web.has_role in refl) refl

put_host_role_version-crashes_example :
    put_host_role_version provider conf by_admin "h1" "nova" "9.9" hub
    ≡ (crash role_version_not_found, hub)
put_host_role_version-crashes_example =
    put_host_role_version-crashes (world_where true) broker render other_calls conf by_admin "h1"
      "nova" "9.9" hub (unfold pf9_du.Web.has_role in refl) refl refl
      (unfold pf9_du.Db.query_role_with_version in refl)
