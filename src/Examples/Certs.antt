-- ===== src/Examples/Certs.antt =====
-- The theorems on certificates, applied to a host whose three files are there.
use pf9_du.Prelude.{refl, none, [], ◌∷◌, false, true}
use pf9_du.Prelude.Assoc.{get}
use pf9_du.Json.{str, end, field}
use pf9_du.Result.{ok, err, value_error, connection_error}
use pf9_du.Exec.Returns.{OnOk}
use pf9_du.Certs.{Site, Keeper}
use pf9_du.Certs.Comms.{comms_vouch_url, check_connection}
use pf9_du.Certs.Thread.{check_certs}
use pf9_du.Certs.Update.{process_cert_update_request}
use pf9_du.Certs.Installed.{IsEnded}
use pf9_du.Certs.Restored.{process_cert_update_request-IsEnded}
use pf9_du.Certs.Reached.{Checked, check_connection-Checked}
use pf9_du.Certs.Unreported.{IsSame, check_certs-unreadable}

-- Vouch signs, and is reached over the new certificates only where the flag says so.
abbrev site : Site
site = record {
  vouch_url = "http://localhost:8558";
  cert_refresh_interval_days = 90;
  cert_pem_file = "/etc/pf9/certs/hostagent/cert.pem";
  ca_pem_file = "/etc/pf9/certs/ca/cert.pem";
  private_key_pem_file = "/etc/pf9/certs/hostagent/key.pem";
  ca_directory = "/etc/pf9/certs/ca";
  hostname = "node1.rack2";
  host_id = "0a1b2c3d-4e5f";
  os_call = λ n. none;
  torn = λ n. "";
  check_call = λ command n. none;
  now = λ n. n;
  date = λ n. "today";
  generate_key_and_csr = λ cn n. ok ("new key", "request");
  load_certificate = λ text. err value_error;
  get_cas = λ url n. ok [];
  post_sign_cert = λ url cn csr n.
      ok (field "certificate" (str "new cert") (field "issuing_ca" (str "new ca") end));
  get_versions = λ url n. err connection_error;
}

abbrev keeper : Keeper
keeper = record {
  files =
      ("/etc/pf9/certs/hostagent/key.pem", "old key")
      ∷ ("/etc/pf9/certs/hostagent/cert.pem", "old cert")
      ∷ ("/etc/pf9/certs/ca/cert.pem", "old ca")
      ∷ [];
  cert_info_q = [];
  cert_update_event = false;
  asked = 0;
}

process_cert_update_request-IsEnded_example :
    OnOk (IsEnded site keeper.files) (process_cert_update_request site true keeper)
unfolding get
process_cert_update_request-IsEnded_example =
    process_cert_update_request-IsEnded site true keeper (refl, refl, refl)
      (("old key", refl), (("old cert", refl), (("old ca", refl), tt)))

check_connection-Checked_example :
    Checked site comms_vouch_url 0 31 (check_connection site comms_vouch_url keeper)
check_connection-Checked_example = check_connection-Checked site comms_vouch_url keeper

check_certs-unreadable_example : IsSame keeper (check_certs site keeper).1
check_certs-unreadable_example = check_certs-unreadable site keeper (λ text there c loaded. cc)
