-- ===== src/Certs/Comms.antt =====
-- `VouchCerts` of certs.py, the restart of the services and the check of the connection.
use pf9_du.Prelude.{
  ℕ, zero, suc, ◌+◌, String, Bool, true, false, not, ◌||◌, Option, none, some, List, [], ◌∷◌, leb,
  if◌then◌else◌,
}
use pf9_du.Json.{Json, lookup, has_key}
use pf9_du.Result.{
  Error, some_or, key_error, value_error, connection_error, http_error, http_not_found,
  called_process_error, out_of_fuel,
}
use pf9_du.Exec.{Exec, pure, raise, lift, try_except, ◌>>=◌, ◌>>◌}
use pf9_du.Certs.{Site, Keeper, ask, tell}

abbrev pub comms_vouch_url : String
comms_vouch_url = "http://localhost:8558"

-- `s[:n]` on texts
unfoldable pub take_chars : ℕ → String → String
take_chars zero s = ""
take_chars (suc n) String.[] = ""
take_chars (suc n) (String.◌∷◌ c s) = String.◌∷◌ c (take_chars n s)

module _ (site : Site) where
  unfoldable pub get_all_ca : String → Exec Keeper (List String)
  unfolding ask
  get_all_ca vouch_addr = ask (site.get_cas vouch_addr)

  unfoldable pub sign_csr : String → String → String → Exec Keeper (Json × Json)
  unfolding ask take_chars
  sign_csr vouch_addr csr common_name = do
    cert_data ← ask (site.post_sign_cert vouch_addr (take_chars 62 common_name) csr)
    certificate ← lift (some_or key_error (lookup "certificate" cert_data))
    issuing_ca ← lift (some_or key_error (lookup "issuing_ca" cert_data))
    pure (certificate, issuing_ca)

  abbrev pub no_version : Error → Exec Keeper Bool
  no_version connection_error = pure false
  no_version http_error = pure false
  no_version http_not_found = pure false
  no_version value_error = pure false
  no_version e = raise e

  unfoldable pub supports_v1 : String → Exec Keeper Bool
  unfolding ask
  supports_v1 vouch_addr =
      try_except (do resp_json ← ask (site.get_versions vouch_addr); pure (has_key "v1" resp_json))
        no_version

  abbrev pub failed_call : Error → Exec Keeper Bool
  failed_call called_process_error = pure false
  failed_call e = raise e

  unfoldable pub try_call : List String → Exec Keeper Bool
  unfolding tell
  try_call command = try_except (tell (site.check_call command) >> pure true) failed_call

  unfoldable pub restart_service : String → Exec Keeper Bool
  unfolding try_call
  restart_service svc_name = do
    done ← try_call ("sudo" ∷ "systemctl" ∷ "restart" ∷ svc_name ∷ [])
    if done then pure true else try_call ("sudo" ∷ "service" ∷ svc_name ∷ "restart" ∷ [])

  unfoldable pub restart_comms_sidekick : Exec Keeper Bool
  unfolding restart_service
  restart_comms_sidekick = do
    comms ← restart_service "pf9-comms"
    sidekick ← restart_service "pf9-sidekick"
    pure (not (not comms || not sidekick))

  -- The loop while `wait_time <= COMMS_RESTART_TIMEOUT`, which grows by two in each round.
  unfoldable pub check_from : ℕ → ℕ → String → Exec Keeper (Option Bool)
  unfolding supports_v1
  check_from zero wait_time vouch_url = pure none
  check_from (suc fuel) wait_time vouch_url =
      let again = check_from fuel (wait_time + 2) vouch_url in
      if leb wait_time 60
      then (do there ← supports_v1 vouch_url; if there then pure (some true) else again)
      else pure (some false)

  -- Thirty-one rounds ask, and one more ends the loop.
  unfoldable pub check_connection : String → Exec Keeper Bool
  unfolding check_from
  check_connection vouch_url = do
    answer ← check_from 32 0 vouch_url
    lift (some_or out_of_fuel answer)
