-- ===== src/Certs/Update.antt =====
-- `process_cert_update_request` of cert_update_thread.py: new certificates, or the old ones again.
use pf9_du.Prelude.{String, Bool, true, false, ◌&&◌, Option, none, some, [], join, if◌then◌else◌}
use pf9_du.Prelude.Assoc.{Assoc, put}
use pf9_du.Json.{Json, str, truthy}
use pf9_du.Result.{Error, Result, ok, err, attribute_error, http_error, http_not_found}
use pf9_du.Exec.{Exec, pure, raise, lift, try_except, ◌>>=◌, ◌>>◌}
use pf9_du.Certs.{
  Site, Keeper, RefreshStatus, RefreshInfo, Message, refresh_successful, restored, refresh_failed,
  cert_update_result, no_answer, ask,
}
use pf9_du.Certs.Files.{backup_and_save_certs, restore_backups, place_new_cas}
use pf9_du.Certs.Comms.{
  comms_vouch_url, get_all_ca, sign_csr, restart_comms_sidekick, check_connection,
}
use pf9_du.Certs.Names.{common_name, allowed_cn}

-- `v.encode("utf-8")`
abbrev pub text_of : Json → Result String
text_of (str s) = ok s
text_of _ = err attribute_error

abbrev pub unless_http : Error → Exec Keeper (Unit {0})
unless_http http_error = pure tt
unless_http http_not_found = pure tt
unless_http e = raise e

module _ (site : Site) where
  -- `msg_info`, with the date behind the message
  unfoldable pub refresh_info : RefreshStatus → String → Exec Keeper RefreshInfo
  unfolding ask
  refresh_info status message = do
    date ← ask (λ n. ok (site.date n))
    timestamp ← ask (λ n. ok (site.now n))
    pure (record { status = status; message = join message date; timestamp = timestamp })

  unfoldable pub update_result : RefreshStatus → String → Exec Keeper Message
  unfolding refresh_info
  update_result status message = do
    info ← refresh_info status message
    pure (cert_update_result info)

  -- The CAs that vouch lists. An HTTP error is logged.
  unfoldable pub update_cas : Bool → Exec Keeper (Unit {0})
  unfolding get_all_ca place_new_cas
  update_cas false = pure tt
  update_cas true =
      try_except
        (do ca_list ← get_all_ca site site.vouch_url; place_new_cas site site.ca_pem_file ca_list)
        unless_http

  abbrev pub check_if : Bool → Exec Keeper Bool
  check_if false = pure false
  check_if true = check_connection site comms_vouch_url

  -- `certs.restart_comms_sidekick() and certs.check_connection()`
  unfoldable pub bring_up : Exec Keeper Bool
  unfolding restart_comms_sidekick check_connection
  bring_up = do up ← restart_comms_sidekick site; check_if up

  abbrev pub restored_or : Bool → Exec Keeper Message
  restored_or true =
      update_result restored
        "Certificate refresh failed. Restored old certificates and verified controller connection on "
  restored_or false = pure no_answer

  abbrev pub kept_or : Assoc String → Bool → Exec Keeper Message
  kept_or backups true = update_result refresh_successful "Host certs refreshed successfully on "
  kept_or backups false = do restore_backups site backups; up ← bring_up; restored_or up

  -- What is done with the answer of vouch.
  unfoldable pub install_certs : Bool → String → Json → Json → Exec Keeper Message
  unfolding update_result update_cas bring_up backup_and_save_certs restore_backups
  install_certs new_ca privatekey cert ca = do
    cert_text ← lift (text_of cert)
    ca_text ← lift (text_of ca)
    backups ← backup_and_save_certs site (
        put site.ca_pem_file ca_text
          (put site.cert_pem_file cert_text (put site.private_key_pem_file privatekey [])))
    update_cas new_ca
    up ← bring_up
    kept_or backups up

  abbrev pub signed_or_failed : Bool → String → Option (Json × Json) → Exec Keeper Message
  signed_or_failed new_ca privatekey none =
      update_result refresh_failed "Failed to get new certificates from vouch on "
  signed_or_failed new_ca privatekey (some (cert, ca)) =
      if truthy cert && truthy ca
      then install_certs new_ca privatekey cert ca
      else update_result refresh_failed "Failed to get new certificates from vouch on "

  abbrev pub request_certs : Bool → String → Exec Keeper Message
  request_certs new_ca cn = do
    key_csr ← ask (site.generate_key_and_csr cn)
    signed ←
        try_except (do pair ← sign_csr site site.vouch_url key_csr.1 cn; pure (some pair))
          (λ e. pure none)
    signed_or_failed new_ca key_csr.0 signed

  abbrev pub rejected : String → String
  rejected cn = join "CN: " (
      join cn (
        join " does not appear to meet the CN requirements for the CSR. Rejecting the certificate "
          "update request on "))

  unfoldable pub process_cert_update_request : Bool → Exec Keeper Message
  unfolding install_certs update_result ask sign_csr common_name allowed_cn
  process_cert_update_request new_ca = do
    cn ← lift (common_name site.hostname site.host_id)
    (if allowed_cn cn then request_certs new_ca cn else update_result refresh_failed (rejected cn))
