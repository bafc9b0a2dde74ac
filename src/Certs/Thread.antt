-- ===== src/Certs/Thread.antt =====
-- The loop of `cert_update_thread`, and `check_for_cert_data` of util.py, by which the main thread of the
-- agent reads what the loop has found.
use pf9_du.Prelude.{
  ℕ, ◌+◌, ◌*◌, String, Bool, true, false, not, ◌||◌, Option, none, some, List, [], ◌∷◌, ◌++◌, map,
  any, all, select, leb, nat_eq, after_prefix, join, if◌then◌else◌,
}
use Prim.Native.Char.{code}
use pf9_du.Prelude.Assoc.{Assoc, get}
use pf9_du.Result.{
  Error, Result, ok, ◌>>=◌ as and_then, some_or, os_error, type_error, http_error, http_not_found,
}
use pf9_du.Exec.{Exec, pure, raise, lift, gets, modify, try_except, for_each, ◌>>=◌, ◌>>◌}
use pf9_du.Certs.{
  Site, Keeper, Certificate, CertDetails, RefreshInfo, Message, successful, failed, initiated,
  cert_info, cert_update_initiated, cert_update_result, no_answer, ask, tell,
}
use pf9_du.Certs.Comms.{get_all_ca, check_connection}
use pf9_du.Certs.Update.{refresh_info, process_cert_update_request}

abbrev has_slash : String → Bool
has_slash String.[] = false
has_slash (String.◌∷◌ c s) = nat_eq (code c) b'/' || has_slash s

abbrev no_slash : Option String → Bool
no_slash none = false
no_slash (some rest) = not (has_slash rest)

-- A path in the directory itself.
unfoldable pub is_in_directory : String → String → Bool
is_in_directory directory path = no_slash (after_prefix (join directory "/") path)

-- `os.listdir(directory)`, the names joined to the directory again
unfoldable pub paths_in : String → Assoc String → List String
unfolding is_in_directory
paths_in directory files = select (is_in_directory directory) (map (λ e. e.0) files)

unfoldable pub serial_numbers : List Certificate → List ℕ
serial_numbers [] = []
serial_numbers (c ∷ rest) = c.serial_number ∷ serial_numbers rest

unfoldable pub serial_of : CertDetails → List ℕ
serial_of (successful c t) = c.serial_number ∷ []
serial_of _ = []

-- `vouch_ca.issubset(local_ca)`
unfoldable pub is_subset : List ℕ → List ℕ → Bool
is_subset xs ys = all (λ x. any (nat_eq x) ys) xs

unfoldable pub put_message : Message → Exec Keeper (Unit {0})
put_message m = modify λ s. record s { cert_info_q = s.cert_info_q ++ m ∷ [] }

abbrev other_http : Error → Exec Keeper (Option Bool)
other_http http_not_found = pure (some false)
other_http http_error = pure none
other_http e = raise e

module _ (site : Site) where
  unfoldable pub load_all : List String → Result (List Certificate)
  load_all [] = ok []
  load_all (text ∷ rest) =
      and_then (site.load_certificate text) (λ c. and_then (load_all rest) (λ more. ok (c ∷ more)))

  abbrev pub read_cert : String → Exec Keeper CertDetails
  read_cert certs_file = do
    tell site.os_call
    content ← gets (λ s. get certs_file s.files)
    text ← lift (some_or os_error content)
    cert ← lift (site.load_certificate text)
    timestamp ← ask (λ n. ok (site.now n))
    pure (successful cert timestamp)

  -- `_get_cert_info`
  unfoldable pub get_cert_info : String → Exec Keeper CertDetails
  unfolding ask tell
  get_cert_info certs_file = try_except (read_cert certs_file) (λ e. pure failed)

  unfoldable pub local_serials : List String → Exec Keeper (List ℕ)
  unfolding get_cert_info serial_of
  local_serials [] = pure []
  local_serials (f ∷ rest) = do
    ca_cert_data ← get_cert_info f
    more ← local_serials rest
    pure (serial_of ca_cert_data ++ more)

  abbrev pub compare_cas : Exec Keeper (Option Bool)
  compare_cas = do
    ca_list ← get_all_ca site site.vouch_url
    vouch_ca ← lift (load_all ca_list)
    tell site.os_call
    ca_files ← gets (λ s. paths_in site.ca_directory s.files)
    local_ca ← local_serials ca_files
    pure (some (not (is_subset (serial_numbers vouch_ca) local_ca)))

  -- `none` is the `None` that is returned after an HTTP error.
  unfoldable pub new_ca_cert_available : Exec Keeper (Option Bool)
  unfolding get_all_ca load_all tell paths_in local_serials serial_numbers is_subset
  new_ca_cert_available = try_except compare_cas other_http

  abbrev expires_soon : CertDetails → ℕ → Exec Keeper Bool
  expires_soon (successful c t) curr_time = pure (
      leb (c.not_valid_after * 1000000)
        (curr_time + site.cert_refresh_interval_days * 86400 * 1000000))
  expires_soon _ curr_time = raise type_error

  -- The expiry date of details without a certificate is a text, and no date.
  unfoldable pub cert_refresh_needed : CertDetails → Exec Keeper Bool
  unfolding ask
  cert_refresh_needed cert_data = do
    curr_time ← ask (λ n. ok (site.now n))
    expires_soon cert_data curr_time

  abbrev is_true : Option Bool → Bool
  is_true (some b) = b
  is_true none = false

  abbrev pub update_now : String → Exec Keeper Bool → Exec Keeper (Unit {0})
  update_now message needs_ca = do
    info ← refresh_info site initiated message
    put_message (cert_update_initiated info)
    new_ca ← needs_ca
    response ← process_cert_update_request site new_ca
    put_message response

  abbrev update_if : Bool → Bool → Exec Keeper (Unit {0})
  update_if false new_ca = pure tt
  update_if true new_ca =
      update_now "Initiated automated host certificate  update process on " (pure new_ca)

  abbrev info_after : Bool → CertDetails → Exec Keeper CertDetails
  info_after false cert_data = pure cert_data
  info_after true cert_data = get_cert_info site.cert_pem_file

  abbrev pub look_after : CertDetails → Exec Keeper (Unit {0})
  look_after cert_data = do
    needs_cert_refresh ← cert_refresh_needed cert_data
    new_ca ← new_ca_cert_available
    update_if (needs_cert_refresh || is_true new_ca) (is_true new_ca)
    cert_data' ← info_after needs_cert_refresh cert_data
    put_message (cert_info cert_data')

  -- The first half of a round, before the wait.
  unfoldable pub check_certs : Exec Keeper (Unit {0})
  unfolding get_cert_info cert_refresh_needed new_ca_cert_available refresh_info put_message
      process_cert_update_request
  check_certs = do
    cert_data ← get_cert_info site.cert_pem_file
    try_except (look_after cert_data) (λ e. pure tt)

  abbrev forced_update : Exec Keeper (Unit {0})
  forced_update = do
    modify (λ s. record s { cert_update_event = false })
    update_now "Initiated forced host certificate update process on "
        (do ca_refresh_needed ← new_ca_cert_available; pure (is_true ca_refresh_needed))

  abbrev update_on : Bool → Exec Keeper (Unit {0})
  update_on false = pure tt
  update_on true = try_except forced_update (λ e. pure tt)

  -- The second half, after the wait, in which the main thread may have set the event.
  unfoldable pub after_wait : Exec Keeper (Unit {0})
  unfolding new_ca_cert_available refresh_info put_message process_cert_update_request
  after_wait = do event_received ← gets (λ s. s.cert_update_event); update_on event_received

  abbrev round : Bool → Exec Keeper (Unit {0})
  round set_event = do
    check_certs
    modify (λ s. record s { cert_update_event = s.cert_update_event || set_event })
    after_wait

  -- The loop, for as many rounds as the list has, each with whether the event is set in it.
  unfoldable pub cert_update_thread : List Bool → Exec Keeper (Unit {0})
  unfolding check_connection check_certs after_wait for_each
  cert_update_thread rounds = do
    vouch_present ← check_connection site site.vouch_url
    if vouch_present then for_each rounds round else pure tt

-- The dictionary `cert_info`; no `refresh_info` is the one that it starts with.
pub record CertInfo : Type 0 where
  pub details : CertDetails
  pub refresh_info : Option RefreshInfo

-- `None` on the queue raises, and leaves the dictionary as it is.
unfoldable pub take_message : Message → CertInfo → CertInfo
take_message (cert_info details) i = record i { details = details }
take_message (cert_update_initiated details) i = record i { refresh_info = some details }
take_message (cert_update_result details) i = record i { refresh_info = some details }
take_message no_answer i = i

unfoldable pub check_for_cert_data : List Message → CertInfo → CertInfo × List Message
unfolding take_message
check_for_cert_data [] i = (i, [])
check_for_cert_data (m ∷ q) i = (take_message m i, q)
