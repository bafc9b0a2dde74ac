-- ===== src/Certs.antt =====
-- The certificates of a host: bbone/bbslave/bbslave/certs.py, util.py and cert_update_thread.py. This
-- file has the state of the thread that keeps them, what it calls, and the operations on files.
pub mod Files
pub mod Comms
pub mod Names
pub mod Update
pub mod Thread
pub mod Free
pub mod Backups
pub mod Kept
pub mod Installed
pub mod Restored
pub mod Reached
pub mod Unreported
use pf9_du.Prelude.{
  ℕ, ◌+◌, String, Bool, true, false, Option, none, some, List, ◌++◌, [], ◌∷◌, if◌then◌else◌,
}
use pf9_du.Prelude.Assoc.{Assoc, get, put, without}
use pf9_du.Json.{Json, Fields}
use pf9_du.Result.{Error, Result, ok, err, os_error}
use pf9_du.Exec.{Exec, pure, raise, gets, modify, try_except, ◌>>=◌, ◌>>◌}

-- What the package cryptography reads in a certificate; the times are seconds.
pub record Certificate : Type 0 where
  pub version : String
  pub serial_number : ℕ
  pub not_valid_before : ℕ
  pub not_valid_after : ℕ

-- The constants `CERT_REFRESH_STATUS_*` and `CERT_DETAILS_STATUS_*` of util.py.
pub data RefreshStatus : Type 0 where
  refresh_successful initiated not_refreshed restored refresh_failed : RefreshStatus

-- `msg_info`
pub record RefreshInfo : Type 0 where
  pub status : RefreshStatus
  pub message : String
  pub timestamp : ℕ

-- `cert_details`: of a certificate with the time of the query, or the one whose values are empty, with
-- the status `FAILED`. `not_queried` is the one that util.py starts with.
pub data CertDetails : Type 0 where
  successful : Certificate → ℕ → CertDetails
  failed not_queried : CertDetails

-- What stands on the queue to the main thread; `no_answer` is `None`.
pub data Message : Type 0 where
  cert_info : CertDetails → Message
  cert_update_initiated cert_update_result : RefreshInfo → Message
  no_answer : Message

-- The configuration of the thread and what it calls. The answers may depend on the number of calls that
-- went before. A call of the operating system may raise; `torn` is what is then left of a file. The
-- calls of `requests` return what is read from an answer whose status is no error, else they raise.
pub record Site : Type 0 where
  pub vouch_url : String
  pub cert_refresh_interval_days : ℕ
  pub cert_pem_file : String
  pub ca_pem_file : String
  pub private_key_pem_file : String
  pub ca_directory : String
  pub hostname : String
  pub host_id : String
  -- the operating system; the clock counts microseconds
  pub os_call : ℕ → Option Error
  pub torn : ℕ → String
  pub check_call : List String → ℕ → Option Error
  pub now : ℕ → ℕ
  pub date : ℕ → String
  -- the packages cryptography and requests
  pub generate_key_and_csr : String → ℕ → Result (String × String)
  pub load_certificate : String → Result Certificate
  pub get_cas : String → ℕ → Result (List String)
  pub post_sign_cert : String → String → String → ℕ → Result Fields
  pub get_versions : String → ℕ → Result Fields

-- The files by their paths, the queue `cert_info_q` and the event `cert_update_event`.
pub record Keeper : Type 0 where
  pub files : Assoc String
  pub cert_info_q : List Message
  pub cert_update_event : Bool
  pub asked : ℕ

unfoldable pub ask : {A : Type 0} → (ℕ → Result A) → Exec Keeper A
ask answer s = (answer s.asked, record s { asked = s.asked + 1 })

abbrev pub outcome : Option Error → Result (Unit {0})
outcome none = ok tt
outcome (some e) = err e

-- A call that may raise and has no other answer.
unfoldable pub tell : (ℕ → Option Error) → Exec Keeper (Unit {0})
unfolding ask
tell answer = ask (λ n. outcome (answer n))

-- `os.path.isfile(path)`
abbrev pub is_file : String → Assoc String → Bool
is_file path files = elim (get path files) [ none ↦ false | some _ ↦ true ]

abbrev pub on_files : (Assoc String → Assoc String) → Exec Keeper (Unit {0})
on_files f = modify λ s. record s { files = f s.files }

module _ (site : Site) where
  abbrev pub move_to : String → String → Option String → Exec Keeper (Unit {0})
  move_to src dest none = raise os_error
  move_to src dest (some content) = on_files (λ files. put dest content (without src files))

  -- `os.rename(src, dest)`
  unfoldable pub rename : String → String → Exec Keeper (Unit {0})
  unfolding tell
  rename src dest = do
    tell site.os_call
    content ← gets (λ s. get src s.files)
    move_to src dest content

  -- `os.unlink(path)`
  unfoldable pub unlink : String → Exec Keeper (Unit {0})
  unfolding tell
  unlink path = do
    tell site.os_call
    there ← gets (λ s. is_file path s.files)
    if there then on_files (without path) else raise os_error

  -- A write that was cut off.
  abbrev pub tear : String → Error → Exec Keeper (Unit {0})
  tear path e s = (err e, record s { files = put path (site.torn s.asked) s.files })

  -- `with open(path, 'wb') as f: f.write(data)`, and `os.chown` of the file.
  unfoldable pub write_owned : String → String → Exec Keeper (Unit {0})
  unfolding tell
  write_owned path content = do
    tell site.os_call
    on_files (put path "")
    try_except (do tell site.os_call; on_files (put path content)) (tear path)
    tell site.os_call
