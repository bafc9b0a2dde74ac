-- ===== src/Master/Bundles.antt =====
-- Support bundles as the master keeps them: `handle_support_bundle` of
-- bbone/bbmaster/bbmaster/bbone_provider_pf9_pika.py.
use Prim.Native.Char.{code}
use pf9_du.Prelude.{
  String, Bool, false, ◌∷◌, [], ◌++◌, none, some, ◌==◌, join, if◌then◌else◌, nat_eq,
}
use pf9_du.Prelude.Assoc.{put}
use pf9_du.Json.{Json, Fields, null, str, dict, lookup, json_eq}
use pf9_du.Result.{Result, ok, err, type_error, attribute_error}
use pf9_du.Exec.{Exec, pure, lift, modify, try_except, ◌>>=◌, ◌>>◌}
use pf9_du.RoleSettings.{index}
use pf9_du.Master.{Setting, Master}
use pf9_du.Master.Sending.{ask, tell}

-- `os.path.join`
unfoldable pub is_absolute : String → Bool
is_absolute String.[] = false
is_absolute (String.◌∷◌ c s) = nat_eq (code c) b'/'

unfoldable pub ends_in_slash : String → Bool
ends_in_slash String.[] = false
ends_in_slash (String.◌∷◌ c String.[]) = nat_eq (code c) b'/'
ends_in_slash (String.◌∷◌ c (String.◌∷◌ d s)) = ends_in_slash (String.◌∷◌ d s)

unfoldable pub path_join : String → String → String
unfolding is_absolute ends_in_slash
path_join a b =
    if is_absolute b
    then b
    else if a == ""
    then b
    else if ends_in_slash a
    then join a b
    else join a (join "/" b)

abbrev path_part : Json → Result String
path_part (str s) = ok s
path_part v = err type_error

module _ (w : Setting) where
  -- `msg['data'].get('fingerprint', 'unknown')`
  abbrev fingerprint_of : Json → Result Json
  fingerprint_of (dict body) = elim (lookup "fingerprint" body) [
    | none ↦ ok (str "unknown")
    | some v ↦ ok v
  ]
  fingerprint_of v = err attribute_error

  unfoldable pub hostfile : String → Json → String → Json → String
  unfolding path_join
  hostfile host_id host_name timestamp fingerprint = path_join host_id (
      join (w.text_of host_name)
        (join "-" (join timestamp (join "-" (join (w.text_of fingerprint) ".gpg")))))

  abbrev du_dir : Json → String → Result String
  du_dir null file = ok (path_join w.du_fqdn file)
  du_dir (str label) file = ok (path_join (path_join w.du_fqdn label) file)
  du_dir label file = err type_error

  -- `msg['data']['upload'].lower() == "true"`; only a text has this method.
  abbrev pub wants_upload : Json → Result Bool
  wants_upload (str s) = ok (w.lower s == "true")
  wants_upload v = err attribute_error

  upload_file : String → String → Exec Master (Unit {0})
  unfolding tell
  upload_file outfile to = do
    tell w.upload
    modify (λ s. record s { uploads = s.uploads ++ (outfile, to) ∷ [] })

  -- The body of the last `try`; the file is written under another name and renamed.
  unfoldable pub keep_bundle : Json → String → String → Exec Master (Unit {0})
  unfolding tell upload_file
  keep_bundle body outfile to = do
    encoded ← lift (index body "contents")
    contents ← lift (w.b64decode encoded)
    tell w.write_file
    modify (λ s. record s { files = put outfile contents s.files })
    flag ← lift (index body "upload")
    upload ← lift (wants_upload flag)
    if upload then upload_file outfile to else pure tt

  success : Json → Exec Master (Unit {0})
  unfolding ask tell keep_bundle hostfile path_join
  success body = do
    timestamp ← ask (λ n. ok (w.file_time n))
    info ← lift (index body "info")
    host_name ← lift (index info "hostname")
    id ← lift (index body "host_id")
    fingerprint ← lift (fingerprint_of body)
    host_id ← lift (path_part id)
    let file = hostfile host_id host_name timestamp fingerprint
    label ← lift (index body "label")
    to ← lift (du_dir label file)
    tell w.makedirs
    try_except (keep_bundle body (path_join w.support_dir_location file) to) (λ e. pure tt)

  unfoldable pub handle_support_bundle : Fields → Exec Master (Unit {0})
  unfolding success
  handle_support_bundle msg = do
    body ← lift (index (dict msg) "data")
    lift (index body "info")
    status ← lift (index (dict msg) "status")
    if json_eq status (str "error")
        then lift (index (dict msg) "error_message") >> pure tt
        else success body
