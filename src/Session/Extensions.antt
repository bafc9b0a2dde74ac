-- ===== src/Session/Extensions.antt =====
-- `get_extension_data` of bbone/bbslave/bbslave/session.py: the scripts that add to the status.
use pf9_du.Prelude.{ℕ, String, Bool, true, false, List, [], ◌∷◌, ◌==◌, if◌then◌else◌, nat_eq, join}
use pf9_du.Json.{Json, Fields, str, dict, end, field, set_item}
use pf9_du.Result.{Result, ok, err, attribute_error}
use pf9_du.Exec.{Exec, pure, lift, ◌>>=◌}
use pf9_du.Session.{Host, Agent, Completed, ask}

abbrev extension_result : String → Json → Json
extension_result status value = dict (field "status" (str status) (field "data" value end))

-- What is left of a run of a script: its code with its output, or the text of the exception with
-- code 256. That text is a `str`, the output is `bytes`.
pub data Ran : Type 0 where
  bytes : ℕ → String → Ran
  text : ℕ → Ran

-- `_run_command`: the output of a command that failed is put into a JSON text as it is.
unfoldable pub checked : Completed → Completed
checked c =
    if nat_eq c.code 0
    then c
    else record c { output = join "{\"err_msg\" : \"" (join c.output "\"}"); errors = "" }

abbrev pub ran : Result Completed → Ran
ran (ok c) = let c' = checked c in bytes c'.code c'.output
ran (err e) = text 256

module _ (h : Host) where
  -- A `str` has no `decode`.
  abbrev failed_data : Ran → Result Json
  failed_data (bytes code output) = if output == "" then ok (str "") else h.loads output
  failed_data (text code) = err attribute_error

  abbrev ok_data : Result Json → Json
  ok_data (ok value) = extension_result "ok" value
  ok_data (err e) = extension_result "error" (str "Extension returned non JSON serializable data")

  abbrev error_data : Result Json → Result Json
  error_data (ok value) = ok (extension_result "error" value)
  error_data (err e) = err e

  abbrev code_of : Ran → ℕ
  code_of (bytes code output) = code
  code_of (text code) = code

  abbrev loaded : Ran → Result Json
  loaded (bytes code output) = h.loads output
  loaded (text code) = err attribute_error

  unfoldable pub result_of : Ran → Result Json
  result_of r =
      let failed = error_data (failed_data r) in
      if nat_eq (code_of r) 0
      then ok (ok_data (loaded r))
      else if nat_eq (code_of r) 124
      then ok (extension_result "timed-out" (str "Extension script timed-out"))
      else failed

  -- One script; `name` is its name without the prefix.
  unfoldable pub run_one : String → Exec Agent Ran
  unfolding ask
  run_one name = ask (λ n. ok (ran (h.run_extension name n)))

  abbrev pub add_result : String → Bool → Fields → Exec Agent Fields
  add_result name false ext_data = pure ext_data
  add_result name true ext_data = do
    r ← run_one name
    ext_result ← lift (result_of r)
    pure (set_item name ext_result ext_data)

  unfoldable pub run_all : List String → Fields → Exec Agent Fields
  unfolding ask run_one result_of
  run_all [] ext_data = pure ext_data
  run_all (name ∷ names) ext_data = do
    executable ← ask (λ n. ok (h.executable name n))
    ext_data' ← add_result name executable ext_data
    run_all names ext_data'

  unfoldable pub get_extension_data : Exec Agent Fields
  unfolding ask
  get_extension_data = do names ← ask (λ n. ok (h.extensions n)); run_all names end
