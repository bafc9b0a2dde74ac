-- ===== src/Session/Support.antt =====
-- Support bundles and support commands in bbone/bbslave/bbslave/session.py.
use Prim.Native.Char.{code}
use pf9_du.Prelude.{
  String, Bool, true, false, not, ◌&&◌, ◌||◌, List, [], ◌∷◌, ◌++◌, ◌==◌, if◌then◌else◌, join,
  nat_eq,
}
use pf9_du.Json.{Json, Fields, str, dict, end, field, set_item}
use pf9_du.Result.{Error, Result, ok, err, key_error, type_error}
use pf9_du.Exec.{Exec, pure, raise, lift, gets, modify, try_except, ◌>>=◌, ◌>>◌}
use pf9_du.Session.{Host, Agent, ask, tell}
use pf9_du.Session.Report.{basic_publish, message}

-- `s.startswith(p)`
unfoldable pub starts_with : String → String → Bool
starts_with String.[] s = true
starts_with (String.◌∷◌ c p) String.[] = false
starts_with (String.◌∷◌ c p) (String.◌∷◌ d s) = nat_eq (code c) (code d) && starts_with p s

-- The commands that restart the agent itself; their output is not captured.
unfoldable pub restarts_agent : String → Bool
unfolding starts_with
restarts_agent command =
    starts_with "sudo service pf9-hostagent " command
    || (starts_with "sudo /etc/init.d/pf9-hostagent " command
        || command == "sudo systemctl restart pf9-hostagent")

module _ (h : Host) where
  unfoldable pub support_data : Json → Json → Json → Fields
  support_data info upload label =
      field "host_id" (str h.host_id)
        (field "info" info (field "upload" upload (field "label" label end)))

  -- The whole message, from its data and the outcome.
  support_message : Fields → String → String → Json
  support_message body status error_message = dict (
      field "opcode" (str "support") (
        field "data" (dict body)
          (field "status" (str status) (field "error_message" (str error_message) end))))

  unfoldable pub support_failed : Fields → Error → Json
  unfolding support_message
  support_failed body e =
      support_message (set_item "contents" (str "") body) "error" (h.text_of_error e)

  unfoldable pub support_done : Fields → String → Json
  unfolding support_message
  support_done body contents =
      support_message (set_item "contents" (str contents) body) "success" ""

  -- `not reupload or not os.path.exists(..)`
  unfoldable pub generate : Bool → Exec Agent (Unit {0})
  unfolding ask tell
  generate false = tell h.generate_support_bundle
  generate true = do
    there ← ask (λ n. ok (h.support_file_there n))
    if there then pure tt else tell h.generate_support_bundle

  unfoldable pub read_bundle : Fields → Exec Agent Json
  unfolding ask support_done support_failed
  read_bundle body =
      try_except (do contents ← ask h.contents; pure (support_done body contents))
        (λ e. pure (support_failed body e))

  unfoldable pub bundle_message : Bool → Fields → Exec Agent Json
  unfolding generate ask tell read_bundle support_failed
  bundle_message reupload body =
      try_except
        (do
          generate reupload
          tell h.open_support_file
          fingerprint ← ask (λ n. ok (h.fingerprint n))
          read_bundle (set_item "fingerprint" fingerprint body))
        (λ e. pure (support_failed body e))

  abbrev pub publish_bundle : Bool → Json → Json → Bool → Exec Agent (Unit {0})
  publish_bundle false upload label reupload = pure tt
  publish_bundle true upload label reupload = do
    info ← ask (λ n. ok (h.sysinfo n))
    msg ← bundle_message reupload (support_data info upload label)
    basic_publish h msg

  -- `process_support_request`. Its assignments to `_pending_support_bundle` are to a variable of its
  -- own, as the function does not declare the name `global`: that of the module stays.
  unfoldable pub process_support_request : Json → Json → Bool → Exec Agent (Unit {0})
  unfolding ask bundle_message support_data basic_publish
  process_support_request upload label reupload = do
    channel ← gets (λ s. s.channel)
    publish_bundle channel upload label reupload

  -- `_is_command_allowed`
  unfoldable pub is_command_allowed : List String → Json → Result Bool
  is_command_allowed [] command = ok false
  is_command_allowed (regex ∷ rest) (str command) =
      let others = is_command_allowed rest (str command) in
      elim (h.matches regex command) [ err e ↦ err e | ok b ↦ if b then ok true else others ]
  is_command_allowed (regex ∷ rest) command = err type_error

  unfoldable pub command_done : Fields → Json × Json × Json → Fields
  command_done body (rc, out, errors) = set_item "error_message" (str "") (
      set_item "status" (str "success")
        (set_item "err" errors (set_item "out" out (set_item "rc" rc body))))

  unfoldable pub command_failed : Fields → String → Fields
  command_failed body reason =
      set_item "error_message" (str reason) (set_item "status" (str "error") body)

  -- A command is a text once it matched.
  unfoldable pub run_support_command : Json → Fields → Exec Agent Fields
  unfolding ask command_done
  run_support_command (str command) body = do
    modify (λ s. record s { commands = s.commands ++ command ∷ [] })
    result ← ask (h.run_command (not (restarts_agent command)) command)
    pure (command_done body result)
  run_support_command command body = raise type_error

  abbrev pub if_allowed : Bool → Json → Fields → Exec Agent Fields
  if_allowed true command body = run_support_command command body
  if_allowed false command body =
      pure (command_failed body (join "Invalid command: " (h.text_of command)))

  abbrev pub run_if_allowed : Json → Fields → Exec Agent Fields
  run_if_allowed command body = do
    allowed_commands ← ask h.allowed_commands
    allowed ← lift (is_command_allowed allowed_commands command)
    if_allowed allowed command body

  abbrev pub command_data : Json → Json → Fields
  command_data info command =
      field "host_id" (str h.host_id) (field "info" info (field "command" command end))

  -- `process_support_command`; a closed channel is noticed only when the answer is sent.
  unfoldable pub process_support_command : Json → Exec Agent (Unit {0})
  unfolding ask basic_publish run_support_command command_failed is_command_allowed
  process_support_command command = do
    info ← ask (λ n. ok (h.sysinfo n))
    let body = command_data info command
    answer ←
        try_except (run_if_allowed command body)
          (λ e. pure (command_failed body (h.text_of_error e)))
    channel ← gets (λ s. s.channel)
    if channel
        then basic_publish h (message "support_command_response" (dict answer))
        else raise key_error
