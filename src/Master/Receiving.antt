-- ===== src/Master/Receiving.antt =====
-- `consume_msg` of bbone/bbmaster/bbmaster/bbone_provider_pf9_pika.py: the messages of the hosts.
use pf9_du.Prelude.{Option, none, some, if◌then◌else◌}
use pf9_du.Prelude.Assoc.{put}
use pf9_du.Json.{Json, Fields, str, dict, set_item, json_eq}
use pf9_du.Result.{Error, Result, ok, err, type_error, key_error, value_error}
use pf9_du.Exec.{Exec, pure, raise, lift, modify, try_except, ◌>>=◌, ◌>>◌}
use pf9_du.RoleSettings.{index}
use pf9_du.Master.{Setting, Master, set_host_agent_config}
use pf9_du.Master.Sending.{ask}
use pf9_du.Master.Bundles.{handle_support_bundle}

-- What the first part hands on of a status: the state of the host, its id and that of its agent.
pub record Status : Type 0 where
  pub id : Json
  pub host_state : Fields
  pub host_agent : Json

module _ (w : Setting) where
  -- `handle_support_command_response`; what it reads is only logged.
  unfoldable pub handle_support_command_response : Json → Exec Master (Unit {0})
  handle_support_command_response body = do
    lift (index body "info")
    status ← lift (index body "status")
    if json_eq status (str "error")
        then lift (index body "error_message") >> pure tt
        else (do lift (index body "rc"); lift (index body "out"); lift (index body "err"); pure tt)

  -- `host_state['timestamp_on_du'] = ..`
  abbrev pub stamped : Json → Json → Result Fields
  stamped time (dict f) = ok (set_item "timestamp_on_du" time f)
  stamped time v = err type_error

  -- For the log, the id of a host that is ok is read.
  abbrev pub read_status : Fields → Exec Master (Option Status)
  read_status msg = do
    body ← lift (index (dict msg) "data")
    status ← lift (index body "status")
    (if json_eq status (str "ok") then lift (index body "host_id") >> pure tt else pure tt)
    time ← ask (λ n. ok (w.now n))
    host_state ← lift (stamped time body)
    id ← lift (index (dict host_state) "host_id")
    host_agent ← lift (index (dict host_state) "host_agent")
    pure (some (record { id = id; host_state = host_state; host_agent = host_agent }))

  -- The body of the `try`; `none` where it returns.
  unfoldable pub read_message : Json → Exec Master (Option Status)
  unfolding ask
  read_message (dict msg) = do
    opcode ← lift (index (dict msg) "opcode")
    if json_eq opcode (str "support")
        then handle_support_bundle w msg >> pure none
        else if json_eq opcode (str "support_command_response")
        then (do
          body ← lift (index (dict msg) "data")
          handle_support_command_response body
          pure none)
        else if json_eq opcode (str "status")
        then read_status msg
        else raise value_error
  read_message msg = raise type_error

  -- `except (ValueError, TypeError, KeyError)`
  abbrev pub malformed : Error → Exec Master (Option Status)
  malformed value_error = pure none
  malformed type_error = pure none
  malformed key_error = pure none
  malformed e = raise e

  -- The update of the tables. An id is a text: Python refuses lists and dictionaries as keys, and this
  -- model refuses all other values.
  unfoldable pub store : Option Status → Exec Master (Unit {0})
  store none = pure tt
  store (some st) = elim st.id [
    | str id ↦ modify λ s. record s {
      tables =
          set_host_agent_config w id st.host_agent
            (record s.tables { hosts = put id st.host_state s.tables.hosts });
    }
    | _ ↦ raise type_error
  ]

  -- `consume_msg`, from the value that `json.loads` returns.
  unfoldable pub consume_msg : Json → Exec Master (Unit {0})
  unfolding read_message store
  consume_msg msg = do status ← try_except (read_message msg) malformed; store status
