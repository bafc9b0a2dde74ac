-- ===== src/Session/Messages.antt =====
-- `handle_msg` of bbone/bbslave/bbslave/session.py from the opcode to the attempt to converge.
use text.Mathlib.Text.{find?}
use pf9_du.Prelude.{
  ℕ, ◌+◌, String, Bool, true, false, Option, none, some, ◌==◌, if◌then◌else◌, leb, nat_eq,
}
use pf9_du.Json.{Json, Fields, null, boolean, str, arr, dict, lookup, has_key, set_item, truthy}
use pf9_du.Result.{Error, Result, ok, err, type_error, key_error, assertion_error, attribute_error}
use pf9_du.Exec.{Exec, pure, raise, lift, gets, modify, try_except, ◌>>=◌, ◌>>◌}
use pf9_du.Config.{is_satisfied_by, contains_item}
use pf9_du.RoleSettings.{index}
use pf9_du.Apps.{process_apps}
use pf9_du.Session.{Host, Agent, tell, on_run, load_desired_config, save_desired_config}
use pf9_du.Session.Report.{send_status}
use pf9_du.Session.Support.{process_support_request, process_support_command}
use pf9_du.Session.Update.{is_pf9_exception, update_agent}

pub data Opcode : Type 0 where
  ping heartbeat set_config set_agent exit get_support support_command update_cert : Opcode
  invalid : Opcode

-- `msg['opcode']` among the opcodes that there are.
unfoldable pub opcode_of : Json → Opcode
opcode_of (str s) =
    if s == "ping"
    then ping
    else if s == "heartbeat"
    then heartbeat
    else if s == "set_config"
    then set_config
    else if s == "set_agent"
    then set_agent
    else if s == "exit"
    then exit
    else if s == "get_support"
    then get_support
    else if s == "support_command"
    then support_command
    else if s == "update_cert"
    then update_cert
    else invalid
opcode_of v = invalid

-- `except (TypeError, KeyError, Pf9Exception)`
abbrev pub is_bad_message : Error → Bool
is_bad_message type_error = true
is_bad_message key_error = true
is_bad_message e = is_pf9_exception e

-- `k in v`
abbrev pub contained : String → Json → Result Bool
contained k (dict f) = ok (has_key k f)
contained k (str s) = ok (elim (find? s k) [ none ↦ false | some _ ↦ true ])
contained k (arr xs) = ok (contains_item xs k)
contained k _ = err type_error

-- `v[k] = w`
abbrev pub assigned : String → Json → Json → Result Json
assigned k w (dict f) = ok (dict (set_item k w f))
assigned k w _ = err type_error

-- `desired_config['pf9-comms']` with its state set to running, if it is there and not running.
abbrev pub run_comms : Json → Fields → Result Fields
run_comms comms desired_config = elim (contained "running" comms) [
  | err e ↦ err e
  | ok false ↦ ok desired_config
  | ok true ↦ elim (index comms "running") [
    | err e ↦ err e
    | ok running ↦
        if truthy running
        then ok desired_config
        else elim (assigned "running" (boolean true) comms) [
          | err e ↦ err e
          | ok comms' ↦ ok (set_item "pf9-comms" comms' desired_config)
        ]
  ]
]

-- `_handle_iaas_3166`
unfoldable pub handle_iaas_3166 : Bool → Fields → Result Fields
handle_iaas_3166 true desired_config = ok desired_config
handle_iaas_3166 false desired_config = elim (lookup "pf9-comms" desired_config) [
  | none ↦ ok desired_config
  | some comms ↦ run_comms comms desired_config
]

-- What the first part of `handle_msg` hands on. Where there was no desired configuration, the
-- current one is taken, and then the two are one object.
pub record Attempt : Type 0 where
  pub current : Fields
  pub desired : Fields
  pub shared : Bool
  pub converged : Bool

module _ (h : Host) where
  unfoldable pub get_current_config : Exec Agent Fields
  get_current_config s = (h.get_current_config s.run s.asked, record s { asked = s.asked + 1 })

  -- `valid_and_converged`. `None` fails the assertion, and what is no dictionary has no `keys`.
  unfoldable pub valid_and_converged : Fields → Json → Exec Agent (Fields × Bool)
  unfolding on_run
  valid_and_converged current_config null = raise assertion_error
  valid_and_converged current_config (dict desired_config) = do
    changes ← on_run (process_apps h.machine true false desired_config current_config)
    pure (desired_config, nat_eq changes 0)
  valid_and_converged current_config v = raise attribute_error

  abbrev pub close_session : Exec Agent (Option Attempt)
  close_session = do
    channel ← gets (λ s. s.channel)
    (if channel then tell h.close else raise key_error)
    connection ← gets (λ s. s.connection)
    (if connection then tell h.close else raise key_error)
    pure none

  abbrev pub probe : Fields → Json → Bool → Exec Agent (Option Attempt)
  probe current_config desired_config shared = do
    (desired, converged) ← valid_and_converged current_config desired_config
    pure (
        some (record {
          current = current_config;
          desired = desired;
          shared = shared;
          converged = converged;
        }))

  abbrev pub or_current : Json → Fields → Json
  or_current null current_config = dict current_config
  or_current desired_config current_config = desired_config

  abbrev pub is_none : Json → Bool
  is_none null = true
  is_none _ = false

  abbrev pub check_config : Json → Exec Agent (Option Attempt)
  check_config desired_config = do
    current_config ← get_current_config
    probe current_config (or_current desired_config current_config) (is_none desired_config)

  -- The body of the first `try`, from the opcode on; `none` where it returns.
  unfoldable pub prepare : Opcode → Json → Json → Exec Agent (Option Attempt)
  unfolding tell get_current_config valid_and_converged
  prepare invalid msg desired_config = pure none
  prepare exit msg desired_config = if h.allow_exit_opcode then close_session else pure none
  prepare get_support msg desired_config = do
    upload ← lift (index msg "upload")
    label ← lift (index msg "label")
    process_support_request h upload label false
    pure none
  prepare support_command msg desired_config = do
    command ← lift (index msg "command")
    process_support_command h command
    pure none
  prepare update_cert msg desired_config = do
    (if h.vouch_present then modify (λ s. record s { cert_update = true }) else pure tt)
    pure none
  prepare set_agent msg desired_config = do
    current_config ← get_current_config
    agent_info ← lift (index msg "data")
    update_agent h agent_info current_config (or_current desired_config current_config)
    pure none
  prepare set_config msg desired_config = do
    current_config ← get_current_config
    new_config ← lift (index msg "data")
    modify (λ s. record s { converge_attempts = 0 })
    probe current_config new_config false
  prepare ping msg desired_config = check_config desired_config
  prepare heartbeat msg desired_config = check_config desired_config

  abbrev pub only_bad : {A : Type 0} → Error → Exec Agent (Option A)
  only_bad e = if is_bad_message e then pure none else raise e

  -- `json` values that are no error to compare: both are dictionaries.
  abbrev pub satisfied : Fields → Fields → Result Bool
  satisfied desired current = is_satisfied_by (some (dict desired)) (dict current)

  abbrev pub ignore_pf9 : Error → Exec Agent (Unit {0})
  ignore_pf9 e = if is_pf9_exception e then pure tt else raise e

  abbrev pub none_on_pf9 : Error → Exec Agent (Option Fields)
  none_on_pf9 e = if is_pf9_exception e then pure none else raise e

  abbrev pub read_again : Exec Agent (Option Fields)
  read_again =
      try_except (do current_config ← get_current_config; pure (some current_config)) none_on_pf9

  -- The status after an attempt that did not converge.
  abbrev pub not_converged : ℕ → String
  not_converged attempts = if leb h.max_converge_attempts attempts then "failed" else "retrying"

  abbrev pub report : Fields → Fields → Bool → Exec Agent (Unit {0})
  report current desired true = do
    holds ← lift (satisfied desired current)
    (if holds then pure tt else raise assertion_error)
    send_status h "ok" current null
  report current desired false = do
    attempts ← gets (λ s. s.converge_attempts)
    send_status h (not_converged attempts) current (dict desired)

  abbrev pub judge : Fields → Option Fields → Exec Agent (Unit {0})
  judge desired none = pure tt
  judge desired (some current) = do
    (_, converged) ← valid_and_converged current (dict desired)
    report current desired converged

  abbrev pub request_last : Bool → Exec Agent (Unit {0})
  request_last true = process_support_request h (boolean true) null false
  request_last false = pure tt

  -- An attempt to converge.
  unfoldable pub converge : Fields → Fields → Exec Agent (Unit {0})
  unfolding get_current_config valid_and_converged on_run
  converge current desired = do
    send_status h "converging" current (dict desired)
    modify (λ s. record s { converge_attempts = s.converge_attempts + 1 })
    attempts ← gets (λ s. s.converge_attempts)
    request_last (nat_eq attempts h.max_converge_attempts)
    try_except (on_run (process_apps h.machine false false desired current) >> pure tt) ignore_pf9
    current' ← read_again
    judge desired current'

  abbrev pub try_to_converge : Fields → Fields → ℕ → Exec Agent (Unit {0})
  try_to_converge current desired attempts =
      if leb h.max_converge_attempts attempts
      then send_status h "failed" current (dict desired)
      else converge current desired

  abbrev pub when_valid : Fields → Fields → Bool → Exec Agent (Unit {0})
  when_valid current desired true = send_status h "ok" current null
  when_valid current desired false = do
    attempts ← gets (λ s. s.converge_attempts)
    try_to_converge current desired attempts

  -- The configuration that the other name refers to after the one object has been changed.
  abbrev pub seen_current : Attempt → Fields → Fields
  seen_current a desired = if a.shared then desired else a.current

  -- The part behind the first `try`.
  unfoldable pub finish : Attempt → Exec Agent (Unit {0})
  unfolding handle_iaas_3166 converge
  finish a = do
    desired ← lift (handle_iaas_3166 h.disable_iaas_1366_handling a.desired)
    save_desired_config h (dict desired)
    _ ← lift (satisfied desired (seen_current a desired))
    when_valid (seen_current a desired) desired a.converged

  abbrev pub finish_if : Option Attempt → Exec Agent (Unit {0})
  finish_if none = pure tt
  finish_if (some a) = finish a

  unfoldable pub handle_msg : Json → Exec Agent (Unit {0})
  unfolding prepare finish
  handle_msg msg = do
    opcode ← lift (index msg "opcode")
    desired_config ← load_desired_config h
    prepared ← try_except (prepare (opcode_of opcode) msg desired_config) only_bad
    finish_if prepared
