-- ===== src/Session.antt =====
-- The session of the host agent: bbone/bbslave/bbslave/session.py. This file has its state, what it
-- calls, and the file of the desired configuration.
pub mod Extensions
pub mod Report
pub mod Support
pub mod Update
pub mod Messages
pub mod Connection
pub mod Core
pub mod Bounds
pub mod Saved
pub mod Sent
pub mod Commands
use pf9_du.Prelude.{ℕ, ◌+◌, String, Bool, Option, none, some, List, [], ◌∷◌, ◌++◌, if◌then◌else◌}
use pf9_du.Json.{Json, Fields, null}
use pf9_du.Result.{Error, Result, ok, err}
use pf9_du.Exec.{Exec, pure, gets, modify, lift, try_except, ◌>>=◌, ◌>>◌, raise}
use pf9_du.Apps.Calls.{Machine, Run, outcome}

-- The result of a command: its return code, its output and what it wrote to the error stream.
pub record Completed : Type 0 where
  pub code : ℕ
  pub output : String
  pub errors : String

-- The calls of the objects of the agent's own package.
pub data AgentCall : Type 0 where
  create : Json → Json → Json → AgentCall
  download update reboot : AgentCall

-- What is outside of the session. An answer may depend on the number of calls that went before, and
-- the installed applications on the changes that were made to them. A message stands for its text;
-- the file of the desired configuration is a text, which `loads` and `dumps` (the package `json`) read
-- and print.
pub record Host : Type 1 where
  -- the configuration
  pub machine : Machine
  pub host_id : String
  pub max_converge_attempts : ℕ
  pub allow_exit_opcode : Bool
  pub disable_iaas_1366_handling : Bool
  pub vouch_present : Bool
  -- the packages of Python
  pub loads : String → Result Json
  pub dumps : Json → String
  pub matches : String → String → Result Bool
  pub text_of : Json → String
  pub text_of_error : Error → String
  -- the file system and the commands
  pub read_file : ℕ → Option Error
  -- `open` and `write` of the `.part` file; what the file holds after a failure
  pub write_part : ℕ → Option Error
  pub part_of : String → ℕ → Option String
  pub rename_part : ℕ → Option Error
  pub unlink_desired : ℕ → Option Error
  pub allowed_commands : ℕ → Result (List String)
  pub run_command : Bool → String → ℕ → Result (Json × Json × Json)
  pub extensions : ℕ → List String
  pub executable : String → ℕ → Bool
  pub run_extension : String → ℕ → Result Completed
  pub generate_support_bundle : ℕ → Option Error
  pub support_file_there : ℕ → Bool
  pub open_support_file : ℕ → Option Error
  pub fingerprint : ℕ → Json
  pub contents : ℕ → Result String
  -- the applications and the agent
  pub get_current_config : Run → ℕ → Result Fields
  pub installed_agent : ℕ → Result Fields
  pub agent_call : AgentCall → ℕ → Option Error
  pub sysinfo : ℕ → Json
  pub cert_info : ℕ → Json
  pub timestamp : ℕ → Json
  -- the message broker
  pub publish : ℕ → Option Error
  pub close : ℕ → Option Error

-- The variables of `start` and of the module: `state`, where `channel` and `connection` are the
-- presence of the keys; `_hostagent_info`; `_pending_support_bundle`, `none` where nothing is pending.
-- Beside them are the files and what the session has done: the messages that it has sent, the commands
-- that it has run, and the calls of application objects.
pub record Agent : Type 0 where
  pub converge_attempts : ℕ
  pub channel : Bool
  pub connection : Bool
  pub closed_unexpectedly : Bool
  pub agent_status : String
  pub agent_version : Json
  pub pending : Option (Json × Json)
  pub desired_file : Option String
  pub part_file : Option String
  pub cert_update : Bool
  pub sent : List Json
  pub commands : List String
  pub agent_calls : List AgentCall
  pub run : Run
  pub asked : ℕ

-- A call of the outside.
unfoldable pub ask : {A : Type 0} → (ℕ → Result A) → Exec Agent A
ask answer s = (answer s.asked, record s { asked = s.asked + 1 })

unfoldable pub tell : (ℕ → Option Error) → Exec Agent (Unit {0})
unfolding ask
tell answer = ask (λ n. outcome (answer n))

-- A call on the applications.
unfoldable pub on_run : {A : Type 0} → Exec Run A → Exec Agent A
on_run m s = let (r, run) = m s.run in (r, record s { run = run })

module _ (h : Host) where
  abbrev pub read_desired : Option String → Exec Agent Json
  read_desired none = pure null
  read_desired (some text) = try_except (tell h.read_file >> lift (h.loads text)) (λ e. pure null)

  -- `load_desired_config`; `None` is `null`.
  unfoldable pub load_desired_config : Exec Agent Json
  unfolding tell
  load_desired_config = do file ← gets (λ s. s.desired_file); read_desired file

  abbrev pub unlink_if : Option String → Exec Agent (Unit {0})
  unlink_if none = pure tt
  unlink_if (some _) = do tell h.unlink_desired; modify (λ s. record s { desired_file = none })

  -- The file is opened and written: all of the text is in it unless that fails.
  unfoldable pub write_part_file : String → Exec Agent (Unit {0})
  unfolding ask
  write_part_file text = do
    failed ← ask (λ n. ok (h.write_part n))
    n ← gets (λ s. s.asked)
    elim failed [
      | none ↦ modify (λ s. record s { part_file = some text })
      | some e ↦ (do modify (λ s. record s { part_file = h.part_of text n }); raise e)
    ]

  unfoldable pub rename_part_file : Exec Agent (Unit {0})
  unfolding tell
  rename_part_file = do
    tell h.rename_part
    modify (λ s. record s { desired_file = s.part_file; part_file = none })

  -- `save_desired_config`: `None` is `null`, and what `unlink` raises goes on; of the rest, every
  -- exception is only logged.
  unfoldable pub save_desired_config : Json → Exec Agent (Unit {0})
  unfolding tell write_part_file rename_part_file
  save_desired_config null = do file ← gets (λ s. s.desired_file); unlink_if file
  save_desired_config desired_config =
      try_except (write_part_file (h.dumps desired_config) >> rename_part_file) (λ e. pure tt)
