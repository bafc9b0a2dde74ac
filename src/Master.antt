-- ===== src/Master.antt =====
-- The master of the backbone: `bbone_provider_memory` and `bbone_provider_pf9` of
-- bbone/bbmaster/bbmaster. This file has its state and the tables of bbone_provider_memory.py; a call
-- runs to its end before another one starts.
pub mod Firmware
pub mod Sending
pub mod Bundles
pub mod Receiving
pub mod Requests
pub mod Queues
pub mod Heard
use pf9_du.Prelude.{
  ℕ, ◌+◌, String, Bool, Option, none, some, List, [], ◌∷◌, ◌++◌, map, select, if◌then◌else◌,
}
use pf9_du.Prelude.Assoc.{Assoc, get, put}
use pf9_du.Json.{Json, Fields, str, dict, end, field, null}
use pf9_du.Result.{Error, Result, ok}
use pf9_du.Exec.{Exec, pure, gets, modify, ◌>>=◌, ◌>>◌}

-- `self.hosts`, `self.desired_apps` and `self.host_agents`.
pub record Tables : Type 0 where
  pub hosts : Assoc Fields
  pub desired_apps : Assoc Json
  pub host_agents : Assoc Json

-- A message whose queue is being declared: what is left to bind before it becomes pending, and the key
-- for whose binding the broker has been asked last.
pub record Declaring : Type 0 where
  pub routing_key : String
  pub body : Json
  pub routing_keys_to_bind : List String
  pub binding : Option String

-- The provider: the tables, the messages, the presence of `connection` and `channel` in `self.state`;
-- and what it has done: queues bound to keys, messages published with their routing keys, timers set,
-- files written and uploaded.
pub record Master : Type 0 where
  pub tables : Tables
  pub pending_msgs : List (String × Json)
  pub connection : Bool
  pub channel : Bool
  pub declaring : List Declaring
  pub bound : List (String × String)
  pub published : List (String × Json)
  pub timers : ℕ
  pub files : Assoc String
  pub uploads : List (String × String)
  pub asked : ℕ

-- What is outside of the provider.
pub record Setting : Type 0 where
  pub is_ddu : Bool
  pub is_isv : Bool
  pub firmware_apps_config : Fields
  pub du_fqdn : String
  pub support_dir_location : String
  pub a_long_time_ago : Json
  pub now : ℕ → Json
  pub file_time : ℕ → String
  pub text_of : Json → String
  pub lower : String → String
  pub b64decode : Json → Result String
  pub publish : ℕ → Option Error
  pub declare : ℕ → Option Error
  pub bind : ℕ → Option Error
  pub makedirs : ℕ → Option Error
  pub write_file : ℕ → Option Error
  pub upload : ℕ → Option Error

module _ (w : Setting) where
  -- `get_host_ids`
  unfoldable pub get_host_ids : Tables → List String
  get_host_ids t = map (λ e. e.0) t.hosts

  states_of : List String → Tables → List Fields
  states_of [] t = []
  states_of (id ∷ ids) t =
      let rest = states_of ids t in elim (get id t.hosts) [ none ↦ rest | some f ↦ f ∷ rest ]

  -- `get_hosts`: of all hosts where no ids are given.
  unfoldable pub get_hosts : List String → Tables → List Fields
  unfolding states_of get_host_ids
  get_hosts [] t = states_of (get_host_ids t) t
  get_hosts ids t = states_of ids t

  abbrev missing : String → Fields
  missing id = field "host_id" (str id) (
      field "status" (str "missing")
        (field "timestamp" w.a_long_time_ago (field "timestamp_on_du" w.a_long_time_ago end)))

  abbrev with_missing : String → Option Fields → Assoc Fields → Assoc Fields
  with_missing id none hosts = put id (missing id) hosts
  with_missing id (some f) hosts = hosts

  -- `set_host_apps`
  unfoldable pub set_host_apps : String → Json → Tables → Tables
  set_host_apps id apps_config t = record t {
    hosts = with_missing id (get id t.hosts) t.hosts;
    desired_apps = put id apps_config t.desired_apps;
  }

  -- `set_host_agent_config`
  unfoldable pub set_host_agent_config : String → Json → Tables → Tables
  set_host_agent_config host_id agent_config t = record t {
    host_agents = put host_id agent_config t.host_agents;
  }

  -- `set_host_agent`
  unfoldable pub set_host_agent : String → Json → Tables → Tables
  unfolding set_host_agent_config
  set_host_agent host_id agent_data t = elim (get host_id t.host_agents) [
    | none ↦ set_host_agent_config host_id (dict end) t
    | some _ ↦ t
  ]

  -- `get_host_agent`
  unfoldable pub get_host_agent : String → Tables → Json
  get_host_agent host_id t = elim (get host_id t.host_agents) [ none ↦ dict end | some a ↦ a ]
