-- ===== src/Examples/Session.antt =====
-- The theorems on the session of the host agent, applied to a host with one application that is to be
-- upgraded.
use pf9_du.Prelude.{
  String, ◌≡◌, refl, ◌+◌, ◌⊎◌, true, false, none, some, [], ◌∷◌, ◌++◌, List, ◌==◌, nat_eq,
  if◌then◌else◌,
}
use pf9_du.Json.{Json, Fields, null, str, dict, end, field}
use pf9_du.Result.{ok, other_error}
use pf9_du.RoleSettings.{index}
use pf9_du.Session.{Host, Agent, Completed, load_desired_config, save_desired_config}
use pf9_du.Session.Support.{process_support_command}
use pf9_du.Session.Messages.{handle_msg}
use pf9_du.Session.Core.{core}
use pf9_du.Session.Core.Steps.{Step}
use pf9_du.Session.Core.Refines.{resets_msg, handle_msg-Step}
use pf9_du.Session.Saved.{IsSaved, save_desired_config-load}
use pf9_du.Session.Commands.{Matched, process_support_command-Allowed}
use pf9_du.Examples.Apps.{machine, installed, specified, idle}

-- A write as the tenth call fails; all else succeeds.
abbrev pub agent_host : Host
agent_host = record {
  machine = machine;
  host_id = "host1";
  max_converge_attempts = 2;
  allow_exit_opcode = false;
  disable_iaas_1366_handling = false;
  vouch_present = false;
  loads = λ text. ok (dict specified);
  dumps = λ j. "{}";
  matches = λ pattern text. ok (pattern == text);
  text_of = λ j. "";
  text_of_error = λ e. "";
  read_file = λ n. none;
  write_part = λ n. if nat_eq n 9 then some other_error else none;
  part_of = λ text n. none;
  rename_part = λ n. none;
  unlink_desired = λ n. none;
  allowed_commands = λ n. ok ("ls" ∷ []);
  run_command = λ captured command n. ok (null, null, null);
  extensions = λ n. [];
  executable = λ name n. true;
  run_extension = λ name n. ok (record { code = 0; output = ""; errors = "" });
  generate_support_bundle = λ n. none;
  support_file_there = λ n. true;
  open_support_file = λ n. none;
  fingerprint = λ n. null;
  contents = λ n. ok "";
  get_current_config = λ run n. ok installed;
  installed_agent = λ n. ok (field "version" (str "1.0") end);
  agent_call = λ c n. none;
  sysinfo = λ n. null;
  cert_info = λ n. null;
  timestamp = λ n. str "now";
  publish = λ n. none;
  close = λ n. none;
}

abbrev pub agent : Agent
agent = record {
  converge_attempts = 0;
  channel = true;
  connection = true;
  closed_unexpectedly = false;
  agent_status = "running";
  agent_version = str "1.0";
  pending = none;
  desired_file = none;
  part_file = none;
  cert_update = false;
  sent = [];
  commands = [];
  agent_calls = [];
  run = idle;
  asked = 0;
}

abbrev new_config : Json
new_config = dict (field "opcode" (str "set_config") (field "data" (dict specified) end))

abbrev beat : Json
beat = dict (field "opcode" (str "heartbeat") end)

handle_msg-Step_example :
    Step 2
      (resets_msg (index new_config "opcode"))
      (core agent)
      (core (handle_msg agent_host new_config agent).1)
handle_msg-Step_example = handle_msg-Step agent_host new_config agent

save_desired_config-load_example :
    IsSaved agent_host
      (dict specified)
      agent
      (save_desired_config agent_host (dict specified) agent)
save_desired_config-load_example =
    save_desired_config-load agent_host (dict specified) agent refl (λ n. refl)

process_support_command-Allowed_example :
    ((process_support_command agent_host (str "ls") agent).1.commands ≡ [])
    ⊎ ((c : String) × (patterns : List String) × (str "ls" ≡ str c)
        × (agent_host.allowed_commands (0 + 1) ≡ ok patterns)
        × Matched agent_host patterns c
        × ((process_support_command agent_host (str "ls") agent).1.commands ≡ [] ++ c ∷ []))
process_support_command-Allowed_example =
    process_support_command-Allowed agent_host (str "ls") agent
