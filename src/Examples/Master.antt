-- ===== src/Examples/Master.antt =====
-- The theorems on the master of the backbone, applied to one host.
use pf9_du.Prelude.{◌≡◌, refl, ◌+◌, true, false, none, [], ◌∷◌, ◌++◌, List, All}
use pf9_du.Json.{Json, null, str, dict, end, field}
use pf9_du.Result.{ok}
use pf9_du.Session.Report.{send_status}
use pf9_du.Session.Sent.{sent_part}
use pf9_du.Master.{Setting, Master}
use pf9_du.Master.Receiving.{consume_msg}
use pf9_du.Master.Queues.{Call, in_hand, run, handed_on, run-in_hand}
use pf9_du.Master.Queues.Bindings.{Ready, run-Ready, Event, call, run_events}
use pf9_du.Master.Heard.{Knows, send_status-Knows}
use pf9_du.Examples.Apps.{installed}
use pf9_du.Examples.Session.{agent_host, agent}

abbrev setting : Setting
setting = record {
  is_ddu = false;
  is_isv = false;
  firmware_apps_config = field "pf9-comms" (dict end) (field "pf9-muster" (dict end) end);
  du_fqdn = "du.example.com";
  support_dir_location = "/support";
  a_long_time_ago = str "1970";
  now = λ n. str "now";
  file_time = λ n. "now";
  text_of = λ j. "";
  lower = λ s. s;
  b64decode = λ j. ok "";
  publish = λ n. none;
  declare = λ n. none;
  bind = λ n. none;
  makedirs = λ n. none;
  write_file = λ n. none;
  upload = λ n. none;
}

abbrev master : Master
master = record {
  tables = record { hosts = []; desired_apps = []; host_agents = [] };
  pending_msgs = [];
  connection = true;
  channel = true;
  declaring = [];
  bound = [];
  published = [];
  timers = 0;
  files = [];
  uploads = [];
  asked = 0;
}

sends_ok : (send_status agent_host "ok" installed null agent).0 ≡ ok tt
unfolding send_status pf9_du.Session.ask pf9_du.Session.tell
    pf9_du.Session.Extensions.get_extension_data pf9_du.Session.Extensions.run_all
    pf9_du.Session.Report.basic_publish
sends_ok = refl

send_status-Knows_example :
    (msg : Json) × ((send_status agent_host "ok" installed null agent).1.sent ≡ [] ++ msg ∷ [])
    × ((consume_msg setting msg master).0 ≡ ok tt)
    × Knows "host1" "ok" installed (sent_part null) (consume_msg setting msg master).1
send_status-Knows_example =
    send_status-Knows setting agent_host "ok" installed null agent master refl sends_ok

abbrev some_calls : List Call
some_calls =
    Call.send "host1" null
    ∷ Call.send "slaves" null
    ∷ Call.timer
    ∷ Call.answer
    ∷ Call.answer
    ∷ Call.answer
    ∷ Call.timer
    ∷ []

run-in_hand_example :
    in_hand (λ msg. true) (run setting some_calls master)
    ≡ in_hand (λ msg. true) master + handed_on setting (λ msg. true) some_calls master
run-in_hand_example =
    run-in_hand setting (λ msg. true) some_calls master (λ n. refl) (λ n. refl) refl

abbrev some_events : List Event
some_events =
    call (Call.send "host1" null)
    ∷ Event.reconnect
    ∷ Event.io_loop true true
    ∷ Event.consuming
    ∷ call (Call.send "host1" null)
    ∷ call Call.answer
    ∷ call Call.answer
    ∷ call Call.answer
    ∷ call Call.timer
    ∷ []

run-Ready_example :
    All
      (Ready (run_events setting some_events master).bound)
      (run_events setting some_events master).pending_msgs
    × All
        (Ready (run_events setting some_events master).bound)
        (run_events setting some_events master).published
run-Ready_example = run-Ready setting some_events master refl refl refl
