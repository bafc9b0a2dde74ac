-- ===== src/Examples/Packages.antt =====
-- The theorems on packages, applied to a host with a service manager of three commands.
use pf9_du.Prelude.{
  String, ◌≡◌, refl, sym, ap, ◌∙◌, Bool, true, false, Option, none, some, List, [], ◌∷◌, join,
  after_prefix, after_prefix-join, after_prefix-clash, ◌==◌, eq_refl, if◌then◌else◌,
}
use text.Mathlib.TextLemmas.{append_assoc}
use pf9_du.Json.{null}
use pf9_du.Result.{ok, connection_error}
use pf9_du.Session.{Completed}
use pf9_du.Packages.{
  Shell, services_in, service_status_command, service_start_command, service_stop_command,
  set_desired_service_states, has_desired_service_states,
}
use pf9_du.Prelude.Assoc.{Assoc}
use pf9_du.Packages.Services.{ServiceManager, AsDesired, Lists, succeeds}
use pf9_du.Packages.Desired.{set_desired_service_states-has_desired_service_states}
use pf9_du.Packages.Cache.{Net, Store, download_file}
use pf9_du.Packages.Complete.{IsComplete, download_file-IsComplete}

-- Which services are up.
abbrev Services : Type 0
Services = String → Bool

abbrev with_service : String → Bool → Services → Services
with_service s b w t = if s == t then b else w t

abbrev succeeded : Completed
succeeded = record { code = 0; output = "a b"; errors = "" }

abbrev status_of : Bool → Completed
status_of true = succeeded
status_of false = record { code = 3; output = ""; errors = "" }

abbrev obey : Option String → Option String → Option String → Services → Completed × Services
obey (some s) stop status w = (succeeded, with_service s true w)
obey none (some s) status w = (succeeded, with_service s false w)
obey none none (some s) w = (status_of (w s), w)
obey none none none w = (succeeded, w)

run : String → Services → Completed × Services
run command w =
    obey (after_prefix "sudo systemctl start " command)
      (after_prefix "sudo systemctl stop " command)
      (after_prefix "sudo systemctl is-active " command) w

abbrev shell : Shell Services
shell = record {
  run = run;
  is_init_service = λ s w. false;
  executable = "/usr/bin/python3";
  loads = λ s. ok null;
  dumps = λ v. "null";
}

-- A command of systemctl, with the service behind a known prefix.
command-join :
    (verb s : String)
    → join "sudo systemctl " (join verb (join " " s))
      ≡ join (join "sudo systemctl " (join verb " ")) s
command-join verb s =
    ap (join "sudo systemctl ") (sym (append_assoc verb " " s))
    ∙ sym (append_assoc "sudo systemctl " (join verb " ") s)

run-start :
    (s : String) (w : Services)
    → run (service_start_command shell s w) w ≡ (succeeded, with_service s true w)
unfolding run service_start_command
run-start s w = rw (command-join "start" s, after_prefix-join "sudo systemctl start " s)

run-stop :
    (s : String) (w : Services)
    → run (service_stop_command shell s w) w ≡ (succeeded, with_service s false w)
unfolding run service_stop_command
run-stop s w = rw (
  command-join "stop" s,
  after_prefix-clash "sudo systemctl start " "sudo systemctl stop " s refl,
  after_prefix-join "sudo systemctl stop " s,
)

run-status :
    (s : String) (w : Services) → run (service_status_command shell s w) w ≡ (status_of (w s), w)
unfolding run service_status_command
run-status s w = rw (
  command-join "is-active" s,
  after_prefix-clash "sudo systemctl start " "sudo systemctl is-active " s refl,
  after_prefix-clash "sudo systemctl stop " "sudo systemctl is-active " s refl,
  after_prefix-join "sudo systemctl is-active " s,
)

status_of-succeeds : (b : Bool) → succeeds (status_of b) ≡ b
status_of-succeeds true = refl
status_of-succeeds false = refl

manager : ServiceManager shell (λ s w. w s)
manager = record {
  status_code = λ s w. rw (run-status s w) (status_of-succeeds (w s));
  status_keeps = λ s t w. rw (run-status s w);
  started = λ s w h. rw (run-start s w, eq_refl s);
  stopped = λ s w h. rw (run-stop s w, eq_refl s);
}

listed : Lists shell "pf9-kube" (λ s w. w s) ("a" ∷ "b" ∷ [])
unfolding run
listed = record { answers = λ w. unfold pf9_du.Packages.split_spaces in refl; keeps = λ t w. refl }

-- The dictionary has another order than the script.
abbrev wanted : Assoc Bool
wanted = ("b", false) ∷ ("a", true) ∷ []

set_desired_service_states-has_desired_service_states_example :
    ((set_desired_service_states shell wanted false (λ s. s == "b")).0 ≡ ok tt)
    × AsDesired shell
        (λ s w. w s)
        manager
        wanted
        (set_desired_service_states shell wanted false (λ s. s == "b")).1
    × ((has_desired_service_states shell "pf9-kube" wanted
          (set_desired_service_states shell wanted false (λ s. s == "b")).1).0
        ≡ ok true)
unfolding pf9_du.Prelude.Assoc.get
set_desired_service_states-has_desired_service_states_example =
    set_desired_service_states-has_desired_service_states shell (λ s w. w s) manager "pf9-kube"
      wanted (("a", true) ∷ ("b", false) ∷ []) (((refl, tt), (tt, tt)), refl, (refl, (refl, tt)))
      listed (λ s. s == "b") ((λ w. rw (run-stop "b" w)), ((λ w. rw (run-start "a" w)), tt))
      (((λ w. rw (run-start "a" w)), tt), (tt, tt))

abbrev net : Net
net = record {
  cache_location = "/var/cache/pf9apps";
  distribution = "ubuntu";
  filename = λ url. "kube.rpm";
  root = λ name. name;
  get_url = λ url n. ok (record {
    content_length = some "4";
    chunks = "ab" ∷ "c" ∷ [];
    broken = some connection_error;
  });
  os_call = λ n. none;
}

abbrev store : Store
store = record { files = ("/tmp/kube.deb", "old") ∷ []; downloads = []; asked = 0 }

download_file-IsComplete_example :
    IsComplete net "http://host/kube.deb" "/tmp/kube.deb"
      (some "old")
      (download_file net "http://host/kube.deb" "/tmp/kube.deb" store)
unfolding pf9_du.Prelude.Assoc.get
download_file-IsComplete_example =
    download_file-IsComplete net "http://host/kube.deb" "/tmp/kube.deb" store
