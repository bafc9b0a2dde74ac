-- ===== src/Packages.antt =====
-- The applications of a host as packages: bbone/pf9app/pf9app/pf9_app.py, with the services of an
-- application, its configuration, and its removal.
pub mod Services
pub mod Desired
pub mod Managers
pub mod Cache
pub mod Complete
use pf9_du.Prelude.{
  ℕ, String, Bool, true, false, not, ◌&&◌, Option, none, some, List, [], ◌∷◌, map, all, length,
  join, nat_eq, ◌==◌, if◌then◌else◌,
}
use Prim.Native.Char.{code}
use Prim.Native.String
use pf9_du.Prelude.Assoc.{Assoc, get, put}
use pf9_du.Json.{Json}
use pf9_du.Result.{Error, Result, ok, err, value_error, service_ctrl_error, config_operation_error}
use pf9_du.Exec.{Exec, pure, raise, lift, gets, try_except, for_each, ◌>>=◌, ◌>>◌}
use pf9_du.Session.{Completed}

-- The operating system: its state, what a command answers and changes, and which services have a
-- script in /etc/init.d. `loads` and `dumps` are those of the package json.
pub record Shell (W : Type 0) : Type 0 where
  pub run : String → W → Completed × W
  pub is_init_service : String → W → Bool
  pub executable : String
  pub loads : String → Result Json
  pub dumps : Json → String

-- `s.split(' ')`
unfoldable pub split_spaces : String → List String
split_spaces String.[] = "" ∷ []
split_spaces (String.◌∷◌ c s) =
    let rest = split_spaces s in
    if nat_eq (code c) b' '
    then "" ∷ rest
    else elim rest [ [] ↦ String.◌∷◌ c "" ∷ [] | w ∷ ws ↦ String.◌∷◌ c w ∷ ws ]

-- `==` of two dictionaries from services to states
abbrev bool_eq : Bool → Bool → Bool
bool_eq true b = b
bool_eq false b = not b

abbrev is_state : Bool → Option Bool → Bool
is_state b none = false
is_state b (some c) = bool_eq b c

unfoldable pub same_states : Assoc Bool → Assoc Bool → Bool
unfolding get
same_states d e = nat_eq (length d) (length e) && all (λ x. is_state x.1 (get x.0 e)) d

module _ {W : Type 0} (shell : Shell W) where
  unfoldable pub run_command : String → Exec W Completed
  run_command command w = let (c, w') = shell.run command w in (ok c, w')

  abbrev pub command_for : String → String → String → W → String
  command_for init systemctl svc_name w =
      if shell.is_init_service svc_name w
      then join "sudo /etc/init.d/" (join svc_name (join " " init))
      else join "sudo systemctl " (join systemctl (join " " svc_name))

  unfoldable pub service_status_command : String → W → String
  service_status_command svc_name w = command_for "status" "is-active" svc_name w

  unfoldable pub service_start_command : String → W → String
  service_start_command svc_name w = command_for "start" "start" svc_name w

  unfoldable pub service_stop_command : String → W → String
  service_stop_command svc_name w = command_for "stop" "stop" svc_name w

  -- Whether a service is running: `running`, and the body of the loop of `get_service_states`.
  unfoldable pub is_running : String → Exec W Bool
  unfolding service_status_command run_command
  is_running svc_name = do
    cmd ← gets (service_status_command svc_name)
    c ← run_command cmd
    pure (nat_eq c.code 0)

  abbrev pub config_script : String → String → String
  config_script app_name option =
      join shell.executable (join " /opt/pf9/" (join app_name (join "/config " option)))

  abbrev pub services_in : Completed → Bool × List String
  services_in c =
      if nat_eq c.code 0
      then (true, if c.output == "" then [] else split_spaces c.output)
      else (false, [])

  -- `_get_services`
  unfoldable pub get_services : String → Exec W (Bool × List String)
  unfolding run_command split_spaces
  get_services app_name = do
    c ← run_command (config_script app_name "--get-services")
    pure (services_in c)

  abbrev pub states_of : List String → Assoc Bool → Exec W (Assoc Bool)
  states_of [] services_dict = pure services_dict
  states_of (service_name ∷ rest) services_dict = do
    up ← is_running service_name
    states_of rest (put service_name up services_dict)

  unfoldable pub get_service_states : String → Exec W (Assoc Bool)
  unfolding get_services is_running
  get_service_states app_name = do services ← get_services app_name; states_of services.1 []

  -- The states of the listed services, or of the application where its script lists none.
  unfoldable pub current_states : String → Exec W (Assoc Bool)
  unfolding get_services get_service_states is_running
  current_states app_name = do
    services ← get_services app_name
    (if services.0
        then get_service_states app_name
        else (do up ← is_running app_name; pure ((app_name, up) ∷ [])))

  unfoldable pub has_desired_service_states : String → Assoc Bool → Exec W Bool
  unfolding current_states same_states
  has_desired_service_states app_name desired = do
    current_state ← current_states app_name
    pure (same_states current_state desired)

  unfoldable pub set_run_state : String → Bool → Exec W (Unit {0})
  unfolding service_start_command service_stop_command run_command
  set_run_state service run_state = do
    cmd ← gets (if run_state then service_start_command service else service_stop_command service)
    c ← run_command cmd
    if nat_eq c.code 0 then pure tt else raise service_ctrl_error

  abbrev pub unless_ctrl : Error → Exec W (Unit {0})
  unless_ctrl service_ctrl_error = pure tt
  unless_ctrl e = raise e

  -- A service that cannot be changed is only logged.
  unfoldable pub set_desired_service_states : Assoc Bool → Bool → Exec W (Unit {0})
  unfolding set_run_state
  set_desired_service_states [] stop_all = pure tt
  set_desired_service_states ((name, state) ∷ rest) stop_all = do
    try_except (set_run_state name (if stop_all then false else state)) unless_ctrl
    set_desired_service_states rest stop_all

  abbrev parsed_or : Result Json → Exec W Json
  parsed_or (ok cfg) = pure cfg
  parsed_or (err value_error) = raise config_operation_error
  parsed_or (err e) = raise e

  unfoldable pub get_config : String → Exec W Json
  unfolding run_command
  get_config app_name = do
    c ← run_command (config_script app_name "--get-config")
    if nat_eq c.code 0 then parsed_or (shell.loads c.output) else raise config_operation_error

  unfoldable pub set_config : String → Json → Exec W (Unit {0})
  unfolding run_command
  set_config app_name config = do
    c ← run_command (config_script app_name (join "--set-config '" (join (shell.dumps config) "'")))
    if nat_eq c.code 0 then pure tt else raise config_operation_error

  -- The services are stopped first; `remove_package` is that of the package manager.
  unfoldable pub uninstall : (String → Exec W (Unit {0})) → String → Exec W (Unit {0})
  unfolding current_states set_desired_service_states
  uninstall remove_package app_name = do
    services ← current_states app_name
    set_desired_service_states services true
    remove_package app_name
