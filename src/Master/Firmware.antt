-- ===== src/Master/Firmware.antt =====
-- The applications that the master adds to each host: bbone/bbmaster/bbmaster/pf9_firmware_apps.py
-- with the modules pf9_comms.py and pf9_muster.py.
use pf9_du.Prelude.{String, Bool, true, false, List, [], ◌∷◌, none, some, if◌then◌else◌, ◌&&◌, ◌==◌}
use pf9_du.Json.{Json, Fields, arr, dict, lookup, set_item, remove}
use pf9_du.Result.{Result, ok, err, ◌>>=◌, key_error, attribute_error, type_error, some_or}

-- `get_firmware_apps`
unfoldable pub get_firmware_apps : Bool → List String
get_firmware_apps true = "pf9-comms" ∷ []
get_firmware_apps false = "pf9-comms" ∷ "pf9-muster" ∷ []

-- `d[app] = cfg` if `d` is a dictionary.
abbrev set_app : String → Json → Json → Json
set_app app_name cfg (dict desired_apps) = dict (set_item app_name cfg desired_apps)
set_app app_name cfg desired_apps = desired_apps

-- `insert_app_config` of the module of one application. That of pf9-muster does nothing for an ISV.
abbrev insert_app_config : Bool → String → Json → Json → Json
insert_app_config is_isv app_name cfg desired_apps =
    if is_isv && app_name == "pf9-muster" then desired_apps else set_app app_name cfg desired_apps

insert_all : Bool → List String → Fields → Json → Result Json
insert_all is_isv [] fw_apps_config desired_apps = ok desired_apps
insert_all is_isv (app_name ∷ names) fw_apps_config desired_apps = do
  cfg ← some_or key_error (lookup app_name fw_apps_config)
  insert_all is_isv names fw_apps_config (insert_app_config is_isv app_name cfg desired_apps)

-- `insert_fw_apps_config`
unfoldable pub insert_fw_apps_config : Bool → Bool → Json → Fields → Result Json
unfolding insert_all get_firmware_apps
insert_fw_apps_config is_ddu is_isv desired_apps fw_apps_config =
    insert_all is_isv (get_firmware_apps is_ddu) fw_apps_config desired_apps

unfoldable pub remove_names : List String → Fields → Fields
remove_names [] f = f
remove_names (app_name ∷ names) f = remove_names names (remove app_name f)

-- The inner loop, where the host has the key. Only a dictionary has this `pop`; a list has one with
-- fewer arguments.
abbrev remove_from : List String → String → Fields → Result Fields
remove_from names key host = elim (lookup key host) [
  | none ↦ ok host
  | some (dict apps) ↦ ok (set_item key (dict (remove_names names apps)) host)
  | some (arr xs) ↦ err type_error
  | some v ↦ err attribute_error
]

-- `remove_fw_apps_config`
unfoldable pub remove_fw_apps_config : Bool → List Fields → Result (List Fields)
unfolding get_firmware_apps remove_names
remove_fw_apps_config is_ddu [] = ok []
remove_fw_apps_config is_ddu (host ∷ hosts) = do
  host' ← remove_from (get_firmware_apps is_ddu) "apps" host
  host'' ← remove_from (get_firmware_apps is_ddu) "desired_apps" host'
  rest ← remove_fw_apps_config is_ddu hosts
  ok (host'' ∷ rest)
