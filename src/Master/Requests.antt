-- ===== src/Master/Requests.antt =====
-- The calls of `bbone_provider_pf9` (bbone/bbmaster/bbmaster/bbone_provider_pf9_pika.py) that requests
-- to the master make.
use pf9_du.Prelude.{String, Bool, false, not, List, Option, none, some, if◌then◌else◌}
use pf9_du.Prelude.Assoc.{get, put}
use pf9_du.Json.{Json, Fields, null, str, dict, end, field, lookup, json_eq}
use pf9_du.Result.{Error, Result, ok, err, key_error, attribute_error, host_not_found}
use pf9_du.Exec.{Exec, pure, raise, lift, gets, modify, try_except, ◌>>=◌, ◌>>◌}
use pf9_du.Config.{is_satisfied_by}
use pf9_du.RoleSettings.{index}
use pf9_du.Master.{Setting, Master, Tables, get_hosts, set_host_apps, get_host_agent}
use pf9_du.Master.Firmware.{insert_fw_apps_config, remove_fw_apps_config}
use pf9_du.Master.Sending.{send_msg}

abbrev pub set_config_msg : Json → Json
set_config_msg desired_apps =
    dict (field "opcode" (str "set_config") (field "data" desired_apps end))

abbrev as_option : Json → Option Json
as_option null = none
as_option j = some j

-- `host_state.get('desired_apps')` against the desired ones, if it is there.
abbrev converging_elsewhere : Json → Option Json → Result Bool
converging_elsewhere desired_apps none = ok false
converging_elsewhere desired_apps (some null) = ok false
converging_elsewhere desired_apps (some converging_to) =
    elim (is_satisfied_by (as_option desired_apps) converging_to) [
      | err e ↦ err e
      | ok b ↦ ok (not b)
    ]

abbrev undesired : Json → Result Json → Result Bool
undesired desired_apps (err e) = err e
undesired desired_apps (ok apps) = elim (is_satisfied_by (as_option desired_apps) apps) [
  | err e ↦ err e
  | ok b ↦ ok (not b)
]

-- The condition of `_converge_host_if_necessary`.
unfoldable pub is_converge_necessary : Fields → Json → Result Bool
is_converge_necessary host_state desired_apps = elim (index (dict host_state) "status") [
  | err e ↦ err e
  | ok status ↦
      let apps = undesired desired_apps (index (dict host_state) "apps") in
      let elsewhere = converging_elsewhere desired_apps (lookup "desired_apps" host_state) in
      if json_eq status (str "ok") then apps else elsewhere
]

-- A host id is a text.
abbrev host_id_of : Result Json → Result String
host_id_of (ok (str s)) = ok s
host_id_of (ok v) = err key_error
host_id_of (err e) = err e

module _ (w : Setting) where
  -- `_converge_host_if_necessary`
  unfoldable pub converge_host_if_necessary : Fields → Json → Exec Master (Unit {0})
  unfolding is_converge_necessary
  converge_host_if_necessary host_state desired_apps = do
    necessary ← lift (is_converge_necessary host_state desired_apps)
    (if necessary
        then (do
          host_id ← lift (host_id_of (index (dict host_state) "host_id"))
          send_msg w host_id (set_config_msg desired_apps))
        else pure tt)

  abbrev on_tables : (Tables → Tables) → Exec Master (Unit {0})
  on_tables f = modify λ s. record s { tables = f s.tables }

  -- What was desired before, where the host is known; for a host that is not, `None`.
  abbrev previous : Option Fields → Option Json → Json
  previous none desired = null
  previous (some f) none = null
  previous (some f) (some d) = d

  abbrev put_back : String → Json → Error → Exec Master (Unit {0})
  put_back id previous_desired_apps attribute_error =
      on_tables λ t. record t { desired_apps = put id previous_desired_apps t.desired_apps }
  put_back id previous_desired_apps e = raise e

  abbrev known : Option Fields → Result Fields
  known none = err key_error
  known (some f) = ok f

  -- `set_host_apps`
  unfoldable pub provider_set_host_apps : String → Json → Exec Master (Unit {0})
  unfolding converge_host_if_necessary
  provider_set_host_apps id desired_apps = do
    before ← gets (λ s. previous (get id s.tables.hosts) (get id s.tables.desired_apps))
    config ← lift (insert_fw_apps_config w.is_ddu w.is_isv desired_apps w.firmware_apps_config)
    on_tables (set_host_apps w id config)
    host ← gets (λ s. get id s.tables.hosts)
    host_state ← lift (known host)
    try_except (converge_host_if_necessary host_state config) (put_back id before)

  -- `get_hosts`; the firmware applications are hidden in copies.
  unfoldable pub provider_get_hosts : List String → Bool → Exec Master (List Fields)
  provider_get_hosts id_list show_firmware_apps = do
    hosts ← gets (λ s. get_hosts w id_list s.tables)
    if show_firmware_apps then pure hosts else lift (remove_fw_apps_config w.is_ddu hosts)

  unfoldable pub provider_get_host_agent : String → Exec Master Json
  provider_get_host_agent host_id = gets (λ s. get_host_agent w host_id s.tables)

  unfoldable pub request_support_bundle_of : String → Json → Json → Exec Master (Unit {0})
  request_support_bundle_of host_id upload label =
      send_msg w host_id (
        dict (field "opcode" (str "get_support") (field "upload" upload (field "label" label end))))

  unfoldable pub send_support_command : String → Json → Exec Master (Unit {0})
  send_support_command host_id command =
      send_msg w host_id
        (dict (field "opcode" (str "support_command") (field "command" command end)))

  abbrev if_known : String → Json → Option Fields → Exec Master (Unit {0})
  if_known host_id body none = raise host_not_found
  if_known host_id body (some f) = send_msg w host_id body

  -- `set_host_agent`
  unfoldable pub provider_set_host_agent : String → Json → Exec Master (Unit {0})
  provider_set_host_agent host_id agent_data = do
    host ← gets (λ s. get host_id s.tables.hosts)
    if_known host_id (dict (field "opcode" (str "set_agent") (field "data" agent_data end))) host

  unfoldable pub update_host_certs : String → Exec Master (Unit {0})
  update_host_certs host_id = do
    host ← gets (λ s. get host_id s.tables.hosts)
    if_known host_id (dict (field "opcode" (str "update_cert") end)) host
