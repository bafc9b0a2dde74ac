-- ===== src/Session/Update.antt =====
-- The update of the agent itself: `update_agent` of bbone/bbslave/bbslave/session.py and
-- `process_agent_update` of bbone/pf9app/pf9app/algorithms.py.
use pf9_du.Prelude.{Bool, true, false, [], ◌∷◌, ◌++◌, if◌then◌else◌}
use pf9_du.Json.{Json, Fields, dict, json_eq}
use pf9_du.Result.{
  Error, pf9_exception, url_not_specified, package_file_name_not_specified, download_failed,
  process_replaced, service_ctrl_error, config_operation_error, not_installed,
  install_operation_failed, remove_operation_failed, update_operation_failed,
}
use pf9_du.Exec.{Exec, pure, raise, lift, modify, try_except, ◌>>=◌, ◌>>◌}
use pf9_du.RoleSettings.{index}
use pf9_du.Session.{Host, Agent, AgentCall, create, download, update, reboot, ask, tell}
use pf9_du.Session.Report.{send_status}

-- The classes that derive from `Pf9Exception`.
abbrev pub is_pf9_exception : Error → Bool
is_pf9_exception pf9_exception = true
is_pf9_exception url_not_specified = true
is_pf9_exception package_file_name_not_specified = true
is_pf9_exception download_failed = true
is_pf9_exception service_ctrl_error = true
is_pf9_exception config_operation_error = true
is_pf9_exception not_installed = true
is_pf9_exception install_operation_failed = true
is_pf9_exception remove_operation_failed = true
is_pf9_exception update_operation_failed = true
is_pf9_exception _ = false

module _ (h : Host) where
  unfoldable pub call_agent : AgentCall → Exec Agent (Unit {0})
  unfolding tell
  call_agent c = do
    modify (λ s. record s { agent_calls = s.agent_calls ++ c ∷ [] })
    tell (h.agent_call c)

  unfoldable pub install_agent : Json → Exec Agent (Unit {0})
  unfolding call_agent
  install_agent agent_config = do
    name ← lift (index agent_config "name")
    version ← lift (index agent_config "version")
    url ← lift (index agent_config "url")
    call_agent (create name version url)
    call_agent download
    call_agent update

  -- `process_agent_update`: nothing is done where the version is the installed one.
  unfoldable pub process_agent_update : Json → Exec Agent (Unit {0})
  unfolding ask install_agent
  process_agent_update agent_config = do
    current_agent ← ask h.installed_agent
    current ← lift (index (dict current_agent) "version")
    version ← lift (index agent_config "version")
    if json_eq current version then pure tt else install_agent agent_config

  -- `_load_host_agent_info`
  unfoldable pub load_host_agent_info : Exec Agent (Unit {0})
  unfolding ask
  load_host_agent_info = do
    agent_info ← ask h.installed_agent
    version ← lift (index (dict agent_info) "version")
    modify (λ s. record s { agent_status = "running"; agent_version = version })

  -- `reboot_agent`: `os.execve` does not return where it succeeds.
  unfoldable pub reboot_agent : Exec Agent (Unit {0})
  unfolding call_agent
  reboot_agent = do call_agent reboot; raise process_replaced

  abbrev pub only_pf9 : Error → Exec Agent (Unit {0})
  only_pf9 e = if is_pf9_exception e then pure tt else raise e

  -- `update_agent`
  unfoldable pub update_agent : Json → Fields → Json → Exec Agent (Unit {0})
  unfolding send_status process_agent_update reboot_agent load_host_agent_info
  update_agent agent_info current_config desired_config = do
    modify (λ s. record s { agent_status = "updating" })
    send_status h "ok" current_config desired_config
    try_except (process_agent_update agent_info >> reboot_agent) only_pf9
    load_host_agent_info
