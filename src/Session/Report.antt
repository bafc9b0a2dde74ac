-- ===== src/Session/Report.antt =====
-- `send_status` of bbone/bbslave/bbslave/session.py.
use pf9_du.Prelude.{String, Bool, true, false, [], ◌∷◌, ◌++◌}
use pf9_du.Json.{Json, Fields, null, str, dict, end, field, set_item}
use pf9_du.Result.{ok}
use pf9_du.Exec.{Exec, pure, gets, modify, ◌>>=◌, ◌>>◌}
use pf9_du.Session.{Host, Agent, ask, tell}
use pf9_du.Session.Extensions.{get_extension_data}

abbrev pub hostagent_info : Agent → Json
hostagent_info s = dict (field "status" (str s.agent_status) (field "version" s.agent_version end))

abbrev hypervisor_info : Json
hypervisor_info = dict (field "hypervisor_type" (str "kvm") end)

abbrev pub desired_part : Json → Fields → Fields
desired_part null f = f
desired_part desired_config f = set_item "desired_apps" desired_config f

-- The body of the status message.
unfoldable pub status_data : String → String → Json → Fields → Json → Fields → Fields
status_data host_id status info config agent extensions = field "host_id" (str host_id) (
    field "status" (str status) (
      field "info" info (
        field "hypervisor_info" hypervisor_info (
          field "apps" (dict config)
            (field "host_agent" agent (field "extensions" (dict extensions) end))))))

abbrev pub message : String → Json → Json
message opcode body = dict (field "opcode" (str opcode) (field "data" body end))

module _ (h : Host) where
  abbrev pub cert_part : Bool → Fields → Exec Agent Fields
  cert_part false f = pure f
  cert_part true f = do
    cert_info ← ask (λ n. ok (h.cert_info n))
    pure (set_item "cert_info" cert_info f)

  -- `channel.basic_publish`
  unfoldable pub basic_publish : Json → Exec Agent (Unit {0})
  unfolding tell
  basic_publish msg = do tell h.publish; modify (λ s. record s { sent = s.sent ++ msg ∷ [] })

  abbrev pub publish_status : String → Fields → Json → Exec Agent (Unit {0})
  publish_status status config desired_config = do
    info ← ask (λ n. ok (h.sysinfo n))
    agent ← gets hostagent_info
    extensions ← get_extension_data h
    body ← cert_part h.vouch_present (status_data h.host_id status info config agent extensions)
    timestamp ← ask (λ n. ok (h.timestamp n))
    basic_publish (
        message "status" (dict (set_item "timestamp" timestamp (desired_part desired_config body))))

  abbrev pub if_open : Bool → Exec Agent (Unit {0}) → Exec Agent (Unit {0})
  if_open false body = pure tt
  if_open true body = body

  -- `send_status`; the desired configuration is left out if it is `null`.
  unfoldable pub send_status : String → Fields → Json → Exec Agent (Unit {0})
  unfolding ask basic_publish status_data
  send_status status config desired_config = do
    channel ← gets (λ s. s.channel)
    if_open channel (publish_status status config desired_config)
