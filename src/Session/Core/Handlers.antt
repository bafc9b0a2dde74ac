-- ===== src/Session/Core/Handlers.antt =====
-- The handlers of bbone/bbslave/bbslave/session.py that leave the core of the session alone.
use pf9_du.Prelude.{String, refl, Bool, true, false, not, Option, none, some, ◌∷◌, [], ◌++◌}
use pf9_du.Json.{Json, Fields, null, str, dict, set_item, json_eq}
use pf9_du.Result.{ok, err, key_error}
use pf9_du.Exec.{pure, lift, raise, gets, modify, try_except, ◌>>◌}
use pf9_du.RoleSettings.{index}
use pf9_du.Session.{
  Host, AgentCall, create, download, update, reboot, ask, tell, load_desired_config, read_desired,
}
use pf9_du.Session.Report.{basic_publish, send_status, message}
use pf9_du.Session.Support.{
  process_support_request, process_support_command, bundle_message, read_bundle, generate,
  support_data, support_failed, support_done, publish_bundle, is_command_allowed, if_allowed,
  run_if_allowed, run_support_command, command_failed, command_done, command_data, restarts_agent,
}
use pf9_du.Session.Update.{
  call_agent, install_agent, process_agent_update, load_host_agent_info, reboot_agent, only_pf9,
  update_agent, is_pf9_exception,
}
use pf9_du.Session.Core.{
  KeepsCore, KeepsCore-ask, KeepsCore-tell, KeepsCore-bind, KeepsCore-try, KeepsCore-lift,
  KeepsCore-gets, KeepsCore-if, KeepsCore-modify, basic_publish-KeepsCore, send_status-KeepsCore,
}

module _ (h : Host) where
  pub load_desired_config-KeepsCore : KeepsCore (load_desired_config h)
  unfolding load_desired_config
  load_desired_config-KeepsCore =
      KeepsCore-bind (gets (λ s. s.desired_file)) _ (KeepsCore-gets _) found
    where
      found : (o : Option String) → KeepsCore (read_desired h o)
      found none = KeepsCore-lift (ok null)
      found (some text) =
          KeepsCore-try (tell h.read_file >> lift (h.loads text)) _
            (KeepsCore-bind (tell h.read_file) _ (KeepsCore-tell _)
              λ _. KeepsCore-lift (h.loads text))
            λ e. KeepsCore-lift (ok null)

  generate-KeepsCore : (reupload : Bool) → KeepsCore (generate h reupload)
  unfolding generate
  generate-KeepsCore false = KeepsCore-tell h.generate_support_bundle
  generate-KeepsCore true =
      KeepsCore-bind (ask (λ n. ok (h.support_file_there n))) _ (KeepsCore-ask _) λ there.
        KeepsCore-if there (pure tt) (tell h.generate_support_bundle) (KeepsCore-lift (ok tt))
          (KeepsCore-tell _)

  read_bundle-KeepsCore : (body : Fields) → KeepsCore (read_bundle h body)
  unfolding read_bundle
  read_bundle-KeepsCore body =
      KeepsCore-try _ _
        (KeepsCore-bind (ask h.contents) _ (KeepsCore-ask _)
          λ contents. KeepsCore-lift (ok (support_done h body contents)))
        λ e. KeepsCore-lift (ok (support_failed h body e))

  bundle_message-KeepsCore :
      (reupload : Bool) (body : Fields) → KeepsCore (bundle_message h reupload body)
  unfolding bundle_message
  bundle_message-KeepsCore reupload body =
      KeepsCore-try _ _
        (KeepsCore-bind (generate h reupload) _ (generate-KeepsCore reupload) λ _.
          KeepsCore-bind (tell h.open_support_file) _ (KeepsCore-tell _) λ _.
            KeepsCore-bind (ask (λ n. ok (h.fingerprint n))) _ (KeepsCore-ask _)
              λ fingerprint. read_bundle-KeepsCore (set_item "fingerprint" fingerprint body))
        λ e. KeepsCore-lift (ok (support_failed h body e))

  publish_bundle-KeepsCore :
      (channel : Bool) (upload label : Json) (reupload : Bool)
      → KeepsCore (publish_bundle h channel upload label reupload)
  publish_bundle-KeepsCore false upload label reupload = KeepsCore-lift (ok tt)
  publish_bundle-KeepsCore true upload label reupload =
      KeepsCore-bind (ask (λ n. ok (h.sysinfo n))) _ (KeepsCore-ask _) λ info.
        KeepsCore-bind (bundle_message h reupload (support_data h info upload label)) _
          (bundle_message-KeepsCore reupload _) λ msg. basic_publish-KeepsCore h msg

  pub process_support_request-KeepsCore :
      (upload label : Json) (reupload : Bool)
      → KeepsCore (process_support_request h upload label reupload)
  unfolding process_support_request
  process_support_request-KeepsCore upload label reupload =
      KeepsCore-bind (gets (λ s. s.channel)) _ (KeepsCore-gets _)
        λ channel. publish_bundle-KeepsCore channel upload label reupload

  run_support_command-KeepsCore :
      (command : Json) (body : Fields) → KeepsCore (run_support_command h command body)
  unfolding run_support_command
  run_support_command-KeepsCore (str command) body =
      KeepsCore-bind (modify (λ s. record s { commands = s.commands ++ command ∷ [] })) _
        (KeepsCore-modify _ λ s. refl)
        λ _.
          KeepsCore-bind (ask (h.run_command (not (restarts_agent command)) command)) _
            (KeepsCore-ask _) λ result. KeepsCore-lift (ok (command_done h body result))
  run_support_command-KeepsCore _ body = KeepsCore-lift _

  if_allowed-KeepsCore :
      (allowed : Bool) (command : Json) (body : Fields)
      → KeepsCore (if_allowed h allowed command body)
  if_allowed-KeepsCore true command body = run_support_command-KeepsCore command body
  if_allowed-KeepsCore false command body = KeepsCore-lift (ok _)

  run_if_allowed-KeepsCore :
      (command : Json) (body : Fields) → KeepsCore (run_if_allowed h command body)
  run_if_allowed-KeepsCore command body =
      KeepsCore-bind (ask h.allowed_commands) _ (KeepsCore-ask _) λ allowed_commands.
        KeepsCore-bind (lift (is_command_allowed h allowed_commands command)) _ (KeepsCore-lift _)
          λ allowed. if_allowed-KeepsCore allowed command body

  pub process_support_command-KeepsCore :
      (command : Json) → KeepsCore (process_support_command h command)
  unfolding process_support_command
  process_support_command-KeepsCore command =
      KeepsCore-bind (ask (λ n. ok (h.sysinfo n))) _ (KeepsCore-ask _) λ info.
        KeepsCore-bind _ _
          (KeepsCore-try (run_if_allowed h command (command_data h info command)) _
            (run_if_allowed-KeepsCore command _)
            λ e.
              KeepsCore-lift
                (ok (command_failed h (command_data h info command) (h.text_of_error e))))
          λ answer. KeepsCore-bind (gets (λ s. s.channel)) _ (KeepsCore-gets _) λ channel.
            KeepsCore-if channel
              (basic_publish h (message "support_command_response" (dict answer))) (raise key_error)
              (basic_publish-KeepsCore h _) (KeepsCore-lift _)

  call_agent-KeepsCore : (c : AgentCall) → KeepsCore (call_agent h c)
  unfolding call_agent
  call_agent-KeepsCore c =
      KeepsCore-bind (modify (λ s. record s { agent_calls = s.agent_calls ++ c ∷ [] })) _
        (KeepsCore-modify _ λ s. refl) λ _. KeepsCore-tell (h.agent_call c)

  install_agent-KeepsCore : (agent_config : Json) → KeepsCore (install_agent h agent_config)
  unfolding install_agent
  install_agent-KeepsCore agent_config =
      KeepsCore-bind (lift (index agent_config "name")) _ (KeepsCore-lift _) λ name.
        KeepsCore-bind (lift (index agent_config "version")) _ (KeepsCore-lift _) λ version.
          KeepsCore-bind (lift (index agent_config "url")) _ (KeepsCore-lift _) λ url.
            KeepsCore-bind (call_agent h (create name version url)) _ (call_agent-KeepsCore _) λ _.
              KeepsCore-bind (call_agent h download) _ (call_agent-KeepsCore _)
                λ _. call_agent-KeepsCore update

  process_agent_update-KeepsCore :
      (agent_config : Json) → KeepsCore (process_agent_update h agent_config)
  unfolding process_agent_update
  process_agent_update-KeepsCore agent_config =
      KeepsCore-bind (ask h.installed_agent) _ (KeepsCore-ask _) λ current_agent.
        KeepsCore-bind (lift (index (dict current_agent) "version")) _ (KeepsCore-lift _) λ current.
          KeepsCore-bind (lift (index agent_config "version")) _ (KeepsCore-lift _) λ version.
            KeepsCore-if (json_eq current version) (pure tt) (install_agent h agent_config)
              (KeepsCore-lift (ok tt)) (install_agent-KeepsCore agent_config)

  load_host_agent_info-KeepsCore : KeepsCore (load_host_agent_info h)
  unfolding load_host_agent_info
  load_host_agent_info-KeepsCore =
      KeepsCore-bind (ask h.installed_agent) _ (KeepsCore-ask _) λ agent_info.
        KeepsCore-bind (lift (index (dict agent_info) "version")) _ (KeepsCore-lift _) λ version.
          KeepsCore-modify (λ s. record s { agent_status = "running"; agent_version = version })
            λ s. refl

  reboot_agent-KeepsCore : KeepsCore (reboot_agent h)
  unfolding reboot_agent
  reboot_agent-KeepsCore =
      KeepsCore-bind (call_agent h reboot) _ (call_agent-KeepsCore reboot) λ _. KeepsCore-lift _

  pub update_agent-KeepsCore :
      (agent_info : Json) (current_config : Fields) (desired_config : Json)
      → KeepsCore (update_agent h agent_info current_config desired_config)
  unfolding update_agent
  update_agent-KeepsCore agent_info current_config desired_config =
      KeepsCore-bind (modify (λ s. record s { agent_status = "updating" })) _
        (KeepsCore-modify _ λ s. refl)
        λ _.
          KeepsCore-bind (send_status h "ok" current_config desired_config) _
            (send_status-KeepsCore h "ok" current_config desired_config)
            λ _.
              KeepsCore-bind
                (try_except (process_agent_update h agent_info >> reboot_agent h) (only_pf9 h)) _
                (KeepsCore-try (process_agent_update h agent_info >> reboot_agent h) (only_pf9 h)
                  (KeepsCore-bind (process_agent_update h agent_info) _
                    (process_agent_update-KeepsCore agent_info) λ _. reboot_agent-KeepsCore)
                  λ e.
                    KeepsCore-if (is_pf9_exception e) (pure tt) (raise e) (KeepsCore-lift (ok tt))
                      (KeepsCore-lift (err e)))
                λ _. load_host_agent_info-KeepsCore
