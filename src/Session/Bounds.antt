-- ===== src/Session/Bounds.antt =====
-- How often the session of bbone/bbslave/bbslave/session.py changes the applications.
use pf9_du.Prelude.{ℕ, suc, Bool, List, [], ◌∷◌, length, nat_eq, if◌then◌else◌}
use pf9_du.Json.{Json}
use pf9_du.RoleSettings.{index}
use pf9_du.Apps.Probe.{changes_made}
use pf9_du.Session.{Host, Agent}
use pf9_du.Session.Messages.{handle_msg}
use pf9_du.Session.Core.{Core}
use pf9_du.Session.Core.Refines.{resets_msg}

-- Whether a message is a new configuration.
abbrev pub is_new_config : Json → Bool
is_new_config msg = resets_msg (index msg "opcode")

module _ (h : Host) where
  -- The state after some messages, whether or not their handling raises.
  abbrev pub run_messages : List Json → Agent → Agent
  run_messages [] s = s
  run_messages (msg ∷ msgs) s = run_messages msgs (handle_msg h msg s).1

  -- How many of the messages change an application.
  abbrev pub changing : List Json → Agent → ℕ
  changing [] s = 0
  changing (msg ∷ msgs) s =
      let s' = (handle_msg h msg s).1 in
      let rest = changing msgs s' in
      if nat_eq (length (changes_made s'.run)) (length (changes_made s.run)) then rest else suc rest
