-- ===== src/Master/Heard.antt =====
-- From the host to the master: what `send_status` of bbone/bbslave/bbslave/session.py sends is what
-- `consume_msg` of bbone/bbmaster/bbmaster/bbone_provider_pf9_pika.py keeps.
use pf9_du.Prelude.{
  ◌+◌, String, ◌≡◌, refl, ◌∙◌, true, false, Option, some, [], ◌∷◌, ◌++◌, arith, ◌==◌, eq_refl,
  Bool-cases, inl, inr,
}
use pf9_du.Prelude.Assoc.{get, get-put}
use pf9_du.Json.{Json, Fields, str, dict, field, end, lookup, set_item, json_eq}
use pf9_du.Json.Laws.{lookup-set_item}
use pf9_du.Result.{ok}
use pf9_du.RoleSettings.{index}
use pf9_du.Session.{Host, Agent}
use pf9_du.Session.Report.{send_status, message}
use pf9_du.Session.Sent.{Reports, sent_part, send_status-Reports}
use pf9_du.Master.{Setting, Master, set_host_agent_config}
use pf9_du.Master.Sending.{ask}
use pf9_du.Master.Receiving.{consume_msg, read_message, read_status, store}

-- The host as the master knows it: its status, applications and desired configuration.
pub record Knows (host_id status : String) (config : Fields) (desired : Option Json) (m : Master)
    : Type 0 where
  pub host_state : Fields
  pub is_host : get host_id m.tables.hosts ≡ some host_state
  pub has_status : lookup "status" host_state ≡ some (str status)
  pub has_apps : lookup "apps" host_state ≡ some (dict config)
  pub has_desired : lookup "desired_apps" host_state ≡ desired

module _ (w : Setting) where
  -- `host_state` as it is kept.
  abbrev kept : Fields → Master → Fields
  kept f m = set_item "timestamp_on_du" (w.now m.asked) f

  index-lookup :
      (k : String) (f : Fields) (v : Json) → lookup k f ≡ some v → index (dict f) k ≡ ok v
  unfolding index
  index-lookup k f v e = ground arith

  abbrev status_msg : Fields → Fields
  status_msg f = field "opcode" (str "status") (field "data" (dict f) end)

  read_message-status :
      (f : Fields) (m : Master)
      → read_message w (message "status" (dict f)) m ≡ read_status w (status_msg f) m
  unfolding read_message index lookup json_eq
  read_message-status f m = refl

  index-data : (f : Fields) → index (dict (status_msg f)) "data" ≡ ok (dict f)
  unfolding index lookup
  index-data f = refl

  lookup-kept :
      (k : String) (f : Fields) (v : Json) (m : Master)
      → ("timestamp_on_du" == k) ≡ false
      → lookup k f ≡ some v
      → lookup k (kept f m) ≡ some v
  lookup-kept k f v m other e =
      ground (arith, lookup-set_item "timestamp_on_du" k (w.now m.asked) f)

  read_status-kept :
      (f : Fields) (id status agent : Json) (m : Master)
      → lookup "host_id" f ≡ some id
      → lookup "status" f ≡ some status
      → lookup "host_agent" f ≡ some agent
      → read_status w (status_msg f) m ≡ (
        ok (some (record { id = id; host_state = kept f m; host_agent = agent })),
        record m { asked = m.asked + 1 },
      )
  unfolding ask
  read_status-kept f id status agent m is_of has_status has_agent =
      let stored_id =
        index-lookup "host_id" (kept f m) id (lookup-kept "host_id" f id m refl is_of) in
      let stored_agent =
        index-lookup "host_agent" (kept f m) agent
          (lookup-kept "host_agent" f agent m refl has_agent) in
      rw (index-data f) (
        rw (index-lookup "status" f status has_status) (
          rw (index-lookup "host_id" f id is_of) (elim (Bool-cases (json_eq status (str "ok"))) [
            | inl e ↦ rw e (rw stored_id (rw stored_agent refl))
            | inr e ↦ rw e (rw stored_id (rw stored_agent refl))
          ])))

  consume_msg-Knows :
      (host_id status : String) (config : Fields) (desired : Option Json) (msg : Json) (m : Master)
      → Reports host_id status config desired msg
      → ((consume_msg w msg m).0 ≡ ok tt)
        × Knows host_id status config desired (consume_msg w msg m).1
  unfolding consume_msg store set_host_agent_config
  consume_msg-Knows host_id status config desired msg m q = rw q.is_status (
      rw (read_message-status q.body m) (
        rw
          (read_status-kept q.body (str host_id) (str status) q.agent m q.is_of q.has_status
            q.has_agent)
          (
            refl,
            record {
              host_state = kept q.body m;
              is_host =
                  get-put host_id host_id (kept q.body m) m.tables.hosts
                  ∙ rw (eq_refl host_id) refl;
              has_status = lookup-kept "status" q.body (str status) m refl q.has_status;
              has_apps = lookup-kept "apps" q.body (dict config) m refl q.has_apps;
              has_desired =
                  lookup-set_item "timestamp_on_du" "desired_apps" (w.now m.asked) q.body
                  ∙ q.has_desired;
            },
          )))

  -- If the channel of the agent is open and its call returns, then the one message that it has sent is
  -- taken by the master without an exception, and the master then knows the host with this status,
  -- these applications, and the desired configuration, or none where none was given.
  pub send_status-Knows :
      (h : Host) (status : String) (config : Fields) (desired_config : Json) (s : Agent)
      (m : Master)
      → s.channel ≡ true
      → (send_status h status config desired_config s).0 ≡ ok tt
      → (msg : Json) × ((send_status h status config desired_config s).1.sent ≡ s.sent ++ msg ∷ [])
        × ((consume_msg w msg m).0 ≡ ok tt)
        × Knows h.host_id status config (sent_part desired_config) (consume_msg w msg m).1
  send_status-Knows h status config desired_config s m up returns =
      let (msg, reports, sent) = send_status-Reports h status config desired_config s up returns in
      let (taken, knows) = consume_msg-Knows _ _ _ _ msg m reports in (msg, sent, taken, knows)
