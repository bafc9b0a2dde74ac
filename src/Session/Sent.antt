-- ===== src/Session/Sent.antt =====
-- What the status message of bbone/bbslave/bbslave/session.py holds.
use pf9_du.Prelude.{
  ◌+◌, String, ◌≡◌, refl, ◌∙◌, Bool, true, false, Option, none, some, List, [], ◌∷◌, ◌++◌, arith,
  ◌==◌,
}
use pf9_du.Json.{Json, Fields, null, str, dict, lookup, set_item}
use pf9_du.Json.Laws.{lookup-set_item}
use pf9_du.Result.{Result, ok, err}
use pf9_du.Exec.{Exec, continue, gets, ◌>>=◌}
use pf9_du.Session.{Host, Agent, ask, tell}
use pf9_du.Session.Extensions.{get_extension_data}
use pf9_du.Session.Report.{
  send_status, basic_publish, publish_status, status_data, cert_part, desired_part, message,
  hostagent_info, if_open,
}
use pf9_du.Exec.Invariants.{Preserves, Preserves-gets}
use pf9_du.Session.Core.{Preserves-ask, get_extension_data-Preserves}

-- A call that, if it returns, has sent one message, for which `Q` holds.
pub record Emits (Q : Json → Type 0) (m : Exec Agent (Unit {0})) : Type 0 where
  pub at :
      (s : Agent) → (m s).0 ≡ ok tt → (msg : Json) × Q msg × ((m s).1.sent ≡ s.sent ++ msg ∷ [])

Emits-bind :
    {Q : Json → Type 0} {A : Type 0} (m : Exec Agent A) (f : A → Exec Agent (Unit {0}))
    → ((l : List Json) → Preserves (λ s. s.sent ≡ l) m)
    → ((a : A) → Emits Q (f a))
    → Emits Q (m >>= f)
Emits-bind {Q} {A} m f k e = record { at = λ s h. after s _ _ ((k s.sent).at s refl) h }
  where
    after :
        (s : Agent) (r : Result A) (s1 : Agent)
        → s1.sent ≡ s.sent
        → (continue r f s1).0 ≡ ok tt
        → (msg : Json) × Q msg × ((continue r f s1).1.sent ≡ s.sent ++ msg ∷ [])
    after s (err x) s1 same h = cc
    after s (ok a) s1 same h = let (msg, q, sent) = (e a).at s1 h in (msg, q, cc (sent, same))

-- A status message with what the master reads in it.
pub record Reports (host_id status : String) (config : Fields) (desired_config : Option Json)
    (msg : Json) : Type 0 where
  pub body : Fields
  pub agent : Json
  pub is_status : msg ≡ message "status" (dict body)
  pub is_of : lookup "host_id" body ≡ some (str host_id)
  pub has_status : lookup "status" body ≡ some (str status)
  pub has_apps : lookup "apps" body ≡ some (dict config)
  pub has_agent : lookup "host_agent" body ≡ some agent
  pub has_desired : lookup "desired_apps" body ≡ desired_config

-- `None` is not sent.
abbrev pub sent_part : Json → Option Json
sent_part null = none
sent_part j = some j

lookup-desired_part :
    (j : Json) (k : String) (f : Fields)
    → ("desired_apps" == k) ≡ false
    → lookup k (desired_part j f) ≡ lookup k f
lookup-desired_part null k f other = refl
lookup-desired_part j k f other = ground (arith, lookup-set_item "desired_apps" k j f)

desired_apps-desired_part :
    (j : Json) (f : Fields)
    → lookup "desired_apps" f ≡ none
    → lookup "desired_apps" (desired_part j f) ≡ sent_part j
desired_apps-desired_part null f absent = absent
desired_apps-desired_part j f absent = lookup-set_item "desired_apps" "desired_apps" j f

module _ (h : Host) (status : String) (config : Fields) (desired_config : Json) where
  Sends : Exec Agent (Unit {0}) → Type 0
  Sends = Emits (Reports h.host_id status config (sent_part desired_config))

  -- What the body holds whatever is added to it.
  record Holds (f : Fields) : Type 0 where
    agent : Json
    is_of : lookup "host_id" f ≡ some (str h.host_id)
    has_status : lookup "status" f ≡ some (str status)
    has_apps : lookup "apps" f ≡ some (dict config)
    has_agent : lookup "host_agent" f ≡ some agent
    no_desired : lookup "desired_apps" f ≡ none

  Holds-status_data :
      (info agent : Json) (extensions : Fields)
      → Holds (status_data h.host_id status info config agent extensions)
  unfolding status_data lookup
  Holds-status_data info agent extensions = record {
    agent = agent;
    is_of = refl;
    has_status = refl;
    has_apps = refl;
    has_agent = refl;
    no_desired = refl;
  }

  Holds-cert_info : (v : Json) (f : Fields) → Holds f → Holds (set_item "cert_info" v f)
  Holds-cert_info v f k = record {
    agent = k.agent;
    is_of = lookup-set_item "cert_info" "host_id" v f ∙ k.is_of;
    has_status = lookup-set_item "cert_info" "status" v f ∙ k.has_status;
    has_apps = lookup-set_item "cert_info" "apps" v f ∙ k.has_apps;
    has_agent = lookup-set_item "cert_info" "host_agent" v f ∙ k.has_agent;
    no_desired = lookup-set_item "cert_info" "desired_apps" v f ∙ k.no_desired;
  }

  -- The last parts, the desired configuration and the time.
  abbrev whole : Json → Fields → Fields
  whole timestamp f = set_item "timestamp" timestamp (desired_part desired_config f)

  lookup-whole :
      (k : String) (timestamp : Json) (f : Fields)
      → ("desired_apps" == k) ≡ false
      → ("timestamp" == k) ≡ false
      → lookup k (whole timestamp f) ≡ lookup k f
  lookup-whole k timestamp f other not_time = ground (
    arith,
    lookup-set_item "timestamp" k timestamp (desired_part desired_config f),
    lookup-desired_part desired_config k f other,
  )

  Reports-whole :
      (timestamp : Json) (f : Fields)
      → Holds f
      → Reports h.host_id status config
          (sent_part desired_config)
          (message "status" (dict (whole timestamp f)))
  Reports-whole timestamp f k = record {
    body = whole timestamp f;
    agent = k.agent;
    is_status = refl;
    is_of = lookup-whole "host_id" timestamp f refl refl ∙ k.is_of;
    has_status = lookup-whole "status" timestamp f refl refl ∙ k.has_status;
    has_apps = lookup-whole "apps" timestamp f refl refl ∙ k.has_apps;
    has_agent = lookup-whole "host_agent" timestamp f refl refl ∙ k.has_agent;
    has_desired =
        lookup-set_item "timestamp" "desired_apps" timestamp (desired_part desired_config f)
        ∙ desired_apps-desired_part desired_config f k.no_desired;
  }

  basic_publish-Sends :
      (msg : Json)
      → Reports h.host_id status config (sent_part desired_config) msg
      → Sends (basic_publish h msg)
  unfolding basic_publish tell ask Sends
  basic_publish-Sends msg q = record { at = λ s e. (msg, q, ground arith) }

  last_part : Fields → Exec Agent (Unit {0})
  last_part f = ask (λ n. ok (h.timestamp n)) >>= λ timestamp.
      basic_publish h (message "status" (dict (whole timestamp f)))

  last_part-Sends : (f : Fields) → Holds f → Sends (last_part f)
  unfolding last_part Sends
  last_part-Sends f k =
      Emits-bind (ask (λ n. ok (h.timestamp n))) _ (λ l. Preserves-ask h (λ s n p. p) _)
        λ timestamp.
          basic_publish-Sends (message "status" (dict (whole timestamp f)))
            (Reports-whole timestamp f k)

  cert_part-Sends : (b : Bool) (f : Fields) → Holds f → Sends (cert_part h b f >>= last_part)
  unfolding ask Sends
  cert_part-Sends false f k = record { at = λ s e. (last_part-Sends f k).at s e }
  cert_part-Sends true f k = record {
    at = λ s e.
        (last_part-Sends (set_item "cert_info" (h.cert_info s.asked) f)
            (Holds-cert_info (h.cert_info s.asked) f k)).at
          (record s { asked = s.asked + 1 }) e;
  }

  -- If the channel is open and the call returns, it has sent one message, which holds the id of the
  -- host, the status, the configuration, the agent, and the desired configuration where there is one.
  pub send_status-Reports :
      (s : Agent)
      → s.channel ≡ true
      → (send_status h status config desired_config s).0 ≡ ok tt
      → (msg : Json) × Reports h.host_id status config (sent_part desired_config) msg
        × ((send_status h status config desired_config s).1.sent ≡ s.sent ++ msg ∷ [])
  unfolding send_status Sends last_part
  send_status-Reports s up returns = sent_at s.channel up returns
    where
      published : Sends (publish_status h status config desired_config)
      published =
          Emits-bind (ask (λ n. ok (h.sysinfo n))) _ (λ l. Preserves-ask h (λ s n p. p) _)
            λ info.
              Emits-bind (gets hostagent_info) _ (λ l. Preserves-gets _)
                λ agent.
                  Emits-bind (get_extension_data h) _
                    (λ l. get_extension_data-Preserves h λ s n p. p)
                    λ extensions.
                      cert_part-Sends h.vouch_present
                        (status_data h.host_id status info config agent extensions)
                        (Holds-status_data info agent extensions)

      sent_at :
          (channel : Bool)
          → channel ≡ true
          → (if_open h channel (publish_status h status config desired_config) s).0 ≡ ok tt
          → (msg : Json) × Reports h.host_id status config (sent_part desired_config) msg
            × ((if_open h channel (publish_status h status config desired_config) s).1.sent
                ≡ s.sent ++ msg ∷ [])
      sent_at true up returns = published.at s returns
      sent_at false up returns = cc
