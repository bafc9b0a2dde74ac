-- ===== src/Poller/Hosts.antt =====
-- `BbonePoller.process_hosts` of resmgr/resmgr/resmgr_provider_pf9.py: a round over all hosts. This file
-- has the state of the poller beside the database, and what it asks the backbone.
pub mod Authorized
pub mod New
pub mod Absent
pub mod Reported
pub mod Existing
pub mod Round
pub mod Partition
pub mod Stuck
use pf9_du.Prelude.{
  ℕ, ◌+◌, ◌-◌, String, Bool, true, false, ◌&&◌, Option, none, some, List, [], ◌∷◌, if◌then◌else◌,
  ltb, nat_eq,
}
use pf9_du.Prelude.Assoc.{Assoc, get, put, without}
use pf9_du.Json.{Json, Fields, str, dict, lookup}
use pf9_du.Result.{Error, Result, ok, err, attribute_error, bbmaster_not_found}
use pf9_du.Exec.{Exec, pure, raise, lift, gets, modify, ◌>>=◌, ◌>>◌}
use pf9_du.RoleSettings.{index}
use pf9_du.RolesMgr.{World, Sys, record_effect, notify}
use pf9_du.Poller.Messages.{Message, add_host_message, remove_host_message}

-- What the poller asks: the backbone, and `strptime`; and its two timeouts, in the unit of the clock.
pub record Backbone : Type 0 where
  pub host_ids : ℕ → Result (List String)
  pub host : String → ℕ → Result Fields
  pub parse_time : Json → Result ℕ
  pub default_non_responsive_host_timeout : ℕ
  pub converging_non_responsive_host_timeout : ℕ

-- The database with the effects, and the tables of the module: `_unauthorized_hosts` (the `info` of
-- each), the times of their status, the data that hosts report, `_authorized_host_role_status` and
-- `_hosts_message_data`. `info_updates` are the calls of `update_host_info`.
pub record Poll : Type 0 where
  pub sys : Sys
  pub unauthorized : Assoc Json
  pub status_time : Assoc ℕ
  pub status_time_on_du : Assoc ℕ
  pub hypervisor_info : Assoc Json
  pub extension_data : Assoc Json
  pub cpuinfo_data : Assoc Json
  pub cert_data : Assoc Json
  pub role_status : Assoc Json
  pub messages : Assoc (Assoc (List Message))
  pub info_updates : List (String × Fields)

unfoldable pub on_sys : {A : Type 0} → Exec Sys A → Exec Poll A
on_sys m s = let (r, sys) = m s.sys in (r, record s { sys = sys })

-- A question, whose answer may depend on the number of calls.
unfoldable pub ask : {A : Type 0} → (ℕ → Result A) → Exec Poll A
ask answer s = (answer s.sys.calls, record s { sys = record s.sys { calls = s.sys.calls + 1 } })

unfoldable pub publish : String → String → Exec Poll (Unit {0})
unfolding on_sys
publish kind host = on_sys (record_effect (notify kind host))

-- The messages of `TIMEDRIFT_MSG_LEVEL`; 1 stands for the code "HOST_TIMEDRIFT_DETECTED".
unfoldable pub add_timedrift_message : String → Exec Poll (Unit {0})
add_timedrift_message host = modify λ s. record s {
  messages = add_host_message host "warn" "Host clock may be out of sync" 1 s.messages;
}

unfoldable pub remove_timedrift_message : String → Exec Poll (Unit {0})
remove_timedrift_message host =
    modify λ s. record s { messages = remove_host_message host "warn" 1 s.messages }

-- `|now - status_time| < threshold`
unfoldable pub within : ℕ → ℕ → ℕ → Bool
within now status_time threshold =
    ltb (now - status_time) threshold && ltb (status_time - now) threshold

module _ (w : World) (b : Backbone) where
  -- `_responding_within_threshold`; a threshold of zero stands for the default one.
  unfoldable pub responding_within_threshold : ℕ → ℕ → Exec Poll Bool
  unfolding ask within
  responding_within_threshold status_time threshold = do
    now ← ask (λ n. ok (w.now n))
    pure (
        within now status_time
          (if nat_eq threshold 0 then b.default_non_responsive_host_timeout else threshold))

  -- `datetime.strptime(host_info[key], ..)`
  unfoldable pub time_at : String → Fields → Result ℕ
  time_at key host_info = elim (index (dict host_info) key) [
    | err e ↦ err e
    | ok v ↦ b.parse_time v
  ]

-- `d.get(k, default)`
abbrev pub or_default : Json → Option Json → Json
or_default d none = d
or_default d (some v) = v

-- `host_info['info'].get('cpu_info', '')`, and the empty text if there is no info.
abbrev pub cpu_info : Option Json → Result Json
cpu_info none = ok (str "")
cpu_info (some (dict info)) = ok (or_default (str "") (lookup "cpu_info" info))
cpu_info (some v) = err attribute_error

abbrev pub with_reported : String → Fields → Poll → Poll
with_reported host host_info s = record s {
  hypervisor_info =
      put host (or_default (str "") (lookup "hypervisor_info" host_info)) s.hypervisor_info;
  extension_data = put host (or_default (str "") (lookup "extensions" host_info)) s.extension_data;
}

abbrev pub with_cpu_and_cert : String → Json → Json → Fields → Poll → Poll
with_cpu_and_cert host cpu cert host_info s = record s {
  cpuinfo_data = put host cpu s.cpuinfo_data;
  cert_data = put host (or_default cert (lookup "cert_info" host_info)) s.cert_data;
}

-- What every host reports beside its applications; `cert` is its default for a missing certificate.
unfoldable pub keep_data : String → Json → Fields → Exec Poll (Unit {0})
keep_data host cert host_info = do
  modify (with_reported host host_info)
  cpu ← lift (cpu_info (lookup "info" host_info))
  modify (with_cpu_and_cert host cpu cert host_info)

-- `_get_backbone_host` under `except BBMasterNotFound`: `none` where the host is passed over.
abbrev not_found : Result Fields → Result (Option Fields)
not_found (ok f) = ok (some f)
not_found (err bbmaster_not_found) = ok none
not_found (err e) = err e

unfoldable pub get_backbone_host : Backbone → String → Exec Poll (Option Fields)
unfolding ask
get_backbone_host b host = ask (λ n. not_found (b.host host n))
