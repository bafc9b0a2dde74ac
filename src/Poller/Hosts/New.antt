-- ===== src/Poller/Hosts/New.antt =====
-- `_process_new_hosts` and `_cleanup_unauthorized_hosts` of resmgr/resmgr/resmgr_provider_pf9.py.
use pf9_du.Prelude.{
  ℕ, String, Bool, true, false, not, ◌||◌, Option, none, some, List, [], ◌∷◌, map, if◌then◌else◌,
}
use pf9_du.Prelude.Assoc.{get, put, without}
use pf9_du.Json.{Json, Fields, str, dict, has_key, json_eq}
use pf9_du.Result.{key_error, some_or}
use pf9_du.Exec.{Exec, pure, lift, gets, modify, for_each, ◌>>=◌, ◌>>◌}
use pf9_du.RoleSettings.{index}
use pf9_du.RolesMgr.{World}
use pf9_du.Poller.Hosts.{
  Backbone, Poll, publish, add_timedrift_message, responding_within_threshold, time_at, keep_data,
  get_backbone_host,
}

abbrev pub with_host : String → Json → ℕ → ℕ → Poll → Poll
with_host host info status_time status_time_on_du s = record s {
  unauthorized = put host info s.unauthorized;
  status_time = put host status_time s.status_time;
  status_time_on_du = put host status_time_on_du s.status_time_on_du;
}

module _ (w : World) (b : Backbone) where
  abbrev pub keep_host : String → Json → ℕ → ℕ → Fields → Exec Poll (Unit {0})
  keep_host host info status_time status_time_on_du host_info = do
    modify (with_host host info status_time status_time_on_du)
    keep_data host (str "") host_info
    publish "add" host

  -- A host whose clock is off counts as responding if the master has heard of it in time.
  abbrev pub keep_responding : String → Bool → Bool → Exec Poll (Unit {0}) → Exec Poll (Unit {0})
  keep_responding host false true body = do add_timedrift_message host; body
  keep_responding host false false body = pure tt
  keep_responding host true on_du body = body

  abbrev pub new_host_seen : String → Fields → Exec Poll (Unit {0})
  new_host_seen host host_info = do
    info ← lift (index (dict host_info) "info")
    status_time ← lift (time_at w b "timestamp" host_info)
    responding ← responding_within_threshold w b status_time 0
    status_time_on_du ← lift (time_at w b "timestamp_on_du" host_info)
    responding_on_du ← responding_within_threshold w b status_time_on_du 0
    keep_responding host responding responding_on_du
        (keep_host host info status_time status_time_on_du host_info)

  abbrev pub new_host_found : String → Option Fields → Exec Poll (Unit {0})
  new_host_found host none = pure tt
  new_host_found host (some host_info) = do
    status ← lift (index (dict host_info) "status")
    if json_eq status (str "missing") || not (has_key "info" host_info)
        then pure tt
        else new_host_seen host host_info

  -- The body of the loop.
  unfoldable pub process_new_host : String → Exec Poll (Unit {0})
  unfolding get_backbone_host responding_within_threshold time_at keep_data publish
      add_timedrift_message
  process_new_host host = do found ← get_backbone_host b host; new_host_found host found

  unfoldable pub process_new_hosts : List String → Exec Poll (Unit {0})
  unfolding process_new_host
  process_new_hosts host_ids = for_each host_ids process_new_host

  -- The hosts that are past the threshold by both times.
  unfoldable pub cleanup_list : List String → Exec Poll (List String)
  cleanup_list [] = pure []
  cleanup_list (id ∷ ids) = do
    status_time ← gets (λ s. get id s.status_time)
    time ← lift (some_or key_error status_time)
    responding ← responding_within_threshold w b time 0
    stale ← is_stale id responding
    rest ← cleanup_list ids
    pure (if stale then id ∷ rest else rest)
    where
      is_stale : String → Bool → Exec Poll Bool
      is_stale id true = pure false
      is_stale id false = do
        status_time ← gets (λ s. get id s.status_time_on_du)
        time ← lift (some_or key_error status_time)
        responding ← responding_within_threshold w b time 0
        pure (not responding)

  -- `_remove_all_host_metrics` is given the name of the host, which is read first.
  unfoldable pub cleanup_host : String → Exec Poll (Unit {0})
  unfolding publish
  cleanup_host id = do
    unauthorized ← gets (λ s. get id s.unauthorized)
    info ← lift (some_or key_error unauthorized)
    lift (index info "hostname")
    modify (λ s. record s {
      unauthorized = without id s.unauthorized;
      status_time = without id s.status_time;
      status_time_on_du = without id s.status_time_on_du;
      messages = without id s.messages;
    })
    publish "delete" id

  unfoldable pub cleanup_unauthorized_hosts : Exec Poll (Unit {0})
  unfolding cleanup_list cleanup_host
  cleanup_unauthorized_hosts = do
    ids ← gets (λ s. map (λ e. e.0) s.unauthorized)
    stale ← cleanup_list ids
    for_each stale cleanup_host
