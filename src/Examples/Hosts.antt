-- ===== src/Examples/Hosts.antt =====
-- The theorems on a round of the poller, applied to one authorized host and one that has gone.
use pf9_du.Prelude.{String, ◌≡◌, refl, true, not, ◌&&◌, some, List, [], ◌∷◌, ◌++◌}
use pf9_du.Prelude.Assoc.{Assoc, get}
use pf9_du.Json.{Json, str, dict, end, field}
use pf9_du.Result.{Error, ok, err}
use pf9_du.RoleStates.{applied}
use pf9_du.Poller.Hosts.{Backbone, Poll}
use pf9_du.Poller.Hosts.Round.{is_in, keys_of, process_known, process_hosts}
use pf9_du.Poller.Hosts.Authorized.{Authorized, authorized_hosts}
use pf9_du.Poller.Hosts.Partition.{Once, in_turn, process_known-Sorted}
use pf9_du.Poller.Hosts.Stuck.{process_hosts-Raises}
use pf9_du.Examples.{sys_at, world_where}

abbrev backbone : Backbone
backbone = record {
  host_ids = λ n. ok ("h1" ∷ []);
  host = λ id n. ok (field "status" (str "missing") end);
  parse_time = λ j. ok 0;
  default_non_responsive_host_timeout = 60;
  converging_non_responsive_host_timeout = 120;
}

abbrev gone : Json
gone = dict (field "hostname" (str "node9") end)

abbrev poll : Poll
poll = record {
  sys = sys_at applied;
  unauthorized = ("h9", gone) ∷ [];
  status_time = ("h9", 0) ∷ [];
  status_time_on_du = ("h9", 0) ∷ [];
  hypervisor_info = [];
  extension_data = [];
  cpuinfo_data = [];
  cert_data = [];
  role_status = [];
  messages = [];
  info_updates = [];
}

gone_is_unauthorized : get "h9" poll.unauthorized ≡ some gone
unfolding get
gone_is_unauthorized = refl

process_hosts-Raises_example :
    ((e : Error) × ((process_hosts (world_where true) backbone (λ host role l f. ok f) poll).0
        ≡ err e))
    × ((info : Json) × (get "h9"
            (process_hosts (world_where true) backbone (λ host role l f. ok f) poll).1.unauthorized
          ≡ some info))
process_hosts-Raises_example =
    process_hosts-Raises "h9" (world_where true) backbone (λ host role l f. ok f) ("h1" ∷ []) poll
      refl refl (gone, gone_is_unauthorized)

-- What is read of the tables.
abbrev authorized : Assoc Authorized
authorized = elim (authorized_hosts (λ host role l f. ok f) poll.sys.db) [ ok a ↦ a | err e ↦ [] ]

process_known-Sorted_example :
    let known = keys_of authorized ++ "h9" ∷ [] in
    (new : List String) × (absent : List String) × (existing : List String) × ((id : String)
      → Once id new (is_in id ("h1" ∷ "h2" ∷ []) && not (is_in id known)))
    × ((id : String) → Once id absent (is_in id known && not (is_in id ("h1" ∷ "h2" ∷ []))))
    × ((id : String) → Once id existing (is_in id ("h1" ∷ "h2" ∷ []) && is_in id known))
    × (process_known (world_where true) backbone (λ host role l f. ok f) ("h1" ∷ "h2" ∷ []) poll
        ≡ in_turn
            (world_where true)
            backbone
            (λ host role l f. ok f)
            new
            absent
            existing
            authorized
            poll)
unfolding authorized_hosts pf9_du.RolesMgr.Details.query_host_and_app_details
    pf9_du.Db.Hosts.query_host pf9_du.Db.Associations.get_all_role_associations pf9_du.Db.role_of
    pf9_du.RoleStates.role_is_authed
process_known-Sorted_example =
    process_known-Sorted (world_where true) backbone (λ host role l f. ok f) ("h1" ∷ "h2" ∷ [])
      authorized poll refl
