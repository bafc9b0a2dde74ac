-- ===== src/Examples/Apps.antt =====
-- The theorems on `process_apps`, applied to one app that is to be upgraded and one to be removed.
use pf9_du.Prelude.{String, ◌≡◌, refl, true, false, none, [], ◌==◌}
use pf9_du.Json.{Json, Fields, boolean, str, dict, end, field}
use pf9_du.Result.{ok}
use pf9_du.Apps.Calls.{Action, Machine, Run}
use pf9_du.Apps.{process_apps}
use pf9_du.Apps.Probe.{changes_made, process_apps-probe_only}
use pf9_du.Apps.Counts.{process_apps-counts}
use pf9_du.Apps.Idle.{process_apps-idle}

-- Every call succeeds, and every rank is the same.
abbrev pub machine : Machine
machine = record {
  raises = λ a n. none;
  os_name = ok "centos_7";
  search = λ pattern text. pattern == text;
  interpolate = λ url. ok url;
  Rank = Unit;
  float = λ r. ok tt;
  no_rank = tt;
  le = λ a b. true;
}

abbrev app_with : String → Fields
app_with version = field "version" (str version) (
    field "config" (dict end)
      (field "running" (boolean true) (field "url" (str "http://host/app.rpm") end)))

abbrev pub installed : Fields
installed = field "pf9-nova" (dict (app_with "1.0")) (field "pf9-old" (dict (app_with "1.0")) end)

abbrev pub specified : Fields
specified = field "pf9-nova" (dict (app_with "2.0")) end

abbrev pub idle : Run
idle = record { calls = 0; trace = [] }

process_apps-probe_only_example :
    changes_made (process_apps machine true false specified installed idle).1 ≡ []
process_apps-probe_only_example = process_apps-probe_only machine false specified installed idle

two_changes : (process_apps machine false false specified installed idle).0 ≡ ok 2
unfolding process_apps pf9_du.Apps.versions_there pf9_du.RoleSettings.index pf9_du.Json.lookup
    pf9_du.Apps.Calls.get_app_ordering pf9_du.Json.keys pf9_du.Json.has_key
    pf9_du.Apps.Calls.rank_of pf9_du.Apps.process_deleted pf9_du.Apps.act
    pf9_du.Apps.process_all_identical pf9_du.Apps.process_identical pf9_du.Json.json_eq
    pf9_du.Apps.change_version pf9_du.Apps.url_from_app_spec pf9_du.Apps.services_of
    pf9_du.Apps.process_all_new
two_changes = refl

process_apps-counts_example : (process_apps machine true false specified installed idle).0 ≡ ok 2
process_apps-counts_example =
    process_apps-counts machine (λ n. refl) false specified installed idle idle 2 two_changes

no_changes : (process_apps machine true false installed installed idle).0 ≡ ok 0
unfolding process_apps pf9_du.Apps.versions_there pf9_du.RoleSettings.index pf9_du.Json.lookup
    pf9_du.Apps.Calls.get_app_ordering pf9_du.Json.keys pf9_du.Json.has_key
    pf9_du.Apps.Calls.rank_of pf9_du.Apps.process_deleted pf9_du.Apps.act
    pf9_du.Apps.process_all_identical pf9_du.Apps.process_identical pf9_du.Json.json_eq
    pf9_du.Apps.change_version pf9_du.Apps.url_from_app_spec pf9_du.Apps.services_of
    pf9_du.Apps.process_all_new pf9_du.Apps.update_app pf9_du.Apps.change_config
    pf9_du.Apps.change_services pf9_du.Apps.current_services_of pf9_du.Config.is_dict_subset
no_changes = refl

process_apps-idle_example :
    ((process_apps machine false false installed installed idle).0 ≡ ok 0)
    × (changes_made (process_apps machine false false installed installed idle).1 ≡ [])
process_apps-idle_example =
    process_apps-idle machine (λ n. refl) false installed installed idle idle no_changes
