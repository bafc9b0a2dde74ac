-- ===== src/Poller/Hosts/Reported.antt =====
-- What a report of a host changes in the tables of the poller: `_update_role_status` and the parts on
-- the host's name and columns in `_process_existing_hosts` of resmgr/resmgr/resmgr_provider_pf9.py.
use pf9_du.Prelude.{
  String, Bool, false, Option, none, some, List, [], ◌∷◌, ◌++◌, any, if◌then◌else◌,
}
use pf9_du.Prelude.Assoc.{get, put}
use pf9_du.Json.{Json, Fields, null, str, dict, end, field, lookup, json_eq}
use pf9_du.Result.{Result, ok, err, key_error, attribute_error}
use pf9_du.Exec.{Exec, pure, lift, gets, modify, ◌>>=◌, ◌>>◌}
use pf9_du.RoleSettings.{index}
use pf9_du.RoleStates.{role_is_failed, role_is_converging, name}
use pf9_du.Db.{HostRoleAssociation}
use pf9_du.Db.Associations.{get_all_role_associations}
use pf9_du.Poller.Hosts.{Poll, publish, or_default}
use pf9_du.Poller.Hosts.Authorized.{Authorized}

abbrev has_class : (String → Option Bool) → HostRoleAssociation → Bool
has_class p a = elim (p (name a.current_state)) [ none ↦ false | some c ↦ c ]

-- The status that `_update_role_status` computes: the states of the roles come before what is reported.
unfoldable pub role_status_of : List HostRoleAssociation → Result Json → Result Json
role_status_of assocs reported =
    if any (has_class role_is_failed) assocs
    then ok (str "failed")
    else if any (has_class role_is_converging) assocs
    then ok (str "converging")
    else reported

-- What `get` finds in `_authorized_host_role_status`; a missing entry is `None`.
abbrev is_status : Option Json → Json → Bool
is_status none v = json_eq null v
is_status (some u) v = json_eq u v

-- `_update_role_status`
unfoldable pub update_role_status : String → Fields → Exec Poll (Unit {0})
unfolding role_status_of publish
update_role_status host host_info = do
  assocs ← gets (λ s. get_all_role_associations host s.sys.db)
  host_status ← lift (role_status_of assocs (index (dict host_info) "status"))
  before ← gets (λ s. get host s.role_status)
  if is_status before host_status then pure tt else (do
    modify (λ s. record s { role_status = put host host_status s.role_status })
    publish "change" host)

-- `host_info['info']['hostname']`, or `None` where a key is missing.
abbrev none_on_key_error : Result Json → Result Json
none_on_key_error (err key_error) = ok null
none_on_key_error r = r

unfoldable pub hostname_of : Fields → Result Json
hostname_of host_info = elim (index (dict host_info) "info") [
  | err e ↦ none_on_key_error (err e)
  | ok info ↦ none_on_key_error (index info "hostname")
]

-- The columns whose value differs from the one that is reported.
abbrev changed_column : String → String → Fields → Fields → Fields
changed_column key column old f =
    let v = or_default null (lookup column f) in
    if json_eq (or_default null (lookup key old)) v then end else field key v end

abbrev columns_of : Authorized → Fields
columns_of a = field "hostarch" (str a.row.hostarch) (
    field "hostname" (str a.row.hostname) (
      field "hostosfamily" (str a.row.hostosfamily)
        (field "hostosinfo" (str a.row.hostosinfo) end)))

abbrev joined : Fields → Fields → Fields
joined end g = g
joined (field k v f) g = field k v (joined f g)

abbrev updated_host_info : Authorized → Json → Result Fields
updated_host_info a (dict info) = ok (
    joined (changed_column "hostarch" "arch" (columns_of a) info) (
      joined (changed_column "hostname" "hostname" (columns_of a) info) (
        joined (changed_column "hostosfamily" "os_family" (columns_of a) info)
          (changed_column "hostosinfo" "os_info" (columns_of a) info))))
updated_host_info a v = err attribute_error

abbrev save_info : String → Fields → Exec Poll (Unit {0})
save_info host end = pure tt
save_info host updated = do
  modify (λ s. record s { info_updates = s.info_updates ++ (host, updated) ∷ [] })
  publish "change" host

unfoldable pub update_info : String → Authorized → Option Json → Exec Poll (Unit {0})
unfolding publish
update_info host a none = pure tt
update_info host a (some info) = do
  updated ← lift (updated_host_info a info)
  save_info host updated
