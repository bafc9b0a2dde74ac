-- ===== src/Examples/Tables.antt =====
-- The theorems on the tables of roles and hosts, applied to one role on one host.
use pf9_du.Prelude.{String, ◌≡◌, refl, none, [], ◌∷◌, ◌⊎◌, any, ◌==◌, ◌&&◌, not, true, false}
use pf9_du.Json.{Json, Fields, null, int, str, dict, end, field, lookup}
use pf9_du.Result.{ok}
use pf9_du.RoleStates.{applied}
use pf9_du.Db.{Db, query_role_with_version}
use pf9_du.Db.Roles.{RoleDetails, mark_role_active, save_role_in_db}
use pf9_du.Db.Roles.Active.{IsCurrent, mark_role_active-IsCurrent, save_role_in_db-IsCurrent}
use pf9_du.Db.Hosts.{
  HostInfo, query_host, get_custom_settings, insert_update_host, get_default_settings,
}
use pf9_du.Db.Hosts.Settings.{◌orelse◌, insert_update_host-get_custom_settings}
use pf9_du.RolesMgr.Creation.{IsCreated, create_role, create_role-IsCreated}
use pf9_du.Examples.{nova, db_at}

mark_role_active-IsCurrent_example :
    ((mark_role_active "nova" "1.0" (db_at applied)).0 ≡ ok tt)
    × (((any (λ q. q.rolename == "nova" && not (q.version == "1.0")) (db_at applied).roles ≡ true)
          × IsCurrent "nova" "1.0" (mark_role_active "nova" "1.0" (db_at applied)).1)
        ⊎ ((any (λ q. q.rolename == "nova" && not (q.version == "1.0")) (db_at applied).roles
              ≡ false)
            × ((mark_role_active "nova" "1.0" (db_at applied)).1 ≡ db_at applied)))
mark_role_active-IsCurrent_example =
    mark_role_active-IsCurrent "nova" "1.0" (db_at applied) nova
      (unfold query_role_with_version in refl)

abbrev newer : RoleDetails
newer = record {
  config = end;
  customizable_settings = end;
  display_name = "Nova";
  description = "Compute";
  rabbit_permissions = null;
}

save_role_in_db-IsCurrent_example :
    ((save_role_in_db (λ _. ok tt) "nova" "2.0" newer (db_at applied)).0 ≡ ok tt)
    × IsCurrent "nova" "2.0" (save_role_in_db (λ _. ok tt) "nova" "2.0" newer (db_at applied)).1
save_role_in_db-IsCurrent_example =
    save_role_in_db-IsCurrent "nova" "2.0" (λ _. ok tt) newer (db_at applied) refl refl

-- The role with a setting, on a host that has the old value of another.
abbrev with_setting : Db
with_setting = record (db_at applied) {
  roles =
      record nova {
        customizable_settings =
            field "ha" (dict (field "default" (str "off") end))
              (field "cores" (dict (field "default" (str "2") end)) end);
      }
      ∷ [];
}

abbrev info : HostInfo
info = record { hostname = "node1"; os_family = "Linux"; arch = "x86_64"; os_info = "centos" }

abbrev defaults : Fields
defaults = field "ha" (str "off") (field "cores" (str "2") end)

abbrev wanted : Fields
wanted = field "ha" (str "on") end

found_defaults : get_default_settings "nova" none with_setting ≡ ok defaults
unfolding get_default_settings pf9_du.Db.query_role pf9_du.Db.Hosts.default_settings_of lookup
found_defaults = refl

insert_update_host-get_custom_settings_example :
    ((insert_update_host "h1" info "nova" none wanted with_setting).0 ≡ ok tt)
    × ((settings : Fields) × (get_custom_settings "h1" "nova"
            (insert_update_host "h1" info "nova" none wanted with_setting).1
          ≡ ok (dict settings))
        × ((k : String)
            → lookup k settings ≡ (lookup k wanted orelse lookup k end orelse lookup k defaults)))
unfolding pf9_du.Json.has_key pf9_du.Json.keys pf9_du.Json.lookup query_host
insert_update_host-get_custom_settings_example =
    insert_update_host-get_custom_settings "h1" info "nova" none wanted with_setting none defaults
      (refl, tt, tt) found_defaults refl refl

-- The information of a new version of the role.
abbrev role_info : Fields
role_info = field "role_name" (str "nova") (
    field "role_version" (str "2.0") (
      field "display_name" (str "Nova") (
        field "description" (str "Compute") (
          field "customizable_settings" (dict end)
            (field "rabbit_permissions" (dict end) (field "config" (dict end) end))))))

create_role-IsCreated_example :
    IsCreated
      (λ _. ok tt)
      role_info
      (db_at applied)
      (create_role (λ _. ok tt) role_info (db_at applied))
create_role-IsCreated_example = create_role-IsCreated (λ _. ok tt) role_info (db_at applied)
