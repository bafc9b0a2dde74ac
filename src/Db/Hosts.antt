-- ===== src/Db/Hosts.antt =====
-- The rows of `hosts` and what belongs to them: custom settings, the responding flag, rabbit
-- credentials (`ResMgrDB` of resmgr/resmgr/dbutils.py).
pub mod Settings
use pf9_du.Prelude.{
  ℕ, String, Bool, true, false, ◌&&◌, not, Option, none, some, List, [], ◌∷◌, ◌++◌, ◌==◌, any, all,
  select, first?, update_where, if◌then◌else◌,
}
use pf9_du.Json.{Json, Fields, dict, end, field, lookup, has_key, set_item, update, keys}
use pf9_du.Result.{
  Result, ok, err, ◌>>=◌, ◌>>◌, require, some_or, attribute_error, type_error, key_error,
  host_not_found, role_not_found, host_config_failed,
}
use pf9_du.Exec.{Exec}
use pf9_du.Db.{Db, Role, Host, RabbitCredential, query_role, query_role_with_version}

unfoldable pub query_host : String → Db → Option Host
query_host host_id db = first? (select (λ h. h.id == host_id) db.hosts)

unfoldable pub get_all_custom_settings : String → Db → Result Fields
unfolding query_host
get_all_custom_settings host_id db = elim (query_host host_id db) [
  | none ↦ err host_not_found
  | some h ↦ ok h.role_settings
]

unfoldable pub get_custom_settings : String → String → Db → Result Json
unfolding get_all_custom_settings
get_custom_settings host_id role_name db = do
  role_settings ← get_all_custom_settings host_id db
  some_or role_not_found (lookup role_name role_settings)

-- `default_setting['default']`
unfoldable pub default_of : Json → Result Json
default_of (dict f) = some_or key_error (lookup "default" f)
default_of _ = err type_error

unfoldable pub default_settings_of : Fields → Result Fields
unfolding default_of
default_settings_of end = ok end
default_settings_of (field k v f) = do
  default ← default_of v
  rest ← default_settings_of f
  ok (field k default rest)

-- `not version` holds of `None` and of the empty text.
abbrev pub role_for : String → Option String → Db → Option Role
role_for role_name none db = query_role role_name db
role_for role_name (some v) db =
    if v == "" then query_role role_name db else query_role_with_version role_name v db

unfoldable pub get_default_settings : String → Option String → Db → Result Fields
unfolding default_settings_of
get_default_settings role_name version db = do
  role ← some_or attribute_error (role_for role_name version db)
  default_settings_of role.customizable_settings

-- The loop of `_update_settings_with_defaults` over the settings of one role.
unfoldable pub with_defaults : Fields → Fields → Fields
with_defaults settings end = settings
with_defaults settings (field k v defaults) =
    with_defaults (if has_key k settings then settings else set_item k v settings) defaults

-- `settings[role_name].update(settings_to_add)`, and then the defaults that are still missing.
unfoldable pub merged_settings : Option Json → Fields → Fields → Result Json
unfolding with_defaults update
merged_settings none settings_to_add defaults =
    ok (dict (with_defaults (update end settings_to_add) defaults))
merged_settings (some (dict old)) settings_to_add defaults =
    ok (dict (with_defaults (update old settings_to_add) defaults))
merged_settings (some _) settings_to_add defaults = err attribute_error

-- `host_details`: what the hosts' inventory says of a host.
pub record HostInfo : Type 0 where
  pub hostname : String
  pub os_family : String
  pub arch : String
  pub os_info : String

-- `session.merge` of a row without a `lastresponsetime`, which keeps the one that is there.
unfoldable pub merge_host : String → HostInfo → Fields → List Host → List Host
merge_host host_id info settings [] =
    record {
      id = host_id;
      hostname = info.hostname;
      hostosfamily = info.os_family;
      hostarch = info.arch;
      hostosinfo = info.os_info;
      lastresponsetime = none;
      responding = true;
      role_settings = settings;
    }
    ∷ []
merge_host host_id info settings (h ∷ hosts) =
    let rest = merge_host host_id info settings hosts in
    if h.id == host_id
    then record h {
      hostname = info.hostname;
      hostosfamily = info.os_family;
      hostarch = info.arch;
      hostosinfo = info.os_info;
      responding = true;
      role_settings = settings;
    }
      ∷ hosts
    else h ∷ rest

abbrev pub settings_of : Option Host → Fields
settings_of none = end
settings_of (some h) = h.role_settings

-- The settings that the row will hold; `deepcopy` makes them a value of their own.
unfoldable pub new_settings : String → Option String → Fields → Option Host → Db → Result Fields
new_settings role_name version settings_to_add host db = do
  defaults ← get_default_settings role_name version db
  require (all (λ k. has_key k defaults) (keys settings_to_add)) host_config_failed
  merged ← merged_settings (lookup role_name (settings_of host)) settings_to_add defaults
  ok (set_item role_name merged (settings_of host))

abbrev pub stored : String → HostInfo → Result Fields → Exec Db (Unit {0})
stored host_id info (err e) db = (err e, db)
stored host_id info (ok settings) db =
    (ok tt, record db { hosts = merge_host host_id info settings db.hosts })

-- One attempt; the others follow only an integrity error of the database.
unfoldable pub insert_update_host :
    String → HostInfo → String → Option String → Fields → Exec Db (Unit {0})
unfolding new_settings
insert_update_host host_id info role_name version settings_to_add db =
    stored host_id info (new_settings role_name version settings_to_add (query_host host_id db) db)
      db

-- `now` is the time at which the call is made.
unfoldable pub mark_host_state : ℕ → String → Bool → Exec Db (Unit {0})
mark_host_state now host_id responding db = elim (query_host host_id db) [
  | none ↦ (err attribute_error, db)
  | some _ ↦ (
    ok tt,
    record db {
      hosts =
          update_where (λ h. h.id == host_id)
            (λ h. record h {
              responding = responding;
              lastresponsetime = if responding then none else some now;
            })
            db.hosts;
    },
  )
]

unfoldable pub associate_rabbit_credentials_to_host :
    String → String → String → String → Exec Db (Unit {0})
associate_rabbit_credentials_to_host host_id role_name rabbit_user rabbit_password db =
    elim (query_host host_id db) [
      | none ↦ (err attribute_error, db)
      | some _ ↦
          if any (λ c. c.host_id == host_id && c.rolename == role_name) db.credentials
          then (ok tt, db)
          else (
            ok tt,
            record db {
              credentials =
                  db.credentials
                  ++ record {
                    host_id = host_id;
                    rolename = role_name;
                    userid = rabbit_user;
                    password = rabbit_password;
                  }
                    ∷ [];
            },
          )
    ]
