-- ===== src/RolesMgr/Creation.antt =====
-- `RolesMgr.create_role` of resmgr/resmgr/resmgr_provider_pf9.py.
use pf9_du.Prelude.{String, ◌≡◌, refl, ◌⊎◌, inl, inr, Option, none, some}
use pf9_du.Json.{Json, Fields, boolean, str, dict, lookup}
use pf9_du.Result.{Error, Result, ok, err, role_key_malformed, role_version_exists}
use pf9_du.Exec.{Exec, raise, lift, ◌>>=◌, ◌>>◌}
use pf9_du.Db.{Db, Role, query_role_with_version}
use pf9_du.Db.Roles.{RoleDetails, save_role_in_db}
use pf9_du.Db.Roles.Active.{IsCurrent, save_role_in_db-IsCurrent}

-- `key in role_info.keys()` with a value of the type.
abbrev text_at : Option Json → Result String
text_at (some (str s)) = ok s
text_at _ = err role_key_malformed

abbrev dict_at : Option Json → Result Fields
dict_at (some (dict f)) = ok f
dict_at _ = err role_key_malformed

abbrev active_at : Option Json → Result (Unit {0})
active_at none = ok tt
active_at (some (boolean b)) = ok tt
active_at _ = err role_key_malformed

abbrev as_details : Fields → Fields → String → String → Fields → RoleDetails
as_details config customizable_settings display_name description rabbit_permissions = record {
  config = config;
  customizable_settings = customizable_settings;
  display_name = display_name;
  description = description;
  rabbit_permissions = dict rabbit_permissions;
}

module _ (validate : Fields → Result (Unit {0})) where
  -- The second half, with the values of the keys.
  abbrev create_if_absent : String → String → RoleDetails → Option Role → Exec Db (Unit {0})
  create_if_absent role_name role_version details (some _) = raise role_version_exists
  create_if_absent role_name role_version details none =
      save_role_in_db validate role_name role_version details

  unfoldable pub create_checked : String → String → RoleDetails → Exec Db (Unit {0})
  create_checked role_name role_version details db =
      create_if_absent role_name role_version details
        (query_role_with_version role_name role_version db) db

  unfoldable pub create_role : Fields → Exec Db (Unit {0})
  create_role role_info = do
    role_name ← lift (text_at (lookup "role_name" role_info))
    role_version ← lift (text_at (lookup "role_version" role_info))
    display_name ← lift (text_at (lookup "display_name" role_info))
    description ← lift (text_at (lookup "description" role_info))
    settings ← lift (dict_at (lookup "customizable_settings" role_info))
    rabbit_permissions ← lift (dict_at (lookup "rabbit_permissions" role_info))
    config ← lift (dict_at (lookup "config" role_info))
    lift (active_at (lookup "active" role_info))
    create_checked role_name role_version
        (as_details config settings display_name description rabbit_permissions)

  -- A new version has been stored and is current, or there was an exception and nothing was stored.
  abbrev pub IsCreated : Fields → Db → Result (Unit {0}) × Db → Type 0
  IsCreated role_info db o =
      ((o.0 ≡ ok tt)
        × ((name : String) × (version : String) × (lookup "role_name" role_info ≡ some (str name))
            × (lookup "role_version" role_info ≡ some (str version))
            × (query_role_with_version name version db ≡ none)
            × IsCurrent name version o.1))
      ⊎ (((e : Error) × (o.0 ≡ err e)) × (o.1 ≡ db))

  IsCreated-lift :
      {A : Type 0} (role_info : Fields) (db : Db) (r : Result A) (f : A → Exec Db (Unit {0}))
      → ((a : A) → r ≡ ok a → IsCreated role_info db (f a db))
      → IsCreated role_info db ((lift r >>= f) db)
  IsCreated-lift role_info db (ok a) f next = next a refl
  IsCreated-lift role_info db (err e) f next = inr ((e, refl), refl)

  text_at-some : (o : Option Json) (s : String) → text_at o ≡ ok s → o ≡ some (str s)
  text_at-some (some (str s)) t e = cc
  text_at-some none t e = cc
  text_at-some (some _) t e = cc

  -- The configurations can be rendered, or the call raises before it writes.
  save-IsCreated :
      (role_info : Fields) (db : Db) (name version : String) (details : RoleDetails)
      → lookup "role_name" role_info ≡ some (str name)
      → lookup "role_version" role_info ≡ some (str version)
      → query_role_with_version name version db ≡ none
      → IsCreated role_info db (save_role_in_db validate name version details db)
  unfolding save_role_in_db
  save-IsCreated role_info db name version details is_name is_version absent =
      rendered (validate details.config) (validate details.customizable_settings) refl refl
    where
      rendered :
          (first second : Result (Unit {0}))
          → validate details.config ≡ first
          → validate details.customizable_settings ≡ second
          → IsCreated role_info db (save_role_in_db validate name version details db)
      rendered (ok _) (ok _) e1 e2 =
          let (done, current) = save_role_in_db-IsCurrent name version validate details db e1 e2 in
          inl (done, (name, version, is_name, is_version, absent, current))
      rendered (ok _) (err x) e1 e2 = inr (rw (e1, e2) ((x, refl), refl))
      rendered (err x) second e1 e2 = inr (rw e1 ((x, refl), refl))

  checked-IsCreated :
      (role_info : Fields) (db : Db) (name version : String) (details : RoleDetails)
      → lookup "role_name" role_info ≡ some (str name)
      → lookup "role_version" role_info ≡ some (str version)
      → IsCreated role_info db (create_checked name version details db)
  unfolding create_checked
  checked-IsCreated role_info db name version details is_name is_version =
      decided (query_role_with_version name version db) refl
    where
      decided :
          (found : Option Role)
          → query_role_with_version name version db ≡ found
          → IsCreated role_info db (create_if_absent name version details found db)
      decided (some r) e = inr ((role_version_exists, refl), refl)
      decided none e = save-IsCreated role_info db name version details is_name is_version e

  -- Creating a role is all or nothing. If the call returns, the version that its information names
  -- was not there before, and is now the only active one, which the role stands for; if it raises, the
  -- database is as it was.
  pub create_role-IsCreated :
      (role_info : Fields) (db : Db) → IsCreated role_info db (create_role role_info db)
  unfolding create_role
  create_role-IsCreated role_info db =
      IsCreated-lift role_info db (text_at (lookup "role_name" role_info)) _ λ name is_name.
        IsCreated-lift role_info db (text_at (lookup "role_version" role_info)) _
          λ version is_version.
            IsCreated-lift role_info db (text_at (lookup "display_name" role_info)) _ λ shown _.
              IsCreated-lift role_info db (text_at (lookup "description" role_info)) _ λ text _.
                IsCreated-lift role_info db (dict_at (lookup "customizable_settings" role_info)) _
                  λ settings _.
                    IsCreated-lift role_info db (dict_at (lookup "rabbit_permissions" role_info)) _
                      λ rabbit _.
                        IsCreated-lift role_info db (dict_at (lookup "config" role_info)) _
                          λ config _.
                            IsCreated-lift role_info db (active_at (lookup "active" role_info)) _
                              λ _ _.
                                checked-IsCreated role_info db name version
                                  (as_details config settings shown text rabbit)
                                  (text_at-some _ name is_name) (text_at-some _ version is_version)
