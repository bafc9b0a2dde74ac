-- ===== src/Db/Hosts/Settings.antt =====
-- Which custom settings a host has after `insert_update_host`.
use pf9_du.Prelude.{
  String, ◌≡◌, refl, true, false, Option, none, some, List, [], ◌∷◌, arith, ◌==◌, all, select,
  first?, eq_iff, eq_refl,
}
use pf9_du.Json.{Json, Fields, dict, end, field, lookup, has_key, set_item, update, keys}
use pf9_du.Json.Laws.{lookup-set_item, has_key-lookup, IsDistinctFields}
use pf9_du.Result.{Result, ok, err, host_not_found, host_config_failed}
use pf9_du.Db.{Db, Host}
use pf9_du.Db.Hosts.{
  query_host, get_all_custom_settings, get_custom_settings, get_default_settings, with_defaults,
  merged_settings, stored, HostInfo, merge_host, settings_of, new_settings, insert_update_host,
}

-- The first that there is.
infixr 6 ◌orelse◌
abbrev pub ◌orelse◌ : Option Json → Option Json → Option Json
none orelse b = b
some a orelse b = some a

lookup-with_defaults :
    (k : String) (s d : Fields) → lookup k (with_defaults s d) ≡ (lookup k s orelse lookup k d)
unfolding with_defaults lookup
lookup-with_defaults k s end = ground arith
lookup-with_defaults k s (field j v d) = ground (
  arith,
  lookup-with_defaults k s d,
  lookup-with_defaults k (set_item j v s) d,
  lookup-set_item j k v s,
  has_key-lookup j s,
  eq_iff j k,
)

absent_key : (k : String) (g : Fields) → has_key k g ≡ false → lookup k g ≡ none
absent_key k g h = ground (arith, has_key-lookup k g)

lookup-update :
    (k : String) (f g : Fields)
    → IsDistinctFields g
    → lookup k (update f g) ≡ (lookup k g orelse lookup k f)
unfolding update lookup
lookup-update k f end d = refl
lookup-update k f (field j v g) d = ground (
  arith,
  lookup-update k (set_item j v f) g d.2,
  lookup-set_item j k v f,
  absent_key j g d.0,
  eq_iff j k,
)

module _ (host_id : String) (info : HostInfo) (settings : Fields) where
  abbrev merged : Db → Db
  merged db = record db { hosts = merge_host host_id info settings db.hosts }

  settings-merged : (db : Db) → get_all_custom_settings host_id (merged db) ≡ ok settings
  unfolding get_all_custom_settings query_host merge_host
  settings-merged db = go db.hosts
    where
      go :
          (l : List Host)
          → (elim (first? (select (λ h. h.id == host_id) (merge_host host_id info settings l))) [
            | none ↦ err host_not_found
            | some h ↦ ok h.role_settings
          ])
            ≡ ok settings
      go [] = simp eq_refl
      go (h ∷ l) = ground (arith, go l)

  query_host-merged :
      (other : String) (db : Db)
      → (host_id == other) ≡ false
      → query_host other (merged db) ≡ query_host other db
  unfolding query_host merge_host
  query_host-merged other db apart = go db.hosts
    where
      go :
          (l : List Host)
          → first? (select (λ h. h.id == other) (merge_host host_id info settings l))
            ≡ first? (select (λ h. h.id == other) l)
      go [] = ground arith
      go (h ∷ l) =
          ground (arith, go l, eq_iff h.id host_id, eq_iff h.id other, eq_iff host_id other)

-- The old settings of the role on the host, if there are any.
abbrev pub old_fields : Option Fields → Fields
old_fields none = end
old_fields (some f) = f

abbrev pub as_json : Option Fields → Option Json
as_json none = none
as_json (some f) = some (dict f)

abbrev outcome : Option Fields → Fields → Fields → Fields
outcome old settings_to_add defaults =
    with_defaults (update (old_fields old) settings_to_add) defaults

merged_settings-ok :
    (old : Option Fields) (settings_to_add defaults : Fields)
    → merged_settings (as_json old) settings_to_add defaults
      ≡ ok (dict (outcome old settings_to_add defaults))
unfolding merged_settings
merged_settings-ok none settings_to_add defaults = refl
merged_settings-ok (some f) settings_to_add defaults = refl

module _ (host_id : String) (info : HostInfo) (role_name : String) (version : Option String)
    (settings_to_add : Fields) (db : Db) where
  abbrev after : Result (Unit {0}) × Db
  after = insert_update_host host_id info role_name version settings_to_add db

  -- If the settings to add are settings of the role, and what the host holds for the role is a
  -- dictionary or nothing, then the host is stored, and each of the role's settings on it is the one
  -- to add, else the old one, else the default.
  pub insert_update_host-get_custom_settings :
      (old : Option Fields) (defaults : Fields)
      → IsDistinctFields settings_to_add
      → get_default_settings role_name version db ≡ ok defaults
      → all (λ k. has_key k defaults) (keys settings_to_add) ≡ true
      → lookup role_name (settings_of (query_host host_id db)) ≡ as_json old
      → (after.0 ≡ ok tt)
        × ((settings : Fields) × (get_custom_settings host_id role_name after.1
              ≡ ok (dict settings))
            × ((k : String)
                → lookup k settings ≡ (
                    lookup k settings_to_add
                    orelse lookup k (old_fields old)
                    orelse lookup k defaults)))
  unfolding insert_update_host new_settings get_custom_settings
  insert_update_host-get_custom_settings old defaults distinct found known there =
      rw (found, known, there, merged_settings-ok old settings_to_add defaults)
        (
          refl,
          (
            outcome old settings_to_add defaults,
            rw
                (settings-merged host_id info
                  (set_item role_name (dict (outcome old settings_to_add defaults))
                    (settings_of (query_host host_id db)))
                  db)
                (simp (lookup-set_item, eq_refl)),
            λ k. ground (
              arith,
              lookup-with_defaults k (update (old_fields old) settings_to_add) defaults,
              lookup-update k (old_fields old) settings_to_add distinct,
            ),
          ),
        )

  -- A setting that the role does not have is refused, and nothing is stored.
  insert_update_host-unknown :
      (defaults : Fields)
      → get_default_settings role_name version db ≡ ok defaults
      → all (λ k. has_key k defaults) (keys settings_to_add) ≡ false
      → after ≡ (err host_config_failed, db)
  unfolding insert_update_host new_settings
  insert_update_host-unknown defaults found unknown = rw (found, unknown) refl

  -- No other host's row is touched, whether or not the call succeeds.
  insert_update_host-other_host :
      (other : String) → (host_id == other) ≡ false → query_host other after.1 ≡ query_host other db
  unfolding insert_update_host
  insert_update_host-other_host other apart =
      go (new_settings role_name version settings_to_add (query_host host_id db) db)
    where
      go : (r : Result Fields) → query_host other (stored host_id info r db).1 ≡ query_host other db
      go (ok settings) = query_host-merged host_id info settings other db apart
      go (err e) = refl
