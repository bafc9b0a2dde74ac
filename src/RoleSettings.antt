-- ===== src/RoleSettings.antt =====
-- Custom role settings put into an app configuration: `_update_custom_role_settings` of
-- resmgr/resmgr/resmgr_provider_pf9.py. The new configuration is returned, where the source writes
-- into the one that it is given.
use Prim.Native.Char.{Char, code}
use text.Mathlib.Text.{find?}
use pf9_du.Prelude.{
  String, Bool, true, false, Option, none, some, List, [], ◌∷◌, nat_eq, if◌then◌else◌,
}
use pf9_du.Json.{Json, Fields, str, dict, end, field, lookup, set_item}
use pf9_du.Result.{Result, ok, err, type_error, key_error, attribute_error, ◌>>=◌}
use pf9_du.Db.{Role}

-- `d[k]`
unfoldable pub index : Json → String → Result Json
index (dict f) k = elim (lookup k f) [ none ↦ err key_error | some v ↦ ok v ]
index _ k = err type_error

abbrev push_char : Char → List String → List String
push_char c [] = (String.◌∷◌ c String.[]) ∷ []
push_char c (s ∷ rest) = (String.◌∷◌ c s) ∷ rest

-- `s.split('/')`
unfoldable pub split_path : String → List String
split_path String.[] = String.[] ∷ []
split_path (String.◌∷◌ c s) =
    let rest = split_path s in if nat_eq (code c) b'/' then String.[] ∷ rest else push_char c rest

-- The traversal of `path` from `value`, and the write of `setting` at its end.
unfoldable pub write_setting : List String → String → Json → Json → Result Json
write_setting [] setting_name setting (dict f) = ok (dict (set_item setting_name setting f))
write_setting [] setting_name setting _ = err type_error
write_setting (k ∷ path) setting_name setting (dict f) = elim (lookup k f) [
  | none ↦ err key_error
  | some v ↦ do v' ← write_setting path setting_name setting v; ok (dict (set_item k v' f))
]
write_setting (k ∷ path) setting_name setting _ = err type_error

abbrev chosen : Json → Option Json → Json
chosen v none = v
chosen v (some w) = w

text_of : Json → Result String
text_of (str s) = ok s
text_of _ = err attribute_error

-- The loop over one role's customizable settings, with `values` for `role_settings[role_name]`.
unfoldable pub apply_settings : Fields → Fields → Json → Result Json
unfolding text_of
apply_settings end values app = ok app
apply_settings (field setting_name setting rest) values app = do
  path_value ← index setting "path"
  path ← text_of path_value
  let value = chosen (str "") (lookup setting_name values)
  app' ← write_setting (split_path path) setting_name value app
  apply_settings rest values app'

abbrev contains_text : String → String → Bool
contains_text s k = elim (find? s k) [ none ↦ false | some _ ↦ true ]

fields_of : Json → Result Fields
fields_of (dict f) = ok f
fields_of _ = err type_error

-- The loop over the roles for one app.
unfoldable pub apply_roles : String → Fields → List Role → Json → Result Json
unfolding fields_of
apply_roles app_name role_settings [] app = ok app
apply_roles app_name role_settings (role ∷ roles) app =
    let next : Json → Result Json = λ a. apply_roles app_name role_settings roles a in
    elim (lookup role.rolename role_settings) [
      | none ↦ next app
      | some settings ↦
          if contains_text role.rolename app_name
          then (do
            values ← fields_of settings
            app' ← apply_settings role.customizable_settings values app
            next app')
          else next app
    ]

unfoldable pub update_custom_role_settings : Fields → Fields → List Role → Result Fields
update_custom_role_settings end role_settings roles = ok end
update_custom_role_settings (field app_name app rest) role_settings roles = do
  app' ← apply_roles app_name role_settings roles app
  rest' ← update_custom_role_settings rest role_settings roles
  ok (field app_name app' rest')
