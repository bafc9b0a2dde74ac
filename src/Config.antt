-- ===== src/Config.antt =====
-- The comparison of configurations that every part of the program shares: `is_dict_subset` of
-- lib/configutils/configutils/configutils.py and `is_satisfied_by` of bbone/lib/bbcommon/utils.py.
pub mod Subset
pub mod Satisfied
use text.Mathlib.Text.{find?}
use pf9_du.Prelude.{
  String, Bool, true, false, ◌&&◌, ◌||◌, Option, none, some, List, [], ◌∷◌, any, if◌then◌else◌,
}
use pf9_du.Json.{
  Json, Items, Fields, null, boolean, int, float, str, arr, dict, nil, cons, end, field, lookup,
  remove, same_keys, json_eq,
}
use pf9_du.Result.{Result, ok, err, type_error, attribute_error, key_error, ◌>>=◌}

-- A value of a type other than str, bool, int, float and dict is in no dictionary's subset.
unfoldable mutual
  pub is_dict_subset : Json → Json → Bool
  is_dict_subset (dict f) (dict g) = subset_fields f g
  is_dict_subset _ _ = false

  pub subset_fields : Fields → Fields → Bool
  subset_fields end g = true
  subset_fields (field k v f) g = elim (lookup k g) [
    | none ↦ false
    | some w ↦ subset_value v w && subset_fields f g
  ]

  pub subset_value : Json → Json → Bool
  subset_value null w = false
  subset_value (arr xs) w = false
  subset_value (dict f) (dict g) = subset_fields f g
  subset_value (dict f) w = false
  subset_value (boolean b) w = json_eq (boolean b) w
  subset_value (int n) w = json_eq (int n) w
  subset_value (float m e) w = json_eq (float m e) w
  subset_value (str s) w = json_eq (str s) w

abbrev pub ignored_keys : List String
ignored_keys = "url" ∷ "du_config" ∷ "pkginfo" ∷ "rank" ∷ []

unfoldable pub strip_fields : List String → Fields → Fields
strip_fields [] f = f
strip_fields (k ∷ ks) f = strip_fields ks (remove k f)

abbrev contains_text : String → String → Bool
contains_text s k = elim (find? s k) [ none ↦ false | some _ ↦ true ]

unfoldable pub contains_item : Items → String → Bool
contains_item nil k = false
contains_item (cons x xs) k = json_eq (str k) x || contains_item xs k

-- The loop over the ignored keys. `in` is also a test on a text or a list, from which no key can be
-- deleted, and it is an error on any other value.
unfoldable pub strip : Json → Result Json
unfolding strip_fields remove contains_item
strip (dict f) = ok (dict (strip_fields ignored_keys f))
strip (str s) = if any (contains_text s) ignored_keys then err type_error else ok (str s)
strip (arr xs) = if any (contains_item xs) ignored_keys then err type_error else ok (arr xs)
strip _ = err type_error

-- The loop over the applications; `current` has the same keys.
unfoldable pub specs_satisfied : Fields → Fields → Result Bool
specs_satisfied end current = ok true
specs_satisfied (field app_name app_spec rest) current =
    let others = specs_satisfied rest current in
    do
      spec ← strip app_spec
      elim (lookup app_name current) [
        | none ↦ err key_error
        | some app ↦ if is_dict_subset spec app then others else ok false
      ]

-- `none` is Python's `None`, which any configuration satisfies.
unfoldable pub is_satisfied_by : Option Json → Json → Result Bool
is_satisfied_by none current = ok true
is_satisfied_by (some (dict f)) (dict g) = if same_keys f g then specs_satisfied f g else ok false
is_satisfied_by (some _) _ = err attribute_error
