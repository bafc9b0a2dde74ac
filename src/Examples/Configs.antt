-- ===== src/Examples/Configs.antt =====
-- The theorems on configurations, applied to concrete ones.
use pf9_du.Result.{ok}
use pf9_du.DictSubst.{substitute}
use pf9_du.DictSubst.Laws.{token_free, token_free_fields, substitute-token_free}
use pf9_du.Config.{is_satisfied_by}
use pf9_du.Config.Satisfied.{is_satisfied_by_refl}
use pf9_du.Prelude.{some, none, Bool, String, if◌then◌else◌, ◌==◌, ◌≡◌, ◌↔◌, refl, true, false}
use pf9_du.Json.{Json, keys, lookup, Fields, boolean, str, dict, arr, nil, end, field}
use pf9_du.Json.Laws.{IsDistinctFields}
use pf9_du.Config.{is_dict_subset}
use pf9_du.Config.Subset.{Matched, is_dict_subset_iff}

abbrev wanted : Fields
wanted = field "DEFAULT" (dict (field "debug" (boolean true) end)) (field "peers" (arr nil) end)

wanted-IsDistinct : IsDistinctFields wanted
unfolding pf9_du.Json.has_key
wanted-IsDistinct = (refl, (refl, tt, tt), (refl, tt, tt))

is_dict_subset_iff_example :
    (is_dict_subset (dict wanted) (dict wanted) ≡ true) ↔ Matched wanted wanted
is_dict_subset_iff_example = is_dict_subset_iff wanted wanted wanted-IsDistinct

-- An app whose ignored part holds a list.
abbrev desired : Fields
desired =
    field "pf9-nova"
      (dict
        (field "version" (str "1.0") (field "du_config" (dict (field "events" (arr nil) end)) end)))
      end

desired-IsDistinct : IsDistinctFields desired
unfolding pf9_du.Json.has_key
desired-IsDistinct = (refl, (refl, tt, (refl, (refl, tt, tt), tt)), tt)

is_satisfied_by_refl_example : is_satisfied_by (some (dict desired)) (dict desired) ≡ ok true
unfolding pf9_du.Config.strip_fields pf9_du.Json.remove
is_satisfied_by_refl_example = is_satisfied_by_refl desired desired-IsDistinct refl

abbrev tokens : Fields
tokens = field "__HOST_CONFIG__" (dict wanted) end

tokens-clean : (s : String) (w : Json) → lookup s tokens ≡ some w → token_free tokens w ≡ true
unfolding pf9_du.Json.lookup
tokens-clean s w h = go ("__HOST_CONFIG__" == s) h
  where
    go : (b : Bool) → (if b then some (dict wanted) else none) ≡ some w → token_free tokens w ≡ true
    go true e = let base : token_free tokens (dict wanted) ≡ true = refl in cc (e, base)
    go false e = cc

substitute-token_free_example :
    token_free_fields tokens (substitute tokens (field "params" (str "__HOST_CONFIG__") end)) ≡ true
substitute-token_free_example =
    substitute-token_free tokens (field "params" (str "__HOST_CONFIG__") end) tokens-clean
