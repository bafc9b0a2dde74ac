-- ===== src/DictSubst.antt =====
-- Token substitution in a dictionary (resmgr/resmgr/dict_subst.py): texts that are tokens are
-- replaced by their values, at any depth of dictionaries; lists are left as they are.
pub mod Laws
use pf9_du.Prelude.{Option, none, some}
use pf9_du.Json.{Json, Items, Fields, null, boolean, int, float, str, arr, dict, end, field, lookup}

abbrev replaced : Json → Option Json → Json
replaced v none = v
replaced v (some w) = w

-- The copy that `substitute` makes first is the value itself here.
unfoldable mutual
  pub substitute_value : Fields → Json → Json
  substitute_value token_map (dict f) = dict (substitute token_map f)
  substitute_value token_map (str s) = replaced (str s) (lookup s token_map)
  substitute_value token_map null = null
  substitute_value token_map (boolean b) = boolean b
  substitute_value token_map (int n) = int n
  substitute_value token_map (float m k) = float m k
  substitute_value token_map (arr xs) = arr xs

  pub substitute : Fields → Fields → Fields
  substitute token_map end = end
  substitute token_map (field k v f) =
      field k (substitute_value token_map v) (substitute token_map f)
