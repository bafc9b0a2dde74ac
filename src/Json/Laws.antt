-- ===== src/Json/Laws.antt =====
-- Laws of the dictionary operations and of `==`.
use pf9_du.Prelude.{
  String, ◌≡◌, refl, Bool, true, false, Option, none, some, arith, ◌==◌, eq_iff, eq_refl,
  if◌then◌else◌,
}
use pf9_du.Prelude.Int.{int_eq_refl, scale}
use pf9_du.Json.{
  Json, Items, Fields, null, boolean, int, float, str, arr, dict, nil, cons, end, field, lookup,
  has_key, set_item, remove, json_eq, items_eq, fields_eq,
}

pub lookup-set_item :
    (k j : String) (v : Json) (f : Fields)
    → lookup j (set_item k v f) ≡ (if k == j then some v else lookup j f)
unfolding lookup set_item
lookup-set_item k j v end = refl
lookup-set_item k j v (field i w f) =
    ground (arith, lookup-set_item k j v f, eq_iff i k, eq_iff i j, eq_iff k j)

pub lookup-remove :
    (k j : String) (f : Fields) → lookup j (remove k f) ≡ (if k == j then none else lookup j f)
unfolding lookup remove
lookup-remove k j end = ground arith
lookup-remove k j (field i w f) =
    ground (arith, lookup-remove k j f, eq_iff i k, eq_iff i j, eq_iff k j)

abbrev pub present : Option Json → Bool
present none = false
present (some v) = true

pub has_key-lookup : (k : String) (f : Fields) → has_key k f ≡ present (lookup k f)
unfolding lookup has_key
has_key-lookup k end = refl
has_key-lookup k (field j v f) = ground (arith, has_key-lookup k f)

pub ruleset dict_laws = (lookup-set_item, lookup-remove, has_key-lookup)

-- What holds of every value that Python can hold: no dictionary has a key twice.
abbrev mutual
  pub IsDistinct : Json → Type 0
  IsDistinct (arr xs) = IsDistinctItems xs
  IsDistinct (dict f) = IsDistinctFields f
  IsDistinct _ = Unit

  pub IsDistinctItems : Items → Type 0
  IsDistinctItems nil = Unit
  IsDistinctItems (cons x xs) = IsDistinct x × IsDistinctItems xs

  pub IsDistinctFields : Fields → Type 0
  IsDistinctFields end = Unit
  IsDistinctFields (field k v f) = (has_key k f ≡ false) × IsDistinct v × IsDistinctFields f

-- Every entry of `f` is the entry of `g` at its key.
abbrev pub Within : Fields → Fields → Type 0
Within end g = Unit
Within (field k v f) g = (lookup k g ≡ some v) × Within f g

Within-field :
    (j : String) (w : Json) (f g : Fields)
    → has_key j f ≡ false
    → Within f g
    → Within f (field j w g)
unfolding lookup has_key
Within-field j w end g absent h = tt
Within-field j w (field k v f) g absent h =
    (ground (arith, eq_iff j k, eq_iff k j), Within-field j w f g (ground arith) h.1)

pub Within-refl : (f : Fields) → IsDistinctFields f → Within f f
unfolding lookup
Within-refl end d = tt
Within-refl (field k v f) d = (simp eq_refl, Within-field k v f f d.0 (Within-refl f d.2))

mutual
  unfolding json_eq

  pub json_eq_refl : (v : Json) → IsDistinct v → json_eq v v ≡ true
  json_eq_refl null d = refl
  json_eq_refl (boolean true) d = refl
  json_eq_refl (boolean false) d = refl
  json_eq_refl (int n) d = int_eq_refl (scale 1 n)
  json_eq_refl (float m k) d = int_eq_refl (scale _ m)
  json_eq_refl (str s) d = eq_refl s
  json_eq_refl (arr xs) d = items_eq_refl xs d
  json_eq_refl (dict f) d = rw (fields_eq-Within f f d (Within-refl f d)) (ground arith)

  items_eq_refl : (xs : Items) → IsDistinctItems xs → items_eq xs xs ≡ true
  items_eq_refl nil d = refl
  items_eq_refl (cons x xs) d = rw (json_eq_refl x d.0) (items_eq_refl xs d.1)

  fields_eq-Within : (f g : Fields) → IsDistinctFields f → Within f g → fields_eq f g ≡ true
  fields_eq-Within end g d h = refl
  fields_eq-Within (field k v f) g d h =
      ground (arith, h.0, json_eq_refl v d.1, fields_eq-Within f g d.2 h.1)
