-- ===== src/Json.antt =====
-- JSON values as Python holds them after `json.load`, with Python's `==` on them and the dictionary
-- operations that the program uses. A dictionary keeps its keys in insertion order.
pub mod Laws
use pf9_du.Prelude.{
  ℕ, zero, suc, ◌*◌, ◌^◌, String, Bool, true, false, ◌&&◌, ◌||◌, Option, none, some, List, [], ◌∷◌,
  ◌==◌, if◌then◌else◌, nat_eq,
}
use pf9_du.Prelude.Int.{ℤ, pos, int_eq, scale}

-- A float is `m / 2 ^ k`, which every finite one is. NaN and the infinities are not modelled.
mutual
  pub data Json : Type 0 where
    null : Json
    boolean : Bool → Json
    int : ℤ → Json
    float : ℤ → ℕ → Json
    str : String → Json
    arr : Items → Json
    dict : Fields → Json

  pub data Items : Type 0 where
    nil : Items
    cons : Json → Items → Items

  pub data Fields : Type 0 where
    end : Fields
    field : String → Json → Fields → Fields

-- `d.get(k)`
unfoldable pub lookup : String → Fields → Option Json
lookup k end = none
lookup k (field j v f) = if j == k then some v else lookup k f

-- `k in d`
unfoldable pub has_key : String → Fields → Bool
has_key k end = false
has_key k (field j v f) = j == k || has_key k f

-- `d[k] = v`: a key that is there keeps its place, a new one comes last.
unfoldable pub set_item : String → Json → Fields → Fields
set_item k v end = field k v end
set_item k v (field j w f) = if j == k then field j v f else field j w (set_item k v f)

-- `d.pop(k, None)`, `del d[k]`
unfoldable pub remove : String → Fields → Fields
remove k end = end
remove k (field j v f) = let rest = remove k f in if j == k then rest else field j v rest

-- `d.update(e)`
unfoldable pub update : Fields → Fields → Fields
unfolding set_item
update f end = f
update f (field k v g) = update (set_item k v f) g

-- `d.keys()`
unfoldable pub keys : Fields → List String
keys end = []
keys (field k v f) = k ∷ keys f

-- `len(d)`
unfoldable pub size : Fields → ℕ
size end = 0
size (field k v f) = suc (size f)

-- `set(d.keys()) <= set(e.keys())`
unfoldable pub keys_within : Fields → Fields → Bool
unfolding has_key
keys_within end g = true
keys_within (field k v f) g = has_key k g && keys_within f g

-- `set(d.keys()) == set(e.keys())`
unfoldable pub same_keys : Fields → Fields → Bool
unfolding keys_within
same_keys f g = keys_within f g && keys_within g f

-- `bool(v)`
unfoldable pub truthy : Json → Bool
truthy null = false
truthy (boolean b) = b
truthy (int (pos zero)) = false
truthy (float (pos zero) k) = false
truthy (str s) = if s == "" then false else true
truthy (arr nil) = false
truthy (dict end) = false
truthy _ = true

-- A number as numerator and exponent; `True` and `False` are the numbers 1 and 0.
unfoldable pub as_number : Json → Option (ℤ × ℕ)
as_number (boolean true) = some (pos 1, 0)
as_number (boolean false) = some (pos 0, 0)
as_number (int n) = some (n, 0)
as_number (float m k) = some (m, k)
as_number _ = none

unfoldable pub same_number : Option (ℤ × ℕ) → Option (ℤ × ℕ) → Bool
same_number (some (m, j)) (some (n, k)) = int_eq (scale (2 ^ k) m) (scale (2 ^ j) n)
same_number _ _ = false

-- `==`. Dictionaries are equal if they are of one size and each key of one has an equal value in
-- the other.
unfoldable mutual
  unfolding as_number same_number lookup size

  pub json_eq : Json → Json → Bool
  json_eq null null = true
  json_eq (str s) (str t) = s == t
  json_eq (arr xs) (arr ys) = items_eq xs ys
  json_eq (dict f) (dict g) = nat_eq (size f) (size g) && fields_eq f g
  json_eq (boolean b) w = same_number (as_number (boolean b)) (as_number w)
  json_eq (int n) w = same_number (as_number (int n)) (as_number w)
  json_eq (float m k) w = same_number (as_number (float m k)) (as_number w)
  json_eq _ _ = false

  pub items_eq : Items → Items → Bool
  items_eq nil nil = true
  items_eq (cons x xs) (cons y ys) = json_eq x y && items_eq xs ys
  items_eq _ _ = false

  pub fields_eq : Fields → Fields → Bool
  fields_eq end g = true
  fields_eq (field k v f) g = elim (lookup k g) [
    | none ↦ false
    | some w ↦ json_eq v w && fields_eq f g
  ]
