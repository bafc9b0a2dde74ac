-- ===== src/Config/Satisfied.antt =====
-- Which configurations satisfy themselves.
use pf9_du.Prelude.{
  String, Bool-cases, inl, inr, ◌≡◌, refl, Bool, true, false, ◌&&◌, some, List, [], ◌∷◌, arith,
  ◌==◌, if◌then◌else◌,
}
use pf9_du.Json.{Fields, dict, end, field, has_key, remove, same_keys, keys_within}
use pf9_du.Json.Laws.{IsDistinctFields, Within, Within-refl, lookup-remove, has_key-lookup}
use pf9_du.Result.{ok}
use pf9_du.Config.{
  is_dict_subset, subset_fields, ignored_keys, strip_fields, strip, specs_satisfied,
  is_satisfied_by,
}
use pf9_du.Config.Subset.{supported_fields, subset_fields-Within}

-- Every application's specification is a dictionary.
abbrev pub all_dicts : Fields → Bool
all_dicts end = true
all_dicts (field k (dict spec) f) = all_dicts f
all_dicts (field k _ f) = false

-- Whether, of each specification, the parts that are compared hold no list and no null.
abbrev pub all_supported : Fields → Bool
all_supported end = true
all_supported (field k (dict spec) f) =
    supported_fields (strip_fields ignored_keys spec) && all_supported f
all_supported (field k _ f) = all_supported f

Within-remove : (k : String) (f g : Fields) → Within f g → Within (remove k f) g
unfolding remove
Within-remove k end g h = tt
Within-remove k (field j v f) g h = elim (Bool-cases (j == k)) [
  | inl same ↦ rw same (Within-remove k f g h.1)
  | inr other ↦ rw other (h.0, Within-remove k f g h.1)
]

has_key-remove : (i k : String) (f : Fields) → has_key i f ≡ false → has_key i (remove k f) ≡ false
has_key-remove i k f h =
    ground (arith, has_key-lookup i f, has_key-lookup i (remove k f), lookup-remove k i f)

IsDistinct-remove : (k : String) (f : Fields) → IsDistinctFields f → IsDistinctFields (remove k f)
unfolding remove
IsDistinct-remove k end d = tt
IsDistinct-remove k (field j v f) d = elim (Bool-cases (j == k)) [
  | inl same ↦ rw same (IsDistinct-remove k f d.2)
  | inr other ↦ rw other (has_key-remove j k f d.0, d.1, IsDistinct-remove k f d.2)
]

strip-subset :
    (ks : List String) (f g : Fields)
    → IsDistinctFields f
    → Within f g
    → subset_fields (strip_fields ks f) g ≡ supported_fields (strip_fields ks f)
unfolding strip_fields
strip-subset [] f g d h = subset_fields-Within f g d h
strip-subset (k ∷ ks) f g d h =
    strip-subset ks (remove k f) g (IsDistinct-remove k f d) (Within-remove k f g h)

both : (b c : Bool) → (if b then ok c else ok false) ≡ ok (b && c)
both true c = refl
both false c = refl

specs_satisfied-Within :
    (f g : Fields)
    → IsDistinctFields f
    → Within f g
    → all_dicts f ≡ true
    → specs_satisfied f g ≡ ok (all_supported f)
unfolding specs_satisfied strip is_dict_subset
specs_satisfied-Within end g d h a = refl
specs_satisfied-Within (field k (dict spec) f) g d h a =
    rw
      (
        h.0,
        strip-subset ignored_keys spec spec d.1 (Within-refl spec d.1),
        specs_satisfied-Within f g d.2 h.1 a,
      )
      (both (supported_fields (strip_fields ignored_keys spec)) (all_supported f))
specs_satisfied-Within (field k _ f) g d h a = cc

keys_within-Within : (f g : Fields) → Within f g → keys_within f g ≡ true
unfolding keys_within
keys_within-Within end g h = refl
keys_within-Within (field k v f) g h =
    ground (arith, h.0, has_key-lookup k g, keys_within-Within f g h.1)

-- A configuration of dictionaries satisfies itself exactly when the parts that are compared, which
-- are all but those under the ignored keys, hold no list and no null at any depth of dictionaries.
pub is_satisfied_by_refl :
    (f : Fields)
    → IsDistinctFields f
    → all_dicts f ≡ true
    → is_satisfied_by (some (dict f)) (dict f) ≡ ok (all_supported f)
unfolding is_satisfied_by same_keys
is_satisfied_by_refl f d a =
    rw (keys_within-Within f f (Within-refl f d))
      (ground (arith, specs_satisfied-Within f f d (Within-refl f d) a))
