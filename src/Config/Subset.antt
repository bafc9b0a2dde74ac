-- ===== src/Config/Subset.antt =====
-- `is_dict_subset`: an independent description, and when it is reflexive.
use pf9_du.Prelude.{
  String, ◌≡◌, ◌↔◌, refl, Bool, true, false, ◌&&◌, none, some, arith, eq_iff, eq_refl, ◌==◌,
  Option-cases, Bool-cases, inl, inr,
}
use pf9_du.Json.{
  Json, Fields, null, boolean, int, float, str, arr, dict, end, field, lookup, json_eq,
}
use pf9_du.Json.Laws.{
  IsDistinct, IsDistinctFields, Within, Within-refl, json_eq_refl, has_key-lookup,
}
use pf9_du.Config.{is_dict_subset, subset_fields, subset_value}

-- What a value is matched by: a text, number or boolean by an equal value, a dictionary by a dictionary
-- of which it is a subset, a list or a null by nothing.
abbrev pub Matches : Json → Json → Type 0
Matches null w = ⊥
Matches (arr xs) w = ⊥
Matches (dict f) w = (g : Fields) × (w ≡ dict g) × (is_dict_subset (dict f) (dict g) ≡ true)
Matches v w = json_eq v w ≡ true

-- Each entry of `f` has, at the same key of `g`, a value that it is matched by.
abbrev pub Matched : Fields → Fields → Type 0
Matched f g =
    (k : String) (v : Json) → lookup k f ≡ some v → (w : Json) × (lookup k g ≡ some w) × Matches v w

subset_fields-found :
    (j : String) (u w : Json) (f g : Fields)
    → lookup j g ≡ some w
    → subset_fields (field j u f) g ≡ (subset_value u w && subset_fields f g)
unfolding subset_fields
subset_fields-found j u w f g e = rw (e, subset_fields) refl

subset_fields-absent :
    (j : String) (u : Json) (f g : Fields)
    → lookup j g ≡ none
    → subset_fields (field j u f) g ≡ false
unfolding subset_fields
subset_fields-absent j u f g e = rw (e, subset_fields) refl

subset_value-Matches : (v w : Json) → subset_value v w ≡ true → Matches v w
unfolding subset_value is_dict_subset
subset_value-Matches (dict f) (dict g) h = (g, refl, h)
subset_value-Matches null w h = cc
subset_value-Matches (arr xs) w h = cc
subset_value-Matches (dict f) w h = cc
subset_value-Matches (boolean b) w h = h
subset_value-Matches (int n) w h = h
subset_value-Matches (float m e) w h = h
subset_value-Matches (str s) w h = h

Matches-subset_value : (v w : Json) → Matches v w → subset_value v w ≡ true
unfolding subset_value is_dict_subset
Matches-subset_value null w m = elim m [ ]
Matches-subset_value (arr xs) w m = elim m [ ]
Matches-subset_value (dict f) w (g, same, h) = rw same h
Matches-subset_value (boolean b) w h = h
Matches-subset_value (int n) w h = h
Matches-subset_value (float m e) w h = h
Matches-subset_value (str s) w h = h

subset_fields-Matched : (f g : Fields) → subset_fields f g ≡ true → Matched f g
unfolding lookup
subset_fields-Matched end g h k v e = cc
subset_fields-Matched (field j u f) g h k v e = elim (Option-cases (lookup j g)) [
  | inl absent ↦ cc (h, subset_fields-absent j u f g absent)
  | inr (w, found) ↦ elim (Bool-cases (j == k)) [
    | inl same ↦ (
      w,
      ground (arith, eq_iff j k),
      let same_value : u ≡ v = ground (arith, e) in
          rw (← same_value)
            (subset_value-Matches u w (ground (arith, subset_fields-found j u w f g found))),
    )
    | inr other ↦
        subset_fields-Matched f g (ground (arith, subset_fields-found j u w f g found)) k v
          (ground arith)
  ]
]

Matched-subset_fields : (f g : Fields) → IsDistinctFields f → Matched f g → subset_fields f g ≡ true
unfolding subset_fields lookup
Matched-subset_fields end g d m = refl
Matched-subset_fields (field j u f) g d m =
    let (w, found, matching) = m j u (simp eq_refl) in
    let fits = Matches-subset_value u w matching in
    let rest : Matched f g =
      λ k v e. m k v (ground (arith, e, d.0, eq_iff j k, has_key-lookup j f)) in
    ground (arith, found, fits, Matched-subset_fields f g d.2 rest)

-- Whether `is_dict_subset` supports the types of all values in it.
abbrev mutual
  pub supported : Json → Bool
  supported null = false
  supported (arr xs) = false
  supported (dict f) = supported_fields f
  supported _ = true

  pub supported_fields : Fields → Bool
  supported_fields end = true
  supported_fields (field k v f) = supported v && supported_fields f

mutual
  unfolding subset_value

  subset_value_refl : (v : Json) → IsDistinct v → subset_value v v ≡ supported v
  subset_value_refl null d = refl
  subset_value_refl (arr xs) d = refl
  subset_value_refl (dict f) d = subset_fields-Within f f d (Within-refl f d)
  subset_value_refl (boolean b) d = json_eq_refl (boolean b) tt
  subset_value_refl (int n) d = json_eq_refl (int n) tt
  subset_value_refl (float m k) d = json_eq_refl (float m k) tt
  subset_value_refl (str s) d = json_eq_refl (str s) tt

  pub subset_fields-Within :
      (f g : Fields) → IsDistinctFields f → Within f g → subset_fields f g ≡ supported_fields f
  subset_fields-Within end g d h = refl
  subset_fields-Within (field k v f) g d h =
      ground (arith, h.0, subset_value_refl v d.1, subset_fields-Within f g d.2 h.1)

-- A dictionary whose keys differ is a subset of another exactly when every key of it has, in the
-- other, a value that its own is matched by: an equal one, or, for a dictionary, one of which it is a
-- subset. A list or a null is matched by nothing.
pub is_dict_subset_iff :
    (f g : Fields) → IsDistinctFields f → (is_dict_subset (dict f) (dict g) ≡ true) ↔ Matched f g
unfolding is_dict_subset
is_dict_subset_iff f g d = (subset_fields-Matched f g, Matched-subset_fields f g d)

-- A dictionary is a subset of itself exactly when it holds, at any depth of dictionaries, no list
-- and no null.
is_dict_subset_refl :
    (f : Fields) → IsDistinctFields f → is_dict_subset (dict f) (dict f) ≡ supported_fields f
unfolding is_dict_subset
is_dict_subset_refl f d = subset_fields-Within f f d (Within-refl f d)
