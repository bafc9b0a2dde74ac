-- ===== src/DictSubst/Laws.antt =====
-- What `substitute` leaves: the keys, and no token, provided that the values put in hold none.
use pf9_du.Prelude.{
  String, ◌≡◌, refl, ap, Bool, true, ◌&&◌, not, some, arith, Option-cases, inl, inr, and_left,
  and_right,
}
use pf9_du.Json.{
  Json, Fields, null, boolean, int, float, str, arr, dict, end, field, lookup, has_key, keys,
}
use pf9_du.Json.Laws.{has_key-lookup}
use pf9_du.DictSubst.{substitute, substitute_value}

pub keys-substitute : (token_map f : Fields) → keys (substitute token_map f) ≡ keys f
unfolding keys substitute
keys-substitute token_map end = refl
keys-substitute token_map (field k v f) = cc (keys-substitute token_map f)

-- No text of the dictionaries in it is a token.
abbrev mutual
  pub token_free : Fields → Json → Bool
  token_free tokens (dict f) = token_free_fields tokens f
  token_free tokens (str s) = not (has_key s tokens)
  token_free tokens _ = true

  pub token_free_fields : Fields → Fields → Bool
  token_free_fields tokens end = true
  token_free_fields tokens (field k v f) = token_free tokens v && token_free_fields tokens f

module _ (tokens : Fields) where
  mutual
    unfolding substitute_value substitute

    value-token_free :
        (v : Json)
        → ((s : String) (w : Json) → lookup s tokens ≡ some w → token_free tokens w ≡ true)
        → token_free tokens (substitute_value tokens v) ≡ true
    value-token_free (dict f) clean = fields-token_free f clean
    value-token_free (str s) clean = elim (Option-cases (lookup s tokens)) [
      | inl absent ↦ rw absent (ground (arith, has_key-lookup s tokens))
      | inr (w, there) ↦ rw there (clean s w there)
    ]
    value-token_free null clean = refl
    value-token_free (boolean b) clean = refl
    value-token_free (int n) clean = refl
    value-token_free (float m k) clean = refl
    value-token_free (arr xs) clean = refl

    fields-token_free :
        (f : Fields)
        → ((s : String) (w : Json) → lookup s tokens ≡ some w → token_free tokens w ≡ true)
        → token_free_fields tokens (substitute tokens f) ≡ true
    fields-token_free end clean = refl
    fields-token_free (field k v f) clean =
        ground (arith, value-token_free v clean, fields-token_free f clean)

  -- Where no value to put in holds a token, no token is left at any depth of dictionaries.
  pub substitute-token_free :
      (f : Fields)
      → ((s : String) (w : Json) → lookup s tokens ≡ some w → token_free tokens w ≡ true)
      → token_free_fields tokens (substitute tokens f) ≡ true
  substitute-token_free = fields-token_free

  mutual
    unfolding substitute_value substitute

    substitute_value-same : (v : Json) → token_free tokens v ≡ true → substitute_value tokens v ≡ v
    substitute_value-same (dict f) h = ap dict (substitute-same f h)
    substitute_value-same (str s) h = elim (Option-cases (lookup s tokens)) [
      | inl absent ↦ rw absent refl
      | inr (w, there) ↦ ground (arith, has_key-lookup s tokens)
    ]
    substitute_value-same null h = refl
    substitute_value-same (boolean b) h = refl
    substitute_value-same (int n) h = refl
    substitute_value-same (float m k) h = refl
    substitute_value-same (arr xs) h = refl

    substitute-same : (f : Fields) → token_free_fields tokens f ≡ true → substitute tokens f ≡ f
    substitute-same end h = refl
    substitute-same (field k v f) h = cc (
      substitute_value-same v (and_left (token_free tokens v) (token_free_fields tokens f) h),
      substitute-same f (and_right (token_free tokens v) (token_free_fields tokens f) h),
    )

  -- Substituting leaves the keys as they are, and, where no value to put in holds a token, a second
  -- substitution changes nothing.
  substitute_idem :
      (f : Fields)
      → ((s : String) (w : Json) → lookup s tokens ≡ some w → token_free tokens w ≡ true)
      → (keys (substitute tokens f) ≡ keys f)
        × (substitute tokens (substitute tokens f) ≡ substitute tokens f)
  substitute_idem f clean = (
    keys-substitute tokens f,
    substitute-same (substitute tokens f) (substitute-token_free f clean),
  )
