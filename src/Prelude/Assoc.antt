-- ===== src/Prelude/Assoc.antt =====
-- Python dictionaries with values of one type, as association lists.
use Prim.Native.String.{String}
use mathlib.Core.Path.{◌≡◌, refl}
use mathlib.Core.Option.{Option, none, some}
use mathlib.Core.Bool.{false}
use mathlib.Core.List.{List, [], ◌∷◌, ◌++◌}
use native.Mathlib.Omega.{arith}
use text.Mathlib.Text.{◌==◌}
use text.Mathlib.TextEquality.{eq_iff}
use pf9_du.Prelude.Tests.{if◌then◌else◌}
use pf9_du.Prelude.Lists.{All}

abbrev pub Assoc {ℓ} : Type ℓ → Type ℓ
Assoc A = List (String × A)

module _ {ℓ} {A : Type ℓ} where
  -- `d.get(k)`
  unfoldable pub get : String → Assoc A → Option A
  get k [] = none
  get k ((j, a) ∷ d) = if j == k then some a else get k d

  -- `d[k] = a`
  unfoldable pub put : String → A → Assoc A → Assoc A
  put k a [] = (k, a) ∷ []
  put k a ((j, b) ∷ d) = let rest = put k a d in if j == k then (j, a) ∷ d else (j, b) ∷ rest

  -- `d.pop(k, None)`
  unfoldable pub without : String → Assoc A → Assoc A
  without k [] = []
  without k ((j, b) ∷ d) = let rest = without k d in if j == k then rest else (j, b) ∷ rest

  pub get-put :
      (k j : String) (a : A) (d : Assoc A)
      → get j (put k a d) ≡ (if k == j then some a else get j d)
  unfolding get put
  get-put k j a [] = refl
  get-put k j a ((i, b) ∷ d) = ground (arith, get-put k j a d, eq_iff i k, eq_iff i j, eq_iff k j)

  pub get-without :
      (k j : String) (d : Assoc A) → get j (without k d) ≡ (if k == j then none else get j d)
  unfolding get without
  get-without k j [] = ground arith
  get-without k j ((i, b) ∷ d) =
      ground (arith, get-without k j d, eq_iff i k, eq_iff i j, eq_iff k j)

  pub put-fresh :
      (k : String) (a : A) (d : Assoc A)
      → All (λ e. (e.0 == k) ≡ false) d
      → put k a d ≡ d ++ (k, a) ∷ []
  unfolding put
  put-fresh k a [] h = refl
  put-fresh k a ((j, b) ∷ d) h = rw (h.0, put-fresh k a d h.1)
