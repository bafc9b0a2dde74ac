-- ===== src/Prelude/Texts.antt =====
-- Texts: Python's `+`, under a name of its own beside the `++` of lists, and prefixes.
use Prim.Native.Char.{code}
use Prim.Native.String.{String, ◌++◌}
use mathlib.Core.Path.{◌≡◌, ap}
use mathlib.Core.Bool.{Bool, true, false}
use mathlib.Core.Logic.{inl, inr}
use mathlib.Core.Option.{Option, none, some}
use native.Mathlib.Omega.{arith}
use text.Mathlib.TextLemmas.{nil-append, cons-append}
use pf9_du.Prelude.Tests.{nat_eq, if◌then◌else◌, Bool-cases}

abbrev pub join : String → String → String
join s t = s ++ t

-- What follows a prefix of a text.
abbrev pub after_prefix : String → String → Option String
after_prefix String.[] s = some s
after_prefix (String.◌∷◌ c p) String.[] = none
after_prefix (String.◌∷◌ c p) (String.◌∷◌ d s) =
    let rest = after_prefix p s in if nat_eq (code c) (code d) then rest else none

pub after_prefix-join : (p s : String) → after_prefix p (join p s) ≡ some s
after_prefix-join String.[] s = ap some (nil-append s)
after_prefix-join (String.◌∷◌ c p) s =
    let same : nat_eq (code c) (code c) ≡ true = ground arith in
    rw (cons-append c p s, same) (after_prefix-join p s)

-- The texts differ at some place that both have.
abbrev pub clash : String → String → Bool
clash String.[] q = false
clash (String.◌∷◌ c p) String.[] = false
clash (String.◌∷◌ c p) (String.◌∷◌ d q) =
    let rest = clash p q in if nat_eq (code c) (code d) then rest else true

pub after_prefix-clash : (p q s : String) → clash p q ≡ true → after_prefix p (join q s) ≡ none
after_prefix-clash String.[] q s h = cc
after_prefix-clash (String.◌∷◌ c p) String.[] s h = cc
after_prefix-clash (String.◌∷◌ c p) (String.◌∷◌ d q) s h =
    rw (cons-append d q s) (elim (Bool-cases (nat_eq (code c) (code d))) [
      | inl e ↦ rw e (after_prefix-clash p q s (rw e at h))
      | inr e ↦ rw e
    ])
