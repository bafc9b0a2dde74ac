-- ===== src/Exec/Invariants.antt =====
-- Invariants of calls that read and write a state and may raise, whatever they return. No code of the
-- repository is modelled here.
use pf9_du.Prelude.{Bool, true, false, List, [], ◌∷◌, if◌then◌else◌}
use pf9_du.Result.{Error, Result, ok, err}
use pf9_du.Exec.{Exec, lift, gets, modify, handle, continue, try_except, for_each, ◌>>=◌}

-- `P` is an invariant of the call.
pub record Preserves {S : Type 0} (P : S → Type 0) {A : Type 0} (m : Exec S A) : Type 0 where
  pub at : (s : S) → P s → P (m s).1

module _ {S : Type 0} {P : S → Type 0} where
  pub Preserves-bind :
      {A B : Type 0} (m : Exec S A) (f : A → Exec S B)
      → Preserves P m
      → ((a : A) → Preserves P (f a))
      → Preserves P (m >>= f)
  Preserves-bind m f pm pf = record { at = λ s p. let (r, s') = m s in after r s' (pm.at s p) }
    where
      after : (r : Result _) (s' : S) → P s' → P (continue r f s').1
      after (ok a) s' p = (pf a).at s' p
      after (err e) s' p = p

  pub Preserves-try :
      {A : Type 0} (m : Exec S A) (h : Error → Exec S A)
      → Preserves P m
      → ((e : Error) → Preserves P (h e))
      → Preserves P (try_except m h)
  Preserves-try m h pm ph = record { at = λ s p. let (r, s') = m s in after r s' (pm.at s p) }
    where
      after : (r : Result _) (s' : S) → P s' → P (handle r h s').1
      after (ok a) s' p = p
      after (err e) s' p = (ph e).at s' p

  pub Preserves-lift : {A : Type 0} (r : Result A) → Preserves P (lift {S = S} r)
  Preserves-lift r = record { at = λ s p. p }

  pub Preserves-gets : {A : Type 0} (f : S → A) → Preserves P (gets f)
  Preserves-gets f = record { at = λ s p. p }

  pub Preserves-if :
      {A : Type 0} (b : Bool) (x y : Exec S A)
      → Preserves P x
      → Preserves P y
      → Preserves P (if b then x else y)
  Preserves-if true x y px py = px
  Preserves-if false x y px py = py

  pub Preserves-modify : (f : S → S) → ((s : S) → P s → P (f s)) → Preserves P (modify f)
  Preserves-modify f k = record { at = k }

  pub Preserves-for_each :
      {A : Type 0} (l : List A) (body : A → Exec S (Unit {0}))
      → ((a : A) → Preserves P (body a))
      → Preserves P (for_each l body)
  unfolding for_each
  Preserves-for_each [] body k = Preserves-lift (ok tt)
  Preserves-for_each (a ∷ l) body k =
      Preserves-bind (body a) _ (k a) λ _. Preserves-for_each l body k
