-- ===== src/Exec/Returns.antt =====
-- What holds of the value and the state of a call that returns. No code of the repository is modelled
-- here.
use pf9_du.Result.{Error, Result, ok, err}
use pf9_du.Exec.{Exec, continue, handle, try_except, ◌>>=◌}

-- `Q` holds if the call returns.
abbrev pub OnOk : {S A : Type 0} → (A → S → Type 0) → Result A × S → Type 0
OnOk Q (ok a, s) = Q a s
OnOk Q (err e, s) = Unit

module _ {S A : Type 0} where
  pub OnOk-mono :
      (P Q : A → S → Type 0)
      → ((a : A) (s : S) → P a s → Q a s)
      → (o : Result A × S) → OnOk P o
      → OnOk Q o
  OnOk-mono P Q f (ok a, s) h = f a s h
  OnOk-mono P Q f (err e, s) h = tt

  pub OnOk-bind :
      {B : Type 0} (P : A → S → Type 0) (Q : B → S → Type 0) (m : Exec S A) (f : A → Exec S B)
      (s : S)
      → OnOk P (m s)
      → ((a : A) (t : S) → P a t → OnOk Q (f a t))
      → OnOk Q ((m >>= f) s)
  OnOk-bind P Q m f s h k = let (r, t) = m s in after r t h
    where
      after : (r : Result A) (t : S) → OnOk P (r, t) → OnOk Q (continue r f t)
      after (ok a) t p = k a t p
      after (err e) t p = tt

  pub OnOk-always : (P : S → Type 0) (o : Result A × S) → P o.1 → OnOk (λ (_ : A) s. P s) o
  OnOk-always P (ok a, s) h = h
  OnOk-always P (err e, s) h = tt

  pub OnOk-try :
      (P : A → S → Type 0) (m : Exec S A) (h : Error → Exec S A) (s : S)
      → OnOk P (m s)
      → ((e : Error) → OnOk P (h e (m s).1))
      → OnOk P (try_except m h s)
  OnOk-try P m h s p k = let (r, t) = m s in after r t p k
    where
      after :
          (r : Result A) (t : S)
          → OnOk P (r, t)
          → ((e : Error) → OnOk P (h e t))
          → OnOk P (handle r h t)
      after (ok a) t p k = p
      after (err e) t p k = k e

-- A call that returns has a value of which `Q` holds.
pub record ReturnsOnly {S A : Type 0} (Q : A → Type 0) (m : Exec S A) : Type 0 where
  pub at : (s : S) → OnOk (λ a t. Q a) (m s)

module _ {S B : Type 0} {Q : B → Type 0} where
  pub ReturnsOnly-bind :
      {A : Type 0} (m : Exec S A) (f : A → Exec S B)
      → ((a : A) → ReturnsOnly Q (f a))
      → ReturnsOnly Q (m >>= f)
  ReturnsOnly-bind m f k = record { at = λ s. let (r, t) = m s in after r t }
    where
      after : (r : Result _) (t : S) → OnOk (λ b u. Q b) (continue r f t)
      after (ok a) t = (k a).at t
      after (err e) t = tt

  pub ReturnsOnly-pure : (b : B) → Q b → ReturnsOnly {S = S} Q (λ s. (ok b, s))
  ReturnsOnly-pure b q = record { at = λ s. q }
