-- ===== src/Apps/Quiet.antt =====
-- Parts of a real run and of a probe: what follows for the real one where the probe counts nothing.
use pf9_du.Prelude.{ℕ, ◌+◌, ◌≡◌, refl, ap, ◌∙◌, Bool, true, false, arith, if◌then◌else◌}
use pf9_du.Result.{Result, ok, err}
use pf9_du.Exec.{Exec, ◌>>=◌, continue, lift, pure}
use pf9_du.Apps.Calls.{Run}
use pf9_du.Apps.Probe.{changes_made}

-- Where the probe counts nothing, the real run returns zero and makes no change.
pub record Idles (real probe : Exec Run ℕ) : Type 0 where
  pub at :
      (s s' : Run)
      → (probe s').0 ≡ ok 0
      → ((real s).0 ≡ ok 0) × (changes_made (real s).1 ≡ changes_made s)

pub Idles-lift-bind :
    {A : Type 0} (r : Result A) (f g : A → Exec Run ℕ)
    → ((a : A) → Idles (f a) (g a))
    → Idles (lift r >>= f) (lift r >>= g)
Idles-lift-bind (ok a) f g next = record { at = λ s s' h. (next a).at s s' h }
Idles-lift-bind (err e) f g next = record { at = λ s s' h. cc }

abbrev pub value : Result ℕ → ℕ
value (ok n) = n
value (err e) = 0

never : (n : ℕ) → ok (1 + n) ≡ ok 0 → {A : Type 0} → A
never n h = let impossible : 1 + n ≡ 0 = ap value h in absurd (omega (arith, impossible))

-- A part that is never idle: its probe counts at least one.
pub Idles-suc : (real probe : Exec Run ℕ) → Idles real (probe >>= λ n. pure (1 + n))
Idles-suc real probe = record { at = λ s s' h. counted (probe s').0 (probe s').1 h }
  where
    counted :
        {A : Type 0} (r : Result ℕ) (s1 : Run)
        → (continue {S = Run} r (λ n. pure (1 + n)) s1).0 ≡ ok 0
        → A
    counted (ok n) s1 h = never n h
    counted (err e) s1 h = cc

pub Idles-one : (real : Exec Run ℕ) → Idles real (pure 1)
Idles-one real = record { at = λ s s' h. never 0 h }

pub Idles-none : Idles (pure 0) (pure 0)
Idles-none = record { at = λ s s' h. (refl, refl) }

pub Idles-if :
    (b : Bool) (x y x' y' : Exec Run ℕ)
    → Idles x x'
    → Idles y y'
    → Idles (if b then x else y) (if b then x' else y')
Idles-if true x y x' y' first second = first
Idles-if false x y x' y' first second = second

sum_zero : (n k : ℕ) → ok (n + k) ≡ ok 0 → (n ≡ 0) × (k ≡ 0)
sum_zero n k h = (omega (arith, injected), omega (arith, injected))
  where
    injected : n + k ≡ 0
    injected = cc

-- What follows a count `n` and adds to it.
pub record Adds (f g : ℕ → Exec Run ℕ) : Type 0 where
  pub at :
      (n : ℕ) (s s' : Run)
      → (g n s').0 ≡ ok 0
      → (n ≡ 0) × ((f 0 s).0 ≡ ok 0) × (changes_made (f 0 s).1 ≡ changes_made s)

pub Adds-lift-bind :
    {A : Type 0} (r : Result A) (f g : ℕ → A → Exec Run ℕ)
    → ((a : A) → Adds (λ n. f n a) (λ n. g n a))
    → Adds (λ n. lift r >>= f n) (λ n. lift r >>= g n)
Adds-lift-bind (ok a) f g next = record { at = λ n s s' h. (next a).at n s s' h }
Adds-lift-bind (err e) f g next = record { at = λ n s s' h. cc }

pub Adds-last :
    (next next_probe : Exec Run ℕ)
    → Idles next next_probe
    → Adds (λ n. next >>= λ k. pure (n + k)) (λ n. next_probe >>= λ k. pure (n + k))
Adds-last next next_probe second = record { at = λ n s s' h. last n s _ _ (second.at s s') h }
  where
    last :
        (n : ℕ) (s : Run) (r' : Result ℕ) (s1' : Run)
        → (r' ≡ ok 0 → ((next s).0 ≡ ok 0) × (changes_made (next s).1 ≡ changes_made s))
        → (continue {S = Run} r' (λ k. pure (n + k)) s1').0 ≡ ok 0
        → (n ≡ 0)
          × (((next >>= λ k. pure (0 + k)) s).0 ≡ ok 0)
          × (changes_made ((next >>= λ k. pure (0 + k)) s).1 ≡ changes_made s)
    last n s (ok k) s1' next_at h =
        let (n0, k0) = sum_zero n k h in let (r, t) = next_at (cc k0) in (n0, rw r refl, rw r t)
    last n s (err e) s1' next_at h = cc

pub Idles-then :
    (real probe : Exec Run ℕ) (f g : ℕ → Exec Run ℕ)
    → Idles real probe
    → Adds f g
    → Idles (real >>= f) (probe >>= g)
Idles-then real probe f g first second = record { at = λ s s' h. go s _ _ (first.at s s') h }
  where
    go :
        (s : Run) (r' : Result ℕ) (s1' : Run)
        → (r' ≡ ok 0 → ((real s).0 ≡ ok 0) × (changes_made (real s).1 ≡ changes_made s))
        → (continue r' g s1').0 ≡ ok 0
        → (((real >>= f) s).0 ≡ ok 0) × (changes_made ((real >>= f) s).1 ≡ changes_made s)
    go s (err e) s1' real_at h = cc
    go s (ok n) s1' real_at h =
        let (n0, next_zero, kept) = second.at n (real s).1 s1' h in
        let (real_zero, first_kept) = real_at (cc n0) in
        (rw real_zero next_zero, rw real_zero (kept ∙ first_kept))

-- Two more parts that follow a count.
pub Adds-two :
    (x x' y y' : Exec Run ℕ)
    → Idles x x'
    → Idles y y'
    → Adds
        (λ d. x >>= λ n. y >>= λ k. pure (d + (n + k)))
        (λ d. x' >>= λ n. y' >>= λ k. pure (d + (n + k)))
Adds-two x x' y y' first second = record { at = λ d s s' h. go d s _ _ (first.at s s') h }
  where
    last :
        (d n : ℕ) (s : Run) (r' : Result ℕ) (s1' : Run)
        → (r' ≡ ok 0 → ((y s).0 ≡ ok 0) × (changes_made (y s).1 ≡ changes_made s))
        → (continue {S = Run} r' (λ k. pure (d + (n + k))) s1').0 ≡ ok 0
        → (d ≡ 0)
          × (n ≡ 0)
          × (((y >>= λ k. pure (0 + (0 + k))) s).0 ≡ ok 0)
          × (changes_made ((y >>= λ k. pure (0 + (0 + k))) s).1 ≡ changes_made s)
    last d n s (ok k) s1' next_at h =
        let (d0, rest) = sum_zero d (n + k) h in
        let (n0, k0) = sum_zero n k (cc rest) in
        let (r, t) = next_at (cc k0) in (d0, n0, rw r refl, rw r t)
    last d n s (err e) s1' next_at h = cc

    go :
        (d : ℕ) (s : Run) (r' : Result ℕ) (s1' : Run)
        → (r' ≡ ok 0 → ((x s).0 ≡ ok 0) × (changes_made (x s).1 ≡ changes_made s))
        → (continue r' (λ n. y' >>= λ k. pure (d + (n + k))) s1').0 ≡ ok 0
        → (d ≡ 0)
          × (((x >>= λ n. y >>= λ k. pure (0 + (n + k))) s).0 ≡ ok 0)
          × (changes_made ((x >>= λ n. y >>= λ k. pure (0 + (n + k))) s).1 ≡ changes_made s)
    go d s (err e) s1' x_at h = cc
    go d s (ok n) s1' x_at h =
        let (d0, n0, zero, kept) = last d n (x s).1 _ _ (second.at (x s).1 s1') h in
        let (x_zero, x_kept) = x_at (cc n0) in (d0, rw x_zero zero, rw x_zero (kept ∙ x_kept))
