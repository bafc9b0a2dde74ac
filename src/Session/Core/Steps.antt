-- ===== src/Session/Core/Steps.antt =====
-- The abstract session: a counter of attempts. `handle_msg` of bbone/bbslave/bbslave/session.py is
-- shown to take only its steps.
use pf9_du.Prelude.{
  ℕ, ◌+◌, String, ◌≡◌, refl, ap, ◌⊎◌, inl, inr, Bool, true, false, Option, none, some, leb,
  Bool-cases,
}
use pf9_du.Json.{Json, Fields, null, dict}
use pf9_du.Result.{Error, Result, ok, err}
use pf9_du.Exec.{Exec, lift, continue, raise, gets, modify, ◌>>=◌, ◌>>◌}
use pf9_du.Session.{
  Host, Agent, ask, tell, unlink_if, write_part_file, rename_part_file, save_desired_config,
}
use pf9_du.Session.Messages.{
  Attempt, converge, try_to_converge, when_valid, finish, handle_iaas_3166, satisfied, seen_current,
}
use pf9_du.Exec.Invariants.{Preserves, Preserves-bind, Preserves-try, Preserves-lift}
use pf9_du.Session.Core.{
  Core, core, KeepsCore, KeepsCore-Preserves, KeepsCore-tell, KeepsCore-lift, KeepsCore-ask,
  KeepsCore-bind, KeepsCore-gets, KeepsCore-modify, send_status-KeepsCore,
}
use pf9_du.Session.Core.Attempts.{Tried, converge-Tried}

-- One step from `c` to `c'`: the count stays or, where that is allowed, is reset; then nothing happens,
-- or the count is below the limit and an attempt is counted. The applications change only in an
-- attempt, and the pending bundle never.
pub record Step (max : ℕ) (resets : Bool) (c c' : Core) : Type 0 where
  pub start : ℕ
  pub from : (start ≡ c.attempts) ⊎ ((resets ≡ true) × (start ≡ 0))
  pub pending : c'.pending ≡ c.pending
  pub attempt :
      ((c'.attempts ≡ start) × (c'.changes ≡ c.changes))
      ⊎ ((leb max start ≡ false) × (c'.attempts ≡ start + 1))

pub Step-same : (max : ℕ) (b : Bool) (c c' : Core) → c' ≡ c → Step max b c c'
Step-same max b c c' e = record {
  start = c.attempts;
  from = inl refl;
  pending = ap (λ x. x.pending) e;
  attempt = inl (ap (λ x. x.attempts) e, ap (λ x. x.changes) e);
}

abbrev with_file : Option String → Core → Core
with_file f c = record c { desired_file = f }

Step-Tried :
    (max : ℕ) (b : Bool) (c c' : Core) → leb max c.attempts ≡ false → Tried c c' → Step max b c c'
Step-Tried max b c c' below (l, e) = record {
  start = c.attempts;
  from = inl refl;
  pending = ap (λ x. x.pending) e;
  attempt = inr (below, ap (λ x. x.attempts) e);
}

Step-with_file :
    (max : ℕ) (b : Bool) (f : Option String) (c c' : Core)
    → Step max b (with_file f c) c'
    → Step max b c c'
Step-with_file max b f c c' t = record {
  start = t.start;
  from = t.from;
  pending = t.pending;
  attempt = t.attempt;
}

abbrev Saved : Core → Core → Type 0
Saved c c' = (f : Option String) × (c' ≡ with_file f c)

module _ (h : Host) (c : Core) where
  -- The core is `c`, and a step has been taken after the call.
  pub record Steps (m : Exec Agent (Unit {0})) : Type 0 where
    pub at : (s : Agent) → core s ≡ c → Step h.max_converge_attempts false c (core (m s).1)

  Steps-KeepsCore : (m : Exec Agent (Unit {0})) → KeepsCore m → Steps m
  Steps-KeepsCore m k = record { at = λ s e. Step-same _ _ _ _ ((k c).at s e) }

  converge-Steps :
      (current desired : Fields)
      → leb h.max_converge_attempts c.attempts ≡ false
      → Steps (converge h current desired)
  converge-Steps current desired below = record {
    at = λ s e. decided (converge-Tried h c current desired s e);
  }
    where
      decided : {c' : Core} → (c' ≡ c) ⊎ Tried c c' → Step h.max_converge_attempts false c c'
      decided (inl same) = Step-same _ _ _ _ same
      decided (inr t) = Step-Tried _ _ _ _ below t

  try_to_converge-Steps :
      (current desired : Fields) (n : ℕ)
      → n ≡ c.attempts
      → Steps (try_to_converge h current desired n)
  try_to_converge-Steps current desired n e = elim (Bool-cases (leb h.max_converge_attempts n)) [
    | inl full ↦
        rw full (Steps-KeepsCore _ (send_status-KeepsCore h "failed" current (dict desired)))
    | inr below ↦ rw below (converge-Steps current desired (cc (below, e)))
  ]

  when_valid-Steps :
      (current desired : Fields) (converged : Bool) → Steps (when_valid h current desired converged)
  when_valid-Steps current desired true =
      Steps-KeepsCore _ (send_status-KeepsCore h "ok" current null)
  when_valid-Steps current desired false = record {
    at = λ s e. (try_to_converge-Steps current desired _ (ap (λ x. x.attempts) e)).at s e;
  }

  Steps-lift-bind :
      {A : Type 0} (r : Result A) (f : A → Exec Agent (Unit {0}))
      → ((a : A) → Steps (f a))
      → Steps (lift r >>= f)
  Steps-lift-bind (ok a) f k = k a
  Steps-lift-bind (err e) f k = Steps-KeepsCore _ (KeepsCore-lift (err e))

module _ (h : Host) where
  unlink-Saved :
      (c : Core) (file : Option String) → Preserves (λ s. Saved c (core s)) (unlink_if h file)
  unlink-Saved c none = Preserves-lift (ok tt)
  unlink-Saved c (some text) =
      Preserves-bind (tell h.unlink_desired) _ (KeepsCore-Preserves (Saved c) _ (KeepsCore-tell _))
        λ _. record { at = λ s (f, e). (none, ap (with_file none) e) }

  write_part_file-KeepsCore : (text : String) → KeepsCore (write_part_file h text)
  unfolding write_part_file
  write_part_file-KeepsCore text =
      KeepsCore-bind (ask (λ n. ok (h.write_part n))) _ (KeepsCore-ask _)
        λ failed. KeepsCore-bind (gets (λ s. s.asked)) _ (KeepsCore-gets _) λ n. written failed n
    where
      written :
          (failed : Option Error) (n : ℕ)
          → KeepsCore (elim failed [
            | none ↦ modify (λ s. record s { part_file = some text })
            | some e ↦ (do modify (λ s. record s { part_file = h.part_of text n }); raise e)
          ])
      written none n = KeepsCore-modify _ λ s. refl
      written (some e) n =
          KeepsCore-bind (modify (λ s. record s { part_file = h.part_of text n })) _
            (KeepsCore-modify _ λ s. refl) λ _. KeepsCore-lift (err e)

  rename-Saved : (c : Core) → Preserves (λ s. Saved c (core s)) (rename_part_file h)
  unfolding rename_part_file
  rename-Saved c =
      Preserves-bind (tell h.rename_part) _ (KeepsCore-Preserves (Saved c) _ (KeepsCore-tell _))
        λ _. record { at = λ s (f, e). (s.part_file, ap (with_file s.part_file) e) }

  save-Saved :
      (c : Core) (desired : Json)
      → Preserves (λ s. Saved c (core s)) (save_desired_config h desired)
  unfolding save_desired_config
  save-Saved c null = record { at = λ s q. (unlink-Saved c s.desired_file).at s q }
  save-Saved c desired =
      Preserves-try _ _
        (Preserves-bind (write_part_file h (h.dumps desired)) _
          (KeepsCore-Preserves (Saved c) _ (write_part_file-KeepsCore (h.dumps desired)))
          λ _. rename-Saved c)
        λ e. Preserves-lift (ok tt)

  pub finish-Steps : (c : Core) (a : Attempt) → Steps h c (finish h a)
  unfolding finish
  finish-Steps c a =
      Steps-lift-bind h c (handle_iaas_3166 h.disable_iaas_1366_handling a.desired) _ λ desired.
        record {
          at = λ s e. after desired _ _ ((save-Saved c (dict desired)).at s (c.desired_file, e));
        }
    where
      last : Fields → Exec Agent (Unit {0})
      last desired = do
        _ ← lift (satisfied h desired (seen_current h a desired))
        when_valid h (seen_current h a desired) desired a.converged

      after :
          (desired : Fields) (r : Result (Unit {0})) (s1 : Agent)
          → Saved c (core s1)
          → Step h.max_converge_attempts false c (core (continue r (λ _. last desired) s1).1)
      after desired (err x) s1 (f, e) = Step-with_file _ _ f _ _ (Step-same _ _ _ _ e)
      after desired (ok _) s1 (f, e) = Step-with_file _ _ f _ _ (
          (Steps-lift-bind h (with_file f c) (satisfied h desired (seen_current h a desired)) _ λ _.
              when_valid-Steps h (with_file f c) (seen_current h a desired) desired a.converged).at
            s1 e)
