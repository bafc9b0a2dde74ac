-- ===== src/Session/Core/Attempts.antt =====
-- What an attempt to converge does to the core: the second half of `handle_msg` in
-- bbone/bbslave/bbslave/session.py.
use pf9_du.Prelude.{
  ◌+◌, ◌≡◌, ap, ◌∙◌, ◌⊎◌, inl, inr, Bool, true, false, Option, none, some, List, if◌then◌else◌,
  nat_eq,
}
use pf9_du.Json.{Json, Fields, null, dict}
use pf9_du.Result.{Result, ok, err, assertion_error}
use pf9_du.Exec.{Exec, pure, lift, raise, gets, modify, continue, try_except, ◌>>=◌, ◌>>◌}
use pf9_du.Apps.{process_apps}
use pf9_du.Apps.Calls.{Action, Run}
use pf9_du.Apps.Probe.{changes_made, process_apps-probe_only}
use pf9_du.Session.{Host, Agent, on_run}
use pf9_du.Session.Update.{is_pf9_exception}
use pf9_du.Session.Messages.{
  get_current_config, valid_and_converged, ignore_pf9, read_again, report, judge, request_last,
  converge, satisfied, not_converged,
}
use pf9_du.Exec.Invariants.{
  Preserves, Preserves-bind, Preserves-try, Preserves-lift, Preserves-gets, Preserves-if,
}
use pf9_du.Session.Core.{
  Core, core, KeepsCore, KeepsCore-Preserves, KeepsCore-bind, KeepsCore-try, KeepsCore-lift,
  KeepsCore-gets, KeepsCore-if, send_status-KeepsCore,
}
use pf9_du.Session.Core.Handlers.{process_support_request-KeepsCore}

abbrev pub with_changes : List Action → Core → Core
with_changes l c = record c { changes = l }

-- `c` after an attempt, with the changes `l`.
abbrev pub tried : Core → List Action → Core
tried c l = record c { attempts = c.attempts + 1; changes = l }

abbrev pub Tried : Core → Core → Type 0
Tried c c' = (l : List Action) × (c' ≡ tried c l)

module _ (h : Host) where
  pub get_current_config-KeepsCore : KeepsCore (get_current_config h)
  unfolding get_current_config
  get_current_config-KeepsCore c = record { at = λ s p. p }

  pub valid_and_converged-KeepsCore :
      (current : Fields) (desired : Json) → KeepsCore (valid_and_converged h current desired)
  unfolding valid_and_converged
  valid_and_converged-KeepsCore current null = KeepsCore-lift _
  valid_and_converged-KeepsCore current (dict desired) =
      KeepsCore-bind (on_run (process_apps h.machine true false desired current)) _ probed
        λ n. KeepsCore-lift (ok (desired, nat_eq n 0))
    where
      probed : KeepsCore (on_run (process_apps h.machine true false desired current))
      probed c = record {
        at = λ s p.
            ap (λ l. with_changes l (core s))
              (process_apps-probe_only h.machine false desired current s.run)
            ∙ p;
      }
  valid_and_converged-KeepsCore current _ = KeepsCore-lift _

  on_run-Tried :
      (c : Core) {A : Type 0} (m : Exec Run A) → Preserves (λ s. Tried c (core s)) (on_run m)
  unfolding on_run
  on_run-Tried c m = record {
    at = λ s (l, e). (changes_made (m s.run).1, ap (with_changes (changes_made (m s.run).1)) e);
  }

  read_again-KeepsCore : KeepsCore (read_again h)
  read_again-KeepsCore =
      KeepsCore-try (get_current_config h >>= λ current_config. pure (some current_config)) _
        (KeepsCore-bind (get_current_config h) _ get_current_config-KeepsCore
          λ current. KeepsCore-lift (ok (some current)))
        λ e.
          KeepsCore-if (is_pf9_exception e) (pure none) (raise e) (KeepsCore-lift (ok none))
            (KeepsCore-lift (err e))

  report-KeepsCore :
      (current desired : Fields) (converged : Bool) → KeepsCore (report h current desired converged)
  report-KeepsCore current desired true =
      KeepsCore-bind (lift (satisfied h desired current)) _ (KeepsCore-lift _) λ holds.
        KeepsCore-bind (if holds then pure tt else raise assertion_error) _
          (KeepsCore-if holds (pure tt) (raise assertion_error) (KeepsCore-lift (ok tt))
            (KeepsCore-lift (err assertion_error)))
          λ _. send_status-KeepsCore h "ok" current null
  report-KeepsCore current desired false =
      KeepsCore-bind (gets (λ s. s.converge_attempts)) _ (KeepsCore-gets _)
        λ attempts. send_status-KeepsCore h (not_converged h attempts) current (dict desired)

  judge-KeepsCore : (desired : Fields) (o : Option Fields) → KeepsCore (judge h desired o)
  judge-KeepsCore desired none = KeepsCore-lift (ok tt)
  judge-KeepsCore desired (some current) =
      KeepsCore-bind (valid_and_converged h current (dict desired)) _
        (valid_and_converged-KeepsCore current (dict desired))
        λ probed. report-KeepsCore current desired probed.1

  request_last-KeepsCore : (b : Bool) → KeepsCore (request_last h b)
  request_last-KeepsCore true = process_support_request-KeepsCore h _ _ false
  request_last-KeepsCore false = KeepsCore-lift (ok tt)

  -- `process_apps` with its handler.
  abbrev change_apps : Fields → Fields → Exec Agent (Unit {0})
  change_apps current desired =
      try_except (on_run (process_apps h.machine false false desired current) >> pure tt)
        (ignore_pf9 h)

  change_apps-Tried :
      (c : Core) (current desired : Fields)
      → Preserves (λ s. Tried c (core s)) (change_apps current desired)
  change_apps-Tried c current desired =
      Preserves-try (on_run (process_apps h.machine false false desired current) >> pure tt)
        (ignore_pf9 h)
        (Preserves-bind (on_run (process_apps h.machine false false desired current)) _
          (on_run-Tried c _) λ _. Preserves-lift (ok tt))
        λ e.
          Preserves-if (is_pf9_exception e) (pure tt) (raise e) (Preserves-lift (ok tt))
            (Preserves-lift (err e))

  -- What `converge` does behind the count.
  abbrev rest_of_attempt : Fields → Fields → Exec Agent (Unit {0})
  rest_of_attempt current desired = do
    attempts ← gets (λ s. s.converge_attempts)
    request_last h (nat_eq attempts h.max_converge_attempts)
    change_apps current desired
    current' ← read_again h
    judge h desired current'

  rest_of_attempt-Tried :
      (c : Core) (current desired : Fields)
      → Preserves (λ s. Tried c (core s)) (rest_of_attempt current desired)
  rest_of_attempt-Tried c current desired =
      Preserves-bind (gets (λ s. s.converge_attempts)) _ (Preserves-gets _) λ attempts.
        Preserves-bind (request_last h (nat_eq attempts h.max_converge_attempts)) _
          (KeepsCore-Preserves (Tried c) _ (request_last-KeepsCore _))
          λ _.
            Preserves-bind (change_apps current desired) _ (change_apps-Tried c current desired)
              λ _.
                Preserves-bind (read_again h) _
                  (KeepsCore-Preserves (Tried c) _ read_again-KeepsCore)
                  λ o. KeepsCore-Preserves (Tried c) _ (judge-KeepsCore desired o)

  pub converge-Tried :
      (c : Core) (current desired : Fields) (s : Agent)
      → core s ≡ c
      → (core (converge h current desired s).1 ≡ c)
        ⊎ Tried c (core (converge h current desired s).1)
  unfolding converge
  converge-Tried c current desired s e =
      after _ _ ((send_status-KeepsCore h "converging" current (dict desired) c).at s e)
    where
      counted : Exec Agent (Unit {0})
      counted = do
        modify (λ s. record s { converge_attempts = s.converge_attempts + 1 })
        rest_of_attempt current desired

      after :
          (r : Result (Unit {0})) (s1 : Agent)
          → core s1 ≡ c
          → (core (continue r (λ _. counted) s1).1 ≡ c)
            ⊎ Tried c (core (continue r (λ _. counted) s1).1)
      after (err x) s1 k = inl k
      after (ok _) s1 k = inr (
          (rest_of_attempt-Tried c current desired).at
            (record s1 { converge_attempts = s1.converge_attempts + 1 })
            (changes_made s1.run, ap (λ x. tried x (changes_made s1.run)) k))
