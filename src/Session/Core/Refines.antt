-- ===== src/Session/Core/Refines.antt =====
-- `handle_msg` of bbone/bbslave/bbslave/session.py takes only steps of the abstract session.
use pf9_du.Prelude.{
  ℕ, ◌≡◌, refl, ap, ◌⊎◌, inl, inr, Bool, true, false, Option, none, some, if◌then◌else◌,
}
use pf9_du.Json.{Json, Fields}
use pf9_du.Result.{Result, ok, err, key_error}
use pf9_du.Exec.{Exec, pure, lift, raise, gets, modify, continue, handle, try_except, ◌>>=◌, ◌>>◌}
use pf9_du.RoleSettings.{index}
use pf9_du.Session.{Host, Agent, tell, load_desired_config}
use pf9_du.Session.Support.{process_support_request, process_support_command}
use pf9_du.Session.Update.{update_agent}
use pf9_du.Session.Messages.{
  Opcode, ping, heartbeat, set_config, set_agent, exit, get_support, support_command, update_cert,
  invalid, opcode_of, Attempt, get_current_config, valid_and_converged, close_session, probe,
  or_current, is_none, check_config, prepare, only_bad, finish_if, handle_msg, is_bad_message,
}
use pf9_du.Session.Core.{
  Core, core, KeepsCore, KeepsCore-tell, KeepsCore-bind, KeepsCore-lift, KeepsCore-gets,
  KeepsCore-if, KeepsCore-modify,
}
use pf9_du.Session.Core.Handlers.{
  load_desired_config-KeepsCore, process_support_request-KeepsCore,
  process_support_command-KeepsCore, update_agent-KeepsCore,
}
use pf9_du.Session.Core.Attempts.{get_current_config-KeepsCore, valid_and_converged-KeepsCore}
use pf9_du.Session.Core.Steps.{Step, Step-same, finish-Steps}

abbrev pub resets : Opcode → Bool
resets set_config = true
resets _ = false

abbrev pub resets_msg : Result Json → Bool
resets_msg (ok opcode) = resets (opcode_of opcode)
resets_msg (err e) = false

abbrev reset : Core → Core
reset c = record c { attempts = 0 }

-- What the first half may do to the core.
abbrev Prepared : Bool → Core → Core → Type 0
Prepared b c c' = (c' ≡ c) ⊎ ((b ≡ true) × (c' ≡ reset c))

Step-Prepared :
    (max : ℕ) (b : Bool) (c c1 c' : Core) → Prepared b c c1 → Step max false c1 c' → Step max b c c'
Step-Prepared max b c c1 c' p t = record {
  start = t.start;
  from = started p t.from;
  pending = pending p;
  attempt = attempted p t.attempt;
}
  where
    started :
        Prepared b c c1
        → (t.start ≡ c1.attempts) ⊎ ((false ≡ true) × (t.start ≡ 0))
        → (t.start ≡ c.attempts) ⊎ ((b ≡ true) × (t.start ≡ 0))
    started p (inr (f_true, e)) = cc
    started (inl same) (inl e) = inl (cc (e, ap (λ x. x.attempts) same))
    started (inr (b_true, same)) (inl e) = inr (b_true, cc (e, ap (λ x. x.attempts) same))

    pending : Prepared b c c1 → c'.pending ≡ c.pending
    pending (inl same) = cc (t.pending, ap (λ x. x.pending) same)
    pending (inr (b_true, same)) = cc (t.pending, ap (λ x. x.pending) same)

    same_changes : Prepared b c c1 → c1.changes ≡ c.changes
    same_changes (inl same) = ap (λ x. x.changes) same
    same_changes (inr (b_true, same)) = ap (λ x. x.changes) same

    attempted :
        {Counted : Type 0}
        → Prepared b c c1
        → ((c'.attempts ≡ t.start) × (c'.changes ≡ c1.changes)) ⊎ Counted
        → ((c'.attempts ≡ t.start) × (c'.changes ≡ c.changes)) ⊎ Counted
    attempted p (inl (e, l)) = inl (e, cc (l, same_changes p))
    attempted p (inr x) = inr x

module _ (h : Host) where
  probe-KeepsCore :
      (current : Fields) (desired : Json) (shared : Bool)
      → KeepsCore (probe h current desired shared)
  probe-KeepsCore current desired shared =
      KeepsCore-bind (valid_and_converged h current desired) _
        (valid_and_converged-KeepsCore h current desired) λ probed. KeepsCore-lift (ok (some _))

  check_config-KeepsCore : (desired : Json) → KeepsCore (check_config h desired)
  check_config-KeepsCore desired =
      KeepsCore-bind (get_current_config h) _ (get_current_config-KeepsCore h)
        λ current. probe-KeepsCore current (or_current h desired current) (is_none h desired)

  close_if-KeepsCore : (b : Bool) → KeepsCore (if b then tell h.close else raise key_error)
  close_if-KeepsCore b =
      KeepsCore-if b (tell h.close) (raise key_error) (KeepsCore-tell h.close) (KeepsCore-lift _)

  close_session-KeepsCore : KeepsCore (close_session h)
  close_session-KeepsCore = KeepsCore-bind (gets (λ s. s.channel)) _ (KeepsCore-gets _) λ channel.
      KeepsCore-bind (if channel then tell h.close else raise key_error) _
        (close_if-KeepsCore channel)
        λ _. KeepsCore-bind (gets (λ s. s.connection)) _ (KeepsCore-gets _) λ connection.
          KeepsCore-bind (if connection then tell h.close else raise key_error) _
            (close_if-KeepsCore connection) λ _. KeepsCore-lift (ok none)

  -- What the first half does where it is no new configuration.
  quiet-KeepsCore :
      (op : Opcode) (msg desired : Json) → resets op ≡ false → KeepsCore (prepare h op msg desired)
  unfolding prepare
  quiet-KeepsCore invalid msg desired no_reset = KeepsCore-lift (ok none)
  quiet-KeepsCore exit msg desired no_reset =
      KeepsCore-if h.allow_exit_opcode (close_session h) (pure none) close_session-KeepsCore
        (KeepsCore-lift (ok none))
  quiet-KeepsCore get_support msg desired no_reset =
      KeepsCore-bind (lift (index msg "upload")) _ (KeepsCore-lift _) λ upload.
        KeepsCore-bind (lift (index msg "label")) _ (KeepsCore-lift _) λ label.
          KeepsCore-bind (process_support_request h upload label false) _
            (process_support_request-KeepsCore h upload label false) λ _. KeepsCore-lift (ok none)
  quiet-KeepsCore support_command msg desired no_reset =
      KeepsCore-bind (lift (index msg "command")) _ (KeepsCore-lift _) λ command.
        KeepsCore-bind (process_support_command h command) _
          (process_support_command-KeepsCore h command) λ _. KeepsCore-lift (ok none)
  quiet-KeepsCore update_cert msg desired no_reset =
      KeepsCore-bind
        (if h.vouch_present then modify (λ s. record s { cert_update = true }) else pure tt) _
        (KeepsCore-if h.vouch_present (modify (λ s. record s { cert_update = true })) (pure tt)
          (KeepsCore-modify (λ s. record s { cert_update = true }) λ s. refl)
          (KeepsCore-lift (ok tt)))
        λ _. KeepsCore-lift (ok none)
  quiet-KeepsCore set_agent msg desired no_reset =
      KeepsCore-bind (get_current_config h) _ (get_current_config-KeepsCore h) λ current.
        KeepsCore-bind (lift (index msg "data")) _ (KeepsCore-lift _) λ agent_info.
          KeepsCore-bind (update_agent h agent_info current (or_current h desired current)) _
            (update_agent-KeepsCore h agent_info current (or_current h desired current))
            λ _. KeepsCore-lift (ok none)
  quiet-KeepsCore set_config msg desired no_reset = cc
  quiet-KeepsCore ping msg desired no_reset = check_config-KeepsCore desired
  quiet-KeepsCore heartbeat msg desired no_reset = check_config-KeepsCore desired

  -- The part of `set_config` behind the reset starts from the reset core.
  set_config-Prepared :
      (c : Core) (msg desired : Json) (s : Agent)
      → core s ≡ c
      → Prepared true c (core (prepare h set_config msg desired s).1)
  unfolding prepare
  set_config-Prepared c msg desired s e = after _ _ ((get_current_config-KeepsCore h c).at s e)
    where
      behind : Fields → Json → Exec Agent (Option Attempt)
      behind current new_config = do
        modify (λ s. record s { converge_attempts = 0 })
        probe h current new_config false

      behind-Prepared :
          (current : Fields) (r : Result Json) (s1 : Agent)
          → core s1 ≡ c
          → Prepared true c (core (continue r (behind current) s1).1)
      behind-Prepared current (err x) s1 k = inl k
      behind-Prepared current (ok new_config) s1 k =
          inr (refl, (probe-KeepsCore current new_config false (reset c)).at _ (ap reset k))

      after :
          (r : Result Fields) (s1 : Agent)
          → core s1 ≡ c
          → Prepared true c
              (core (continue r (λ current. lift (index msg "data") >>= behind current) s1).1)
      after (err x) s1 k = inl k
      after (ok current) s1 k = behind-Prepared current (index msg "data") s1 k

  prepare-Prepared :
      (c : Core) (op : Opcode) (msg desired : Json) (s : Agent)
      → core s ≡ c
      → Prepared (resets op) c (core (prepare h op msg desired s).1)
  prepare-Prepared c set_config msg desired s e = set_config-Prepared c msg desired s e
  prepare-Prepared c op msg desired s e = inl ((quiet-KeepsCore op msg desired refl c).at s e)

  finish_if-Prepared :
      (b : Bool) (c : Core) (o : Option Attempt) (s : Agent)
      → Prepared b c (core s)
      → Step h.max_converge_attempts b c (core (finish_if h o s).1)
  finish_if-Prepared b c none s p = Step-Prepared _ b c (core s) _ p (Step-same _ _ _ _ refl)
  finish_if-Prepared b c (some a) s p =
      Step-Prepared _ b c (core s) _ p ((finish-Steps h (core s) a).at s refl)

  -- The second half, after the handler of bad messages.
  recovered-Step :
      (b : Bool) (c : Core) (r : Result (Option Attempt)) (s : Agent)
      → Prepared b c (core s)
      → Step h.max_converge_attempts b c
          (core (continue (handle r (only_bad h) s).0 (finish_if h) (handle r (only_bad h) s).1).1)
  recovered-Step b c (ok o) s p = finish_if-Prepared b c o s p
  recovered-Step b c (err e) s p = decided (is_bad_message e)
    where
      decided :
          (bad : Bool)
          → Step h.max_converge_attempts b c
              (core (((if bad then pure none else raise e) >>= finish_if h) s).1)
      decided true = finish_if-Prepared b c none s p
      decided false = Step-Prepared _ b c (core s) _ p (Step-same _ _ _ _ refl)

  handle_opcode : Json → Result Json → Exec Agent (Unit {0})
  handle_opcode msg r = lift r >>= λ opcode. load_desired_config h >>= λ desired.
      try_except (prepare h (opcode_of opcode) msg desired) (only_bad h) >>= finish_if h

  handle_opcode-Step :
      (msg : Json) (r : Result Json) (s : Agent)
      → Step h.max_converge_attempts (resets_msg r) (core s) (core (handle_opcode msg r s).1)
  unfolding handle_opcode
  handle_opcode-Step msg (err e) s = Step-same _ _ _ _ refl
  handle_opcode-Step msg (ok opcode) s =
      after _ _ ((load_desired_config-KeepsCore h (core s)).at s refl)
    where
      after :
          (r : Result Json) (s1 : Agent)
          → core s1 ≡ core s
          → Step h.max_converge_attempts (resets (opcode_of opcode)) (core s) (
              core
                (continue r
                  (λ desired.
                    try_except (prepare h (opcode_of opcode) msg desired) (only_bad h)
                    >>= finish_if h)
                  s1).1)
      after (err x) s1 k = Step-same _ _ _ _ k
      after (ok desired) s1 k =
          recovered-Step _ (core s) _ _
            (prepare-Prepared (core s) (opcode_of opcode) msg desired s1 k)

  -- A message, whatever it is and whatever fails, takes a step of the abstract session: only a new
  -- configuration resets the count of attempts, an attempt is counted only below the limit, the
  -- applications are changed only in an attempt, and the pending bundle stays as it is.
  pub handle_msg-Step :
      (msg : Json) (s : Agent)
      → Step h.max_converge_attempts
          (resets_msg (index msg "opcode"))
          (core s)
          (core (handle_msg h msg s).1)
  unfolding handle_msg handle_opcode
  handle_msg-Step msg s = handle_opcode-Step msg (index msg "opcode") s
