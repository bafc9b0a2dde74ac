-- ===== src/Session/Commands.antt =====
-- Which commands `process_support_command` of bbone/bbslave/bbslave/session.py runs.
use pf9_du.Prelude.{
  ℕ, ◌+◌, String, ◌≡◌, refl, ◌∙◌, ◌⊎◌, inl, inr, Bool, true, false, List, [], ◌∷◌, ◌++◌, arith, not,
  if◌then◌else◌,
}
use pf9_du.Json.{Json, Fields, str, dict}
use pf9_du.Result.{Error, Result, ok, err, key_error}
use pf9_du.Exec.{Exec, handle, continue, lift, gets, raise, pure, ◌>>=◌}
use pf9_du.Session.{Host, Agent, ask, tell}
use pf9_du.Session.Report.{basic_publish, message}
use pf9_du.Session.Support.{
  process_support_command, is_command_allowed, run_support_command, if_allowed, run_if_allowed,
  command_failed, command_done, command_data, restarts_agent,
}

module _ (h : Host) where
  -- Some pattern of the list matches the text.
  abbrev pub Matched : List String → String → Type 0
  Matched [] c = ⊥
  Matched (regex ∷ rest) c = (h.matches regex c ≡ ok true) ⊎ Matched rest c

  is_command_allowed-Matched :
      (patterns : List String) (c : String)
      → is_command_allowed h patterns (str c) ≡ ok true
      → Matched patterns c
  unfolding is_command_allowed
  is_command_allowed-Matched [] c e = cc
  is_command_allowed-Matched (regex ∷ rest) c e = ground (arith, is_command_allowed-Matched rest c)

  basic_publish-commands :
      (msg : Json) (s : Agent) → (basic_publish h msg s).1.commands ≡ s.commands
  unfolding basic_publish tell ask
  basic_publish-commands msg s = ground arith

  -- What may happen to the commands between two states; `n` is when the patterns are read.
  Ran : Json → ℕ → Agent → Agent → Type 0
  Ran command n s s' =
      (s'.commands ≡ s.commands)
      ⊎ ((c : String) × (patterns : List String) × (command ≡ str c)
          × (h.allowed_commands n ≡ ok patterns)
          × Matched patterns c
          × (s'.commands ≡ s.commands ++ c ∷ []))

  run_support_command-Ran :
      (command : Json) (body : Fields) (patterns : List String) (n : ℕ) (s : Agent)
      → h.allowed_commands n ≡ ok patterns
      → is_command_allowed h patterns command ≡ ok true
      → Ran command n s (run_support_command h command body s).1
  unfolding run_support_command ask Ran
  run_support_command-Ran (str c) body patterns n s e allowed = inr (
    c,
    patterns,
    refl,
    e,
    is_command_allowed-Matched patterns c allowed,
    ran (h.run_command (not (restarts_agent c)) c s.asked),
  )
    where
      ran :
          (r : Result (Json × Json × Json))
          → (continue {S = Agent} r
              (λ result. pure (command_done h body result))
              (record s { commands = s.commands ++ c ∷ []; asked = s.asked + 1 })).1.commands
            ≡ s.commands ++ c ∷ []
      ran (ok result) = refl
      ran (err x) = refl
  run_support_command-Ran _ body patterns n s e allowed = inl refl

  if_allowed-Ran :
      (command : Json) (body : Fields) (patterns : List String) (n : ℕ) (s : Agent)
      (r : Result Bool)
      → h.allowed_commands n ≡ ok patterns
      → is_command_allowed h patterns command ≡ r
      → Ran command n s (continue r (λ allowed. if_allowed h allowed command body) s).1
  unfolding Ran
  if_allowed-Ran command body patterns n s (ok true) e allowed =
      run_support_command-Ran command body patterns n s e allowed
  if_allowed-Ran command body patterns n s (ok false) e allowed = inl refl
  if_allowed-Ran command body patterns n s (err x) e allowed = inl refl

  run_if_allowed-Ran :
      (command : Json) (body : Fields) (s : Agent)
      → Ran command s.asked s (run_if_allowed h command body s).1
  unfolding ask Ran
  run_if_allowed-Ran command body s = read (h.allowed_commands s.asked) refl
    where
      asked : Agent
      asked = record s { asked = s.asked + 1 }

      read :
          (r : Result (List String))
          → h.allowed_commands s.asked ≡ r
          → Ran command s.asked s
              (continue r
                (λ patterns. lift (is_command_allowed h patterns command) >>= λ allowed.
                  if_allowed h allowed command body)
                asked).1
      read (ok patterns) e = if_allowed-Ran command body patterns s.asked asked _ e refl
      read (err x) e = inl refl

  -- The answer is sent, or no channel is there.
  abbrev answer_with : Fields → Exec Agent (Unit {0})
  answer_with answer = do
    channel ← gets (λ s. s.channel)
    if channel
        then basic_publish h (message "support_command_response" (dict answer))
        else raise key_error

  answer_with-commands :
      (answer : Fields) (s : Agent) → (answer_with answer s).1.commands ≡ s.commands
  answer_with-commands answer s =
      ground (arith, basic_publish-commands (message "support_command_response" (dict answer)) s)

  -- The command of a request is run at most once, and only if it is a text that one of the patterns
  -- matches, as they are read at that time; otherwise no command is run.
  pub process_support_command-Allowed :
      (command : Json) (s : Agent)
      → ((process_support_command h command s).1.commands ≡ s.commands)
        ⊎ ((c : String) × (patterns : List String) × (command ≡ str c)
            × (h.allowed_commands (s.asked + 1) ≡ ok patterns)
            × Matched patterns c
            × ((process_support_command h command s).1.commands ≡ s.commands ++ c ∷ []))
  unfolding process_support_command ask Ran
  process_support_command-Allowed command s =
      answered _ _ (run_if_allowed-Ran command body (record s { asked = s.asked + 1 }))
    where
      body : Fields
      body = command_data h (h.sysinfo s.asked) command

      failed : Error → Exec Agent Fields
      failed e = pure (command_failed h body (h.text_of_error e))

      kept :
          (answer : Fields) (s' : Agent)
          → Ran command (s.asked + 1) s s'
          → Ran command (s.asked + 1) s (answer_with answer s').1
      kept answer s' (inl e) = inl (answer_with-commands answer s' ∙ e)
      kept answer s' (inr (c, patterns, is_c, e, m, added)) =
          inr (c, patterns, is_c, e, m, answer_with-commands answer s' ∙ added)

      answered :
          (r : Result Fields) (s' : Agent)
          → Ran command (s.asked + 1) s s'
          → Ran command
              (s.asked + 1)
              s
              (continue (handle r failed s').0 answer_with (handle r failed s').1).1
      answered (ok answer) s' ran = kept answer s' ran
      answered (err e) s' ran = kept (command_failed h body (h.text_of_error e)) s' ran
