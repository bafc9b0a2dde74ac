-- ===== src/Session/Core.antt =====
-- What the calls of the session leave alone: the attempts, the pending bundle, the file of the desired
-- configuration and the applications. The code is bbone/bbslave/bbslave/session.py.
pub mod Handlers
pub mod Attempts
pub mod Steps
pub mod Refines
use pf9_du.Prelude.{
  ℕ, String, ◌≡◌, refl, ◌+◌, sym, subst, ◌∙◌, Bool, true, false, Option, none, some, List, [], ◌∷◌,
  if◌then◌else◌,
}
use pf9_du.Json.{Json, Fields, null, boolean, int, float, str, arr, dict, end, set_item}
use pf9_du.Result.{Error, Result, ok, err}
use pf9_du.Exec.{Exec, pure, lift, raise, gets, modify, handle, continue, try_except, ◌>>=◌, ◌>>◌}
use pf9_du.Exec.Invariants.{
  Preserves, Preserves-bind, Preserves-try, Preserves-lift, Preserves-gets,
}
use pf9_du.RoleSettings.{index}
use pf9_du.Apps.Calls.{Action}
use pf9_du.Apps.Probe.{changes_made}
use pf9_du.Session.{Host, Agent, ask, tell, load_desired_config}
use pf9_du.Session.Extensions.{get_extension_data, run_all, run_one, result_of, add_result}
use pf9_du.Session.Report.{
  send_status, basic_publish, cert_part, if_open, publish_status, hostagent_info, status_data,
  message, desired_part,
}

pub record Core : Type 0 where
  pub attempts : ℕ
  pub pending : Option (Json × Json)
  pub desired_file : Option String
  pub changes : List Action

abbrev pub core : Agent → Core
core s = record {
  attempts = s.converge_attempts;
  pending = s.pending;
  desired_file = s.desired_file;
  changes = changes_made s.run;
}

-- The calls that leave the core alone.
abbrev pub KeepsCore : {A : Type 0} → Exec Agent A → Type 0
KeepsCore m = (c : Core) → Preserves (λ s. core s ≡ c) m

pub KeepsCore-Preserves :
    (Q : Core → Type 0) {A : Type 0} (m : Exec Agent A)
    → KeepsCore m
    → Preserves (λ s. Q (core s)) m
KeepsCore-Preserves Q m k = record { at = λ s q. subst Q (sym ((k (core s)).at s refl)) q }

-- The calls that are described by how they change a state; `f` leaves the core alone.
pub KeepsCore-modify :
    (f : Agent → Agent) → ((s : Agent) → core (f s) ≡ core s) → KeepsCore (modify f)
KeepsCore-modify f same c = record { at = λ s p. same s ∙ p }

pub KeepsCore-ask : {A : Type 0} (answer : ℕ → Result A) → KeepsCore (ask answer)
unfolding ask
KeepsCore-ask answer c = record { at = λ s p. p }

pub KeepsCore-tell : (answer : ℕ → Option Error) → KeepsCore (tell answer)
unfolding tell
KeepsCore-tell answer = KeepsCore-ask _

pub KeepsCore-bind :
    {A B : Type 0} (m : Exec Agent A) (f : A → Exec Agent B)
    → KeepsCore m
    → ((a : A) → KeepsCore (f a))
    → KeepsCore (m >>= f)
KeepsCore-bind m f km kf c = Preserves-bind m f (km c) λ a. kf a c

pub KeepsCore-try :
    {A : Type 0} (m : Exec Agent A) (h : Error → Exec Agent A)
    → KeepsCore m
    → ((e : Error) → KeepsCore (h e))
    → KeepsCore (try_except m h)
KeepsCore-try m h km kh c = Preserves-try m h (km c) λ e. kh e c

pub KeepsCore-lift : {A : Type 0} (r : Result A) → KeepsCore (lift {S = Agent} r)
KeepsCore-lift r c = Preserves-lift r

pub KeepsCore-gets : {A : Type 0} (f : Agent → A) → KeepsCore (gets f)
KeepsCore-gets f c = Preserves-gets f

pub KeepsCore-if :
    {A : Type 0} (b : Bool) (x y : Exec Agent A)
    → KeepsCore x
    → KeepsCore y
    → KeepsCore (if b then x else y)
KeepsCore-if true x y kx ky = kx
KeepsCore-if false x y kx ky = ky

-- The calls that only ask: whatever does not depend on the number of calls is an invariant of them.
module _ (h : Host) {P : Agent → Type 0}
    (free : (s : Agent) (n : ℕ) → P s → P (record s { asked = n })) where
  pub Preserves-ask : {A : Type 0} (answer : ℕ → Result A) → Preserves P (ask answer)
  unfolding ask
  Preserves-ask answer = record { at = λ s p. free s (s.asked + 1) p }

  add_result-Preserves :
      (name : String) (b : Bool) (f : Fields) → Preserves P (add_result h name b f)
  unfolding run_one
  add_result-Preserves name false f = Preserves-lift (ok f)
  add_result-Preserves name true f = Preserves-bind (run_one h name) _ (Preserves-ask _) λ r.
      Preserves-bind (lift (result_of h r)) _ (Preserves-lift _)
        λ v. Preserves-lift (ok (set_item name v f))

  run_all-Preserves : (names : List String) (f : Fields) → Preserves P (run_all h names f)
  unfolding run_all
  run_all-Preserves [] f = Preserves-lift (ok f)
  run_all-Preserves (name ∷ names) f =
      Preserves-bind (ask (λ n. ok (h.executable name n))) _ (Preserves-ask _) λ executable.
        Preserves-bind (add_result h name executable f) _ (add_result-Preserves name executable f)
          λ g. run_all-Preserves names g

  pub get_extension_data-Preserves : Preserves P (get_extension_data h)
  unfolding get_extension_data
  get_extension_data-Preserves =
      Preserves-bind (ask (λ n. ok (h.extensions n))) _ (Preserves-ask _)
        λ names. run_all-Preserves names end

  pub cert_part-Preserves : (b : Bool) (f : Fields) → Preserves P (cert_part h b f)
  cert_part-Preserves false f = Preserves-lift (ok f)
  cert_part-Preserves true f =
      Preserves-bind (ask (λ n. ok (h.cert_info n))) _ (Preserves-ask _)
        λ v. Preserves-lift (ok (set_item "cert_info" v f))

module _ (h : Host) where
  pub basic_publish-KeepsCore : (msg : Json) → KeepsCore (basic_publish h msg)
  unfolding basic_publish
  basic_publish-KeepsCore msg =
      KeepsCore-bind (tell h.publish) _ (KeepsCore-tell h.publish) λ _. KeepsCore-modify _ λ s. refl

  publish_status-KeepsCore :
      (status : String) (config : Fields) (desired_config : Json)
      → KeepsCore (publish_status h status config desired_config)
  publish_status-KeepsCore status config desired_config =
      KeepsCore-bind (ask (λ n. ok (h.sysinfo n))) _ (KeepsCore-ask _) λ info.
        KeepsCore-bind (gets hostagent_info) _ (KeepsCore-gets _) λ agent.
          KeepsCore-bind (get_extension_data h) _ (λ c. get_extension_data-Preserves h λ s n p. p)
            λ extensions.
              KeepsCore-bind
                (cert_part h h.vouch_present
                  (status_data h.host_id status info config agent extensions))
                _ (λ c. cert_part-Preserves h (λ s n p. p) _ _)
                λ body.
                  KeepsCore-bind (ask (λ n. ok (h.timestamp n))) _ (KeepsCore-ask _) λ timestamp.
                    basic_publish-KeepsCore (
                      message "status"
                        (dict (set_item "timestamp" timestamp (desired_part desired_config body))))

  if_open-KeepsCore :
      (b : Bool) (body : Exec Agent (Unit {0})) → KeepsCore body → KeepsCore (if_open h b body)
  if_open-KeepsCore false body k = KeepsCore-lift (ok tt)
  if_open-KeepsCore true body k = k

  pub send_status-KeepsCore :
      (status : String) (config : Fields) (desired_config : Json)
      → KeepsCore (send_status h status config desired_config)
  unfolding send_status
  send_status-KeepsCore status config desired_config =
      KeepsCore-bind (gets (λ s. s.channel)) _ (KeepsCore-gets _) λ channel.
        if_open-KeepsCore channel _ (publish_status-KeepsCore status config desired_config)
