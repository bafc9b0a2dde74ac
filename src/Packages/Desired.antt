-- ===== src/Packages/Desired.antt =====
-- The states of services that were asked for, and the removal of a package.
use pf9_du.Prelude.{All, String, ◌≡◌, refl, ap, Bool, true, false, []}
use pf9_du.Prelude.Assoc.{Assoc}
use pf9_du.Result.{Result, ok, err}
use pf9_du.Exec.{Exec, pure, ◌>>=◌}
use pf9_du.Packages.{
  Shell, same_states, run_command, config_script, get_services, get_service_states, current_states,
  has_desired_service_states, set_desired_service_states,
}
use pf9_du.Packages.Services.{
  ServiceManager, Succeeds, Lists, Arranges, Apart, keys_of, AsDesired, told_to_stop, set_all,
  set_all-AsDesired, set_desired-set_all, Arranges-AsDesired, AsDesired-keep, states_of-AsDesired,
  same_states-Arranges,
}

module _ {W : Type 0} (shell : Shell W) (up : String → W → Bool) (m : ServiceManager shell up)
    (app_name : String) (services listed : Assoc Bool) (same : Arranges shell listed services)
    (script : Lists shell app_name up (keys_of shell listed)) where
  Is : W → Type 0
  Is w = AsDesired shell up m listed w

  -- The state after the script has answered.
  asked_script : W → W
  asked_script w = (shell.run (config_script shell app_name "--get-services") w).1

  asked_script-Is : (w : W) → Is w → Is (asked_script w)
  unfolding Is asked_script
  asked_script-Is w is =
      AsDesired-keep shell up m listed w (asked_script w) (λ x. script.keeps x w) is

  get_service_states-Is : (w : W) → Is w → (get_service_states shell app_name w).0 ≡ ok listed
  unfolding get_service_states get_services run_command Is asked_script
  get_service_states-Is w is =
      rw (script.answers w)
        (states_of-AsDesired shell up m listed [] (asked_script w) (asked_script-Is w is) same.0 tt)

  current_states-Is : (w : W) → Is w → (current_states shell app_name w).0 ≡ ok listed
  unfolding current_states get_services run_command asked_script
  current_states-Is w is =
      rw (script.answers w) (get_service_states-Is (asked_script w) (asked_script-Is w is))

  compared :
      (o : Result (Assoc Bool) × W)
      → o.0 ≡ ok listed
      → (((λ (w : W). o) >>= λ current_state. pure (same_states current_state services)) o.1).0
        ≡ ok true
  compared (ok d, w) h =
      let this : d ≡ listed = cc in
      ap ok (rw this (same_states-Arranges shell listed services same))
  compared (err e, w) h = cc

  -- Where the script of an application lists the services that are asked for, in any order, the
  -- service manager does what it promises, the commands for these services succeed, and none of them
  -- changes a service that was set before: setting the services returns, all of them are then in the
  -- desired state, and the test says so.
  pub set_desired_service_states-has_desired_service_states :
      (w : W)
      → All (λ e. Succeeds shell e.0 e.1) services
      → Apart shell up m services
      → ((set_desired_service_states shell services false w).0 ≡ ok tt)
        × AsDesired shell up m services (set_desired_service_states shell services false w).1
        × ((has_desired_service_states shell app_name services
              (set_desired_service_states shell services false w).1).0
            ≡ ok true)
  unfolding has_desired_service_states Is
  set_desired_service_states-has_desired_service_states w works apart =
      let t = set_all shell services w in
      let is = set_all-AsDesired shell up m services w works apart in
      let listed_is = Arranges-AsDesired shell up m listed services t same.2 is in
      rw (set_desired-set_all shell services w)
        (refl, is, compared (current_states shell app_name t) (current_states-Is t listed_is))

-- The removal of a package.
module _ {W : Type 0} (shell : Shell W) where
  -- The states that are read: they are read without an exception.
  abbrev IsRead : Exec W (Assoc Bool) → Type 0
  IsRead m = (w : W) → (d : Assoc Bool) × ((m w).0 ≡ ok d)

  -- The services of the application are read, each of them is told to stop, and then the package is
  -- removed; what the removal returns or raises is the answer.
  abbrev pub IsRemoved : Exec W (Unit {0}) → String → W → Result (Unit {0}) × W → Type 0
  IsRemoved remove app_name w o =
      (services : Assoc Bool) × ((current_states shell app_name w).0 ≡ ok services)
      × (o
          ≡ remove
              (told_to_stop shell (keys_of shell services) (current_states shell app_name w).1))
