-- ===== src/Apps/Counts.antt =====
-- A run that only probes counts the changes that a real run makes.
use pf9_du.Prelude.{
  ℕ, ◌+◌, String, ◌≡◌, refl, Bool, true, false, none, List, [], ◌∷◌, if◌then◌else◌,
}
use pf9_du.Json.{Json, Fields, dict, lookup, json_eq, keys}
use pf9_du.Result.{Result, ok, err, key_error, some_or}
use pf9_du.Exec.{Exec, ◌>>=◌, continue, lift, pure}
use pf9_du.Config.{is_dict_subset}
use pf9_du.RoleSettings.{index}
use pf9_du.Apps.Calls.{
  Machine, Run, install_dep, uninstall, set_config, set_desired_service_states, get_app_ordering,
}
use pf9_du.Apps.{
  act, change_version, change_config, change_services, update_app, process_identical, process_new,
  process_deleted, process_all_identical, process_all_new, process_apps, services_of,
  current_services_of, versions_there, names_inside, names_outside, replace_app, install_new_app,
}

-- Where the first run returns, the second one returns the same, from whatever state.
record Agrees {A : Type 0} (real probe : Exec Run A) : Type 0 where
  at : (s s' : Run) (a : A) → (real s).0 ≡ ok a → (probe s').0 ≡ ok a

Agrees-bind :
    {A B : Type 0} (real probe : Exec Run A) (f g : A → Exec Run B)
    → Agrees real probe
    → ((a : A) → Agrees (f a) (g a))
    → Agrees (real >>= f) (probe >>= g)
Agrees-bind {A} {B} real probe f g first next = record {
  at = λ s s' b h. after _ _ _ _ b (first.at s s') h;
}
  where
    after :
        (r : Result A) (s1 : Run) (r' : Result A) (s1' : Run) (b : B)
        → ((a : A) → r ≡ ok a → r' ≡ ok a)
        → (continue r f s1).0 ≡ ok b
        → (continue r' g s1').0 ≡ ok b
    after (ok a) s1 r' s1' b same h = rw (same a refl) ((next a).at s1 s1' b h)
    after (err x) s1 r' s1' b same h = cc

Agrees-lift : {A : Type 0} (r : Result A) → Agrees (lift {S = Run} r) (lift r)
Agrees-lift r = record { at = λ s s' a h. h }

-- A change that is made, and one that is not.
Agrees-skip : (body : Exec Run (Unit {0})) → Agrees body (pure tt)
Agrees-skip body = record { at = λ s s' a h. refl }

Agrees-if :
    {A : Type 0} (b : Bool) (x y x' y' : Exec Run A)
    → Agrees x x'
    → Agrees y y'
    → Agrees (if b then x else y) (if b then x' else y')
Agrees-if true x y x' y' first second = first
Agrees-if false x y x' y' first second = second

abbrev one_change : Exec Run (Unit {0}) → Exec Run ℕ
one_change body = body >>= λ _. pure 1

Agrees-one : (body : Exec Run (Unit {0})) → Agrees (one_change body) (one_change (pure tt))
Agrees-one body =
    Agrees-bind body (pure tt) (λ _. pure 1) (λ _. pure 1) (Agrees-skip body)
      λ _. Agrees-lift (ok 1)

module _ (m : Machine) where
  Agrees-change_config :
      (name : String) (config current : Json)
      → Agrees
          (change_config m false name config current)
          (change_config m true name config current)
  unfolding change_config
  Agrees-change_config name config current =
      Agrees-if (is_dict_subset config current) _ _ _ _ (Agrees-lift (ok 0))
        (Agrees-one (act m (set_config name config)))

  Agrees-change_services :
      (name : String) (services current : Json)
      → Agrees
          (change_services m false name services current)
          (change_services m true name services current)
  unfolding change_services
  Agrees-change_services name services current =
      Agrees-if (json_eq current services) _ _ _ _ (Agrees-lift (ok 0))
        (Agrees-one (act m (set_desired_service_states name services)))

  Agrees-update_app :
      (name : String) (spec : Fields) (config current : Json)
      → Agrees
          (update_app m false name spec config current)
          (update_app m true name spec config current)
  unfolding update_app
  Agrees-update_app name spec config current =
      Agrees-bind _ _ _ _ (Agrees-lift (index current "config")) λ c.
        Agrees-bind _ _ _ _ (Agrees-change_config name config c) λ n.
          Agrees-bind _ _ _ _ (Agrees-lift (services_of m name spec)) λ services.
            Agrees-bind _ _ _ _ (Agrees-lift (current_services_of m name current))
              λ current_services.
                Agrees-bind _ _ _ _ (Agrees-change_services name services current_services)
                  λ k. Agrees-lift (ok (n + k))

  Agrees-process_identical :
      (name : String) (spec current : Json)
      → Agrees
          (process_identical m false name spec current)
          (process_identical m true name spec current)
  unfolding process_identical change_version
  Agrees-process_identical name (dict spec) current =
      Agrees-bind _ _ _ _ (Agrees-lift (index (dict spec) "config")) λ config.
        Agrees-bind _ _ _ _ (Agrees-lift (index current "version")) λ installed.
          Agrees-bind _ _ _ _ (Agrees-lift (index (dict spec) "version")) λ version.
            Agrees-if (json_eq installed version) _ _ _ _
              (Agrees-update_app name spec config current)
              (Agrees-one (replace_app m false name spec config))
  Agrees-process_identical name _ current = record { at = λ s s' a h. h }

  Agrees-process_deleted :
      (names : List String) → Agrees (process_deleted m false names) (process_deleted m true names)
  unfolding process_deleted
  Agrees-process_deleted [] = Agrees-lift (ok 0)
  Agrees-process_deleted (name ∷ names) =
      Agrees-bind (act m (uninstall name)) (pure tt) _ _ (Agrees-skip (act m (uninstall name)))
        λ _. Agrees-bind _ _ _ _ (Agrees-process_deleted names) λ n. Agrees-lift (ok (1 + n))

  Agrees-process_all_identical :
      (names : List String) (new_config current_config : Fields)
      → Agrees
          (process_all_identical m false names new_config current_config)
          (process_all_identical m true names new_config current_config)
  unfolding process_all_identical
  Agrees-process_all_identical [] new_config current_config = Agrees-lift (ok 0)
  Agrees-process_all_identical (name ∷ names) new_config current_config =
      Agrees-bind _ _ _ _ (Agrees-lift (some_or key_error (lookup name new_config))) λ spec.
        Agrees-bind _ _ _ _ (Agrees-lift (some_or key_error (lookup name current_config)))
          λ current. Agrees-bind _ _ _ _ (Agrees-process_identical name spec current) λ n.
            Agrees-bind _ _ _ _ (Agrees-process_all_identical names new_config current_config)
              λ k. Agrees-lift (ok (n + k))

  Agrees-process_all_new :
      (names : List String) (new_config : Fields)
      → Agrees (process_all_new m false names new_config) (process_all_new m true names new_config)
  unfolding process_all_new process_new
  Agrees-process_all_new [] new_config = Agrees-lift (ok 0)
  Agrees-process_all_new (name ∷ names) new_config =
      Agrees-bind _ _ _ _ (Agrees-lift (some_or key_error (lookup name new_config))) λ spec.
        Agrees-bind _ _ _ _ (Agrees-one (install_new_app m false name spec)) λ n.
          Agrees-bind _ _ _ _ (Agrees-process_all_new names new_config)
            λ k. Agrees-lift (ok (n + k))

  module _ (dep_installs : (n : ℕ) → m.raises install_dep n ≡ none) where
    Agrees-install_dep : Agrees (act m install_dep) (act m install_dep)
    unfolding act
    Agrees-install_dep = record { at = λ s s' a h. rw (dep_installs s'.calls) refl }

    Agrees-process_apps :
        (non_destructive : Bool) (new_config current_config : Fields)
        → Agrees
            (process_apps m false non_destructive new_config current_config)
            (process_apps m true non_destructive new_config current_config)
    unfolding process_apps
    Agrees-process_apps non_destructive new_config current_config =
        Agrees-bind _ _ _ _ (Agrees-lift (versions_there current_config)) λ _.
          Agrees-bind _ _ _ _
            (Agrees-lift
              (get_app_ordering m (names_outside (keys new_config) current_config) new_config))
            λ new_names.
              Agrees-bind _ _ _ _
                (Agrees-lift
                  (get_app_ordering m (names_inside (keys current_config) new_config) new_config))
                λ identical.
                  Agrees-bind _ _ _ _
                    (Agrees-process_deleted (
                      if non_destructive
                      then []
                      else names_outside (keys current_config) new_config))
                    λ d. Agrees-bind _ _ _ _ Agrees-install_dep λ _.
                      Agrees-bind _ _ _ _
                        (Agrees-process_all_identical identical new_config current_config)
                        λ n.
                          Agrees-bind _ _ _ _ (Agrees-process_all_new new_names new_config)
                            λ k. Agrees-lift (ok (d + (n + k)))

    -- If the dependency always installs and a real run returns a number of changes, then a run with
    -- `probe_only`, from whatever state, returns the same number.
    pub process_apps-counts :
        (non_destructive : Bool) (new_config current_config : Fields) (s s' : Run) (changes : ℕ)
        → (process_apps m false non_destructive new_config current_config s).0 ≡ ok changes
        → (process_apps m true non_destructive new_config current_config s').0 ≡ ok changes
    process_apps-counts non_destructive new_config current_config s s' changes h =
        (Agrees-process_apps non_destructive new_config current_config).at s s' changes h
