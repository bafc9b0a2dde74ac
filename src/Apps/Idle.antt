-- ===== src/Apps/Idle.antt =====
-- Where a probe counts no change, a real run changes nothing.
use pf9_du.Prelude.{
  ℕ, String, ◌≡◌, refl, ◌∙◌, Bool, true, false, none, List, [], ◌∷◌, if◌then◌else◌,
}
use pf9_du.Json.{Json, Fields, dict, lookup, json_eq, keys}
use pf9_du.Result.{ok, key_error, some_or}
use pf9_du.Exec.{Exec, ◌>>=◌}
use pf9_du.Config.{is_dict_subset}
use pf9_du.RoleSettings.{index}
use pf9_du.Apps.Calls.{Machine, Run, install_dep, get_app_ordering}
use pf9_du.Apps.{
  act, change_version, change_config, change_services, update_app, process_identical, process_new,
  process_deleted, process_all_identical, process_all_new, process_apps, services_of,
  current_services_of, versions_there, names_inside, names_outside,
}
use pf9_du.Apps.Probe.{changes_made, Keeps-install_dep}
use pf9_du.Apps.Quiet.{
  Idles, Adds, Idles-lift-bind, Idles-suc, Idles-one, Idles-none, Idles-if, Adds-lift-bind,
  Adds-last, Idles-then, Adds-two,
}

module _ (m : Machine) where
  Idles-change_config :
      (name : String) (config current : Json)
      → Idles (change_config m false name config current) (change_config m true name config current)
  unfolding change_config
  Idles-change_config name config current =
      Idles-if (is_dict_subset config current) _ _ _ _ Idles-none (Idles-one _)

  Idles-change_services :
      (name : String) (services current : Json)
      → Idles
          (change_services m false name services current)
          (change_services m true name services current)
  unfolding change_services
  Idles-change_services name services current =
      Idles-if (json_eq current services) _ _ _ _ Idles-none (Idles-one _)

  Idles-update_app :
      (name : String) (spec : Fields) (config current : Json)
      → Idles
          (update_app m false name spec config current)
          (update_app m true name spec config current)
  unfolding update_app
  Idles-update_app name spec config current = Idles-lift-bind (index current "config") _ _ λ c.
      Idles-then _ _ _ _ (Idles-change_config name config c) (
        Adds-lift-bind (services_of m name spec) _ _ λ services.
          Adds-lift-bind (current_services_of m name current) _ _ λ current_services.
            Adds-last _ _ (Idles-change_services name services current_services))

  Idles-process_identical :
      (name : String) (spec current : Json)
      → Idles
          (process_identical m false name spec current)
          (process_identical m true name spec current)
  unfolding process_identical change_version
  Idles-process_identical name (dict spec) current =
      Idles-lift-bind (index (dict spec) "config") _ _ λ config.
        Idles-lift-bind (index current "version") _ _ λ installed.
          Idles-lift-bind (index (dict spec) "version") _ _ λ version.
            Idles-if (json_eq installed version) _ _ _ _ (Idles-update_app name spec config current)
              (Idles-one _)
  Idles-process_identical name _ current = record { at = λ s s' h. cc }

  Idles-process_deleted :
      (names : List String) → Idles (process_deleted m false names) (process_deleted m true names)
  unfolding process_deleted
  Idles-process_deleted [] = Idles-none
  Idles-process_deleted (name ∷ names) = Idles-suc _ (process_deleted m true names)

  Idles-process_all_identical :
      (names : List String) (new_config current_config : Fields)
      → Idles
          (process_all_identical m false names new_config current_config)
          (process_all_identical m true names new_config current_config)
  unfolding process_all_identical
  Idles-process_all_identical [] new_config current_config = Idles-none
  Idles-process_all_identical (name ∷ names) new_config current_config =
      Idles-lift-bind (some_or key_error (lookup name new_config)) _ _ λ spec.
        Idles-lift-bind (some_or key_error (lookup name current_config)) _ _ λ current.
          Idles-then _ _ _ _ (Idles-process_identical name spec current)
            (Adds-last _ _ (Idles-process_all_identical names new_config current_config))

  Idles-process_all_new :
      (names : List String) (new_config : Fields)
      → Idles (process_all_new m false names new_config) (process_all_new m true names new_config)
  unfolding process_all_new process_new
  Idles-process_all_new [] new_config = Idles-none
  Idles-process_all_new (name ∷ names) new_config =
      Idles-lift-bind (some_or key_error (lookup name new_config)) _ _
        λ spec. Idles-suc _ (process_all_new m true names new_config)

  module _ (dep_installs : (n : ℕ) → m.raises install_dep n ≡ none) where
    dep_ok : (s : Run) → (act m install_dep s).0 ≡ ok tt
    unfolding act
    dep_ok s = rw (dep_installs s.calls) refl

    Adds-dep :
        (f g : ℕ → Exec Run ℕ)
        → Adds f g
        → Adds (λ d. act m install_dep >>= λ _. f d) (λ d. act m install_dep >>= λ _. g d)
    Adds-dep f g next = record { at = λ d s s' h. go d s s' (rw (dep_ok s') at h) }
      where
        go :
            (d : ℕ) (s s' : Run)
            → (g d (act m install_dep s').1).0 ≡ ok 0
            → (d ≡ 0)
              × (((act m install_dep >>= λ _. f 0) s).0 ≡ ok 0)
              × (changes_made ((act m install_dep >>= λ _. f 0) s).1 ≡ changes_made s)
        go d s s' h =
            let (d0, zero, kept) = next.at d (act m install_dep s).1 (act m install_dep s').1 h in
            (d0, rw (dep_ok s) zero, rw (dep_ok s) (kept ∙ (Keeps-install_dep m).at s))

    Idles-process_apps :
        (non_destructive : Bool) (new_config current_config : Fields)
        → Idles
            (process_apps m false non_destructive new_config current_config)
            (process_apps m true non_destructive new_config current_config)
    unfolding process_apps
    Idles-process_apps non_destructive new_config current_config =
        Idles-lift-bind (versions_there current_config) _ _ λ _.
          Idles-lift-bind
            (get_app_ordering m (names_outside (keys new_config) current_config) new_config) _ _
            λ new_names.
              Idles-lift-bind
                (get_app_ordering m (names_inside (keys current_config) new_config) new_config) _ _
                λ identical.
                  Idles-then _ _ _ _
                    (Idles-process_deleted (
                      if non_destructive
                      then []
                      else names_outside (keys current_config) new_config))
                    (Adds-dep _ _ (
                      Adds-two _ _ _ _
                        (Idles-process_all_identical identical new_config current_config)
                        (Idles-process_all_new new_names new_config)))

    -- If the dependency always installs and a probe counts no change, then a real run returns zero
    -- too, from whatever state, and changes no application.
    pub process_apps-idle :
        (non_destructive : Bool) (new_config current_config : Fields) (s s' : Run)
        → (process_apps m true non_destructive new_config current_config s').0 ≡ ok 0
        → ((process_apps m false non_destructive new_config current_config s).0 ≡ ok 0)
          × (changes_made (process_apps m false non_destructive new_config current_config s).1
              ≡ changes_made s)
    process_apps-idle non_destructive new_config current_config s s' h =
        (Idles-process_apps non_destructive new_config current_config).at s s' h
