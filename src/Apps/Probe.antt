-- ===== src/Apps/Probe.antt =====
-- What `probe_only` promises: nothing is changed, and the changes are counted.
use pf9_du.Prelude.{
  ◌+◌, String, ◌≡◌, refl, ◌∙◌, Bool, true, false, List, [], ◌∷◌, ◌++◌, arith, select, if◌then◌else◌,
}
use pf9_du.Json.{Json, Fields, dict, lookup, keys}
use pf9_du.Result.{Result, ok, err, key_error, some_or}
use pf9_du.Exec.{Exec, ◌>>=◌, continue, lift}
use pf9_du.RoleSettings.{index}
use pf9_du.Apps.Calls.{Action, Machine, Run, install_dep, get_app_ordering}
use pf9_du.Apps.{
  act, change_version, change_config, change_services, update_app, process_identical, process_new,
  process_deleted, process_all_identical, process_all_new, process_apps, services_of,
  current_services_of, versions_there, names_inside, names_outside,
}

abbrev pub is_change : Action → Bool
is_change install_dep = false
is_change _ = true

-- The calls that change no application, which are all but the one of `install_dep`.
abbrev pub changes_made : Run → List Action
changes_made s = select is_change s.trace

-- A run that changes nothing.
pub record Keeps {A : Type 0} (run : Exec Run A) : Type 0 where
  pub at : (s : Run) → changes_made (run s).1 ≡ changes_made s

Keeps-bind :
    {A B : Type 0} (run : Exec Run A) (f : A → Exec Run B)
    → Keeps run
    → ((a : A) → Keeps (f a))
    → Keeps (run >>= f)
Keeps-bind {A} {B} run f kr kf = record { at = λ s. let (r, s') = run s in after r s' (kr.at s) }
  where
    after :
        (r : Result A) (s' : Run) {l : List Action}
        → changes_made s' ≡ l
        → changes_made (continue r f s').1 ≡ l
    after (ok a) s' e = (kf a).at s' ∙ e
    after (err x) s' e = e

Keeps-lift : {A : Type 0} (r : Result A) → Keeps (lift {S = Run} r)
Keeps-lift r = record { at = λ s. refl }

select-snoc :
    (p : Action → Bool) (l : List Action) (a : Action)
    → p a ≡ false
    → select p (l ++ a ∷ []) ≡ select p l
select-snoc p [] a h = ground arith
select-snoc p (b ∷ l) a h = ground (arith, select-snoc p l a h)

module _ (m : Machine) where
  pub Keeps-install_dep : Keeps (act m install_dep)
  unfolding act
  Keeps-install_dep = record { at = λ s. select-snoc is_change s.trace install_dep refl }

  Keeps-change_config :
      (name : String) (config current : Json) → Keeps (change_config m true name config current)
  unfolding change_config
  Keeps-change_config name config current = record { at = λ s. ground arith }

  Keeps-change_services :
      (name : String) (services current : Json)
      → Keeps (change_services m true name services current)
  unfolding change_services
  Keeps-change_services name services current = record { at = λ s. ground arith }

  Keeps-update_app :
      (name : String) (spec : Fields) (config current : Json)
      → Keeps (update_app m true name spec config current)
  unfolding update_app
  Keeps-update_app name spec config current =
      Keeps-bind _ _ (Keeps-lift (index current "config")) λ c.
        Keeps-bind _ _ (Keeps-change_config name config c) λ n.
          Keeps-bind _ _ (Keeps-lift (services_of m name spec)) λ services.
            Keeps-bind _ _ (Keeps-lift (current_services_of m name current)) λ current_services.
              Keeps-bind _ _ (Keeps-change_services name services current_services)
                λ k. Keeps-lift (ok (n + k))

  Keeps-if :
      {A : Type 0} (b : Bool) (x y : Exec Run A) → Keeps x → Keeps y → Keeps (if b then x else y)
  Keeps-if true x y kx ky = kx
  Keeps-if false x y kx ky = ky

  Keeps-process_identical :
      (name : String) (spec current : Json) → Keeps (process_identical m true name spec current)
  unfolding process_identical change_version
  Keeps-process_identical name (dict spec) current =
      Keeps-bind _ _ (Keeps-lift (index (dict spec) "config")) λ config.
        Keeps-bind _ _ (Keeps-lift (index current "version")) λ installed.
          Keeps-bind _ _ (Keeps-lift (index (dict spec) "version")) λ version.
            Keeps-if _ _ _ (Keeps-update_app name spec config current) (Keeps-lift (ok 1))
  Keeps-process_identical name _ current = record { at = λ s. refl }

  Keeps-process_deleted : (names : List String) → Keeps (process_deleted m true names)
  unfolding process_deleted
  Keeps-process_deleted [] = Keeps-lift (ok 0)
  Keeps-process_deleted (name ∷ names) =
      Keeps-bind _ _ (Keeps-process_deleted names) λ n. Keeps-lift (ok (1 + n))

  Keeps-process_all_identical :
      (names : List String) (new_config current_config : Fields)
      → Keeps (process_all_identical m true names new_config current_config)
  unfolding process_all_identical
  Keeps-process_all_identical [] new_config current_config = Keeps-lift (ok 0)
  Keeps-process_all_identical (name ∷ names) new_config current_config =
      Keeps-bind _ _ (Keeps-lift (some_or key_error (lookup name new_config))) λ spec.
        Keeps-bind _ _ (Keeps-lift (some_or key_error (lookup name current_config))) λ current.
          Keeps-bind _ _ (Keeps-process_identical name spec current) λ n.
            Keeps-bind _ _ (Keeps-process_all_identical names new_config current_config)
              λ k. Keeps-lift (ok (n + k))

  Keeps-process_all_new :
      (names : List String) (new_config : Fields) → Keeps (process_all_new m true names new_config)
  unfolding process_all_new process_new
  Keeps-process_all_new [] new_config = Keeps-lift (ok 0)
  Keeps-process_all_new (name ∷ names) new_config =
      Keeps-bind _ _ (Keeps-lift (some_or key_error (lookup name new_config)))
        λ spec. Keeps-bind _ _ (Keeps-process_all_new names new_config) λ k. Keeps-lift (ok (1 + k))

  Keeps-process_apps :
      (non_destructive : Bool) (new_config current_config : Fields)
      → Keeps (process_apps m true non_destructive new_config current_config)
  unfolding process_apps
  Keeps-process_apps non_destructive new_config current_config =
      Keeps-bind _ _ (Keeps-lift (versions_there current_config)) λ _.
        Keeps-bind _ _
          (Keeps-lift
            (get_app_ordering m (names_outside (keys new_config) current_config) new_config))
          λ new_names.
            Keeps-bind _ _
              (Keeps-lift
                (get_app_ordering m (names_inside (keys current_config) new_config) new_config))
              λ identical.
                Keeps-bind _ _
                  (Keeps-process_deleted (
                    if non_destructive then [] else names_outside (keys current_config) new_config))
                  λ d. Keeps-bind _ _ Keeps-install_dep λ _.
                    Keeps-bind _ _ (Keeps-process_all_identical identical new_config current_config)
                      λ n.
                        Keeps-bind _ _ (Keeps-process_all_new new_names new_config)
                          λ k. Keeps-lift (ok (d + (n + k)))

  -- With `probe_only`, no application is changed, whatever is raised on the way: of the calls on
  -- applications, only that of `install_dep` is made.
  pub process_apps-probe_only :
      (non_destructive : Bool) (new_config current_config : Fields) (s : Run)
      → changes_made (process_apps m true non_destructive new_config current_config s).1
        ≡ changes_made s
  process_apps-probe_only non_destructive new_config current_config s =
      (Keeps-process_apps non_destructive new_config current_config).at s
