-- ===== src/RolesMgr/Moves/Keeps.antt =====
-- The bodies of the moves leave the database alone: only the moves themselves write to it.
use pf9_du.Prelude.{String, ◌≡◌, refl, ◌∙◌, Bool, false, Option, none, some, List, [], ◌∷◌, arith}
use pf9_du.Json.{Json, Fields, str, dict, end, field, lookup}
use pf9_du.Result.{Result, ok, err}
use pf9_du.Exec.{Exec, ◌>>=◌, continue, lift}
use pf9_du.Db.{Db, RabbitCredential}
use pf9_du.RolesMgr.{
  World, Sys, HostDetails, EventMethod, get_current_app_config, run_event, run_app_events,
  event_spec_of, push_configuration, delete_rabbit_credentials, run_module, run_python_event,
  run_found, role_apps_of,
}
use pf9_du.RolesMgr.Moves.{run_auth_event, push_current, remove_and_push}

-- The calls that leave the database alone.
pub record KeepsDb {A : Type 0} (m : Exec Sys A) : Type 0 where
  pub at : (s : Sys) → (m s).1.db ≡ s.db

KeepsDb-bind :
    {A B : Type 0} (m : Exec Sys A) (f : A → Exec Sys B)
    → KeepsDb m
    → ((a : A) → KeepsDb (f a))
    → KeepsDb (m >>= f)
KeepsDb-bind {A} {B} m f km kf = record { at = λ s. let (r, s') = m s in after r s' (km.at s) }
  where
    after : (r : Result A) (s' : Sys) {db : Db} → s'.db ≡ db → (continue r f s').1.db ≡ db
    after (ok a) s' e = (kf a).at s' ∙ e
    after (err x) s' e = e

KeepsDb-lift : {A : Type 0} (r : Result A) → KeepsDb (lift {S = Sys} r)
KeepsDb-lift r = record { at = λ s. refl }

module _ (w : World) where
  run_module-KeepsDb :
      (method : EventMethod) (spec : Fields) (path : Option Json)
      → KeepsDb (run_module w method spec path)
  unfolding run_module
  run_module-KeepsDb method spec none = record { at = λ s. refl }
  run_module-KeepsDb method spec (some (str path)) = record { at = λ s. ground arith }
  run_module-KeepsDb method spec (some v) = record { at = λ s. refl }

  run_python_event-KeepsDb :
      (method : EventMethod) (spec : Fields) → KeepsDb (run_python_event w method spec)
  unfolding run_python_event
  run_python_event-KeepsDb method spec = run_module-KeepsDb method spec (lookup "module_path" spec)

  run_found-KeepsDb :
      (method : EventMethod) (details : Json) (spec : Option Json)
      → KeepsDb (run_found w method details spec)
  unfolding run_found
  run_found-KeepsDb method details none = record { at = λ s. refl }
  run_found-KeepsDb method details (some (dict spec)) = record {
    at = λ s. ground (arith, (run_python_event-KeepsDb method _).at s);
  }
  run_found-KeepsDb method details (some v) = record { at = λ s. refl }

  run_app_events-KeepsDb :
      (method : EventMethod) (role_apps : List String) (f : Fields)
      → KeepsDb (run_app_events w method role_apps f)
  unfolding run_app_events
  run_app_events-KeepsDb method role_apps end = record { at = λ s. refl }
  run_app_events-KeepsDb method role_apps (field k v f) =
      KeepsDb-bind (run_found w method v (event_spec_of k role_apps v)) _
        (run_found-KeepsDb method v _) (λ _. run_app_events-KeepsDb method role_apps f)

  pub run_event-KeepsDb :
      (method : EventMethod) (role_name : String) (app_config : Fields)
      → KeepsDb (run_event w method role_name app_config)
  unfolding run_event
  run_event-KeepsDb method role_name app_config = record {
    at = λ s.
        (KeepsDb-bind (lift (role_apps_of w role_name app_config s.db)) _
            (KeepsDb-lift (role_apps_of w role_name app_config s.db))
            (λ role_apps. run_app_events-KeepsDb method role_apps app_config)).at
          s;
  }

  push_configuration-KeepsDb :
      (host_id : String) (app_info : Fields) → KeepsDb (push_configuration w host_id app_info)
  unfolding push_configuration
  push_configuration-KeepsDb host_id app_info = record { at = λ s. ground arith }

  delete_rabbit_credentials-KeepsDb :
      (l : List RabbitCredential) → KeepsDb (delete_rabbit_credentials w l)
  unfolding delete_rabbit_credentials
  delete_rabbit_credentials-KeepsDb [] = record { at = λ s. refl }
  delete_rabbit_credentials-KeepsDb (c ∷ l) = record {
    at = λ s. (delete_rabbit_credentials-KeepsDb l).at _;
  }

module _ (w : World) (host_id : String) (host_details : HostDetails) (role_name : String) where
  pub run_auth_event-KeepsDb :
      (method : EventMethod) (include : Bool)
      → KeepsDb (run_auth_event w host_id host_details role_name method include)
  unfolding run_auth_event
  run_auth_event-KeepsDb method include =
      KeepsDb-bind (lift (get_current_app_config host_details include)) _ (KeepsDb-lift _)
        (λ app_info. run_event-KeepsDb w method role_name app_info)

  pub push_current-KeepsDb : KeepsDb (push_current w host_id host_details role_name)
  unfolding push_current
  push_current-KeepsDb =
      KeepsDb-bind (lift (get_current_app_config host_details false)) _ (KeepsDb-lift _)
        (λ app_info. push_configuration-KeepsDb w host_id app_info)

  pub remove_and_push-KeepsDb : KeepsDb (remove_and_push w host_id host_details role_name)
  unfolding remove_and_push
  remove_and_push-KeepsDb = record {
    at = λ s.
        (KeepsDb-bind (delete_rabbit_credentials w _) _ (delete_rabbit_credentials-KeepsDb w _)
            (λ _. push_current-KeepsDb)).at
          s;
  }
