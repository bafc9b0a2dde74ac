-- ===== src/Web.antt =====
-- The web service of the resource manager: resmgr/resmgr/controllers/resmgr_controller.py, with
-- enforce_policy.py. This file has the requests, the answers, and the interface of the provider
-- (resmgr/resmgr/resmgr_provider.py) that the controllers are clients of.
pub mod Roles
pub mod HostRoles
pub mod Hosts
pub mod Routes
pub mod Policy
pub mod Statuses
use pf9_du.Prelude.{
  ℕ, String, Bool, true, false, not, ◌&&◌, Option, none, some, List, [], ◌∷◌, any, ◌==◌,
  if◌then◌else◌,
}
use Prim.Native.Char.{code}
use Prim.Native.String
use pf9_du.Json.{Json, Items, Fields, dict, nil, cons, end, field, lookup, truthy}
use pf9_du.Result.{Error, Result, ok, err, malformed_request}
use pf9_du.Exec.{Exec}
use pf9_du.Prelude.{nat_eq}

-- The header, the text of the body, and what the framework reads in it.
pub record Request : Type 0 where
  pub x_roles : Option String
  pub body : String
  pub json_body : Result Json

-- `pecan.conf.resmgr`, where it is there, and the lower case of a text.
pub record Conf : Type 0 where
  pub resmgr : Option Fields
  pub lower : String → String

-- An answer with a value; `abort` of the framework; an error with the name and the message of an
-- exception; or an exception that no handler catches.
pub data Response : Type 0 where
  answer : Json → Response
  abort : ℕ → Response
  json_error : ℕ → Error → Response
  crash : Error → Response

abbrev pub Handler : Type 0 → Type 0
Handler S = S → Response × S

-- The operations of a provider.
pub record ResMgrProvider (S : Type 0) : Type 0 where
  pub get_all_roles : Exec S Fields
  pub get_role : String → Exec S Fields
  pub get_role_with_version : String → String → Exec S Fields
  pub get_app_versions : String → Exec S Fields
  pub create_role : Fields → Exec S (Unit {0})
  pub mark_role_version_active : String → String → String → Exec S (Unit {0})
  pub get_host : String → Exec S Fields
  pub get_all_hosts : Option Bool → Exec S Fields
  pub delete_host : String → Exec S (Unit {0})
  pub add_role : String → String → Option String → Fields → Exec S (Unit {0})
  pub delete_role : String → String → Exec S (Unit {0})
  pub get_custom_settings : String → String → Exec S Fields
  pub request_support_bundle : String → Json → Exec S (Unit {0})
  pub run_support_command : String → Json → Exec S (Unit {0})
  pub request_cert_refresh : String → Exec S (Unit {0})
  pub get_cert_info : String → Exec S Json
  pub get_service_settings : String → Exec S Fields
  pub set_service_settings : String → Fields → Exec S (Unit {0})

abbrev pub is_empty : Fields → Bool
is_empty end = true
is_empty (field k v f) = false

-- `[val for val in itervalues(out)]`
unfoldable pub values : Fields → Items
values end = nil
values (field k v f) = cons v (values f)

abbrev pub respond : {A : Type 0} → (A → Response) → (Error → Response) → Result A → Response
respond done failed (ok a) = done a
respond done failed (err e) = failed e

module _ {S : Type 0} where
  -- `try: return done(m)`, with a handler of exceptions.
  abbrev pub attempt : {A : Type 0} → Exec S A → (A → Response) → (Error → Response) → Handler S
  attempt m done failed s = let (r, s') = m s in (respond done failed r, s')

  abbrev pub proceed : {A : Type 0} → (A → Handler S) → Result A → Handler S
  proceed k (ok a) s = k a s
  proceed k (err e) s = (crash e, s)

  -- A call outside of every `try`.
  abbrev pub call : {A : Type 0} → Exec S A → (A → Handler S) → Handler S
  call m k s = let (r, s') = m s in proceed k r s'

  abbrev pub refuse : ℕ → Handler S
  refuse status s = (abort status, s)

  -- `_validate_incoming_request_body`, whose exception is a 400 in each of its callers, and
  -- the same tests in `ServicesController.put`.
  unfoldable pub with_body : Request → (Fields → Handler S) → Handler S
  with_body req k = if req.body == "" then k end else elim req.json_body [
    | ok v ↦ elim v [ dict f ↦ k f | _ ↦ refuse 400 ]
    | err e ↦ refuse 400
  ]

-- `s.split(',')`
unfoldable pub split_commas : String → List String
split_commas String.[] = "" ∷ []
split_commas (String.◌∷◌ c s) =
    let rest = split_commas s in
    if nat_eq (code c) b','
    then "" ∷ rest
    else elim rest [ [] ↦ String.◌∷◌ c "" ∷ [] | w ∷ ws ↦ String.◌∷◌ c w ∷ ws ]

unfoldable pub has_role : String → Option String → Bool
unfolding split_commas
has_role role none = false
has_role role (some hdr) = if hdr == "" then false else any (λ r. r == role) (split_commas hdr)

-- Without the configuration, or without the key, the policy is enforced.
unfoldable pub do_enforce : Option Fields → Bool
do_enforce none = true
do_enforce (some resmgr) = elim (lookup "enforce_policy" resmgr) [ none ↦ true | some v ↦ truthy v ]

-- The decorator `enforce(required=['admin'])`.
unfoldable pub enforce : {S : Type 0} → Conf → Request → Handler S → Handler S
unfolding do_enforce has_role
enforce conf req handler =
    if do_enforce conf.resmgr && not (has_role "admin" req.x_roles) then refuse 403 else handler
