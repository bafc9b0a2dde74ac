-- ===== src/RoleStates.antt =====
-- The states of a role on a host and their legal transitions (resmgr/resmgr/role_states.py).
-- A `_RoleState` object is a constructor of `RoleState`; `==` on them compares the names.
pub mod Graph
use mathlib.Core.Option
use pf9_du.Prelude.{
  String, Bool, true, false, Option, none, some, List, [], ◌∷◌, ◌==◌, any, if◌then◌else◌,
}

pub data RoleState : Type 0 where
  not_applied start_apply pre_auth auth_converging auth_converged auth_error applied : RoleState
  start_edit start_deauth pre_deauth deauth_converging deauth_converged deauth_error : RoleState

-- `str(state)`
unfoldable pub name : RoleState → String
name not_applied = "not-applied"
name start_apply = "start-apply"
name pre_auth = "pre-auth"
name auth_converging = "auth-converging"
name auth_converged = "auth-converged"
name auth_error = "auth-error"
name applied = "applied"
name start_edit = "start-edit"
name start_deauth = "start-deauth"
name pre_deauth = "pre-deauth"
name deauth_converging = "deauth-converging"
name deauth_converged = "deauth-converged"
name deauth_error = "deauth-error"

unfoldable pub valid_next : RoleState → List String
valid_next not_applied = "start-apply" ∷ []
valid_next start_apply = "not-applied" ∷ "pre-auth" ∷ []
valid_next pre_auth = "auth-converging" ∷ []
valid_next auth_converging = "auth-converged" ∷ "auth-error" ∷ []
valid_next auth_converged = "applied" ∷ "auth-error" ∷ []
valid_next auth_error = "start-apply" ∷ "start-deauth" ∷ []
valid_next applied = "start-edit" ∷ "start-deauth" ∷ []
valid_next start_edit = "pre-auth" ∷ "applied" ∷ []
valid_next start_deauth = "pre-deauth" ∷ "applied" ∷ []
valid_next pre_deauth = "deauth-converging" ∷ []
valid_next deauth_converging = "deauth-converged" ∷ "deauth-error" ∷ []
valid_next deauth_converged = "deauth-error" ∷ "not-applied" ∷ []
valid_next deauth_error = "start-deauth" ∷ []

-- The registry `_RoleState.roles`, filled by the constructor calls of the module.
unfoldable pub roles : List RoleState
roles =
    not_applied ∷ start_apply ∷ pre_auth ∷ auth_converging ∷ auth_converged ∷ auth_error ∷ applied
    ∷ start_edit ∷ start_deauth ∷ pre_deauth ∷ deauth_converging ∷ deauth_converged ∷ deauth_error
    ∷ []

find : String → List RoleState → Option RoleState
find key [] = none
find key (s ∷ rest) = if name s == key then some s else find key rest

-- `none` is the `KeyError`.
unfoldable pub from_name : String → Option RoleState
unfolding find roles name
from_name key = find key roles

-- `==` of two states, or of a state and a name: the names are compared.
unfoldable pub state_eq : RoleState → RoleState → Bool
unfolding name
state_eq s t = name s == name t

-- `x in [...]` over a list of states.
unfoldable pub state_in : RoleState → List RoleState → Bool
unfolding state_eq
state_in s states = any (λ t. state_eq s t) states

-- The old state is given as a state object.
unfoldable pub legal_transition : RoleState → RoleState → Bool
unfolding valid_next name
legal_transition old new = any (λ n. name new == n) (valid_next old)

-- The old state is given by its name.
unfoldable pub legal_transition_from_name : String → RoleState → Option Bool
unfolding from_name legal_transition
legal_transition_from_name old new = Option.map (λ s. legal_transition s new) (from_name old)

unfoldable pub role_is_authed : String → Option Bool
unfolding from_name state_in
role_is_authed key =
    Option.map
      (λ s. state_in s (
        applied ∷ start_apply ∷ start_edit ∷ pre_auth ∷ auth_converging ∷ auth_converged
        ∷ auth_error ∷ []))
      (from_name key)

unfoldable pub role_is_failed : String → Option Bool
unfolding from_name state_in
role_is_failed key = Option.map (λ s. state_in s (deauth_error ∷ auth_error ∷ [])) (from_name key)

unfoldable pub role_is_converging : String → Option Bool
unfolding from_name state_in
role_is_converging key =
    Option.map
      (λ s. state_in s (
        start_apply ∷ start_edit ∷ pre_auth ∷ auth_converging ∷ auth_converged ∷ start_deauth
        ∷ pre_deauth ∷ deauth_converging ∷ deauth_converged ∷ []))
      (from_name key)
