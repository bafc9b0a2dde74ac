-- ===== src/Web/Statuses.antt =====
-- The answers of the web service where its provider is `ResMgrPf9Provider`.
use pf9_du.Prelude.{String, ◌≡◌, ◌⊎◌, inl, inr, true, false, none, some, ◌==◌, Bool-cases}
use pf9_du.Json.{null}
use pf9_du.Result.{Error, Result, role_update_conflict, role_version_not_found}
use pf9_du.RoleStates.{RoleState, applied, start_deauth, pre_deauth}
use pf9_du.Db.Hosts.{role_for}
use pf9_du.RolesMgr.{World}
use pf9_du.RolesMgr.Details.{Render}
use pf9_du.RolesMgr.Moves.Outcome.{IsAt}
use pf9_du.Provider.{Hub, Broker}
use pf9_du.Provider.Roles.{add_role, delete_role}
use pf9_du.Provider.Requests.{deauth_target}
use pf9_du.Web.{
  Request, Conf, Response, answer, json_error, crash, Handler, ResMgrProvider, has_role, do_enforce,
  enforce, with_body,
}
use pf9_du.Web.HostRoles.{removal_failed, assignment_failed, put_host_role_version}

module _ (w : World) (broker : Broker) (render : Render) (rest : ResMgrProvider Hub) where
  -- The provider, with what this development models of it in place of the rest.
  abbrev pub pf9_provider : ResMgrProvider Hub
  pf9_provider = record rest {
    add_role = λ host_id role_name version host_settings.
        add_role w broker render host_id role_name version host_settings;
    delete_role = λ host_id role_name. delete_role w broker render host_id role_name true;
  }

  module _ (conf : Conf) (req : Request) (host_id role_name : String) where
    -- The removal is refused with 409 and the role stays; or it is under way with an empty answer, or
    -- the answer is that of an exception on the way.
    abbrev pub IsAnswered : RoleState → Response × Hub → Type 0
    IsAnswered s0 o =
        ((deauth_target s0 ≡ none)
          × (o.0 ≡ json_error 409 role_update_conflict)
          × IsAt host_id role_name s0 o.1.sys)
        ⊎ ((deauth_target s0 ≡ some start_deauth)
            × (((o.0 ≡ answer null) × IsAt host_id role_name pre_deauth o.1.sys)
                ⊎ ((e : Error) × (o.0 ≡ removal_failed e)
                    × (IsAt host_id role_name start_deauth o.1.sys
                        ⊎ IsAt host_id role_name applied o.1.sys))))

    allowed :
        (handler : Handler Hub) (s : Hub)
        → has_role "admin" req.x_roles ≡ true
        → enforce conf req handler s ≡ handler s
    unfolding enforce
    allowed handler s a = elim (Bool-cases (do_enforce conf.resmgr)) [
      | inl e ↦ rw (e, a)
      | inr e ↦ rw e
    ]

    -- An administrator who asks for a version of a role that there is not, with an empty body, gets no
    -- answer of the service's own: the exception `RoleVersionNotFound` is caught by no handler. Nothing
    -- has changed.
    pub put_host_role_version-crashes :
        (version : String) (s : Hub)
        → has_role "admin" req.x_roles ≡ true
        → (req.body == "") ≡ true
        → (version == "") ≡ false
        → role_for role_name (some version) s.sys.db ≡ none
        → put_host_role_version pf9_provider conf req host_id role_name version s
          ≡ (crash role_version_not_found, s)
    unfolding put_host_role_version with_body add_role assignment_failed
    put_host_role_version-crashes version s admin empty named absent =
        rw (allowed _ s admin, empty, absent, named)
