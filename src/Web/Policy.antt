-- ===== src/Web/Policy.antt =====
-- What a request can do that comes without the role of an administrator.
use pf9_du.Prelude.{
  String, ◌≡◌, ◌⊎◌, sym, subst, Bool, true, false, not, ◌||◌, Option, none, some, [], ◌∷◌, ◌==◌,
  if◌then◌else◌, Bool-cases, inl, inr,
}
use pf9_du.Prelude.Assoc.{Assoc}
use pf9_du.Result.{Result, ok, err}
use pf9_du.Exec.{Exec}
use pf9_du.Exec.Invariants.{Preserves}
use pf9_du.Web.{
  Request, Conf, abort, Handler, ResMgrProvider, proceed, call, refuse, do_enforce, has_role,
  enforce,
}
use pf9_du.Web.Roles as Roles
use pf9_du.Web.HostRoles as HostRoles
use pf9_du.Web.Hosts as Hosts
use pf9_du.Web.Routes.{
  Operation, run, get_roles, get_role, get_role_v2, get_app_versions, get_hosts, get_hosts_v2,
  get_host, get_host_role,
}

-- The operations for everybody: reading roles, hosts, and the settings of a role on a host.
abbrev pub is_open : Operation → Bool
is_open get_roles = true
is_open (get_role name) = true
is_open (get_role_v2 name version) = true
is_open (get_app_versions name) = true
is_open get_hosts = true
is_open (get_hosts_v2 kwargs) = true
is_open (get_host host_id) = true
is_open (get_host_role host_id role_name) = true
is_open _ = false

module _ {S : Type 0} (p : ResMgrProvider S) (conf : Conf) (req : Request) where
  -- The provider's answers to these keep `P`.
  pub record ReadsPreserve (P : S → Type 0) : Type 0 where
    pub roles : Preserves P p.get_all_roles
    pub role : (name : String) → Preserves P (p.get_role name)
    pub role_version : (name version : String) → Preserves P (p.get_role_with_version name version)
    pub app_versions : (name : String) → Preserves P (p.get_app_versions name)
    pub host : (host_id : String) → Preserves P (p.get_host host_id)
    pub hosts : (role_settings : Option Bool) → Preserves P (p.get_all_hosts role_settings)
    pub settings :
        (host_id role_name : String) → Preserves P (p.get_custom_settings host_id role_name)

  enforce-refuses :
      (handler : Handler S) (s : S)
      → do_enforce conf.resmgr ≡ true
      → has_role "admin" req.x_roles ≡ false
      → enforce conf req handler s ≡ (abort 403, s)
  unfolding enforce
  enforce-refuses handler s e h = rw (e, h)

  -- If the policy is enforced, and the request has not the role of an administrator, then every
  -- operation but the open ones is refused, and the provider is not called.
  closed :
      (o : Operation) (s : S)
      → do_enforce conf.resmgr ≡ true
      → has_role "admin" req.x_roles ≡ false
      → is_open o ≡ false
      → run p conf req o s ≡ (abort 403, s)
  unfolding run Roles.post_role Roles.put_role_v2 HostRoles.put_host_role
      HostRoles.put_host_role_version HostRoles.delete_host_role Hosts.delete_host
      Hosts.post_support_bundle Hosts.post_support_command Hosts.put_certs Hosts.get_certs
      Hosts.get_service Hosts.put_service
  closed get_roles s e h o = cc
  closed (get_role name) s e h o = cc
  closed (get_role_v2 name version) s e h o = cc
  closed (get_app_versions name) s e h o = cc
  closed get_hosts s e h o = cc
  closed (get_hosts_v2 kwargs) s e h o = cc
  closed (get_host host_id) s e h o = cc
  closed (get_host_role host_id role_name) s e h o = cc
  closed _ s e h o = enforce-refuses _ s e h

  module _ (P : S → Type 0) where
    call-Preserves :
        {A : Type 0} (m : Exec S A) (k : A → Handler S) (s : S)
        → P (m s).1
        → ((a : A) (t : S) → P t → P (k a t).1)
        → P (call m k s).1
    call-Preserves m k s h keep = let (r, t) = m s in after r t h
      where
        after : (r : Result _) (t : S) → P t → P (proceed k r t).1
        after (ok a) t h = keep a t h
        after (err e) t h = h

    module _ (reads : ReadsPreserve P) where
      list_hosts-Preserves :
          (role_settings : Option Bool) (s : S)
          → P s
          → P (Hosts.list_hosts p conf req role_settings s).1
      list_hosts-Preserves role_settings s h =
          call-Preserves (p.get_all_hosts role_settings) _ s ((reads.hosts role_settings).at s h)
            λ res t k. k

      check_params-Preserves :
          (kwargs : Assoc String) (role_settings : Option Bool) (s : S)
          → P s
          → P (Hosts.check_params p conf req kwargs role_settings s).1
      check_params-Preserves [] role_settings s h = list_hosts-Preserves role_settings s h
      check_params-Preserves ((key, val) ∷ rest) role_settings s h =
          refused_or (not (key == "role_settings"))
            (not (conf.lower val == "true" || conf.lower val == "false"))
            (Hosts.check_params p conf req rest (some (conf.lower val == "true")))
            (check_params-Preserves rest (some (conf.lower val == "true")) s h)
        where
          refused_or :
              (b c : Bool) (next : Handler S)
              → P (next s).1
              → P ((if b then refuse 400 else if c then refuse 400 else next) s).1
          refused_or true c next k = h
          refused_or false true next k = h
          refused_or false false next k = k

      open-Preserves : (o : Operation) (s : S) → is_open o ≡ true → P s → P (run p conf req o s).1
      unfolding run Roles.get_all_roles Roles.get_role Roles.get_role_v2 Roles.get_app_versions
          Hosts.get_all_hosts Hosts.get_all_hosts_v2 Hosts.get_host HostRoles.get_host_role
      open-Preserves get_roles s o h =
          call-Preserves p.get_all_roles _ s (reads.roles.at s h) λ out t k. k
      open-Preserves (get_role name) s o h =
          call-Preserves (p.get_role name) _ s ((reads.role name).at s h) λ out t k. k
      open-Preserves (get_role_v2 name version) s o h =
          (reads.role_version name (conf.lower version)).at s h
      open-Preserves (get_app_versions name) s o h =
          call-Preserves (p.get_app_versions name) _ s ((reads.app_versions name).at s h)
            λ out t k. k
      open-Preserves get_hosts s o h = list_hosts-Preserves none s h
      open-Preserves (get_hosts_v2 kwargs) s o h = check_params-Preserves kwargs (some false) s h
      open-Preserves (get_host host_id) s o h =
          call-Preserves (p.get_host host_id) _ s ((reads.host host_id).at s h) λ out t k. k
      open-Preserves (get_host_role host_id role_name) s o h =
          (reads.settings host_id role_name).at s h
      open-Preserves _ s o h = cc

      -- If the policy is enforced, and the request has not the role of an administrator, then it is
      -- for an open operation, or it is refused and the provider is not called; and what the
      -- provider's reading calls keep is kept, whatever is requested.
      pub run-unprivileged :
          (o : Operation) (s : S)
          → do_enforce conf.resmgr ≡ true
          → has_role "admin" req.x_roles ≡ false
          → P s
          → ((is_open o ≡ true) ⊎ (run p conf req o s ≡ (abort 403, s))) × P (run p conf req o s).1
      run-unprivileged o s e a h = elim (Bool-cases (is_open o)) [
        | inl open_to_all ↦ (inl open_to_all, open-Preserves o s open_to_all h)
        | inr shut ↦
            let refused = closed o s e a shut in (inr refused, subst (λ r. P r.1) (sym refused) h)
      ]
