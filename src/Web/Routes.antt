-- ===== src/Web/Routes.antt =====
-- The operations that requests can reach: the controllers under `V1Controller` and `V2Controller` of
-- resmgr/resmgr/controllers/root.py.
use pf9_du.Prelude.{String}
use pf9_du.Prelude.Assoc.{Assoc}
use pf9_du.Web.{Request, Conf, Handler, ResMgrProvider}
use pf9_du.Web.Roles as Roles
use pf9_du.Web.HostRoles as HostRoles
use pf9_du.Web.Hosts as Hosts

pub data Operation : Type 0 where
  get_roles post_role get_hosts : Operation
  get_role get_app_versions get_host delete_host : String → Operation
  get_role_v2 : String → String → Operation
  put_role_v2 : String → String → String → Operation
  get_hosts_v2 : Assoc String → Operation
  put_host_role delete_host_role get_host_role : String → String → Operation
  put_host_role_version : String → String → String → Operation
  post_support_bundle post_support_command put_certs get_certs : String → Operation
  get_service put_service : String → Operation

module _ {S : Type 0} (p : ResMgrProvider S) (conf : Conf) (req : Request) where
  unfoldable pub run : Operation → Handler S
  run get_roles = Roles.get_all_roles p conf req
  run post_role = Roles.post_role p conf req
  run get_hosts = Hosts.get_all_hosts p conf req
  run (get_role name) = Roles.get_role p conf req name
  run (get_app_versions name) = Roles.get_app_versions p conf req name
  run (get_host host_id) = Hosts.get_host p conf req host_id
  run (delete_host host_id) = Hosts.delete_host p conf req host_id
  run (get_role_v2 name version) = Roles.get_role_v2 p conf req name version
  run (put_role_v2 name version active) = Roles.put_role_v2 p conf req name version active
  run (get_hosts_v2 kwargs) = Hosts.get_all_hosts_v2 p conf req kwargs
  run (put_host_role host_id role_name) = HostRoles.put_host_role p conf req host_id role_name
  run (delete_host_role host_id role_name) = HostRoles.delete_host_role p conf req host_id role_name
  run (get_host_role host_id role_name) = HostRoles.get_host_role p conf req host_id role_name
  run (put_host_role_version host_id role_name version) =
      HostRoles.put_host_role_version p conf req host_id role_name version
  run (post_support_bundle host_id) = Hosts.post_support_bundle p conf req host_id
  run (post_support_command host_id) = Hosts.post_support_command p conf req host_id
  run (put_certs host_id) = Hosts.put_certs p conf req host_id
  run (get_certs host_id) = Hosts.get_certs p conf req host_id
  run (get_service service_name) = Hosts.get_service p conf req service_name
  run (put_service service_name) = Hosts.put_service p conf req service_name
