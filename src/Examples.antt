-- ===== src/Examples.antt =====
-- A host and a role to run the code on; the modules below apply the theorems to them. No code of the
-- repository is modelled here.
mod Roles
mod Configs
mod Tables
mod Messages
mod Session
mod Master
mod Hosts
mod Apps
mod Certs
mod Provider
mod Web
mod Packages
use pf9_du.Prelude.{
  ◌≡◌, refl, ℕ, String, Bool, true, false, Option, none, some, List, [], ◌∷◌, ◌==◌,
}
use pf9_du.Json.{Json, Fields, null, str, dict, end, field}
use pf9_du.RoleStates.{RoleState}
use pf9_du.Db.{Db, Role, Host, HostRoleAssociation, RabbitCredential}
use pf9_du.Db.{role_ids, is_assoc_of}
use pf9_du.Db.Associations.Laws.{view, states_of}
use pf9_du.RolesMgr.Moves.Outcome.{IsAt}
use pf9_du.RolesMgr.{World, Sys, HostDetails}

-- A role with one app, whose authorization runs a script.
abbrev pub app : Fields
app = field "version" (str "1.0") (
    field "config" (dict end) (
      field "du_config"
        (dict (
          field "auth_events"
            (dict (field "type" (str "python") (field "module_path" (str "/opt/nova.py") end)))
            end))
        end))

abbrev pub apps : Fields
apps = field "pf9-nova" (dict app) end

abbrev pub nova : Role
nova = record {
  id = "nova_1.0";
  rolename = "nova";
  version = "1.0";
  displayname = "Nova";
  description = "Compute";
  desiredconfig = apps;
  active = true;
  customizable_settings = end;
  rabbit_permissions = null;
}

abbrev pub one_host : Host
one_host = record {
  id = "h1";
  hostname = "node1";
  hostosfamily = "Linux";
  hostarch = "x86_64";
  hostosinfo = "centos";
  lastresponsetime = none;
  responding = true;
  role_settings = end;
}

abbrev pub credential : RabbitCredential
credential = record { host_id = "h1"; rolename = "nova"; userid = "user1"; password = "secret" }

-- The database with the role on the host in a state.
abbrev pub db_at : RoleState → Db
db_at state = record {
  roles = nova ∷ [];
  hosts = one_host ∷ [];
  assocs = record { host_id = "h1"; role_id = "nova_1.0"; current_state = state } ∷ [];
  credentials = credential ∷ [];
}

abbrev pub sys_at : RoleState → Sys
sys_at state = record { db = db_at state; calls = 0; trace = []; last_config_push_time = [] }

-- Every file is there and every request succeeds; the events do or do not.
abbrev pub world_where : Bool → World
world_where good = record {
  is_file = λ path. true;
  event_succeeds = λ method spec n. good;
  put = λ host config n. some true;
  now = λ n. n;
  post_bundle = λ host n. some true;
}

abbrev pub details : HostDetails
details = record {
  hostname = "node1";
  apps_config = apps;
  apps_config_including_deauthed_roles = apps;
  role_settings = end;
  role_details = nova ∷ [];
}

pub found-IsAt : (s : RoleState) → IsAt "h1" "nova" s (sys_at s)
unfolding view states_of role_ids is_assoc_of
found-IsAt s = refl
