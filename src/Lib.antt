-- ===== src/Lib.antt =====
-- Verification of the resource manager and the agents of pf9-du, the deployment unit that keeps the
-- roles of hosts: which applications a host should run, and in which state each role is.
--
-- The parts of the program and the files that model them:
-- Json: the values that Python reads from JSON; dictionaries keep their order and have the
--   operations of `dict`.
-- Config: `is_dict_subset` (lib/configutils/configutils/configutils.py) and `is_satisfied_by`
--   (bbone/lib/bbcommon/utils.py), by which the agent and the resource manager decide that a host has
--   the configuration it should have.
-- RoleStates: resmgr/resmgr/role_states.py, the states of a role on a host and the transitions.
-- Db: the tables of resmgr/resmgr/dbutils.py, and in Db/Associations the compare-and-swap of a
--   role's state. A table is a list of records, a call of `ResMgrDB` is a transaction.
-- DictSubst, RoleSettings, RolesMgr: token substitution (resmgr/resmgr/dict_subst.py), custom
--   settings, and `RolesMgr` of resmgr/resmgr/resmgr_provider_pf9.py: auth events, configuration
--   pushes, and in RolesMgr/Moves the moves between states, each a body that runs between two states.
-- Poller: `BbonePoller` of the same file, which moves the roles of a host on; Poller/Messages keeps
--   its messages about hosts.
-- Apps: `process_apps` of bbone/pf9app/pf9app/algorithms.py on the agent's side. The calls of the
--   application objects are a trace, and what they answer is the record `Machine`.
-- Db/Roles keeps one version of a role active, Db/Hosts the rows of the hosts with their custom
--   settings. RolesMgr/Details computes from the tables what the moves read of a host,
--   RolesMgr/Creation and RolesMgr/Versions are the calls on roles and their versions.
-- Provider: the requests of `ResMgrPf9Provider` in the same file, adding a role to a host and removing
--   it. Rendering a configuration (Python's `%` over the environment) is the argument `render`, the
--   message broker's management interface the record `Broker`.
-- Session: `start` of bbone/bbslave/bbslave/session.py with its nested functions: Session/Messages has
--   `handle_msg`, Session/Connection the callbacks and the heartbeat, Session/Report the status, Session/Extensions the scripts that add to it,
--   Session/Support bundles and commands, Session/Update the update of the agent. What the session
--   calls is the record `Host`. Session/Core is what most calls leave alone, and has the abstract session
--   that `handle_msg` refines.
-- Master: `bbone_provider_memory` and `bbone_provider_pf9` of bbone/bbmaster/bbmaster: Master/Sending is
--   the way of a message from `_send_msg` to the broker, Master/Receiving is `consume_msg`,
--   Master/Requests what requests call, Master/Firmware the applications that each host gets. The broker
--   and the files are the record `Setting`. Master/Heard joins the agent's status to the master's table.
-- Poller/Hosts: a round of `BbonePoller.process_hosts` over new, absent and existing hosts. What the
--   backbone answers is the record `Backbone`.
-- Certs: the certificates of a host, bbone/bbslave/bbslave/certs.py and cert_update_thread.py: Certs/Files
--   has the files with their backups, Certs/Comms what is asked of vouch, Certs/Update one update,
--   Certs/Thread the rounds of the thread and the queue to the main thread (util.py). The operating
--   system, vouch and the packages are the record `Site`.
-- Web: resmgr/resmgr/controllers/resmgr_controller.py and enforce_policy.py. The controllers are clients
--   of the record `ResMgrProvider`, which Web/Statuses fills with Provider.
-- Packages: the applications of a host as packages, bbone/pf9app/pf9app/pf9_app.py with the services of an
--   application, Packages/Managers pf9_app_db.py, and Packages/Cache pf9_app_cache.py.
-- Examples: one host and one role, to which the theorems are applied.
--
-- A call that reads and writes a state and may raise is a function `Exec`: it returns a value or the
-- exception, and the state, which keeps what was written before the exception. What the program does
-- not decide (files, events, answers to requests, the clock) is the record `World`, whose answers may
-- depend on how many calls went before.
--
-- The `while` loop over one role runs on fuel; three rounds are enough, as the states left of each
-- round decrease. Most other loops are structural.
--
-- The loops of the certificates on fuel are shown never to run out of it: the search for a free name has
-- one round more than there are files, and the check of the connection 31 rounds and the last test.
--
-- Not modelled: the web frameworks, message transport, the packages for certificates and requests,
-- what the commands of the system do; the database engine and its failures;
-- logging and metrics.
pub mod Prelude
pub mod Result
pub mod Exec
pub mod Json
pub mod Config
pub mod RoleStates
pub mod Db
pub mod DictSubst
pub mod RoleSettings
pub mod RolesMgr
pub mod Poller
pub mod Provider
pub mod Session
pub mod Master
pub mod Apps
pub mod Certs
pub mod Web
pub mod Packages
mod Examples
