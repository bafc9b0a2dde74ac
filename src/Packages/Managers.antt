-- ===== src/Packages/Managers.antt =====
-- The package managers: `AptPkgMgr`, `YumPkgMgr` and the databases of applications over them, in
-- bbone/pf9app/pf9app/pf9_app_db.py; and the applications that are installed by them, in pf9_app.py.
use pf9_du.Prelude.{
  ℕ, zero, suc, String, Bool, true, false, ◌&&◌, ◌||◌, Option, none, some, List, [], ◌∷◌,
  after_prefix, join, ltb, nat_eq, ◌==◌, if◌then◌else◌,
}
use Prim.Native.Char.{code}
use pf9_du.Prelude.Assoc.{Assoc, put}
use pf9_du.Result.{
  Error, Result, ok, err, value_error, assertion_error, pf9_exception, not_installed,
  install_operation_failed, remove_operation_failed, update_operation_failed,
}
use pf9_du.Exec.{Exec, pure, raise, lift, gets, ◌>>=◌}
use pf9_du.Session.{Completed}
use pf9_du.Packages.{Shell, run_command}

-- The text before a separator and that behind it: `s.split(sep, 1)`, where it is there.
abbrev before : String → Option (String × String) → Option (String × String)
before c none = none
before c (some (a, b)) = some (join c a, b)

unfoldable pub split_once : String → String → Option (String × String)
split_once sep String.[] = none
split_once sep (String.◌∷◌ c s) =
    let rest = split_once sep s in
    elim (after_prefix sep (String.◌∷◌ c s)) [
      | some tail ↦ some ("", tail)
      | none ↦ before (String.◌∷◌ c "") rest
    ]

-- `s.split("\n")`; the output of rpm has no other line ends.
unfoldable pub split_lines : String → List String
split_lines String.[] = "" ∷ []
split_lines (String.◌∷◌ c s) =
    let rest = split_lines s in
    if nat_eq (code c) 10
    then "" ∷ rest
    else elim rest [ [] ↦ String.◌∷◌ c "" ∷ [] | w ∷ ws ↦ String.◌∷◌ c w ∷ ws ]

abbrev is_space : ℕ → Bool
is_space c = nat_eq c 32 || (ltb 8 c && ltb c 14)

-- `s.rstrip()`
unfoldable pub rstrip : String → String
rstrip String.[] = ""
rstrip (String.◌∷◌ c s) =
    let rest = rstrip s in if is_space (code c) && rest == "" then "" else String.◌∷◌ c rest

-- `s.splitlines()`: the empty text behind the last line end is no line.
unfoldable pub drop_last_empty : List String → List String
drop_last_empty [] = []
drop_last_empty (l ∷ []) = if l == "" then [] else l ∷ []
drop_last_empty (l ∷ m ∷ rest) = l ∷ drop_last_empty (m ∷ rest)

-- The loop over the lines of the query; a line without the separator cannot be taken apart.
unfoldable pub read_apps : String → List String → Assoc String → Result (Assoc String)
unfolding split_once
read_apps sep [] out = ok out
read_apps sep (line ∷ rest) out = elim (split_once sep line) [
  | none ↦ err value_error
  | some (name, version) ↦ read_apps sep rest (put name version out)
]

module _ {W : Type 0} (shell : Shell W) where
  -- Runs a command whose failure raises `e`.
  abbrev run_or : Error → String → Exec W (Unit {0})
  run_or e command = do c ← run_command shell command; if nat_eq c.code 0 then pure tt else raise e

  abbrev apps_in : String → Completed → Result (Assoc String)
  apps_in sep c =
      if nat_eq c.code 0 then read_apps sep (drop_last_empty (split_lines c.output)) [] else ok []

  abbrev versions_in : Completed → List String
  versions_in c = if nat_eq c.code 0 then split_lines (rstrip c.output) else []

  module _ (yum_rootwrap_path dummy_time_str : String) where
    unfoldable pub query_pf9_apps : Exec W (Assoc String)
    unfolding run_command read_apps drop_last_empty split_lines
    query_pf9_apps = do
      c ← run_command shell (
          join "rpm -q --whatprovides pf9app --queryformat '%{NAME}"
            (join dummy_time_str "%{VERSION}-%{RELEASE}\n'"))
      lift (apps_in dummy_time_str c)

    unfoldable pub find_installed_pkg_version : String → Exec W (List String)
    unfolding run_command split_lines rstrip
    find_installed_pkg_version appname = do
      c ← run_command shell (join "rpm -q " (join appname " --queryformat %{VERSION}-%{RELEASE}\n"))
      pure (versions_in c)

    abbrev agent_or : Exec W String → List String → Exec W String
    agent_or again (version ∷ []) = pure version
    agent_or again _ = again

    -- Twenty rounds of the loop, with a pause after each.
    unfoldable pub query_agent : ℕ → Exec W String
    unfolding find_installed_pkg_version
    query_agent zero = raise pf9_exception
    query_agent (suc rounds) = do
      version ← find_installed_pkg_version "pf9-hostagent"
      agent_or (query_agent rounds) version

    unfoldable pub query_pf9_agent : Exec W String
    unfolding query_agent
    query_pf9_agent = query_agent 20

    abbrev erase_if : String → List String → Exec W (Unit {0})
    erase_if appname [] = raise not_installed
    erase_if appname (version ∷ []) =
        run_or remove_operation_failed
          (join "sudo " (join yum_rootwrap_path (join " erase " appname)))
    erase_if appname _ = raise assertion_error

    unfoldable pub yum_remove_package : String → Exec W (Unit {0})
    unfolding find_installed_pkg_version run_command
    yum_remove_package appname = do
      version ← find_installed_pkg_version appname
      erase_if appname version

    unfoldable pub yum_install_from_file : String → Exec W (Unit {0})
    unfolding run_command
    yum_install_from_file pkg_path =
        run_or install_operation_failed
          (join "sudo " (join yum_rootwrap_path (join " install " pkg_path)))

    unfoldable pub yum_update_from_file : String → Exec W (Unit {0})
    unfolding run_command
    yum_update_from_file pkg_path =
        run_or update_operation_failed
          (join "sudo " (join yum_rootwrap_path (join " update " pkg_path)))

    abbrev install_if : Bool → String → Exec W (Unit {0})
    install_if true name = pure tt
    install_if false name = run_or install_operation_failed (join "sudo yum install -y " name)

    abbrev dep_before_9 : Bool → String → Exec W (Unit {0})
    dep_before_9 false name = pure tt
    dep_before_9 true name = do
      c ← run_command shell (join "rpm -q " name)
      install_if (nat_eq c.code 0) name

    -- `major` is `int(distro.version().split('.')[0])`.
    unfoldable pub yum_install_dep : Result ℕ → String → Exec W (Unit {0})
    unfolding run_command
    yum_install_dep major name =
        (if name == "libcgroup-tools"
          then (do version_number ← lift major; dep_before_9 (ltb version_number 9) name)
          else pure tt)

  module _ (apt_rootwrap_path : String) (cache_has_key : String → W → Bool) where
    unfoldable pub apt_remove_package : String → Exec W (Unit {0})
    unfolding run_command
    apt_remove_package appname = do
      there ← gets (cache_has_key appname)
      (if there
          then run_or remove_operation_failed
              (join "sudo " (join apt_rootwrap_path (join " erase " appname)))
          else raise not_installed)

    unfoldable pub apt_install_from_file : String → Exec W (Unit {0})
    unfolding run_command
    apt_install_from_file pkg_path =
        run_or install_operation_failed
          (join "sudo " (join apt_rootwrap_path (join " install " pkg_path)))

    -- An update takes the same way.
    unfoldable pub apt_update_from_file : String → Exec W (Unit {0})
    unfolding apt_install_from_file
    apt_update_from_file pkg_path = apt_install_from_file pkg_path

  -- The operations of a package manager that `Pf9AppDb`, `Pf9AgentDb` and the applications hand on.
  pub record PkgMgr : Type 0 where
    pub install_from_file : String → Exec W (Unit {0})
    pub update_from_file : String → Exec W (Unit {0})
    pub install_dep : String → Exec W (Unit {0})
    pub remove_package : String → Exec W (Unit {0})

  -- `install` of `Pf9RemoteApp` and `update` of `Pf9AgentApp`, behind the download.
  unfoldable pub install_app : PkgMgr → Exec W String → Exec W (Unit {0})
  install_app pkgmgr download = do localpath ← download; pkgmgr.install_from_file localpath

  unfoldable pub update_agent : PkgMgr → Exec W String → Exec W (Unit {0})
  update_agent pkgmgr download = do localpath ← download; pkgmgr.update_from_file localpath
