-- ===== src/Certs/Files.antt =====
-- `backup_and_save_certs`, `restore_backups` and `place_new_CAs` of certs.py.
use pf9_du.Prelude.{
  ℕ, zero, suc, ◌+◌, String, Bool, true, false, Option, none, some, List, [], ◌∷◌, length, join,
  if◌then◌else◌,
}
use pf9_du.Prelude.Assoc.{Assoc, put}
use pf9_du.Prelude.Decimal.{decimal}
use pf9_du.Result.{Error, some_or, file_exists, out_of_fuel}
use pf9_du.Exec.{Exec, pure, raise, lift, gets, try_except, for_each, ◌>>=◌, ◌>>◌}
use pf9_du.Certs.{Site, Keeper, tell, is_file, rename, unlink, write_owned}

-- `'%s.%d' % (path, idx)`
unfoldable pub numbered : String → ℕ → String
numbered path idx = join path (join "." (decimal idx))

-- The loop over `idx` until a name is no file. One more round than there are files is enough.
unfoldable pub free_index : ℕ → String → ℕ → Assoc String → Option ℕ
unfolding numbered
free_index zero path idx files = none
free_index (suc fuel) path idx files =
    let rest = free_index fuel path (idx + 1) files in
    if is_file (numbered path idx) files then rest else some idx

unfoldable pub free_name : String → Exec Keeper String
unfolding free_index
free_name path = do
  files ← gets (λ s. s.files)
  idx ← lift (some_or out_of_fuel (free_index (suc (length files)) path 0 files))
  pure (numbered path idx)

module _ (site : Site) where
  abbrev pub unless_there : Error → Exec Keeper (Unit {0})
  unless_there file_exists = pure tt
  unless_there e = raise e

  -- `os.makedirs(os.path.dirname(path))`; that the directory is there is no error.
  unfoldable pub make_parent : Exec Keeper (Unit {0})
  unfolding tell
  make_parent = try_except (tell site.os_call) unless_there

  abbrev backup_if : Bool → String → Assoc String → Exec Keeper (Assoc String)
  backup_if false path backups = pure backups
  backup_if true path backups = do
    backup ← free_name path
    rename site path backup
    pure (put path backup backups)

  unfoldable pub backup_file : String → Assoc String → Exec Keeper (Assoc String)
  unfolding free_name rename
  backup_file path backups = do
    there ← gets (λ s. is_file path s.files)
    backup_if there path backups

  -- The loop over `cert_info`.
  unfoldable pub save_certs : Assoc String → Assoc String → Exec Keeper (Assoc String)
  unfolding make_parent backup_file write_owned
  save_certs [] backups = pure backups
  save_certs ((path, content) ∷ rest) backups = do
    make_parent
    backups' ← backup_file path backups
    write_owned site path content
    save_certs rest backups'

  -- The first two calls look up the user and the group.
  unfoldable pub backup_and_save_certs : Assoc String → Exec Keeper (Assoc String)
  unfolding save_certs tell
  backup_and_save_certs cert_info = do tell site.os_call; tell site.os_call; save_certs cert_info []

  unfoldable pub restore_backups : Assoc String → Exec Keeper (Unit {0})
  unfolding rename unlink
  restore_backups [] = pure tt
  restore_backups ((dest, src) ∷ rest) = do
    unlink site dest
    rename site src dest
    restore_backups rest

  abbrev pub place_ca : String → String → Exec Keeper (Unit {0})
  place_ca ca_pem_file certstr = do ca ← free_name ca_pem_file; write_owned site ca certstr

  unfoldable pub place_new_cas : String → List String → Exec Keeper (Unit {0})
  unfolding free_name write_owned for_each tell
  place_new_cas ca_pem_file ca_list = do
    tell site.os_call
    tell site.os_call
    for_each ca_list (place_ca ca_pem_file)
