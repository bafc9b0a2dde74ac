-- ===== src/Packages/Cache.antt =====
-- The cache of downloaded packages: bbone/pf9app/pf9app/pf9_app_cache.py.
use pf9_du.Prelude.{
  ℕ, ◌+◌, String, Bool, true, false, ◌&&◌, Option, none, some, List, [], ◌∷◌, ◌++◌, any, join, ◌==◌,
  if◌then◌else◌,
}
use Prim.Native.String.{len}
use pf9_du.Prelude.Assoc.{Assoc, get, put, without}
use pf9_du.Prelude.Decimal.{decimal}
use pf9_du.Result.{
  Error, Result, ok, err, os_error, connection_error, http_error, http_not_found, download_failed,
}
use pf9_du.Exec.{Exec, pure, raise, lift, gets, modify, try_except, ◌>>=◌, ◌>>◌}

-- What is read of an answer: the size that its header gives, and its parts, until an exception.
pub record Answer : Type 0 where
  pub content_length : Option String
  pub chunks : List String
  pub broken : Option Error

-- What is outside of the cache. The paths are absolute. `filename` is the last part of the path of a
-- URL, and `root` a name without its extension.
pub record Net : Type 0 where
  pub cache_location : String
  pub distribution : String
  pub filename : String → String
  pub root : String → String
  pub get_url : String → ℕ → Result Answer
  pub os_call : ℕ → Option Error

pub record Store : Type 0 where
  pub files : Assoc String
  pub downloads : List ((String × String) × String)
  pub asked : ℕ

abbrev pub failing : Option Error → Result (Unit {0})
failing none = ok tt
failing (some e) = err e

abbrev is_in : String → List String → Bool
is_in x xs = any (λ y. x == y) xs

abbrev debian_distros : List String
debian_distros = "debian" ∷ "ubuntu" ∷ []

abbrev redhat_distros : List String
redhat_distros = "redhat" ∷ "centos" ∷ "centos linux" ∷ "scientific linux" ∷ "rocky linux" ∷ []

-- The name of the distribution is given in lower case.
unfoldable pub get_supported_distro : String → String
get_supported_distro dist_name =
    if is_in dist_name (debian_distros ++ redhat_distros) then dist_name else "redhat"

abbrev pub set_files : (Assoc String → Assoc String) → Exec Store (Unit {0})
set_files f = modify λ s. record s { files = f s.files }

module _ (net : Net) where
  unfoldable pub call_os : Exec Store (Unit {0})
  call_os s = (failing (net.os_call s.asked), record s { asked = s.asked + 1 })

  unfoldable pub request : String → Exec Store Answer
  request url s = (net.get_url url s.asked, record s { asked = s.asked + 1 })

  -- The parts are written one by one.
  unfoldable pub write_chunks : String → List String → String → Exec Store (Unit {0})
  unfolding call_os
  write_chunks path [] written = pure tt
  write_chunks path (c ∷ rest) written = do
    call_os
    set_files (put path (join written c))
    write_chunks path rest (join written c)

  abbrev pub fetch_sized : String → Answer → Option String → Exec Store String
  fetch_sized tmpdst response none = raise download_failed
  fetch_sized tmpdst response (some content_length) = do
    call_os
    set_files (put tmpdst "")
    write_chunks tmpdst response.chunks ""
    lift (failing response.broken)
    call_os
    pure content_length

  abbrev pub fetch_parts : String → Answer → Exec Store String
  fetch_parts tmpdst response = fetch_sized tmpdst response response.content_length

  abbrev pub as_download_failed : Error → Exec Store String
  as_download_failed connection_error = raise download_failed
  as_download_failed http_error = raise download_failed
  as_download_failed http_not_found = raise download_failed
  as_download_failed e = raise e

  abbrev pub check_size : Option String → String → Exec Store (Unit {0})
  check_size none content_length = raise os_error
  check_size (some content) content_length =
      if decimal (len content) == content_length then pure tt else raise download_failed

  abbrev pub move_to : String → String → Option String → Exec Store (Unit {0})
  move_to src dest none = raise os_error
  move_to src dest (some content) = set_files (λ files. put dest content (without src files))

  abbrev pub incomplete : String → String
  incomplete destfile = join destfile ".incomplete"

  -- The file comes in its place by a rename, once its size is right.
  unfoldable pub download_file : String → String → Exec Store (Unit {0})
  unfolding call_os request write_chunks
  download_file srcurl destfile = do
    content_length ←
        try_except (do response ← request srcurl; fetch_parts (incomplete destfile) response)
          as_download_failed
    content ← gets (λ s. get (incomplete destfile) s.files)
    check_size content content_length
    call_os
    content' ← gets (λ s. get (incomplete destfile) s.files)
    move_to (incomplete destfile) destfile content'

  abbrev found : (String × String) → List ((String × String) × String) → Option String
  found key [] = none
  found key ((k, path) ∷ rest) =
      let later = found key rest in if k.0 == key.0 && k.1 == key.1 then some path else later

  abbrev there : String → Assoc String → Bool
  there path files = elim (get path files) [ none ↦ false | some _ ↦ true ]

  abbrev fetch_if : Bool → String → String → Exec Store (Unit {0})
  fetch_if true url localdest = pure tt
  fetch_if false url localdest = download_file url localdest

  abbrev to_deb : Bool → String → String
  to_deb true name = join (net.root name) ".deb"
  to_deb false name = name

  abbrev fetch : String → String → String → Bool → Exec Store String
  fetch name version url change_extension = do
    call_os
    (let localdest =
          join net.cache_location
            (join "/" (join name (join "/" (join version (join "/" (net.filename url)))))) in
        let deb =
          change_extension && is_in (get_supported_distro net.distribution) debian_distros in
        do
          cached ← gets (λ s. there (to_deb deb localdest) s.files)
          fetch_if cached (to_deb deb url) (to_deb deb localdest)
          modify (λ s. record s {
            downloads = s.downloads ++ ((name, version), to_deb deb localdest) ∷ [];
          })
          pure (to_deb deb localdest))

  abbrev cached_or : Exec Store String → Option String → Exec Store String
  cached_or fetched none = fetched
  cached_or fetched (some path) = pure path

  unfoldable pub download : String → String → String → Bool → Exec Store String
  unfolding get_supported_distro call_os download_file
  download name version url change_extension = do
    cached ← gets (λ s. found (name, version) s.downloads)
    cached_or (fetch name version url change_extension) cached
