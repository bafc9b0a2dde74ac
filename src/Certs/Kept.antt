-- ===== src/Certs/Kept.antt =====
-- What the calls of an update leave alone: all files, or those that are there.
use pf9_du.Prelude.{
  ℕ, zero, suc, ◌+◌, String, join, ◌≡◌, Bool, true, false, Option, none, some, List, leb,
}
use pf9_du.Prelude.Assoc.{Assoc, get, put, get-put}
use pf9_du.Json.{Json, Fields, lookup}
use pf9_du.Result.{
  Error, Result, ok, connection_error, http_error, called_process_error, some_or, key_error,
}
use pf9_du.Exec.Invariants.{
  Preserves, Preserves-bind, Preserves-try, Preserves-lift, Preserves-if, Preserves-for_each,
}
use pf9_du.Certs.{
  Site, Keeper, RefreshStatus, RefreshInfo, cert_update_result, ask, tell, on_files, tear,
  write_owned,
}
use pf9_du.Certs.Files.{place_ca, place_new_cas}
use pf9_du.Certs.Free.{free_name-is_free}
use pf9_du.Certs.Comms.{
  take_chars, get_all_ca, sign_csr, no_version, supports_v1, failed_call, try_call, restart_service,
  restart_comms_sidekick, check_from, check_connection, comms_vouch_url,
}
use pf9_du.Certs.Update.{refresh_info, update_result, update_cas, bring_up, check_if, unless_http}
use pf9_du.Certs.Backups.Names.{Differs, fresh-Differs}

-- What is said of the files alone.
module _ (Q : Assoc String → Type 0) where
  abbrev pub OnFiles : Keeper → Type 0
  OnFiles s = Q s.files

  pub ask-Preserves : {A : Type 0} (f : ℕ → Result A) → Preserves OnFiles (ask f)
  unfolding ask
  ask-Preserves f = record { at = λ s p. p }

  pub tell-Preserves : (f : ℕ → Option Error) → Preserves OnFiles (tell f)
  unfolding tell ask
  tell-Preserves f = record { at = λ s p. p }

  module _ (site : Site) where
    no_version-Preserves : (e : Error) → Preserves OnFiles (no_version site e)
    no_version-Preserves connection_error = record { at = λ s p. p }
    no_version-Preserves _ = record { at = λ s p. p }

    supports_v1-Preserves : (url : String) → Preserves OnFiles (supports_v1 site url)
    unfolding supports_v1
    supports_v1-Preserves url =
        Preserves-try _ _
          (Preserves-bind _ _ (ask-Preserves (site.get_versions url)) λ f. Preserves-lift (ok _))
          no_version-Preserves

    failed_call-Preserves : (e : Error) → Preserves OnFiles (failed_call site e)
    failed_call-Preserves called_process_error = record { at = λ s p. p }
    failed_call-Preserves _ = record { at = λ s p. p }

    try_call-Preserves : (command : List String) → Preserves OnFiles (try_call site command)
    unfolding try_call
    try_call-Preserves command =
        Preserves-try _ _
          (Preserves-bind _ _ (tell-Preserves (site.check_call command))
            λ _. Preserves-lift (ok true))
          failed_call-Preserves

    restart_service-Preserves : (name : String) → Preserves OnFiles (restart_service site name)
    unfolding restart_service
    restart_service-Preserves name =
        Preserves-bind _ _ (try_call-Preserves _)
          λ b. Preserves-if b _ _ (Preserves-lift (ok true)) (try_call-Preserves _)

    check_from-Preserves :
        (fuel wait_time : ℕ) (url : String) → Preserves OnFiles (check_from site fuel wait_time url)
    unfolding check_from
    check_from-Preserves zero wait_time url = Preserves-lift (ok none)
    check_from-Preserves (suc fuel) wait_time url =
        Preserves-if (leb wait_time 60) _ _
          (Preserves-bind _ _ (supports_v1-Preserves url) λ b.
            Preserves-if b _ _ (Preserves-lift (ok (some true)))
              (check_from-Preserves fuel (wait_time + 2) url))
          (Preserves-lift (ok (some false)))

    check_if-Preserves : (b : Bool) → Preserves OnFiles (check_if site b)
    unfolding check_connection
    check_if-Preserves false = Preserves-lift (ok false)
    check_if-Preserves true =
        Preserves-bind _ _ (check_from-Preserves 32 0 comms_vouch_url) λ o. Preserves-lift _

    pub bring_up-Preserves : Preserves OnFiles (bring_up site)
    unfolding bring_up restart_comms_sidekick
    bring_up-Preserves =
        Preserves-bind _ _
          (Preserves-bind _ _ (restart_service-Preserves "pf9-comms") λ a.
            Preserves-bind _ _ (restart_service-Preserves "pf9-sidekick")
              λ b. Preserves-lift (ok _))
          check_if-Preserves

    pub update_result-Preserves :
        (status : RefreshStatus) (message : String)
        → Preserves OnFiles (update_result site status message)
    unfolding update_result refresh_info
    update_result-Preserves status message =
        Preserves-bind {A = RefreshInfo} _ _
          (Preserves-bind _ _ (ask-Preserves (λ n. ok (site.date n))) λ d.
            Preserves-bind _ _ (ask-Preserves (λ n. ok (site.now n))) λ t.
              Preserves-lift
                (ok (record { status = status; message = join message d; timestamp = t })))
          λ info. Preserves-lift (ok (cert_update_result info))

    pub sign_csr-Preserves :
        (url csr common_name : String) → Preserves OnFiles (sign_csr site url csr common_name)
    unfolding sign_csr
    sign_csr-Preserves url csr common_name =
        Preserves-bind {A = Fields} _ _
          (ask-Preserves (site.post_sign_cert url (take_chars 62 common_name) csr))
          λ f.
            Preserves-bind {A = Json} _ _
              (Preserves-lift (some_or key_error (lookup "certificate" f)))
              λ c.
                Preserves-bind {A = Json} _ _
                  (Preserves-lift (some_or key_error (lookup "issuing_ca" f)))
                  λ a. Preserves-lift (ok (c, a))

-- A file that is there keeps its content while CAs are placed.
module _ (x c : String) where
  abbrev pub Holds : Assoc String → Type 0
  Holds files = get x files ≡ some c

  put-Holds :
      (name content : String)
      → Differs name x
      → (s : Keeper) → Holds s.files
      → Holds (put name content s.files)
  put-Holds name content n s h = rw (get-put name x content s.files, n) h

  on_files-Holds :
      (name content : String)
      → Differs name x
      → Preserves (OnFiles Holds) (on_files (put name content))
  on_files-Holds name content n = record { at = put-Holds name content n }

  module _ (site : Site) where
    tear-Holds :
        (name : String)
        → Differs name x
        → (e : Error) → Preserves (OnFiles Holds) (tear site name e)
    tear-Holds name n e = record { at = λ s h. put-Holds name (site.torn s.asked) n s h }

    write_owned-Holds :
        (name content : String)
        → Differs name x
        → Preserves (OnFiles Holds) (write_owned site name content)
    unfolding write_owned
    write_owned-Holds name content n = Preserves-bind _ _ (tell-Preserves Holds site.os_call) λ _.
        Preserves-bind _ _ (on_files-Holds name "" n) λ _.
          Preserves-bind _ _
            (Preserves-try _ _
              (Preserves-bind _ _ (tell-Preserves Holds site.os_call)
                λ _. on_files-Holds name content n)
              (tear-Holds name n))
            λ _. tell-Preserves Holds site.os_call

    place_ca-Holds :
        (ca_pem_file certstr : String)
        → Preserves (OnFiles Holds) (place_ca site ca_pem_file certstr)
    place_ca-Holds ca_pem_file certstr = record {
      at = λ s h.
          let (name, found, free) = free_name-is_free ca_pem_file s in
          rw found
            ((write_owned-Holds name certstr (fresh-Differs name x c s.files free h)).at s h);
    }

    unless_http-Holds : (e : Error) → Preserves (OnFiles Holds) (unless_http e)
    unless_http-Holds http_error = record { at = λ s p. p }
    unless_http-Holds _ = record { at = λ s p. p }

    pub update_cas-Holds : (new_ca : Bool) → Preserves (OnFiles Holds) (update_cas site new_ca)
    unfolding update_cas get_all_ca place_new_cas
    update_cas-Holds false = Preserves-lift (ok tt)
    update_cas-Holds true =
        Preserves-try _ _
          (Preserves-bind _ _ (ask-Preserves Holds (site.get_cas site.vouch_url)) λ l.
            Preserves-bind _ _ (tell-Preserves Holds site.os_call) λ _.
              Preserves-bind _ _ (tell-Preserves Holds site.os_call)
                λ _. Preserves-for_each l _ (place_ca-Holds site.ca_pem_file))
          unless_http-Holds
