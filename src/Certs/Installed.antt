-- ===== src/Certs/Installed.antt =====
-- What an update of the certificates should leave on the host, by the result that it reports, and what
-- becomes of the files once vouch has answered.
use pf9_du.Prelude.{
  ℕ, String, ◌≡◌, refl, sym, ap, subst, ◌∙◌, Bool, true, false, some, List, [], ◌∷◌, All, eq_refl,
}
use pf9_du.Prelude.Assoc.{Assoc, get, put}
use pf9_du.Json.{Json, Fields, str, lookup}
use pf9_du.Result.{ok}
use pf9_du.Exec.{◌>>=◌}
use pf9_du.Exec.Returns.{OnOk, OnOk-bind, OnOk-mono, OnOk-always}
use pf9_du.Certs.{
  Site, Keeper, RefreshStatus, Message, refresh_successful, restored, refresh_failed, initiated,
  not_refreshed, cert_update_result, no_answer, ask, is_file,
}
use pf9_du.Certs.Files.{backup_and_save_certs, restore_backups}
use pf9_du.Certs.Comms.{take_chars}
use pf9_du.Certs.Names.{common_name}
use pf9_du.Certs.Update.{refresh_info, update_result, update_cas, bring_up, restored_or, kept_or}
use pf9_du.Certs.Backups.{HasFiles}
use pf9_du.Certs.Backups.Names.{Differs, All-map, All-paths}
use pf9_du.Certs.Backups.Saving.{IsKept, IsWaiting, IsSaved, backup_and_save_certs-IsSaved}
use pf9_du.Certs.Backups.Restoring.{restore_backups-IsOld}
use pf9_du.Certs.Kept.{OnFiles, update_cas-Holds, bring_up-Preserves}

module _ (site : Site) where
  abbrev pub own_files : List String
  own_files = site.private_key_pem_file ∷ site.cert_pem_file ∷ site.ca_pem_file ∷ []

  -- The key and its request were made for the host's name, and vouch answered the request with the
  -- certificate and the CA.
  pub record IsIssued (key : String) (cert ca : Json) : Type 0 where
    pub cn : String
    pub csr : String
    pub response : Fields
    pub made_at : ℕ
    pub signed_at : ℕ
    pub named : common_name site.hostname site.host_id ≡ ok cn
    pub made : site.generate_key_and_csr cn made_at ≡ ok (key, csr)
    pub signed : site.post_sign_cert site.vouch_url (take_chars 62 cn) csr signed_at ≡ ok response
    pub certificate : lookup "certificate" response ≡ some cert
    pub issuing_ca : lookup "issuing_ca" response ≡ some ca

  -- The three files hold a key with the certificate that was issued for it, and the CA.
  pub record IsRenewed (files : Assoc String) : Type 0 where
    pub key : String
    pub cert : String
    pub ca : String
    pub issued : IsIssued key (str cert) (str ca)
    pub has_key : get site.private_key_pem_file files ≡ some key
    pub has_cert : get site.cert_pem_file files ≡ some cert
    pub has_ca : get site.ca_pem_file files ≡ some ca

  module _ (old : Assoc String) where
    -- The three files are as they were.
    abbrev pub IsAsBefore : Assoc String → Type 0
    IsAsBefore files = All (λ p. get p files ≡ get p old) own_files

    abbrev pub LeftBy : RefreshStatus → Assoc String → Type 0
    LeftBy refresh_successful files = IsRenewed files
    LeftBy refresh_failed files = files ≡ old
    LeftBy restored files = IsAsBefore files
    LeftBy initiated files = ⊥
    LeftBy not_refreshed files = ⊥

    abbrev pub IsEnded : Message → Keeper → Type 0
    IsEnded (cert_update_result info) t = LeftBy info.status t.files
    IsEnded no_answer t = IsAsBefore t.files
    IsEnded _ t = ⊥

    pub update_result-IsEnded :
        (status : RefreshStatus) (message : String) (s : Keeper)
        → LeftBy status s.files
        → OnOk IsEnded (update_result site status message s)
    unfolding update_result refresh_info ask
    update_result-IsEnded status message s h = h

    restored_or-IsEnded :
        (up : Bool) (s : Keeper) → IsAsBefore s.files → OnOk IsEnded (restored_or site up s)
    restored_or-IsEnded true s h = update_result-IsEnded restored _ s h
    restored_or-IsEnded false s h = h

  abbrev pub new_files : String → String → String → Assoc String
  new_files key cert ca =
      (site.private_key_pem_file, key) ∷ (site.cert_pem_file, cert) ∷ (site.ca_pem_file, ca) ∷ []

  abbrev pub AllDiffer : Type 0
  AllDiffer =
      Differs site.private_key_pem_file site.cert_pem_file
      × Differs site.private_key_pem_file site.ca_pem_file
      × Differs site.cert_pem_file site.ca_pem_file

  module _ (old : Assoc String) (key cert ca : String) (differ : AllDiffer) where
    abbrev pub news : Assoc String
    news = new_files key cert ca

    abbrev IsStored : Assoc String → Keeper → Type 0
    IsStored backups s = IsSaved old news own_files backups s

    put_back :
        (backups : Assoc String) (s : Keeper)
        → IsStored backups s
        → OnOk (λ _ t. IsAsBefore old t.files) (restore_backups site backups s)
    put_back backups s h =
        OnOk-mono (λ _ t. All (λ e. get e.0 t.files ≡ get e.0 old) backups)
          (λ _ t. IsAsBefore old t.files)
          (λ _ t all_old.
            subst (All (λ p. get p t.files ≡ get p old)) h.all_of_them
              (All-paths (λ p. get p t.files ≡ get p old) backups all_old))
          (restore_backups site backups s)
          (restore_backups-IsOld old site backups s
            (All-map
              (λ e k. record {
                content = k.content;
                was = k.was;
                kept = k.kept;
                there = rw (is_file, k.holds);
              })
              backups h.kept)
            h.apart)

    get_key : get site.private_key_pem_file news ≡ some key
    unfolding get
    get_key = rw (eq_refl site.private_key_pem_file)

    get_cert : get site.cert_pem_file news ≡ some cert
    unfolding get
    get_cert = rw (differ.0, eq_refl site.cert_pem_file)

    get_ca : get site.ca_pem_file news ≡ some ca
    unfolding get
    get_ca = rw (differ.1, differ.2, eq_refl site.ca_pem_file)

    renewed :
        (backups : Assoc String) (s : Keeper)
        → IsIssued key (str cert) (str ca)
        → IsStored backups s
        → IsRenewed s.files
    renewed backups s issued h =
        let held : All (λ p. get p s.files ≡ get p news) own_files =
          subst (All (λ p. get p s.files ≡ get p news)) h.all_of_them (
            All-paths (λ p. get p s.files ≡ get p news) backups
              (All-map (λ e k. k.holds ∙ sym k.wanted) backups h.kept)) in
        record {
          key = key;
          cert = cert;
          ca = ca;
          issued = issued;
          has_key = held.0 ∙ get_key;
          has_cert = held.1.0 ∙ get_cert;
          has_ca = held.1.1.0 ∙ get_ca;
        }

    IsStored-update_cas :
        (backups : Assoc String) (new_ca : Bool) (s : Keeper)
        → IsStored backups s
        → IsStored backups (update_cas site new_ca s).1
    IsStored-update_cas backups new_ca s h = record {
      kept =
          All-map
            (λ e k. record {
              content = k.content;
              new = k.new;
              was = k.was;
              kept = (update_cas-Holds e.1 k.content site new_ca).at s k.kept;
              wanted = k.wanted;
              holds = (update_cas-Holds e.0 k.new site new_ca).at s k.holds;
            })
            backups h.kept;
      apart = h.apart;
      all_of_them = h.all_of_them;
    }

    IsStored-files :
        (backups : Assoc String) (s t : Keeper)
        → t.files ≡ s.files
        → IsStored backups s
        → IsStored backups t
    IsStored-files backups s t same h = record {
      kept = subst (λ f. All (IsKept old news f) backups) (sym same) h.kept;
      apart = h.apart;
      all_of_them = h.all_of_them;
    }

    bring_up-HasFiles : (s : Keeper) → OnOk (HasFiles s.files) (bring_up site s)
    bring_up-HasFiles s =
        OnOk-always (OnFiles (λ f. f ≡ s.files)) (bring_up site s)
          ((bring_up-Preserves (λ f. f ≡ s.files) site).at s refl)

    kept_or-IsEnded :
        (backups : Assoc String) (up : Bool) (s : Keeper)
        → IsIssued key (str cert) (str ca)
        → IsStored backups s
        → OnOk (IsEnded old) (kept_or site backups up s)
    kept_or-IsEnded backups true s issued h =
        update_result-IsEnded old refresh_successful _ s (renewed backups s issued h)
    kept_or-IsEnded backups false s issued h =
        OnOk-bind (λ _ t. IsAsBefore old t.files) (IsEnded old) (restore_backups site backups) _ s
          (put_back backups s h)
          λ _ t before.
            OnOk-bind (HasFiles t.files) (IsEnded old) (bring_up site) _ t (bring_up-HasFiles t)
              λ up u same. restored_or-IsEnded old up u (subst (IsAsBefore old) (sym same) before)

    wait :
        (p x : String) (s : Keeper)
        → s.files ≡ old
        → (c : String) × (get p old ≡ some c)
        → get p news ≡ some x
        → IsWaiting old news s.files [] (p, x)
    wait p x s here (c, was) wanted = record {
      content = c;
      was = was;
      there = ap (get p) here ∙ was;
      wanted = wanted;
      away = tt;
    }

    pub news-put :
        put site.ca_pem_file ca (put site.cert_pem_file cert (put site.private_key_pem_file key []))
        ≡ news
    unfolding put
    news-put = rw (differ.0, differ.1, differ.2)

    -- Everything after the answer of vouch.
    pub installed :
        (new_ca : Bool) (s : Keeper)
        → s.files ≡ old
        → IsIssued key (str cert) (str ca)
        → All (λ p. (c : String) × (get p old ≡ some c)) own_files
        → OnOk (IsEnded old) (
            (backup_and_save_certs site news >>= λ backups.
            update_cas site new_ca >>= λ _. bring_up site >>= kept_or site backups)
              s)
    installed new_ca s here issued there =
        OnOk-bind IsStored (IsEnded old) (backup_and_save_certs site news) _ s
          (backup_and_save_certs-IsSaved old news site s
            (
              wait site.private_key_pem_file key s here there.0 get_key,
              (
                wait site.cert_pem_file cert s here there.1.0 get_cert,
                (wait site.ca_pem_file ca s here there.1.1.0 get_ca, tt),
              ),
            )
            ((differ.0, (differ.1, tt)), ((differ.2, tt), (tt, tt))))
          λ backups t h.
            OnOk-bind (λ _ u. IsStored backups u) (IsEnded old) (update_cas site new_ca) _ t
              (OnOk-always (IsStored backups) (update_cas site new_ca t)
                (IsStored-update_cas backups new_ca t h))
              λ _ u h'.
                OnOk-bind (HasFiles u.files) (IsEnded old) (bring_up site) _ u (bring_up-HasFiles u)
                  λ up v same.
                    kept_or-IsEnded backups up v issued (IsStored-files backups u v same h')
