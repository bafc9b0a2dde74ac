-- ===== src/Certs/Unreported.antt =====
-- A certificate that cannot be read: what the first half of a round of `cert_update_thread` makes of it.
use pf9_du.Prelude.{String, ◌≡◌, ◌≢◌, refl, sym, ap, ◌∙◌, Option, none, some}
use pf9_du.Prelude.Assoc.{Assoc, get}
use pf9_du.Result.{Result, ok, err, some_or, os_error}
use pf9_du.Exec.{Exec, pure, lift, gets, try_except, ◌>>=◌}
use pf9_du.Exec.Invariants.{Preserves-bind, Preserves-lift, Preserves-gets}
use pf9_du.Exec.Returns.{OnOk, OnOk-bind}
use pf9_du.Certs.{Site, Keeper, Certificate, CertDetails, successful, failed, ask, tell}
use pf9_du.Certs.Backups.{HasFiles, tell-HasFiles}
use pf9_du.Certs.Thread.{read_cert, get_cert_info, cert_refresh_needed, look_after, check_certs}

-- No file and no message has changed.
abbrev pub IsSame : Keeper → Keeper → Type 0
IsSame s t = (t.files ≡ s.files) × (t.cert_info_q ≡ s.cert_info_q)

module _ (site : Site) where
  -- The file is not there, or holds no certificate.
  abbrev pub IsUnreadable : String → Assoc String → Type 0
  IsUnreadable path files =
      (text : String)
      → get path files ≡ some text
      → (c : Certificate) → site.load_certificate text ≢ ok c

  abbrev dated : Certificate → Exec Keeper CertDetails
  dated cert = do timestamp ← ask (λ n. ok (site.now n)); pure (successful cert timestamp)

  not_loaded :
      (r : Result Certificate) (t : Keeper)
      → ((c : Certificate) → r ≢ ok c)
      → OnOk (λ _ _. ⊥) ((lift r >>= dated) t)
  not_loaded (ok c) t h = absurd (h c refl)
  not_loaded (err e) t h = tt

  not_read :
      (o : Option String) (t : Keeper)
      → ((text : String) → o ≡ some text → (c : Certificate) → site.load_certificate text ≢ ok c)
      → OnOk
          (λ _ _. ⊥)
          ((lift (some_or os_error o) >>= λ text. lift (site.load_certificate text) >>= dated) t)
  not_read none t h = tt
  not_read (some text) t h = not_loaded (site.load_certificate text) t (h text refl)

  read_cert-fails :
      (path : String) (s : Keeper)
      → IsUnreadable path s.files
      → OnOk (λ _ _. ⊥) (read_cert site path s)
  read_cert-fails path s h =
      OnOk-bind (HasFiles s.files) (λ _ _. ⊥) (tell site.os_call) _ s (tell-HasFiles site.os_call s)
        λ _ t same.
          not_read (get path t.files) t λ text there. h text (ap (get path) (sym same) ∙ there)

  read_cert-IsSame : (path : String) (s : Keeper) → IsSame s (read_cert site path s).1
  unfolding tell ask
  read_cert-IsSame path s =
      (Preserves-bind {P = IsSame s} (tell site.os_call) _ (record { at = λ t p. p })
          λ _. Preserves-bind (gets (λ t. get path t.files)) _ (Preserves-gets _) λ o.
            Preserves-bind (lift (some_or os_error o)) _ (Preserves-lift _) λ text.
              Preserves-bind (lift (site.load_certificate text)) dated (Preserves-lift _) λ c.
                Preserves-bind (ask (λ n. ok (site.now n)))
                  (λ timestamp. pure (successful c timestamp)) (record { at = λ t p. p })
                  λ n. Preserves-lift _).at
        s (refl, refl)

  -- If the certificate of the host is not there or cannot be read, then the check ends there: it
  -- changes no file and puts nothing on the queue, neither the request of a new certificate nor the
  -- details of this one, so that the failure is not reported.
  pub check_certs-unreadable :
      (s : Keeper) → IsUnreadable site.cert_pem_file s.files → IsSame s (check_certs site s).1
  unfolding check_certs get_cert_info cert_refresh_needed ask
  check_certs-unreadable s h =
      by (read_cert site site.cert_pem_file s) (read_cert-fails site.cert_pem_file s h)
        (read_cert-IsSame site.cert_pem_file s)
    where
      by :
          (o : Result CertDetails × Keeper)
          → OnOk (λ _ _. ⊥) o
          → IsSame s o.1
          → IsSame s
              ((try_except (λ _. o) (λ e. pure failed) >>= λ d.
                  try_except (look_after site d) (λ e. pure tt))
                s).1
      by (ok d, t) h same = absurd h
      by (err e, t) h same = same
