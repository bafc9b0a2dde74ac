-- ===== src/Certs/Restored.antt =====
-- What an update of the certificates leaves on the host, by the result that it reports.
use pf9_du.Prelude.{
  ℕ, ◌+◌, String, ◌≡◌, refl, Bool, ◌&&◌, Option, none, some, All, if◌then◌else◌, Bool-cases, inl,
  inr,
}
use pf9_du.Prelude.Assoc.{Assoc, get}
use pf9_du.Json.{Json, str, lookup, truthy}
use pf9_du.Result.{Error, Result, ok, err, some_or, key_error}
use pf9_du.Exec.{pure, lift, try_except, ◌>>=◌}
use pf9_du.Exec.Invariants.{Preserves-bind, Preserves-lift}
use pf9_du.Exec.Returns.{OnOk, OnOk-bind, OnOk-try}
use pf9_du.Certs.{Site, Keeper, refresh_failed, ask}
use pf9_du.Certs.Comms.{take_chars, sign_csr}
use pf9_du.Certs.Names.{common_name, allowed_cn}
use pf9_du.Certs.Update.{
  update_result, install_certs, signed_or_failed, request_certs, rejected,
  process_cert_update_request,
}
use pf9_du.Certs.Installed.{
  IsIssued, IsEnded, own_files, AllDiffer, installed, news-put, update_result-IsEnded,
}
use pf9_du.Certs.Kept.{sign_csr-Preserves}

module _ (site : Site) where
  module _ (old : Assoc String) (differ : AllDiffer site) where
    abbrev AreThere : Type 0
    AreThere = All (λ p. (c : String) × (get p old ≡ some c)) (own_files site)

    install_certs-IsEnded :
        (new_ca : Bool) (key : String) (cert ca : Json) (s : Keeper)
        → s.files ≡ old
        → AreThere
        → IsIssued site key cert ca
        → OnOk (IsEnded site old) (install_certs site new_ca key cert ca s)
    unfolding install_certs
    install_certs-IsEnded new_ca key (str c) (str a) s here there issued =
        rw (news-put site old key c a differ)
          (installed site old key c a differ new_ca s here issued there)
    install_certs-IsEnded new_ca key _ _ s here there issued = tt

    SignedBy : String → Option (Json × Json) → Keeper → Type 0
    SignedBy key none t = t.files ≡ old
    SignedBy key (some (cert, ca)) t = (t.files ≡ old) × IsIssued site key cert ca

    signed_or_failed-IsEnded :
        (new_ca : Bool) (key : String) (o : Option (Json × Json)) (s : Keeper)
        → AreThere
        → SignedBy key o s
        → OnOk (IsEnded site old) (signed_or_failed site new_ca key o s)
    unfolding SignedBy
    signed_or_failed-IsEnded new_ca key none s there h =
        update_result-IsEnded site old refresh_failed _ s h
    signed_or_failed-IsEnded new_ca key (some (cert, ca)) s there h =
        elim (Bool-cases (truthy cert && truthy ca)) [
          | inl e ↦ rw e (install_certs-IsEnded new_ca key cert ca s h.0 there h.1)
          | inr e ↦ rw e (update_result-IsEnded site old refresh_failed _ s h.0)
        ]

    -- The answer of a call that returns, and the time at which it was given.
    Answers : {A : Type 0} → (ℕ → Result A) → A → Keeper → Type 0
    Answers f a t = (t.files ≡ old) × ((n : ℕ) × (f n ≡ ok a))

    ask-Answers :
        {A : Type 0} (f : ℕ → Result A) (s : Keeper) → s.files ≡ old → OnOk (Answers f) (ask f s)
    unfolding ask Answers
    ask-Answers {A} f s here = by (f s.asked) refl
      where
        by : (r : Result A) → f s.asked ≡ r → OnOk (Answers f) (r, record s { asked = s.asked + 1 })
        by (ok a) e = (here, (s.asked, e))
        by (err x) e = tt

    lift-some_or :
        {A : Type 0} (e : Error) (o : Option A) (s : Keeper)
        → s.files ≡ old
        → OnOk (λ a t. (t.files ≡ old) × (o ≡ some a)) (lift (some_or e o) s)
    lift-some_or e none s here = tt
    lift-some_or e (some a) s here = (here, refl)

    abbrev Pair : String → Json × Json → Keeper → Type 0
    Pair key p t = (t.files ≡ old) × IsIssued site key p.0 p.1

    module _ (cn key csr : String) (named : common_name site.hostname site.host_id ≡ ok cn)
        (made : (n : ℕ) × (site.generate_key_and_csr cn n ≡ ok (key, csr))) where
      sign_csr-Pair :
          (s : Keeper) → s.files ≡ old → OnOk (Pair key) (sign_csr site site.vouch_url csr cn s)
      unfolding sign_csr Answers
      sign_csr-Pair s here =
          let request = site.post_sign_cert site.vouch_url (take_chars 62 cn) csr in
          OnOk-bind (Answers request) (Pair key) (ask request) _ s (ask-Answers request s here)
            λ response t (here_t, signed).
              OnOk-bind (λ a u. (u.files ≡ old) × (lookup "certificate" response ≡ some a))
                (Pair key) (lift (some_or key_error (lookup "certificate" response))) _ t
                (lift-some_or key_error (lookup "certificate" response) t here_t)
                λ cert u (here_u, is_cert).
                  OnOk-bind (λ a v. (v.files ≡ old) × (lookup "issuing_ca" response ≡ some a))
                    (Pair key) (lift (some_or key_error (lookup "issuing_ca" response))) _ u
                    (lift-some_or key_error (lookup "issuing_ca" response) u here_u)
                    λ ca v (here_v, is_ca). (
                      here_v,
                      record {
                        cn = cn;
                        csr = csr;
                        response = response;
                        made_at = made.0;
                        signed_at = signed.0;
                        named = named;
                        made = made.1;
                        signed = signed.1;
                        certificate = is_cert;
                        issuing_ca = is_ca;
                      },
                    )

      asked_to_sign :
          (s : Keeper)
          → s.files ≡ old
          → OnOk (SignedBy key) (
              try_except
                (sign_csr site site.vouch_url csr cn >>= λ pair. pure (some pair))
                (λ e. pure none)
                s)
      unfolding SignedBy
      asked_to_sign s here =
          let signing = sign_csr site site.vouch_url csr cn >>= λ pair. pure (some pair) in
          OnOk-try (SignedBy key) signing (λ e. pure none) s
            (OnOk-bind (Pair key) (SignedBy key) (sign_csr site site.vouch_url csr cn) _ s
              (sign_csr-Pair s here) λ pair t h. h)
            λ e.
              (Preserves-bind (sign_csr site site.vouch_url csr cn) _
                  (sign_csr-Preserves (λ f. f ≡ old) site site.vouch_url csr cn)
                  λ pair. Preserves-lift (ok (some pair))).at
                s here

    request_certs-IsEnded :
        (new_ca : Bool) (cn : String) (s : Keeper)
        → s.files ≡ old
        → AreThere
        → common_name site.hostname site.host_id ≡ ok cn
        → OnOk (IsEnded site old) (request_certs site new_ca cn s)
    unfolding Answers
    request_certs-IsEnded new_ca cn s here there named =
        OnOk-bind (Answers (site.generate_key_and_csr cn)) (IsEnded site old)
          (ask (site.generate_key_and_csr cn)) _ s
          (ask-Answers (site.generate_key_and_csr cn) s here)
          λ key_csr t h.
            OnOk-bind (SignedBy key_csr.0) (IsEnded site old)
              (try_except (sign_csr site site.vouch_url key_csr.1 cn >>= λ pair. pure (some pair))
                (λ e. pure none))
              _ t (asked_to_sign cn key_csr.0 key_csr.1 named h.1 t h.0)
              λ o u signed. signed_or_failed-IsEnded new_ca key_csr.0 o u there signed

  named_or_not :
      (new_ca : Bool) (s : Keeper) (r : Result String)
      → common_name site.hostname site.host_id ≡ r
      → AllDiffer site
      → All (λ p. (c : String) × (get p s.files ≡ some c)) (own_files site)
      → OnOk (IsEnded site s.files) (
          (lift r >>= λ cn.
          if allowed_cn cn
          then request_certs site new_ca cn
          else update_result site refresh_failed (rejected site cn))
            s)
  named_or_not new_ca s (err e) named differ there = tt
  named_or_not new_ca s (ok cn) named differ there = elim (Bool-cases (allowed_cn cn)) [
    | inl e ↦ rw e (request_certs-IsEnded s.files differ new_ca cn s refl there named)
    | inr e ↦ rw e (update_result-IsEnded site s.files refresh_failed _ s refl)
  ]

  -- If the key, the certificate and the CA of the host are there, in three files, then an update that
  -- returns has done what it reports, whatever else fails. Success: the files hold a key, the
  -- certificate that vouch has issued for that key, and its CA. Failure: no file has changed. A
  -- restoration, and also no answer at all: the three files have their old contents.
  pub process_cert_update_request-IsEnded :
      (new_ca : Bool) (s : Keeper)
      → AllDiffer site
      → All (λ p. (c : String) × (get p s.files ≡ some c)) (own_files site)
      → OnOk (IsEnded site s.files) (process_cert_update_request site new_ca s)
  unfolding process_cert_update_request
  process_cert_update_request-IsEnded new_ca s differ there =
      named_or_not new_ca s (common_name site.hostname site.host_id) refl differ there
