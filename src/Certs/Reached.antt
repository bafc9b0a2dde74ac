-- ===== src/Certs/Reached.antt =====
-- The check of the connection ends, and a certificate that cannot be read is not reported.
use pf9_du.Prelude.{
  ℕ, zero, suc, ◌+◌, ◌*◌, ◌<◌, String, ◌≡◌, refl, ap, subst, ◌∙◌, arith, Bool, true, false, Option,
  some, leb, if◌then◌else◌,
}
use pf9_du.Json.{Fields, has_key}
use pf9_du.Result.{
  Error, Result, ok, err, some_or, out_of_fuel, value_error, connection_error, http_error,
  http_not_found,
}
use pf9_du.Exec.{Exec, pure, lift, try_except, ◌>>=◌}
use pf9_du.Certs.{Site, Keeper, ask}
use pf9_du.Certs.Comms.{no_version, supports_v1, check_from, check_connection}

module _ (site : Site) (url : String) where
  -- What the answers of vouch from the time `n` on, `k` at most, say of the result: it is reached by an
  -- answer that has a version 1, an answer is an exception, or none of `k` answers counts.
  abbrev pub Checked : ℕ → ℕ → Result Bool × Keeper → Type 0
  Checked n k (ok true, t) =
      (i : ℕ) × (i < k)
      × ((f : Fields) × (site.get_versions url (n + i) ≡ ok f) × (has_key "v1" f ≡ true))
  Checked n k (ok false, t) = t.asked ≡ n + k
  Checked n k (err e, t) = (i : ℕ) × (i < k) × (site.get_versions url (n + i) ≡ err e)

  abbrev Round : ℕ → Result Bool × Keeper → Type 0
  Round n (ok true, t) = (f : Fields) × (site.get_versions url n ≡ ok f) × (has_key "v1" f ≡ true)
  Round n (ok false, t) = t.asked ≡ n + 1
  Round n (err e, t) = site.get_versions url n ≡ err e

  handled :
      (n : ℕ) (e : Error) (t : Keeper)
      → site.get_versions url n ≡ err e
      → t.asked ≡ n + 1
      → Round n (no_version site e t)
  handled n connection_error t h a = a
  handled n http_error t h a = a
  handled n http_not_found t h a = a
  handled n value_error t h a = a
  handled n _ t h a = h

  versioned :
      (n : ℕ) (f : Fields) (b : Bool) (t : Keeper)
      → site.get_versions url n ≡ ok f
      → has_key "v1" f ≡ b
      → t.asked ≡ n + 1
      → Round n (ok b, t)
  versioned n f true t h v a = (f, h, v)
  versioned n f false t h v a = a

  supports_v1-Round : (s : Keeper) → Round s.asked (supports_v1 site url s)
  unfolding supports_v1 ask
  supports_v1-Round s = by (site.get_versions url s.asked) refl
    where
      t : Keeper
      t = record s { asked = s.asked + 1 }

      by :
          (r : Result Fields)
          → site.get_versions url s.asked ≡ r
          → Round s.asked
              (try_except ((λ u. (r, t)) >>= λ f u. (ok (has_key "v1" f), u)) (no_version site) s)
      by (ok f) h = versioned s.asked f (has_key "v1" f) t h refl refl
      by (err e) h = handled s.asked e t h refl

  later : (n k : ℕ) (o : Result Bool × Keeper) → Checked (n + 1) k o → Checked n (suc k) o
  later n k (ok true, t) (i, lt, (f, h, v)) =
      (suc i, omega arith, (f, ap (site.get_versions url) (omega arith) ∙ h, v))
  later n k (ok false, t) a = omega arith
  later n k (err e, t) (i, lt, h) =
      (suc i, omega arith, ap (site.get_versions url) (omega arith) ∙ h)

  abbrev close : Option Bool → Exec Keeper Bool
  close o = lift (some_or out_of_fuel o)

  asked_once :
      (n k : ℕ) (again : Exec Keeper (Option Bool))
      → ((t : Keeper) → Checked t.asked k ((again >>= close) t))
      → (o : Result Bool × Keeper) (s : Keeper) → Round n o
      → Checked n
          (suc k)
          ((((λ _. o) >>= λ there. if there then pure (some true) else again) >>= close) s)
  asked_once n k again rest (ok true, t) s (f, h, v) =
      (0, omega arith, (f, ap (site.get_versions url) (omega arith) ∙ h, v))
  asked_once n k again rest (ok false, t) s a =
      later n k ((again >>= close) t) (subst (λ m. Checked m k ((again >>= close) t)) a (rest t))
  asked_once n k again rest (err e, t) s h =
      (0, omega arith, ap (site.get_versions url) (omega arith) ∙ h)

  check_from-Checked :
      (k wait_time : ℕ) (s : Keeper)
      → wait_time + 2 * k ≡ 62
      → Checked s.asked k ((check_from site (suc k) wait_time url >>= close) s)
  unfolding check_from
  check_from-Checked zero wait_time s h =
      let done : leb wait_time 60 ≡ false = ground arith in rw done (omega arith)
  check_from-Checked (suc k) wait_time s h =
      let going : leb wait_time 60 ≡ true = ground arith in
      rw going (
        asked_once s.asked k (check_from site (suc k) (wait_time + 2) url)
          (λ t. check_from-Checked k (wait_time + 2) t (omega arith)) (supports_v1 site url s) s
          (supports_v1-Round s))

  -- The check of the connection ends: within 31 questions it has seen that vouch is there, or was
  -- stopped by an exception of a question, or all 31 were asked in vain.
  pub check_connection-Checked : (s : Keeper) → Checked s.asked 31 (check_connection site url s)
  unfolding check_connection
  check_connection-Checked s = check_from-Checked 31 0 s refl
