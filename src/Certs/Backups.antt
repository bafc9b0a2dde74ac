-- ===== src/Certs/Backups.antt =====
-- What the operations of certs.py on files do to them, where they return.
pub mod Names
pub mod Saving
pub mod Restoring
use pf9_du.Prelude.{
  ℕ, ◌+◌, String, ◌≡◌, refl, sym, ap, ◌∙◌, Bool, true, false, Option, none, some, List, inl, inr,
  if◌then◌else◌, Option-cases,
}
use pf9_du.Prelude.Assoc.{Assoc, get, put, without}
use pf9_du.Result.{Error, Result, ok, err, file_exists, os_error}
use pf9_du.Exec.{Exec, pure, gets, handle, continue, try_except, ◌>>=◌}
use pf9_du.Exec.Returns.{OnOk, OnOk-bind, OnOk-mono}
use pf9_du.Certs.{
  Site, Keeper, ask, tell, outcome, is_file, on_files, move_to, tear, rename, unlink, write_owned,
}
use pf9_du.Certs.Files.{make_parent, unless_there}

-- The files are these.
abbrev pub HasFiles : {A : Type 0} → Assoc String → A → Keeper → Type 0
HasFiles files a t = t.files ≡ files

pub tell-HasFiles : (f : ℕ → Option Error) (s : Keeper) → OnOk (HasFiles s.files) (tell f s)
unfolding tell ask
tell-HasFiles f s = elim (Option-cases (f s.asked)) [ inl e ↦ rw e | inr (x, e) ↦ rw e tt ]

answered-HasFiles :
    {A : Type 0} (r : Result A) (s : Keeper)
    → OnOk (HasFiles s.files) (r, record s { asked = s.asked + 1 })
answered-HasFiles (ok a) s = refl
answered-HasFiles (err e) s = tt

pub ask-HasFiles : {A : Type 0} (f : ℕ → Result A) (s : Keeper) → OnOk (HasFiles s.files) (ask f s)
unfolding ask
ask-HasFiles f s = answered-HasFiles (f s.asked) s

module _ (site : Site) where
  pub rename-HasFiles :
      (src dest content : String) (s : Keeper)
      → get src s.files ≡ some content
      → OnOk (HasFiles (put dest content (without src s.files))) (rename site src dest s)
  unfolding rename
  rename-HasFiles src dest content s h =
      OnOk-bind (HasFiles s.files) (HasFiles (put dest content (without src s.files)))
        (tell site.os_call) _ s (tell-HasFiles site.os_call s)
        λ _ t same.
          let there : get src t.files ≡ some content = ap (get src) same ∙ h in
          rw there (ap (λ files. put dest content (without src files)) same)

  pub unlink-HasFiles :
      (path : String) (s : Keeper)
      → is_file path s.files ≡ true
      → OnOk (HasFiles (without path s.files)) (unlink site path s)
  unfolding unlink
  unlink-HasFiles path s h =
      OnOk-bind (HasFiles s.files) (HasFiles (without path s.files)) (tell site.os_call) _ s
        (tell-HasFiles site.os_call s)
        λ _ t same.
          let there : is_file path t.files ≡ true = ap (is_file path) same ∙ h in
          rw there (ap (without path) same)

  pub write_owned-HasFiles :
      (path content : String) (s : Keeper)
      → OnOk (HasFiles (put path content (put path "" s.files))) (write_owned site path content s)
  unfolding write_owned tell ask
  write_owned-HasFiles path content s =
      OnOk-bind (HasFiles s.files) (HasFiles done) (tell site.os_call) _ s
        (tell-HasFiles site.os_call s)
        λ _ t same.
          OnOk-bind (HasFiles done) (HasFiles done)
            (try_except (tell site.os_call >>= λ _. on_files (put path content)) (tear site path)) _
            (record t { files = put path "" t.files })
            (written (record t { files = put path "" t.files })
              (ap (λ files. put path content (put path "" files)) same))
            λ _ u same'. after_chown u same'
    where
      done : Assoc String
      done = put path content (put path "" s.files)

      after_chown : (u : Keeper) → u.files ≡ done → OnOk (HasFiles done) (tell site.os_call u)
      after_chown u same' =
          OnOk-mono (HasFiles u.files) (HasFiles done) (λ _ t e. e ∙ same') (tell site.os_call u)
            (tell-HasFiles site.os_call u)

      written :
          (t : Keeper)
          → put path content t.files ≡ done
          → OnOk (HasFiles done) (
              try_except
                (tell site.os_call >>= λ _. on_files (put path content))
                (tear site path)
                t)
      written t same = elim (Option-cases (site.os_call t.asked)) [
        | inl e ↦ rw e same
        | inr (x, e) ↦ rw e tt
      ]

  unless_there-HasFiles : (e : Error) (s : Keeper) → OnOk (HasFiles s.files) (unless_there site e s)
  unless_there-HasFiles file_exists s = refl
  unless_there-HasFiles _ s = tt

  pub make_parent-HasFiles : (s : Keeper) → OnOk (HasFiles s.files) (make_parent site s)
  unfolding make_parent tell ask
  make_parent-HasFiles s = elim (Option-cases (site.os_call s.asked)) [
    | inl e ↦ rw e
    | inr (x, e) ↦ rw e (unless_there-HasFiles x (record s { asked = s.asked + 1 }))
  ]
