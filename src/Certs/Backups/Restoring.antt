-- ===== src/Certs/Backups/Restoring.antt =====
-- `restore_backups` puts every backup back, and changes no other file.
use pf9_du.Prelude.{String, ◌≡◌, refl, sym, ap, ◌∙◌, true, some, [], ◌∷◌, All, eq_refl}
use pf9_du.Prelude.Assoc.{Assoc, get, put, without, get-put, get-without}
use pf9_du.Exec.Returns.{OnOk, OnOk-bind, OnOk-mono}
use pf9_du.Certs.{Site, Keeper, is_file, rename, unlink}
use pf9_du.Certs.Files.{restore_backups}
use pf9_du.Certs.Backups.{HasFiles, rename-HasFiles, unlink-HasFiles}
use pf9_du.Certs.Backups.Names.{Differs, Differs-sym, All-map, All-both, Away, Apart}

module _ (old : Assoc String) where
  -- The file is there, and its old content is in its backup.
  pub record HasBackup (files : Assoc String) (e : String × String) : Type 0 where
    pub content : String
    pub was : get e.0 old ≡ some content
    pub kept : get e.1 files ≡ some content
    pub there : is_file e.0 files ≡ true

  -- The files have their old contents.
  abbrev pub IsOld : Assoc String → String × String → Type 0
  IsOld files e = get e.0 files ≡ get e.0 old

  -- All files are restored, and what is neither a file nor a backup stays.
  IsRestored : {A : Type 0} → Assoc String → Assoc String → A → Keeper → Type 0
  IsRestored backups files a t =
      All (IsOld t.files) backups
      × ((x : String)
          → All (λ e. Differs x e.0 × Differs x e.1) backups
          → get x t.files ≡ get x files)

  module _ (p b c : String) (files : Assoc String) where
    abbrev put_back : Assoc String
    put_back = put p c (without b (without p files))

    put_back-other : (x : String) → Differs x p → Differs x b → get x put_back ≡ get x files
    put_back-other x n m = rw (
      get-put p x c (without b (without p files)),
      Differs-sym x p n,
      get-without b x (without p files),
      Differs-sym x b m,
      get-without p x files,
      Differs-sym x p n,
    )

    put_back_self : get p put_back ≡ some c
    put_back_self = rw (get-put p p c (without b (without p files)), eq_refl p)

    HasBackup-put_back :
        (e : String × String) → HasBackup files e → Away (p, b) e → HasBackup put_back e
    HasBackup-put_back e k (pn, pk, bn, bk) = record {
      content = k.content;
      was = k.was;
      kept = put_back-other e.1 (Differs-sym p e.1 pk) (Differs-sym b e.1 bk) ∙ k.kept;
      there =
          rw (is_file, put_back-other e.0 (Differs-sym p e.0 pn) (Differs-sym b e.0 bn)) k.there;
    }

  module _ (site : Site) where
    restore_backups-IsRestored :
        (backups files : Assoc String) (s : Keeper)
        → s.files ≡ files
        → All (HasBackup files) backups
        → Apart backups
        → OnOk (IsRestored backups files) (restore_backups site backups s)
    unfolding restore_backups IsRestored
    restore_backups-IsRestored [] files s here held apart = (tt, λ x h. ap (get x) here)
    restore_backups-IsRestored ((p, b) ∷ rest) files s here held apart =
        let k = held.0 in
        let Post = IsRestored ((p, b) ∷ rest) files in
        OnOk-bind (HasFiles (without p s.files)) Post (unlink site p) _ s
          (unlink-HasFiles site p s (ap (is_file p) here ∙ k.there))
          λ _ t at_t.
            let gone : t.files ≡ without p files = at_t ∙ ap (without p) here in
            let there : get b t.files ≡ some k.content =
              ap (get b) gone ∙ rw (get-without p b files, apart.0) k.kept in
            OnOk-bind (HasFiles (put p k.content (without b t.files))) Post (rename site b p) _ t
              (rename-HasFiles site b p k.content t there)
              λ _ u at_u.
                let at_put : u.files ≡ put_back p b k.content files =
                  at_u ∙ ap (λ f. put p k.content (without b f)) gone in
                OnOk-mono (IsRestored rest (put_back p b k.content files)) Post
                  (λ _ v (all_old, others). (
                    (
                      others p (All-map (λ e a. (a.0, a.1)) rest apart.1)
                          ∙ put_back_self p b k.content files
                          ∙ sym k.was,
                      all_old,
                    ),
                    λ x h. others x h.1 ∙ put_back-other p b k.content files x h.0.0 h.0.1,
                  ))
                  (restore_backups site rest u)
                  (restore_backups-IsRestored rest (put_back p b k.content files) u at_put
                    (All-map (λ e (k', a). HasBackup-put_back p b k.content files e k' a) rest
                      (All-both (HasBackup files) (Away (p, b)) rest held.1 apart.1))
                    apart.2)

    pub restore_backups-IsOld :
        (backups : Assoc String) (s : Keeper)
        → All (HasBackup s.files) backups
        → Apart backups
        → OnOk (λ _ t. All (IsOld t.files) backups) (restore_backups site backups s)
    unfolding IsRestored
    restore_backups-IsOld backups s held apart =
        OnOk-mono (IsRestored backups s.files) (λ _ t. All (IsOld t.files) backups) (λ _ t h. h.0)
          (restore_backups site backups s)
          (restore_backups-IsRestored backups s.files s refl held apart)
