-- ===== src/Certs/Backups/Saving.antt =====
-- `backup_and_save_certs` writes the new files, and keeps each old one under a name of its own.
use pf9_du.Prelude.{
  String, ◌≡◌, refl, sym, ap, subst, ◌∙◌, true, none, some, List, [], ◌∷◌, ◌++◌, All,
}
use mathlib.Core.List.{append-nil}
use pf9_du.Prelude.Assoc.{Assoc, get, put, without, put-fresh}
use pf9_du.Exec.{pure}
use pf9_du.Exec.Returns.{OnOk, OnOk-bind, OnOk-mono}
use pf9_du.Certs.{Site, Keeper, tell, is_file, rename, write_owned}
use pf9_du.Certs.Files.{make_parent, backup_file, save_certs, backup_and_save_certs}
use pf9_du.Certs.Free.{free_name-is_free}
use pf9_du.Certs.Backups.{
  HasFiles, tell-HasFiles, rename-HasFiles, write_owned-HasFiles, make_parent-HasFiles,
}
use pf9_du.Certs.Backups.Names.{
  Differs, Differs-sym, fresh-Differs, All-map, All-both, All-snoc, paths, paths-snoc, Away, Apart,
  Apart-snoc, DistinctKeys, replaced, replaced-other, replaced-backup, replaced-new,
}

module _ (old news : Assoc String) where
  -- The old content is in the backup, and the new one in the file.
  pub record IsKept (files : Assoc String) (e : String × String) : Type 0 where
    pub content : String
    pub new : String
    pub was : get e.0 old ≡ some content
    pub kept : get e.1 files ≡ some content
    pub wanted : get e.0 news ≡ some new
    pub holds : get e.0 files ≡ some new

  -- The file is there as it was, and is none of those that are done.
  pub record IsWaiting (files done : Assoc String) (e : String × String) : Type 0 where
    pub content : String
    pub was : get e.0 old ≡ some content
    pub there : get e.0 files ≡ some content
    pub wanted : get e.0 news ≡ some e.1
    pub away : All (λ f. Differs e.0 f.0 × Differs e.0 f.1) done

  -- All files of the list are written, and have their backups.
  pub record IsSaved (names : List String) (backups : Assoc String) (t : Keeper) : Type 0 where
    pub kept : All (IsKept t.files) backups
    pub apart : Apart backups
    pub all_of_them : paths backups ≡ names

  -- One file more is done: `q`, which was backed up as `b`.
  module _ (q b data_of_q c : String) (files : Assoc String) (free : get b files ≡ none) where
    after : Assoc String
    after = replaced q b data_of_q c files

    IsKept-Away :
        (e : String × String) → IsKept files e → Differs q e.0 × Differs q e.1 → Away e (q, b)
    IsKept-Away e k away = (
      Differs-sym q e.0 away.0,
      Differs-sym b e.0 (fresh-Differs b e.0 k.new files free k.holds),
      Differs-sym q e.1 away.1,
      Differs-sym b e.1 (fresh-Differs b e.1 k.content files free k.kept),
    )

    IsKept-after : (e : String × String) → IsKept files e → Away e (q, b) → IsKept after e
    unfolding after
    IsKept-after e k (qn, bn, qk, bk) = record {
      content = k.content;
      new = k.new;
      was = k.was;
      kept =
          replaced-other q b data_of_q c files e.1 (Differs-sym e.1 q qk) (Differs-sym e.1 b bk)
          ∙ k.kept;
      wanted = k.wanted;
      holds =
          replaced-other q b data_of_q c files e.0 (Differs-sym e.0 q qn) (Differs-sym e.0 b bn)
          ∙ k.holds;
    }

    IsWaiting-after :
        (d : Assoc String) (e : String × String)
        → IsWaiting files d e
        → Differs q e.0
        → IsWaiting after (d ++ (q, b) ∷ []) e
    unfolding after
    IsWaiting-after d e w n =
        let m = fresh-Differs b e.0 w.content files free w.there in
        record {
          content = w.content;
          was = w.was;
          there = replaced-other q b data_of_q c files e.0 n m ∙ w.there;
          wanted = w.wanted;
          away =
              All-snoc (λ f. Differs e.0 f.0 × Differs e.0 f.1) d (q, b) w.away
                (Differs-sym q e.0 n, Differs-sym b e.0 m);
        }

    module _ (d : Assoc String) (kept : All (IsKept files) d)
        (w : IsWaiting files d (q, data_of_q)) where
      aways : All (λ e. Away e (q, b)) d
      aways =
          All-map (λ e (k, a). IsKept-Away e k a) d
            (All-both (IsKept files) (λ e. Differs q e.0 × Differs q e.1) d kept w.away)

      all_kept : w.content ≡ c → All (IsKept after) (d ++ (q, b) ∷ [])
      unfolding after
      all_kept same =
          All-snoc (IsKept after) d (q, b)
            (All-map (λ e (k, a). IsKept-after e k a) d
              (All-both (IsKept files) (λ e. Away e (q, b)) d kept aways))
            record {
              content = c;
              new = data_of_q;
              was = w.was ∙ ap some same;
              kept =
                  replaced-backup q b data_of_q c files
                    (Differs-sym b q (fresh-Differs b q w.content files free w.there));
              wanted = w.wanted;
              holds = replaced-new q b data_of_q c files;
            }

      all-Apart : Apart d → Apart (d ++ (q, b) ∷ [])
      all-Apart apart =
          Apart-snoc d (q, b) apart
            (Differs-sym b q (fresh-Differs b q w.content files free w.there)) aways

  module _ (site : Site) where
    -- The file has moved to a name that was free.
    MovedAway : Assoc String → Assoc String → String → String → Assoc String → Keeper → Type 0
    MovedAway files d q c d' t =
        (b : String) × (d' ≡ put q b d)
        × (get b files ≡ none)
        × (t.files ≡ put b c (without q files))

    backup_file-MovedAway :
        (q c : String) (d : Assoc String) (s : Keeper)
        → get q s.files ≡ some c
        → OnOk (MovedAway s.files d q c) (backup_file site q d s)
    unfolding backup_file MovedAway
    backup_file-MovedAway q c d s h =
        let (b, found, free) = free_name-is_free q s in
        let there : is_file q s.files ≡ true = rw (is_file, h) in
        rw (there, found)
          (OnOk-bind (HasFiles (put b c (without q s.files))) (MovedAway s.files d q c)
            (rename site q b) (λ _. pure (put q b d)) s (rename-HasFiles site q b c s h)
            λ _ t same. (b, refl, free, same))

    -- The file is written after it has been backed up.
    write-after :
        (q data_of_q c b : String) (files : Assoc String) (t : Keeper)
        → t.files ≡ put b c (without q files)
        → OnOk (HasFiles (replaced q b data_of_q c files)) (write_owned site q data_of_q t)
    write-after q data_of_q c b files t same =
        OnOk-mono (HasFiles (put q data_of_q (put q "" t.files)))
          (HasFiles (replaced q b data_of_q c files))
          (λ _ u e. e ∙ ap (λ f. put q data_of_q (put q "" f)) same)
          (write_owned site q data_of_q t) (write_owned-HasFiles site q data_of_q t)

    save_certs-IsSaved :
        (todo d : Assoc String) (names : List String) (files : Assoc String) (s : Keeper)
        → s.files ≡ files
        → All (IsKept files) d
        → Apart d
        → All (IsWaiting files d) todo
        → DistinctKeys todo
        → paths d ++ paths todo ≡ names
        → OnOk (IsSaved names) (save_certs site todo d s)
    unfolding save_certs MovedAway
    save_certs-IsSaved [] d names files s here kept apart waiting distinct all_names = record {
      kept = subst (λ f. All (IsKept f) d) (sym here) kept;
      apart = apart;
      all_of_them = sym (append-nil (paths d)) ∙ all_names;
    }
    save_certs-IsSaved ((q, content) ∷ rest) d names files s here kept apart waiting distinct
          all_names =
        let w = waiting.0 in
        let Post = IsSaved names in
        OnOk-bind (HasFiles s.files) Post (make_parent site) _ s (make_parent-HasFiles site s)
          λ _ t same.
            let at_t : t.files ≡ files = same ∙ here in
            OnOk-bind (MovedAway t.files d q w.content) Post (backup_file site q d) _ t
              (backup_file-MovedAway q w.content d t (ap (get q) at_t ∙ w.there))
              λ d' u (b, is_d', free_t, moved).
                let free : get b files ≡ none = ap (get b) (sym at_t) ∙ free_t in
                let at_u : u.files ≡ put b w.content (without q files) =
                  moved ∙ ap (λ f. put b w.content (without q f)) at_t in
                let fresh : put q b d ≡ d ++ (q, b) ∷ [] =
                  put-fresh q b d (All-map (λ e k. Differs-sym q e.0 k.0) d w.away) in
                OnOk-bind (HasFiles (replaced q b content w.content files)) Post
                  (write_owned site q content) _ u (write-after q content w.content b files u at_u)
                  λ _ v at_v.
                    rw (is_d', fresh)
                      (save_certs-IsSaved rest (d ++ (q, b) ∷ []) names
                        (replaced q b content w.content files) v at_v
                        (unfold after in all_kept q b content w.content files free d kept w refl)
                        (all-Apart q b content w.content files free d kept w apart)
                        (unfold after in
                          All-map
                            (λ e (k, n). IsWaiting-after q b content w.content files free d e k n)
                            rest
                            (All-both (IsWaiting files d) (λ e. Differs q e.0) rest waiting.1
                              distinct.0))
                        distinct.1 (paths-snoc d q b (paths rest) ∙ all_names))

    -- If each of the files is there, then afterwards each holds its new content, and its old content is
    -- in a backup.
    pub backup_and_save_certs-IsSaved :
        (s : Keeper)
        → All (IsWaiting s.files []) news
        → DistinctKeys news
        → OnOk (IsSaved (paths news)) (backup_and_save_certs site news s)
    unfolding backup_and_save_certs
    backup_and_save_certs-IsSaved s waiting distinct =
        OnOk-bind (HasFiles s.files) (IsSaved (paths news)) (tell site.os_call) _ s
          (tell-HasFiles site.os_call s)
          λ _ t same.
            OnOk-bind (HasFiles t.files) (IsSaved (paths news)) (tell site.os_call) _ t
              (tell-HasFiles site.os_call t)
              λ _ u same'.
                save_certs-IsSaved news [] (paths news) s.files u (same' ∙ same) tt tt waiting
                  distinct refl
