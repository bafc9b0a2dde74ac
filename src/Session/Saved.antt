-- ===== src/Session/Saved.antt =====
-- The file of the desired configuration in bbone/bbslave/bbslave/session.py, written and read.
use pf9_du.Prelude.{ℕ, ◌+◌, ◌≡◌, refl, ◌⊎◌, inl, inr, Option, String, none, some, Option-cases}
use pf9_du.Json.{Json, null}
use pf9_du.Result.{Error, Result, ok, err}
use pf9_du.Exec.{pure, try_except, ◌>>◌}
use pf9_du.Session.{
  Host, Agent, ask, tell, load_desired_config, save_desired_config, unlink_if, write_part_file,
  rename_part_file,
}

-- Where the file can be read and the text was printed from a value, that value is loaded.
module _ (h : Host) where
  load-dumped :
      (j : Json) (s : Agent)
      → h.loads (h.dumps j) ≡ ok j
      → s.desired_file ≡ some (h.dumps j)
      → h.read_file s.asked ≡ none
      → (load_desired_config h s).0 ≡ ok j
  unfolding load_desired_config ask tell
  load-dumped j s printed file readable = rw file (rw readable (rw printed refl))

  -- How a call that saves the configuration ends.
  abbrev pub IsSaved : Json → Agent → Result (Unit {0}) × Agent → Type 0
  IsSaved desired s o =
      ((o.0 ≡ ok tt) × ((load_desired_config h o.1).0 ≡ ok desired))
      ⊎ ((desired ≡ null)
          × ((e : Error) × (h.unlink_desired s.asked ≡ some e)
              × (o.0 ≡ err e)
              × (o.1.desired_file ≡ s.desired_file)))
      ⊎ ((o.0 ≡ ok tt)
          × (o.1.desired_file ≡ s.desired_file)
          × (((e : Error) × (h.write_part s.asked ≡ some e))
              ⊎ ((e : Error) × (h.rename_part (s.asked + 1) ≡ some e))))

  save_null :
      (file : Option String) (s : Agent)
      → s.desired_file ≡ file
      → IsSaved null s (unlink_if h file s)
  unfolding load_desired_config tell ask
  save_null none s absent = inl (refl, rw absent refl)
  save_null (some text) s there = elim (Option-cases (h.unlink_desired s.asked)) [
    | inl gone ↦ inl (rw gone refl, rw gone refl)
    | inr (e, failed) ↦ inr (inl (refl, (e, failed, rw failed refl, rw failed refl)))
  ]

  save_text :
      (desired : Json) (s : Agent)
      → h.loads (h.dumps desired) ≡ ok desired
      → ((n : ℕ) → h.read_file n ≡ none)
      → IsSaved desired s
          (try_except (write_part_file h (h.dumps desired) >> rename_part_file h) (λ e. pure tt) s)
  unfolding load_desired_config write_part_file rename_part_file tell ask
  save_text desired s printed readable = elim (Option-cases (h.write_part s.asked)) [
    | inr (e, failed) ↦ inr (inr (rw failed refl, rw failed refl, inl (e, failed)))
    | inl written ↦ elim (Option-cases (h.rename_part (s.asked + 1))) [
      | inr (e, failed) ↦
          inr (inr (rw (written, failed) refl, rw (written, failed) refl, inr (e, failed)))
      | inl renamed ↦ inl (
        rw (written, renamed) refl,
        rw (written, renamed) (rw (readable (s.asked + 1 + 1)) (rw printed refl)),
      )
    ]
  ]

  -- If what is printed reads back as the value and the file can be read, then saving a configuration
  -- ends in one of three ways. It returns, and the configuration is the one that is loaded, `None`
  -- too; for `None`, the file could not be unlinked: that is raised, and the file is the old one; or
  -- the `.part` file could not be written or not renamed: nothing is raised, and the file is the old
  -- one.
  pub save_desired_config-load :
      (desired : Json) (s : Agent)
      → h.loads (h.dumps desired) ≡ ok desired
      → ((n : ℕ) → h.read_file n ≡ none)
      → IsSaved desired s (save_desired_config h desired s)
  unfolding save_desired_config
  save_desired_config-load null s printed readable = save_null s.desired_file s refl
  save_desired_config-load desired s printed readable = save_text desired s printed readable
