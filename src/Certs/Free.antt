-- ===== src/Certs/Free.antt =====
-- The search for a name that is no file, in certs.py, finds one.
use pf9_du.Prelude.{
  ℕ, zero, suc, ◌+◌, ◌≤◌, ◌<◌, String, ◌≡◌, refl, sym, ◌∙◌, arith, true, false, none, some, [], ◌∷◌,
  ◌==◌, eq_iff, length, join, inl, inr, Bool-cases, Option-cases,
}
use text.Mathlib.TextLemmas.{append_cancel_left}
use pf9_du.Prelude.Assoc.{Assoc, get, without, get-without}
use pf9_du.Prelude.Decimal.{decimal, decimal_inj}
use pf9_du.Result.{ok}
use pf9_du.Certs.{Keeper, is_file}
use pf9_du.Certs.Files.{numbered, free_index, free_name}

numbered_inj : (path : String) (i j : ℕ) → numbered path i ≡ numbered path j → i ≡ j
unfolding numbered
numbered_inj path i j h = decimal_inj i j (
    append_cancel_left "." (decimal i) (decimal j)
      (append_cancel_left path (join "." (decimal i)) (join "." (decimal j)) h))

numbered-ne : (path : String) (i j : ℕ) → i < j → (numbered path i == numbered path j) ≡ false
numbered-ne path i j lt = elim (Bool-cases (numbered path i == numbered path j)) [
  | inl e ↦ absurd (omega (arith, numbered_inj path i j ((eq_iff _ _).0 e)))
  | inr e ↦ e
]

length-without-le : (k : String) (d : Assoc String) → length (without k d) ≤ length d
unfolding without
length-without-le k [] = omega arith
length-without-le k ((j, b) ∷ d) = ground (arith, length-without-le k d)

length-without-lt :
    (k : String) (d : Assoc String) → is_file k d ≡ true → length (without k d) < length d
unfolding without get
length-without-lt k [] h = cc
length-without-lt k ((j, b) ∷ d) h = elim (Bool-cases (j == k)) [
  | inl e ↦ rw e (omega (arith, length-without-le k d))
  | inr e ↦ rw e (omega (arith, length-without-lt k d (rw (e, is_file, get) at h)))
]

is_file-without :
    (k j : String) (d : Assoc String) → (k == j) ≡ false → is_file j (without k d) ≡ is_file j d
is_file-without k j d e = rw (is_file, get-without k j d, e)

module _ (path : String) where
  free_index-agree :
      (fuel idx : ℕ) (f g : Assoc String)
      → ((j : ℕ) → idx ≤ j → is_file (numbered path j) f ≡ is_file (numbered path j) g)
      → free_index fuel path idx f ≡ free_index fuel path idx g
  unfolding free_index
  free_index-agree zero idx f g same = refl
  free_index-agree (suc fuel) idx f g same =
      rw
        (same idx (omega arith), free_index-agree fuel (idx + 1) f g (λ j le. same j (omega arith)))

  -- An index is found, and its name is no file.
  Found : ℕ → ℕ → Assoc String → Type 0
  Found fuel idx files =
      (i : ℕ) × (free_index fuel path idx files ≡ some i)
      × (idx ≤ i)
      × (is_file (numbered path i) files ≡ false)

  free_index-Found :
      (fuel idx : ℕ) (files : Assoc String) → length files < fuel → Found fuel idx files
  unfolding free_index Found
  free_index-Found zero idx files h = absurd (omega arith)
  free_index-Found (suc fuel) idx files h = elim (Bool-cases (is_file (numbered path idx) files)) [
    | inr e ↦ (idx, rw e, omega arith, e)
    | inl e ↦
        let taken = numbered path idx in
        let (i, found, le, no_file) =
          free_index-Found fuel (idx + 1) (without taken files)
            (omega (arith, length-without-lt taken files e)) in
        let same = λ (j : ℕ) (later : idx + 1 ≤ j).
          is_file-without taken (numbered path j) files (numbered-ne path idx j (omega arith)) in
        (
          i,
          rw e (sym (free_index-agree fuel (idx + 1) (without taken files) files same) ∙ found),
          omega arith,
          sym (same i le) ∙ no_file,
        )
  ]

  no_file-get :
      (name : String) (files : Assoc String) → is_file name files ≡ false → get name files ≡ none
  no_file-get name files h = elim (Option-cases (get name files)) [
    | inl e ↦ e
    | inr (c, e) ↦ let k : true ≡ false = rw (e, is_file) at h in cc
  ]

  -- The search for a name ends, and the name is free.
  pub free_name-is_free :
      (s : Keeper) → (name : String) × (free_name path s ≡ (ok name, s)) × (get name s.files ≡ none)
  unfolding free_name Found
  free_name-is_free s =
      let (i, found, le, no_file) =
        free_index-Found (suc (length s.files)) 0 s.files (omega arith) in
      (numbered path i, rw found, no_file-get _ s.files no_file)
