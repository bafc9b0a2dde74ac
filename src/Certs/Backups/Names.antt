-- ===== src/Certs/Backups/Names.antt =====
-- Names that differ: of files, of their backups, and of what is still to be saved.
use pf9_du.Prelude.{
  String, ◌≡◌, refl, sym, ap, ◌∙◌, true, false, none, some, List, [], ◌∷◌, ◌++◌, map, ◌==◌, eq_iff,
  eq_refl, All, inl, inr, Bool-cases,
}
use pf9_du.Prelude.Assoc.{Assoc, get, put, without, get-put, get-without}

abbrev pub Differs : String → String → Type 0
Differs a b = (a == b) ≡ false

pub Differs-sym : (a b : String) → Differs a b → Differs b a
Differs-sym a b h = elim (Bool-cases (b == a)) [
  | inl e ↦
      let same : a ≡ b = sym ((eq_iff b a).0 e) in
      let k : true ≡ false = sym ((eq_iff a b).1 same) ∙ h in cc
  | inr e ↦ e
]

-- A name that is no file differs from one that is.
pub fresh-Differs :
    (b x c : String) (files : Assoc String)
    → get b files ≡ none
    → get x files ≡ some c
    → Differs b x
fresh-Differs b x c files free there = elim (Bool-cases (b == x)) [
  | inl e ↦
      let same : get b files ≡ get x files = ap (λ k. get k files) ((eq_iff b x).0 e) in
      let k : none ≡ some c = sym free ∙ same ∙ there in cc
  | inr e ↦ e
]

module _ {A : Type 0} where
  pub All-map : {P Q : A → Type 0} (f : (a : A) → P a → Q a) (xs : List A) → All P xs → All Q xs
  All-map f [] h = tt
  All-map f (x ∷ xs) h = (f x h.0, All-map f xs h.1)

  pub All-both : (P Q : A → Type 0) (xs : List A) → All P xs → All Q xs → All (λ a. P a × Q a) xs
  All-both P Q [] p q = tt
  All-both P Q (x ∷ xs) p q = ((p.0, q.0), All-both P Q xs p.1 q.1)

  pub All-snoc : (P : A → Type 0) (xs : List A) (a : A) → All P xs → P a → All P (xs ++ a ∷ [])
  All-snoc P [] a h p = (p, tt)
  All-snoc P (x ∷ xs) a h p = (h.0, All-snoc P xs a h.1 p)

abbrev pub paths : Assoc String → List String
paths d = map (λ e. e.0) d

pub paths-snoc :
    (d : Assoc String) (k a : String) (xs : List String)
    → paths (d ++ (k, a) ∷ []) ++ xs ≡ paths d ++ k ∷ xs
paths-snoc [] k a xs = refl
paths-snoc (e ∷ d) k a xs = ap (◌∷◌ e.0) (paths-snoc d k a xs)

pub All-paths : (P : String → Type 0) (d : Assoc String) → All (λ e. P e.0) d → All P (paths d)
All-paths P [] h = tt
All-paths P (e ∷ d) h = (h.0, All-paths P d h.1)

-- Each of two names differs from each of two others.
abbrev pub Away : String × String → String × String → Type 0
Away e f = Differs e.0 f.0 × Differs e.0 f.1 × Differs e.1 f.0 × Differs e.1 f.1

-- All names of files and backups differ.
abbrev pub Apart : Assoc String → Type 0
Apart [] = Unit
Apart (e ∷ d) = Differs e.0 e.1 × All (Away e) d × Apart d

pub Apart-snoc :
    (d : Assoc String) (f : String × String)
    → Apart d
    → Differs f.0 f.1
    → All (λ e. Away e f) d
    → Apart (d ++ f ∷ [])
Apart-snoc [] f h n away = (n, tt, tt)
Apart-snoc (e ∷ d) f h n away = (h.0, All-snoc (Away e) d f h.1 away.0, Apart-snoc d f h.2 n away.1)

abbrev pub DistinctKeys : Assoc String → Type 0
DistinctKeys [] = Unit
DistinctKeys (e ∷ d) = All (λ f. Differs e.0 f.0) d × DistinctKeys d

-- A file `q` after it is backed up as `b` and written anew, and what that leaves alone.
module _ (q b content c : String) (files : Assoc String) where
  abbrev pub replaced : Assoc String
  replaced = put q content (put q "" (put b c (without q files)))

  pub replaced-other : (x : String) → Differs q x → Differs b x → get x replaced ≡ get x files
  replaced-other x n m = rw (
    get-put q x content (put q "" (put b c (without q files))),
    n,
    get-put q x "" (put b c (without q files)),
    n,
    get-put b x c (without q files),
    m,
    get-without q x files,
    n,
  )

  pub replaced-backup : Differs q b → get b replaced ≡ some c
  replaced-backup n = rw (
    get-put q b content (put q "" (put b c (without q files))),
    n,
    get-put q b "" (put b c (without q files)),
    n,
    get-put b b c (without q files),
    eq_refl b,
  )

  pub replaced-new : get q replaced ≡ some content
  replaced-new = rw (get-put q q content (put q "" (put b c (without q files))), eq_refl q)
