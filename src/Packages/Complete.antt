-- ===== src/Packages/Complete.antt =====
-- A download never leaves a partial file in the place of a package.
use pf9_du.Prelude.{
  ℕ, ◌+◌, String, ◌≡◌, inl, inr, refl, sym, ap, subst, arith, false, Option, none, some, List, [],
  ◌∷◌, join, ◌==◌, eq_iff, eq_refl, Bool-cases, Option-cases,
}
use Prim.Native.String.{len, count}
use text.Mathlib.TextLemmas.{length-append}
use pf9_du.Prelude.Assoc.{get, put, without, get-put}
use pf9_du.Prelude.Decimal.{decimal}
use pf9_du.Result.{Error, Result, ok, err, connection_error}
use pf9_du.Exec.{Exec, lift, gets, try_except, ◌>>=◌}
use pf9_du.Exec.Invariants.{Preserves, Preserves-bind, Preserves-lift, Preserves-try}
use pf9_du.Exec.Returns.{OnOk, OnOk-mono, OnOk-try, ReturnsOnly, ReturnsOnly-bind, ReturnsOnly-pure}
use pf9_du.Packages.Cache.{
  Net, Store, Answer, failing, call_os, request, set_files, write_chunks, fetch_sized, fetch_parts,
  as_download_failed, check_size, move_to, incomplete, download_file,
}

count_incomplete : count ".incomplete" ≡ 11
count_incomplete = refl

incomplete-ne : (net : Net) (path : String) → (incomplete net path == path) ≡ false
incomplete-ne net path = elim (Bool-cases (incomplete net path == path)) [
  | inr e ↦ e
  | inl e ↦
      let same = ap count ((eq_iff (incomplete net path) path).0 e) in
      absurd (omega (arith, same, length-append path ".incomplete", count_incomplete))
]

module _ (net : Net) (dest : String) (before : Option String) where
  -- The file in the place of the package is the old one.
  abbrev IsOld : Store → Type 0
  IsOld s = get dest s.files ≡ before

  call_os-IsOld : Preserves IsOld (call_os net)
  unfolding call_os
  call_os-IsOld = record { at = λ s h. h }

  request-IsOld : (url : String) → Preserves IsOld (request net url)
  unfolding request
  request-IsOld url = record { at = λ s h. h }

  put-IsOld : (text : String) → Preserves IsOld (set_files (put (incomplete net dest) text))
  put-IsOld text = record {
    at = λ s h. rw (get-put (incomplete net dest) dest text s.files, incomplete-ne net dest) h;
  }

  write_chunks-IsOld :
      (chunks : List String) (written : String)
      → Preserves IsOld (write_chunks net (incomplete net dest) chunks written)
  unfolding write_chunks
  write_chunks-IsOld [] written = Preserves-lift (ok tt)
  write_chunks-IsOld (c ∷ rest) written = Preserves-bind _ _ call_os-IsOld λ _.
      Preserves-bind _ _ (put-IsOld (join written c)) λ _. write_chunks-IsOld rest (join written c)

  fetch_sized-IsOld :
      (response : Answer) (o : Option String)
      → Preserves IsOld (fetch_sized net (incomplete net dest) response o)
  fetch_sized-IsOld response none = record { at = λ s h. h }
  fetch_sized-IsOld response (some content_length) = Preserves-bind _ _ call_os-IsOld λ _.
      Preserves-bind _ _ (put-IsOld "") λ _.
        Preserves-bind _ _ (write_chunks-IsOld response.chunks "") λ _.
          Preserves-bind (lift (failing response.broken)) _ (Preserves-lift _)
            λ _. Preserves-bind _ _ call_os-IsOld λ _. Preserves-lift (ok content_length)

  as_download_failed-IsOld : (e : Error) → Preserves IsOld (as_download_failed net e)
  as_download_failed-IsOld connection_error = record { at = λ s h. h }
  as_download_failed-IsOld _ = record { at = λ s h. h }

  abbrev fetched : String → Exec Store String
  fetched url =
      try_except (request net url >>= fetch_parts net (incomplete net dest))
        (as_download_failed net)

  fetched-IsOld : (url : String) → Preserves IsOld (fetched url)
  fetched-IsOld url =
      Preserves-try _ _
        (Preserves-bind _ _ (request-IsOld url) λ a. fetch_sized-IsOld a a.content_length)
        as_download_failed-IsOld

module _ (net : Net) (url dest : String) where
  -- The size that some answer to this request has given.
  abbrev IsGiven : String → Type 0
  IsGiven size =
      (n : ℕ) × (a : Answer) × (net.get_url url n ≡ ok a) × (a.content_length ≡ some size)

  abbrev Sized : String → Store → Type 0
  Sized size t = IsGiven size

  fetch_sized-size :
      (a : Answer) (o : Option String)
      → ReturnsOnly (λ size. o ≡ some size) (fetch_sized net (incomplete net dest) a o)
  fetch_sized-size a none = record { at = λ s. tt }
  fetch_sized-size a (some size) = ReturnsOnly-bind (call_os net) _ λ _.
      ReturnsOnly-bind (set_files (put (incomplete net dest) "")) _ λ _.
        ReturnsOnly-bind (write_chunks net (incomplete net dest) a.chunks "") _ λ _.
          ReturnsOnly-bind (lift (failing a.broken)) _
            λ _. ReturnsOnly-bind (call_os net) _ λ _. ReturnsOnly-pure size refl

  failed-Sized : (e : Error) (s : Store) → OnOk Sized (as_download_failed net e s)
  failed-Sized connection_error s = tt
  failed-Sized _ s = tt

  fetched-Sized : (s : Store) → OnOk Sized (fetched net dest none url s)
  unfolding request
  fetched-Sized s =
      OnOk-try Sized (request net url >>= fetch_parts net (incomplete net dest))
        (as_download_failed net) s (by (net.get_url url s.asked) refl) λ e. failed-Sized e _
    where
      t : Store
      t = record s { asked = s.asked + 1 }

      by :
          (r : Result Answer)
          → net.get_url url s.asked ≡ r
          → OnOk Sized (((λ (_ : Store). (r, t)) >>= fetch_parts net (incomplete net dest)) s)
      by (ok a) h =
          OnOk-mono (λ size u. a.content_length ≡ some size) Sized
            (λ size u same. (s.asked, a, h, same)) _ ((fetch_sized-size a a.content_length).at t)
      by (err e) h = tt

  -- The package is complete, or in its place is what was there before.
  abbrev pub IsComplete : Option String → Result (Unit {0}) × Store → Type 0
  IsComplete before (ok x, t) =
      (content : String) × (get dest t.files ≡ some content) × IsGiven (decimal (len content))
  IsComplete before (err e, t) = get dest t.files ≡ before

  -- What follows the download, in a state where the old file is in its place.
  placed :
      (before content' : Option String) (size : String) (s : Store)
      → get (incomplete net dest) s.files ≡ content'
      → IsOld net dest before s
      → IsGiven size
      → IsComplete before (
          (check_size net content' size >>= λ _. call_os net >>= λ _.
          gets (λ u. get (incomplete net dest) u.files) >>= move_to net (incomplete net dest) dest)
            s)
  unfolding call_os
  placed before none size s there old given = old
  placed before (some content) size s there old given =
      elim (Bool-cases (decimal (len content) == size)) [
        | inr e ↦ rw e old
        | inl e ↦ rw e (elim (Option-cases (net.os_call s.asked)) [
          | inr (x, f) ↦ rw f old
          | inl f ↦
              rw (f, there)
                (
                  content,
                  rw (
                    get-put dest dest content (without (incomplete net dest) s.files),
                    eq_refl dest,
                  ),
                  subst IsGiven (sym ((eq_iff (decimal (len content)) size).0 e)) given,
                )
        ])
      ]

  after_fetch :
      (before : Option String) (o : Result String × Store)
      → IsOld net dest before o.1
      → OnOk Sized o
      → IsComplete before (
          ((λ (_ : Store). o) >>= λ size.
          gets (λ s. get (incomplete net dest) s.files) >>= λ content.
          check_size net content size >>= λ _. call_os net >>= λ _.
          gets (λ u. get (incomplete net dest) u.files) >>= move_to net (incomplete net dest) dest)
            o.1)
  after_fetch before (ok size, s) old given =
      placed before (get (incomplete net dest) s.files) size s refl old given
  after_fetch before (err e, s) old given = old

  -- A download that returns has put a file in the place of the package whose size is the one that an
  -- answer to the request gave; if it raises, whatever failed, the place is as it was before.
  pub download_file-IsComplete :
      (s : Store) → IsComplete (get dest s.files) (download_file net url dest s)
  unfolding download_file
  download_file-IsComplete s =
      after_fetch (get dest s.files) (fetched net dest none url s)
        ((fetched-IsOld net dest (get dest s.files) url).at s refl) (fetched-Sized s)
