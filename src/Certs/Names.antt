-- ===== src/Certs/Names.antt =====
-- The common name that `process_cert_update_request` of cert_update_thread.py asks a certificate for.
use pf9_du.Prelude.{
  ℕ, zero, suc, ◌≤◌, String, Bool, true, false, ◌&&◌, ◌||◌, ◌==◌, ◌≡◌, refl, arith, leb, nat_eq,
  join, if◌then◌else◌, inl, inr, Bool-cases,
}
use Prim.Native.Char.{code}
use Prim.Native.String.{count}
use text.Mathlib.TextLemmas.{length-nil, length-cons, length-append}
use pf9_du.Result.{Result, ok, err, unbound_local_error}
use pf9_du.Certs.Comms.{take_chars}

-- `s.rstrip('.')`
unfoldable pub rstrip_dots : String → String
rstrip_dots String.[] = ""
rstrip_dots (String.◌∷◌ c s) =
    let rest = rstrip_dots s in if nat_eq (code c) b'.' && rest == "" then "" else String.◌∷◌ c rest

-- `common_name` is assigned only where the host has a name.
unfoldable pub common_name : String → String → Result String
unfolding rstrip_dots take_chars
common_name hostname host_id =
    if hostname == ""
    then err unbound_local_error
    else ok (join (join (rstrip_dots (take_chars 54 hostname)) "-") (take_chars 8 host_id))

-- What the pattern `allowed_cn` reads: labels between dots, of letters, digits and hyphens, that neither
-- begin nor end with a hyphen.
pub data Place : Type 0 where
  label_starts after_hyphen after_sign : Place

abbrev is_alphanumeric : ℕ → Bool
is_alphanumeric c =
    (leb b'a' c && leb c b'z') || (leb b'A' c && leb c b'Z') || (leb b'0' c && leb c b'9')

abbrev scan : Place → String → Bool
scan after_sign String.[] = true
scan after_sign (String.◌∷◌ c s) =
    let dot = scan label_starts s in
    let hyphen = scan after_hyphen s in
    let sign = scan after_sign s in
    if nat_eq (code c) b'.'
    then dot
    else if nat_eq (code c) b'-'
    then hyphen
    else if is_alphanumeric (code c)
    then sign
    else nat_eq (code c) 10 && s == ""
scan after_hyphen String.[] = false
scan after_hyphen (String.◌∷◌ c s) =
    let hyphen = scan after_hyphen s in
    let sign = scan after_sign s in
    if nat_eq (code c) b'-' then hyphen else is_alphanumeric (code c) && sign
scan label_starts String.[] = false
scan label_starts (String.◌∷◌ c s) = is_alphanumeric (code c) && scan after_sign s

-- `allowed_cn.match(common_name)`; `$` stands before a last line feed too.
unfoldable pub allowed_cn : String → Bool
allowed_cn s = scan label_starts s

count-take_chars : (n : ℕ) (s : String) → count (take_chars n s) ≤ n
unfolding take_chars
count-take_chars zero s = omega (arith, length-nil)
count-take_chars (suc n) String.[] = omega (arith, length-nil)
count-take_chars (suc n) (String.◌∷◌ c s) =
    omega (arith, length-cons c (take_chars n s), count-take_chars n s)

count-rstrip_dots : (s : String) → count (rstrip_dots s) ≤ count s
unfolding rstrip_dots
count-rstrip_dots String.[] = omega arith
count-rstrip_dots (String.◌∷◌ c s) =
    elim (Bool-cases (nat_eq (code c) b'.' && rstrip_dots s == "")) [
      | inl e ↦ rw e (omega (arith, length-nil))
      | inr e ↦
          rw e (omega (arith, length-cons c (rstrip_dots s), length-cons c s, count-rstrip_dots s))
    ]

-- The common name has no more than 63 characters, whatever the host is called: it keeps within the 64
-- that a certificate allows.
common_name-bound :
    (hostname host_id cn : String) → common_name hostname host_id ≡ ok cn → count cn ≤ 63
unfolding common_name
common_name-bound hostname host_id cn h = elim (Bool-cases (hostname == "")) [
  | inl e ↦ absurd (no_name e)
  | inr e ↦ named e
]
  where
    no_name : (hostname == "") ≡ true → ⊥
    no_name e = let k : err unbound_local_error ≡ ok cn = rw e at h in cc

    named : (hostname == "") ≡ false → count cn ≤ 63
    named e =
        let host = rstrip_dots (take_chars 54 hostname) in
        let k : ok (join (join host "-") (take_chars 8 host_id)) ≡ ok cn = rw e at h in
        let same : join (join host "-") (take_chars 8 host_id) ≡ cn = cc in
        rw (← same) (
          omega (
            arith,
            length-append (join host "-") (take_chars 8 host_id),
            length-append host "-",
            count-rstrip_dots (take_chars 54 hostname),
            count-take_chars 54 hostname,
            count-take_chars 8 host_id,
          ))

allowed_cn_dotted : allowed_cn "node-1.rack2-0a1b2c3d" ≡ true
unfolding allowed_cn
allowed_cn_dotted = refl

allowed_cn_underscore : allowed_cn "node_1-0a1b2c3d" ≡ false
unfolding allowed_cn
allowed_cn_underscore = refl
