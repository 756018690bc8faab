-- ===== src/AtTok/Fields.antt =====
-- Lines of fields, read field by field by at_tok.c.
pub mod Hex
use rild_hisi.Common.{
  ℕ, zero, suc, ◌+◌, ◌^◌, ◌≤◌, ◌<◌, ◌≡◌, ◌≢◌, min, refl, sym, ap, ◌∙◌, true, false, not, List, [],
  ◌∷◌, ◌++◌, Option, none, some, arith, All, ◌==◌, if◌then◌else◌, append-nil, append_assoc,
  replicate, length, map, ◌>>=◌,
}
use rild_hisi.Common.Int.{ℤ, pos, negsuc}
use rild_hisi.Telephony.{Bytes, CString}
use rild_hisi.AtTok.{
  is_space, behind, strsep, skip_white_space, skip_next_comma, tok_at, next_tok, strtol,
  scan_digits, starts_with_digit, split_sign, skip_hex_prefix, neg_of, to_int, at_tok_start,
  at_tok_nextint, at_tok_nextint_base, at_tok_nextstr,
}
use rild_hisi.AtTok.Decimal.{print, scan-print, IsDigit, All-print, print-cons}

-- The character does not stand in the text.
abbrev pub Lacks : ℕ → Bytes → Type 0
Lacks c = All λ x. x ≢ c

strsep_all : (c : ℕ) (w : Bytes) → Lacks c w → strsep c w ≡ (w, none)
unfolding strsep
strsep_all c [] h = refl
strsep_all c (x ∷ xs) h = ground (arith, strsep_all c xs h.1, h.0)

strsep_field : (c : ℕ) (w r : Bytes) → Lacks c w → strsep c (w ++ c ∷ r) ≡ (w, some r)
unfolding strsep
strsep_field c [] r h = ground arith
strsep_field c (x ∷ xs) r h = ground (arith, strsep_field c xs r h.1, h.0)

-- What follows a field: the end of the line, or a comma and more.
abbrev pub tail_of : CString → Bytes
tail_of none = []
tail_of (some r) = b',' ∷ r

strsep_tail : (w : Bytes) (cur : CString) → Lacks b',' w → strsep b',' (w ++ tail_of cur) ≡ (w, cur)
strsep_tail w none h = rw append-nil (strsep_all b',' w h)
strsep_tail w (some r) h = strsep_field b',' w r h

skip_spaces :
    (k x : ℕ) (xs : Bytes)
    → is_space x ≡ false
    → skip_white_space (replicate k b' ' ++ x ∷ xs) ≡ x ∷ xs
unfolding skip_white_space
skip_spaces zero x xs h = rw h
skip_spaces (suc k) x xs h = skip_spaces k x xs h

-- A number with its sign.
unfoldable pub print_int : ℤ → Bytes
print_int (pos n) = print n
print_int (negsuc n) = b'-' ∷ print (suc n)

-- The values of an `int`.
abbrev pub IsInt : ℤ → Type 0
IsInt (pos n) = n < 2 ^ 31
IsInt (negsuc n) = n < 2 ^ 31

-- The first character of a number
abbrev StartsNumber : ℕ → Type 0
StartsNumber c = (is_space c ≡ false) × ((c == b'"') ≡ false)

Lacks-digits : (xs : Bytes) → All IsDigit xs → Lacks b',' xs
Lacks-digits [] h = tt
Lacks-digits (x ∷ xs) h = ((λ e. omega (arith, h.0)), Lacks-digits xs h.1)

print_int-cons :
    (z : ℤ)
    → (c : ℕ) × (cs : Bytes) × (print_int z ≡ c ∷ cs) × StartsNumber c × Lacks b',' (print_int z)
unfolding print_int
print_int-cons (pos n) =
    let (c, cs, e, d) = print-cons n in
    (c, cs, e, (ground (arith, d), ground (arith, d)), Lacks-digits (print n) (All-print n))
print_int-cons (negsuc n) = (
  b'-',
  print (suc n),
  refl,
  (refl, refl),
  ((λ e. omega arith), Lacks-digits (print (suc n)) (All-print (suc n))),
)

starts-digit : (c : ℕ) (cs : Bytes) → IsDigit c → starts_with_digit 10 (c ∷ cs) ≡ true
starts-digit c cs h = ground arith

plain-split : (c : ℕ) (cs : Bytes) → IsDigit c → split_sign (c ∷ cs) ≡ (false, c ∷ cs)
plain-split c cs h = ground arith

digits-no_space : (c : ℕ) → IsDigit c → is_space c ≡ false
digits-no_space c h = ground arith

skip_10 : (cs : Bytes) → skip_hex_prefix 10 cs ≡ cs
skip_10 [] = refl
skip_10 (c ∷ []) = refl
skip_10 (c ∷ d ∷ cs) = refl

scan_all : (n : ℕ) → scan_digits 10 0 (print n) ≡ n
scan_all n = ap (scan_digits 10 0) (sym (append-nil (print n))) ∙ scan-print n [] refl

strtol_digits :
    (long_max c : ℕ) (cs : Bytes)
    → IsDigit c
    → strtol long_max 10 false (c ∷ cs) ≡ (pos (min (scan_digits 10 0 (c ∷ cs)) long_max), true)
unfolding strtol
strtol_digits long_max c cs h =
    rw (digits-no_space c h, plain-split c cs h, skip_10 (c ∷ cs), starts-digit c cs h)

strtol_minus :
    (long_max c : ℕ) (cs : Bytes)
    → IsDigit c
    → strtol long_max 10 false (b'-' ∷ c ∷ cs)
      ≡ (neg_of (min (scan_digits 10 0 (c ∷ cs)) (long_max + 1)), true)
unfolding strtol
strtol_minus long_max c cs h = rw (skip_10 (c ∷ cs), starts-digit c cs h)

-- A printed number is read as its value.
strtol-print_int :
    (long_max : ℕ) (z : ℤ)
    → 2 ^ 31 ≤ long_max + 1
    → IsInt z
    → strtol long_max 10 false (print_int z) ≡ (z, true)
unfolding print_int
strtol-print_int long_max (pos n) big h =
    let (c, cs, e, d) = print-cons n in
    let value : min (scan_digits 10 0 (print n)) long_max ≡ n = omega (arith, scan_all n) in
    ap (strtol long_max 10 false) e
    ∙ strtol_digits long_max c cs d
    ∙ ap (λ t. (pos (min (scan_digits 10 0 t) long_max), true)) (sym e)
    ∙ ap (λ k. (pos k, true)) value
strtol-print_int long_max (negsuc n) big h =
    let (c, cs, e, d) = print-cons (suc n) in
    let value : min (scan_digits 10 0 (print (suc n))) (long_max + 1) ≡ suc n =
      omega (arith, scan_all (suc n)) in
    ap (λ t. strtol long_max 10 false (b'-' ∷ t)) e
    ∙ strtol_minus long_max c cs d
    ∙ ap (λ t. (neg_of (min (scan_digits 10 0 t) (long_max + 1)), true)) (sym e)
    ∙ ap (λ k. (neg_of k, true)) value

to_int-IsInt : (z : ℤ) → IsInt z → to_int z ≡ z
to_int-IsInt (pos n) h = ground arith
to_int-IsInt (negsuc n) h = ground arith

-- A number behind `k` spaces, as a field.
abbrev pub field : ℕ × ℤ → Bytes
field (k, z) = replicate k b' ' ++ print_int z

next_tok_word :
    (k c : ℕ) (cs : Bytes) (cur : CString)
    → is_space c ≡ false
    → (c == b'"') ≡ false
    → Lacks b',' (c ∷ cs)
    → next_tok (some ((replicate k b' ' ++ c ∷ cs) ++ tail_of cur)) ≡ (some (c ∷ cs), cur)
unfolding next_tok tok_at
next_tok_word k c cs cur plain unquoted lacks = rw (
  append_assoc (replicate k b' ') (c ∷ cs) (tail_of cur),
  skip_spaces k c (cs ++ tail_of cur) plain,
  unquoted,
  strsep_tail (c ∷ cs) cur lacks,
)

next_tok-field :
    (k : ℕ) (z : ℤ) (cur : CString)
    → next_tok (some (field (k, z) ++ tail_of cur)) ≡ (some (print_int z), cur)
next_tok-field k z cur =
    let (c, cs, e, (plain, unquoted), lacks) = print_int-cons z in
    rw e (next_tok_word k c cs cur plain unquoted (rw e at lacks))

pub at_tok_nextint-field :
    (long_max k : ℕ) (z : ℤ) (cur : CString)
    → 2 ^ 31 ≤ long_max + 1
    → IsInt z
    → at_tok_nextint long_max (some (field (k, z) ++ tail_of cur))
      ≡ record { ok = true; out = some z; cur = cur }
unfolding at_tok_nextint at_tok_nextint_base
at_tok_nextint-field long_max k z cur big h =
    rw (next_tok-field k z cur, strtol-print_int long_max z big h, to_int-IsInt z h)

-- The cursor before the fields that are left: each but the last is followed by a comma.
unfoldable pub rest_of : List (ℕ × ℤ) → CString
rest_of [] = none
rest_of (f ∷ fs) = some (field f ++ tail_of (rest_of fs))

-- `n` calls of at_tok_nextint, if each returns 0.
unfoldable pub nextints : ℕ → ℕ → CString → Option (List ℤ × CString)
unfolding at_tok_nextint
nextints long_max zero cur = some ([], cur)
nextints long_max (suc n) cur =
    let r = at_tok_nextint long_max cur in
    if not r.ok
    then none
    else r.out >>= λ z. nextints long_max n r.cur >>= λ (zs, end). some (z ∷ zs, end)

nextints-rest_of :
    (long_max : ℕ) (fs : List (ℕ × ℤ))
    → 2 ^ 31 ≤ long_max + 1
    → All (λ f. IsInt f.1) fs
    → nextints long_max (length fs) (rest_of fs) ≡ some (map (λ f. f.1) fs, none)
unfolding nextints rest_of
nextints-rest_of long_max [] big h = refl
nextints-rest_of long_max ((k, z) ∷ fs) big h =
    rw
      (at_tok_nextint-field long_max k z (rest_of fs) big h.0, nextints-rest_of long_max fs big h.1)

behind_first : (c : ℕ) (w r : Bytes) → Lacks c w → behind c (w ++ c ∷ r) ≡ some r
unfolding behind
behind_first c [] r h = ground arith
behind_first c (x ∷ xs) r h = ground (arith, behind_first c xs r h.1, h.0)

pub at_tok_start_colon :
    (prefix r : Bytes)
    → Lacks b':' prefix
    → at_tok_start (some (prefix ++ b':' ∷ r)) ≡ record { ok = true; out = none; cur = some r }
unfolding at_tok_start
at_tok_start_colon prefix r h = rw (at_tok_start, behind_first b':' prefix r h)

at_tok_start-cur :
    (prefix r : Bytes) → Lacks b':' prefix → (at_tok_start (some (prefix ++ b':' ∷ r))).cur ≡ some r
at_tok_start-cur prefix r h = ap (λ s. s.cur) (at_tok_start_colon prefix r h)

-- A response line of numbers, such as "+CREG: 1, 2", gives back all of its numbers and leaves the
-- cursor at NULL: the prefix holds no colon, and each number is an `int` behind any spaces.
pub nextints-at_tok_start :
    (long_max : ℕ) (prefix : Bytes) (f : ℕ × ℤ) (fs : List (ℕ × ℤ))
    → 2 ^ 31 ≤ long_max + 1
    → Lacks b':' prefix
    → All (λ g. IsInt g.1) (f ∷ fs)
    → let line = prefix ++ b':' ∷ (field f ++ tail_of (rest_of fs)) in
      nextints long_max (length (f ∷ fs)) (at_tok_start (some line)).cur
      ≡ some (map (λ g. g.1) (f ∷ fs), none)
unfolding rest_of
nextints-at_tok_start long_max prefix f fs big lacks h =
    ap (nextints long_max (length (f ∷ fs)))
      (at_tok_start-cur prefix (field f ++ tail_of (rest_of fs)) lacks)
    ∙ nextints-rest_of long_max (f ∷ fs) big h

skip_junk : (w r : Bytes) → Lacks b',' w → skip_next_comma (w ++ b',' ∷ r) ≡ r
unfolding skip_next_comma
skip_junk [] r h = refl
skip_junk (x ∷ xs) r h = ground (arith, skip_junk xs r h.1, h.0)

-- A quoted string is read whole, commas included, and the cursor goes on behind the next comma.
pub at_tok_nextstr_quoted :
    (k : ℕ) (w junk r : Bytes)
    → Lacks b'"' w
    → Lacks b',' junk
    → at_tok_nextstr (some (replicate k b' ' ++ b'"' ∷ (w ++ b'"' ∷ (junk ++ b',' ∷ r))))
      ≡ record { ok = true; out = some (some w); cur = some r }
unfolding at_tok_nextstr next_tok tok_at
at_tok_nextstr_quoted k w junk r lacks plain = rw (
  skip_spaces k b'"' (w ++ b'"' ∷ (junk ++ b',' ∷ r)) refl,
  strsep_field b'"' w (junk ++ b',' ∷ r) lacks,
  skip_junk junk r plain,
)
