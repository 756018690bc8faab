-- ===== src/AtTok.antt =====
-- reference-ril/at_tok.c: the tokenizer of AT response lines. A cursor is what stands behind the
-- pointer, up to the NUL, or `none` for NULL. strsep overwrites a separator that lies behind the
-- cursor, so that a token is a value. The functions of the C library are written out; `long_max`
-- is LONG_MAX.
pub mod Decimal
pub mod Fields
use rild_hisi.Common.{
  ℕ, zero, suc, ◌+◌, ◌-◌, ◌*◌, ◌%◌, ◌^◌, min, Bool, true, false, not, ◌&&◌, ◌||◌, List, [], ◌∷◌,
  Option, none, some, ◌==◌, ltb, leb, if◌then◌else◌,
}
use rild_hisi.Common.Int.{ℤ, pos, negsuc, ◌==ℤ◌, to_unsigned}
use rild_hisi.Telephony.{Bytes, CString}

-- What a function returns: whether that is 0 and not -1, the value written through its pointer, if
-- one is, and the new cursor.
pub record Parsed (A : Type 0) : Type 0 where
  pub ok : Bool
  pub out : Option A
  pub cur : CString

-- isspace in the C locale
abbrev pub is_space : ℕ → Bool
is_space c = c == 32 || (leb 9 c && leb c 13)

-- strchr, and the text behind the character
unfoldable pub behind : ℕ → Bytes → CString
behind c [] = none
behind c (x ∷ xs) = if x == c then some xs else behind c xs

-- strsep with one separator: the token, and the cursor.
unfoldable pub strsep : ℕ → Bytes → Bytes × CString
strsep c [] = ([], none)
strsep c (x ∷ xs) = let (tok, cur) = strsep c xs in if x == c then ([], some xs) else (x ∷ tok, cur)

unfoldable pub at_tok_start : CString → Parsed (Unit {0})
unfolding behind
at_tok_start none = record { ok = false; out = none; cur = none }
at_tok_start (some s) = elim (behind b':' s) [
  | none ↦ record { ok = false; out = none; cur = none }
  | some r ↦ record { ok = true; out = none; cur = some r }
]

unfoldable pub skip_white_space : Bytes → Bytes
skip_white_space [] = []
skip_white_space (x ∷ xs) = if is_space x then skip_white_space xs else x ∷ xs

unfoldable pub skip_next_comma : Bytes → Bytes
skip_next_comma [] = []
skip_next_comma (x ∷ xs) = if x == b',' then xs else skip_next_comma xs

abbrev quoted_tok : Bytes × CString → CString × CString
quoted_tok (tok, none) = (some tok, none)
quoted_tok (tok, some r) = (some tok, some (skip_next_comma r))

abbrev plain_tok : Bytes × CString → CString × CString
plain_tok (tok, cur) = (some tok, cur)

-- What stands behind white space.
unfoldable pub tok_at : Bytes → CString × CString
unfolding strsep skip_next_comma
tok_at [] = plain_tok (strsep b',' [])
tok_at (x ∷ xs) =
    if x == b'"' then quoted_tok (strsep b'"' xs) else plain_tok (strsep b',' (x ∷ xs))

-- The token and the new cursor.
unfoldable pub next_tok : CString → CString × CString
unfolding tok_at skip_white_space
next_tok none = (none, none)
next_tok (some s) = tok_at (skip_white_space s)

-- The value of a digit, at least `base` for other characters.
abbrev pub digit_value : ℕ → ℕ
digit_value c =
    if leb b'0' c && leb c b'9'
    then c - b'0'
    else if leb b'a' c && leb c b'z'
    then c - b'a' + 10
    else if leb b'A' c && leb c b'Z'
    then c - b'A' + 10
    else 36

-- The digits at the start of a text, behind those whose value is `n`.
unfoldable pub scan_digits : ℕ → ℕ → Bytes → ℕ
scan_digits base n [] = n
scan_digits base n (c ∷ cs) =
    let rest = scan_digits base (n * base + digit_value c) cs in
    if ltb (digit_value c) base then rest else n

abbrev pub starts_with_digit : ℕ → Bytes → Bool
starts_with_digit base [] = false
starts_with_digit base (c ∷ cs) = ltb (digit_value c) base

-- The sign, and the text behind it.
abbrev pub split_sign : Bytes → Bool × Bytes
split_sign [] = (false, [])
split_sign (c ∷ cs) =
    if c == b'-' then (true, cs) else if c == b'+' then (false, cs) else (false, c ∷ cs)

-- "0x" before a hexadecimal digit
abbrev pub skip_hex_prefix : ℕ → Bytes → Bytes
skip_hex_prefix base (z ∷ x ∷ cs) =
    if base == 16 && z == b'0' && (x == b'x' || x == b'X') && starts_with_digit 16 cs
    then cs
    else z ∷ x ∷ cs
skip_hex_prefix base cs = cs

abbrev pub neg_of : ℕ → ℤ
neg_of zero = pos 0
neg_of (suc n) = negsuc n

-- The value of strtol with its limits, or of strtoul, as a `long`.
abbrev pub long_of : ℕ → Bool → Bool → ℕ → ℤ
long_of long_max false false n = pos (min n long_max)
long_of long_max false true n = neg_of (min n (long_max + 1))
long_of long_max true neg n =
    let values = 2 * (long_max + 1) in
    let u = if ltb n values then (if neg then (values - n) % values else n) else values - 1 in
    if leb u long_max then pos u else negsuc (values - 1 - u)

-- The value, and whether `end` moved.
unfoldable pub strtol : ℕ → ℕ → Bool → Bytes → ℤ × Bool
unfolding skip_white_space scan_digits
strtol long_max base uns s =
    let (neg, t) = split_sign (skip_white_space s) in
    let digits = skip_hex_prefix base t in
    if starts_with_digit base digits
    then (long_of long_max uns neg (scan_digits base 0 digits), true)
    else (pos 0, false)

-- `(int) l`
abbrev pub to_int : ℤ → ℤ
to_int l =
    let u = to_unsigned (2 ^ 32) l in if ltb u (2 ^ 31) then pos u else negsuc (2 ^ 32 - 1 - u)

abbrev pub int_of : CString × CString → (Bytes → ℤ × Bool) → Parsed ℤ
int_of (none, cur) number = record { ok = false; out = none; cur = cur }
int_of (some tok, cur) number =
    let (l, moved) = number tok in record { ok = moved; out = some (to_int l); cur = cur }

unfoldable pub at_tok_nextint_base : ℕ → ℕ → Bool → CString → Parsed ℤ
unfolding strtol next_tok
at_tok_nextint_base long_max base uns cur = int_of (next_tok cur) (strtol long_max base uns)

unfoldable pub at_tok_nextint : ℕ → CString → Parsed ℤ
unfolding at_tok_nextint_base
at_tok_nextint long_max = at_tok_nextint_base long_max 10 false

unfoldable pub at_tok_nexthexint : ℕ → CString → Parsed ℤ
unfolding at_tok_nextint_base
at_tok_nexthexint long_max = at_tok_nextint_base long_max 16 true

abbrev pub bool_of : Parsed ℤ → Parsed ℤ
bool_of r =
    let bad : Parsed ℤ = record { ok = false; out = none; cur = r.cur } in
    if not r.ok then bad else elim r.out [
      | none ↦ bad
      | some n ↦ if n ==ℤ pos 0 || n ==ℤ pos 1 then record r { out = some n } else bad
    ]

unfoldable pub at_tok_nextbool : ℕ → CString → Parsed ℤ
unfolding at_tok_nextint
at_tok_nextbool long_max cur = bool_of (at_tok_nextint long_max cur)

unfoldable pub at_tok_nextstr : CString → Parsed CString
unfolding next_tok
at_tok_nextstr none = record { ok = false; out = none; cur = none }
at_tok_nextstr (some s) =
    let (tok, cur) = next_tok (some s) in record { ok = true; out = some tok; cur = cur }

abbrev pub at_tok_hasmore : CString → Bool
at_tok_hasmore none = false
at_tok_hasmore (some []) = false
at_tok_hasmore (some (x ∷ xs)) = true
