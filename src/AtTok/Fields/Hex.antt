-- ===== src/AtTok/Fields/Hex.antt =====
-- Hexadecimal fields of lines, read by at_tok_nexthexint of at_tok.c, and their format "%x".
use rild_hisi.Common.{
  ℕ, zero, suc, ◌+◌, ◌-◌, ◌*◌, ◌/◌, ◌%◌, ◌^◌, ◌≤◌, ◌<◌, ◌≡◌, refl, sym, ap, ◌∙◌, true, false, [],
  ◌∷◌, ◌++◌, some, arith, All, ltb, ◌==◌, ◌||◌, if◌then◌else◌, Bool-cases, inl, inr, ltb→lt, lt→ltb,
  subst, replicate, ◌⊎◌,
}
use rild_hisi.Common.Int.{ℤ, pos, negsuc, to_unsigned}
use rild_hisi.Telephony.{Bytes, CString}
use rild_hisi.AtTok.{
  is_space, digit_value, scan_digits, starts_with_digit, split_sign, skip_hex_prefix, strtol,
  long_of, to_int, next_tok, at_tok_nexthexint, at_tok_nextint_base,
}
use rild_hisi.AtTok.Fields.{Lacks, tail_of, IsInt, field, print_int, print_int-cons, next_tok_word}

abbrev pub hex_digit : ℕ → ℕ
hex_digit d = if ltb d 10 then b'0' + d else b'a' + (d - 10)

-- The digits of `n` before `out`.
unfoldable pub print_hex_onto : ℕ → ℕ → Bytes → Bytes
print_hex_onto zero n out = out
print_hex_onto (suc f) n out =
    let more = print_hex_onto f (n / 16) (hex_digit (n % 16) ∷ out) in
    if ltb n 16 then hex_digit n ∷ out else more

-- An `int` as an `unsigned int`, which has eight digits at most.
unfoldable pub print_hex : ℤ → Bytes
unfolding print_hex_onto
print_hex z = print_hex_onto 8 (to_unsigned (2 ^ 32) z) []

-- A digit as it is printed
abbrev IsHex : ℕ → Type 0
IsHex c = ((b'0' ≤ c) × (c ≤ b'9')) ⊎ ((b'a' ≤ c) × (c ≤ b'f'))

hex_digit-IsHex : (d : ℕ) → d < 16 → IsHex (hex_digit d)
hex_digit-IsHex d h = ground arith

digit_value-hex_digit : (d : ℕ) → d < 16 → digit_value (hex_digit d) ≡ d
digit_value-hex_digit d h = ground arith

scan-hex_digit :
    (n d : ℕ) (r : Bytes)
    → d < 16
    → scan_digits 16 n (hex_digit d ∷ r) ≡ scan_digits 16 (n * 16 + d) r
unfolding scan_digits
scan-hex_digit n d r h = rw (digit_value-hex_digit d h, lt→ltb d 16 h)

-- The numbers of `f` digits
values : ℕ → ℕ
values zero = 1
values (suc f) = 16 * values f

scan-print_hex_onto :
    (f n : ℕ) (out : Bytes)
    → n < values f
    → scan_digits 16 0 (print_hex_onto f n out) ≡ scan_digits 16 n out
unfolding print_hex_onto values
scan-print_hex_onto zero n out h = ap (λ k. scan_digits 16 k out) (omega arith)
scan-print_hex_onto (suc f) n out h = elim (Bool-cases (ltb n 16)) [
  | inl one ↦
      rw one
        (scan-hex_digit 0 n out (ltb→lt n 16 one) ∙ ap (λ k. scan_digits 16 k out) (omega arith))
  | inr more ↦ rw more (
      scan-print_hex_onto f (n / 16) (hex_digit (n % 16) ∷ out) (omega arith)
      ∙ scan-hex_digit (n / 16) (n % 16) out (omega arith)
      ∙ ap (λ k. scan_digits 16 k out) (omega arith))
]

-- The text is not empty, and has digits only.
abbrev IsHexText : Bytes → Type 0
IsHexText s = ((c : ℕ) × (cs : Bytes) × (s ≡ c ∷ cs)) × All IsHex s

cons-IsHexText : (d : ℕ) (out : Bytes) → d < 16 → All IsHex out → IsHexText (hex_digit d ∷ out)
cons-IsHexText d out h all = ((hex_digit d, out, refl), (hex_digit-IsHex d h, all))

print_hex_onto-IsHexText :
    (f n : ℕ) (out : Bytes) → IsHexText out → IsHexText (print_hex_onto f n out)
unfolding print_hex_onto
print_hex_onto-IsHexText zero n out h = h
print_hex_onto-IsHexText (suc f) n out h = elim (Bool-cases (ltb n 16)) [
  | inl one ↦ rw one (cons-IsHexText n out (ltb→lt n 16 one) h.1)
  | inr more ↦ rw more (
      print_hex_onto-IsHexText f (n / 16) (hex_digit (n % 16) ∷ out)
        (cons-IsHexText (n % 16) out (omega arith) h.1))
]

print_hex-IsHexText : (z : ℤ) → IsHexText (print_hex z)
unfolding print_hex print_hex_onto
print_hex-IsHexText z =
    let n = to_unsigned (2 ^ 32) z in
    elim (Bool-cases (ltb n 16)) [
      | inl one ↦ rw one (cons-IsHexText n [] (ltb→lt n 16 one) tt)
      | inr more ↦ rw more (
          print_hex_onto-IsHexText 7 (n / 16) (hex_digit (n % 16) ∷ [])
            (cons-IsHexText (n % 16) [] (omega arith) tt))
    ]

to_u32 : (z : ℤ) → IsInt z → to_unsigned (2 ^ 32) z < values 8
unfolding values
to_u32 z h = ground arith

scan-print_hex : (z : ℤ) → IsInt z → scan_digits 16 0 (print_hex z) ≡ to_unsigned (2 ^ 32) z
unfolding print_hex scan_digits
scan-print_hex z h = scan-print_hex_onto 8 (to_unsigned (2 ^ 32) z) [] (to_u32 z h)

long_of-int :
    (long_max : ℕ) (z : ℤ)
    → 2 ^ 31 ≤ long_max + 1
    → to_unsigned (2 ^ 32) z ≤ long_max
    → IsInt z
    → to_int (long_of long_max true false (to_unsigned (2 ^ 32) z)) ≡ z
long_of-int long_max (pos n) big fits h = ground arith
long_of-int long_max (negsuc n) big fits h = ground arith

-- What the first digit is not
hex-plain : (c : ℕ) → IsHex c → (is_space c ≡ false) × ((c == b'"') ≡ false)
hex-plain c h = (ground arith, ground arith)

split_sign-hex : (c : ℕ) (cs : Bytes) → IsHex c → split_sign (c ∷ cs) ≡ (false, c ∷ cs)
split_sign-hex c cs h = ground arith

starts-hex : (c : ℕ) (cs : Bytes) → IsHex c → starts_with_digit 16 (c ∷ cs) ≡ true
starts-hex c cs h = ground arith

not_x : (c : ℕ) → IsHex c → (c == b'x' || c == b'X') ≡ false
not_x c h = ground arith

skip_hex_prefix-hex : (s : Bytes) → All IsHex s → skip_hex_prefix 16 s ≡ s
skip_hex_prefix-hex [] h = refl
skip_hex_prefix-hex (c ∷ []) h = refl
skip_hex_prefix-hex (c ∷ d ∷ cs) h = elim (Bool-cases (c == b'0')) [
  | inl same ↦ rw (same, not_x d h.1.0) refl
  | inr other ↦ rw other refl
]

Lacks-hex : (s : Bytes) → All IsHex s → Lacks b',' s
Lacks-hex [] h = tt
Lacks-hex (c ∷ cs) h = ((λ e. ground arith), Lacks-hex cs h.1)

strtol-print_hex :
    (long_max : ℕ) (z : ℤ)
    → IsInt z
    → strtol long_max 16 true (print_hex z)
      ≡ (long_of long_max true false (to_unsigned (2 ^ 32) z), true)
unfolding strtol
strtol-print_hex long_max z h =
    let ((c, cs, e), digits) = print_hex-IsHexText z in
    let hex : All IsHex (c ∷ cs) = subst (All IsHex) e digits in
    ap (strtol long_max 16 true) e
    ∙ rw
        (
          (hex-plain c hex.0).0,
          split_sign-hex c cs hex.0,
          skip_hex_prefix-hex (c ∷ cs) hex,
          starts-hex c cs hex.0,
        )
        refl
    ∙ ap (λ n. (long_of long_max true false n, true))
        (ap (scan_digits 16 0) (sym e) ∙ scan-print_hex z h)

abbrev pub hex_field : ℕ × ℤ → Bytes
hex_field (k, z) = replicate k b' ' ++ print_hex z

Lacks-spaces : (k : ℕ) (s : Bytes) → Lacks b',' s → Lacks b',' (replicate k b' ' ++ s)
Lacks-spaces zero s h = h
Lacks-spaces (suc k) s h = ((λ e. omega arith), Lacks-spaces k s h)

pub Lacks-hex_field : (k : ℕ) (z : ℤ) → Lacks b',' (hex_field (k, z))
Lacks-hex_field k z =
    Lacks-spaces k (print_hex z) (Lacks-hex (print_hex z) (print_hex-IsHexText z).1)

pub Lacks-field : (k : ℕ) (z : ℤ) → Lacks b',' (field (k, z))
Lacks-field k z =
    let (c, cs, e, first, lacks) = print_int-cons z in Lacks-spaces k (print_int z) lacks

-- A printed number behind `k` spaces is read as its value, if `long` holds the number that is printed.
pub at_tok_nexthexint-print_hex :
    (long_max k : ℕ) (z : ℤ) (cur : CString)
    → 2 ^ 31 ≤ long_max + 1
    → to_unsigned (2 ^ 32) z ≤ long_max
    → IsInt z
    → at_tok_nexthexint long_max (some (hex_field (k, z) ++ tail_of cur))
      ≡ record { ok = true; out = some z; cur = cur }
unfolding at_tok_nexthexint at_tok_nextint_base
at_tok_nexthexint-print_hex long_max k z cur big fits h =
    let ((c, cs, e), digits) = print_hex-IsHexText z in
    let hex : All IsHex (c ∷ cs) = subst (All IsHex) e digits in
    let (space, quote) = hex-plain c hex.0 in
    let tok : next_tok (some ((replicate k b' ' ++ print_hex z) ++ tail_of cur))
        ≡ (some (print_hex z), cur) =
      rw e (next_tok_word k c cs cur space quote (Lacks-hex (c ∷ cs) hex)) in
    rw (tok, strtol-print_hex long_max z h, long_of-int long_max z big fits h)
