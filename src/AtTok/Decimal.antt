-- ===== src/AtTok/Decimal.antt =====
-- Decimal numbers as the modem prints them, for the theorems on at_tok.c.
use rild_hisi.Common.{
  ℕ, zero, suc, ◌+◌, ◌*◌, ◌/◌, ◌%◌, ◌<◌, ◌≤◌, ◌≡◌, refl, ap, ◌∙◌, false, [], ◌∷◌, ◌++◌, arith, All,
  Bool-cases, inl, inr, ltb→lt, lt→ltb, ltb, if◌then◌else◌,
}
use rild_hisi.Telephony.{Bytes}
use rild_hisi.AtTok.{scan_digits, starts_with_digit, digit_value}

-- The digits of `n` before `out`.
print_onto : ℕ → ℕ → Bytes → Bytes
print_onto zero n out = out
print_onto (suc f) n out =
    let more = print_onto f (n / 10) ((b'0' + n % 10) ∷ out) in
    if ltb n 10 then (b'0' + n) ∷ out else more

-- The decimal digits of a number.
unfoldable pub print : ℕ → Bytes
unfolding print_onto
print n = print_onto (suc n) n []

-- A text that does not go on with a digit.
abbrev pub EndsNumber : Bytes → Type 0
EndsNumber r = starts_with_digit 10 r ≡ false

scan_stop : (n : ℕ) (r : Bytes) → EndsNumber r → scan_digits 10 n r ≡ n
unfolding scan_digits
scan_stop n [] h = refl
scan_stop n (c ∷ cs) h = rw h

digit_value-add : (d : ℕ) → d < 10 → digit_value (b'0' + d) ≡ d
digit_value-add d h = ground arith

scan_digit :
    (n d : ℕ) (r : Bytes)
    → d < 10
    → scan_digits 10 n ((b'0' + d) ∷ r) ≡ scan_digits 10 (n * 10 + d) r
unfolding scan_digits
scan_digit n d r h = rw (digit_value-add d h, lt→ltb d 10 h)

scan-print_onto :
    (f n : ℕ) (out : Bytes) → n < f → scan_digits 10 0 (print_onto f n out) ≡ scan_digits 10 n out
unfolding print_onto
scan-print_onto zero n out h = elim h [ ]
scan-print_onto (suc f) n out h = elim (Bool-cases (ltb n 10)) [
  | inl one ↦
      rw one (scan_digit 0 n out (ltb→lt n 10 one) ∙ ap (λ k. scan_digits 10 k out) (omega arith))
  | inr more ↦ rw more (
      scan-print_onto f (n / 10) ((b'0' + n % 10) ∷ out) (ground arith)
      ∙ scan_digit (n / 10) (n % 10) out (omega arith)
      ∙ ap (λ k. scan_digits 10 k out) (omega arith))
]

print_onto-append : (f n : ℕ) (out r : Bytes) → print_onto f n out ++ r ≡ print_onto f n (out ++ r)
unfolding print_onto
print_onto-append zero n out r = refl
print_onto-append (suc f) n out r = elim (Bool-cases (ltb n 10)) [
  | inl one ↦ rw one
  | inr more ↦ rw more (print_onto-append f (n / 10) ((b'0' + n % 10) ∷ out) r)
]

-- Reading a number that was printed gives it back.
pub scan-print : (n : ℕ) (r : Bytes) → EndsNumber r → scan_digits 10 0 (print n ++ r) ≡ n
unfolding print
scan-print n r h =
    ap (scan_digits 10 0) (print_onto-append (suc n) n [] r)
    ∙ scan-print_onto (suc n) n r (omega arith)
    ∙ scan_stop n r h

-- A character of a printed number.
abbrev pub IsDigit : ℕ → Type 0
IsDigit c = (b'0' ≤ c) × (c ≤ b'9')

digits-print_onto : (f n : ℕ) (out : Bytes) → All IsDigit out → All IsDigit (print_onto f n out)
unfolding print_onto
digits-print_onto zero n out h = h
digits-print_onto (suc f) n out h = elim (Bool-cases (ltb n 10)) [
  | inl one ↦ rw one ((omega arith, omega (arith, ltb→lt n 10 one)), h)
  | inr more ↦
      rw more (digits-print_onto f (n / 10) ((b'0' + n % 10) ∷ out) ((omega arith, omega arith), h))
]

pub All-print : (n : ℕ) → All IsDigit (print n)
unfolding print
All-print n = digits-print_onto (suc n) n [] tt

cons-print_onto :
    (f n : ℕ) (out : Bytes) → n < f → (c : ℕ) × (cs : Bytes) × (print_onto f n out ≡ c ∷ cs)
unfolding print_onto
cons-print_onto zero n out h = elim h [ ]
cons-print_onto (suc f) n out h = elim (Bool-cases (ltb n 10)) [
  | inl one ↦ (b'0' + n, out, rw one)
  | inr more ↦
      let (c, cs, e) = cons-print_onto f (n / 10) ((b'0' + n % 10) ∷ out) (ground arith) in
      (c, cs, rw more e)
]

-- It has a first digit.
pub print-cons : (n : ℕ) → (c : ℕ) × (cs : Bytes) × (print n ≡ c ∷ cs) × IsDigit c
unfolding print
print-cons n =
    let (c, cs, e) = cons-print_onto (suc n) n [] (omega arith) in
    (c, cs, e, (rw e at (All-print n)).0)
