-- ===== src/AtChannel/Lines/Buffer.antt =====
-- The buffer of readline of reference-ril/atchannel.c and the text that waits in it.
use rild_hisi.Common.{
  ℕ, suc, ◌+◌, ◌≡◌, ◌≢◌, refl, sym, ap, ap₂, ◌∙◌, false, List, [], ◌∷◌, ◌++◌, Option, none, some,
  arith, ◌==◌, length, set, take, drop, append_assoc, Bool-cases, inl, inr, length-append,
  take-length-append, drop-length-append,
}
use rild_hisi.Telephony.{Bytes}
use rild_hisi.AtChannel.Reader.{
  Reader, ReadResult, Read, is_newline, strlen, leading_newlines, find_newline, is_prompt,
  find_next_eol, text_at, skip_newlines, finish_line, store_bytes, ditch, move_up, line_or, shift,
}
use rild_hisi.AtChannel.Lines.{strip, split, consed, IsPlain, split-parts}

-- The reader with `w` waiting: `pre` has been read, and stale bytes stand behind the NUL.
abbrev pub reader_of : Bytes → Bytes → Bytes → Reader
reader_of pre w stale = record { buffer = pre ++ (w ++ 0 ∷ stale); cur = length pre }

-- The text `w` waits in the reader.
pub record Holds (r : Reader) (w : Bytes) : Type 0 where
  pub pre : Bytes
  pub stale : Bytes
  pub shape : r ≡ reader_of pre w stale

set-append : (xs ys : Bytes) (y v : ℕ) → set (xs ++ y ∷ ys) (length xs) v ≡ xs ++ v ∷ ys
set-append [] ys y v = refl
set-append (x ∷ xs) ys y v = ap (λ zs. x ∷ zs) (set-append xs ys y v)

reader_eq :
    {b c : Bytes} {m n : ℕ}
    → b ≡ c
    → m ≡ n
    → ◌≡◌ {A = Reader} (record { buffer = b; cur = m }) (record { buffer = c; cur = n })
reader_eq e f = rw (e, f)

regroup : (a b c d : Bytes) → a ++ ((b ++ c) ++ d) ≡ (a ++ b) ++ (c ++ d)
regroup a b c d = ap (λ x. a ++ x) (append_assoc b c d) ∙ sym (append_assoc a b (c ++ d))

pub text_at-reader_of : (pre w stale : Bytes) → text_at (reader_of pre w stale) ≡ w ++ 0 ∷ stale
text_at-reader_of pre w stale = drop-length-append pre (w ++ 0 ∷ stale)

pub strlen-IsPlain : (w stale : Bytes) → IsPlain w → strlen (w ++ 0 ∷ stale) ≡ length w
unfolding strlen
strlen-IsPlain [] stale h = refl
strlen-IsPlain (c ∷ cs) stale h = ground (arith, strlen-IsPlain cs stale h.1, h.0)

strip-parts :
    (w stale : Bytes)
    → (nl : Bytes) × (w ≡ nl ++ strip w) × (leading_newlines (w ++ 0 ∷ stale) ≡ length nl)
unfolding strip leading_newlines
strip-parts [] stale = ([], refl, refl)
strip-parts (c ∷ cs) stale = elim (Bool-cases (is_newline c)) [
  | inl newline ↦
      let (nl, parts, count) = strip-parts cs stale in
      (c ∷ nl, rw newline (ap (λ xs. c ∷ xs) parts), rw newline (ap suc count))
  | inr other ↦ ([], rw other, rw other)
]

-- Newlines at the start are skipped.
pub skip_newlines-reader_of :
    (pre w stale : Bytes)
    → (nl : Bytes) × (skip_newlines (reader_of pre w stale) ≡ reader_of (pre ++ nl) (strip w) stale)
      × (length w ≡ length nl + length (strip w))
skip_newlines-reader_of pre w stale =
    let (nl, parts, count) = strip-parts w stale in
    (
      nl,
      reader_eq (ap (λ v. pre ++ (v ++ 0 ∷ stale)) parts ∙ regroup pre nl (strip w) (0 ∷ stale)) (
          ap (λ t. length pre + leading_newlines t) (text_at-reader_of pre w stale)
          ∙ ap (λ n. length pre + n) count
          ∙ sym (length-append pre nl)),
      ap length parts ∙ length-append nl (strip w),
    )

not_prompt : (c : ℕ) (xs : Bytes) → (c == b'>') ≡ false → is_prompt (c ∷ xs) ≡ false
not_prompt c [] h = refl
not_prompt c (x ∷ []) h = refl
not_prompt c (x ∷ y ∷ ys) h = rw h

is_prompt-IsPlain : (w stale : Bytes) → IsPlain w → is_prompt (w ++ 0 ∷ stale) ≡ false
is_prompt-IsPlain [] stale h = not_prompt 0 stale refl
is_prompt-IsPlain (c ∷ cs) stale h = not_prompt c (cs ++ 0 ∷ stale) (ground (arith, h.0.1))

abbrev line_length : Option (Bytes × Bytes) → Option ℕ
line_length none = none
line_length (some (l, r)) = some (length l)

not_zero : (c : ℕ) → c ≢ 0 → (c == 0) ≡ false
not_zero c h = ground (arith, h)

shift-line_length :
    (c : ℕ) (m : Option (Bytes × Bytes)) → shift (line_length m) ≡ line_length (consed c m)
shift-line_length c none = refl
shift-line_length c (some (l, r)) = refl

find_newline-split :
    (w stale : Bytes) → IsPlain w → find_newline (w ++ 0 ∷ stale) ≡ line_length (split w)
unfolding find_newline split
find_newline-split [] stale h = refl
find_newline-split (c ∷ cs) stale h = elim (Bool-cases (is_newline c)) [
  | inl newline ↦ rw (not_zero c h.0.0, newline)
  | inr other ↦
      rw (not_zero c h.0.0, other, find_newline-split cs stale h.1) (shift-line_length c (split cs))
]

find_next_eol-split :
    (pre w stale : Bytes)
    → IsPlain w
    → find_next_eol (text_at (reader_of pre w stale)) ≡ line_length (split w)
unfolding find_next_eol
find_next_eol-split pre w stale h =
    rw (text_at-reader_of pre w stale, is_prompt-IsPlain w stale h) (find_newline-split w stale h)

read_eq :
    (rest : List ReadResult) {l k : Bytes} {r q : Reader}
    → l ≡ k
    → r ≡ q
    → ◌≡◌ {A = Read}
        (record { line = some l; reader = r; rest = rest })
        (record { line = some k; reader = q; rest = rest })
read_eq rest e f = rw (e, f)

set-line :
    (pre l xs : Bytes) (c : ℕ) {buffer : Bytes}
    → buffer ≡ l ++ c ∷ xs
    → set (pre ++ buffer) (length pre + length l) 0 ≡ (pre ++ (l ++ 0 ∷ [])) ++ xs
set-line pre l xs c e =
    ap₂ (λ b n. set b n 0) (ap (λ b. pre ++ b) e ∙ sym (append_assoc pre l (c ∷ xs)))
      (sym (length-append pre l))
    ∙ set-append (pre ++ l) xs c 0
    ∙ append_assoc pre l (0 ∷ xs)
    ∙ ap (λ b. pre ++ b) (sym (append_assoc l (0 ∷ []) xs))
    ∙ sym (append_assoc pre (l ++ 0 ∷ []) xs)

finish_line-reader_of :
    (pre l r stale : Bytes) (c : ℕ) (rest : List ReadResult)
    → finish_line (length l) rest (reader_of pre (l ++ c ∷ r) stale)
      ≡ record { line = some l; reader = reader_of (pre ++ (l ++ 0 ∷ [])) r stale; rest = rest }
unfolding finish_line
finish_line-reader_of pre l r stale c rest =
    read_eq rest
      (ap (take (length l))
          (text_at-reader_of pre (l ++ c ∷ r) stale ∙ append_assoc l (c ∷ r) (0 ∷ stale))
        ∙ take-length-append l (c ∷ (r ++ 0 ∷ stale)))
      (reader_eq (set-line pre l (r ++ 0 ∷ stale) c (append_assoc l (c ∷ r) (0 ∷ stale)))
        (omega (arith, length-append pre (l ++ 0 ∷ []), length-append l (0 ∷ []))))

-- No line yet: the reader goes on.
pub line_or-none :
    (pre w stale : Bytes) (rest : List ReadResult) (more : Option Read)
    → IsPlain w
    → split w ≡ none
    → let r = reader_of pre w stale in line_or (find_next_eol (text_at r)) rest r more ≡ more
line_or-none pre w stale rest more plain h =
    ap (λ m. line_or m rest (reader_of pre w stale) more)
      (find_next_eol-split pre w stale plain ∙ ap line_length h)

-- A line that is there is returned, and what follows it stays.
pub line_or-some :
    (pre w stale : Bytes) (rest : List ReadResult) (more : Option Read) {l r : Bytes}
    → IsPlain w
    → split w ≡ some (l, r)
    → let q = reader_of pre w stale in
      line_or (find_next_eol (text_at q)) rest q more
      ≡ some
          (record { line = some l; reader = reader_of (pre ++ (l ++ 0 ∷ [])) r stale; rest = rest })
line_or-some pre w stale rest more {l} {r} plain h =
    let (c, parts, newline) = split-parts w {l = l} {r = r} h in
    ap (λ m. line_or m rest (reader_of pre w stale) more)
      (find_next_eol-split pre w stale plain ∙ ap line_length h)
    ∙ ap (λ v. some (finish_line (length l) rest (reader_of pre v stale))) parts
    ∙ ap some (finish_line-reader_of pre l r stale c rest)

never_empty : (pre xs : Bytes) (x : ℕ) → (stale : Bytes) × (set (pre ++ x ∷ xs) 0 0 ≡ 0 ∷ stale)
never_empty [] xs x = (xs, refl)
never_empty (y ∷ ys) xs x = (ys ++ x ∷ xs, refl)

-- An empty buffer holds the empty text.
pub ditch-reader_of :
    (pre stale : Bytes)
    → (stale0 : Bytes) × (ditch (reader_of pre [] stale) ≡ reader_of [] [] stale0)
ditch-reader_of pre stale = let (stale0, e) = never_empty pre stale 0 in (stale0, reader_eq e refl)

-- A partial line is moved to the start of the buffer.
pub move_up-reader_of :
    (pre w stale : Bytes)
    → IsPlain w
    → (stale0 : Bytes) × (move_up (reader_of pre w stale) ≡ reader_of [] w stale0)
unfolding strlen
move_up-reader_of pre w stale plain =
    let r = reader_of pre w stale in
    (
      drop (strlen (text_at r) + 1) r.buffer,
      reader_eq
          (ap (λ t. take (strlen t) t ++ 0 ∷ drop (strlen (text_at r) + 1) r.buffer)
              (text_at-reader_of pre w stale)
            ∙ ap (λ n. take n (w ++ 0 ∷ stale) ++ 0 ∷ drop (strlen (text_at r) + 1) r.buffer)
                (strlen-IsPlain w stale plain)
            ∙ ap (λ t. t ++ 0 ∷ drop (strlen (text_at r) + 1) r.buffer)
                (take-length-append w (0 ∷ stale)))
          refl,
    )

take-end :
    (pre w xs : Bytes) (p : ℕ) → p ≡ length pre + length w → take p (pre ++ (w ++ xs)) ≡ pre ++ w
take-end pre w xs p e =
    ap₂ take (e ∙ sym (length-append pre w)) (sym (append_assoc pre w xs))
    ∙ take-length-append (pre ++ w) xs

-- Bytes stored at the end of the text extend it.
pub store_bytes-reader_of :
    (pre w stale bs : Bytes) (p : ℕ)
    → p ≡ length pre + length w
    → (stale0 : Bytes) × (store_bytes p bs (pre ++ (w ++ 0 ∷ stale))
        ≡ pre ++ ((w ++ bs) ++ 0 ∷ stale0))
unfolding store_bytes
store_bytes-reader_of pre w stale bs p at_end =
    let left = drop (p + length bs + 1) (pre ++ (w ++ 0 ∷ stale)) in
    (
      left,
      ap (λ b. b ++ (bs ++ 0 ∷ left)) (take-end pre w (0 ∷ stale) p at_end)
          ∙ sym (regroup pre w bs (0 ∷ left)),
    )
