-- ===== src/AtChannel/Lines.antt =====
-- The lines of a stream of bytes, as a reference for readline of reference-ril/atchannel.c: newlines
-- at the start do not count, and a line goes up to the next newline.
pub mod Buffer
pub mod Steps
pub mod Readline
pub mod Ending
use rild_hisi.Common.{
  ℕ, zero, suc, ◌+◌, ◌≤◌, ◌<◌, ◌≡◌, ◌≢◌, refl, sym, ap, ◌∙◌, Bool, true, false, ◌||◌, List, [], ◌∷◌,
  ◌++◌, Option, none, some, arith, All, ◌==◌, length, if◌then◌else◌, append_assoc, Bool-cases, inl,
  inr,
}
use mathlib.Core.Option.{some-injective}
use rild_hisi.Telephony.{Bytes}
use rild_hisi.AtChannel.Reader.{ReadResult, received, interrupted, failed, is_newline}

unfoldable pub strip : Bytes → Bytes
strip [] = []
strip (c ∷ cs) = let rest = strip cs in if is_newline c then rest else c ∷ cs

abbrev pub consed : ℕ → Option (Bytes × Bytes) → Option (Bytes × Bytes)
consed c none = none
consed c (some (l, r)) = some (c ∷ l, r)

-- The text before the first newline and the text behind it.
unfoldable pub split : Bytes → Option (Bytes × Bytes)
split [] = none
split (c ∷ cs) = let rest = split cs in if is_newline c then some ([], cs) else consed c rest

unfoldable pub next_line : Bytes → Option (Bytes × Bytes)
unfolding strip split
next_line s = split (strip s)

-- The bytes of all answers, in order.
unfoldable pub joined : List ReadResult → Bytes
joined [] = []
joined (received bs ∷ reads) = bs ++ joined reads
joined (interrupted ∷ reads) = joined reads
joined (failed ∷ reads) = joined reads

-- No NUL, and no prompt.
abbrev pub IsPlain : Bytes → Type 0
IsPlain = All λ c. (c ≢ 0) × (c ≢ b'>')

-- The stream goes on: no end, no error.
abbrev pub Arrives : List ReadResult → Type 0
Arrives [] = Unit
Arrives (received bs ∷ reads) = (bs ≢ []) × IsPlain bs × Arrives reads
Arrives (interrupted ∷ reads) = Arrives reads
Arrives (failed ∷ reads) = ⊥

pub strip_again : (x y : Bytes) → strip (strip x ++ y) ≡ strip (x ++ y)
unfolding strip
strip_again [] y = refl
strip_again (c ∷ cs) y = elim (Bool-cases (is_newline c)) [
  | inl newline ↦ rw newline (strip_again cs y)
  | inr other ↦ rw (other, other)
]

pub next_line-strip : (x y : Bytes) → next_line (strip x ++ y) ≡ next_line (x ++ y)
unfolding next_line
next_line-strip x y = ap split (strip_again x y)

consed-some :
    (c : ℕ) (m : Option (Bytes × Bytes)) {l r : Bytes}
    → consed c m ≡ some (l, r)
    → (k : Bytes) × (m ≡ some (k, r)) × (l ≡ c ∷ k)
consed-some c none h = absurd (cc)
consed-some c (some (k, q)) {l} {r} h =
    let e = some-injective _ _ h in
    (k, ap some (ap (λ z. (k, z)) (ap (λ z. z.1) e)), sym (ap (λ z. z.0) e))

pub split-append :
    (x y : Bytes) {l r : Bytes} → split x ≡ some (l, r) → split (x ++ y) ≡ some (l, r ++ y)
unfolding split
split-append [] y h = absurd (cc)
split-append (c ∷ cs) y {l} {r} h = elim (Bool-cases (is_newline c)) [
  | inl newline ↦
      let e : some ([], cs) ≡ some (l, r) = rw newline at h in
      rw newline (ap (λ z. some (z.0, z.1 ++ y)) (some-injective _ _ e))
  | inr other ↦
      let e : consed c (split cs) ≡ some (l, r) = rw other at h in
      let (k, g, e) = consed-some c (split cs) {l = l} {r = r} e in
      rw (other, split-append cs y {l = k} {r = r} g) (ap (λ z. some (z, r ++ y)) (sym e))
]

strip-append_some :
    (x y : Bytes) {l r : Bytes} → split (strip x) ≡ some (l, r) → strip (x ++ y) ≡ strip x ++ y
unfolding strip split
strip-append_some [] y h = absurd (cc)
strip-append_some (c ∷ cs) y {l} {r} h = elim (Bool-cases (is_newline c)) [
  | inl newline ↦ rw newline (strip-append_some cs y {l = l} {r = r} (rw newline at h))
  | inr other ↦ rw other
]

-- A line that is complete stays the next one when more arrives.
pub next_line-append :
    (x y : Bytes) {l r : Bytes} → next_line x ≡ some (l, r) → next_line (x ++ y) ≡ some (l, r ++ y)
unfolding next_line
next_line-append x y {l} {r} h =
    ap split (strip-append_some x y {l = l} {r = r} h) ∙ split-append (strip x) y h

-- What a complete line is cut from.
pub split-parts :
    (x : Bytes) {l r : Bytes}
    → split x ≡ some (l, r)
    → (c : ℕ) × (x ≡ l ++ c ∷ r) × (is_newline c ≡ true)
unfolding split
split-parts [] h = absurd (cc)
split-parts (c ∷ cs) {l} {r} h = elim (Bool-cases (is_newline c)) [
  | inl newline ↦
      let e = some-injective _ _ (rw newline at h) in (c, ap (λ z. z.0 ++ c ∷ z.1) e, newline)
  | inr other ↦
      let (k, g, e) = consed-some c (split cs) {l = l} {r = r} (rw other at h) in
      let (d, parts, newline) = split-parts cs {l = k} {r = r} g in
      (d, ap (λ xs. c ∷ xs) parts ∙ ap (λ z. z ++ d ∷ r) (sym e), newline)
]
