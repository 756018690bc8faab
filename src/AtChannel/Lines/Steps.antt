-- ===== src/AtChannel/Lines/Steps.antt =====
-- What one step of readline of reference-ril/atchannel.c does to the text in the buffer.
use rild_hisi.Common.{
  ℕ, ◌+◌, ◌-◌, ◌<◌, ◌≡◌, sym, ap, ◌∙◌, false, List, [], ◌∷◌, ◌++◌, Option, arith, ◌==◌, ltb, length,
  if◌then◌else◌, append-nil, Bool-cases, inl, inr, length-append,
}
use rild_hisi.Telephony.{Bytes}
use rild_hisi.AtChannel.Reader.{
  Reader, ReadResult, received, interrupted, Read, is_newline, text_at, find_next_eol,
  skip_newlines, ditch, receive, move_up, starts_empty, line_or, read_more, readline, strlen,
}
use rild_hisi.AtChannel.Lines.{strip, IsPlain, strip_again}
use rild_hisi.AtChannel.Lines.Buffer.{
  reader_of, skip_newlines-reader_of, store_bytes-reader_of, text_at-reader_of,
}

pub IsPlain-append : (x y : Bytes) → IsPlain x → IsPlain y → IsPlain (x ++ y)
IsPlain-append [] y h k = k
IsPlain-append (c ∷ cs) y h k = (h.0, IsPlain-append cs y h.1 k)

pub IsPlain-strip : (x : Bytes) → IsPlain x → IsPlain (strip x)
unfolding strip
IsPlain-strip [] h = tt
IsPlain-strip (c ∷ cs) h = elim (Bool-cases (is_newline c)) [
  | inl newline ↦ rw newline (IsPlain-strip cs h.1)
  | inr other ↦ rw other h
]

pub strip-strip : (x : Bytes) → strip (strip x) ≡ strip x
strip-strip x = ap strip (sym (append-nil (strip x))) ∙ strip_again x [] ∙ ap strip (append-nil x)

-- Bytes are read to the end of the text, and newlines before it are skipped.
pub receive-reader_of :
    (pre w stale bs : Bytes) (p : ℕ)
    → p ≡ length pre + length w
    → (pre0 stale0 : Bytes) × (receive p bs (reader_of pre w stale)
        ≡ reader_of pre0 (strip (w ++ bs)) stale0)
      × (p + length bs ≡ length pre0 + length (strip (w ++ bs)))
receive-reader_of pre w stale bs p at_end =
    let (stale0, stored) = store_bytes-reader_of pre w stale bs p at_end in
    let (nl, skipped, count) = skip_newlines-reader_of pre (w ++ bs) stale0 in
    (
      pre ++ nl,
      stale0,
      ap (λ b. skip_newlines (record { buffer = b; cur = length pre })) stored ∙ skipped,
      omega (arith, at_end, count, length-append pre nl, length-append w bs),
    )

room-test : (max p n : ℕ) → p + n < max → (max - p == 0) ≡ false
room-test max p n h = ground arith

fits-test :
    (max p : ℕ) (bs more : Bytes)
    → p + length (bs ++ more) < max
    → ltb (max - p) (length bs) ≡ false
fits-test max p bs more h = ground (arith, length-append bs more)

-- What the loop does with bytes that have arrived.
abbrev pub step : ℕ → List ReadResult → ℕ → Reader → Option Read
step max reads p r = line_or (find_next_eol (text_at r)) reads r (read_more max reads p r)

pub read_more-interrupted :
    (max n : ℕ) (reads : List ReadResult) (p : ℕ) (r : Reader)
    → p + n < max
    → read_more max (interrupted ∷ reads) p r ≡ read_more max reads p r
unfolding read_more
read_more-interrupted max n reads p r room = rw (room-test max p n room)

pub read_more-received :
    (max b : ℕ) (bs more : Bytes) (reads : List ReadResult) (p : ℕ) (r : Reader)
    → p + length (b ∷ (bs ++ more)) < max
    → read_more max (received (b ∷ bs) ∷ reads) p r
      ≡ step max reads (p + length (b ∷ bs)) (receive p (b ∷ bs) r)
unfolding read_more
read_more-received max b bs more reads p r room =
    rw (room-test max p (length (b ∷ (bs ++ more))) room, fits-test max p (b ∷ bs) more room)

-- What readline does with a text that is not empty.
abbrev pub start : ℕ → List ReadResult → Reader → Option Read
start max reads r =
    line_or (find_next_eol (text_at r)) reads r
      (read_more max reads (strlen (text_at r)) (move_up r))

pub readline-empty :
    (max : ℕ) (reads : List ReadResult) (pre stale : Bytes)
    → readline max reads (reader_of pre [] stale)
      ≡ read_more max reads 0 (ditch (reader_of pre [] stale))
unfolding readline
readline-empty max reads pre stale = rw (text_at-reader_of pre [] stale)

pub readline-text :
    (max : ℕ) (reads : List ReadResult) (pre cs stale : Bytes) (c : ℕ)
    → (c == 0) ≡ false
    → readline max reads (reader_of pre (c ∷ cs) stale)
      ≡ start max reads (skip_newlines (reader_of pre (c ∷ cs) stale))
unfolding readline
readline-text max reads pre cs stale c h =
    ap
      (λ t.
        if starts_empty t
        then read_more max reads 0 (ditch (reader_of pre (c ∷ cs) stale))
        else start max reads (skip_newlines (reader_of pre (c ∷ cs) stale)))
      (text_at-reader_of pre (c ∷ cs) stale)
    ∙ rw h
