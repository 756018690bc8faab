-- ===== src/AtChannel/Lines/Readline.antt =====
-- readline of reference-ril/atchannel.c against the lines of the stream.
use rild_hisi.Common.{
  ℕ, ◌+◌, ◌<◌, ◌≡◌, refl, sym, ap, ap₂, ◌∙◌, List, [], ◌∷◌, ◌++◌, Option, none, some, arith, length,
  append_assoc, append-nil, Option-cases, subst, inl, inr, length-append,
}
use mathlib.Core.Option.{some-injective}
use rild_hisi.Telephony.{Bytes}
use rild_hisi.AtChannel.Reader.{
  Reader, ReadResult, received, interrupted, failed, Read, text_at, find_next_eol, move_up, line_or,
  read_more, readline, strlen,
}
use rild_hisi.AtChannel.Lines.{
  strip, split, next_line, joined, IsPlain, Arrives, next_line-strip, next_line-append,
}
use rild_hisi.AtChannel.Lines.Buffer.{
  reader_of, Holds, strlen-IsPlain, skip_newlines-reader_of, line_or-none, line_or-some,
  ditch-reader_of, move_up-reader_of, text_at-reader_of,
}
use rild_hisi.AtChannel.Lines.Steps.{
  IsPlain-append, IsPlain-strip, strip-strip, receive-reader_of, step, read_more-interrupted,
  read_more-received, start, readline-empty, readline-text,
}

-- The call returns the line `l`; the text that waits then, and the answers left before `others`,
-- make up `after`.
pub record Reads (m : Option Read) (l after : Bytes) (others : List ReadResult) : Type 0 where
  pub read : Read
  pub returns : m ≡ some read
  pub line : read.line ≡ some l
  pub waiting : Bytes
  pub left : List ReadResult
  pub holds : Holds read.reader waiting
  pub arrive : Arrives left
  pub rest : read.rest ≡ left ++ others
  pub stream : waiting ++ joined left ≡ after

module _ (reads others : List ReadResult) (arrives : Arrives reads) {l after : Bytes} where
  -- The line stands in the buffer
  found-Reads :
      (pre w stale : Bytes) (more : Option Read) {k r : Bytes}
      → IsPlain w
      → next_line (w ++ joined reads) ≡ some (l, after)
      → strip w ≡ w
      → split w ≡ some (k, r)
      → let q = reader_of pre w stale in
        Reads (line_or (find_next_eol (text_at q)) (reads ++ others) q more) l after others
  unfolding next_line
  found-Reads pre w stale more {k} {r} plain next same here =
      let e =
        some-injective _ _
          (sym (next_line-append w (joined reads) {l = k} {r = r} (ap split same ∙ here)) ∙ next) in
      record {
        read = record {
          line = some k;
          reader = reader_of (pre ++ (k ++ 0 ∷ [])) r stale;
          rest = reads ++ others;
        };
        returns = line_or-some pre w stale (reads ++ others) more {l = k} {r = r} plain here;
        line = ap (λ z. some z.0) e;
        waiting = r;
        left = reads;
        holds = record { pre = pre ++ (k ++ 0 ∷ []); stale = stale; shape = refl };
        arrive = arrives;
        rest = refl;
        stream = ap (λ z. z.1) e;
      }

  -- The reader has just skipped newlines: the line is there, or more is read.
  settle-Reads :
      (pre w stale : Bytes) (more : Option Read)
      → IsPlain w
      → next_line (w ++ joined reads) ≡ some (l, after)
      → strip w ≡ w
      → (split w ≡ none → Reads more l after others)
      → let q = reader_of pre w stale in
        Reads (line_or (find_next_eol (text_at q)) (reads ++ others) q more) l after others
  settle-Reads pre w stale more plain next same go = elim (Option-cases (split w)) [
    | inl none_yet ↦
        subst (λ m. Reads m l after others)
          (sym (line_or-none pre w stale (reads ++ others) more plain none_yet)) (go none_yet)
    | inr ((k, r), here) ↦ found-Reads pre w stale more {k = k} {r = r} plain next same here
  ]

module _ (max : ℕ) (others : List ReadResult) {l after : Bytes} where
  -- The loop, from a buffer with no line.
  read_more-Reads :
      (reads : List ReadResult) (pre w stale : Bytes) (p : ℕ)
      → p ≡ length pre + length w
      → p + length (joined reads) < max
      → IsPlain w
      → Arrives reads
      → split w ≡ none
      → strip w ≡ w
      → next_line (w ++ joined reads) ≡ some (l, after)
      → Reads (read_more max (reads ++ others) p (reader_of pre w stale)) l after others
  unfolding read_more joined next_line
  read_more-Reads [] pre w stale p at_end room plain arrives unread same next =
      let e = sym unread ∙ ap split (sym same) ∙ ap next_line (sym (append-nil w)) ∙ next in
      absurd (cc)
  read_more-Reads (interrupted ∷ reads) pre w stale p at_end room plain arrives unread same next =
      subst (λ m. Reads m l after others)
        (sym (
          read_more-interrupted max (length (joined reads)) (reads ++ others) p
            (reader_of pre w stale) room))
        (read_more-Reads reads pre w stale p at_end room plain arrives unread same next)
  read_more-Reads (failed ∷ reads) pre w stale p at_end room plain arrives unread same next =
      elim arrives [ ]
  read_more-Reads (received [] ∷ reads) pre w stale p at_end room plain arrives unread same next =
      absurd (arrives.0 refl)
  read_more-Reads (received (b ∷ bs) ∷ reads) pre w stale p at_end room plain arrives unread same
        next =
      let bytes = b ∷ bs in
      let total = length-append bytes (joined reads) in
      let (pre0, stale0, moved, count) = receive-reader_of pre w stale bytes p at_end in
      let v = strip (w ++ bytes) in
      let next0 : next_line (v ++ joined reads) ≡ some (l, after) =
        next_line-strip (w ++ bytes) (joined reads)
        ∙ ap next_line (append_assoc w bytes (joined reads))
        ∙ next in
      let plain0 = IsPlain-strip (w ++ bytes) (IsPlain-append w bytes plain arrives.1) in
      subst (λ m. Reads m l after others)
        (sym (
          read_more-received max b bs (joined reads) (reads ++ others) p (reader_of pre w stale)
            room
          ∙ ap (step max (reads ++ others) (p + length bytes)) moved))
        (settle-Reads reads others arrives.2 pre0 v stale0
          (read_more max (reads ++ others) (p + length bytes) (reader_of pre0 v stale0)) plain0
          next0 (strip-strip (w ++ bytes))
          (λ unread0.
            read_more-Reads reads pre0 v stale0 (p + length bytes) count
              (omega (arith, room, total)) plain0 arrives.2 unread0 (strip-strip (w ++ bytes))
              next0))

  -- From a partial line.
  move_up-Reads :
      (reads : List ReadResult) (pre w stale : Bytes)
      → length w + length (joined reads) < max
      → IsPlain w
      → Arrives reads
      → split w ≡ none
      → strip w ≡ w
      → next_line (w ++ joined reads) ≡ some (l, after)
      → let r = reader_of pre w stale in
        Reads (read_more max (reads ++ others) (strlen (text_at r)) (move_up r)) l after others
  move_up-Reads reads pre w stale room plain arrives unread same next =
      let (stale0, moved) = move_up-reader_of pre w stale plain in
      let count = ap strlen (text_at-reader_of pre w stale) ∙ strlen-IsPlain w stale plain in
      subst (λ m. Reads m l after others) (sym (ap₂ (read_more max (reads ++ others)) count moved))
        (read_more-Reads reads [] w stale0 (length w) (omega arith) room plain arrives unread same
          next)

module _ (max : ℕ) (reads others : List ReadResult) {l after : Bytes} where
  readline-reader_of :
      (pre w stale : Bytes)
      → IsPlain w
      → Arrives reads
      → length w + length (joined reads) < max
      → next_line (w ++ joined reads) ≡ some (l, after)
      → Reads (readline max (reads ++ others) (reader_of pre w stale)) l after others
  unfolding strip split
  readline-reader_of pre [] stale plain arrives room next =
      let (stale0, emptied) = ditch-reader_of pre stale in
      subst (λ m. Reads m l after others)
        (sym (
          readline-empty max (reads ++ others) pre stale
          ∙ ap (read_more max (reads ++ others) 0) emptied))
        (read_more-Reads max others reads [] [] stale0 0 refl room tt arrives refl refl next)
  readline-reader_of pre (c ∷ cs) stale plain arrives room next =
      let w = c ∷ cs in
      let v = strip w in
      let (nl, skipped, count) = skip_newlines-reader_of pre w stale in
      let next0 = next_line-strip w (joined reads) ∙ next in
      let plain0 = IsPlain-strip w plain in
      subst (λ m. Reads m l after others)
        (sym (
          readline-text max (reads ++ others) pre cs stale c (ground (arith, plain.0.0))
          ∙ ap (start max (reads ++ others)) skipped))
        (settle-Reads reads others arrives (pre ++ nl) v stale
          (read_more max (reads ++ others) (strlen (text_at (reader_of (pre ++ nl) v stale)))
            (move_up (reader_of (pre ++ nl) v stale)))
          plain0 next0 (strip-strip w)
          (λ unread.
            move_up-Reads max others reads (pre ++ nl) v stale (omega (arith, room, count)) plain0
              arrives unread (strip-strip w) next0))

-- However the bytes of the stream are cut into answers of `read`, readline returns its next line and
-- leaves what follows, when the text in the buffer and the answers up to `others` have that line, fit
-- in the buffer, and hold neither NUL nor prompt.
pub readline-next_line :
    (max : ℕ) (reads others : List ReadResult) (r : Reader) (w : Bytes) {l after : Bytes}
    → Holds r w
    → IsPlain w
    → Arrives reads
    → length w + length (joined reads) < max
    → next_line (w ++ joined reads) ≡ some (l, after)
    → Reads (readline max (reads ++ others) r) l after others
readline-next_line max reads others r w {l} {after} h plain arrives room next =
    subst (λ q. Reads (readline max (reads ++ others) q) l after others) (sym h.shape)
      (readline-reader_of max reads others h.pre w h.stale plain arrives room next)
