-- ===== src/AtChannel/Lines/Ending.antt =====
-- readline of reference-ril/atchannel.c at the end of the stream.
use rild_hisi.Common.{
  ℕ, ◌+◌, ◌<◌, ◌≡◌, refl, sym, ap, ap₂, ◌∙◌, subst, List, [], ◌∷◌, ◌++◌, Option, none, some, arith,
  length, append_assoc, Option-cases, inl, inr, length-append,
}
use rild_hisi.Telephony.{Bytes}
use rild_hisi.AtChannel.Reader.{
  Reader, ReadResult, received, interrupted, failed, Read, text_at, move_up, read_more, readline,
  strlen,
}
use rild_hisi.AtChannel.Lines.{
  strip, split, next_line, joined, IsPlain, Arrives, next_line-strip, next_line-append,
}
use rild_hisi.AtChannel.Lines.Buffer.{
  reader_of, Holds, strlen-IsPlain, skip_newlines-reader_of, line_or-none, ditch-reader_of,
  move_up-reader_of, text_at-reader_of,
}
use rild_hisi.AtChannel.Lines.Steps.{
  IsPlain-append, IsPlain-strip, strip-strip, receive-reader_of, read_more-interrupted,
  read_more-received, step, start, readline-empty, readline-text,
}

-- NULL is returned, and the answers `others` are left.
abbrev pub Ends : Option Read → List ReadResult → Type 0
Ends m others = (r : Reader) × (m ≡ some (record { line = none; reader = r; rest = others }))

-- A text that is part of one without a line has none.
split-none : (x y : Bytes) → strip x ≡ x → next_line (x ++ y) ≡ none → split x ≡ none
unfolding next_line
split-none x y same none_there = elim (Option-cases (split x)) [
  | inl unread ↦ unread
  | inr ((l, r), here) ↦
      let e = sym (next_line-append x y {l = l} {r = r} (ap split same ∙ here)) ∙ none_there in
      absurd (cc)
]

module _ (max : ℕ) (others : List ReadResult) where
  read_more-Ends :
      (reads : List ReadResult) (pre w stale : Bytes) (p : ℕ)
      → p ≡ length pre + length w
      → p + length (joined reads) < max
      → IsPlain w
      → Arrives reads
      → next_line (w ++ joined reads) ≡ none
      → Ends (read_more max (reads ++ received [] ∷ others) p (reader_of pre w stale)) others
  unfolding read_more joined
  read_more-Ends [] pre w stale p at_end room plain arrives unread = (_, refl)
  read_more-Ends (interrupted ∷ reads) pre w stale p at_end room plain arrives unread =
      subst (λ m. Ends m others)
        (sym (
          read_more-interrupted max (length (joined reads)) (reads ++ received [] ∷ others) p
            (reader_of pre w stale) room))
        (read_more-Ends reads pre w stale p at_end room plain arrives unread)
  read_more-Ends (failed ∷ reads) pre w stale p at_end room plain arrives unread = elim arrives [ ]
  read_more-Ends (received [] ∷ reads) pre w stale p at_end room plain arrives unread =
      absurd (arrives.0 refl)
  read_more-Ends (received (b ∷ bs) ∷ reads) pre w stale p at_end room plain arrives unread =
      let bytes = b ∷ bs in
      let all = reads ++ received [] ∷ others in
      let total = length-append bytes (joined reads) in
      let (pre0, stale0, moved, count) = receive-reader_of pre w stale bytes p at_end in
      let v = strip (w ++ bytes) in
      let unread0 : next_line (v ++ joined reads) ≡ none =
        next_line-strip (w ++ bytes) (joined reads)
        ∙ ap next_line (append_assoc w bytes (joined reads))
        ∙ unread in
      let plain0 = IsPlain-strip (w ++ bytes) (IsPlain-append w bytes plain arrives.1) in
      let (q, ends) =
        read_more-Ends reads pre0 v stale0 (p + length bytes) count (omega (arith, room, total))
          plain0 arrives.2 unread0 in
      (
        q,
        read_more-received max b bs (joined reads) all p (reader_of pre w stale) room
            ∙ ap (step max all (p + length bytes)) moved
            ∙ line_or-none pre0 v stale0 all
                (read_more max all (p + length bytes) (reader_of pre0 v stale0)) plain0
                (split-none v (joined reads) (strip-strip (w ++ bytes)) unread0)
            ∙ ends,
      )

  readline_text-Ends :
      (reads : List ReadResult) (pre cs stale : Bytes) (c : ℕ)
      → IsPlain (c ∷ cs)
      → Arrives reads
      → length (c ∷ cs) + length (joined reads) < max
      → next_line ((c ∷ cs) ++ joined reads) ≡ none
      → Ends (readline max (reads ++ received [] ∷ others) (reader_of pre (c ∷ cs) stale)) others
  readline_text-Ends reads pre cs stale c plain arrives room unread =
      let w = c ∷ cs in
      let all = reads ++ received [] ∷ others in
      let v = strip w in
      let (nl, skipped, count) = skip_newlines-reader_of pre w stale in
      let unread0 = next_line-strip w (joined reads) ∙ unread in
      let plain0 = IsPlain-strip w plain in
      let r = reader_of (pre ++ nl) v stale in
      let (stale0, moved) = move_up-reader_of (pre ++ nl) v stale plain0 in
      let len = ap strlen (text_at-reader_of (pre ++ nl) v stale) ∙ strlen-IsPlain v stale plain0 in
      let (q, ends) =
        read_more-Ends reads [] v stale0 (length v) (omega arith) (omega (arith, room, count))
          plain0 arrives unread0 in
      (
        q,
        readline-text max all pre cs stale c (ground (arith, plain.0.0))
            ∙ ap (start max all) skipped
            ∙ line_or-none (pre ++ nl) v stale all
                (read_more max all (strlen (text_at r)) (move_up r)) plain0
                (split-none v (joined reads) (strip-strip w) unread0)
            ∙ ap₂ (read_more max all) len moved
            ∙ ends,
      )

  readline_end :
      (reads : List ReadResult) (pre w stale : Bytes)
      → IsPlain w
      → Arrives reads
      → length w + length (joined reads) < max
      → next_line (w ++ joined reads) ≡ none
      → Ends (readline max (reads ++ received [] ∷ others) (reader_of pre w stale)) others
  readline_end reads pre [] stale plain arrives room unread =
      let all = reads ++ received [] ∷ others in
      let (stale0, emptied) = ditch-reader_of pre stale in
      let (q, ends) = read_more-Ends reads [] [] stale0 0 refl room tt arrives unread in
      (q, readline-empty max all pre stale ∙ ap (read_more max all 0) emptied ∙ ends)
  readline_end reads pre (c ∷ cs) stale plain arrives room unread =
      readline_text-Ends reads pre cs stale c plain arrives room unread

  -- Without a further line, readline reads up to the end of the stream and returns NULL.
  pub readline-Ends :
      (reads : List ReadResult) (r : Reader) (w : Bytes)
      → Holds r w
      → IsPlain w
      → Arrives reads
      → length w + length (joined reads) < max
      → next_line (w ++ joined reads) ≡ none
      → Ends (readline max (reads ++ received [] ∷ others) r) others
  readline-Ends reads r w h plain arrives room unread =
      subst (λ q. Ends (readline max (reads ++ received [] ∷ others) q) others) (sym h.shape)
        (readline_end reads h.pre w h.stale plain arrives room unread)
