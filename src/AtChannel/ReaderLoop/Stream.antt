-- ===== src/AtChannel/ReaderLoop/Stream.antt =====
-- readerLoop of reference-ril/atchannel.c against the lines of the whole stream.
use rild_hisi.Common.{
  ℕ, suc, ◌+◌, ◌<◌, ◌≤◌, ◌≡◌, refl, sym, ap, ◌∙◌, subst, List, [], ◌∷◌, ◌++◌, Option, none, some,
  arith, length, Bool-cases, inl, inr, length-append, ◌>>=◌,
}
use rild_hisi.Telephony.{Bytes}
use rild_hisi.AtChannel.Reader.{Reader, ReadResult, received, interrupted, failed, is_newline}
use rild_hisi.AtChannel.Lines.{strip, next_line, joined, IsPlain, Arrives, split-parts}
use rild_hisi.AtChannel.Lines.Buffer.{Holds}
use rild_hisi.AtChannel.Lines.Readline.{readline-next_line}
use rild_hisi.AtChannel.Lines.Steps.{IsPlain-append, IsPlain-strip}
use rild_hisi.AtChannel.Lines.Ending.{readline-Ends}
use rild_hisi.AtChannel.Commands.{Channel, process_line, on_reader_closed}
use rild_hisi.AtChannel.ReaderLoop.{reader_loop, handle_read}

-- The lines of a stream, with what follows them.
abbrev pub HasLines : Bytes → List Bytes → Type 0
HasLines s [] = next_line s ≡ none
HasLines s (l ∷ ls) = (after : Bytes) × (next_line s ≡ some (l, after)) × HasLines after ls

-- The lines are processed one after the other.
unfoldable pub process_lines : List Bytes → Channel → Option Channel
unfolding process_line
process_lines [] ch = some ch
process_lines (l ∷ ls) ch = process_line l ch >>= process_lines ls

IsPlain-tail : (x y : Bytes) → IsPlain (x ++ y) → IsPlain y
IsPlain-tail [] y h = h
IsPlain-tail (c ∷ cs) y h = IsPlain-tail cs y h.1

IsPlain-head : (x y : Bytes) → IsPlain (x ++ y) → IsPlain x
IsPlain-head [] y h = tt
IsPlain-head (c ∷ cs) y h = (h.0, IsPlain-head cs y h.1)

IsPlain-joined : (reads : List ReadResult) → Arrives reads → IsPlain (joined reads)
unfolding joined
IsPlain-joined [] h = tt
IsPlain-joined (received bs ∷ reads) h =
    IsPlain-append bs (joined reads) h.1 (IsPlain-joined reads h.2)
IsPlain-joined (interrupted ∷ reads) h = IsPlain-joined reads h
IsPlain-joined (failed ∷ reads) h = elim h [ ]

length-strip : (s : Bytes) → length (strip s) ≤ length s
unfolding strip
length-strip [] = omega arith
length-strip (c ∷ cs) = elim (Bool-cases (is_newline c)) [
  | inl newline ↦ rw newline (omega (arith, length-strip cs))
  | inr other ↦ rw other (omega arith)
]

-- What follows a line is shorter, and as plain.
next_line-rest :
    (s : Bytes) {l after : Bytes}
    → next_line s ≡ some (l, after)
    → IsPlain s
    → (length after < length s) × IsPlain after
unfolding next_line
next_line-rest s {l} {after} h plain =
    let (c, parts, newline) = split-parts (strip s) {l = l} {r = after} h in
    (
      omega (arith, length-strip s, ap length parts, length-append l (c ∷ after)),
      (IsPlain-tail l (c ∷ after) (subst IsPlain parts (IsPlain-strip s plain))).1,
    )

bind_twice :
    (m : Option Channel) (f g : Channel → Option Channel) {h : Channel → Option Channel}
    → ((x : Channel) → h x ≡ (f x >>= g))
    → (m >>= h) ≡ (m >>= f >>= g)
bind_twice none f g e = refl
bind_twice (some x) f g e = e x

-- However the bytes of the stream are cut into answers of `read`, the loop processes its lines, each
-- once and in order, and then reports the end: for a stream that fits in the buffer and has neither
-- NUL nor prompt, in one round for each line and one for the end.
pub reader_loop-process_lines :
    (max : ℕ) (ls : List Bytes) (reads later : List ReadResult) (r : Reader) (w : Bytes)
    (ch : Channel)
    → Holds r w
    → IsPlain w
    → Arrives reads
    → length w + length (joined reads) < max
    → HasLines (w ++ joined reads) ls
    → reader_loop max (suc (length ls)) (reads ++ received [] ∷ later) r ch
      ≡ (process_lines ls ch >>= λ last. some (on_reader_closed last))
unfolding reader_loop handle_read process_lines
reader_loop-process_lines max [] reads later r w ch h plain arrives room lines =
    let (r0, ends) = readline-Ends max later reads r w h plain arrives room lines in
    ap (λ m. m >>= λ q. handle_read max q.line q.rest q.reader ch (reader_loop max 0)) ends
reader_loop-process_lines max (l ∷ ls) reads later r w ch h plain arrives room lines =
    let (after, next, more) = lines in
    let all = received [] ∷ later in
    let got =
      readline-next_line max reads all r w {l = l} {after = after} h plain arrives room next in
    let whole = IsPlain-append w (joined reads) plain (IsPlain-joined reads arrives) in
    let (shorter, plain0) = next_line-rest (w ++ joined reads) {l = l} {after = after} next whole in
    let q = got.read in
    let waiting =
      IsPlain-head got.waiting (joined got.left) (subst IsPlain (sym got.stream) plain0) in
    let size : length got.waiting + length (joined got.left) < max = omega (
      arith,
      room,
      shorter,
      ap length got.stream,
      length-append got.waiting (joined got.left),
      length-append w (joined reads),
    ) in
    ap
      (λ m.
        m >>= λ q. handle_read max q.line q.rest q.reader ch (reader_loop max (suc (length ls))))
      got.returns
    ∙ ap (λ m. handle_read max m q.rest q.reader ch (reader_loop max (suc (length ls)))) got.line
    ∙ bind_twice (process_line l ch) (process_lines ls) (λ last. some (on_reader_closed last))
        (λ next.
          ap (λ rest. reader_loop max (suc (length ls)) rest q.reader next) got.rest
          ∙ reader_loop-process_lines max ls got.left later q.reader got.waiting next got.holds
              waiting got.arrive size (subst (λ s. HasLines s ls) (sym got.stream) more))
