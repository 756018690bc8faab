-- ===== src/AtChannel/Reader.antt =====
-- findNextEOL and readline of reference-ril/atchannel.c. The buffer is a list of MAX_AT_RESPONSE + 1
-- bytes, the pointers s_ATBufferCur, p_read and p_eol are indices into it, and `max` is
-- MAX_AT_RESPONSE.
use rild_hisi.Common.{
  ℕ, suc, ◌+◌, ◌-◌, ◌*◌, Bool, true, false, ◌&&◌, ◌||◌, List, [], ◌∷◌, ◌++◌, Option, none, some,
  ◌==◌, ltb, length, set, take, drop, if◌then◌else◌,
}
use rild_hisi.Telephony.{Bytes}

abbrev pub max_at_response : ℕ
max_at_response = 8 * 1024

pub record Reader : Type 0 where
  pub buffer : Bytes
  pub cur : ℕ

-- What one call of `read` answers: bytes, none of them at the end of the stream; EINTR; an error.
pub data ReadResult : Type 0 where
  received : Bytes → ReadResult
  interrupted failed : ReadResult

abbrev pub is_newline : ℕ → Bool
is_newline c = c == b'\r' || c == b'\n'

-- strlen
unfoldable pub strlen : Bytes → ℕ
strlen [] = 0
strlen (c ∷ cs) = let n = strlen cs in if c == 0 then 0 else suc n

-- The newlines at the start of a text, counted.
unfoldable pub leading_newlines : Bytes → ℕ
leading_newlines [] = 0
leading_newlines (c ∷ cs) = let n = leading_newlines cs in if is_newline c then suc n else 0

abbrev pub shift : Option ℕ → Option ℕ
shift none = none
shift (some n) = some (suc n)

-- The distance to the next newline before the NUL.
unfoldable pub find_newline : Bytes → Option ℕ
find_newline [] = none
find_newline (c ∷ cs) =
    let next = find_newline cs in
    if c == 0 then none else if is_newline c then some 0 else shift next

-- The prompt "> " at the very end.
abbrev pub is_prompt : Bytes → Bool
is_prompt (a ∷ b ∷ c ∷ cs) = a == b'>' && b == b' ' && c == 0
is_prompt _ = false

unfoldable pub find_next_eol : Bytes → Option ℕ
unfolding find_newline
find_next_eol s = if is_prompt s then some 2 else find_newline s

-- What readline returns: the line, `none` for NULL; the reader; the answers not yet used.
pub record Read : Type 0 where
  pub line : Option Bytes
  pub reader : Reader
  pub rest : List ReadResult

-- The text at s_ATBufferCur, with what stands behind its NUL; nothing if it points behind the buffer.
abbrev pub text_at : Reader → Bytes
text_at r = drop r.cur r.buffer

abbrev pub skip_newlines : Reader → Reader
skip_newlines r = record r { cur = r.cur + leading_newlines (text_at r) }

-- The line ends at `eol`, counted from s_ATBufferCur, and gets a NUL there.
unfoldable pub finish_line : ℕ → List ReadResult → Reader → Read
finish_line eol rest r = record {
  line = some (take eol (text_at r));
  reader = record { buffer = set r.buffer (r.cur + eol) 0; cur = r.cur + eol + 1 };
  rest = rest;
}

-- The bytes that one call stores at `p`, with the NUL behind them.
unfoldable pub store_bytes : ℕ → Bytes → Bytes → Bytes
store_bytes p bs buffer = take p buffer ++ (bs ++ 0 ∷ drop (p + length bs + 1) buffer)

-- An empty buffer
abbrev pub ditch : Reader → Reader
ditch r = record { buffer = set r.buffer 0 0; cur = 0 }

abbrev pub line_or : Option ℕ → List ReadResult → Reader → Option Read → Option Read
line_or none rest r more = more
line_or (some eol) rest r more = some (finish_line eol rest r)

-- The reader behind a read that has returned bytes.
abbrev pub receive : ℕ → Bytes → Reader → Reader
receive p bs r = skip_newlines (record r { buffer = store_bytes p bs r.buffer })

abbrev pub no_line : List ReadResult → Reader → Option Read
no_line rest r = some (record { line = none; reader = r; rest = rest })

-- A partial line is moved to the start of the buffer.
abbrev pub move_up : Reader → Reader
move_up r =
    let len = strlen (text_at r) in
    record { buffer = take len (text_at r) ++ 0 ∷ drop (len + 1) r.buffer; cur = 0 }

abbrev pub starts_empty : Bytes → Bool
starts_empty [] = true
starts_empty (c ∷ cs) = c == 0

module _ (max : ℕ) where
  -- The loop, with p_read at the index `p`. `none`: the answers do not suffice, or one has more bytes
  -- than were asked for.
  unfoldable pub read_more : List ReadResult → ℕ → Reader → Option Read
  unfolding leading_newlines find_next_eol finish_line store_bytes
  read_more [] p r = none
  read_more (interrupted ∷ reads) p r =
      read_more reads (if max - p == 0 then 0 else p) (if max - p == 0 then ditch r else r)
  read_more (failed ∷ reads) p r = no_line reads (if max - p == 0 then ditch r else r)
  read_more (received [] ∷ reads) p r = no_line reads (if max - p == 0 then ditch r else r)
  read_more (received (b ∷ bs) ∷ reads) p r =
      let p0 = if max - p == 0 then 0 else p in
      let r0 = receive p0 (b ∷ bs) (if max - p == 0 then ditch r else r) in
      let more = read_more reads (p0 + length (b ∷ bs)) r0 in
      if ltb (max - p0) (length (b ∷ bs))
      then none
      else line_or (find_next_eol (text_at r0)) reads r0 more

  unfoldable pub readline : List ReadResult → Reader → Option Read
  unfolding strlen leading_newlines find_next_eol finish_line read_more
  readline reads r =
      if starts_empty (text_at r)
      then read_more reads 0 (ditch r)
      else let r0 = skip_newlines r in
        line_or (find_next_eol (text_at r0)) reads r0
          (read_more reads (strlen (text_at r0)) (move_up r0))
