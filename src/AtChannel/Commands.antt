-- ===== src/AtChannel/Commands.antt =====
-- reference-ril/atchannel.c: the pending command and the lines that answer it. The statics of the
-- file are the fields of Channel; sp_response, which only one owner holds at a time, is a value, and
-- `none` is NULL. The calls of s_unsolHandler are recorded, and so are the bytes written. The list
-- p_intermediates has the line that came last at its head.
pub mod Sending
pub mod Sorting
pub mod Answers
pub mod Errors
pub mod Pdus
use rild_hisi.Common.{
  ℕ, zero, suc, ◌+◌, Bool, true, false, ◌&&◌, ◌||◌, List, [], ◌∷◌, ◌++◌, Option, none, some, ◌==◌,
  leb, ltb, if◌then◌else◌, ◌>>=◌,
}
use rild_hisi.Common.Int.{ℤ, pos, negsuc, is_neg}
use rild_hisi.Telephony.{Bytes, CString}
use rild_hisi.Socket.{WriteResult}
use rild_hisi.AtChannel.Writing.{Written, write_terminated}

pub data AtCommandType : Type 0 where
  no_result numeric singleline multiline : AtCommandType

pub record AtResponse : Type 0 where
  pub success : ℕ
  pub final_response : CString
  pub intermediates : List Bytes

-- `handles` and `notifies` tell that s_unsolHandler, s_onReaderClosed are set; `unsolicited` has the
-- calls of the first, `closings` counts those of the second. `signals` counts the
-- calls of pthread_cond_signal for s_commandcond. `answers` is what `write` will answer.
pub record Channel : Type 0 where
  pub fd : ℤ
  pub reader_closed : ℕ
  pub type : AtCommandType
  pub response_prefix : CString
  pub sms_pdu : CString
  pub response : Option AtResponse
  pub handles : Bool
  pub unsolicited : List (Bytes × CString)
  pub notifies : Bool
  pub closings : ℕ
  pub signals : ℕ
  pub answers : List WriteResult
  pub written : Bytes

-- misc.c: the two strings go up to their NULs.
unfoldable pub str_starts_with : Bytes → Bytes → Bool
str_starts_with line [] = true
str_starts_with [] (p ∷ ps) = false
str_starts_with (c ∷ cs) (p ∷ ps) =
    let rest = str_starts_with cs ps in if c == p then rest else false

-- A loop over a table of prefixes.
unfoldable starts_with_any : Bytes → List Bytes → Bool
unfolding str_starts_with
starts_with_any line [] = false
starts_with_any line (p ∷ ps) =
    let rest = starts_with_any line ps in if str_starts_with line p then true else rest

-- "+CME ERROR:"
abbrev cme_error : Bytes
cme_error = b'+' ∷ b'C' ∷ b'M' ∷ b'E' ∷ b' ' ∷ b'E' ∷ b'R' ∷ b'R' ∷ b'O' ∷ b'R' ∷ b':' ∷ []

abbrev final_responses_error : List Bytes
final_responses_error =
    (b'E' ∷ b'R' ∷ b'R' ∷ b'O' ∷ b'R' ∷ [])
    ∷ (b'+' ∷ b'C' ∷ b'M' ∷ b'S' ∷ b' ' ∷ b'E' ∷ b'R' ∷ b'R' ∷ b'O' ∷ b'R' ∷ b':' ∷ [])
    ∷ cme_error
    ∷ (b'N' ∷ b'O' ∷ b' ' ∷ b'C' ∷ b'A' ∷ b'R' ∷ b'R' ∷ b'I' ∷ b'E' ∷ b'R' ∷ [])
    ∷ (b'N' ∷ b'O' ∷ b' ' ∷ b'A' ∷ b'N' ∷ b'S' ∷ b'W' ∷ b'E' ∷ b'R' ∷ [])
    ∷ (b'N' ∷ b'O' ∷ b' ' ∷ b'D' ∷ b'I' ∷ b'A' ∷ b'L' ∷ b'T' ∷ b'O' ∷ b'N' ∷ b'E' ∷ [])
    ∷ []

abbrev final_responses_success : List Bytes
final_responses_success =
    (b'O' ∷ b'K' ∷ []) ∷ (b'C' ∷ b'O' ∷ b'N' ∷ b'N' ∷ b'E' ∷ b'C' ∷ b'T' ∷ []) ∷ []

unfoldable pub is_final_response_error : Bytes → Bool
unfolding starts_with_any
is_final_response_error line = starts_with_any line final_responses_error

unfoldable pub is_final_response_success : Bytes → Bool
unfolding starts_with_any
is_final_response_success line = starts_with_any line final_responses_success

unfoldable pub is_final_response : Bytes → Bool
unfolding is_final_response_error is_final_response_success
is_final_response line = is_final_response_success line || is_final_response_error line

-- The loop is compiled out.
abbrev pub is_sms_unsolicited : Bytes → Bool
is_sms_unsolicited line = false

-- sp_response, where the caller has checked that it is not NULL.
abbrev pub add_intermediate : Bytes → AtResponse → Channel → Channel
add_intermediate line r ch = record ch {
  response = some (record r { intermediates = line ∷ r.intermediates });
}

abbrev pub handle_final_response : Bytes → AtResponse → Channel → Channel
handle_final_response line r ch = record ch {
  response = some (record r { final_response = some line });
  signals = ch.signals + 1;
}

abbrev pub handle_unsolicited : Bytes → CString → Channel → Channel
handle_unsolicited line pdu ch =
    if ch.handles then record ch { unsolicited = ch.unsolicited ++ (line, pdu) ∷ [] } else ch

-- AT_ERROR_CHANNEL_CLOSED
abbrev pub at_error_channel_closed : ℤ
at_error_channel_closed = negsuc 2

abbrev pub after_write : Channel → Option Written → Option (ℤ × Channel)
after_write ch none = none
after_write ch (some w) =
    some (w.err, record ch { answers = w.rest; written = ch.written ++ w.bytes })

abbrev write_to : Bytes → ℕ → Channel → Option (ℤ × Channel)
write_to s c ch =
    if is_neg ch.fd || ltb 0 ch.reader_closed
    then some (at_error_channel_closed, ch)
    else after_write ch (write_terminated ch.answers s c)

unfoldable pub writeline : Bytes → Channel → Option (ℤ × Channel)
unfolding write_terminated
writeline s ch = write_to s b'\r' ch

unfoldable pub write_ctrl_z : Bytes → Channel → Option (ℤ × Channel)
unfolding write_terminated
write_ctrl_z s ch = write_to s 26 ch

abbrev pub is_sms_prompt : Bytes → Bool
is_sms_prompt (a ∷ b ∷ []) = a == b'>' && b == b' '
is_sms_prompt _ = false

-- isdigit (line[0])
abbrev pub starts_numeric : Bytes → Bool
starts_numeric [] = false
starts_numeric (c ∷ cs) = leb b'0' c && leb c b'9'

-- An intermediate response, or else unsolicited.
abbrev take_if : Bool → Bytes → AtResponse → Channel → Channel
take_if true line r ch = add_intermediate line r ch
take_if false line r ch = handle_unsolicited line none ch

abbrev none_yet : AtResponse → Bool
none_yet r = elim r.intermediates [ [] ↦ true | l ∷ ls ↦ false ]

-- The switch on s_type. `none`: s_responsePrefix is NULL and is read.
abbrev by_type : AtCommandType → Bytes → AtResponse → Channel → Option Channel
by_type no_result line r ch = some (handle_unsolicited line none ch)
by_type numeric line r ch = some (take_if (none_yet r && starts_numeric line) line r ch)
by_type singleline line r ch =
    if none_yet r
    then (ch.response_prefix >>= λ p. some (take_if (str_starts_with line p) line r ch))
    else some (handle_unsolicited line none ch)
by_type multiline line r ch =
    ch.response_prefix >>= λ p. some (take_if (str_starts_with line p) line r ch)

unfoldable pub intermediate_line : Bytes → AtResponse → Channel → Option Channel
unfolding str_starts_with
intermediate_line line r ch = by_type ch.type line r ch

-- The PDU is written, whatever comes of it.
abbrev send_pdu : Bytes → Channel → Option Channel
send_pdu pdu ch = write_ctrl_z pdu ch >>= λ (err, sent). some (record sent { sms_pdu = none })

abbrev pending_line : Bytes → AtResponse → Channel → Option Channel
pending_line line r ch = elim ch.sms_pdu [
  | none ↦ intermediate_line line r ch
  | some pdu ↦ if is_sms_prompt line then send_pdu pdu ch else intermediate_line line r ch
]

-- `none`: the answers of `write` do not suffice, or NULL is read.
unfoldable pub process_line : Bytes → Channel → Option Channel
unfolding is_final_response_success is_final_response_error write_ctrl_z intermediate_line
process_line line ch = elim ch.response [
  | none ↦ some (handle_unsolicited line none ch)
  | some r ↦
      if is_final_response_success line
      then some (handle_final_response line (record r { success = 1 }) ch)
      else if is_final_response_error line
      then some (handle_final_response line (record r { success = 0 }) ch)
      else pending_line line r ch
]

abbrev pub clear_pending_command : Channel → Channel
clear_pending_command ch = record ch { response = none; response_prefix = none; sms_pdu = none }

-- The reader has found the end of the stream.
unfoldable pub on_reader_closed : Channel → Channel
on_reader_closed ch =
    if ch.notifies && ch.reader_closed == 0
    then record ch { reader_closed = 1; signals = ch.signals + 1; closings = ch.closings + 1 }
    else ch

-- `close` is called for the descriptor, if there is one.
abbrev pub at_close : Channel → Channel
at_close ch = record ch { fd = negsuc 0; reader_closed = 1; signals = ch.signals + 1 }

-- pthread_create is taken to succeed.
abbrev pub at_open : ℤ → Bool → Channel → Channel
at_open fd handles ch = record ch {
  fd = fd;
  handles = handles;
  reader_closed = 0;
  response_prefix = none;
  sms_pdu = none;
  response = none;
}
