-- ===== src/AtChannel/ReaderLoop.antt =====
-- readerLoop of reference-ril/atchannel.c: every line that arrives is processed.
pub mod Stream
pub mod Pdus
use rild_hisi.Common.{
  ℕ, zero, suc, Bool, true, false, List, [], ◌∷◌, Option, none, some, if◌then◌else◌, ◌>>=◌,
}
use rild_hisi.Telephony.{Bytes}
use rild_hisi.AtChannel.Reader.{Reader, ReadResult, Read, readline}
use rild_hisi.AtChannel.Commands.{
  Channel, process_line, is_sms_unsolicited, handle_unsolicited, on_reader_closed,
}

abbrev end_loop : Channel → Option Channel
unfolding on_reader_closed
end_loop ch = some (on_reader_closed ch)

-- The second line of an SMS.
abbrev sms_line :
    Bytes → Read → Channel → (List ReadResult → Reader → Channel → Option Channel) → Option Channel
sms_line line1 q ch more = elim q.line [
  | none ↦ end_loop ch
  | some line2 ↦ more q.rest q.reader (handle_unsolicited line1 (some line2) ch)
]

module _ (max : ℕ) where
  -- What is done with the result of readline, and with the rounds that come `more`.
  unfoldable pub handle_read :
      Option Bytes
      → List ReadResult
      → Reader
      → Channel
      → (List ReadResult → Reader → Channel → Option Channel)
      → Option Channel
  unfolding process_line on_reader_closed readline
  handle_read none rest r ch more = end_loop ch
  handle_read (some line) rest r ch more =
      if is_sms_unsolicited line
      then (readline max rest r >>= λ q. sms_line line q ch more)
      else (process_line line ch >>= λ next. more rest r next)

  -- The channel when the loop ends, after at most the given number of rounds; `none` if that does not
  -- suffice, or the answers of `read` do not.
  unfoldable pub reader_loop : ℕ → List ReadResult → Reader → Channel → Option Channel
  unfolding handle_read
  reader_loop zero reads r ch = none
  reader_loop (suc n) reads r ch =
      readline max reads r >>= λ q. handle_read q.line q.rest q.reader ch (reader_loop n)
