-- ===== src/AtChannel/ReaderLoop/Pdus.antt =====
-- What readerLoop of reference-ril/atchannel.c passes to the handler of unsolicited lines.
use rild_hisi.Common.{
  ℕ, zero, suc, ◌&&◌, List, Option, none, some, Bool-cases, inl, inr, ◌==◌, ◌>>=◌,
}
use rild_hisi.Telephony.{Bytes}
use rild_hisi.AtChannel.Reader.{Reader, ReadResult, Read, readline}
use rild_hisi.AtChannel.Commands.{Channel, process_line, on_reader_closed}
use rild_hisi.AtChannel.Commands.Pdus.{HasNoPdu, EndsWithoutPdu, process_line-EndsWithoutPdu}
use rild_hisi.AtChannel.ReaderLoop.{handle_read, reader_loop}

on_reader_closed-HasNoPdu : (ch : Channel) → HasNoPdu ch → HasNoPdu (on_reader_closed ch)
unfolding on_reader_closed
on_reader_closed-HasNoPdu ch h = elim (Bool-cases (ch.notifies && ch.reader_closed == 0)) [
  | inl tells ↦ rw tells h
  | inr quiet ↦ rw quiet h
]

bind-EndsWithoutPdu :
    (m : Option Channel) (f : Channel → Option Channel)
    → EndsWithoutPdu m
    → ((ch : Channel) → HasNoPdu ch → EndsWithoutPdu (f ch))
    → EndsWithoutPdu (m >>= f)
bind-EndsWithoutPdu none f hm hf = tt
bind-EndsWithoutPdu (some ch) f hm hf = hf ch hm

handle_read-EndsWithoutPdu :
    (max : ℕ) (line : Option Bytes) (rest : List ReadResult) (r : Reader) (ch : Channel)
    (more : List ReadResult → Reader → Channel → Option Channel)
    → HasNoPdu ch
    → ((next : Channel) → HasNoPdu next → EndsWithoutPdu (more rest r next))
    → EndsWithoutPdu (handle_read max line rest r ch more)
unfolding handle_read
handle_read-EndsWithoutPdu max none rest r ch more h hm = on_reader_closed-HasNoPdu ch h
handle_read-EndsWithoutPdu max (some line) rest r ch more h hm =
    bind-EndsWithoutPdu (process_line line ch) (more rest r) (process_line-EndsWithoutPdu line ch h)
      hm

read-EndsWithoutPdu :
    (max : ℕ) (more : List ReadResult → Reader → Channel → Option Channel) (ch : Channel)
    (m : Option Read)
    → HasNoPdu ch
    → ((rest : List ReadResult) (r : Reader) (next : Channel)
        → HasNoPdu next
        → EndsWithoutPdu (more rest r next))
    → EndsWithoutPdu (m >>= λ q. handle_read max q.line q.rest q.reader ch more)
read-EndsWithoutPdu max more ch none h hm = tt
read-EndsWithoutPdu max more ch (some q) h hm =
    handle_read-EndsWithoutPdu max q.line q.rest q.reader ch more h (hm q.rest q.reader)

-- Whatever arrives, each call of the handler of unsolicited lines has NULL for the PDU when the loop
-- ends, if it was so before.
pub reader_loop-EndsWithoutPdu :
    (max n : ℕ) (reads : List ReadResult) (r : Reader) (ch : Channel)
    → HasNoPdu ch
    → EndsWithoutPdu (reader_loop max n reads r ch)
unfolding reader_loop
reader_loop-EndsWithoutPdu max zero reads r ch h = tt
reader_loop-EndsWithoutPdu max (suc n) reads r ch h =
    read-EndsWithoutPdu max (reader_loop max n) ch (readline max reads r) h
      λ rest r' next hn. reader_loop-EndsWithoutPdu max n rest r' next hn
