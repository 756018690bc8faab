-- ===== src/AtChannel/Commands/Answers.antt =====
-- The lines that answer a command of reference-ril/atchannel.c.
use rild_hisi.Common.{
  ℕ, ◌+◌, ◌≡◌, refl, sym, ap, ap₂, ◌∙◌, Bool, true, false, ◌&&◌, ◌||◌, List, [], ◌∷◌, ◌++◌, Option,
  none, some, arith, All, Bool-cases, inl, inr, ltb, ◌==◌, if◌then◌else◌, map, ◌>>=◌,
}
use rild_hisi.Common.Int.{ℤ, pos, is_neg}
use mathlib.Core.Option.{some-injective}
use rild_hisi.Telephony.{Bytes, CString}
use rild_hisi.AtChannel.Writing.{Written, write_terminated}
use rild_hisi.AtChannel.Commands.{
  AtCommandType, Channel, process_line, clear_pending_command, on_reader_closed, writeline,
  after_write, at_error_channel_closed, is_final_response_success, is_final_response_error,
  is_final_response,
}
use rild_hisi.AtChannel.Commands.Sending.{
  AtEvent, heard, ended, woken, AtResult, loop_test, reverse_onto, wait,
  at_send_command_full_nolock, issue, finish, at_error_command_pending,
}
use rild_hisi.AtChannel.Commands.Sorting.{
  HasPrefix, answers_of, others_of, IsOrdinary, calls, pending, wait-heard,
}

reverse_onto-twice :
    (xs acc : List Bytes) → reverse_onto [] (reverse_onto acc xs) ≡ reverse_onto xs acc
unfolding reverse_onto
reverse_onto-twice [] acc = refl
reverse_onto-twice (x ∷ xs) acc = reverse_onto-twice xs (x ∷ acc)

abbrev returned :
    ℤ
    → ℕ
    → CString
    → AtCommandType
    → List (Bytes × CString)
    → List AtEvent
    → Channel
    → List Bytes
    → Option AtResult
returned err success final type unsol es sent lines = some (record {
  err = err;
  out = some (record { success = success; final_response = final; intermediates = lines });
  channel = clear_pending_command (record sent { type = type; unsolicited = unsol });
  events = es;
})

on_reader_closed-notifies :
    (ch : Channel)
    → ch.notifies ≡ true
    → ch.reader_closed ≡ 0
    → on_reader_closed ch
      ≡ record ch { reader_closed = 1; signals = ch.signals + 1; closings = ch.closings + 1 }
unfolding on_reader_closed
on_reader_closed-notifies ch notifies up =
    ap
      (λ b.
        if b
        then record ch { reader_closed = 1; signals = ch.signals + 1; closings = ch.closings + 1 }
        else ch)
      (ap₂ (λ b n. b && n == 0) notifies up)

not_closed : (fd : ℤ) (n : ℕ) → (is_neg fd || ltb 0 n) ≡ false → n ≡ 0
not_closed fd n h = ground arith

after_write-kept :
    (ch : Channel) (w : Option Written) {err : ℤ} {sent : Channel}
    → after_write ch w ≡ some (err, sent)
    → (sent.reader_closed ≡ ch.reader_closed) × (sent.handles ≡ ch.handles)
after_write-kept ch none h = absurd (cc)
after_write-kept ch (some w) h =
    let e = some-injective _ _ h in
    (ap (λ z. z.1.reader_closed) (sym e), ap (λ z. z.1.handles) (sym e))

wait-final :
    (timed : Bool) (ch : Channel) (type : AtCommandType) (prefix pdu : CString) (final : Bytes)
    (es : List AtEvent) (got : List Bytes) (unsol : List (Bytes × CString))
    → ch.reader_closed ≡ 0
    → is_final_response final ≡ true
    → wait timed true (heard final ∷ woken ∷ es) (pending ch type prefix pdu got unsol)
      ≡ returned
          (pos 0)
          (if is_final_response_success final then 1 else 0)
          (some final)
          type
          unsol
          es
          (record ch { signals = ch.signals + 1 })
          (reverse_onto [] got)
unfolding wait process_line is_final_response reverse_onto
wait-final timed ch type prefix pdu final es got unsol up ends =
    elim (Bool-cases (is_final_response_success final)) [
      | inl ok ↦ rw (ok, up)
      | inr other ↦
          let error : is_final_response_error final ≡ true = rw other at ends in
          rw (other, error, up)
    ]

-- The command was written: the reader had not closed.
writeline-reader_closed :
    (s : Bytes) (ch : Channel) {sent : Channel}
    → writeline s ch ≡ some (pos 0, sent)
    → (sent.reader_closed ≡ 0) × (sent.handles ≡ ch.handles)
unfolding writeline
writeline-reader_closed s ch {sent} h = elim (Bool-cases (is_neg ch.fd || ltb 0 ch.reader_closed)) [
  | inl shut ↦
      let e : some (at_error_channel_closed, ch) ≡ some (pos 0, sent) = rw shut at h in absurd (cc)
  | inr up ↦
      let e : after_write ch (write_terminated ch.answers s b'\r') ≡ some (pos 0, sent) =
        rw up at h in
      let (closed, handles) = after_write-kept ch (write_terminated ch.answers s b'\r') e in
      (closed ∙ not_closed ch.fd ch.reader_closed up, handles)
]

loop_test-pending :
    (timed : Bool) (ch : Channel) (type : AtCommandType) (prefix pdu : CString) (es : List AtEvent)
    → ch.reader_closed ≡ 0
    → issue type prefix pdu timed true es (pos 0, ch)
      ≡ wait timed true es (pending ch type prefix pdu [] ch.unsolicited)
unfolding wait
loop_test-pending timed ch type prefix pdu es up = rw up

module _ (command : Bytes) (type : AtCommandType) (prefix pdu : CString) (timed : Bool)
    (ls : List Bytes) (es : List AtEvent) (ch : Channel) where
  heard-pending :
      {sent : Channel}
      → HasPrefix type prefix
      → ch.handles ≡ true
      → ch.response ≡ none
      → writeline command ch ≡ some (pos 0, sent)
      → All IsOrdinary ls
      → at_send_command_full_nolock command type prefix pdu timed true (map heard ls ++ es) ch
        ≡ wait timed true es (
            pending sent type prefix pdu
              (reverse_onto [] (answers_of type prefix true ls))
              (sent.unsolicited ++ calls (others_of type prefix true ls)))
  unfolding at_send_command_full_nolock
  heard-pending {sent} h handles idle written plain =
      let (up, same) = writeline-reader_closed command ch {sent = sent} written in
      let all = map heard ls ++ es in
      ap
        (λ m. elim m [
          | some r ↦ finish at_error_command_pending none all ch
          | none ↦ writeline command ch >>= issue type prefix pdu timed true all
        ])
        idle
      ∙ ap (λ m. m >>= issue type prefix pdu timed true all) written
      ∙ loop_test-pending timed sent type prefix pdu all up
      ∙ wait-heard timed true sent type prefix pdu ls es [] sent.unsolicited (same ∙ handles) h
          plain

  -- What the caller gets.
  abbrev pub outcome : ℤ → ℕ → CString → Channel → Option AtResult
  outcome err success final sent =
      returned err success final type (sent.unsolicited ++ calls (others_of type prefix true ls)) es
        sent (answers_of type prefix true ls)

-- Commands that are answered return 0, with the lines that the type and the prefix ask for, in the
-- order in which they came; all other lines are unsolicited, in order; nothing stays pending. The
-- lines before the final one are no prompts, and the command has been written. The waiting thread is
-- signalled once, by the final line, and returns when its wait does.
pub at_send_command_full_nolock-answered :
    (command : Bytes) (type : AtCommandType) (prefix pdu : CString) (timed : Bool) (ls : List Bytes)
    (final : Bytes) (es : List AtEvent) (ch : Channel) {sent : Channel}
    → HasPrefix type prefix
    → ch.handles ≡ true
    → ch.response ≡ none
    → writeline command ch ≡ some (pos 0, sent)
    → All IsOrdinary ls
    → is_final_response final ≡ true
    → at_send_command_full_nolock command type prefix pdu timed true
        (map heard ls ++ heard final ∷ woken ∷ es)
        ch
      ≡ outcome command type prefix pdu timed ls es ch
          (pos 0)
          (if is_final_response_success final then 1 else 0)
          (some final)
          (record sent { signals = sent.signals + 1 })
unfolding reverse_onto
at_send_command_full_nolock-answered command type prefix pdu timed ls final es ch {sent} h handles
      idle written plain ends =
    let (up, same) = writeline-reader_closed command ch {sent = sent} written in
    let got = answers_of type prefix true ls in
    let unsol = sent.unsolicited ++ calls (others_of type prefix true ls) in
    heard-pending command type prefix pdu timed ls (heard final ∷ woken ∷ es) ch h handles idle
      written plain
    ∙ wait-final timed sent type prefix pdu final es (reverse_onto [] got) unsol up ends
    ∙ ap
        (returned (pos 0) (if is_final_response_success final then 1 else 0) (some final) type unsol
          es (record sent { signals = sent.signals + 1 }))
        (reverse_onto-twice got [])

-- When the stream ends, a command that waits is signalled, once, and when its wait returns it does
-- not wait again: it returns AT_ERROR_CHANNEL_CLOSED with the lines that it has got. A callback for
-- the end is set; the lines that came are neither final responses nor prompts; the command has been
-- written.
pub at_send_command_full_nolock_ended :
    (command : Bytes) (type : AtCommandType) (prefix pdu : CString) (timed : Bool) (ls : List Bytes)
    (es : List AtEvent) (ch : Channel) {sent : Channel}
    → HasPrefix type prefix
    → ch.handles ≡ true
    → sent.notifies ≡ true
    → ch.response ≡ none
    → writeline command ch ≡ some (pos 0, sent)
    → All IsOrdinary ls
    → at_send_command_full_nolock command type prefix pdu timed true
        (map heard ls ++ ended ∷ woken ∷ es)
        ch
      ≡ outcome command type prefix pdu timed ls es ch at_error_channel_closed 0 none (record sent {
        reader_closed = 1;
        signals = sent.signals + 1;
        closings = sent.closings + 1;
      })
unfolding wait reverse_onto on_reader_closed
at_send_command_full_nolock_ended command type prefix pdu timed ls es ch {sent} h handles notifies
      idle written plain =
    let (up, same) = writeline-reader_closed command ch {sent = sent} written in
    let got = answers_of type prefix true ls in
    let unsol = sent.unsolicited ++ calls (others_of type prefix true ls) in
    heard-pending command type prefix pdu timed ls (ended ∷ woken ∷ es) ch h handles idle written
      plain
    ∙ ap (λ c. loop_test true es c (wait timed true es c))
        (on_reader_closed-notifies (pending sent type prefix pdu (reverse_onto [] got) unsol)
          notifies up)
    ∙ ap
        (returned at_error_channel_closed 0 none type unsol es (record sent {
          reader_closed = 1;
          signals = sent.signals + 1;
          closings = sent.closings + 1;
        }))
        (reverse_onto-twice got [])
