-- ===== src/AtChannel/Commands/Errors.antt =====
-- What every return of at_send_command* of reference-ril/atchannel.c leaves behind.
use mathlib.Core.Option.{some-injective}
use rild_hisi.Common.{
  ◌<◌, ◌≡◌, ◌≢◌, refl, sym, ap, ap₂, ◌∙◌, Bool, true, false, ◌&&◌, List, [], ◌∷◌, ◌++◌, Option,
  none, some, Bool-cases, Option-cases, inl, inr, lt→ltb, if◌then◌else◌, ◌>>=◌,
}
use rild_hisi.Common.Int.{ℤ, pos, negsuc, ◌==ℤ◌}
use rild_hisi.Telephony.{Bytes, CString}
use rild_hisi.AtChannel.Commands.{
  AtCommandType, AtResponse, Channel, process_line, writeline, clear_pending_command,
  on_reader_closed, at_close,
}
use rild_hisi.AtChannel.Commands.Sending.{
  AtEvent, heard, ended, closed, woken, expired, AtResult, wait, at_send_command_full_nolock,
  must_answer, checked, finish, loop_test, deliver, is_over, begin, lacks_intermediate,
  at_error_command_pending, issue, at_send_command_singleline, at_send_command_numeric,
  at_send_command_sms,
}

-- No command is pending.
abbrev pub IsIdle : Channel → Type 0
IsIdle ch = (ch.response ≡ none) × (ch.response_prefix ≡ none) × (ch.sms_pdu ≡ none)

-- Whatever is returned leaves no command pending.
abbrev pub EndsIdle : Option AtResult → Type 0
EndsIdle none = Unit
EndsIdle (some s) = IsIdle s.channel

loop_test-EndsIdle :
    (wanted : Bool) (es : List AtEvent) (ch : Channel) (again : Option AtResult)
    → EndsIdle again
    → EndsIdle (loop_test wanted es ch again)
loop_test-EndsIdle wanted es ch again h = go ch.response
  where
    over : (r : AtResponse) (b : Bool) → EndsIdle (if b then deliver wanted r es ch else again)
    over r true = (refl, refl, refl)
    over r false = h

    go :
        (m : Option AtResponse)
        → EndsIdle (elim m [
          | none ↦ none
          | some r ↦ if is_over r ch then deliver wanted r es ch else again
        ])
    go none = tt
    go (some r) = over r (is_over r ch)

wait-EndsIdle :
    (timed wanted : Bool) (es : List AtEvent) (ch : Channel) → EndsIdle (wait timed wanted es ch)
unfolding wait
wait-EndsIdle timed wanted [] ch = tt
wait-EndsIdle timed wanted (heard line ∷ es) ch = elim (Option-cases (process_line line ch)) [
  | inl stuck ↦ rw stuck tt
  | inr (next, went) ↦ rw went (wait-EndsIdle timed wanted es next)
]
wait-EndsIdle timed wanted (ended ∷ es) ch = wait-EndsIdle timed wanted es (on_reader_closed ch)
wait-EndsIdle timed wanted (closed ∷ es) ch = wait-EndsIdle timed wanted es (at_close ch)
wait-EndsIdle timed wanted (woken ∷ es) ch =
    loop_test-EndsIdle wanted es ch (wait timed wanted es ch) (wait-EndsIdle timed wanted es ch)
wait-EndsIdle true wanted (expired ∷ es) ch = (refl, refl, refl)
wait-EndsIdle false wanted (expired ∷ es) ch =
    loop_test-EndsIdle wanted es ch (wait false wanted es ch) (wait-EndsIdle false wanted es ch)

module _ (command : Bytes) (type : AtCommandType) (prefix pdu : CString) (timed wanted : Bool) where
  issue-EndsIdle :
      (es : List AtEvent) (written : Option (ℤ × Channel))
      → EndsIdle (written >>= issue type prefix pdu timed wanted es)
  unfolding wait
  issue-EndsIdle es none = tt
  issue-EndsIdle es (some (negsuc err, ch)) = (refl, refl, refl)
  issue-EndsIdle es (some (pos err, ch)) =
      let next = begin type prefix pdu ch in
      loop_test-EndsIdle wanted es next (wait timed wanted es next)
        (wait-EndsIdle timed wanted es next)

  entry-EndsIdle :
      (es : List AtEvent) (ch : Channel) (m : Option AtResponse)
      → EndsIdle (elim m [
        | some r ↦ finish at_error_command_pending none es ch
        | none ↦ writeline command ch >>= issue type prefix pdu timed wanted es
      ])
  entry-EndsIdle es ch none = issue-EndsIdle es (writeline command ch)
  entry-EndsIdle es ch (some r) = (refl, refl, refl)

  -- However the call returns, by an answer, an error or a timeout, no command is pending behind it.
  pub at_send_command_full_nolock-EndsIdle :
      (es : List AtEvent) (ch : Channel)
      → EndsIdle (at_send_command_full_nolock command type prefix pdu timed wanted es ch)
  unfolding at_send_command_full_nolock
  at_send_command_full_nolock-EndsIdle es ch = entry-EndsIdle es ch ch.response

-- A call while a command waits is refused, but it also drops the response of that command: the line
-- that answers it goes to the handler of unsolicited lines, and the thread that waits reads NULL.
pub at_send_command_full_nolock_pending :
    (command : Bytes) (type : AtCommandType) (prefix pdu : CString) (timed wanted : Bool)
    (es : List AtEvent) (ch : Channel) {r : AtResponse} (line : Bytes) (timed0 wanted0 : Bool)
    (later : List AtEvent)
    → ch.response ≡ some r
    → ch.handles ≡ true
    → let after = clear_pending_command ch in
      (at_send_command_full_nolock command type prefix pdu timed wanted es ch
        ≡ some
            (record { err = at_error_command_pending; out = none; channel = after; events = es }))
      × (process_line line after
          ≡ some (record after { unsolicited = ch.unsolicited ++ (line, none) ∷ [] }))
      × (wait timed0 wanted0 (woken ∷ later) after ≡ none)
unfolding at_send_command_full_nolock process_line wait
at_send_command_full_nolock_pending command type prefix pdu timed wanted es ch {r} line timed0
      wanted0 later busy handles =
    (
      ap
          (λ m. elim m [
            | some r ↦ finish at_error_command_pending none es ch
            | none ↦ writeline command ch >>= issue type prefix pdu timed wanted es
          ])
          busy,
      ap
          (λ b. some (
            if b
            then record (clear_pending_command ch) {
              unsolicited = ch.unsolicited ++ (line, none) ∷ [];
            }
            else clear_pending_command ch))
          handles,
      refl,
    )

-- A call that returns 0 and reports success has an intermediate response.
abbrev pub IsAnswered : Option (AtResult × Bool) → Type 0
IsAnswered none = Unit
IsAnswered (some (s, called)) =
    (r : AtResponse) → s.err ≡ pos 0 → s.out ≡ some r → 0 < r.success → r.intermediates ≢ []

lacks_intermediate-missing :
    (r : AtResponse) → 0 < r.success → r.intermediates ≡ [] → lacks_intermediate r ≡ true
lacks_intermediate-missing r success empty = rw (empty, lt→ltb 0 r.success success)

checked-IsAnswered :
    (m : Option AtResponse) (s : AtResult) (called : Bool)
    → s.out ≡ m
    → IsAnswered (some (checked m s, called))
checked-IsAnswered none s called out =
    λ r zero_err there success empty. let e = sym out ∙ there in absurd (cc)
checked-IsAnswered (some q) s called out =
    elim (Bool-cases ((s.err ==ℤ pos 0) && lacks_intermediate q)) [
      | inl lacks ↦ rw lacks (λ r zero_err there success empty. absurd (cc))
      | inr fine ↦ rw fine λ r zero_err there success empty.
          let e = some-injective _ _ (sym out ∙ there) in
          let lacks =
            ap₂ (λ z b. (z ==ℤ pos 0) && b) zero_err
              (ap lacks_intermediate e ∙ lacks_intermediate-missing r success empty) in
          let false_is : true ≡ false = sym lacks ∙ fine in absurd (cc)
    ]

must_answer-IsAnswered : (s : AtResult) (called : Bool) → IsAnswered (some (must_answer s, called))
unfolding must_answer
must_answer-IsAnswered s called = checked-IsAnswered s.out s called refl

bind_must_answer-IsAnswered :
    (m : Option (AtResult × Bool)) → IsAnswered (m >>= λ (s, called). some (must_answer s, called))
unfolding must_answer
bind_must_answer-IsAnswered none = tt
bind_must_answer-IsAnswered (some (s, called)) = must_answer-IsAnswered s called

-- When at_send_command_singleline, at_send_command_numeric or at_send_command_sms returns 0 and the
-- response reports success, it has an intermediate line, whatever the modem answers.
pub at_send_command-IsAnswered :
    (command pdu prefix : Bytes) (wanted reading reports : Bool) (es : List AtEvent) (ch : Channel)
    → IsAnswered (at_send_command_singleline command wanted reading reports es ch prefix)
      × IsAnswered (at_send_command_numeric command wanted reading reports es ch)
      × IsAnswered (at_send_command_sms command wanted reading reports es ch pdu prefix)
unfolding at_send_command_singleline at_send_command_numeric at_send_command_sms
at_send_command-IsAnswered command pdu prefix wanted reading reports es ch =
    (bind_must_answer-IsAnswered _, bind_must_answer-IsAnswered _, bind_must_answer-IsAnswered _)
