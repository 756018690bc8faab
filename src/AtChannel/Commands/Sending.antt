-- ===== src/AtChannel/Commands/Sending.antt =====
-- at_send_command* and at_handshake of reference-ril/atchannel.c. While the thread that sends waits
-- on s_commandcond, other threads hold the mutex; what happens then, in order, is a list of events.

use rild_hisi.Common.{
  ℕ, zero, suc, Bool, true, false, ◌&&◌, List, [], ◌∷◌, Option, none, some, ltb, if◌then◌else◌,
  ◌>>=◌,
}
use rild_hisi.Common.Int.{ℤ, pos, negsuc, is_neg, ◌==ℤ◌}
use rild_hisi.Telephony.{Bytes, CString}
use rild_hisi.AtTok.{at_tok_start, at_tok_nextint}
use rild_hisi.AtChannel.Commands.{
  AtCommandType, no_result, numeric, singleline, multiline, AtResponse, Channel, str_starts_with,
  cme_error, process_line, clear_pending_command, on_reader_closed, at_close, writeline,
  at_error_channel_closed,
}

-- The reader processes a line; it finds the end of the stream; at_close is called; the wait returns
-- 0; it returns ETIMEDOUT. No other thread sends a command meanwhile.
pub data AtEvent : Type 0 where
  heard : Bytes → AtEvent
  ended closed woken expired : AtEvent

abbrev pub at_response_new : AtResponse
at_response_new = record { success = 0; final_response = none; intermediates = [] }

-- `acc` is what has been moved to the new list.
unfoldable pub reverse_onto : List Bytes → List Bytes → List Bytes
reverse_onto acc [] = acc
reverse_onto acc (l ∷ ls) = reverse_onto (l ∷ acc) ls

abbrev pub reverse_intermediates : AtResponse → AtResponse
reverse_intermediates r = record r { intermediates = reverse_onto [] r.intermediates }

-- What at_send_command_full_nolock returns, `*pp_outResponse` if that is written, the state, and
-- the events that come later.
pub record AtResult : Type 0 where
  pub err : ℤ
  pub out : Option AtResponse
  pub channel : Channel
  pub events : List AtEvent

-- AT_ERROR_COMMAND_PENDING, AT_ERROR_TIMEOUT, AT_ERROR_INVALID_THREAD, AT_ERROR_INVALID_RESPONSE
abbrev pub at_error_command_pending : ℤ
at_error_command_pending = negsuc 1

abbrev pub at_error_timeout : ℤ
at_error_timeout = negsuc 3

abbrev pub at_error_invalid_thread : ℤ
at_error_invalid_thread = negsuc 4

abbrev pub at_error_invalid_response : ℤ
at_error_invalid_response = negsuc 5

-- The label `error`
abbrev pub finish : ℤ → Option AtResponse → List AtEvent → Channel → Option AtResult
finish err out es ch =
    some (record { err = err; out = out; channel = clear_pending_command ch; events = es })

-- Behind the loop. `wanted`: pp_outResponse is not NULL.
abbrev pub deliver : Bool → AtResponse → List AtEvent → Channel → Option AtResult
deliver wanted r es ch =
    finish (if ltb 0 ch.reader_closed then at_error_channel_closed else pos 0)
      (if wanted then some (reverse_intermediates r) else none) es ch

-- The loop's condition is false.
abbrev pub is_over : AtResponse → Channel → Bool
is_over r ch = elim r.final_response [ none ↦ ltb 0 ch.reader_closed | some line ↦ true ]

-- The test of the loop. `again` is another round.
abbrev pub loop_test : Bool → List AtEvent → Channel → Option AtResult → Option AtResult
loop_test wanted es ch again = elim ch.response [
  | none ↦ none
  | some r ↦ if is_over r ch then deliver wanted r es ch else again
]

module _ (timed wanted : Bool) where
  -- The thread is in the wait. `none`: the events do not suffice, or NULL is read.
  unfoldable pub wait : List AtEvent → Channel → Option AtResult
  unfolding process_line on_reader_closed
  wait [] ch = none
  wait (heard line ∷ es) ch = process_line line ch >>= λ next. wait es next
  wait (ended ∷ es) ch = wait es (on_reader_closed ch)
  wait (closed ∷ es) ch = wait es (at_close ch)
  wait (woken ∷ es) ch = let again = wait es ch in loop_test wanted es ch again
  wait (expired ∷ es) ch =
      let again = wait es ch in
      if timed then finish at_error_timeout none es ch else loop_test wanted es ch again

abbrev pub begin : AtCommandType → CString → CString → Channel → Channel
begin type prefix pdu ch = record ch {
  type = type;
  response_prefix = prefix;
  sms_pdu = pdu;
  response = some at_response_new;
}

abbrev pub issue :
    AtCommandType → CString → CString → Bool → Bool → List AtEvent → ℤ × Channel → Option AtResult
unfolding wait
issue type prefix pdu timed wanted es (err, ch) =
    if is_neg err
    then finish err none es ch
    else let next = begin type prefix pdu ch in loop_test wanted es next (wait timed wanted es next)

module _ (command : Bytes) (type : AtCommandType) (prefix pdu : CString) (timed wanted : Bool) where
  -- `timed`: timeoutMsec is not 0.
  unfoldable pub at_send_command_full_nolock : List AtEvent → Channel → Option AtResult
  unfolding writeline wait
  at_send_command_full_nolock es ch = elim ch.response [
    | some r ↦ finish at_error_command_pending none es ch
    | none ↦ writeline command ch >>= issue type prefix pdu timed wanted es
  ]

  -- `reading`: this is the reader's thread. The second result tells whether s_onTimeout is called.
  unfoldable pub at_send_command_full :
      Bool → Bool → List AtEvent → Channel → Option (AtResult × Bool)
  unfolding at_send_command_full_nolock
  at_send_command_full reading reports es ch =
      if reading
      then some
          (record { err = at_error_invalid_thread; out = none; channel = ch; events = es }, false)
      else at_send_command_full_nolock es ch >>= λ s.
          some (s, reports && (s.err ==ℤ at_error_timeout))

abbrev pub lacks_intermediate : AtResponse → Bool
lacks_intermediate r = ltb 0 r.success && elim r.intermediates [ [] ↦ true | l ∷ ls ↦ false ]

-- A successful command must have an intermediate response.
abbrev pub checked : Option AtResponse → AtResult → AtResult
checked none s = s
checked (some r) s =
    if (s.err ==ℤ pos 0) && lacks_intermediate r
    then record s { err = at_error_invalid_response; out = none }
    else s

unfoldable pub must_answer : AtResult → AtResult
must_answer s = checked s.out s

module _ (command : Bytes) (wanted reading reports : Bool) (es : List AtEvent) (ch : Channel) where
  unfoldable pub at_send_command : Option (AtResult × Bool)
  unfolding at_send_command_full
  at_send_command =
      at_send_command_full command no_result none none false wanted reading reports es ch

  unfoldable pub at_send_command_singleline : Bytes → Option (AtResult × Bool)
  unfolding at_send_command_full must_answer
  at_send_command_singleline prefix =
      at_send_command_full command singleline (some prefix) none false wanted reading reports es ch
      >>= λ (s, called). some (must_answer s, called)

  unfoldable pub at_send_command_numeric : Option (AtResult × Bool)
  unfolding at_send_command_full must_answer
  at_send_command_numeric =
      at_send_command_full command numeric none none false wanted reading reports es ch
      >>= λ (s, called). some (must_answer s, called)

  unfoldable pub at_send_command_sms : Bytes → Bytes → Option (AtResult × Bool)
  unfolding at_send_command_full must_answer
  at_send_command_sms pdu prefix =
      at_send_command_full command singleline (some prefix) (some pdu) false wanted reading reports
        es ch
      >>= λ (s, called). some (must_answer s, called)

  unfoldable pub at_send_command_multiline : Bytes → Option (AtResult × Bool)
  unfolding at_send_command_full
  at_send_command_multiline prefix =
      at_send_command_full command multiline (some prefix) none false wanted reading reports es ch

-- "ATE0Q0V1"
abbrev handshake_command : Bytes
handshake_command = b'A' ∷ b'T' ∷ b'E' ∷ b'0' ∷ b'Q' ∷ b'0' ∷ b'V' ∷ b'1' ∷ []

-- The rounds left
unfoldable pub handshake_rounds : ℕ → ℤ → List AtEvent → Channel → Option AtResult
unfolding at_send_command_full_nolock
handshake_rounds zero err es ch = some (record { err = err; out = none; channel = ch; events = es })
handshake_rounds (suc n) err es ch =
    at_send_command_full_nolock handshake_command no_result none none true false es ch >>= λ s.
    let more = handshake_rounds n s.err s.events s.channel in
    if s.err ==ℤ pos 0 then some s else more

-- HANDSHAKE_RETRY_COUNT is 8.
unfoldable pub at_handshake : Bool → List AtEvent → Channel → Option AtResult
unfolding handshake_rounds
at_handshake reading es ch =
    if reading
    then some (record { err = at_error_invalid_thread; out = none; channel = ch; events = es })
    else handshake_rounds 8 (pos 0) es ch

-- CME_ERROR_NON_CME
abbrev cme_error_non_cme : ℤ
cme_error_non_cme = negsuc 0

abbrev cme_number : ℕ → CString → ℤ
unfolding at_tok_start at_tok_nextint
cme_number long_max line =
    let start = at_tok_start line in
    let number = at_tok_nextint long_max start.cur in
    if start.ok && number.ok
    then elim number.out [ none ↦ cme_error_non_cme | some z ↦ z ]
    else cme_error_non_cme

-- `long_max` is LONG_MAX.
unfoldable pub at_get_cme_error : ℕ → AtResponse → ℤ
unfolding str_starts_with at_tok_start at_tok_nextint
at_get_cme_error long_max r = if ltb 0 r.success then pos 0 else elim r.final_response [
  | none ↦ cme_error_non_cme
  | some line ↦
      if str_starts_with line cme_error then cme_number long_max (some line) else cme_error_non_cme
]
