-- ===== src/ReferenceRil/CallList.antt =====
-- requestGetCurrentCalls of reference-ril/reference-ril.c. What at_send_command_multiline answers is an
-- argument. WORKAROUND_ERRONEOUS_ANSWER is defined.
use rild_hisi.Common.{
  ℕ, suc, Bool, true, false, not, ◌&&◌, ◌||◌, List, [], ◌∷◌, Option, none, some, ◌==◌, ltb,
  if◌then◌else◌,
}
use rild_hisi.Common.Int.{ℤ, pos, negsuc, is_neg, ◌==ℤ◌}
use rild_hisi.Telephony.{Bytes, Call}
use rild_hisi.AtChannel.Commands.{AtResponse}
use rild_hisi.ReferenceRil.Calls.{call_from_clcc_line}

-- The statics s_incomingOrWaitingLine, s_expectAnswer and s_repollCallsCount.
pub record CallsState : Type 0 where
  pub incoming_or_waiting_line : ℤ
  pub expect_answer : ℤ
  pub repoll_calls_count : ℕ

-- REPOLL_CALLS_COUNT_MAX
abbrev pub repoll_calls_count_max : ℕ
repoll_calls_count_max = 4

-- The error and the calls of RIL_onRequestComplete, and whether sendCallStateChanged is requested.
pub record CallsReply : Type 0 where
  pub error : ℕ
  pub calls : List Call
  pub repolls : Bool
  pub state : CallsState

-- What memset leaves
abbrev pub empty_call : Call
empty_call = record {
  state = pos 0;
  index = pos 0;
  toa = pos 0;
  is_mpty = pos 0;
  is_mt = pos 0;
  als = pos 0;
  is_voice = pos 0;
  is_voice_privacy = pos 0;
  number = none;
  number_presentation = pos 0;
  name = none;
  name_presentation = pos 0;
  uus_info = none;
}

-- The lines that are calls. A line that is none leaves what it has written in the slot of the next.
unfoldable pub valid_calls : ℕ → Call → List Bytes → List Call
unfolding call_from_clcc_line
valid_calls long_max slot [] = []
valid_calls long_max slot (line ∷ lines) =
    let (ok, c) = call_from_clcc_line long_max (some line) slot in
    let taken = valid_calls long_max empty_call lines in
    let left = valid_calls long_max c lines in if ok then c ∷ taken else left

-- The last call that is incoming or waiting, or else the line given.
unfoldable pub incoming_or_waiting : ℤ → List Call → ℤ
incoming_or_waiting line [] = line
incoming_or_waiting line (c ∷ cs) =
    incoming_or_waiting (if c.state ==ℤ pos 4 || c.state ==ℤ pos 5 then c.index else line) cs

-- A call is neither active nor holding.
unfoldable pub need_repoll : List Call → Bool
need_repoll [] = false
need_repoll (c ∷ cs) =
    let rest = need_repoll cs in if c.state ==ℤ pos 0 || c.state ==ℤ pos 1 then rest else true

-- The call at the index is active.
unfoldable pub turned_active : ℤ → List Call → Bool
turned_active line [] = false
turned_active line (c ∷ cs) =
    let rest = turned_active line cs in if c.index ==ℤ line && c.state ==ℤ pos 0 then true else rest

-- RIL_E_GENERIC_FAILURE
abbrev pub generic_failure : CallsState → CallsReply
generic_failure s = record { error = 2; calls = []; repolls = false; state = s }

-- The reply to the calls that are listed; `prev` is the line that was incoming or waiting.
unfoldable pub reply_calls : ℤ → List Call → CallsState → CallsReply
unfolding incoming_or_waiting need_repoll turned_active
reply_calls prev calls s =
    let line = incoming_or_waiting (negsuc 0) calls in
    if not (is_neg prev)
      && is_neg line
      && s.expect_answer ==ℤ pos 0
      && turned_active prev calls
      && ltb s.repoll_calls_count repoll_calls_count_max
    then generic_failure (record s {
      incoming_or_waiting_line = line;
      repoll_calls_count = suc s.repoll_calls_count;
    })
    else record {
      error = 0;
      calls = calls;
      repolls = need_repoll calls;
      state = record {
        incoming_or_waiting_line = line;
        expect_answer = pos 0;
        repoll_calls_count = 0;
      };
    }

-- `none`: the command returned 0 without a response, and NULL is read.
unfoldable pub request_get_current_calls :
    ℕ → ℤ → Option AtResponse → CallsState → Option CallsReply
unfolding valid_calls reply_calls
request_get_current_calls long_max err response s =
    let failed = generic_failure (record s { incoming_or_waiting_line = negsuc 0 }) in
    if not (err ==ℤ pos 0) then some failed else elim response [
      | none ↦ none
      | some r ↦
          if r.success == 0
          then some failed
          else some (
              reply_calls s.incoming_or_waiting_line
                (valid_calls long_max empty_call r.intermediates) s)
    ]
