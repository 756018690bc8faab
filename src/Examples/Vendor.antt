-- ===== src/Examples/Vendor.antt =====
-- The requests of the reference vendor library on concrete inputs.
use rild_hisi.Common.{
  ◌^◌, ◌≡◌, ◌++◌, refl, true, false, List, [], ◌∷◌, none, some, arith, map, codes, replicate, inl,
}
use rild_hisi.Common.Int.{pos, negsuc}
use rild_hisi.Telephony.{Bytes}
use rild_hisi.Telephony.Data
use rild_hisi.Parcel.Typed.{typed}
use rild_hisi.AtTok.{at_tok_start, at_tok_nextint}
use rild_hisi.AtTok.Decimal.{print}
use rild_hisi.AtTok.Fields.{print_int}
use rild_hisi.AtChannel.Commands.Sending.{AtResult, at_send_command_singleline, reverse_onto}
use rild_hisi.AtChannel.Commands.Sorting.{answers_of}
use rild_hisi.Socket.{wrote}
use rild_hisi.AtChannel.Commands.{
  is_final_response_success, is_final_response_error, Channel, writeline, no_result, singleline,
  multiline, AtResponse,
}
use rild_hisi.AtChannel.Reader.{received}
use rild_hisi.AtChannel.ReaderLoop.{reader_loop}
use rild_hisi.ReferenceRil.Query.{Command, Host, and_then}
use rild_hisi.ReferenceRil.State.{Ril, Completed, settle}
use rild_hisi.ReferenceRil.Radio.{set_radio_state}
use rild_hisi.ReferenceRil.RadioStates.{Returns, Moves, set_radio_state-Returns}
use rild_hisi.ReferenceRil.RadioRuns.{powered, radio_event, radio_event-Moves}
use rild_hisi.ReferenceRil.OnRequest.{on_request}
use rild_hisi.ReferenceRil.Answering.{Outcome}
use rild_hisi.ReferenceRil.Answered.{on_request-Completes}
use rild_hisi.Examples.{a_request}
use rild_hisi.ReferenceRil.Marshalling.{EachMarshals}
use rild_hisi.ReferenceRil.Payloads.{HasSizes}
use rild_hisi.ReferenceRil.Marshalled.{on_request-Marshals}
use rild_hisi.ReferenceRil.OnUnsolicited.{on_unsolicited}
use rild_hisi.ReferenceRil.ShortMessages.{arrived_message-undefined}
use rild_hisi.ReferenceRil.DataCalls.{fresh_data_call, request_data_call_list}
use rild_hisi.ReferenceRil.DataCallList.{
  Context, context_text, context_command, Reports, request_data_call_list-contexts,
}
use rild_hisi.ReferenceRil.Network.{request_registration_state}
use rild_hisi.ReferenceRil.Registration.{located_with_n, report_text, registration_of}
use rild_hisi.ReferenceRil.Registered.{registered, request_registration_state-report}
use rild_hisi.ReferenceRil.Refused.{request_registration_state_refused}

-- A modem that answers every command with an error
abbrev error_response : AtResponse
error_response = record { success = 0; final_response = some (codes "ERROR"); intermediates = [] }

abbrev refusing : Host
refusing = record {
  answer = λ sent. (pos 0, some error_response);
  long_max = 2 ^ 63;
  platform = typed;
}

abbrev switched_off : Ril
switched_off = record {
  radio = 0;
  closed = 0;
  calls = record {
    incoming_or_waiting_line = negsuc 0;
    expect_answer = pos 0;
    repoll_calls_count = 0;
  };
  sent = [];
  completions = [];
  unsolicited = [];
  timed = [];
}

abbrev ready : Ril
ready = record switched_off { radio = 4 }

-- The request for the signal strength
on_request-Completes_example : Outcome 1 2 7 ready (on_request refusing 19 Data.null 0 none 7 ready)
on_request-Completes_example = on_request-Completes refusing 7 19 Data.null 0 none ready

set_radio_state-Returns_example : Returns 0 4 (set_radio_state refusing 2 2 switched_off)
set_radio_state-Returns_example = set_radio_state-Returns refusing 0 2 switched_off

radio_event-Moves_example :
    Moves 0 (radio_event refusing (powered (Data.ints (pos 1 ∷ [])) 8 7) switched_off)
radio_event-Moves_example =
    radio_event-Moves refusing (powered (Data.ints (pos 1 ∷ [])) 8 7) switched_off
      (inl refl, inl refl)

abbrev message_line : Bytes
message_line = codes "+CMT: 1"

abbrev listening : Channel
listening = record {
  fd = pos 3;
  reader_closed = 0;
  type = no_result;
  response_prefix = none;
  sms_pdu = none;
  response = none;
  handles = true;
  unsolicited = [];
  notifies = true;
  closings = 0;
  signals = 0;
  answers = [];
  written = [];
}

abbrev heard_message : Channel
heard_message = record listening {
  reader_closed = 1;
  unsolicited = (message_line, none) ∷ [];
  closings = 1;
  signals = 1;
}

arrived_message-undefined_example : on_unsolicited refusing message_line none ready ≡ none
unfolding reader_loop
arrived_message-undefined_example =
    arrived_message-undefined refusing 20 3
      (received (message_line ++ b'\r' ∷ b'\n' ∷ []) ∷ received [] ∷ [])
      (record { buffer = replicate 21 0; cur = 0 }) listening {ch' = heard_message} [] []
      message_line none ready tt refl refl (codes " 1", inl refl) refl

-- Two contexts, the first of them active
abbrev two_contexts : List Context
two_contexts =
    record { cid = pos 1; active = pos 1; spaces = 1 }
    ∷ record { cid = pos 2; active = pos 0; spaces = 0 }
    ∷ []

abbrev contexts_response : AtResponse
contexts_response = record {
  success = 1;
  final_response = some (codes "OK");
  intermediates = map context_text two_contexts;
}

abbrev listing : Host
listing = record refusing {
  answer = λ sent. elim sent [
    | [] ↦ (pos 0, none)
    | c ∷ before ↦ elim before [
      | [] ↦ (pos 0, some contexts_response)
      | b ∷ earlier ↦ (pos 0, some (record contexts_response { intermediates = [] }))
    ]
  ];
}

-- at_send_command_multiline ("AT+CGDCONT?", "+CGDCONT:", &p_response)
abbrev detail_command : Command
detail_command = record {
  type = multiline;
  text = codes "AT+CGDCONT?";
  prefix = some (codes "+CGDCONT:");
  pdu = none;
  wanted = true;
}

abbrev contexts_listed : Completed
contexts_listed = record {
  token = 7;
  error = 0;
  response =
      Data.data_calls (fresh_data_call (pos 1) (pos 1) ∷ fresh_data_call (pos 2) (pos 0) ∷ []);
  length = 64;
}

abbrev after_listing : Ril
after_listing = record ready {
  sent = detail_command ∷ context_command ∷ [];
  completions = contexts_listed ∷ [];
}

request_data_call_list-contexts_example :
    (c : Completed) × (after_listing.completions ≡ c ∷ [])
    × Reports 7 ((pos 1, pos 1) ∷ (pos 2, pos 0) ∷ []) c
unfolding request_data_call_list settle and_then at_tok_start at_tok_nextint print_int print typed
request_data_call_list-contexts_example =
    request_data_call_list-contexts listing (omega arith) 7 two_contexts contexts_response ready
      {w' = after_listing} ((omega arith, omega arith), ((omega arith, omega arith), tt)) refl refl
      refl refl

-- A channel to which "AT+CREG?" can be written
abbrev writable : Channel
writable = record listening { answers = wrote 8 ∷ wrote 1 ∷ [] }

abbrev asked : Channel
asked = record writable { answers = []; written = codes "AT+CREG?\r" }

abbrev refused_result : AtResult
refused_result = record {
  err = pos 0;
  out = some error_response;
  channel = record asked { type = singleline; signals = 1 };
  events = [];
}

request_registration_state_refused_example : request_registration_state refusing 20 7 ready ≡ none
unfolding writeline answers_of is_final_response_success is_final_response_error
    at_send_command_singleline reverse_onto
request_registration_state_refused_example =
    request_registration_state_refused refusing 20 7 [] (codes "ERROR") [] writable {sent = asked}
      true {s = refused_result} {called = false} ready (inl refl) refl refl refl tt refl refl refl
      refl refl

-- "+CREG: 2, 1, 1a2b, c"
abbrev registration_response : AtResponse
registration_response = record {
  success = 1;
  final_response = some (codes "OK");
  intermediates =
      (codes "+CREG" ++ b':' ∷ report_text 1 (located_with_n (pos 2) (pos 1) (pos 6699) (pos 12)))
      ∷ [];
}

abbrev registering : Host
registering = record refusing {
  answer = λ sent. (pos 0, some registration_response);
  long_max = 2147483647;
}

request_registration_state-report_example :
    request_registration_state registering 20 7 ready
    ≡ some (
        registered registering 20 7
          (registration_of (located_with_n (pos 2) (pos 1) (pos 6699) (pos 12)))
          ready)
request_registration_state-report_example =
    request_registration_state-report registering (omega arith) 1 20 7 (codes "+CREG")
      (located_with_n (pos 2) (pos 1) (pos 6699) (pos 12)) [] registration_response ready (inl refl)
      (
        (λ e. omega arith),
        ((λ e. omega arith), ((λ e. omega arith), ((λ e. omega arith), ((λ e. omega arith), tt)))),
      )
      (omega arith, omega arith, (omega arith, omega arith), (omega arith, omega arith)) refl refl

typed-HasSizes : HasSizes typed
unfolding typed
typed-HasSizes = record {
  int = λ e. absurd (omega arith);
  ptr = λ e. absurd (omega arith);
  int_ptr = omega arith;
  signal_strength = λ e. absurd (omega arith);
  data_call = λ e. absurd (omega arith);
}

-- The card status, to which the modem answers with an error
on_request-Marshals_example :
    EachMarshals typed 6 (a_request 1) (on_request refusing 1 Data.null 0 none 7 ready)
on_request-Marshals_example =
    on_request-Marshals refusing typed-HasSizes 6 (a_request 1) 7 Data.null 0 none ready
      (λ e. absurd (ground arith)) refl
