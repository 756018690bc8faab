-- ===== src/Examples/CallList.antt =====
-- The lists of the reference vendor library on concrete inputs.
use rild_hisi.Common.{◌^◌, ◌≡◌, refl, true, false, List, [], ◌∷◌, some, arith, All, map, codes}
use rild_hisi.Common.Int.{pos, negsuc}
use rild_hisi.Telephony.{Bytes}
use rild_hisi.ReferenceRil.CallLines.{Listed, IsListed, listed_call}
use rild_hisi.ReferenceRil.CallList.{
  CallsState, CallsReply, empty_call, need_repoll, incoming_or_waiting, request_get_current_calls,
}
use rild_hisi.ReferenceRil.Lists.{request_port_list, request_pdp_addr, request_dhcp_info}
use rild_hisi.ReferenceRil.Completing.{IsCompleted, request_lists-IsCompleted}
use rild_hisi.ReferenceRil.Polling.{
  clcc_line, is_refused, Counts, request_get_current_calls-listed_call,
  request_get_current_calls-Counts,
}
use rild_hisi.AtChannel.Commands.{AtResponse}
use rild_hisi.AtTok.Fields.{Lacks}

abbrev ok_line : Bytes
ok_line = b'O' ∷ b'K' ∷ []

abbrev clcc_prefix : Bytes
clcc_prefix = b'+' ∷ b'C' ∷ b'L' ∷ b'C' ∷ b'C' ∷ []

-- An incoming call from "+12", and an active one from "3"
abbrev two_calls : List Listed
two_calls =
    record {
      index = pos 1;
      is_mt = true;
      state = 4;
      mode = pos 0;
      is_mpty = false;
      number = b'+' ∷ b'1' ∷ b'2' ∷ [];
      toa = pos 145;
      spaces = 1;
    }
    ∷ record {
      index = pos 2;
      is_mt = false;
      state = 0;
      mode = pos 1;
      is_mpty = true;
      number = b'3' ∷ [];
      toa = pos 129;
      spaces = 0;
    }
    ∷ []

two_calls-IsListed : All IsListed two_calls
two_calls-IsListed = (
  (
    omega arith,
    omega arith,
    omega arith,
    ((λ e. omega arith), ((λ e. omega arith), ((λ e. omega arith), tt))),
    omega arith,
  ),
  ((omega arith, omega arith, omega arith, ((λ e. omega arith), tt), omega arith), tt),
)

abbrev calls_state : CallsState
calls_state = record {
  incoming_or_waiting_line = negsuc 0;
  expect_answer = pos 0;
  repoll_calls_count = 4;
}

abbrev calls_response : AtResponse
calls_response = record {
  success = 1;
  final_response = some ok_line;
  intermediates = map (clcc_line clcc_prefix) two_calls;
}

abbrev calls_reply : CallsReply
calls_reply = record {
  error = 0;
  calls = map (λ l. listed_call l empty_call) two_calls;
  repolls = true;
  state = record {
    incoming_or_waiting_line = pos 1;
    expect_answer = pos 0;
    repoll_calls_count = 0;
  };
}

clcc_prefix-Lacks : Lacks b':' clcc_prefix
clcc_prefix-Lacks = (
  (λ e. omega arith),
  ((λ e. omega arith), ((λ e. omega arith), ((λ e. omega arith), ((λ e. omega arith), tt)))),
)

request_get_current_calls-listed_call_example :
    request_get_current_calls (2 ^ 63) (pos 0) (some calls_response) calls_state ≡ some calls_reply
unfolding need_repoll incoming_or_waiting
request_get_current_calls-listed_call_example =
    request_get_current_calls-listed_call (2 ^ 63) clcc_prefix two_calls 0 (some ok_line)
      calls_state (omega arith) clcc_prefix-Lacks two_calls-IsListed refl

-- An incoming call that was not answered is active now.
abbrev turned_state : CallsState
turned_state = record {
  incoming_or_waiting_line = pos 1;
  expect_answer = pos 0;
  repoll_calls_count = 3;
}

abbrev turned_response : AtResponse
turned_response = record {
  success = 1;
  final_response = some ok_line;
  intermediates = codes "+CLCC: 1,0,0,0,0" ∷ [];
}

abbrev withheld : CallsReply
withheld = record {
  error = 2;
  calls = [];
  repolls = false;
  state = record {
    incoming_or_waiting_line = negsuc 0;
    expect_answer = pos 0;
    repoll_calls_count = 4;
  };
}

request_get_current_calls-Counts_example :
    Counts (is_refused (pos 0) (some turned_response)) 3 withheld
unfolding request_get_current_calls
request_get_current_calls-Counts_example =
    request_get_current_calls-Counts (2 ^ 63) (pos 0) (some turned_response) turned_state
      {reply = withheld} refl

-- "+CGPADDR: 1"
abbrev addr_response : AtResponse
addr_response = record {
  success = 1;
  final_response = some ok_line;
  intermediates = (b'+' ∷ b'C' ∷ b':' ∷ b' ' ∷ b'1' ∷ []) ∷ [];
}

request_lists-IsCompleted_example :
    IsCompleted 1 (request_port_list (pos 0) (some addr_response))
    × IsCompleted 1 (request_pdp_addr (pos 0) (some addr_response))
    × IsCompleted 1 (request_dhcp_info (pos 0) (some addr_response))
request_lists-IsCompleted_example = request_lists-IsCompleted (pos 0) (some addr_response)
