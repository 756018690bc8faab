-- ===== src/Examples/Connection.antt =====
-- The stream to the command process and the state of the daemon, on concrete inputs.
use rild_hisi.Common.{◌≤◌, ◌≡◌, refl, true, false, List, [], ◌∷◌, ◌++◌, none, some, arith}
use rild_hisi.Common.Int.{pos, negsuc}
use rild_hisi.Telephony.{Bytes, unsol_nitz_time_received}
use rild_hisi.Telephony.Data
use rild_hisi.Parcel.Typed.{typed, typed_laws}
use rild_hisi.Commands.{UnsolResponseInfo, ResponseFunction, call_response, wake_partial}
use rild_hisi.Commands.Tables.{unsol_responses}
use rild_hisi.Socket.{WriteResult, wrote, interrupted, blocking_write, send_response_raw}
use rild_hisi.Socket.Framing.{
  accepted, blocking_write-terminates, split_packet, split_packet-send_response_raw,
}
use rild_hisi.Daemon.{Daemon}
use rild_hisi.Daemon.Requests.{
  process_command_buffer, dequeue, check_and_dequeue_request_info, close_command_socket,
}
use rild_hisi.Daemon.Replies.{on_request_complete, build_reply}
use rild_hisi.Daemon.Unsolicited.{
  Env, unsol_response_of, more_payload, send_unsolicited, schedule_wake_timeout,
  on_unsolicited_response, user_timer_callback,
}
use rild_hisi.Daemon.Pending.{IsDistinct, complete_twice}
use rild_hisi.Daemon.Overlap.{schedule_together, first_timeout, schedule_together-live_count}
use rild_hisi.Daemon.Received.{Processed, process_command_buffer-Processed}
use rild_hisi.Daemon.Callbacks.{live_count}
use rild_hisi.Daemon.Wake.{WakeStep, WakeReach, WakeInv, Released, WakeReach-live_count}
use rild_hisi.Daemon.Nitz.{nitz_items, on_unsolicited_response_nitz_kept}
use rild_hisi.Response.{response_void}
use rild_hisi.Response.Written.{Holds}
use rild_hisi.Examples.{a_request}

-- Two short writes and an interruption.
abbrev answers : List WriteResult
answers = wrote 4 ∷ wrote 2 ∷ interrupted ∷ wrote 9 ∷ []

split_packet_example :
    split_packet ((send_response_raw (pos 3) answers (5 ∷ 6 ∷ 7 ∷ [])).bytes ++ 9 ∷ [])
    ≡ some (5 ∷ 6 ∷ 7 ∷ [], 9 ∷ [])
unfolding send_response_raw blocking_write
split_packet_example = split_packet-send_response_raw (pos 3) answers (5 ∷ 6 ∷ 7 ∷ []) (9 ∷ []) refl

blocking_write_example :
    (blocking_write answers (1 ∷ 2 ∷ 3 ∷ 4 ∷ 5 ∷ 6 ∷ 7 ∷ [])).ret ≡ some (pos 0)
unfolding accepted
blocking_write_example =
    blocking_write-terminates answers (1 ∷ 2 ∷ 3 ∷ 4 ∷ 5 ∷ 6 ∷ 7 ∷ []) (omega arith)

-- Registered, with two requests pending and a command process connected.
abbrev busy : Daemon
busy = record {
  version = 3;
  register_called = true;
  fd_command = pos 5;
  pending = a_request 11 ∷ record (a_request 19) { id = 8192 } ∷ [];
  last_nitz_time_data = none;
  last_wake_timeout_info = none;
  callbacks = [];
  sent = [];
  wake_lock = false;
}

abbrev plenty : List WriteResult
plenty = wrote 100 ∷ wrote 100 ∷ wrote 100 ∷ wrote 100 ∷ []

abbrev answered : Daemon
answered = record busy {
  pending = a_request 11 ∷ [];
  sent = 0 ∷ 0 ∷ 0 ∷ 12 ∷ 0 ∷ 0 ∷ 0 ∷ 19 ∷ 0 ∷ 7 ∷ 0 ∷ 0 ∷ 0 ∷ 0 ∷ 0 ∷ 0 ∷ [];
}

busy-IsDistinct : IsDistinct busy.pending
busy-IsDistinct = (
  (λ e. absurd (omega arith)),
  ((λ e. absurd (omega arith)), tt),
  ((λ e. absurd (omega arith)), tt, tt),
)

answer : on_request_complete typed busy plenty 8192 (pos 0) Data.null 0 ≡ some answered
unfolding on_request_complete check_and_dequeue_request_info dequeue build_reply send_response_raw
    blocking_write typed
answer = refl

complete_twice_example :
    on_request_complete typed answered plenty 8192 (pos 1) Data.null 0 ≡ some answered
complete_twice_example =
    complete_twice typed busy answered plenty plenty 8192 (pos 0) (pos 1) Data.null Data.null 0 0
      busy-IsDistinct answer

abbrev reconnected : Daemon
reconnected = record (close_command_socket busy) { fd_command = pos 6 }

-- RIL_REQUEST_GET_CURRENT_CALLS with the token 3.
abbrev get_current_calls : Bytes
get_current_calls = 0 ∷ 9 ∷ 0 ∷ 3 ∷ []

process_command_buffer-Processed_example :
    Processed typed_laws busy 12288
      (pos 9)
      (pos 3)
      []
      (process_command_buffer typed busy 12288 get_current_calls)
unfolding typed typed_laws
process_command_buffer-Processed_example =
    process_command_buffer-Processed typed_laws busy 12288 (pos 9) (pos 3) get_current_calls [] refl

abbrev nitz_row : UnsolResponseInfo
nitz_row = record {
  request_number = 1008;
  response_function = ResponseFunction.string;
  wake_type = wake_partial;
}

-- What the environment answers to one unsolicited response.
abbrev env : Env
env = record { writes = plenty; elapsed_real_time = pos 60; radio_state = pos 10; new_address = 64 }

abbrev woken : Daemon
woken = record busy {
  last_wake_timeout_info = some 64;
  callbacks = record { id = 64; wake = true; user_param = false } ∷ [];
  sent = 0 ∷ 0 ∷ 0 ∷ 4 ∷ 0 ∷ 1 ∷ 0 ∷ 1001 ∷ [];
  wake_lock = true;
}

WakeReach-live_count_example : (live_count woken.callbacks ≤ 1) × Released typed woken
unfolding on_unsolicited_response unsol_response_of more_payload send_unsolicited
    schedule_wake_timeout unsol_responses call_response send_response_raw blocking_write
    response_void typed
WakeReach-live_count_example =
    WakeReach-live_count typed busy woken refl refl
      (WakeReach.next WakeReach.here (WakeStep.unsolicited env (pos 1001) Data.null 0 tt refl))

busy-WakeInv : WakeInv busy
busy-WakeInv = record { apart = tt; only_last = tt; held = λ e. absurd (cc) }

schedule_together-live_count_example :
    let d = schedule_together 64 128 busy in
    (live_count d.callbacks ≡ 2)
    × ((user_timer_callback (first_timeout 64) d).wake_lock ≡ false)
    × (live_count (user_timer_callback (first_timeout 64) d).callbacks ≡ 1)
schedule_together-live_count_example =
    schedule_together-live_count 64 128 busy (λ e. absurd (omega arith)) busy-WakeInv

abbrev unconnected : Daemon
unconnected = record busy { fd_command = negsuc 0 }

nitz_kept_example :
    (d' : Daemon) × (w : typed.Parcel) × (on_unsolicited_response typed unconnected env
        (pos unsol_nitz_time_received)
        (Data.text (48 ∷ 56 ∷ []))
        2
      ≡ some d')
    × (d'.last_nitz_time_data ≡ some (typed.contents w))
    × (d'.sent ≡ [])
    × Holds typed_laws w (nitz_items typed (48 ∷ 56 ∷ []) (pos 60))
nitz_kept_example =
    on_unsolicited_response_nitz_kept typed_laws unconnected env (48 ∷ 56 ∷ []) 2 refl refl
