-- ===== src/Daemon/Requests.antt =====
-- processCommandBuffer, issueLocalRequest, checkAndDequeueRequestInfo, onCommandsSocketClosed,
-- processCommandsCallback of libril/ril.cpp.
use rild_hisi.Common.{
  ℕ, zero, suc, Bool, true, false, not, List, [], ◌∷◌, Option, none, some, ◌==◌, get_elem?, map,
  if◌then◌else◌,
}
use rild_hisi.Common.Int.{ℤ, pos, negsuc}
use rild_hisi.Telephony.{Bytes}
use rild_hisi.Telephony.Data.{Data}
use rild_hisi.Parcel.{Platform}
use rild_hisi.Dispatch.{RequestInfo, Outcome, on_request, fault, next_int32, start}
use rild_hisi.Commands.{CommandInfo, call_dispatch}
use rild_hisi.Commands.Tables.{commands}
use rild_hisi.Daemon.{Daemon}

-- The row of a request, if 1 <= request < NUM_ELEMS(s_commands).
unfoldable pub command_of : ℤ → Option CommandInfo
unfolding commands
command_of (negsuc n) = none
command_of (pos zero) = none
command_of (pos (suc n)) = get_elem? commands (suc n)

-- A new request in front of the list.
abbrev pub enqueue : RequestInfo → Daemon → Daemon
enqueue info d = record d { pending = info ∷ d.pending }

module _ (api : Platform) where
  open api use {uninit, set_data}

  abbrev dispatch_command :
      Daemon → RequestInfo → CommandInfo → api.Parcel → Daemon × Option Outcome
  dispatch_command d info ci p =
      (enqueue info d, some (call_dispatch api ci.dispatch_function d.version p info))

  -- `id` is the address that calloc returns. The second part is what the dispatch function does, if
  -- one is called.
  unfoldable pub process_command_buffer : Daemon → ℕ → Bytes → Daemon × Option Outcome
  process_command_buffer d id buffer =
      let c1 = next_int32 api (start api (set_data buffer)) in
      let c2 = next_int32 api (record c1 { t = uninit }) in
      let request = c1.t in
      if not c2.no_error then (d, none) else elim (command_of request) [
        | none ↦ (d, none)
        | some ci ↦
            dispatch_command d
              (record {
                id = id;
                token = c2.t;
                request_number = ci.request_number;
                cancelled = false;
                local = false;
              })
              ci c2.rest
      ]

-- A request of libril itself; `request` is an index of s_commands.
unfoldable pub issue_local_request : Daemon → ℕ → ℕ → Data → ℕ → Daemon × Outcome
issue_local_request d id request bytes len = elim (get_elem? commands request) [
  | none ↦ (d, fault)
  | some ci ↦
      let info : RequestInfo = record {
        id = id;
        token = pos 4294967295;
        request_number = ci.request_number;
        cancelled = false;
        local = true;
      } in
      (enqueue info d, on_request request bytes len info)
]

abbrev pub cons_rest :
    RequestInfo → Option (RequestInfo × List RequestInfo) → Option (RequestInfo × List RequestInfo)
cons_rest r none = none
cons_rest r (some (x, rs)) = some (x, r ∷ rs)

-- The loop: the first entry at the address `id`, and the list without it.
unfoldable pub dequeue : ℕ → List RequestInfo → Option (RequestInfo × List RequestInfo)
dequeue id [] = none
dequeue id (r ∷ rs) = if r.id == id then some (r, rs) else cons_rest r (dequeue id rs)

-- `none` for the result 0; the address 0 is NULL.
unfoldable pub check_and_dequeue_request_info :
    ℕ → List RequestInfo → Option (RequestInfo × List RequestInfo)
unfolding dequeue
check_and_dequeue_request_info id rs = if id == 0 then none else dequeue id rs

abbrev pub cancel : RequestInfo → RequestInfo
cancel r = record r { cancelled = true }

unfoldable pub on_commands_socket_closed : Daemon → Daemon
on_commands_socket_closed d = record d { pending = map cancel d.pending }

-- What record_stream_get_next answers: a record, the end of the stream, nothing for now (EAGAIN or
-- EINTR), another error. With a record goes the address of its request.
pub data StreamRead : Type 0 where
  record_read : ℕ → Bytes → StreamRead
  end_of_stream would_block stream_error : StreamRead

-- close(s_fdCommand) and what follows; the event loop's part is in Events.
unfoldable pub close_command_socket : Daemon → Daemon
unfolding on_commands_socket_closed
close_command_socket d = on_commands_socket_closed (record d { fd_command = negsuc 0 })

-- The loop over the answers of the stream. It stops at the first that is no record; `none` in the
-- second part means that it still waits for an answer, and otherwise it tells whether the socket
-- was closed.
unfoldable pub process_commands_callback :
    Platform → List StreamRead → Daemon → Daemon × Option Bool
unfolding process_command_buffer close_command_socket
process_commands_callback api [] d = (d, none)
process_commands_callback api (record_read id buffer ∷ rs) d =
    process_commands_callback api rs (process_command_buffer api d id buffer).0
process_commands_callback api (end_of_stream ∷ rs) d = (close_command_socket d, some true)
process_commands_callback api (would_block ∷ rs) d = (d, some false)
process_commands_callback api (stream_error ∷ rs) d = (close_command_socket d, some true)
