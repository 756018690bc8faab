-- ===== src/Daemon/Replies.antt =====
-- RIL_onRequestComplete and sendResponse of libril/ril.cpp.
use rild_hisi.Common.{ℕ, ◌||◌, List, Option, none, some, get_elem?, if◌then◌else◌, ◌>>=◌}
use rild_hisi.Common.Int.{ℤ, pos, ◌==ℤ◌}
use rild_hisi.Telephony.Data.{Data}
use rild_hisi.Parcel.{Platform}
use rild_hisi.Dispatch.{RequestInfo}
use rild_hisi.Response.{is_null}
use rild_hisi.Commands.{ResponseFunction, call_response}
use rild_hisi.Commands.Tables.{commands}
use rild_hisi.Socket.{WriteResult, send_response_raw}
use rild_hisi.Daemon.{Daemon, after_send}
use rild_hisi.Daemon.Requests.{check_and_dequeue_request_info}

-- pCI->responseFunction
unfoldable pub response_function_of : RequestInfo → ResponseFunction
unfolding commands
response_function_of info = elim (get_elem? commands info.request_number) [
  | none ↦ ResponseFunction.null
  | some ci ↦ ci.response_function
]

module _ (api : Platform) where
  open api use {Parcel, empty, write_int32, data_position, set_data_position, contents}

  -- The header of a solicited response, up to the position of the error.
  abbrev pub solicited_header : RequestInfo → Parcel
  solicited_header info =
      let p1 = write_int32 (pos 0) empty in
      let p2 = write_int32 (pos info.request_number) p1 in write_int32 info.token p2

  -- The reply: `none` if the response function is undefined on the vendor's answer. A result of the
  -- response function other than 0 is written over the error code.
  unfoldable pub build_reply : ℕ → RequestInfo → ℤ → Data → ℕ → Option Parcel
  unfolding response_function_of
  build_reply version info e response len =
      let p3 = solicited_header info in
      let p4 = write_int32 e p3 in
      if is_null response
      then some (write_int32 (pos 0) (write_int32 (pos 0) p4))
      else call_response api (response_function_of info) version p4 response len >>= λ (ret, p5).
          some (
            if ret ==ℤ pos 0 then p5 else write_int32 ret (set_data_position (data_position p3) p5))

  -- sendResponse
  abbrev pub send_response : Daemon → List WriteResult → Parcel → Daemon
  send_response d ws p = after_send d (send_response_raw d.fd_command ws (contents p))

  -- A token that is not in the list is reported and otherwise ignored; a local request and a
  -- cancelled one are only freed.
  unfoldable pub on_request_complete : Daemon → List WriteResult → ℕ → ℤ → Data → ℕ → Option Daemon
  on_request_complete d ws id e response len = elim (check_and_dequeue_request_info id d.pending) [
    | none ↦ some d
    | some (info, rest) ↦
        let d' = record d { pending = rest } in
        if info.local || info.cancelled
        then some d'
        else build_reply d.version info e response len >>= λ p. some (send_response d' ws p)
  ]
