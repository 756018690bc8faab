-- ===== src/Daemon/Unsolicited.antt =====
-- RIL_onUnsolicitedResponse, internalRequestTimedCallback, userTimerCallback, wakeTimeoutCallback,
-- onNewCommandConnect and RIL_register of libril/ril.cpp.
use rild_hisi.Common.{
  ℕ, ◌-◌, Bool, true, false, not, ◌&&◌, List, [], ◌∷◌, Option, none, some, ◌==◌, ltb, get_elem?,
  if◌then◌else◌, ◌>>=◌,
}
use rild_hisi.Common.Int.{ℤ, pos, negsuc, ◌==ℤ◌}
use rild_hisi.Telephony.{
  ril_version, unsol_response_base, unsol_response_radio_state_changed, unsol_nitz_time_received,
}
use rild_hisi.Telephony.Data.{Data}
use rild_hisi.Parcel.{Platform}
use rild_hisi.Commands.{UnsolResponseInfo, WakeType, dont_wake, wake_partial, call_response}
use rild_hisi.Commands.Tables.{unsol_responses}
use rild_hisi.Socket.{WriteResult, send_response_raw}
use rild_hisi.Daemon.{Daemon, UserCallbackInfo, after_send}

-- The row of an unsolicited response, if its index is in the table.
unfoldable pub unsol_response_of : ℤ → Option UnsolResponseInfo
unfolding unsol_responses
unsol_response_of (negsuc n) = none
unsol_response_of (pos n) =
    if ltb n unsol_response_base then none else get_elem? unsol_responses (n - unsol_response_base)

-- The callback `id` gets the parameter 1.
unfoldable pub set_user_param : ℕ → List UserCallbackInfo → List UserCallbackInfo
set_user_param id [] = []
set_user_param id (c ∷ cs) =
    (if c.id == id then record c { user_param = true } else c) ∷ set_user_param id cs

-- A timed callback at the new address `id`, set up by the event loop.
unfoldable pub internal_request_timed_callback : ℕ → Bool → Bool → Daemon → Daemon
internal_request_timed_callback id wake user_param d = record d {
  callbacks = record { id = id; wake = wake; user_param = user_param } ∷ d.callbacks;
}

abbrev pub cancel_wake_timeout : Option ℕ → List UserCallbackInfo → List UserCallbackInfo
cancel_wake_timeout none cs = cs
cancel_wake_timeout (some last) cs = set_user_param last cs

abbrev pub cancel_previous : Daemon → Daemon
cancel_previous d = record d {
  callbacks = cancel_wake_timeout d.last_wake_timeout_info d.callbacks;
}

abbrev pub start_wake_timeout : ℕ → Daemon → Daemon
start_wake_timeout id d = record (internal_request_timed_callback id true false d) {
  last_wake_timeout_info = some id;
}

-- Behind the send: the previous wake timeout is cancelled and a new one started. No mutex is held.
unfoldable pub schedule_wake_timeout : ℕ → Daemon → Daemon
unfolding set_user_param internal_request_timed_callback
schedule_wake_timeout id d = start_wake_timeout id (cancel_previous d)

-- What the environment gives to one call: the answers of `write`, the clock, the answer of
-- onStateRequest, the address that malloc returns.
pub record Env : Type 0 where
  pub writes : List WriteResult
  pub elapsed_real_time : ℤ
  pub radio_state : ℤ
  pub new_address : ℕ

abbrev is_error : Option ℤ → Bool
is_error none = false
is_error (some e) = not (e ==ℤ pos 0)

module _ (api : Platform) where
  open api use {Parcel, empty, write_int32, write_int64, contents}

  -- "some things get more payload"
  unfoldable pub more_payload : Env → ℤ → Parcel → Parcel
  more_payload env unsol p =
      if unsol ==ℤ pos unsol_response_radio_state_changed
      then write_int32 env.radio_state p
      else if unsol ==ℤ pos unsol_nitz_time_received
      then write_int64 env.elapsed_real_time p
      else p

  -- The packet, sent: a NITZ time that cannot be sent is kept.
  unfoldable pub send_unsolicited : Daemon → Env → ℤ → Parcel → Daemon
  send_unsolicited d env unsol p =
      let r = send_response_raw d.fd_command env.writes (contents p) in
      let d' = after_send d r in
      if is_error r.ret && unsol ==ℤ pos unsol_nitz_time_received
      then record d' { last_nitz_time_data = some (contents p) }
      else d'

  abbrev pub grab_wake_lock : WakeType → Daemon → Daemon
  grab_wake_lock dont_wake d = d
  grab_wake_lock wake_partial d = record d { wake_lock = true }

  -- Behind error_exit.
  abbrev error_exit : WakeType → Daemon → Daemon
  error_exit dont_wake d = d
  error_exit wake_partial d = record d { wake_lock = false }

  abbrev pub finish_unsolicited : Daemon → Env → ℤ → WakeType → ℤ × Parcel → Daemon
  finish_unsolicited d env unsol wake (ret, p) =
      if not (ret ==ℤ pos 0)
      then error_exit wake d
      else let d' = send_unsolicited d env unsol (more_payload env unsol p) in
        elim wake [ dont_wake ↦ d' | wake_partial ↦ schedule_wake_timeout env.new_address d' ]

  -- The call as one step, which no call of another thread overlaps. `wake_lock` is a flag of the model:
  -- grabPartialWakeLock and releaseWakeLock are empty.
  unfoldable pub on_unsolicited_response : Daemon → Env → ℤ → Data → ℕ → Option Daemon
  unfolding unsol_response_of more_payload send_unsolicited schedule_wake_timeout
  on_unsolicited_response d env unsol response len =
      if not d.register_called then some d else elim (unsol_response_of unsol) [
        | none ↦ some d
        | some info ↦
            let d1 = grab_wake_lock info.wake_type d in
            let p = write_int32 unsol (write_int32 (pos 1) empty) in
            call_response api info.response_function d.version p response len >>= λ reply.
            some (finish_unsolicited d1 env unsol info.wake_type reply)
      ]

  -- A kept NITZ time goes to the new command process and is forgotten, whatever comes of it. The
  -- setting of the version property is left out.
  unfoldable pub on_new_command_connect : Daemon → Env → List WriteResult → Option Daemon
  on_new_command_connect d env writes =
      on_unsolicited_response d env (pos unsol_response_radio_state_changed) Data.null 0 >>= λ d'.
      some (elim d'.last_nitz_time_data [
        | none ↦ d'
        | some packet ↦ record (after_send d' (send_response_raw d'.fd_command writes packet)) {
          last_nitz_time_data = none;
        }
      ])

unfoldable pub remove_callback : ℕ → List UserCallbackInfo → List UserCallbackInfo
remove_callback id [] = []
remove_callback id (c ∷ cs) = if c.id == id then cs else c ∷ remove_callback id cs

-- wakeTimeoutCallback: whether the wake lock is released.
abbrev pub wake_timeout_callback : Bool → Bool
wake_timeout_callback user_param = not user_param

abbrev pub forget_last : ℕ → Option ℕ → Option ℕ
forget_last id none = none
forget_last id (some last) = if last == id then none else some last

-- The event loop runs the callback `c`.
unfoldable pub user_timer_callback : UserCallbackInfo → Daemon → Daemon
unfolding remove_callback
user_timer_callback c d = record d {
  wake_lock = if c.wake && wake_timeout_callback c.user_param then false else d.wake_lock;
  last_wake_timeout_info = forget_last c.id d.last_wake_timeout_info;
  callbacks = remove_callback c.id d.callbacks;
}

-- RIL_register up to the start of the event loop: `version` is that of the callbacks, `none` for a
-- NULL pointer.
unfoldable pub register : Option ℕ → Daemon → Daemon
register none d = d
register (some version) d =
    if not (version == ril_version) && not (version == 2)
    then d
    else if d.register_called
    then d
    else record d { version = version; register_called = true }
