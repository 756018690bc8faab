-- ===== src/Daemon/Nitz.antt =====
-- The network time that RIL_onUnsolicitedResponse of libril/ril.cpp keeps while no command process
-- is connected, and that onNewCommandConnect delivers.
use rild_hisi.Common.{
  ℕ, ◌≡◌, refl, sym, ap, ◌∙◌, inl, inr, true, List, [], ◌∷◌, ◌++◌, none, some, arith, length,
  append-nil,
}
use rild_hisi.Common.Int.{ℤ, pos, negsuc}
use rild_hisi.Telephony.{Bytes, unsol_response_radio_state_changed, unsol_nitz_time_received}
use rild_hisi.Telephony.Data.{Data}
use rild_hisi.Parcel.{Platform, ParcelLaws, Item, int32, int64, string16}
use rild_hisi.Response.{response_string}
use rild_hisi.Response.Written.{Holds, ◌⨾◌, Wrote-int32, Wrote-int64, Wrote-string}
use rild_hisi.Commands.{WakeType, dont_wake, wake_partial, ResponseFunction, call_response}
use rild_hisi.Commands.Tables.{unsol_responses}
use rild_hisi.Socket.{WriteResult, htonl, send_response_raw}
use rild_hisi.Socket.Framing.{send_response_raw-ok}
use rild_hisi.Daemon.{Daemon}
use rild_hisi.Daemon.Unsolicited.{
  Env, unsol_response_of, more_payload, send_unsolicited, schedule_wake_timeout, grab_wake_lock,
  finish_unsolicited, on_unsolicited_response, on_new_command_connect,
}
use rild_hisi.Daemon.Wake.{unsolicited_known, unsolicited_cases}

nitz_row :
    unsol_response_of (pos unsol_nitz_time_received)
    ≡ some (record {
      request_number = 1008;
      response_function = ResponseFunction.string;
      wake_type = wake_partial;
    })
unfolding unsol_response_of unsol_responses
nitz_row = refl

-- The items of a network time: RESPONSE_UNSOLICITED, the response's number, the text, the time at
-- which it came.
abbrev pub nitz_items : Platform → Bytes → ℤ → List Item
nitz_items api s time =
    int32 (pos 1) ∷ int32 (pos 1008) ∷ string16 (api.strdup8to16 (some s)) ∷ int64 time ∷ []

module _ {api : Platform} (L : ParcelLaws api) where
  open api use {Parcel, contents}

  -- A network time that comes while no command process is connected is not sent but kept, with the
  -- time at which it came.
  pub on_unsolicited_response_nitz_kept :
      (d : Daemon) (env : Env) (s : Bytes) (len : ℕ)
      → d.register_called ≡ true
      → d.fd_command ≡ negsuc 0
      → (d' : Daemon) × (w : Parcel) × (on_unsolicited_response api d env
            (pos unsol_nitz_time_received)
            (Data.text s)
            len
          ≡ some d')
        × (d'.last_nitz_time_data ≡ some (contents w))
        × (d'.sent ≡ d.sent)
        × Holds L w (nitz_items api s env.elapsed_real_time)
  unfolding schedule_wake_timeout send_unsolicited more_payload send_response_raw call_response
      response_string
  on_unsolicited_response_nitz_kept d env s len ready closed = (
    _,
    _,
    unsolicited_known api d env (pos unsol_nitz_time_received) (Data.text s) len _ _ ready nitz_row
        refl,
    rw closed,
    rw (closed, append-nil),
    (Wrote-int32 L (pos 1)
          ⨾ Wrote-int32 L (pos 1008)
          ⨾ Wrote-string L (some s)
          ⨾ Wrote-int64 L env.elapsed_real_time).keeps
        [] (record { written = L.before-empty; at_end = L.after-empty }),
  )

module _ (api : Platform) where
  -- Only a network time changes what is kept.
  finish-last_nitz :
      (d : Daemon) (env : Env) (wake : WakeType) (reply : ℤ × api.Parcel)
      → let unsol = pos unsol_response_radio_state_changed in
        (finish_unsolicited api
          (grab_wake_lock api wake d)
          env
          unsol
          wake
          reply).last_nitz_time_data
        ≡ d.last_nitz_time_data
  unfolding send_unsolicited schedule_wake_timeout
  finish-last_nitz d env dont_wake (ret, p) = ground arith
  finish-last_nitz d env wake_partial (ret, p) = ground arith

  connect-last_nitz :
      (d d1 : Daemon) (env : Env)
      → on_unsolicited_response api d env (pos unsol_response_radio_state_changed) Data.null 0
        ≡ some d1
      → d1.last_nitz_time_data ≡ d.last_nitz_time_data
  connect-last_nitz d d1 env h =
      elim (unsolicited_cases api d d1 env (pos unsol_response_radio_state_changed) Data.null 0 h) [
        | inl same ↦ sym (ap (λ e. e.last_nitz_time_data) same)
        | inr (wake, reply, e) ↦
            sym (ap (λ e. e.last_nitz_time_data) e) ∙ finish-last_nitz d env wake reply
      ]

  -- When a command process connects, the kept network time follows the radio state as a packet of
  -- its own, and is kept no longer.
  pub on_new_command_connect_nitz :
      (d d1 : Daemon) (env : Env) (ws : List WriteResult) (packet : Bytes)
      → on_unsolicited_response api d env (pos unsol_response_radio_state_changed) Data.null 0
        ≡ some d1
      → d.last_nitz_time_data ≡ some packet
      → (send_response_raw d1.fd_command ws packet).ret ≡ some (pos 0)
      → on_new_command_connect api d env ws
        ≡ some (record d1 {
          sent = d1.sent ++ (htonl (length packet) ++ packet);
          last_nitz_time_data = none;
        })
  unfolding on_new_command_connect
  on_new_command_connect_nitz d d1 env ws packet h kept good =
      let (bytes, _, _) = send_response_raw-ok d1.fd_command ws packet good in
      simp (h, connect-last_nitz d d1 env h, kept) (rw bytes)
