-- ===== src/ReferenceRil/Marshalled.antt =====
-- libril marshals what onRequest of reference-ril/reference-ril.c completes a request with.
use rild_hisi.Common.{ℕ, ◌≡◌, refl, ◌&&&◌, [], Option, All, Bool-cases, inl, inr, ◌⊎◌, sym, subst}
use rild_hisi.Telephony.Data.{Data}
use rild_hisi.Dispatch.{RequestInfo}
use rild_hisi.Commands.Tables.{commands}
use rild_hisi.ReferenceRil.Query.{Host}
use rild_hisi.ReferenceRil.State.{Ril, Completed}
use rild_hisi.ReferenceRil.SetupDataCall.{Qmi}
use rild_hisi.ReferenceRil.DataCalls.{request_ndis_dial, port_list, pdp_addr, dhcp_info}
use rild_hisi.ReferenceRil.Messages.{
  request_dial, request_hangup, request_write_sms_to_sim, request_send_ussd,
}
use rild_hisi.ReferenceRil.OnRequest.{cases, is_ignored, on_request}
use rild_hisi.ReferenceRil.Marshalling.{
  Marshals, EachMarshals, Replies, null-Replies, select-Replies,
}
use rild_hisi.ReferenceRil.Payloads.{HasSizes}
use rild_hisi.ReferenceRil.Replying.{
  row, reply_null-Replies, list_request-Replies, ps_cs_stat-Replies,
}
use rild_hisi.ReferenceRil.PowerReplies.{radio_power-Replies}
use rild_hisi.ReferenceRil.RequestReplies.{
  get_sim_status-Replies, current_calls-Replies, send_and_expect-Replies,
  select_automatically-Replies, signal_strength-Replies, registration_state-Replies,
  operator-Replies, setup_data_call-Replies, numeric-Replies, ussd-Replies, selection_mode-Replies,
  send_sms-Replies, sim_io-Replies, data_call_list-Replies, enter_sim_pin-Replies,
  sms_acknowledge-Replies,
}

-- The payload that the two requests for a vendor's own purposes are answered with
abbrev pub echoed : ℕ → Data → ℕ → Completed
echoed t d len = record { token = t; error = 0; response = d; length = len }

abbrev pub IsEcho : ℕ → Type 0
IsEcho request = (request ≡ 59) ⊎ (request ≡ 60)

module _ (host : Host) (sizes : HasSizes host.platform) (version : ℕ) (info : RequestInfo)
    (t : ℕ) where
  cases-Replies :
      (d : Data) (len : ℕ) (device : Option Qmi)
      → (IsEcho info.request_number → Marshals host.platform version info (echoed t d len))
      → All
          (λ c. c.0 ≡ info.request_number → Replies host.platform version info c.1)
          (cases host info.request_number d len device t)
  unfolding cases request_dial request_hangup request_send_ussd request_write_sms_to_sim
      request_ndis_dial port_list pdp_addr dhcp_info commands
  cases-Replies d len device he =
      (λ e. get_sim_status-Replies host sizes version info t (row 1 _ e refl))
      &&& (λ e. current_calls-Replies host sizes version info t (row 9 _ e refl))
      &&& (λ e. reply_null-Replies host version info t _)
      &&& (λ e. reply_null-Replies host version info t _)
      &&& (λ e. reply_null-Replies host version info t _)
      &&& (λ e. reply_null-Replies host version info t _)
      &&& (λ e. send_and_expect-Replies host sizes version info t _)
      &&& (λ e. send_and_expect-Replies host sizes version info t _)
      &&& (λ e. reply_null-Replies host version info t _)
      &&& (λ e. reply_null-Replies host version info t _)
      &&& (λ e. reply_null-Replies host version info t _)
      &&& (λ e. signal_strength-Replies host sizes version info t (row 19 _ e refl))
      &&& (λ e.
          registration_state-Replies host sizes version info t (row 20 _ e refl)
            info.request_number)
      &&& (λ e.
          registration_state-Replies host sizes version info t (row 21 _ e refl)
            info.request_number)
      &&& (λ e. operator-Replies host sizes version info t (row 22 _ e refl))
      &&& (λ e. radio_power-Replies host version info t d len)
      &&& (λ e. reply_null-Replies host version info t _)
      &&& (λ e. send_sms-Replies host sizes version info t (row 25 _ e refl) d)
      &&& (λ e. setup_data_call-Replies host sizes version info t (row 27 _ e refl) d device)
      &&& (λ e. sms_acknowledge-Replies host sizes version info t d)
      &&& (λ e. numeric-Replies host sizes version info t _ (row 11 _ e refl))
      &&& (λ e. numeric-Replies host sizes version info t _ (row 38 _ e refl))
      &&& (λ e. sim_io-Replies host sizes version info t (row 28 _ e refl) d)
      &&& (λ e. null-Replies host.platform version info t 6)
      &&& (λ e. ussd-Replies host sizes version info t _ (row 30 _ e refl))
      &&& (λ e. select_automatically-Replies host sizes version info t)
      &&& (λ e. data_call_list-Replies host sizes version info t (row 57 _ e refl))
      &&& (λ e. selection_mode-Replies host sizes version info t (row 45 _ e refl))
      &&& (λ e w h. (he (inl (sym e)), h))
      &&& (λ e w h. (he (inr (sym e)), h))
      &&& (λ e. reply_null-Replies host version info t _)
      &&& (λ e. reply_null-Replies host version info t _)
      &&& (λ e. enter_sim_pin-Replies host sizes version info t d len)
      &&& (λ e. enter_sim_pin-Replies host sizes version info t d len)
      &&& (λ e. enter_sim_pin-Replies host sizes version info t d len)
      &&& (λ e. enter_sim_pin-Replies host sizes version info t d len)
      &&& (λ e. enter_sim_pin-Replies host sizes version info t d len)
      &&& (λ e. enter_sim_pin-Replies host sizes version info t d len)
      &&& (λ e. list_request-Replies host version info t sizes (row 104 _ e refl) _ _ _)
      &&& (λ e. ps_cs_stat-Replies host version info t sizes (row 105 _ e refl) d len)
      &&& (λ e. reply_null-Replies host version info t _)
      &&& (λ e. list_request-Replies host version info t sizes (row 107 _ e refl) _ _ _)
      &&& (λ e. list_request-Replies host version info t sizes (row 108 _ e refl) _ _ _)
      &&& tt

  -- Whatever the modem answers, RIL_onRequestComplete can build a reply from each payload with which
  -- onRequest completes a request, unless onRequest is undefined: the response function that libril's
  -- table names for the request reads the payload neither past its end nor as another type. This
  -- holds of the two requests that are echoed if it holds of what was sent, and asks that an int is
  -- no longer than a pointer, that no size is 0 and that two integers are no RIL_SignalStrength.
  pub on_request-Marshals :
      (d : Data) (len : ℕ) (device : Option Qmi) (w : Ril)
      → (IsEcho info.request_number → Marshals host.platform version info (echoed t d len))
      → w.completions ≡ []
      → EachMarshals host.platform version info
          (on_request host info.request_number d len device t w)
  unfolding on_request
  on_request-Marshals d len device w he first =
      let none_yet = subst (All (Marshals host.platform version info)) (sym first) tt in
      elim (Bool-cases (is_ignored host w.radio info.request_number)) [
        | inl ignored ↦ rw ignored (null-Replies host.platform version info t 1 w none_yet)
        | inr served ↦ rw served (
            select-Replies host.platform version info
              (cases host info.request_number d len device t) _ (cases-Replies d len device he)
              (null-Replies host.platform version info t 6) w none_yet)
      ]
