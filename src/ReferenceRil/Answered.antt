-- ===== src/ReferenceRil/Answered.antt =====
-- How often onRequest of reference-ril/reference-ril.c completes each request.
use rild_hisi.Common.{
  ℕ, refl, Bool, ◌||◌, ◌&&&◌, [], Option, none, some, arith, All, ◌==◌, if◌then◌else◌, Bool-cases,
  inl, inr,
}
use rild_hisi.Telephony.{Bytes}
use rild_hisi.Telephony.Data.{Data}
use rild_hisi.ReferenceRil.CallList.{CallsReply}
use rild_hisi.ReferenceRil.Query.{Host}
use rild_hisi.ReferenceRil.SetupDataCall.{Qmi, request_setup_data_call}
use rild_hisi.ReferenceRil.Network.{request_operator, request_query_network_selection_mode}
use rild_hisi.ReferenceRil.DataCalls.{request_ndis_dial}
use rild_hisi.ReferenceRil.Sim.{request_sim_io}
use rild_hisi.ReferenceRil.Messages.{
  request_dial, request_hangup, request_write_sms_to_sim, request_send_sms, request_send_ussd,
}
use rild_hisi.ReferenceRil.OnRequest.{
  cases, is_ignored, current_calls, calls_answered, on_request, send_and_expect,
  select_automatically,
}
use rild_hisi.ReferenceRil.Answering.{
  Completes, complete-Completes, settle-Completes, select-Completes,
}
use rild_hisi.ReferenceRil.Answers.{
  once, reply-Completes, reply_null-Completes, get_sim_status-Completes, data_call_list-Completes,
  enter_sim_pin-Completes, signal_strength-Completes, sms_acknowledge-Completes,
  registration_state-Completes, port_list-Completes, pdp_addr-Completes, dhcp_info-Completes,
  ps_cs_stat-Completes, radio_power-Completes,
}

-- RIL_REQUEST_SET_NETWORK_SELECTION_AUTOMATIC is not completed.
abbrev pub least : ℕ → ℕ
least request = if request == 46 then 0 else 1

-- RIL_REQUEST_SIGNAL_STRENGTH, RIL_REQUEST_SMS_ACKNOWLEDGE, and the requests for lists of texts.
abbrev pub may_repeat : ℕ → Bool
may_repeat request =
    request == 19
    || request == 37
    || request == 104
    || request == 105
    || request == 107
    || request == 108

abbrev pub most : ℕ → ℕ
most request = if may_repeat request then 2 else 1

module _ (host : Host) (t : ℕ) where
  calls_answered-Completes : (r : Option CallsReply) → Completes 1 1 t (calls_answered host t r)
  calls_answered-Completes none w = tt
  calls_answered-Completes (some r) w =
      let w' = record w { calls = r.state } in
      elim (Bool-cases (r.error == 0)) [
        | inl fine ↦ elim (Bool-cases r.repolls) [
          | inl polls ↦ rw (fine, polls) (once t 0 _ (Data.calls r.calls) w)
          | inr stays ↦ rw (fine, stays) (once t 0 _ (Data.calls r.calls) w)
        ]
        | inr failed ↦ elim (Bool-cases r.repolls) [
          | inl polls ↦ rw (failed, polls) (once t r.error 0 Data.null w)
          | inr stays ↦ rw (failed, stays) (once t r.error 0 Data.null w)
        ]
      ]

  current_calls-Completes : Completes 1 1 t (current_calls host t)
  unfolding current_calls
  current_calls-Completes =
      settle-Completes 1 1 t _ _ _ (λ (e, r) w. calls_answered-Completes _ w) (λ w. tt)

  send_and_expect-Completes : (text : Bytes) → Completes 1 1 t (send_and_expect host text t)
  send_and_expect-Completes text =
      settle-Completes 1 1 t _ _ _ (λ u w. once t 0 0 Data.null w) (λ w. tt)

  select_automatically-Completes : Completes 0 1 t (select_automatically host)
  select_automatically-Completes w =
      settle-Completes 0 1 t _ _ _ (λ u w'. ([], refl, tt, omega arith, omega arith)) (λ w'. tt) w

  cases-Completes :
      (request : ℕ) (d : Data) (len : ℕ) (device : Option Qmi)
      → All (λ c. Completes (least c.0) (most c.0) t c.1) (cases host request d len device t)
  unfolding cases request_dial request_hangup request_operator request_send_sms
      request_setup_data_call request_sim_io request_send_ussd request_query_network_selection_mode
      request_write_sms_to_sim request_ndis_dial
  cases-Completes request d len device =
      get_sim_status-Completes t host
      &&& current_calls-Completes
      &&& reply_null-Completes t _
      &&& reply_null-Completes t _
      &&& reply_null-Completes t _
      &&& reply_null-Completes t _
      &&& send_and_expect-Completes _
      &&& send_and_expect-Completes _
      &&& reply_null-Completes t _
      &&& reply_null-Completes t _
      &&& reply_null-Completes t _
      &&& signal_strength-Completes t host
      &&& registration_state-Completes t host request
      &&& registration_state-Completes t host request
      &&& reply-Completes t _
      &&& radio_power-Completes t host d len
      &&& reply_null-Completes t _
      &&& reply-Completes t _
      &&& reply-Completes t _
      &&& sms_acknowledge-Completes t host d
      &&& reply-Completes t _
      &&& reply-Completes t _
      &&& reply-Completes t _
      &&& once t 6 0 Data.null
      &&& reply-Completes t _
      &&& select_automatically-Completes
      &&& data_call_list-Completes t host
      &&& reply-Completes t _
      &&& once t 0 len d
      &&& once t 0 len d
      &&& reply_null-Completes t _
      &&& reply_null-Completes t _
      &&& enter_sim_pin-Completes t host d len
      &&& enter_sim_pin-Completes t host d len
      &&& enter_sim_pin-Completes t host d len
      &&& enter_sim_pin-Completes t host d len
      &&& enter_sim_pin-Completes t host d len
      &&& enter_sim_pin-Completes t host d len
      &&& port_list-Completes t host d len
      &&& ps_cs_stat-Completes t host d len
      &&& reply_null-Completes t _
      &&& pdp_addr-Completes t host d len
      &&& dhcp_info-Completes t host d len
      &&& tt

  -- onRequest, wherever it starts and whatever the modem answers, completes its token and no other:
  -- once, but not more than twice the requests for the signal strength, for lists of texts and to
  -- acknowledge a message, and at most once the request to select the network automatically; unless
  -- something is undefined.
  pub on_request-Completes :
      (request : ℕ) (d : Data) (len : ℕ) (device : Option Qmi)
      → Completes (least request) (most request) t (on_request host request d len device t)
  unfolding on_request
  on_request-Completes request d len device w =
      elim (Bool-cases (is_ignored host w.radio request)) [
        | inl ignored ↦ rw ignored (
            complete-Completes (least request) (most request) t 1 0 Data.null (ground arith)
              (ground arith) w)
        | inr served ↦ rw served (
            select-Completes least most t request (cases host request d len device t) _
              (cases-Completes request d len device)
              (complete-Completes (least request) (most request) t 6 0 Data.null (ground arith)
                (ground arith))
              w)
      ]
