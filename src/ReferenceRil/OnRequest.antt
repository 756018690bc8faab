-- ===== src/ReferenceRil/OnRequest.antt =====
-- onRequest of reference-ril/reference-ril.c: the guards on the radio state, and the switch over the
-- requests.
use rild_hisi.Common.{
  ℕ, ◌*◌, Bool, false, not, ◌&&◌, ◌||◌, List, [], ◌∷◌, ◌++◌, Option, none, some, length, ◌==◌, ltb,
  codes, if◌then◌else◌,
}
use rild_hisi.Common.Int.{ℤ, pos, negsuc}
use rild_hisi.Telephony.{Bytes}
use rild_hisi.Dispatch.{text_of}
use rild_hisi.Telephony.Data.{Data}
use rild_hisi.AtTok.Fields.{print_int}
use rild_hisi.ReferenceRil.CallList.{CallsReply, request_get_current_calls}
use rild_hisi.ReferenceRil.Query.{
  Host, Query, ◌>>=◌, pure, undefined, go_error, send_command, send_only, send_numeric,
  send_multiline, succeeded, first_line,
}
use rild_hisi.ReferenceRil.State.{
  Ril, Action, success, radio_not_available, request_not_supported, radio_state_off,
  radio_state_unavailable, send_call_state_changed, complete, complete_null, settle, reply,
  reply_null, send_and_succeed, request_timed_callback,
}
use rild_hisi.ReferenceRil.Radio.{request_radio_power}
use rild_hisi.ReferenceRil.Network.{
  request_signal_strength, request_registration_state, request_operator,
  request_query_network_selection_mode,
}
use rild_hisi.ReferenceRil.DataCalls.{
  request_data_call_list, port_list, pdp_addr, dhcp_info, request_ps_cs_stat, request_ndis_dial,
}
use rild_hisi.ReferenceRil.Sim.{request_get_sim_status, request_sim_io, request_enter_sim_pin}
use rild_hisi.ReferenceRil.Messages.{
  request_dial, request_hangup, request_write_sms_to_sim, request_send_sms, request_sms_acknowledge,
  request_send_ussd, first_int,
}
use rild_hisi.ReferenceRil.SetupDataCall.{Qmi, request_setup_data_call}

-- A case of the switch: its label, and what it does.
abbrev pub Case : Type 0
Case = ℕ × Action

unfoldable pub select : ℕ → List Case → Action → Action
select request [] default = default
select request ((label, body) ∷ cases) default =
    let rest = select request cases default in if request == label then body else rest

abbrev pub expect_answer : Ril → Ril
expect_answer w = record w { calls = record w.calls { expect_answer = pos 1 } }

-- The character behind the pointer; at the end of the text it is NUL, and the command ends there.
abbrev pub dtmf_command : Data → Query Bytes
dtmf_command (Data.text []) = pure (codes "AT+VTS=")
dtmf_command (Data.text (c ∷ cs)) = pure (codes "AT+VTS=" ++ c ∷ [])
dtmf_command _ = undefined

module _ (host : Host) where
  open host.platform use {size_ptr}

  abbrev pub complete_calls : ℕ → CallsReply → Ril → Ril
  complete_calls t r w =
      if r.error == 0
      then complete t success (Data.calls r.calls) (length r.calls * size_ptr) w
      else complete_null t r.error w

  abbrev pub calls_answered : ℕ → Option CallsReply → Action
  calls_answered t none w = none
  calls_answered t (some r) w =
      let done = complete_calls t r (record w { calls = r.state }) in
      some (if r.repolls then request_timed_callback send_call_state_changed done else done)

  unfoldable pub current_calls : ℕ → Action
  unfolding request_get_current_calls
  current_calls t =
      settle (send_multiline host (codes "AT+CLCC") (codes "+CLCC:"))
        (λ (e, r) w. calls_answered t (request_get_current_calls host.long_max e r w.calls) w)
        (λ w. none)

  -- The command is sent, an answer is expected, and the request has succeeded.
  abbrev pub send_and_expect : Bytes → ℕ → Action
  send_and_expect text t =
      settle (send_only host text) (λ _ w. some (complete_null t success (expect_answer w)))
        (λ w. none)

  abbrev pub separate : ℤ → Query (Unit {0})
  separate party =
      if is_digit party then send_only host (codes "AT+CHLD=2" ++ print_int party) else go_error
    where
      is_digit : ℤ → Bool
      is_digit (pos n) = ltb 0 n && ltb n 10
      is_digit (negsuc n) = false

  abbrev pub numeric_query : Bytes → Query (Data × ℕ)
  numeric_query text = do
    answer ← send_numeric host text
    r ← succeeded answer
    line ← first_line r
    pure (text_of line, size_ptr)

  abbrev pub delete_sms_query : Data → Query (Unit {0})
  delete_sms_query request = do
    index ← first_int request
    answer ← send_command host (codes "AT+CMGD=" ++ print_int index)
    _ ← succeeded answer
    pure tt

  -- The command is sent, and the request is not completed.
  abbrev pub select_automatically : Action
  select_automatically w =
      settle (send_only host (codes "AT+COPS=0")) (λ _ w'. some w') (λ w'. none) w

  -- The echo of the request
  abbrev pub echo : Data → ℕ → ℕ → Action
  echo request len t w = some (complete t success request len w)

  -- The cases of the switch, in order, for the arguments of onRequest.
  unfoldable pub cases : ℕ → Data → ℕ → Option Qmi → ℕ → List Case
  unfolding request_get_sim_status current_calls request_dial request_hangup request_signal_strength
      request_registration_state request_operator request_radio_power request_send_sms
      request_setup_data_call request_sms_acknowledge request_sim_io request_send_ussd
      request_data_call_list request_query_network_selection_mode request_write_sms_to_sim
      request_enter_sim_pin port_list request_ps_cs_stat request_ndis_dial pdp_addr dhcp_info
      print_int
  cases request sent len device t =
      (1, request_get_sim_status host t)
      ∷ (9, current_calls t)
      ∷ (10, request_dial host sent t)
      ∷ (12, request_hangup host sent t)
      ∷ (13, send_and_succeed host t (codes "AT+CHLD=0"))
      ∷ (14, send_and_succeed host t (codes "AT+CHLD=1"))
      ∷ (15, send_and_expect (codes "AT+CHLD=2") t)
      ∷ (40, send_and_expect (codes "ATA") t)
      ∷ (16, send_and_succeed host t (codes "AT+CHLD=3"))
      ∷ (17, send_and_succeed host t (codes "ATH"))
      ∷ (52, reply_null t (first_int sent >>= separate))
      ∷ (19, request_signal_strength host t)
      ∷ (20, request_registration_state host request t)
      ∷ (21, request_registration_state host request t)
      ∷ (22, request_operator host t)
      ∷ (23, request_radio_power host sent len t)
      ∷ (24, reply_null t (dtmf_command sent >>= send_only host))
      ∷ (25, request_send_sms host sent t)
      ∷ (27, request_setup_data_call host sent device t)
      ∷ (37, request_sms_acknowledge host sent t)
      ∷ (11, reply t (numeric_query (codes "AT+CIMI")))
      ∷ (38, reply t (numeric_query (codes "AT+CGSN")))
      ∷ (28, request_sim_io host sent t)
      ∷ (29, request_send_ussd host t)
      ∷ (30, reply t (numeric_query (codes "AT+CUSD=2")))
      ∷ (46, select_automatically)
      ∷ (57, request_data_call_list host t)
      ∷ (45, request_query_network_selection_mode host t)
      ∷ (59, echo sent len t)
      ∷ (60, echo sent len t)
      ∷ (63, request_write_sms_to_sim host sent t)
      ∷ (64, reply_null t (delete_sms_query sent))
      ∷ (2, request_enter_sim_pin host sent len t)
      ∷ (3, request_enter_sim_pin host sent len t)
      ∷ (4, request_enter_sim_pin host sent len t)
      ∷ (5, request_enter_sim_pin host sent len t)
      ∷ (6, request_enter_sim_pin host sent len t)
      ∷ (7, request_enter_sim_pin host sent len t)
      ∷ (104, port_list host sent len t)
      ∷ (105, request_ps_cs_stat host sent len t)
      ∷ (106, request_ndis_dial host sent len t)
      ∷ (107, pdp_addr host sent len t)
      ∷ (108, dhcp_info host sent len t)
      ∷ []

  -- RIL_REQUEST_GET_SIM_STATUS is always served, RIL_REQUEST_RADIO_POWER unless the radio is
  -- unavailable.
  abbrev pub is_ignored : ℕ → ℕ → Bool
  is_ignored radio request =
      (radio == radio_state_unavailable && not (request == 1))
      || (radio == radio_state_off && not (request == 23 || request == 1))

  -- The arguments are `request`, `data`, `datalen`, what /dev/qmi would answer, and the token.
  unfoldable pub on_request : ℕ → Data → ℕ → Option Qmi → ℕ → Action
  unfolding select cases
  on_request request sent len device t w =
      if is_ignored w.radio request
      then some (complete_null t radio_not_available w)
      else select request (cases request sent len device t)
          (λ w'. some (complete_null t request_not_supported w')) w
