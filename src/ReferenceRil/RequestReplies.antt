-- ===== src/ReferenceRil/RequestReplies.antt =====
-- What each case of onRequest of reference-ril/reference-ril.c completes its request with, as the
-- response function of the request reads it.
use rild_hisi.Common.{
  ℕ, ◌*◌, ◌≡◌, refl, not, ◌==◌, Option, none, some, arith, length, Bool-cases, inl, inr,
}
use rild_hisi.Telephony.{Bytes, CString}
use rild_hisi.Telephony.Data.{Data}
use rild_hisi.Parcel.{Platform}
use rild_hisi.Commands.{ResponseFunction, call_response}
use rild_hisi.Dispatch.{RequestInfo, text_of}
use rild_hisi.Response.{response_string, response_void}
use rild_hisi.ReferenceRil.CallList.{CallsReply}
use rild_hisi.ReferenceRil.Query.{Host}
use rild_hisi.ReferenceRil.State.{reply}
use rild_hisi.ReferenceRil.SetupDataCall.{Qmi, request_setup_data_call}
use rild_hisi.ReferenceRil.Network.{
  request_operator, request_query_network_selection_mode, request_registration_state,
  request_signal_strength, registration_query, registration_strings,
}
use rild_hisi.ReferenceRil.DataCalls.{request_or_send_data_call_list, request_data_call_list}
use rild_hisi.ReferenceRil.Sim.{request_sim_io, request_get_sim_status, request_enter_sim_pin}
use rild_hisi.ReferenceRil.Messages.{request_send_sms, request_sms_acknowledge}
use rild_hisi.ReferenceRil.OnRequest.{
  current_calls, calls_answered, send_and_expect, select_automatically, numeric_query,
}
use rild_hisi.ReferenceRil.Contexts.{then-Yields}
use rild_hisi.ReferenceRil.PlainCalls.{IsPlainReply, request_get_current_calls-IsPlain}
use rild_hisi.ReferenceRil.Marshalling.{
  Replies, function_at, null-Replies, payload-Replies, settle_any-Replies,
}
use rild_hisi.ReferenceRil.Payloads.{
  HasSizes, data_call_list-IsDefined, one_int-IsDefined, signal_strength-IsDefined, sms-IsDefined,
  sim_io-IsDefined, sim_status-IsDefined, call_list-IsDefined,
}
use rild_hisi.ReferenceRil.Replying.{
  IsRead, error_if-Yields, strings-IsRead, reply-Replies, twice_null-Replies,
}

text_of-IsRead :
    (api : Platform) (n : ℕ) (s : CString) → IsRead api ResponseFunction.string (text_of s, n)
unfolding call_response response_string
text_of-IsRead api n none version p = tt
text_of-IsRead api n (some s) version p = tt

module _ (host : Host) (sizes : HasSizes host.platform) (version : ℕ) (info : RequestInfo)
    (t : ℕ) where
  open host.platform use {size_ptr, size_int}

  pub get_sim_status-Replies :
      function_at info.request_number ≡ ResponseFunction.sim_status
      → Replies host.platform version info (request_get_sim_status host t)
  unfolding request_get_sim_status call_response
  get_sim_status-Replies is w h =
      settle_any-Replies host.platform version info _ _ _
        (λ s.
          payload-Replies host.platform version info ResponseFunction.sim_status t 0 _ _ is
            λ version p. sim_status-IsDefined host.platform p s _)
        (λ w' h'. tt) w h

  calls_answered-Replies :
      function_at info.request_number ≡ ResponseFunction.call_list
      → (r : Option CallsReply) → IsPlainReply host.long_max r
      → Replies host.platform version info (calls_answered host t r)
  unfolding call_response
  calls_answered-Replies is none plain w h = tt
  calls_answered-Replies is (some r) plain w h =
      let listed =
        payload-Replies host.platform version info ResponseFunction.call_list t 0
          (length r.calls * size_ptr) (Data.calls r.calls) is
          (λ version p. call_list-IsDefined host.platform version p r.calls sizes.ptr plain) w h in
      let failed = null-Replies host.platform version info t r.error w h in
      elim (Bool-cases (r.error == 0)) [
        | inl fine ↦ elim (Bool-cases r.repolls) [
          | inl polls ↦ rw (fine, polls) listed
          | inr stays ↦ rw (fine, stays) listed
        ]
        | inr bad ↦ elim (Bool-cases r.repolls) [
          | inl polls ↦ rw (bad, polls) failed
          | inr stays ↦ rw (bad, stays) failed
        ]
      ]

  pub current_calls-Replies :
      function_at info.request_number ≡ ResponseFunction.call_list
      → Replies host.platform version info (current_calls host t)
  unfolding current_calls
  current_calls-Replies is =
      settle_any-Replies host.platform version info _ _ _
        (λ (e, r) w h.
          calls_answered-Replies is _ (request_get_current_calls-IsPlain host.long_max e r w.calls)
            w h)
        (λ w h. tt)

  pub send_and_expect-Replies :
      (text : Bytes) → Replies host.platform version info (send_and_expect host text t)
  send_and_expect-Replies text =
      settle_any-Replies host.platform version info _ _ _
        (λ u w h. null-Replies host.platform version info t 0 w h) (λ w h. tt)

  pub select_automatically-Replies : Replies host.platform version info (select_automatically host)
  select_automatically-Replies w h =
      settle_any-Replies host.platform version info _ _ _ (λ u w' h'. h') (λ w' h'. tt) w h

  pub signal_strength-Replies :
      function_at info.request_number ≡ ResponseFunction.ril_signal_strength
      → Replies host.platform version info (request_signal_strength host t)
  unfolding request_signal_strength call_response
  signal_strength-Replies is =
      settle_any-Replies host.platform version info _ _ _
        (λ r. reply-Replies host version info t ResponseFunction.ril_signal_strength _ is λ s.
          then-Yields _ _ _ λ line s. then-Yields _ _ _ λ cur s. then-Yields _ _ _ λ (a, cur1) s.
            then-Yields _ _ _
              λ (b, cur2) s. λ version p. signal_strength-IsDefined host.platform p a b sizes)
        (twice_null-Replies host version info t 2 2)

  registration-Replies :
      (command prefix : Bytes)
      → function_at info.request_number ≡ ResponseFunction.strings
      → Replies host.platform version info (reply t (registration_query host command prefix))
  registration-Replies command prefix is =
      reply-Replies host version info t ResponseFunction.strings _ is λ s.
        then-Yields _ _ _ λ answer s. then-Yields _ _ _ λ r s. then-Yields _ _ _ λ line s.
          then-Yields _ _ _ λ cur s.
            then-Yields _ _ _
              λ reg s. strings-IsRead host.platform (registration_strings reg) _ sizes refl

  pub registration_state-Replies :
      function_at info.request_number ≡ ResponseFunction.strings
      → (n : ℕ) → Replies host.platform version info (request_registration_state host n t)
  unfolding request_registration_state
  registration_state-Replies is n w h = elim (Bool-cases (n == 20)) [
    | inl voice ↦ rw voice (registration-Replies _ _ is w h)
    | inr other ↦ elim (Bool-cases (n == 21)) [
      | inl gprs ↦ rw (other, gprs) (registration-Replies _ _ is w h)
      | inr neither ↦ rw (other, neither) tt
    ]
  ]

  pub operator-Replies :
      function_at info.request_number ≡ ResponseFunction.strings
      → Replies host.platform version info (request_operator host t)
  unfolding request_operator
  operator-Replies is = reply-Replies host version info t ResponseFunction.strings _ is λ s.
      then-Yields _ _ _ λ answer s. then-Yields _ _ _ λ r s. then-Yields _ _ _ λ names s.
        error_if-Yields _ (not (length names == 3)) s _
          λ s three. strings-IsRead host.platform names (3 * size_ptr) sizes (ground arith)

  pub setup_data_call-Replies :
      function_at info.request_number ≡ ResponseFunction.strings
      → (d : Data) (device : Option Qmi)
      → Replies host.platform version info (request_setup_data_call host d device t)
  unfolding request_setup_data_call
  setup_data_call-Replies is d device =
      reply-Replies host version info t ResponseFunction.strings _ is λ s.
        then-Yields _ _ _ λ apn s. then-Yields _ _ _ λ u s.
          then-Yields _ _ _
            λ u s. then-Yields _ _ _ λ u s. strings-IsRead host.platform _ (2 * size_ptr) sizes refl

  pub numeric-Replies :
      (text : Bytes)
      → function_at info.request_number ≡ ResponseFunction.string
      → Replies host.platform version info (reply t (numeric_query host text))
  numeric-Replies text is = reply-Replies host version info t ResponseFunction.string _ is λ s.
      then-Yields _ _ _ λ answer s.
        then-Yields _ _ _
          λ r s. then-Yields _ _ _ λ line s. text_of-IsRead host.platform size_ptr line

  pub ussd-Replies :
      (text : Bytes)
      → function_at info.request_number ≡ ResponseFunction.void
      → Replies host.platform version info (reply t (numeric_query host text))
  unfolding call_response response_void
  ussd-Replies text is = reply-Replies host version info t ResponseFunction.void _ is λ s.
      then-Yields _ _ _
        λ answer s. then-Yields _ _ _ λ r s. then-Yields _ _ _ λ line s. λ version p. tt

  pub selection_mode-Replies :
      function_at info.request_number ≡ ResponseFunction.ints
      → Replies host.platform version info (request_query_network_selection_mode host t)
  unfolding request_query_network_selection_mode call_response
  selection_mode-Replies is = reply-Replies host version info t ResponseFunction.ints _ is λ s.
      then-Yields _ _ _ λ answer s. then-Yields _ _ _ λ r s. then-Yields _ _ _ λ line s.
        then-Yields _ _ _ λ cur s.
          then-Yields _ _ _
            λ (mode, end) s. λ version p. one_int-IsDefined host.platform p mode sizes

  pub send_sms-Replies :
      function_at info.request_number ≡ ResponseFunction.sms
      → (d : Data) → Replies host.platform version info (request_send_sms host d t)
  unfolding request_send_sms call_response
  send_sms-Replies is d = reply-Replies host version info t ResponseFunction.sms _ is λ s.
      then-Yields _ _ _ λ (smsc, pdu) s.
        then-Yields _ _ _
          λ answer s. then-Yields _ _ _ λ r s. λ version p. sms-IsDefined host.platform p _ _

  pub sim_io-Replies :
      function_at info.request_number ≡ ResponseFunction.sim_io
      → (d : Data) → Replies host.platform version info (request_sim_io host d t)
  unfolding request_sim_io call_response
  sim_io-Replies is d = reply-Replies host version info t ResponseFunction.sim_io _ is λ s.
      then-Yields _ _ _ λ a s. then-Yields _ _ _ λ answer s. then-Yields _ _ _ λ r s.
        then-Yields _ _ _ λ line s. then-Yields _ _ _ λ cur s. then-Yields _ _ _ λ (sw1, cur1) s.
          then-Yields _ _ _ λ (sw2, cur2) s.
            then-Yields _ _ _ λ text s. λ version p. sim_io-IsDefined host.platform p _ _

  pub data_call_list-Replies :
      function_at info.request_number ≡ ResponseFunction.data_call_list
      → Replies host.platform version info (request_data_call_list host t)
  unfolding request_data_call_list request_or_send_data_call_list call_response
  data_call_list-Replies is =
      settle_any-Replies host.platform version info _ _ _
        (λ cs.
          payload-Replies host.platform version info ResponseFunction.data_call_list t 0 _
            (Data.data_calls cs) is
            λ version p. data_call_list-IsDefined host.platform p cs sizes.data_call)
        (null-Replies host.platform version info t 2)

  pub enter_sim_pin-Replies :
      (d : Data) (len : ℕ) → Replies host.platform version info (request_enter_sim_pin host d len t)
  unfolding request_enter_sim_pin
  enter_sim_pin-Replies d len =
      settle_any-Replies host.platform version info _ _ _
        (λ u. null-Replies host.platform version info t 0)
        (null-Replies host.platform version info t 3)

  pub sms_acknowledge-Replies :
      (d : Data) → Replies host.platform version info (request_sms_acknowledge host d t)
  unfolding request_sms_acknowledge
  sms_acknowledge-Replies d =
      settle_any-Replies host.platform version info _ _ _
        (λ u. twice_null-Replies host version info t 2 0)
        (null-Replies host.platform version info t 2)
