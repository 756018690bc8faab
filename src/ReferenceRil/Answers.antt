-- ===== src/ReferenceRil/Answers.antt =====
-- How often each function for a request of reference-ril/reference-ril.c completes it.
use rild_hisi.Common.{
  ℕ, zero, suc, refl, ◌||◌, List, [], ◌∷◌, Option, none, some, arith, ◌==◌, ◌&&◌, not, ltb,
  Bool-cases, inl, inr,
}
use rild_hisi.Common.Int.{ℤ, pos, is_neg, ◌==ℤ◌}
use rild_hisi.Telephony.{Bytes}
use rild_hisi.Telephony.Data.{Data}
use rild_hisi.AtChannel.Commands.{AtResponse}
use rild_hisi.ReferenceRil.Lists.{
  Completions, request_port_list, request_pdp_addr, request_dhcp_info, read_line,
}
use rild_hisi.ReferenceRil.Completing.{
  IsCompleted, times, request_lists-IsCompleted, read_line-IsCompleted,
}
use rild_hisi.ReferenceRil.Query.{Host, Query}
use rild_hisi.ReferenceRil.State.{Ril, reply, reply_null, complete}
use rild_hisi.ReferenceRil.Radio.{
  stored_state, state_changed, power_on_commands, set_radio_state, set_radio, set_and_succeed,
  power_off, power_on, switch_power, is_positive, request_radio_power,
}
use rild_hisi.ReferenceRil.Network.{request_signal_strength, request_registration_state}
use rild_hisi.ReferenceRil.DataCalls.{
  request_or_send_data_call_list, request_data_call_list, port_list, pdp_addr, dhcp_info,
  request_ps_cs_stat, list_request, ps_cs_again, ps_cs_line, ps_cs_answer,
}
use rild_hisi.ReferenceRil.Sim.{request_get_sim_status, request_enter_sim_pin}
use rild_hisi.ReferenceRil.Messages.{request_sms_acknowledge}
use rild_hisi.ReferenceRil.Answering.{
  CompletedTimes, Completes, complete-Completes, complete_twice-Completes, settle-Completes,
  bind-Outcome, same-Outcome, complete_all-Completes,
}

module _ (t : ℕ) where
  pub nothing : (w : Ril) → CompletedTimes 0 0 t w w
  nothing w = ([], refl, tt, omega arith, omega arith)

  pub once : (e n : ℕ) (d : Data) → Completes 1 1 t (λ w. some (complete t e d n w))
  once e n d = complete-Completes 1 1 t e n d (omega arith) (omega arith)

  pub reply-Completes : (q : Query (Data × ℕ)) → Completes 1 1 t (reply t q)
  reply-Completes q = settle-Completes 1 1 t q _ _ (λ (d, n). once 0 n d) (once 2 0 Data.null)

  pub reply_null-Completes : (q : Query (Unit {0})) → Completes 1 1 t (reply_null t q)
  reply_null-Completes q =
      settle-Completes 1 1 t q _ _ (λ u. once 0 0 Data.null) (once 2 0 Data.null)

  module _ (host : Host) where
    pub get_sim_status-Completes : Completes 1 1 t (request_get_sim_status host t)
    unfolding request_get_sim_status
    get_sim_status-Completes w =
        settle-Completes 1 1 t _ _ (λ w'. none) (λ s. once 0 _ _) (λ w'. tt) w

    pub data_call_list-Completes : Completes 1 1 t (request_data_call_list host t)
    unfolding request_data_call_list request_or_send_data_call_list
    data_call_list-Completes = settle-Completes 1 1 t _ _ _ (λ cs. once 0 _ _) (once 2 0 Data.null)

    pub enter_sim_pin-Completes :
        (d : Data) (len : ℕ) → Completes 1 1 t (request_enter_sim_pin host d len t)
    unfolding request_enter_sim_pin
    enter_sim_pin-Completes d len =
        settle-Completes 1 1 t _ _ _ (λ u. once 0 0 Data.null) (once 3 0 Data.null)

    pub signal_strength-Completes : Completes 1 2 t (request_signal_strength host t)
    unfolding request_signal_strength
    signal_strength-Completes =
        settle-Completes 1 2 t _ _ _
          (λ r.
            settle-Completes 1 2 t _ _ _
              (λ (d, n). complete-Completes 1 2 t 0 n d (omega arith) (omega arith))
              (complete-Completes 1 2 t 2 0 Data.null (omega arith) (omega arith)))
          (complete_twice-Completes 1 2 t 2 2 0 0 Data.null Data.null (omega arith) (omega arith))

    pub sms_acknowledge-Completes : (d : Data) → Completes 1 2 t (request_sms_acknowledge host d t)
    unfolding request_sms_acknowledge
    sms_acknowledge-Completes d =
        settle-Completes 1 2 t _ _ _
          (λ u.
            complete_twice-Completes 1 2 t 2 0 0 0 Data.null Data.null (omega arith) (omega arith))
          (complete-Completes 1 2 t 2 0 Data.null (omega arith) (omega arith))

    pub registration_state-Completes :
        (request : ℕ) → Completes 1 1 t (request_registration_state host request t)
    unfolding request_registration_state
    registration_state-Completes request w = elim (Bool-cases (request == 20)) [
      | inl voice ↦ rw voice (reply-Completes _ w)
      | inr other ↦ elim (Bool-cases (request == 21)) [
        | inl gprs ↦ rw (other, gprs) (reply-Completes _ w)
        | inr neither ↦ rw (other, neither) tt
      ]
    ]

    list_request-Completes :
        (command : Query Bytes) (ask : Bytes → Query (ℤ × Option AtResponse))
        (answer : ℤ → Option AtResponse → Completions)
        → ((e : ℤ) (r : Option AtResponse) → IsCompleted (times e r) (answer e r))
        → Completes 1 2 t (list_request host t command ask answer)
    unfolding list_request
    list_request-Completes command ask answer h =
        settle-Completes 1 2 t _ _ _
          (λ (e, r).
            complete_all-Completes 1 2 host t (times e r) (answer e r) (ground arith) (ground arith)
              (h e r))
          (λ w. tt)

    pub port_list-Completes : (d : Data) (len : ℕ) → Completes 1 2 t (port_list host d len t)
    unfolding port_list
    port_list-Completes d len =
        list_request-Completes _ _ request_port_list λ e r. (request_lists-IsCompleted e r).0

    pub pdp_addr-Completes : (d : Data) (len : ℕ) → Completes 1 2 t (pdp_addr host d len t)
    unfolding pdp_addr
    pdp_addr-Completes d len =
        list_request-Completes _ _ request_pdp_addr λ e r. (request_lists-IsCompleted e r).1

    pub dhcp_info-Completes : (d : Data) (len : ℕ) → Completes 1 2 t (dhcp_info host d len t)
    unfolding dhcp_info
    dhcp_info-Completes d len =
        list_request-Completes _ _ request_dhcp_info λ e r. (request_lists-IsCompleted e r).2

    ps_cs_again-Completes :
        (e : ℤ) (r : Option AtResponse) → Completes 1 2 t (ps_cs_again host t (e, r))
    ps_cs_again-Completes e none w = tt
    ps_cs_again-Completes e (some r) w = elim (Bool-cases (is_neg e || r.success == 0)) [
      | inl refused ↦
          rw refused (complete-Completes 1 2 t 2 0 Data.null (omega arith) (omega arith) w)
      | inr fine ↦ rw fine (complete-Completes 1 2 t 0 _ _ (omega arith) (omega arith) w)
    ]

    ps_cs_line-Completes : (lines : List Bytes) → Completes 1 2 t (ps_cs_line host t lines)
    ps_cs_line-Completes [] w = tt
    ps_cs_line-Completes (line ∷ lines) w =
        complete_all-Completes 1 2 host t 1 (read_line line) (omega arith) (omega arith)
          (read_line-IsCompleted line) w

    ps_cs_answer-Completes :
        (c : Bytes) (e : ℤ) (r : Option AtResponse) → Completes 1 2 t (ps_cs_answer host t c (e, r))
    ps_cs_answer-Completes c e none w =
        settle-Completes 1 2 t _ _ _ (λ (e', r). ps_cs_again-Completes e' r) (λ w'. tt) w
    ps_cs_answer-Completes c e (some r) w = elim (Bool-cases (is_neg e || r.success == 0)) [
      | inl refused ↦
          rw refused (
            complete_twice-Completes 1 2 t 2 2 0 0 Data.null Data.null (omega arith) (omega arith)
              w)
      | inr fine ↦ rw fine (ps_cs_line-Completes r.intermediates w)
    ]

    pub ps_cs_stat-Completes :
        (d : Data) (len : ℕ) → Completes 1 2 t (request_ps_cs_stat host d len t)
    unfolding request_ps_cs_stat
    ps_cs_stat-Completes d len =
        settle-Completes 1 2 t _ _ _
          (λ c. settle-Completes 1 2 t _ _ _ (λ (e, r). ps_cs_answer-Completes c e r) (λ w. tt))
          (λ w. tt)

    power_on_commands-Completes : Completes 0 0 t (power_on_commands host)
    power_on_commands-Completes = settle-Completes 0 0 t _ _ _ (λ u. nothing) nothing

    set_radio_state-Completes : (n new : ℕ) → Completes 0 0 t (set_radio_state host n new)
    unfolding set_radio_state
    set_radio_state-Completes zero new w = tt
    set_radio_state-Completes (suc n) new w =
        let now = stored_state w.closed new in
        let changed = state_changed now w in
        let deeper =
          bind-Outcome 0 0 t changed (power_on_commands host changed) (set_radio_state host n 4)
            (power_on_commands-Completes changed) (set_radio_state-Completes n 4) in
        elim (Bool-cases (now == w.radio)) [
          | inl same ↦ rw same (nothing w)
          | inr differs ↦ elim (Bool-cases (now == 2)) [
            | inl on ↦ rw (differs, on) (same-Outcome 0 0 t changed w _ refl deeper)
            | inr other ↦ rw (differs, other) (nothing w)
          ]
        ]

    set_and_succeed-Completes : (new : ℕ) → Completes 1 1 t (set_and_succeed host t new)
    unfolding set_radio
    set_and_succeed-Completes new w =
        bind-Outcome 1 1 t w (set_radio_state host 2 new w) _ (set_radio_state-Completes 2 new w)
          (once 0 0 Data.null)

    power_off-Completes : Completes 1 1 t (power_off host t)
    power_off-Completes =
        settle-Completes 1 1 t _ _ _ (λ r. set_and_succeed-Completes 0) (once 2 0 Data.null)

    power_on-Completes : Completes 1 1 t (power_on host t)
    power_on-Completes =
        settle-Completes 1 1 t _ _ _ (λ r. set_and_succeed-Completes 2)
          (set_and_succeed-Completes 2)

    switch_power-Completes : (z : ℤ) → Completes 1 1 t (switch_power host z t)
    switch_power-Completes z w = elim (Bool-cases (z ==ℤ pos 0 && not (w.radio == 0))) [
      | inl off ↦ rw off (power_off-Completes w)
      | inr stays ↦ elim (Bool-cases (is_positive host z && w.radio == 0)) [
        | inl on ↦ rw (stays, on) (power_on-Completes w)
        | inr kept ↦ rw (stays, kept) (once 0 0 Data.null w)
      ]
    ]

    pub radio_power-Completes :
        (d : Data) (len : ℕ) → Completes 1 1 t (request_radio_power host d len t)
    unfolding request_radio_power
    radio_power-Completes (Data.ints (z ∷ zs)) len w =
        elim (Bool-cases (ltb len host.platform.size_ptr)) [
          | inl short ↦ rw short tt
          | inr long ↦ rw long (switch_power-Completes z w)
        ]
    radio_power-Completes d len w = tt
