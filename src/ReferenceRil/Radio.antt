-- ===== src/ReferenceRil/Radio.antt =====
-- The radio state of reference-ril/reference-ril.c: setRadioState, onRadioPowerOn, pollSIMState,
-- isRadioOn, requestRadioPower, initializeCallback, onATReaderClosed, onATTimeout, and what mainLoop
-- does to the state when it opens the channel.
use rild_hisi.Common.{
  ℕ, zero, suc, Bool, not, ◌&&◌, ◌||◌, ◌∷◌, Option, none, some, ltb, ◌==◌, codes, if◌then◌else◌,
  ◌>>=◌,
}
use rild_hisi.Common.Int.{ℤ, pos, is_neg, ◌==ℤ◌}
use rild_hisi.Telephony.Data.{Data}
use rild_hisi.ReferenceRil.Query
use rild_hisi.ReferenceRil.Query.{Host, Query, send_command, send_only, succeeded}
use rild_hisi.ReferenceRil.State.{
  Ril, Action, initialize, radio_state_off, radio_state_unavailable, radio_state_sim_not_ready,
  radio_state_sim_ready, success, generic_failure_error, complete_null, fail_with, settle,
  unsolicited_response, request_timed_callback,
}

-- What sState becomes under s_state_mutex. The broadcast of s_state_cond only wakes mainLoop.
abbrev pub stored_state : ℕ → ℕ → ℕ
stored_state closed new = if ltb 0 closed then radio_state_unavailable else new

abbrev pub state_changed : ℕ → Ril → Ril
state_changed now w = unsolicited_response 1000 Data.null 0 (record w { radio = now })

-- What follows: `powered` is what onRadioPowerOn leads to.
abbrev pub store_state : ℕ → Ril → Option Ril → Option Ril
store_state now w powered =
    if now == w.radio
    then some (record w { radio = now })
    else if now == radio_state_sim_not_ready
    then powered
    else some (state_changed now w)

module _ (host : Host) where
  -- The commands of onRadioPowerOn, with USE_TI_COMMANDS
  abbrev pub power_on_query : Query (Unit {0})
  power_on_query sent =
      Query.◌>>◌ (send_only host (codes "AT%CPHS=1")) (send_only host (codes "AT%CTZV=1")) sent

  abbrev pub power_on_commands : Action
  power_on_commands w = settle power_on_query (λ _ w'. some w') (λ w'. some w') w

  -- setRadioState calls onRadioPowerOn, which calls pollSIMState, which calls setRadioState; onSIMReady
  -- does nothing. The first argument bounds the calls.
  unfoldable pub set_radio_state : ℕ → ℕ → Action
  set_radio_state zero new w = none
  set_radio_state (suc n) new w =
      let now = stored_state w.closed new in
      store_state now w
        (power_on_commands (state_changed now w) >>= set_radio_state n radio_state_sim_ready)

  -- Two calls are enough.
  unfoldable pub set_radio : ℕ → Action
  unfolding set_radio_state
  set_radio new w = set_radio_state 2 new w

  -- isRadioOn, whose query is compiled out
  abbrev pub is_radio_on : ℤ
  is_radio_on = pos 1

  abbrev pub set_and_succeed : ℕ → ℕ → Action
  set_and_succeed t new w = set_radio new w >>= λ w'. some (complete_null t success w')

  abbrev pub power_off : ℕ → Action
  power_off t =
      settle (Query.◌>>=◌ (send_command host (codes "AT+CFUN=0")) succeeded)
        (λ _. set_and_succeed t radio_state_off) (fail_with t generic_failure_error)

  -- When the command fails, the radio may have turned on anyway.
  abbrev pub power_on : ℕ → Action
  power_on t =
      settle (Query.◌>>=◌ (send_command host (codes "AT+CFUN=1")) succeeded)
        (λ _. set_and_succeed t radio_state_sim_not_ready)
        (λ w.
          if is_radio_on ==ℤ pos 1
          then set_and_succeed t radio_state_sim_not_ready w
          else fail_with t generic_failure_error w)

  abbrev pub is_positive : ℤ → Bool
  is_positive z = not (is_neg z) && not (z ==ℤ pos 0)

  abbrev pub switch_power : ℤ → ℕ → Action
  switch_power on_off t w =
      if on_off ==ℤ pos 0 && not (w.radio == radio_state_off)
      then power_off t w
      else if is_positive on_off && w.radio == radio_state_off
      then power_on t w
      else some (complete_null t success w)

  -- The assertion asks for the size of a pointer.
  unfoldable pub request_radio_power : Data → ℕ → ℕ → Action
  unfolding set_radio
  request_radio_power (Data.ints (on_off ∷ vs)) len t w =
      if ltb len host.platform.size_ptr then none else switch_power on_off t w
  request_radio_power _ len t w = none

  unfoldable pub initialize_callback : Action
  unfolding set_radio
  initialize_callback w = set_radio radio_state_off w >>= λ w'.
      if is_neg is_radio_on || is_radio_on ==ℤ pos 0
      then some w'
      else set_radio radio_state_sim_not_ready w'

  -- The channel is closed, which is AtChannel's part.
  unfoldable pub on_at_reader_closed : Action
  unfolding set_radio
  on_at_reader_closed w = set_radio radio_state_unavailable (record w { closed = 1 })

  unfoldable pub on_at_timeout : Action
  unfolding set_radio
  on_at_timeout w = set_radio radio_state_unavailable (record w { closed = 1 })

  -- One round of mainLoop: the device is open, and at_open succeeds.
  unfoldable pub open_channel : Ril → Ril
  open_channel w = request_timed_callback initialize (record w { closed = 0 })
