-- ===== src/ReferenceRil/Sim.antt =====
-- The SIM in reference-ril/reference-ril.c: getSIMStatus, getCardStatus, requestSIM_IO,
-- requestEnterSimPin.
use rild_hisi.Common.{
  ℕ, zero, suc, ◌*◌, Bool, true, false, not, ◌||◌, [], ◌∷◌, ◌++◌, none, some, ◌==◌, codes,
  replicate, if◌then◌else◌,
}
use rild_hisi.Common.Int.{ℤ, pos, ◌==ℤ◌}
use rild_hisi.Telephony.{Bytes, CString, AppStatus, CardStatus, SimIo}
use rild_hisi.Telephony.Data.{Data}
use rild_hisi.Parcel.{Struct}
use rild_hisi.AtTok.{at_tok_hasmore}
use rild_hisi.AtTok.Fields.{print_int}
use rild_hisi.AtChannel.Commands.{AtResponse}
use rild_hisi.AtChannel.Commands.Sending.{at_get_cme_error}
use rild_hisi.ReferenceRil.Printing.{not_null}
use rild_hisi.ReferenceRil.Query.{
  Host, Result, ok, err, fault, Query, ◌>>=◌, pure, go_error, undefined, send_singleline, succeeded,
  response_zero, first_line, start, next_int, next_str,
}
use rild_hisi.ReferenceRil.State.{
  Action, success, password_incorrect, radio_state_off, radio_state_unavailable, complete,
  complete_null, settle, fail_with, reply,
}

-- SIM_Status
abbrev pub sim_absent : ℕ
sim_absent = 0

abbrev pub sim_not_ready : ℕ
sim_not_ready = 1

abbrev pub sim_ready : ℕ
sim_ready = 2

abbrev pub sim_pin : ℕ
sim_pin = 3

abbrev pub sim_puk : ℕ
sim_puk = 4

abbrev pub sim_network_personalization : ℕ
sim_network_personalization = 5

-- 0 == strcmp (s, t)
unfoldable pub same_text : Bytes → Bytes → Bool
same_text [] [] = true
same_text (x ∷ xs) (y ∷ ys) = let rest = same_text xs ys in if x == y then rest else false
same_text _ _ = false

-- What the answer to AT+CPIN? means; an unknown lock counts as no SIM.
unfoldable pub sim_status_of : Bytes → ℕ
unfolding same_text
sim_status_of s =
    if same_text s (codes "SIM PIN")
    then sim_pin
    else if same_text s (codes "SIM PUK")
    then sim_puk
    else if same_text s (codes "PH-NET PIN")
    then sim_network_personalization
    else if same_text s (codes "READY")
    then sim_ready
    else sim_absent

-- An error is a SIM that is not ready.
abbrev pub or_not_ready : Result ℕ → Result ℕ
or_not_ready (ok s sent) = ok s sent
or_not_ready (err sent) = ok sim_not_ready sent
or_not_ready fault = fault

abbrev pub app : ℤ → ℤ → ℤ → ℤ → AppStatus
app type state perso pin1 = record {
  app_type = type;
  app_state = state;
  perso_substate = perso;
  aid_ptr = none;
  app_label_ptr = none;
  pin1_replaced = pos 0;
  pin1 = pin1;
  pin2 = pos 0;
}

-- app_status_array, by SIM_Status
unfoldable pub app_status : ℕ → AppStatus
app_status zero = app (pos 0) (pos 0) (pos 0) (pos 0)
app_status (suc zero) = app (pos 1) (pos 1) (pos 0) (pos 0)
app_status (suc (suc zero)) = app (pos 1) (pos 5) (pos 2) (pos 0)
app_status (suc (suc (suc zero))) = app (pos 1) (pos 2) (pos 0) (pos 1)
app_status (suc (suc (suc (suc zero)))) = app (pos 1) (pos 3) (pos 0) (pos 4)
app_status (suc (suc (suc (suc (suc n))))) = app (pos 1) (pos 4) (pos 3) (pos 1)

-- RIL_CARD_MAX_APPS
abbrev pub card_max_apps : ℕ
card_max_apps = 8

abbrev absent_card : CardStatus
absent_card = record {
  card_state = pos 0;
  universal_pin_state = pos 0;
  gsm_umts_subscription_app_index = pos card_max_apps;
  cdma_subscription_app_index = pos card_max_apps;
  num_applications = pos 0;
  applications = replicate card_max_apps (app_status sim_absent);
}

unfoldable pub card_status_of : ℕ → CardStatus
unfolding app_status
card_status_of zero = absent_card
card_status_of (suc n) = record {
  card_state = pos 1;
  universal_pin_state = pos 0;
  gsm_umts_subscription_app_index = pos 0;
  cdma_subscription_app_index = pos card_max_apps;
  num_applications = pos 1;
  applications = app_status (suc n) ∷ replicate 7 (app_status sim_absent);
}

module _ (host : Host) where
  open host.platform use {size_ptr, size_of}

  abbrev pub cpin_result : AtResponse → Query ℕ
  cpin_result r = do
    line ← first_line r
    cur ← start line
    (result, end) ← next_str cur
    s ← not_null result
    pure (sim_status_of s)

  -- CME_SUCCESS is 0, CME_SIM_NOT_INSERTED is 10.
  abbrev pub cpin_answer : AtResponse → Query ℕ
  cpin_answer r =
      let cme = at_get_cme_error host.long_max r in
      if cme ==ℤ pos 0
      then cpin_result r
      else if cme ==ℤ pos 10
      then pure sim_absent
      else pure sim_not_ready

  -- The argument is sState.
  unfoldable pub get_sim_status : ℕ → Query ℕ
  unfolding at_get_cme_error sim_status_of
  get_sim_status radio sent =
      if radio == radio_state_off || radio == radio_state_unavailable
      then ok sim_not_ready sent
      else or_not_ready (
          (send_singleline host (codes "AT+CPIN?") (codes "+CPIN:")
              >>= response_zero
              >>= cpin_answer)
            sent)

  -- RIL_REQUEST_GET_SIM_STATUS of onRequest; getCardStatus always returns RIL_E_SUCCESS.
  unfoldable pub request_get_sim_status : ℕ → Action
  unfolding get_sim_status card_status_of
  request_get_sim_status t w =
      settle (get_sim_status w.radio)
        (λ s w'. some (
          complete t success (Data.card_status (card_status_of s)) (size_of Struct.card_status) w'))
        (λ w'. none) w

  abbrev pub comma_int : ℤ → Bytes
  comma_int z = b',' ∷ print_int z

  unfoldable pub sim_io_command : SimIo → Bytes
  unfolding print_int
  sim_io_command a =
      codes "AT+CRSM="
      ++ print_int a.command
      ++ comma_int a.fileid
      ++ comma_int a.p1
      ++ comma_int a.p2
      ++ comma_int a.p3
      ++ elim a.contents [ none ↦ [] | some s ↦ b',' ∷ s ]

  abbrev pub sim_response : CString → Query CString
  sim_response cur =
      if not (at_tok_hasmore cur) then pure none else do (s, end) ← next_str cur; pure s

  abbrev pub sim_io_args : Data → Query SimIo
  sim_io_args (Data.sim_io a) = pure a
  sim_io_args _ = undefined

  abbrev pub sim_io_query : Data → Query (Data × ℕ)
  sim_io_query request = do
    a ← sim_io_args request
    answer ← send_singleline host (sim_io_command a) (codes "+CRSM:")
    r ← succeeded answer
    line ← first_line r
    cur ← start line
    (sw1, cur1) ← next_int host cur
    (sw2, cur2) ← next_int host cur1
    s ← sim_response cur2
    pure (
      Data.sim_io_response (record { sw1 = sw1; sw2 = sw2; sim_response = s }),
      size_of Struct.sim_io_response,
    )

  unfoldable pub request_sim_io : Data → ℕ → Action
  unfolding sim_io_command
  request_sim_io request t = reply t (sim_io_query request)

  -- strings[0], or strings[0] and strings[1], by `datalen`
  abbrev pub pins : Data → ℕ → Query Bytes
  pins (Data.strings (s ∷ ss)) len = do
    first ← not_null s
    if len == size_ptr then pure first else elim ss [
      | [] ↦ undefined
      | s' ∷ more ↦ not_null s' >>= λ second. pure (first ++ b',' ∷ second)
    ]
  pins _ len = undefined

  abbrev pub enter_sim_pin_query : Data → ℕ → Query (Unit {0})
  enter_sim_pin_query request len =
      if not (len == size_ptr || len == 2 * size_ptr) then go_error else do
        entered ← pins request len
        answer ← send_singleline host (codes "AT+CPIN=" ++ entered) (codes "+CPIN:")
        _ ← succeeded answer
        pure tt

  unfoldable pub request_enter_sim_pin : Data → ℕ → ℕ → Action
  request_enter_sim_pin request len t =
      settle (enter_sim_pin_query request len) (λ _ w. some (complete_null t success w))
        (fail_with t password_incorrect)
