-- ===== src/ReferenceRil/State.antt =====
-- The state of reference-ril/reference-ril.c and its calls of libril: RIL_onRequestComplete,
-- RIL_onUnsolicitedResponse and RIL_requestTimedCallback, which are recorded.
use rild_hisi.Common.{ℕ, List, ◌∷◌, Option, none, some}
use rild_hisi.Telephony.Data.{Data}
use rild_hisi.ReferenceRil.CallList.{CallsState}
use rild_hisi.ReferenceRil.Query.{Command, Result, ok, err, fault, Query, Host, send_only}

-- The arguments of RIL_onRequestComplete; `length` is responselen.
pub record Completed : Type 0 where
  pub token : ℕ
  pub error : ℕ
  pub response : Data
  pub length : ℕ

pub record Unsolicited : Type 0 where
  pub response_code : ℕ
  pub response : Data
  pub length : ℕ

-- The functions that RIL_requestTimedCallback is given.
pub data TimedCallback : Type 0 where
  on_data_call_list_changed send_call_state_changed initialize : TimedCallback

-- `radio` is sState and `closed` s_closed; the lists have what came last at the head.
pub record Ril : Type 0 where
  pub radio : ℕ
  pub closed : ℕ
  pub calls : CallsState
  pub sent : List Command
  pub completions : List Completed
  pub unsolicited : List Unsolicited
  pub timed : List TimedCallback

abbrev pub radio_state_off : ℕ
radio_state_off = 0

abbrev pub radio_state_unavailable : ℕ
radio_state_unavailable = 1

abbrev pub radio_state_sim_not_ready : ℕ
radio_state_sim_not_ready = 2

abbrev pub radio_state_sim_ready : ℕ
radio_state_sim_ready = 4

-- RIL_E_SUCCESS
abbrev pub success : ℕ
success = 0

-- RIL_E_RADIO_NOT_AVAILABLE
abbrev pub radio_not_available : ℕ
radio_not_available = 1

-- RIL_E_GENERIC_FAILURE
abbrev pub generic_failure_error : ℕ
generic_failure_error = 2

-- RIL_E_PASSWORD_INCORRECT
abbrev pub password_incorrect : ℕ
password_incorrect = 3

-- RIL_E_REQUEST_NOT_SUPPORTED
abbrev pub request_not_supported : ℕ
request_not_supported = 6

abbrev pub complete : ℕ → ℕ → Data → ℕ → Ril → Ril
complete t e response length w = record w {
  completions =
      record { token = t; error = e; response = response; length = length } ∷ w.completions;
}

-- RIL_onRequestComplete (t, e, NULL, 0)
abbrev pub complete_null : ℕ → ℕ → Ril → Ril
complete_null t e w = complete t e Data.null 0 w

abbrev pub unsolicited_response : ℕ → Data → ℕ → Ril → Ril
unsolicited_response code response length w = record w {
  unsolicited =
      record { response_code = code; response = response; length = length } ∷ w.unsolicited;
}

abbrev pub request_timed_callback : TimedCallback → Ril → Ril
request_timed_callback f w = record w { timed = f ∷ w.timed }

-- A request changes the state; `none` stands for undefined behaviour.
abbrev pub Action : Type 0
Action = Ril → Option Ril

-- What follows a query that ends before `error`, or at it.
abbrev pub settle_result : {A : Type 0} → Result A → (A → Action) → Action → Ril → Option Ril
settle_result (ok a sent) k e w = k a (record w { sent = sent })
settle_result (err sent) k e w = e (record w { sent = sent })
settle_result fault k e w = none

unfoldable pub settle : {A : Type 0} → Query A → (A → Action) → Action → Action
settle q k e w = settle_result (q w.sent) k e w

abbrev pub fail_with : ℕ → ℕ → Action
fail_with t e w = some (complete_null t e w)

-- The response, or RIL_E_GENERIC_FAILURE at the label `error`.
abbrev pub reply : ℕ → Query (Data × ℕ) → Action
reply t q =
    settle q (λ (d, n) w. some (complete t success d n w)) (fail_with t generic_failure_error)

-- The same, if there is no response.
abbrev pub reply_null : ℕ → Query (Unit {0}) → Action
reply_null t q =
    settle q (λ _ w. some (complete_null t success w)) (fail_with t generic_failure_error)

-- at_send_command (text, NULL), then RIL_E_SUCCESS
abbrev pub send_and_succeed : Host → ℕ → List ℕ → Action
send_and_succeed host t text = reply_null t (send_only host text)
