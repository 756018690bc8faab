-- ===== src/ReferenceRil/Network.antt =====
-- The requests for the network in reference-ril/reference-ril.c: requestSignalStrength,
-- requestRegistrationState, requestOperator, requestQueryNetworkSelectionMode.
use rild_hisi.Common.{
  ℕ, zero, suc, ◌*◌, not, List, [], ◌∷◌, Option, none, some, length, ◌==◌, codes, if◌then◌else◌,
}
use rild_hisi.Common.Int.{ℤ, negsuc}
use rild_hisi.Telephony.{Bytes, CString}
use rild_hisi.Telephony.Data.{Data}
use rild_hisi.AtTok.{at_tok_hasmore}
use rild_hisi.AtTok.Fields.{print_int}
use rild_hisi.ReferenceRil.Lists.{count_commas}
use rild_hisi.AtTok.Fields.Hex.{print_hex}
use rild_hisi.ReferenceRil.Query.{
  Host, Query, ◌>>=◌, ◌>>◌, pure, go_error, undefined, error_if, send_singleline, send_multiline,
  succeeded, response_zero, first_line, start, next_int, next_hex_int, next_str,
}
use rild_hisi.ReferenceRil.State.{
  Action, generic_failure_error, complete_null, settle, fail_with, reply,
}

-- RIL_REQUEST_REGISTRATION_STATE
abbrev pub request_registration_state_number : ℕ
request_registration_state_number = 20

-- RIL_REQUEST_GPRS_REGISTRATION_STATE
abbrev pub request_gprs_registration_state_number : ℕ
request_gprs_registration_state_number = 21

-- response[0] to response[2], and response[3] if `count` is 4.
pub record Registration : Type 0 where
  pub stat : ℤ
  pub lac : ℤ
  pub cid : ℤ
  pub network_type : Option ℤ

abbrev pub registration : ℤ → ℤ → ℤ → Option ℤ → Registration
registration stat lac cid type = record { stat = stat; lac = lac; cid = cid; network_type = type }

abbrev pub registration_strings : Registration → List CString
registration_strings r =
    some (print_int r.stat)
    ∷ some (print_hex r.lac)
    ∷ some (print_hex r.cid)
    ∷ elim r.network_type [ none ↦ [] | some n ↦ some (print_int n) ∷ [] ]

module _ (host : Host) where
  open host.platform use {size_int, size_ptr}

  abbrev pub signal_strength_values : CString → Query (Data × ℕ)
  signal_strength_values line = do
    cur ← start line
    (rssi, cur1) ← next_int host cur
    (ber, cur2) ← next_int host cur1
    pure (Data.ints (rssi ∷ ber ∷ []), 2 * size_int)

  -- The switch over the number of commas
  unfoldable pub read_registration : ℕ → CString → Query Registration
  read_registration zero cur = do
    (stat, end) ← next_int host cur
    pure (registration stat (negsuc 0) (negsuc 0) none)
  read_registration (suc zero) cur = do
    (skip, cur1) ← next_int host cur
    (stat, end) ← next_int host cur1
    pure (registration stat (negsuc 0) (negsuc 0) none)
  read_registration (suc (suc zero)) cur = do
    (stat, cur1) ← next_int host cur
    (lac, cur2) ← next_hex_int host cur1
    (cid, end) ← next_hex_int host cur2
    pure (registration stat lac cid none)
  read_registration (suc (suc (suc zero))) cur = do
    (skip, cur1) ← next_int host cur
    (stat, cur2) ← next_int host cur1
    (lac, cur3) ← next_hex_int host cur2
    (cid, end) ← next_hex_int host cur3
    pure (registration stat lac cid none)
  read_registration (suc (suc (suc (suc zero)))) cur = do
    (skip, cur1) ← next_int host cur
    (stat, cur2) ← next_int host cur1
    (lac, cur3) ← next_hex_int host cur2
    (cid, cur4) ← next_hex_int host cur3
    (type, end) ← next_hex_int host cur4
    pure (registration stat lac cid (some type))
  read_registration _ cur = go_error

  -- The text of a line, which is not NULL behind at_tok_start.
  abbrev pub commas_of : CString → ℕ
  commas_of none = 0
  commas_of (some s) = count_commas s

  abbrev pub registration_query : Bytes → Bytes → Query (Data × ℕ)
  registration_query command prefix = do
    answer ← send_singleline host command prefix
    r ← response_zero answer
    line ← first_line r
    cur ← start line
    reg ← read_registration (commas_of cur) cur
    pure (Data.strings (registration_strings reg), length (registration_strings reg) * size_ptr)

  -- The first argument is `request`; the assertion fails for others.
  unfoldable pub request_registration_state : ℕ → ℕ → Action
  unfolding read_registration
  request_registration_state request t =
      if request == request_registration_state_number
      then reply t (registration_query (codes "AT+CREG?") (codes "+CREG:"))
      else if request == request_gprs_registration_state_number
      then reply t (registration_query (codes "AT+CGREG?") (codes "+CGREG:"))
      else λ w. none

  -- When the command fails, the request is completed before the jump to `error`, and there again.
  unfoldable pub request_signal_strength : ℕ → Action
  request_signal_strength t =
      settle (send_singleline host (codes "AT+CSQ") (codes "+CSQ:") >>= succeeded)
        (λ r. reply t (first_line r >>= signal_strength_values))
        (λ w. fail_with t generic_failure_error (complete_null t generic_failure_error w))

  abbrev selection_mode_query : Query (Data × ℕ)
  selection_mode_query = do
    answer ← send_singleline host (codes "AT+COPS?") (codes "+COPS:")
    r ← succeeded answer
    line ← first_line r
    cur ← start line
    (mode, end) ← next_int host cur
    pure (Data.ints (mode ∷ []), size_int)

  unfoldable pub request_query_network_selection_mode : ℕ → Action
  request_query_network_selection_mode t = reply t selection_mode_query

  abbrev operator_name : CString → Query CString
  operator_name cur =
      if not (at_tok_hasmore cur) then pure none else do (name, end) ← next_str cur; pure name

  abbrev operator_format : CString → Query CString
  operator_format cur =
      if not (at_tok_hasmore cur)
      then pure none
      else do (format, cur1) ← next_int host cur; operator_name cur1

  -- What a line writes to response[i]
  unfoldable pub operator_line : Bytes → Query CString
  operator_line line = do
    cur ← start (some line)
    (mode, cur1) ← next_int host cur
    operator_format cur1

  -- The lines that are left, and the room for them in `response`.
  unfoldable pub operator_lines : ℕ → List Bytes → Query (List CString)
  unfolding operator_line
  operator_lines room [] = pure []
  operator_lines zero (line ∷ lines) = do _ ← operator_line line; undefined
  operator_lines (suc room) (line ∷ lines) = do
    entry ← operator_line line
    rest ← operator_lines room lines
    pure (entry ∷ rest)

  abbrev operator_query : Query (Data × ℕ)
  operator_query = do
    answer ←
        send_multiline host (codes "AT+COPS=3,0;+COPS?;+COPS=3,1;+COPS?;+COPS=3,2;+COPS?")
          (codes "+COPS:")
    r ← response_zero answer
    names ← operator_lines 3 r.intermediates
    error_if (not (length names == 3))
    pure (Data.strings names, 3 * size_ptr)

  unfoldable pub request_operator : ℕ → Action
  unfolding operator_lines
  request_operator t = reply t operator_query
