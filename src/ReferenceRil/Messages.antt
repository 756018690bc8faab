-- ===== src/ReferenceRil/Messages.antt =====
-- The requests of reference-ril/reference-ril.c for calls and short messages: requestDial,
-- requestHangup, requestWriteSmsToSim, requestSendSMS, requestSMSAcknowledge, requestSendUSSD.
use rild_hisi.Common.{ℕ, ◌/◌, [], ◌∷◌, ◌++◌, none, some, length, codes, if◌then◌else◌}
use rild_hisi.Common.Int.{ℤ, pos, ◌==ℤ◌}
use rild_hisi.Telephony.{Bytes, CString, SmsWriteArgs}
use rild_hisi.Telephony.Data.{Data}
use rild_hisi.Parcel.{Struct}
use rild_hisi.AtTok.Fields.{print_int}
use rild_hisi.ReferenceRil.Printing.{not_null}
use rild_hisi.ReferenceRil.Query.{
  Host, Query, ◌>>=◌, pure, go_error, undefined, send_only, send_sms, succeeded_zero,
}
use rild_hisi.ReferenceRil.State.{
  Action, success, generic_failure_error, request_not_supported, complete_null, settle, fail_with,
  reply, reply_null,
}

-- The first `int` of the request
abbrev pub first_int : Data → Query ℤ
first_int (Data.ints (z ∷ zs)) = pure z
first_int _ = undefined

abbrev pub clir_suffix : ℤ → Bytes
clir_suffix clir = if clir ==ℤ pos 1 then codes "I" else if clir ==ℤ pos 2 then codes "i" else []

abbrev pub dial_command : Data → Query Bytes
dial_command (Data.dial d) = do
  address ← not_null d.address
  pure (codes "ATD" ++ address ++ clir_suffix d.clir ++ codes ";")
dial_command _ = undefined

-- strlen (pdu) / 2
abbrev pub pdu_length : Bytes → Bytes
pdu_length pdu = print_int (pos (length pdu / 2))

abbrev pub write_args : Data → Query SmsWriteArgs
write_args (Data.sms_write_args a) = pure a
write_args _ = undefined

abbrev pub smsc_or_default : CString → Bytes
smsc_or_default none = codes "00"
smsc_or_default (some s) = s

-- The service centre, with its default, and the message
abbrev pub smsc_and_pdu : Data → Query (Bytes × Bytes)
smsc_and_pdu (Data.strings (smsc ∷ pdu ∷ more)) = do
  p ← not_null pdu
  pure (smsc_or_default smsc, p)
smsc_and_pdu _ = undefined

module _ (host : Host) where
  open host.platform use {size_of}

  -- The result of the command is ignored.
  unfoldable pub request_dial : Data → ℕ → Action
  request_dial request t = reply_null t (dial_command request >>= send_only host)

  unfoldable pub request_hangup : Data → ℕ → Action
  unfolding print_int
  request_hangup request t =
      reply_null t
        (first_int request >>= λ line. send_only host (codes "AT+CHLD=1" ++ print_int line))

  abbrev pub write_sms_query : Data → Query (Unit {0})
  write_sms_query request = do
    a ← write_args request
    pdu ← not_null a.pdu
    answer ←
        send_sms host (codes "AT+CMGW=" ++ pdu_length pdu ++ b',' ∷ print_int a.status) pdu
          (codes "+CMGW:")
    _ ← succeeded_zero answer
    pure tt

  unfoldable pub request_write_sms_to_sim : Data → ℕ → Action
  unfolding print_int
  request_write_sms_to_sim request t = reply_null t (write_sms_query request)

  abbrev pub send_sms_query : Data → Query (Data × ℕ)
  send_sms_query request = do
    (smsc, pdu) ← smsc_and_pdu request
    answer ← send_sms host (codes "AT+CMGS=" ++ pdu_length pdu) (smsc ++ pdu) (codes "+CMGS:")
    _ ← succeeded_zero answer
    pure (
      Data.sms_response (record { message_ref = pos 0; ack_pdu = none; error_code = pos 0 }),
      size_of Struct.sms_response,
    )

  unfoldable pub request_send_sms : Data → ℕ → Action
  unfolding print_int
  request_send_sms request t = reply t (send_sms_query request)

  abbrev pub acknowledge : ℤ → Query (Unit {0})
  acknowledge z =
      if z ==ℤ pos 1
      then send_only host (codes "AT+CNMA=1")
      else if z ==ℤ pos 0
      then send_only host (codes "AT+CNMA=2")
      else go_error

  -- The success runs on into the label `error`.
  unfoldable pub request_sms_acknowledge : Data → ℕ → Action
  request_sms_acknowledge request t =
      settle (first_int request >>= acknowledge)
        (λ _ w. fail_with t generic_failure_error (complete_null t success w))
        (fail_with t generic_failure_error)

  unfoldable pub request_send_ussd : ℕ → Action
  request_send_ussd t w = some (complete_null t request_not_supported w)
