-- ===== src/ReferenceRil/Query.antt =====
-- How the requests of reference-ril/reference-ril.c ask the modem: the calls of at_send_command* and
-- of the tokenizer, each with the test behind it, as steps of a do block. `goto error` is an
-- exception.
use rild_hisi.Common.{
  ℕ, zero, Bool, true, false, List, [], ◌∷◌, Option, none, some, ◌==◌, if◌then◌else◌,
}
use rild_hisi.Common.Int.{ℤ, pos, is_neg}
use rild_hisi.Telephony.{Bytes, CString}
use rild_hisi.Parcel.{Platform}
use rild_hisi.AtTok.{Parsed, at_tok_start, at_tok_nextint, at_tok_nexthexint, at_tok_nextstr}
use rild_hisi.AtChannel.Commands.{
  AtCommandType, no_result, numeric, singleline, multiline, AtResponse,
}

-- A call of at_send_command*. `wanted`: pp_outResponse is not NULL.
pub record Command : Type 0 where
  pub type : AtCommandType
  pub text : Bytes
  pub prefix : CString
  pub pdu : CString
  pub wanted : Bool

-- `answer` is what the call at the head of the list returns and writes through pp_outResponse; the
-- calls before it follow. It stands for AtChannel. `long_max` is LONG_MAX.
pub record Host : Type 1 where
  pub answer : List Command → ℤ × Option AtResponse
  pub long_max : ℕ
  pub platform : Platform

-- What stands before the label `error`: it is passed, jumped to, or something is undefined.
pub data Result (A : Type 0) : Type 0 where
  ok : A → List Command → Result A
  err : List Command → Result A
  fault : Result A

-- The list has the commands that were sent, the last first.
abbrev pub Query : Type 0 → Type 0
Query A = List Command → Result A

module _ {A : Type 0} where
  abbrev pub pure : A → Query A
  pure a sent = ok a sent

  -- goto error
  abbrev pub go_error : Query A
  go_error sent = err sent

  abbrev pub undefined : Query A
  undefined sent = fault

unfoldable pub and_then : {A B : Type 0} → Result A → (A → Query B) → Result B
and_then (ok a sent) f = f a sent
and_then (err sent) f = err sent
and_then fault f = fault

infixl 5 ◌>>=◌ ◌>>◌
abbrev pub ◌>>=◌ : {A B : Type 0} → Query A → (A → Query B) → Query B
◌>>=◌ m f sent = and_then (m sent) f

abbrev pub ◌>>◌ : {B : Type 0} → Query (Unit {0}) → Query B → Query B
m >> k = m >>= λ _. k

-- if (b) goto error;
abbrev pub error_if : Bool → Query (Unit {0})
error_if b sent = if b then err sent else ok tt sent

-- p_response->success == 0
abbrev pub check_success : Option AtResponse → Query AtResponse
check_success none = undefined
check_success (some r) = do error_if (r.success == 0); pure r

-- if (err < 0 || p_response->success == 0) goto error;
abbrev pub succeeded : ℤ × Option AtResponse → Query AtResponse
succeeded (e, r) = do error_if (is_neg e); check_success r

-- if (err != 0 || p_response->success == 0) goto error;
abbrev pub succeeded_zero : ℤ × Option AtResponse → Query AtResponse
succeeded_zero (pos zero, r) = check_success r
succeeded_zero (_, r) = go_error

-- p_response, behind if (err != 0) goto error;
abbrev pub response_zero : ℤ × Option AtResponse → Query AtResponse
response_zero (pos zero, some r) = pure r
response_zero (pos zero, none) = undefined
response_zero (_, r) = go_error

-- p_response->p_intermediates->line
abbrev pub first_line : AtResponse → Query CString
first_line r = elim r.intermediates [ [] ↦ undefined | line ∷ lines ↦ pure (some line) ]

-- A token that is read, or goto error; a token that counts as read is written.
abbrev pub token : {A : Type 0} → Parsed A → Query (A × CString)
token r = if r.ok then elim r.out [ none ↦ undefined | some a ↦ pure (a, r.cur) ] else go_error

abbrev pub start : CString → Query CString
start line = let r = at_tok_start line in if r.ok then pure r.cur else go_error

-- A text, which may be NULL
abbrev pub next_str : CString → Query (CString × CString)
next_str cur = token (at_tok_nextstr cur)

module _ (host : Host) where
  abbrev pub next_int : CString → Query (ℤ × CString)
  next_int cur = token (at_tok_nextint host.long_max cur)

  abbrev pub next_hex_int : CString → Query (ℤ × CString)
  next_hex_int cur = token (at_tok_nexthexint host.long_max cur)

  abbrev pub send : Command → Query (ℤ × Option AtResponse)
  send c sent = ok (host.answer (c ∷ sent)) (c ∷ sent)

  abbrev pub send_command : Bytes → Query (ℤ × Option AtResponse)
  send_command text =
      send (record { type = no_result; text = text; prefix = none; pdu = none; wanted = true })

  -- at_send_command (text, NULL), where the result is ignored
  abbrev pub send_only : Bytes → Query (Unit {0})
  send_only text = do
    _ ← send (record { type = no_result; text = text; prefix = none; pdu = none; wanted = false })
    pure tt

  abbrev pub send_singleline : Bytes → Bytes → Query (ℤ × Option AtResponse)
  send_singleline text prefix =
      send
        (record { type = singleline; text = text; prefix = some prefix; pdu = none; wanted = true })

  abbrev pub send_multiline : Bytes → Bytes → Query (ℤ × Option AtResponse)
  send_multiline text prefix =
      send
        (record { type = multiline; text = text; prefix = some prefix; pdu = none; wanted = true })

  abbrev pub send_numeric : Bytes → Query (ℤ × Option AtResponse)
  send_numeric text =
      send (record { type = numeric; text = text; prefix = none; pdu = none; wanted = true })

  abbrev pub send_sms : Bytes → Bytes → Bytes → Query (ℤ × Option AtResponse)
  send_sms text pdu prefix = send (record {
    type = singleline;
    text = text;
    prefix = some prefix;
    pdu = some pdu;
    wanted = true;
  })
