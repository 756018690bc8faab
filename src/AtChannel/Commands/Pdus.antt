-- ===== src/AtChannel/Commands/Pdus.antt =====
-- What processLine of reference-ril/atchannel.c passes to the handler of unsolicited lines.
use rild_hisi.Common.{
  ◌≡◌, refl, Bool, true, false, List, [], ◌∷◌, ◌++◌, Option, none, some, All, Bool-cases, inl, inr,
  ◌&&◌, ◌>>=◌, if◌then◌else◌, ◌||◌, ltb,
}
use rild_hisi.Common.Int.{is_neg}
use rild_hisi.Telephony.{Bytes, CString}
use rild_hisi.AtChannel.Writing.{Written, write_terminated}
use rild_hisi.AtChannel.Commands.{
  AtCommandType, AtResponse, handle_final_response, no_result, numeric, singleline, multiline,
  Channel, str_starts_with, process_line, intermediate_line, write_ctrl_z, handle_unsolicited,
  take_if, by_type, pending_line, none_yet, starts_numeric, after_write, is_final_response_success,
  is_final_response_error, is_sms_prompt, send_pdu,
}

-- The handler was only called with NULL for the PDU.
abbrev pub HasNoPdu : Channel → Type 0
HasNoPdu ch = All (λ call. call.1 ≡ none) ch.unsolicited

abbrev pub EndsWithoutPdu : Option Channel → Type 0
EndsWithoutPdu none = Unit
EndsWithoutPdu (some ch) = HasNoPdu ch

All-without :
    (calls : List (Bytes × CString)) (line : Bytes)
    → All (λ call. call.1 ≡ none) calls
    → All (λ call. call.1 ≡ none) (calls ++ (line, none) ∷ [])
All-without [] line h = (refl, tt)
All-without (c ∷ calls) line h = (h.0, All-without calls line h.1)

handle_unsolicited-HasNoPdu :
    (line : Bytes) (ch : Channel) → HasNoPdu ch → HasNoPdu (handle_unsolicited line none ch)
handle_unsolicited-HasNoPdu line ch h = elim (Bool-cases ch.handles) [
  | inl handles ↦ rw handles (All-without ch.unsolicited line h)
  | inr absent ↦ rw absent h
]

take_if-HasNoPdu :
    (b : Bool) (line : Bytes) (r : AtResponse) (ch : Channel)
    → HasNoPdu ch
    → HasNoPdu (take_if b line r ch)
take_if-HasNoPdu true line r ch h = h
take_if-HasNoPdu false line r ch h = handle_unsolicited-HasNoPdu line ch h

-- The lines that are compared with the prefix
prefixed-EndsWithoutPdu :
    (line : Bytes) (r : AtResponse) (ch : Channel) (prefix : CString)
    → HasNoPdu ch
    → EndsWithoutPdu (prefix >>= λ p. some (take_if (str_starts_with line p) line r ch))
prefixed-EndsWithoutPdu line r ch none h = tt
prefixed-EndsWithoutPdu line r ch (some p) h = take_if-HasNoPdu (str_starts_with line p) line r ch h

singleline-EndsWithoutPdu :
    (line : Bytes) (r : AtResponse) (ch : Channel) (b : Bool)
    → HasNoPdu ch
    → EndsWithoutPdu (
        if b
        then (ch.response_prefix >>= λ p. some (take_if (str_starts_with line p) line r ch))
        else some (handle_unsolicited line none ch))
singleline-EndsWithoutPdu line r ch true h = prefixed-EndsWithoutPdu line r ch ch.response_prefix h
singleline-EndsWithoutPdu line r ch false h = handle_unsolicited-HasNoPdu line ch h

by_type-EndsWithoutPdu :
    (line : Bytes) (r : AtResponse) (ch : Channel) (type : AtCommandType)
    → HasNoPdu ch
    → EndsWithoutPdu (by_type type line r ch)
by_type-EndsWithoutPdu line r ch no_result h = handle_unsolicited-HasNoPdu line ch h
by_type-EndsWithoutPdu line r ch numeric h =
    take_if-HasNoPdu (none_yet r && starts_numeric line) line r ch h
by_type-EndsWithoutPdu line r ch singleline h = singleline-EndsWithoutPdu line r ch (none_yet r) h
by_type-EndsWithoutPdu line r ch multiline h =
    prefixed-EndsWithoutPdu line r ch ch.response_prefix h

send_pdu-EndsWithoutPdu :
    (pdu : Bytes) (ch : Channel) → HasNoPdu ch → EndsWithoutPdu (send_pdu pdu ch)
unfolding write_ctrl_z
send_pdu-EndsWithoutPdu pdu ch h = elim (Bool-cases (is_neg ch.fd || ltb 0 ch.reader_closed)) [
  | inl shut ↦ rw shut h
  | inr up ↦ rw up (after (write_terminated ch.answers pdu 26))
]
  where
    after :
        (w : Option Written)
        → EndsWithoutPdu (after_write ch w >>= λ (err, sent). some (record sent { sms_pdu = none }))
    after none = tt
    after (some w) = h

pending_line-EndsWithoutPdu :
    (line : Bytes) (r : AtResponse) (ch : Channel) (m : CString)
    → HasNoPdu ch
    → EndsWithoutPdu (elim m [
      | none ↦ intermediate_line line r ch
      | some pdu ↦ if is_sms_prompt line then send_pdu pdu ch else intermediate_line line r ch
    ])
unfolding intermediate_line
pending_line-EndsWithoutPdu line r ch none h = by_type-EndsWithoutPdu line r ch ch.type h
pending_line-EndsWithoutPdu line r ch (some pdu) h = elim (Bool-cases (is_sms_prompt line)) [
  | inl prompt ↦ rw prompt (send_pdu-EndsWithoutPdu pdu ch h)
  | inr other ↦ rw other (by_type-EndsWithoutPdu line r ch ch.type h)
]

-- A line that is processed reaches the handler, if it does, with NULL for the PDU.
pub process_line-EndsWithoutPdu :
    (line : Bytes) (ch : Channel) → HasNoPdu ch → EndsWithoutPdu (process_line line ch)
unfolding process_line
process_line-EndsWithoutPdu line ch h = go ch.response
  where
    go :
        (m : Option AtResponse)
        → EndsWithoutPdu (elim m [
          | none ↦ some (handle_unsolicited line none ch)
          | some r ↦
              if is_final_response_success line
              then some (handle_final_response line (record r { success = 1 }) ch)
              else if is_final_response_error line
              then some (handle_final_response line (record r { success = 0 }) ch)
              else pending_line line r ch
        ])
    go none = handle_unsolicited-HasNoPdu line ch h
    go (some r) = elim (Bool-cases (is_final_response_success line)) [
      | inl good ↦ rw good h
      | inr other ↦ elim (Bool-cases (is_final_response_error line)) [
        | inl bad ↦ rw (other, bad) h
        | inr more ↦ rw (other, more) (pending_line-EndsWithoutPdu line r ch ch.sms_pdu h)
      ]
    ]
