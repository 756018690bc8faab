-- ===== src/ReferenceRil/Lists.antt =====
-- requestPortList, requestPdpAddr and requestDhcpInfo of reference-ril/reference-ril.c: lists of texts
-- that a modem answers. What at_send_command_multiline and at_send_command_singleline answer is an
-- argument.
use rild_hisi.Common.{
  ℕ, zero, suc, ◌+◌, List, [], ◌∷◌, Option, none, some, ◌==◌, leb, length, map, if◌then◌else◌,
}
use rild_hisi.Common.Int.{ℤ, is_neg}
use rild_hisi.Telephony.{Bytes, CString}
use rild_hisi.AtTok.{at_tok_start, at_tok_nextstr}
use rild_hisi.AtChannel.Commands.{AtResponse}

-- The calls of RIL_onRequestComplete for the token, in order; `none` is a payload that is NULL.
pub record Completion : Type 0 where
  pub error : ℕ
  pub texts : Option (List CString)

-- `fault`: a write out of `response`, or NULL is read.
pub data Completions : Type 0 where
  fault : Completions
  completed : List Completion → Completions

-- RIL_E_GENERIC_FAILURE without payload, and success
abbrev failure : Completion
failure = record { error = 2; texts = none }

abbrev pub success_with : Option (List CString) → Completion
success_with texts = record { error = 0; texts = texts }

-- The test behind the command. A failure is reported before the jump to `error`, and there again.
abbrev pub on_success : ℤ → Option AtResponse → (AtResponse → Completions) → Completions
on_success err response go =
    if is_neg err then completed (failure ∷ failure ∷ []) else elim response [
      | none ↦ fault
      | some r ↦ if r.success == 0 then completed (failure ∷ failure ∷ []) else go r
    ]

-- `response` has room for 20 lines.
unfoldable pub request_port_list : ℤ → Option AtResponse → Completions
request_port_list err response = on_success err response λ r.
    if leb (length r.intermediates) 20
    then completed (success_with (some (map some r.intermediates)) ∷ [])
    else fault

unfoldable pub count_commas : Bytes → ℕ
count_commas [] = 0
count_commas (c ∷ cs) = let n = count_commas cs in if c == b',' then suc n else n

-- What the loop over the texts comes to.
pub data Texts : Type 0 where
  overflow failed : Texts
  texts : List CString → Texts

abbrev with_text : Option CString → Texts → Texts
with_text none rest = failed
with_text (some t) overflow = overflow
with_text (some t) failed = failed
with_text (some t) (texts ts) = texts (t ∷ ts)

-- The texts that are left, and the room for them.
unfoldable pub read_texts : ℕ → ℕ → CString → Texts
unfolding at_tok_nextstr
read_texts zero room cur = texts []
read_texts (suc n) zero cur = if (at_tok_nextstr cur).ok then overflow else failed
read_texts (suc n) (suc room) cur =
    let r = at_tok_nextstr cur in
    let rest = read_texts n room r.cur in if r.ok then with_text r.out rest else failed

abbrev pub complete_texts : Texts → Completions
complete_texts overflow = fault
complete_texts failed = completed (failure ∷ [])
complete_texts (texts ts) = completed (success_with (some ts) ∷ [])

-- `response` has room for 10 texts.
unfoldable pub read_line : Bytes → Completions
unfolding at_tok_start read_texts count_commas
read_line line =
    let start = at_tok_start (some line) in
    if start.ok
    then complete_texts (read_texts (count_commas line + 1) 10 start.cur)
    else completed (failure ∷ [])

unfoldable pub request_pdp_addr : ℤ → Option AtResponse → Completions
unfolding read_line
request_pdp_addr err response = on_success err response λ r. elim r.intermediates [
  | [] ↦ completed (success_with none ∷ [])
  | line ∷ lines ↦ read_line line
]

-- The same code, for another command
unfoldable pub request_dhcp_info : ℤ → Option AtResponse → Completions
unfolding request_pdp_addr
request_dhcp_info err response = request_pdp_addr err response
