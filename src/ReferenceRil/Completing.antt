-- ===== src/ReferenceRil/Completing.antt =====
-- How often the requests for lists of reference-ril/reference-ril.c are completed.
use rild_hisi.Common.{
  ℕ, ◌≡◌, refl, Bool, true, false, ◌||◌, List, [], ◌∷◌, Option, none, some, ◌==◌, leb, length, map,
  if◌then◌else◌, Bool-cases, inl, inr,
}
use rild_hisi.Common.Int.{ℤ, pos, negsuc, is_neg}
use rild_hisi.Telephony.{Bytes}
use rild_hisi.AtTok.{at_tok_start}
use rild_hisi.AtChannel.Commands.{AtResponse}
use rild_hisi.ReferenceRil.Lists.{
  Completions, fault, completed, Texts, overflow, failed, texts, on_success, complete_texts,
  read_line, success_with, request_port_list, request_pdp_addr, request_dhcp_info,
}

-- RIL_onRequestComplete is called so often, if nothing is undefined.
abbrev pub IsCompleted : ℕ → Completions → Type 0
IsCompleted n fault = Unit
IsCompleted n (completed cs) = length cs ≡ n

-- The command failed.
abbrev pub is_refused : ℤ → Option AtResponse → Bool
is_refused err none = is_neg err
is_refused err (some r) = is_neg err || r.success == 0

abbrev pub times : ℤ → Option AtResponse → ℕ
times err response = if is_refused err response then 2 else 1

on_success-IsCompleted :
    (err : ℤ) (response : Option AtResponse) (go : AtResponse → Completions)
    → ((r : AtResponse) → IsCompleted 1 (go r))
    → IsCompleted (times err response) (on_success err response go)
on_success-IsCompleted (negsuc e) none go h = refl
on_success-IsCompleted (negsuc e) (some r) go h = refl
on_success-IsCompleted (pos e) none go h = tt
on_success-IsCompleted (pos e) (some r) go h = elim (Bool-cases (r.success == 0)) [
  | inl error ↦ rw error refl
  | inr fine ↦ rw fine (h r)
]

complete_texts-IsCompleted : (t : Texts) → IsCompleted 1 (complete_texts t)
complete_texts-IsCompleted overflow = tt
complete_texts-IsCompleted failed = refl
complete_texts-IsCompleted (texts ts) = refl

pub read_line-IsCompleted : (line : Bytes) → IsCompleted 1 (read_line line)
unfolding read_line
read_line-IsCompleted line = elim (Bool-cases (at_tok_start (some line)).ok) [
  | inl colon ↦ rw colon (complete_texts-IsCompleted _)
  | inr bare ↦ rw bare refl
]

first_line-IsCompleted :
    (lines : List Bytes)
    → IsCompleted 1
        (elim lines [ [] ↦ completed (success_with none ∷ []) | line ∷ rest ↦ read_line line ])
first_line-IsCompleted [] = refl
first_line-IsCompleted (line ∷ rest) = read_line-IsCompleted line

room-IsCompleted :
    (lines : List Bytes) (fits : Bool)
    → IsCompleted 1 (if fits then completed (success_with (some (map some lines)) ∷ []) else fault)
room-IsCompleted lines true = refl
room-IsCompleted lines false = tt

-- The three requests for lists are completed once, whatever the modem answers, as long as the texts
-- have room; but when the command itself fails they are completed twice.
pub request_lists-IsCompleted :
    (err : ℤ) (response : Option AtResponse)
    → IsCompleted (times err response) (request_port_list err response)
      × IsCompleted (times err response) (request_pdp_addr err response)
      × IsCompleted (times err response) (request_dhcp_info err response)
unfolding request_port_list request_pdp_addr request_dhcp_info
request_lists-IsCompleted err response =
    let pdp = on_success-IsCompleted err response _ (λ r. first_line-IsCompleted r.intermediates) in
    (
      on_success-IsCompleted err response _
          (λ r. room-IsCompleted r.intermediates (leb (length r.intermediates) 20)),
      pdp,
      pdp,
    )
