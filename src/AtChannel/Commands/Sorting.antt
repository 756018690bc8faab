-- ===== src/AtChannel/Commands/Sorting.antt =====
-- How the lines that arrive are sorted while a command of reference-ril/atchannel.c waits.
use rild_hisi.Common.{
  ◌≡◌, sym, ap, ◌∙◌, Bool, true, false, ◌&&◌, List, [], ◌∷◌, ◌++◌, none, some, All, Bool-cases, inl,
  inr, if◌then◌else◌, append_assoc, append-nil, map, ◌>>=◌,
}
use rild_hisi.Telephony.{Bytes, CString}
use rild_hisi.AtChannel.Commands.{
  AtCommandType, no_result, numeric, singleline, multiline, Channel, str_starts_with, process_line,
  intermediate_line, is_final_response_success, is_final_response_error, is_sms_prompt,
  starts_numeric,
}
use rild_hisi.AtChannel.Commands.Sending.{AtEvent, heard, reverse_onto, wait}

-- A command of the type asks for the line.
unfoldable pub wants : AtCommandType → CString → Bytes → Bool
unfolding str_starts_with
wants no_result prefix line = false
wants numeric prefix line = starts_numeric line
wants singleline none line = false
wants singleline (some p) line = str_starts_with line p
wants multiline none line = false
wants multiline (some p) line = str_starts_with line p

-- More than one line is asked for.
abbrev pub is_many : AtCommandType → Bool
is_many multiline = true
is_many _ = false

-- Types that look at the prefix have one.
abbrev pub HasPrefix : AtCommandType → CString → Type 0
HasPrefix singleline none = ⊥
HasPrefix multiline none = ⊥
HasPrefix _ _ = Unit

module _ (type : AtCommandType) (prefix : CString) where
  -- The lines that the command gets, and those that are unsolicited; `free` until the command has
  -- got its only line.
  unfoldable pub answers_of : Bool → List Bytes → List Bytes
  unfolding wants
  answers_of free [] = []
  answers_of free (l ∷ ls) =
      let taken = answers_of (is_many type) ls in
      let left = answers_of free ls in if free && wants type prefix l then l ∷ taken else left

  unfoldable pub others_of : Bool → List Bytes → List Bytes
  unfolding wants
  others_of free [] = []
  others_of free (l ∷ ls) =
      let taken = others_of (is_many type) ls in
      let left = others_of free ls in if free && wants type prefix l then taken else l ∷ left

-- Neither a final response nor a prompt.
pub record IsOrdinary (line : Bytes) : Type 0 where
  pub no_success : is_final_response_success line ≡ false
  pub no_error : is_final_response_error line ≡ false
  pub no_prompt : is_sms_prompt line ≡ false

abbrev pub calls : List Bytes → List (Bytes × CString)
calls = map λ l. (l, none)

module _ (ch : Channel) (type : AtCommandType) (prefix pdu : CString) where
  -- The command waits; it has got `got`, the last line first.
  abbrev pub pending : List Bytes → List (Bytes × CString) → Channel
  pending got unsol = record ch {
    type = type;
    response_prefix = prefix;
    sms_pdu = pdu;
    response = some (record { success = 0; final_response = none; intermediates = got });
    unsolicited = unsol;
  }

abbrev pub is_free : AtCommandType → List Bytes → Bool
is_free type [] = true
is_free type (l ∷ ls) = is_many type

intermediate_line-pending :
    (ch : Channel) (type : AtCommandType) (prefix pdu : CString) (got : List Bytes)
    (unsol : List (Bytes × CString)) (line : Bytes)
    → ch.handles ≡ true
    → HasPrefix type prefix
    → intermediate_line line
        (record { success = 0; final_response = none; intermediates = got })
        (pending ch type prefix pdu got unsol)
      ≡ some (
          if is_free type got && wants type prefix line
          then pending ch type prefix pdu (line ∷ got) unsol
          else pending ch type prefix pdu got (unsol ++ (line, none) ∷ []))
unfolding intermediate_line wants
intermediate_line-pending ch no_result prefix pdu [] unsol line handles h = rw handles
intermediate_line-pending ch no_result prefix pdu (g ∷ got) unsol line handles h = rw handles
intermediate_line-pending ch numeric prefix pdu [] unsol line handles h =
    elim (Bool-cases (starts_numeric line)) [
      | inl digit ↦ rw digit
      | inr other ↦ rw (other, handles)
    ]
intermediate_line-pending ch numeric prefix pdu (g ∷ got) unsol line handles h = rw handles
intermediate_line-pending ch singleline none pdu got unsol line handles h = elim h [ ]
intermediate_line-pending ch singleline (some p) pdu [] unsol line handles h =
    elim (Bool-cases (str_starts_with line p)) [
      | inl starts ↦ rw starts
      | inr other ↦ rw (other, handles)
    ]
intermediate_line-pending ch singleline (some p) pdu (g ∷ got) unsol line handles h = rw handles
intermediate_line-pending ch multiline none pdu got unsol line handles h = elim h [ ]
intermediate_line-pending ch multiline (some p) pdu [] unsol line handles h =
    elim (Bool-cases (str_starts_with line p)) [
      | inl starts ↦ rw starts
      | inr other ↦ rw (other, handles)
    ]
intermediate_line-pending ch multiline (some p) pdu (g ∷ got) unsol line handles h =
    elim (Bool-cases (str_starts_with line p)) [
      | inl starts ↦ rw starts
      | inr other ↦ rw (other, handles)
    ]

process_line-pending :
    (ch : Channel) (type : AtCommandType) (prefix pdu : CString) (got : List Bytes)
    (unsol : List (Bytes × CString)) (line : Bytes)
    → IsOrdinary line
    → process_line line (pending ch type prefix pdu got unsol)
      ≡ intermediate_line line
          (record { success = 0; final_response = none; intermediates = got })
          (pending ch type prefix pdu got unsol)
unfolding process_line
process_line-pending ch type prefix none got unsol line h = rw (h.no_success, h.no_error)
process_line-pending ch type prefix (some p) got unsol line h =
    rw (h.no_success, h.no_error, h.no_prompt)

-- Ordinary lines are sorted in the order in which they come.
pub wait-heard :
    (timed wanted : Bool) (ch : Channel) (type : AtCommandType) (prefix pdu : CString)
    (ls : List Bytes) (es : List AtEvent) (got : List Bytes) (unsol : List (Bytes × CString))
    → ch.handles ≡ true
    → HasPrefix type prefix
    → All IsOrdinary ls
    → wait timed wanted (map heard ls ++ es) (pending ch type prefix pdu got unsol)
      ≡ wait timed wanted es (
          pending ch type prefix pdu
            (reverse_onto got (answers_of type prefix (is_free type got) ls))
            (unsol ++ calls (others_of type prefix (is_free type got) ls)))
unfolding wait reverse_onto answers_of others_of
wait-heard timed wanted ch type prefix pdu [] es got unsol handles h plain =
    ap (λ u. wait timed wanted es (pending ch type prefix pdu got u)) (sym (append-nil unsol))
wait-heard timed wanted ch type prefix pdu (l ∷ ls) es got unsol handles h plain =
    ap (λ m. m >>= λ next. wait timed wanted (map heard ls ++ es) next)
      (process_line-pending ch type prefix pdu got unsol l plain.0
        ∙ intermediate_line-pending ch type prefix pdu got unsol l handles h)
    ∙ elim (Bool-cases (is_free type got && wants type prefix l)) [
      | inl taken ↦
          rw taken
            (wait-heard timed wanted ch type prefix pdu ls es (l ∷ got) unsol handles h plain.1)
      | inr left ↦ rw left (
          wait-heard timed wanted ch type prefix pdu ls es got (unsol ++ (l, none) ∷ []) handles h
            plain.1
          ∙ ap
              (λ u. wait timed wanted es (
                pending ch type prefix pdu
                  (reverse_onto got (answers_of type prefix (is_free type got) ls)) u))
              (append_assoc unsol ((l, none) ∷ [])
                (calls (others_of type prefix (is_free type got) ls))))
    ]
