-- ===== src/ReferenceRil/CallLines.antt =====
-- Lines that list a call, read by callFromCLCCLine of reference-ril/reference-ril.c.
use rild_hisi.Common.{
  ℕ, zero, suc, ◌+◌, ◌^◌, ◌≤◌, ◌≡◌, refl, ap, ◌∙◌, Bool, true, false, [], ◌∷◌, ◌++◌, none, some,
  arith, if◌then◌else◌, replicate,
}
use rild_hisi.Common.Int.{ℤ, pos, ◌==ℤ◌}
use rild_hisi.Telephony.{Bytes, CString, Call}
use rild_hisi.AtTok.{bool_of, at_tok_nextbool, at_tok_nextstr, at_tok_hasmore}
use rild_hisi.AtTok.Fields.{
  Lacks, tail_of, field, IsInt, at_tok_nextint-field, at_tok_start_colon, at_tok_nextstr_quoted,
}
use rild_hisi.ReferenceRil.Calls.{
  is_text, call_from_clcc_line, read_into, read_state, read_mode, fill_toa, fill_number, fill_mpty,
  fill_mode, fill_state, fill_mt, fill_index, number_of, clcc_state_to_ril_state,
}

abbrev pub bit : Bool → ℤ
bit true = pos 1
bit false = pos 0

-- What a line of the list says, and the spaces before its fields.
pub record Listed : Type 0 where
  pub index : ℤ
  pub is_mt : Bool
  pub state : ℕ
  pub mode : ℤ
  pub is_mpty : Bool
  pub number : Bytes
  pub toa : ℤ
  pub spaces : ℕ

abbrev pub IsListed : Listed → Type 0
IsListed l = IsInt l.index × (l.state ≤ 5) × IsInt l.mode × Lacks b'"' l.number × IsInt l.toa

module _ (l : Listed) (end : CString) where
  abbrev number_cur : CString
  number_cur = some (
      replicate l.spaces b' '
      ++ b'"' ∷ (l.number ++ b'"' ∷ ([] ++ b',' ∷ (field (l.spaces, l.toa) ++ tail_of end))))

  abbrev mpty_cur : CString
  mpty_cur = some (field (l.spaces, bit l.is_mpty) ++ tail_of number_cur)

  abbrev mode_cur : CString
  mode_cur = some (field (l.spaces, l.mode) ++ tail_of mpty_cur)

  abbrev state_cur : CString
  state_cur = some (field (l.spaces, pos l.state) ++ tail_of mode_cur)

  abbrev mt_cur : CString
  mt_cur = some (field (l.spaces, bit l.is_mt) ++ tail_of state_cur)

  -- The fields, with what follows them.
  abbrev pub clcc_fields : Bytes
  clcc_fields = field (l.spaces, l.index) ++ tail_of mt_cur

-- The call as it is listed; a text in place of a number is dropped.
abbrev pub listed_call : Listed → Call → Call
listed_call l c = record c {
  index = l.index;
  is_mt = bit l.is_mt;
  state = pos l.state;
  is_voice = if l.mode ==ℤ pos 0 then pos 1 else pos 0;
  is_mpty = bit l.is_mpty;
  number = if is_text l.number then none else some l.number;
  toa = l.toa;
  uus_info = none;
}

at_tok_nextbool-field :
    (long_max k : ℕ) (b : Bool) (cur : CString)
    → 2 ^ 31 ≤ long_max + 1
    → at_tok_nextbool long_max (some (field (k, bit b) ++ tail_of cur))
      ≡ record { ok = true; out = some (bit b); cur = cur }
unfolding at_tok_nextbool
at_tok_nextbool-field long_max k true cur big =
    ap bool_of (at_tok_nextint-field long_max k (pos 1) cur big (omega arith))
at_tok_nextbool-field long_max k false cur big =
    ap bool_of (at_tok_nextint-field long_max k (pos 0) cur big (omega arith))

hasmore_quoted : (k : ℕ) (xs : Bytes) → at_tok_hasmore (some (replicate k b' ' ++ b'"' ∷ xs)) ≡ true
hasmore_quoted zero xs = refl
hasmore_quoted (suc k) xs = refl

state_listed : (n : ℕ) → n ≤ 5 → clcc_state_to_ril_state (pos n) ≡ some (pos n)
state_listed n h = ground arith

module _ (long_max : ℕ) (l : Listed) (end : CString) (big : 2 ^ 31 ≤ long_max + 1)
    (h : IsListed l) where
  fill_number_listed :
      (c : Call)
      → fill_number long_max (number_cur l end) c ≡ (
        true,
        record c { number = number_of (some (some l.number)); toa = l.toa; uus_info = none },
      )
  unfolding fill_number fill_toa
  fill_number_listed c =
      let rest = field (l.spaces, l.toa) ++ tail_of end in
      ap
        (λ b.
          if b
          then fill_toa long_max (at_tok_nextstr (number_cur l end)) c
          else (true, record c { uus_info = none }))
        (hasmore_quoted l.spaces (l.number ++ b'"' ∷ ([] ++ b',' ∷ rest)))
      ∙ ap (λ r. fill_toa long_max r c) (at_tok_nextstr_quoted l.spaces l.number [] rest h.3 tt)
      ∙ ap
          (λ r.
            read_into r (λ z c. record c { toa = z })
              (record c { number = number_of (some (some l.number)) })
              (λ cur c. (true, record c { uus_info = none })))
          (at_tok_nextint-field long_max l.spaces l.toa end big h.4)

  fill_mpty_listed :
      (c : Call)
      → fill_mpty long_max (mpty_cur l end) c
        ≡ fill_number long_max (number_cur l end) (record c { is_mpty = bit l.is_mpty })
  unfolding fill_mpty
  fill_mpty_listed c =
      ap (λ r. read_into r (λ z c. record c { is_mpty = z }) c (fill_number long_max))
        (at_tok_nextbool-field long_max l.spaces l.is_mpty (number_cur l end) big)

  fill_mode_listed :
      (c : Call)
      → fill_mode long_max (mode_cur l end) c
        ≡ fill_mpty long_max
            (mpty_cur l end)
            (record c { is_voice = if l.mode ==ℤ pos 0 then pos 1 else pos 0 })
  unfolding fill_mode
  fill_mode_listed c =
      ap (λ r. read_mode r c (fill_mpty long_max))
        (at_tok_nextint-field long_max l.spaces l.mode (mpty_cur l end) big h.2)

  fill_state_listed :
      (c : Call)
      → fill_state long_max (state_cur l end) c
        ≡ fill_mode long_max (mode_cur l end) (record c { state = pos l.state })
  unfolding fill_state
  fill_state_listed c =
      ap (λ r. read_state r c (fill_mode long_max))
        (at_tok_nextint-field long_max l.spaces (pos l.state) (mode_cur l end) big
          (omega (arith, h.1)))
      ∙ ap
          (λ m. elim m [
            | none ↦ (false, c)
            | some s ↦ fill_mode long_max (mode_cur l end) (record c { state = s })
          ])
          (state_listed l.state h.1)

  fill_mt_listed :
      (c : Call)
      → fill_mt long_max (mt_cur l end) c
        ≡ fill_state long_max (state_cur l end) (record c { is_mt = bit l.is_mt })
  unfolding fill_mt
  fill_mt_listed c =
      ap (λ r. read_into r (λ z c. record c { is_mt = z }) c (fill_state long_max))
        (at_tok_nextbool-field long_max l.spaces l.is_mt (state_cur l end) big)

-- A line that lists a call with its number gives that call: index, direction, state, mode, conference
-- flag, number and its type, as the line has them, with a text in place of a number dropped. The
-- prefix holds no colon, the number no quote, the state is one of the six, and the numbers are `int`s.
pub call_from_clcc_line-listed_call :
    (long_max : ℕ) (prefix : Bytes) (l : Listed) (end : CString) (call : Call)
    → 2 ^ 31 ≤ long_max + 1
    → Lacks b':' prefix
    → IsListed l
    → call_from_clcc_line long_max (some (prefix ++ b':' ∷ clcc_fields l end)) call
      ≡ (true, listed_call l call)
unfolding call_from_clcc_line fill_index
call_from_clcc_line-listed_call long_max prefix l end call big lacks h =
    ap (λ start. fill_index long_max start call)
      (at_tok_start_colon prefix (clcc_fields l end) lacks)
    ∙ ap (λ r. read_into r (λ z c. record c { index = z }) call (fill_mt long_max))
        (at_tok_nextint-field long_max l.spaces l.index (mt_cur l end) big h.0)
    ∙ fill_mt_listed long_max l end big h (record call { index = l.index })
    ∙ fill_state_listed long_max l end big h _
    ∙ fill_mode_listed long_max l end big h _
    ∙ fill_mpty_listed long_max l end big h _
    ∙ fill_number_listed long_max l end big h _
