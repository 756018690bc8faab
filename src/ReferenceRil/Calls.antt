-- ===== src/ReferenceRil/Calls.antt =====
-- The calls that a modem lists, in reference-ril/reference-ril.c: clccStateToRILState and
-- callFromCLCCLine. `long_max` is LONG_MAX.
use rild_hisi.Common.{
  ℕ, Bool, true, false, not, ◌&&◌, ◌||◌, [], ◌∷◌, Option, none, some, ◌==◌, leb, if◌then◌else◌,
  ◌>>=◌,
}
use rild_hisi.Common.Int.{ℤ, pos, negsuc, ◌==ℤ◌}
use rild_hisi.Telephony.{Bytes, CString, Call}
use rild_hisi.AtTok.{
  Parsed, at_tok_start, at_tok_nextint, at_tok_nextbool, at_tok_nextstr, at_tok_hasmore,
}

-- RIL_CALL_ACTIVE to RIL_CALL_WAITING are 0 to 5; `none` for -1.
abbrev pub clcc_state_to_ril_state : ℤ → Option ℤ
clcc_state_to_ril_state (pos n) = if leb n 5 then some (pos n) else none
clcc_state_to_ril_state (negsuc n) = none

-- 0 == strspn (number, "+0123456789")
abbrev pub is_text : Bytes → Bool
is_text [] = true
is_text (c ∷ cs) = not (c == b'+' || (leb b'0' c && leb c b'9'))

-- What is returned, 0 or not, and the call.
abbrev pub Filled : Type 0
Filled = Bool × Call

abbrev pub stored : Option ℤ → (ℤ → Call → Call) → Call → Call
stored none store c = c
stored (some z) store c = store z c

-- A number that is read into the call; a value that is written stays when the reading fails.
abbrev pub read_into : Parsed ℤ → (ℤ → Call → Call) → Call → (CString → Call → Filled) → Filled
read_into r store c next =
    if r.ok then next r.cur (stored r.out store c) else (false, stored r.out store c)

abbrev pub read_state : Parsed ℤ → Call → (CString → Call → Filled) → Filled
read_state r c next = if not r.ok then (false, c) else elim (r.out >>= clcc_state_to_ril_state) [
  | none ↦ (false, c)
  | some s ↦ next r.cur (record c { state = s })
]

abbrev pub read_mode : Parsed ℤ → Call → (CString → Call → Filled) → Filled
read_mode r c next =
    if r.ok
    then next r.cur
        (stored r.out (λ mode c. record c { is_voice = if mode ==ℤ pos 0 then pos 1 else pos 0 }) c)
    else (false, c)

abbrev pub number_of : Option CString → CString
number_of (some (some w)) = if is_text w then none else some w
number_of _ = none

-- The steps of callFromCLCCLine, the last first: the number with its type, the conference flag, the
-- mode, the state, the direction, and the whole line.
module _ (long_max : ℕ) where
  unfoldable pub fill_toa : Parsed CString → Call → Filled
  unfolding at_tok_nextint
  fill_toa r c =
      if not r.ok
      then (true, c)
      else read_into (at_tok_nextint long_max r.cur) (λ z c. record c { toa = z })
          (record c { number = number_of r.out }) (λ cur c. (true, record c { uus_info = none }))

  unfoldable pub fill_number : CString → Call → Filled
  unfolding at_tok_nextstr fill_toa
  fill_number cur c =
      if at_tok_hasmore cur
      then fill_toa (at_tok_nextstr cur) c
      else (true, record c { uus_info = none })

  unfoldable pub fill_mpty : CString → Call → Filled
  unfolding at_tok_nextbool fill_number
  fill_mpty cur c =
      read_into (at_tok_nextbool long_max cur) (λ z c. record c { is_mpty = z }) c fill_number

  unfoldable pub fill_mode : CString → Call → Filled
  unfolding at_tok_nextint fill_mpty
  fill_mode cur c = read_mode (at_tok_nextint long_max cur) c fill_mpty

  unfoldable pub fill_state : CString → Call → Filled
  unfolding at_tok_nextint fill_mode
  fill_state cur c = read_state (at_tok_nextint long_max cur) c fill_mode

  unfoldable pub fill_mt : CString → Call → Filled
  unfolding at_tok_nextbool fill_state
  fill_mt cur c =
      read_into (at_tok_nextbool long_max cur) (λ z c. record c { is_mt = z }) c fill_state

  unfoldable pub fill_index : Parsed (Unit {0}) → Call → Filled
  unfolding at_tok_nextint fill_mt
  fill_index start c =
      if not start.ok
      then (false, c)
      else read_into (at_tok_nextint long_max start.cur) (λ z c. record c { index = z }) c fill_mt

  unfoldable pub call_from_clcc_line : CString → Call → Filled
  unfolding at_tok_start fill_index
  call_from_clcc_line line call = fill_index (at_tok_start line) call
