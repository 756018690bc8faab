-- ===== src/ReferenceRil/PlainCalls.antt =====
-- The calls that requestGetCurrentCalls of reference-ril/reference-ril.c reports carry no UUS
-- information.
use rild_hisi.Common.{
  ℕ, true, false, not, ◌&&◌, ◌==◌, ltb, ◌≡◌, refl, List, [], ◌∷◌, Option, none, some, All,
  Bool-cases, inl, inr, ◌>>=◌, if◌then◌else◌,
}
use rild_hisi.Common.Int.{ℤ, pos, negsuc, is_neg, ◌==ℤ◌}
use rild_hisi.Telephony.{Bytes, CString, Call}
use rild_hisi.AtTok.{
  Parsed, at_tok_hasmore, at_tok_start, at_tok_nextint, at_tok_nextbool, at_tok_nextstr,
}
use rild_hisi.AtChannel.Commands.{AtResponse}
use rild_hisi.ReferenceRil.Calls.{
  Filled, stored, number_of, read_into, read_state, read_mode, clcc_state_to_ril_state, fill_toa,
  fill_number, fill_mpty, fill_mode, fill_state, fill_mt, fill_index, call_from_clcc_line,
}
use rild_hisi.ReferenceRil.CallList.{
  CallsState, CallsReply, empty_call, valid_calls, reply_calls, incoming_or_waiting, turned_active,
  repoll_calls_count_max, request_get_current_calls,
}

abbrev pub IsPlain : Call → Type 0
IsPlain c = c.uus_info ≡ none

-- A step that leaves a plain call plain
abbrev KeepsPlain : (Call → Filled) → Type 0
KeepsPlain f = (c : Call) → IsPlain c → IsPlain (f c).1

read_into-IsPlain :
    (r : Parsed ℤ) (store : ℤ → Call → Call) (next : CString → Call → Filled)
    → ((z : ℤ) (c : Call) → IsPlain c → IsPlain (store z c))
    → ((cur : CString) → KeepsPlain (next cur))
    → KeepsPlain (λ c. read_into r store c next)
read_into-IsPlain r store next hs hn c h = elim (Bool-cases r.ok) [
  | inl fine ↦ rw fine (hn r.cur _ (kept r.out))
  | inr failed ↦ rw failed (kept r.out)
]
  where
    kept : (out : Option ℤ) → IsPlain (stored out store c)
    kept none = h
    kept (some z) = hs z c h

read_mode-IsPlain :
    (r : Parsed ℤ) (next : CString → Call → Filled)
    → ((cur : CString) → KeepsPlain (next cur))
    → KeepsPlain (λ c. read_mode r c next)
read_mode-IsPlain r next hn c h = elim (Bool-cases r.ok) [
  | inl fine ↦ rw fine (hn r.cur _ (kept r.out))
  | inr failed ↦ rw failed h
]
  where
    kept :
        (out : Option ℤ)
        → IsPlain (
            stored out
              (λ mode c. record c { is_voice = if mode ==ℤ pos 0 then pos 1 else pos 0 })
              c)
    kept none = h
    kept (some z) = h

read_state-IsPlain :
    (r : Parsed ℤ) (next : CString → Call → Filled)
    → ((cur : CString) → KeepsPlain (next cur))
    → KeepsPlain (λ c. read_state r c next)
read_state-IsPlain r next hn c h = elim (Bool-cases r.ok) [
  | inl fine ↦ rw fine (by_state (r.out >>= clcc_state_to_ril_state))
  | inr failed ↦ rw failed h
]
  where
    by_state :
        (s : Option ℤ)
        → IsPlain
            (elim s as (λ s. Filled) [
              | none ↦ (false, c)
              | some s ↦ next r.cur (record c { state = s })
            ]).1
    by_state none = h
    by_state (some s) = hn r.cur _ h

module _ (long_max : ℕ) where
  fill_toa-IsPlain : (r : Parsed CString) → KeepsPlain (fill_toa long_max r)
  unfolding fill_toa
  fill_toa-IsPlain r c h = elim (Bool-cases r.ok) [
    | inl fine ↦ rw fine (
        read_into-IsPlain (at_tok_nextint long_max r.cur) (λ z c. record c { toa = z })
          (λ cur c. (true, record c { uus_info = none })) (λ z c hc. hc) (λ cur c hc. refl)
          (record c { number = number_of r.out }) h)
    | inr failed ↦ rw failed h
  ]

  fill_number-IsPlain : (cur : CString) → KeepsPlain (fill_number long_max cur)
  unfolding fill_number
  fill_number-IsPlain cur c h = elim (Bool-cases (at_tok_hasmore cur)) [
    | inl more ↦ rw more (fill_toa-IsPlain (at_tok_nextstr cur) c h)
    | inr over ↦ rw over refl
  ]

  fill_mpty-IsPlain : (cur : CString) → KeepsPlain (fill_mpty long_max cur)
  unfolding fill_mpty
  fill_mpty-IsPlain cur =
      read_into-IsPlain (at_tok_nextbool long_max cur) (λ z c. record c { is_mpty = z })
        (fill_number long_max) (λ z c hc. hc) fill_number-IsPlain

  fill_mode-IsPlain : (cur : CString) → KeepsPlain (fill_mode long_max cur)
  unfolding fill_mode
  fill_mode-IsPlain cur =
      read_mode-IsPlain (at_tok_nextint long_max cur) (fill_mpty long_max) fill_mpty-IsPlain

  fill_state-IsPlain : (cur : CString) → KeepsPlain (fill_state long_max cur)
  unfolding fill_state
  fill_state-IsPlain cur =
      read_state-IsPlain (at_tok_nextint long_max cur) (fill_mode long_max) fill_mode-IsPlain

  fill_mt-IsPlain : (cur : CString) → KeepsPlain (fill_mt long_max cur)
  unfolding fill_mt
  fill_mt-IsPlain cur =
      read_into-IsPlain (at_tok_nextbool long_max cur) (λ z c. record c { is_mt = z })
        (fill_state long_max) (λ z c hc. hc) fill_state-IsPlain

  call_from_clcc_line-IsPlain : (line : CString) → KeepsPlain (call_from_clcc_line long_max line)
  unfolding call_from_clcc_line fill_index
  call_from_clcc_line-IsPlain line c h = elim (Bool-cases (at_tok_start line).ok) [
    | inl fine ↦ rw fine (
        read_into-IsPlain (at_tok_nextint long_max (at_tok_start line).cur)
          (λ z c. record c { index = z }) (fill_mt long_max) (λ z c hc. hc) fill_mt-IsPlain c h)
    | inr failed ↦ rw failed h
  ]

  valid_calls-IsPlain :
      (slot : Call) (lines : List Bytes)
      → IsPlain slot
      → All IsPlain (valid_calls long_max slot lines)
  unfolding valid_calls
  valid_calls-IsPlain slot [] h = tt
  valid_calls-IsPlain slot (line ∷ lines) h =
      let (ok, c) = call_from_clcc_line long_max (some line) slot in
      let plain = call_from_clcc_line-IsPlain (some line) slot h in
      elim (Bool-cases (call_from_clcc_line long_max (some line) slot).0) [
        | inl valid ↦ rw valid (plain, valid_calls-IsPlain empty_call lines refl)
        | inr invalid ↦ rw invalid (valid_calls-IsPlain _ lines plain)
      ]

  abbrev pub IsPlainReply : Option CallsReply → Type 0
  IsPlainReply none = Unit
  IsPlainReply (some r) = All IsPlain r.calls

  reply_calls-IsPlain :
      (prev : ℤ) (calls : List Call) (s : CallsState)
      → All IsPlain calls
      → All IsPlain (reply_calls prev calls s).calls
  unfolding reply_calls
  reply_calls-IsPlain prev calls s h =
      let withheld =
        not (is_neg prev)
        && is_neg (incoming_or_waiting (negsuc 0) calls)
        && s.expect_answer ==ℤ pos 0
        && turned_active prev calls
        && ltb s.repoll_calls_count repoll_calls_count_max in
      elim (Bool-cases withheld) [ inl holds ↦ rw holds tt | inr fails ↦ rw fails h ]

  pub request_get_current_calls-IsPlain :
      (e : ℤ) (r : Option AtResponse) (s : CallsState)
      → IsPlainReply (request_get_current_calls long_max e r s)
  unfolding request_get_current_calls
  request_get_current_calls-IsPlain e r s = elim (Bool-cases (e ==ℤ pos 0)) [
    | inl fine ↦ rw fine (answered r)
    | inr failed ↦ rw failed tt
  ]
    where
      answered :
          (r : Option AtResponse) → IsPlainReply (request_get_current_calls long_max (pos 0) r s)
      answered none = tt
      answered (some r) = elim (Bool-cases (r.success == 0)) [
        | inl refused ↦ rw refused tt
        | inr listed ↦ rw listed (
            reply_calls-IsPlain s.incoming_or_waiting_line
              (valid_calls long_max empty_call r.intermediates) s
              (valid_calls-IsPlain empty_call r.intermediates refl))
      ]
