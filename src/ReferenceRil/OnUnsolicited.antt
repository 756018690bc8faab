-- ===== src/ReferenceRil/OnUnsolicited.antt =====
-- onUnsolicited of reference-ril/reference-ril.c, with WORKAROUND_FAKE_CGEV.
use rild_hisi.Common.{ℕ, ◌||◌, List, [], ◌∷◌, none, some, length, codes, ◌==◌, if◌then◌else◌, ◌>>=◌}
use rild_hisi.Telephony.{Bytes, CString}
use rild_hisi.Telephony.Data.{Data}
use rild_hisi.AtTok.{at_tok_start, at_tok_nextstr}
use rild_hisi.AtChannel.Commands.{str_starts_with}
use rild_hisi.ReferenceRil.Query.{Host}
use rild_hisi.ReferenceRil.State.{
  Ril, Action, on_data_call_list_changed, radio_state_unavailable, unsolicited_response,
  request_timed_callback,
}

-- RIL_UNSOL_NDIS_DIAL
abbrev pub unsol_ndis_dial : ℕ
unsol_ndis_dial = 1031

-- A text whose length is asked for; NULL has none.
abbrev pub with_length : ℕ → CString → Action
with_length code none w = none
with_length code (some s) w = some (unsolicited_response code (Data.text s) (length s) w)

-- The cursor behind the colon, if there is one.
abbrev pub behind_colon : Bytes → CString
behind_colon s = let r = at_tok_start (some s) in if r.ok then r.cur else some s

-- RIL_UNSOL_NITZ_TIME_RECEIVED; a line without a text is passed over.
unfoldable pub nitz_line : Bytes → Action
unfolding at_tok_start at_tok_nextstr
nitz_line s w =
    let r = at_tok_nextstr (behind_colon s) in
    if r.ok then elim r.out [ none ↦ none | some text ↦ with_length 1008 text w ] else some w

-- The list of data calls is asked for later, since this thread may not send commands.
abbrev pub changed_then_poll : ℕ → Ril → Ril
changed_then_poll code w =
    request_timed_callback on_data_call_list_changed (unsolicited_response code Data.null 0 w)

abbrev pub poll_data_calls : Ril → Ril
poll_data_calls w = request_timed_callback on_data_call_list_changed w

module _ (host : Host) where
  open host.platform use {size_ptr}

  -- The tests of the prefixes, in order.
  unfoldable pub on_line : Bytes → CString → Action
  unfolding str_starts_with nitz_line
  on_line s sms_pdu w =
      if str_starts_with s (codes "^DCONN:")
      then some (unsolicited_response unsol_ndis_dial (Data.strings (some s ∷ [])) size_ptr w)
      else if str_starts_with s (codes "%CTZV:")
      then nitz_line s w
      else if str_starts_with s (codes "+CRING:")
          || str_starts_with s (codes "RING")
          || str_starts_with s (codes "NO CARRIER")
          || str_starts_with s (codes "+CCWA")
      then some (changed_then_poll 1001 w)
      else if str_starts_with s (codes "+CREG:") || str_starts_with s (codes "+CGREG:")
      then some (changed_then_poll 1002 w)
      else if str_starts_with s (codes "+CMT:")
      then with_length 1003 sms_pdu w
      else if str_starts_with s (codes "+CDS:")
      then with_length 1004 sms_pdu w
      else if str_starts_with s (codes "+CGEV:")
      then some (poll_data_calls w)
      else if str_starts_with s (codes "+CME ERROR: 150")
      then some (poll_data_calls w)
      else if str_starts_with s (codes "%CDCONN:")
      then with_length unsol_ndis_dial sms_pdu w
      else some w

  -- Nothing is passed on until the library is initialised.
  unfoldable pub on_unsolicited : Bytes → CString → Action
  unfolding on_line
  on_unsolicited s sms_pdu w =
      if w.radio == radio_state_unavailable then some w else on_line s sms_pdu w

  -- The calls of s_unsolHandler, in order.
  unfoldable pub on_unsolicited_all : List (Bytes × CString) → Action
  unfolding on_unsolicited
  on_unsolicited_all [] w = some w
  on_unsolicited_all ((s, pdu) ∷ lines) w = on_unsolicited s pdu w >>= on_unsolicited_all lines
