-- ===== src/ReferenceRil/DataCalls.antt =====
-- The requests for data connections in reference-ril/reference-ril.c: requestOrSendDataCallList,
-- requestDataCallList, onDataCallListChanged, requestPsCsStat, requestNdisDial, and requestPortList,
-- requestPdpAddr, requestDhcpInfo with the commands that they send.
use rild_hisi.Common.{
  ℕ, ◌*◌, Bool, false, ◌||◌, List, [], ◌∷◌, ◌++◌, Option, none, some, length, ◌==◌, codes,
  if◌then◌else◌,
}
use rild_hisi.Common.Int.{ℤ, is_neg, ◌==ℤ◌}
use rild_hisi.Telephony.{Bytes, CString, DataCallResponse}
use rild_hisi.Telephony.Data.{Data}
use rild_hisi.Parcel.{Struct}
use rild_hisi.AtChannel.Commands.{AtResponse}
use rild_hisi.ReferenceRil.Lists
use rild_hisi.ReferenceRil.Lists.{
  Completion, Completions, request_port_list, request_pdp_addr, request_dhcp_info, read_line,
}
use rild_hisi.ReferenceRil.Printing.{not_null}
use rild_hisi.ReferenceRil.Query.{
  Host, Query, ◌>>=◌, pure, undefined, send_command, send_only, send_singleline, send_multiline,
  succeeded_zero, start, next_int, next_str,
}
use rild_hisi.ReferenceRil.State.{
  Ril, Action, generic_failure_error, success, complete, complete_null, settle, fail_with,
  reply_null, unsolicited_response,
}

-- RIL_UNSOL_DATA_CALL_LIST_CHANGED
abbrev pub unsol_data_call_list_changed : ℕ
unsol_data_call_list_changed = 1010

abbrev pub fresh_data_call : ℤ → ℤ → DataCallResponse
fresh_data_call cid active = record {
  cid = cid;
  active = active;
  type = some [];
  apn = some [];
  address = some [];
}

-- The first context with this cid is changed, the others stay.
unfoldable pub update_context :
    ℤ → (DataCallResponse → DataCallResponse) → List DataCallResponse → List DataCallResponse
update_context cid f [] = []
update_context cid f (c ∷ cs) =
    let rest = update_context cid f cs in if c.cid ==ℤ cid then f c ∷ cs else c ∷ rest

unfoldable pub knows_context : ℤ → List DataCallResponse → Bool
knows_context cid [] = false
knows_context cid (c ∷ cs) = (c.cid ==ℤ cid) || knows_context cid cs

-- A text that is copied
abbrev pub next_copy : CString → Query (Bytes × CString)
next_copy cur = do (out, next) ← next_str cur; s ← not_null out; pure (s, next)

module _ (host : Host) where
  open host.platform use {size_ptr, size_of}

  -- A line of AT+CGACT?
  unfoldable pub context_line : Bytes → Query DataCallResponse
  context_line line = do
    cur ← start (some line)
    (cid, cur1) ← next_int host cur
    (active, end) ← next_int host cur1
    pure (fresh_data_call cid active)

  unfoldable pub context_lines : List Bytes → Query (List DataCallResponse)
  unfolding context_line
  context_lines [] = pure []
  context_lines (line ∷ lines) = do c ← context_line line; cs ← context_lines lines; pure (c ∷ cs)

  -- The details behind the cid of a line of AT+CGDCONT?
  unfoldable pub detail_texts : ℤ → CString → List DataCallResponse → Query (List DataCallResponse)
  unfolding update_context
  detail_texts cid cur cs = do
    (type, cur1) ← next_copy cur
    (apn, cur2) ← next_copy cur1
    (address, end) ← next_copy cur2
    pure (
        update_context cid
          (λ c. record c { type = some type; apn = some apn; address = some address }) cs)

  -- A context that was not in the answer to the first command is passed over.
  unfoldable pub detail_line : Bytes → List DataCallResponse → Query (List DataCallResponse)
  unfolding knows_context detail_texts
  detail_line line cs = do
    cur ← start (some line)
    (cid, cur1) ← next_int host cur
    if knows_context cid cs then detail_texts cid cur1 cs else pure cs

  unfoldable pub detail_lines : List Bytes → List DataCallResponse → Query (List DataCallResponse)
  unfolding detail_line
  detail_lines [] cs = pure cs
  detail_lines (line ∷ lines) cs = do next ← detail_line line cs; detail_lines lines next

  unfoldable pub data_call_list : Query (List DataCallResponse)
  unfolding context_lines detail_lines
  data_call_list = do
    active ← send_multiline host (codes "AT+CGACT?") (codes "+CGACT:")
    r ← succeeded_zero active
    cs ← context_lines r.intermediates
    details ← send_multiline host (codes "AT+CGDCONT?") (codes "+CGDCONT:")
    d ← succeeded_zero details
    detail_lines d.intermediates cs

  abbrev pub data_call_list_length : List DataCallResponse → ℕ
  data_call_list_length cs = length cs * size_of Struct.data_call_response

  -- `some t`: the list is asked for by the request t; `none`: it is sent unsolicited.
  unfoldable pub request_or_send_data_call_list : Option ℕ → Action
  unfolding data_call_list
  request_or_send_data_call_list (some t) =
      settle data_call_list
        (λ cs w. some (complete t success (Data.data_calls cs) (data_call_list_length cs) w))
        (fail_with t generic_failure_error)
  request_or_send_data_call_list none =
      settle data_call_list
        (λ cs w. some (
          unsolicited_response unsol_data_call_list_changed (Data.data_calls cs)
            (data_call_list_length cs) w))
        (λ w. some (unsolicited_response unsol_data_call_list_changed Data.null 0 w))

  unfoldable pub request_data_call_list : ℕ → Action
  unfolding request_or_send_data_call_list
  request_data_call_list t = request_or_send_data_call_list (some t)

  unfoldable pub on_data_call_list_changed_callback : Action
  unfolding request_or_send_data_call_list
  on_data_call_list_changed_callback = request_or_send_data_call_list none

  abbrev pub complete_texts_with : ℕ → Completion → Ril → Ril
  complete_texts_with t c w = elim c.texts [
    | none ↦ complete t c.error Data.null 0 w
    | some ts ↦ complete t c.error (Data.strings ts) (length ts * size_ptr) w
  ]

  unfoldable pub complete_each : ℕ → List Completion → Ril → Ril
  complete_each t [] w = w
  complete_each t (c ∷ cs) w = complete_each t cs (complete_texts_with t c w)

  abbrev pub complete_all : ℕ → Completions → Action
  complete_all t Lists.fault w = none
  complete_all t (Lists.completed cs) w = some (complete_each t cs w)

  -- `data` when `datalen` is the size of one pointer: the argument of a command.
  abbrev pub one_string : Data → Query Bytes
  one_string (Data.strings (s ∷ ss)) = not_null s
  one_string _ = undefined

  abbrev pub command_with : Bytes → Bytes → Data → ℕ → Query Bytes
  command_with text default request len =
      if len == size_ptr then (one_string request >>= λ s. pure (text ++ s)) else pure default

  -- The command, the answer to it, and the completions
  unfoldable pub list_request :
      ℕ
      → Query Bytes
      → (Bytes → Query (ℤ × Option AtResponse))
      → (ℤ → Option AtResponse → Completions)
      → Action
  list_request t command ask answer =
      settle (command >>= ask) (λ (e, r). complete_all t (answer e r)) (λ w. none)

  unfoldable pub port_list : Data → ℕ → ℕ → Action
  unfolding request_port_list
  port_list request len t =
      list_request t (command_with (codes "AT^SETPORT") (codes "AT^SETPORT=?") request len)
        (λ c. send_multiline host c (codes "^SETPORT:")) request_port_list

  unfoldable pub pdp_addr : Data → ℕ → ℕ → Action
  unfolding request_pdp_addr
  pdp_addr request len t =
      list_request t (command_with (codes "AT+CGPADDR") (codes "AT+CGPADDR") request len)
        (λ c. send_singleline host c (codes "+CGPADDR:")) request_pdp_addr

  unfoldable pub dhcp_info : Data → ℕ → ℕ → Action
  unfolding request_dhcp_info
  dhcp_info request len t =
      list_request t (command_with (codes "AT^DHCP") (codes "AT^DHCP=?") request len)
        (λ c. send_singleline host c (codes "^DHCP:")) request_dhcp_info

  -- The command when `datalen` is the size of two pointers
  abbrev pub two_strings : Data → Query Bytes
  two_strings (Data.strings (s ∷ s' ∷ ss)) = do
    a ← not_null s
    b ← not_null s'
    pure (codes "AT^CGCATT=" ++ a ++ b',' ∷ b)
  two_strings _ = undefined

  abbrev pub ps_cs_command : Data → ℕ → Query Bytes
  ps_cs_command request len =
      if len == size_ptr
      then pure (codes "AT^CGCATT?")
      else if len == 2 * size_ptr
      then two_strings request
      else pure (codes "AT^CGCATT=?")

  -- There was no response, and the command is sent again. The trace reads p_response->success,
  -- whether there is a response now or not.
  abbrev pub ps_cs_again : ℕ → ℤ × Option AtResponse → Action
  ps_cs_again t (e, none) w = none
  ps_cs_again t (e, some r) w =
      if is_neg e || r.success == 0
      then some (complete_null t generic_failure_error w)
      else some (complete t success (Data.strings (some (codes "N") ∷ [])) size_ptr w)

  abbrev pub ps_cs_line : ℕ → List Bytes → Action
  ps_cs_line t [] w = none
  ps_cs_line t (line ∷ lines) w = complete_all t (read_line line) w

  -- The first response. A failure is completed before the jump to `error`, and there again.
  abbrev pub ps_cs_answer : ℕ → Bytes → ℤ × Option AtResponse → Action
  ps_cs_answer t command (e, none) w =
      settle (send_command host command) (ps_cs_again t) (λ w'. none) w
  ps_cs_answer t command (e, some r) w =
      if is_neg e || r.success == 0
      then fail_with t generic_failure_error (complete_null t generic_failure_error w)
      else ps_cs_line t r.intermediates w

  unfoldable pub request_ps_cs_stat : Data → ℕ → ℕ → Action
  unfolding read_line
  request_ps_cs_stat request len t =
      settle (ps_cs_command request len)
        (λ c. settle (send_singleline host c (codes "^CGCATT:")) (ps_cs_answer t c) (λ w. none))
        (λ w. none)

  unfoldable pub request_ndis_dial : Data → ℕ → ℕ → Action
  request_ndis_dial request len t = reply_null t (
      command_with (codes "AT^NDISDUP") (codes "AT^NDISDUP=1,1,\"CMNET\"") request len
      >>= send_only host)
