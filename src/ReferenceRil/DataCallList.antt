-- ===== src/ReferenceRil/DataCallList.antt =====
-- requestDataCallList of reference-ril/reference-ril.c on a modem that lists its contexts.
use rild_hisi.Common.{
  ℕ, ◌+◌, ◌^◌, ◌≤◌, ◌≡◌, refl, sym, ap, ap₂, ◌∙◌, true, false, List, [], ◌∷◌, ◌++◌, none, some, map,
  All, inl, inr, codes, ◌==◌, subst, ◌⊎◌,
}
use mathlib.Core.Option.{some-injective}
use rild_hisi.Common.Int.{ℤ, pos}
use rild_hisi.Telephony.{Bytes, CString, DataCallResponse}
use rild_hisi.Telephony.Data.{Data}
use rild_hisi.AtTok.{at_tok_start}
use rild_hisi.AtTok.Fields.{tail_of, IsInt, field, at_tok_nextint-field}
use rild_hisi.AtChannel.Commands.{multiline, AtResponse}
use rild_hisi.ReferenceRil.Query.{
  Command, Host, Result, ok, err, fault, ◌>>=◌, pure, token, next_int, and_then, succeeded_zero,
}
use rild_hisi.ReferenceRil.State.{Ril, Completed, settle, settle_result, complete, fail_with}
use rild_hisi.ReferenceRil.DataCalls.{
  fresh_data_call, context_line, context_lines, detail_lines, data_call_list,
  request_or_send_data_call_list, request_data_call_list, data_call_list_length,
}
use rild_hisi.ReferenceRil.Contexts.{
  key, keys, Yields, then-Yields, and_then-Yields, detail_lines-Keeps,
}

-- A context as the modem lists it, with spaces before each number.
pub record Context : Type 0 where
  pub cid : ℤ
  pub active : ℤ
  pub spaces : ℕ

abbrev pub IsContext : Context → Type 0
IsContext c = IsInt c.cid × IsInt c.active

abbrev pub context_text : Context → Bytes
context_text c =
    codes "+CGACT"
    ++ b':'
      ∷ (field (c.spaces, c.cid) ++ tail_of (some (field (c.spaces, c.active) ++ tail_of none)))

abbrev pub key_of : Context → ℤ × ℤ
key_of c = (c.cid, c.active)

-- at_send_command_multiline ("AT+CGACT?", "+CGACT:", &p_response)
abbrev pub context_command : Command
context_command = record {
  type = multiline;
  text = codes "AT+CGACT?";
  prefix = some (codes "+CGACT:");
  pdu = none;
  wanted = true;
}

-- The completion of the request t: RIL_E_GENERIC_FAILURE, or these contexts in this order.
abbrev pub Reports : ℕ → List (ℤ × ℤ) → Completed → Type 0
Reports t ks c =
    (c.token ≡ t)
    × ((c.error ≡ 2)
        ⊎ ((ds : List DataCallResponse) × (c.error ≡ 0)
            × (c.response ≡ Data.data_calls ds)
            × (keys ds ≡ ks)))

module _ (host : Host) (big : 2 ^ 31 ≤ host.long_max + 1) where
  next_int-field :
      (k : ℕ) (z : ℤ) (cur : CString) (sent : List Command)
      → IsInt z
      → next_int host (some (field (k, z) ++ tail_of cur)) sent ≡ ok (z, cur) sent
  next_int-field k z cur sent h =
      ap (λ r. token r sent) (at_tok_nextint-field host.long_max k z cur big h)

  context_line-text :
      (c : Context) (sent : List Command)
      → IsContext c
      → context_line host (context_text c) sent ≡ ok (fresh_data_call c.cid c.active) sent
  unfolding context_line and_then at_tok_start
  context_line-text c sent h =
      ap
        (λ m.
          and_then m
            λ (cid, cur). next_int host cur >>= λ (active, end). pure (fresh_data_call cid active))
        (next_int-field c.spaces c.cid (some (field (c.spaces, c.active) ++ tail_of none)) sent h.0)
      ∙ ap (λ m. and_then m λ (active, end). pure (fresh_data_call c.cid active))
          (next_int-field c.spaces c.active none sent h.1)

  context_lines-text :
      (cs : List Context) (sent : List Command)
      → All IsContext cs
      → Yields (λ ds. keys ds ≡ map key_of cs) (context_lines host (map context_text cs) sent)
  unfolding context_lines
  context_lines-text [] sent h = refl
  context_lines-text (c ∷ cs) sent h =
      and_then-Yields (λ d. key d ≡ key_of c) _ _ _
        (subst (Yields λ d. key d ≡ key_of c) (sym (context_line-text c sent h.0)) refl)
        λ d s e.
          and_then-Yields (λ ds. keys ds ≡ map key_of cs) _ _ _ (context_lines-text cs s h.1)
            λ ds s' e'. ap₂ (λ k ks. k ∷ ks) e e'

  succeeded_zero-Yields :
      (r : AtResponse) (sent : List Command)
      → (r.success == 0) ≡ false
      → Yields (λ q. q ≡ r) (succeeded_zero (pos 0, some r) sent)
  unfolding and_then
  succeeded_zero-Yields r sent h = rw h refl

  data_call_list-Yields :
      (cs : List Context) (r : AtResponse) (sent : List Command)
      → All IsContext cs
      → host.answer (context_command ∷ sent) ≡ (pos 0, some r)
      → (r.success == 0) ≡ false
      → r.intermediates ≡ map context_text cs
      → Yields (λ ds. keys ds ≡ map key_of cs) (data_call_list host sent)
  unfolding data_call_list
  data_call_list-Yields cs r sent h answered success lines =
      and_then-Yields (λ a. a ≡ (pos 0, some r)) _ _ _ answered
        λ a s e.
          and_then-Yields (λ q. q ≡ r) _ _ _
            (subst (λ a. Yields (λ q. q ≡ r) (succeeded_zero a s)) (sym e)
              (succeeded_zero-Yields r s success))
            λ q s e'.
              and_then-Yields (λ ds. keys ds ≡ map key_of cs) _ _ _
                (subst (λ ls. Yields (λ ds. keys ds ≡ map key_of cs) (context_lines host ls s))
                  (sym (ap (λ q. q.intermediates) e' ∙ lines)) (context_lines-text cs s h))
                λ ds s e''. then-Yields _ _ _ λ details s. then-Yields _ _ _ λ d s.
                  subst
                    (λ ks. Yields (λ ds'. keys ds' ≡ ks) (detail_lines host d.intermediates ds s))
                    e'' (detail_lines-Keeps host d.intermediates ds s)

  -- When the modem answers AT+CGACT? with lines of contexts, whatever it answers to AT+CGDCONT?, the
  -- request for the list of data calls, if nothing is undefined, is completed once: with a failure, or
  -- with exactly these contexts, in their order and with their cids and states.
  pub request_data_call_list-contexts :
      (t : ℕ) (cs : List Context) (r : AtResponse) (w : Ril) {w' : Ril}
      → All IsContext cs
      → host.answer (context_command ∷ w.sent) ≡ (pos 0, some r)
      → (r.success == 0) ≡ false
      → r.intermediates ≡ map context_text cs
      → request_data_call_list host t w ≡ some w'
      → (c : Completed) × (w'.completions ≡ c ∷ w.completions) × Reports t (map key_of cs) c
  unfolding request_data_call_list request_or_send_data_call_list settle
  request_data_call_list-contexts t cs r w {w'} h answered success lines e =
      go (data_call_list host w.sent) (data_call_list-Yields cs r w.sent h answered success lines) e
    where
      go :
          (q : Result (List DataCallResponse))
          → Yields (λ ds. keys ds ≡ map key_of cs) q
          → settle_result q
              (λ ds w. some (complete t 0 (Data.data_calls ds) (data_call_list_length host ds) w))
              (fail_with t 2)
              w
            ≡ some w'
          → (c : Completed) × (w'.completions ≡ c ∷ w.completions) × Reports t (map key_of cs) c
      go (ok ds sent) k e = (
        record {
          token = t;
          error = 0;
          response = Data.data_calls ds;
          length = data_call_list_length host ds;
        },
        ap (λ v. v.completions) (sym (some-injective _ _ e)),
        (refl, inr (ds, refl, refl, k)),
      )
      go (err sent) k e = (
        record { token = t; error = 2; response = Data.null; length = 0 },
        ap (λ v. v.completions) (sym (some-injective _ _ e)),
        (refl, inl refl),
      )
      go fault k e = absurd (cc)
