-- ===== src/ReferenceRil/ShortMessages.antt =====
-- Short messages that arrive: reference-ril/atchannel.c and onUnsolicited of
-- reference-ril/reference-ril.c together.
use rild_hisi.Common.{
  ℕ, ◌≡◌, refl, false, List, [], ◌∷◌, ◌++◌, none, some, All, inl, inr, codes, ◌==◌, subst, ◌⊎◌,
}
use rild_hisi.Telephony.{Bytes, CString}
use rild_hisi.AtChannel.Reader.{Reader, ReadResult}
use rild_hisi.AtChannel.Commands.{Channel}
use rild_hisi.AtChannel.Commands.Pdus.{HasNoPdu, EndsWithoutPdu}
use rild_hisi.AtChannel.ReaderLoop.{reader_loop}
use rild_hisi.AtChannel.ReaderLoop.Pdus.{reader_loop-EndsWithoutPdu}
use rild_hisi.ReferenceRil.Query.{Host}
use rild_hisi.ReferenceRil.State.{Ril}
use rild_hisi.ReferenceRil.OnUnsolicited.{on_line, on_unsolicited}

-- The line tells of a short message or of its status report.
abbrev pub IsMessageLine : Bytes → Type 0
IsMessageLine s = (rest : Bytes) × ((s ≡ codes "+CMT:" ++ rest) ⊎ (s ≡ codes "+CDS:" ++ rest))

module _ (host : Host) where
  on_line_cmt : (rest : Bytes) (w : Ril) → on_line host (codes "+CMT:" ++ rest) none w ≡ none
  unfolding on_line
  on_line_cmt rest w = refl

  on_line_cds : (rest : Bytes) (w : Ril) → on_line host (codes "+CDS:" ++ rest) none w ≡ none
  unfolding on_line
  on_line_cds rest w = refl

  message_line-undefined :
      (s : Bytes) (w : Ril)
      → IsMessageLine s
      → (w.radio == 1) ≡ false
      → on_unsolicited host s none w ≡ none
  unfolding on_unsolicited
  message_line-undefined s w (rest, inl cmt) on = rw (on, cmt) (on_line_cmt rest w)
  message_line-undefined s w (rest, inr cds) on = rw (on, cds) (on_line_cds rest w)

  All-split :
      (before after : List (Bytes × CString)) (call : Bytes × CString)
      → All (λ c. c.1 ≡ none) (before ++ call ∷ after)
      → call.1 ≡ none
  All-split [] after call h = h.0
  All-split (c ∷ before) after call h = All-split before after call h.1

  -- When the line of a short message or of its status report has reached the handler of unsolicited
  -- lines, and the radio is not unavailable, onUnsolicited is undefined: it takes the length of a PDU
  -- that is NULL. The handler had only been called with NULL before.
  pub arrived_message-undefined :
      (max n : ℕ) (reads : List ReadResult) (r : Reader) (ch : Channel) {ch' : Channel}
      (before after : List (Bytes × CString)) (s : Bytes) (pdu : CString) (w : Ril)
      → HasNoPdu ch
      → reader_loop max n reads r ch ≡ some ch'
      → ch'.unsolicited ≡ before ++ (s, pdu) ∷ after
      → IsMessageLine s
      → (w.radio == 1) ≡ false
      → on_unsolicited host s pdu w ≡ none
  arrived_message-undefined max n reads r ch {ch'} before after s pdu w h ends calls message on =
      let kept : EndsWithoutPdu (some ch') =
        subst EndsWithoutPdu ends (reader_loop-EndsWithoutPdu max n reads r ch h) in
      let null : pdu ≡ none =
        All-split before after (s, pdu) (subst (All λ c. c.1 ≡ none) calls kept) in
      rw null (message_line-undefined s w message on)
