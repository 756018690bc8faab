-- ===== src/ReferenceRil/Refused.antt =====
-- requestRegistrationState of reference-ril/reference-ril.c over at_send_command_singleline of
-- reference-ril/atchannel.c, when the modem answers with an error.
use rild_hisi.Common.{
  ℕ, ◌≡◌, refl, sym, ap, ◌∙◌, Bool, true, false, List, [], ◌∷◌, ◌++◌, map, All, some, none, codes,
  ◌==◌, if◌then◌else◌, ◌>>=◌, ◌&&◌, ap₂,
}
use mathlib.Core.Option.{some-injective}
use rild_hisi.Common.Int.{pos, ◌==ℤ◌}
use rild_hisi.Telephony.{Bytes}
use rild_hisi.AtChannel.Commands.{
  Channel, AtResponse, singleline, writeline, is_final_response, is_final_response_success,
  is_final_response_error,
}
use rild_hisi.AtChannel.Commands.Sending.{
  AtEvent, heard, woken, AtResult, at_send_command_full, at_send_command_singleline, must_answer,
  at_error_timeout,
}
use rild_hisi.AtChannel.Commands.Sorting.{answers_of, IsOrdinary}
use rild_hisi.AtChannel.Commands.Answers.{at_send_command_full_nolock-answered}
use rild_hisi.ReferenceRil.Query.{Host}
use rild_hisi.ReferenceRil.State.{Ril}
use rild_hisi.ReferenceRil.Network.{request_registration_state}
use rild_hisi.ReferenceRil.Registered.{
  IsRegistration, registration_command, request_registration_state-undefined,
}

abbrev pub registration_prefix : ℕ → Bytes
registration_prefix request = if request == 20 then codes "+CREG:" else codes "+CGREG:"

abbrev refused_response : Bytes → AtResponse
refused_response final = record { success = 0; final_response = some final; intermediates = [] }

module _ (text prefix : Bytes) (ls : List Bytes) (final : Bytes) (es : List AtEvent) (ch : Channel)
    {sent : Channel} where
  -- at_send_command_singleline returns 0 and the response without intermediate lines.
  singleline-refused :
      (reports : Bool) {s : AtResult} {called : Bool}
      → ch.handles ≡ true
      → ch.response ≡ none
      → writeline text ch ≡ some (pos 0, sent)
      → All IsOrdinary ls
      → answers_of singleline (some prefix) true ls ≡ []
      → is_final_response_success final ≡ false
      → is_final_response_error final ≡ true
      → at_send_command_singleline text true false reports
          (map heard ls ++ heard final ∷ woken ∷ es)
          ch
          prefix
        ≡ some (s, called)
      → (s.err ≡ pos 0) × (s.out ≡ some (refused_response final))
  unfolding at_send_command_singleline at_send_command_full must_answer is_final_response
  singleline-refused reports {s} {called} handles idle written plain unanswered bad error e =
      let answered =
        at_send_command_full_nolock-answered text singleline (some prefix) none false ls final es ch
          {sent = sent} tt handles idle written plain (rw (bad, error) refl) in
      let given = rw (bad, unanswered) at answered in
      let whole =
        ap
          (λ m. m >>= (λ s. some (s, reports && (s.err ==ℤ at_error_timeout))) >>= λ (s, called).
            some (must_answer s, called))
          given in
      let same = some-injective _ _ (sym e ∙ whole) in
      (ap (λ z. z.0.err) same, ap (λ z. z.0.out) same)

-- When the modem answers the command for the registration with an error, requestRegistrationState is
-- undefined: it does not test whether the command succeeded, and reads the line behind a NULL pointer.
-- The host answers what at_send_command_singleline returns, on a channel with a handler of
-- unsolicited lines and without a pending command; the command is written, and the lines before the
-- final one are unsolicited.
pub request_registration_state_refused :
    (host : Host) (request t : ℕ) (ls : List Bytes) (final : Bytes) (es : List AtEvent)
    (ch : Channel) {sent : Channel} (reports : Bool) {s : AtResult} {called : Bool} (w : Ril)
    → IsRegistration request
    → ch.handles ≡ true
    → ch.response ≡ none
    → writeline (registration_command request).text ch ≡ some (pos 0, sent)
    → All IsOrdinary ls
    → answers_of singleline (some (registration_prefix request)) true ls ≡ []
    → is_final_response_success final ≡ false
    → is_final_response_error final ≡ true
    → at_send_command_singleline
        (registration_command request).text
        true
        false
        reports
        (map heard ls ++ heard final ∷ woken ∷ es)
        ch
        (registration_prefix request)
      ≡ some (s, called)
    → host.answer (registration_command request ∷ w.sent) ≡ (s.err, s.out)
    → request_registration_state host request t w ≡ none
request_registration_state_refused host request t ls final es ch {sent} reports {s} {called} w is
      handles idle written plain unanswered bad error e answer =
    let (fine, out) =
      singleline-refused (registration_command request).text (registration_prefix request) ls final
        es ch {sent = sent} reports {s = s} {called = called} handles idle written plain unanswered
        bad error e in
    request_registration_state-undefined host request t (refused_response final) w is
      (answer ∙ ap₂ (λ a b. (a, b)) fine out) refl
