-- ===== src/ReferenceRil/Registered.antt =====
-- requestRegistrationState of reference-ril/reference-ril.c as a whole, on what a modem answers.
use rild_hisi.Common.{
  ℕ, ◌+◌, ◌*◌, ◌^◌, ◌≤◌, ◌≡◌, refl, ap, ◌∙◌, true, List, [], ◌∷◌, ◌++◌, none, some, codes, length,
  ◌⊎◌, inl, inr, ◌==◌, if◌then◌else◌,
}
use rild_hisi.Common.Int.{pos}
use rild_hisi.Telephony.{Bytes}
use rild_hisi.Telephony.Data.{Data}
use rild_hisi.AtTok.Fields.{Lacks, at_tok_start_colon}
use rild_hisi.AtChannel.Commands.{singleline, AtResponse}
use rild_hisi.ReferenceRil.Query.{Command, Host, ok, Query, and_then, first_line, start}
use rild_hisi.ReferenceRil.State.{Ril, settle, settle_result, complete, reply, fail_with}
use rild_hisi.ReferenceRil.Network.{
  Registration, registration_strings, registration_query, request_registration_state,
  read_registration,
}
use rild_hisi.ReferenceRil.Registration.{
  Report, report_text, registration_of, IsReport, count_commas-report, then-ok,
  read_registration-report,
}

-- The two requests that ask for a registration
abbrev pub IsRegistration : ℕ → Type 0
IsRegistration request = (request ≡ 20) ⊎ (request ≡ 21)

-- A call of at_send_command_singleline
abbrev pub singleline_command : Bytes → Bytes → Command
singleline_command text prefix = record {
  type = singleline;
  text = text;
  prefix = some prefix;
  pdu = none;
  wanted = true;
}

-- The command that is sent for them
abbrev pub registration_command : ℕ → Command
registration_command request =
    if request == 20
    then singleline_command (codes "AT+CREG?") (codes "+CREG:")
    else singleline_command (codes "AT+CGREG?") (codes "+CGREG:")

reply-ok :
    (t : ℕ) (q : Query (Data × ℕ)) (d : Data) (n : ℕ) (sent : List Command) (w : Ril)
    → q w.sent ≡ ok (d, n) sent
    → reply t q w ≡ some (complete t 0 d n (record w { sent = sent }))
unfolding settle
reply-ok t q d n sent w e =
    ap (λ r. settle_result r (λ (d, n) w. some (complete t 0 d n w)) (fail_with t 2) w) e

module _ (host : Host) where
  -- Without an intermediate line the line behind a NULL pointer is read.
  pub request_registration_state-undefined :
      (request t : ℕ) (r : AtResponse) (w : Ril)
      → IsRegistration request
      → host.answer (registration_command request ∷ w.sent) ≡ (pos 0, some r)
      → r.intermediates ≡ []
      → request_registration_state host request t w ≡ none
  unfolding request_registration_state and_then settle
  request_registration_state-undefined request t r w (inl voice) answered empty =
      rw (voice, rw voice at answered, empty) refl
  request_registration_state-undefined request t r w (inr gprs) answered empty =
      rw (gprs, rw gprs at answered, empty) refl

  abbrev pub registered : ℕ → ℕ → Registration → Ril → Ril
  registered request t reg w =
      complete t 0 (Data.strings (registration_strings reg))
        (length (registration_strings reg) * host.platform.size_ptr)
        (record w { sent = registration_command request ∷ w.sent })

  first_line-report :
      (line : Bytes) (more : List Bytes) (r : AtResponse) (sent : List Command)
      → r.intermediates ≡ line ∷ more
      → first_line r sent ≡ ok (some line) sent
  first_line-report line more r sent e = rw e refl

  start-report :
      (prefix text : Bytes) (sent : List Command)
      → Lacks b':' prefix
      → start (some (prefix ++ b':' ∷ text)) sent ≡ ok (some text) sent
  start-report prefix text sent h = rw (at_tok_start_colon prefix text h) refl

  registration_query-report :
      (big : 2 ^ 31 ≤ host.long_max + 1) (k : ℕ) (prefix : Bytes) (rep : Report) (more : List Bytes)
      (r : AtResponse) (command asked : Bytes) (sent : List Command)
      → Lacks b':' prefix
      → IsReport host.long_max rep
      → host.answer (singleline_command command asked ∷ sent) ≡ (pos 0, some r)
      → r.intermediates ≡ (prefix ++ b':' ∷ report_text k rep) ∷ more
      → registration_query host command asked sent
        ≡ ok
            (
              Data.strings (registration_strings (registration_of rep)),
              length (registration_strings (registration_of rep)) * host.platform.size_ptr,
            )
            (singleline_command command asked ∷ sent)
  registration_query-report big k prefix rep more r command asked sent lacks h answered line =
      let after = singleline_command command asked ∷ sent in
      then-ok _ (ap (λ a. ok a after) answered)
      ∙ then-ok _ refl
      ∙ then-ok _ (first_line-report (prefix ++ b':' ∷ report_text k rep) more r after line)
      ∙ then-ok _ (start-report prefix (report_text k rep) after lacks)
      ∙ then-ok _ (
          ap (λ n. read_registration host n (some (report_text k rep)) after)
            (count_commas-report k rep)
          ∙ read_registration-report host big k rep after h)

  -- When the modem reports the registration in any of the five forms, each number printed as an `int`
  -- (lac, cid and the network type in hexadecimal), the request is completed once, with success and
  -- the texts of these values; lac and cid are -1 where they are not reported. `long` holds every
  -- `int`, and the 32 bits of each number in hexadecimal: a `long` of 32 bits does not hold those of
  -- a negative one.
  pub request_registration_state-report :
      (big : 2 ^ 31 ≤ host.long_max + 1) (k request t : ℕ) (prefix : Bytes) (rep : Report)
      (more : List Bytes) (r : AtResponse) (w : Ril)
      → IsRegistration request
      → Lacks b':' prefix
      → IsReport host.long_max rep
      → host.answer (registration_command request ∷ w.sent) ≡ (pos 0, some r)
      → r.intermediates ≡ (prefix ++ b':' ∷ report_text k rep) ∷ more
      → request_registration_state host request t w
        ≡ some (registered request t (registration_of rep) w)
  unfolding request_registration_state
  request_registration_state-report big k request t prefix rep more r w (inl voice) lacks h answered
        line =
      rw voice (
        reply-ok t _ _ _ _ w (
          registration_query-report big k prefix rep more r _ _ w.sent lacks h
            (rw voice at answered) line))
  request_registration_state-report big k request t prefix rep more r w (inr gprs) lacks h answered
        line =
      rw gprs (
        reply-ok t _ _ _ _ w (
          registration_query-report big k prefix rep more r _ _ w.sent lacks h (rw gprs at answered)
            line))
