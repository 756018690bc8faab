-- ===== src/Examples/Modem.antt =====
-- The AT channel on concrete inputs.
use rild_hisi.Common.{
  ℕ, ◌^◌, ◌≡◌, ◌≢◌, refl, Bool, true, false, not, ◌&&◌, List, [], ◌∷◌, ◌++◌, none, some, arith,
  ◌==◌, Bool-cases, inl, inr, replicate, ◌>>=◌,
}
use rild_hisi.Common.Int.{pos, negsuc}
use rild_hisi.Telephony.{Bytes}
use rild_hisi.Socket.{wrote, interrupted}
use rild_hisi.AtTok.{at_tok_start}
use rild_hisi.AtTok.Decimal.{print}
use rild_hisi.AtTok.Fields.{print_int, rest_of, nextints, nextints-at_tok_start}
use rild_hisi.AtChannel.Reader.{Reader, ReadResult, received, readline}
use rild_hisi.AtChannel.Lines.{joined, next_line, IsPlain, Arrives}
use rild_hisi.AtChannel.Lines.Buffer.{Holds}
use rild_hisi.AtChannel.Lines.Readline.{Reads, readline-next_line}
use rild_hisi.AtChannel.ReaderLoop.{reader_loop}
use rild_hisi.AtChannel.ReaderLoop.Stream.{process_lines, reader_loop-process_lines}
use rild_hisi.AtChannel.Commands.{
  Channel, no_result, singleline, multiline, process_line, on_reader_closed, clear_pending_command,
  writeline, is_final_response, is_final_response_success, is_final_response_error,
  at_error_channel_closed,
}
use rild_hisi.AtChannel.Commands.Sending.{
  heard, ended, woken, expired, at_send_command_full_nolock, at_send_command_singleline,
  at_send_command_numeric, at_send_command_sms, wait, at_error_command_pending, at_response_new,
}
use rild_hisi.AtChannel.Commands.Sorting.{IsOrdinary}
use rild_hisi.AtChannel.Commands.Answers.{
  outcome, at_send_command_full_nolock-answered, at_send_command_full_nolock_ended,
}
use rild_hisi.AtChannel.Commands.Errors.{
  EndsIdle, IsAnswered, at_send_command_full_nolock-EndsIdle, at_send_command_full_nolock_pending,
  at_send_command-IsAnswered,
}

-- "+CREG: 1, -5"
nextints-at_tok_start_example :
    nextints
      (2 ^ 63)
      2
      (at_tok_start (some (b'+' ∷ b'C' ∷ b':' ∷ b' ' ∷ b'1' ∷ b',' ∷ b' ' ∷ b'-' ∷ b'5' ∷ []))).cur
    ≡ some (pos 1 ∷ negsuc 4 ∷ [], none)
unfolding print_int print rest_of
nextints-at_tok_start_example =
    nextints-at_tok_start (2 ^ 63) (b'+' ∷ b'C' ∷ []) (1, pos 1) ((1, negsuc 4) ∷ []) (omega arith)
      ((λ e. omega arith), ((λ e. omega arith), tt)) (omega arith, (omega arith, tt))

abbrev ok_line : Bytes
ok_line = b'O' ∷ b'K' ∷ []

abbrev ring_line : Bytes
ring_line = b'R' ∷ b'I' ∷ b'N' ∷ b'G' ∷ []

-- An empty buffer for 20 bytes
abbrev empty_reader : Reader
empty_reader = record { buffer = replicate 21 0; cur = 0 }

empty_reader-Holds : Holds empty_reader []
empty_reader-Holds = record { pre = []; stale = replicate 20 0; shape = refl }

-- "\r\nOK\r\nRING\r", in four answers.
abbrev chunks : List ReadResult
chunks =
    received (b'\r' ∷ b'\n' ∷ b'O' ∷ [])
    ∷ ReadResult.interrupted
    ∷ received (b'K' ∷ b'\r' ∷ b'\n' ∷ [])
    ∷ received (b'R' ∷ b'I' ∷ b'N' ∷ b'G' ∷ b'\r' ∷ [])
    ∷ []

abbrev is_plain : Bytes → Bool
is_plain [] = true
is_plain (c ∷ cs) = not (c == 0) && not (c == b'>') && is_plain cs

ne-== : (a b : ℕ) → (a == b) ≡ false → a ≢ b
ne-== a b h = ground arith

IsPlain-is_plain : (s : Bytes) → is_plain s ≡ true → IsPlain s
IsPlain-is_plain [] h = tt
IsPlain-is_plain (c ∷ cs) h = elim (Bool-cases (c == 0)) [
  | inl nul ↦ let e : false ≡ true = rw nul at h in absurd (cc)
  | inr not_nul ↦ elim (Bool-cases (c == b'>')) [
    | inl prompt ↦ let e : false ≡ true = rw (not_nul, prompt) at h in absurd (cc)
    | inr other ↦ (
      ((λ e. ne-== c 0 not_nul e), (λ e. ne-== c b'>' other e)),
      IsPlain-is_plain cs (rw (not_nul, other) at h),
    )
  ]
]

cons-ne-nil : (c : ℕ) (cs : Bytes) → c ∷ cs ≢ []
cons-ne-nil c cs e = absurd (cc)

chunks-Arrives : Arrives chunks
chunks-Arrives = (
  cons-ne-nil _ _,
  IsPlain-is_plain (b'\r' ∷ b'\n' ∷ b'O' ∷ []) refl,
  (
    cons-ne-nil _ _,
    IsPlain-is_plain (b'K' ∷ b'\r' ∷ b'\n' ∷ []) refl,
    (cons-ne-nil _ _, IsPlain-is_plain (b'R' ∷ b'I' ∷ b'N' ∷ b'G' ∷ b'\r' ∷ []) refl, tt),
  ),
)

readline-next_line_example :
    Reads
      (readline 20 (chunks ++ received [] ∷ []) empty_reader)
      ok_line
      (b'\n' ∷ ring_line ++ b'\r' ∷ [])
      (received [] ∷ [])
unfolding joined next_line
readline-next_line_example =
    readline-next_line 20 chunks (received [] ∷ []) empty_reader [] {l = ok_line}
      {after = b'\n' ∷ ring_line ++ b'\r' ∷ []} empty_reader-Holds tt chunks-Arrives (omega arith)
      refl

-- "AT" is written in two parts, and its end in one.
abbrev modem : Channel
modem = record {
  fd = pos 3;
  reader_closed = 0;
  type = no_result;
  response_prefix = none;
  sms_pdu = none;
  response = none;
  handles = true;
  unsolicited = [];
  notifies = true;
  closings = 0;
  signals = 0;
  answers = wrote 1 ∷ interrupted ∷ wrote 1 ∷ wrote 0 ∷ wrote 1 ∷ [];
  written = [];
}

reader_loop-process_lines_example :
    reader_loop 20 3 (chunks ++ received [] ∷ []) empty_reader modem
    ≡ (process_lines (ok_line ∷ ring_line ∷ []) modem >>= λ last. some (on_reader_closed last))
unfolding joined next_line
reader_loop-process_lines_example =
    reader_loop-process_lines 20 (ok_line ∷ ring_line ∷ []) chunks [] empty_reader [] modem
      empty_reader-Holds tt chunks-Arrives (omega arith)
      (b'\n' ∷ ring_line ++ b'\r' ∷ [], refl, ([], refl, refl))

abbrev at_command : Bytes
at_command = b'A' ∷ b'T' ∷ []

abbrev sent_modem : Channel
sent_modem = record modem { answers = []; written = b'A' ∷ b'T' ∷ b'\r' ∷ [] }

-- "+C: 1"
abbrev answer_line : Bytes
answer_line = b'+' ∷ b'C' ∷ b':' ∷ b' ' ∷ b'1' ∷ []

abbrev answer_prefix : Bytes
answer_prefix = b'+' ∷ b'C' ∷ b':' ∷ []

answer_line-IsOrdinary : IsOrdinary answer_line
unfolding is_final_response_success is_final_response_error
answer_line-IsOrdinary = record { no_success = refl; no_error = refl; no_prompt = refl }

ring_line-IsOrdinary : IsOrdinary ring_line
unfolding is_final_response_success is_final_response_error
ring_line-IsOrdinary = record { no_success = refl; no_error = refl; no_prompt = refl }

at_send_command_full_nolock-answered_example :
    at_send_command_full_nolock at_command singleline
      (some answer_prefix)
      none
      false
      true
      (heard ring_line ∷ heard answer_line ∷ heard ok_line ∷ woken ∷ [])
      modem
    ≡ outcome at_command singleline
        (some answer_prefix)
        none
        false
        (ring_line ∷ answer_line ∷ [])
        []
        modem
        (pos 0)
        1
        (some ok_line)
        (record sent_modem { signals = 1 })
unfolding writeline is_final_response is_final_response_success is_final_response_error
at_send_command_full_nolock-answered_example =
    at_send_command_full_nolock-answered at_command singleline (some answer_prefix) none false
      (ring_line ∷ answer_line ∷ []) ok_line [] modem {sent = sent_modem} tt refl refl refl
      (ring_line-IsOrdinary, (answer_line-IsOrdinary, tt)) refl

at_send_command_full_nolock_ended_example :
    at_send_command_full_nolock at_command multiline
      (some answer_prefix)
      none
      false
      true
      (heard answer_line ∷ heard ring_line ∷ ended ∷ woken ∷ [])
      modem
    ≡ outcome at_command multiline
        (some answer_prefix)
        none
        false
        (answer_line ∷ ring_line ∷ [])
        []
        modem
        at_error_channel_closed
        0
        none
        (record sent_modem { reader_closed = 1; signals = 1; closings = 1 })
unfolding writeline
at_send_command_full_nolock_ended_example =
    at_send_command_full_nolock_ended at_command multiline (some answer_prefix) none false
      (answer_line ∷ ring_line ∷ []) [] modem {sent = sent_modem} tt refl refl refl refl
      (answer_line-IsOrdinary, (ring_line-IsOrdinary, tt))

at_send_command_full_nolock-EndsIdle_example : EndsIdle (
    at_send_command_full_nolock at_command singleline
      (some answer_prefix)
      none
      true
      true
      (heard answer_line ∷ expired ∷ [])
      modem)
at_send_command_full_nolock-EndsIdle_example =
    at_send_command_full_nolock-EndsIdle at_command singleline (some answer_prefix) none true true
      (heard answer_line ∷ expired ∷ []) modem

at_send_command-IsAnswered_example :
    IsAnswered (
      at_send_command_singleline at_command true false false
        (heard ok_line ∷ woken ∷ [])
        modem
        answer_prefix)
    × IsAnswered
        (at_send_command_numeric at_command true false false (heard ok_line ∷ woken ∷ []) modem)
    × IsAnswered (
        at_send_command_sms at_command true false false
          (heard ok_line ∷ woken ∷ [])
          modem
          at_command
          answer_prefix)
at_send_command-IsAnswered_example =
    at_send_command-IsAnswered at_command at_command answer_prefix true false false
      (heard ok_line ∷ woken ∷ []) modem

-- A command waits.
abbrev busy_modem : Channel
busy_modem = record modem {
  type = singleline;
  response_prefix = some answer_prefix;
  response = some at_response_new;
}

at_send_command_full_nolock_pending_example :
    (at_send_command_full_nolock at_command no_result none none false true [] busy_modem
      ≡ some (record {
        err = at_error_command_pending;
        out = none;
        channel = clear_pending_command busy_modem;
        events = [];
      }))
    × (process_line ok_line (clear_pending_command busy_modem)
        ≡ some (record (clear_pending_command busy_modem) { unsolicited = (ok_line, none) ∷ [] }))
    × (wait false true (woken ∷ []) (clear_pending_command busy_modem) ≡ none)
at_send_command_full_nolock_pending_example =
    at_send_command_full_nolock_pending at_command no_result none none false true [] busy_modem
      {r = at_response_new} ok_line false true [] refl refl
