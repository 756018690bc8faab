-- ===== src/ReferenceRil/Polling.antt =====
-- The replies of requestGetCurrentCalls of reference-ril/reference-ril.c.
use rild_hisi.Common.{
  ℕ, suc, ◌+◌, ◌^◌, ◌≤◌, ◌≡◌, refl, ap, ◌∙◌, Bool, true, false, not, ◌&&◌, ◌||◌, ◌⊎◌, List, [], ◌∷◌,
  ◌++◌, Option, none, some, All, ◌==◌, ltb, if◌then◌else◌, Bool-cases, subst, ltb→lt, inl, inr, map,
}
use rild_hisi.Common.Int.{suc-ne-zero, ℤ, pos, negsuc, is_neg, ◌==ℤ◌}
use mathlib.Core.Option.{some-injective}
use rild_hisi.Telephony.{Bytes, CString, Call}
use rild_hisi.AtTok.Fields.{Lacks}
use rild_hisi.AtChannel.Commands.{AtResponse}
use rild_hisi.ReferenceRil.CallLines.{
  Listed, IsListed, clcc_fields, listed_call, call_from_clcc_line-listed_call,
}
use rild_hisi.ReferenceRil.CallList.{
  generic_failure, CallsState, CallsReply, empty_call, valid_calls, incoming_or_waiting,
  turned_active, need_repoll, reply_calls, request_get_current_calls, repoll_calls_count_max,
}

-- The line of a call
abbrev pub clcc_line : Bytes → Listed → Bytes
clcc_line prefix l = prefix ++ b':' ∷ clcc_fields l none

valid_calls-listed :
    (long_max : ℕ) (prefix : Bytes) (ls : List Listed)
    → 2 ^ 31 ≤ long_max + 1
    → Lacks b':' prefix
    → All IsListed ls
    → valid_calls long_max empty_call (map (clcc_line prefix) ls)
      ≡ map (λ l. listed_call l empty_call) ls
unfolding valid_calls
valid_calls-listed long_max prefix [] big lacks h = refl
valid_calls-listed long_max prefix (l ∷ ls) big lacks h =
    ap
      (λ f.
        if f.0
        then f.1 ∷ valid_calls long_max empty_call (map (clcc_line prefix) ls)
        else valid_calls long_max f.1 (map (clcc_line prefix) ls))
      (call_from_clcc_line-listed_call long_max prefix l none empty_call big lacks h.0)
    ∙ ap (λ cs. listed_call l empty_call ∷ cs) (valid_calls-listed long_max prefix ls big lacks h.1)

reply_calls-quiet :
    (prev : ℤ) (calls : List Call) (s : CallsState)
    → is_neg prev ≡ true
    → reply_calls prev calls s ≡ record {
      error = 0;
      calls = calls;
      repolls = need_repoll calls;
      state = record {
        incoming_or_waiting_line = incoming_or_waiting (negsuc 0) calls;
        expect_answer = pos 0;
        repoll_calls_count = 0;
      };
    }
unfolding reply_calls
reply_calls-quiet (pos n) calls s h = absurd (cc)
reply_calls-quiet (negsuc n) calls s h = refl

-- The calls that a modem lists are all reported, in order and as they are listed, and with them
-- whether one is neither active nor holding: when the answer reports success, no call was incoming or
-- waiting before, and the lines are well-formed.
pub request_get_current_calls-listed_call :
    (long_max : ℕ) (prefix : Bytes) (ls : List Listed) (success : ℕ) (final : CString)
    (s : CallsState)
    → 2 ^ 31 ≤ long_max + 1
    → Lacks b':' prefix
    → All IsListed ls
    → is_neg s.incoming_or_waiting_line ≡ true
    → let calls = map (λ l. listed_call l empty_call) ls in
      request_get_current_calls long_max
        (pos 0)
        (some (record {
          success = suc success;
          final_response = final;
          intermediates = map (clcc_line prefix) ls;
        }))
        s
      ≡ some (record {
        error = 0;
        calls = calls;
        repolls = need_repoll calls;
        state = record {
          incoming_or_waiting_line = incoming_or_waiting (negsuc 0) calls;
          expect_answer = pos 0;
          repoll_calls_count = 0;
        };
      })
unfolding request_get_current_calls reply_calls
request_get_current_calls-listed_call long_max prefix ls success final s big lacks h quiet =
    ap
      (λ b.
        if b
        then some (generic_failure (record s { incoming_or_waiting_line = negsuc 0 }))
        else some (
            reply_calls s.incoming_or_waiting_line
              (valid_calls long_max empty_call (map (clcc_line prefix) ls)) s))
      (suc-ne-zero success)
    ∙ ap (λ calls. some (reply_calls s.incoming_or_waiting_line calls s))
        (valid_calls-listed long_max prefix ls big lacks h)
    ∙ ap some (
        reply_calls-quiet s.incoming_or_waiting_line (map (λ l. listed_call l empty_call) ls) s
          quiet)

-- The command failed, and the list is not read.
unfoldable pub is_refused : ℤ → Option AtResponse → Bool
is_refused err none = not (err ==ℤ pos 0)
is_refused err (some r) = not (err ==ℤ pos 0) || r.success == 0

-- How a reply counts: the command failed and the count stays; the list is given and the count is
-- reset; or the list is withheld and the count goes up, but not beyond the maximum.
abbrev pub Counts : Bool → ℕ → CallsReply → Type 0
Counts refused count r =
    ((refused ≡ true) × (r.error ≡ 2) × (r.state.repoll_calls_count ≡ count))
    ⊎ ((refused ≡ false) × (r.error ≡ 0) × (r.state.repoll_calls_count ≡ 0))
    ⊎ ((refused ≡ false)
        × (r.error ≡ 2)
        × (r.state.repoll_calls_count ≡ suc count)
        × (r.state.repoll_calls_count ≤ repoll_calls_count_max))

and_last : (a b c d e : Bool) → (a && b && c && d && e) ≡ true → e ≡ true
and_last true true true true e h = h
and_last false b c d e h = absurd (cc)
and_last true false c d e h = absurd (cc)
and_last true true false d e h = absurd (cc)
and_last true true true false e h = absurd (cc)

reply_calls-Counts :
    (prev : ℤ) (calls : List Call) (s : CallsState)
    → Counts false s.repoll_calls_count (reply_calls prev calls s)
unfolding reply_calls
reply_calls-Counts prev calls s =
    let line = incoming_or_waiting (negsuc 0) calls in
    let few = ltb s.repoll_calls_count repoll_calls_count_max in
    let late =
      not (is_neg prev)
      && is_neg line
      && s.expect_answer ==ℤ pos 0
      && turned_active prev calls
      && few in
    elim (Bool-cases late) [
      | inl held ↦ rw held (
          inr (
            inr (
              refl,
              refl,
              refl,
              ltb→lt s.repoll_calls_count repoll_calls_count_max (
                  and_last (not (is_neg prev)) (is_neg line) (s.expect_answer ==ℤ pos 0)
                    (turned_active prev calls) few held),
            )))
      | inr usual ↦ rw usual (inr (inl (refl, refl, refl)))
    ]

-- Replies that withhold the list (an error although the command succeeded) are counted: each raises the count by one, and none is given when that is REPOLL_CALLS_COUNT_MAX already. A reply
-- that gives the list resets the count, and a command that failed leaves it.
pub request_get_current_calls-Counts :
    (long_max : ℕ) (err : ℤ) (response : Option AtResponse) (s : CallsState) {reply : CallsReply}
    → request_get_current_calls long_max err response s ≡ some reply
    → Counts (is_refused err response) s.repoll_calls_count reply
unfolding request_get_current_calls is_refused
request_get_current_calls-Counts long_max err none s {reply} e = elim (Bool-cases (err ==ℤ pos 0)) [
  | inr bad ↦ rw bad (
      subst (Counts true s.repoll_calls_count) (some-injective _ _ (rw bad at e))
        (inl (refl, refl, refl)))
  | inl sent ↦
      let stuck : ◌≡◌ {A = Option CallsReply} none (some reply) = rw sent at e in absurd (cc)
]
request_get_current_calls-Counts long_max err (some r) s {reply} e =
    elim (Bool-cases (err ==ℤ pos 0)) [
      | inr bad ↦ rw bad (
          subst (Counts true s.repoll_calls_count) (some-injective _ _ (rw bad at e))
            (inl (refl, refl, refl)))
      | inl sent ↦ elim (Bool-cases (r.success == 0)) [
        | inl error ↦
            rw (sent, error)
              (subst (Counts true s.repoll_calls_count) (some-injective _ _ (rw (sent, error) at e))
                (inl (refl, refl, refl)))
        | inr fine ↦
            rw (sent, fine)
              (subst (Counts false s.repoll_calls_count) (some-injective _ _ (rw (sent, fine) at e))
                (reply_calls-Counts s.incoming_or_waiting_line
                  (valid_calls long_max empty_call r.intermediates) s))
      ]
    ]
