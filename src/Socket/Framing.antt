-- ===== src/Socket/Framing.antt =====
-- What reaches the command process.
use rild_hisi.Common.{
  ℕ, ◌+◌, ◌*◌, ◌≤◌, ◌<◌, ◌≡◌, refl, sym, ap, ◌∙◌, Bool, true, false, List, [], ◌∷◌, ◌++◌, Option,
  none, some, arith, length, take, drop, append_assoc, take-append-drop, length-drop, inl, inr, ◌/◌,
  ◌%◌, ◌^◌, leb, if◌then◌else◌, length-append, ltb, Bool-cases,
}
use rild_hisi.Common.Int.{ℤ, pos, negsuc, is_neg}
use rild_hisi.Telephony.{Bytes}
use rild_hisi.Socket.{
  WriteResult, wrote, interrupted, failed, Sent, blocking_write, htonl, send_response_raw,
  send_data, max_command_bytes,
}

-- The bytes that the answers of `write` account for, up to a failure.
unfoldable pub accepted : List WriteResult → ℕ
accepted [] = 0
accepted (wrote n ∷ ws) = n + accepted ws
accepted (interrupted ∷ ws) = accepted ws
accepted (failed ∷ ws) = 0

-- A blocking write that returns 0 has sent all of its data, in order and once.
pub blocking_write-ok :
    (ws : List WriteResult) (bs : Bytes)
    → (blocking_write ws bs).ret ≡ some (pos 0)
    → (blocking_write ws bs).bytes ≡ bs
unfolding blocking_write
blocking_write-ok [] [] h = refl
blocking_write-ok [] (b ∷ bs) h = absurd (cc)
blocking_write-ok (w ∷ ws) [] h = refl
blocking_write-ok (wrote n ∷ ws) (b ∷ bs) h =
    ap (◌++◌ (take n (b ∷ bs))) (blocking_write-ok ws (drop n (b ∷ bs)) h)
    ∙ take-append-drop n (b ∷ bs)
blocking_write-ok (interrupted ∷ ws) (b ∷ bs) h = blocking_write-ok ws (b ∷ bs) h
blocking_write-ok (failed ∷ ws) (b ∷ bs) h = absurd (cc)

-- It does return 0 once the answers of `write` account for all of the data, whatever their sizes
-- and however many calls were interrupted.
pub blocking_write-terminates :
    (ws : List WriteResult) (bs : Bytes)
    → length bs ≤ accepted ws
    → (blocking_write ws bs).ret ≡ some (pos 0)
unfolding blocking_write accepted
blocking_write-terminates [] [] h = refl
blocking_write-terminates [] (b ∷ bs) h = absurd (omega arith)
blocking_write-terminates (w ∷ ws) [] h = refl
blocking_write-terminates (wrote n ∷ ws) (b ∷ bs) h =
    blocking_write-terminates ws (drop n (b ∷ bs)) (omega (arith, length-drop n (b ∷ bs)))
blocking_write-terminates (interrupted ∷ ws) (b ∷ bs) h = blocking_write-terminates ws (b ∷ bs) h
blocking_write-terminates (failed ∷ ws) (b ∷ bs) h = absurd (omega arith)

-- Whatever happens, what went out is the beginning of the data.
pub blocking_write-prefix :
    (ws : List WriteResult) (bs : Bytes)
    → (unsent : Bytes) × (bs ≡ (blocking_write ws bs).bytes ++ unsent)
unfolding blocking_write
blocking_write-prefix [] [] = ([], refl)
blocking_write-prefix [] (b ∷ bs) = (b ∷ bs, refl)
blocking_write-prefix (w ∷ ws) [] = ([], refl)
blocking_write-prefix (wrote n ∷ ws) (b ∷ bs) =
    let (unsent, e) = blocking_write-prefix ws (drop n (b ∷ bs)) in
    (
      unsent,
      sym (take-append-drop n (b ∷ bs))
          ∙ ap (◌++◌ (take n (b ∷ bs))) e
          ∙ sym (append_assoc (take n (b ∷ bs)) _ unsent),
    )
blocking_write-prefix (interrupted ∷ ws) (b ∷ bs) = blocking_write-prefix ws (b ∷ bs)
blocking_write-prefix (failed ∷ ws) (b ∷ bs) = (b ∷ bs, refl)

-- How the other side cuts a packet off the stream: four bytes of length, most significant first,
-- and as many bytes of data.
unfoldable pub split_packet : Bytes → Option (Bytes × Bytes)
split_packet (a ∷ b ∷ c ∷ d ∷ r) =
    let n = a * 16777216 + b * 65536 + c * 256 + d in
    if leb n (length r) then some (take n r, drop n r) else none
split_packet _ = none

ntohl-htonl :
    (n : ℕ)
    → n < 4294967296
    → n / 2 ^ 24 % 256 * 16777216 + n / 2 ^ 16 % 256 * 65536 + n / 2 ^ 8 % 256 * 256 + n % 256 ≡ n
ntohl-htonl n h = omega arith

take-append : (xs ys : Bytes) → take (length xs) (xs ++ ys) ≡ xs
take-append [] ys = refl
take-append (x ∷ xs) ys = ap (◌∷◌ x) (take-append xs ys)

drop-append : (xs ys : Bytes) → drop (length xs) (xs ++ ys) ≡ ys
drop-append [] ys = refl
drop-append (x ∷ xs) ys = drop-append xs ys

leb-length : (xs ys : Bytes) → leb (length xs) (length (xs ++ ys)) ≡ true
leb-length xs ys = ground (arith, length-append xs ys)

abbrev is_neg_ret : Option ℤ → Bool
is_neg_ret none = true
is_neg_ret (some e) = is_neg e

send_data-ok :
    (ret : Option ℤ) (sent : Bytes) (closed : Bool) (ws : List WriteResult) (bs : Bytes)
    → let r : Sent = record { ret = ret; bytes = sent; closed = closed; rest = ws } in
      (send_data r bs).ret ≡ some (pos 0)
      → (is_neg_ret ret ≡ false) × ((send_data r bs).bytes ≡ sent ++ bs)
send_data-ok none sent closed ws bs h = absurd (cc)
send_data-ok (some (pos n)) sent closed ws bs h = (refl, ap (◌++◌ sent) (blocking_write-ok ws bs h))
send_data-ok (some (negsuc n)) sent closed ws bs h = absurd (cc)

-- The results of a blocking write.
blocking_write-ret :
    (ws : List WriteResult) (bs : Bytes)
    → is_neg_ret (blocking_write ws bs).ret ≡ false
    → (blocking_write ws bs).ret ≡ some (pos 0)
unfolding blocking_write
blocking_write-ret [] [] h = refl
blocking_write-ret [] (b ∷ bs) h = absurd (cc)
blocking_write-ret (w ∷ ws) [] h = refl
blocking_write-ret (wrote n ∷ ws) (b ∷ bs) h = blocking_write-ret ws (drop n (b ∷ bs)) h
blocking_write-ret (interrupted ∷ ws) (b ∷ bs) h = blocking_write-ret ws (b ∷ bs) h
blocking_write-ret (failed ∷ ws) (b ∷ bs) h = absurd (cc)

-- A packet that is sent with result 0 goes out as its length in four bytes and its data, the socket
-- was open, and the data is within the limit.
pub send_response_raw-ok :
    (fd : ℤ) (ws : List WriteResult) (bs : Bytes)
    → (send_response_raw fd ws bs).ret ≡ some (pos 0)
    → ((send_response_raw fd ws bs).bytes ≡ htonl (length bs) ++ bs)
      × (length bs ≤ max_command_bytes)
      × (is_neg fd ≡ false)
unfolding send_response_raw
send_response_raw-ok (negsuc n) ws bs h = absurd (cc)
send_response_raw-ok (pos n) ws bs h = elim (Bool-cases (ltb max_command_bytes (length bs))) [
  | inl big ↦ absurd (refused (rw big at h))
  | inr fits ↦
      let head = blocking_write ws (htonl (length bs)) in
      let (good, all) = send_data-ok head.ret head.bytes head.closed head.rest bs (rw fits at h) in
      (
        rw fits (all ∙ ap (λ l. l ++ bs) (blocking_write-ok ws _ (blocking_write-ret ws _ good))),
        ground arith,
        refl,
      )
]
  where
    refused : ◌≡◌ {A = Option ℤ} (some (negsuc 0)) (some (pos 0)) → ⊥
    refused e = cc

-- So the other side gets the data back from the stream, whatever follows it.
pub split_packet-send_response_raw :
    (fd : ℤ) (ws : List WriteResult) (bs more : Bytes)
    → (send_response_raw fd ws bs).ret ≡ some (pos 0)
    → split_packet ((send_response_raw fd ws bs).bytes ++ more) ≡ some (bs, more)
unfolding split_packet
split_packet-send_response_raw fd ws bs more h =
    let (sent, fits, _) = send_response_raw-ok fd ws bs h in
    rw (
      sent,
      ntohl-htonl (length bs) (omega arith),
      leb-length bs more,
      take-append bs more,
      drop-append bs more,
    )
