-- ===== src/Socket.antt =====
-- blockingWrite and sendResponseRaw of libril/ril.cpp. What `write` answers is an input: a list with
-- one entry for each call.
pub mod Framing
use rild_hisi.Common.{
  ℕ, ◌+◌, ◌*◌, ◌/◌, ◌%◌, ◌^◌, Bool, true, false, List, [], ◌∷◌, ◌++◌, Option, none, some, ltb,
  length, take, drop, if◌then◌else◌,
}
use rild_hisi.Common.Int.{ℤ, pos, negsuc, is_neg}
use rild_hisi.Telephony.{Bytes}

-- `written >= 0`; `written < 0` with EINTR; `written < 0` with another error.
pub data WriteResult : Type 0 where
  wrote : ℕ → WriteResult
  interrupted failed : WriteResult

-- `ret` is `none` if the calls of `write` that are given do not suffice to return. `closed` tells
-- that the descriptor was closed, `bytes` what went out, `rest` the answers not used.
pub record Sent : Type 0 where
  pub ret : Option ℤ
  pub bytes : Bytes
  pub closed : Bool
  pub rest : List WriteResult

-- MAX_COMMAND_BYTES
abbrev pub max_command_bytes : ℕ
max_command_bytes = 8 * 1024

-- The arguments are the answers of `write` and what is left behind `writeOffset`.
unfoldable pub blocking_write : List WriteResult → Bytes → Sent
blocking_write [] [] = record { ret = some (pos 0); bytes = []; closed = false; rest = [] }
blocking_write [] (b ∷ bs) = record { ret = none; bytes = []; closed = false; rest = [] }
blocking_write (w ∷ ws) [] = record {
  ret = some (pos 0);
  bytes = [];
  closed = false;
  rest = w ∷ ws;
}
blocking_write (wrote n ∷ ws) (b ∷ bs) =
    let r = blocking_write ws (drop n (b ∷ bs)) in record r { bytes = take n (b ∷ bs) ++ r.bytes }
blocking_write (interrupted ∷ ws) (b ∷ bs) = blocking_write ws (b ∷ bs)
blocking_write (failed ∷ ws) (b ∷ bs) = record {
  ret = some (negsuc 0);
  bytes = [];
  closed = true;
  rest = ws;
}

-- htonl, as the four bytes in memory
abbrev pub htonl : ℕ → Bytes
htonl n = n / 2 ^ 24 % 256 ∷ n / 2 ^ 16 % 256 ∷ n / 2 ^ 8 % 256 ∷ n % 256 ∷ []

abbrev pub not_sent : List WriteResult → Sent
not_sent ws = record { ret = some (negsuc 0); bytes = []; closed = false; rest = ws }

-- The write of the data, behind that of the header.
abbrev pub send_data : Sent → Bytes → Sent
send_data r bytes = elim r.ret [
  | none ↦ r
  | some e ↦
      if is_neg e
      then r
      else let s = blocking_write r.rest bytes in record s { bytes = r.bytes ++ s.bytes }
]

-- `fd` is s_fdCommand.
unfoldable pub send_response_raw : ℤ → List WriteResult → Bytes → Sent
unfolding blocking_write
send_response_raw fd ws bytes =
    if is_neg fd
    then not_sent ws
    else if ltb max_command_bytes (length bytes)
    then not_sent ws
    else send_data (blocking_write ws (htonl (length bytes))) bytes
