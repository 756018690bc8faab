-- ===== src/ReferenceRil/SetupDataCall.antt =====
-- requestSetupDataCall of reference-ril/reference-ril.c. What `/dev/qmi` and `netcfg` answer is an
-- argument.
use rild_hisi.Common.{
  ℕ, zero, suc, ◌*◌, ◌||◌, List, [], ◌∷◌, ◌++◌, Option, none, some, drop, Bool, codes,
  if◌then◌else◌,
}
use rild_hisi.Common.Int.{ℤ, is_neg}
use rild_hisi.Telephony.{Bytes}
use rild_hisi.Telephony.Data.{Data}
use rild_hisi.Socket.{WriteResult, wrote, interrupted, failed}
use rild_hisi.AtChannel.Commands.{str_starts_with}
use rild_hisi.ReferenceRil.Printing.{not_null}
use rild_hisi.ReferenceRil.Query.{
  Host, Query, ◌>>=◌, ◌>>◌, pure, go_error, undefined, error_if, send_command, send_only, succeeded,
}
use rild_hisi.ReferenceRil.Sim.{same_text}
use rild_hisi.ReferenceRil.State.{Action, reply}

-- What `read` answers: a text of at most 31 bytes, EINTR, or another error.
pub data QmiRead : Type 0 where
  status : Bytes → QmiRead
  read_interrupted read_failed : QmiRead

-- The answers of `write` and `read`, and the status of "netcfg rmnet0 dhcp".
pub record Qmi : Type 0 where
  pub writes : List WriteResult
  pub reads : List QmiRead
  pub netcfg : ℤ

-- The loop while (cur < len), on what is left to write.
unfoldable pub write_qmi : List WriteResult → Bytes → Query (Unit {0})
write_qmi ws [] = pure tt
write_qmi [] (b ∷ bs) = undefined
write_qmi (wrote n ∷ ws) (b ∷ bs) = write_qmi ws (drop n (b ∷ bs))
write_qmi (interrupted ∷ ws) (b ∷ bs) = write_qmi ws (b ∷ bs)
write_qmi (failed ∷ ws) (b ∷ bs) = go_error

abbrev pub is_online : Bytes → Bool
is_online s = str_starts_with s (codes "STATE=up") || same_text s (codes "online")

-- The loop that waits for the interface; the first argument is `retry`.
unfoldable pub wait_online : ℕ → List QmiRead → Query (Unit {0})
unfolding str_starts_with same_text
wait_online zero rs = go_error
wait_online (suc n) [] = undefined
wait_online (suc n) (status s ∷ rs) =
    let again = wait_online n rs in if is_online s then pure tt else again
wait_online (suc n) (read_interrupted ∷ rs) = wait_online (suc n) rs
wait_online (suc n) (read_failed ∷ rs) = go_error

-- data[2]
abbrev pub apn_of : Data → Query Bytes
apn_of (Data.strings (a ∷ b ∷ apn ∷ more)) = not_null apn
apn_of _ = undefined

module _ (host : Host) where
  open host.platform use {size_ptr}

  abbrev pub qmi_query : Bytes → Qmi → Query (Unit {0})
  qmi_query apn qmi = do
    write_qmi qmi.writes (codes "up:" ++ apn)
    wait_online 10 qmi.reads
    error_if (is_neg qmi.netcfg)

  abbrev pub dial_query : Bytes → Query (Unit {0})
  dial_query apn = do
    send_only host (codes "AT+CGDCONT=1,\"IP\",\"" ++ apn ++ codes "\",,0,0")
    send_only host (codes "AT+CGQREQ=1")
    send_only host (codes "AT+CGQMIN=1")
    send_only host (codes "AT+CGEREP=1,0")
    send_only host (codes "AT+CGACT=1,0")
    answer ← send_command host (codes "ATD*99***1#")
    _ ← succeeded answer
    pure tt

  -- `none`: /dev/qmi cannot be opened.
  abbrev pub setup_data_call_query : Data → Option Qmi → Query (Data × ℕ)
  setup_data_call_query request device = do
    apn ← apn_of request
    send_only host (codes "AT%CPRIM=\"GMM\",\"CONFIG MULTISLOT_CLASS=<10>\"")
    send_only host (codes "AT%DATA=2,\"UART\",1,,\"SER\",\"UART\",0")
    elim device [ none ↦ dial_query apn | some qmi ↦ qmi_query apn qmi ]
    pure (Data.strings (some (codes "1") ∷ some (codes "/dev/appvcom") ∷ []), 2 * size_ptr)

  unfoldable pub request_setup_data_call : Data → Option Qmi → ℕ → Action
  unfolding write_qmi wait_online
  request_setup_data_call request device t = reply t (setup_data_call_query request device)
