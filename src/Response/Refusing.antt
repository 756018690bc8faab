-- ===== src/Response/Refusing.antt =====
-- What the response functions of libril/ril.cpp have marshalled when they refuse a payload.
use rild_hisi.Common.{
  ℕ, zero, suc, ◌≡◌, refl, Bool, true, false, not, ◌&&◌, ◌==◌, ◌%◌, ◌/◌, ◌-◌, List, [], ◌∷◌, Option,
  none, some, arith, get_elem?, ◌>>=◌, if◌then◌else◌,
}
use rild_hisi.Common.Int.{pos, negsuc}
use rild_hisi.Telephony.Data.{Data}
use rild_hisi.Parcel.{Platform, Struct}
use rild_hisi.Response.{
  Reply, refuse, done, bytes_at, write_each, null_with_length, response_string, response_void,
}
use rild_hisi.Response.Arrays.{
  ints_at, calls_at, data_calls_at, call_forwards_at, cells_at, gsm_configs_at, cdma_configs_at,
  response_ints, response_strings, response_call_list, response_data_call_list, response_raw,
  response_call_forwards, response_cell_list, response_gsm_br_sms_cnf, response_cdma_br_sms_cnf,
}
use rild_hisi.Response.Single.{
  response_sms, response_sim_io, response_ril_signal_strength, old_signal_strength, write_zeros,
  total_integers, response_sim_status,
}
use rild_hisi.Response.Cdma.{response_cdma_sms}
use rild_hisi.Commands.{ResponseFunction, CommandInfo, call_response}
use rild_hisi.Commands.Tables.{commands}

module _ (api : Platform) (p : api.Parcel) where
  -- A refusal leaves the parcel as it was.
  abbrev pub IsClean : Reply api → Type 0
  IsClean none = Unit
  IsClean (some (pos n, q)) = Unit
  IsClean (some (negsuc n, q)) = q ≡ p

  done-IsClean : (m : Option api.Parcel) → IsClean (done api m)
  done-IsClean none = tt
  done-IsClean (some q) = tt

  guard-IsClean : (b : Bool) (r : Reply api) → IsClean r → IsClean (if b then refuse api p else r)
  guard-IsClean true r h = refl
  guard-IsClean false r h = h

  bind-IsClean :
      {A : Type 0} (m : Option A) (f : A → Reply api)
      → ((a : A) → IsClean (f a))
      → IsClean (m >>= f)
  bind-IsClean none f h = tt
  bind-IsClean (some a) f h = h a

  ints-IsClean : (d : Data) (len : ℕ) → IsClean (response_ints api p d len)
  unfolding response_ints
  ints-IsClean d len = guard-IsClean (null_with_length d len) _ (
      guard-IsClean (not (len % api.size_int == 0)) _
        (bind-IsClean (ints_at d) _ λ vs. done-IsClean _))

  strings-IsClean : (d : Data) (len : ℕ) → IsClean (response_strings api p d len)
  unfolding response_strings
  strings-IsClean Data.null len =
      guard-IsClean (not (len == 0)) _ (guard-IsClean (not (len % api.size_ptr == 0)) _ tt)
  strings-IsClean (Data.strings ss) len =
      guard-IsClean (not (len % api.size_ptr == 0)) _ (done-IsClean _)
  strings-IsClean _ len = guard-IsClean (not (len % api.size_ptr == 0)) _ tt

  sms-IsClean : (d : Data) (len : ℕ) → IsClean (response_sms api p d len)
  unfolding response_sms
  sms-IsClean Data.null len = refl
  sms-IsClean (Data.sms_response r) len =
      guard-IsClean (not (len == api.size_of Struct.sms_response)) _ tt
  sms-IsClean _ len = guard-IsClean (not (len == api.size_of Struct.sms_response)) _ tt

  sim_io-IsClean : (d : Data) (len : ℕ) → IsClean (response_sim_io api p d len)
  unfolding response_sim_io
  sim_io-IsClean Data.null len = refl
  sim_io-IsClean (Data.sim_io_response r) len =
      guard-IsClean (not (len == api.size_of Struct.sim_io_response)) _ tt
  sim_io-IsClean _ len = guard-IsClean (not (len == api.size_of Struct.sim_io_response)) _ tt

  call_list-IsClean :
      (version : ℕ) (d : Data) (len : ℕ) → IsClean (response_call_list api version p d len)
  unfolding response_call_list
  call_list-IsClean version d len = guard-IsClean (null_with_length d len) _ (
      guard-IsClean (not (len % api.size_ptr == 0)) _
        (bind-IsClean (calls_at d) _ λ cs. done-IsClean _))

  data_call_list-IsClean : (d : Data) (len : ℕ) → IsClean (response_data_call_list api p d len)
  unfolding response_data_call_list
  data_call_list-IsClean d len = guard-IsClean (null_with_length d len) _ (
      guard-IsClean (not (len % api.size_of Struct.data_call_response == 0)) _
        (bind-IsClean (data_calls_at d) _ λ cs. done-IsClean _))

  call_forwards-IsClean : (d : Data) (len : ℕ) → IsClean (response_call_forwards api p d len)
  unfolding response_call_forwards
  call_forwards-IsClean d len = guard-IsClean (null_with_length d len) _ (
      guard-IsClean (not (len % api.size_ptr == 0)) _
        (bind-IsClean (call_forwards_at d) _ λ fs. done-IsClean _))

  cell_list-IsClean : (d : Data) (len : ℕ) → IsClean (response_cell_list api p d len)
  unfolding response_cell_list
  cell_list-IsClean d len = guard-IsClean (null_with_length d len) _ (
      guard-IsClean (not (len % api.size_ptr == 0)) _
        (bind-IsClean (cells_at d) _ λ cs. done-IsClean _))

  gsm_br_sms_cnf-IsClean : (d : Data) (len : ℕ) → IsClean (response_gsm_br_sms_cnf api p d len)
  unfolding response_gsm_br_sms_cnf
  gsm_br_sms_cnf-IsClean d len = bind-IsClean (gsm_configs_at d) _ λ cs. done-IsClean _

  cdma_br_sms_cnf-IsClean : (d : Data) (len : ℕ) → IsClean (response_cdma_br_sms_cnf api p d len)
  unfolding response_cdma_br_sms_cnf
  cdma_br_sms_cnf-IsClean d len = bind-IsClean (cdma_configs_at d) _ λ cs. done-IsClean _

  raw-IsClean : (d : Data) (len : ℕ) → IsClean (response_raw api p d len)
  unfolding response_raw
  raw-IsClean Data.null len = guard-IsClean (not (len == 0)) _ tt
  raw-IsClean (Data.raw bs) len = bind-IsClean (bytes_at len bs) _ λ cs. tt
  raw-IsClean _ len = tt

  string-IsClean : (d : Data) (len : ℕ) → IsClean (response_string api p d len)
  unfolding response_string
  string-IsClean Data.null len = tt
  string-IsClean (Data.text s) len = tt
  string-IsClean _ len = tt

  old-IsClean : (d : Data) (len : ℕ) → IsClean (old_signal_strength api p d len)
  unfolding old_signal_strength
  old-IsClean d len = guard-IsClean (not (len % api.size_int == 0)) _ (
      bind-IsClean (ints_at d) _ λ vs.
        bind-IsClean (write_each api.write_int32 (len / api.size_int) vs p)
          (λ q. some (pos 0, write_zeros api (total_integers - len / api.size_int) q)) λ q. tt)

  either-IsClean :
      (b : Bool) (r r' : Reply api) → IsClean r → IsClean r' → IsClean (if b then r else r')
  either-IsClean true r r' h h' = h
  either-IsClean false r r' h h' = h'

  signal_strength-IsClean :
      (d : Data) (len : ℕ) → IsClean (response_ril_signal_strength api p d len)
  unfolding response_ril_signal_strength
  signal_strength-IsClean Data.null len = guard-IsClean (not (len == 0)) _ (
      either-IsClean (not (len == api.size_of Struct.signal_strength)) _ _
        (old-IsClean Data.null len) tt)
  signal_strength-IsClean (Data.signal_strength s) len =
      either-IsClean (not (len == api.size_of Struct.signal_strength)) _ _
        (old-IsClean (Data.signal_strength s) len) tt
  signal_strength-IsClean d len =
      either-IsClean (not (len == api.size_of Struct.signal_strength)) _ _ (old-IsClean d len) tt

  sim_status-IsClean : (d : Data) (len : ℕ) → IsClean (response_sim_status api p d len)
  unfolding response_sim_status
  sim_status-IsClean Data.null len =
      guard-IsClean (not (len == 0)) _ (guard-IsClean (not (len % api.size_ptr == 0)) _ tt)
  sim_status-IsClean (Data.card_status s) len =
      guard-IsClean (not (len % api.size_ptr == 0)) _ (done-IsClean _)
  sim_status-IsClean _ len = guard-IsClean (not (len % api.size_ptr == 0)) _ tt

  cdma_sms-IsClean : (d : Data) (len : ℕ) → IsClean (response_cdma_sms api p d len)
  unfolding response_cdma_sms
  cdma_sms-IsClean Data.null len =
      guard-IsClean (not (len == 0)) _
        (guard-IsClean (not (len == api.size_of Struct.cdma_sms_message)) _ tt)
  cdma_sms-IsClean (Data.cdma_sms_message m) len =
      guard-IsClean (not (len == api.size_of Struct.cdma_sms_message)) _ (done-IsClean _)
  cdma_sms-IsClean _ len = guard-IsClean (not (len == api.size_of Struct.cdma_sms_message)) _ tt

-- The response functions that unsolicited responses have only.
abbrev pub is_solicited : ResponseFunction → Bool
is_solicited ResponseFunction.ssn = false
is_solicited ResponseFunction.call_ring = false
is_solicited ResponseFunction.cdma_call_waiting = false
is_solicited ResponseFunction.cdma_information_records = false
is_solicited _ = true

pub call_response-IsClean :
    (api : Platform) (f : ResponseFunction) (version : ℕ) (p : api.Parcel) (d : Data) (len : ℕ)
    → is_solicited f ≡ true
    → IsClean api p (call_response api f version p d len)
unfolding call_response response_void
call_response-IsClean api ResponseFunction.null version p d len h = tt
call_response-IsClean api ResponseFunction.sim_status version p d len h =
    sim_status-IsClean api p d len
call_response-IsClean api ResponseFunction.ints version p d len h = ints-IsClean api p d len
call_response-IsClean api ResponseFunction.call_list version p d len h =
    call_list-IsClean api p version d len
call_response-IsClean api ResponseFunction.void version p d len h = tt
call_response-IsClean api ResponseFunction.string version p d len h = string-IsClean api p d len
call_response-IsClean api ResponseFunction.ril_signal_strength version p d len h =
    signal_strength-IsClean api p d len
call_response-IsClean api ResponseFunction.strings version p d len h = strings-IsClean api p d len
call_response-IsClean api ResponseFunction.sms version p d len h = sms-IsClean api p d len
call_response-IsClean api ResponseFunction.sim_io version p d len h = sim_io-IsClean api p d len
call_response-IsClean api ResponseFunction.call_forwards version p d len h =
    call_forwards-IsClean api p d len
call_response-IsClean api ResponseFunction.data_call_list version p d len h =
    data_call_list-IsClean api p d len
call_response-IsClean api ResponseFunction.raw version p d len h = raw-IsClean api p d len
call_response-IsClean api ResponseFunction.cell_list version p d len h =
    cell_list-IsClean api p d len
call_response-IsClean api ResponseFunction.gsm_br_sms_cnf version p d len h =
    gsm_br_sms_cnf-IsClean api p d len
call_response-IsClean api ResponseFunction.cdma_br_sms_cnf version p d len h =
    cdma_br_sms_cnf-IsClean api p d len
call_response-IsClean api ResponseFunction.ssn version p d len h = absurd (cc)
call_response-IsClean api ResponseFunction.call_ring version p d len h = absurd (cc)
call_response-IsClean api ResponseFunction.cdma_sms version p d len h = cdma_sms-IsClean api p d len
call_response-IsClean api ResponseFunction.cdma_call_waiting version p d len h = absurd (cc)
call_response-IsClean api ResponseFunction.cdma_information_records version p d len h = absurd (cc)

all_solicited : List CommandInfo → Bool
all_solicited [] = true
all_solicited (ci ∷ rows) = is_solicited ci.response_function && all_solicited rows

all_solicited-get_elem? :
    (rows : List CommandInfo) (n : ℕ) (ci : CommandInfo)
    → all_solicited rows ≡ true
    → get_elem? rows n ≡ some ci
    → is_solicited ci.response_function ≡ true
unfolding all_solicited
all_solicited-get_elem? [] n ci h e = absurd (cc)
all_solicited-get_elem? (x ∷ rows) zero ci h e = ground arith
all_solicited-get_elem? (x ∷ rows) (suc n) ci h e =
    ground (arith, all_solicited-get_elem? rows n ci)

commands-all_solicited : all_solicited commands ≡ true
unfolding all_solicited commands
commands-all_solicited = refl

pub commands-is_solicited :
    (n : ℕ) (ci : CommandInfo)
    → get_elem? commands n ≡ some ci
    → is_solicited ci.response_function ≡ true
commands-is_solicited n ci e = all_solicited-get_elem? commands n ci commands-all_solicited e
