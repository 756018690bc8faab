-- ===== src/ReferenceRil/Payloads.antt =====
-- What the response functions of libril/ril.cpp read of the payloads that
-- reference-ril/reference-ril.c hands to RIL_onRequestComplete.
use rild_hisi.Common.{
  ℕ, zero, suc, ◌*◌, ◌/◌, ◌%◌, ◌≤◌, ◌==◌, false, ◌≡◌, ◌≢◌, List, [], ◌∷◌, Option, none, some, All,
  length, arith, Bool-cases, inl, inr, ◌>>=◌,
}
use rild_hisi.Common.Int.{ℤ, pos}
use rild_hisi.Telephony.{CString, Call, SimIoResponse, SmsResponse, DataCallResponse}
use rild_hisi.Telephony.Data.{Data}
use rild_hisi.Parcel.{Platform, Struct}
use rild_hisi.Response.{done, write_each, write_string_to_parcel}
use rild_hisi.Response.Arrays.{
  write_array, response_ints, response_strings, response_data_call_list, write_data_call,
  write_call, write_calls, write_uus, response_call_list,
}
use rild_hisi.Response.Single.{
  response_sms, response_sim_io, response_ril_signal_strength, old_signal_strength,
  response_sim_status,
}
use rild_hisi.ReferenceRil.Sim.{card_status_of}
use rild_hisi.ReferenceRil.Marshalling.{IsDefined}

-- What is used of the sizes that the compiler fixes: an int is no longer than a pointer, and a
-- RIL_SignalStrength has more than two integers.
pub record HasSizes (api : Platform) : Type 0 where
  pub int : api.size_int ≢ 0
  pub ptr : api.size_ptr ≢ 0
  pub int_ptr : api.size_int ≤ api.size_ptr
  pub signal_strength : 2 * api.size_int ≢ api.size_of Struct.signal_strength
  pub data_call : api.size_of Struct.data_call_response ≢ 0

write_each-IsDefined :
    {A P : Type 0} (f : A → P → P) (n : ℕ) (xs : List A) (p : P)
    → n ≤ length xs
    → IsDefined (write_each f n xs p)
unfolding write_each
write_each-IsDefined f zero xs p h = tt
write_each-IsDefined f (suc n) [] p h = absurd (omega arith)
write_each-IsDefined f (suc n) (x ∷ xs) p h = write_each-IsDefined f n xs (f x p) (omega arith)

div_le : (n k : ℕ) → k ≢ 0 → n * k / k ≤ n
div_le n k h = grind arith

div_small : (a b : ℕ) → b ≢ 0 → a ≤ b → a / b ≤ 1
div_small a b h le = grind arith

module _ (api : Platform) where
  open api use {Parcel, write_int32, size_int, size_ptr, size_of}

  done-IsDefined : (m : Option Parcel) → IsDefined m → IsDefined (done api m)
  done-IsDefined none h = h
  done-IsDefined (some p) h = tt

  write_array-IsDefined :
      {A : Type 0} (f : A → Parcel → Parcel) (n : ℕ) (xs : List A) (p : Parcel)
      → n ≤ length xs
      → IsDefined (write_array api f n xs p)
  write_array-IsDefined f n xs p h =
      done-IsDefined (write_each f n xs (write_int32 (pos n) p))
        (write_each-IsDefined f n xs (write_int32 (pos n) p) h)

  pub strings-IsDefined :
      (p : Parcel) (ss : List CString)
      → size_ptr ≢ 0
      → IsDefined (response_strings api p (Data.strings ss) (length ss * size_ptr))
  unfolding response_strings
  strings-IsDefined p ss h = elim (Bool-cases ((length ss * size_ptr % size_ptr) == 0)) [
    | inl whole ↦
        rw whole (write_array-IsDefined (write_string_to_parcel api) _ ss p (div_le _ _ h))
    | inr cut ↦ rw cut tt
  ]

  pub data_call_list-IsDefined :
      (p : Parcel) (cs : List DataCallResponse)
      → size_of Struct.data_call_response ≢ 0
      → IsDefined (
          response_data_call_list api p
            (Data.data_calls cs)
            (length cs * size_of Struct.data_call_response))
  unfolding response_data_call_list
  data_call_list-IsDefined p cs h =
      let size = size_of Struct.data_call_response in
      elim (Bool-cases ((length cs * size % size) == 0)) [
        | inl whole ↦ rw whole (write_array-IsDefined (write_data_call api) _ cs p (div_le _ _ h))
        | inr cut ↦ rw cut tt
      ]

  pub one_int-IsDefined :
      (p : Parcel) (z : ℤ)
      → HasSizes api
      → IsDefined (response_ints api p (Data.ints (z ∷ [])) size_int)
  unfolding response_ints
  one_int-IsDefined p z h = elim (Bool-cases ((size_int % size_int) == 0)) [
    | inl whole ↦
        rw whole (write_array-IsDefined write_int32 _ (z ∷ []) p (div_small _ _ h.ptr h.int_ptr))
    | inr cut ↦ rw cut tt
  ]

  bind-IsDefined :
      {A B : Type 0} (m : Option A) (f : A → B) → IsDefined m → IsDefined (m >>= λ a. some (f a))
  bind-IsDefined none f h = h
  bind-IsDefined (some a) f h = tt

  differs : (m n : ℕ) → m ≢ n → (m == n) ≡ false
  differs m n h = ground arith

  pub signal_strength-IsDefined :
      (p : Parcel) (a b : ℤ)
      → HasSizes api
      → IsDefined (response_ril_signal_strength api p (Data.ints (a ∷ b ∷ [])) (2 * size_int))
  unfolding response_ril_signal_strength old_signal_strength
  signal_strength-IsDefined p a b h =
      rw (differs _ _ h.signal_strength) (elim (Bool-cases ((2 * size_int % size_int) == 0)) [
        | inl whole ↦ rw whole (
            bind-IsDefined _ _
              (write_each-IsDefined write_int32 _ (a ∷ b ∷ []) p (div_le 2 _ h.int)))
        | inr cut ↦ rw cut tt
      ])

  pub sms-IsDefined :
      (p : Parcel) (r : SmsResponse) (n : ℕ)
      → IsDefined (response_sms api p (Data.sms_response r) n)
  unfolding response_sms
  sms-IsDefined p r n = elim (Bool-cases (n == size_of Struct.sms_response)) [
    | inl same ↦ rw same tt
    | inr other ↦ rw other tt
  ]

  pub sim_io-IsDefined :
      (p : Parcel) (r : SimIoResponse) (n : ℕ)
      → IsDefined (response_sim_io api p (Data.sim_io_response r) n)
  unfolding response_sim_io
  sim_io-IsDefined p r n = elim (Bool-cases (n == size_of Struct.sim_io_response)) [
    | inl same ↦ rw same tt
    | inr other ↦ rw other tt
  ]

  -- The applications are read up to their number.
  pub sim_status-IsDefined :
      (p : Parcel) (s n : ℕ)
      → IsDefined (response_sim_status api p (Data.card_status (card_status_of s)) n)
  unfolding response_sim_status card_status_of write_each
  sim_status-IsDefined p zero n = elim (Bool-cases ((n % size_ptr) == 0)) [
    | inl whole ↦ rw whole tt
    | inr cut ↦ rw cut tt
  ]
  sim_status-IsDefined p (suc s) n = elim (Bool-cases ((n % size_ptr) == 0)) [
    | inl whole ↦ rw whole tt
    | inr cut ↦ rw cut tt
  ]

  write_calls-IsDefined :
      (version n : ℕ) (cs : List Call) (p : Parcel)
      → n ≤ length cs
      → All (λ c. c.uus_info ≡ none) cs
      → IsDefined (write_calls api version n cs p)
  unfolding write_calls write_call write_uus
  write_calls-IsDefined version zero cs p h plain = tt
  write_calls-IsDefined version (suc n) [] p h plain = absurd (omega arith)
  write_calls-IsDefined version (suc n) (c ∷ cs) p h plain =
      rw (plain.0) (write_calls-IsDefined version n cs _ (omega arith) plain.1)

  -- Calls without UUS information, of which nothing is read
  pub call_list-IsDefined :
      (version : ℕ) (p : Parcel) (cs : List Call)
      → size_ptr ≢ 0
      → All (λ c. c.uus_info ≡ none) cs
      → IsDefined (response_call_list api version p (Data.calls cs) (length cs * size_ptr))
  unfolding response_call_list
  call_list-IsDefined version p cs h plain =
      elim (Bool-cases ((length cs * size_ptr % size_ptr) == 0)) [
        | inl whole ↦
            rw whole (done-IsDefined _ (write_calls-IsDefined version _ cs _ (div_le _ _ h) plain))
        | inr cut ↦ rw cut tt
      ]
