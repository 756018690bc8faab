-- ===== src/Dispatch/CdmaSms.antt =====
-- dispatchCdmaSms, dispatchCdmaSmsAck and dispatchRilCdmaSmsWriteArgs of libril/ril.cpp.
use rild_hisi.Common.{
  ℕ, zero, suc, ◌+◌, min, List, [], ◌∷◌, Option, none, some, if◌then◌else◌, not, ◌>>=◌, replicate,
}
use rild_hisi.Common.Int.{ℤ, pos, negsuc}
use rild_hisi.Telephony.{
  CdmaSmsAddress, CdmaSmsSubaddress, CdmaSmsMessage, address_max, subaddress_max, bearer_data_max,
}
use rild_hisi.Telephony.Data
use rild_hisi.Parcel.{Platform, Struct}
use rild_hisi.Dispatch.{
  RequestInfo, Outcome, on_request, invalid, or_fault, Cursor, start, next_int32, next_byte,
}

-- `digits[i] = v`: a write outside the array is undefined.
unfoldable pub store : List ℕ → ℕ → ℕ → Option (List ℕ)
store [] i v = none
store (x ∷ xs) zero v = some (v ∷ xs)
store (x ∷ xs) (suc i) v = store xs i v >>= λ ys. some (x ∷ ys)

-- MIN(n, m) for an `int`, as the bound of a loop from 0
abbrev pub digit_limit : ℤ → ℕ → ℕ
digit_limit (pos n) m = min n m
digit_limit (negsuc n) m = 0

module _ (api : Platform) where
  open api use {Parcel, size_of}

  -- for (; digitCount < digitLimit; digitCount++) { status = p.read(&ut, 1); digits[digitCount] = ut; }
  -- with the number of rounds left first.
  unfoldable pub fill : ℕ → ℕ → List ℕ → Cursor api → Option (List ℕ × Cursor api)
  unfolding store
  fill zero i digits c = some (digits, c)
  fill (suc n) i digits c =
      let c' = next_byte api c in store digits i c'.ut >>= λ ds. fill n (i + 1) ds c'

  -- The parts of RIL_CDMA_SMS_Message. `limit` is the bound of the loop, from the count just read:
  -- the arrays were cleared by memset.
  unfoldable pub read_address : (ℕ → ℕ) → Cursor api → Option (CdmaSmsAddress × Cursor api)
  unfolding fill
  read_address limit c =
      let c1 = next_int32 api c in
      let c2 = next_int32 api c1 in
      let c3 = next_int32 api c2 in
      let c4 = next_int32 api c3 in
      let c5 = next_byte api c4 in
      fill (limit c5.ut) 0 (replicate address_max 0) c5 >>= λ (digits, c6). some (
        record {
          digit_mode = c1.t;
          number_mode = c2.t;
          number_type = c3.t;
          number_plan = c4.t;
          number_of_digits = c5.ut;
          digits = digits;
        },
        c6,
      )

  unfoldable pub read_subaddress : (ℕ → ℕ) → Cursor api → Option (CdmaSmsSubaddress × Cursor api)
  unfolding fill
  read_subaddress limit c =
      let c1 = next_int32 api c in
      let c2 = next_byte api c1 in
      let c3 = next_byte api c2 in
      fill (limit c3.ut) 0 (replicate subaddress_max 0) c3 >>= λ (digits, c4). some (
        record { subaddress_type = c1.t; odd = c2.ut; number_of_digits = c3.ut; digits = digits },
        c4,
      )

  -- The message of both handlers, which differ in the bounds of their loops.
  unfoldable pub read_message :
      (ℕ → ℕ) → (ℕ → ℕ) → (ℤ → ℕ) → Cursor api → Option (CdmaSmsMessage × Cursor api)
  unfolding read_address read_subaddress
  read_message limit sub_limit bearer_limit c =
      let c1 = next_int32 api c in
      let c2 = next_byte api c1 in
      let c3 = next_int32 api c2 in
      read_address limit c3 >>= λ (address, c4).
      read_subaddress sub_limit c4 >>= λ (subaddress, c5).
      let c6 = next_int32 api c5 in
      fill (bearer_limit c6.t) 0 (replicate bearer_data_max 0) c6 >>= λ (bearer_data, c7). some (
        record {
          teleservice_id = c1.t;
          is_service_present = c2.ut;
          servicecategory = c3.t;
          address = address;
          subaddress = subaddress;
          bearer_data_len = c6.t;
          bearer_data = bearer_data;
        },
        c7,
      )

  unfoldable pub dispatch_cdma_sms : Parcel → RequestInfo → Outcome
  dispatch_cdma_sms p info = or_fault (
      read_message (λ n. min n address_max) (λ n. min n subaddress_max)
        (λ n. digit_limit n bearer_data_max) (start api p)
      >>= λ (message, c). some (
          if not c.no_error
          then invalid
          else on_request info.request_number (Data.cdma_sms_message message)
              (size_of Struct.cdma_sms_message) info))

  unfoldable pub dispatch_cdma_sms_ack : Parcel → RequestInfo → Outcome
  dispatch_cdma_sms_ack p info =
      let c1 = next_int32 api (start api p) in
      let c2 = next_int32 api c1 in
      if not c2.no_error
      then invalid
      else on_request info.request_number
          (Data.cdma_sms_ack (record { error_class = c1.t; sms_cause_code = c2.t }))
          (size_of Struct.cdma_sms_ack) info

  -- Here the arrays are read whole, whatever the counts say.
  unfoldable pub dispatch_ril_cdma_sms_write_args : Parcel → RequestInfo → Outcome
  dispatch_ril_cdma_sms_write_args p info =
      let c1 = next_int32 api (start api p) in
      or_fault (
        read_message (λ n. address_max) (λ n. subaddress_max) (λ n. bearer_data_max) c1
        >>= λ (message, c). some (
            if not c.no_error
            then invalid
            else on_request info.request_number
                (Data.cdma_sms_write_args (record { status = c1.t; message = message }))
                (size_of Struct.cdma_sms_write_args) info))
