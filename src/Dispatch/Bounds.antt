-- ===== src/Dispatch/Bounds.antt =====
-- The CDMA message handlers stay inside the arrays of RIL_CDMA_SMS_Message on every command block.
use rild_hisi.Common.{
  ℕ, zero, suc, ◌+◌, ◌≤◌, ◌<◌, min, ◌≡◌, refl, ap, ◌∙◌, ◌⊎◌, inl, inr, List, [], ◌∷◌, some, arith,
  length, replicate, Bool-cases,
}
use rild_hisi.Common.Int.{ℤ, pos, negsuc}
use rild_hisi.Telephony.{
  CdmaSmsAddress, CdmaSmsSubaddress, CdmaSmsMessage, address_max, subaddress_max, bearer_data_max,
}
use rild_hisi.Telephony.Data
use rild_hisi.Parcel.{Platform, Struct}
use rild_hisi.Dispatch.{RequestInfo, on_request, invalid, Cursor, start, next_int32, next_byte}
use rild_hisi.Dispatch.CdmaSms.{
  store, fill, digit_limit, read_address, read_subaddress, read_message, dispatch_cdma_sms,
  dispatch_ril_cdma_sms_write_args,
}

-- The arrays have their declared sizes.
pub record IsSized (m : CdmaSmsMessage) : Type 0 where
  pub address : length m.address.digits ≡ address_max
  pub subaddress : length m.subaddress.digits ≡ subaddress_max
  pub bearer_data : length m.bearer_data ≡ bearer_data_max

pub length-replicate : (n : ℕ) → length {A = ℕ} (replicate n 0) ≡ n
length-replicate zero = refl
length-replicate (suc n) = ap suc (length-replicate n)

store_total :
    (xs : List ℕ) (i v : ℕ)
    → i < length xs
    → (ys : List ℕ) × (store xs i v ≡ some ys) × (length ys ≡ length xs)
unfolding store
store_total [] i v h = elim h [ ]
store_total (x ∷ xs) zero v h = (v ∷ xs, refl, refl)
store_total (x ∷ xs) (suc i) v h =
    let (ys, e, l) = store_total xs i v (omega arith) in (x ∷ ys, rw e, ap suc l)

pub digit_limit-le : (n : ℤ) → digit_limit n bearer_data_max ≤ bearer_data_max
digit_limit-le (pos n) = omega arith
digit_limit-le (negsuc n) = omega arith

module _ (api : Platform) where
  -- A loop that fits its array never writes outside.
  fill_total :
      (n i : ℕ) (xs : List ℕ) (c : Cursor api)
      → i + n ≤ length xs
      → (ys : List ℕ) × (c' : Cursor api) × (fill api n i xs c ≡ some (ys, c'))
        × (length ys ≡ length xs)
  unfolding fill
  fill_total zero i xs c h = (xs, c, refl, refl)
  fill_total (suc n) i xs c h =
      let (ys, e, l) = store_total xs i (next_byte api c).ut (omega arith) in
      let (zs, c', e', l') = fill_total n (i + 1) ys (next_byte api c) (omega arith) in
      (zs, c', rw e e', l' ∙ l)

  read_address_total :
      (limit : ℕ → ℕ) (c : Cursor api)
      → ((n : ℕ) → limit n ≤ address_max)
      → (a : CdmaSmsAddress) × (c' : Cursor api) × (read_address api limit c ≡ some (a, c'))
        × (length a.digits ≡ address_max)
  unfolding read_address
  read_address_total limit c h =
      let c1 = next_int32 api c in
      let c2 = next_int32 api c1 in
      let c3 = next_int32 api c2 in
      let c4 = next_int32 api c3 in
      let c5 = next_byte api c4 in
      let (ys, c', e, l) =
        fill_total (limit c5.ut) 0 (replicate address_max 0) c5 (omega (arith, h c5.ut)) in
      (
        record {
          digit_mode = c1.t;
          number_mode = c2.t;
          number_type = c3.t;
          number_plan = c4.t;
          number_of_digits = c5.ut;
          digits = ys;
        },
        c',
        rw e,
        l,
      )

  read_subaddress_total :
      (limit : ℕ → ℕ) (c : Cursor api)
      → ((n : ℕ) → limit n ≤ subaddress_max)
      → (a : CdmaSmsSubaddress) × (c' : Cursor api) × (read_subaddress api limit c ≡ some (a, c'))
        × (length a.digits ≡ subaddress_max)
  unfolding read_subaddress
  read_subaddress_total limit c h =
      let c1 = next_int32 api c in
      let c2 = next_byte api c1 in
      let c3 = next_byte api c2 in
      let (ys, c', e, l) =
        fill_total (limit c3.ut) 0 (replicate subaddress_max 0) c3 (omega (arith, h c3.ut)) in
      (
        record { subaddress_type = c1.t; odd = c2.ut; number_of_digits = c3.ut; digits = ys },
        c',
        rw e,
        l,
      )

  read_message_total :
      (limit sub_limit : ℕ → ℕ) (bearer_limit : ℤ → ℕ) (c : Cursor api)
      → ((n : ℕ) → limit n ≤ address_max)
      → ((n : ℕ) → sub_limit n ≤ subaddress_max)
      → ((n : ℤ) → bearer_limit n ≤ bearer_data_max)
      → (m : CdmaSmsMessage) × (c' : Cursor api) × (read_message api limit sub_limit bearer_limit c
          ≡ some (m, c'))
        × IsSized m
  unfolding read_message
  read_message_total limit sub_limit bearer_limit c h k g =
      let c1 = next_int32 api c in
      let c2 = next_byte api c1 in
      let c3 = next_int32 api c2 in
      let (a, c4, e4, l4) = read_address_total limit c3 h in
      let (b, c5, e5, l5) = read_subaddress_total sub_limit c4 k in
      let c6 = next_int32 api c5 in
      let (ys, c7, e7, l7) =
        fill_total (bearer_limit c6.t) 0 (replicate bearer_data_max 0) c6 (omega (arith, g c6.t)) in
      (
        record {
          teleservice_id = c1.t;
          is_service_present = c2.ut;
          servicecategory = c3.t;
          address = a;
          subaddress = b;
          bearer_data_len = c6.t;
          bearer_data = ys;
        },
        c7,
        rw (e4, e5, e7),
        record { address = l4; subaddress = l5; bearer_data = l7 },
      )

  -- On every command block dispatchCdmaSms either refuses it or calls the vendor library with a
  -- message whose arrays have their declared sizes: no write goes past an array.
  pub dispatch_cdma_sms_safe :
      (p : api.Parcel) (info : RequestInfo)
      → (dispatch_cdma_sms api p info ≡ invalid)
        ⊎ ((m : CdmaSmsMessage) × (dispatch_cdma_sms api p info
              ≡ on_request info.request_number
                  (Data.cdma_sms_message m)
                  (api.size_of Struct.cdma_sms_message)
                  info)
            × IsSized m)
  unfolding dispatch_cdma_sms
  dispatch_cdma_sms_safe p info =
      let (m, c, e, s) =
        read_message_total (λ n. min n address_max) (λ n. min n subaddress_max)
          (λ n. digit_limit n bearer_data_max) (start api p) (λ n. omega arith) (λ n. omega arith)
          digit_limit-le in
      rw e
        (elim (Bool-cases c.no_error) [ inl good ↦ inr (m, rw good, s) | inr bad ↦ inl (rw bad) ])

  -- The same of dispatchRilCdmaSmsWriteArgs, which reads each array whole.
  pub dispatch_ril_cdma_sms_write_args_safe :
      (p : api.Parcel) (info : RequestInfo)
      → (dispatch_ril_cdma_sms_write_args api p info ≡ invalid)
        ⊎ ((status : ℤ) × (m : CdmaSmsMessage) × (dispatch_ril_cdma_sms_write_args api p info
              ≡ on_request info.request_number
                  (Data.cdma_sms_write_args (record { status = status; message = m }))
                  (api.size_of Struct.cdma_sms_write_args)
                  info)
            × IsSized m)
  unfolding dispatch_ril_cdma_sms_write_args
  dispatch_ril_cdma_sms_write_args_safe p info =
      let c1 = next_int32 api (start api p) in
      let (m, c, e, s) =
        read_message_total (λ n. address_max) (λ n. subaddress_max) (λ n. bearer_data_max) c1
          (λ n. omega arith) (λ n. omega arith) (λ n. omega arith) in
      rw e (elim (Bool-cases c.no_error) [
        | inl good ↦ inr (c1.t, m, rw good, s)
        | inr bad ↦ inl (rw bad)
      ])
