-- ===== src/Response/CdmaRoundTrip.antt =====
-- responseCdmaSms and dispatchCdmaSms of libril/ril.cpp agree on the format of a CDMA message.
use rild_hisi.Common.{
  ℕ, ◌≤◌, min, ◌==◌, ◌≡◌, refl, sym, ap, ◌∙◌, true, List, [], ◌∷◌, Option, none, some, arith,
  length, take, append-nil, ==_iff,
}
use rild_hisi.Common.Int.{ℤ, pos}
use rild_hisi.Telephony.{
  CdmaSmsAddress, CdmaSmsSubaddress, CdmaSmsMessage, address_max, subaddress_max, bearer_data_max,
}
use rild_hisi.Telephony.Data
use rild_hisi.Parcel.{Platform, ParcelLaws, Struct}
use rild_hisi.Dispatch.{RequestInfo, on_request}
use rild_hisi.Dispatch.CdmaSms.{digit_limit, dispatch_cdma_sms}
use rild_hisi.Dispatch.CdmaItems.{
  byte_items, address_items, subaddress_items, message_items, cleared_message,
  dispatch_cdma_sms-items,
}
use rild_hisi.Dispatch.Bounds.{IsSized, digit_limit-le}
use rild_hisi.Response.Cdma.{
  write_byte, write_address, write_subaddress, write_message, response_cdma_sms,
}
use rild_hisi.Response.{write_each}
use rild_hisi.Response.Written.Arrays.{Appends}
use rild_hisi.Response.Written.{Wrote, ◌⨾◌, Wrote-int32, Wrote-raw, write_each-Wrote}

==-refl : (n : ℕ) → (n == n) ≡ true
==-refl n = (==_iff n n).1 refl

reply-injective :
    {P : Type 0} {y z : ℤ} {q w : P} → ◌≡◌ {A = Option (ℤ × P)} (some (y, q)) (some (z, w)) → q ≡ w
reply-injective {q} e = ap (λ o. elim o [ none ↦ q | some t ↦ t.1 ]) e

module _ {api : Platform} (L : ParcelLaws api) where
  open api use {Parcel, size_of}
  open L use {after}

  write_bytes-Wrote :
      (n : ℕ) (xs : List ℕ) (p : Parcel)
      → n ≤ length xs
      → (q : Parcel) × (write_each (write_byte api) n xs p ≡ some q)
        × Wrote L p q (byte_items (take n xs))
  write_bytes-Wrote n xs p h =
      write_each-Wrote L (write_byte api) _ (λ b p. Wrote-raw L (b ∷ [])) n xs p h

  write_address-Wrote :
      (a : CdmaSmsAddress) (p : Parcel)
      → length a.digits ≡ address_max
      → (q : Parcel) × (write_address api a p ≡ some q) × Wrote L p q (address_items a)
  unfolding write_address
  write_address-Wrote a p s =
      let (q, e, w) =
        write_bytes-Wrote (min a.number_of_digits address_max) a.digits _ (omega arith) in
      (
        q,
        e,
        Wrote-int32 L a.digit_mode
            ⨾ Wrote-int32 L a.number_mode
            ⨾ Wrote-int32 L a.number_type
            ⨾ Wrote-int32 L a.number_plan
            ⨾ Wrote-raw L (a.number_of_digits ∷ [])
            ⨾ w,
      )

  write_subaddress-Wrote :
      (a : CdmaSmsSubaddress) (p : Parcel)
      → length a.digits ≡ subaddress_max
      → (q : Parcel) × (write_subaddress api a p ≡ some q) × Wrote L p q (subaddress_items a)
  unfolding write_subaddress
  write_subaddress-Wrote a p s =
      let (q, e, w) =
        write_bytes-Wrote (min a.number_of_digits subaddress_max) a.digits _ (omega arith) in
      (
        q,
        e,
        Wrote-int32 L a.subaddress_type
            ⨾ Wrote-raw L (a.odd ∷ [])
            ⨾ Wrote-raw L (a.number_of_digits ∷ [])
            ⨾ w,
      )

  -- A received message is marshalled as its items.
  pub response_cdma_sms-Appends :
      (p : Parcel) (m : CdmaSmsMessage)
      → IsSized m
      → Appends L p
          (response_cdma_sms api p (Data.cdma_sms_message m) (size_of Struct.cdma_sms_message))
          (message_items m)
  unfolding response_cdma_sms write_message
  response_cdma_sms-Appends p m s =
      let (q4, e4, w4) = write_address-Wrote m.address _ s.address in
      let (q5, e5, w5) = write_subaddress-Wrote m.subaddress q4 s.subaddress in
      let lim = digit_limit m.bearer_data_len bearer_data_max in
      let (q6, e6, w6) =
        write_bytes-Wrote lim m.bearer_data _
          (omega (arith, s.bearer_data, digit_limit-le m.bearer_data_len)) in
      (
        q6,
        rw (==-refl (size_of Struct.cdma_sms_message), e4, e5, e6),
        Wrote-int32 L m.teleservice_id
            ⨾ Wrote-raw L (m.is_service_present ∷ [])
            ⨾ Wrote-int32 L m.servicecategory
            ⨾ w4
            ⨾ w5
            ⨾ Wrote-int32 L m.bearer_data_len
            ⨾ w6,
      )

  -- What responseCdmaSms writes into a new parcel, dispatchCdmaSms reads back from a parcel that
  -- carries it: the message, with zeros behind the elements that its counts announce.
  pub dispatch-response_cdma_sms :
      (m : CdmaSmsMessage) (w p : Parcel) (info : RequestInfo)
      → IsSized m
      → response_cdma_sms api api.empty (Data.cdma_sms_message m) (size_of Struct.cdma_sms_message)
        ≡ some (pos 0, w)
      → after p ≡ L.before w
      → dispatch_cdma_sms api p info
        ≡ on_request info.request_number
            (Data.cdma_sms_message (cleared_message m))
            (size_of Struct.cdma_sms_message)
            info
  dispatch-response_cdma_sms m w p info s e a =
      let (q, e', v) = response_cdma_sms-Appends api.empty m s in
      let h = v.keeps [] (record { written = L.before-empty; at_end = L.after-empty }) in
      let same : q ≡ w = reply-injective (sym e' ∙ e) in
      dispatch_cdma_sms-items L p info m [] s
        (a ∙ ap L.before (sym same) ∙ h.written ∙ sym (append-nil (message_items m)))
