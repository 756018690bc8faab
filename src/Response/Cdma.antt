-- ===== src/Response/Cdma.antt =====
-- responseCdmaSms, responseCallRing, responseCdmaSignalInfoRecord, responseCdmaCallWaiting.
use rild_hisi.Common.{ℕ, min, not, ◌||◌, ◌==◌, [], ◌∷◌, Option, none, some, if◌then◌else◌, ◌>>=◌}
use rild_hisi.Common.Int.{pos}
use rild_hisi.Telephony.{
  CdmaSignalInfoRecord, CdmaSmsMessage, CdmaSmsAddress, CdmaSmsSubaddress, address_max,
  subaddress_max, bearer_data_max,
}
use rild_hisi.Telephony.Data.{Data}
use rild_hisi.Parcel.{Platform, Struct}
use rild_hisi.Dispatch.CdmaSms.{digit_limit}
use rild_hisi.Response.{
  Reply, refuse, done, null_with_length, is_null, write_each, write_string_to_parcel, response_void,
}

module _ (api : Platform) where
  open api use {Parcel, write_int32, write, size_of}

  abbrev pub marshall_signal_info_record : CdmaSignalInfoRecord → Parcel → Parcel
  marshall_signal_info_record s p =
      let p1 = write_int32 s.is_present p in
      let p2 = write_int32 s.signal_type p1 in
      let p3 = write_int32 s.alert_pitch p2 in write_int32 s.signal p3

  unfoldable pub response_cdma_signal_info_record : Parcel → Data → ℕ → Reply api
  response_cdma_signal_info_record p response len =
      if is_null response || len == 0
      then refuse api p
      else if not (len == size_of Struct.cdma_signal_info_record)
      then refuse api p
      else elim response [
        | Data.cdma_signal_info_record s ↦ some (pos 0, marshall_signal_info_record s p)
        | _ ↦ none
      ]

  unfoldable pub response_call_ring : Parcel → Data → ℕ → Reply api
  unfolding response_void response_cdma_signal_info_record
  response_call_ring p response len =
      if is_null response || len == 0
      then response_void api p response len
      else response_cdma_signal_info_record p response len

  unfoldable pub response_cdma_call_waiting : Parcel → Data → ℕ → Reply api
  response_cdma_call_waiting p response len =
      if null_with_length response len
      then refuse api p
      else if not (len == size_of Struct.cdma_call_waiting)
      then refuse api p
      else elim response [
        | Data.cdma_call_waiting w ↦
            let p1 = write_string_to_parcel api w.number p in
            let p2 = write_int32 w.number_presentation p1 in
            let p3 = write_string_to_parcel api w.name p2 in
            some (pos 0, marshall_signal_info_record w.signal_info_record p3)
        | _ ↦ none
      ]

  -- p.write(&x, sizeof(uct))
  abbrev pub write_byte : ℕ → Parcel → Parcel
  write_byte b p = write (b ∷ []) p

  unfoldable pub write_address : CdmaSmsAddress → Parcel → Option Parcel
  unfolding write_each
  write_address a p =
      let p1 = write_int32 a.digit_mode p in
      let p2 = write_int32 a.number_mode p1 in
      let p3 = write_int32 a.number_type p2 in
      let p4 = write_int32 a.number_plan p3 in
      let p5 = write_byte a.number_of_digits p4 in
      write_each write_byte (min a.number_of_digits address_max) a.digits p5

  unfoldable pub write_subaddress : CdmaSmsSubaddress → Parcel → Option Parcel
  unfolding write_each
  write_subaddress a p =
      let p1 = write_int32 a.subaddress_type p in
      let p2 = write_byte a.odd p1 in
      let p3 = write_byte a.number_of_digits p2 in
      write_each write_byte (min a.number_of_digits subaddress_max) a.digits p3

  unfoldable pub write_message : CdmaSmsMessage → Parcel → Option Parcel
  unfolding write_address write_subaddress write_each
  write_message m p =
      let p1 = write_int32 m.teleservice_id p in
      let p2 = write_byte m.is_service_present p1 in
      let p3 = write_int32 m.servicecategory p2 in
      write_address m.address p3 >>= λ p4. write_subaddress m.subaddress p4 >>= λ p5.
      write_each write_byte (digit_limit m.bearer_data_len bearer_data_max) m.bearer_data
        (write_int32 m.bearer_data_len p5)

  unfoldable pub response_cdma_sms : Parcel → Data → ℕ → Reply api
  unfolding write_message
  response_cdma_sms p response len =
      if null_with_length response len
      then refuse api p
      else if not (len == size_of Struct.cdma_sms_message)
      then refuse api p
      else elim response [ Data.cdma_sms_message m ↦ done api (write_message m p) | _ ↦ none ]
