-- ===== src/Response/Single.antt =====
-- The response functions of one structure: responseSMS, responseSIM_IO, responseSsn,
-- responseRilSignalStrength, responseSimStatus.
use rild_hisi.Common.{ℕ, zero, suc, ◌/◌, ◌%◌, ◌-◌, not, ◌==◌, none, some, if◌then◌else◌, ◌>>=◌}
use rild_hisi.Common.Int.{pos, to_ℕ}
use rild_hisi.Telephony.{SignalStrength, AppStatus}
use rild_hisi.Telephony.Data.{Data}
use rild_hisi.Parcel.{Platform, Struct}
use rild_hisi.Response.{
  Reply, refuse, done, null_with_length, is_null, write_each, write_string_to_parcel,
}
use rild_hisi.Response.Arrays.{ints_at}

-- The number of integers in RIL_SignalStrength, `totalIntegers`.
abbrev pub total_integers : ℕ
total_integers = 7

module _ (api : Platform) where
  open api use {Parcel, write_int32, size_int, size_ptr, size_of}

  unfoldable pub response_sms : Parcel → Data → ℕ → Reply api
  response_sms p response len =
      if is_null response
      then refuse api p
      else if not (len == size_of Struct.sms_response)
      then refuse api p
      else elim response [
        | Data.sms_response r ↦
            let p1 = write_int32 r.message_ref p in
            let p2 = write_string_to_parcel api r.ack_pdu p1 in
            some (pos 0, write_int32 r.error_code p2)
        | _ ↦ none
      ]

  unfoldable pub response_sim_io : Parcel → Data → ℕ → Reply api
  response_sim_io p response len =
      if is_null response
      then refuse api p
      else if not (len == size_of Struct.sim_io_response)
      then refuse api p
      else elim response [
        | Data.sim_io_response r ↦
            let p1 = write_int32 r.sw1 p in
            let p2 = write_int32 r.sw2 p1 in
            some (pos 0, write_string_to_parcel api r.sim_response p2)
        | _ ↦ none
      ]

  unfoldable pub response_ssn : Parcel → Data → ℕ → Reply api
  response_ssn p response len =
      if is_null response
      then refuse api p
      else if not (len == size_of Struct.supp_svc_notification)
      then refuse api p
      else elim response [
        | Data.supp_svc_notification n ↦
            let p1 = write_int32 n.notification_type p in
            let p2 = write_int32 n.code p1 in
            let p3 = write_int32 n.index p2 in
            let p4 = write_int32 n.type p3 in some (pos 0, write_string_to_parcel api n.number p4)
        | _ ↦ none
      ]

  -- for (; i < totalIntegers; i++) p.writeInt32(0), by the rounds left
  unfoldable pub write_zeros : ℕ → Parcel → Parcel
  write_zeros zero p = p
  write_zeros (suc n) p = write_zeros n (write_int32 (pos 0) p)

  abbrev write_signal_strength : SignalStrength → Parcel → Parcel
  write_signal_strength s p =
      let p1 = write_int32 s.gw_signal_strength p in
      let p2 = write_int32 s.gw_bit_error_rate p1 in
      let p3 = write_int32 s.cdma_dbm p2 in
      let p4 = write_int32 s.cdma_ecio p3 in
      let p5 = write_int32 s.evdo_dbm p4 in
      let p6 = write_int32 s.evdo_ecio p5 in write_int32 s.evdo_signal_noise_ratio p6

  -- The integers of the old interface, filled up with zeros.
  unfoldable pub old_signal_strength : Parcel → Data → ℕ → Reply api
  unfolding write_each write_zeros
  old_signal_strength p response len =
      if not (len % size_int == 0)
      then refuse api p
      else ints_at response >>= λ vs. write_each write_int32 (len / size_int) vs p >>= λ q.
          some (pos 0, write_zeros (total_integers - len / size_int) q)

  unfoldable pub response_ril_signal_strength : Parcel → Data → ℕ → Reply api
  unfolding old_signal_strength
  response_ril_signal_strength p response len =
      if null_with_length response len
      then refuse api p
      else if not (len == size_of Struct.signal_strength)
      then old_signal_strength p response len
      else elim response [
        | Data.signal_strength s ↦ some (pos 0, write_signal_strength s p)
        | _ ↦ none
      ]

  abbrev write_app : AppStatus → Parcel → Parcel
  write_app a p =
      let p1 = write_int32 a.app_type p in
      let p2 = write_int32 a.app_state p1 in
      let p3 = write_int32 a.perso_substate p2 in
      let p4 = write_string_to_parcel api a.aid_ptr p3 in
      let p5 = write_string_to_parcel api a.app_label_ptr p4 in
      let p6 = write_int32 a.pin1_replaced p5 in
      let p7 = write_int32 a.pin1 p6 in write_int32 a.pin2 p7

  -- The length is only checked to be a multiple of the size of a pointer, and the number of
  -- applications not at all.
  unfoldable pub response_sim_status : Parcel → Data → ℕ → Reply api
  unfolding write_each
  response_sim_status p response len =
      if null_with_length response len
      then refuse api p
      else if not (len % size_ptr == 0)
      then refuse api p
      else elim response [
        | Data.card_status s ↦
            let p1 = write_int32 s.card_state p in
            let p2 = write_int32 s.universal_pin_state p1 in
            let p3 = write_int32 s.gsm_umts_subscription_app_index p2 in
            let p4 = write_int32 s.cdma_subscription_app_index p3 in
            let p5 = write_int32 s.num_applications p4 in
            done api (write_each write_app (to_ℕ s.num_applications) s.applications p5)
        | _ ↦ none
      ]
