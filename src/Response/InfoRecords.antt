-- ===== src/Response/InfoRecords.antt =====
-- responseCdmaInformationRecords of libril/ril.cpp.
use rild_hisi.Common.{
  ℕ, zero, suc, ltb, min, not, ◌==◌, List, [], ◌∷◌, none, some, if◌then◌else◌, ◌>>=◌,
}
use rild_hisi.Common.Int.{ℤ, pos, negsuc, to_ℕ}
use rild_hisi.Telephony.{
  Bytes, InfoRecName, InfoRec, CdmaNumberInfoRecord, CdmaInformationRecord,
  alpha_info_buffer_length, number_info_buffer_length, max_number_of_info_recs,
}
use rild_hisi.Telephony.Data.{Data}
use rild_hisi.Parcel.{Platform, Struct}
use rild_hisi.Response.{Reply, refuse, null_with_length, bytes_at, write_string_to_parcel}
use rild_hisi.Response.Cdma.{marshall_signal_info_record}

-- The values of the enum.
abbrev pub name_code : InfoRecName → ℤ
name_code InfoRecName.display_info_rec = pos 0
name_code InfoRecName.called_party_number_info_rec = pos 1
name_code InfoRecName.calling_party_number_info_rec = pos 2
name_code InfoRecName.connected_number_info_rec = pos 3
name_code InfoRecName.signal_info_rec = pos 4
name_code InfoRecName.redirecting_number_info_rec = pos 5
name_code InfoRecName.line_control_info_rec = pos 6
name_code InfoRecName.extended_display_info_rec = pos 7
name_code InfoRecName.t53_clir_info_rec = pos 8
name_code InfoRecName.t53_release_info_rec = pos 9
name_code InfoRecName.t53_audio_control_info_rec = pos 10
name_code (InfoRecName.incorrect n) = n

-- The text up to the first NUL.
unfoldable pub c_string : Bytes → Bytes
c_string [] = []
c_string (b ∷ bs) = if b == 0 then [] else b ∷ c_string bs

-- MIN(n, m), an int
abbrev pub min_int : ℤ → ℕ → ℤ
min_int (pos n) m = pos (min n m)
min_int (negsuc n) m = negsuc n

module _ (api : Platform) where
  open api use {Parcel, write_int32, size_of}

  -- The copy of `len` bytes of a buffer into `string8`, with its NUL, and the write of it. The
  -- length is refused above `max`; a negative one writes the NUL in front of the allocation.
  unfoldable pub write_buffer : ℕ → ℤ → Bytes → Parcel → Reply api
  unfolding bytes_at c_string
  write_buffer max (negsuc n) buf p = none
  write_buffer max (pos n) buf p =
      if ltb max n
      then refuse api p
      else bytes_at n buf >>= λ bs. some (pos 0, write_string_to_parcel api (some (c_string bs)) p)

  -- What follows a part that may have returned early.
  abbrev pub and_then : Reply api → (Parcel → Parcel) → Reply api
  and_then none k = none
  and_then (some (pos zero, p)) k = some (pos zero, k p)
  and_then (some (pos (suc n), p)) k = some (pos (suc n), p)
  and_then (some (negsuc n, p)) k = some (negsuc n, p)

  abbrev write_number_tail : CdmaNumberInfoRecord → Parcel → Parcel
  write_number_tail r p =
      let p1 = write_int32 r.number_type p in
      let p2 = write_int32 r.number_plan p1 in let p3 = write_int32 r.pi p2 in write_int32 r.si p3

  abbrev write_display : InfoRec → Parcel → Reply api
  write_display (InfoRec.display len buf) p = write_buffer alpha_info_buffer_length len buf p
  write_display _ p = none

  abbrev write_number : InfoRec → Parcel → Reply api
  write_number (InfoRec.number r) p =
      and_then (write_buffer number_info_buffer_length r.len r.buf p) (write_number_tail r)
  write_number _ p = none

  abbrev write_redir : InfoRec → Parcel → Reply api
  write_redir (InfoRec.redir r reason) p =
      and_then (write_buffer number_info_buffer_length r.len r.buf p)
        (λ q. write_int32 reason (write_number_tail r q))
  write_redir _ p = none

  abbrev write_signal : InfoRec → Parcel → Reply api
  write_signal (InfoRec.signal s) p = some (pos 0, marshall_signal_info_record api s p)
  write_signal _ p = none

  abbrev write_line_ctrl : InfoRec → Parcel → Reply api
  write_line_ctrl (InfoRec.line_ctrl included toggle reverse denial) p =
      let p1 = write_int32 included p in
      let p2 = write_int32 toggle p1 in
      let p3 = write_int32 reverse p2 in some (pos 0, write_int32 denial p3)
  write_line_ctrl _ p = none

  abbrev write_clir : InfoRec → Parcel → Reply api
  write_clir (InfoRec.clir cause) p = some (pos 0, write_int32 cause p)
  write_clir _ p = none

  abbrev write_audio_ctrl : InfoRec → Parcel → Reply api
  write_audio_ctrl (InfoRec.audio_ctrl up down) p =
      some (pos 0, write_int32 down (write_int32 up p))
  write_audio_ctrl _ p = none

  -- switch (infoRec->name), behind the write of the name
  unfoldable pub write_info : InfoRecName → InfoRec → Parcel → Reply api
  unfolding write_buffer
  write_info InfoRecName.display_info_rec rec p = write_display rec p
  write_info InfoRecName.extended_display_info_rec rec p = write_display rec p
  write_info InfoRecName.called_party_number_info_rec rec p = write_number rec p
  write_info InfoRecName.calling_party_number_info_rec rec p = write_number rec p
  write_info InfoRecName.connected_number_info_rec rec p = write_number rec p
  write_info InfoRecName.signal_info_rec rec p = write_signal rec p
  write_info InfoRecName.redirecting_number_info_rec rec p = write_redir rec p
  write_info InfoRecName.line_control_info_rec rec p = write_line_ctrl rec p
  write_info InfoRecName.t53_clir_info_rec rec p = write_clir rec p
  write_info InfoRecName.t53_audio_control_info_rec rec p = write_audio_ctrl rec p
  write_info InfoRecName.t53_release_info_rec rec p = refuse api p
  write_info (InfoRecName.incorrect n) rec p = refuse api p

  -- The loop over the records, which ends at the first that is refused.
  unfoldable pub write_infos : ℕ → List CdmaInformationRecord → Parcel → Reply api
  unfolding write_info
  write_infos zero rs p = some (pos 0, p)
  write_infos (suc n) [] p = none
  write_infos (suc n) (r ∷ rs) p =
      elim (write_info r.name r.rec (write_int32 (name_code r.name) p)) [
        | none ↦ none
        | some (pos zero, q) ↦ write_infos n rs q
        | some (pos (suc e), q) ↦ some (pos (suc e), q)
        | some (negsuc e, q) ↦ some (negsuc e, q)
      ]

  unfoldable pub response_cdma_information_records : Parcel → Data → ℕ → Reply api
  unfolding write_infos
  response_cdma_information_records p response len =
      if null_with_length response len
      then refuse api p
      else if not (len == size_of Struct.cdma_information_records)
      then refuse api p
      else elim response [
        | Data.cdma_information_records rs ↦
            let num = min_int rs.number_of_info_recs max_number_of_info_recs in
            write_infos (to_ℕ num) rs.info_rec (write_int32 num p)
        | _ ↦ none
      ]
