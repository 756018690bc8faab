-- ===== src/Response/Arrays.antt =====
-- The response functions of arrays: responseInts, responseStrings, responseCallList,
-- responseDataCallList, responseRaw, responseCallForwards, responseCellList, responseGsmBrSmsCnf,
-- responseCdmaBrSmsCnf.
use rild_hisi.Common.{
  ℕ, zero, suc, ◌/◌, ◌%◌, not, ◌==◌, ltb, List, [], ◌∷◌, Option, none, some, if◌then◌else◌, ◌>>=◌,
}
use rild_hisi.Common.Int.{ℤ, pos, negsuc}
use rild_hisi.Telephony.{
  Call, UusInfo, DataCallResponse, CallForwardInfo, NeighboringCell, GsmBroadcastSmsConfigInfo,
  CdmaBroadcastSmsConfigInfo,
}
use rild_hisi.Telephony.Data.{Data}
use rild_hisi.Parcel.{Platform, Struct}
use rild_hisi.Response.{
  Reply, refuse, done, null_with_length, bytes_at, write_each, write_string_to_parcel,
}

-- The array at a pointer, by its type; behind NULL there is nothing to read.
abbrev pub ints_at : Data → Option (List ℤ)
ints_at Data.null = some []
ints_at (Data.ints vs) = some vs
ints_at _ = none

abbrev pub calls_at : Data → Option (List Call)
calls_at Data.null = some []
calls_at (Data.calls cs) = some cs
calls_at _ = none

abbrev pub data_calls_at : Data → Option (List DataCallResponse)
data_calls_at Data.null = some []
data_calls_at (Data.data_calls cs) = some cs
data_calls_at _ = none

abbrev pub call_forwards_at : Data → Option (List CallForwardInfo)
call_forwards_at Data.null = some []
call_forwards_at (Data.call_forwards fs) = some fs
call_forwards_at _ = none

abbrev pub cells_at : Data → Option (List NeighboringCell)
cells_at Data.null = some []
cells_at (Data.cells cs) = some cs
cells_at _ = none

abbrev pub gsm_configs_at : Data → Option (List GsmBroadcastSmsConfigInfo)
gsm_configs_at Data.null = some []
gsm_configs_at (Data.gsm_configs cs) = some cs
gsm_configs_at _ = none

abbrev pub cdma_configs_at : Data → Option (List CdmaBroadcastSmsConfigInfo)
cdma_configs_at Data.null = some []
cdma_configs_at (Data.cdma_configs cs) = some cs
cdma_configs_at _ = none

module _ (api : Platform) where
  open api use {Parcel, write_int32, write, size_int, size_ptr, size_of}

  -- The count, then the entries.
  abbrev pub write_array : {A : Type 0} → (A → Parcel → Parcel) → ℕ → List A → Parcel → Reply api
  write_array f num xs p = done api (write_each f num xs (write_int32 (pos num) p))

  -- The length is checked against sizeof(int) and counted by sizeof(int *).
  unfoldable pub response_ints : Parcel → Data → ℕ → Reply api
  unfolding write_each
  response_ints p response len =
      if null_with_length response len
      then refuse api p
      else if not (len % size_int == 0)
      then refuse api p
      else ints_at response >>= λ vs. write_array write_int32 (len / size_ptr) vs p

  unfoldable pub response_strings : Parcel → Data → ℕ → Reply api
  unfolding write_each
  response_strings p response len =
      if null_with_length response len
      then refuse api p
      else if not (len % size_ptr == 0)
      then refuse api p
      else elim response [
        | Data.null ↦ some (pos 0, write_int32 (pos 0) p)
        | Data.strings ss ↦ write_array (write_string_to_parcel api) (len / size_ptr) ss p
        | _ ↦ none
      ]

  unfoldable pub write_uus : ℕ → Option UusInfo → Parcel → Option Parcel
  unfolding bytes_at
  write_uus version none p = some (write_int32 (pos 0) p)
  write_uus version (some u) p =
      if ltb version 3 then some (write_int32 (pos 0) p) else elim u.uus_data [
        | none ↦ some (write_int32 (pos 0) p)
        | some bs ↦ elim u.uus_length [
          | pos n ↦ bytes_at n bs >>= λ cs. some (
              write cs (
                write_int32 (pos n)
                  (write_int32 u.uus_dcs (write_int32 u.uus_type (write_int32 (pos 1) p)))))
          | negsuc n ↦ none
        ]
      ]

  -- One entry of responseCallList; `version` is that of the vendor's callbacks.
  unfoldable pub write_call : ℕ → Call → Parcel → Option Parcel
  unfolding write_uus
  write_call version c p =
      let p1 = write_int32 c.state p in
      let p2 = write_int32 c.index p1 in
      let p3 = write_int32 c.toa p2 in
      let p4 = write_int32 c.is_mpty p3 in
      let p5 = write_int32 c.is_mt p4 in
      let p6 = write_int32 c.als p5 in
      let p7 = write_int32 c.is_voice p6 in
      let p8 = write_int32 c.is_voice_privacy p7 in
      let p9 = write_string_to_parcel api c.number p8 in
      let p10 = write_int32 c.number_presentation p9 in
      let p11 = write_string_to_parcel api c.name p10 in
      let p12 = write_int32 c.name_presentation p11 in write_uus version c.uus_info p12

  unfoldable pub write_calls : ℕ → ℕ → List Call → Parcel → Option Parcel
  unfolding write_call
  write_calls version zero cs p = some p
  write_calls version (suc n) [] p = none
  write_calls version (suc n) (c ∷ cs) p =
      write_call version c p >>= λ q. write_calls version n cs q

  unfoldable pub response_call_list : ℕ → Parcel → Data → ℕ → Reply api
  unfolding write_calls
  response_call_list version p response len =
      if null_with_length response len
      then refuse api p
      else if not (len % size_ptr == 0)
      then refuse api p
      else calls_at response >>= λ cs.
          done api (write_calls version (len / size_ptr) cs (write_int32 (pos (len / size_ptr)) p))

  abbrev pub write_data_call : DataCallResponse → Parcel → Parcel
  write_data_call c p =
      let p1 = write_int32 c.cid p in
      let p2 = write_int32 c.active p1 in
      let p3 = write_string_to_parcel api c.type p2 in
      let p4 = write_string_to_parcel api c.apn p3 in write_string_to_parcel api c.address p4

  unfoldable pub response_data_call_list : Parcel → Data → ℕ → Reply api
  unfolding write_each
  response_data_call_list p response len =
      if null_with_length response len
      then refuse api p
      else if not (len % size_of Struct.data_call_response == 0)
      then refuse api p
      else data_calls_at response >>= λ cs.
          write_array write_data_call (len / size_of Struct.data_call_response) cs p

  unfoldable pub response_raw : Parcel → Data → ℕ → Reply api
  unfolding bytes_at
  response_raw p response len =
      if null_with_length response len then refuse api p else elim response [
        | Data.null ↦ some (pos 0, write_int32 (negsuc 0) p)
        | Data.raw bs ↦ bytes_at len bs >>= λ cs. some (pos 0, write cs (write_int32 (pos len) p))
        | _ ↦ none
      ]

  abbrev pub write_call_forward : CallForwardInfo → Parcel → Parcel
  write_call_forward f p =
      let p1 = write_int32 f.status p in
      let p2 = write_int32 f.reason p1 in
      let p3 = write_int32 f.service_class p2 in
      let p4 = write_int32 f.toa p3 in
      let p5 = write_string_to_parcel api f.number p4 in write_int32 f.time_seconds p5

  unfoldable pub response_call_forwards : Parcel → Data → ℕ → Reply api
  unfolding write_each
  response_call_forwards p response len =
      if null_with_length response len
      then refuse api p
      else if not (len % size_ptr == 0)
      then refuse api p
      else call_forwards_at response >>= λ fs. write_array write_call_forward (len / size_ptr) fs p

  abbrev pub write_cell : NeighboringCell → Parcel → Parcel
  write_cell c p = write_string_to_parcel api c.cid (write_int32 c.rssi p)

  unfoldable pub response_cell_list : Parcel → Data → ℕ → Reply api
  unfolding write_each
  response_cell_list p response len =
      if null_with_length response len
      then refuse api p
      else if not (len % size_ptr == 0)
      then refuse api p
      else cells_at response >>= λ cs. write_array write_cell (len / size_ptr) cs p

  abbrev pub write_gsm_config : GsmBroadcastSmsConfigInfo → Parcel → Parcel
  write_gsm_config c p =
      let p1 = write_int32 c.from_service_id p in
      let p2 = write_int32 c.to_service_id p1 in
      let p3 = write_int32 c.from_code_scheme p2 in
      let p4 = write_int32 c.to_code_scheme p3 in write_int32 (pos c.selected) p4

  -- No check of the pointer or the length.
  unfoldable pub response_gsm_br_sms_cnf : Parcel → Data → ℕ → Reply api
  unfolding write_each
  response_gsm_br_sms_cnf p response len =
      gsm_configs_at response >>= λ cs. write_array write_gsm_config (len / size_ptr) cs p

  abbrev pub write_cdma_config : CdmaBroadcastSmsConfigInfo → Parcel → Parcel
  write_cdma_config c p =
      let p1 = write_int32 c.service_category p in
      let p2 = write_int32 c.language p1 in write_int32 (pos c.selected) p2

  unfoldable pub response_cdma_br_sms_cnf : Parcel → Data → ℕ → Reply api
  unfolding write_each
  response_cdma_br_sms_cnf p response len =
      cdma_configs_at response >>= λ cs. write_array write_cdma_config (len / size_ptr) cs p
