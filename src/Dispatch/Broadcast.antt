-- ===== src/Dispatch/Broadcast.antt =====
-- dispatchGsmBrSmsCnf and dispatchCdmaBrSmsCnf of libril/ril.cpp.
use rild_hisi.Common.{ℕ, zero, suc, List, [], ◌∷◌, if◌then◌else◌, not}
use rild_hisi.Common.Int.{to_ℕ, to_u8}
use rild_hisi.Telephony.{GsmBroadcastSmsConfigInfo, CdmaBroadcastSmsConfigInfo}
use rild_hisi.Telephony.Data
use rild_hisi.Parcel.{Platform}
use rild_hisi.Dispatch.{
  RequestInfo, Outcome, on_request, invalid, Cursor, start, next_int32, size_t_mul,
}

module _ (api : Platform) where
  open api use {Parcel, uninit, size_ptr}

  -- The reads of one entry, in the order of the structure.
  abbrev gsm_entry : Cursor api → GsmBroadcastSmsConfigInfo × Cursor api
  gsm_entry c =
      let c1 = next_int32 api c in
      let c2 = next_int32 api c1 in
      let c3 = next_int32 api c2 in
      let c4 = next_int32 api c3 in
      let c5 = next_int32 api c4 in
      (
        record {
          from_service_id = c1.t;
          to_service_id = c2.t;
          from_code_scheme = c3.t;
          to_code_scheme = c4.t;
          selected = to_u8 c5.t;
        },
        c5,
      )

  unfoldable pub read_gsm_configs : ℕ → Cursor api → List GsmBroadcastSmsConfigInfo × Cursor api
  read_gsm_configs zero c = ([], c)
  read_gsm_configs (suc n) c =
      let (x, c') = gsm_entry c in let (xs, c'') = read_gsm_configs n c' in (x ∷ xs, c'')

  -- The status is tested behind the loop only: it is that of the last read.
  unfoldable pub dispatch_gsm_br_sms_cnf : Parcel → RequestInfo → Outcome
  unfolding read_gsm_configs
  dispatch_gsm_br_sms_cnf p info =
      let c = next_int32 api (start api p) in
      let (configs, c') = read_gsm_configs (to_ℕ c.t) (record c { t = uninit }) in
      if not c.no_error
      then invalid
      else if not c'.no_error
      then invalid
      else on_request info.request_number (Data.gsm_configs configs) (size_t_mul api size_ptr c.t)
          info

  abbrev cdma_entry : Cursor api → CdmaBroadcastSmsConfigInfo × Cursor api
  cdma_entry c =
      let c1 = next_int32 api c in
      let c2 = next_int32 api c1 in
      let c3 = next_int32 api c2 in
      (record { service_category = c1.t; language = c2.t; selected = to_u8 c3.t }, c3)

  unfoldable pub read_cdma_configs : ℕ → Cursor api → List CdmaBroadcastSmsConfigInfo × Cursor api
  read_cdma_configs zero c = ([], c)
  read_cdma_configs (suc n) c =
      let (x, c') = cdma_entry c in let (xs, c'') = read_cdma_configs n c' in (x ∷ xs, c'')

  unfoldable pub dispatch_cdma_br_sms_cnf : Parcel → RequestInfo → Outcome
  unfolding read_cdma_configs
  dispatch_cdma_br_sms_cnf p info =
      let c = next_int32 api (start api p) in
      let (configs, c') = read_cdma_configs (to_ℕ c.t) (record c { t = uninit }) in
      if not c.no_error
      then invalid
      else if not c'.no_error
      then invalid
      else on_request info.request_number (Data.cdma_configs configs) (size_t_mul api size_ptr c.t)
          info
