-- ===== src/Examples/Requests.antt =====
-- Command blocks on concrete inputs.
use rild_hisi.Common.{◌≡◌, [], ◌∷◌, none, some, ◌⊎◌}
use rild_hisi.Common.Int.{ℤ, pos}
use rild_hisi.Telephony.{SimIo, CallForwardInfo, CdmaSmsMessage}
use rild_hisi.Telephony.Data
use rild_hisi.Parcel.{Struct, int32}
use rild_hisi.Parcel.Typed.{typed}
use rild_hisi.Dispatch.{on_request, invalid}
use rild_hisi.Dispatch.CdmaSms.{dispatch_cdma_sms, dispatch_ril_cdma_sms_write_args}
use rild_hisi.Dispatch.Bounds.{
  IsSized, dispatch_cdma_sms_safe, dispatch_ril_cdma_sms_write_args_safe,
}
use rild_hisi.Examples.{holding, a_request}

abbrev a_sim_io : SimIo
a_sim_io = record {
  command = pos 192;
  fileid = pos 28474;
  path = some (51 ∷ 70 ∷ []);
  p1 = pos 0;
  p2 = pos 0;
  p3 = pos 15;
  contents = none;
  pin2 = none;
}

abbrev a_forward : CallForwardInfo
a_forward = record {
  status = pos 3;
  reason = pos 0;
  service_class = pos 1;
  toa = pos 129;
  number = some [];
  time_seconds = pos 20;
}

dispatch_cdma_sms_safe_example :
    (dispatch_cdma_sms typed (holding (int32 (pos 4098) ∷ [])) (a_request 87) ≡ invalid)
    ⊎ ((m : CdmaSmsMessage) × (dispatch_cdma_sms typed
            (holding (int32 (pos 4098) ∷ []))
            (a_request 87)
          ≡ on_request 87
              (Data.cdma_sms_message m)
              (typed.size_of Struct.cdma_sms_message)
              (a_request 87))
        × IsSized m)
dispatch_cdma_sms_safe_example =
    dispatch_cdma_sms_safe typed (holding (int32 (pos 4098) ∷ [])) (a_request 87)

dispatch_ril_cdma_sms_write_args_safe_example :
    (dispatch_ril_cdma_sms_write_args typed (holding (int32 (pos 1) ∷ [])) (a_request 96) ≡ invalid)
    ⊎ ((status : ℤ) × (m : CdmaSmsMessage) × (dispatch_ril_cdma_sms_write_args typed
            (holding (int32 (pos 1) ∷ []))
            (a_request 96)
          ≡ on_request 96
              (Data.cdma_sms_write_args (record { status = status; message = m }))
              (typed.size_of Struct.cdma_sms_write_args)
              (a_request 96))
        × IsSized m)
dispatch_ril_cdma_sms_write_args_safe_example =
    dispatch_ril_cdma_sms_write_args_safe typed (holding (int32 (pos 1) ∷ [])) (a_request 96)
