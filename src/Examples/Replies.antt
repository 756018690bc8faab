-- ===== src/Examples/Replies.antt =====
-- Answers of the vendor library and CDMA messages on concrete inputs.
use rild_hisi.Common.{◌*◌, ◌≡◌, refl, sym, [], ◌∷◌, none, some, arith, replicate}
use rild_hisi.Common.Int.{pos, negsuc}
use rild_hisi.Telephony.{
  CallForwardInfo, DataCallResponse, GsmBroadcastSmsConfigInfo, CdmaBroadcastSmsConfigInfo,
  CdmaSmsMessage, address_max, subaddress_max, bearer_data_max,
}
use rild_hisi.Telephony.Data
use rild_hisi.Parcel.{Struct, int32}
use rild_hisi.Parcel.Typed.{typed, typed_laws}
use rild_hisi.Dispatch.{on_request}
use rild_hisi.Dispatch.Arrays.{int_items}
use rild_hisi.Dispatch.CdmaSms.{dispatch_cdma_sms}
use rild_hisi.Dispatch.Bounds.{IsSized}
use rild_hisi.Dispatch.CdmaItems.{message_items, cleared_message}
use rild_hisi.Commands.Tables.{commands}
use rild_hisi.Response.Arrays.{response_ints}
use rild_hisi.Response.Cdma.{response_cdma_sms}
use rild_hisi.Response.CdmaRoundTrip.{response_cdma_sms-Appends, dispatch-response_cdma_sms}
use rild_hisi.Response.Written.{Holds}
use rild_hisi.Response.Written.Arrays.{Appends, response_ints-Appends}
use rild_hisi.Daemon.Replies.{build_reply}
use rild_hisi.Daemon.Reply.{reply_header, build_reply_refused}
use rild_hisi.Commands.{CommandInfo, DispatchFunction, ResponseFunction, call_response}
use rild_hisi.Examples.{holding, a_request}

-- Where pointers are twice as long as integers, half of them are sent.
response_ints_example :
    Appends typed_laws
      (holding [])
      (response_ints typed (holding []) (Data.ints (pos 5 ∷ pos 6 ∷ [])) (typed.size_int * 2))
      (int32 (pos 1) ∷ int_items (pos 5 ∷ []))
unfolding typed
response_ints_example =
    response_ints-Appends typed_laws (holding []) (pos 5 ∷ pos 6 ∷ []) (λ e. absurd (omega arith))
      (omega arith)

abbrev a_forward : CallForwardInfo
a_forward = record {
  status = pos 1;
  reason = pos 0;
  service_class = pos 1;
  toa = pos 129;
  number = some (49 ∷ []);
  time_seconds = pos 20;
}

abbrev a_data_call : DataCallResponse
a_data_call = record {
  cid = pos 1;
  active = pos 2;
  type = some (73 ∷ 80 ∷ []);
  apn = none;
  address = some (49 ∷ []);
}

abbrev a_gsm_config : GsmBroadcastSmsConfigInfo
a_gsm_config = record {
  from_service_id = pos 50;
  to_service_id = pos 60;
  from_code_scheme = pos 0;
  to_code_scheme = pos 255;
  selected = 1;
}

abbrev a_cdma_config : CdmaBroadcastSmsConfigInfo
a_cdma_config = record { service_category = pos 1; language = pos 2; selected = 1 }

-- A message of two bytes, with three digits of address.
abbrev a_message : CdmaSmsMessage
a_message = record {
  teleservice_id = pos 4098;
  is_service_present = 0;
  servicecategory = pos 0;
  address = record {
    digit_mode = pos 0;
    number_mode = pos 0;
    number_type = pos 0;
    number_plan = pos 0;
    number_of_digits = 3;
    digits = replicate address_max 5;
  };
  subaddress = record {
    subaddress_type = pos 0;
    odd = 0;
    number_of_digits = 0;
    digits = replicate subaddress_max 0;
  };
  bearer_data_len = pos 2;
  bearer_data = replicate bearer_data_max 9;
}

a_message-IsSized : IsSized a_message
a_message-IsSized = record { address = refl; subaddress = refl; bearer_data = refl }

marshalled :
    Appends typed_laws typed.empty
      (response_cdma_sms typed typed.empty
        (Data.cdma_sms_message a_message)
        (typed.size_of Struct.cdma_sms_message))
      (message_items a_message)
marshalled = response_cdma_sms-Appends typed_laws typed.empty a_message a_message-IsSized

holding-marshalled :
    typed_laws.after (holding (message_items a_message)) ≡ typed_laws.before marshalled.0
unfolding typed_laws typed holding
holding-marshalled =
    sym ((marshalled.2).keeps [] (record { written = refl; at_end = refl })).written

dispatch-response_cdma_sms_example :
    dispatch_cdma_sms typed (holding (message_items a_message)) (a_request 87)
    ≡ on_request 87
        (Data.cdma_sms_message (cleared_message a_message))
        (typed.size_of Struct.cdma_sms_message)
        (a_request 87)
dispatch-response_cdma_sms_example =
    dispatch-response_cdma_sms typed_laws a_message marshalled.0 (holding (message_items a_message))
      (a_request 87) a_message-IsSized marshalled.1 holding-marshalled

-- The row of RIL_REQUEST_ENTER_SIM_PIN
abbrev enter_sim_pin : CommandInfo
enter_sim_pin = record {
  request_number = 2;
  dispatch_function = DispatchFunction.strings;
  response_function = ResponseFunction.ints;
}

-- Its answer with a length that is no multiple of an integer's
build_reply_refused_example :
    (w : typed.Parcel) × (build_reply typed 3 (a_request 2) (pos 0) (Data.ints (pos 1 ∷ [])) 3
      ≡ some w)
    × Holds typed_laws w (reply_header (a_request 2) (negsuc 0))
unfolding typed call_response commands response_ints
build_reply_refused_example =
    build_reply_refused typed_laws 3 (a_request 2) enter_sim_pin (pos 0) (Data.ints (pos 1 ∷ [])) 3
      0 _ refl refl refl
