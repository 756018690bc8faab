-- ===== src/Commands.antt =====
-- libril/ril_commands.h and libril/ril_unsol_commands.h: the tables s_commands and
-- s_unsolResponses of libril/ril.cpp. A function pointer is the constructor with the name of the
-- function that it points to, and a call through it goes by that constructor.
pub mod Tables
pub mod Numbers
use rild_hisi.Common.{ℕ, List, Option, none, some}
use rild_hisi.Common.Int.{ℤ}
use rild_hisi.Telephony.Data.{Data}
use rild_hisi.Parcel.{Platform}
use rild_hisi.Dispatch.{
  RequestInfo, Outcome, fault, dispatch_void, dispatch_string, dispatch_strings, dispatch_ints,
  dispatch_raw,
}
use rild_hisi.Dispatch.Call.{
  dispatch_sms_write, dispatch_dial, dispatch_sim_io, dispatch_call_forward,
}
use rild_hisi.Dispatch.Broadcast.{dispatch_gsm_br_sms_cnf, dispatch_cdma_br_sms_cnf}
use rild_hisi.Dispatch.CdmaSms.{
  dispatch_cdma_sms, dispatch_cdma_sms_ack, dispatch_ril_cdma_sms_write_args,
}
use rild_hisi.Response.{Reply, response_void, response_string}
use rild_hisi.Response.Arrays.{
  response_ints, response_strings, response_call_list, response_data_call_list, response_raw,
  response_call_forwards, response_cell_list, response_gsm_br_sms_cnf, response_cdma_br_sms_cnf,
}
use rild_hisi.Response.Single.{
  response_sms, response_sim_io, response_ssn, response_ril_signal_strength, response_sim_status,
}
use rild_hisi.Response.Cdma.{response_cdma_sms, response_call_ring, response_cdma_call_waiting}
use rild_hisi.Response.InfoRecords.{response_cdma_information_records}

-- `null` is the NULL of entry 0.
pub data DispatchFunction : Type 0 where
  null : DispatchFunction
  void strings dial ints string sim_io call_forward raw sms_write cdma_sms cdma_sms_ack :
      DispatchFunction
  gsm_br_sms_cnf cdma_br_sms_cnf ril_cdma_sms_write_args : DispatchFunction

pub data ResponseFunction : Type 0 where
  null : ResponseFunction
  sim_status ints call_list void string ril_signal_strength strings sms sim_io : ResponseFunction
  call_forwards data_call_list raw cell_list gsm_br_sms_cnf cdma_br_sms_cnf ssn call_ring :
      ResponseFunction
  cdma_sms cdma_call_waiting cdma_information_records : ResponseFunction

pub data WakeType : Type 0 where
  dont_wake wake_partial : WakeType

pub record CommandInfo : Type 0 where
  pub request_number : ℕ
  pub dispatch_function : DispatchFunction
  pub response_function : ResponseFunction

pub record UnsolResponseInfo : Type 0 where
  pub request_number : ℕ
  pub response_function : ResponseFunction
  pub wake_type : WakeType

-- Calls through the pointers. `version` is that of the vendor's callbacks.
module _ (api : Platform) where
  unfoldable pub call_dispatch : DispatchFunction → ℕ → api.Parcel → RequestInfo → Outcome
  call_dispatch DispatchFunction.null version p info = fault
  call_dispatch DispatchFunction.void version p info = dispatch_void api p info
  call_dispatch DispatchFunction.strings version p info = dispatch_strings api p info
  call_dispatch DispatchFunction.dial version p info = dispatch_dial api version p info
  call_dispatch DispatchFunction.ints version p info = dispatch_ints api p info
  call_dispatch DispatchFunction.string version p info = dispatch_string api p info
  call_dispatch DispatchFunction.sim_io version p info = dispatch_sim_io api p info
  call_dispatch DispatchFunction.call_forward version p info = dispatch_call_forward api p info
  call_dispatch DispatchFunction.raw version p info = dispatch_raw api p info
  call_dispatch DispatchFunction.sms_write version p info = dispatch_sms_write api p info
  call_dispatch DispatchFunction.cdma_sms version p info = dispatch_cdma_sms api p info
  call_dispatch DispatchFunction.cdma_sms_ack version p info = dispatch_cdma_sms_ack api p info
  call_dispatch DispatchFunction.gsm_br_sms_cnf version p info = dispatch_gsm_br_sms_cnf api p info
  call_dispatch DispatchFunction.cdma_br_sms_cnf version p info =
      dispatch_cdma_br_sms_cnf api p info
  call_dispatch DispatchFunction.ril_cdma_sms_write_args version p info =
      dispatch_ril_cdma_sms_write_args api p info

  unfoldable pub call_response : ResponseFunction → ℕ → api.Parcel → Data → ℕ → Reply api
  call_response ResponseFunction.null version p response len = none
  call_response ResponseFunction.sim_status version p response len =
      response_sim_status api p response len
  call_response ResponseFunction.ints version p response len = response_ints api p response len
  call_response ResponseFunction.call_list version p response len =
      response_call_list api version p response len
  call_response ResponseFunction.void version p response len = response_void api p response len
  call_response ResponseFunction.string version p response len = response_string api p response len
  call_response ResponseFunction.ril_signal_strength version p response len =
      response_ril_signal_strength api p response len
  call_response ResponseFunction.strings version p response len =
      response_strings api p response len
  call_response ResponseFunction.sms version p response len = response_sms api p response len
  call_response ResponseFunction.sim_io version p response len = response_sim_io api p response len
  call_response ResponseFunction.call_forwards version p response len =
      response_call_forwards api p response len
  call_response ResponseFunction.data_call_list version p response len =
      response_data_call_list api p response len
  call_response ResponseFunction.raw version p response len = response_raw api p response len
  call_response ResponseFunction.cell_list version p response len =
      response_cell_list api p response len
  call_response ResponseFunction.gsm_br_sms_cnf version p response len =
      response_gsm_br_sms_cnf api p response len
  call_response ResponseFunction.cdma_br_sms_cnf version p response len =
      response_cdma_br_sms_cnf api p response len
  call_response ResponseFunction.ssn version p response len = response_ssn api p response len
  call_response ResponseFunction.call_ring version p response len =
      response_call_ring api p response len
  call_response ResponseFunction.cdma_sms version p response len =
      response_cdma_sms api p response len
  call_response ResponseFunction.cdma_call_waiting version p response len =
      response_cdma_call_waiting api p response len
  call_response ResponseFunction.cdma_information_records version p response len =
      response_cdma_information_records api p response len
