-- ===== src/Telephony/Data.antt =====
-- The `void *` of the vendor interface: what it points to, by type. Reading it at another type, or
-- past its end, is undefined in the source.
use rild_hisi.Common.{List}
use rild_hisi.Common.Int.{ℤ}
use rild_hisi.Telephony.{
  Bytes, CString, Call, DataCallResponse, SmsResponse, SmsWriteArgs, Dial, SimIo, SimIoResponse,
  CallForwardInfo, NeighboringCell, SuppSvcNotification, CardStatus, GsmBroadcastSmsConfigInfo,
  SignalStrength, CdmaSmsMessage, CdmaSmsAck, CdmaBroadcastSmsConfigInfo, CdmaSmsWriteArgs,
  CdmaSignalInfoRecord, CdmaCallWaiting, CdmaInformationRecords,
}

-- `ints`, `strings`, `data_calls` and `raw` are arrays; `calls`, `call_forwards`, `cells`,
-- `gsm_configs` and `cdma_configs` are arrays of pointers, followed to what they point to.
pub data Data : Type 0 where
  null : Data
  text : Bytes → Data
  raw : Bytes → Data
  ints : List ℤ → Data
  strings : List CString → Data
  calls : List Call → Data
  data_calls : List DataCallResponse → Data
  call_forwards : List CallForwardInfo → Data
  cells : List NeighboringCell → Data
  gsm_configs : List GsmBroadcastSmsConfigInfo → Data
  cdma_configs : List CdmaBroadcastSmsConfigInfo → Data
  sms_response : SmsResponse → Data
  sms_write_args : SmsWriteArgs → Data
  dial : Dial → Data
  sim_io : SimIo → Data
  sim_io_response : SimIoResponse → Data
  call_forward : CallForwardInfo → Data
  supp_svc_notification : SuppSvcNotification → Data
  card_status : CardStatus → Data
  signal_strength : SignalStrength → Data
  cdma_sms_message : CdmaSmsMessage → Data
  cdma_sms_ack : CdmaSmsAck → Data
  cdma_sms_write_args : CdmaSmsWriteArgs → Data
  cdma_signal_info_record : CdmaSignalInfoRecord → Data
  cdma_call_waiting : CdmaCallWaiting → Data
  cdma_information_records : CdmaInformationRecords → Data
