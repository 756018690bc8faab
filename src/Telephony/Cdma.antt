-- ===== src/Telephony/Cdma.antt =====
-- include/telephony/ril_cdma_sms.h, and the CDMA records of include/telephony/ril.h.
use rild_hisi.Common.{ℕ, List, Option}
use rild_hisi.Common.Int.{ℤ}

-- RIL_CDMA_SMS_ADDRESS_MAX, RIL_CDMA_SMS_SUBADDRESS_MAX and RIL_CDMA_SMS_BEARER_DATA_MAX.
abbrev pub address_max : ℕ
address_max = 36

abbrev pub subaddress_max : ℕ
subaddress_max = 36

abbrev pub bearer_data_max : ℕ
bearer_data_max = 255

pub record CdmaSmsAddress : Type 0 where
  pub digit_mode : ℤ
  pub number_mode : ℤ
  pub number_type : ℤ
  pub number_plan : ℤ
  pub number_of_digits : ℕ
  pub digits : List ℕ

pub record CdmaSmsSubaddress : Type 0 where
  pub subaddress_type : ℤ
  pub odd : ℕ
  pub number_of_digits : ℕ
  pub digits : List ℕ

pub record CdmaSmsMessage : Type 0 where
  pub teleservice_id : ℤ
  pub is_service_present : ℕ
  pub servicecategory : ℤ
  pub address : CdmaSmsAddress
  pub subaddress : CdmaSmsSubaddress
  pub bearer_data_len : ℤ
  pub bearer_data : List ℕ

pub record CdmaSmsAck : Type 0 where
  pub error_class : ℤ
  pub sms_cause_code : ℤ

pub record CdmaBroadcastSmsConfigInfo : Type 0 where
  pub service_category : ℤ
  pub language : ℤ
  pub selected : ℕ

pub record CdmaSmsWriteArgs : Type 0 where
  pub status : ℤ
  pub message : CdmaSmsMessage

pub record CdmaSignalInfoRecord : Type 0 where
  pub is_present : ℤ
  pub signal_type : ℤ
  pub alert_pitch : ℤ
  pub signal : ℤ

pub record CdmaCallWaiting : Type 0 where
  pub number : Option (List ℕ)
  pub number_presentation : ℤ
  pub name : Option (List ℕ)
  pub signal_info_record : CdmaSignalInfoRecord

-- CDMA_ALPHA_INFO_BUFFER_LENGTH, CDMA_NUMBER_INFO_BUFFER_LENGTH and
-- RIL_CDMA_MAX_NUMBER_OF_INFO_RECS.
abbrev pub alpha_info_buffer_length : ℕ
alpha_info_buffer_length = 64

abbrev pub number_info_buffer_length : ℕ
number_info_buffer_length = 81

abbrev pub max_number_of_info_recs : ℕ
max_number_of_info_recs = 10

-- RIL_CDMA_InfoRecName; any other value of the enum is `incorrect`.
pub data InfoRecName : Type 0 where
  display_info_rec called_party_number_info_rec calling_party_number_info_rec : InfoRecName
  connected_number_info_rec signal_info_rec redirecting_number_info_rec : InfoRecName
  line_control_info_rec extended_display_info_rec t53_clir_info_rec : InfoRecName
  t53_release_info_rec t53_audio_control_info_rec : InfoRecName
  incorrect : ℤ → InfoRecName

pub record CdmaNumberInfoRecord : Type 0 where
  pub len : ℤ
  pub buf : List ℕ
  pub number_type : ℤ
  pub number_plan : ℤ
  pub pi : ℤ
  pub si : ℤ

-- The union `rec`: the member that was stored.
pub data InfoRec : Type 0 where
  display : ℤ → List ℕ → InfoRec
  number : CdmaNumberInfoRecord → InfoRec
  signal : CdmaSignalInfoRecord → InfoRec
  redir : CdmaNumberInfoRecord → ℤ → InfoRec
  line_ctrl : ℤ → ℤ → ℤ → ℤ → InfoRec
  clir : ℤ → InfoRec
  audio_ctrl : ℤ → ℤ → InfoRec

pub record CdmaInformationRecord : Type 0 where
  pub name : InfoRecName
  pub rec : InfoRec

pub record CdmaInformationRecords : Type 0 where
  pub number_of_info_recs : ℤ
  pub info_rec : List CdmaInformationRecord
