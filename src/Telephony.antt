-- ===== src/Telephony.antt =====
-- include/telephony/ril.h: the structures that cross the vendor interface, and its constants.
-- An `int`, an enum and a plain `char` are integers, an `unsigned char` is a number below 256, a
-- `char *` is a text or NULL (`none`), and a NULL pointer to a structure is `none`.
mod Cdma
pub mod Data
pub use Cdma.*
use rild_hisi.Common.{ℕ, List, Option}
use rild_hisi.Common.Int.{ℤ}

abbrev pub Bytes : Type 0
Bytes = List ℕ

-- A `char *` without its terminating NUL.
abbrev pub CString : Type 0
CString = Option Bytes

-- RIL_VERSION
abbrev pub ril_version : ℕ
ril_version = 3

-- RIL_UNSOL_RESPONSE_BASE
abbrev pub unsol_response_base : ℕ
unsol_response_base = 1000

-- RIL_UNSOL_RESPONSE_RADIO_STATE_CHANGED
abbrev pub unsol_response_radio_state_changed : ℕ
unsol_response_radio_state_changed = 1000

-- RIL_UNSOL_NITZ_TIME_RECEIVED
abbrev pub unsol_nitz_time_received : ℕ
unsol_nitz_time_received = 1008

pub record UusInfo : Type 0 where
  pub uus_type : ℤ
  pub uus_dcs : ℤ
  pub uus_length : ℤ
  pub uus_data : Option Bytes

pub record Call : Type 0 where
  pub state : ℤ
  pub index : ℤ
  pub toa : ℤ
  pub is_mpty : ℤ
  pub is_mt : ℤ
  pub als : ℤ
  pub is_voice : ℤ
  pub is_voice_privacy : ℤ
  pub number : CString
  pub number_presentation : ℤ
  pub name : CString
  pub name_presentation : ℤ
  pub uus_info : Option UusInfo

pub record DataCallResponse : Type 0 where
  pub cid : ℤ
  pub active : ℤ
  pub type : CString
  pub apn : CString
  pub address : CString

pub record SmsResponse : Type 0 where
  pub message_ref : ℤ
  pub ack_pdu : CString
  pub error_code : ℤ

pub record SmsWriteArgs : Type 0 where
  pub status : ℤ
  pub pdu : CString
  pub smsc : CString

pub record Dial : Type 0 where
  pub address : CString
  pub clir : ℤ
  pub uus_info : Option UusInfo

pub record SimIo : Type 0 where
  pub command : ℤ
  pub fileid : ℤ
  pub path : CString
  pub p1 : ℤ
  pub p2 : ℤ
  pub p3 : ℤ
  pub contents : CString
  pub pin2 : CString

pub record SimIoResponse : Type 0 where
  pub sw1 : ℤ
  pub sw2 : ℤ
  pub sim_response : CString

pub record CallForwardInfo : Type 0 where
  pub status : ℤ
  pub reason : ℤ
  pub service_class : ℤ
  pub toa : ℤ
  pub number : CString
  pub time_seconds : ℤ

pub record NeighboringCell : Type 0 where
  pub cid : CString
  pub rssi : ℤ

pub record SuppSvcNotification : Type 0 where
  pub notification_type : ℤ
  pub code : ℤ
  pub index : ℤ
  pub type : ℤ
  pub number : CString

pub record AppStatus : Type 0 where
  pub app_type : ℤ
  pub app_state : ℤ
  pub perso_substate : ℤ
  pub aid_ptr : CString
  pub app_label_ptr : CString
  pub pin1_replaced : ℤ
  pub pin1 : ℤ
  pub pin2 : ℤ

-- `applications` is the array of RIL_CARD_MAX_APPS entries.
pub record CardStatus : Type 0 where
  pub card_state : ℤ
  pub universal_pin_state : ℤ
  pub gsm_umts_subscription_app_index : ℤ
  pub cdma_subscription_app_index : ℤ
  pub num_applications : ℤ
  pub applications : List AppStatus

pub record GsmBroadcastSmsConfigInfo : Type 0 where
  pub from_service_id : ℤ
  pub to_service_id : ℤ
  pub from_code_scheme : ℤ
  pub to_code_scheme : ℤ
  pub selected : ℕ

-- The GW, CDMA and EVDO parts in the order of RIL_SignalStrength.
pub record SignalStrength : Type 0 where
  pub gw_signal_strength : ℤ
  pub gw_bit_error_rate : ℤ
  pub cdma_dbm : ℤ
  pub cdma_ecio : ℤ
  pub evdo_dbm : ℤ
  pub evdo_ecio : ℤ
  pub evdo_signal_noise_ratio : ℤ
