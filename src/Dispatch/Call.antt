-- ===== src/Dispatch/Call.antt =====
-- dispatchSmsWrite, dispatchDial, dispatchSIM_IO and dispatchCallForward of libril/ril.cpp.
use rild_hisi.Common.{
  ℕ, ◌-◌, Bool, true, false, [], Option, none, some, if◌then◌else◌, not, ◌||◌, ltb,
}
use rild_hisi.Common.Int.{ℤ, pos, negsuc, ◌==ℤ◌}
use rild_hisi.Telephony.{CString, Dial, UusInfo}
use rild_hisi.Telephony.Data
use rild_hisi.Parcel.{Platform, Struct}
use rild_hisi.Dispatch.{
  RequestInfo, Outcome, on_request, invalid, Cursor, start, next_int32, next_string,
}

abbrev pub is_null : CString → Bool
is_null none = true
is_null (some s) = false

-- if (number != NULL && strlen (number) == 0) number = NULL
abbrev pub empty_to_null : CString → CString
empty_to_null (some []) = none
empty_to_null s = s

module _ (api : Platform) where
  open api use {Parcel, read_inplace, size_ptr, size_of, uninit}

  unfoldable pub dispatch_sms_write : Parcel → RequestInfo → Outcome
  dispatch_sms_write p info =
      let c1 = next_int32 api (start api p) in
      let (pdu, c2) = next_string api c1 in
      let (smsc, c3) = next_string api c2 in
      if not c1.no_error || is_null pdu
      then invalid
      else on_request info.request_number
          (Data.sms_write_args (record { status = c1.t; pdu = pdu; smsc = smsc }))
          (size_of Struct.sms_write_args) info

  -- The User-User part of dispatchDial, from the read of `uusPresent` on; `uusPresent` and `len` are
  -- variables of their own.
  unfoldable pub dispatch_uus : Cursor api → CString → ℤ → RequestInfo → Outcome
  dispatch_uus c address clir info =
      let c1 = next_int32 api (record c { t = uninit }) in
      let c2 = next_int32 api (record c1 { t = c.t }) in
      let c3 = next_int32 api c2 in
      let c4 = next_int32 api (record c3 { t = uninit }) in
      let absent = c4.t ==ℤ negsuc 0 in
      let uus : UusInfo = record {
        uus_type = c2.t;
        uus_dcs = c3.t;
        uus_length = if absent then pos 0 else c4.t;
        uus_data = if absent then none else (read_inplace c4.t c4.rest).0;
      } in
      if not c1.no_error
      then invalid
      else if c1.t ==ℤ pos 0
      then call none
      else if not c4.no_error
      then invalid
      else call (some uus)
    where
      call : Option UusInfo → Outcome
      call uus =
          on_request info.request_number
            (Data.dial (record { address = address; clir = clir; uus_info = uus }))
            (size_of Struct.dial) info

  -- `version` is that of the vendor's callbacks: before 3 the structure ends before `uusInfo`.
  unfoldable pub dispatch_dial : ℕ → Parcel → RequestInfo → Outcome
  unfolding dispatch_uus
  dispatch_dial version p info =
      let (address, c1) = next_string api (start api p) in
      let c2 = next_int32 api c1 in
      let old : Dial = record { address = address; clir = c2.t; uus_info = none } in
      if not c2.no_error || is_null address
      then invalid
      else if ltb version 3
      then on_request info.request_number (Data.dial old) (size_of Struct.dial - size_ptr) info
      else dispatch_uus c2 address c2.t info

  -- Only the status of the last integer counts, and the texts are read after it.
  unfoldable pub dispatch_sim_io : Parcel → RequestInfo → Outcome
  dispatch_sim_io p info =
      let c1 = next_int32 api (start api p) in
      let c2 = next_int32 api c1 in
      let (path, c3) = next_string api c2 in
      let c4 = next_int32 api c3 in
      let c5 = next_int32 api c4 in
      let c6 = next_int32 api c5 in
      let (contents, c7) = next_string api c6 in
      let (pin2, c8) = next_string api c7 in
      if not c8.no_error
      then invalid
      else on_request info.request_number
          (Data.sim_io (record {
            command = c1.t;
            fileid = c2.t;
            path = path;
            p1 = c4.t;
            p2 = c5.t;
            p3 = c6.t;
            contents = contents;
            pin2 = pin2;
          }))
          (size_of Struct.sim_io) info

  unfoldable pub dispatch_call_forward : Parcel → RequestInfo → Outcome
  dispatch_call_forward p info =
      let c1 = next_int32 api (start api p) in
      let c2 = next_int32 api c1 in
      let c3 = next_int32 api c2 in
      let c4 = next_int32 api c3 in
      let (number, c5) = next_string api c4 in
      let c6 = next_int32 api c5 in
      if not c6.no_error
      then invalid
      else on_request info.request_number
          (Data.call_forward (record {
            status = c1.t;
            reason = c2.t;
            service_class = c3.t;
            toa = c4.t;
            number = empty_to_null number;
            time_seconds = c6.t;
          }))
          (size_of Struct.call_forward_info) info
