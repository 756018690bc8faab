-- ===== src/Dispatch/Delivery.antt =====
-- What the dispatch functions of one record hand to the vendor library when the command block
-- carries the payload that the comment above the function documents.
use rild_hisi.Common.{ℕ, ◌≡◌, true, false, List, [], ◌∷◌, ◌++◌, some, arith, length, ◌≤◌, ltb}
use rild_hisi.Common.Int.{ℤ, pos}
use rild_hisi.Telephony.{Bytes, SimIo, CallForwardInfo}
use rild_hisi.Telephony.Data
use rild_hisi.Parcel.{Platform, ParcelLaws, Struct, Item, int32, string16, raw}
use rild_hisi.Dispatch.{RequestInfo, on_request}
use rild_hisi.Dispatch.Call.{dispatch_sim_io, dispatch_call_forward, dispatch_dial, empty_to_null}

-- The payload of RIL_REQUEST_SIM_IO as the comment of dispatchSIM_IO lists it.
abbrev pub sim_io_items : Platform → SimIo → List Item
sim_io_items api s =
    int32 s.command
    ∷ int32 s.fileid
    ∷ string16 (api.strdup8to16 s.path)
    ∷ int32 s.p1
    ∷ int32 s.p2
    ∷ int32 s.p3
    ∷ string16 (api.strdup8to16 s.contents)
    ∷ string16 (api.strdup8to16 s.pin2)
    ∷ []

new-version : (version : ℕ) → 3 ≤ version → ltb version 3 ≡ false
new-version version v = ground arith

module _ (api : Platform) (L : ParcelLaws api) where
  open api use {Parcel, size_of}
  open L use {after, is_text, to8-to16, read-int32, read-string16, read-raw}

  -- A SIM_IO request reaches the vendor library field by field.
  pub dispatch_sim_io-items :
      (p : Parcel) (info : RequestInfo) (s : SimIo) (r : List Item)
      → is_text s.path ≡ true
      → is_text s.contents ≡ true
      → is_text s.pin2 ≡ true
      → after p ≡ sim_io_items api s ++ r
      → dispatch_sim_io api p info
        ≡ on_request info.request_number (Data.sim_io s) (size_of Struct.sim_io) info
  unfolding dispatch_sim_io
  dispatch_sim_io-items p info s r t1 t2 t3 a0 =
      let (q1, e1, a1) = read-int32 p _ _ a0 in
      let (q2, e2, a2) = read-int32 q1 _ _ a1 in
      let (q3, e3, a3) = read-string16 q2 _ _ a2 in
      let (q4, e4, a4) = read-int32 q3 _ _ a3 in
      let (q5, e5, a5) = read-int32 q4 _ _ a4 in
      let (q6, e6, a6) = read-int32 q5 _ _ a5 in
      let (q7, e7, a7) = read-string16 q6 _ _ a6 in
      let (q8, e8, a8) = read-string16 q7 _ _ a7 in
      rw (
        e1,
        e2,
        e3,
        e4,
        e5,
        e6,
        e7,
        e8,
        to8-to16 s.path t1,
        to8-to16 s.contents t2,
        to8-to16 s.pin2 t3,
      )

  -- A call-forwarding request reaches the vendor library field by field, but for an empty number,
  -- which becomes NULL.
  pub dispatch_call_forward-items :
      (p : Parcel) (info : RequestInfo) (f : CallForwardInfo) (r : List Item)
      → is_text f.number ≡ true
      → after p
        ≡ int32 f.status
          ∷ int32 f.reason
          ∷ int32 f.service_class
          ∷ int32 f.toa
          ∷ string16 (api.strdup8to16 f.number)
          ∷ int32 f.time_seconds
          ∷ r
      → dispatch_call_forward api p info
        ≡ on_request info.request_number
            (Data.call_forward (record f { number = empty_to_null f.number }))
            (size_of Struct.call_forward_info)
            info
  unfolding dispatch_call_forward
  dispatch_call_forward-items p info f r t a0 =
      let (q1, e1, a1) = read-int32 p _ _ a0 in
      let (q2, e2, a2) = read-int32 q1 _ _ a1 in
      let (q3, e3, a3) = read-int32 q2 _ _ a2 in
      let (q4, e4, a4) = read-int32 q3 _ _ a3 in
      let (q5, e5, a5) = read-string16 q4 _ _ a4 in
      let (q6, e6, a6) = read-int32 q5 _ _ a5 in rw (e1, e2, e3, e4, e5, e6, to8-to16 f.number t)

  -- A dial request with User-User information, to a vendor library of version 3 or later.
  pub dispatch_dial-items :
      (version : ℕ) (p : Parcel) (info : RequestInfo) (number bytes : Bytes) (clir type dcs : ℤ)
      (r : List Item)
      → 3 ≤ version
      → is_text (some number) ≡ true
      → after p
        ≡ string16 (api.strdup8to16 (some number))
          ∷ int32 clir
          ∷ int32 (pos 1)
          ∷ int32 type
          ∷ int32 dcs
          ∷ int32 (pos (length bytes))
          ∷ raw bytes
          ∷ r
      → dispatch_dial api version p info
        ≡ on_request info.request_number
            (Data.dial (record {
              address = some number;
              clir = clir;
              uus_info = some (record {
                uus_type = type;
                uus_dcs = dcs;
                uus_length = pos (length bytes);
                uus_data = some bytes;
              });
            }))
            (size_of Struct.dial)
            info
  unfolding dispatch_dial
  dispatch_dial-items version p info number bytes clir type dcs r v t a0 =
      let (q1, e1, a1) = read-string16 p _ _ a0 in
      let (q2, e2, a2) = read-int32 q1 _ _ a1 in
      let (q3, e3, a3) = read-int32 q2 _ _ a2 in
      let (q4, e4, a4) = read-int32 q3 _ _ a3 in
      let (q5, e5, a5) = read-int32 q4 _ _ a4 in
      let (q6, e6, a6) = read-int32 q5 _ _ a5 in
      let (q7, e7, a7) = read-raw q6 _ _ a6 in
      rw (e1, e2, e3, e4, e5, e6, e7, to8-to16 (some number) t, new-version version v)
