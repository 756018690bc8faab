-- ===== src/Daemon/Reply.antt =====
-- The packets that RIL_onRequestComplete of libril/ril.cpp builds.
use rild_hisi.Common.{
  ℕ, ◌≡◌, refl, sym, subst, ap, ◌∙◌, false, List, [], ◌∷◌, some, ◌++◌, get_elem?,
}
use rild_hisi.Common.Int.{ℤ, pos, negsuc}
use rild_hisi.Telephony.Data.{Data}
use rild_hisi.Parcel.{Platform, ParcelLaws, Item, int32}
use rild_hisi.Dispatch.{RequestInfo}
use rild_hisi.Response.{is_null}
use rild_hisi.Response.Written.{Holds, Wrote, ◌⨾◌, Wrote-int32, Wrote-nil}
use rild_hisi.Response.Written.Arrays.{Appends}
use rild_hisi.Commands.{CommandInfo, call_response}
use rild_hisi.Response.Refusing.{IsClean, call_response-IsClean, commands-is_solicited}
use rild_hisi.Commands.Tables.{commands}
use rild_hisi.Daemon.Replies.{build_reply, solicited_header, response_function_of}

-- The fixed part of a solicited response: RESPONSE_SOLICITED, the request, the token, the result.
abbrev pub reply_header : RequestInfo → ℤ → List Item
reply_header info e =
    int32 (pos 0) ∷ int32 (pos info.request_number) ∷ int32 info.token ∷ int32 e ∷ []

module _ {api : Platform} (L : ParcelLaws api) where
  open api use {Parcel, empty, write_int32, set_data_position, data_position}
  open L use {before, after}

  header-Wrote :
      (info : RequestInfo) (e : ℤ)
      → Wrote L empty (write_int32 e (solicited_header api info)) (reply_header info e)
  header-Wrote info e =
      Wrote-int32 L (pos 0)
      ⨾ Wrote-int32 L (pos info.request_number)
      ⨾ Wrote-int32 L info.token
      ⨾ Wrote-int32 L e

  empty-Holds : Holds L empty []
  empty-Holds = record { written = L.before-empty; at_end = L.after-empty }

  -- A reply without payload carries the header and two zeros, whatever the request and its result.
  pub build_reply_null :
      (version : ℕ) (info : RequestInfo) (e : ℤ) (len : ℕ)
      → (w : Parcel) × (build_reply api version info e Data.null len ≡ some w)
        × Holds L w (reply_header info e ++ int32 (pos 0) ∷ int32 (pos 0) ∷ [])
  unfolding build_reply
  build_reply_null version info e len = (
    _,
    refl,
    (header-Wrote info e ⨾ Wrote-int32 L (pos 0) ⨾ Wrote-int32 L (pos 0)).keeps [] empty-Holds,
  )

  -- A reply whose payload the response function marshals carries the header, with the result that
  -- the vendor library gave, and then the payload.
  pub build_reply_payload :
      (version : ℕ) (info : RequestInfo) (e : ℤ) (response : Data) (len : ℕ) (items : List Item)
      → is_null response ≡ false
      → ((p : Parcel)
          → Appends L p
              (call_response api (response_function_of info) version p response len)
              items)
      → (w : Parcel) × (build_reply api version info e response len ≡ some w)
        × Holds L w (reply_header info e ++ items)
  unfolding build_reply
  build_reply_payload version info e response len items some_data marshals =
      let (q, done, v) = marshals (write_int32 e (solicited_header api info)) in
      (q, rw (some_data, done), (header-Wrote info e ⨾ v).keeps [] empty-Holds)

  -- The error stands in place of the result, and what was marshalled by then stays behind it.
  build_reply_error :
      (version : ℕ) (info : RequestInfo) (e : ℤ) (response : Data) (len n : ℕ) (q : Parcel)
      (items : List Item)
      → is_null response ≡ false
      → let p = write_int32 e (solicited_header api info) in
        call_response api (response_function_of info) version p response len ≡ some (negsuc n, q)
        → Wrote L (write_int32 e (solicited_header api info)) q items
        → (w : Parcel) × (build_reply api version info e response len ≡ some w)
          × (before w ≡ reply_header info (negsuc n))
          × (after w ≡ items)
  unfolding build_reply
  build_reply_error version info e response len n q items some_data refuses v =
      let start = solicited_header api info in
      let h3 =
        (Wrote-int32 L (pos 0)
            ⨾ Wrote-int32 L (pos info.request_number)
            ⨾ Wrote-int32 L info.token).keeps
          [] empty-Holds in
      let h5 = (header-Wrote info e ⨾ v).keeps [] empty-Holds in
      let (back, ahead) =
        L.rewind start q (int32 e ∷ items) h5.at_end
          (h5.written ∙ ap (λ l. l ++ int32 e ∷ items) (sym h3.written)) in
      let (b, a) = L.overwrite-int32 (negsuc n) e _ items ahead in
      (_, rw (some_data, refuses), b ∙ ap (λ l. l ++ int32 (negsuc n) ∷ []) (back ∙ h3.written), a)

  -- Where the response function of a request in s_commands refuses the payload, the packet is the
  -- header, with its error in place of the result, and nothing else: the vendor library's result is
  -- written over, and nothing of the payload is in the packet.
  pub build_reply_refused :
      (version : ℕ) (info : RequestInfo) (ci : CommandInfo) (e : ℤ) (response : Data) (len n : ℕ)
      (q : Parcel)
      → is_null response ≡ false
      → get_elem? commands info.request_number ≡ some ci
      → let p = write_int32 e (solicited_header api info) in
        call_response api ci.response_function version p response len ≡ some (negsuc n, q)
        → (w : Parcel) × (build_reply api version info e response len ≡ some w)
          × Holds L w (reply_header info (negsuc n))
  unfolding response_function_of
  build_reply_refused version info ci e response len n q some_data row refuses =
      let p = write_int32 e (solicited_header api info) in
      let clean : q ≡ p = subst (IsClean api p) refuses (
        call_response-IsClean api ci.response_function version p response len
          (commands-is_solicited info.request_number ci row)) in
      let (w, done, b, a) =
        build_reply_error version info e response len n q [] some_data (rw row refuses)
          (rw clean (Wrote-nil L p)) in
      (w, done, record { written = b; at_end = a })
