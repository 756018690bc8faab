-- ===== src/Dispatch/CdmaItems.antt =====
-- The format of a CDMA message in a command block, and how dispatchCdmaSms of libril/ril.cpp reads
-- it.
use rild_hisi.Common.{
  ℕ, zero, suc, ◌+◌, ◌≤◌, min, ◌≡◌, refl, sym, ◌∙◌, true, List, [], ◌∷◌, ◌++◌, some, arith, length,
  replicate, take, drop, append_assoc, length-take, length-append,
}
use rild_hisi.Telephony.{
  CdmaSmsAddress, CdmaSmsSubaddress, CdmaSmsMessage, address_max, subaddress_max, bearer_data_max,
}
use rild_hisi.Telephony.Data
use rild_hisi.Parcel.{Platform, ParcelLaws, Struct, Item, items_of, int32, byte}
use rild_hisi.Dispatch.{RequestInfo, on_request, Cursor}
use rild_hisi.Dispatch.CdmaSms.{
  store, fill, digit_limit, read_address, read_subaddress, read_message, dispatch_cdma_sms,
}
use rild_hisi.Dispatch.Bounds.{IsSized, length-replicate, digit_limit-le}

abbrev pub byte_items : List ℕ → List Item
byte_items = items_of λ b. byte b ∷ []

abbrev pub address_items : CdmaSmsAddress → List Item
address_items a =
    int32 a.digit_mode
    ∷ int32 a.number_mode
    ∷ int32 a.number_type
    ∷ int32 a.number_plan
    ∷ byte a.number_of_digits
    ∷ byte_items (take (min a.number_of_digits address_max) a.digits)

abbrev pub subaddress_items : CdmaSmsSubaddress → List Item
subaddress_items a =
    int32 a.subaddress_type
    ∷ byte a.odd
    ∷ byte a.number_of_digits
    ∷ byte_items (take (min a.number_of_digits subaddress_max) a.digits)

-- The format of a message: of each array only the elements that its count announces.
abbrev pub message_items : CdmaSmsMessage → List Item
message_items m =
    int32 m.teleservice_id
    ∷ byte m.is_service_present
    ∷ int32 m.servicecategory
    ∷ (address_items m.address
        ++ (subaddress_items m.subaddress
            ++ int32 m.bearer_data_len
              ∷ byte_items (take (digit_limit m.bearer_data_len bearer_data_max) m.bearer_data)))

-- The first `n` elements of an array of `size`, and zeros behind them.
abbrev pub cleared : ℕ → ℕ → List ℕ → List ℕ
cleared size n xs = take n xs ++ drop (length (take n xs)) (replicate size 0)

-- The message with zeros in each array behind the elements that its count announces.
abbrev pub cleared_message : CdmaSmsMessage → CdmaSmsMessage
cleared_message m = record m {
  address = record a { digits = cleared address_max (min a.number_of_digits address_max) a.digits };
  subaddress = record s {
    digits = cleared subaddress_max (min s.number_of_digits subaddress_max) s.digits;
  };
  bearer_data =
      cleared bearer_data_max (digit_limit m.bearer_data_len bearer_data_max) m.bearer_data;
}
  where
    open m use {address as a, subaddress as s}

store-append :
    (pre post : List ℕ) (x v : ℕ) → store (pre ++ x ∷ post) (length pre) v ≡ some (pre ++ v ∷ post)
unfolding store
store-append [] post x v = refl
store-append (y ∷ pre) post x v = rw (store-append pre post x v)

module _ {api : Platform} (L : ParcelLaws api) where
  open api use {Parcel, size_of}
  open L use {after, read-int32, read-byte}

  fill_items :
      (bs pre post : List ℕ) (n i : ℕ) (c : Cursor api) (r : List Item)
      → n ≡ length bs
      → i ≡ length pre
      → length bs ≤ length post
      → c.no_error ≡ true
      → after c.rest ≡ byte_items bs ++ r
      → (c' : Cursor api) × (fill api n i (pre ++ post) c
          ≡ some (pre ++ (bs ++ drop (length bs) post), c'))
        × (c'.no_error ≡ true)
        × (after c'.rest ≡ r)
  unfolding fill
  fill_items [] pre post zero i c r n-is i-is fits ok a = (c, refl, ok, a)
  fill_items [] pre post (suc n) i c r n-is i-is fits ok a = absurd (omega arith)
  fill_items (b ∷ bs) pre post zero i c r n-is i-is fits ok a = absurd (omega arith)
  fill_items (b ∷ bs) pre [] (suc n) i c r n-is i-is fits ok a = absurd (omega arith)
  fill_items (b ∷ bs) pre (x ∷ post) (suc n) i c r n-is i-is fits ok a =
      let (q, e, a') = read-byte c.rest _ _ a in
      let c1 : Cursor api = record { t = c.t; ut = b; no_error = true; rest = q } in
      let (c', e', ok', a'') =
        fill_items bs (pre ++ b ∷ []) post n (i + 1) c1 r (omega arith)
          (omega (arith, length-append pre (b ∷ []))) (omega arith) refl a' in
      (
        c',
        rw (e, i-is, store-append pre post x b)
            (rw (← i-is, ← append_assoc pre (b ∷ []) post) (e' ∙ rw (append_assoc pre (b ∷ [])))),
        ok',
        a'',
      )

  -- The loop from the start of a cleared array.
  fill-cleared :
      (size n : ℕ) (xs : List ℕ) (c : Cursor api) (r : List Item)
      → n ≤ size
      → size ≡ length xs
      → c.no_error ≡ true
      → after c.rest ≡ byte_items (take n xs) ++ r
      → (c' : Cursor api) × (fill api n 0 (replicate size 0) c ≡ some (cleared size n xs, c'))
        × (c'.no_error ≡ true)
        × (after c'.rest ≡ r)
  fill-cleared size n xs c r le is ok a =
      fill_items (take n xs) [] (replicate size 0) n 0 c r (omega (arith, length-take n xs)) refl
        (omega (arith, length-take n xs, length-replicate size)) ok a

  read_address_items :
      (a : CdmaSmsAddress) (c : Cursor api) (r : List Item)
      → length a.digits ≡ address_max
      → after c.rest ≡ address_items a ++ r
      → (c' : Cursor api) × (read_address api (λ n. min n address_max) c
          ≡ some (
            record a { digits = cleared address_max (min a.number_of_digits address_max) a.digits },
            c',
          ))
        × (c'.no_error ≡ true)
        × (after c'.rest ≡ r)
  unfolding read_address
  read_address_items a c r s h =
      let (q1, e1, a1) = read-int32 c.rest _ _ h in
      let (q2, e2, a2) = read-int32 q1 _ _ a1 in
      let (q3, e3, a3) = read-int32 q2 _ _ a2 in
      let (q4, e4, a4) = read-int32 q3 _ _ a3 in
      let (q5, e5, a5) = read-byte q4 _ _ a4 in
      let c5 : Cursor api = record {
        t = a.number_plan;
        ut = a.number_of_digits;
        no_error = true;
        rest = q5;
      } in
      let (c6, e6, ok, a6) =
        fill-cleared address_max (min a.number_of_digits address_max) a.digits c5 r (omega arith)
          (sym s) refl a5 in
      (c6, rw (e1, e2, e3, e4, e5, e6), ok, a6)

  read_subaddress_items :
      (a : CdmaSmsSubaddress) (c : Cursor api) (r : List Item)
      → length a.digits ≡ subaddress_max
      → after c.rest ≡ subaddress_items a ++ r
      → (c' : Cursor api) × (read_subaddress api (λ n. min n subaddress_max) c
          ≡ some (
            record a {
              digits = cleared subaddress_max (min a.number_of_digits subaddress_max) a.digits;
            },
            c',
          ))
        × (c'.no_error ≡ true)
        × (after c'.rest ≡ r)
  unfolding read_subaddress
  read_subaddress_items a c r s h =
      let (q1, e1, a1) = read-int32 c.rest _ _ h in
      let (q2, e2, a2) = read-byte q1 _ _ a1 in
      let (q3, e3, a3) = read-byte q2 _ _ a2 in
      let c3 : Cursor api = record {
        t = a.subaddress_type;
        ut = a.number_of_digits;
        no_error = true;
        rest = q3;
      } in
      let (c4, e4, ok, a4) =
        fill-cleared subaddress_max (min a.number_of_digits subaddress_max) a.digits c3 r
          (omega arith) (sym s) refl a3 in
      (c4, rw (e1, e2, e3, e4), ok, a4)

  -- A command block with the items of a message delivers that message, with zeros behind the
  -- elements that the counts announce.
  pub dispatch_cdma_sms-items :
      (p : Parcel) (info : RequestInfo) (m : CdmaSmsMessage) (r : List Item)
      → IsSized m
      → after p ≡ message_items m ++ r
      → dispatch_cdma_sms api p info
        ≡ on_request info.request_number
            (Data.cdma_sms_message (cleared_message m))
            (size_of Struct.cdma_sms_message)
            info
  unfolding dispatch_cdma_sms read_message
  dispatch_cdma_sms-items p info m r s h =
      let lim = digit_limit m.bearer_data_len bearer_data_max in
      let bearer = byte_items (take lim m.bearer_data) in
      let tail = int32 m.bearer_data_len ∷ bearer in
      let (q1, e1, a1) = read-int32 p _ _ h in
      let (q2, e2, a2) = read-byte q1 _ _ a1 in
      let (q3, e3, a3) = read-int32 q2 _ _ a2 in
      let c3 : Cursor api = record {
        t = m.servicecategory;
        ut = m.is_service_present;
        no_error = true;
        rest = q3;
      } in
      let (c4, e4, ok4, a4) =
        read_address_items m.address c3 _ s.address
          (a3 ∙ append_assoc (address_items m.address) _ r) in
      let (c5, e5, ok5, a5) =
        read_subaddress_items m.subaddress c4 _ s.subaddress
          (a4 ∙ append_assoc (subaddress_items m.subaddress) tail r) in
      let (q6, e6, a6) = read-int32 c5.rest _ _ a5 in
      let c6 : Cursor api = record {
        t = m.bearer_data_len;
        ut = c5.ut;
        no_error = true;
        rest = q6;
      } in
      let (c7, e7, ok7, a7) =
        fill-cleared bearer_data_max lim m.bearer_data c6 r (digit_limit-le m.bearer_data_len)
          (sym s.bearer_data) refl a6 in
      rw (e1, e2, e3, e4, e5, e6, e7, ok7)
