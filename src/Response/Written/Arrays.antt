-- ===== src/Response/Written/Arrays.antt =====
-- The replies that carry arrays: a count, then the entries.
use rild_hisi.Common.{
  ℕ, ◌*◌, ◌/◌, ◌%◌, ◌==◌, ◌≤◌, ◌≡◌, ◌≢◌, refl, ap, true, List, [], ◌∷◌, some, arith, length, take,
  map,
}
use rild_hisi.Common.Int.{ℤ, pos}
use rild_hisi.Telephony.{
  CString, CallForwardInfo, DataCallResponse, GsmBroadcastSmsConfigInfo, CdmaBroadcastSmsConfigInfo,
}
use rild_hisi.Telephony.Data
use rild_hisi.Parcel.{Platform, ParcelLaws, Struct, Item, items_of, int32, string16}
use rild_hisi.Dispatch.Arrays.{string_items, int_items}
use rild_hisi.Response.{Reply, write_string_to_parcel}
use rild_hisi.Response.Arrays.{
  write_array, response_ints, response_strings, response_call_forwards, write_call_forward,
  response_data_call_list, write_data_call, response_gsm_br_sms_cnf, write_gsm_config,
  response_cdma_br_sms_cnf, write_cdma_config,
}
use rild_hisi.Response.Written.{Wrote, ◌⨾◌, Wrote-int32, Wrote-string, write_each-Wrote}

take-length : {A : Type 0} (xs : List A) → take (length xs) xs ≡ xs
take-length [] = refl
take-length (x ∷ xs) = ap (◌∷◌ x) (take-length xs)

le-length : {A : Type 0} (xs : List A) → length xs ≤ length xs
le-length xs = omega arith

mul-mod_self : (k n : ℕ) → ((k * n % k) == 0) ≡ true
mul-mod_self k n = grind arith

mul-div_self : (k n : ℕ) → k ≢ 0 → k * n / k ≡ n
mul-div_self k n h = grind arith

counted_le : (a b n : ℕ) → b ≢ 0 → a ≤ b → a * n / b ≤ n
counted_le a b n h le = grind arith

abbrev pub call_forward_items : Platform → CallForwardInfo → List Item
call_forward_items api f =
    int32 f.status
    ∷ int32 f.reason
    ∷ int32 f.service_class
    ∷ int32 f.toa
    ∷ string16 (api.strdup8to16 f.number)
    ∷ int32 f.time_seconds
    ∷ []

abbrev pub data_call_items : Platform → DataCallResponse → List Item
data_call_items api c =
    int32 c.cid
    ∷ int32 c.active
    ∷ string16 (api.strdup8to16 c.type)
    ∷ string16 (api.strdup8to16 c.apn)
    ∷ string16 (api.strdup8to16 c.address)
    ∷ []

abbrev pub gsm_config_items : GsmBroadcastSmsConfigInfo → List Item
gsm_config_items c =
    int32 c.from_service_id
    ∷ int32 c.to_service_id
    ∷ int32 c.from_code_scheme
    ∷ int32 c.to_code_scheme
    ∷ int32 (pos c.selected)
    ∷ []

abbrev pub cdma_config_items : CdmaBroadcastSmsConfigInfo → List Item
cdma_config_items c = int32 c.service_category ∷ int32 c.language ∷ int32 (pos c.selected) ∷ []

items_of-map : {A : Type 0} (g : A → Item) (xs : List A) → items_of (λ x. g x ∷ []) xs ≡ map g xs
items_of-map g [] = refl
items_of-map g (x ∷ xs) = ap (◌∷◌ (g x)) (items_of-map g xs)

module _ {api : Platform} (L : ParcelLaws api) where
  open api use {Parcel, write_int32, size_int, size_ptr, size_of}

  -- `reply` succeeds, and has appended the items to `p`.
  abbrev pub Appends : Parcel → Reply api → List Item → Type 0
  Appends p reply items = (q : Parcel) × (reply ≡ some (pos 0, q)) × Wrote L p q items

  write_array-Appends :
      {A : Type 0} (f : A → Parcel → Parcel) (items : A → List Item)
      → ((x : A) (p : Parcel) → Wrote L p (f x p) (items x))
      → (num : ℕ) (xs : List A) (p : Parcel) → num ≤ length xs
      → Appends p (write_array api f num xs p) (int32 (pos num) ∷ items_of items (take num xs))
  write_array-Appends f items w num xs p h =
      let (q, e, v) = write_each-Wrote L f items w num xs (write_int32 (pos num) p) h in
      (q, rw e, Wrote-int32 L (pos num) ⨾ v)

  whole_array :
      {A : Type 0} (f : A → Parcel → Parcel) (items : A → List Item)
      → ((x : A) (p : Parcel) → Wrote L p (f x p) (items x))
      → (k : ℕ) (xs : List A) (p : Parcel) → k ≢ 0
      → Appends p
          (write_array api f (k * length xs / k) xs p)
          (int32 (pos (length xs)) ∷ items_of items xs)
  whole_array f items w k xs p h = rw (mul-div_self k (length xs) h) (
      let (q, e, v) = write_array-Appends f items w (length xs) xs p (le-length xs) in
      (q, e, rw (take-length xs) at v))

  -- An array of strings is marshalled as its length and its strings.
  pub response_strings-Appends :
      (p : Parcel) (ss : List CString)
      → size_ptr ≢ 0
      → Appends p
          (response_strings api p (Data.strings ss) (size_ptr * length ss))
          (int32 (pos (length ss)) ∷ string_items api ss)
  unfolding response_strings
  response_strings-Appends p ss h =
      rw (mul-mod_self size_ptr (length ss), ← items_of-map (λ s. string16 (api.strdup8to16 s)) ss)
        (whole_array (write_string_to_parcel api) _ (λ s p. Wrote-string L s) size_ptr ss p h)

  -- Where an int is no longer than a pointer, responseInts counts and marshals as many of the integers
  -- that it is given as `len / sizeof(int *)`, the first of them, and drops the others.
  pub response_ints-Appends :
      (p : Parcel) (vs : List ℤ)
      → size_ptr ≢ 0
      → size_int ≤ size_ptr
      → let num = size_int * length vs / size_ptr in
        Appends p
          (response_ints api p (Data.ints vs) (size_int * length vs))
          (int32 (pos num) ∷ int_items (take num vs))
  unfolding response_ints
  response_ints-Appends p vs some_size short =
      let h = counted_le size_int size_ptr (length vs) some_size short in
      rw
        (
          mul-mod_self size_int (length vs),
          ← items_of-map int32 (take (size_int * length vs / size_ptr) vs),
        )
        (write_array-Appends write_int32 _ (λ v p. Wrote-int32 L v) _ vs p h)

  -- A call-forwarding list is marshalled as its length and its entries.
  pub response_call_forwards-Appends :
      (p : Parcel) (fs : List CallForwardInfo)
      → size_ptr ≢ 0
      → Appends p
          (response_call_forwards api p (Data.call_forwards fs) (size_ptr * length fs))
          (int32 (pos (length fs)) ∷ items_of (call_forward_items api) fs)
  unfolding response_call_forwards
  response_call_forwards-Appends p fs h = rw (mul-mod_self size_ptr (length fs)) (
      whole_array (write_call_forward api) _
        (λ f p.
          Wrote-int32 L f.status
          ⨾ Wrote-int32 L f.reason
          ⨾ Wrote-int32 L f.service_class
          ⨾ Wrote-int32 L f.toa
          ⨾ Wrote-string L f.number
          ⨾ Wrote-int32 L f.time_seconds)
        size_ptr fs p h)

  -- A data-call list, an array of structures, is marshalled as its length and its entries.
  pub response_data_call_list-Appends :
      (p : Parcel) (cs : List DataCallResponse)
      → size_of Struct.data_call_response ≢ 0
      → Appends p
          (response_data_call_list api p
            (Data.data_calls cs)
            (size_of Struct.data_call_response * length cs))
          (int32 (pos (length cs)) ∷ items_of (data_call_items api) cs)
  unfolding response_data_call_list
  response_data_call_list-Appends p cs h =
      rw (mul-mod_self (size_of Struct.data_call_response) (length cs)) (
        whole_array (write_data_call api) _
          (λ c p.
            Wrote-int32 L c.cid
            ⨾ Wrote-int32 L c.active
            ⨾ Wrote-string L c.type
            ⨾ Wrote-string L c.apn
            ⨾ Wrote-string L c.address)
          (size_of Struct.data_call_response) cs p h)

  -- A list of GSM broadcast configurations is marshalled as its length and its entries.
  pub response_gsm_br_sms_cnf-Appends :
      (p : Parcel) (cs : List GsmBroadcastSmsConfigInfo)
      → size_ptr ≢ 0
      → Appends p
          (response_gsm_br_sms_cnf api p (Data.gsm_configs cs) (size_ptr * length cs))
          (int32 (pos (length cs)) ∷ items_of gsm_config_items cs)
  unfolding response_gsm_br_sms_cnf
  response_gsm_br_sms_cnf-Appends p cs h =
      whole_array (write_gsm_config api) _
        (λ c p.
          Wrote-int32 L c.from_service_id
          ⨾ Wrote-int32 L c.to_service_id
          ⨾ Wrote-int32 L c.from_code_scheme
          ⨾ Wrote-int32 L c.to_code_scheme
          ⨾ Wrote-int32 L (pos c.selected))
        size_ptr cs p h

  -- A list of CDMA broadcast configurations is marshalled as its length and its entries.
  pub response_cdma_br_sms_cnf-Appends :
      (p : Parcel) (cs : List CdmaBroadcastSmsConfigInfo)
      → size_ptr ≢ 0
      → Appends p
          (response_cdma_br_sms_cnf api p (Data.cdma_configs cs) (size_ptr * length cs))
          (int32 (pos (length cs)) ∷ items_of cdma_config_items cs)
  unfolding response_cdma_br_sms_cnf
  response_cdma_br_sms_cnf-Appends p cs h =
      whole_array (write_cdma_config api) _
        (λ c p.
          Wrote-int32 L c.service_category
          ⨾ Wrote-int32 L c.language
          ⨾ Wrote-int32 L (pos c.selected))
        size_ptr cs p h
