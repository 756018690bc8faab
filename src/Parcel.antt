-- ===== src/Parcel.antt =====
-- What libril takes from outside this repository: android::Parcel (binder), the UTF-16 conversions
-- of cutils, and the sizes that the compiler fixes. `Platform` is the interface and `ParcelLaws`
-- the documented behaviour of Parcel that theorems rely on.
pub mod Typed
use rild_hisi.Common.{ℕ, ◌≡◌, Bool, true, false, List, [], ◌∷◌, ◌++◌, Option, some, length}
use rild_hisi.Common.Int.{ℤ, pos}
use rild_hisi.Telephony.{Bytes, CString}

-- The result of `status = p.read…(&t)`: the new contents of `t`, whether the status is NO_ERROR,
-- and the parcel with its position moved.
pub record Got (Parcel A : Type 0) : Type 0 where
  pub value : A
  pub no_error : Bool
  pub rest : Parcel

abbrev pub got : {Parcel A : Type 0} → A → Parcel → Got Parcel A
got v p = record { value = v; no_error = true; rest = p }

-- The structures whose size the code asks for.
pub data Struct : Type 0 where
  sms_write_args dial sim_io call_forward_info cdma_sms_message cdma_sms_ack : Struct
  cdma_sms_write_args sms_response data_call_response sim_io_response : Struct
  supp_svc_notification signal_strength cdma_signal_info_record cdma_call_waiting : Struct
  cdma_information_records card_status : Struct

pub record Platform : Type 1 where
  pub Parcel : Type 0
  pub empty : Parcel
  pub set_data : Bytes → Parcel
  -- The contents of `t` before the call are an argument: a read that fails leaves them.
  pub read_int32 : ℤ → Parcel → Got Parcel ℤ
  pub read_byte : ℕ → Parcel → Got Parcel ℕ
  -- readString16Inplace, NULL for a null string or an error
  pub read_string16_inplace : Parcel → Option Bytes × Parcel
  pub read_inplace : ℤ → Parcel → Option Bytes × Parcel
  pub write_int32 : ℤ → Parcel → Parcel
  pub write_int64 : ℤ → Parcel → Parcel
  pub write_string16 : Option Bytes → Parcel → Parcel
  pub write : Bytes → Parcel → Parcel
  pub data_position : Parcel → ℕ
  pub set_data_position : ℕ → Parcel → Parcel
  -- data() with dataSize()
  pub contents : Parcel → Bytes
  pub strndup16to8 : Option Bytes → CString
  pub strdup8to16 : CString → Option Bytes
  -- What an uninitialised `int32_t` and `uint8_t` hold.
  pub uninit : ℤ
  pub uninit_byte : ℕ
  -- The number of values of `size_t`.
  pub size_t_values : ℕ
  pub size_int : ℕ
  pub size_ptr : ℕ
  -- `sizeof` of a structure of ril.h
  pub size_of : Struct → ℕ

-- One value as it was written. `string16` holds UTF-16 units or the null string, `raw` the bytes of
-- one call of write.
pub data Item : Type 0 where
  int32 int64 : ℤ → Item
  string16 : Option Bytes → Item
  raw : Bytes → Item

abbrev pub byte : ℕ → Item
byte b = raw (b ∷ [])

-- The items of each element, one after the other.
abbrev pub items_of : {A : Type 0} → (A → List Item) → List A → List Item
items_of f [] = []
items_of f (x ∷ xs) = f x ++ items_of f xs

-- `before` and `after` tell the items on the two sides of the position. They are a view for
-- theorems: the code never asks for them.
pub record ParcelLaws (api : Platform) : Type 0 where
  pub before : api.Parcel → List Item
  pub after : api.Parcel → List Item
  pub before-empty : before api.empty ≡ []
  pub after-empty : after api.empty ≡ []
  -- Reading in the order and with the types of writing gives back what was written.
  pub read-int32 :
      (p : api.Parcel) (v : ℤ) (r : List Item)
      → after p ≡ int32 v ∷ r
      → (q : api.Parcel) × ((t : ℤ) → api.read_int32 t p ≡ got v q) × (after q ≡ r)
  pub read-byte :
      (p : api.Parcel) (b : ℕ) (r : List Item)
      → after p ≡ byte b ∷ r
      → (q : api.Parcel) × ((t : ℕ) → api.read_byte t p ≡ got b q) × (after q ≡ r)
  pub read-string16 :
      (p : api.Parcel) (s : Option Bytes) (r : List Item)
      → after p ≡ string16 s ∷ r
      → (q : api.Parcel) × (api.read_string16_inplace p ≡ (s, q)) × (after q ≡ r)
  pub read-raw :
      (p : api.Parcel) (bs : Bytes) (r : List Item)
      → after p ≡ raw bs ∷ r
      → (q : api.Parcel) × (api.read_inplace (pos (length bs)) p ≡ (some bs, q)) × (after q ≡ r)
  -- At the end a read fails (NOT_ENOUGH_DATA).
  pub read-int32_end :
      (t : ℤ) (p : api.Parcel) → after p ≡ [] → (api.read_int32 t p).no_error ≡ false
  -- A write at the end appends.
  pub write-int32 :
      (v : ℤ) (p : api.Parcel)
      → after p ≡ []
      → (before (api.write_int32 v p) ≡ before p ++ int32 v ∷ [])
        × (after (api.write_int32 v p) ≡ [])
  pub write-int64 :
      (v : ℤ) (p : api.Parcel)
      → after p ≡ []
      → (before (api.write_int64 v p) ≡ before p ++ int64 v ∷ [])
        × (after (api.write_int64 v p) ≡ [])
  pub write-string16 :
      (s : Option Bytes) (p : api.Parcel)
      → after p ≡ []
      → (before (api.write_string16 s p) ≡ before p ++ string16 s ∷ [])
        × (after (api.write_string16 s p) ≡ [])
  pub write-raw :
      (bs : Bytes) (p : api.Parcel)
      → after p ≡ []
      → (before (api.write bs p) ≡ before p ++ raw bs ∷ []) × (after (api.write bs p) ≡ [])
  -- Going back to the position that `q` has, after the items of `q`, and writing over an int32.
  pub rewind :
      (q p : api.Parcel) (m : List Item)
      → after p ≡ []
      → before p ≡ before q ++ m
      → (before (api.set_data_position (api.data_position q) p) ≡ before q)
        × (after (api.set_data_position (api.data_position q) p) ≡ m)
  pub overwrite-int32 :
      (v u : ℤ) (p : api.Parcel) (m : List Item)
      → after p ≡ int32 u ∷ m
      → (before (api.write_int32 v p) ≡ before p ++ int32 v ∷ [])
        × (after (api.write_int32 v p) ≡ m)
  -- The two conversions undo one another on text that is valid.
  pub is_text : CString → Bool
  pub to8-to16 : (s : CString) → is_text s ≡ true → api.strndup16to8 (api.strdup8to16 s) ≡ s
