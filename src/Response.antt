-- ===== src/Response.antt =====
-- libril/ril.cpp, the response functions: each checks what the vendor library returned and marshals
-- it into the reply parcel. The result is the function's return value and the parcel, or `none`
-- where the source reads memory that is not there or of another type. Lengths are below 2^31, so
-- that the conversions from size_t to int change nothing. The functions of one structure are in
-- Single, those of arrays in Arrays, those of CDMA in Cdma.
pub mod Arrays
pub mod Single
pub mod Cdma
pub mod InfoRecords
pub mod Written
pub mod Refusing
pub mod CdmaRoundTrip
use rild_hisi.Common.{
  ℕ, zero, suc, Bool, true, false, not, ◌&&◌, ◌==◌, List, [], ◌∷◌, Option, none, some,
  if◌then◌else◌,
}
use rild_hisi.Common.Int.{ℤ, pos, negsuc}
use rild_hisi.Telephony.{Bytes, CString}
use rild_hisi.Telephony.Data
use rild_hisi.Telephony.Data.{Data}
use rild_hisi.Parcel.{Platform}

-- RIL_ERRNO_INVALID_RESPONSE
abbrev pub invalid_response : ℤ
invalid_response = negsuc 0

abbrev pub is_null : Data → Bool
is_null Data.null = true
is_null _ = false

-- response == NULL && responselen != 0
abbrev pub null_with_length : Data → ℕ → Bool
null_with_length response len = is_null response && not (len == 0)

-- The first `n` bytes at a pointer.
unfoldable pub bytes_at : ℕ → Bytes → Option Bytes
bytes_at zero bs = some []
bytes_at (suc n) [] = none
bytes_at (suc n) (b ∷ bs) = elim (bytes_at n bs) [ none ↦ none | some cs ↦ some (b ∷ cs) ]

-- for (i = 0; i < n; i++) write(array[i]), on an array of the given elements
unfoldable pub write_each : {A P : Type 0} → (A → P → P) → ℕ → List A → P → Option P
write_each f zero xs p = some p
write_each f (suc n) [] p = none
write_each f (suc n) (x ∷ xs) p = write_each f n xs (f x p)

module _ (api : Platform) where
  open api use {Parcel, write_int32, write_string16, strdup8to16}

  abbrev pub Reply : Type 0
  Reply = Option (ℤ × Parcel)

  abbrev pub refuse : Parcel → Reply
  refuse p = some (invalid_response, p)

  -- return 0
  abbrev pub done : Option Parcel → Reply
  done none = none
  done (some p) = some (pos 0, p)

  abbrev pub write_string_to_parcel : CString → Parcel → Parcel
  write_string_to_parcel s p = write_string16 (strdup8to16 s) p

  unfoldable pub response_void : Parcel → Data → ℕ → Reply
  response_void p response len = some (pos 0, p)

  unfoldable pub response_string : Parcel → Data → ℕ → Reply
  response_string p Data.null len = some (pos 0, write_string_to_parcel none p)
  response_string p (Data.text s) len = some (pos 0, write_string_to_parcel (some s) p)
  response_string p _ len = none
