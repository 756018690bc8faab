-- ===== src/Dispatch.antt =====
-- libril/ril.cpp, the dispatch functions: each reads the payload of a request from its parcel and
-- calls `onRequest` of the vendor library. The parcel is a value, so that what follows the call,
-- the clearing and freeing of the buffers, has no counterpart.
pub mod Call
pub mod Broadcast
pub mod CdmaSms
pub mod Delivery
pub mod Arrays
pub mod Bounds
pub mod CdmaItems
use rild_hisi.Common.{
  ℕ, zero, suc, ◌*◌, ◌%◌, Bool, true, false, List, [], ◌∷◌, Option, none, some, if◌then◌else◌, not,
  ◌||◌, ◌>>=◌,
}
use rild_hisi.Common.Int.{ℤ, pos, negsuc, ◌==ℤ◌, to_ℕ, to_unsigned}
use rild_hisi.Telephony.{Bytes, CString}
use rild_hisi.Telephony.Data
use rild_hisi.Telephony.Data.{Data}
use rild_hisi.Parcel.{Got, Platform}

-- `id` is the address of the structure, which is the RIL_Token; `request_number` is that of `pCI`.
pub record RequestInfo : Type 0 where
  pub id : ℕ
  pub token : ℤ
  pub request_number : ℕ
  pub cancelled : Bool
  pub local : Bool

-- What a dispatch function does: it calls `onRequest` with these arguments, or reports an invalid
-- command block. `fault` stands for undefined behaviour.
pub data Outcome : Type 0 where
  on_request : ℕ → Data → ℕ → RequestInfo → Outcome
  invalid fault : Outcome

abbrev pub or_fault : Option Outcome → Outcome
or_fault none = fault
or_fault (some o) = o

-- The pointer behind a text or a byte array.
abbrev pub text_of : CString → Data
text_of none = Data.null
text_of (some s) = Data.text s

abbrev pub raw_of : Option Bytes → Data
raw_of none = Data.null
raw_of (some bs) = Data.raw bs

module _ (api : Platform) where
  open api use {
    Parcel, read_int32, read_byte, read_string16_inplace, read_inplace, strndup16to8, uninit,
    uninit_byte, size_t_values, size_ptr, size_int,
  }

  -- The locals `t`, `ut` and `status` of a dispatch function, with the parcel.
  pub record Cursor : Type 0 where
    pub t : ℤ
    pub ut : ℕ
    pub no_error : Bool
    pub rest : Parcel

  abbrev pub start : Parcel → Cursor
  start p = record { t = uninit; ut = uninit_byte; no_error = false; rest = p }

  -- status = p.readInt32(&t)
  abbrev pub next_int32 : Cursor → Cursor
  next_int32 c =
      let g = read_int32 c.t c.rest in
      record { t = g.value; ut = c.ut; no_error = g.no_error; rest = g.rest }

  -- status = p.read(&ut, sizeof(ut))
  abbrev pub next_byte : Cursor → Cursor
  next_byte c =
      let g = read_byte c.ut c.rest in
      record { t = c.t; ut = g.value; no_error = g.no_error; rest = g.rest }

  abbrev pub strdup_read_string : Parcel → CString × Parcel
  strdup_read_string p = let (s16, q) = read_string16_inplace p in (strndup16to8 s16, q)

  -- The text that stands next, and the cursor behind it: neither `t` nor `status` changes.
  abbrev pub next_string : Cursor → CString × Cursor
  next_string c = let (s, q) = strdup_read_string c.rest in (s, record c { rest = q })

  -- `n * sizeof(…)` in size_t
  abbrev pub size_t_mul : ℕ → ℤ → ℕ
  size_t_mul size n = size * to_unsigned size_t_values n % size_t_values

  unfoldable pub dispatch_void : Parcel → RequestInfo → Outcome
  dispatch_void p info = on_request info.request_number Data.null 0 info

  unfoldable pub dispatch_string : Parcel → RequestInfo → Outcome
  dispatch_string p info =
      on_request info.request_number (text_of (strdup_read_string p).0) size_ptr info

  -- for (i = 0; i < countStrings; i++) pStrings[i] = strdupReadString(p)
  unfoldable pub read_strings : ℕ → Parcel → List CString
  read_strings zero p = []
  read_strings (suc n) p = let (s, q) = strdup_read_string p in s ∷ read_strings n q

  unfoldable pub dispatch_strings : Parcel → RequestInfo → Outcome
  unfolding read_strings
  dispatch_strings p info =
      let c = next_int32 (start p) in
      let count = c.t in
      if not c.no_error
      then invalid
      else if count ==ℤ pos 0
      then on_request info.request_number (Data.strings []) 0 info
      else if count ==ℤ negsuc 0
      then on_request info.request_number Data.null 0 info
      else on_request info.request_number (Data.strings (read_strings (to_ℕ count) c.rest))
          (size_t_mul size_ptr count) info

  -- The loop of dispatchInts, which gives up at the first read that fails.
  unfoldable pub read_ints : ℕ → Parcel → Option (List ℤ)
  read_ints zero p = some []
  read_ints (suc n) p =
      let g = read_int32 uninit p in
      let later = read_ints n g.rest in
      if not g.no_error then none else later >>= λ vs. some (g.value ∷ vs)

  -- A negative count reads nothing, and its byte count wraps around.
  unfoldable pub dispatch_ints : Parcel → RequestInfo → Outcome
  unfolding read_ints
  dispatch_ints p info =
      let c = next_int32 (start p) in
      let ints = read_ints (to_ℕ c.t) c.rest in
      if not c.no_error || c.t ==ℤ pos 0 then invalid else elim ints [
        | none ↦ invalid
        | some vs ↦ on_request info.request_number (Data.ints vs) (size_t_mul size_int c.t) info
      ]

  unfoldable pub dispatch_raw : Parcel → RequestInfo → Outcome
  dispatch_raw p info =
      let c = next_int32 (start p) in
      let len = if c.t ==ℤ negsuc 0 then pos 0 else c.t in
      if not c.no_error
      then invalid
      else on_request info.request_number (raw_of (read_inplace len c.rest).0)
          (to_unsigned size_t_values len) info
