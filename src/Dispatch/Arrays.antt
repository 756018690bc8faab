-- ===== src/Dispatch/Arrays.antt =====
-- dispatchStrings and dispatchInts: command blocks that carry a count and an array.
use native.Mathlib.Nat.{mod-eq_of_lt, mul-zero}
use rild_hisi.Common.{
  ℕ, zero, suc, ◌*◌, ◌<◌, ◌≡◌, refl, true, List, [], ◌∷◌, ◌++◌, none, some, arith, ◌≢◌, length, map,
  All, ap,
}
use rild_hisi.Common.Int.{ℤ, pos, suc-ne-zero}
use rild_hisi.Telephony.{CString}
use rild_hisi.Telephony.Data
use rild_hisi.Parcel.{Platform, ParcelLaws, Item, int32, string16}
use rild_hisi.Dispatch.{
  RequestInfo, on_request, invalid, read_strings, dispatch_strings, read_ints, dispatch_ints,
  size_t_mul,
}

abbrev pub string_items : Platform → List CString → List Item
string_items api = map λ s. string16 (api.strdup8to16 s)

abbrev pub int_items : List ℤ → List Item
int_items = map int32

module _ (api : Platform) where
  -- Without overflow the byte count is the product.
  size_t_mul-pos :
      (size n : ℕ)
      → size ≢ 0
      → size * n < api.size_t_values
      → size_t_mul api size (pos n) ≡ size * n
  size_t_mul-pos zero n h lt = absurd (h refl)
  size_t_mul-pos (suc size) n h lt =
      rw (mod-eq_of_lt {n = n} {m = api.size_t_values} (grind arith)) (mod-eq_of_lt lt)

module _ (api : Platform) (L : ParcelLaws api) where
  open api use {Parcel, size_ptr, size_int, size_t_values, uninit}
  open L use {after, is_text, to8-to16, read-int32, read-string16, read-int32_end}

  read_strings-items :
      (ss : List CString) (p : Parcel) (r : List Item)
      → All (λ s. is_text s ≡ true) ss
      → after p ≡ string_items api ss ++ r
      → read_strings api (length ss) p ≡ ss
  unfolding read_strings
  read_strings-items [] p r t a = refl
  read_strings-items (s ∷ ss) p r t a =
      let (q, e, a') = read-string16 p _ _ a in
      rw (e, to8-to16 s t.0) (ap (◌∷◌ s) (read_strings-items ss q r t.1 a'))

  -- An array of strings of any length reaches the vendor library whole, with its size in bytes.
  pub dispatch_strings-items :
      (p : Parcel) (info : RequestInfo) (ss : List CString) (r : List Item)
      → size_ptr ≢ 0
      → size_ptr * length ss < size_t_values
      → All (λ s. is_text s ≡ true) ss
      → after p ≡ int32 (pos (length ss)) ∷ (string_items api ss ++ r)
      → dispatch_strings api p info
        ≡ on_request info.request_number (Data.strings ss) (size_ptr * length ss) info
  unfolding dispatch_strings
  dispatch_strings-items p info [] r h lt t a =
      let (q, e, a') = read-int32 p _ _ a in rw (e, mul-zero size_ptr)
  dispatch_strings-items p info (s ∷ ss) r h lt t a =
      let (q, e, a') = read-int32 p _ _ a in
      rw (e, suc-ne-zero (length ss), read_strings-items (s ∷ ss) q r t a')
        (rw (size_t_mul-pos api size_ptr (length (s ∷ ss)) h lt))

  read_ints-items :
      (vs : List ℤ) (p : Parcel) (r : List Item)
      → after p ≡ int_items vs ++ r
      → read_ints api (length vs) p ≡ some vs
  unfolding read_ints
  read_ints-items [] p r a = refl
  read_ints-items (v ∷ vs) p r a =
      let (q, e, a') = read-int32 p _ _ a in rw (e, read_ints-items vs q r a')

  read_ints_short :
      (vs : List ℤ) (n : ℕ) (p : Parcel)
      → length vs < n
      → after p ≡ int_items vs
      → read_ints api n p ≡ none
  unfolding read_ints
  read_ints_short vs zero p lt a = absurd (omega arith)
  read_ints_short [] (suc n) p lt a = rw (read-int32_end uninit p a)
  read_ints_short (v ∷ vs) (suc n) p lt a =
      let (q, e, a') = read-int32 p _ _ a in rw (e, read_ints_short vs n q (omega arith) a')

  -- An array of integers of any positive length reaches the vendor library whole, with its size in
  -- bytes.
  pub dispatch_ints-items :
      (p : Parcel) (info : RequestInfo) (vs : List ℤ) (r : List Item)
      → size_int ≢ 0
      → size_int * length vs < size_t_values
      → vs ≢ []
      → after p ≡ int32 (pos (length vs)) ∷ (int_items vs ++ r)
      → dispatch_ints api p info
        ≡ on_request info.request_number (Data.ints vs) (size_int * length vs) info
  unfolding dispatch_ints
  dispatch_ints-items p info [] r h lt ne a = absurd (ne refl)
  dispatch_ints-items p info (v ∷ vs) r h lt ne a =
      let (q, e, a') = read-int32 p _ _ a in
      rw (e, suc-ne-zero (length vs), read_ints-items (v ∷ vs) q r a')
        (rw e (rw (size_t_mul-pos api size_int (length (v ∷ vs)) h lt)))

  -- A command block with fewer integers than its count announces is refused: the vendor library is
  -- not called.
  pub dispatch_ints_short :
      (p : Parcel) (info : RequestInfo) (vs : List ℤ) (n : ℕ)
      → length vs < n
      → after p ≡ int32 (pos n) ∷ int_items vs
      → dispatch_ints api p info ≡ invalid
  unfolding dispatch_ints
  dispatch_ints_short p info vs zero lt a = absurd (omega arith)
  dispatch_ints_short p info vs (suc n) lt a =
      let (q, e, a') = read-int32 p _ _ a in
      rw (e, suc-ne-zero n, read_ints_short vs (suc n) q lt a')
