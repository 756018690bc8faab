-- ===== src/Response/Written.antt =====
-- What a sequence of writes leaves in a parcel, for the theorems on the response functions.
pub mod Arrays
use native.Mathlib.Nat.{mul_comm}
use rild_hisi.Common.{
  ℕ, zero, suc, ◌≤◌, ◌<◌, ◌≡◌, refl, sym, ap, ◌∙◌, subst, Bool, true, false, List, [], ◌∷◌, ◌++◌,
  Option, none, some, arith, length, append-nil, append_assoc, take, map,
}
use rild_hisi.Common.Int.{ℤ, pos, negsuc}
use rild_hisi.Telephony.{Bytes, CString}
use rild_hisi.Parcel.{Platform, ParcelLaws, Item, items_of, int32, int64, string16, raw}
use rild_hisi.Response.{write_each, write_string_to_parcel}

module _ {api : Platform} (L : ParcelLaws api) where
  open api use {Parcel, write_int32, write_int64, write_string16, write}
  open L use {before, after}

  -- The items of a parcel whose position is at its end.
  pub record Holds (p : Parcel) (l : List Item) : Type 0 where
    pub written : before p ≡ l
    pub at_end : after p ≡ []

  -- `q` is `p` with the items appended.
  pub record Wrote (p q : Parcel) (items : List Item) : Type 0 where
    pub keeps : (l : List Item) → Holds p l → Holds q (l ++ items)

  pub Wrote-nil : (p : Parcel) → Wrote p p []
  Wrote-nil p = record { keeps = λ l h. rw append-nil h }

infixr 20 ◌⨾◌
pub ◌⨾◌ :
    {api : Platform} {L : ParcelLaws api} {p q r : api.Parcel} {a b : List Item}
    → Wrote L p q a
    → Wrote L q r b
    → Wrote L p r (a ++ b)
◌⨾◌ {L} {a} {b} v w = record {
  keeps = λ l h. subst (Holds L _) (append_assoc l a b) (w.keeps _ (v.keeps l h));
}

module _ {api : Platform} (L : ParcelLaws api) where
  open api use {Parcel, write_int32, write_int64, write_string16, write}

  pub Wrote-int32 : (v : ℤ) {p : Parcel} → Wrote L p (write_int32 v p) (int32 v ∷ [])
  Wrote-int32 v {p} = record {
    keeps = λ l h.
        let (b, a) = L.write-int32 v p h.at_end in
        record { written = b ∙ ap (λ m. m ++ int32 v ∷ []) h.written; at_end = a };
  }

  pub Wrote-int64 : (v : ℤ) {p : Parcel} → Wrote L p (write_int64 v p) (int64 v ∷ [])
  Wrote-int64 v {p} = record {
    keeps = λ l h.
        let (b, a) = L.write-int64 v p h.at_end in
        record { written = b ∙ ap (λ m. m ++ int64 v ∷ []) h.written; at_end = a };
  }

  pub Wrote-string :
      (s : CString) {p : Parcel}
      → Wrote L p (write_string_to_parcel api s p) (string16 (api.strdup8to16 s) ∷ [])
  Wrote-string s {p} = record {
    keeps = λ l h.
        let (b, a) = L.write-string16 (api.strdup8to16 s) p h.at_end in
        record {
          written = b ∙ ap (λ m. m ++ string16 (api.strdup8to16 s) ∷ []) h.written;
          at_end = a;
        };
  }

  pub Wrote-raw : (bs : Bytes) {p : Parcel} → Wrote L p (write bs p) (raw bs ∷ [])
  Wrote-raw bs {p} = record {
    keeps = λ l h.
        let (b, a) = L.write-raw bs p h.at_end in
        record { written = b ∙ ap (λ m. m ++ raw bs ∷ []) h.written; at_end = a };
  }

  -- A loop over the first `n` elements of an array that has them.
  pub write_each-Wrote :
      {A : Type 0} (f : A → Parcel → Parcel) (items : A → List Item)
      → ((x : A) (p : Parcel) → Wrote L p (f x p) (items x))
      → (n : ℕ) (xs : List A) (p : Parcel) → n ≤ length xs
      → (q : Parcel) × (write_each f n xs p ≡ some q) × Wrote L p q (items_of items (take n xs))
  unfolding write_each
  write_each-Wrote f items w zero xs p h = (p, refl, Wrote-nil L p)
  write_each-Wrote f items w (suc n) [] p h = elim h [ ]
  write_each-Wrote f items w (suc n) (x ∷ xs) p h =
      let (q, e, v) = write_each-Wrote f items w n xs (f x p) (omega arith) in (q, e, w x p ⨾ v)

  -- A loop that runs past the end of its array is undefined.
  pub write_each_past :
      {A : Type 0} (f : A → Parcel → Parcel) (n : ℕ) (xs : List A) (p : Parcel)
      → length xs < n
      → write_each f n xs p ≡ none
  unfolding write_each
  write_each_past f zero xs p h = absurd (omega arith)
  write_each_past f (suc n) [] p h = refl
  write_each_past f (suc n) (x ∷ xs) p h = write_each_past f n xs (f x p) (omega arith)
