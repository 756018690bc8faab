-- ===== src/Parcel/Typed.antt =====
-- A platform to run examples on: a parcel of typed items with a position, and LP64 sizes.
use rild_hisi.Common.{
  ℕ, ◌≡◌, refl, ap, true, false, List, [], ◌∷◌, ◌++◌, Option, some, none, length, ◌^◌, ◌==◌,
  if◌then◌else◌, take, drop, append-nil, ==_iff,
}
use rild_hisi.Common.Int.{ℤ, pos, negsuc, ◌==ℤ◌}
use rild_hisi.Telephony.{Bytes}
use rild_hisi.Parcel.{Got, got, Platform, ParcelLaws, Struct, Item, int32, int64, string16, raw}

pub record TypedParcel : Type 0 where
  pub before : List Item
  pub after : List Item

abbrev at : List Item → List Item → TypedParcel
at b a = record { before = b; after = a }

failed : {A : Type 0} → A → TypedParcel → Got TypedParcel A
failed t p = record { value = t; no_error = false; rest = p }

pub take_int32 : ℤ → List Item → List Item → Got TypedParcel ℤ
unfolding failed
take_int32 t b (int32 v ∷ r) = got v (at (b ++ int32 v ∷ []) r)
take_int32 t b [] = failed t (at b [])
take_int32 t b (i ∷ r) = failed t (at b (i ∷ r))

take_byte : ℕ → List Item → List Item → Got TypedParcel ℕ
unfolding failed
take_byte t b (raw (v ∷ []) ∷ r) = got v (at (b ++ raw (v ∷ []) ∷ []) r)
take_byte t b r = failed t (at b r)

take_string16 : List Item → List Item → Option Bytes × TypedParcel
take_string16 b (string16 s ∷ r) = (s, at (b ++ string16 s ∷ []) r)
take_string16 b r = (none, at b r)

pub take_raw : ℤ → List Item → List Item → Option Bytes × TypedParcel
take_raw n b (raw bs ∷ r) =
    if n ==ℤ pos (length bs) then (some bs, at (b ++ raw bs ∷ []) r) else (none, at b (raw bs ∷ r))
take_raw n b r = (none, at b r)

-- Written over what stands there, if anything does.
pub put : Item → TypedParcel → TypedParcel
put i p = at (p.before ++ i ∷ []) (drop 1 p.after)

move_to : ℕ → TypedParcel → TypedParcel
move_to n p = at (take n (p.before ++ p.after)) (drop n (p.before ++ p.after))

word : ℤ → List ℕ
word (pos n) = 0 ∷ n ∷ []
word (negsuc n) = 1 ∷ n ∷ []

marshal : List Item → Bytes
unfolding word
marshal [] = []
marshal (int32 v ∷ r) = word v ++ marshal r
marshal (int64 v ∷ r) = word v ++ marshal r
marshal (string16 none ∷ r) = 2 ∷ marshal r
marshal (string16 (some s) ∷ r) = 3 ∷ (s ++ marshal r)
marshal (raw bs ∷ r) = bs ++ marshal r

-- The numbers of a command block, two by two.
unmarshal : Bytes → List Item
unmarshal (s ∷ n ∷ r) = int32 (if s == 0 then pos n else negsuc n) ∷ unmarshal r
unmarshal _ = []

size : Struct → ℕ
size Struct.dial = 24
size Struct.cdma_sms_message = 380
size Struct.cdma_sms_write_args = 384
size Struct.cdma_signal_info_record = 4
size Struct.signal_strength = 28
size Struct.cdma_sms_ack = 8
size Struct.data_call_response = 32
size Struct.supp_svc_notification = 24
size Struct.call_forward_info = 32
size Struct.sim_io = 48
size Struct.card_status = 408
size _ = 16

unfoldable pub typed : Platform
unfolding take_int32 take_byte take_string16 take_raw put move_to marshal unmarshal size
typed = record {
  Parcel = TypedParcel;
  empty = at [] [];
  set_data = λ bs. at [] (unmarshal bs);
  read_int32 = λ t p. take_int32 t p.before p.after;
  read_byte = λ t p. take_byte t p.before p.after;
  read_string16_inplace = λ p. take_string16 p.before p.after;
  read_inplace = λ n p. take_raw n p.before p.after;
  write_int32 = λ v. put (int32 v);
  write_int64 = λ v. put (int64 v);
  write_string16 = λ s. put (string16 s);
  write = λ bs. put (raw bs);
  data_position = λ p. length p.before;
  set_data_position = move_to;
  contents = λ p. marshal (p.before ++ p.after);
  strndup16to8 = λ s. s;
  strdup8to16 = λ s. s;
  uninit = pos 77;
  uninit_byte = 77;
  size_t_values = 2 ^ 64;
  size_int = 4;
  size_ptr = 8;
  size_of = size;
}

pub take-length : (b r : List Item) → take (length b) (b ++ r) ≡ b
take-length [] r = refl
take-length (i ∷ b) r = ap (◌∷◌ i) (take-length b r)

pub drop-length : (b r : List Item) → drop (length b) (b ++ r) ≡ r
drop-length [] r = refl
drop-length (i ∷ b) r = drop-length b r

pub take_raw-length :
    (b r : List Item) (bs : Bytes)
    → take_raw (pos (length bs)) b (raw bs ∷ r) ≡ (some bs, at (b ++ raw bs ∷ []) r)
unfolding take_raw
take_raw-length b r bs = rw ((==_iff (length bs) (length bs)).1 refl)

pub after-put : (i : Item) (p : TypedParcel) → p.after ≡ [] → (put i p).after ≡ []
unfolding put
after-put i p e = rw e

pub after-put_over :
    (i j : Item) (p : TypedParcel) (m : List Item) → p.after ≡ j ∷ m → (put i p).after ≡ m
unfolding put
after-put_over i j p m e = rw e

unfoldable pub typed_laws : ParcelLaws typed
unfolding typed
typed_laws = record {
  before = λ p. p.before;
  after = λ p. p.after;
  before-empty = refl;
  after-empty = refl;
  read-int32 = λ p v r e. (at (p.before ++ int32 v ∷ []) r, (λ t. rw e), refl);
  read-byte = λ p b r e. (at (p.before ++ raw (b ∷ []) ∷ []) r, (λ t. rw e), refl);
  read-string16 = λ p s r e. (at (p.before ++ string16 s ∷ []) r, rw e, refl);
  read-raw =
      λ p bs r e. (at (p.before ++ raw bs ∷ []) r, rw e (take_raw-length p.before r bs), refl);
  read-int32_end = λ t p e. rw e;
  write-int32 = λ v p e. (refl, after-put (int32 v) p e);
  write-int64 = λ v p e. (refl, after-put (int64 v) p e);
  write-string16 = λ s p e. (refl, after-put (string16 s) p e);
  write-raw = λ bs p e. (refl, after-put (raw bs) p e);
  rewind = λ q p m e h. (
    rw (e, h, append-nil) (take-length q.before m),
    rw (e, h, append-nil) (drop-length q.before m),
  );
  overwrite-int32 = λ v u p m e. (refl, after-put_over (int32 v) (int32 u) p m e);
  is_text = λ s. true;
  to8-to16 = λ s t. refl;
}
