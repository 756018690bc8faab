-- ===== src/ReferenceRil/Registration.antt =====
-- requestRegistrationState of reference-ril/reference-ril.c on the forms of answers that it
-- reads.
use rild_hisi.Common.{
  ℕ, suc, arith, ◌+◌, ◌^◌, ◌≤◌, ◌≡◌, refl, ap, ◌∙◌, List, [], ◌∷◌, ◌++◌, none, some,
}
use rild_hisi.Common.Int.{ℤ, negsuc, to_unsigned}
use rild_hisi.Telephony.{Bytes, CString}
use rild_hisi.AtTok.Fields.{tail_of, IsInt, field, at_tok_nextint-field, Lacks}
use rild_hisi.ReferenceRil.Lists.{count_commas}
use rild_hisi.AtTok.Fields.Hex.{
  hex_field, Lacks-field, Lacks-hex_field, at_tok_nexthexint-print_hex,
}
use rild_hisi.ReferenceRil.Query.{
  Command, Host, Result, ok, Query, and_then, next_int, next_hex_int, token,
}
use rild_hisi.ReferenceRil.Network.{Registration, registration, read_registration}

-- What a modem reports, by the number of values: stat, n, lac, cid and the network type.
pub data Report : Type 0 where
  stat_only : ℤ → Report
  with_n : ℤ → ℤ → Report
  located : ℤ → ℤ → ℤ → Report
  located_with_n : ℤ → ℤ → ℤ → ℤ → Report
  typed : ℤ → ℤ → ℤ → ℤ → ℤ → Report

abbrev pub located_text : ℕ → ℤ → ℤ → ℤ → Bytes
located_text k stat lac cid =
    field (k, stat)
    ++ tail_of (some (hex_field (k, lac) ++ tail_of (some (hex_field (k, cid) ++ tail_of none))))

-- The text behind the colon, with `k` spaces before each value.
abbrev pub report_text : ℕ → Report → Bytes
report_text k (stat_only stat) = field (k, stat) ++ tail_of none
report_text k (with_n n stat) = field (k, n) ++ tail_of (some (field (k, stat) ++ tail_of none))
report_text k (located stat lac cid) = located_text k stat lac cid
report_text k (located_with_n n stat lac cid) =
    field (k, n) ++ tail_of (some (located_text k stat lac cid))
report_text k (typed n stat lac cid type) =
    field (k, n)
    ++ tail_of (
        some (
          field (k, stat)
          ++ tail_of (
              some (
                hex_field (k, lac)
                ++ tail_of (
                    some (
                      hex_field (k, cid)
                      ++ tail_of (some (hex_field (k, type) ++ tail_of none))))))))

abbrev pub registration_of : Report → Registration
registration_of (stat_only stat) = registration stat (negsuc 0) (negsuc 0) none
registration_of (with_n n stat) = registration stat (negsuc 0) (negsuc 0) none
registration_of (located stat lac cid) = registration stat lac cid none
registration_of (located_with_n n stat lac cid) = registration stat lac cid none
registration_of (typed n stat lac cid type) = registration stat lac cid (some type)

abbrev pub commas : Report → ℕ
commas (stat_only stat) = 0
commas (with_n n stat) = 1
commas (located stat lac cid) = 2
commas (located_with_n n stat lac cid) = 3
commas (typed n stat lac cid type) = 4

-- A value that is printed in hexadecimal: an `int`, whose 32 bits `long` holds as a number.
abbrev pub IsHexInt : ℕ → ℤ → Type 0
IsHexInt long_max z = (to_unsigned (2 ^ 32) z ≤ long_max) × IsInt z

-- All values are of type `int`.
abbrev pub IsReport : ℕ → Report → Type 0
IsReport long_max (stat_only stat) = IsInt stat
IsReport long_max (with_n n stat) = IsInt n × IsInt stat
IsReport long_max (located stat lac cid) =
    IsInt stat × IsHexInt long_max lac × IsHexInt long_max cid
IsReport long_max (located_with_n n stat lac cid) =
    IsInt n × IsInt stat × IsHexInt long_max lac × IsHexInt long_max cid
IsReport long_max (typed n stat lac cid type) =
    IsInt n × IsInt stat × IsHexInt long_max lac × IsHexInt long_max cid × IsHexInt long_max type

count_commas-last : (w : Bytes) → Lacks b',' w → count_commas (w ++ tail_of none) ≡ 0
unfolding count_commas
count_commas-last [] h = refl
count_commas-last (c ∷ w) h = ground (arith, count_commas-last w h.1, h.0)

count_commas-field :
    (w r : Bytes) → Lacks b',' w → count_commas (w ++ tail_of (some r)) ≡ suc (count_commas r)
unfolding count_commas
count_commas-field [] r h = refl
count_commas-field (c ∷ w) r h = ground (arith, count_commas-field w r h.1, h.0)

count_commas-located : (k : ℕ) (stat lac cid : ℤ) → count_commas (located_text k stat lac cid) ≡ 2
count_commas-located k stat lac cid =
    count_commas-field _ _ (Lacks-field k stat)
    ∙ ap suc (
        count_commas-field _ _ (Lacks-hex_field k lac)
        ∙ ap suc (count_commas-last _ (Lacks-hex_field k cid)))

pub count_commas-report : (k : ℕ) (rep : Report) → count_commas (report_text k rep) ≡ commas rep
count_commas-report k (stat_only stat) = count_commas-last _ (Lacks-field k stat)
count_commas-report k (with_n n stat) =
    count_commas-field _ _ (Lacks-field k n) ∙ ap suc (count_commas-last _ (Lacks-field k stat))
count_commas-report k (located stat lac cid) = count_commas-located k stat lac cid
count_commas-report k (located_with_n n stat lac cid) =
    count_commas-field _ _ (Lacks-field k n) ∙ ap suc (count_commas-located k stat lac cid)
count_commas-report k (typed n stat lac cid type) =
    count_commas-field _ _ (Lacks-field k n)
    ∙ ap suc (
        count_commas-field _ _ (Lacks-field k stat)
        ∙ ap suc (
            count_commas-field _ _ (Lacks-hex_field k lac)
            ∙ ap suc (
                count_commas-field _ _ (Lacks-hex_field k cid)
                ∙ ap suc (count_commas-last _ (Lacks-hex_field k type)))))

pub then-ok :
    {A B : Type 0} {m : Result A} {a : A} {sent : List Command} (f : A → Query B)
    → m ≡ ok a sent
    → and_then m f ≡ f a sent
unfolding and_then
then-ok f e = ap (λ m. and_then m f) e

module _ (host : Host) (big : 2 ^ 31 ≤ host.long_max + 1) (k : ℕ) where
  int_field :
      (z : ℤ) (cur : CString) (sent : List Command)
      → IsInt z
      → next_int host (some (field (k, z) ++ tail_of cur)) sent ≡ ok (z, cur) sent
  int_field z cur sent h = ap (λ r. token r sent) (at_tok_nextint-field host.long_max k z cur big h)

  hex :
      (z : ℤ) (cur : CString) (sent : List Command)
      → IsHexInt host.long_max z
      → next_hex_int host (some (hex_field (k, z) ++ tail_of cur)) sent ≡ ok (z, cur) sent
  hex z cur sent h =
      ap (λ r. token r sent) (at_tok_nexthexint-print_hex host.long_max k z cur big h.0 h.1)

  pub read_registration-report :
      (rep : Report) (sent : List Command)
      → IsReport host.long_max rep
      → read_registration host (commas rep) (some (report_text k rep)) sent
        ≡ ok (registration_of rep) sent
  unfolding read_registration
  read_registration-report (stat_only stat) sent h = then-ok _ (int_field stat none sent h)
  read_registration-report (with_n n stat) sent h =
      then-ok _ (int_field n _ sent h.0) ∙ then-ok _ (int_field stat none sent h.1)
  read_registration-report (located stat lac cid) sent h =
      then-ok _ (int_field stat _ sent h.0)
      ∙ then-ok _ (hex lac _ sent h.1)
      ∙ then-ok _ (hex cid none sent h.2)
  read_registration-report (located_with_n n stat lac cid) sent h =
      then-ok _ (int_field n _ sent h.0)
      ∙ then-ok _ (int_field stat _ sent h.1)
      ∙ then-ok _ (hex lac _ sent h.2)
      ∙ then-ok _ (hex cid none sent h.3)
  read_registration-report (typed n stat lac cid type) sent h =
      then-ok _ (int_field n _ sent h.0)
      ∙ then-ok _ (int_field stat _ sent h.1)
      ∙ then-ok _ (hex lac _ sent h.2)
      ∙ then-ok _ (hex cid _ sent h.3)
      ∙ then-ok _ (hex type none sent h.4)
