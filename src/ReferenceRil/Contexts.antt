-- ===== src/ReferenceRil/Contexts.antt =====
-- The contexts that requestDataCallList of reference-ril/reference-ril.c reports.
use rild_hisi.Common.{◌≡◌, refl, ap, List, [], ◌∷◌, map, Bool-cases, inl, inr, subst}
use rild_hisi.Common.Int.{ℤ, ◌==ℤ◌}
use rild_hisi.Telephony.{Bytes, CString, DataCallResponse}
use rild_hisi.ReferenceRil.Query.{Command, Host, Result, ok, err, fault, Query, and_then}
use rild_hisi.ReferenceRil.DataCalls.{
  update_context, knows_context, detail_texts, detail_line, detail_lines,
}

abbrev pub key : DataCallResponse → ℤ × ℤ
key c = (c.cid, c.active)

abbrev pub keys : List DataCallResponse → List (ℤ × ℤ)
keys cs = map key cs

update_context-keys :
    (cid : ℤ) (f : DataCallResponse → DataCallResponse) (cs : List DataCallResponse)
    → ((c : DataCallResponse) → key (f c) ≡ key c)
    → keys (update_context cid f cs) ≡ keys cs
unfolding update_context
update_context-keys cid f [] h = refl
update_context-keys cid f (c ∷ cs) h = elim (Bool-cases (c.cid ==ℤ cid)) [
  | inl found ↦ rw found (ap (λ k. k ∷ keys cs) (h c))
  | inr other ↦ rw other (ap (λ ks. key c ∷ ks) (update_context-keys cid f cs h))
]

-- What a query yields, if it does not go to `error`.
abbrev pub Yields : {A : Type 0} → (A → Type 0) → Result A → Type 0
Yields P (ok a sent) = P a
Yields P (err sent) = Unit
Yields P fault = Unit

pub then-Yields :
    {A B : Type 0} (Q : B → Type 0) (r : Result A) (f : A → Query B)
    → ((a : A) (sent : List Command) → Yields Q (f a sent))
    → Yields Q (and_then r f)
unfolding and_then
then-Yields Q (ok a sent) f h = h a sent
then-Yields Q (err sent) f h = tt
then-Yields Q fault f h = tt

pub and_then-Yields :
    {A B : Type 0} (P : A → Type 0) (Q : B → Type 0) (r : Result A) (f : A → Query B)
    → Yields P r
    → ((a : A) (sent : List Command) → P a → Yields Q (f a sent))
    → Yields Q (and_then r f)
unfolding and_then
and_then-Yields P Q (ok a sent) f h hf = hf a sent h
and_then-Yields P Q (err sent) f h hf = tt
and_then-Yields P Q fault f h hf = tt

-- The same contexts
abbrev pub Keeps : List DataCallResponse → List DataCallResponse → Type 0
Keeps cs cs' = keys cs' ≡ keys cs

module _ (host : Host) where
  detail_texts-Keeps :
      (cid : ℤ) (cur : CString) (cs : List DataCallResponse) (sent : List Command)
      → Yields (Keeps cs) (detail_texts host cid cur cs sent)
  unfolding detail_texts
  detail_texts-Keeps cid cur cs sent = then-Yields _ _ _ λ (a, cur1) s.
      then-Yields _ _ _
        λ (b, cur2) s. then-Yields _ _ _ λ (c, end) s. update_context-keys cid _ cs λ c. refl

  detail_line-Keeps :
      (line : Bytes) (cs : List DataCallResponse) (sent : List Command)
      → Yields (Keeps cs) (detail_line host line cs sent)
  unfolding detail_line
  detail_line-Keeps line cs sent = then-Yields _ _ _ λ cur s. then-Yields _ _ _ λ (cid, cur1) s.
      elim (Bool-cases (knows_context cid cs)) [
        | inl known ↦ rw known (detail_texts-Keeps cid cur1 cs s)
        | inr unknown ↦ rw unknown refl
      ]

  pub detail_lines-Keeps :
      (lines : List Bytes) (cs : List DataCallResponse) (sent : List Command)
      → Yields (Keeps cs) (detail_lines host lines cs sent)
  unfolding detail_lines
  detail_lines-Keeps [] cs sent = refl
  detail_lines-Keeps (line ∷ lines) cs sent =
      and_then-Yields (Keeps cs) (Keeps cs) (detail_line host line cs sent)
        (detail_lines host lines) (detail_line-Keeps line cs sent)
        λ next s kept.
          subst (λ ks. Yields (λ cs'. keys cs' ≡ ks) (detail_lines host lines next s)) kept
            (detail_lines-Keeps lines next s)
