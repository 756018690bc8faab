-- ===== src/ReferenceRil/Answering.antt =====
-- How often the actions of reference-ril/reference-ril.c complete a request.
use rild_hisi.Common.{
  ℕ, ◌+◌, ◌≤◌, ◌≡◌, refl, sym, ap, ◌∙◌, List, [], ◌∷◌, ◌++◌, Option, none, some, arith, All, length,
  ◌==◌, ==_iff, Bool-cases, inl, inr, append_assoc, length-append, ◌*◌, subst, ◌>>=◌,
}
use rild_hisi.Telephony.{CString}
use rild_hisi.Telephony.Data.{Data}
use rild_hisi.ReferenceRil.Lists
use rild_hisi.ReferenceRil.Lists.{Completion, Completions}
use rild_hisi.ReferenceRil.Completing.{IsCompleted}
use rild_hisi.ReferenceRil.Query.{Host, Result, ok, err, fault, Query}
use rild_hisi.ReferenceRil.State.{Completed, Ril, Action, settle, settle_result, complete}
use rild_hisi.ReferenceRil.DataCalls.{complete_all, complete_each, complete_texts_with}
use rild_hisi.ReferenceRil.OnRequest.{Case, select}

-- The action completed the token t, and no other, from `lo` to `hi` times.
abbrev pub CompletedTimes : ℕ → ℕ → ℕ → Ril → Ril → Type 0
CompletedTimes lo hi t w w' =
    (cs : List Completed) × (w'.completions ≡ cs ++ w.completions)
    × All (λ c. c.token ≡ t) cs
    × (lo ≤ length cs)
    × (length cs ≤ hi)

abbrev pub Outcome : ℕ → ℕ → ℕ → Ril → Option Ril → Type 0
Outcome lo hi t w none = Unit
Outcome lo hi t w (some w') = CompletedTimes lo hi t w w'

-- The same, wherever it starts, if nothing is undefined.
abbrev pub Completes : ℕ → ℕ → ℕ → Action → Type 0
Completes lo hi t f = (w : Ril) → Outcome lo hi t w (f w)

module _ (lo hi t : ℕ) where
  pub complete-Completes :
      (e n : ℕ) (d : Data) → lo ≤ 1 → 1 ≤ hi → Completes lo hi t (λ w. some (complete t e d n w))
  complete-Completes e n d low high w =
      (record { token = t; error = e; response = d; length = n } ∷ [], refl, (refl, tt), low, high)

  -- Twice in a row
  pub complete_twice-Completes :
      (e e' n n' : ℕ) (d d' : Data)
      → lo ≤ 2
      → 2 ≤ hi
      → Completes lo hi t (λ w. some (complete t e d n (complete t e' d' n' w)))
  complete_twice-Completes e e' n n' d d' low high w = (
    record { token = t; error = e; response = d; length = n }
        ∷ record { token = t; error = e'; response = d'; length = n' }
        ∷ [],
    refl,
    (refl, (refl, tt)),
    low,
    high,
  )

  settle_result-Completes :
      {A : Type 0} (r : Result A) (k : A → Action) (e : Action)
      → ((a : A) → Completes lo hi t (k a))
      → Completes lo hi t e
      → Completes lo hi t (settle_result r k e)
  settle_result-Completes (ok a sent) k e hk he w = hk a (record w { sent = sent })
  settle_result-Completes (err sent) k e hk he w = he (record w { sent = sent })
  settle_result-Completes fault k e hk he w = tt

  -- A query completes nothing.
  pub settle-Completes :
      {A : Type 0} (q : Query A) (k : A → Action) (e : Action)
      → ((a : A) → Completes lo hi t (k a))
      → Completes lo hi t e
      → Completes lo hi t (settle q k e)
  unfolding settle
  settle-Completes q k e hk he w = settle_result-Completes (q w.sent) k e hk he w

All-tokens :
    (t : ℕ) (cs ds : List Completed)
    → All (λ c. c.token ≡ t) cs
    → All (λ c. c.token ≡ t) ds
    → All (λ c. c.token ≡ t) (cs ++ ds)
All-tokens t [] ds hc hd = hd
All-tokens t (c ∷ cs) ds hc hd = (hc.0, All-tokens t cs ds hc.1 hd)

-- Only the completions matter.
pub same-Outcome :
    (lo hi t : ℕ) (w w' : Ril) (r : Option Ril)
    → w.completions ≡ w'.completions
    → Outcome lo hi t w r
    → Outcome lo hi t w' r
same-Outcome lo hi t w w' none same h = tt
same-Outcome lo hi t w w' (some w'') same (cs, e, tokens, low, high) =
    (cs, e ∙ ap (λ l. cs ++ l) same, tokens, low, high)

-- One thing after the other
pub then-CompletedTimes :
    (w w' w'' : Ril) {a b a' b' lo hi t : ℕ}
    → lo ≤ a + a'
    → b + b' ≤ hi
    → CompletedTimes a b t w w'
    → CompletedTimes a' b' t w' w''
    → CompletedTimes lo hi t w w''
then-CompletedTimes w w' w'' {t = t} le ge (cs, e, tokens, low, high)
      (ds, e', tokens', low', high') =
    (
      ds ++ cs,
      e' ∙ ap (λ l. ds ++ l) e ∙ sym (append_assoc ds cs w.completions),
      All-tokens t ds cs tokens' tokens,
      omega (arith, length-append ds cs),
      omega (arith, length-append ds cs),
    )

-- What completes nothing can stand before what completes the request.
pub bind-Outcome :
    (lo hi t : ℕ) (w : Ril) (m : Option Ril) (f : Action)
    → Outcome 0 0 t w m
    → Completes lo hi t f
    → Outcome lo hi t w (m >>= f)
bind-Outcome lo hi t w none f hm hf = tt
bind-Outcome lo hi t w (some w') f hm hf = move (f w') (hf w')
  where
    move : (r : Option Ril) → Outcome lo hi t w' r → Outcome lo hi t w r
    move none h = tt
    move (some w'') h =
        then-CompletedTimes w w' w'' {lo = lo} {hi = hi} (omega arith) (omega arith) hm h

one_text-Completes :
    (host : Host) (t e : ℕ) (w : Ril) (m : Option (List CString))
    → CompletedTimes 1 1 t w (complete_texts_with host t (record { error = e; texts = m }) w)
one_text-Completes host t e w none =
    complete-Completes 1 1 t e 0 Data.null (omega arith) (omega arith) w
one_text-Completes host t e w (some ts) =
    complete-Completes 1 1 t e (length ts * host.platform.size_ptr) (Data.strings ts) (omega arith)
      (omega arith) w

complete_each-Completes :
    (host : Host) (t : ℕ) (cs : List Completion) (w : Ril)
    → CompletedTimes (length cs) (length cs) t w (complete_each host t cs w)
unfolding complete_each
complete_each-Completes host t [] w = ([], refl, tt, omega arith, omega arith)
complete_each-Completes host t (c ∷ cs) w =
    let w' = complete_texts_with host t c w in
    then-CompletedTimes w w' (complete_each host t cs w') (omega arith) (omega arith)
      (one_text-Completes host t c.error w c.texts) (complete_each-Completes host t cs w')

pub complete_all-Completes :
    (lo hi : ℕ) (host : Host) (t n : ℕ) (cs : Completions)
    → lo ≤ n
    → n ≤ hi
    → IsCompleted n cs
    → Completes lo hi t (complete_all host t cs)
complete_all-Completes lo hi host t n Lists.fault low high h w = tt
complete_all-Completes lo hi host t n (Lists.completed cs) low high h w =
    let (xs, e, tokens, le, ge) = complete_each-Completes host t cs w in
    (xs, e, tokens, omega arith, omega arith)

pub select-Completes :
    (least most : ℕ → ℕ) (t request : ℕ) (cases : List Case) (default : Action)
    → All (λ c. Completes (least c.0) (most c.0) t c.1) cases
    → Completes (least request) (most request) t default
    → Completes (least request) (most request) t (select request cases default)
unfolding select
select-Completes least most t request [] default h hd = hd
select-Completes least most t request ((label, body) ∷ cases) default h hd =
    elim (Bool-cases (request == label)) [
      | inl same ↦
          let e : label ≡ request = sym ((==_iff request label).0 same) in
          rw same (subst (λ n. Completes (least n) (most n) t body) e h.0)
      | inr other ↦ rw other (select-Completes least most t request cases default h.1 hd)
    ]
