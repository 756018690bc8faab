-- ===== src/ReferenceRil/Marshalling.antt =====
-- Whether RIL_onRequestComplete of libril/ril.cpp can marshal what reference-ril/reference-ril.c
-- completes a request with.
use rild_hisi.Common.{
  ℕ, ◌≡◌, refl, List, [], ◌∷◌, Option, none, some, All, get_elem?, Bool-cases, inl, inr, ◌==◌,
  ==_iff, sym, ◌>>=◌,
}
use rild_hisi.Common.Int.{pos}
use rild_hisi.Telephony.Data.{Data}
use rild_hisi.Parcel.{Platform}
use rild_hisi.Dispatch.{RequestInfo}
use rild_hisi.Response.{is_null}
use rild_hisi.Commands.{ResponseFunction, call_response}
use rild_hisi.Commands.Tables.{commands}
use rild_hisi.Daemon.Replies.{response_function_of, build_reply}
use rild_hisi.ReferenceRil.Query.{Command, Result, ok, err, fault, Query}
use rild_hisi.ReferenceRil.State.{Completed, Ril, Action, settle, settle_result, complete}
use rild_hisi.ReferenceRil.Contexts.{Yields}
use rild_hisi.ReferenceRil.OnRequest.{Case, select}

abbrev pub IsDefined : {A : Type 0} → Option A → Type 0
IsDefined none = ⊥
IsDefined (some a) = Unit

-- The reply can be built from what the request was completed with.
abbrev pub Marshals : Platform → ℕ → RequestInfo → Completed → Type 0
Marshals api version info c =
    IsDefined (build_reply api version info (pos c.error) c.response c.length)

abbrev pub EachMarshals : Platform → ℕ → RequestInfo → Option Ril → Type 0
EachMarshals api version info none = Unit
EachMarshals api version info (some w) = All (Marshals api version info) w.completions

-- Where every completion can be marshalled, so it is behind the action, if nothing is undefined.
abbrev pub Replies : Platform → ℕ → RequestInfo → Action → Type 0
Replies api version info f =
    (w : Ril) → All (Marshals api version info) w.completions → EachMarshals api version info (f w)

-- The response function of a request
abbrev pub function_at : ℕ → ResponseFunction
function_at request = elim (get_elem? commands request) [
  | none ↦ ResponseFunction.null
  | some ci ↦ ci.response_function
]

function-response_function_of :
    (info : RequestInfo) → response_function_of info ≡ function_at info.request_number
unfolding response_function_of
function-response_function_of info = refl

bind-IsDefined :
    {A B : Type 0} (m : Option A) (f : A → B) → IsDefined m → IsDefined (m >>= λ a. some (f a))
bind-IsDefined none f h = h
bind-IsDefined (some a) f h = tt

module _ (api : Platform) (version : ℕ) (info : RequestInfo) where
  pub null-Marshals :
      (t e n : ℕ)
      → Marshals api version info
          (record { token = t; error = e; response = Data.null; length = n })
  unfolding build_reply
  null-Marshals t e n = tt

  pub payload-Marshals :
      (f : ResponseFunction) (t e n : ℕ) (d : Data)
      → function_at info.request_number ≡ f
      → ((v : ℕ) (p : api.Parcel) → IsDefined (call_response api f v p d n))
      → Marshals api version info (record { token = t; error = e; response = d; length = n })
  unfolding build_reply
  payload-Marshals f t e n d row read = elim (Bool-cases (is_null d)) [
    | inl null ↦ rw null tt
    | inr there ↦
        rw (there, function-response_function_of info, row) (bind-IsDefined _ _ (read version _))
  ]

  pub null-Replies : (t e : ℕ) → Replies api version info (λ w. some (complete t e Data.null 0 w))
  null-Replies t e w h = (null-Marshals t e 0, h)

  pub payload-Replies :
      (f : ResponseFunction) (t e n : ℕ) (d : Data)
      → function_at info.request_number ≡ f
      → ((v : ℕ) (p : api.Parcel) → IsDefined (call_response api f v p d n))
      → Replies api version info (λ w. some (complete t e d n w))
  payload-Replies f t e n d row read w h = (payload-Marshals f t e n d row read, h)

  settle_result-Replies :
      {A : Type 0} (P : A → Type 0) (r : Result A) (k : A → Action) (e : Action)
      → Yields P r
      → ((a : A) → P a → Replies api version info (k a))
      → Replies api version info e
      → Replies api version info (settle_result r k e)
  settle_result-Replies P (ok a sent) k e y hk he w h = hk a y (record w { sent = sent }) h
  settle_result-Replies P (err sent) k e y hk he w h = he (record w { sent = sent }) h
  settle_result-Replies P fault k e y hk he w h = tt

  -- A query completes nothing.
  pub settle-Replies :
      {A : Type 0} (P : A → Type 0) (q : Query A) (k : A → Action) (e : Action)
      → ((sent : List Command) → Yields P (q sent))
      → ((a : A) → P a → Replies api version info (k a))
      → Replies api version info e
      → Replies api version info (settle q k e)
  unfolding settle
  settle-Replies P q k e y hk he w h = settle_result-Replies P (q w.sent) k e (y w.sent) hk he w h

  Yields-any : {A : Type 0} (r : Result A) → Yields (λ a. Unit {0}) r
  Yields-any (ok a sent) = tt
  Yields-any (err sent) = tt
  Yields-any fault = tt

  pub settle_any-Replies :
      {A : Type 0} (q : Query A) (k : A → Action) (e : Action)
      → ((a : A) → Replies api version info (k a))
      → Replies api version info e
      → Replies api version info (settle q k e)
  settle_any-Replies q k e hk he =
      settle-Replies (λ a. Unit {0}) q k e (λ sent. Yields-any (q sent)) (λ a u. hk a) he

  pub bind-Replies :
      (m : Option Ril) (f : Action)
      → EachMarshals api version info m
      → Replies api version info f
      → EachMarshals api version info (m >>= f)
  bind-Replies none f hm hf = tt
  bind-Replies (some w) f hm hf = hf w hm

  pub select-Replies :
      (cases : List Case) (default : Action)
      → All (λ c. c.0 ≡ info.request_number → Replies api version info c.1) cases
      → Replies api version info default
      → Replies api version info (select info.request_number cases default)
  unfolding select
  select-Replies [] default h hd = hd
  select-Replies ((label, body) ∷ cases) default h hd =
      elim (Bool-cases (info.request_number == label)) [
        | inl same ↦ rw same (h.0 (sym ((==_iff info.request_number label).0 same)))
        | inr other ↦ rw other (select-Replies cases default h.1 hd)
      ]
