-- ===== src/ReferenceRil/Replying.antt =====
-- What each function for a request of reference-ril/reference-ril.c completes it with, as the
-- response function of the request reads it.
use rild_hisi.Common.{
  ℕ, ◌*◌, ◌≡◌, refl, sym, ap, ◌∙◌, Bool, true, false, ◌||◌, ◌==◌, List, [], ◌∷◌, codes, Option,
  none, some, All, length, arith, Bool-cases, inl, inr,
}
use rild_hisi.Common.Int.{ℤ, is_neg}
use rild_hisi.Telephony.{Bytes, CString}
use rild_hisi.Telephony.Data.{Data}
use rild_hisi.Parcel.{Platform}
use rild_hisi.Commands.{ResponseFunction, call_response}
use rild_hisi.Response.{response_string}
use rild_hisi.AtChannel.Commands.{AtResponse}
use rild_hisi.ReferenceRil.Lists
use rild_hisi.ReferenceRil.Lists.{Completion, Completions, read_line}
use rild_hisi.Dispatch.{RequestInfo}
use rild_hisi.ReferenceRil.Query.{Command, Host, Query, and_then, error_if}
use rild_hisi.ReferenceRil.State.{Ril, reply, reply_null, complete_null}
use rild_hisi.ReferenceRil.DataCalls.{
  complete_texts_with, complete_each, complete_all, list_request, ps_cs_again, ps_cs_line,
  ps_cs_answer, request_ps_cs_stat,
}
use rild_hisi.ReferenceRil.Contexts.{Yields}
use rild_hisi.ReferenceRil.Marshalling.{
  IsDefined, Marshals, Replies, function_at, null-Marshals, payload-Marshals, null-Replies,
  payload-Replies, settle-Replies, settle_any-Replies,
}
use rild_hisi.ReferenceRil.Payloads.{HasSizes, strings-IsDefined}

-- A response function reads the payload, whatever stands before it in the packet.
abbrev pub IsRead : Platform → ResponseFunction → Data × ℕ → Type 0
IsRead api f a = (version : ℕ) (p : api.Parcel) → IsDefined (call_response api f version p a.0 a.1)

pub row :
    (label : ℕ) {request : ℕ} (f : ResponseFunction)
    → label ≡ request
    → function_at label ≡ f
    → function_at request ≡ f
row label f same h = sym (ap function_at same) ∙ h

-- if (b) goto error;
pub error_if-Yields :
    {B : Type 0} (Q : B → Type 0) (b : Bool) (sent : List Command) (f : Unit {0} → Query B)
    → ((s : List Command) → b ≡ false → Yields Q (f tt s))
    → Yields Q (and_then (error_if b sent) f)
unfolding and_then
error_if-Yields Q true sent f h = tt
error_if-Yields Q false sent f h = h sent refl

pub text-IsRead :
    (api : Platform) (s : Bytes) (n : ℕ) → IsRead api ResponseFunction.string (Data.text s, n)
unfolding call_response response_string
text-IsRead api s n version p = tt

pub strings-IsRead :
    (api : Platform) (ss : List CString) (n : ℕ)
    → HasSizes api
    → n ≡ length ss * api.size_ptr
    → IsRead api ResponseFunction.strings (Data.strings ss, n)
unfolding call_response
strings-IsRead api ss n sizes e version p = rw e (strings-IsDefined api p ss sizes.ptr)

module _ (host : Host) (version : ℕ) (info : RequestInfo) (t : ℕ) where
  pub reply-Replies :
      (f : ResponseFunction) (q : Query (Data × ℕ))
      → function_at info.request_number ≡ f
      → ((sent : List Command) → Yields (IsRead host.platform f) (q sent))
      → Replies host.platform version info (reply t q)
  reply-Replies f q is y =
      settle-Replies host.platform version info (IsRead host.platform f) q _ _ y
        (λ (d, n) read. payload-Replies host.platform version info f t 0 n d is read)
        (null-Replies host.platform version info t 2)

  pub reply_null-Replies :
      (q : Query (Unit {0})) → Replies host.platform version info (reply_null t q)
  reply_null-Replies q =
      settle_any-Replies host.platform version info q _ _
        (λ u. null-Replies host.platform version info t 0)
        (null-Replies host.platform version info t 2)

  pub twice_null-Replies :
      (e e' : ℕ)
      → Replies host.platform version info (λ w. some (complete_null t e (complete_null t e' w)))
  twice_null-Replies e e' w h = (
    null-Marshals host.platform version info t e 0,
    (null-Marshals host.platform version info t e' 0, h),
  )

  texts-Replies :
      HasSizes host.platform
      → function_at info.request_number ≡ ResponseFunction.strings
      → (c : Completion) (w : Ril) → All (Marshals host.platform version info) w.completions
      → All (Marshals host.platform version info) (complete_texts_with host t c w).completions
  texts-Replies sizes is c w h = go c.texts
    where
      go :
          (m : Option (List CString))
          → All
              (Marshals host.platform version info)
              (complete_texts_with host t (record { error = c.error; texts = m }) w).completions
      go none = (null-Marshals host.platform version info t c.error 0, h)
      go (some ts) = (
        payload-Marshals host.platform version info ResponseFunction.strings t c.error _
            (Data.strings ts) is (strings-IsRead host.platform ts _ sizes refl),
        h,
      )

  complete_each-Replies :
      HasSizes host.platform
      → function_at info.request_number ≡ ResponseFunction.strings
      → (cs : List Completion) (w : Ril) → All (Marshals host.platform version info) w.completions
      → All (Marshals host.platform version info) (complete_each host t cs w).completions
  unfolding complete_each
  complete_each-Replies sizes is [] w h = h
  complete_each-Replies sizes is (c ∷ cs) w h =
      complete_each-Replies sizes is cs (complete_texts_with host t c w)
        (texts-Replies sizes is c w h)

  pub complete_all-Replies :
      HasSizes host.platform
      → function_at info.request_number ≡ ResponseFunction.strings
      → (cs : Completions) → Replies host.platform version info (complete_all host t cs)
  complete_all-Replies sizes is Lists.fault w h = tt
  complete_all-Replies sizes is (Lists.completed cs) w h = complete_each-Replies sizes is cs w h

  pub list_request-Replies :
      HasSizes host.platform
      → function_at info.request_number ≡ ResponseFunction.strings
      → (command : Query Bytes) (ask : Bytes → Query (ℤ × Option AtResponse))
      → (answer : ℤ → Option AtResponse → Completions)
      → Replies host.platform version info (list_request host t command ask answer)
  unfolding list_request
  list_request-Replies sizes is command ask answer =
      settle_any-Replies host.platform version info _ _ _
        (λ (e, r). complete_all-Replies sizes is (answer e r)) (λ w h. tt)

  ps_cs_again-Replies :
      HasSizes host.platform
      → function_at info.request_number ≡ ResponseFunction.strings
      → (e : ℤ) (r : Option AtResponse)
      → Replies host.platform version info (ps_cs_again host t (e, r))
  ps_cs_again-Replies sizes is e none w h = tt
  ps_cs_again-Replies sizes is e (some r) w h = elim (Bool-cases (is_neg e || r.success == 0)) [
    | inl refused ↦ rw refused (null-Replies host.platform version info t 2 w h)
    | inr fine ↦
        let noline = some (codes "N") ∷ [] in
        rw fine (
          payload-Replies host.platform version info ResponseFunction.strings t 0 _
            (Data.strings noline) is (strings-IsRead host.platform noline _ sizes (omega arith)) w
            h)
  ]

  ps_cs_line-Replies :
      HasSizes host.platform
      → function_at info.request_number ≡ ResponseFunction.strings
      → (lines : List Bytes) → Replies host.platform version info (ps_cs_line host t lines)
  ps_cs_line-Replies sizes is [] w h = tt
  ps_cs_line-Replies sizes is (line ∷ lines) w h =
      complete_all-Replies sizes is (read_line line) w h

  ps_cs_answer-Replies :
      HasSizes host.platform
      → function_at info.request_number ≡ ResponseFunction.strings
      → (c : Bytes) (e : ℤ) (r : Option AtResponse)
      → Replies host.platform version info (ps_cs_answer host t c (e, r))
  ps_cs_answer-Replies sizes is c e none w h =
      settle_any-Replies host.platform version info _ _ _
        (λ (e', r). ps_cs_again-Replies sizes is e' r) (λ w' h'. tt) w h
  ps_cs_answer-Replies sizes is c e (some r) w h = elim (Bool-cases (is_neg e || r.success == 0)) [
    | inl refused ↦ rw refused (twice_null-Replies 2 2 w h)
    | inr fine ↦ rw fine (ps_cs_line-Replies sizes is r.intermediates w h)
  ]

  pub ps_cs_stat-Replies :
      HasSizes host.platform
      → function_at info.request_number ≡ ResponseFunction.strings
      → (d : Data) (len : ℕ) → Replies host.platform version info (request_ps_cs_stat host d len t)
  unfolding request_ps_cs_stat
  ps_cs_stat-Replies sizes is d len =
      settle_any-Replies host.platform version info _ _ _
        (λ c.
          settle_any-Replies host.platform version info _ _ _
            (λ (e, r). ps_cs_answer-Replies sizes is c e r) (λ w h. tt))
        (λ w h. tt)
