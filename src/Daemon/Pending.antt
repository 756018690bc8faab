-- ===== src/Daemon/Pending.antt =====
-- The life of a request of libril/ril.cpp, from processCommandBuffer to RIL_onRequestComplete.
use rild_hisi.Common.{
  ℕ, ◌≡◌, ◌≢◌, refl, inl, inr, List, [], ◌∷◌, none, some, arith, ◌==◌, Bool-cases, Option-cases,
}
use rild_hisi.Common.Int.{ℤ}
use rild_hisi.Telephony.{Bytes}
use rild_hisi.Telephony.Data.{Data}
use rild_hisi.Parcel.{Platform}
use rild_hisi.Dispatch.{RequestInfo}
use rild_hisi.Socket.{WriteResult}
use rild_hisi.Daemon.{Daemon}
use rild_hisi.Daemon.Requests.{
  process_command_buffer, issue_local_request, dequeue, check_and_dequeue_request_info,
  close_command_socket,
}
use rild_hisi.Daemon.Replies.{on_request_complete}

abbrev pub IsAbsent : ℕ → List RequestInfo → Type 0
IsAbsent id [] = Unit
IsAbsent id (r ∷ rs) = (r.id ≢ id) × IsAbsent id rs

-- No two pending requests have one address, and none has the address 0.
abbrev pub IsDistinct : List RequestInfo → Type 0
IsDistinct [] = Unit
IsDistinct (r ∷ rs) = (r.id ≢ 0) × IsAbsent r.id rs × IsDistinct rs

pub dequeue-absent : (id : ℕ) (rs : List RequestInfo) → IsAbsent id rs → dequeue id rs ≡ none
unfolding dequeue
dequeue-absent id [] h = refl
dequeue-absent id (r ∷ rs) h = ground (arith, dequeue-absent id rs)

IsAbsent-dequeue :
    (id k : ℕ) (rs : List RequestInfo) {x : RequestInfo} {rest : List RequestInfo}
    → IsAbsent k rs
    → dequeue id rs ≡ some (x, rest)
    → IsAbsent k rest
unfolding dequeue
IsAbsent-dequeue id k [] h e = absurd (cc)
IsAbsent-dequeue id k (r ∷ rs) {x} {rest} h e = elim (Bool-cases (r.id == id)) [
  | inl hit ↦ ground (arith, h.1)
  | inr miss ↦ elim (Option-cases (dequeue id rs)) [
    | inl gone ↦ ground arith
    | inr ((y, ys), found) ↦ ground (arith, IsAbsent-dequeue id k rs {x = y} {rest = ys} h.1 found)
  ]
]

IsDistinct-dequeue :
    (id : ℕ) (rs : List RequestInfo) {x : RequestInfo} {rest : List RequestInfo}
    → IsDistinct rs
    → dequeue id rs ≡ some (x, rest)
    → IsDistinct rest × IsAbsent id rest × (x.id ≡ id)
unfolding dequeue
IsDistinct-dequeue id [] h e = absurd (cc)
IsDistinct-dequeue id (r ∷ rs) {x} {rest} h e = elim (Bool-cases (r.id == id)) [
  | inl hit ↦ ground (arith, h.1, h.2)
  | inr miss ↦ elim (Option-cases (dequeue id rs)) [
    | inl gone ↦ ground arith
    | inr ((y, ys), found) ↦ ground (
      arith,
      IsDistinct-dequeue id rs {x = y} {rest = ys} h.2 found,
      IsAbsent-dequeue id r.id rs {x = y} {rest = ys} h.1 found,
    )
  ]
]

-- What a completion does to the list: nothing, or it takes out the request of the token.
pub data Completion (d d' : Daemon) (id : ℕ) : Type 0 where
  ignored : check_and_dequeue_request_info id d.pending ≡ none → d' ≡ d → Completion d d' id
  taken : (x : RequestInfo) → dequeue id d.pending ≡ some (x, d'.pending) → Completion d d' id

module _ (api : Platform) where
  pub complete_cases :
      (d d' : Daemon) (ws : List WriteResult) (id : ℕ) (e : ℤ) (response : Data) (len : ℕ)
      → on_request_complete api d ws id e response len ≡ some d'
      → Completion d d' id
  unfolding on_request_complete check_and_dequeue_request_info
  complete_cases d d' ws id e response len h = elim (Bool-cases (id == 0)) [
    | inl null ↦ ignored (rw null) (ground arith)
    | inr some_id ↦ elim (Option-cases (dequeue id d.pending)) [
      | inl gone ↦ ignored (rw (some_id, gone)) (ground arith)
      | inr ((x, rest), found) ↦ taken x (ground arith)
    ]
  ]

  check-absent :
      (id : ℕ) (rs : List RequestInfo)
      → IsAbsent id rs
      → check_and_dequeue_request_info id rs ≡ none
  unfolding check_and_dequeue_request_info
  check-absent id rs h = ground (arith, dequeue-absent id rs h)

  complete_gone :
      (d : Daemon) (ws : List WriteResult) (id : ℕ) (e : ℤ) (r : Data) (n : ℕ)
      → check_and_dequeue_request_info id d.pending ≡ none
      → on_request_complete api d ws id e r n ≡ some d
  unfolding on_request_complete
  complete_gone d ws id e r n h = ground arith

  -- A token is good for one completion: a second one, with any answer, changes nothing and sends
  -- nothing.
  pub complete_twice :
      (d d' : Daemon) (ws ws' : List WriteResult) (id : ℕ) (e e' : ℤ) (r r' : Data) (n n' : ℕ)
      → IsDistinct d.pending
      → on_request_complete api d ws id e r n ≡ some d'
      → on_request_complete api d' ws' id e' r' n' ≡ some d'
  complete_twice d d' ws ws' id e e' r r' n n' distinct h =
      complete_gone d' ws' id e' r' n' (gone (complete_cases d d' ws id e r n h))
    where
      gone : Completion d d' id → check_and_dequeue_request_info id d'.pending ≡ none
      gone (ignored missing same) = rw same missing
      gone (taken x found) =
          check-absent id d'.pending (IsDistinct-dequeue id d.pending distinct found).1

  -- The calls that change the list of pending requests. A new request stands at an address that
  -- calloc has returned: not 0, and that of no other request.
  pub data Step (d d' : Daemon) : Type 0 where
    command :
        (id : ℕ) (buffer : Bytes)
        → id ≢ 0
        → IsAbsent id d.pending
        → d' ≡ (process_command_buffer api d id buffer).0
        → Step d d'
    local_request :
        (id request : ℕ) (bytes : Data) (len : ℕ)
        → id ≢ 0
        → IsAbsent id d.pending
        → d' ≡ (issue_local_request d id request bytes len).0
        → Step d d'
    completion :
        (ws : List WriteResult) (id : ℕ) (e : ℤ) (response : Data) (len : ℕ)
        → on_request_complete api d ws id e response len ≡ some d'
        → Step d d'
    closed : d' ≡ close_command_socket d → Step d d'
