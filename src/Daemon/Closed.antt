-- ===== src/Daemon/Closed.antt =====
-- What becomes of the requests of libril/ril.cpp that were pending when the command socket was
-- closed, over all calls that follow.
use rild_hisi.Common.{
  ℕ, ◌≡◌, ◌≢◌, refl, ◌⊎◌, inl, inr, true, false, List, ◌∷◌, some, arith, ◌==◌, Bool-cases,
  Option-cases,
}
use rild_hisi.Common.Int.{ℤ}
use rild_hisi.Telephony.Data.{Data}
use rild_hisi.Parcel.{Platform}
use rild_hisi.Dispatch.{RequestInfo}
use rild_hisi.Daemon.{Daemon}
use rild_hisi.Daemon.Requests.{dequeue}
use rild_hisi.Daemon.Pending.{Step, command, local_request, completion, closed}

-- A request with this address is pending, and cancelled.
abbrev IsCancelledAt : ℕ → List RequestInfo → Type 0
IsCancelledAt id rs =
    (x : RequestInfo) × (rest : List RequestInfo) × (dequeue id rs ≡ some (x, rest))
    × (x.cancelled ≡ true)

-- The first entry is the one, or it is behind.
split :
    (id : ℕ) (r : RequestInfo) (rs : List RequestInfo)
    → IsCancelledAt id (r ∷ rs)
    → ((r.id == id) ≡ true) × (r.cancelled ≡ true) ⊎ ((r.id == id) ≡ false) × IsCancelledAt id rs
unfolding dequeue
split id r rs (x, rest, e, c) = elim (Bool-cases (r.id == id)) [
  | inl hit ↦ inl (hit, ground arith)
  | inr miss ↦ elim (Option-cases (dequeue id rs)) [
    | inl gone ↦ absurd (ground arith)
    | inr ((y, ys), found) ↦ inr (miss, (y, ys, found, ground arith))
  ]
]

behind :
    (id : ℕ) (r : RequestInfo) (rs : List RequestInfo)
    → (r.id == id) ≡ false
    → IsCancelledAt id rs
    → IsCancelledAt id (r ∷ rs)
unfolding dequeue
behind id r rs miss (x, rest, e, c) = (x, r ∷ rest, rw (miss, e) refl, c)

module _ (api : Platform) where
  -- A call that does not complete the request at this address
  abbrev pub IsOther : ℕ → {d d' : Daemon} → Step api d d' → Type 0
  IsOther id (command k buffer ne absent e) = Unit
  IsOther id (local_request k request bytes len ne absent e) = Unit
  IsOther id (completion ws k e response len done) = k ≢ id
  IsOther id (closed e) = Unit

  -- The calls up to the next completion of the request at the address `id`, whatever they are, and
  -- any number of new connections.
  pub data Later (id : ℕ) (d : Daemon) : Daemon → Type 0 where
    here : Later id d d
    next : {e f : Daemon} → Later id d e → (s : Step api e f) → IsOther id s → Later id d f
    connected :
        {e f : Daemon} (fd : ℤ) → Later id d e → f ≡ record e { fd_command = fd } → Later id d f

  -- The list has the new request in front, or is as it was.
  Grown : ℕ → Daemon → Daemon → Type 0
  Grown k d d' =
      (d'.pending ≡ d.pending) ⊎ ((r : RequestInfo) × (r.id ≡ k) × (d'.pending ≡ r ∷ d.pending))
