-- ===== src/Events/Linked.antt =====
-- The doubly linked lists of libril/ril_event.cpp, on the pointers: the struct ril_event at an address
-- is its two links here, and a list is the address of its head. `none` is NULL.
pub mod Segments
pub mod Expiry
use rild_hisi.Common.{
  ℕ, zero, suc, Bool, true, false, not, ◌||◌, Option, none, some, ◌==◌, if◌then◌else◌, ◌>>=◌,
}
use rild_hisi.Events.{Timeval, put, timer_lt}

pub record Links : Type 0 where
  pub next : Option ℕ
  pub prev : Option ℕ

abbrev pub Heap : Type 0
Heap = ℕ → Links

unfoldable pub set_next : ℕ → Option ℕ → Heap → Heap
unfolding put
set_next a v h = put h a (record (h a) { next = v })

unfoldable pub set_prev : ℕ → Option ℕ → Heap → Heap
unfolding put
set_prev a v h = put h a (record (h a) { prev = v })

unfoldable pub init_list : ℕ → Heap → Heap
unfolding put
init_list list h = put h list (record { next = some list; prev = some list })

-- addToList; `none`: NULL is followed.
unfoldable pub add_to_list : ℕ → ℕ → Heap → Option Heap
unfolding set_next set_prev
add_to_list ev list h =
    let h1 = set_next ev (some list) h in
    let h2 = set_prev ev (h1 list).prev h1 in
    (h2 ev).prev >>= λ p. some (set_prev list (some ev) (set_next p (some ev) h2))

-- removeFromList
unfoldable pub unlink : ℕ → Heap → Option Heap
unfolding set_next set_prev
unlink ev h = (h ev).next >>= λ n.
    let h1 = set_prev n (h ev).prev h in
    (h1 ev).prev >>= λ p.
    let h2 = set_next p (h1 ev).next h1 in some (set_prev ev none (set_next ev none h2))

module _ (timeout : ℕ → Timeval) (now : Timeval) (timer_list pending_list : ℕ) where
  -- The loop of processTimeouts from `tev` on, in at most the given number of rounds.
  unfoldable pub move_timeouts : ℕ → ℕ → Heap → Option Heap
  unfolding timer_lt add_to_list unlink
  move_timeouts zero tev h = none
  move_timeouts (suc n) tev h =
      let round = (h tev).next >>= λ next.
      unlink tev h >>= λ h1. add_to_list tev pending_list h1 >>= λ h2. move_timeouts n next h2 in
      if tev == timer_list || not (timer_lt (timeout tev) now) then some h else round

  unfoldable pub linked_process_timeouts : ℕ → Heap → Option Heap
  unfolding move_timeouts
  linked_process_timeouts n h = (h timer_list).next >>= λ tev. move_timeouts n tev h
