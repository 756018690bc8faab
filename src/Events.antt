-- ===== src/Events.antt =====
-- libril/ril_event.cpp: timers and file descriptors that the event loop watches. An event is a number,
-- its address; the fields of all events are a function of it, so that the watch table and the two
-- lists share them as the pointers of the source do. The lists hold the addresses in the order of
-- the `next` pointers, without the list head. The time of day is an argument.
pub mod Order
pub mod Timers
pub mod Watch
pub mod Select
pub mod Add
pub mod Fire
pub mod Linked
use rild_hisi.Common.{
  ℕ, zero, suc, ◌+◌, ◌-◌, Bool, true, false, not, List, [], ◌∷◌, ◌++◌, Option, none, some, ◌==◌,
  ltb, leb, length, get_elem?, set, replicate, if◌then◌else◌,
}
use rild_hisi.Common.Int.{ℤ, pos, negsuc}

-- struct timeval of a time that is not negative
pub record Timeval : Type 0 where
  pub sec : ℕ
  pub usec : ℕ

-- timeradd
unfoldable pub timeradd : Timeval → Timeval → Timeval
timeradd a b =
    let usec = a.usec + b.usec in
    if leb 1000000 usec
    then record { sec = suc (a.sec + b.sec); usec = usec - 1000000 }
    else record { sec = a.sec + b.sec; usec = usec }

-- timercmp(a, b, <); timercmp(a, b, >) has the arguments swapped.
unfoldable pub timer_lt : Timeval → Timeval → Bool
timer_lt a b = if a.sec == b.sec then ltb a.usec b.usec else ltb a.sec b.sec

-- timersub, for a later time first
unfoldable pub timersub : Timeval → Timeval → Timeval
timersub a b =
    if ltb a.usec b.usec
    then record { sec = a.sec - b.sec - 1; usec = a.usec + 1000000 - b.usec }
    else record { sec = a.sec - b.sec; usec = a.usec - b.usec }

-- `fd` is `none` for -1. `func` and `param` are those that run_event stands for.
pub record Event : Type 0 where
  pub fd : Option ℕ
  pub index : ℤ
  pub persist : Bool
  pub timeout : Timeval

-- MAX_FD_EVENTS
abbrev pub max_fd_events : ℕ
max_fd_events = 8

pub record Events : Type 0 where
  pub event : ℕ → Event
  pub read_fds : ℕ → Bool
  pub nfds : ℕ
  pub watch_table : List (Option ℕ)
  pub timer_list : List ℕ
  pub pending_list : List ℕ

-- A function changed at one argument.
unfoldable pub put {ℓ} : {A : Type ℓ} → (ℕ → A) → ℕ → A → ℕ → A
put f k a j = if j == k then a else f j

unfoldable pub ril_event_init : Events → Events
ril_event_init s = record s {
  read_fds = λ fd. false;
  watch_table = replicate max_fd_events none;
  timer_list = [];
  pending_list = [];
}

unfoldable pub ril_event_set : ℕ → Option ℕ → Bool → Events → Events
unfolding put
ril_event_set ev fd persist s = record s {
  event = put s.event ev (record {
    fd = fd;
    index = negsuc 0;
    persist = persist;
    timeout = record { sec = 0; usec = 0 };
  });
}

-- The first slot that is NULL, counted from `i`.
unfoldable pub free_slot : ℕ → List (Option ℕ) → Option ℕ
free_slot i [] = none
free_slot i (none ∷ slots) = some i
free_slot i (some ev ∷ slots) = free_slot (suc i) slots

-- A full table leaves everything as it is. `none`: FD_SET of a descriptor that is not open.
unfoldable pub ril_event_add : ℕ → Events → Option Events
unfolding put free_slot
ril_event_add ev s = elim (free_slot 0 s.watch_table) [
  | none ↦ some s
  | some i ↦ elim (s.event ev).fd [
    | none ↦ none
    | some fd ↦ some (record s {
      watch_table = set s.watch_table i (some ev);
      event = put s.event ev (record (s.event ev) { index = pos i });
      read_fds = put s.read_fds fd true;
      nfds = if leb s.nfds fd then suc fd else s.nfds;
    })
  ]
]

abbrev pub fd_of : (ℕ → Event) → Option ℕ → ℕ
fd_of event none = 0
fd_of event (some ev) = elim (event ev).fd [ none ↦ 0 | some fd ↦ fd ]

-- The loop for the largest descriptor in the table, from `n` on.
unfoldable pub max_fd : (ℕ → Event) → ℕ → List (Option ℕ) → ℕ
max_fd event n [] = n
max_fd event n (slot ∷ slots) =
    let fd = fd_of event slot in max_fd event (if ltb n fd then fd else n) slots

unfoldable pub remove_watch : ℕ → ℕ → Events → Events
unfolding put max_fd
remove_watch ev index s =
    let table = set s.watch_table index none in
    let event = put s.event ev (record (s.event ev) { index = negsuc 0 }) in
    let fd = fd_of s.event (some ev) in
    record s {
      watch_table = table;
      event = event;
      read_fds = put s.read_fds fd false;
      nfds = if suc fd == s.nfds then suc (max_fd event 0 table) else s.nfds;
    }

-- The second part tells whether listMutex is released: the return for an index out of range keeps it,
-- and then every later call waits for ever.
unfoldable pub ril_event_del : ℕ → Events → Events × Bool
unfolding remove_watch
ril_event_del ev s = elim (s.event ev).index [
  | negsuc n ↦ (s, false)
  | pos i ↦ if leb max_fd_events i then (s, false) else (remove_watch ev i s, true)
]

-- The walk to the first timer that is not earlier than `t`, and the insertion before it.
unfoldable pub insert_timer : (ℕ → Timeval) → ℕ → Timeval → List ℕ → List ℕ
unfolding timer_lt
insert_timer timeout ev t [] = ev ∷ []
insert_timer timeout ev t (x ∷ xs) =
    let rest = insert_timer timeout ev t xs in
    if timer_lt (timeout x) t then x ∷ rest else ev ∷ x ∷ xs

abbrev pub timeout_of : (ℕ → Event) → ℕ → Timeval
timeout_of event ev = (event ev).timeout

-- `none` for a NULL time.
unfoldable pub ril_timer_add : ℕ → Option Timeval → Timeval → Events → Events
unfolding put insert_timer timeradd
ril_timer_add ev none now s = s
ril_timer_add ev (some tv) now s =
    let timeout = timeradd now tv in
    record s {
      event = put s.event ev (record (s.event ev) { fd = none; timeout = timeout });
      timer_list = insert_timer (timeout_of s.event) ev timeout s.timer_list;
    }

-- The loop of processTimeouts on what is left of the timer list and on the pending list.
unfoldable pub expire : (ℕ → Timeval) → Timeval → List ℕ → List ℕ → List ℕ × List ℕ
unfolding timer_lt
expire timeout now [] pending = ([], pending)
expire timeout now (x ∷ xs) pending =
    let moved = expire timeout now xs (pending ++ x ∷ []) in
    if timer_lt (timeout x) now then moved else (x ∷ xs, pending)

unfoldable pub process_timeouts : Timeval → Events → Events
unfolding expire
process_timeouts now s =
    let (timers, pending) = expire (timeout_of s.event) now s.timer_list s.pending_list in
    record s { timer_list = timers; pending_list = pending }

abbrev pub is_ready : (ℕ → Bool) → Option ℕ → Bool
is_ready ready none = false
is_ready ready (some fd) = ready fd

-- One round of the loop of processReadReadies: the state, and whether `n` is counted down.
unfoldable pub read_slot : (ℕ → Bool) → ℕ → Option (Option ℕ) → Events → Events × Bool
unfolding remove_watch
read_slot ready i none s = (s, false)
read_slot ready i (some none) s = (s, false)
read_slot ready i (some (some ev)) s =
    let s' = record s { pending_list = s.pending_list ++ ev ∷ [] } in
    if is_ready ready (s.event ev).fd
    then ((if (s.event ev).persist then s' else remove_watch ev i s'), true)
    else (s, false)

-- `k` slots from `i` on, with `n` descriptors still to be found.
unfoldable pub read_slots : (ℕ → Bool) → ℕ → ℕ → ℕ → Events → Events
unfolding read_slot
read_slots ready zero i n s = s
read_slots ready (suc k) i zero s = s
read_slots ready (suc k) i (suc n) s =
    let (s', found) = read_slot ready i (get_elem? s.watch_table i) s in
    read_slots ready k (suc i) (if found then n else suc n) s'

unfoldable pub process_read_readies : (ℕ → Bool) → ℕ → Events → Events
unfolding read_slots
process_read_readies ready n s = read_slots ready max_fd_events 0 n s

-- The time to wait, `none` without timers (the result -1).
unfoldable pub calc_next_timeout : Timeval → Events → Option Timeval
unfolding timer_lt timersub
calc_next_timeout now s = elim s.timer_list [
  | [] ↦ none
  | x ∷ xs ↦
      let timeout = timeout_of s.event x in
      if timer_lt now timeout
      then some (timersub timeout now)
      else some (record { sec = 0; usec = 0 })
]

-- removeFromList
unfoldable pub remove_from_list : ℕ → List ℕ → List ℕ
remove_from_list ev [] = []
remove_from_list ev (x ∷ xs) = if x == ev then xs else x ∷ remove_from_list ev xs

-- The loop of firePending from an event on: `next` is read before the callback runs. `run` is what
-- the callbacks do.
unfoldable pub fire : (ℕ → Events → Events) → List ℕ → Events → Events
unfolding remove_from_list
fire run [] s = s
fire run (ev ∷ evs) s =
    fire run evs (run ev (record s { pending_list = remove_from_list ev s.pending_list }))

unfoldable pub fire_pending : (ℕ → Events → Events) → Events → Events
unfolding fire
fire_pending run s = fire run s.pending_list s

-- A round of ril_event_loop behind a select that has found `n` descriptors.
unfoldable pub loop_round : (ℕ → Events → Events) → Timeval → (ℕ → Bool) → ℕ → Events → Events
unfolding fire_pending process_read_readies process_timeouts
loop_round run now ready n s =
    fire_pending run (process_read_readies ready n (process_timeouts now s))
