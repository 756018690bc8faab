-- ===== src/Examples/Loop.antt =====
-- Timers and watched descriptors on concrete inputs.
use rild_hisi.Common.{
  ℕ, zero, suc, subst, ap, ◌==◌, ◌≡◌, ◌⊎◌, refl, sym, true, false, not, [], ◌∷◌, ◌++◌, Option, none,
  some, ◌<◌, arith, All, get_elem?, replicate, if◌then◌else◌,
}
use rild_hisi.Common.Int.{pos, negsuc}
use mathlib.Core.Option.{some-injective}
use rild_hisi.Events.{
  Timeval, Events, expire, put, timer_lt, timeradd, timeout_of, process_timeouts, calc_next_timeout,
  ril_event_add, loop_round, free_slot, ril_event_del, max_fd_events,
}
use rild_hisi.Events.Linked.{Heap, linked_process_timeouts}
use rild_hisi.Events.Linked.Expiry.{Lists, Leaves, linked_process_timeouts-expire}
use rild_hisi.Events.Order.{IsSorted}
use rild_hisi.Events.Timers.{
  select, TimerStep, TimerReach, TimerReach-IsSorted, process_timeouts-select,
  calc_next_timeout-first,
}
use rild_hisi.Events.Watch.{WatchInv, pos-injective}
use rild_hisi.Events.Select.{ril_event_del-WatchInv}
use rild_hisi.Events.Fire.{loop_round-empties}
use rild_hisi.Events.Add.{Added, ril_event_add-WatchInv}

abbrev at_sec : ℕ → Timeval
at_sec n = record { sec = n; usec = 0 }

-- The event at the address `n` has the time `n` and the descriptor `n`, and is not watched.
abbrev idle : Events
idle = record {
  event = λ n. record { fd = some n; index = negsuc 0; persist = true; timeout = at_sec n };
  read_fds = λ fd. false;
  nfds = 0;
  watch_table = replicate max_fd_events none;
  timer_list = [];
  pending_list = [];
}

-- The timers 3 and 5.
abbrev waiting : Events
waiting = record idle { timer_list = 3 ∷ 5 ∷ [] }

waiting-IsSorted : IsSorted (timeout_of waiting.event) waiting.timer_list
unfolding timer_lt
waiting-IsSorted = ((refl, tt), (tt, tt))

TimerReach_example :
    let s = process_timeouts (at_sec 4) waiting in IsSorted (timeout_of s.event) s.timer_list
TimerReach_example =
    TimerReach-IsSorted (TimerReach.next TimerReach.here (TimerStep.expired (at_sec 4) refl))
      waiting-IsSorted

process_timeouts_example :
    ((process_timeouts (at_sec 4) waiting).timer_list
      ≡ select (λ x. not (timer_lt (at_sec x) (at_sec 4))) (3 ∷ 5 ∷ []))
    × ((process_timeouts (at_sec 4) waiting).pending_list
        ≡ [] ++ select (λ x. timer_lt (at_sec x) (at_sec 4)) (3 ∷ 5 ∷ []))
process_timeouts_example = process_timeouts-select (at_sec 4) waiting waiting-IsSorted

calc_next_timeout_example :
    (w : Timeval) × (calc_next_timeout (at_sec 1) waiting ≡ some w)
    × (((w ≡ at_sec 0) × (timer_lt (at_sec 1) (at_sec 3) ≡ false))
        ⊎ ((timeradd (at_sec 1) w ≡ at_sec 3)
            × All (λ y. timer_lt (at_sec y) (timeradd (at_sec 1) w) ≡ false) (5 ∷ [])))
calc_next_timeout_example =
    calc_next_timeout-first (at_sec 1) waiting 3 (5 ∷ []) (omega arith) (omega arith)
      waiting-IsSorted refl

no_slot : (n i ev : ℕ) → get_elem? {A = Option ℕ} (replicate n none) i ≡ some (some ev) → ⊥
no_slot zero i ev e = absurd (cc)
no_slot (suc n) zero ev e = absurd (cc)
no_slot (suc n) (suc i) ev e = no_slot n i ev e

idle-WatchInv : WatchInv idle
idle-WatchInv = record {
  indexed = λ i ev g. absurd (no_slot max_fd_events i ev g);
  selected = λ i ev fd w. absurd (no_slot max_fd_events i ev w.slot);
  covered = λ fd r. absurd (cc);
  apart = λ i j ev ev' fd v w. absurd (no_slot max_fd_events i ev v.slot);
}

ril_event_add_example :
    (s' : Events) × (ril_event_add 6 idle ≡ some s') × WatchInv s' × Added 6 6 idle s'
ril_event_add_example = ril_event_add-WatchInv 6 6 idle refl refl idle-WatchInv

-- The state with the event 6 in the table.
abbrev watching : Events
watching = record idle {
  event = put idle.event 6 (record (idle.event 6) { index = pos 0 });
  read_fds = put idle.read_fds 6 true;
  nfds = 7;
  watch_table = some 6 ∷ replicate 7 none;
}

watching-WatchInv : WatchInv watching
unfolding ril_event_add free_slot
watching-WatchInv =
    let (s', e, inv, added) = ril_event_add-WatchInv 6 6 idle refl refl idle-WatchInv in
    subst WatchInv (some-injective _ _ (sym e)) inv

in_first :
    (i : ℕ) → (watching.event 6).index ≡ pos i → get_elem? watching.watch_table i ≡ some (some 6)
unfolding put
in_first i e = ap (get_elem? watching.watch_table) (sym (pos-injective e))

ril_event_del_example :
    WatchInv (ril_event_del 6 watching).0
    × (((i : ℕ) × ((watching.event 6).index ≡ pos i)
          × (i < max_fd_events)
          × ((ril_event_del 6 watching).1 ≡ true))
        ⊎ (ril_event_del 6 watching ≡ (watching, false)))
ril_event_del_example = ril_event_del-WatchInv 6 watching in_first watching-WatchInv

-- The callbacks count up nfds, to leave a trace.
abbrev traced : ℕ → Events → Events
traced ev s = record s { nfds = suc s.nfds }

loop_round_example :
    (loop_round traced
      (at_sec 4)
      (λ fd. fd == 6)
      1
      (record watching { timer_list = 3 ∷ 5 ∷ [] })).pending_list
    ≡ []
loop_round_example =
    loop_round-empties traced (at_sec 4) (λ fd. fd == 6) 1
      (record watching { timer_list = 3 ∷ 5 ∷ [] }) (λ ev t. refl)

-- The timers 1 and 2 hang on the head 100, and nothing on the head 200.
abbrev two_timers : Heap
two_timers n =
    if n == 100
    then record { next = some 1; prev = some 2 }
    else if n == 1
    then record { next = some 2; prev = some 100 }
    else if n == 2
    then record { next = some 100; prev = some 1 }
    else record { next = some 200; prev = some 200 }

two_timers-Lists : Lists two_timers 100 200 (1 ∷ 2 ∷ []) []
two_timers-Lists = record {
  timers = (refl, refl, (refl, refl, (refl, refl)));
  pending = (refl, refl);
  timers_once =
      (((λ e. omega arith), ((λ e. omega arith), tt)), (((λ e. omega arith), tt), (tt, tt)));
  pending_once = (tt, tt);
  apart = (((λ e. omega arith), ((λ e. omega arith), ((λ e. omega arith), tt))), tt);
}

linked_process_timeouts-expire_example :
    Leaves 100 200
      (linked_process_timeouts at_sec (at_sec 2) 100 200 3 two_timers)
      (expire at_sec (at_sec 2) (1 ∷ 2 ∷ []) [])
linked_process_timeouts-expire_example =
    linked_process_timeouts-expire at_sec (at_sec 2) 100 200 (1 ∷ 2 ∷ []) [] two_timers
      two_timers-Lists
