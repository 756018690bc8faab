-- ===== src/Daemon/Overlap.antt =====
-- Two calls of RIL_onUnsolicitedResponse of libril/ril.cpp that overlap: no mutex keeps the threads
-- apart that cancel the previous wake timeout and start the next.
use rild_hisi.Common.{ℕ, ◌≡◌, ◌≢◌, refl, some, none, false, arith, true, ◌==◌, ==_iff, Option, List}
use rild_hisi.Daemon.{Daemon, UserCallbackInfo}
use rild_hisi.Daemon.Unsolicited.{
  set_user_param, cancel_wake_timeout, cancel_previous, start_wake_timeout,
  internal_request_timed_callback, user_timer_callback, remove_callback,
}
use rild_hisi.Daemon.Callbacks.{
  live_count, is_live, none_last, live_count-cancel, no_live_OnlyLast, OnlyLast,
}
use rild_hisi.Daemon.Wake.{WakeInv}

-- Two threads that schedule a wake timeout: both cancel the previous one before either starts its own.
abbrev pub schedule_together : ℕ → ℕ → Daemon → Daemon
schedule_together id id' d =
    start_wake_timeout id' (start_wake_timeout id (cancel_previous (cancel_previous d)))

abbrev pub first_timeout : ℕ → UserCallbackInfo
first_timeout id = record { id = id; wake = true; user_param = false }

-- When two calls overlap, so that both cancel the previous wake timeout before either starts its own,
-- two timeouts are live: the first releases the wake lock while the second is still to come.
pub schedule_together-live_count :
    (id id' : ℕ) (d : Daemon)
    → id' ≢ id
    → WakeInv d
    → let d' = schedule_together id id' d in
      (live_count d'.callbacks ≡ 2)
      × ((user_timer_callback (first_timeout id) d').wake_lock ≡ false)
      × (live_count (user_timer_callback (first_timeout id) d').callbacks ≡ 1)
unfolding internal_request_timed_callback user_timer_callback remove_callback live_count is_live
schedule_together-live_count id id' d ne inv =
    let none_left = twice d.last_wake_timeout_info d.callbacks inv.only_last in
    (omega (arith, none_left), refl, rw (other, (==_iff id id).1 refl) (omega (arith, none_left)))
  where
    other : (id' == id) ≡ false
    other = ground arith

    twice :
        (last : Option ℕ) (cs : List UserCallbackInfo)
        → OnlyLast last cs
        → live_count (cancel_wake_timeout last (cancel_wake_timeout last cs)) ≡ 0
    twice none cs o = none_last cs o
    twice (some last) cs o =
        live_count-cancel last (set_user_param last cs)
          (no_live_OnlyLast (some last) (set_user_param last cs) (live_count-cancel last cs o))
