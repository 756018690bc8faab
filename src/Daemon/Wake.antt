-- ===== src/Daemon/Wake.antt =====
-- The wake lock of libril/ril.cpp: RIL_onUnsolicitedResponse takes it and starts a timeout, and the
-- timeout, when userTimerCallback runs it, gives it back.
use rild_hisi.Common.{
  ℕ, ◌≤◌, ◌≡◌, refl, sym, subst, ◌∙◌, ◌⊎◌, inl, inr, Bool, true, false, [], Option, none, some,
  arith, Bool-cases, Option-cases,
}
use rild_hisi.Common.Int.{ℤ, pos, ◌==ℤ◌}
use rild_hisi.Telephony.Data.{Data}
use rild_hisi.Parcel.{Platform}
use rild_hisi.Commands.{call_response, WakeType, dont_wake, wake_partial, UnsolResponseInfo}
use mathlib.Core.Option.{some-injective}
use rild_hisi.Daemon.{Daemon, UserCallbackInfo}
use rild_hisi.Daemon.Unsolicited.{
  cancel_wake_timeout, internal_request_timed_callback, schedule_wake_timeout, send_unsolicited,
  on_unsolicited_response, user_timer_callback, Env, grab_wake_lock, finish_unsolicited,
  more_payload, unsol_response_of,
}
use rild_hisi.Daemon.Callbacks.{
  live_count, find_callback, live-find, IsFree, is_live, OnlyLast, IsApart, none_last,
  live_count_le, no_live_OnlyLast, live_count-cancel, IsFree-cancel, IsApart-cancel, IsApart-remove,
  OnlyLast-remove, live_count-remove,
}

-- The state of the wake lock: the callbacks are apart, only the last wake timeout is live, and a held
-- lock has a live timeout.
pub record WakeInv (d : Daemon) : Type 0 where
  pub apart : IsApart d.callbacks
  pub only_last : OnlyLast d.last_wake_timeout_info d.callbacks
  pub held : d.wake_lock ≡ true → 1 ≤ live_count d.callbacks

schedule-WakeInv :
    (id : ℕ) (d : Daemon)
    → IsApart d.callbacks
    → OnlyLast d.last_wake_timeout_info d.callbacks
    → IsFree id d.callbacks
    → WakeInv (schedule_wake_timeout id d)
unfolding schedule_wake_timeout internal_request_timed_callback live_count is_live
schedule-WakeInv id d apart only_last free = record {
  apart = (
    elim d.last_wake_timeout_info as (λ l. IsFree id (cancel_wake_timeout l d.callbacks)) [
      | none ↦ free
      | some last ↦ IsFree-cancel id last d.callbacks free
    ],
    elim d.last_wake_timeout_info as (λ l. IsApart (cancel_wake_timeout l d.callbacks)) [
      | none ↦ apart
      | some last ↦ IsApart-cancel last d.callbacks apart
    ],
  );
  only_last =
      ((λ _. refl), no_live_OnlyLast (some id) _ (none_live d.last_wake_timeout_info only_last));
  held = λ _. omega arith;
}
  where
    none_live :
        (last : Option ℕ)
        → OnlyLast last d.callbacks
        → live_count (cancel_wake_timeout last d.callbacks) ≡ 0
    none_live none o = none_last d.callbacks o
    none_live (some last) o = live_count-cancel last d.callbacks o

timer-WakeInv :
    (c : UserCallbackInfo) (d : Daemon)
    → find_callback c.id d.callbacks ≡ some c
    → WakeInv d
    → WakeInv (user_timer_callback c d)
unfolding user_timer_callback is_live
timer-WakeInv c d found inv = record {
  apart = IsApart-remove c.id d.callbacks inv.apart;
  only_last = OnlyLast-remove c.id d.last_wake_timeout_info d.callbacks inv.apart inv.only_last;
  held = λ h. ground (arith, inv.held, live_count-remove c.id d.callbacks c found);
}

timed_callback-WakeInv :
    (id : ℕ) (user_param : Bool) (d : Daemon)
    → IsFree id d.callbacks
    → WakeInv d
    → WakeInv (internal_request_timed_callback id false user_param d)
unfolding internal_request_timed_callback live_count is_live
timed_callback-WakeInv id user_param d free inv = record {
  apart = (free, inv.apart);
  only_last = ((λ h. absurd (cc)), inv.only_last);
  held = inv.held;
}

WakeInv-frame :
    (d d' : Daemon)
    → (d'.callbacks ≡ d.callbacks)
      × (d'.last_wake_timeout_info ≡ d.last_wake_timeout_info)
      × (d'.wake_lock ≡ d.wake_lock)
    → WakeInv d
    → WakeInv d'
WakeInv-frame d d' (same, same_last, same_lock) inv = record {
  apart = rw same inv.apart;
  only_last = rw (same, same_last) inv.only_last;
  held = rw (same, same_lock) inv.held;
}

module _ (api : Platform) where
  send_unsolicited-frame :
      (d : Daemon) (env : Env) (unsol : ℤ) (p : api.Parcel)
      → let d' = send_unsolicited api d env unsol p in
        (d'.callbacks ≡ d.callbacks)
        × (d'.last_wake_timeout_info ≡ d.last_wake_timeout_info)
        × (d'.wake_lock ≡ d.wake_lock)
  unfolding send_unsolicited
  send_unsolicited-frame d env unsol p = ground arith

  finish-WakeInv :
      (d : Daemon) (env : Env) (unsol : ℤ) (wake : WakeType) (reply : ℤ × api.Parcel)
      → IsFree env.new_address d.callbacks
      → WakeInv d
      → WakeInv (finish_unsolicited api (grab_wake_lock api wake d) env unsol wake reply)
  finish-WakeInv d env unsol wake (ret, p) free inv = elim (Bool-cases (ret ==ℤ pos 0)) [
    | inl good ↦ rw good (sent wake)
    | inr bad ↦ rw bad (failed wake)
  ]
    where
      locked : Daemon
      locked = record d { wake_lock = true }

      sent :
          (w : WakeType)
          → WakeInv (finish_unsolicited api (grab_wake_lock api w d) env unsol w (pos 0, p))
      sent dont_wake = WakeInv-frame d _ (send_unsolicited-frame d env unsol _) inv
      sent wake_partial =
          let f =
            send_unsolicited-frame (record d { wake_lock = true }) env unsol
              (more_payload api env unsol p) in
          schedule-WakeInv env.new_address _ (rw f.0 inv.apart) (rw (f.0, f.1) inv.only_last)
            (rw f.0 free)

      failed :
          (w : WakeType)
          → WakeInv (finish_unsolicited api (grab_wake_lock api w d) env unsol w (pos 1, p))
      failed dont_wake = inv
      failed wake_partial = record {
        apart = inv.apart;
        only_last = inv.only_last;
        held = λ h. absurd (cc);
      }

  pub unsolicited_known :
      (d : Daemon) (env : Env) (unsol : ℤ) (response : Data) (len : ℕ) (ui : UnsolResponseInfo)
      (reply : ℤ × api.Parcel)
      → d.register_called ≡ true
      → unsol_response_of unsol ≡ some ui
      → let p = api.write_int32 unsol (api.write_int32 (pos 1) api.empty) in
        call_response api ui.response_function d.version p response len ≡ some reply
        → on_unsolicited_response api d env unsol response len
          ≡ some (
              finish_unsolicited api
                (grab_wake_lock api ui.wake_type d)
                env
                unsol
                ui.wake_type
                reply)
  unfolding on_unsolicited_response
  unsolicited_known d env unsol response len ui reply ready known answered =
      simp (ready, known, answered)

  -- Where it does not stop at a guard, RIL_onUnsolicitedResponse comes to the reply of the row.
  pub unsolicited_cases :
      (d d' : Daemon) (env : Env) (unsol : ℤ) (response : Data) (len : ℕ)
      → on_unsolicited_response api d env unsol response len ≡ some d'
      → (d ≡ d')
        ⊎ ((wake : WakeType) × (reply : ℤ × api.Parcel) × (finish_unsolicited api
                (grab_wake_lock api wake d)
                env
                unsol
                wake
                reply
              ≡ d'))
  unfolding on_unsolicited_response
  unsolicited_cases d d' env unsol response len h = elim (Bool-cases d.register_called) [
    | inr before ↦ inl (ground arith)
    | inl ready ↦ elim (Option-cases (unsol_response_of unsol)) [
      | inl unknown ↦ inl (ground arith)
      | inr (ui, known) ↦
          let p = api.write_int32 unsol (api.write_int32 (pos 1) api.empty) in
          elim (Option-cases (call_response api ui.response_function d.version p response len)) [
            | inl fault ↦ ground arith
            | inr (reply, answered) ↦ inr (
              ui.wake_type,
              reply,
              some-injective _ _ (
                  sym (unsolicited_known d env unsol response len ui reply ready known answered)
                  ∙ h),
            )
          ]
    ]
  ]

  unsolicited-WakeInv :
      (d d' : Daemon) (env : Env) (unsol : ℤ) (response : Data) (len : ℕ)
      → IsFree env.new_address d.callbacks
      → on_unsolicited_response api d env unsol response len ≡ some d'
      → WakeInv d
      → WakeInv d'
  unsolicited-WakeInv d d' env unsol response len free h inv =
      elim (unsolicited_cases d d' env unsol response len h) [
        | inl same ↦ subst WakeInv same inv
        | inr (wake, reply, e) ↦ subst WakeInv e (finish-WakeInv d env unsol wake reply free inv)
      ]

  -- The calls that change the wake lock and the timed callbacks. A new callback stands at an address
  -- that malloc has returned, not that of another callback.
  pub data WakeStep (d d' : Daemon) : Type 0 where
    unsolicited :
        (env : Env) (unsol : ℤ) (response : Data) (len : ℕ)
        → IsFree env.new_address d.callbacks
        → on_unsolicited_response api d env unsol response len ≡ some d'
        → WakeStep d d'
    timed_callback :
        (id : ℕ) (user_param : Bool)
        → IsFree id d.callbacks
        → d' ≡ internal_request_timed_callback id false user_param d
        → WakeStep d d'
    timer :
        (c : UserCallbackInfo)
        → find_callback c.id d.callbacks ≡ some c
        → d' ≡ user_timer_callback c d
        → WakeStep d d'

  pub data WakeReach (d : Daemon) : Daemon → Type 0 where
    here : WakeReach d d
    next : {e f : Daemon} → WakeReach d e → WakeStep e f → WakeReach d f

  WakeStep-WakeInv : (d d' : Daemon) → WakeStep d d' → WakeInv d → WakeInv d'
  WakeStep-WakeInv d d' (unsolicited env unsol response len free h) inv =
      unsolicited-WakeInv d d' env unsol response len free h inv
  WakeStep-WakeInv d d' (timed_callback id user_param free e) inv =
      rw e (timed_callback-WakeInv id user_param d free inv)
  WakeStep-WakeInv d d' (timer c found e) inv = rw e (timer-WakeInv c d found inv)

  WakeReach-WakeInv : {d d' : Daemon} → WakeReach d d' → WakeInv d → WakeInv d'
  WakeReach-WakeInv here inv = inv
  WakeReach-WakeInv (next r s) inv = WakeStep-WakeInv _ _ s (WakeReach-WakeInv r inv)

  start-WakeInv : (d : Daemon) → d.callbacks ≡ [] → d.wake_lock ≡ false → WakeInv d
  start-WakeInv d e f = record { apart = rw e tt; only_last = rw e tt; held = λ h. absurd (cc) }

  -- The lock is released, or one live timeout is still to come, which releases it when it runs.
  abbrev pub Released : Daemon → Type 0
  Released d =
      (d.wake_lock ≡ false)
      ⊎ ((c : UserCallbackInfo) × (find_callback c.id d.callbacks ≡ some c)
          × (is_live c ≡ true)
          × (live_count d.callbacks ≡ 1)
          × ((user_timer_callback c d).wake_lock ≡ false))

  -- From a start without timed callbacks and with the wake lock released, as long as no two of the
  -- calls overlap: there are never two live wake timeouts, and whenever the wake lock is held, exactly
  -- one is live, and the lock is released when it runs. The lock is a flag here, since the source
  -- leaves grabPartialWakeLock and releaseWakeLock empty.
  pub WakeReach-live_count :
      (d d' : Daemon)
      → d.callbacks ≡ []
      → d.wake_lock ≡ false
      → WakeReach d d'
      → (live_count d'.callbacks ≤ 1) × Released d'
  unfolding user_timer_callback is_live
  WakeReach-live_count d d' e f r =
      let inv = WakeReach-WakeInv r (start-WakeInv d e f) in
      let one = live_count_le d'.last_wake_timeout_info d'.callbacks inv.apart inv.only_last in
      elim (Bool-cases d'.wake_lock) [
        | inr free ↦ (one, inl free)
        | inl held ↦
            let some_live = inv.held held in
            let (c, found, live) = live-find d'.callbacks inv.apart some_live in
            (one, inr (c, found, live, omega arith, rw live refl))
      ]
