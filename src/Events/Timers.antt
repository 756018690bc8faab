-- ===== src/Events/Timers.antt =====
-- The timer list of libril/ril_event.cpp.
use rild_hisi.Common.{
  ℕ, ◌≡◌, ◌≢◌, refl, sym, subst, ap, ◌∙◌, ◌⊎◌, inl, inr, Bool, true, false, not, List, [], ◌∷◌,
  ◌++◌, none, some, arith, ==_iff, All, if◌then◌else◌, Bool-cases, append_assoc, append-nil,
}
use rild_hisi.Events.{
  Timeval, timeradd, timer_lt, timersub, Events, put, timeout_of, insert_timer, ril_timer_add,
  expire, process_timeouts, calc_next_timeout,
}
use rild_hisi.Events.Order.{
  IsNormal, IsSorted, lt_trans_due, All-map, insert_timer-IsSorted, IsSorted-cong,
  insert_timer-cong,
}

put_self : {A : Type 0} (f : ℕ → A) (k : ℕ) (a : A) → put f k a k ≡ a
unfolding put
put_self f k a = rw ((==_iff k k).1 refl)

put_ne : {A : Type 0} (f : ℕ → A) (k j : ℕ) (a : A) → j ≢ k → put f k a j ≡ f j
unfolding put
put_ne f k j a h = ground arith

-- The list of timers stays in the order of their times when an event that is not in it is added.
pub ril_timer_add-IsSorted :
    (ev : ℕ) (tv now : Timeval) (s : Events)
    → All (λ x. x ≢ ev) s.timer_list
    → IsSorted (timeout_of s.event) s.timer_list
    → let s' = ril_timer_add ev (some tv) now s in IsSorted (timeout_of s'.event) s'.timer_list
unfolding ril_timer_add
ril_timer_add-IsSorted ev tv now s fresh h =
    let t = timeradd now tv in
    let event' = put s.event ev (record (s.event ev) { fd = none; timeout = t }) in
    let same : All (λ x. timeout_of event' x ≡ timeout_of s.event x) s.timer_list =
      All-map s.timer_list (λ x ne. ap (λ e. e.timeout) (put_ne s.event ev x _ ne)) fresh in
    let mine : timeout_of event' ev ≡ t = ap (λ e. e.timeout) (put_self s.event ev _) in
    let placed =
      insert_timer-IsSorted (timeout_of event') ev s.timer_list
        (IsSorted-cong (timeout_of s.event) (timeout_of event') s.timer_list same h) in
    rw (insert_timer-cong (timeout_of s.event) (timeout_of event') ev t s.timer_list same) (
      subst (λ u. IsSorted (timeout_of event') (insert_timer (timeout_of event') ev u s.timer_list))
        mine placed)

-- The elements of a list that pass a test, in order.
unfoldable pub select : (ℕ → Bool) → List ℕ → List ℕ
select test [] = []
select test (x ∷ xs) = let rest = select test xs in if test x then x ∷ rest else rest

select_none : (test : ℕ → Bool) (xs : List ℕ) → All (λ x. test x ≡ false) xs → select test xs ≡ []
unfolding select
select_none test [] h = refl
select_none test (x ∷ xs) h = rw (h.0, select_none test xs h.1)

select_whole :
    (test : ℕ → Bool) (xs : List ℕ)
    → All (λ x. test x ≡ false) xs
    → select (λ x. not (test x)) xs ≡ xs
unfolding select
select_whole test [] h = refl
select_whole test (x ∷ xs) h = rw (h.0, select_whole test xs h.1)

expire-select :
    (timeout : ℕ → Timeval) (now : Timeval) (xs pending : List ℕ)
    → IsSorted timeout xs
    → let due : ℕ → Bool = λ x. timer_lt (timeout x) now in
      expire timeout now xs pending ≡ (select (λ x. not (due x)) xs, pending ++ select due xs)
unfolding expire select
expire-select timeout now [] pending h = rw append-nil
expire-select timeout now (x ∷ xs) pending h = elim (Bool-cases (timer_lt (timeout x) now)) [
  | inl due ↦
      rw (due, expire-select timeout now xs (pending ++ x ∷ []) h.1)
        (rw (append_assoc pending (x ∷ [])))
  | inr early ↦
      let rest = All-map xs (λ y k. lt_trans_due (timeout x) (timeout y) now early k) h.0 in
      rw (
        early,
        select_none (λ y. timer_lt (timeout y) now) xs rest,
        select_whole (λ y. timer_lt (timeout y) now) xs rest,
        append-nil,
      )
]

-- On a list in order processTimeouts moves exactly the timers whose time is past to the end of the
-- pending list, in order, and leaves the others.
pub process_timeouts-select :
    (now : Timeval) (s : Events)
    → IsSorted (timeout_of s.event) s.timer_list
    → let due : ℕ → Bool = λ x. timer_lt (timeout_of s.event x) now in
      let s' = process_timeouts now s in
      (s'.timer_list ≡ select (λ x. not (due x)) s.timer_list)
      × (s'.pending_list ≡ s.pending_list ++ select due s.timer_list)
unfolding process_timeouts
process_timeouts-select now s h =
    let e = expire-select (timeout_of s.event) now s.timer_list s.pending_list h in
    (ap (λ r. r.0) e, ap (λ r. r.1) e)

expire-IsSorted :
    (timeout : ℕ → Timeval) (now : Timeval) (xs pending : List ℕ)
    → IsSorted timeout xs
    → IsSorted timeout (expire timeout now xs pending).0
unfolding expire
expire-IsSorted timeout now [] pending h = tt
expire-IsSorted timeout now (x ∷ xs) pending h = elim (Bool-cases (timer_lt (timeout x) now)) [
  | inl due ↦ rw due (expire-IsSorted timeout now xs (pending ++ x ∷ []) h.1)
  | inr early ↦ rw early h
]

-- The calls that change the timer list. A timer that is added is not in the list.
pub data TimerStep (s s' : Events) : Type 0 where
  added :
      (ev : ℕ) (tv now : Timeval)
      → All (λ x. x ≢ ev) s.timer_list
      → s' ≡ ril_timer_add ev (some tv) now s
      → TimerStep s s'
  expired : (now : Timeval) → s' ≡ process_timeouts now s → TimerStep s s'

pub data TimerReach (s : Events) : Events → Type 0 where
  here : TimerReach s s
  next : {t u : Events} → TimerReach s t → TimerStep t u → TimerReach s u

TimerStep-IsSorted :
    (s s' : Events)
    → TimerStep s s'
    → IsSorted (timeout_of s.event) s.timer_list
    → IsSorted (timeout_of s'.event) s'.timer_list
unfolding process_timeouts
TimerStep-IsSorted s s' (added ev tv now fresh e) h =
    subst (λ t. IsSorted (timeout_of t.event) t.timer_list) (sym e)
      (ril_timer_add-IsSorted ev tv now s fresh h)
TimerStep-IsSorted s s' (expired now e) h =
    subst (λ t. IsSorted (timeout_of t.event) t.timer_list) (sym e)
      (expire-IsSorted (timeout_of s.event) now s.timer_list s.pending_list h)

-- The timer list is in the order of the times after any sequence of timers added and expired.
pub TimerReach-IsSorted :
    {s s' : Events}
    → TimerReach s s'
    → IsSorted (timeout_of s.event) s.timer_list
    → IsSorted (timeout_of s'.event) s'.timer_list
TimerReach-IsSorted here h = h
TimerReach-IsSorted (next r step) h = TimerStep-IsSorted _ _ step (TimerReach-IsSorted r h)

same_time : (a b : Timeval) → a.sec ≡ b.sec → a.usec ≡ b.usec → a ≡ b
same_time a b e f =
    let with_sec : a ≡ record { sec = b.sec; usec = a.usec } =
      ap (λ n. record { sec = n; usec = a.usec }) e in
    with_sec ∙ ap (λ n. record { sec = b.sec; usec = n }) f

timeradd-timersub :
    (t now : Timeval)
    → IsNormal t
    → IsNormal now
    → timer_lt now t ≡ true
    → timeradd now (timersub t now) ≡ t
unfolding timeradd timersub timer_lt
timeradd-timersub t now n m h =
    same_time (timeradd now (timersub t now)) t (ground arith) (ground arith)

-- With timers in order, calcNextTimeout asks to wait until the first of them, which no other
-- precedes, or not at all if the first is due.
pub calc_next_timeout-first :
    (now : Timeval) (s : Events) (x : ℕ) (xs : List ℕ)
    → IsNormal now
    → IsNormal (timeout_of s.event x)
    → IsSorted (timeout_of s.event) s.timer_list
    → s.timer_list ≡ x ∷ xs
    → (w : Timeval) × (calc_next_timeout now s ≡ some w)
      × (((w ≡ record { sec = 0; usec = 0 }) × (timer_lt now (timeout_of s.event x) ≡ false))
          ⊎ ((timeradd now w ≡ timeout_of s.event x)
              × All (λ y. timer_lt (timeout_of s.event y) (timeradd now w) ≡ false) xs))
unfolding calc_next_timeout
calc_next_timeout-first now s x xs m n sorted e =
    elim (Bool-cases (timer_lt now (timeout_of s.event x))) [
      | inl early ↦
          let again = timeradd-timersub (timeout_of s.event x) now n m early in
          (
            timersub (timeout_of s.event x) now,
            rw (e, early),
            inr (again, rw again (rw e at sorted).0),
          )
      | inr due ↦ (_, rw (e, due), inl (refl, due))
    ]
