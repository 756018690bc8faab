-- ===== src/Events/Order.antt =====
-- The order of the timer list of libril/ril_event.cpp.
use rild_hisi.Common.{
  ℕ, ◌<◌, ◌≡◌, refl, inl, inr, true, false, List, [], ◌∷◌, arith, All, Bool-cases,
}
use rild_hisi.Events.{Timeval, timer_lt, insert_timer}

-- A time with less than a second of microseconds.
abbrev pub IsNormal : Timeval → Type 0
IsNormal t = t.usec < 1000000

-- No later element is earlier.
abbrev pub IsSorted : (ℕ → Timeval) → List ℕ → Type 0
IsSorted timeout [] = Unit
IsSorted timeout (x ∷ xs) =
    All (λ y. timer_lt (timeout y) (timeout x) ≡ false) xs × IsSorted timeout xs

timer_lt_trans :
    (a b c : Timeval) → timer_lt b a ≡ false → timer_lt c b ≡ false → timer_lt c a ≡ false
unfolding timer_lt
timer_lt_trans a b c h k = ground arith

timer_lt_asym : (a b : Timeval) → timer_lt a b ≡ true → timer_lt b a ≡ false
unfolding timer_lt
timer_lt_asym a b h = ground arith

-- What is due is late by the time at which it is found.
pub lt_trans_due :
    (a b now : Timeval) → timer_lt a now ≡ false → timer_lt b a ≡ false → timer_lt b now ≡ false
unfolding timer_lt
lt_trans_due a b now h k = ground arith

pub All-map : {P Q : ℕ → Type 0} (xs : List ℕ) → ((x : ℕ) → P x → Q x) → All P xs → All Q xs
All-map [] f h = tt
All-map (x ∷ xs) f h = (f x h.0, All-map xs f h.1)

-- A new timer that is not in the list and is due at `t`.
All-insert_timer :
    (P : ℕ → Type 0) (timeout : ℕ → Timeval) (ev : ℕ) (t : Timeval) (xs : List ℕ)
    → P ev
    → All P xs
    → All P (insert_timer timeout ev t xs)
unfolding insert_timer
All-insert_timer P timeout ev t [] p h = (p, tt)
All-insert_timer P timeout ev t (x ∷ xs) p h = elim (Bool-cases (timer_lt (timeout x) t)) [
  | inl earlier ↦ rw earlier (h.0, All-insert_timer P timeout ev t xs p h.1)
  | inr later ↦ rw later (p, (h.0, h.1))
]

pub insert_timer-IsSorted :
    (timeout : ℕ → Timeval) (ev : ℕ) (xs : List ℕ)
    → IsSorted timeout xs
    → IsSorted timeout (insert_timer timeout ev (timeout ev) xs)
unfolding insert_timer
insert_timer-IsSorted timeout ev [] h = (tt, tt)
insert_timer-IsSorted timeout ev (x ∷ xs) h =
    elim (Bool-cases (timer_lt (timeout x) (timeout ev))) [
      | inl earlier ↦ rw earlier (
        All-insert_timer (λ y. timer_lt (timeout y) (timeout x) ≡ false) timeout ev (timeout ev) xs
            (timer_lt_asym (timeout x) (timeout ev) earlier) h.0,
        insert_timer-IsSorted timeout ev xs h.1,
      )
      | inr later ↦ rw later (
        (
          later,
          All-map xs (λ y k. timer_lt_trans (timeout ev) (timeout x) (timeout y) later k) h.0,
        ),
        (h.0, h.1),
      )
    ]

-- Two times that agree on a list.
pub IsSorted-cong :
    (f g : ℕ → Timeval) (xs : List ℕ) → All (λ x. g x ≡ f x) xs → IsSorted f xs → IsSorted g xs
IsSorted-cong f g [] e h = tt
IsSorted-cong f g (x ∷ xs) e h = (later xs e.1 h.0, IsSorted-cong f g xs e.1 h.1)
  where
    later :
        (ys : List ℕ)
        → All (λ y. g y ≡ f y) ys
        → All (λ y. timer_lt (f y) (f x) ≡ false) ys
        → All (λ y. timer_lt (g y) (g x) ≡ false) ys
    later [] k l = tt
    later (y ∷ ys) k l = (rw (k.0, e.0) l.0, later ys k.1 l.1)

pub insert_timer-cong :
    (f g : ℕ → Timeval) (ev : ℕ) (t : Timeval) (xs : List ℕ)
    → All (λ x. g x ≡ f x) xs
    → insert_timer f ev t xs ≡ insert_timer g ev t xs
unfolding insert_timer
insert_timer-cong f g ev t [] e = refl
insert_timer-cong f g ev t (x ∷ xs) e = rw (e.0, insert_timer-cong f g ev t xs e.1)
