-- ===== src/ReferenceRil/RadioRuns.antt =====
-- What happens to the radio state of reference-ril/reference-ril.c, event by event: the request for
-- the radio's power through onRequest, and the callbacks.
use rild_hisi.Common.{
  ℕ, zero, suc, ◌≡◌, refl, Bool, true, false, not, ◌&&◌, List, ◌∷◌, Option, none, some, arith, ltb,
  ◌==◌, subst, Bool-cases, inl, inr, ◌⊎◌, ◌>>=◌,
}
use rild_hisi.Common.Int.{ℤ, pos, ◌==ℤ◌}
use rild_hisi.Telephony.Data.{Data}
use rild_hisi.ReferenceRil.Query.{Host, Query, Result, ok, err, fault, Command}
use rild_hisi.ReferenceRil.State.{Ril, Action, settle, settle_result}
use rild_hisi.ReferenceRil.Radio.{
  set_radio_state, set_radio, set_and_succeed, power_off, power_on, is_positive, switch_power,
  request_radio_power, initialize_callback, on_at_reader_closed, on_at_timeout, open_channel,
}
use rild_hisi.ReferenceRil.RadioStates.{
  settled, Returns, set_radio_state-Returns, Move, stayed, turned_on, turned_off, started, lost,
  IsSettledAt, IsSettled, Moves, Returns-Moves,
}
use rild_hisi.ReferenceRil.OnRequest.{is_ignored, on_request}

-- RIL_REQUEST_RADIO_POWER with its payload, its length and its token; the callback that mainLoop
-- asks for; the end of the channel; a timeout; mainLoop opens the channel.
pub data RadioEvent : Type 0 where
  powered : Data → ℕ → ℕ → RadioEvent
  initialized ended timed_out opened : RadioEvent

is_on :
    (z : ℤ) (radio : ℕ)
    → (z ==ℤ pos 0 && not (radio == 0)) ≡ true
    → (radio == 1) ≡ false
    → (radio ≡ 0) ⊎ ((radio ≡ 1) ⊎ (radio ≡ 4))
    → radio ≡ 4
is_on z radio off known (inl e) = absurd (and_not (z ==ℤ pos 0) (radio == 0) off (rw e refl))
  where
    and_not : (a b : Bool) → (a && not b) ≡ true → b ≡ true → ⊥
    and_not a b h e = ground arith
is_on z radio off known (inr (inl e)) = absurd (cc)
is_on z radio off known (inr (inr e)) = e

is_off : (b : Bool) (radio : ℕ) → (b && radio == 0) ≡ true → radio ≡ 0
is_off b radio on = ground arith

module _ (host : Host) where
  unfoldable pub radio_event : RadioEvent → Action
  unfolding on_request initialize_callback on_at_reader_closed on_at_timeout open_channel
  radio_event (powered d len t) w = on_request host 23 d len none t w
  radio_event initialized w = initialize_callback host w
  radio_event ended w = on_at_reader_closed host w
  radio_event timed_out w = on_at_timeout host w
  radio_event opened w = some (open_channel host w)

  settle-Moves :
      {A : Type 0} (before : ℕ) (q : Query A) (k : A → Action) (e : Action) (w : Ril)
      → ((a : A) (sent : List Command) → Moves before (k a (record w { sent = sent })))
      → ((sent : List Command) → Moves before (e (record w { sent = sent })))
      → Moves before (settle q k e w)
  unfolding settle
  settle-Moves {A = A} before q k e w hk he = go (q w.sent)
    where
      go : (r : Result A) → Moves before (settle_result r k e w)
      go (ok a sent) = hk a sent
      go (err sent) = he sent
      go fault = tt

  set_and_succeed-Moves :
      (before t new : ℕ) (w : Ril)
      → IsSettledAt w.closed (settled w.closed w.radio new)
      → Move before (settled w.closed w.radio new)
      → Moves before (set_and_succeed host t new w)
  unfolding set_radio
  set_and_succeed-Moves before t new w h moved =
      let (w', e, c, s) = set_radio_state-Returns host 0 new w in rw (e, c, s) (h, moved)

  -- The radio is on or off, and the channel open.
  power_off-Moves :
      (t : ℕ) (w : Ril) → w.closed ≡ 0 → w.radio ≡ 4 → Moves w.radio (power_off host t w)
  power_off-Moves t w up on =
      settle-Moves w.radio _ _ _ w
        (λ r sent.
          set_and_succeed-Moves w.radio t 0 (record w { sent = sent }) (rw up (inl refl, inl refl))
            (rw (up, on) turned_off))
        (λ sent. rw (up, on) ((inl refl, inr (inr refl)), stayed 4))

  power_on-Moves :
      (t : ℕ) (w : Ril) → w.closed ≡ 0 → w.radio ≡ 0 → Moves w.radio (power_on host t w)
  power_on-Moves t w up off =
      let on : (sent : List Command)
          → Moves w.radio (set_and_succeed host t 2 (record w { sent = sent })) =
        λ sent.
          set_and_succeed-Moves w.radio t 2 (record w { sent = sent })
            (rw (up, off) (inl refl, inr (inr refl))) (rw (up, off) turned_on) in
      settle-Moves w.radio _ _ _ w (λ r sent. on sent) on

  switch_power-Moves :
      (z : ℤ) (t : ℕ) (w : Ril)
      → IsSettled w
      → w.closed ≡ 0
      → (w.radio == 1) ≡ false
      → Moves w.radio (switch_power host z t w)
  switch_power-Moves z t w h up known = elim (Bool-cases (z ==ℤ pos 0 && not (w.radio == 0))) [
    | inl off ↦ rw off (power_off-Moves t w up (is_on z w.radio off known h.1))
    | inr stays ↦ elim (Bool-cases (is_positive host z && w.radio == 0)) [
      | inl on ↦ rw (stays, on) (power_on-Moves t w up (is_off (is_positive host z) w.radio on))
      | inr kept ↦ rw (stays, kept) (h, stayed w.radio)
    ]
  ]

  request_radio_power-Moves :
      (d : Data) (len t : ℕ) (w : Ril)
      → IsSettled w
      → w.closed ≡ 0
      → (w.radio == 1) ≡ false
      → Moves w.radio (request_radio_power host d len t w)
  unfolding request_radio_power
  request_radio_power-Moves (Data.ints (z ∷ zs)) len t w h up known =
      elim (Bool-cases (ltb len host.platform.size_ptr)) [
        | inl short ↦ rw short tt
        | inr long ↦ rw long (switch_power-Moves z t w h up known)
      ]
  request_radio_power-Moves d len t w h up known = tt

  not_unavailable : (w : Ril) → IsSettled w → (w.radio == 1) ≡ false → w.closed ≡ 0
  not_unavailable w h known = ground arith

  on_request-Moves :
      (d : Data) (len t : ℕ) (w : Ril)
      → IsSettled w
      → Moves w.radio (on_request host 23 d len none t w)
  unfolding on_request
  on_request-Moves d len t w h = elim (Bool-cases (is_ignored host w.radio 23)) [
    | inl ignored ↦ rw ignored (h, stayed w.radio)
    | inr served ↦
        let known : (w.radio == 1) ≡ false = ground arith in
        rw served (request_radio_power-Moves d len t w h (not_unavailable w h known) known)
  ]

  bind-Moves :
      (before closed radio : ℕ) (m : Option Ril) (f : Action)
      → Returns closed radio m
      → ((w : Ril) → w.closed ≡ closed → w.radio ≡ radio → Moves before (f w))
      → Moves before (m >>= f)
  bind-Moves before closed radio m f (w, e, c, s) h = rw e (h w c s)

  -- The radio is turned off, and on again; where the channel is closed it gets unavailable.
  turned-Moves :
      (closed radio : ℕ)
      → IsSettledAt closed radio
      → let end = settled closed (settled closed radio 0) 2 in
        IsSettledAt closed end × Move radio end
  turned-Moves zero radio (up, inl off) = rw off ((inl refl, inr (inr refl)), turned_on)
  turned-Moves zero radio (up, inr (inl down)) = rw down ((inl refl, inr (inr refl)), started)
  turned-Moves zero radio (up, inr (inr on)) = rw on ((inl refl, inr (inr refl)), stayed 4)
  turned-Moves (suc n) radio h = elim (Bool-cases (ltb 0 (suc n))) [
    | inl closed ↦ rw closed ((inr refl, inr (inl refl)), lost radio)
    | inr up ↦ absurd (ground arith)
  ]

  initialize-Moves : (w : Ril) → IsSettled w → Moves w.radio (initialize_callback host w)
  unfolding initialize_callback
  initialize-Moves w h =
      let ends = turned-Moves w.closed w.radio h in
      bind-Moves w.radio w.closed (settled w.closed w.radio 0) (set_radio_state host 2 0 w)
        (set_radio_state host 2 2) (set_radio_state-Returns host 0 0 w)
        λ w1 c s.
          Returns-Moves w.closed (settled w.closed (settled w.closed w.radio 0) 2) w.radio _
            (subst
              (λ c.
                Returns c (settled c (settled w.closed w.radio 0) 2) (set_radio_state host 2 2 w1))
              c
              (subst (λ s. Returns w1.closed (settled w1.closed s 2) (set_radio_state host 2 2 w1))
                s (set_radio_state-Returns host 0 2 w1)))
            ends.0 ends.1

  closed-Moves : (w : Ril) → Moves w.radio (set_radio host 1 (record w { closed = 1 }))
  unfolding set_radio
  closed-Moves w =
      Returns-Moves 1 1 w.radio _ (set_radio_state-Returns host 0 1 (record w { closed = 1 }))
        (inr refl, inr (inl refl)) (lost w.radio)

  -- Whatever the modem answers, an event at a radio that is unavailable, off or ready (unavailable if
  -- the channel is closed) leaves it so, if nothing is undefined, and changes the radio, if at all,
  -- from off to ready, from ready to off, from unavailable to ready, or to unavailable.
  pub radio_event-Moves : (e : RadioEvent) (w : Ril) → IsSettled w → Moves w.radio (radio_event e w)
  unfolding radio_event
  radio_event-Moves (powered d len t) w h = on_request-Moves d len t w h
  radio_event-Moves initialized w h = initialize-Moves w h
  radio_event-Moves ended w h = closed-Moves w
  radio_event-Moves timed_out w h = closed-Moves w
  radio_event-Moves opened w h = ((inl refl, h.1), stayed w.radio)
