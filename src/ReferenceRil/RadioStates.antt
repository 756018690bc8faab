-- ===== src/ReferenceRil/RadioStates.antt =====
-- The radio states that reference-ril/reference-ril.c goes through.
use rild_hisi.Common.{
  ℕ, suc, ◌≡◌, refl, true, not, ◌&&◌, Option, none, some, arith, ◌==◌, Bool-cases, inl, inr, ◌⊎◌,
  if◌then◌else◌, ◌>>=◌,
}
use rild_hisi.ReferenceRil.Query.{Host, and_then}
use rild_hisi.ReferenceRil.State.{Ril, settle}
use rild_hisi.ReferenceRil.Radio.{
  stored_state, state_changed, store_state, power_on_commands, set_radio_state,
}

-- Where setRadioState ends: the SIM is taken to be ready as soon as the radio turns on.
abbrev pub settled : ℕ → ℕ → ℕ → ℕ
settled closed old new =
    let now = stored_state closed new in if now == 2 && not (now == old) then 4 else now

-- s_closed and sState are such.
abbrev pub Returns : ℕ → ℕ → Option Ril → Type 0
Returns closed radio r = (w : Ril) × (r ≡ some w) × (w.closed ≡ closed) × (w.radio ≡ radio)

store_state-Returns :
    (now : ℕ) (w : Ril) (powered : Option Ril)
    → ((now == 2) ≡ true → Returns w.closed 4 powered)
    → Returns w.closed
        (if now == 2 && not (now == w.radio) then 4 else now)
        (store_state now w powered)
store_state-Returns now w powered h = elim (Bool-cases (now == w.radio)) [
  | inl same ↦ elim (Bool-cases (now == 2)) [
    | inl on ↦ rw (same, on) (record w { radio = now }, refl, refl, refl)
    | inr other ↦ rw (same, other) (record w { radio = now }, refl, refl, refl)
  ]
  | inr differs ↦ elim (Bool-cases (now == 2)) [
    | inl on ↦ rw (differs, on) (h on)
    | inr other ↦ rw (differs, other) (state_changed now w, refl, refl, refl)
  ]
]

not_closed : (closed new : ℕ) → (stored_state closed new == 2) ≡ true → stored_state closed 4 ≡ 4
not_closed closed new h = ground arith

module _ (host : Host) where
  ready-Returns :
      (n : ℕ) (w : Ril)
      → stored_state w.closed 4 ≡ 4
      → Returns w.closed 4 (set_radio_state host (suc n) 4 w)
  unfolding set_radio_state
  ready-Returns n w up = rw up (
      store_state-Returns 4 w
        (power_on_commands host (state_changed 4 w) >>= set_radio_state host n 4) λ on. absurd (cc))

  -- setRadioState returns after at most two calls of itself, and leaves s_closed as it was: the radio
  -- is unavailable if the channel is closed, and else ready if it was turned on, or in the new state.
  pub set_radio_state-Returns :
      (n new : ℕ) (w : Ril)
      → Returns w.closed (settled w.closed w.radio new) (set_radio_state host (suc (suc n)) new w)
  unfolding set_radio_state settle and_then
  set_radio_state-Returns n new w =
      let now = stored_state w.closed new in
      store_state-Returns now w
        (power_on_commands host (state_changed now w) >>= set_radio_state host (suc n) 4)
        λ on. ready-Returns n _ (not_closed w.closed new on)

-- The changes of sState between two events
pub data Move : ℕ → ℕ → Type 0 where
  stayed : (radio : ℕ) → Move radio radio
  turned_on : Move 0 4
  turned_off : Move 4 0
  started : Move 1 4
  lost : (radio : ℕ) → Move radio 1

-- The radio is off, unavailable or ready, and unavailable while the channel is closed.
abbrev pub IsSettledAt : ℕ → ℕ → Type 0
IsSettledAt closed radio =
    ((closed ≡ 0) ⊎ (radio ≡ 1)) × ((radio ≡ 0) ⊎ ((radio ≡ 1) ⊎ (radio ≡ 4)))

abbrev pub IsSettled : Ril → Type 0
IsSettled w = IsSettledAt w.closed w.radio

-- What an event leads to, if nothing is undefined.
abbrev pub Moves : ℕ → Option Ril → Type 0
Moves radio none = Unit
Moves radio (some w) = IsSettled w × Move radio w.radio

pub Returns-Moves :
    (closed radio before : ℕ) (r : Option Ril)
    → Returns closed radio r
    → IsSettledAt closed radio
    → Move before radio
    → Moves before r
Returns-Moves closed radio before r (w, e, c, s) settled moved = rw (e, c, s) (settled, moved)
