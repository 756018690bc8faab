-- ===== src/ReferenceRil/PowerReplies.antt =====
-- What the functions of reference-ril/reference-ril.c that set the radio state complete a request
-- with.
use rild_hisi.Common.{ℕ, zero, suc, not, ◌&&◌, ◌==◌, ltb, ◌∷◌, Bool-cases, inl, inr}
use rild_hisi.Common.Int.{ℤ, pos, ◌==ℤ◌}
use rild_hisi.Telephony.Data.{Data}
use rild_hisi.Dispatch.{RequestInfo}
use rild_hisi.ReferenceRil.Query.{Host}
use rild_hisi.ReferenceRil.Radio.{
  stored_state, state_changed, power_on_commands, set_radio_state, set_radio, set_and_succeed,
  power_off, power_on, switch_power, is_positive, request_radio_power,
}
use rild_hisi.ReferenceRil.Marshalling.{Replies, null-Replies, settle_any-Replies, bind-Replies}

module _ (host : Host) (version : ℕ) (info : RequestInfo) (t : ℕ) where
  power_on_commands-Replies : Replies host.platform version info (power_on_commands host)
  power_on_commands-Replies =
      settle_any-Replies host.platform version info _ _ _ (λ u w h. h) (λ w h. h)

  set_radio_state-Replies :
      (n new : ℕ) → Replies host.platform version info (set_radio_state host n new)
  unfolding set_radio_state
  set_radio_state-Replies zero new w h = tt
  set_radio_state-Replies (suc n) new w h =
      let now = stored_state w.closed new in
      let changed = state_changed now w in
      elim (Bool-cases (now == w.radio)) [
        | inl same ↦ rw same h
        | inr differs ↦ elim (Bool-cases (now == 2)) [
          | inl on ↦
              rw (differs, on)
                (bind-Replies host.platform version info (power_on_commands host changed) _
                  (power_on_commands-Replies changed h) (set_radio_state-Replies n 4))
          | inr other ↦ rw (differs, other) h
        ]
      ]

  set_and_succeed-Replies :
      (new : ℕ) → Replies host.platform version info (set_and_succeed host t new)
  unfolding set_radio
  set_and_succeed-Replies new w h =
      bind-Replies host.platform version info (set_radio_state host 2 new w) _
        (set_radio_state-Replies 2 new w h) (null-Replies host.platform version info t 0)

  power_off-Replies : Replies host.platform version info (power_off host t)
  power_off-Replies =
      settle_any-Replies host.platform version info _ _ _ (λ r. set_and_succeed-Replies 0)
        (null-Replies host.platform version info t 2)

  power_on-Replies : Replies host.platform version info (power_on host t)
  power_on-Replies =
      settle_any-Replies host.platform version info _ _ _ (λ r. set_and_succeed-Replies 2)
        (set_and_succeed-Replies 2)

  switch_power-Replies : (z : ℤ) → Replies host.platform version info (switch_power host z t)
  switch_power-Replies z w h = elim (Bool-cases (z ==ℤ pos 0 && not (w.radio == 0))) [
    | inl off ↦ rw off (power_off-Replies w h)
    | inr stays ↦ elim (Bool-cases (is_positive host z && w.radio == 0)) [
      | inl on ↦ rw (stays, on) (power_on-Replies w h)
      | inr kept ↦ rw (stays, kept) (null-Replies host.platform version info t 0 w h)
    ]
  ]

  pub radio_power-Replies :
      (d : Data) (len : ℕ) → Replies host.platform version info (request_radio_power host d len t)
  unfolding request_radio_power
  radio_power-Replies (Data.ints (z ∷ zs)) len w h =
      elim (Bool-cases (ltb len host.platform.size_ptr)) [
        | inl short ↦ rw short tt
        | inr long ↦ rw long (switch_power-Replies z w h)
      ]
  radio_power-Replies d len w h = tt
