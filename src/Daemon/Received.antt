-- ===== src/Daemon/Received.antt =====
-- The command blocks that processCommandBuffer of libril/ril.cpp accepts.
use rild_hisi.Common.{
  ℕ, zero, suc, ◌≡◌, ◌≢◌, ◌≤◌, ◌<◌, refl, ap, ◌∙◌, ◌⊎◌, inl, inr, false, List, [], ◌∷◌, Option,
  none, some, length, get_elem?, Option-cases, arith,
}
use rild_hisi.Common.Int.{ℤ, pos, negsuc}
use rild_hisi.Telephony.{Bytes}
use rild_hisi.Parcel.{Platform, ParcelLaws, Item, int32}
use rild_hisi.Dispatch.{RequestInfo, Outcome}
use rild_hisi.Commands.{CommandInfo, call_dispatch}
use rild_hisi.Commands.Tables.{commands}
use rild_hisi.Commands.Numbers.{commands-get_elem?}
use rild_hisi.Daemon.{Daemon}
use rild_hisi.Daemon.Requests.{command_of, process_command_buffer}

-- A request code that is no index of s_commands, or is 0
abbrev pub IsOutside : ℤ → Type 0
IsOutside (negsuc n) = Unit
IsOutside (pos n) = (n ≡ 0) ⊎ (length commands ≤ n)

get_elem?-none : {A : Type 0} (xs : List A) (n : ℕ) → get_elem? xs n ≡ none → length xs ≤ n
get_elem?-none [] n e = omega arith
get_elem?-none (x ∷ xs) zero e = absurd (cc)
get_elem?-none (x ∷ xs) (suc n) e = omega (arith, get_elem?-none xs n e)

get_elem?-some :
    {A : Type 0} (xs : List A) (n : ℕ) (a : A) → get_elem? xs n ≡ some a → n < length xs
get_elem?-some [] n a e = absurd (cc)
get_elem?-some (x ∷ xs) zero a e = omega arith
get_elem?-some (x ∷ xs) (suc n) a e = omega (arith, get_elem?-some xs n a e)

module _ {api : Platform} (L : ParcelLaws api) where
  open api use {Parcel}
  open L use {after}

  process_command_buffer_known :
      (d : Daemon) (id n : ℕ) (token : ℤ) (ci : CommandInfo) (buffer : Bytes) (r : List Item)
      → command_of (pos n) ≡ some ci
      → after (api.set_data buffer) ≡ int32 (pos n) ∷ int32 token ∷ r
      → let info : RequestInfo = record {
        id = id;
        token = token;
        request_number = ci.request_number;
        cancelled = false;
        local = false;
      } in
        (p : Parcel) × (after p ≡ r)
        × (process_command_buffer api d id buffer ≡ (
          record d { pending = info ∷ d.pending },
          some (call_dispatch api ci.dispatch_function d.version p info),
        ))
  unfolding process_command_buffer
  process_command_buffer_known d id n token ci buffer r known a =
      let (q1, e1, a1) = L.read-int32 _ _ _ a in
      let (q2, e2, a2) = L.read-int32 q1 _ _ a1 in (q2, a2, rw (e1, e2, known) (rw (e1, e2)))

  process_command_buffer_unknown :
      (d : Daemon) (id : ℕ) (request token : ℤ) (buffer : Bytes) (r : List Item)
      → command_of request ≡ none
      → (after (api.set_data buffer) ≡ int32 request ∷ int32 token ∷ r)
        ⊎ (after (api.set_data buffer) ≡ int32 request ∷ [])
      → process_command_buffer api d id buffer ≡ (d, none)
  unfolding process_command_buffer
  process_command_buffer_unknown d id request token buffer r unknown (inl a) =
      let (q1, e1, a1) = L.read-int32 _ _ _ a in
      let (q2, e2, a2) = L.read-int32 q1 _ _ a1 in rw (e1, e2, unknown)
  process_command_buffer_unknown d id request token buffer r unknown (inr a) =
      let (q1, e1, a1) = L.read-int32 _ _ _ a in rw (e1, L.read-int32_end _ q1 a1)

  abbrev pub accepted : ℕ → ℕ → ℤ → RequestInfo
  accepted id n token = record {
    id = id;
    token = token;
    request_number = n;
    cancelled = false;
    local = false;
  }

  -- What becomes of a block with this request code, this token and the items `r` behind them
  abbrev pub Processed : Daemon → ℕ → ℤ → ℤ → List Item → Daemon × Option Outcome → Type 0
  Processed d id request token r result =
      ((n : ℕ) × (ci : CommandInfo) × (p : Parcel) × (request ≡ pos n)
        × (n ≢ 0)
        × (n < length commands)
        × (get_elem? commands n ≡ some ci)
        × (ci.request_number ≡ n)
        × (after p ≡ r)
        × (result ≡ (
          record d { pending = accepted id n token ∷ d.pending },
          some (call_dispatch api ci.dispatch_function d.version p (accepted id n token)),
        )))
      ⊎ (IsOutside request × (result ≡ (d, none)))

  -- A command block whose request code is from 1 to the last index of s_commands becomes a pending
  -- request with this code and its token, and goes to the dispatch function of the row at this index,
  -- which is the row of this code. Any other code is ignored: nothing becomes pending and nothing is
  -- dispatched.
  pub process_command_buffer-Processed :
      (d : Daemon) (id : ℕ) (request token : ℤ) (buffer : Bytes) (r : List Item)
      → after (api.set_data buffer) ≡ int32 request ∷ int32 token ∷ r
      → Processed d id request token r (process_command_buffer api d id buffer)
  unfolding command_of
  process_command_buffer-Processed d id (negsuc n) token buffer r a =
      inr (tt, process_command_buffer_unknown d id (negsuc n) token buffer r refl (inl a))
  process_command_buffer-Processed d id (pos zero) token buffer r a =
      inr (inl refl, process_command_buffer_unknown d id (pos 0) token buffer r refl (inl a))
  process_command_buffer-Processed d id (pos (suc n)) token buffer r a =
      elim (Option-cases (get_elem? commands (suc n))) [
        | inl missing ↦ inr (
          inr (get_elem?-none commands (suc n) missing),
          process_command_buffer_unknown d id (pos (suc n)) token buffer r missing (inl a),
        )
        | inr (ci, there) ↦
            let number = commands-get_elem? (suc n) ci there in
            let (p, rest, done) =
              process_command_buffer_known d id (suc n) token ci buffer r there a in
            inl (
              suc n,
              ci,
              p,
              refl,
              (λ e. absurd (omega arith)),
              get_elem?-some commands (suc n) ci there,
              there,
              number,
              rest,
              done
                  ∙ ap
                      (λ k. (
                        record d { pending = accepted id k token ∷ d.pending },
                        some (
                            call_dispatch api ci.dispatch_function d.version p
                              (accepted id k token)),
                      ))
                      number,
            )
      ]
