-- ===== src/Daemon/Callbacks.antt =====
-- The timed callbacks of libril/ril.cpp that release the wake lock.
use rild_hisi.Common.{
  ℕ, suc, ◌≤◌, ◌≡◌, ◌≢◌, refl, subst, inl, inr, Bool, true, false, not, List, [], ◌∷◌, Option, none,
  some, arith, ◌==◌, ==_iff, ◌&&◌, if◌then◌else◌, Bool-cases,
}
use rild_hisi.Daemon.{UserCallbackInfo}
use rild_hisi.Daemon.Unsolicited.{set_user_param, remove_callback, forget_last}

-- A wake timeout that is not cancelled.
unfoldable pub is_live : UserCallbackInfo → Bool
is_live c = c.wake && not c.user_param

unfoldable pub live_count : List UserCallbackInfo → ℕ
unfolding is_live
live_count [] = 0
live_count (c ∷ cs) = let n = live_count cs in if is_live c then suc n else n

unfoldable pub find_callback : ℕ → List UserCallbackInfo → Option UserCallbackInfo
find_callback id [] = none
find_callback id (c ∷ cs) = if c.id == id then some c else find_callback id cs

abbrev pub IsFree : ℕ → List UserCallbackInfo → Type 0
IsFree id [] = Unit
IsFree id (c ∷ cs) = (c.id ≢ id) × IsFree id cs

-- Every live wake timeout is the last one.
abbrev pub OnlyLast : Option ℕ → List UserCallbackInfo → Type 0
OnlyLast last [] = Unit
OnlyLast last (c ∷ cs) = (is_live c ≡ true → last ≡ some c.id) × OnlyLast last cs

abbrev pub IsApart : List UserCallbackInfo → Type 0
IsApart [] = Unit
IsApart (c ∷ cs) = IsFree c.id cs × IsApart cs

pub only_other :
    (id : ℕ) (cs : List UserCallbackInfo) → IsFree id cs → OnlyLast (some id) cs → live_count cs ≡ 0
unfolding live_count
only_other id [] f o = refl
only_other id (c ∷ cs) f o = ground (arith, only_other id cs f.1 o.1)

pub none_last : (cs : List UserCallbackInfo) → OnlyLast none cs → live_count cs ≡ 0
unfolding live_count
none_last [] o = refl
none_last (c ∷ cs) o = ground (arith, none_last cs o.1)

-- One live timeout at most.
pub live_count_le :
    (last : Option ℕ) (cs : List UserCallbackInfo)
    → IsApart cs
    → OnlyLast last cs
    → live_count cs ≤ 1
unfolding live_count
live_count_le last [] a o = omega arith
live_count_le last (c ∷ cs) a o = elim (Bool-cases (is_live c)) [
  | inl live ↦
      let last_eq = o.0 live in
      let rest = only_other c.id cs a.0 (subst (λ l. OnlyLast l cs) last_eq o.1) in
      rw (live, rest) (omega arith)
  | inr dead ↦ rw dead (live_count_le last cs a.1 o.1)
]

pub no_live_OnlyLast :
    (last : Option ℕ) (cs : List UserCallbackInfo) → live_count cs ≡ 0 → OnlyLast last cs
unfolding live_count
no_live_OnlyLast last [] h = tt
no_live_OnlyLast last (c ∷ cs) h = ground (arith, no_live_OnlyLast last cs)

-- Cancelling the last timeout leaves none live.
pub live_count-cancel :
    (id : ℕ) (cs : List UserCallbackInfo)
    → OnlyLast (some id) cs
    → live_count (set_user_param id cs) ≡ 0
unfolding live_count set_user_param is_live
live_count-cancel id [] o = refl
live_count-cancel id (c ∷ cs) o = ground (arith, live_count-cancel id cs o.1)

pub IsFree-cancel :
    (k id : ℕ) (cs : List UserCallbackInfo) → IsFree k cs → IsFree k (set_user_param id cs)
unfolding set_user_param
IsFree-cancel k id [] f = tt
IsFree-cancel k id (c ∷ cs) f = ground (arith, IsFree-cancel k id cs f.1)

pub IsApart-cancel :
    (id : ℕ) (cs : List UserCallbackInfo) → IsApart cs → IsApart (set_user_param id cs)
unfolding set_user_param
IsApart-cancel id [] a = tt
IsApart-cancel id (c ∷ cs) a =
    ground (arith, IsFree-cancel c.id id cs a.0, IsApart-cancel id cs a.1)

pub IsFree-remove :
    (k id : ℕ) (cs : List UserCallbackInfo) → IsFree k cs → IsFree k (remove_callback id cs)
unfolding remove_callback
IsFree-remove k id [] f = tt
IsFree-remove k id (c ∷ cs) f = ground (arith, f.0, f.1, IsFree-remove k id cs f.1)

pub IsApart-remove :
    (id : ℕ) (cs : List UserCallbackInfo) → IsApart cs → IsApart (remove_callback id cs)
unfolding remove_callback
IsApart-remove id [] a = tt
IsApart-remove id (c ∷ cs) a =
    ground (arith, a.0, a.1, IsFree-remove c.id id cs a.0, IsApart-remove id cs a.1)

pub OnlyLast-forget :
    (id : ℕ) (last : Option ℕ) (cs : List UserCallbackInfo)
    → IsFree id cs
    → OnlyLast last cs
    → OnlyLast (forget_last id last) cs
OnlyLast-forget id last [] f o = tt
OnlyLast-forget id last (c ∷ cs) f o = (still, OnlyLast-forget id last cs f.1 o.1)
  where
    still : is_live c ≡ true → forget_last id last ≡ some c.id
    still live = ground (arith, o.0 live, f.0)

pub OnlyLast-remove :
    (id : ℕ) (last : Option ℕ) (cs : List UserCallbackInfo)
    → IsApart cs
    → OnlyLast last cs
    → OnlyLast (forget_last id last) (remove_callback id cs)
unfolding remove_callback
OnlyLast-remove id last [] a o = tt
OnlyLast-remove id last (c ∷ cs) a o = elim (Bool-cases (c.id == id)) [
  | inl hit ↦ rw hit (
      subst (λ k. OnlyLast (forget_last k last) cs) ((==_iff c.id id).0 hit)
        (OnlyLast-forget c.id last cs a.0 o.1))
  | inr miss ↦ rw miss (still miss, OnlyLast-remove id last cs a.1 o.1)
]
  where
    still : (c.id == id) ≡ false → is_live c ≡ true → forget_last id last ≡ some c.id
    still miss live = ground (arith, o.0 live)

pub live_count-remove :
    (id : ℕ) (cs : List UserCallbackInfo) (c : UserCallbackInfo)
    → find_callback id cs ≡ some c
    → is_live c ≡ false
    → live_count (remove_callback id cs) ≡ live_count cs
unfolding remove_callback live_count find_callback
live_count-remove id [] c f n = absurd (cc)
live_count-remove id (x ∷ cs) c f n = ground (arith, live_count-remove id cs c)

-- A callback that is in the list is found.
found_behind :
    (c d : UserCallbackInfo) (cs : List UserCallbackInfo)
    → IsFree c.id cs
    → find_callback d.id cs ≡ some d
    → find_callback d.id (c ∷ cs) ≡ some d
unfolding find_callback
found_behind c d cs free e = elim (Bool-cases (c.id == d.id)) [
  | inr other ↦ rw other e
  | inl same ↦ absurd (missing cs (subst (λ k. IsFree k cs) ((==_iff c.id d.id).0 same) free) e)
]
  where
    missing : (cs : List UserCallbackInfo) → IsFree d.id cs → find_callback d.id cs ≡ some d → ⊥
    missing [] f e = absurd (cc)
    missing (x ∷ xs) f e = elim (Bool-cases (x.id == d.id)) [
      | inl hit ↦ f.0 ((==_iff x.id d.id).0 hit)
      | inr miss ↦ missing xs f.1 (rw miss at e)
    ]

pub live-find :
    (cs : List UserCallbackInfo)
    → IsApart cs
    → 1 ≤ live_count cs
    → (c : UserCallbackInfo) × (find_callback c.id cs ≡ some c) × (is_live c ≡ true)
unfolding live_count find_callback
live-find [] a h = absurd (omega arith)
live-find (c ∷ cs) a h = elim (Bool-cases (is_live c)) [
  | inl live ↦ (c, rw ((==_iff c.id c.id).1 refl) refl, live)
  | inr dead ↦
      let (d, found, live) = live-find cs a.1 (rw dead at h) in
      (d, found_behind c d cs a.0 found, live)
]
