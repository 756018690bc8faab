-- ===== src/Events/Watch.antt =====
-- The watch table of libril/ril_event.cpp and the descriptors that select is asked about.
use rild_hisi.Common.{
  ℕ, zero, suc, ◌+◌, ◌≤◌, ◌<◌, ◌≡◌, ◌≢◌, refl, sym, subst, ap, ◌∙◌, ◌⊎◌, inl, inr, true, false,
  List, [], ◌∷◌, Option, none, some, arith, ◌==◌, ==_iff, ltb, length, get_elem?, set,
  if◌then◌else◌, Bool-cases, get_elem?-set_self, get_elem?-set_ne,
}
use rild_hisi.Common.Int.{ℤ, pos, negsuc}
use mathlib.Core.Option.{some-injective}
use rild_hisi.Events.{Event, Events, put, free_slot, fd_of, max_fd, remove_watch}

-- The slot `i` holds the event `ev`, whose descriptor is `fd`.
pub record Watches (s : Events) (i ev fd : ℕ) : Type 0 where
  pub slot : get_elem? s.watch_table i ≡ some (some ev)
  pub opened : (s.event ev).fd ≡ some fd

-- An event in the table knows its slot, and select is asked about exactly the descriptors of the
-- table, each of which stands there once and is below nfds.
pub record WatchInv (s : Events) : Type 0 where
  pub indexed :
      (i ev : ℕ)
      → get_elem? s.watch_table i ≡ some (some ev)
      → ((s.event ev).index ≡ pos i) × ((fd : ℕ) × ((s.event ev).fd ≡ some fd))
  pub selected : (i ev fd : ℕ) → Watches s i ev fd → (s.read_fds fd ≡ true) × (fd < s.nfds)
  pub covered : (fd : ℕ) → s.read_fds fd ≡ true → (i : ℕ) × (ev : ℕ) × Watches s i ev fd
  pub apart : (i j ev ev' fd : ℕ) → Watches s i ev fd → Watches s j ev' fd → i ≡ j

pub fd-put_index :
    (event : ℕ → Event) (ev k : ℕ) (n : ℤ)
    → (put event ev (record (event ev) { index = n }) k).fd ≡ (event k).fd
unfolding put
fd-put_index event ev k n = elim (Bool-cases (k == ev)) [
  | inl same ↦ rw (same, (==_iff k ev).0 same)
  | inr other ↦ rw other
]

pub put_other : {A : Type 0} (f : ℕ → A) (k j : ℕ) (a : A) → j ≢ k → put f k a j ≡ f j
unfolding put
put_other f k j a h = ground arith

pub put_same : {A : Type 0} (f : ℕ → A) (k : ℕ) (a : A) → put f k a k ≡ a
unfolding put
put_same f k a = rw ((==_iff k k).1 refl)

max_fd_ge : (event : ℕ → Event) (n : ℕ) (slots : List (Option ℕ)) → n ≤ max_fd event n slots
unfolding max_fd
max_fd_ge event n [] = omega arith
max_fd_ge event n (slot ∷ slots) =
    ground (arith, max_fd_ge event n slots, max_fd_ge event (fd_of event slot) slots)

le_pick : (n k : ℕ) → k ≤ (if ltb n k then k else n)
le_pick n k = ground arith

-- The loop finds a descriptor that no other of the table exceeds.
max_fd_bound :
    (event : ℕ → Event) (n i ev fd : ℕ) (slots : List (Option ℕ))
    → get_elem? slots i ≡ some (some ev)
    → (event ev).fd ≡ some fd
    → fd ≤ max_fd event n slots
unfolding max_fd
max_fd_bound event n i ev fd [] g o = absurd (cc)
max_fd_bound event n zero ev fd (none ∷ slots) g o = absurd (cc)
max_fd_bound event n zero ev fd (some x ∷ slots) g o =
    let same : x ≡ ev = some-injective _ _ (some-injective _ _ g) in
    let k-is : fd_of event (some x) ≡ fd = rw (same, fd_of, o) in
    let k = fd_of event (some x) in
    omega (arith, k-is, le_pick n k, max_fd_ge event (if ltb n k then k else n) slots)
max_fd_bound event n (suc i) ev fd (slot ∷ slots) g o =
    let k = fd_of event slot in max_fd_bound event (if ltb n k then k else n) i ev fd slots g o

pub free_slot-get :
    (k i : ℕ) (slots : List (Option ℕ))
    → free_slot k slots ≡ some i
    → (j : ℕ) × (i ≡ k + j) × (get_elem? slots j ≡ some none)
unfolding free_slot
free_slot-get k i [] e = absurd (cc)
free_slot-get k i (none ∷ slots) e = (0, ground arith, refl)
free_slot-get k i (some ev ∷ slots) e =
    let (j, is, g) = free_slot-get (suc k) i slots e in (suc j, omega (arith, is), g)

-- Where no slot is free, no slot is NULL.
pub free_slot-full :
    (k : ℕ) (slots : List (Option ℕ)) (j : ℕ)
    → free_slot k slots ≡ none
    → get_elem? slots j ≢ some none
unfolding free_slot
free_slot-full k [] j e = λ g. absurd (cc)
free_slot-full k (none ∷ slots) j e = λ g. absurd (cc)
free_slot-full k (some ev ∷ slots) zero e = λ g. some_ne g
  where
    some_ne : ◌≡◌ {A = Option (Option ℕ)} (some (some ev)) (some none) → ⊥
    some_ne g = absurd (cc)
free_slot-full k (some ev ∷ slots) (suc j) e = free_slot-full (suc k) slots j e

pub get_elem?-length :
    {A : Type 0} (xs : List A) (i : ℕ) (a : A) → get_elem? xs i ≡ some a → i < length xs
get_elem?-length [] i a e = absurd (cc)
get_elem?-length (x ∷ xs) zero a e = omega arith
get_elem?-length (x ∷ xs) (suc i) a e = omega (arith, get_elem?-length xs i a e)

pub pos-injective : {a b : ℕ} → pos a ≡ pos b → a ≡ b
pos-injective e = ap (λ z. elim z [ pos n ↦ n | negsuc n ↦ 0 ]) e

pub differs : (i j : ℕ) → i ≡ j → (i == j) ≡ false → ⊥
differs i j e h = ground arith

-- What is in the table behind a write is what was written or was there.
pub get-set :
    {A : Type 0} (xs : List A) (i j : ℕ) (v w : A)
    → i < length xs
    → get_elem? (set xs i v) j ≡ some w
    → ((i ≡ j) × (v ≡ w)) ⊎ ((i ≢ j) × (get_elem? xs j ≡ some w))
get-set xs i j v w h e = elim (Bool-cases (i == j)) [
  | inl same ↦
      let is = (==_iff i j).0 same in
      inl (
        is,
        some-injective _ _ (sym (get_elem?-set_self xs i v h) ∙ ap (get_elem? (set xs i v)) is ∙ e),
      )
  | inr other ↦
      let ne : i ≢ j = λ is. absurd (differs i j is other) in
      inr (ne, sym (get_elem?-set_ne xs v ne) ∙ e)
]

module _ (ev i fd : ℕ) (s : Events) (inv : WatchInv s) (here : Watches s i ev fd) where
  table' : List (Option ℕ)
  table' = set s.watch_table i none

  left :
      (j ev' : ℕ)
      → get_elem? table' j ≡ some (some ev')
      → (get_elem? s.watch_table j ≡ some (some ev')) × (j ≢ i)
  unfolding table'
  left j ev' g =
      elim (get-set s.watch_table i j none (some ev') (get_elem?-length _ i _ here.slot) g) [
        | inl (is, gone) ↦ absurd (cc)
        | inr (ne, old) ↦ (old, λ e. ne (sym e))
      ]

  old : (j ev' fd' : ℕ) → Watches (remove_watch ev i s) j ev' fd' → Watches s j ev' fd'
  unfolding remove_watch table'
  old j ev' fd' w = record {
    slot = (left j ev' w.slot).0;
    opened = sym (fd-put_index s.event ev ev' (negsuc 0)) ∙ w.opened;
  }

  fd-is : fd_of s.event (some ev) ≡ fd
  fd-is = rw (fd_of, here.opened)

  removed-indexed :
      (j ev' : ℕ)
      → get_elem? table' j ≡ some (some ev')
      → (((remove_watch ev i s).event ev').index ≡ pos j)
        × ((fd' : ℕ) × (((remove_watch ev i s).event ev').fd ≡ some fd'))
  unfolding remove_watch
  removed-indexed j ev' g =
      let (before, ne) = left j ev' g in
      let (at, (fd', open')) = inv.indexed j ev' before in
      let (at_i, _) = inv.indexed i ev here.slot in
      let other : ev' ≢ ev =
        λ e. ne (pos-injective (sym at ∙ ap (λ k. (s.event k).index) e ∙ at_i)) in
      (
        ap (λ e. e.index) (put_other s.event ev ev' _ other) ∙ at,
        (fd', fd-put_index s.event ev ev' (negsuc 0) ∙ open'),
      )

  removed-selected :
      (j ev' fd' : ℕ)
      → Watches (remove_watch ev i s) j ev' fd'
      → ((remove_watch ev i s).read_fds fd' ≡ true) × (fd' < (remove_watch ev i s).nfds)
  unfolding remove_watch table'
  removed-selected j ev' fd' w =
      let before = old j ev' fd' w in
      let (read, lt) = inv.selected j ev' fd' before in
      let ne = (left j ev' w.slot).1 in
      let other : fd' ≢ fd_of s.event (some ev) =
        λ e. ne (inv.apart j i ev' ev fd (subst (Watches s j ev') (e ∙ fd-is) before) here) in
      (
        put_other s.read_fds _ fd' false other ∙ read,
        elim (Bool-cases (suc (fd_of s.event (some ev)) == s.nfds)) [
          | inl top ↦
              let largest =
                max_fd_bound (remove_watch ev i s).event 0 j ev' fd' table' w.slot w.opened in
              rw top (omega (arith, largest))
          | inr below ↦ rw below lt
        ],
      )

  removed-covered :
      (fd' : ℕ)
      → (remove_watch ev i s).read_fds fd' ≡ true
      → (j : ℕ) × (ev' : ℕ) × Watches (remove_watch ev i s) j ev' fd'
  unfolding remove_watch
  removed-covered fd' read =
      let other : fd' ≢ fd_of s.event (some ev) = λ e. absurd (
        cleared (
          sym (put_same s.read_fds _ false)
          ∙ ap (put s.read_fds (fd_of s.event (some ev)) false) (sym e)
          ∙ read)) in
      let (j, ev', w) = inv.covered fd' (sym (put_other s.read_fds _ fd' false other) ∙ read) in
      let ne : i ≢ j = λ e. other (
        same_fd
          (some-injective _ _
            (some-injective _ _ (sym here.slot ∙ ap (get_elem? s.watch_table) e ∙ w.slot)))
          w.opened) in
      (
        j,
        ev',
        record {
          slot = get_elem?-set_ne s.watch_table none ne ∙ w.slot;
          opened = fd-put_index s.event ev ev' (negsuc 0) ∙ w.opened;
        },
      )
    where
      cleared : false ≡ true → ⊥
      cleared e = cc

      same_fd :
          {ev' fd' : ℕ} → ev ≡ ev' → (s.event ev').fd ≡ some fd' → fd' ≡ fd_of s.event (some ev)
      same_fd e o =
          some-injective _ _ (sym o ∙ ap (λ k. (s.event k).fd) (sym e) ∙ here.opened) ∙ sym fd-is

  -- Taking an event out of the table keeps the table and the descriptors in step.
  pub remove_watch-WatchInv : WatchInv (remove_watch ev i s)
  unfolding remove_watch table'
  remove_watch-WatchInv = record {
    indexed = removed-indexed;
    selected = removed-selected;
    covered = removed-covered;
    apart = λ j k ev' ev'' fd' v w. inv.apart j k ev' ev'' fd' (old j ev' fd' v) (old k ev'' fd' w);
  }
