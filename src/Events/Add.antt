-- ===== src/Events/Add.antt =====
-- ril_event_add of libril/ril_event.cpp on the watch table.
use mathlib.Core.Option.{some-injective}
use rild_hisi.Common.{
  ℕ, suc, ◌<◌, ◌≡◌, ◌≢◌, sym, ap, ◌∙◌, refl, ◌⊎◌, inl, inr, true, false, Option, none, some, arith,
  ◌==◌, ==_iff, leb, get_elem?, set, if◌then◌else◌, Bool-cases, Option-cases, get_elem?-set_self,
  get_elem?-set_ne,
}
use rild_hisi.Common.Int.{pos}
use rild_hisi.Events.{Events, put, free_slot, ril_event_add}
use rild_hisi.Events.Watch.{
  Watches, WatchInv, get-set, free_slot-get, free_slot-full, fd-put_index, put_other, put_same,
  get_elem?-length, differs,
}

above_new : (n k : ℕ) → k < (if leb n k then suc k else n)
above_new n k = ground arith

above_old : (n k m : ℕ) → m < n → m < (if leb n k then suc k else n)
above_old n k m h = ground arith

module _ (ev fd i : ℕ) (s : Events) (inv : WatchInv s) (opened : (s.event ev).fd ≡ some fd)
    (unwatched : s.read_fds fd ≡ false) (free : get_elem? s.watch_table i ≡ some none) where
  added : Events
  added = record s {
    watch_table = set s.watch_table i (some ev);
    event = put s.event ev (record (s.event ev) { index = pos i });
    read_fds = put s.read_fds fd true;
    nfds = if leb s.nfds fd then suc fd else s.nfds;
  }

  unread : s.read_fds fd ≡ true → ⊥
  unread e = absurd (cc)

  which :
      (j ev' : ℕ)
      → get_elem? added.watch_table j ≡ some (some ev')
      → ((i ≡ j) × (ev ≡ ev'))
        ⊎ ((i ≢ j) × (get_elem? s.watch_table j ≡ some (some ev')) × (ev' ≢ ev))
  unfolding added
  which j ev' g =
      elim (get-set s.watch_table i j (some ev) (some ev') (get_elem?-length _ i _ free) g) [
        | inl (is, same) ↦ inl (is, some-injective _ _ same)
        | inr (ne, old) ↦ inr (
          ne,
          old,
          λ e.
              unread
                (inv.selected j ev' fd
                  (record { slot = old; opened = ap (λ k. (s.event k).fd) e ∙ opened })).0,
        )
      ]

  old_watch :
      (j ev' fd' : ℕ)
      → get_elem? s.watch_table j ≡ some (some ev')
      → Watches added j ev' fd'
      → Watches s j ev' fd'
  unfolding added
  old_watch j ev' fd' old w = record {
    slot = old;
    opened = sym (fd-put_index s.event ev ev' (pos i)) ∙ w.opened;
  }

  -- The descriptor of the new event, under any of its names.
  new_fd : (j ev' fd' : ℕ) → ev ≡ ev' → Watches added j ev' fd' → fd' ≡ fd
  unfolding added
  new_fd j ev' fd' same w = some-injective _ _ (
      sym w.opened
      ∙ fd-put_index s.event ev ev' (pos i)
      ∙ ap (λ k. (s.event k).fd) (sym same)
      ∙ opened)

  added-indexed :
      (j ev' : ℕ)
      → get_elem? added.watch_table j ≡ some (some ev')
      → ((added.event ev').index ≡ pos j) × ((fd' : ℕ) × ((added.event ev').fd ≡ some fd'))
  unfolding added
  added-indexed j ev' g = elim (which j ev' g) [
    | inl (is, same) ↦ (
      ap (λ k. (added.event k).index) (sym same)
          ∙ ap (λ e. e.index) (put_same s.event ev _)
          ∙ ap pos is,
      (fd, fd-put_index s.event ev ev' (pos i) ∙ ap (λ k. (s.event k).fd) (sym same) ∙ opened),
    )
    | inr (ne, old, other) ↦
        let (at, (fd', open')) = inv.indexed j ev' old in
        (
          ap (λ e. e.index) (put_other s.event ev ev' _ other) ∙ at,
          (fd', fd-put_index s.event ev ev' (pos i) ∙ open'),
        )
  ]

  added-selected :
      (j ev' fd' : ℕ) → Watches added j ev' fd' → (added.read_fds fd' ≡ true) × (fd' < added.nfds)
  unfolding added
  added-selected j ev' fd' w = elim (which j ev' w.slot) [
    | inl (is, same) ↦
        let e = new_fd j ev' fd' same w in
        (
          ap (put s.read_fds fd true) e ∙ put_same s.read_fds fd true,
          omega (arith, e, above_new s.nfds fd),
        )
    | inr (ne, old, other) ↦
        let (read, lt) = inv.selected j ev' fd' (old_watch j ev' fd' old w) in
        (
          put_other s.read_fds fd fd' true (λ e. unread (ap s.read_fds (sym e) ∙ read)) ∙ read,
          above_old s.nfds fd fd' lt,
        )
  ]

  added-covered :
      (fd' : ℕ) → added.read_fds fd' ≡ true → (j : ℕ) × (ev' : ℕ) × Watches added j ev' fd'
  unfolding added
  added-covered fd' read = elim (Bool-cases (fd' == fd)) [
    | inl hit ↦ (
      i,
      ev,
      record {
        slot = get_elem?-set_self s.watch_table i (some ev) (get_elem?-length _ i _ free);
        opened =
            fd-put_index s.event ev ev (pos i) ∙ opened ∙ ap some (sym ((==_iff fd' fd).0 hit));
      },
    )
    | inr miss ↦
        let other : fd' ≢ fd = λ e. differs fd' fd e miss in
        let (j, ev', w) = inv.covered fd' (sym (put_other s.read_fds fd fd' true other) ∙ read) in
        let ne : i ≢ j = λ e. taken (sym free ∙ ap (get_elem? s.watch_table) e ∙ w.slot) in
        (
          j,
          ev',
          record {
            slot = get_elem?-set_ne s.watch_table (some ev) ne ∙ w.slot;
            opened = fd-put_index s.event ev ev' (pos i) ∙ w.opened;
          },
        )
  ]
    where
      taken : {ev' : ℕ} → ◌≡◌ {A = Option (Option ℕ)} (some none) (some (some ev')) → ⊥
      taken e = absurd (cc)

  new_Watches : Watches added i ev fd
  unfolding added
  new_Watches = record {
    slot = get_elem?-set_self s.watch_table i (some ev) (get_elem?-length _ i _ free);
    opened = fd-put_index s.event ev ev (pos i) ∙ opened;
  }

  old_Watches : (j ev' fd' : ℕ) → Watches s j ev' fd' → Watches added j ev' fd'
  unfolding added
  old_Watches j ev' fd' w =
      let ne : i ≢ j = λ e. taken_slot (sym free ∙ ap (get_elem? s.watch_table) e ∙ w.slot) in
      record {
        slot = get_elem?-set_ne s.watch_table (some ev) ne ∙ w.slot;
        opened = fd-put_index s.event ev ev' (pos i) ∙ w.opened;
      }
    where
      taken_slot : ◌≡◌ {A = Option (Option ℕ)} (some none) (some (some ev')) → ⊥
      taken_slot e = absurd (cc)

  added-apart : (j k ev' ev'' fd' : ℕ) → Watches added j ev' fd' → Watches added k ev'' fd' → j ≡ k
  added-apart j k ev' ev'' fd' v w = elim (which j ev' v.slot) [
    | inl (is, same) ↦ elim (which k ev'' w.slot) [
      | inl (is', same') ↦ sym is ∙ is'
      | inr (ne, old, other) ↦ absurd (clash k ev'' fd' old w (new_fd j ev' fd' same v))
    ]
    | inr (ne, old, other) ↦ elim (which k ev'' w.slot) [
      | inl (is', same') ↦ absurd (clash j ev' fd' old v (new_fd k ev'' fd' same' w))
      | inr (ne', old', other') ↦
          inv.apart j k ev' ev'' fd' (old_watch j ev' fd' old v) (old_watch k ev'' fd' old' w)
    ]
  ]
    where
      clash :
          (j ev' fd' : ℕ)
          → get_elem? s.watch_table j ≡ some (some ev')
          → Watches added j ev' fd'
          → fd' ≡ fd
          → ⊥
      clash j ev' fd' old w e =
          unread (ap s.read_fds (sym e) ∙ (inv.selected j ev' fd' (old_watch j ev' fd' old w)).0)

  added-WatchInv : WatchInv added
  added-WatchInv = record {
    indexed = added-indexed;
    selected = added-selected;
    covered = added-covered;
    apart = added-apart;
  }

-- What adding comes to: the event is in a slot that was free, and the others are where they were; or
-- there was none.
abbrev pub Added : ℕ → ℕ → Events → Events → Type 0
Added ev fd s s' =
    ((i : ℕ) × (get_elem? s.watch_table i ≡ some none)
      × Watches s' i ev fd
      × ((j ev' fd' : ℕ) → Watches s j ev' fd' → Watches s' j ev' fd'))
    ⊎ ((s' ≡ s) × ((j : ℕ) → get_elem? s.watch_table j ≢ some none))

-- Adding an event whose descriptor is not watched yet keeps the table and the descriptors in step.
-- Where a slot is free, the event is put into one, its descriptor is watched, and all that were
-- watched are watched still; where the table is full, nothing changes, and the event is not added.
pub ril_event_add-WatchInv :
    (ev fd : ℕ) (s : Events)
    → (s.event ev).fd ≡ some fd
    → s.read_fds fd ≡ false
    → WatchInv s
    → (s' : Events) × (ril_event_add ev s ≡ some s') × WatchInv s' × Added ev fd s s'
unfolding ril_event_add added
ril_event_add-WatchInv ev fd s opened unwatched inv =
    elim (Option-cases (free_slot 0 s.watch_table)) [
      | inl full ↦
          (s, rw (ril_event_add, full), inv, inr (refl, λ j. free_slot-full 0 s.watch_table j full))
      | inr (i, found) ↦
          let (j, is, free) = free_slot-get 0 i s.watch_table found in
          let at : j ≡ i = omega (arith, is) in
          (
            added ev fd i s inv opened unwatched (ap (get_elem? s.watch_table) (sym at) ∙ free),
            simp (ril_event_add, found, opened),
            added-WatchInv ev fd i s inv opened unwatched
                (ap (get_elem? s.watch_table) (sym at) ∙ free),
            inl (
              i,
              ap (get_elem? s.watch_table) (sym at) ∙ free,
              new_Watches ev fd i s inv opened unwatched
                  (ap (get_elem? s.watch_table) (sym at) ∙ free),
              old_Watches ev fd i s inv opened unwatched
                  (ap (get_elem? s.watch_table) (sym at) ∙ free),
            ),
          )
    ]
