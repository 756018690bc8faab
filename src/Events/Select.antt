-- ===== src/Events/Select.antt =====
-- ril_event_del and processReadReadies of libril/ril_event.cpp on the watch table.
use rild_hisi.Common.{
  ℕ, zero, suc, ◌≡◌, refl, inl, inr, ◌⊎◌, ◌<◌, arith, Bool, true, false, List, [], ◌∷◌, ◌++◌,
  Option, none, some, leb, get_elem?, if◌then◌else◌, Bool-cases,
}
use rild_hisi.Common.Int.{ℤ, pos, negsuc}
use rild_hisi.Events.{
  Events, remove_watch, ril_event_del, read_slot, read_slots, process_read_readies, max_fd_events,
  is_ready,
}
use rild_hisi.Events.Watch.{WatchInv, remove_watch-WatchInv}

pending-WatchInv : (s : Events) (l : List ℕ) → WatchInv s → WatchInv (record s { pending_list = l })
pending-WatchInv s l inv = record {
  indexed = inv.indexed;
  selected = λ i ev fd w. inv.selected i ev fd (record { slot = w.slot; opened = w.opened });
  covered = λ fd r.
      let (i, ev, w) = inv.covered fd r in (i, ev, record { slot = w.slot; opened = w.opened });
  apart = λ i j ev ev' fd v w.
      inv.apart i j ev ev' fd (record { slot = v.slot; opened = v.opened })
        (record { slot = w.slot; opened = w.opened });
}

removed-WatchInv :
    (ev i : ℕ) (s : Events)
    → get_elem? s.watch_table i ≡ some (some ev)
    → WatchInv s
    → WatchInv (remove_watch ev i s)
removed-WatchInv ev i s g inv =
    let (_, (fd, open')) = inv.indexed i ev g in
    remove_watch-WatchInv ev i fd s inv (record { slot = g; opened = open' })

if_WatchInv : (b : Bool) (s t : Events) → WatchInv s → WatchInv t → WatchInv (if b then s else t)
if_WatchInv true s t h k = h
if_WatchInv false s t h k = k

read_slot-WatchInv :
    (ready : ℕ → Bool) (i : ℕ) (slot : Option (Option ℕ)) (s : Events)
    → get_elem? s.watch_table i ≡ slot
    → WatchInv s
    → WatchInv (read_slot ready i slot s).0
unfolding read_slot
read_slot-WatchInv ready i none s g inv = inv
read_slot-WatchInv ready i (some none) s g inv = inv
read_slot-WatchInv ready i (some (some ev)) s g inv =
    elim (Bool-cases (is_ready ready (s.event ev).fd)) [
      | inr quiet ↦ rw quiet inv
      | inl ready' ↦
          let queued = pending-WatchInv s (s.pending_list ++ ev ∷ []) inv in
          rw ready' (if_WatchInv (s.event ev).persist _ _ queued (removed-WatchInv ev i _ g queued))
    ]

read_slots-WatchInv :
    (ready : ℕ → Bool) (k i n : ℕ) (s : Events) → WatchInv s → WatchInv (read_slots ready k i n s)
unfolding read_slots
read_slots-WatchInv ready zero i n s inv = inv
read_slots-WatchInv ready (suc k) i zero s inv = inv
read_slots-WatchInv ready (suc k) i (suc n) s inv =
    read_slots-WatchInv ready k (suc i) _ _ (read_slot-WatchInv ready i _ s refl inv)

-- After processReadReadies, which takes the events that fire once out of the table, the table and
-- the descriptors are still in step.
pub process_read_readies-WatchInv :
    (ready : ℕ → Bool) (n : ℕ) (s : Events) → WatchInv s → WatchInv (process_read_readies ready n s)
unfolding process_read_readies
process_read_readies-WatchInv ready n s inv = read_slots-WatchInv ready max_fd_events 0 n s inv

below : (i : ℕ) → leb max_fd_events i ≡ false → i < max_fd_events
below i h = ground arith

-- Deleting an event whose index is -1 or that of its slot keeps the table and the descriptors in
-- step. The mutex is released where the event was in the table of MAX_FD_EVENTS slots, and otherwise
-- the state stays as it is and the mutex is kept.
pub ril_event_del-WatchInv :
    (ev : ℕ) (s : Events)
    → ((i : ℕ) → (s.event ev).index ≡ pos i → get_elem? s.watch_table i ≡ some (some ev))
    → WatchInv s
    → WatchInv (ril_event_del ev s).0
      × (((i : ℕ) × ((s.event ev).index ≡ pos i)
            × (i < max_fd_events)
            × ((ril_event_del ev s).1 ≡ true))
          ⊎ (ril_event_del ev s ≡ (s, false)))
unfolding ril_event_del
ril_event_del-WatchInv ev s in_table inv = go (s.event ev).index refl
  where
    Deleted : Events × Bool → Type 0
    Deleted r =
        WatchInv r.0
        × (((i : ℕ) × ((s.event ev).index ≡ pos i) × (i < max_fd_events) × (r.1 ≡ true))
            ⊎ (r ≡ (s, false)))

    go : (n : ℤ) → (s.event ev).index ≡ n → Deleted (ril_event_del ev s)
    go (negsuc n) e = rw (ril_event_del, e) (inv, inr refl)
    go (pos i) e = elim (Bool-cases (leb max_fd_events i)) [
      | inl out ↦ rw (ril_event_del, e, out) (inv, inr refl)
      | inr within ↦
          rw (ril_event_del, e, within)
            (removed-WatchInv ev i s (in_table i e) inv, inl (i, refl, below i within, refl))
    ]
