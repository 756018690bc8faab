-- ===== src/Events/Fire.antt =====
-- firePending and the loop of libril/ril_event.cpp.
use rild_hisi.Common.{ℕ, ◌≡◌, refl, ap, ◌∙◌, Bool, List, [], ◌∷◌, ==_iff}
use rild_hisi.Events.{
  Timeval, Events, remove_from_list, fire, fire_pending, loop_round, process_read_readies,
  process_timeouts,
}

remove-head : (ev : ℕ) (evs : List ℕ) → remove_from_list ev (ev ∷ evs) ≡ evs
unfolding remove_from_list
remove-head ev evs = rw ((==_iff ev ev).1 refl)

fire-empties :
    (run : ℕ → Events → Events) (evs : List ℕ) (s : Events)
    → ((ev : ℕ) (t : Events) → (run ev t).pending_list ≡ t.pending_list)
    → s.pending_list ≡ evs
    → (fire run evs s).pending_list ≡ []
unfolding fire
fire-empties run [] s keeps e = e
fire-empties run (ev ∷ evs) s keeps e =
    fire-empties run evs _ keeps (keeps ev _ ∙ ap (remove_from_list ev) e ∙ remove-head ev evs)

-- A round of the event loop behind its select leaves nothing pending, when no callback touches the pending list.
pub loop_round-empties :
    (run : ℕ → Events → Events) (now : Timeval) (ready : ℕ → Bool) (n : ℕ) (s : Events)
    → ((ev : ℕ) (t : Events) → (run ev t).pending_list ≡ t.pending_list)
    → (loop_round run now ready n s).pending_list ≡ []
unfolding loop_round fire_pending
loop_round-empties run now ready n s keeps =
    let t = process_read_readies ready n (process_timeouts now s) in
    fire-empties run t.pending_list t keeps refl
