-- ===== src/Events/Linked/Expiry.antt =====
-- processTimeouts of libril/ril_event.cpp on the pointers, against the lists of addresses.
use rild_hisi.Common.{
  ℕ, suc, ◌≡◌, ◌≢◌, refl, sym, ap, ◌∙◌, subst, true, false, List, [], ◌∷◌, ◌++◌, Option, some,
  arith, All, ◌==◌, length, ◌>>=◌, Bool-cases, inl, inr, ==_iff,
}
use rild_hisi.Events.{Timeval, timer_lt, expire}
use rild_hisi.Events.Linked.{Heap, add_to_list, unlink, move_timeouts, linked_process_timeouts}
use rild_hisi.Events.Linked.Segments.{
  IsSegment, IsFresh, IsDistinct, last_of, last_of-All, first_of, first_of-All, next-first_of,
  added, removed, added-IsSegment, removed-IsSegment, add_to_list-added, unlink-removed,
  removed_frame, added_frame,
}

-- The two lists that hang on the heads `t` and `p`, with no event in both or twice in one.
pub record Lists (h : Heap) (t p : ℕ) (ts ps : List ℕ) : Type 0 where
  pub timers : IsSegment h t ts t
  pub pending : IsSegment h p ps p
  pub timers_once : IsDistinct (t ∷ ts)
  pub pending_once : IsDistinct (p ∷ ps)
  pub apart : All (λ x. IsFresh x (t ∷ ts)) (p ∷ ps)

All-snoc : (P : ℕ → Type 0) (xs : List ℕ) (y : ℕ) → All P xs → P y → All P (xs ++ y ∷ [])
All-snoc P [] y h k = (k, tt)
All-snoc P (x ∷ xs) y h k = (h.0, All-snoc P xs y h.1 k)

All-imp : (P Q : ℕ → Type 0) (xs : List ℕ) → ((x : ℕ) → P x → Q x) → All P xs → All Q xs
All-imp P Q [] f h = tt
All-imp P Q (x ∷ xs) f h = (f x h.0, All-imp P Q xs f h.1)

IsDistinct-snoc : (xs : List ℕ) (y : ℕ) → IsDistinct xs → IsFresh y xs → IsDistinct (xs ++ y ∷ [])
IsDistinct-snoc [] y h k = (tt, tt)
IsDistinct-snoc (x ∷ xs) y h k =
    (All-snoc (λ z. z ≢ x) xs y h.0 (λ e. k.0 (sym e)), IsDistinct-snoc xs y h.1 k.1)

module _ {h : Heap} {t p : ℕ} (x : ℕ) (xs ps : List ℕ) (lists : Lists h t p (x ∷ xs) ps) where
  x-ne-t : x ≢ t
  x-ne-t = lists.timers_once.0.0

  pending-IsFresh : IsFresh x (p ∷ ps)
  pending-IsFresh =
      All-imp (λ y. IsFresh y (t ∷ x ∷ xs)) (λ y. y ≢ x) (p ∷ ps) (λ y fresh e. fresh.1.0 (sym e))
        lists.apart

  timer_head-IsFresh : IsFresh t (p ∷ ps)
  timer_head-IsFresh =
      All-imp (λ y. IsFresh y (t ∷ x ∷ xs)) (λ y. y ≢ t) (p ∷ ps) (λ y fresh e. fresh.0 (sym e))
        lists.apart

  timers-IsFresh : IsFresh x (t ∷ xs)
  timers-IsFresh = ((λ e. x-ne-t (sym e)), lists.timers_once.1.0)

  last-IsFresh : IsFresh (last_of p ps) (t ∷ x ∷ xs)
  last-IsFresh = last_of-All (λ y. IsFresh y (t ∷ x ∷ xs)) p ps lists.apart

  -- The heap without `x` in the timers
  cut : Heap
  cut = removed h t x (first_of xs t)

  first-ne : x ≢ first_of xs t
  first-ne =
      first_of-All (λ y. x ≢ y) t xs x-ne-t
        (All-imp (λ y. y ≢ x) (λ y. x ≢ y) xs (λ y ne e. ne (sym e)) lists.timers_once.1.0)

  cut-timers : IsSegment cut t xs t
  unfolding cut
  cut-timers =
      removed-IsSegment h t x t xs lists.timers lists.timers_once.1 (λ e. x-ne-t (sym e))
        (λ e. x-ne-t (sym e)) lists.timers_once.0.1 lists.timers_once.0.1

  first-IsFresh : IsFresh (first_of xs t) (p ∷ ps)
  first-IsFresh =
      All-imp (λ y. IsFresh y (t ∷ x ∷ xs)) (λ y. y ≢ first_of xs t) (p ∷ ps)
        (λ y fresh.
          first_of-All (λ z. y ≢ z) t xs (λ e. fresh.0 (sym e))
            (All-imp (λ z. z ≢ y) (λ z. y ≢ z) xs (λ z ne e. ne (sym e)) fresh.1.1))
        lists.apart

  cut-pending : IsSegment cut p ps p
  unfolding cut
  cut-pending =
      removed_frame h t x (first_of xs t) p p ps timer_head-IsFresh pending-IsFresh first-IsFresh.1
        pending-IsFresh.0 first-IsFresh.0 lists.pending

  -- The heap with `x` at the end of the pending events.
  moved : Heap
  unfolding cut
  moved = added cut x p (last_of p ps)

  moved-Lists : Lists moved t p xs (ps ++ x ∷ [])
  unfolding moved
  moved-Lists = record {
    timers =
        added_frame cut x p (last_of p ps) t t xs timers-IsFresh (last-IsFresh.0, last-IsFresh.1.1)
          lists.apart.0.1.1 (λ e. x-ne-t (sym e)) lists.apart.0.0 cut-timers;
    pending =
        added-IsSegment cut x p p ps cut-pending lists.pending_once pending-IsFresh
          lists.pending_once.0 (λ e. pending-IsFresh.0 (sym e));
    timers_once = (lists.timers_once.0.1, lists.timers_once.1.1);
    pending_once = IsDistinct-snoc (p ∷ ps) x lists.pending_once pending-IsFresh;
    apart =
        All-snoc (λ y. IsFresh y (t ∷ xs)) (p ∷ ps) x
          (All-imp (λ y. IsFresh y (t ∷ x ∷ xs)) (λ y. IsFresh y (t ∷ xs)) (p ∷ ps)
            (λ y fresh. (fresh.0, fresh.1.1)) lists.apart)
          timers-IsFresh;
  }

  unlink-cut : unlink x h ≡ some cut
  unfolding cut
  unlink-cut = unlink-removed h t x t xs lists.timers first-ne

  add_to_list-moved : add_to_list x p cut ≡ some moved
  unfolding moved
  add_to_list-moved = add_to_list-added cut x p ps cut-pending

-- The loop returns, with these two lists.
abbrev pub Leaves : ℕ → ℕ → Option Heap → List ℕ × List ℕ → Type 0
Leaves t p m r = (h : Heap) × (m ≡ some h) × Lists h t p r.0 r.1

ne-== : (a b : ℕ) → a ≢ b → (a == b) ≡ false
ne-== a b h = ground (arith, h)

module _ (timeout : ℕ → Timeval) (now : Timeval) (t p : ℕ) where
  -- A timer that is due is moved.
  move_timeouts-due :
      (x : ℕ) (xs ps : List ℕ) (h : Heap) (lists : Lists h t p (x ∷ xs) ps) (n : ℕ)
      → timer_lt (timeout x) now ≡ true
      → move_timeouts timeout now t p (suc n) x h
        ≡ move_timeouts timeout now t p n (first_of xs t) (moved x xs ps lists)
  unfolding move_timeouts
  move_timeouts-due x xs ps h lists n due =
      let next = next-first_of h x t xs lists.timers.2 in
      rw (ne-== x t (x-ne-t x xs ps lists), due)
        (ap
            (λ m. m >>= λ next. unlink x h >>= λ h1.
              add_to_list x p h1 >>= λ h2. move_timeouts timeout now t p n next h2)
            next
          ∙ ap
              (λ m. m >>= λ h1.
                add_to_list x p h1 >>= λ h2. move_timeouts timeout now t p n (first_of xs t) h2)
              (unlink-cut x xs ps lists)
          ∙ ap (λ m. m >>= λ h2. move_timeouts timeout now t p n (first_of xs t) h2)
              (add_to_list-moved x xs ps lists))

  move_timeouts-expire :
      (ts ps : List ℕ) (h : Heap)
      → Lists h t p ts ps
      → Leaves t p
          (move_timeouts timeout now t p (suc (length ts)) (first_of ts t) h)
          (expire timeout now ts ps)
  unfolding move_timeouts expire
  move_timeouts-expire [] ps h lists = (h, rw ((==_iff t t).1 refl), lists)
  move_timeouts-expire (x ∷ xs) ps h lists = elim (Bool-cases (timer_lt (timeout x) now)) [
    | inl due ↦
        let expired : expire timeout now (x ∷ xs) ps ≡ expire timeout now xs (ps ++ x ∷ []) =
          rw due in
        subst (Leaves t p (move_timeouts timeout now t p (suc (suc (length xs))) x h)) (sym expired)
          (subst (λ m. Leaves t p m (expire timeout now xs (ps ++ x ∷ [])))
            (sym (move_timeouts-due x xs ps h lists (suc (length xs)) due))
            (move_timeouts-expire xs (ps ++ x ∷ []) (moved x xs ps lists)
              (moved-Lists x xs ps lists)))
    | inr early ↦ (h, rw (ne-== x t (x-ne-t x xs ps lists), early), rw early lists)
  ]

  -- The loop of processTimeouts follows and sets the links as the list of addresses says: it returns
  -- after at most one round for each timer and one more, and the lists that then hang on the two
  -- heads are those that the loop on addresses gives; no event is in both or twice in one.
  pub linked_process_timeouts-expire :
      (ts ps : List ℕ) (h : Heap)
      → Lists h t p ts ps
      → Leaves t p
          (linked_process_timeouts timeout now t p (suc (length ts)) h)
          (expire timeout now ts ps)
  unfolding linked_process_timeouts
  linked_process_timeouts-expire ts ps h lists =
      let (h2, returns, after) = move_timeouts-expire ts ps h lists in
      (
        h2,
        ap (λ m. m >>= λ tev. move_timeouts timeout now t p (suc (length ts)) tev h)
              (next-first_of h t t ts lists.timers)
            ∙ returns,
        after,
      )
