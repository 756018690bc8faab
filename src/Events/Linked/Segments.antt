-- ===== src/Events/Linked/Segments.antt =====
-- Linked lists of libril/ril_event.cpp as lists of addresses.
use rild_hisi.Common.{
  ℕ, ◌≡◌, ◌≢◌, sym, ap, ◌∙◌, List, [], ◌∷◌, ◌++◌, Option, none, some, arith, All, ◌>>=◌,
}
use rild_hisi.Events.{put}
use rild_hisi.Events.Linked.{Heap, set_next, set_prev, add_to_list, unlink}

-- The addresses from `a` to `b`, in the order of `next` and, backwards, of `prev`.
abbrev pub IsSegment : Heap → ℕ → List ℕ → ℕ → Type 0
IsSegment h a [] b = ((h a).next ≡ some b) × ((h b).prev ≡ some a)
IsSegment h a (x ∷ xs) b = ((h a).next ≡ some x) × ((h x).prev ≡ some a) × IsSegment h x xs b

-- The address does not stand in the list.
abbrev pub IsFresh : ℕ → List ℕ → Type 0
IsFresh a = All λ x. x ≢ a

abbrev pub IsDistinct : List ℕ → Type 0
IsDistinct [] = Unit
IsDistinct (x ∷ xs) = IsFresh x xs × IsDistinct xs

next-set_next : (a x : ℕ) (v : Option ℕ) (h : Heap) → x ≢ a → (set_next a v h x).next ≡ (h x).next
unfolding set_next put
next-set_next a x v h ne = ground (arith, ne)

prev-set_prev : (a x : ℕ) (v : Option ℕ) (h : Heap) → x ≢ a → (set_prev a v h x).prev ≡ (h x).prev
unfolding set_prev put
prev-set_prev a x v h ne = ground (arith, ne)

next-set_next_self : (a : ℕ) (v : Option ℕ) (h : Heap) → (set_next a v h a).next ≡ v
unfolding set_next put
next-set_next_self a v h = ground arith

prev-set_prev_self : (a : ℕ) (v : Option ℕ) (h : Heap) → (set_prev a v h a).prev ≡ v
unfolding set_prev put
prev-set_prev_self a v h = ground arith

next-set_prev : (a x : ℕ) (v : Option ℕ) (h : Heap) → (set_prev a v h x).next ≡ (h x).next
unfolding set_prev put
next-set_prev a x v h = ground arith

prev-set_next : (a x : ℕ) (v : Option ℕ) (h : Heap) → (set_next a v h x).prev ≡ (h x).prev
unfolding set_next put
prev-set_next a x v h = ground arith

IsSegment-set_next :
    (a b c : ℕ) (xs : List ℕ) (v : Option ℕ) (h : Heap)
    → IsFresh c (a ∷ xs)
    → IsSegment h a xs b
    → IsSegment (set_next c v h) a xs b
IsSegment-set_next a b c [] v h fresh seg =
    (next-set_next c a v h fresh.0 ∙ seg.0, prev-set_next c b v h ∙ seg.1)
IsSegment-set_next a b c (x ∷ xs) v h fresh seg = (
  next-set_next c a v h fresh.0 ∙ seg.0,
  prev-set_next c x v h ∙ seg.1,
  IsSegment-set_next x b c xs v h fresh.1 seg.2,
)

IsSegment-set_prev :
    (a b c : ℕ) (xs : List ℕ) (v : Option ℕ) (h : Heap)
    → IsFresh c xs
    → b ≢ c
    → IsSegment h a xs b
    → IsSegment (set_prev c v h) a xs b
IsSegment-set_prev a b c [] v h fresh ne seg =
    (next-set_prev c a v h ∙ seg.0, prev-set_prev c b v h ne ∙ seg.1)
IsSegment-set_prev a b c (x ∷ xs) v h fresh ne seg = (
  next-set_prev c a v h ∙ seg.0,
  prev-set_prev c x v h fresh.0 ∙ seg.1,
  IsSegment-set_prev x b c xs v h fresh.1 ne seg.2,
)

abbrev pub last_of : ℕ → List ℕ → ℕ
last_of a [] = a
last_of a (x ∷ xs) = last_of x xs

pub last_of-All : (P : ℕ → Type 0) (a : ℕ) (xs : List ℕ) → All P (a ∷ xs) → P (last_of a xs)
last_of-All P a [] h = h.0
last_of-All P a (x ∷ xs) h = last_of-All P x xs h.1

prev-last_of :
    (h : Heap) (a b : ℕ) (xs : List ℕ) → IsSegment h a xs b → (h b).prev ≡ some (last_of a xs)
prev-last_of h a b [] seg = seg.1
prev-last_of h a b (x ∷ xs) seg = prev-last_of h x b xs seg.2

-- The links after an element was added between `z` and `b`.
unfoldable pub added : Heap → ℕ → ℕ → ℕ → Heap
unfolding set_next set_prev
added h ev b z =
    set_prev b (some ev) (set_next z (some ev) (set_prev ev (some z) (set_next ev (some b) h)))

next-added : (h : Heap) (ev b z x : ℕ) → x ≢ z → x ≢ ev → (added h ev b z x).next ≡ (h x).next
unfolding added
next-added h ev b z x ne_z ne_ev =
    next-set_prev b x (some ev)
      (set_next z (some ev) (set_prev ev (some z) (set_next ev (some b) h)))
    ∙ next-set_next z x (some ev) (set_prev ev (some z) (set_next ev (some b) h)) ne_z
    ∙ next-set_prev ev x (some z) (set_next ev (some b) h)
    ∙ next-set_next ev x (some b) h ne_ev

prev-added : (h : Heap) (ev b z x : ℕ) → x ≢ b → x ≢ ev → (added h ev b z x).prev ≡ (h x).prev
unfolding added
prev-added h ev b z x ne_b ne_ev =
    prev-set_prev b x (some ev)
      (set_next z (some ev) (set_prev ev (some z) (set_next ev (some b) h))) ne_b
    ∙ prev-set_next z x (some ev) (set_prev ev (some z) (set_next ev (some b) h))
    ∙ prev-set_prev ev x (some z) (set_next ev (some b) h) ne_ev
    ∙ prev-set_next ev x (some b) h

-- The four links that are set.
added-links :
    (h : Heap) (ev b z : ℕ)
    → ev ≢ b
    → ev ≢ z
    → ((added h ev b z z).next ≡ some ev)
      × ((added h ev b z ev).prev ≡ some z)
      × ((added h ev b z ev).next ≡ some b)
      × ((added h ev b z b).prev ≡ some ev)
unfolding added
added-links h ev b z ne_b ne_z =
    let h1 = set_next ev (some b) h in
    let h2 = set_prev ev (some z) h1 in
    let h3 = set_next z (some ev) h2 in
    (
      next-set_prev b z (some ev) h3 ∙ next-set_next_self z (some ev) h2,
      prev-set_prev b ev (some ev) h3 ne_b
          ∙ prev-set_next z ev (some ev) h2
          ∙ prev-set_prev_self ev (some z) h1,
      next-set_prev b ev (some ev) h3
          ∙ next-set_next z ev (some ev) h2 ne_z
          ∙ next-set_prev ev ev (some z) h1
          ∙ next-set_next_self ev (some b) h,
      prev-set_prev_self b (some ev) h3,
    )

-- An element that is added before the head stands at the end.
pub added-IsSegment :
    (h : Heap) (ev b a : ℕ) (xs : List ℕ)
    → IsSegment h a xs b
    → IsDistinct (a ∷ xs)
    → IsFresh ev (a ∷ xs)
    → IsFresh b xs
    → ev ≢ b
    → IsSegment (added h ev b (last_of a xs)) a (xs ++ ev ∷ []) b
added-IsSegment h ev b a [] seg distinct fresh apart ne =
    let links = added-links h ev b a ne (λ e. fresh.0 (sym e)) in
    (links.0, links.1, (links.2, links.3))
added-IsSegment h ev b a (x ∷ xs) seg distinct fresh apart ne =
    let z = last_of x xs in
    (
      next-added h ev b z a (λ e. last_of-All (λ y. y ≢ a) x xs distinct.0 (sym e)) fresh.0 ∙ seg.0,
      prev-added h ev b z x apart.0 fresh.1.0 ∙ seg.1,
      added-IsSegment h ev b x xs seg.2 distinct.1 fresh.1 apart.1 ne,
    )

pub add_to_list-added :
    (h : Heap) (ev list : ℕ) (xs : List ℕ)
    → IsSegment h list xs list
    → add_to_list ev list h ≡ some (added h ev list (last_of list xs))
unfolding add_to_list added
add_to_list-added h ev list xs seg =
    let h1 = set_next ev (some list) h in
    ap
      (λ p. (set_prev ev p h1 ev).prev >>= λ q.
        some (set_prev list (some ev) (set_next q (some ev) (set_prev ev p h1))))
      (prev-set_next ev list (some list) h ∙ prev-last_of h list list xs seg)
    ∙ ap
        (λ m. m >>= λ q. some (
          set_prev list (some ev) (set_next q (some ev) (set_prev ev (some (last_of list xs)) h1))))
        (prev-set_prev_self ev (some (last_of list xs)) h1)

abbrev pub first_of : List ℕ → ℕ → ℕ
first_of [] b = b
first_of (x ∷ xs) b = x

pub first_of-All : (P : ℕ → Type 0) (b : ℕ) (xs : List ℕ) → P b → All P xs → P (first_of xs b)
first_of-All P b [] h k = h
first_of-All P b (x ∷ xs) h k = k.0

pub next-first_of :
    (h : Heap) (a b : ℕ) (xs : List ℕ) → IsSegment h a xs b → (h a).next ≡ some (first_of xs b)
next-first_of h a b [] seg = seg.0
next-first_of h a b (x ∷ xs) seg = seg.0

-- The links after `x` was taken out between `a` and `n`.
unfoldable pub removed : Heap → ℕ → ℕ → ℕ → Heap
unfolding set_next set_prev
removed h a x n = set_prev x none (set_next x none (set_next a (some n) (set_prev n (some a) h)))

pub unlink-removed :
    (h : Heap) (a x b : ℕ) (xs : List ℕ)
    → IsSegment h a (x ∷ xs) b
    → x ≢ first_of xs b
    → unlink x h ≡ some (removed h a x (first_of xs b))
unfolding unlink removed
unlink-removed h a x b xs seg ne =
    let n = first_of xs b in
    let next = next-first_of h x b xs seg.2 in
    let h1 = set_prev n (some a) h in
    ap
      (λ m. m >>= λ n.
        let h1 = set_prev n (h x).prev h in
        (h1 x).prev >>= λ p. some (set_prev x none (set_next x none (set_next p (h1 x).next h1))))
      next
    ∙ ap
        (λ v.
          let h1 = set_prev n v h in
          (h1 x).prev >>= λ p. some (set_prev x none (set_next x none (set_next p (h1 x).next h1))))
        seg.1
    ∙ ap (λ m. m >>= λ p. some (set_prev x none (set_next x none (set_next p (h1 x).next h1))))
        (prev-set_prev n x (some a) h ne ∙ seg.1)
    ∙ ap (λ v. some (set_prev x none (set_next x none (set_next a v h1))))
        (next-set_prev n x (some a) h ∙ next)

-- Links that are not touched
pub removed_frame :
    (h : Heap) (a x n c d : ℕ) (ys : List ℕ)
    → IsFresh a (c ∷ ys)
    → IsFresh x (c ∷ ys)
    → IsFresh n ys
    → d ≢ x
    → d ≢ n
    → IsSegment h c ys d
    → IsSegment (removed h a x n) c ys d
unfolding removed
removed_frame h a x n c d ys fresh_a fresh_x fresh_n ne_x ne_n seg =
    IsSegment-set_prev c d x ys none (set_next x none (set_next a (some n) (set_prev n (some a) h)))
      fresh_x.1 ne_x
      (IsSegment-set_next c d x ys none (set_next a (some n) (set_prev n (some a) h)) fresh_x (
        IsSegment-set_next c d a ys (some n) (set_prev n (some a) h) fresh_a
          (IsSegment-set_prev c d n ys (some a) h fresh_n ne_n seg)))

pub added_frame :
    (h : Heap) (ev b z c d : ℕ) (ys : List ℕ)
    → IsFresh ev (c ∷ ys)
    → IsFresh z (c ∷ ys)
    → IsFresh b ys
    → d ≢ ev
    → d ≢ b
    → IsSegment h c ys d
    → IsSegment (added h ev b z) c ys d
unfolding added
added_frame h ev b z c d ys fresh_ev fresh_z fresh_b ne_ev ne_b seg =
    IsSegment-set_prev c d b ys (some ev)
      (set_next z (some ev) (set_prev ev (some z) (set_next ev (some b) h))) fresh_b ne_b
      (IsSegment-set_next c d z ys (some ev) (set_prev ev (some z) (set_next ev (some b) h)) fresh_z
        (IsSegment-set_prev c d ev ys (some z) (set_next ev (some b) h) fresh_ev.1 ne_ev
          (IsSegment-set_next c d ev ys (some b) h fresh_ev seg)))

-- The two links that close the gap.
removed-links :
    (h : Heap) (a x n : ℕ)
    → a ≢ x
    → n ≢ x
    → ((removed h a x n a).next ≡ some n) × ((removed h a x n n).prev ≡ some a)
unfolding removed
removed-links h a x n ne_a ne_n =
    let h1 = set_prev n (some a) h in
    let h2 = set_next a (some n) h1 in
    let h3 = set_next x none h2 in
    (
      next-set_prev x a none h3 ∙ next-set_next x a none h2 ne_a ∙ next-set_next_self a (some n) h1,
      prev-set_prev x n none h3 ne_n
          ∙ prev-set_next x n none h2
          ∙ prev-set_next a n (some n) h1
          ∙ prev-set_prev_self n (some a) h,
    )

-- The segment without its first element.
pub removed-IsSegment :
    (h : Heap) (a x b : ℕ) (xs : List ℕ)
    → IsSegment h a (x ∷ xs) b
    → IsDistinct (x ∷ xs)
    → a ≢ x
    → b ≢ x
    → IsFresh a xs
    → IsFresh b xs
    → IsSegment (removed h a x (first_of xs b)) a xs b
removed-IsSegment h a x b [] seg distinct ne_a ne_b fresh_a fresh_b =
    removed-links h a x b ne_a ne_b
removed-IsSegment h a x b (y ∷ ys) seg distinct ne_a ne_b fresh_a fresh_b =
    let links = removed-links h a x y ne_a distinct.0.0 in
    (
      links.0,
      links.1,
      removed_frame h a x y y b ys fresh_a distinct.0 distinct.1.0 ne_b (λ e. fresh_b.0 (sym e))
          seg.2.2,
    )
