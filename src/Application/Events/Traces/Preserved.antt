-- ===== src/Application/Events/Traces/Preserved.antt =====
-- The invariant of a run of one subscription, and that every action keeps it.
use mathlib.Core.List.{append_assoc, append-nil}
use bmstu_nirs.Common.{
  nat_key, Bool, Bool-cases, List, [], ap, arith, false, inl, inr, length, length-append, map, refl,
  subst, sym, true, ◌++◌, ◌<◌, ◌∙◌, ◌∷◌, ◌≡◌, ◌≤◌, ◌⊎◌,
}
use bmstu_nirs.Application.Events.{
  DialogEvent, Item, Subscription, close, closed_mark, drop_first, ended, event, is_full, offer,
  receive, received, waits,
}
use bmstu_nirs.Application.Events.Sublist.{
  Sublist, Sublist-refl, Sublist-snoc, Sublist-start, Sublist-without,
}
use bmstu_nirs.Application.Events.Traces.{
  Action, IsClosed, IsOpen, IsRight, Trace, act, closes, offers, run, takes,
}

map-snoc :
    (q : List DialogEvent) (e : DialogEvent)
    → map event (q ++ (e ∷ [])) ≡ map event q ++ (event e ∷ [])
map-snoc [] e = refl
map-snoc (x ∷ q) e = ap (◌∷◌ (event x)) (map-snoc q e)

module _ (t : Trace) (q : List DialogEvent) where
  discard-IsClosed :
      t.object.closed ≡ false
      → t.offered ≡ t.taken ++ q
      → t.finished ≡ false
      → IsClosed (act (closes true) t)
  unfolding act
  discard-IsClosed open_now all going = (
    [],
    ground arith,
    inl (ground arith, ground arith),
    subst (Sublist (t.taken ++ [])) (sym all) (Sublist-start t.taken q),
  )

  keep-IsClosed :
      t.object.closed ≡ false
      → is_full t.object ≡ false
      → t.object.queue ≡ map event q
      → t.offered ≡ t.taken ++ q
      → t.finished ≡ false
      → IsClosed (act (closes false) t)
  unfolding act
  keep-IsClosed open_now some_room pending all going = (
    q,
    ground arith,
    inl (ground arith, ground arith),
    subst (Sublist (t.taken ++ q)) (sym all) (Sublist-refl (t.taken ++ q)),
  )

-- The oldest event is lost.
full-IsClosed :
    (t : Trace) (q : List DialogEvent)
    → t.object.closed ≡ false
    → is_full t.object ≡ true
    → 0 < t.object.queue_size
    → t.object.queue ≡ map event q
    → t.offered ≡ t.taken ++ q
    → t.finished ≡ false
    → IsClosed (act (closes false) t)
unfolding act
full-IsClosed t [] open_now full positive pending all going = ground arith
full-IsClosed t (e ∷ q) open_now full positive pending all going = (
  q,
  ground arith,
  inl (ground arith, ground arith),
  subst (Sublist (t.taken ++ q)) (sym all) (Sublist-without t.taken e q),
)

close-IsClosed :
    (b : Bool) (t : Trace) (q : List DialogEvent)
    → t.object.closed ≡ false
    → 0 < t.object.queue_size
    → t.object.queue ≡ map event q
    → t.offered ≡ t.taken ++ q
    → t.finished ≡ false
    → IsClosed (act (closes b) t)
close-IsClosed true t q open_now positive pending all going =
    discard-IsClosed t q open_now all going
close-IsClosed false t q open_now positive pending all going =
    elim (Bool-cases (is_full t.object)) [
      | inl full ↦ full-IsClosed t q open_now full positive pending all going
      | inr room ↦ keep-IsClosed t q open_now room pending all going
    ]

length-close :
    (xs : List Item) → 0 < length xs → length (drop_first xs ++ (closed_mark ∷ [])) ≡ length xs
length-close [] positive = omega (arith, positive)
length-close (x ∷ xs) positive = omega (arith, length-append xs (closed_mark ∷ []))

close-size :
    (b : Bool) (s : Subscription)
    → length s.queue ≤ s.queue_size
    → 0 < s.queue_size
    → length (close b s).queue ≤ (close b s).queue_size
unfolding close
close-size true s small positive = ground arith
close-size false s small positive =
    ground (arith, length-append s.queue (closed_mark ∷ []), length-close s.queue)

close-again : (b : Bool) (s : Subscription) → s.closed ≡ true → close b s ≡ s
unfolding close
close-again b s h = ground arith

close-queue_size : (b : Bool) (s : Subscription) → (close b s).queue_size ≡ s.queue_size
unfolding close
close-queue_size b s = ground arith

close-IsRight : (b : Bool) (t : Trace) → IsRight t → IsRight (act (closes b) t)
unfolding act
close-IsRight b t (inl (q, open_now, pending, all, going), small, positive) = (
  inr (close-IsClosed b t q open_now positive pending all going),
  close-size b t.object small positive,
  ground (arith, close-queue_size b t.object),
)
close-IsRight b t (inr h, small, positive) =
    rw (close-again b t.object h.1) (inr h, small, positive)

offer-IsOpen :
    (e : DialogEvent) (t : Trace) (q : List DialogEvent)
    → t.object.closed ≡ false
    → is_full t.object ≡ false
    → t.object.queue ≡ map event q
    → t.offered ≡ t.taken ++ q
    → t.finished ≡ false
    → IsOpen (act (offers e) t)
unfolding act
offer-IsOpen e t q open_now room pending all going = (
  q ++ (e ∷ []),
  ground arith,
  ground (arith, map-snoc q e),
  ground (arith, append_assoc t.taken q (e ∷ [])),
  ground arith,
)

offer-closed : (e : DialogEvent) (s : Subscription) → s.closed ≡ true → offer e s ≡ (false, s)
unfolding offer
offer-closed e s h = ground arith

offer-IsClosed :
    (e : DialogEvent) (t : Trace)
    → t.object.closed ≡ true
    → IsClosed t
    → IsClosed (act (offers e) t)
unfolding act
offer-IsClosed e t closed_now h =
    rw (offer-closed e t.object closed_now) (h.0, closed_now, h.2, Sublist-snoc e h.3)

offer-IsClosed_full :
    (e : DialogEvent) (t : Trace) (q : List DialogEvent)
    → t.object.closed ≡ false
    → is_full t.object ≡ true
    → t.offered ≡ t.taken ++ q
    → t.finished ≡ false
    → IsClosed (act (offers e) t)
unfolding act
offer-IsClosed_full e t q open_now full all going = (
  [],
  ground arith,
  inl (ground arith, ground arith),
  Sublist-snoc e (subst (Sublist (t.taken ++ [])) (sym all) (Sublist-start t.taken q)),
)

offer-state :
    (e : DialogEvent) (t : Trace)
    → IsRight t
    → IsOpen (act (offers e) t) ⊎ IsClosed (act (offers e) t)
offer-state e t (inl (q, open_now, pending, all, going), small, positive) =
    elim (Bool-cases (is_full t.object)) [
      | inl full ↦ inr (offer-IsClosed_full e t q open_now full all going)
      | inr room ↦ inl (offer-IsOpen e t q open_now room pending all going)
    ]
offer-state e t (inr h, small, positive) = inr (offer-IsClosed e t h.1 h)

offer-size :
    (e : DialogEvent) (s : Subscription)
    → length s.queue ≤ s.queue_size
    → 0 < s.queue_size
    → (length (offer e s).1.queue ≤ (offer e s).1.queue_size) × (0 < (offer e s).1.queue_size)
unfolding offer
offer-size e s small positive = ground (
  arith,
  length-append s.queue (event e ∷ []),
  close-size true s small positive,
  close-queue_size true s,
)

offer-IsRight : (e : DialogEvent) (t : Trace) → IsRight t → IsRight (act (offers e) t)
unfolding act
offer-IsRight e t h =
    let (small, positive) = offer-size e t.object h.1 h.2 in (offer-state e t h, small, positive)

receive-empty : (s : Subscription) → s.queue ≡ [] → receive s ≡ (waits, s)
unfolding receive
receive-empty s h = ground arith

receive-event :
    (s : Subscription) (e : DialogEvent) (xs : List Item)
    → s.queue ≡ event e ∷ xs
    → receive s ≡ (received e, record s { queue = xs })
unfolding receive
receive-event s e xs h = ground arith

receive-mark :
    (s : Subscription) (xs : List Item)
    → s.queue ≡ closed_mark ∷ xs
    → receive s ≡ (ended, record s { queue = xs })
unfolding receive
receive-mark s xs h = ground arith

receive-IsRight : (t : Trace) → IsRight t → IsRight (act takes t)
unfolding act
receive-IsRight t (inl ([], open_now, pending, all, going), small, positive) =
    rw (receive-empty t.object pending) (
      inl ([], open_now, pending, ground (arith, append-nil t.taken), ground arith),
      small,
      positive,
    )
receive-IsRight t (inl (e ∷ q, open_now, pending, all, going), small, positive) =
    rw (receive-event t.object e (map event q) pending) (
      inl (q, open_now, refl, ground (arith, append_assoc t.taken (e ∷ []) q), ground arith),
      ground arith,
      positive,
    )
receive-IsRight t (inr (q, ended_now, inr (none_left, empty, over), order), small, positive) =
    rw (receive-empty t.object empty) (
      inr (
        [],
        ended_now,
        inr (refl, empty, ground arith),
        subst (λ xs. Sublist xs t.offered)
            (ap (◌++◌ t.taken) none_left ∙ sym (append-nil (t.taken ++ []))) order,
      ),
      small,
      positive,
    )
receive-IsRight t (inr ([], ended_now, inl (marked, going), order), small, positive) =
    rw (receive-mark t.object [] marked) (
      inr (
        [],
        ended_now,
        inr (refl, refl, ground arith),
        subst (λ xs. Sublist xs t.offered) (sym (append-nil (t.taken ++ []))) order,
      ),
      ground arith,
      positive,
    )
receive-IsRight t (inr (e ∷ q, ended_now, inl (marked, going), order), small, positive) =
    rw (receive-event t.object e (map event q ++ (closed_mark ∷ [])) marked) (
      inr (
        q,
        ended_now,
        inl (refl, ground arith),
        subst (λ xs. Sublist xs t.offered) (sym (append_assoc t.taken (e ∷ []) q)) order,
      ),
      ground arith,
      positive,
    )

act-IsRight : (a : Action) (t : Trace) → IsRight t → IsRight (act a t)
act-IsRight (offers e) t h = offer-IsRight e t h
act-IsRight takes t h = receive-IsRight t h
act-IsRight (closes b) t h = close-IsRight b t h

pub run-IsRight : (actions : List Action) (t : Trace) → IsRight t → IsRight (run actions t)
unfolding run
run-IsRight [] t h = h
run-IsRight (a ∷ actions) t h = run-IsRight actions (act a t) (act-IsRight a t h)
