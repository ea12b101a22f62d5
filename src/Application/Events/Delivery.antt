-- ===== src/Application/Events/Delivery.antt =====
-- What a reader of a subscription gets.
use bmstu_nirs.Common.{
  nat_key, List, [], ap, arith, false, inl, inr, length, map, refl, subst, sym, true, ℕ, ◌++◌, ◌<◌,
  ◌∙◌, ◌∷◌, ◌≡◌, ◌≤◌, ◌⊎◌,
}
use bmstu_nirs.Application.Events.{
  DialogEvent, Item, Uuid, close, closed_mark, event, offer, receive,
}
use bmstu_nirs.Application.Events.Sublist.{Sublist, Sublist-prefix, Sublist-trans}
use bmstu_nirs.Application.Events.Traces.{
  Action, IsClosed, IsOpen, Trace, act, closes, offers, opened, run, takes,
}
use bmstu_nirs.Application.Events.Traces.Preserved.{run-IsRight}

act-queue_size : (a : Action) (t : Trace) → (act a t).object.queue_size ≡ t.object.queue_size
unfolding act offer receive close
act-queue_size (offers e) t = ground arith
act-queue_size takes t = ground arith
act-queue_size (closes b) t = ground arith

run-queue_size :
    (actions : List Action) (t : Trace) → (run actions t).object.queue_size ≡ t.object.queue_size
unfolding run
run-queue_size [] t = refl
run-queue_size (a ∷ actions) t = run-queue_size actions (act a t) ∙ act-queue_size a t

-- The events in a queue.
abbrev pub pending : List Item → List DialogEvent
pending [] = []
pending (event e ∷ xs) = e ∷ pending xs
pending (closed_mark ∷ xs) = pending xs

pending-map : (q : List DialogEvent) → pending (map event q) ≡ q
pending-map [] = refl
pending-map (e ∷ q) = ap (◌∷◌ e) (pending-map q)

pending-marked : (q : List DialogEvent) → pending (map event q ++ (closed_mark ∷ [])) ≡ q
pending-marked [] = refl
pending-marked (e ∷ q) = ap (◌∷◌ e) (pending-marked q)

-- What `run-order` says of an object.
abbrev IsOrdered : Trace → Type 0
IsOrdered t =
    (t.object.closed ≡ false → t.offered ≡ t.taken ++ pending t.object.queue)
    × Sublist t.taken t.offered
    × (t.object.closed ≡ true
        → ((t.finished ≡ true) × (t.object.queue ≡ []))
          ⊎ ((t.finished ≡ false)
              × (t.object.queue ≡ map event (pending t.object.queue) ++ (closed_mark ∷ []))))

IsRight-order : (t : Trace) → IsOpen t ⊎ IsClosed t → IsOrdered t
IsRight-order t (inl (q, open_now, queued, all, going)) = (
  λ h. all ∙ ap (◌++◌ t.taken) (sym (ap pending queued ∙ pending-map q)),
  subst (Sublist t.taken) (sym all) (Sublist-prefix t.taken q),
  λ h. cc,
)
IsRight-order t (inr (q, closed_now, marked, order)) = (
  λ h. cc,
  Sublist-trans order (Sublist-prefix t.taken q),
  λ h. elim marked [ inl e ↦ inr (e.1, ground (arith, pending-marked q)) | inr e ↦ inl (e.2, e.1) ],
)

-- Whatever is offered, received and closed, in any order: while the object is open, the reader has
-- received all events offered, in order, but for those still in the queue; at any time it has
-- received some of the events offered, each once and in order. The queue never holds more than its
-- size. The queue of a closed object has one mark, its last item, as long as the reader has not
-- received the end, and is empty from then on.
pub run-order :
    (dialog_id : Uuid) (queue_size : ℕ) (actions : List Action)
    → 0 < queue_size
    → let t = run actions (opened dialog_id queue_size) in
      (t.object.closed ≡ false → t.offered ≡ t.taken ++ pending t.object.queue)
      × Sublist t.taken t.offered
      × (length t.object.queue ≤ queue_size)
      × (t.object.closed ≡ true
          → ((t.finished ≡ true) × (t.object.queue ≡ []))
            ⊎ ((t.finished ≡ false)
                × (t.object.queue ≡ map event (pending t.object.queue) ++ (closed_mark ∷ []))))
run-order dialog_id queue_size actions positive =
    let t = run actions (opened dialog_id queue_size) in
    let (state, small, room) =
      run-IsRight actions (opened dialog_id queue_size)
        (inl ([], refl, refl, refl, refl), omega arith, positive) in
    let (all, order, marked) = IsRight-order t state in
    (all, order, ground (arith, run-queue_size actions (opened dialog_id queue_size)), marked)
