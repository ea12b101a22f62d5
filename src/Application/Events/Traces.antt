-- ===== src/Application/Events/Traces.antt =====
-- Runs of one subscription: what is offered to it, and what its reader receives.
pub mod Preserved
use mathlib.Core.List.{append_assoc, append-nil}
use bmstu_nirs.Common.{
  nat_key, Bool, List, [], false, length, map, true, ℕ, ◌++◌, ◌<◌, ◌||◌, ◌∷◌, ◌≡◌, ◌≤◌, ◌⊎◌,
}
use bmstu_nirs.Application.Events.{
  DialogEvent, Item, Received, Subscription, Uuid, close, closed_mark, ended, event, offer,
  open_subscription, receive, received,
}
use bmstu_nirs.Application.Events.Sublist.{Sublist}

-- What the broker and the reader do with one object.
pub data Action : Type 0 where
  offers : DialogEvent → Action
  takes : Action
  closes : Bool → Action

-- The object with the events offered to it, those that the reader has received, and whether it has
-- received the end.
pub record Trace : Type 0 where
  pub offered : List DialogEvent
  pub taken : List DialogEvent
  pub finished : Bool
  pub object : Subscription

abbrev pub events_of : Received → List DialogEvent
events_of (received e) = e ∷ []
events_of _ = []

abbrev pub is_end : Received → Bool
is_end ended = true
is_end _ = false

unfoldable pub act : Action → Trace → Trace
unfolding offer receive close
act (offers e) t = record t { offered = t.offered ++ (e ∷ []); object = (offer e t.object).1 }
act takes t =
    let (answer, s) = receive t.object in
    record t {
      taken = t.taken ++ events_of answer;
      finished = t.finished || is_end answer;
      object = s;
    }
act (closes discard_pending) t = record t { object = close discard_pending t.object }

unfoldable pub run : List Action → Trace → Trace
unfolding act
run [] t = t
run (a ∷ actions) t = run actions (act a t)

abbrev pub opened : Uuid → ℕ → Trace
opened dialog_id queue_size = record {
  offered = [];
  taken = [];
  finished = false;
  object = open_subscription dialog_id queue_size;
}

-- The events `q` are pending in an open object, or in a closed one, which has its mark until the reader has
-- received the end.
abbrev pub IsOpen : Trace → Type 0
IsOpen t =
    (q : List DialogEvent) × (t.object.closed ≡ false)
    × (t.object.queue ≡ map event q)
    × (t.offered ≡ t.taken ++ q)
    × (t.finished ≡ false)

abbrev pub IsMarked : List DialogEvent → List Item → Bool → Type 0
IsMarked q xs finished =
    ((xs ≡ map event q ++ (closed_mark ∷ [])) × (finished ≡ false))
    ⊎ ((q ≡ []) × (xs ≡ []) × (finished ≡ true))

abbrev pub IsClosed : Trace → Type 0
IsClosed t =
    (q : List DialogEvent) × (t.object.closed ≡ true)
    × IsMarked q t.object.queue t.finished
    × Sublist (t.taken ++ q) t.offered

abbrev pub IsRight : Trace → Type 0
IsRight t =
    (IsOpen t ⊎ IsClosed t)
    × (length t.object.queue ≤ t.object.queue_size)
    × (0 < t.object.queue_size)
