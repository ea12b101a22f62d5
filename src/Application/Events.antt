-- ===== src/Application/Events.antt =====
-- backend/src/smeshariki_ai/application/events.py, and `_InMemoryDialogSubscription` of
-- backend/src/smeshariki_ai/application/event_broker.py: the queue between the broker and one
-- reader.
pub mod Sublist
pub mod Traces
pub mod Delivery
pub mod Closing
use bmstu_nirs.Common.{
  nat_key, Bool, List, Option, String, [], false, if◌then◌else◌, leb, length, true, ℕ, ◌++◌, ◌∷◌,
}

abbrev pub Uuid : Type 0
Uuid = ℕ

pub data DialogEventType : Type 0 where
  message_start message_delta message_end message_error : DialogEventType

pub record DialogEvent : Type 0 where
  pub type : DialogEventType
  pub delta : Option String
  pub code : Option String
  pub message : Option String
  pub message_id : Option ℕ

-- What a queue holds: events, and `_CLOSED`.
pub data Item : Type 0 where
  event : DialogEvent → Item
  closed_mark : Item

pub record Subscription : Type 0 where
  pub dialog_id : Uuid
  pub queue_size : ℕ
  pub queue : List Item
  pub closed : Bool

abbrev pub open_subscription : Uuid → ℕ → Subscription
open_subscription dialog_id queue_size = record {
  dialog_id = dialog_id;
  queue_size = queue_size;
  queue = [];
  closed = false;
}

-- `asyncio.Queue.full`
abbrev pub is_full : Subscription → Bool
is_full s = leb s.queue_size (length s.queue)

abbrev pub drop_first : List Item → List Item
drop_first [] = []
drop_first (x ∷ xs) = xs

-- A queue is closed with room for the mark: it is emptied, or its oldest item is dropped if it is
-- full. So `put_nowait` does not fail, for queues that hold at least one item.
unfoldable pub close : Bool → Subscription → Subscription
close discard_pending s =
    let rest = if discard_pending then [] else if is_full s then drop_first s.queue else s.queue in
    if s.closed then s else record s { queue = rest ++ (closed_mark ∷ []); closed = true }

-- Whether the event was taken.
unfoldable pub offer : DialogEvent → Subscription → Bool × Subscription
unfolding close
offer e s =
    if s.closed
    then (false, s)
    else if is_full s
    then (false, close true s)
    else (true, record s { queue = s.queue ++ (event e ∷ []) })

-- `receive` waits while the queue is empty.
pub data Received : Type 0 where
  waits : Received
  ended : Received
  received : DialogEvent → Received

unfoldable pub receive : Subscription → Received × Subscription
receive s = elim (s.queue) [
  | [] ↦ (waits, s)
  | closed_mark ∷ xs ↦ (ended, record s { queue = xs })
  | event e ∷ xs ↦ (received e, record s { queue = xs })
]
