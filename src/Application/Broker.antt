-- ===== src/Application/Broker.antt =====
-- `InMemoryDialogEventBroker` of backend/src/smeshariki_ai/application/event_broker.py. Its lock
-- makes each method one step. A subscription is an object that the broker and its reader share: the
-- objects are in `subscriptions`, by identity, and `subscribers` holds identities. A set of them
-- is a list, read by membership.
pub mod Registry
pub mod Fanout
use bmstu_nirs.Common.{
  nat_key, Bool, Dict, List, Option, [], any, erase, false, if◌then◌else◌, insert, keep, lookup,
  map_values, none, not, some, suc, true, values, zero, ℕ, ◌+◌, ◌==◌, ◌||◌, ◌∷◌,
}
use bmstu_nirs.Application.Events.{
  DialogEvent, Received, Subscription, Uuid, close, offer, open_subscription, receive, waits,
}

pub record Broker : Type 0 where
  pub queue_size : ℕ
  pub subscriptions : Dict ℕ Subscription
  pub next_object : ℕ
  pub subscribers : Dict Uuid (List ℕ)
  pub closed : Bool

-- `none` is the `ValueError` of a size that is not positive.
unfoldable pub new_broker : ℕ → Option Broker
new_broker zero = none
new_broker (suc n) = some (record {
  queue_size = suc n;
  subscriptions = [];
  next_object = 0;
  subscribers = [];
  closed = false;
})

abbrev pub member : ℕ → List ℕ → Bool
member i ids = any (λ k. k == i) ids

-- `self._subscribers.get(dialog_id)`, with the empty set where there is none.
unfoldable pub subscribers_of : Uuid → Dict Uuid (List ℕ) → List ℕ
subscribers_of dialog_id t = elim (lookup dialog_id t) [ none ↦ [] | some ids ↦ ids ]

-- A set that has become empty is removed from the table.
abbrev pub store_set : Uuid → List ℕ → Dict Uuid (List ℕ) → Dict Uuid (List ℕ)
store_set dialog_id [] t = erase dialog_id t
store_set dialog_id (i ∷ ids) t = insert dialog_id (i ∷ ids) t

-- The new object, or the `RuntimeError` of a broker that is closed.
unfoldable pub subscribe : Uuid → Broker → Option ℕ × Broker
unfolding subscribers_of
subscribe dialog_id b = if b.closed then (none, b) else (
  some b.next_object,
  record b {
    subscriptions = insert b.next_object (open_subscription dialog_id b.queue_size) b.subscriptions;
    next_object = b.next_object + 1;
    subscribers =
        insert dialog_id (b.next_object ∷ subscribers_of dialog_id b.subscribers) b.subscribers;
  },
)

-- A change of one object of the store.
abbrev pub update : ℕ → (Subscription → Subscription) → Dict ℕ Subscription → Dict ℕ Subscription
update i f = map_values (λ k s. if k == i then f s else s)

unfoldable pub unsubscribe : ℕ → Broker → Broker
unfolding subscribers_of close
unsubscribe i b = elim (lookup i b.subscriptions) [
  | none ↦ b
  | some s ↦
      let ids = subscribers_of s.dialog_id b.subscribers in
      if member i ids
      then record b {
        subscriptions = update i (close true) b.subscriptions;
        subscribers = store_set s.dialog_id (keep (λ k. not (k == i)) ids) b.subscribers;
      }
      else b
]

abbrev pub is_empty : List ℕ → Bool
is_empty [] = true
is_empty (_ ∷ _) = false

-- `offer` to an object of the store takes the event.
abbrev pub takes : DialogEvent → Dict ℕ Subscription → ℕ → Bool
takes e subs i = elim (lookup i subs) [ none ↦ false | some s ↦ (offer e s).0 ]

unfoldable pub publish : Uuid → DialogEvent → Broker → Broker
unfolding subscribers_of offer
publish dialog_id e b =
    let ids = subscribers_of dialog_id b.subscribers in
    if b.closed || is_empty ids then b else record b {
      subscriptions = map_values (λ i s. if member i ids then (offer e s).1 else s) b.subscriptions;
      subscribers = store_set dialog_id (keep (takes e b.subscriptions) ids) b.subscribers;
    }

unfoldable pub close_dialog : Uuid → Broker → Broker
unfolding subscribers_of close
close_dialog dialog_id b =
    let ids = subscribers_of dialog_id b.subscribers in
    record b {
      subscriptions = map_values (λ i s. if member i ids then close false s else s) b.subscriptions;
      subscribers = erase dialog_id b.subscribers;
    }

unfoldable pub shutdown : Broker → Broker
unfolding close
shutdown b = if b.closed then b else record b {
  subscriptions =
      map_values (λ i s. if any (member i) (values b.subscribers) then close false s else s)
        b.subscriptions;
  subscribers = [];
  closed = true;
}

-- The reader of an object takes its next item.
unfoldable pub receive_from : ℕ → Broker → Received × Broker
unfolding receive
receive_from i b = elim (lookup i b.subscriptions) [
  | none ↦ (waits, b)
  | some s ↦
      let (answer, s') = receive s in
      (answer, record b { subscriptions = update i (λ _. s') b.subscriptions })
]
