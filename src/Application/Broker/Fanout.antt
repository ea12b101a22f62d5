-- ===== src/Application/Broker/Fanout.antt =====
-- Who gets an event, and who is closed: the broker as if it kept no table of subscribers, and
-- looked at all subscriptions instead.
use bmstu_nirs.Common.{
  nat_key, ==_refl, Bool, List, Option, Option-cases, [], arith, false, if◌then◌else◌, inl, inr,
  leb, length, lookup, none, not, refl, some, true, ℕ, ◌&&◌, ◌++◌, ◌==◌, ◌∷◌, ◌≡◌,
}
use bmstu_nirs.Application.Events.{DialogEvent, Item, Subscription, Uuid, close, closed_mark, offer}
use bmstu_nirs.Application.Broker.{
  Broker, close_dialog, member, publish, shutdown, subscribe, subscribers_of,
}
use bmstu_nirs.Application.Broker.Registry.{
  IsSound, change_members-lookup, member-values, shutdown-lookup,
}

-- The specification: one function on all subscriptions of a dialog that are open.
abbrev pub change_open :
    (Uuid → Bool) → (Subscription → Subscription) → Option Subscription → Option Subscription
change_open at_dialog f none = none
change_open at_dialog f (some s) = some (if at_dialog s.dialog_id && not s.closed then f s else s)

-- An event is offered to every open subscription of its dialog, and to no other.
pub publish-lookup :
    (dialog_id : Uuid) (e : DialogEvent) (i : ℕ) (b : Broker)
    → IsSound b
    → lookup i (publish dialog_id e b).subscriptions
      ≡ change_open (λ d. d == dialog_id) (λ s. (offer e s).1) (lookup i b.subscriptions)
unfolding publish subscribers_of
publish-lookup dialog_id e i b v =
    let ids = subscribers_of dialog_id b.subscribers in
    ground (
      arith,
      v.exact dialog_id i,
      v.shut,
      change_members-lookup (λ s. (offer e s).1) ids i b.subscriptions,
    )

-- The end of a dialog closes every open subscription of it, and no other, and keeps what is
-- pending.
pub close_dialog-lookup :
    (dialog_id : Uuid) (i : ℕ) (b : Broker)
    → IsSound b
    → lookup i (close_dialog dialog_id b).subscriptions
      ≡ change_open (λ d. d == dialog_id) (close false) (lookup i b.subscriptions)
unfolding close_dialog
close_dialog-lookup dialog_id i b v =
    let ids = subscribers_of dialog_id b.subscribers in
    ground (arith, v.exact dialog_id i, change_members-lookup (close false) ids i b.subscriptions)

open-subscribed :
    (i : ℕ) (s : Subscription) (b : Broker)
    → IsSound b
    → lookup i b.subscriptions ≡ some s
    → s.closed ≡ false
    → member i (subscribers_of s.dialog_id b.subscribers) ≡ true
open-subscribed i s b v there open_now = ground (arith, v.exact s.dialog_id i, ==_refl s.dialog_id)

-- The specification of the queue of a subscription that is closed: its items in order, without the
-- oldest if the queue is full, and the mark.
abbrev pub with_mark : ℕ → List Item → List Item
with_mark queue_size [] = closed_mark ∷ []
with_mark queue_size (x ∷ xs) =
    (if leb queue_size (length (x ∷ xs)) then xs else x ∷ xs) ++ (closed_mark ∷ [])

abbrev pub ended_reader : Subscription → Subscription
ended_reader s = record {
  dialog_id = s.dialog_id;
  queue_size = s.queue_size;
  queue = with_mark s.queue_size s.queue;
  closed = true;
}

close-ended_reader : (s : Subscription) → s.closed ≡ false → close false s ≡ ended_reader s
unfolding close
close-ended_reader s open_now = go s.queue refl
  where
    go : (xs : List Item) → s.queue ≡ xs → close false s ≡ ended_reader s
    go [] e = ground arith
    go (x ∷ xs) e = ground arith

-- A shutdown closes every subscription that is open: its queue keeps what is pending, in order, but
-- for the oldest item of a full queue, and ends with the mark. Those closed before are unchanged.
-- Afterwards nobody can subscribe, and a second shutdown does nothing.
pub shutdown_lem :
    (dialog_id : Uuid) (i : ℕ) (b : Broker)
    → IsSound b
    → (lookup i (shutdown b).subscriptions
        ≡ change_open (λ d. true) ended_reader (lookup i b.subscriptions))
      × (subscribe dialog_id (shutdown b) ≡ (none, shutdown b))
      × (shutdown (shutdown b) ≡ shutdown b)
unfolding shutdown close subscribe subscribers_of
shutdown_lem dialog_id i b v = elim (Option-cases (lookup i b.subscriptions)) [
  | inl missing ↦ (ground (arith, shutdown-lookup i b), ground arith, ground arith)
  | inr (s, present) ↦ (
    ground (
      arith,
      shutdown-lookup i b,
      v.shut,
      open-subscribed i s b v present,
      member-values i s.dialog_id b.subscribers,
      close-ended_reader s,
    ),
    ground arith,
    ground arith,
  )
]
