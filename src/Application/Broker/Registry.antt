-- ===== src/Application/Broker/Registry.antt =====
-- The table of subscribers holds exactly the open subscriptions.
use bmstu_nirs.Common.{
  nat_key, ==_refl, Bool, Bool-cases, Dict, List, Option, Option-cases, [], any, arith, erase,
  false, if◌then◌else◌, inl, inr, insert, keep, lookup, lookup-erase, lookup-insert,
  lookup-map_values, map_values, none, not, refl, some, subst, suc, true, values, zero, ℕ, ◌&&◌,
  ◌<◌, ◌==◌, ◌||◌, ◌∷◌, ◌≡◌, ◌≤◌,
}
use bmstu_nirs.Application.Events.{
  DialogEvent, Subscription, Uuid, close, offer, open_subscription, receive,
}
use bmstu_nirs.Application.Broker.{
  Broker, close_dialog, is_empty, member, new_broker, publish, receive_from, shutdown, store_set,
  subscribe, subscribers_of, takes, unsubscribe, update,
}

-- An object that is an open subscription of the dialog.
abbrev pub is_open_at : Uuid → Option Subscription → Bool
is_open_at dialog_id none = false
is_open_at dialog_id (some s) = (s.dialog_id == dialog_id) && not s.closed

pub record IsSound (b : Broker) : Type 0 where
  pub positive : 0 < b.queue_size
  -- an identity that has not been given names no object;
  pub unused : (i : ℕ) → b.next_object ≤ i → lookup i b.subscriptions ≡ none
  -- the subscribers of a dialog are its open subscriptions;
  pub exact :
      (dialog_id : Uuid) (i : ℕ)
      → member i (subscribers_of dialog_id b.subscribers)
        ≡ is_open_at dialog_id (lookup i b.subscriptions)
  -- a broker that is closed has none.
  pub shut : b.closed ≡ true → b.subscribers ≡ []

-- The methods of the broker, and its readers, with any arguments.
pub data Step : Broker → Broker → Type 0 where
  subscribed : (dialog_id : Uuid) (b : Broker) → Step b (subscribe dialog_id b).1
  unsubscribed : (i : ℕ) (b : Broker) → Step b (unsubscribe i b)
  published : (dialog_id : Uuid) (e : DialogEvent) (b : Broker) → Step b (publish dialog_id e b)
  dialog_closed : (dialog_id : Uuid) (b : Broker) → Step b (close_dialog dialog_id b)
  shut_down : (b : Broker) → Step b (shutdown b)
  read : (i : ℕ) (b : Broker) → Step b (receive_from i b).1

pub data Reach (b : Broker) : Broker → Type 0 where
  here : Reach b b
  next : {c d : Broker} → Reach b c → Step c d → Reach b d

member-insert :
    (i : ℕ) (d d' : Uuid) (ids : List ℕ) (t : Dict Uuid (List ℕ))
    → member i (subscribers_of d' (insert d ids t))
      ≡ (if d' == d then member i ids else member i (subscribers_of d' t))
unfolding subscribers_of
member-insert i d d' ids t = ground (arith, lookup-insert d' d ids t)

member-erase :
    (i : ℕ) (d d' : Uuid) (t : Dict Uuid (List ℕ))
    → member i (subscribers_of d' (erase d t))
      ≡ (if d' == d then false else member i (subscribers_of d' t))
unfolding subscribers_of
member-erase i d d' t = ground (arith, lookup-erase d' d t)

member-store_set :
    (i : ℕ) (d d' : Uuid) (ids : List ℕ) (t : Dict Uuid (List ℕ))
    → member i (subscribers_of d' (store_set d ids t))
      ≡ (if d' == d then member i ids else member i (subscribers_of d' t))
member-store_set i d d' [] t = member-erase i d d' t
member-store_set i d d' (k ∷ ids) t = member-insert i d d' (k ∷ ids) t

member-keep :
    (i : ℕ) (test : ℕ → Bool) (ids : List ℕ) → member i (keep test ids) ≡ (member i ids && test i)
member-keep i test [] = refl
member-keep i test (k ∷ ids) = ground (arith, member-keep i test ids)

pub member-values :
    (i : ℕ) (d : Uuid) (t : Dict Uuid (List ℕ))
    → member i (subscribers_of d t) ≡ true
    → any (member i) (values t) ≡ true
unfolding subscribers_of
member-values i d [] h = cc
member-values i d (x ∷ t) h = ground (arith, member-values i d t)

subscribe-shut :
    (dialog_id : Uuid) (b : Broker) → b.closed ≡ true → subscribe dialog_id b ≡ (none, b)
unfolding subscribe
subscribe-shut dialog_id b h = ground arith

shutdown-shut : (b : Broker) → b.closed ≡ true → shutdown b ≡ b
unfolding shutdown
shutdown-shut b h = ground arith

subscribe-IsSound : (dialog_id : Uuid) (b : Broker) → IsSound b → IsSound (subscribe dialog_id b).1
unfolding subscribe
subscribe-IsSound dialog_id b v = elim (Bool-cases b.closed) [
  | inl h ↦ rw (subscribe-shut dialog_id b h) v
  | inr h ↦ rw h (record {
    positive = v.positive;
    unused = λ i le. ground (
      arith,
      v.unused i,
      lookup-insert i b.next_object (open_subscription dialog_id b.queue_size) b.subscriptions,
    );
    exact = λ d i. ground (
      arith,
      v.exact d i,
      v.exact dialog_id i,
      v.unused i,
      ==_refl d,
      lookup-insert i b.next_object (open_subscription dialog_id b.queue_size) b.subscriptions,
      member-insert i dialog_id d (b.next_object ∷ subscribers_of dialog_id b.subscribers)
          b.subscribers,
    );
    shut = λ h'. cc;
  })
]

-- A change of all objects that are members of a set.
abbrev pub change_members :
    (Subscription → Subscription) → List ℕ → Dict ℕ Subscription → Dict ℕ Subscription
change_members f ids = map_values (λ i s. if member i ids then f s else s)

pub change_members-lookup :
    (f : Subscription → Subscription) (ids : List ℕ) (i : ℕ) (subs : Dict ℕ Subscription)
    → lookup i (change_members f ids subs)
      ≡ elim (lookup i subs) [ none ↦ none | some s ↦ some (if member i ids then f s else s) ]
change_members-lookup f ids i subs =
    lookup-map_values (λ k s. if member k ids then f s else s) i subs

update-lookup :
    (i k : ℕ) (f : Subscription → Subscription) (subs : Dict ℕ Subscription)
    → lookup k (update i f subs)
      ≡ elim (lookup k subs) [ none ↦ none | some s ↦ some (if k == i then f s else s) ]
update-lookup i k f subs = lookup-map_values (λ j s. if j == i then f s else s) k subs

unsubscribe-IsSound : (i : ℕ) (b : Broker) → IsSound b → IsSound (unsubscribe i b)
unfolding unsubscribe close
unsubscribe-IsSound i b v = elim (Option-cases (lookup i b.subscriptions)) [
  | inl missing ↦ rw (missing, unsubscribe) v
  | inr (s, present) ↦
      let ids = subscribers_of s.dialog_id b.subscribers in
      elim (Bool-cases (member i ids)) [
        | inr h ↦ rw (present, h, unsubscribe) v
        | inl h ↦
            rw (present, h, unsubscribe)
              (record {
                positive = v.positive;
                unused = λ k le.
                    ground (arith, v.unused k, update-lookup i k (close true) b.subscriptions);
                exact = λ d k. ground (
                  arith,
                  v.exact d k,
                  v.exact s.dialog_id k,
                  update-lookup i k (close true) b.subscriptions,
                  member-store_set k s.dialog_id d (keep (λ j. not (j == i)) ids) b.subscribers,
                  member-keep k (λ j. not (j == i)) ids,
                );
                shut = λ h'. ground (arith, v.shut h');
              })
      ]
]

publish-IsSound :
    (dialog_id : Uuid) (e : DialogEvent) (b : Broker) → IsSound b → IsSound (publish dialog_id e b)
unfolding publish offer close
publish-IsSound dialog_id e b v =
    let ids = subscribers_of dialog_id b.subscribers in
    elim (Bool-cases (b.closed || is_empty ids)) [
      | inl h ↦ rw h v
      | inr h ↦ rw h (record {
        positive = v.positive;
        unused = λ i le.
            ground
              (arith, v.unused i, change_members-lookup (λ s. (offer e s).1) ids i b.subscriptions);
        exact = λ d i. ground (
          arith,
          v.exact d i,
          v.exact dialog_id i,
          change_members-lookup (λ s. (offer e s).1) ids i b.subscriptions,
          member-store_set i dialog_id d (keep (takes e b.subscriptions) ids) b.subscribers,
          member-keep i (takes e b.subscriptions) ids,
        );
        shut = λ h'. ground arith;
      })
    ]

close_dialog-IsSound :
    (dialog_id : Uuid) (b : Broker) → IsSound b → IsSound (close_dialog dialog_id b)
unfolding close_dialog close
close_dialog-IsSound dialog_id b v =
    let ids = subscribers_of dialog_id b.subscribers in
    record {
      positive = v.positive;
      unused = λ i le.
          ground (arith, v.unused i, change_members-lookup (close false) ids i b.subscriptions);
      exact = λ d i. ground (
        arith,
        v.exact d i,
        v.exact dialog_id i,
        change_members-lookup (close false) ids i b.subscriptions,
        member-erase i dialog_id d b.subscribers,
      );
      shut = λ h. ground (arith, v.shut);
    }

pub shutdown-lookup :
    (i : ℕ) (b : Broker)
    → lookup i (
        map_values
          (λ k s. if any (member k) (values b.subscribers) then close false s else s)
          b.subscriptions)
      ≡ elim (lookup i b.subscriptions) [
        | none ↦ none
        | some s ↦ some (if any (member i) (values b.subscribers) then close false s else s)
      ]
shutdown-lookup i b =
    lookup-map_values (λ k s. if any (member k) (values b.subscribers) then close false s else s) i
      b.subscriptions

shutdown-exact :
    (d : Uuid) (i : ℕ) (b : Broker)
    → IsSound b
    → member i (subscribers_of d [])
      ≡ is_open_at d (
          lookup i (
            map_values
              (λ k s. if any (member k) (values b.subscribers) then close false s else s)
              b.subscriptions))
unfolding subscribers_of close
shutdown-exact d i b v =
    ground (arith, v.exact d i, shutdown-lookup i b, member-values i d b.subscribers)

shutdown-IsSound : (b : Broker) → IsSound b → IsSound (shutdown b)
unfolding shutdown close
shutdown-IsSound b v = elim (Bool-cases b.closed) [
  | inl h ↦ rw (shutdown-shut b h) v
  | inr h ↦ rw h (record {
    positive = v.positive;
    unused = λ i le. ground (arith, v.unused i, shutdown-lookup i b);
    exact = λ d i. shutdown-exact d i b v;
    shut = λ h'. refl;
  })
]

receive-same :
    (s : Subscription) → ((receive s).1.closed ≡ s.closed) × ((receive s).1.dialog_id ≡ s.dialog_id)
unfolding receive
receive-same s = ground arith

receive_from-IsSound : (i : ℕ) (b : Broker) → IsSound b → IsSound (receive_from i b).1
unfolding receive_from
receive_from-IsSound i b v = elim (Option-cases (lookup i b.subscriptions)) [
  | inl missing ↦ rw (missing, receive_from) v
  | inr (s, present) ↦
      rw (present, receive_from)
        (record {
          positive = v.positive;
          unused = λ k le.
              ground (arith, v.unused k, update-lookup i k (λ _. (receive s).1) b.subscriptions);
          exact = λ d k. ground (
            arith,
            v.exact d k,
            receive-same s,
            update-lookup i k (λ _. (receive s).1) b.subscriptions,
          );
          shut = v.shut;
        })
]

Step-IsSound : {b c : Broker} → Step b c → IsSound b → IsSound c
Step-IsSound (subscribed dialog_id b) v = subscribe-IsSound dialog_id b v
Step-IsSound (unsubscribed i b) v = unsubscribe-IsSound i b v
Step-IsSound (published dialog_id e b) v = publish-IsSound dialog_id e b v
Step-IsSound (dialog_closed dialog_id b) v = close_dialog-IsSound dialog_id b v
Step-IsSound (shut_down b) v = shutdown-IsSound b v
Step-IsSound (read i b) v = receive_from-IsSound i b v

-- In every state that a new broker reaches, by its methods and its readers in any order, the
-- subscribers of a dialog are exactly its subscriptions that are open, and a closed broker has none.
pub Reach-IsSound : (n : ℕ) {b c : Broker} → new_broker n ≡ some b → Reach b c → IsSound c
unfolding new_broker subscribers_of
Reach-IsSound zero made here = cc
Reach-IsSound (suc n) {b} made here =
    let same : record {
      queue_size = suc n;
      subscriptions = [];
      next_object = 0;
      subscribers = [];
      closed = false;
    }
        ≡ b =
      ground arith in
    subst IsSound same (record {
      positive = omega arith;
      unused = λ i le. refl;
      exact = λ d i. refl;
      shut = λ h. refl;
    })
Reach-IsSound n made (next run st) = Step-IsSound st (Reach-IsSound n made run)
