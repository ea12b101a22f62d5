-- ===== src/Application/Service/Order.antt =====
-- The requests of a dialog are answered one after another, in the order of their submission.
use bmstu_nirs.Common.{
  nat_key, ==_refl, Bool-cases, Dict, List, Option-cases, [], arith, erase, false, if◌then◌else◌,
  inl, inr, lookup, lookup-erase, lookup-map_values, map_values, none, refl, some, subst, sym, true,
  ℕ, ℕ_discrete, ◌&&◌, ◌<◌, ◌==◌, ◌∙◌, ◌≡◌, ◌≢◌, ◌≤◌, ◌⊎◌,
}
use bmstu_nirs.Agent.Models.{UserRequest}
use bmstu_nirs.Dialogs.Models.{Uuid, Message, Result, ok, err}
use bmstu_nirs.Dialogs.History as History
use bmstu_nirs.Application.Service.{Service, Task, enqueue, is_tail, mark_done, submit, task_done}
use bmstu_nirs.Application.Service.Queue.{
  IsQueued, is_at, is_done, is_open, is_ready, open-at, previous_of, ready-ordered,
}
use bmstu_nirs.Application.Service.Queue.Submission.{enqueue-IsQueued}

-- A request is submitted, or a task ends that could start.
pub data Step : Service → Service → Type 0 where
  submitted :
      (user_id dialog_id : Uuid) (request : UserRequest) (s : Service)
      → Step s (submit user_id dialog_id request s).1
  ended :
      (i : ℕ) (dialog_id : Uuid) (s : Service)
      → is_at dialog_id (lookup i s.tasks) ≡ true
      → is_ready (lookup i s.tasks) s.tasks ≡ true
      → Step s (task_done i dialog_id s)

pub data Reach (s : Service) : Service → Type 0 where
  here : Reach s s
  next : {t u : Service} → Reach s t → Step t u → Reach s u

module _ (tails : Dict Uuid ℕ) (tasks : Dict ℕ Task) (n : ℕ) (v : IsQueued tails tasks n) where
  -- The task `i` of the dialog `d` ends.
  module _ (d : Uuid) (i : ℕ) (mine : is_at d (lookup i tasks) ≡ true)
      (could_start : is_ready (lookup i tasks) tasks ≡ true) where
    abbrev tasks' : Dict ℕ Task
    tasks' = map_values (mark_done i) tasks

    marked-lookup :
        (k : ℕ)
        → lookup k tasks' ≡ elim (lookup k tasks) [ none ↦ none | some t ↦ some (mark_done i k t) ]
    marked-lookup k = lookup-map_values (mark_done i) k tasks

    marked-at : (e : Uuid) (k : ℕ) → is_at e (lookup k tasks') ≡ is_at e (lookup k tasks)
    marked-at e k = ground (arith, marked-lookup k)

    marked-previous : (k : ℕ) → previous_of (lookup k tasks') ≡ previous_of (lookup k tasks)
    marked-previous k = ground (arith, marked-lookup k)

    marked-open :
        (e : Uuid) (k : ℕ)
        → is_open e (lookup k tasks') ≡ (if k == i then false else is_open e (lookup k tasks))
    marked-open e k = ground (arith, marked-lookup k)

    marked-done : (k : ℕ) → k ≢ i → is_done (lookup k tasks') ≡ is_done (lookup k tasks)
    marked-done k other = ground (arith, marked-lookup k)

    -- Before `i` all tasks of its dialog are done.
    earlier : (j : ℕ) → j < i → is_open d (lookup j tasks) ≡ false
    earlier j less = ready-ordered tails tasks n v d j i mine could_start less

    abbrev tails' : Dict Uuid ℕ
    tails' = if is_tail i d tails then erase d tails else tails

    tails-lookup :
        (e : Uuid)
        → lookup e tails' ≡ (if is_tail i d tails && (e == d) then none else lookup e tails)
    tails-lookup e = ground (arith, lookup-erase e d tails)

    one_dialog : (e : Uuid) → is_at e (lookup i tasks) ≡ true → e ≡ d
    one_dialog e there = elim (Option-cases (lookup i tasks)) [
      | inl absent ↦ ground arith
      | inr (t, present) ↦ ground arith
    ]

    ended-idle : (e : Uuid) (k : ℕ) → lookup e tails' ≡ none → is_open e (lookup k tasks') ≡ false
    ended-idle e k found = elim (Bool-cases (is_open e (lookup k tasks))) [
      | inr h ↦ ground (arith, marked-open e k)
      | inl h ↦ elim (Option-cases (lookup e tails)) [
        | inl absent ↦ ground (arith, v.idle e k, marked-open e k)
        | inr (m, present) ↦
            let there = open-at e (lookup k tasks) h in
            let le : k ≤ m = v.tail e m k present there in
            let same : e ≡ d = ground (arith, tails-lookup e) in
            let same' : m ≡ i = ground (arith, tails-lookup e) in
            ground (arith, marked-open e k, earlier k)
      ]
    ]

    ended-behind :
        (e : Uuid) (k j : ℕ)
        → is_open e (lookup k tasks') ≡ true
        → is_at e (lookup j tasks') ≡ true
        → k < j
        → (p : ℕ) × (previous_of (lookup j tasks') ≡ some p)
          × (k ≤ p)
          × (p < j)
          × (is_at e (lookup p tasks') ≡ true)
    ended-behind e k j h there less =
        let (p, waits_for, le, less', there') =
          v.behind e k j (ground (arith, marked-open e k)) (sym (marked-at e j) ∙ there) less in
        (p, marked-previous j ∙ waits_for, le, less', marked-at e p ∙ there')

    ended-ordered :
        (e : Uuid) (k j : ℕ)
        → is_at e (lookup j tasks') ≡ true
        → is_done (lookup j tasks') ≡ true
        → k < j
        → is_open e (lookup k tasks') ≡ false
    ended-ordered e k j there done less =
        let there' = sym (marked-at e j) ∙ there in
        elim (ℕ_discrete j i) [
          | yes same ↦
              let mine' : is_at e (lookup i tasks) ≡ true = ground arith in
              let same' = one_dialog e mine' in ground (arith, marked-open e k, earlier k)
          | no other ↦ ground (arith, marked-open e k, v.ordered e k j there', marked-done j other)
        ]

    ended-IsQueued : IsQueued tails' tasks' n
    ended-IsQueued = record {
      small = λ e k there. ground (arith, marked-at e k, v.small e k);
      tail = λ e k j found there. ground (arith, tails-lookup e, marked-at e j, v.tail e k j);
      known = λ e k found. ground (arith, tails-lookup e, marked-at e k, v.known e k);
      idle = ended-idle;
      behind = λ e k j h there less. ended-behind e k j h there less;
      ordered = λ e k j there done less. ended-ordered e k j there done less;
    }

abbrev IsQueuedIn : Service → Type 0
IsQueuedIn s = IsQueued s.dialog_tails s.tasks s.next_task

submit-cases :
    (user_id dialog_id : Uuid) (request : UserRequest) (s : Service) (x : Result (List Message))
    → History.get user_id dialog_id s.history ≡ x
    → ((submit user_id dialog_id request s).1 ≡ s)
      ⊎ ((submit user_id dialog_id request s).1 ≡ enqueue user_id dialog_id request s)
unfolding submit
submit-cases user_id dialog_id request s (err e) got = inl (ground arith)
submit-cases user_id dialog_id request s (ok ms) got = elim (Bool-cases s.accepting) [
  | inl open_now ↦ inr (ground arith)
  | inr shut ↦ inl (ground arith)
]

submit-IsQueued :
    (user_id dialog_id : Uuid) (request : UserRequest) (s : Service)
    → IsQueuedIn s
    → IsQueuedIn (submit user_id dialog_id request s).1
submit-IsQueued user_id dialog_id request s v =
    elim (submit-cases user_id dialog_id request s (History.get user_id dialog_id s.history) refl) [
      | inl same ↦ subst IsQueuedIn (sym same) v
      | inr new ↦ subst IsQueuedIn (sym new) (
          enqueue-IsQueued s.dialog_tails s.tasks s.next_task v dialog_id
            (record {
              dialog_id = dialog_id;
              previous_task = lookup dialog_id s.dialog_tails;
              user_id = user_id;
              request = request;
              done = false;
            })
            (==_refl dialog_id) refl refl)
    ]

Step-IsQueued : {s t : Service} → Step s t → IsQueuedIn s → IsQueuedIn t
unfolding task_done
Step-IsQueued (submitted user_id dialog_id request s) v =
    submit-IsQueued user_id dialog_id request s v
Step-IsQueued (ended i dialog_id s mine could_start) v =
    ended-IsQueued s.dialog_tails s.tasks s.next_task v dialog_id i mine could_start

Reach-IsQueued : {s t : Service} → Reach s t → IsQueuedIn s → IsQueuedIn t
Reach-IsQueued here v = v
Reach-IsQueued (next run st) v = Step-IsQueued st (Reach-IsQueued run v)

no_tasks-IsQueued : (n : ℕ) → IsQueued [] [] n
no_tasks-IsQueued n = record {
  small = λ d i h. cc;
  tail = λ d k i h. cc;
  known = λ d k h. cc;
  idle = λ d i h. refl;
  behind = λ d i j h there less. ground arith;
  ordered = λ d i j h there less. refl;
}

-- Whatever is submitted, and however tasks end: a task that could start, since the task that it
-- waits for is done, is behind tasks that are done: no task of its dialog that was submitted before
-- it is still to be done.
pub Reach-order :
    (s t : Service) (d : Uuid) (i j : ℕ)
    → s.dialog_tails ≡ []
    → s.tasks ≡ []
    → Reach s t
    → is_at d (lookup j t.tasks) ≡ true
    → is_ready (lookup j t.tasks) t.tasks ≡ true
    → i < j
    → is_open d (lookup i t.tasks) ≡ false
Reach-order s t d i j no_tails no_tasks run there ready less =
    let v : IsQueuedIn s = rw (no_tails, no_tasks) (no_tasks-IsQueued s.next_task) in
    ready-ordered t.dialog_tails t.tasks t.next_task (Reach-IsQueued run v) d i j there ready less
