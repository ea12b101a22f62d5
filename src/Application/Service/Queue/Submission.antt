-- ===== src/Application/Service/Queue/Submission.antt =====
-- A new task keeps the queue.
use bmstu_nirs.Common.{
  nat_key, Dict, Option-cases, arith, false, if◌then◌else◌, inl, inr, insert, lookup, lookup-insert,
  some, subst, sym, true, ℕ, ℕ_discrete, ◌+◌, ◌<◌, ◌==◌, ◌≡◌, ◌≤◌,
}
use bmstu_nirs.Dialogs.Models.{Uuid}
use bmstu_nirs.Application.Service.{Task}
use bmstu_nirs.Application.Service.Queue.{IsQueued, is_at, is_open, open-at, previous_of}

module _ (tails : Dict Uuid ℕ) (tasks : Dict ℕ Task) (n : ℕ) (v : IsQueued tails tasks n) where
  module _ (d : Uuid) (t : Task) (mine : (t.dialog_id == d) ≡ true) (open_now : t.done ≡ false)
      (follows : t.previous_task ≡ lookup d tails) where
    fresh-lookup :
        (i : ℕ) → lookup i (insert n t tasks) ≡ (if i == n then some t else lookup i tasks)
    fresh-lookup i = lookup-insert i n t tasks

    abbrev Waits : Uuid → ℕ → ℕ → Type 0
    Waits e i j =
        (p : ℕ) × (previous_of (lookup j (insert n t tasks)) ≡ some p)
        × (i ≤ p)
        × (p < j)
        × (is_at e (lookup p (insert n t tasks)) ≡ true)

    new-behind : (i : ℕ) → is_open d (lookup i tasks) ≡ true → Waits d i n
    new-behind i h = elim (Option-cases (lookup d tails)) [
      | inl absent ↦ ground (arith, v.idle d i)
      | inr (k, present) ↦
          let at_k = v.known d k present in
          (
            k,
            ground (arith, fresh-lookup n),
            v.tail d k i present (open-at d (lookup i tasks) h),
            v.small d k at_k,
            ground (arith, fresh-lookup k, v.small d k),
          )
    ]

    old-behind :
        (e : Uuid) (i j : ℕ)
        → is_open e (lookup i tasks) ≡ true
        → is_at e (lookup j tasks) ≡ true
        → i < j
        → Waits e i j
    old-behind e i j h there less =
        let (p, waits_for, le, less', there') = v.behind e i j h there less in
        (
          p,
          ground (arith, fresh-lookup j, v.small e j),
          le,
          less',
          ground (arith, fresh-lookup p, v.small e p),
        )

    enqueue-behind :
        (e : Uuid) (i j : ℕ)
        → is_open e (lookup i (insert n t tasks)) ≡ true
        → is_at e (lookup j (insert n t tasks)) ≡ true
        → i < j
        → Waits e i j
    enqueue-behind e i j h there less = elim (ℕ_discrete j n) [
      | yes new ↦
          let same : d ≡ e = ground (arith, fresh-lookup j) in
          let h' : is_open d (lookup i tasks) ≡ true = ground (arith, fresh-lookup i) in
          subst (λ k. Waits e i k) (sym new) (subst (λ u. Waits u i n) same (new-behind i h'))
      | no old ↦
          let there' : is_at e (lookup j tasks) ≡ true = ground (arith, fresh-lookup j) in
          old-behind e i j (ground (arith, fresh-lookup i, v.small e j)) there' less
    ]

    pub enqueue-IsQueued : IsQueued (insert d n tails) (insert n t tasks) (n + 1)
    enqueue-IsQueued = record {
      small = λ e i there. ground (arith, fresh-lookup i, v.small e i);
      tail = λ e k i found there.
          ground (arith, fresh-lookup i, lookup-insert e d n tails, v.tail e k i, v.small e i);
      known = λ e k found.
          ground (arith, fresh-lookup k, lookup-insert e d n tails, v.known e k, v.small e k);
      idle = λ e i found. ground (arith, fresh-lookup i, lookup-insert e d n tails, v.idle e i);
      behind = λ e i j h there less. enqueue-behind e i j h there less;
      ordered = λ e i j there done less.
          ground (arith, fresh-lookup i, fresh-lookup j, v.ordered e i j, v.small e j);
    }
