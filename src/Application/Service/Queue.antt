-- ===== src/Application/Service/Queue.antt =====
-- The queue of the tasks of a dialog: each waits for the one before it, by `dialog_tails`.
pub mod Submission
use bmstu_nirs.Common.{
  nat_key, Bool, Bool-cases, Dict, Option, arith, false, inl, inr, lookup, none, not, some, true, ℕ,
  ℕ_discrete, ◌&&◌, ◌<◌, ◌==◌, ◌≡◌, ◌≤◌,
}
use bmstu_nirs.Dialogs.Models.{Uuid}
use bmstu_nirs.Application.Service.{Task}

-- The task is one of the dialog; it is one that is not done; or one that is.
abbrev pub is_at : Uuid → Option Task → Bool
is_at d none = false
is_at d (some t) = t.dialog_id == d

abbrev pub is_open : Uuid → Option Task → Bool
is_open d none = false
is_open d (some t) = (t.dialog_id == d) && not t.done

abbrev pub is_done : Option Task → Bool
is_done none = false
is_done (some t) = t.done

abbrev pub previous_of : Option Task → Option ℕ
previous_of none = none
previous_of (some t) = t.previous_task

-- The task that it waits for is done, if there is one.
abbrev pub is_ready : Option Task → Dict ℕ Task → Bool
is_ready o tasks = elim (previous_of o) [ none ↦ true | some p ↦ is_done (lookup p tasks) ]

pub record IsQueued (tails : Dict Uuid ℕ) (tasks : Dict ℕ Task) (n : ℕ) : Type 0 where
  pub small : (d : Uuid) (i : ℕ) → is_at d (lookup i tasks) ≡ true → i < n
  pub tail :
      (d : Uuid) (k i : ℕ) → lookup d tails ≡ some k → is_at d (lookup i tasks) ≡ true → i ≤ k
  pub known : (d : Uuid) (k : ℕ) → lookup d tails ≡ some k → is_at d (lookup k tasks) ≡ true
  pub idle : (d : Uuid) (i : ℕ) → lookup d tails ≡ none → is_open d (lookup i tasks) ≡ false
  -- a task behind one that is not done waits for one that is not before that;
  pub behind :
      (d : Uuid) (i j : ℕ)
      → is_open d (lookup i tasks) ≡ true
      → is_at d (lookup j tasks) ≡ true
      → i < j
      → (p : ℕ) × (previous_of (lookup j tasks) ≡ some p)
        × (i ≤ p)
        × (p < j)
        × (is_at d (lookup p tasks) ≡ true)
  -- nothing is done before an earlier task of its dialog.
  pub ordered :
      (d : Uuid) (i j : ℕ)
      → is_at d (lookup j tasks) ≡ true
      → is_done (lookup j tasks) ≡ true
      → i < j
      → is_open d (lookup i tasks) ≡ false

pub open-at : (d : Uuid) (o : Option Task) → is_open d o ≡ true → is_at d o ≡ true
open-at d none h = cc
open-at d (some t) h = ground arith

module _ (tails : Dict Uuid ℕ) (tasks : Dict ℕ Task) (n : ℕ) (v : IsQueued tails tasks n) where
  -- A task that could start is behind tasks that are done.
  pub ready-ordered :
      (d : Uuid) (i j : ℕ)
      → is_at d (lookup j tasks) ≡ true
      → is_ready (lookup j tasks) tasks ≡ true
      → i < j
      → is_open d (lookup i tasks) ≡ false
  ready-ordered d i j there ready less = elim (Bool-cases (is_open d (lookup i tasks))) [
    | inr h ↦ h
    | inl h ↦
        let (p, waits_for, le, less', there') = v.behind d i j h there less in
        elim (ℕ_discrete i p) [
          | yes same ↦ ground arith
          | no differs ↦ ground (arith, v.ordered d i p)
        ]
  ]
