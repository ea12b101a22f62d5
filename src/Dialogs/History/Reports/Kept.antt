-- ===== src/Dialogs/History/Reports/Kept.antt =====
-- What each operation of the store leaves of a dialog's answer and of a report.
use mathlib.Core.Option.{some-injective}
use bmstu_nirs.Common.{
  nat_key, ℕ_discrete, ==_refl, Bool-cases, Dict, List, Option, Option-cases, String, [], any, ap,
  arith, contains, false, inl, inr, insert, lookup, lookup-insert, lookup-map_values, map_values,
  none, refl, some, suc, sym, true, zero, ℕ, ◌++◌, ◌+◌, ◌∙◌, ◌∷◌, ◌≡◌,
}
use bmstu_nirs.Dialogs.Models.{Message, StoredMessage, Time, Uuid, ok}
use bmstu_nirs.Dialogs.History.{
  Dialog, History, StoredReport, answer, append, clear_feedback, create, detach, is_answer, owned,
  set_feedback, store_messages, unused_id,
}
use bmstu_nirs.Dialogs.History.Reports.{is_news, mark_all, marked, store_marked}
use bmstu_nirs.Dialogs.History.Removal.{has_id, is_about-has_id}

module _ (m n : ℕ) where
  abbrev pub Files : Dict ℕ StoredReport → Type 0
  Files reports = (r : StoredReport) × (lookup n reports ≡ some r) × (r.message_id ≡ some m)

  pub insert-Files :
      (k : ℕ) (r : StoredReport) (reports : Dict ℕ StoredReport)
      → (k ≡ n → r.message_id ≡ some m)
      → Files reports
      → Files (insert k r reports)
  insert-Files k r reports about (q, stored, same) = elim (ℕ_discrete k n) [
    | yes e ↦ (r, ground (arith, lookup-insert n k r reports), about e)
    | no e ↦ (q, ground (arith, lookup-insert n k r reports), same)
  ]

  pub mark_all-Files :
      (owner_id : Uuid) (t : Time) (ns : List ℕ) (reports : Dict ℕ StoredReport)
      → Files reports
      → Files (mark_all owner_id t ns reports).1
  unfolding mark_all
  mark_all-Files owner_id t [] reports h = h
  mark_all-Files owner_id t (k ∷ ns) reports h =
      mark_all-Files owner_id t ns (store_marked k (marked owner_id t (lookup k reports)) reports)
        (go (lookup k reports) refl)
    where
      go :
          (o : Option StoredReport)
          → lookup k reports ≡ o
          → Files (store_marked k (marked owner_id t o) reports)
      go none e = h
      go (some r) e = elim (Bool-cases (is_news owner_id r)) [
        | inl b ↦
            rw b (insert-Files k (record r { seen_at = some t }) reports (λ same. ground arith) h)
        | inr b ↦ rw b h
      ]

  pub detach-Files :
      (ms : List StoredMessage) (reports : Dict ℕ StoredReport)
      → has_id m ms ≡ false
      → Files reports
      → Files (map_values (λ _. detach ms) reports)
  detach-Files ms reports absent (r, stored, same) = (
    r,
    ground (arith, lookup-map_values (λ _. detach ms) n reports, is_about-has_id m ms r same),
    same,
  )

unused_id-free :
    (fuel : ℕ) (draw : ℕ → Uuid) (ds : Dict Uuid Dialog) {id : Uuid}
    → unused_id fuel draw ds ≡ some id
    → contains id ds ≡ false
unfolding unused_id
unused_id-free zero draw ds e = cc
unused_id-free (suc fuel) draw ds e = elim (Bool-cases (contains (draw 0) ds)) [
  | inl used ↦ unused_id-free fuel (λ i. draw (i + 1)) ds (ground arith)
  | inr free ↦ ground arith
]

pub owned-lookup :
    (owner id : Uuid) (h : History) {d : Dialog}
    → owned owner id h ≡ ok d
    → lookup id h.dialogs ≡ some d
unfolding owned
owned-lookup owner id h e = ground arith

pub create-reports :
    (fuel : ℕ) (draw : ℕ → Uuid) (owner : Uuid) (t : Time) (h : History)
    → let k = (create fuel draw owner t h).1 in
      (k.reports ≡ h.reports) × (k.report_ids ≡ h.report_ids)
unfolding create
create-reports fuel draw owner t h = ground arith

pub append-reports :
    (title_of : String → String) (id : Uuid) (ms : List Message) (t : Time) (h : History)
    → let k = (append title_of id ms t h).1 in
      (k.reports ≡ h.reports) × (k.report_ids ≡ h.report_ids)
unfolding append
append-reports title_of id ms t h = ground arith

pub set_feedback-kept :
    (owner id : Uuid) (k score : ℕ) (h : History)
    → let g = (set_feedback owner id k score h).1 in
      (g.dialogs ≡ h.dialogs) × (g.reports ≡ h.reports) × (g.report_ids ≡ h.report_ids)
unfolding set_feedback
set_feedback-kept owner id k score h = ground arith

pub clear_feedback-kept :
    (owner id : Uuid) (k : ℕ) (h : History)
    → let g = (clear_feedback owner id k h).1 in
      (g.dialogs ≡ h.dialogs) × (g.reports ≡ h.reports) × (g.report_ids ≡ h.report_ids)
unfolding clear_feedback
clear_feedback-kept owner id k h = ground arith

pub has_id-answer :
    (m : ℕ) (ms : List StoredMessage) → any (is_answer m) ms ≡ true → has_id m ms ≡ true
has_id-answer m [] h = cc
has_id-answer m (x ∷ ms) h = ground (arith, has_id-answer m ms)

any-append_left :
    (m : ℕ) (xs ys : List StoredMessage)
    → any (is_answer m) xs ≡ true
    → any (is_answer m) (xs ++ ys) ≡ true
any-append_left m [] ys h = cc
any-append_left m (x ∷ xs) ys h = ground (arith, any-append_left m xs ys)

module _ (owner_id dialog_id : Uuid) (m : ℕ) where
  -- What it is to have the answer.
  abbrev pub Has : Dict Uuid Dialog → Type 0
  Has ds =
      (d : Dialog) × (lookup dialog_id ds ≡ some d)
      × (d.owner_id ≡ owner_id)
      × (any (is_answer m) d.messages ≡ true)

  pub answer-Has : (h : History) → answer owner_id dialog_id m h ≡ none → Has h.dialogs
  unfolding answer
  answer-Has h e = elim (Option-cases (lookup dialog_id h.dialogs)) [
    | inl missing ↦ ground arith
    | inr (d, found) ↦ (d, found, ground arith, ground arith)
  ]

  pub Has-answer : (h : History) → Has h.dialogs → answer owner_id dialog_id m h ≡ none
  unfolding answer
  Has-answer h (d, found, mine, there) = ground (arith, ==_refl owner_id)

  insert-Has :
      (id : Uuid) (d' : Dialog) (ds : Dict Uuid Dialog)
      → (id ≡ dialog_id → (d'.owner_id ≡ owner_id) × (any (is_answer m) d'.messages ≡ true))
      → Has ds
      → Has (insert id d' ds)
  insert-Has id d' ds kept (d, found, mine, there) = elim (ℕ_discrete id dialog_id) [
    | yes e ↦ (d', ground (arith, lookup-insert dialog_id id d' ds), (kept e).0, (kept e).1)
    | no e ↦ (d, ground (arith, lookup-insert dialog_id id d' ds), mine, there)
  ]

  pub create-Has :
      (fuel : ℕ) (draw : ℕ → Uuid) (owner : Uuid) (t : Time) (h : History)
      → Has h.dialogs
      → Has (create fuel draw owner t h).1.dialogs
  unfolding create
  create-Has fuel draw owner t h has = go (unused_id fuel draw h.dialogs) refl
    where
      go :
          (o : Option Uuid)
          → unused_id fuel draw h.dialogs ≡ o
          → Has (create fuel draw owner t h).1.dialogs
      go none e = rw (e, create) has
      go (some id) e =
          rw (e, create)
            (insert-Has id _ h.dialogs
              (λ same.
                let free = unused_id-free fuel draw h.dialogs e in
                ground (arith, free, has.1, ap (λ i. lookup i h.dialogs) same))
              has)

  pub append-Has :
      (title_of : String → String) (id : Uuid) (ms : List Message) (t : Time) (h : History)
      → Has h.dialogs
      → Has (append title_of id ms t h).1.dialogs
  unfolding append
  append-Has title_of id ms t h has = go (lookup id h.dialogs) refl
    where
      go : (o : Option Dialog) → lookup id h.dialogs ≡ o → Has (append title_of id ms t h).1.dialogs
      go none e = rw (e, append) has
      go (some d) e =
          let stored = store_messages h.message_ids t ms in
          rw (e, append)
            (insert-Has id _ h.dialogs
              (λ same.
                let one : d ≡ has.0 =
                  some-injective d has.0 (sym e ∙ (ap (λ i. lookup i h.dialogs) same ∙ has.1)) in
                (
                  ap (λ c. c.owner_id) one ∙ has.2,
                  any-append_left m d.messages stored
                      (ap (λ c. any (is_answer m) c.messages) one ∙ has.3),
                ))
              has)
