-- ===== src/Dialogs/History/Removal.antt =====
-- `delete` and the ratings: what is gone and what stays.
use bmstu_nirs.Common.{
  nat_key, Bool, Dict, List, Option, Option-cases, [], any, arith, erase, false, find,
  if◌then◌else◌, inl, inr, lookup, lookup-erase, lookup-map_values, map_values, none, refl, some,
  true, values, ℕ, ◌==◌, ◌∷◌, ◌≡◌,
}
use bmstu_nirs.Dialogs.Models.{StoredMessage, Uuid, dialog_not_found, err, ok}
use bmstu_nirs.Dialogs.History.{
  Dialog, History, StoredReport, answer, delete, detach, drop_feedback, get, is_about, owned,
  report_state,
}

abbrev pub has_id : ℕ → List StoredMessage → Bool
has_id m = any (λ x. x.id == m)

lookup-drop_feedback :
    (m : ℕ) (ms : List StoredMessage) (f : Dict ℕ ℕ)
    → lookup m (drop_feedback ms f) ≡ (if has_id m ms then none else lookup m f)
unfolding drop_feedback
lookup-drop_feedback m [] f = refl
lookup-drop_feedback m (x ∷ ms) f =
    ground (arith, lookup-drop_feedback m ms (erase x.id f), lookup-erase m x.id f)

about_any :
    (m : ℕ) (ms : List StoredMessage) (r : StoredReport)
    → has_id m ms ≡ true
    → is_about m r ≡ true
    → any (λ x. is_about x.id r) ms ≡ true
about_any m [] r h e = cc
about_any m (x ∷ ms) r h e = ground (arith, about_any m ms r)

detached :
    (m : ℕ) (ms : List StoredMessage) (r : StoredReport)
    → has_id m ms ≡ true
    → is_about m (detach ms r) ≡ false
detached m ms r h = ground (arith, about_any m ms r h)

find-detached :
    (m : ℕ) (ms : List StoredMessage) (reports : Dict ℕ StoredReport)
    → has_id m ms ≡ true
    → find (is_about m) (values (map_values (λ _. detach ms) reports)) ≡ none
find-detached m ms [] h = refl
find-detached m ms (e ∷ reports) h =
    ground (arith, detached m ms e.1 h, find-detached m ms reports h)

-- The specification of a report after the deletion of messages: `about` is the id of its message.
abbrev pub without_messages : List StoredMessage → Option ℕ → StoredReport → StoredReport
without_messages ms none r = r
without_messages ms (some k) r = if has_id k ms then record r { message_id = none } else r

pub is_about-has_id :
    (k : ℕ) (ms : List StoredMessage) (r : StoredReport)
    → r.message_id ≡ some k
    → any (λ x. is_about x.id r) ms ≡ has_id k ms
is_about-has_id k [] r e = refl
is_about-has_id k (x ∷ ms) r e = ground (arith, is_about-has_id k ms r e)

is_about-none :
    (ms : List StoredMessage) (r : StoredReport)
    → r.message_id ≡ none
    → any (λ x. is_about x.id r) ms ≡ false
is_about-none [] r e = refl
is_about-none (x ∷ ms) r e = ground (arith, is_about-none ms r e)

detach-without :
    (ms : List StoredMessage) (r : StoredReport) → detach ms r ≡ without_messages ms r.message_id r
detach-without ms r = elim (Option-cases r.message_id) [
  | inl e ↦ ground (arith, is_about-none ms r e)
  | inr (k, e) ↦ ground (arith, is_about-has_id k ms r e)
]

-- The owner deletes a dialog: it is gone, and its messages have no ratings and no reports; ratings of
-- other messages stay, and each report stays: it loses the id of its message if that is one of the
-- messages of the dialog, and is unchanged otherwise.
pub delete_lem :
    (owner_id dialog_id : Uuid) (m n : ℕ) (h : History) {d : Dialog}
    → owned owner_id dialog_id h ≡ ok d
    → let (answer, h') = delete owner_id dialog_id h in
      (answer ≡ ok tt)
      × (get owner_id dialog_id h' ≡ err (dialog_not_found dialog_id))
      × (has_id m d.messages ≡ true → (lookup m h'.feedback ≡ none) × (report_state m h' ≡ none))
      × (has_id m d.messages ≡ false → lookup m h'.feedback ≡ lookup m h.feedback)
      × (lookup n h'.reports ≡ elim (lookup n h.reports) [
        | none ↦ none
        | some r ↦ some (without_messages d.messages r.message_id r)
      ])
unfolding delete get report_state
delete_lem owner_id dialog_id m n h {d} mine = (
  ground arith,
  ground (arith, lookup-erase dialog_id dialog_id h.dialogs),
  λ there. (
    ground (arith, lookup-drop_feedback m d.messages h.feedback),
    ground (arith, find-detached m d.messages h.reports there),
  ),
  λ absent. ground (arith, lookup-drop_feedback m d.messages h.feedback),
  elim (Option-cases (lookup n h.reports)) [
    | inl e ↦ ground (arith, lookup-map_values (λ _. detach d.messages) n h.reports)
    | inr (r, e) ↦
        ground (
          arith,
          lookup-map_values (λ _. detach d.messages) n h.reports,
          detach-without d.messages r,
        )
  ],
)
