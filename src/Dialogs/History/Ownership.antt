-- ===== src/Dialogs/History/Ownership.antt =====
-- A dialog of another user looks like one that does not exist.
use bmstu_nirs.Common.{
  nat_key, Bool, Option, String, arith, false, lookup, none, some, ℕ, ◌==◌, ◌≡◌,
}
use bmstu_nirs.Dialogs.Models.{ReportReason, Time, Uuid, dialog_not_found, err, message_not_found}
use bmstu_nirs.Dialogs.History.{
  Dialog, History, clear_feedback, delete, get, set_feedback, transcript,
}
use bmstu_nirs.Dialogs.History.Reports.{report}

abbrev pub is_owner : Uuid → Option Dialog → Bool
is_owner owner_id none = false
is_owner owner_id (some d) = d.owner_id == owner_id

-- To a user who does not own the dialog every method answers as if there were none, with an error
-- that tells only what the call said, and changes nothing.
pub not_owner :
    (owner_id dialog_id : Uuid) (message_id score : ℕ) (reason : ReportReason)
    (comment : Option String) (now : Time) (h : History)
    → is_owner owner_id (lookup dialog_id h.dialogs) ≡ false
    → (get owner_id dialog_id h ≡ err (dialog_not_found dialog_id))
      × (transcript owner_id dialog_id h ≡ err (dialog_not_found dialog_id))
      × (delete owner_id dialog_id h ≡ (err (dialog_not_found dialog_id), h))
      × (set_feedback owner_id dialog_id message_id score h
          ≡ (err (message_not_found dialog_id message_id), h))
      × (clear_feedback owner_id dialog_id message_id h
          ≡ (err (message_not_found dialog_id message_id), h))
      × (report owner_id dialog_id message_id reason comment now h
          ≡ (err (message_not_found dialog_id message_id), h))
unfolding get transcript delete set_feedback clear_feedback report
not_owner owner_id dialog_id message_id score reason comment now h foreign = ground arith
