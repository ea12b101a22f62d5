-- ===== src/Application/Service/Dialogs/Rating.antt =====
-- Ratings as the owner of a dialog sees them.
use bmstu_nirs.Common.{
  nat_key, Dict, List, Option, [], ap, arith, erase, if◌then◌else◌, insert, lookup, lookup-erase,
  lookup-insert, map, none, refl, some, ℕ, ◌==◌, ◌∙◌, ◌∷◌, ◌≡◌,
}
use bmstu_nirs.Dialogs.Models.{DialogTranscript, Result, StoredMessage, Uuid, err, ok}
use bmstu_nirs.Dialogs.History.{History, Dialog, owned, answer, shown, report_state}
use bmstu_nirs.Dialogs.History as History
use bmstu_nirs.Application.Service.{Service}
use bmstu_nirs.Application.Service.Dialogs.{transcript, set_feedback, clear_feedback}

-- A message with its rating replaced if it has the id.
abbrev pub with_rating : ℕ → Option ℕ → StoredMessage → StoredMessage
with_rating message_id rating m = record m {
  feedback = if m.id == message_id then rating else m.feedback;
}

abbrev pub rate_in : ℕ → Option ℕ → Result DialogTranscript → Result DialogTranscript
rate_in message_id rating (err e) = err e
rate_in message_id rating (ok t) =
    ok (record t { messages = map (with_rating message_id rating) t.messages })

-- The ratings have changed at the id.
abbrev IsRated : ℕ → Option ℕ → Dict ℕ ℕ → Dict ℕ ℕ → Type 0
IsRated message_id rating f f' =
    (m : ℕ) → lookup m f' ≡ (if m == message_id then rating else lookup m f)

module _ (message_id : ℕ) (rating : Option ℕ) (h : History) (f : Dict ℕ ℕ)
    (v : IsRated message_id rating h.feedback f) where
  abbrev rated : History
  rated = record h { feedback = f }

  shown-rated :
      (ms : List StoredMessage)
      → map (shown rated) ms ≡ map (with_rating message_id rating) (map (shown h) ms)
  unfolding shown report_state
  shown-rated [] = refl
  shown-rated (m ∷ ms) =
      let first : shown rated m ≡ with_rating message_id rating (shown h m) =
        ground (arith, v m.id) in
      ap (λ x. x ∷ map (shown rated) ms) first
      ∙ ap (◌∷◌ (with_rating message_id rating (shown h m))) (shown-rated ms)

  transcript-rated :
      (user_id dialog_id : Uuid) (x : Result Dialog)
      → owned user_id dialog_id h ≡ x
      → History.transcript user_id dialog_id rated
        ≡ rate_in message_id rating (History.transcript user_id dialog_id h)
  unfolding owned History.transcript
  transcript-rated user_id dialog_id (err e) own = ground arith
  transcript-rated user_id dialog_id (ok d) own = ground (arith, shown-rated d.messages)

module _ (user_id dialog_id : Uuid) (message_id score : ℕ) (s : Service) where
  accepted-answer :
      (set_feedback user_id dialog_id message_id score s).0 ≡ ok tt
      → answer user_id dialog_id message_id s.history ≡ none
  unfolding set_feedback History.set_feedback
  accepted-answer accepted = ground arith

  set_feedback-rated :
      answer user_id dialog_id message_id s.history ≡ none
      → (set_feedback user_id dialog_id message_id score s).1 ≡ record s {
        history = record s.history { feedback = insert message_id score s.history.feedback };
      }
  unfolding set_feedback History.set_feedback
  set_feedback-rated here = ground arith

  clear_feedback-rated :
      answer user_id dialog_id message_id s.history ≡ none
      → (clear_feedback user_id dialog_id message_id s).1
        ≡ record s { history = record s.history { feedback = erase message_id s.history.feedback } }
  unfolding clear_feedback History.clear_feedback
  clear_feedback-rated here = ground arith

-- A rating that is accepted shows in the transcript at its message and changes nothing else there,
-- for every user and dialog; when the rating is cleared, the message has none.
pub transcript-set_feedback :
    (user_id dialog_id reader_id read_id : Uuid) (message_id score : ℕ) (s : Service)
    → (set_feedback user_id dialog_id message_id score s).0 ≡ ok tt
    → let s' = (set_feedback user_id dialog_id message_id score s).1 in
      (transcript reader_id read_id s'
        ≡ rate_in message_id (some score) (transcript reader_id read_id s))
      × (transcript reader_id read_id (clear_feedback user_id dialog_id message_id s').1
          ≡ rate_in message_id none (transcript reader_id read_id s'))
unfolding transcript answer owned
transcript-set_feedback user_id dialog_id reader_id read_id message_id score s accepted =
    let here = accepted-answer user_id dialog_id message_id score s accepted in
    let h = s.history in
    let f = insert message_id score h.feedback in
    let rated_service : Service = record s { history = record h { feedback = f } } in
    rw (set_feedback-rated user_id dialog_id message_id score s here) (
      transcript-rated message_id (some score) h f
          (λ m. lookup-insert m message_id score h.feedback) reader_id read_id
          (owned reader_id read_id h) refl,
      ap (λ u. transcript reader_id read_id u)
            (clear_feedback-rated user_id dialog_id message_id score rated_service here)
          ∙ transcript-rated message_id none rated_service.history (erase message_id f)
              (λ m. lookup-erase m message_id f) reader_id read_id (owned reader_id read_id h) refl,
    )
