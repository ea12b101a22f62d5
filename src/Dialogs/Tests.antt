-- ===== src/Dialogs/Tests.antt =====
-- The theorems about dialogs at concrete inputs, and runs of the store.
use bmstu_nirs.Common.{
  nat_key, ℕ_discrete, List, String, [], arith, false, length, lookup, none, refl, some, true, ℕ,
  ◌++◌, ◌+◌, ◌∷◌, ◌≡◌, ◌≢◌,
}
use bmstu_nirs.Dialogs.Models.{
  DialogSummary, Message, ReportState, Uuid, assistant, dialog_not_found, dialog_title, err,
  message_not_found, ok, report_exists, rude, scary, sent, take_chars, user,
}
use bmstu_nirs.Dialogs.History.{
  History, answer, append, clear_feedback, create, delete, get, report_state, resolved,
  set_feedback, store_messages, transcript,
}
use bmstu_nirs.Dialogs.History.Reports.{
  before, mark_report_news_seen, new_report, report, report_news, set_report_status,
}
use bmstu_nirs.Dialogs.History.Opening.{create_lem}
use bmstu_nirs.Dialogs.History.Ownership.{not_owner}
use bmstu_nirs.Dialogs.History.Append.{get-append}
use bmstu_nirs.Dialogs.History.Removal.{delete_lem}
use bmstu_nirs.Dialogs.History.Listing.{IsListing, count_dialogs, list_dialogs, list_dialogs_lem}
use bmstu_nirs.Dialogs.History.Numbering.{
  IsNumbered, Reach-IsNumbered, appended, created, here, next, no_history, rated,
}
use bmstu_nirs.Dialogs.History.Reports.Filing.{report_twice}
use bmstu_nirs.Dialogs.History.Reports.Later.{Later, at_once, followed}

-- A declaration that unfolds this one runs the store.
program : Unit {0}
unfolding ℕ_discrete create get append transcript delete set_feedback clear_feedback report
    report_news mark_report_news_seen list_dialogs count_dialogs set_report_status dialog_title
    take_chars before
program = tt

abbrev title_of : String → String
title_of s = s

abbrev request : Message
request = record { role = user; content = "tale" }

abbrev reply : Message
reply = record { role = assistant; content = "once" }

-- Dialog 7 of user 1 with a request and its answer, rated and reported.
abbrev opened : History
opened = (create 1 (λ _. 7) 1 10 no_history).1

abbrev answered : History
answered = (append title_of 7 (request ∷ reply ∷ []) 11 opened).1

abbrev rated_answer : History
rated_answer = (set_feedback 1 7 2 5 answered).1

abbrev reported_answer : History
reported_answer = (report 1 7 2 scary none 12 rated_answer).1

transcript_run :
    transcript 1 7 reported_answer
    ≡ ok (record {
      dialog_id = 7;
      title = some "tale";
      messages =
          record {
            id = 1;
            role = user;
            content = "tale";
            created_at = 11;
            feedback = none;
            report = none;
          }
          ∷ record {
            id = 2;
            role = assistant;
            content = "once";
            created_at = 11;
            feedback = some 5;
            report = some sent;
          }
          ∷ [];
    })
unfolding program
transcript_run = refl

long_title_run : take_chars 3 "abcdef" ≡ "abc"
unfolding program
long_title_run = refl

not_owner_example :
    (get 2 7 answered ≡ err (dialog_not_found 7))
    × (transcript 2 7 answered ≡ err (dialog_not_found 7))
    × (delete 2 7 answered ≡ (err (dialog_not_found 7), answered))
    × (set_feedback 2 7 2 5 answered ≡ (err (message_not_found 7 2), answered))
    × (clear_feedback 2 7 2 answered ≡ (err (message_not_found 7 2), answered))
    × (report 2 7 2 rude none 12 answered ≡ (err (message_not_found 7 2), answered))
unfolding program
not_owner_example = not_owner 2 7 2 5 rude none 12 answered refl

get-append_example :
    let (answer, h') = append title_of 7 (request ∷ []) 12 answered in
    (answer ≡ ok (3 ∷ []))
    × (get 1 7 h' ≡ ok (request ∷ reply ∷ request ∷ []))
    × (h'.message_ids ≡ 4)
    × (◌≢◌ {A = ℕ} 8 7 → lookup 8 h'.dialogs ≡ lookup 8 answered.dialogs)
unfolding program
get-append_example =
    get-append title_of 7 8 (request ∷ []) 12 answered
      {d = record {
        owner_id = 1;
        created_at = 10;
        updated_at = 11;
        title = some "tale";
        messages = store_messages 1 11 (request ∷ reply ∷ []);
      }}
      refl

delete_example :
    let (answer, h') = delete 1 7 reported_answer in
    (answer ≡ ok tt)
    × (get 1 7 h' ≡ err (dialog_not_found 7))
    × (true ≡ true → (lookup 2 h'.feedback ≡ none) × (report_state 2 h' ≡ none))
    × (true ≡ false → lookup 2 h'.feedback ≡ lookup 2 reported_answer.feedback)
    × (lookup 1 h'.reports
        ≡ some (record (new_report 1 7 2 scary none 12 rated_answer) { message_id = none }))
unfolding program
delete_example =
    delete_lem 1 7 2 1 reported_answer
      {d = record {
        owner_id = 1;
        created_at = 10;
        updated_at = 11;
        title = some "tale";
        messages = store_messages 1 11 (request ∷ reply ∷ []);
      }}
      refl

list_dialogs_example :
    let ss = list_dialogs 1 5 answered in
    ((rest : List DialogSummary) × IsListing 1 answered.dialogs (ss ++ rest)) × (length ss ≡ 1)
unfolding program
list_dialogs_example = list_dialogs_lem 1 5 answered (refl, tt)

-- The same with a new rating.
abbrev rated_again : History
rated_again = (set_feedback 1 7 2 3 reported_answer).1

rated_again-Later : Later 2 reported_answer rated_again
unfolding program
rated_again-Later = followed at_once (rated 1 7 2 3 reported_answer) (λ i d e there. ground arith)

report_twice_example :
    (lookup 1 reported_answer.reports ≡ some (new_report 1 7 2 scary none 12 rated_answer))
    × (report_state 2 reported_answer ≡ some sent)
    × ((st : ReportState) × (report_state 2 rated_again ≡ some st))
    × (report 1 7 2 rude (some "again") 13 rated_again ≡ (err (report_exists 7 2), rated_again))
unfolding program
report_twice_example =
    report_twice 1 7 2 1 scary rude none (some "again") 12 13 rated_answer rated_again refl
      rated_again-Later

-- The report has been reviewed.
abbrev reviewed_answer : History
reviewed_answer = elim (set_report_status 1 resolved 13 reported_answer) [
  | none ↦ no_history
  | some h ↦ h
]

mark_run : (mark_report_news_seen 1 (1 ∷ []) 14 reviewed_answer).0 ≡ 1
unfolding program
mark_run = refl

Reach-IsNumbered_example : IsNumbered answered.message_ids answered.dialogs
Reach-IsNumbered_example = Reach-IsNumbered (
    next (next here (created 1 (λ _. 7) 1 10 no_history))
      (appended title_of 7 (request ∷ reply ∷ []) 11 opened))

-- The first identifier drawn is in use.
create_lem_example :
    let (new_id, h') = create 2 (λ i. 7 + i) 2 12 answered in
    (id : Uuid) × (new_id ≡ some id)
    × (lookup id answered.dialogs ≡ none)
    × (get 2 id h' ≡ ok [])
    × ((j : Uuid) → j ≢ id → lookup j h'.dialogs ≡ lookup j answered.dialogs)
unfolding program
create_lem_example = create_lem 2 (λ i. 7 + i) 2 12 answered 1 (omega arith) refl
