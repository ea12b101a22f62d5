-- ===== src/Dialogs/History.antt =====
-- `InMemoryHistoryStore` of backend/src/smeshariki_ai/dialogs/history.py. Its lock makes each
-- method one step. `now` is the clock's reading, and `title_of` is `dialog_title`.
pub mod Reports
pub mod Opening
pub mod Ownership
pub mod Append
pub mod Removal
pub mod Listing
pub mod Numbering
use mathlib.Core.List.{reverse}
use bmstu_nirs.Common.{
  nat_key, Bool, Dict, List, Option, String, [], any, contains, erase, false, find, if◌then◌else◌,
  insert, length, lookup, map, map_values, none, some, suc, true, values, zero, ℕ, ⊤, ◌&&◌, ◌++◌,
  ◌+◌, ◌==◌, ◌∷◌,
}
use bmstu_nirs.Dialogs.Models.{
  DialogError, DialogTranscript, Message, ReportReason, ReportState, Result, StoredMessage, Time,
  Uuid, dialog_not_found, err, is_assistant, is_user, message_not_found, ok, reviewed, sent,
}

pub data Status : Type 0 where
  new resolved dismissed : Status

pub record StoredReport : Type 0 where
  pub id : ℕ
  pub message_id : Option ℕ
  pub user_id : Uuid
  pub reason : ReportReason
  pub comment : Option String
  pub request_text : Option String
  pub answer_text : String
  pub created_at : Time
  pub status : Status
  pub resolved_at : Option Time
  pub seen_at : Option Time

pub record Dialog : Type 0 where
  pub owner_id : Uuid
  pub created_at : Time
  pub updated_at : Time
  pub title : Option String
  pub messages : List StoredMessage

-- `_message_ids` and `_report_ids` are the next numbers that the counters give.
pub record History : Type 0 where
  pub dialogs : Dict Uuid Dialog
  pub feedback : Dict ℕ ℕ
  pub reports : Dict ℕ StoredReport
  pub message_ids : ℕ
  pub report_ids : ℕ

-- `StoredReport.state`
abbrev pub state_of : Status → ReportState
state_of new = sent
state_of _ = reviewed

abbrev pub is_reviewed : Status → Bool
is_reviewed new = false
is_reviewed _ = true

-- `_owned`
unfoldable pub owned : Uuid → Uuid → History → Result Dialog
owned owner_id dialog_id h = elim (lookup dialog_id h.dialogs) [
  | none ↦ err (dialog_not_found dialog_id)
  | some d ↦ if d.owner_id == owner_id then ok d else err (dialog_not_found dialog_id)
]

abbrev pub is_answer : ℕ → StoredMessage → Bool
is_answer message_id m = (m.id == message_id) && is_assistant m.role

-- `_answer`: the error that it raises, if it does.
unfoldable pub answer : Uuid → Uuid → ℕ → History → Option DialogError
answer owner_id dialog_id message_id h = elim (lookup dialog_id h.dialogs) [
  | none ↦ some (message_not_found dialog_id message_id)
  | some d ↦
      if (d.owner_id == owner_id) && any (is_answer message_id) d.messages
      then none
      else some (message_not_found dialog_id message_id)
]

-- `report.message_id == message_id`
abbrev pub is_about : ℕ → StoredReport → Bool
is_about message_id r = elim (r.message_id) [ none ↦ false | some m ↦ m == message_id ]

-- `_report_state`
unfoldable pub report_state : ℕ → History → Option ReportState
report_state message_id h = elim (find (is_about message_id) (values h.reports)) [
  | none ↦ none
  | some r ↦ some (state_of r.status)
]

-- The loop of `create`: the first identifier that is not in use, among as many as the fuel.
unfoldable pub unused_id : ℕ → (ℕ → Uuid) → Dict Uuid Dialog → Option Uuid
unused_id zero draw dialogs = none
unused_id (suc fuel) draw dialogs =
    let rest = unused_id fuel (λ i. draw (i + 1)) dialogs in
    if contains (draw 0) dialogs then rest else some (draw 0)

unfoldable pub create : ℕ → (ℕ → Uuid) → Uuid → Time → History → Option Uuid × History
unfolding unused_id
create fuel draw owner_id now h = elim (unused_id fuel draw h.dialogs) [
  | none ↦ (none, h)
  | some dialog_id ↦ (
    some dialog_id,
    record h {
      dialogs =
          insert dialog_id
            (record {
              owner_id = owner_id;
              created_at = now;
              updated_at = now;
              title = none;
              messages = [];
            })
            h.dialogs;
    },
  )
]

abbrev pub message_of : StoredMessage → Message
message_of m = record { role = m.role; content = m.content }

unfoldable pub get : Uuid → Uuid → History → Result (List Message)
unfolding owned
get owner_id dialog_id h = elim (owned owner_id dialog_id h) [
  | err e ↦ err e
  | ok d ↦ ok (map message_of d.messages)
]

-- The stored messages, numbered from the counter on.
unfoldable pub store_messages : ℕ → Time → List Message → List StoredMessage
store_messages next_id now [] = []
store_messages next_id now (m ∷ ms) =
    record {
      id = next_id;
      role = m.role;
      content = m.content;
      created_at = now;
      feedback = none;
      report = none;
    }
    ∷ store_messages (next_id + 1) now ms

abbrev pub title_after : (String → String) → Option String → List Message → Option String
title_after title_of (some t) ms = some t
title_after title_of none ms = elim (find (λ m. is_user m.role) ms) [
  | none ↦ none
  | some m ↦ some (title_of m.content)
]

-- The ids of the new messages, and the history with them.
unfoldable pub append :
    (String → String) → Uuid → List Message → Time → History → Result (List ℕ) × History
unfolding store_messages
append title_of dialog_id messages now h = elim (lookup dialog_id h.dialogs) [
  | none ↦ (err (dialog_not_found dialog_id), h)
  | some d ↦
      let stored = store_messages h.message_ids now messages in
      (
        ok (map (λ m. m.id) stored),
        record h {
          dialogs =
              insert dialog_id
                (record d {
                  messages = d.messages ++ stored;
                  title = title_after title_of d.title messages;
                  updated_at = now;
                })
                h.dialogs;
          message_ids = h.message_ids + length messages;
        },
      )
]

-- The message as `transcript` shows it.
unfoldable pub shown : History → StoredMessage → StoredMessage
unfolding report_state
shown h m = record m { feedback = lookup m.id h.feedback; report = report_state m.id h }

unfoldable pub transcript : Uuid → Uuid → History → Result DialogTranscript
unfolding owned shown
transcript owner_id dialog_id h = elim (owned owner_id dialog_id h) [
  | err e ↦ err e
  | ok d ↦
      ok (record { dialog_id = dialog_id; title = d.title; messages = map (shown h) d.messages })
]

-- The loop that drops the ratings of the messages.
unfoldable pub drop_feedback : List StoredMessage → Dict ℕ ℕ → Dict ℕ ℕ
drop_feedback [] feedback = feedback
drop_feedback (m ∷ ms) feedback = drop_feedback ms (erase m.id feedback)

-- A report of one of the messages is detached.
abbrev pub detach : List StoredMessage → StoredReport → StoredReport
detach ms r = if any (λ m. is_about m.id r) ms then record r { message_id = none } else r

unfoldable pub delete : Uuid → Uuid → History → Result ⊤ × History
unfolding owned drop_feedback
delete owner_id dialog_id h = elim (owned owner_id dialog_id h) [
  | err e ↦ (err e, h)
  | ok d ↦ (
    ok tt,
    record h {
      dialogs = erase dialog_id h.dialogs;
      feedback = drop_feedback d.messages h.feedback;
      reports = map_values (λ _. detach d.messages) h.reports;
    },
  )
]

unfoldable pub set_feedback : Uuid → Uuid → ℕ → ℕ → History → Result ⊤ × History
unfolding answer
set_feedback owner_id dialog_id message_id score h = elim (answer owner_id dialog_id message_id h) [
  | some e ↦ (err e, h)
  | none ↦ (ok tt, record h { feedback = insert message_id score h.feedback })
]

unfoldable pub clear_feedback : Uuid → Uuid → ℕ → History → Result ⊤ × History
unfolding answer
clear_feedback owner_id dialog_id message_id h = elim (answer owner_id dialog_id message_id h) [
  | some e ↦ (err e, h)
  | none ↦ (ok tt, record h { feedback = erase message_id h.feedback })
]
