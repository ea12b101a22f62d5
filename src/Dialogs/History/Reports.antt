-- ===== src/Dialogs/History/Reports.antt =====
-- Reports of answers in `InMemoryHistoryStore` of backend/src/smeshariki_ai/dialogs/history.py.
pub mod Filing
pub mod Kept
pub mod Later
pub mod Seen
use mathlib.Core.List.{reverse}
use bmstu_nirs.Common.{
  nat_key, Bool, Dict, List, Option, String, [], any, false, find, if◌then◌else◌, insert, keep, leb,
  lookup, ltb, map, none, some, take, true, values, ℕ, ◌&&◌, ◌+◌, ◌==◌, ◌||◌, ◌∷◌,
}
use bmstu_nirs.Dialogs.Models.{
  ReportNews, ReportReason, Result, StoredMessage, Time, Uuid, dialog_title, err, is_user, ok,
  report_exists,
}
use bmstu_nirs.Dialogs.History.{
  Dialog, History, Status, StoredReport, answer, is_about, is_reviewed, new, report_state,
}

-- `history[:position]`, where `position` is that of the first message with the id.
unfoldable pub before : ℕ → List StoredMessage → List StoredMessage
before message_id [] = []
before message_id (m ∷ ms) = if m.id == message_id then [] else m ∷ before message_id ms

abbrev pub content_of : Option StoredMessage → Option String
content_of none = none
content_of (some m) = some m.content

-- The last message of the user before the one with the id.
unfoldable pub request_before : ℕ → List StoredMessage → Option String
unfolding before
request_before message_id ms =
    content_of (find (λ m. is_user m.role) (reverse (before message_id ms)))

abbrev pub messages_in : Uuid → History → List StoredMessage
messages_in dialog_id h = elim (lookup dialog_id h.dialogs) [ none ↦ [] | some d ↦ d.messages ]

-- `history[position].content`; `_answer` has found the message.
abbrev pub text_in : ℕ → List StoredMessage → String
text_in message_id ms = elim (find (λ m. m.id == message_id) ms) [ none ↦ "" | some m ↦ m.content ]

unfoldable pub new_report :
    Uuid → Uuid → ℕ → ReportReason → Option String → Time → History → StoredReport
unfolding request_before
new_report owner_id dialog_id message_id reason comment now h =
    let ms = messages_in dialog_id h in
    record {
      id = h.report_ids;
      message_id = some message_id;
      user_id = owner_id;
      reason = reason;
      comment = comment;
      request_text = request_before message_id ms;
      answer_text = text_in message_id ms;
      created_at = now;
      status = new;
      resolved_at = none;
      seen_at = none;
    }

unfoldable pub report :
    Uuid → Uuid → ℕ → ReportReason → Option String → Time → History → Result ℕ × History
unfolding answer report_state new_report
report owner_id dialog_id message_id reason comment now h =
    elim (answer owner_id dialog_id message_id h) [
      | some e ↦ (err e, h)
      | none ↦ elim (report_state message_id h) [
        | some st ↦ (err (report_exists dialog_id message_id), h)
        | none ↦ (
          ok h.report_ids,
          record h {
            reports =
                insert h.report_ids (new_report owner_id dialog_id message_id reason comment now h)
                  h.reports;
            report_ids = h.report_ids + 1;
          },
        )
      ]
    ]

abbrev pub is_none {ℓ} : {A : Type ℓ} → Option A → Bool
is_none none = true
is_none (some _) = false

-- A reviewed report of the user that has not been seen.
abbrev pub is_news : Uuid → StoredReport → Bool
is_news owner_id r = (r.user_id == owner_id) && is_reviewed r.status && is_none r.seen_at

abbrev pub time_or_zero : Option Time → Time
time_or_zero none = 0
time_or_zero (some t) = t

-- `(resolved_at, id)` of the second is less than that of the first, or equal. A reviewed report
-- has a time, so that none is compared.
abbrev pub not_before : StoredReport → StoredReport → Bool
not_before a b =
    let t = time_or_zero a.resolved_at in
    let u = time_or_zero b.resolved_at in ltb u t || ((u == t) && leb b.id a.id)

-- `sorted(..., reverse=True)`: equal keys keep their order.
unfoldable pub insert_latest : StoredReport → List StoredReport → List StoredReport
insert_latest r [] = r ∷ []
insert_latest r (x ∷ xs) = if not_before r x then r ∷ x ∷ xs else x ∷ insert_latest r xs

unfoldable pub latest_first : List StoredReport → List StoredReport
unfolding insert_latest
latest_first [] = []
latest_first (r ∷ rs) = insert_latest r (latest_first rs)

-- `_news`: the first dialog that has the message.
unfoldable pub news_in : StoredReport → Dict Uuid Dialog → ReportNews
news_in r [] = record { report_id = r.id; dialog_id = none; dialog_title = none }
news_in r ((dialog_id, d) ∷ ds) =
    if any (λ m. is_about m.id r) d.messages
    then record { report_id = r.id; dialog_id = some dialog_id; dialog_title = d.title }
    else news_in r ds

unfoldable pub report_news : Uuid → ℕ → History → List ReportNews
unfolding latest_first news_in
report_news owner_id limit h =
    map (λ r. news_in r h.dialogs)
      (take limit (latest_first (keep (is_news owner_id) (values h.reports))))

-- `set(report_ids)`
abbrev pub add_id : ℕ → List ℕ → List ℕ
add_id n ns = if any (λ k. k == n) ns then ns else n ∷ ns

unfoldable pub id_set : List ℕ → List ℕ
id_set [] = []
id_set (n ∷ ns) = add_id n (id_set ns)

-- The report that the loop stores at an id, if it marks one.
abbrev pub marked : Uuid → Time → Option StoredReport → Option StoredReport
marked owner_id now none = none
marked owner_id now (some r) =
    if is_news owner_id r then some (record r { seen_at = some now }) else none

abbrev pub store_marked : ℕ → Option StoredReport → Dict ℕ StoredReport → Dict ℕ StoredReport
store_marked n none reports = reports
store_marked n (some r) reports = insert n r reports

-- The loop of `mark_report_news_seen`: how many reports are marked, and the reports.
unfoldable pub mark_all : Uuid → Time → List ℕ → Dict ℕ StoredReport → ℕ × Dict ℕ StoredReport
mark_all owner_id now [] reports = (0, reports)
mark_all owner_id now (n ∷ ns) reports =
    let m = marked owner_id now (lookup n reports) in
    let (count, rest) = mark_all owner_id now ns (store_marked n m reports) in
    (if is_none m then count else count + 1, rest)

unfoldable pub mark_report_news_seen : Uuid → List ℕ → Time → History → ℕ × History
unfolding mark_all id_set
mark_report_news_seen owner_id report_ids now h =
    let (count, reports) = mark_all owner_id now (id_set report_ids) h.reports in
    (count, record h { reports = reports })

abbrev pub with_status : Status → Time → StoredReport → StoredReport
with_status new now r = record r { status = new; resolved_at = none; seen_at = none }
with_status st now r = record r { status = st; resolved_at = some now }

-- `none` is the `KeyError` of an unknown report.
unfoldable pub set_report_status : ℕ → Status → Time → History → Option History
set_report_status report_id st now h = elim (lookup report_id h.reports) [
  | none ↦ none
  | some r ↦ some (record h { reports = insert report_id (with_status st now r) h.reports })
]
