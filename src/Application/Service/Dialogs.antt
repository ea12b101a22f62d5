-- ===== src/Application/Service/Dialogs.antt =====
-- The methods of `AgentService` of backend/src/smeshariki_ai/application/agent_service.py that pass
-- a call of a user on to the history store or to the broker.
pub mod Rating
use bmstu_nirs.Common.{List, Option, String, ℕ, ⊤}
use bmstu_nirs.Dialogs.Models.{
  DialogSummary, DialogTranscript, ReportNews, ReportReason, Result, Time, Uuid,
}
use bmstu_nirs.Dialogs.History.{History}
use bmstu_nirs.Dialogs.History as History
use bmstu_nirs.Dialogs.History.Reports as Reports
use bmstu_nirs.Dialogs.History.Listing as Listing
use bmstu_nirs.Application.Broker as Broker
use bmstu_nirs.Application.Service.{Service}

abbrev pub dialog_list_limit : ℕ
dialog_list_limit = 50

abbrev pub report_news_limit : ℕ
report_news_limit = 20

-- A call of the history store.
abbrev pub with_history : {A : Type 0} → (History → A × History) → Service → A × Service
with_history call s = let (answer, h) = call s.history in (answer, record s { history = h })

unfoldable pub list_dialogs : Uuid → Service → List DialogSummary
list_dialogs user_id s = Listing.list_dialogs user_id dialog_list_limit s.history

unfoldable pub transcript : Uuid → Uuid → Service → Result DialogTranscript
transcript user_id dialog_id s = History.transcript user_id dialog_id s.history

unfoldable pub delete_dialog : Uuid → Uuid → Service → Result ⊤ × Service
delete_dialog user_id dialog_id = with_history (History.delete user_id dialog_id)

unfoldable pub set_feedback : Uuid → Uuid → ℕ → ℕ → Service → Result ⊤ × Service
set_feedback user_id dialog_id message_id score =
    with_history (History.set_feedback user_id dialog_id message_id score)

unfoldable pub clear_feedback : Uuid → Uuid → ℕ → Service → Result ⊤ × Service
clear_feedback user_id dialog_id message_id =
    with_history (History.clear_feedback user_id dialog_id message_id)

unfoldable pub report :
    Uuid → Uuid → ℕ → ReportReason → Option String → Time → Service → Result ℕ × Service
report user_id dialog_id message_id reason comment now =
    with_history (Reports.report user_id dialog_id message_id reason comment now)

unfoldable pub report_news : Uuid → Service → List ReportNews
report_news user_id s = Reports.report_news user_id report_news_limit s.history

unfoldable pub mark_report_news_seen : Uuid → List ℕ → Time → Service → ⊤ × Service
mark_report_news_seen user_id report_ids now s =
    (tt, record s { history = (Reports.mark_report_news_seen user_id report_ids now s.history).1 })

-- Subscriptions are named by their identity in the broker.
unfoldable pub unsubscribe : ℕ → Service → Service
unsubscribe i s = record s { broker = Broker.unsubscribe i s.broker }
