-- ===== src/Application/Service.antt =====
-- `AgentService` of backend/src/smeshariki_ai/application/agent_service.py, over the in-process
-- history store and broker. A task of the event loop is an entry of `tasks`; its body is
-- `run_after`. Cancellation, and with it the wait of `shutdown`, is not part of the model.
pub mod Dialogs
pub mod Answering
pub mod Runner
pub mod Queue
pub mod Order
use bmstu_nirs.Common.{
  nat_key, Bool, Dict, List, Option, String, [], erase, false, if◌then◌else◌, insert, lookup,
  map_values, none, some, true, ℕ, ◌++◌, ◌+◌, ◌==◌, ◌∷◌,
}
use bmstu_nirs.Agent.Models.{UserRequest, AgentStreamEvent, text_delta, response, user, assistant}
use bmstu_nirs.Dialogs.Models.{Uuid, Time, Message, DialogError, Result, ok, err}
use bmstu_nirs.Dialogs.History.{History}
use bmstu_nirs.Dialogs.History as History
use bmstu_nirs.Application.Events.{
  DialogEvent, DialogEventType, message_delta, message_end, message_error, message_start,
}
use bmstu_nirs.Application.Broker.{Broker}
use bmstu_nirs.Application.Broker as Broker

-- What the agent yields to a history and a request, and whether it ends in an exception.
pub record AgentStream : Type 0 where
  pub yields : List AgentStreamEvent
  pub failed : Bool

abbrev pub AgentRunner : Type 0
AgentRunner = List Message → UserRequest → AgentStream

pub record Task : Type 0 where
  pub dialog_id : Uuid
  pub previous_task : Option ℕ
  pub user_id : Uuid
  pub request : UserRequest
  pub done : Bool

pub record Service : Type 0 where
  pub history : History
  pub broker : Broker
  pub accepting : Bool
  pub dialog_tails : Dict Uuid ℕ
  pub tasks : Dict ℕ Task
  pub next_task : ℕ

pub data ServiceError : Type 0 where
  agent_service_unavailable : ServiceError
  dialog_error : DialogError → ServiceError

unfoldable pub start_dialog : ℕ → (ℕ → Uuid) → Uuid → Time → Service → Option ServiceError × Service
start_dialog fuel draw user_id now s =
    if s.accepting
    then (none, record s { history = (History.create fuel draw user_id now s.history).1 })
    else (some agent_service_unavailable, s)

-- A task is created behind the last one of its dialog that is not done.
abbrev pub enqueue : Uuid → Uuid → UserRequest → Service → Service
enqueue user_id dialog_id request s = record s {
  dialog_tails = insert dialog_id s.next_task s.dialog_tails;
  tasks =
      insert s.next_task
        (record {
          dialog_id = dialog_id;
          previous_task = lookup dialog_id s.dialog_tails;
          user_id = user_id;
          request = request;
          done = false;
        })
        s.tasks;
  next_task = s.next_task + 1;
}

unfoldable pub submit : Uuid → Uuid → UserRequest → Service → Option ServiceError × Service
submit user_id dialog_id request s = elim (History.get user_id dialog_id s.history) [
  | err e ↦ (some (dialog_error e), s)
  | ok _ ↦
      if s.accepting
      then (none, enqueue user_id dialog_id request s)
      else (some agent_service_unavailable, s)
]

unfoldable pub subscribe : Uuid → Uuid → Service → Option ServiceError × Service
subscribe user_id dialog_id s = elim (History.get user_id dialog_id s.history) [
  | err e ↦ (some (dialog_error e), s)
  | ok _ ↦
      if s.accepting
      then (none, record s { broker = (Broker.subscribe dialog_id s.broker).1 })
      else (some agent_service_unavailable, s)
]

-- `self._dialog_tails.get(dialog_id) is task`
abbrev pub is_tail : ℕ → Uuid → Dict Uuid ℕ → Bool
is_tail i dialog_id tails = elim (lookup dialog_id tails) [ none ↦ false | some k ↦ k == i ]

abbrev pub mark_done : ℕ → ℕ → Task → Task
mark_done i k t = if k == i then record t { done = true } else t

-- `_task_done`: the task leaves `_tasks`, here by its mark, and the tails if it is one.
unfoldable pub task_done : ℕ → Uuid → Service → Service
task_done i dialog_id s = record s {
  tasks = map_values (mark_done i) s.tasks;
  dialog_tails =
      if is_tail i dialog_id s.dialog_tails then erase dialog_id s.dialog_tails else s.dialog_tails;
}

abbrev pub plain_event : DialogEventType → DialogEvent
plain_event type = record {
  type = type;
  delta = none;
  code = none;
  message = none;
  message_id = none;
}

abbrev pub delta_event : String → DialogEvent
delta_event s = record (plain_event message_delta) { delta = some s }

abbrev pub end_event : Option ℕ → DialogEvent
end_event message_id = record (plain_event message_end) { message_id = message_id }

abbrev pub error_event : DialogEvent
error_event = record (plain_event message_error) {
  code = some "agent_error";
  message = some "Agent request failed.";
}

-- The calls that a task makes of the broker and of the store, and the answers of `append`.
pub data Call : Type 0 where
  publishes : DialogEvent → Call
  appends : List Message → Result (List ℕ) → Call

-- A task that runs: `waits` counts the awaits so far, at each of which other tasks may run.
pub record Running : Type 0 where
  pub service : Service
  pub calls : List Call
  pub waits : ℕ

-- `message_ids[-1]`
abbrev pub last : List ℕ → Option ℕ
last [] = none
last (n ∷ []) = some n
last (m ∷ n ∷ ns) = last (n ∷ ns)

-- A task of the user for the dialog. `others` is what the other tasks do to the service at the
-- n-th await.
module _ (title_of : String → String) (runner : AgentRunner) (others : ℕ → Service → Service)
    (dialog_id : Uuid) where
  abbrev pub await : Running → Running
  await r = record r { service = others r.waits r.service; waits = r.waits + 1 }

  unfoldable pub publish : DialogEvent → Running → Running
  publish e r =
      let w = await r in
      record w {
        service = record w.service { broker = Broker.publish dialog_id e w.service.broker };
        calls = w.calls ++ (publishes e ∷ []);
      }

  -- The loop over what the agent yields: the last response.
  unfoldable pub forward : List AgentStreamEvent → Option String → Running → Option String × Running
  unfolding publish
  forward [] answer r = (answer, r)
  forward (text_delta s ∷ es) answer r = forward es answer (publish (delta_event s) r)
  forward (response s ∷ es) answer r = forward es (some s) r

  unfoldable pub append : List Message → Time → Running → Result (List ℕ) × Running
  append ms now r =
      let w = await r in
      let (answer, h) = History.append title_of dialog_id ms now w.service.history in
      (
        answer,
        record w {
          service = record w.service { history = h };
          calls = w.calls ++ (appends ms answer ∷ []);
        },
      )

  abbrev pub turn : UserRequest → String → List Message
  turn request answer =
      record { role = user; content = request.content }
      ∷ record { role = assistant; content = answer }
      ∷ []

  -- What follows the agent's stream.
  unfoldable pub finish : UserRequest → Time → Bool → Option String → Running → Running
  unfolding publish append
  finish request now true answer r = publish error_event r
  finish request now false none r = publish error_event r
  finish request now false (some answer) r =
      let (saved, r') = append (turn request answer) now r in
      elim saved [ err _ ↦ publish error_event r' | ok ids ↦ publish (end_event (last ids)) r' ]

  unfoldable pub answer_request : UserRequest → Time → List Message → Running → Running
  unfolding forward finish
  answer_request request now history r =
      let stream = runner history request in
      let (answer, r') = forward stream.yields none r in finish request now stream.failed answer r'

  -- `_run_after`, once the previous task is done.
  unfoldable pub run_after : Uuid → UserRequest → Time → Running → Running
  unfolding publish answer_request
  run_after user_id request now r =
      let r' = await (publish (plain_event message_start) r) in
      elim (History.get user_id dialog_id r'.service.history) [
        | err _ ↦ publish error_event r'
        | ok history ↦ answer_request request now history r'
      ]
