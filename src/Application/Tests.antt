-- ===== src/Application/Tests.antt =====
-- The theorems about the application layer at concrete inputs.
use bmstu_nirs.Common.{
  nat_key, ℕ_discrete, String, [], arith, false, length, lookup, map, none, refl, some, true, ◌++◌,
  ◌∷◌, ◌≡◌, ◌≤◌, ◌⊎◌,
}
use bmstu_nirs.Application.Events.{
  DialogEvent, close, closed_mark, ended, event, message_delta, offer, receive, received,
}
use bmstu_nirs.Application.Events.Sublist.{Sublist}
use bmstu_nirs.Application.Events.Traces.{act, offers, opened, run, takes}
use bmstu_nirs.Application.Events.Delivery.{pending, run-order}
use bmstu_nirs.Application.Events.Closing.{read_out, read_out-close}
use bmstu_nirs.Application.Broker.{
  Broker, close_dialog, new_broker, publish, receive_from, shutdown, subscribe, subscribers_of,
  unsubscribe,
}
use bmstu_nirs.Application.Broker.Registry.{
  IsSound, Reach, Reach-IsSound, here, next, published, subscribed,
}
use bmstu_nirs.Application.Broker.Fanout.{publish-lookup, shutdown_lem}
use bmstu_nirs.Agent.Models.{UserRequest, text_delta, response, user, assistant}
use bmstu_nirs.Dialogs.Models.{ok}
use bmstu_nirs.Dialogs.History as History
use bmstu_nirs.Dialogs.History.{History}
use bmstu_nirs.Application.Service.{
  AgentRunner, Service, Running, run_after, forward, finish, answer_request, submit, task_done,
}
use bmstu_nirs.Application.Service as Service
use bmstu_nirs.Application.Service.Answering.{IsTask, run_after-IsTask, started}
use bmstu_nirs.Application.Service.Order.{Reach-order, submitted}
use bmstu_nirs.Application.Service.Queue.{is_open}
use bmstu_nirs.Application.Service.Order as Order
use bmstu_nirs.Application.Service.Dialogs as Calls
use bmstu_nirs.Application.Service.Dialogs.Rating.{rate_in, transcript-set_feedback}

-- A declaration that unfolds this one runs the broker.
program : Unit {0}
unfolding ℕ_discrete close offer receive act run read_out new_broker subscribers_of subscribe
    unsubscribe publish close_dialog shutdown receive_from run_after Service.publish Service.append
    forward finish answer_request submit task_done Calls.set_feedback Calls.clear_feedback
    History.set_feedback Calls.transcript History.transcript History.get History.append
program = tt

abbrev a_delta : String → DialogEvent
a_delta s = record {
  type = message_delta;
  delta = some s;
  code = none;
  message = none;
  message_id = none;
}

-- A queue of one event overflows at the second.
overflow_run :
    run
      (offers (a_delta "a") ∷ takes ∷ offers (a_delta "b") ∷ offers (a_delta "c") ∷ [])
      (opened 7 1)
    ≡ record {
      offered = a_delta "a" ∷ a_delta "b" ∷ a_delta "c" ∷ [];
      taken = a_delta "a" ∷ [];
      finished = false;
      object = record { dialog_id = 7; queue_size = 1; queue = closed_mark ∷ []; closed = true };
    }
unfolding program
overflow_run = refl

run-order_example :
    let t = run (offers (a_delta "a") ∷ offers (a_delta "b") ∷ takes ∷ []) (opened 7 2) in
    (t.object.closed ≡ false → t.offered ≡ t.taken ++ pending t.object.queue)
    × Sublist t.taken t.offered
    × (length t.object.queue ≤ 2)
    × (t.object.closed ≡ true
        → ((t.finished ≡ true) × (t.object.queue ≡ []))
          ⊎ ((t.finished ≡ false)
              × (t.object.queue ≡ map event (pending t.object.queue) ++ (closed_mark ∷ []))))
run-order_example =
    run-order 7 2 (offers (a_delta "a") ∷ offers (a_delta "b") ∷ takes ∷ []) (omega arith)

-- A full queue loses its oldest event.
read_out-close_example :
    read_out 2 (
      close false (record {
        dialog_id = 7;
        queue_size = 2;
        queue = event (a_delta "a") ∷ event (a_delta "b") ∷ [];
        closed = false;
      }))
    ≡ received (a_delta "b") ∷ ended ∷ []
unfolding program
read_out-close_example =
    read_out-close false (a_delta "a" ∷ a_delta "b" ∷ [])
      (record {
        dialog_id = 7;
        queue_size = 2;
        queue = event (a_delta "a") ∷ event (a_delta "b") ∷ [];
        closed = false;
      })
      refl refl

abbrev empty_broker : Broker
empty_broker = record {
  queue_size = 2;
  subscriptions = [];
  next_object = 0;
  subscribers = [];
  closed = false;
}

-- Two subscribers of dialog 7 and one of dialog 8.
abbrev busy : Broker
busy = (subscribe 8 (subscribe 7 (subscribe 7 empty_broker).1).1).1

busy-Reach : Reach empty_broker busy
busy-Reach =
    next (next (next here (subscribed 7 empty_broker)) (subscribed 7 (subscribe 7 empty_broker).1))
      (subscribed 8 (subscribe 7 (subscribe 7 empty_broker).1).1)

made : new_broker 2 ≡ some empty_broker
unfolding program
made = refl

busy-IsSound : IsSound busy
busy-IsSound = Reach-IsSound 2 made busy-Reach

publish_run : (receive_from 1 (publish 7 (a_delta "a") busy)).0 ≡ received (a_delta "a")
unfolding program
publish_run = refl

Reach-IsSound_example : IsSound (publish 7 (a_delta "a") busy)
Reach-IsSound_example =
    Reach-IsSound 2 {b = empty_broker} {c = publish 7 (a_delta "a") busy} made
      (next busy-Reach (published 7 (a_delta "a") busy))

publish-lookup_example :
    lookup 1 (publish 7 (a_delta "a") busy).subscriptions
    ≡ some
        (record { dialog_id = 7; queue_size = 2; queue = event (a_delta "a") ∷ []; closed = false })
unfolding program
publish-lookup_example = publish-lookup 7 (a_delta "a") 1 busy busy-IsSound

shutdown_lem_example :
    (lookup 2 (shutdown busy).subscriptions
      ≡ some (record { dialog_id = 8; queue_size = 2; queue = closed_mark ∷ []; closed = true }))
    × (subscribe 7 (shutdown busy) ≡ (none, shutdown busy))
    × (shutdown (shutdown busy) ≡ shutdown busy)
unfolding program
shutdown_lem_example = shutdown_lem 7 2 busy busy-IsSound

-- An agent that answers in two pieces.
abbrev teller : AgentRunner
teller history request = record {
  yields = text_delta "on" ∷ text_delta "ce" ∷ response "once" ∷ [];
  failed = false;
}

abbrev tale : UserRequest
tale = record { content = "tale"; reading_minutes = none }

-- User 1 has dialog 7.
abbrev service : Service
service = record {
  history = record {
    dialogs =
        (7, record { owner_id = 1; created_at = 0; updated_at = 0; title = none; messages = [] })
        ∷ [];
    feedback = [];
    reports = [];
    message_ids = 1;
    report_ids = 1;
  };
  broker = busy;
  accepting = true;
  dialog_tails = [];
  tasks = [];
  next_task = 0;
}

abbrev ready : Running
ready = record { service = service; calls = []; waits = 0 }

answer_run :
    (History.get 1 7 (run_after (λ s. s) teller (λ n s. s) 7 1 tale 5 ready).service.history)
    ≡ ok (
        record { role = user; content = "tale" }
        ∷ record { role = assistant; content = "once" }
        ∷ [])
unfolding program
answer_run = refl

run_after-IsTask_example :
    IsTask
      (λ s. s)
      teller
      (λ n s. s)
      7
      tale
      (History.get 1 7 (started (λ s. s) teller (λ n s. s) 7 ready).service.history)
      (run_after (λ s. s) teller (λ n s. s) 7 1 tale 5 ready).calls
run_after-IsTask_example =
    run_after-IsTask (λ s. s) teller (λ n s. s) 7 1 tale 5 service
      (record { streams = λ history request. ("on" ∷ "ce" ∷ [], refl) })

-- Two requests, the first of which is answered.
abbrev twice : Service
twice = (submit 1 7 tale (submit 1 7 tale service).1).1

abbrev once : Service
once = task_done 0 7 twice

once-Reach : Order.Reach service once
unfolding program
once-Reach =
    Order.next
      (Order.next (Order.next Order.here (submitted 1 7 tale service))
        (submitted 1 7 tale (submit 1 7 tale service).1))
      (Order.ended 0 7 twice refl refl)

Reach-order_example : is_open 7 (lookup 0 once.tasks) ≡ false
unfolding program
Reach-order_example = Reach-order service once 7 0 1 refl refl once-Reach refl refl (omega arith)

-- The service after the answer of `answer_run`.
abbrev told : Service
told = (run_after (λ s. s) teller (λ n s. s) 7 1 tale 5 ready).service

transcript-set_feedback_example :
    let s' = (Calls.set_feedback 1 7 2 5 told).1 in
    (Calls.transcript 1 7 s' ≡ rate_in 2 (some 5) (Calls.transcript 1 7 told))
    × (Calls.transcript 1 7 (Calls.clear_feedback 1 7 2 s').1
        ≡ rate_in 2 none (Calls.transcript 1 7 s'))
unfolding program
transcript-set_feedback_example = transcript-set_feedback 1 7 1 7 2 5 told refl
