-- ===== src/Application/Service/Answering.antt =====
-- The calls that a task makes: what its subscribers see and what is stored.
use mathlib.Core.List.{append_assoc, append-nil}
use bmstu_nirs.Common.{
  nat_key, Bool, List, Option, String, [], ap, arith, false, map, none, refl, some, sym, true, ℕ,
  ◌++◌, ◌∙◌, ◌∷◌, ◌≡◌,
}
use bmstu_nirs.Agent.Models.{UserRequest, AgentStreamEvent, text_delta, response, join}
use bmstu_nirs.Dialogs.Models.{Uuid, Time, Message, DialogError, Result, ok, err}
use bmstu_nirs.Dialogs.History as History
use bmstu_nirs.Application.Events.{message_start}
use bmstu_nirs.Application.Service.{
  AgentRunner, Call, Running, Service, answer_request, append, appends, await, delta_event,
  end_event, error_event, finish, forward, last, plain_event, publish, publishes, run_after, turn,
}

-- What the service relies on: an agent yields pieces of text, and then the response that they make
-- up, if it does not fail.
abbrev pub yields_of : Bool → List String → List AgentStreamEvent
yields_of true ds = map text_delta ds
yields_of false ds = map text_delta ds ++ (response (join ds) ∷ [])

abbrev pub IsStream : List AgentStreamEvent → Bool → Type 0
IsStream ys failed_now = (ds : List String) × (ys ≡ yields_of failed_now ds)

pub record IsRunner (runner : AgentRunner) : Type 0 where
  pub streams :
      (history : List Message) (request : UserRequest)
      → let s = runner history request in IsStream s.yields s.failed

abbrev pub deltas : List String → List Call
deltas = map (λ s. publishes (delta_event s))

-- The calls after the last delta, for a request and an answer, and whether the agent failed.
pub data IsEnd (turn : List Message) : Bool → List Call → Type 0 where
  failed : IsEnd turn true (publishes error_event ∷ [])
  unsaved : (e : DialogError) → IsEnd turn false (appends turn (err e) ∷ publishes error_event ∷ [])
  saved :
      (ids : List ℕ)
      → IsEnd turn false (appends turn (ok ids) ∷ publishes (end_event (last ids)) ∷ [])

module _ (title_of : String → String) (runner : AgentRunner) (others : ℕ → Service → Service)
    (dialog_id : Uuid) where
  forward-text :
      (ds : List String) (o : Option String) (r : Running)
      → let (o', r') = forward title_of runner others dialog_id (map text_delta ds) o r in
        (o' ≡ o) × (r'.calls ≡ r.calls ++ deltas ds)
  unfolding forward publish
  forward-text [] o r = (refl, sym (append-nil r.calls))
  forward-text (d ∷ ds) o r =
      let (same, calls) =
        forward-text ds o (publish title_of runner others dialog_id (delta_event d) r) in
      (same, calls ∙ append_assoc r.calls (publishes (delta_event d) ∷ []) (deltas ds))

  forward-response :
      (ds : List String) (c : String) (o : Option String) (r : Running)
      → let (o', r') =
          forward title_of runner others dialog_id (map text_delta ds ++ (response c ∷ [])) o r in
        (o' ≡ some c) × (r'.calls ≡ r.calls ++ deltas ds)
  unfolding forward publish
  forward-response [] c o r = (refl, sym (append-nil r.calls))
  forward-response (d ∷ ds) c o r =
      let (same, calls) =
        forward-response ds c o (publish title_of runner others dialog_id (delta_event d) r) in
      (same, calls ∙ append_assoc r.calls (publishes (delta_event d) ∷ []) (deltas ds))

  -- The calls of `r'` are those of `r` and an end.
  abbrev Ends : List Message → Bool → Running → Running → Type 0
  Ends ms failed_now r r' =
      (calls : List Call) × (r'.calls ≡ r.calls ++ calls) × IsEnd ms failed_now calls

  finish-failed :
      (request : UserRequest) (now : Time) (o : Option String) (ms : List Message) (r : Running)
      → Ends ms true r (finish title_of runner others dialog_id request now true o r)
  unfolding finish publish
  finish-failed request now o ms r = (publishes error_event ∷ [], refl, failed)

  -- The answer of the store to `append`, at the await after `r`.
  abbrev stored : UserRequest → Time → String → Running → Result (List ℕ)
  stored request now c r =
      (History.append title_of dialog_id (turn title_of runner others dialog_id request c) now
        (others r.waits r.service).history).0

  finish-err :
      (request : UserRequest) (now : Time) (c : String) (r : Running) (e : DialogError)
      → stored request now c r ≡ err e
      → (finish title_of runner others dialog_id request now false (some c) r).calls
        ≡ (r.calls ++ (appends (turn title_of runner others dialog_id request c) (err e) ∷ []))
          ++ (publishes error_event ∷ [])
  unfolding finish append publish
  finish-err request now c r e h = ground arith

  finish-ok :
      (request : UserRequest) (now : Time) (c : String) (r : Running) (ids : List ℕ)
      → stored request now c r ≡ ok ids
      → (finish title_of runner others dialog_id request now false (some c) r).calls
        ≡ (r.calls ++ (appends (turn title_of runner others dialog_id request c) (ok ids) ∷ []))
          ++ (publishes (end_event (last ids)) ∷ [])
  unfolding finish append publish
  finish-ok request now c r ids h = ground arith

  finish-cases :
      (request : UserRequest) (now : Time) (c : String) (r : Running) (x : Result (List ℕ))
      → stored request now c r ≡ x
      → Ends
          (turn title_of runner others dialog_id request c)
          false
          r
          (finish title_of runner others dialog_id request now false (some c) r)
  finish-cases request now c r (err e) h =
      (_, finish-err request now c r e h ∙ append_assoc r.calls _ _, unsaved e)
  finish-cases request now c r (ok ids) h =
      (_, finish-ok request now c r ids h ∙ append_assoc r.calls _ _, saved ids)

  finish-answered :
      (request : UserRequest) (now : Time) (c : String) (r : Running)
      → Ends
          (turn title_of runner others dialog_id request c)
          false
          r
          (finish title_of runner others dialog_id request now false (some c) r)
  finish-answered request now c r = finish-cases request now c r (stored request now c r) refl

  -- The calls of `r'` are those of `r`, pieces of text and an end.
  abbrev Answers : UserRequest → List AgentStreamEvent → Bool → Running → Running → Type 0
  Answers request ys failed_now r r' =
      (ds : List String) × (tail : List Call) × (ys ≡ yields_of failed_now ds)
      × (r'.calls ≡ r.calls ++ (deltas ds ++ tail))
      × IsEnd (turn title_of runner others dialog_id request (join ds)) failed_now tail

  after-deltas :
      (request : UserRequest) (failed_now : Bool) (ds : List String) (r r' r'' : Running)
      → r'.calls ≡ r.calls ++ deltas ds
      → Ends (turn title_of runner others dialog_id request (join ds)) failed_now r' r''
      → Answers request (yields_of failed_now ds) failed_now r r''
  after-deltas request failed_now ds r r' r'' calls (tail, e, end) =
      (ds, tail, refl, e ∙ ap (λ xs. xs ++ tail) calls ∙ append_assoc r.calls (deltas ds) tail, end)

  stream-Answers :
      (request : UserRequest) (now : Time) (ys : List AgentStreamEvent) (failed_now : Bool)
      (r : Running)
      → IsStream ys failed_now
      → let (o, r') = forward title_of runner others dialog_id ys none r in
        Answers request ys failed_now r
          (finish title_of runner others dialog_id request now failed_now o r')
  stream-Answers request now ys true r (ds, yielded) =
      let x = forward title_of runner others dialog_id (map text_delta ds) none r in
      let ms = turn title_of runner others dialog_id request (join ds) in
      let result = finish title_of runner others dialog_id request now true x.0 x.1 in
      rw yielded (
        after-deltas request true ds r x.1 result (forward-text ds none r).1
          (finish-failed request now x.0 ms x.1))
  stream-Answers request now ys false r (ds, yielded) =
      let x =
        forward title_of runner others dialog_id (map text_delta ds ++ (response (join ds) ∷ []))
          none r in
      let (same, calls) = forward-response ds (join ds) none r in
      let result = finish title_of runner others dialog_id request now false (some (join ds)) x.1 in
      rw yielded (
        rw same (
          after-deltas request false ds r x.1 result calls
            (finish-answered request now (join ds) x.1)))

  -- The calls of a request, in their order, when the task reads this of the dialog: the start and the
  -- error; or the start, the pieces that the agent yields, and the end for the answer that they make
  -- up.
  abbrev pub IsTask : UserRequest → Result (List Message) → List Call → Type 0
  IsTask request (err e) calls =
      calls ≡ publishes (plain_event message_start) ∷ publishes error_event ∷ []
  IsTask request (ok history) calls =
      let stream = runner history request in
      (ds : List String) × (tail : List Call) × (stream.yields ≡ yields_of stream.failed ds)
      × (calls ≡ publishes (plain_event message_start) ∷ (deltas ds ++ tail))
      × IsEnd (turn title_of runner others dialog_id request (join ds)) stream.failed tail

  -- The task has published the start, and reads the history.
  abbrev pub started : Running → Running
  started r =
      await title_of runner others dialog_id
        (publish title_of runner others dialog_id (plain_event message_start) r)

  run_after-err :
      (user_id : Uuid) (request : UserRequest) (now : Time) (r : Running) (e : DialogError)
      → History.get user_id dialog_id (started r).service.history ≡ err e
      → run_after title_of runner others dialog_id user_id request now r
        ≡ publish title_of runner others dialog_id error_event (started r)
  unfolding run_after
  run_after-err user_id request now r e got = ground arith

  run_after-ok :
      (user_id : Uuid) (request : UserRequest) (now : Time) (r : Running) (history : List Message)
      → History.get user_id dialog_id (started r).service.history ≡ ok history
      → run_after title_of runner others dialog_id user_id request now r
        ≡ answer_request title_of runner others dialog_id request now history (started r)
  unfolding run_after
  run_after-ok user_id request now r history got = ground arith

  run_after-cases :
      (user_id : Uuid) (request : UserRequest) (now : Time) (s : Service)
      (x : Result (List Message))
      → IsRunner runner
      → (let r : Running = record { service = s; calls = []; waits = 0 } in
          History.get user_id dialog_id (started r).service.history ≡ x)
      → let r : Running = record { service = s; calls = []; waits = 0 } in
        IsTask request x (run_after title_of runner others dialog_id user_id request now r).calls
  unfolding publish answer_request
  run_after-cases user_id request now s (err e) v got =
      let r : Running = record { service = s; calls = []; waits = 0 } in
      rw (run_after-err user_id request now r e got) refl
  run_after-cases user_id request now s (ok history) v got =
      let r : Running = record { service = s; calls = []; waits = 0 } in
      let stream = runner history request in
      rw (run_after-ok user_id request now r history got) (
        stream-Answers request now stream.yields stream.failed (started r)
          (v.streams history request))

  -- Whatever other tasks do meanwhile, a task publishes the start and reads the dialog. If that is
  -- gone, it publishes the error and is done. If not, it publishes the pieces of text that the agent
  -- yields for the history read, each once and in order, and then: if the agent failed, the error,
  -- and it stores nothing; else it stores the request and the answer, which is the pieces joined, and
  -- publishes the end with the last id they were stored under, or the error if they were not stored.
  pub run_after-IsTask :
      (user_id : Uuid) (request : UserRequest) (now : Time) (s : Service)
      → IsRunner runner
      → let r : Running = record { service = s; calls = []; waits = 0 } in
        IsTask request
          (History.get user_id dialog_id (started r).service.history)
          (run_after title_of runner others dialog_id user_id request now r).calls
  run_after-IsTask user_id request now s v =
      let r : Running = record { service = s; calls = []; waits = 0 } in
      run_after-cases user_id request now s
        (History.get user_id dialog_id (started r).service.history) v refl
