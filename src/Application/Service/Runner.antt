-- ===== src/Application/Service/Runner.antt =====
-- The agent of backend/src/smeshariki_ai/agent/runtime.py as what the service runs.
use bmstu_nirs.Common.{Bool, List, Option, false, map, none, some, true}
use bmstu_nirs.Agent.Models.{AgentError, AgentStreamEvent, text_message}
use bmstu_nirs.Agent.Runtime.{Agent, run}
use bmstu_nirs.Agent.Runtime.Answer.{IsAnswer, run-IsAnswer}
use bmstu_nirs.Application.Service.{AgentRunner}
use bmstu_nirs.Application.Service.Answering.{IsRunner, IsStream}

abbrev pub has_failed : Option AgentError → Bool
has_failed none = false
has_failed (some _) = true

unfoldable pub agent_runner : Agent → AgentRunner
agent_runner a history request =
    let r = run a (map (λ m. text_message m.role m.content) history) request in
    record { yields = r.yields; failed = has_failed r.outcome }

IsStream-IsAnswer :
    (ys : List AgentStreamEvent) (o : Option AgentError)
    → IsAnswer ys o
    → IsStream ys (has_failed o)
IsStream-IsAnswer ys none h = h
IsStream-IsAnswer ys (some e) h = h

-- The agent is one that the service can rely on.
pub agent_runner-IsRunner : (a : Agent) → IsRunner (agent_runner a)
unfolding agent_runner
agent_runner-IsRunner a = record {
  streams = λ history request.
      let ms = map (λ m. text_message m.role m.content) history in
      IsStream-IsAnswer (run a ms request).yields (run a ms request).outcome
        (run-IsAnswer a ms request);
}
