-- ===== src/Agent/Tests.antt =====
-- The theorems about the agent at a concrete provider with one tool.
use bmstu_nirs.Common.{
  text_key, nat_key, ℕ_discrete, text_discrete, All, [], arith, if◌then◌else◌, inl, inr, leb,
  length, none, refl, some, ℕ, ◌==◌, ◌∷◌, ◌≡◌, ◌≤◌,
}
use bmstu_nirs.Agent.Models.{
  ToolCall, UserRequest, response, system, text_delta, text_message, user,
}
use bmstu_nirs.Agent.Tools
use bmstu_nirs.Agent.Tools.{Tool, ToolRegistry, definition_of, execute, new_registry}
use bmstu_nirs.Agent.Runtime.{
  Agent, LlmProvider, after_reply, after_response, iterate, read_stream, result_type, run, run_loop,
  tool_messages,
}
use bmstu_nirs.Agent.Runtime.Answer.{IsAnswer, run-IsAnswer}
use bmstu_nirs.Agent.Runtime.Requests.{IsContext, run-requests}
use bmstu_nirs.Agent.Runtime.Completion.{answering, calling, run-completes}

-- A declaration that unfolds this one runs the agent.
program : Unit {0}
unfolding ℕ_discrete text_discrete new_registry Tools.execute result_type read_stream tool_messages
    after_response after_reply iterate run_loop run
program = tt

abbrev marker : Tool
marker = record {
  name = "marker";
  description = "Returns the marker.";
  schema = "{}";
  validate = λ arguments. if arguments == "{}" then some arguments else none;
  execute = λ n arguments. some "lemon";
}

abbrev registry : ToolRegistry
registry = record { tools = ("marker", marker) ∷ []; definitions = definition_of marker ∷ [] }

new_registry_run : new_registry (marker ∷ []) ≡ inr registry
unfolding program
new_registry_run = refl

duplicate_run : new_registry (marker ∷ marker ∷ []) ≡ inl "marker"
unfolding program
duplicate_run = refl

call_marker : ToolCall
call_marker = record { id = "1"; name = "marker"; arguments = "{}" }

unknown_tool_run :
    (Tools.execute registry 1 (record { id = "2"; name = "clock"; arguments = "{}" })).error
    ≡ some (record { code = "tool_not_found"; message = "The requested tool is not available." })
unfolding program
unknown_tool_run = refl

-- The provider calls the tool once, and then answers in two pieces; with `k` calls before.
abbrev provider : ℕ → LlmProvider
provider k n context definitions =
    if leb n k then calling call_marker else answering ("le" ∷ "mon" ∷ [])

abbrev agent : ℕ → Agent
agent k = record {
  llm_provider = provider k;
  tool_registry = registry;
  config = record { system_prompt = "Tell tales."; max_iterations = 2 };
  str = λ n. "2";
}

abbrev request : UserRequest
request = record { content = "Which marker?"; reading_minutes = none }

run-IsAnswer_example : let r = run (agent 1) [] request in IsAnswer r.yields r.outcome
run-IsAnswer_example = run-IsAnswer (agent 1) [] request

run-requests_example :
    let r = run (agent 1) [] request in
    (length r.requests ≤ 2)
    × All
        (IsContext (text_message system "Tell tales." ∷ text_message user "Which marker?" ∷ []))
        r.requests
run-requests_example = run-requests (agent 1) [] request

run-completes_example :
    let r = run (agent 1) [] request in
    (r.outcome ≡ none)
    × (r.yields ≡ text_delta "le" ∷ text_delta "mon" ∷ response "lemon" ∷ [])
    × (length r.requests ≡ 2)
run-completes_example =
    run-completes (agent 1) [] request 1 ("le" ∷ "mon" ∷ []) (omega arith)
      (λ i context less. (call_marker, ground arith)) (λ context. refl)
