-- ===== src/Agent/Runtime.antt =====
-- `Agent` of backend/src/smeshariki_ai/agent/runtime.py. A run is the list of what it yields and
-- how it ends; cancellation, which may come at any `await`, is not part of it. The provider is a
-- parameter: to the n-th request it answers with a stream, a list of events that may end in an
-- exception.
pub mod Steps
pub mod Answer
pub mod Requests
pub mod Completion
use bmstu_nirs.Common.{
  text_key, Bool, List, Option, String, [], false, if◌then◌else◌, none, some, suc, true, zero, ℕ,
  ◌++◌, ◌+◌, ◌==◌, ◌∷◌,
}
use bmstu_nirs.Agent.Models.{
  AgentConfig, AgentError, AgentStreamEvent, LlmResponse, LlmResultType, LlmStreamEvent, Message,
  ToolCall, ToolDefinition, ToolResult, UserRequest, agent_iteration_limit, assistant, final,
  invalid, invalid_llm_response, join, length_note, llm_response, llm_text, response, system,
  text_delta, text_message, tool, tool_call, unknown, user,
}
use bmstu_nirs.Agent.Tools.{ToolRegistry, execute}

pub record LlmStream : Type 0 where
  pub events : List LlmStreamEvent
  pub failure : Option AgentError

abbrev pub LlmProvider : Type 0
LlmProvider = ℕ → List Message → List ToolDefinition → LlmStream

pub record Agent : Type 0 where
  pub llm_provider : LlmProvider
  pub tool_registry : ToolRegistry
  pub config : AgentConfig
  pub str : ℕ → String

-- `_result_type`
unfoldable pub result_type : LlmResponse → LlmResultType
result_type r = elim (r.content) [
  | some _ ↦ elim (r.tool_calls) [ [] ↦ final | _ ∷ _ ↦ invalid ]
  | none ↦ elim (r.tool_calls) [ _ ∷ [] ↦ tool_call | _ ↦ invalid ]
]

abbrev pub length_instruction : (ℕ → String) → UserRequest → List Message
length_instruction str request = elim (request.reading_minutes) [
  | none ↦ []
  | some m ↦ text_message system (length_note str m) ∷ []
]

abbrev pub first_context : Agent → List Message → UserRequest → List Message
first_context a history request =
    (text_message system a.config.system_prompt ∷ length_instruction a.str request)
    ++ (history ++ (text_message user request.content ∷ []))

-- What is left of a stream: an error, or the response and the parts of the content.
pub data Reply : Type 0 where
  broken : AgentError → Reply
  replied : Option LlmResponse → List String → Reply

-- The loop over the events of a stream, and what it yields.
unfoldable pub read_stream :
    Option AgentError
    → List LlmStreamEvent
    → Option LlmResponse
    → List String
    → List AgentStreamEvent × Reply
read_stream failure [] last parts =
    ([], elim failure [ none ↦ replied last parts | some e ↦ broken e ])
read_stream failure (llm_text s ∷ es) none parts =
    let (ys, reply) = read_stream failure es none (parts ++ (s ∷ [])) in (text_delta s ∷ ys, reply)
read_stream failure (llm_text s ∷ es) (some _) parts = ([], broken invalid_llm_response)
read_stream failure (llm_response r ∷ es) none parts = read_stream failure es (some r) parts
read_stream failure (llm_response r ∷ es) (some _) parts = ([], broken invalid_llm_response)
read_stream failure (unknown ∷ es) _ parts = ([], broken invalid_llm_response)

-- The messages of the calls of a response, each with its result.
abbrev pub call_message : ToolCall → Message
call_message c = record (text_message assistant "") { call = some c }

abbrev pub result_message : ToolCall → ToolResult → Message
result_message c r = record (text_message tool "") {
  tool_call_id = some c.id;
  tool_name = some c.name;
  tool_result = some r;
}

unfoldable pub tool_messages : (ToolCall → ToolResult) → List ToolCall → List Message
tool_messages execute [] = []
tool_messages execute (c ∷ cs) =
    call_message c ∷ result_message c (execute c) ∷ tool_messages execute cs

-- How an iteration ends: the run is over, with what is yielded last, or the next iteration follows
-- with more messages.
pub data Next : Type 0 where
  stop : List AgentStreamEvent → Option AgentError → Next
  again : List Message → Next

abbrev pub bad_response : Next
bad_response = stop [] (some invalid_llm_response)

abbrev pub text_or_empty : Option String → String
text_or_empty none = ""
text_or_empty (some s) = s

abbrev pub is_empty : List String → Bool
is_empty [] = true
is_empty (_ ∷ _) = false

unfoldable pub after_response : (ToolCall → ToolResult) → LlmResponse → List String → Next
unfolding result_type tool_messages
after_response execute r parts = elim (result_type r) [
  | invalid ↦ bad_response
  | final ↦
      if join parts == text_or_empty r.content
      then stop (response (text_or_empty r.content) ∷ []) none
      else bad_response
  | tool_call ↦ if is_empty parts then again (tool_messages execute r.tool_calls) else bad_response
]

unfoldable pub after_reply : (ToolCall → ToolResult) → Reply → Next
unfolding after_response
after_reply execute (broken e) = stop [] (some e)
after_reply execute (replied none parts) = bad_response
after_reply execute (replied (some r) parts) = after_response execute r parts

-- `outcome` is the exception that ends the run, if there is one. `requests` are the contexts that
-- the provider was called with.
pub record Run : Type 0 where
  pub yields : List AgentStreamEvent
  pub outcome : Option AgentError
  pub requests : List (List Message)

-- One iteration: what it yields, and how it ends.
unfoldable pub iterate : Agent → ℕ → List Message → List AgentStreamEvent × Next
unfolding read_stream after_reply execute
iterate a n context =
    let stream = a.llm_provider n context a.tool_registry.definitions in
    let (ys, reply) = read_stream stream.failure stream.events none [] in
    (ys, after_reply (execute a.tool_registry n) reply)

-- The iterations that are left, with the number of the next.
unfoldable pub run_loop : Agent → ℕ → ℕ → List Message → Run
unfolding iterate
run_loop a zero n context = record {
  yields = [];
  outcome = some agent_iteration_limit;
  requests = [];
}
run_loop a (suc left) n context =
    let (ys, end) = iterate a n context in
    elim end [
      | stop zs o ↦ record { yields = ys ++ zs; outcome = o; requests = context ∷ [] }
      | again ms ↦
          let rest = run_loop a left (n + 1) (context ++ ms) in
          record {
            yields = ys ++ rest.yields;
            outcome = rest.outcome;
            requests = context ∷ rest.requests;
          }
    ]

unfoldable pub run : Agent → List Message → UserRequest → Run
unfolding run_loop
run a history request = run_loop a a.config.max_iterations 1 (first_context a history request)
