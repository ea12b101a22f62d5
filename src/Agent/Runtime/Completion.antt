-- ===== src/Agent/Runtime/Completion.antt =====
-- When a run ends with a response, and when it runs out of iterations.
use mathlib.Core.List.{append_assoc, append-nil}
use bmstu_nirs.Common.{
  text_key, ==_refl, List, String, [], ap, arith, length, map, none, refl, some, suc, sym, zero, ℕ,
  ◌++◌, ◌+◌, ◌<◌, ◌∙◌, ◌∷◌, ◌≡◌,
}
use bmstu_nirs.Agent.Models.{
  LlmResponse, Message, ToolCall, UserRequest, agent_iteration_limit, join, llm_response, llm_text,
  response, text_delta,
}
use bmstu_nirs.Agent.Tools.{execute}
use bmstu_nirs.Agent.Runtime.{
  Agent, LlmStream, after_reply, after_response, again, first_context, iterate, read_stream,
  replied, result_type, run, run_loop, stop, tool_messages,
}
use bmstu_nirs.Agent.Runtime.Steps.{run_loop-again, run_loop-stop}

-- A stream that calls a tool, and one that answers in pieces.
abbrev pub calling : ToolCall → LlmStream
calling c = record {
  events = llm_response (record { content = none; tool_calls = c ∷ [] }) ∷ [];
  failure = none;
}

abbrev pub answering : List String → LlmStream
answering parts = record {
  events =
      map llm_text parts
      ++ (llm_response (record { content = some (join parts); tool_calls = [] }) ∷ []);
  failure = none;
}

read_stream-texts :
    (r : LlmResponse) (parts before : List String)
    → read_stream none (map llm_text parts ++ (llm_response r ∷ [])) none before
      ≡ (map text_delta parts, replied (some r) (before ++ parts))
unfolding read_stream
read_stream-texts r [] before = ap (λ ps. ([], replied (some r) ps)) (sym (append-nil before))
read_stream-texts r (p ∷ parts) before =
    ap (λ x. (text_delta p ∷ x.0, x.1)) (read_stream-texts r parts (before ++ (p ∷ [])))
    ∙ ap (λ ps. (text_delta p ∷ map text_delta parts, replied (some r) ps))
        (append_assoc before (p ∷ []) parts)

module _ (a : Agent) (n : ℕ) (context : List Message) where
  iterate-answering :
      (parts : List String)
      → a.llm_provider n context a.tool_registry.definitions ≡ answering parts
      → iterate a n context ≡ (map text_delta parts, stop (response (join parts) ∷ []) none)
  unfolding iterate after_reply after_response result_type
  iterate-answering parts e =
      rw
        (
          e,
          read_stream-texts (record { content = some (join parts); tool_calls = [] }) parts [],
          ==_refl (join parts),
        )
        refl

  iterate-calling :
      (c : ToolCall)
      → a.llm_provider n context a.tool_registry.definitions ≡ calling c
      → iterate a n context ≡ ([], again (tool_messages (execute a.tool_registry n) (c ∷ [])))
  unfolding iterate after_reply after_response result_type read_stream
  iterate-calling c e = rw e refl

-- The provider calls a tool in each of the iterations from `n` on, `k` of them.
abbrev pub IsCalling : Agent → ℕ → ℕ → Type 0
IsCalling a n k =
    (i : ℕ) (context : List Message)
    → i < k
    → (c : ToolCall) × (a.llm_provider (n + i) context a.tool_registry.definitions ≡ calling c)

IsCalling-next : (a : Agent) (n k : ℕ) → IsCalling a n (suc k) → IsCalling a (n + 1) k
IsCalling-next a n k calls i context less =
    let (c, e) = calls (i + 1) context (omega (arith, less)) in
    let same : n + 1 + i ≡ n + (i + 1) = omega arith in
    (c, ap (λ m. a.llm_provider m context a.tool_registry.definitions) same ∙ e)

IsCalling-first :
    (a : Agent) (n k : ℕ) (context : List Message)
    → IsCalling a n (suc k)
    → (c : ToolCall) × (a.llm_provider n context a.tool_registry.definitions ≡ calling c)
IsCalling-first a n k context calls =
    let (c, e) = calls 0 context (omega arith) in
    let same : n ≡ n + 0 = omega arith in
    (c, ap (λ m. a.llm_provider m context a.tool_registry.definitions) same ∙ e)

run_loop-calling :
    (a : Agent) (k n left : ℕ) (context : List Message) (parts : List String)
    → k < left
    → IsCalling a n k
    → ((context' : List Message)
        → a.llm_provider (n + k) context' a.tool_registry.definitions ≡ answering parts)
    → let r = run_loop a left n context in
      (r.outcome ≡ none)
      × (r.yields ≡ map text_delta parts ++ (response (join parts) ∷ []))
      × (length r.requests ≡ suc k)
run_loop-calling a k n zero context parts less calls answers = ground arith
run_loop-calling a zero n (suc left) context parts less calls answers =
    rw
      (run_loop-stop a left n context (map text_delta parts) (response (join parts) ∷ []) none (
        iterate-answering a n context parts (
          ap (λ m. a.llm_provider m context a.tool_registry.definitions) (omega arith)
          ∙ answers context)))
      (refl, refl, refl)
run_loop-calling a (suc k) n (suc left) context parts less calls answers =
    let (c, called) = IsCalling-first a n k context calls in
    let ms = tool_messages (execute a.tool_registry n) (c ∷ []) in
    let (ended, yielded, count) =
      run_loop-calling a k (n + 1) left (context ++ ms) parts (omega (arith, less))
        (IsCalling-next a n k calls)
        (λ context'.
          ap (λ m. a.llm_provider m context' a.tool_registry.definitions) (omega arith)
          ∙ answers context') in
    rw (run_loop-again a left n context [] ms (iterate-calling a n context c called))
      (ended, yielded, ap suc count)

-- If the provider calls a tool a number of times that is less than `max_iterations`, whatever the
-- tools answer, and then answers in pieces of text, the run yields these pieces and the response
-- that they make up, and ends without an error, after one request more than there were calls.
pub run-completes :
    (a : Agent) (history : List Message) (request : UserRequest) (k : ℕ) (parts : List String)
    → k < a.config.max_iterations
    → IsCalling a 1 k
    → ((context : List Message)
        → a.llm_provider (1 + k) context a.tool_registry.definitions ≡ answering parts)
    → let r = run a history request in
      (r.outcome ≡ none)
      × (r.yields ≡ map text_delta parts ++ (response (join parts) ∷ []))
      × (length r.requests ≡ suc k)
unfolding run
run-completes a history request k parts less calls answers =
    run_loop-calling a k 1 a.config.max_iterations (first_context a history request) parts less
      calls answers

run_loop-limit :
    (a : Agent) (left n : ℕ) (context : List Message)
    → IsCalling a n left
    → let r = run_loop a left n context in
      (r.outcome ≡ some agent_iteration_limit) × (r.yields ≡ []) × (length r.requests ≡ left)
unfolding run_loop
run_loop-limit a zero n context calls = (refl, refl, refl)
run_loop-limit a (suc left) n context calls =
    let (c, called) = IsCalling-first a n left context calls in
    let ms = tool_messages (execute a.tool_registry n) (c ∷ []) in
    let (ended, yielded, count) =
      run_loop-limit a left (n + 1) (context ++ ms) (IsCalling-next a n left calls) in
    rw (run_loop-again a left n context [] ms (iterate-calling a n context c called))
      (ended, yielded, ap suc count)

-- If the provider calls a tool `max_iterations` times, the run ends in `AgentIterationLimitError`
-- after as many requests, and has yielded nothing.
pub run-limit :
    (a : Agent) (history : List Message) (request : UserRequest)
    → IsCalling a 1 a.config.max_iterations
    → let r = run a history request in
      (r.outcome ≡ some agent_iteration_limit)
      × (r.yields ≡ [])
      × (length r.requests ≡ a.config.max_iterations)
unfolding run
run-limit a history request calls =
    run_loop-limit a a.config.max_iterations 1 (first_context a history request) calls
