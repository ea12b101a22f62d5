-- ===== src/Agent/Runtime/Requests.antt =====
-- What the provider is asked.
use mathlib.Core.List.{append_assoc, append-nil}
use bmstu_nirs.Common.{
  text_key, All, Bool-cases, List, Option, Option-cases, String, [], ap, arith, inl, inr, length,
  none, refl, some, subst, suc, sym, zero, ℕ, ⊤, ◌++◌, ◌+◌, ◌==◌, ◌∙◌, ◌∷◌, ◌≡◌, ◌≤◌,
}
use bmstu_nirs.Agent.Models.{
  AgentStreamEvent, LlmResponse, LlmResultType, Message, ReadingMinutes, ToolCall, ToolResult,
  UserRequest, final, invalid, join, length_note, system, text_message, tool_call, user,
}
use bmstu_nirs.Agent.Tools.{ToolRegistry, execute}
use bmstu_nirs.Agent.Runtime.{
  Agent, Next, Reply, after_reply, after_response, again, broken, call_message, first_context,
  iterate, length_instruction, read_stream, replied, result_message, result_type, run, run_loop,
  stop, text_or_empty, tool_messages,
}
use bmstu_nirs.Agent.Runtime.Steps.{run_loop-again, run_loop-stop}

-- Tool calls, each followed by its result, which has the id and the name of the call.
pub data IsPaired : List Message → Type 0 where
  none_yet : IsPaired []
  pair :
      {ms : List Message} (c : ToolCall) (r : ToolResult)
      → r.call_id ≡ c.id
      → r.name ≡ c.name
      → IsPaired ms
      → IsPaired (call_message c ∷ result_message c r ∷ ms)

execute-names :
    (r : ToolRegistry) (n : ℕ) (c : ToolCall)
    → ((execute r n c).call_id ≡ c.id) × ((execute r n c).name ≡ c.name)
unfolding execute
execute-names r n c = ground arith

tool_messages-IsPaired :
    (r : ToolRegistry) (n : ℕ) (cs : List ToolCall) → IsPaired (tool_messages (execute r n) cs)
unfolding tool_messages
tool_messages-IsPaired r n [] = none_yet
tool_messages-IsPaired r n (c ∷ cs) =
    pair c (execute r n c) (execute-names r n c).0 (execute-names r n c).1
      (tool_messages-IsPaired r n cs)

append-IsPaired : {xs ys : List Message} → IsPaired xs → IsPaired ys → IsPaired (xs ++ ys)
append-IsPaired none_yet k = k
append-IsPaired (pair c r e e' h) k = pair c r e e' (append-IsPaired h k)

abbrev IsPairedNext : Next → Type 0
IsPairedNext (stop zs o) = ⊤
IsPairedNext (again ms) = IsPaired ms

after_response-IsPaired :
    (r : ToolRegistry) (n : ℕ) (x : LlmResponse) (parts : List String) (t : LlmResultType)
    → result_type x ≡ t
    → IsPairedNext (after_response (execute r n) x parts)
unfolding after_response
after_response-IsPaired r n x parts invalid e = rw (e, after_response) tt
after_response-IsPaired r n x parts final e =
    elim (Bool-cases (join parts == text_or_empty x.content)) [
      | inl h ↦ rw (e, h, after_response) tt
      | inr h ↦ rw (e, h, after_response) tt
    ]
after_response-IsPaired r n x [] tool_call e =
    rw (e, after_response) (tool_messages-IsPaired r n x.tool_calls)
after_response-IsPaired r n x (p ∷ parts) tool_call e = rw (e, after_response) tt

after_reply-IsPaired :
    (r : ToolRegistry) (n : ℕ) (reply : Reply) → IsPairedNext (after_reply (execute r n) reply)
unfolding after_reply
after_reply-IsPaired r n (broken e) = tt
after_reply-IsPaired r n (replied none parts) = tt
after_reply-IsPaired r n (replied (some x) parts) =
    after_response-IsPaired r n x parts (result_type x) refl

iterate-IsPaired :
    (a : Agent) (n : ℕ) (context : List Message) → IsPairedNext (iterate a n context).1
unfolding iterate
iterate-IsPaired a n context =
    let stream = a.llm_provider n context a.tool_registry.definitions in
    after_reply-IsPaired a.tool_registry n (read_stream stream.failure stream.events none []).1

-- The first messages, and after them tool calls with their results.
abbrev pub IsContext : List Message → List Message → Type 0
IsContext start context = (ms : List Message) × (context ≡ start ++ ms) × IsPaired ms

IsContext-append :
    (start context ms : List Message)
    → IsContext start context
    → IsPaired ms
    → IsContext start (context ++ ms)
IsContext-append start context ms (ns, same, h) k =
    (ns ++ ms, ap (λ xs. xs ++ ms) same ∙ append_assoc start ns ms, append-IsPaired h k)

abbrev IsAsked : List Message → ℕ → List (List Message) → Type 0
IsAsked start left requests = (length requests ≤ left) × All (IsContext start) requests

loop_step-IsAsked :
    (a : Agent) (start : List Message) (left n : ℕ) (context : List Message)
    (x : List AgentStreamEvent × Next)
    → iterate a n context ≡ x
    → IsContext start context
    → ((ms : List Message)
        → IsContext start (context ++ ms)
        → IsAsked start left (run_loop a left (n + 1) (context ++ ms)).requests)
    → IsAsked start (suc left) (run_loop a (suc left) n context).requests
unfolding run_loop
loop_step-IsAsked a start left n context (ys, stop zs o) e right rest =
    rw (run_loop-stop a left n context ys zs o e) (omega arith, (right, tt))
loop_step-IsAsked a start left n context (ys, again ms) e right rest =
    let paired : IsPaired ms = subst (λ x. IsPairedNext x.1) e (iterate-IsPaired a n context) in
    let (few, all) = rest ms (IsContext-append start context ms right paired) in
    rw (run_loop-again a left n context ys ms e) (omega (arith, few), (right, all))

run_loop-IsAsked :
    (a : Agent) (start : List Message) (left n : ℕ) (context : List Message)
    → IsContext start context
    → IsAsked start left (run_loop a left n context).requests
unfolding run_loop
run_loop-IsAsked a start zero n context right = (omega arith, tt)
run_loop-IsAsked a start (suc left) n context right =
    loop_step-IsAsked a start left n context (iterate a n context) refl right
      (λ ms. run_loop-IsAsked a start left (n + 1) (context ++ ms))

-- The note on the length that the request asks for, if it asks for one.
abbrev pub note_on : (ℕ → String) → Option ReadingMinutes → List Message
note_on str none = []
note_on str (some m) = text_message system (length_note str m) ∷ []

note-eq-length_instruction :
    (str : ℕ → String) (request : UserRequest)
    → length_instruction str request ≡ note_on str request.reading_minutes
note-eq-length_instruction str request = elim (Option-cases request.reading_minutes) [
  | inl e ↦ ground arith
  | inr (m, e) ↦ ground arith
]

-- However the provider and the tools answer, it is asked `max_iterations` times at most, and
-- each time with the system prompt, the note on the length, the history and the request, followed
-- by tool calls, each with its own result directly after it.
pub run-requests :
    (a : Agent) (history : List Message) (request : UserRequest)
    → let r = run a history request in
      (length r.requests ≤ a.config.max_iterations)
      × All
          (IsContext (
            text_message system a.config.system_prompt
            ∷ (note_on a.str request.reading_minutes
                ++ (history ++ (text_message user request.content ∷ [])))))
          r.requests
unfolding run
run-requests a history request =
    let start = first_context a history request in
    subst
      (λ notes.
        IsAsked
          (text_message system a.config.system_prompt
            ∷ (notes ++ (history ++ (text_message user request.content ∷ []))))
          a.config.max_iterations (run a history request).requests)
      (note-eq-length_instruction a.str request)
      (run_loop-IsAsked a start a.config.max_iterations 1 start
        ([], sym (append-nil start), none_yet))
