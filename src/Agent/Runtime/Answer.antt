-- ===== src/Agent/Runtime/Answer.antt =====
-- What a run yields.
use mathlib.Core.List.{append_assoc, append-nil}
use bmstu_nirs.Common.{
  text_key, Bool-cases, List, Option, String, [], ap, arith, inl, inr, map, none, refl, some, subst,
  suc, sym, zero, ℕ, ◌++◌, ◌+◌, ◌==◌, ◌∙◌, ◌∷◌, ◌≡◌,
}
use bmstu_nirs.Agent.Models.{
  AgentError, AgentStreamEvent, LlmResponse, LlmResultType, LlmStreamEvent, Message, ToolCall,
  ToolResult, UserRequest, final, invalid, invalid_llm_response, join, llm_response, llm_text,
  response, text_delta, tool_call, unknown,
}
use bmstu_nirs.Agent.Tools.{execute}
use bmstu_nirs.Agent.Runtime.{
  Agent, Next, Reply, after_reply, after_response, again, broken, first_context, iterate,
  read_stream, replied, result_type, run, run_loop, stop, text_or_empty,
}
use bmstu_nirs.Agent.Runtime.Steps.{run_loop-again, run_loop-stop}

-- Only pieces of text are yielded while a stream is read, and they are the parts.
abbrev IsRead : List String → List AgentStreamEvent × Reply → Type 0
IsRead parts x =
    (ds : List String) × (x.0 ≡ map text_delta ds)
    × ((r : Option LlmResponse) (ps : List String) → x.1 ≡ replied r ps → ps ≡ parts ++ ds)

read_stream-IsRead_last :
    (failure : Option AgentError) (r : Option LlmResponse) (parts : List String)
    → IsRead parts (read_stream failure [] r parts)
unfolding read_stream
read_stream-IsRead_last none r parts = ([], refl, λ r' ps e. ground (arith, append-nil parts))
read_stream-IsRead_last (some x) r parts = ([], refl, λ r' ps e. cc)

broken-IsRead : (parts : List String) (e : AgentError) → IsRead parts ([], broken e)
broken-IsRead parts e = ([], refl, λ r ps h. cc)

read_stream-IsRead :
    (failure : Option AgentError) (es : List LlmStreamEvent) (r : Option LlmResponse)
    (parts : List String)
    → IsRead parts (read_stream failure es r parts)
unfolding read_stream
read_stream-IsRead failure [] r parts = read_stream-IsRead_last failure r parts
read_stream-IsRead failure (llm_text s ∷ es) none parts =
    let (ds, yielded, same) = read_stream-IsRead failure es none (parts ++ (s ∷ [])) in
    (
      s ∷ ds,
      ap (◌∷◌ (text_delta s)) yielded,
      λ r ps e. same r ps e ∙ append_assoc parts (s ∷ []) ds,
    )
read_stream-IsRead failure (llm_text s ∷ es) (some r) parts =
    broken-IsRead parts invalid_llm_response
read_stream-IsRead failure (llm_response r ∷ es) none parts =
    read_stream-IsRead failure es (some r) parts
read_stream-IsRead failure (llm_response r ∷ es) (some r') parts =
    broken-IsRead parts invalid_llm_response
read_stream-IsRead failure (unknown ∷ es) none parts = broken-IsRead parts invalid_llm_response
read_stream-IsRead failure (unknown ∷ es) (some r) parts = broken-IsRead parts invalid_llm_response

-- The pieces of text, then the response that they make up if there is no error.
abbrev pub IsAnswer : List AgentStreamEvent → Option AgentError → Type 0
IsAnswer ys none = (ds : List String) × (ys ≡ map text_delta ds ++ (response (join ds) ∷ []))
IsAnswer ys (some e) = (ds : List String) × (ys ≡ map text_delta ds)

-- What an iteration that is not the last one yields, and what the last one does.
abbrev IsStep : List AgentStreamEvent → Next → Type 0
IsStep ys (stop zs o) = IsAnswer (ys ++ zs) o
IsStep ys (again ms) = ys ≡ []

bad-IsStep : (ds : List String) (e : AgentError) → IsStep (map text_delta ds) (stop [] (some e))
bad-IsStep ds e = (ds, append-nil (map text_delta ds))

after_response-calls :
    (execute : ToolCall → ToolResult) (r : LlmResponse)
    → result_type r ≡ tool_call
    → (ds : List String) → IsStep (map text_delta ds) (after_response execute r ds)
unfolding after_response
after_response-calls execute r e [] = rw (e, after_response) refl
after_response-calls execute r e (d ∷ ds) =
    rw (e, after_response) (bad-IsStep (d ∷ ds) invalid_llm_response)

after_response-IsStep :
    (execute : ToolCall → ToolResult) (r : LlmResponse) (ds : List String)
    → IsStep (map text_delta ds) (after_response execute r ds)
unfolding after_response
after_response-IsStep execute r ds = go (result_type r) refl
  where
    go :
        (t : LlmResultType)
        → result_type r ≡ t
        → IsStep (map text_delta ds) (after_response execute r ds)
    go invalid e = rw (e, after_response) (bad-IsStep ds invalid_llm_response)
    go final e = elim (Bool-cases (join ds == text_or_empty r.content)) [
      | inl same ↦
          let joined : text_or_empty r.content ≡ join ds = ground arith in
          rw (e, same, after_response) (ds, ap (λ s. map text_delta ds ++ (response s ∷ [])) joined)
      | inr differs ↦ rw (e, differs, after_response) (bad-IsStep ds invalid_llm_response)
    ]
    go tool_call e = after_response-calls execute r e ds

after_reply-IsStep :
    (execute : ToolCall → ToolResult) (reply : Reply) (ds : List String)
    → ((r : Option LlmResponse) (ps : List String) → reply ≡ replied r ps → ps ≡ ds)
    → IsStep (map text_delta ds) (after_reply execute reply)
unfolding after_reply
after_reply-IsStep execute (broken e) ds same = bad-IsStep ds e
after_reply-IsStep execute (replied none ps) ds same = bad-IsStep ds invalid_llm_response
after_reply-IsStep execute (replied (some r) ps) ds same =
    rw (same (some r) ps refl) (after_response-IsStep execute r ds)

iterate-IsStep :
    (a : Agent) (n : ℕ) (context : List Message)
    → IsStep (iterate a n context).0 (iterate a n context).1
unfolding iterate
iterate-IsStep a n context =
    let stream = a.llm_provider n context a.tool_registry.definitions in
    let x = read_stream stream.failure stream.events none [] in
    let (ds, yielded, same) = read_stream-IsRead stream.failure stream.events none [] in
    subst (λ ys. IsStep ys (after_reply (execute a.tool_registry n) x.1)) (sym yielded)
      (after_reply-IsStep (execute a.tool_registry n) x.1 ds same)

-- The run from an iteration on, where what follows the next one is right.
loop_step-IsAnswer :
    (a : Agent) (left n : ℕ) (context : List Message) (x : List AgentStreamEvent × Next)
    → iterate a n context ≡ x
    → ((ms : List Message)
        → let r = run_loop a left (n + 1) (context ++ ms) in IsAnswer r.yields r.outcome)
    → let r = run_loop a (suc left) n context in IsAnswer r.yields r.outcome
unfolding run_loop
loop_step-IsAnswer a left n context (ys, stop zs o) e rest =
    rw (run_loop-stop a left n context ys zs o e)
      (subst (λ x. IsStep x.0 x.1) e (iterate-IsStep a n context))
loop_step-IsAnswer a left n context (ys, again ms) e rest =
    let silent : ys ≡ [] = subst (λ x. IsStep x.0 x.1) e (iterate-IsStep a n context) in
    rw (run_loop-again a left n context ys ms e, silent) (rest ms)

run_loop-IsAnswer :
    (a : Agent) (left n : ℕ) (context : List Message)
    → let r = run_loop a left n context in IsAnswer r.yields r.outcome
unfolding run_loop
run_loop-IsAnswer a zero n context = ([], refl)
run_loop-IsAnswer a (suc left) n context =
    loop_step-IsAnswer a left n context (iterate a n context) refl
      (λ ms. run_loop-IsAnswer a left (n + 1) (context ++ ms))

-- A run that ends without an error yields pieces of text and then the response, which is those
-- pieces joined; one that ends in an error yields pieces of text only.
pub run-IsAnswer :
    (a : Agent) (history : List Message) (request : UserRequest)
    → let r = run a history request in IsAnswer r.yields r.outcome
unfolding run
run-IsAnswer a history request =
    run_loop-IsAnswer a a.config.max_iterations 1 (first_context a history request)
