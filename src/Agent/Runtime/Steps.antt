-- ===== src/Agent/Runtime/Steps.antt =====
-- The loop of a run, an iteration at a time.
use bmstu_nirs.Common.{text_key, List, Option, [], arith, suc, ℕ, ◌++◌, ◌+◌, ◌∷◌, ◌≡◌}
use bmstu_nirs.Agent.Models.{AgentError, AgentStreamEvent, Message}
use bmstu_nirs.Agent.Runtime.{Agent, again, iterate, run_loop, stop}

module _ (a : Agent) (left n : ℕ) (context : List Message) (ys : List AgentStreamEvent) where
  pub run_loop-stop :
      (zs : List AgentStreamEvent) (o : Option AgentError)
      → iterate a n context ≡ (ys, stop zs o)
      → run_loop a (suc left) n context
        ≡ record { yields = ys ++ zs; outcome = o; requests = context ∷ [] }
  unfolding run_loop
  run_loop-stop zs o e = ground arith

  pub run_loop-again :
      (ms : List Message)
      → iterate a n context ≡ (ys, again ms)
      → let rest = run_loop a left (n + 1) (context ++ ms) in
        run_loop a (suc left) n context ≡ record {
          yields = ys ++ rest.yields;
          outcome = rest.outcome;
          requests = context ∷ rest.requests;
        }
  unfolding run_loop
  run_loop-again ms e = ground arith
