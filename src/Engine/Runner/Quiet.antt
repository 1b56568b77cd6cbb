-- ===== src/Engine/Runner/Quiet.antt =====
-- Which calls a step runner makes: it reads the context, waits, sends HTTP and model requests,
-- prints and publishes. It touches no table of the database.
use workflow_automation_go_z.Common.{
  String, Bool, true, false, Option, none, some, List, [], ◌∷◌, ℤ, ◌≡◌, Quiet, quiet_rules,
  Quiet-bind, if◌then◌else◌, inl, inr, Option-cases, Result, Result-cases,
}
use workflow_automation_go_z.Value.{GoMap}
use workflow_automation_go_z.Engine.Outside.{
  Context, HttpRequest, ModelRequest, Delta, Call, M, World, publish, context_done, wait,
  do_request, print, anthropic_stream, openai_stream,
}
use workflow_automation_go_z.Engine.Runner
use workflow_automation_go_z.Engine.Runner.{
  StepRunner, http_request, transform, delay, condition, send_email, ai_task,
}
use workflow_automation_go_z.Engine.Runner.Simple.{
  HttpRequestRunner, run_http_request, unless_done, render, build_request,
}
use workflow_automation_go_z.Engine.Runner.Ai.{
  AiTaskRunner, run_ai_task, run_anthropic, run_openai, publish_token, read_delta, read_deltas,
  read_chunk, read_chunks, finish_stream,
}

-- A view that shows no call of a runner.
pub record HidesRunners {V : Type 0} (view : Call → List V) : Type 0 where
  pub on_publish : (channel payload : String) → view (publish channel payload) ≡ []
  pub on_context_done : (ctx : Context) → view (context_done ctx) ≡ []
  pub on_wait : (d : ℤ) (ctx : Context) → view (wait d ctx) ≡ []
  pub on_do_request : (r : HttpRequest) → view (do_request r) ≡ []
  pub on_print : (line : String) → view (print line) ≡ []
  pub on_anthropic : (r : ModelRequest) → view (anthropic_stream r) ≡ []
  pub on_openai : (r : ModelRequest) → view (openai_stream r) ≡ []

module _ {V : Type 0} (view : Call → List V) (h : HidesRunners view) where
  Quiet-if :
      {A : Type 0} (b : Bool) (m n : M A)
      → Quiet view m
      → Quiet view n
      → Quiet view (if b then m else n)
  Quiet-if true m n km kn = km
  Quiet-if false m n km kn = kn

  publish_token-Quiet :
      (r : AiTaskRunner) (token : String) (finished : Bool)
      → Quiet view (publish_token r token finished)
  unfolding publish_token
  publish_token-Quiet r token finished = search (quiet_rules, Quiet-if, h.on_publish)

  read_delta-Quiet : (r : AiTaskRunner) (d : Delta) (out : String) → Quiet view (read_delta r d out)
  unfolding read_delta
  read_delta-Quiet r d out = search (quiet_rules, Quiet-if, publish_token-Quiet)

  read_deltas-Quiet :
      (r : AiTaskRunner) (ds : List Delta) (out : String) → Quiet view (read_deltas r ds out)
  unfolding read_deltas
  read_deltas-Quiet r [] out = search quiet_rules
  read_deltas-Quiet r (d ∷ ds) out = search (quiet_rules, read_delta-Quiet, read_deltas-Quiet r ds)

  read_chunk-Quiet :
      (r : AiTaskRunner) (c : List String) (out : String) → Quiet view (read_chunk r c out)
  unfolding read_chunk
  read_chunk-Quiet r [] out = search quiet_rules
  read_chunk-Quiet r (token ∷ _) out = search (quiet_rules, Quiet-if, publish_token-Quiet)

  read_chunks-Quiet :
      (r : AiTaskRunner) (cs : List (List String)) (out : String)
      → Quiet view (read_chunks r cs out)
  unfolding read_chunks
  read_chunks-Quiet r [] out = search quiet_rules
  read_chunks-Quiet r (c ∷ cs) out = search (quiet_rules, read_chunk-Quiet, read_chunks-Quiet r cs)

module _ {V F : Type 0} (w : World F) (view : Call → List V) (h : HidesRunners view) where
  unless_done-Quiet :
      (ctx : Context) (rest : M (Result (GoMap F)))
      → Quiet view rest
      → Quiet view (unless_done w ctx rest)
  unfolding unless_done
  unless_done-Quiet ctx rest q =
      Quiet-bind view _ _ (search (quiet_rules, h.on_context_done))
        (elim [ none ↦ q | some e ↦ search quiet_rules ])

  run_http_request-Quiet :
      (r : HttpRequestRunner) (ctx : Context) (input : GoMap F)
      → Quiet view (run_http_request w r ctx input)
  unfolding run_http_request
  run_http_request-Quiet r ctx input = elim (Option-cases (w.request_error (build_request r))) [
    | inl e ↦ rw (e, run_http_request) (search (quiet_rules, h.on_do_request))
    | inr (m, e) ↦ rw (e, run_http_request) (search quiet_rules)
  ]

  finish_stream-Quiet :
      (r : AiTaskRunner) (service : String) (e : Option String) (out : String)
      → Quiet view (finish_stream {F = F} r service e out)
  unfolding finish_stream
  finish_stream-Quiet r service (some e) out = search quiet_rules
  finish_stream-Quiet r service none out =
      search (quiet_rules, publish_token-Quiet view h r "" true)

  run_anthropic-Quiet : (r : AiTaskRunner) (prompt : String) → Quiet view (run_anthropic w r prompt)
  unfolding run_anthropic
  run_anthropic-Quiet r prompt =
      search (quiet_rules, h.on_anthropic, read_deltas-Quiet view h, finish_stream-Quiet)

  run_openai-Quiet : (r : AiTaskRunner) (prompt : String) → Quiet view (run_openai w r prompt)
  unfolding run_openai
  run_openai-Quiet r prompt =
      search (quiet_rules, h.on_openai, read_chunks-Quiet view h, finish_stream-Quiet)

  run_ai_task-Quiet :
      (r : AiTaskRunner) (ctx : Context) (input : GoMap F) → Quiet view (run_ai_task w r ctx input)
  unfolding run_ai_task
  run_ai_task-Quiet r ctx input = elim (Result-cases (render w r.prompt_tmpl input)) [
    | inl (prompt, e) ↦
        rw (e, run_ai_task)
          (search (Quiet-if view h, run_openai-Quiet r prompt, run_anthropic-Quiet r prompt))
    | inr (m, e) ↦ rw (e, run_ai_task) (search quiet_rules)
  ]

  -- A runner makes none of the calls that such a view shows.
  pub run-Quiet :
      (r : StepRunner) (ctx : Context) (input : GoMap F) → Quiet view (Runner.run w r ctx input)
  unfolding Runner.run
  run-Quiet (http_request r) ctx input = run_http_request-Quiet r ctx input
  run-Quiet (transform r) ctx input = search (quiet_rules, unless_done-Quiet)
  run-Quiet (delay r) ctx input = search (quiet_rules, h.on_wait)
  run-Quiet (condition r) ctx input = search (quiet_rules, unless_done-Quiet)
  run-Quiet (send_email r) ctx input = search (quiet_rules, unless_done-Quiet, h.on_print)
  run-Quiet (ai_task r) ctx input = run_ai_task-Quiet r ctx input
