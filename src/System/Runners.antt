-- ===== src/System/Runners.antt =====
-- No step runner publishes an event that ends a stream.
use workflow_automation_go_z.Common.{
  not, ◌||◌, String, Bool, true, Option, none, some, List, [], ◌∷◌, inl, inr, str_eq, Option-cases,
  Result, Result-cases,
}
use workflow_automation_go_z.Value.{GoMap}
use workflow_automation_go_z.Engine.Outside.{Context, Delta, StepDef, M, World}
use workflow_automation_go_z.Engine.Runner
use workflow_automation_go_z.Engine.Runner.{
  RunnerFactory, StepRunner, http_request, transform, delay, condition, send_email, ai_task,
}
use workflow_automation_go_z.Engine.Runner.Simple.{
  HttpRequestRunner, run_http_request, unless_done, render, build_request,
}
use workflow_automation_go_z.Engine.Runner.Ai.{
  AiTaskRunner, run_ai_task, run_anthropic, run_openai, publish_token, read_delta, read_deltas,
  read_chunk, read_chunks, finish_stream,
}
use workflow_automation_go_z.Gateway.Stream.Finished.{is_finished-token, token_payload}
use workflow_automation_go_z.Engine.Server.{attempt_step}
use workflow_automation_go_z.System.Announces.{
  Announces, Announces-publish, Announces-if, Announces-bind, announce_rules,
}

module _ (c : String) where
  publish_token-Announces :
      (r : AiTaskRunner) (token : String) (finished : Bool)
      → Announces c (publish_token r token finished)
  unfolding publish_token
  publish_token-Announces r token finished =
      Announces-if c (not r.rdb || str_eq r.stream_chan "") _ _ (search announce_rules) (
        Announces-publish c r.stream_chan (token_payload r.step_id token finished)
          (is_finished-token r.step_id token finished))

  read_delta-Announces :
      (r : AiTaskRunner) (d : Delta) (out : String) → Announces c (read_delta r d out)
  unfolding read_delta
  read_delta-Announces r d out = search (announce_rules, publish_token-Announces)

  read_deltas-Announces :
      (r : AiTaskRunner) (ds : List Delta) (out : String) → Announces c (read_deltas r ds out)
  unfolding read_deltas
  read_deltas-Announces r [] out = search announce_rules
  read_deltas-Announces r (d ∷ ds) out =
      search (announce_rules, read_delta-Announces, read_deltas-Announces r ds)

  read_chunk-Announces :
      (r : AiTaskRunner) (chunk : List String) (out : String) → Announces c (read_chunk r chunk out)
  unfolding read_chunk
  read_chunk-Announces r [] out = search announce_rules
  read_chunk-Announces r (token ∷ _) out = search (announce_rules, publish_token-Announces)

  read_chunks-Announces :
      (r : AiTaskRunner) (cs : List (List String)) (out : String)
      → Announces c (read_chunks r cs out)
  unfolding read_chunks
  read_chunks-Announces r [] out = search announce_rules
  read_chunks-Announces r (chunk ∷ cs) out =
      search (announce_rules, read_chunk-Announces, read_chunks-Announces r cs)

module _ {F : Type 0} (w : World F) (c : String) where
  unless_done-Announces :
      (ctx : Context) (rest : M (Result (GoMap F)))
      → Announces c rest
      → Announces c (unless_done w ctx rest)
  unfolding unless_done
  unless_done-Announces ctx rest q =
      Announces-bind c _ _ (search announce_rules)
        (elim [ none ↦ q | some e ↦ search announce_rules ])

  run_http_request-Announces :
      (r : HttpRequestRunner) (ctx : Context) (input : GoMap F)
      → Announces c (run_http_request w r ctx input)
  unfolding run_http_request
  run_http_request-Announces r ctx input = elim (Option-cases (w.request_error (build_request r))) [
    | inl e ↦ rw (e, run_http_request) (search announce_rules)
    | inr (m, e) ↦ rw (e, run_http_request) (search announce_rules)
  ]

  finish_stream-Announces :
      (r : AiTaskRunner) (service : String) (e : Option String) (out : String)
      → Announces c (finish_stream {F = F} r service e out)
  unfolding finish_stream
  finish_stream-Announces r service (some e) out = search announce_rules
  finish_stream-Announces r service none out =
      search (announce_rules, publish_token-Announces c r "" true)

  run_anthropic-Announces :
      (r : AiTaskRunner) (prompt : String) → Announces c (run_anthropic w r prompt)
  unfolding run_anthropic
  run_anthropic-Announces r prompt =
      search (announce_rules, read_deltas-Announces, finish_stream-Announces)

  run_openai-Announces : (r : AiTaskRunner) (prompt : String) → Announces c (run_openai w r prompt)
  unfolding run_openai
  run_openai-Announces r prompt =
      search (announce_rules, read_chunks-Announces, finish_stream-Announces)

  run_ai_task-Announces :
      (r : AiTaskRunner) (ctx : Context) (input : GoMap F) → Announces c (run_ai_task w r ctx input)
  unfolding run_ai_task
  run_ai_task-Announces r ctx input = elim (Result-cases (render w r.prompt_tmpl input)) [
    | inl (prompt, e) ↦
        rw (e, run_ai_task)
          (search (Announces-if, run_openai-Announces r prompt, run_anthropic-Announces r prompt))
    | inr (m, e) ↦ rw (e, run_ai_task) (search announce_rules)
  ]

  run-Announces :
      (r : StepRunner) (ctx : Context) (input : GoMap F) → Announces c (Runner.run w r ctx input)
  unfolding Runner.run
  run-Announces (http_request r) ctx input = run_http_request-Announces r ctx input
  run-Announces (transform r) ctx input = search (announce_rules, unless_done-Announces)
  run-Announces (delay r) ctx input = search announce_rules
  run-Announces (condition r) ctx input = search (announce_rules, unless_done-Announces)
  run-Announces (send_email r) ctx input = search (announce_rules, unless_done-Announces)
  run-Announces (ai_task r) ctx input = run_ai_task-Announces r ctx input

  pub attempt_step-Announces :
      (factory : RunnerFactory) (step : StepDef F) (channel : String) (ctx : Context)
      (input : GoMap F)
      → Announces c (attempt_step w factory step channel ctx input)
  unfolding attempt_step
  attempt_step-Announces factory step channel ctx input =
      elim (Result-cases (Runner.new w.float factory step channel)) [
        | inl (r, e) ↦ rw (e, attempt_step) (run-Announces r ctx input)
        | inr (m, e) ↦ rw (e, attempt_step) (search announce_rules)
      ]
