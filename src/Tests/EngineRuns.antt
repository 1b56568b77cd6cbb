-- ===== src/Tests/EngineRuns.antt =====
-- A run of two steps, of which the second fails, and runs whose records are missing.
use workflow_automation_go_z.Common.{
  ℤ, negsuc, ℕ, String, true, none, some, List, [], ◌∷◌, ◌++◌, map, ◌>>=◌, ◌==◌, if◌then◌else◌, pos,
  ltb, ◌*◌, ◌≡◌, refl, collect, Result, ok, err, length,
}
use workflow_automation_go_z.Value.{string, single, end, GoMap}
use workflow_automation_go_z.Engine.Outside.{Workflow, Execution, StepLog, request, StepDef, World}
use workflow_automation_go_z.Engine.Runner
use workflow_automation_go_z.Engine.Runner.{RunnerFactory}
use workflow_automation_go_z.Engine.Runner.Simple.{render}
use workflow_automation_go_z.Engine.Runner.Ai.{AiTaskRunner, run_ai_task}
use workflow_automation_go_z.Engine.Runner.Tokens.{
  publish_view, announced, partial, reply, result_of, last_event, run_ai_task-streams,
}
use workflow_automation_go_z.Engine.Runner.Required.{
  succeeds, gives_required, required, step_types, new-required,
}
use workflow_automation_go_z.Engine.Server.{
  RunExecutionReq, RunExecutionResp, Client, run_execution, stream_execution, run_steps, run_loop,
  do_step, attempt_step, finished_event, steps_of,
}
use workflow_automation_go_z.Engine.Server.Views.{log_view}
use workflow_automation_go_z.Engine.Server.Logs.{Executed}
use workflow_automation_go_z.Engine.Server.Remote.{run_execution-Executed}
use workflow_automation_go_z.Engine.Server.Streaming.{
  event_of, trace-stream_execution, events-stream_execution,
}

abbrev pub greet : StepDef ℕ
greet = record { id = "greet"; type = "transform"; config = single "template" (string "hello") }

abbrev broken : StepDef ℕ
broken = record { id = "broken"; type = "condition"; config = single "field" (string "a") }

abbrev pub greeting : Workflow
greeting = record {
  id = 7;
  name = "greeting";
  user_id = 1;
  trigger_type = "manual";
  trigger_config = "{}";
  steps = "[...]";
  is_active = true;
}

abbrev pub queued : Execution
queued = record {
  id = 3;
  workflow_id = 7;
  status = "pending";
  started_at = 0;
  finished_at = none;
  trigger_payload = "{}";
}

-- The workflow 7 and the execution 3 are there; nothing else is.
abbrev pub small_world : World ℕ
small_world = record {
  float = record {
    one = 1;
    second = 1000000000;
    mul = λ a b. a * b;
    lt = λ a b. ltb a b;
    to_int64 = λ a. pos a;
    parse = λ s. 0;
  };
  load_workflow = λ t id. workflow_at id;
  load_execution = λ t id. execution_at id;
  clock = λ t. 1000000 * length t;
  context_error = λ t ctx. none;
  timer = λ t d ctx. none;
  request_error = λ r. none;
  respond = λ t r. err "refused";
  template_error = λ s. none;
  execute_template = λ s input. ok s;
  decode_steps = λ s. ok (greet ∷ broken ∷ []);
  decode_any = λ s. none;
  encode_map = λ m. encoded m;
  sprint = λ v. "";
  sprint_quoted = λ s. s;
  stream_anthropic = λ t r. record {
    items =
        record { type = "text_delta"; text = "All " }
        ∷ record { type = "text_delta"; text = "well" }
        ∷ [];
    error = none;
  };
  stream_openai = λ t r. record { items = []; error = none };
}
  where
    workflow_at : ℤ → Result Workflow
    workflow_at (pos n) = if n == 7 then ok greeting else err "record not found"
    workflow_at (negsuc n) = err "record not found"

    execution_at : ℤ → Result Execution
    execution_at (pos n) = if n == 3 then ok queued else err "record not found"
    execution_at (negsuc n) = err "record not found"

    encoded : GoMap ℕ → String
    encoded none = "null"
    encoded (some _) = "{...}"

abbrev pub keys : RunnerFactory
keys = record { anthropic_api_key = "a"; openai_api_key = "o"; rdb = true }

abbrev pub run_queued : RunExecutionReq
run_queued = record { execution_id = pos 3; workflow_id = pos 7; trigger_payload = "{}" }

abbrev run_missing : RunExecutionReq
run_missing = record { execution_id = pos 4; workflow_id = pos 7; trigger_payload = "{}" }

-- A client that takes every event.
abbrev listener : Client
listener = record { send_error = λ sent e. none }

run_execution-Executed_example :
    (ls : List StepLog) × (resp : RunExecutionResp) × ((run_execution small_world keys run_queued
        []).0
      ≡ ok resp)
    × (collect log_view (run_execution small_world keys run_queued []).1
        ≡ collect log_view [] ++ ls)
    × Executed small_world keys queued greeting request
        (steps_of small_world keys greeting)
        (some end)
        ls
        (resp.status, resp.error)
run_execution-Executed_example =
    run_execution-Executed small_world keys run_queued [] greeting queued refl refl

trace-stream_execution_example :
    (stream_execution small_world keys listener run_queued []).1
    ≡ (run_execution small_world keys run_queued []).1
trace-stream_execution_example = trace-stream_execution small_world keys listener run_queued []

events-stream_execution_example :
    (ls : List StepLog) × (resp : RunExecutionResp) × ((run_execution small_world keys run_queued
        []).0
      ≡ ok resp)
    × (collect log_view (run_execution small_world keys run_queued []).1
        ≡ collect log_view [] ++ ls)
    × ((stream_execution small_world keys listener run_queued []).0.1
        ≡ map event_of ls ++ finished_event resp.status resp.error ∷ [])
events-stream_execution_example =
    events-stream_execution small_world keys listener run_queued [] greeting queued refl refl

abbrev summarize : AiTaskRunner
summarize = record {
  provider = "anthropic";
  model = "m";
  prompt_tmpl = "Summarize";
  max_tokens = pos 500;
  anthropic_key = "a";
  openai_key = "o";
  rdb = true;
  stream_chan = "executions:7";
  step_id = "summary";
}

run_ai_task-streams_example :
    let (tokens, error) = reply small_world summarize "Summarize" [] in
    ((run_ai_task small_world summarize request (some end) []).0
      ≡ result_of {F = ℕ} small_world summarize tokens error)
    × (collect publish_view (run_ai_task small_world summarize request (some end) []).1
        ≡ collect publish_view []
          ++ announced summarize (map partial tokens ++ last_event small_world summarize error))
unfolding render
run_ai_task-streams_example =
    run_ai_task-streams small_world summarize request (some end) [] "Summarize" refl

new-required_example :
    succeeds (Runner.new small_world.float keys broken "executions:7")
    ≡ gives_required broken.config (required "condition" step_types)
new-required_example = new-required small_world.float keys broken "executions:7"

-- The run of the small world: the first step succeeds, the second fails.
small_run :
    (run_execution small_world keys run_queued []).0
    ≡ ok (record { status = "failed"; error = "condition: missing field or operator" })
unfolding run_execution run_steps run_loop do_step attempt_step Runner.new Runner.run ◌>>=◌
small_run = refl
