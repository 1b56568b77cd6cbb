-- ===== src/Engine/Runner/Ai.antt =====
-- execution-engine/internal/runner/ai_runner.go: a prompt is rendered and sent to a model service;
-- each token that streams in is published on the workflow's channel and added to the output.
use workflow_automation_go_z.Common.{
  String, Bool, true, false, ◌&&◌, ◌||◌, not, Option, none, some, List, [], ◌∷◌, ℤ, pos, str_eq,
  if◌then◌else◌, ◌<>◌, pure, ask, tell, ◌>>=◌, ◌>>◌, Result, ok, err,
}
use workflow_automation_go_z.Json.{string_member, boolean_member}
use workflow_automation_go_z.Value.{
  Value, GoMap, float64, int, int64, string, lookup, get_string, single,
}
use workflow_automation_go_z.Engine.Outside.{
  Context, M, Float64, World, ModelRequest, Delta, publish, anthropic_stream, openai_stream,
}
use workflow_automation_go_z.Engine.Runner.Simple.{or_default, render}

-- `rdb` says whether the Redis client is there.
pub record AiTaskRunner : Type 0 where
  pub provider : String
  pub model : String
  pub prompt_tmpl : String
  pub max_tokens : ℤ
  pub anthropic_key : String
  pub openai_key : String
  pub rdb : Bool
  pub stream_chan : String
  pub step_id : String

pub record AiTokenEvent : Type 0 where
  pub type : String
  pub step_id : String
  pub token : String
  pub finished : Bool

unfoldable pub encode_token_event : AiTokenEvent → String
unfolding string_member boolean_member
encode_token_event e =
    "{"
    <> string_member "type" e.type
    <> ","
    <> string_member "stepId" e.step_id
    <> ","
    <> string_member "token" e.token
    <> ","
    <> boolean_member "finished" e.finished
    <> "}"

unfoldable pub publish_token : AiTaskRunner → String → Bool → M (Unit {0})
unfolding encode_token_event
publish_token r token finished =
    if not r.rdb || str_eq r.stream_chan ""
    then pure tt
    else tell (
        publish r.stream_chan (
          encode_token_event (record {
            type = "ai_token";
            step_id = r.step_id;
            token = token;
            finished = finished;
          })))

-- One round of the loop over the Anthropic stream; `out` is the string builder.
unfoldable pub read_delta : AiTaskRunner → Delta → String → M String
unfolding publish_token
read_delta r d out =
    if str_eq d.type "text_delta" && not (str_eq d.text "")
    then (do publish_token r d.text false; pure (out <> d.text))
    else pure out

unfoldable pub read_deltas : AiTaskRunner → List Delta → String → M String
unfolding read_delta
read_deltas r [] out = pure out
read_deltas r (d ∷ ds) out = do out' ← read_delta r d out; read_deltas r ds out'

-- One round of the loop over the OpenAI stream. A chunk is the contents of its choices, of which
-- the first is read.
unfoldable pub read_chunk : AiTaskRunner → List String → String → M String
unfolding publish_token
read_chunk r [] out = pure out
read_chunk r (token ∷ _) out =
    if not (str_eq token "")
    then (do publish_token r token false; pure (out <> token))
    else pure out

unfoldable pub read_chunks : AiTaskRunner → List (List String) → String → M String
unfolding read_chunk
read_chunks r [] out = pure out
read_chunks r (c ∷ cs) out = do out' ← read_chunk r c out; read_chunks r cs out'

module _ {F : Type 0} where
  -- The type switch on `cfg["maxTokens"]`.
  abbrev tokens_of : Float64 F → Option (Value F) → ℤ
  tokens_of fl (some (float64 n)) = fl.to_int64 n
  tokens_of fl (some (int n)) = n
  tokens_of fl (some (int64 n)) = n
  tokens_of fl _ = pos 500

  unfoldable pub new_ai_task_runner :
      Float64 F → GoMap F → String → String → Bool → String → String → Result AiTaskRunner
  unfolding get_string lookup
  new_ai_task_runner fl cfg anthropic_key openai_key rdb stream_chan step_id =
      let provider = or_default (get_string cfg "provider") "anthropic" in
      let model =
        or_default (get_string cfg "model")
          (if str_eq provider "openai" then "gpt-4o" else "claude-sonnet-4-6") in
      let prompt = get_string cfg "prompt" in
      if str_eq prompt ""
      then err "ai_task: missing prompt"
      else ok (record {
        provider = provider;
        model = model;
        prompt_tmpl = prompt;
        max_tokens = tokens_of fl (lookup cfg "maxTokens");
        anthropic_key = anthropic_key;
        openai_key = openai_key;
        rdb = rdb;
        stream_chan = stream_chan;
        step_id = step_id;
      })

  -- What both services do once the stream has ended.
  unfoldable pub finish_stream :
      AiTaskRunner → String → Option String → String → M (Result (GoMap F))
  unfolding publish_token
  finish_stream r service (some e) out = pure (err (service <> " stream: " <> e))
  finish_stream r service none out = do
    publish_token r "" true
    pure (ok (single "output" (string out)))

module _ {F : Type 0} (w : World F) where
  unfoldable pub run_anthropic : AiTaskRunner → String → M (Result (GoMap F))
  unfolding read_deltas finish_stream
  run_anthropic r prompt = do
    let req : ModelRequest = record {
      api_key = r.anthropic_key;
      model = r.model;
      max_tokens = r.max_tokens;
      prompt = prompt;
    }
    stream ← ask (anthropic_stream req) (λ t. w.stream_anthropic t req)
    out ← read_deltas r stream.items ""
    finish_stream r "anthropic" stream.error out

  unfoldable pub run_openai : AiTaskRunner → String → M (Result (GoMap F))
  unfolding read_chunks finish_stream
  run_openai r prompt = do
    let req : ModelRequest = record {
      api_key = r.openai_key;
      model = r.model;
      max_tokens = r.max_tokens;
      prompt = prompt;
    }
    stream ← ask (openai_stream req) (λ t. w.stream_openai t req)
    out ← read_chunks r stream.items ""
    finish_stream r "openai" stream.error out

  unfoldable pub run_ai_task : AiTaskRunner → Context → GoMap F → M (Result (GoMap F))
  unfolding render run_anthropic run_openai
  run_ai_task r ctx input = elim (render w r.prompt_tmpl input) [
    | err e ↦ pure (err ("ai_task: render prompt: " <> e))
    | ok prompt ↦ if str_eq r.provider "openai" then run_openai r prompt else run_anthropic r prompt
  ]
