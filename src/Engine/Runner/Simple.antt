-- ===== src/Engine/Runner/Simple.antt =====
-- The step runners without streaming: http_runner.go, transform_runner.go, delay_runner.go,
-- condition_runner.go and email_runner.go of execution-engine/internal/runner.
-- A `new_` function is the constructor of a runner, a `run_` function its method `Run`.
use workflow_automation_go_z.Common.{
  String, Bool, not, ◌||◌, Option, none, some, ℤ, pos, str_eq, if◌then◌else◌, ◌<>◌, pure, ask, tell,
  ◌>>=◌, ◌>>◌, Result, ok, err,
}
use workflow_automation_go_z.Value.{
  Value, GoMap, boolean, float64, int, string, object, nil_object, index, get_string, single, pair,
}
use workflow_automation_go_z.Engine.Outside.{
  Context, HttpRequest, HttpResponse, M, Float64, World, context_done, wait, do_request, print,
}

pub record HttpRequestRunner : Type 0 where
  pub url : String
  pub method : String
  pub body : String

pub record TransformRunner : Type 0 where
  pub tmpl : String
  pub output_key : String

-- A duration is an int64 of nanoseconds.
pub record DelayRunner : Type 0 where
  pub duration : ℤ

pub record ConditionRunner : Type 0 where
  pub field : String
  pub operator : String
  pub value : String

pub record SendEmailRunner : Type 0 where
  pub to : String
  pub subject : String
  pub body : String

-- `if s == "" { s = d }`
abbrev pub or_default : String → String → String
or_default s d = if str_eq s "" then d else s

unfoldable pub build_request : HttpRequestRunner → HttpRequest
build_request r = record {
  method = r.method;
  url = r.url;
  body = r.body;
  content_type = if str_eq r.body "" then none else some "application/json";
}

module _ {F : Type 0} where
  -- A map as a value of type `any`.
  abbrev pub map_value : GoMap F → Value F
  map_value none = nil_object
  map_value (some fs) = object fs

  unfoldable pub new_http_request_runner : GoMap F → Result HttpRequestRunner
  unfolding get_string
  new_http_request_runner cfg =
      let url = get_string cfg "url" in
      if str_eq url ""
      then err "http_request: missing url"
      else ok (record {
        url = url;
        method = or_default (get_string cfg "method") "GET";
        body = get_string cfg "body";
      })

  unfoldable pub new_transform_runner : GoMap F → Result TransformRunner
  unfolding get_string
  new_transform_runner cfg =
      let tmpl = get_string cfg "template" in
      if str_eq tmpl ""
      then err "transform: missing template"
      else ok
          (record { tmpl = tmpl; output_key = or_default (get_string cfg "outputKey") "result" })

  abbrev seconds_of : Float64 F → Value F → F
  seconds_of fl (float64 s) = s
  seconds_of fl _ = fl.one

  unfoldable pub new_delay_runner : Float64 F → GoMap F → Result DelayRunner
  unfolding index
  new_delay_runner fl cfg =
      ok
        (record { duration = fl.to_int64 (fl.mul (seconds_of fl (index cfg "seconds")) fl.second) })

  unfoldable pub new_condition_runner : GoMap F → Result ConditionRunner
  unfolding get_string
  new_condition_runner cfg =
      let name = get_string cfg "field" in
      let operator = get_string cfg "operator" in
      if str_eq name "" || str_eq operator ""
      then err "condition: missing field or operator"
      else ok (record { field = name; operator = operator; value = get_string cfg "value" })

  unfoldable pub new_send_email_runner : GoMap F → Result SendEmailRunner
  unfolding get_string
  new_send_email_runner cfg =
      let to = get_string cfg "to" in
      if str_eq to ""
      then err "send_email: missing to"
      else ok (record { to = to; subject = get_string cfg "subject"; body = get_string cfg "body" })

module _ {F : Type 0} (w : World F) where
  -- A body that is not JSON is kept as text.
  unfoldable pub parse_body : String → Value F
  parse_body raw = elim (w.decode_any raw) [ none ↦ string raw | some v ↦ v ]

  unfoldable pub receive : HttpRequestRunner → Result HttpResponse → Result (GoMap F)
  unfolding parse_body
  receive r (err e) = err ("http " <> r.method <> " " <> r.url <> ": " <> e)
  receive r (ok resp) =
      ok (pair "status" (int (pos resp.status_code)) "body" (parse_body resp.body))

  unfoldable pub run_http_request : HttpRequestRunner → Context → GoMap F → M (Result (GoMap F))
  unfolding build_request receive
  run_http_request r ctx input = elim (w.request_error (build_request r)) [
    | some e ↦ pure (err ("create request: " <> e))
    | none ↦ do
      resp ← ask (do_request (build_request r)) (λ t. w.respond t (build_request r))
      pure (receive r resp)
  ]

  -- `select { case <-ctx.Done(): return nil, ctx.Err(); default: }` in front of `rest`
  unfoldable pub unless_done : Context → M (Result (GoMap F)) → M (Result (GoMap F))
  unless_done ctx rest = do
    stopped ← ask (context_done ctx) (λ t. w.context_error t ctx)
    elim stopped [ some e ↦ pure (err e) | none ↦ rest ]

  -- `template.New(name).Parse(tmpl)` and `Execute`, with the messages of both uses
  unfoldable pub render : String → GoMap F → Result String
  render tmpl input = elim (w.template_error tmpl) [
    | some e ↦ err ("parse template: " <> e)
    | none ↦ elim (w.execute_template tmpl input) [
      | err e ↦ err ("execute template: " <> e)
      | ok text ↦ ok text
    ]
  ]

  abbrev pub under_key : String → Result String → Result (GoMap F)
  under_key key (err e) = err e
  under_key key (ok text) = ok (single key (string text))

  unfoldable pub run_transform : TransformRunner → Context → GoMap F → M (Result (GoMap F))
  unfolding unless_done render
  run_transform r ctx input = unless_done ctx (pure (under_key r.output_key (render r.tmpl input)))

  unfoldable pub run_delay : DelayRunner → Context → GoMap F → M (Result (GoMap F))
  run_delay r ctx input = do
    stopped ← ask (wait r.duration ctx) (λ t. w.timer t r.duration ctx)
    pure (elim stopped [ none ↦ ok input | some e ↦ err ("delay interrupted: " <> e) ])

  -- The `switch` on the operator; `none` is its default case.
  unfoldable pub compare_values : ConditionRunner → String → Option Bool
  compare_values r actual =
      let less = λ (a b : String). w.float.lt (w.float.parse a) (w.float.parse b) in
      if str_eq r.operator "eq" || str_eq r.operator "=="
      then some (str_eq actual r.value)
      else if str_eq r.operator "neq" || str_eq r.operator "!="
      then some (not (str_eq actual r.value))
      else if str_eq r.operator "gt" || str_eq r.operator ">"
      then some (less r.value actual)
      else if str_eq r.operator "lt" || str_eq r.operator "<"
      then some (less actual r.value)
      else none

  unfoldable pub run_condition : ConditionRunner → Context → GoMap F → M (Result (GoMap F))
  unfolding unless_done compare_values index
  run_condition r ctx input = unless_done ctx (
      pure (elim (compare_values r (w.sprint (index input r.field))) [
        | none ↦ err ("condition: unknown operator " <> w.sprint_quoted r.operator)
        | some result ↦ ok (pair "condition" (boolean result) "input" (map_value input))
      ]))

  unfoldable pub run_send_email : SendEmailRunner → Context → GoMap F → M (Result (GoMap F))
  unfolding unless_done
  run_send_email r ctx input = unless_done ctx do
    tell (
        print (
          "[EMAIL] to="
          <> r.to
          <> " subject="
          <> w.sprint_quoted r.subject
          <> " body="
          <> w.sprint_quoted r.body
          <> "\n"))
    pure (ok (pair "sent" (boolean Bool.true) "to" (string r.to)))
