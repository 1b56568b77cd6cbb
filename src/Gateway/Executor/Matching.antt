-- ===== src/Gateway/Executor/Matching.antt =====
-- The step runners of the gateway against those of the execution engine.
use workflow_automation_go_z.Common.{
  String, Bool, true, false, ◌||◌, ◌≡◌, refl, ap, str_eq, if◌then◌else◌, ◌>>=◌, pure, Result, ok,
  err, Bool-cases, Option-cases, Result-cases, inl, inr,
}
use workflow_automation_go_z.Value.{GoMap, get_string}
use workflow_automation_go_z.Engine.Outside.{Context, StepDef, World, Float64, M, Trace}
use workflow_automation_go_z.Engine.Runner
use workflow_automation_go_z.Engine.Runner.{RunnerFactory}
use workflow_automation_go_z.Engine.Runner.Simple
use workflow_automation_go_z.Gateway.Executor.Runners
use workflow_automation_go_z.Gateway.Executor.Runners.{
  StepRunner, http_request, transform, delay, condition, send_email, new_step_runner, run, wrap,
}

-- The same runner in the engine.
abbrev pub engine_runner : StepRunner → Runner.StepRunner
engine_runner (http_request r) =
    Runner.http_request (record { url = r.url; method = r.method; body = r.body })
engine_runner (transform r) = Runner.transform (record { tmpl = r.tmpl; output_key = r.output_key })
engine_runner (delay r) = Runner.delay (record { duration = r.duration })
engine_runner (condition r) =
    Runner.condition (record { field = r.field; operator = r.operator; value = r.value })
engine_runner (send_email r) =
    Runner.send_email (record { to = r.to; subject = r.subject; body = r.body })

abbrev pub engine_result : Result StepRunner → Result Runner.StepRunner
engine_result (ok r) = ok (engine_runner r)
engine_result (err e) = err e

module _ {F : Type 0} (w : World F) where
  text-same :
      (r : Runners.TransformRunner) (input : GoMap F)
      → Simple.under_key w r.output_key (Simple.render w r.tmpl input)
        ≡ Runners.execute_text w r input
  unfolding Simple.render Runners.execute_text
  text-same r input = elim (Option-cases (w.template_error r.tmpl)) [
    | inr (e, bad) ↦ rw (bad, Runners.execute_text, Simple.render) refl
    | inl fine ↦ elim (Result-cases (w.execute_template r.tmpl input)) [
      | inl (text, done) ↦ rw (fine, done, Runners.execute_text, Simple.render) refl
      | inr (e, bad) ↦ rw (fine, bad, Runners.execute_text, Simple.render) refl
    ]
  ]

  transform-same :
      (r : Runners.TransformRunner) (ctx : Context) (input : GoMap F) (t : Trace)
      → Simple.run_transform w (record { tmpl = r.tmpl; output_key = r.output_key }) ctx input t
        ≡ Runners.run_transform w r ctx input t
  unfolding Simple.run_transform Runners.run_transform Simple.unless_done Runners.unless_done ◌>>=◌
  transform-same r ctx input t =
      ap (λ (x : Result (GoMap F)). Simple.unless_done w ctx (pure x) t) (text-same r input)

  run-same :
      (r : StepRunner) (ctx : Context) (input : GoMap F) (t : Trace)
      → Runner.run w (engine_runner r) ctx input t ≡ run w r ctx input t
  unfolding Runner.run run Simple.run_http_request Runners.run_http_request Simple.build_request
      Runners.build_request Simple.receive Runners.receive Simple.parse_body Runners.parse_body
      Simple.run_transform Runners.run_transform Simple.unless_done Runners.unless_done
      Simple.render Runners.execute_text Simple.run_delay Runners.run_delay Simple.run_condition
      Runners.run_condition Simple.compare_values Runners.compare_values Simple.run_send_email
      Runners.run_send_email
  run-same (http_request r) ctx input t = refl
  run-same (transform r) ctx input t = transform-same r ctx input t
  run-same (delay r) ctx input t = refl
  run-same (condition r) ctx input t = refl
  run-same (send_email r) ctx input t = refl

module _ {F : Type 0} (fl : Float64 F) where
  http_request-wrapped :
      (cfg : GoMap F)
      → Runner.wrap Runner.http_request (Simple.new_http_request_runner cfg)
        ≡ engine_result (wrap http_request (Runners.new_http_request_runner cfg))
  unfolding Simple.new_http_request_runner Runners.new_http_request_runner
  http_request-wrapped cfg = elim (Bool-cases (str_eq (get_string cfg "url") "")) [
    | inl e ↦ rw e refl
    | inr e ↦ rw e refl
  ]

  transform-wrapped :
      (cfg : GoMap F)
      → Runner.wrap Runner.transform (Simple.new_transform_runner cfg)
        ≡ engine_result (wrap transform (Runners.new_transform_runner cfg))
  unfolding Simple.new_transform_runner Runners.new_transform_runner
  transform-wrapped cfg = elim (Bool-cases (str_eq (get_string cfg "template") "")) [
    | inl e ↦ rw e refl
    | inr e ↦ rw e refl
  ]

  delay-wrapped :
      (cfg : GoMap F)
      → Runner.wrap Runner.delay (Simple.new_delay_runner fl cfg)
        ≡ engine_result (wrap delay (Runners.new_delay_runner fl cfg))
  unfolding Simple.new_delay_runner Runners.new_delay_runner
  delay-wrapped cfg = refl

  condition-wrapped :
      (cfg : GoMap F)
      → Runner.wrap Runner.condition (Simple.new_condition_runner cfg)
        ≡ engine_result (wrap condition (Runners.new_condition_runner cfg))
  unfolding Simple.new_condition_runner Runners.new_condition_runner
  condition-wrapped cfg =
      elim (Bool-cases
        (str_eq (get_string cfg "field") "" || str_eq (get_string cfg "operator") "")) [
          | inl e ↦ rw e refl
          | inr e ↦ rw e refl
        ]

  send_email-wrapped :
      (cfg : GoMap F)
      → Runner.wrap Runner.send_email (Simple.new_send_email_runner cfg)
        ≡ engine_result (wrap send_email (Runners.new_send_email_runner cfg))
  unfolding Simple.new_send_email_runner Runners.new_send_email_runner
  send_email-wrapped cfg = elim (Bool-cases (str_eq (get_string cfg "to") "")) [
    | inl e ↦ rw e refl
    | inr e ↦ rw e refl
  ]

  choose :
      (b : Bool) (x y : Result Runner.StepRunner) (x' y' : Result StepRunner)
      → x ≡ engine_result x'
      → y ≡ engine_result y'
      → (if b then x else y) ≡ engine_result (if b then x' else y')
  choose true x y x' y' e f = e
  choose false x y x' y' e f = f

  -- Of a step that is no AI task.
  pub new-same :
      (f : RunnerFactory) (step : StepDef F) (channel : String)
      → str_eq step.type "ai_task" ≡ false
      → Runner.new fl f step channel ≡ engine_result (new_step_runner fl step)
  unfolding Runner.new new_step_runner
  new-same f step channel e =
      choose (str_eq step.type "http_request") _ _ _ _ (http_request-wrapped step.config) (
        choose (str_eq step.type "transform") _ _ _ _ (transform-wrapped step.config) (
          choose (str_eq step.type "delay") _ _ _ _ (delay-wrapped step.config) (
            choose (str_eq step.type "condition") _ _ _ _ (condition-wrapped step.config) (
              choose (str_eq step.type "send_email") _ _ _ _ (send_email-wrapped step.config)
                (rw e refl)))))

module _ {F : Type 0} (w : World F) where
  pub run_result-same :
      (r : Result StepRunner) (ctx : Context) (input : GoMap F) (t : Trace)
      → elim (engine_result r) as (λ _. M (Result (GoMap F))) [
        | err e ↦ pure (err e)
        | ok r ↦ Runner.run w r ctx input
      ]
          t
        ≡ elim r as (λ _. M (Result (GoMap F))) [ err e ↦ pure (err e) | ok r ↦ run w r ctx input ]
            t
  run_result-same (ok r) ctx input t = run-same w r ctx input t
  run_result-same (err e) ctx input t = refl
