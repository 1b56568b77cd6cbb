-- ===== src/Engine/Runner/Required.antt =====
-- Which steps the factory makes a runner for.
use workflow_automation_go_z.Common.{
  String, Bool, true, false, not, ◌&&◌, Option, none, some, List, [], ◌∷◌, ◌≡◌, str_eq,
  if◌then◌else◌, Result, ok, err, arith,
}
use workflow_automation_go_z.Value.{GoMap, get_string}
use workflow_automation_go_z.Engine.Outside.{StepDef, Float64}
use workflow_automation_go_z.Engine.Runner
use workflow_automation_go_z.Engine.Runner.{StepRunner, RunnerFactory}
use workflow_automation_go_z.Engine.Runner.Simple.{
  new_http_request_runner, new_transform_runner, new_delay_runner, new_condition_runner,
  new_send_email_runner,
}
use workflow_automation_go_z.Engine.Runner.Ai.{new_ai_task_runner}

-- The step types, each with the texts that its configuration has to give.
abbrev pub step_types : List (String × List String)
step_types =
    ("http_request", "url" ∷ [])
    ∷ ("transform", "template" ∷ [])
    ∷ ("delay", [])
    ∷ ("condition", "field" ∷ "operator" ∷ [])
    ∷ ("send_email", "to" ∷ [])
    ∷ ("ai_task", "prompt" ∷ [])
    ∷ []

abbrev pub required : String → List (String × List String) → Option (List String)
required type [] = none
required type ((name, fields) ∷ rest) = if str_eq type name then some fields else required type rest

abbrev pub succeeds : {A : Type 0} → Result A → Bool
succeeds (ok a) = true
succeeds (err e) = false

module _ {F : Type 0} where
  abbrev pub gives_all : GoMap F → List String → Bool
  gives_all cfg [] = true
  gives_all cfg (k ∷ ks) = not (str_eq (get_string cfg k) "") && gives_all cfg ks

  abbrev pub gives_required : GoMap F → Option (List String) → Bool
  gives_required cfg none = false
  gives_required cfg (some fields) = gives_all cfg fields

  -- The factory makes a runner exactly for the six step types, where the configuration gives every
  -- text that the type requires, none of them empty.
  pub new-required :
      (fl : Float64 F) (f : RunnerFactory) (step : StepDef F) (channel : String)
      → succeeds (Runner.new fl f step channel)
        ≡ gives_required step.config (required step.type step_types)
  unfolding Runner.new new_http_request_runner new_transform_runner new_delay_runner
      new_condition_runner new_send_email_runner new_ai_task_runner
  new-required fl f step channel = ground arith
