-- ===== src/Engine/Server/Views.antt =====
-- What a trace of the engine shows of the database: the step logs that it creates and the statuses
-- that it writes, in order.
use workflow_automation_go_z.Common.{ℕ, String, List, [], ◌∷◌, refl}
use workflow_automation_go_z.Engine.Outside.{
  StepLog, Call, create_step_log, update_status, update_finished,
}
use workflow_automation_go_z.Engine.Runner.Quiet.{HidesRunners}

abbrev pub log_view : Call → List StepLog
log_view (create_step_log l) = l ∷ []
log_view _ = []

-- The id of an execution and the status written for it.
abbrev pub status_view : Call → List (ℕ × String)
status_view (update_status id s) = (id, s) ∷ []
status_view (update_finished id s at) = (id, s) ∷ []
status_view _ = []

pub log_view-HidesRunners : HidesRunners log_view
log_view-HidesRunners = record {
  on_publish = λ c p. refl;
  on_context_done = λ c. refl;
  on_wait = λ d c. refl;
  on_do_request = λ r. refl;
  on_print = λ l. refl;
  on_anthropic = λ r. refl;
  on_openai = λ r. refl;
}

pub status_view-HidesRunners : HidesRunners status_view
status_view-HidesRunners = record {
  on_publish = λ c p. refl;
  on_context_done = λ c. refl;
  on_wait = λ d c. refl;
  on_do_request = λ r. refl;
  on_print = λ l. refl;
  on_anthropic = λ r. refl;
  on_openai = λ r. refl;
}
