-- ===== src/Playground.antt =====
-- playground/step_runner_demo.go: a demonstration of step runners. The printing of a map and the order
-- in which goroutines run are parameters; the first demonstration, with its goroutines and its channel,
-- is in Playground/FanOut.
pub mod FanOut
use workflow_automation_go_z.Common.{
  String, Option, none, some, List, [], ◌∷◌, pos, ◌<>◌, Action, pure, ask, tell, ◌>>=◌, ◌>>◌,
}
use workflow_automation_go_z.Value.{GoMap, Fields, int, string, single, end, field}

pub record StepError : Type 0 where
  pub step_id : String
  pub reason : String

-- `Error`
unfoldable pub error : StepError → String
error e = "step " <> e.step_id <> " failed: " <> e.reason

pub data StepRunner : Type 0 where
  http_step : String → StepRunner
  transform_step : String → StepRunner

-- What `Run` returns: a map, or its error, which is always a `*StepError`.
pub data Outcome (F : Type 0) : Type 0 where
  output : GoMap F → Outcome F
  failed : StepError → Outcome F

pub data Call : Type 0 where
  -- the `select` of a runner
  select : Call
  print : String → Call

pub record World (F : Type 0) : Type 0 where
  -- `ctx.Err()` where the context is done when the runner selects
  pub done : List Call → Option String
  -- `fmt.Sprintf("%v", m)`
  pub sprint : GoMap F → String

module _ {F : Type 0} (w : World F) where
  abbrev pub output_of : StepRunner → GoMap F → GoMap F
  output_of (http_step url) input =
      some (field "status" (int (pos 200)) (field "url" (string url) end))
  output_of (transform_step key) input =
      single key (string ("transformed(" <> w.sprint input <> ")"))

  abbrev pub cancelled : StepRunner → String → StepError
  cancelled (http_step url) e = record { step_id = "http"; reason = "context cancelled: " <> e }
  cancelled (transform_step key) e = record { step_id = "transform"; reason = e }

  -- `Run` of the two runners.
  unfoldable pub run : StepRunner → GoMap F → Action Call (Outcome F)
  run r input = do
    ended ← ask select w.done
    pure (elim ended [ some e ↦ failed (cancelled r e) | none ↦ output (output_of r input) ])

  -- The line that `runWithTimeout` prints for what its runner returns.
  unfoldable pub timeout_line : Outcome F → String
  timeout_line (failed e) =
      "  StepError caught — StepID: " <> e.step_id <> ", Reason: " <> e.reason <> "\n"
  timeout_line (output out) = "  Success: " <> w.sprint out <> "\n"

  unfoldable pub run_with_timeout : Action Call (Unit {0})
  unfolding run timeout_line
  run_with_timeout = do
    tell (print "\n=== Demo 2: Context timeout ===\n")
    out ← run (http_step "https://slow-api.example.com") none
    tell (print (timeout_line out))

  -- The loop of `runSequential`: an output is the next input, and the first failure ends it.
  unfoldable pub run_steps : List (String × StepRunner) → GoMap F → Action Call (Unit {0})
  unfolding run error
  run_steps [] input = tell (print "  Workflow completed successfully\n")
  run_steps ((id, r) ∷ rest) input = do
    out ← run r input
    elim out [
      | failed e ↦ tell (print ("  [" <> id <> "] FAILED: " <> error e <> " — stopping workflow\n"))
      | output o ↦ do
        tell (print ("  [" <> id <> "] OK → output: " <> w.sprint o <> "\n"))
        run_steps rest o
    ]

  unfoldable pub run_sequential : Action Call (Unit {0})
  unfolding run_steps
  run_sequential = do
    tell (print "\n=== Demo 3: Sequential steps với done channel ===\n")
    run_steps
        (("fetch-users", http_step "https://api.example.com/users")
          ∷ ("transform", transform_step "processed")
          ∷ ("notify", http_step "https://api.example.com/notify")
          ∷ [])
        (some end)
