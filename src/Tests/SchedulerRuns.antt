-- ===== src/Tests/SchedulerRuns.antt =====
-- A schedule that fires at every minute, and a check of one workflow that has it.
use workflow_automation_go_z.Common.{
  ℕ, ◌+◌, ◌*◌, ◌/◌, ◌%◌, true, some, [], ◌∷◌, ◌++◌, map, ◌≡◌, refl, ◌↔◌, collect, arith,
}
use workflow_automation_go_z.Scheduler.{minute, Workflow, World, is_due, check_and_trigger}
use workflow_automation_go_z.Scheduler.Due.{IsSchedule, is_due_iff, is_due-never_fires}
use workflow_automation_go_z.Scheduler.Triggers.{
  created_view, published_view, due, pending, messages, check_minute, check_and_trigger-creates,
  check_and_trigger-publishes, answers, begun,
}

-- `* * * * *`
abbrev pub every_minute : ℕ → ℕ
every_minute t = (t / minute + 1) * minute

abbrev FiresEveryMinute : ℕ → Type 0
FiresEveryMinute t = t % minute ≡ 0

every_minute-IsSchedule : IsSchedule every_minute FiresEveryMinute
every_minute-IsSchedule = record {
  on_minute = λ t f. f;
  next_fires = λ t. omega arith;
  next_later = λ t. omega arith;
  next_least = λ t f h whole. omega arith;
}

is_due_iff_example : (is_due every_minute (5 * minute) ≡ true) ↔ FiresEveryMinute (5 * minute)
is_due_iff_example =
    is_due_iff every_minute FiresEveryMinute every_minute-IsSchedule (5 * minute) (omega arith) refl

is_due-never_fires_example : is_due (λ t. 0) (5 * minute) ≡ true
is_due-never_fires_example = is_due-never_fires (λ t. 0) (5 * minute) (λ t. refl)

abbrev pub minutely : Workflow
minutely = record { id = 7; trigger_config = "{\"cron\":\"* * * * *\"}" }

-- One workflow is scheduled, and its inserts get the id 3.
abbrev pub schedule_world : World
schedule_world = record {
  scheduled = λ t. some (minutely ∷ []);
  clock = λ t. 90000000000;
  create = λ t e. some 3;
  decode_config = λ s. some "* * * * *";
  parse_standard = λ s. some every_minute;
}

check_and_trigger-creates_example :
    collect created_view (check_and_trigger schedule_world []).1
    ≡ collect created_view []
      ++ map pending
          (due schedule_world (check_minute schedule_world [] (minutely ∷ []) refl) (minutely ∷ []))
check_and_trigger-creates_example = check_and_trigger-creates schedule_world [] (minutely ∷ []) refl

check_and_trigger-publishes_example :
    let at = check_minute schedule_world [] (minutely ∷ []) refl in
    collect published_view (check_and_trigger schedule_world []).1
    ≡ collect published_view []
      ++ messages
          (due schedule_world at (minutely ∷ []))
          (answers schedule_world at (minutely ∷ []) (begun schedule_world [] (minutely ∷ []) refl))
check_and_trigger-publishes_example =
    check_and_trigger-publishes schedule_world [] (minutely ∷ []) refl
