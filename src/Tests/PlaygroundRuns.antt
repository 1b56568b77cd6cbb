-- ===== src/Tests/PlaygroundRuns.antt =====
-- The fan-out of the playground, where the third of its goroutines has sent its result.
use workflow_automation_go_z.Common.{ℕ, ◌≤◌, none, [], ◌∷◌, map, refl, ◌⊎◌, arith, length}
use mathlib.Core.List.{Perm}
use workflow_automation_go_z.Playground.{World, http_step, transform_step}
use workflow_automation_go_z.Playground.FanOut.{
  FanOut, runners, Step, send, Reached, first, later, result_of, ok_line, fan_out-prints,
}

abbrev terse : World ℕ
terse = record { done = λ t. none; sprint = λ m. "map[...]" }

abbrev one_sent : FanOut ℕ
one_sent = record {
  running =
      ("step1", http_step "https://api.example.com/users")
      ∷ ("step2", http_step "https://api.example.com/products")
      ∷ ("step4", http_step "https://api.example.com/orders")
      ∷ ("step5", transform_step "report")
      ∷ [];
  channel = result_of terse ("step3", transform_step "summary") ∷ [];
  printed = [];
}

sent : Reached terse 5 runners one_sent
sent = later first (
    send
      (("step1", http_step "https://api.example.com/users")
        ∷ ("step2", http_step "https://api.example.com/products")
        ∷ [])
      ("step3", transform_step "summary")
      (("step4", http_step "https://api.example.com/orders")
        ∷ ("step5", transform_step "report")
        ∷ [])
      refl (omega arith))

fan_out-prints_example :
    (length one_sent.channel ≤ 5)
    × (((t : FanOut ℕ) × Step terse 5 one_sent t)
        ⊎ Perm one_sent.printed (map (ok_line terse) runners))
fan_out-prints_example = fan_out-prints terse runners sent
