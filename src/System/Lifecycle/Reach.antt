-- ===== src/System/Lifecycle/Reach.antt =====
-- Every reachable state of the program: no execution is lost, and each one lives as it should.
use workflow_automation_go_z.Common.{Bool, ℕ, String, Option, List, [], ◌∷◌, ◌++◌, ◌≡◌, ◌≢◌, ◌⊎◌}
use workflow_automation_go_z.Queue.{ExecutionMessage}
use workflow_automation_go_z.Engine.Outside as Engine
use workflow_automation_go_z.Engine.Runner.{RunnerFactory}
use workflow_automation_go_z.Worker
use workflow_automation_go_z.Worker.{Delivery, death_count, at_least}
use workflow_automation_go_z.System.State.{System, Broker}
use workflow_automation_go_z.System.Lifecycle.{
  Step, trigger, check, settle, lose, Reachable, first, then_step, handled,
}
use workflow_automation_go_z.System.Lifecycle.Inv.{
  Readable, Waits, Over, Inv, Announcing, start-Inv, announced-Inv,
}
use workflow_automation_go_z.System.Lifecycle.Settling.{
  Settled, settles, Settled-Inv, unsettled-Inv,
}
use workflow_automation_go_z.System.Lifecycle.Born.{triggered-keeps}
use workflow_automation_go_z.System.Lifecycle.Scheduled.{checked-keeps}

module _ (F : Type 0) (broker : Broker) (factory : RunnerFactory)
    (decode : String → Option ExecutionMessage) where
  module _ (readable : Readable decode) where
    announcing : Announcing decode broker (Inv decode)
    announcing = record {
      announced =
          λ s inv room failed body names. announced-Inv decode s inv room broker failed body names;
    }

    pub Step-Inv : (s t : System) → Inv decode s → Step broker F factory decode s t → Inv decode t
    Step-Inv s _ inv (trigger fault rest req) =
        triggered-keeps decode readable broker (Inv decode) announcing s inv fault rest req
    Step-Inv s _ inv (check fault rest) =
        checked-keeps decode readable broker (Inv decode) announcing s fault rest inv
    Step-Inv s _ inv (settle own w keep xs d ys queue) =
        Settled-Inv F broker factory decode own w keep s inv xs d ys queue _
          (settles F broker factory decode own w keep s inv xs d ys queue)
    Step-Inv s _ inv (lose own w keep xs d ys queue) =
        unsettled-Inv F broker factory decode own w keep s inv xs d ys queue

    pub Reachable-Inv : {s : System} → Reachable broker F factory decode s → Inv decode s
    Reachable-Inv first = start-Inv decode
    Reachable-Inv (then_step {s} {t} r step) = Step-Inv s t (Reachable-Inv r) step

    module _ {s : System} (reach : Reachable broker F factory decode s) where
      -- No execution is lost in silence, where the workers' decoder reads back the id of an encoded
      -- message: in every reachable state, an execution whose last status is not "success" or
      -- "failed" has a message in the run queue, or its message was given up: it was not published,
      -- or a worker dropped it after the last retry, or acknowledged it after a run of which the
      -- database refused a status. This holds whichever reads, inserts, status writes, publications
      -- and settlements fail, and whether the call of the engine fails before it runs or after.
      pub Reachable-Waits :
          (n : ℕ) → s.rows n ≢ [] → Over (s.rows n) ⊎ Waits decode s.queue s.given_up n
      Reachable-Waits = (Reachable-Inv reach).waits

      -- Where the workers' decoder reads back the id of an encoded message: the handling of any
      -- delivery of the queue of a reachable state, with any of its two status writes refused, ends
      -- in one of four ways. A message that has died three times is dropped, and no row changes. Or
      -- it has died less often, comes again, and no row changes. Or it has died less often, and the
      -- one execution that it names, which is there, has run: "running" and how the run ended are
      -- written, as far as the database takes them, and the message is acknowledged, or it comes
      -- again because the answer of the engine was lost. It is never acknowledged because it cannot
      -- be read, nor because its execution is missing.
      pub Reachable-Settled :
          (own : Worker.World) (w : Engine.World F) (keep : ℕ → Bool) (xs : List Delivery)
          (d : Delivery) (ys : List Delivery)
          → s.queue ≡ xs ++ d ∷ ys
          → Settled F broker factory decode own keep s xs d ys
              (handled broker F factory decode own w d s keep xs ys)
      Reachable-Settled own w keep xs d ys queue =
          settles F broker factory decode own w keep s (Reachable-Inv reach) xs d ys queue
