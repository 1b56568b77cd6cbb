-- ===== src/System/Lifecycle/Once.antt =====
-- No execution runs twice as long as no settlement of a delivery and no answer of the engine is lost.
use mathlib.Core.Path.{subst}
use workflow_automation_go_z.Common.{
  ℕ, String, true, false, Option, List, ◌≡◌, ◌∙◌, ◌≢◌, [], ◌∷◌, ◌++◌, sym, inl, inr, arith,
}
use workflow_automation_go_z.Queue.{ExecutionMessage}
use workflow_automation_go_z.Engine.Runner.{RunnerFactory}
use workflow_automation_go_z.Worker
use workflow_automation_go_z.System.State.{System, Broker, start}
use workflow_automation_go_z.System.Lifecycle.{Step, trigger, check, settle, lose}
use workflow_automation_go_z.System.Lifecycle.Inv.{Readable, Inv, Announcing}
use workflow_automation_go_z.System.Lifecycle.Born.{triggered-keeps}
use workflow_automation_go_z.System.Lifecycle.Scheduled.{checked-keeps}
use workflow_automation_go_z.System.Lifecycle.Settling.{settles}
use workflow_automation_go_z.System.Lifecycle.Reach.{Step-Inv}
use workflow_automation_go_z.System.Lifecycle.Copies.{
  AtMostOneRun, Once, start-Once, announced-Once, taken, fewer-Once, requeued_copies, ran-Once,
}

true_not_false : true ≢ false
true_not_false e = cc

-- The steps that lose no settlement, and no answer of the engine on its way to the worker.
module _ (F : Type 0) (broker : Broker) (factory : RunnerFactory)
    (decode : String → Option ExecutionMessage) where
  abbrev pub Keeps : {s t : System} → Step broker F factory decode s t → Type 0
  Keeps (lose _ _ _ _ _ _ _) = ⊥
  Keeps (settle own _ _ _ _ _ _) =
      (t : List Worker.Call) (r : Worker.RunExecutionReq) → own.engine_fails t r ≡ false
  Keeps _ = Unit

  -- Reached without a settlement or an answer that was lost.
  pub data ReachedSafely : System → Type 0 where
    first : ReachedSafely start
    then_step :
        {s t : System}
        → ReachedSafely s
        → (step : Step broker F factory decode s t) → Keeps step
        → ReachedSafely t

  module _ (readable : Readable decode) where
    announcing : Announcing decode broker (Once decode)
    announcing = record {
      announced = λ s once room failed body names.
          announced-Once decode s once broker room failed body names;
    }

    Step-Once :
        (s t : System) (step : Step broker F factory decode s t)
        → Keeps step
        → Once decode s
        → Once decode t
    Step-Once s _ (trigger fault rest req) kept once =
        triggered-keeps decode readable broker (Once decode) announcing s once fault rest req
    Step-Once s _ (check fault rest) kept once =
        checked-keeps decode readable broker (Once decode) announcing s fault rest once
    Step-Once s _ (settle own w keep xs d ys queue) answered once =
        let inv =
          Step-Inv F broker factory decode readable s _ once.inv
            (settle own w keep xs d ys queue) in
        elim (settles F broker factory decode own w keep s once.inv xs d ys queue) [
          | inl (count, eq) ↦ subst (Once decode) (sym eq) (
              fewer-Once decode s once xs d ys queue (xs ++ ys) (d.body ∷ s.given_up)
                (subst (Inv decode) eq inv)
                (λ n. omega (arith, taken decode s once xs d ys queue n)))
          | inr (inl (few, eq)) ↦ subst (Once decode) (sym eq) (
              fewer-Once decode s once xs d ys queue (xs ++ (ys ++ broker.redelivery.again d ∷ []))
                s.given_up (subst (Inv decode) eq inv)
                (requeued_copies decode s once xs d ys queue (broker.redelivery.again d)
                  (broker.redelivery.keeps_body d)))
          | inr (inr (few, id, status, names, there, ended, inl (u, r, lost, eq))) ↦
              absurd (true_not_false (sym lost ∙ answered u r))
          | inr (inr (few, id, status, names, there, ended, inr eq)) ↦
              subst (Once decode) (sym eq) (
                ran-Once decode s once xs d ys queue id status names ended there keep _
                  (subst (Inv decode) eq inv))
        ]
    Step-Once s _ (lose own w keep xs d ys queue) kept once = absurd kept

    Reached-Once : {s : System} → ReachedSafely s → Once decode s
    Reached-Once first = start-Once decode
    Reached-Once (then_step {s} {t} r step kept) = Step-Once s t step kept (Reached-Once r)

    -- Where the workers' decoder reads back the id of an encoded message: as long as no settlement
    -- of a delivery is lost, and no call of the engine fails once the engine has returned, the rows
    -- show at most one run of each execution: in every state so reached an execution that is there
    -- is pending, or one run has written "running" and how it ended after "pending", less those of
    -- the two that the database refused. Reads, inserts, status writes and publications may fail,
    -- and so may a call that the engine answers with an error.
    pub Reached-AtMostOneRun :
        {s : System} → ReachedSafely s → (n : ℕ) → s.rows n ≢ [] → AtMostOneRun (s.rows n)
    Reached-AtMostOneRun r = (Reached-Once r).runs
