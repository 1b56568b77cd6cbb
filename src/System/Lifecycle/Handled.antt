-- ===== src/System/Lifecycle/Handled.antt =====
-- How the handling of a delivery of a sound message ends: what the engine writes and how the worker
-- settles it.
use mathlib.Core.Path.{subst}
use native.Mathlib.Decide.{dec_lt}
use workflow_automation_go_z.Common.{
  ℕ, ◌^◌, ◌<◌, String, Bool, true, false, Option, some, List, [], ◌∷◌, ◌++◌, pos, to_int64, ok,
  Result-cases, collect, ◌≡◌, ◌≢◌, refl, ap, ◌∙◌, ◌⊎◌, inl, inr, arith, Bool-cases,
}
use workflow_automation_go_z.Queue.{ExecutionMessage, max_retries}
use workflow_automation_go_z.Engine.Outside as Engine
use workflow_automation_go_z.Engine.Runner.{RunnerFactory}
use workflow_automation_go_z.Engine.Server
use workflow_automation_go_z.Engine.Server.Views.{status_view}
use workflow_automation_go_z.Engine.Server.Remote.{run_execution-cases, run_execution-statuses}
use workflow_automation_go_z.Worker
use workflow_automation_go_z.Worker.{
  Delivery, Loaded, found, record_not_found, db_error, ack, nack, death_count, at_least, request_of,
  handle,
}
use workflow_automation_go_z.Worker.Settle.{
  loaded_trace, called_trace, Loaded-cases, handle-exhausted, handle-db_error, handle-found,
}
use workflow_automation_go_z.Worker.Retry.{ends_in_ack}
use workflow_automation_go_z.System.Delivery.{received, is_error, engine_trace}
use workflow_automation_go_z.System.State.{System, Broker, born}
use workflow_automation_go_z.System.Lifecycle.{
  found_row, row_state, serve_engine, serve_worker, worker_calls, statuses,
}
use workflow_automation_go_z.System.Lifecycle.Inv.{Ended, Names, Sound, Inv}
use workflow_automation_go_z.System.Lifecycle.Rows.{born_lem}

found_row-id :
    (s : System) (n : ℕ) (e f : Engine.Execution) → found_row s (pos n) e ≡ ok f → f.id ≡ n
found_row-id s n e f h = elim (Bool-cases (born (s.rows n))) [
  | inl there ↦ ground arith
  | inr gone ↦ ground arith
]

module _ (F : Type 0) (broker : Broker) (factory : RunnerFactory)
    (decode : String → Option ExecutionMessage) (own : Worker.World) (w : Engine.World F)
    (s : System) where
  abbrev pub engine : Engine.World F
  engine = serve_engine broker F factory decode w s

  loaded-id :
      (t : Engine.Trace) (n : ℕ) (e : Engine.Execution)
      → engine.load_execution t (pos n) ≡ ok e
      → e.id ≡ n
  loaded-id t n e h = elim (Result-cases (w.load_execution t (pos n))) [
    | inl (row, there) ↦ found_row-id s n row e (rw there at h)
    | inr (m, bad) ↦ ground arith
  ]

  -- What the engine writes for a request for the execution `n`: nothing if the call fails, and the two
  -- statuses of a run if it returns.
  RunEnds : ℕ → Server.RunExecutionReq → Type 0
  RunEnds n req =
      let r = Server.run_execution engine factory req [] in
      ((is_error r.0 ≡ true) × (collect status_view r.1 ≡ []))
      ⊎ ((is_error r.0 ≡ false)
          × (status : String) × Ended status
          × (collect status_view r.1 ≡ (n, "running") ∷ (n, status) ∷ []))

  run-ends : (n : ℕ) (req : Server.RunExecutionReq) → req.execution_id ≡ pos n → RunEnds n req
  unfolding RunEnds
  run-ends n req asked = elim (run_execution-cases engine factory req []) [
    | inl (m, bad, eq) ↦ inl (ap (λ r. is_error r.0) eq, ap (λ r. collect status_view r.1) eq)
    | inr (inl (wf, m, there, bad, eq)) ↦
        inl (ap (λ r. is_error r.0) eq, ap (λ r. collect status_view r.1) eq)
    | inr (inr (wf, row, there, loaded, resp, eq)) ↦
        let (resp', answered, written, ended) =
          run_execution-statuses engine factory req [] wf row there loaded in
        let same : row.id ≡ n = loaded-id (Engine.first_workflow req.workflow_id ∷ []) n row (
          subst (λ i. engine.load_execution (Engine.first_workflow req.workflow_id ∷ []) i ≡ ok row)
            asked loaded) in
        inr (
          ap is_error answered,
          resp'.status,
          ended,
          subst
              (λ k.
                collect status_view (Server.run_execution engine factory req []).1
                ≡ (k, "running") ∷ (k, resp'.status) ∷ [])
              same written,
        )
  ]

  module _ (d : Delivery) where
    abbrev pub calls : List Worker.Call
    calls = worker_calls broker F factory decode own w d s

    abbrev pub written : List (ℕ × String)
    written = statuses broker F factory decode own w d s

    abbrev pub died_out : Bool
    died_out = at_least (death_count d.headers) max_retries

    -- What was asked to be written by a run of the execution that the message names.
    abbrev pub Run : ℕ → String → Type 0
    Run n status =
        Names decode n d.body
        × (s.rows n ≢ [])
        × Ended status
        × (written ≡ (n, "running") ∷ (n, status) ∷ [])

    -- The delivery is dropped after its last retry; or it comes again, and nothing is written, or the
    -- answer of a run was lost; or it is acknowledged after a run of its execution.
    pub data Outcome : Type 0 where
      dropped : died_out ≡ true → ends_in_ack calls ≡ true → written ≡ [] → Outcome
      requeued : died_out ≡ false → ends_in_ack calls ≡ false → written ≡ [] → Outcome
      ran :
          died_out ≡ false
          → ends_in_ack calls ≡ true
          → (n : ℕ) (status : String) → Run n status
          → Outcome
      unanswered :
          died_out ≡ false
          → ends_in_ack calls ≡ false
          → (t : List Worker.Call) (r : Worker.RunExecutionReq) → own.engine_fails t r ≡ true
          → (n : ℕ) (status : String) → Run n status
          → Outcome

    -- The engine behind the worker, for a request that reads the message's id.
    module _ (m : ExecutionMessage) (left : died_out ≡ false) (decoded : decode d.body ≡ some m)
        (there : s.rows m.execution_id ≢ []) where
      abbrev worker : Worker.World
      worker = serve_worker broker F factory decode own w s

      abbrev asked : Server.RunExecutionReq
      asked = received (request_of m)

      abbrev called : List Worker.Call
      called = called_trace worker d [] m

      db_fails : own.load_execution [] m.execution_id ≡ db_error → Outcome
      unfolding engine_trace
      db_fails e =
          let eq = handle-db_error worker d [] m left decoded (rw e refl) in
          requeued left (ap ends_in_ack eq)
            (ap (λ t. collect status_view (engine_trace engine factory [] t)) eq)

      found_here :
          row_state s m.execution_id (own.load_execution [] m.execution_id) ≡ found
          → RunEnds m.execution_id asked
          → Outcome
      unfolding engine_trace RunEnds
      found_here e (inl (fails, quiet)) =
          let eq : calls ≡ called ++ nack d ∷ [] =
            handle-found worker d [] m left decoded e ∙ rw fails refl in
          requeued left (ap ends_in_ack eq)
            (ap (λ t. collect status_view (engine_trace engine factory [] t)) eq ∙ quiet)
      found_here e (inr (fine, status, ended, wrote)) =
          elim (Bool-cases (own.engine_fails (loaded_trace worker d [] m) (request_of m))) [
            | inl lost ↦
                let eq : calls ≡ called ++ nack d ∷ [] =
                  handle-found worker d [] m left decoded e ∙ rw (fine, lost) refl in
                unanswered left (ap ends_in_ack eq) _ _ lost m.execution_id status (
                  (m, decoded, refl),
                  there,
                  ended,
                  ap (λ t. collect status_view (engine_trace engine factory [] t)) eq ∙ wrote,
                )
            | inr got ↦
                let eq : calls ≡ called ++ ack d ∷ [] =
                  handle-found worker d [] m left decoded e ∙ rw (fine, got) refl in
                ran left (ap ends_in_ack eq) m.execution_id status (
                  (m, decoded, refl),
                  there,
                  ended,
                  ap (λ t. collect status_view (engine_trace engine factory [] t)) eq ∙ wrote,
                )
          ]

      row_found : (l : Loaded) → l ≢ db_error → row_state s m.execution_id l ≡ found
      row_found found ne = rw (born_lem _ there) refl
      row_found record_not_found ne = rw (born_lem _ there) refl
      row_found db_error ne = absurd (ne refl)

      outcome_left : m.execution_id < 2 ^ 63 → Outcome
      unfolding request_of to_int64
      outcome_left small =
          let ends = run-ends m.execution_id asked (ground arith) in
          elim (Loaded-cases (own.load_execution [] m.execution_id)) [
            | inl f ↦ found_here (row_found _ (λ e. cc)) ends
            | inr (inl n) ↦ found_here (row_found _ (λ e. cc)) ends
            | inr (inr b) ↦ db_fails b
          ]

    -- The id of an execution that is there is an int64.
    small_id : Inv decode s → (n : ℕ) → s.rows n ≢ [] → n < 2 ^ 63
    small_id inv n there = elim (dec_lt n (2 ^ 63)) [
      | yes h ↦ h
      | no h ↦ absurd (there (inv.unborn n (let l = inv.small in omega arith)))
    ]

    -- Every delivery of the queue has one of these outcomes.
    pub outcome : Inv decode s → Sound decode s.rows d → Outcome
    unfolding engine_trace
    outcome inv (m, decoded, there, k, count, few) = elim (Bool-cases died_out) [
      | inl out ↦
          let eq = handle-exhausted (serve_worker broker F factory decode own w s) d [] out in
          dropped out (ap ends_in_ack eq)
            (ap (λ t. collect status_view (engine_trace engine factory [] t)) eq)
      | inr left ↦ outcome_left m left decoded there (small_id inv m.execution_id there)
    ]
