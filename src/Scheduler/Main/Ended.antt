-- ===== src/Scheduler/Main/Ended.antt =====
-- How the process of the scheduler ends.
use mathlib.Core.Path.{subst}
use workflow_automation_go_z.Common.{
  ℕ, String, Option, List, [], ◌∷◌, ◌++◌, map, embed, ◌>>=◌, ◌≡◌, refl, sym, ◌⊎◌, inl, inr,
  Result-cases, Option-cases, collect, collect-append, append-nil, append_assoc,
}
use workflow_automation_go_z.Amqp as Amqp
use workflow_automation_go_z.Scheduler
use workflow_automation_go_z.Scheduler.Main.{
  Config, Call, read_file, open_db, connection, scheduler, notify, stop, print, fatal, World,
  run_and_close, init_scheduler, connect, main,
}

abbrev pub run_view : Call → List Scheduler.Call
run_view (scheduler c) = c ∷ []
run_view _ = []

connection-quiet : (u : List Amqp.Call) → collect run_view (map connection u) ≡ []
connection-quiet [] = refl
connection-quiet (c ∷ u) = connection-quiet u

module _ (w : World) (ticks : ℕ) where
  -- What is called after the calls `t` of a start that has gone well.
  abbrev pub run_calls : List Call → List Call
  run_calls t =
      map scheduler (Scheduler.run (w.running t) ticks []).1
      ++ print "scheduler stopped"
        ∷ stop
        ∷ connection Amqp.close_channel
        ∷ connection Amqp.close_connection
        ∷ []

  abbrev pub Ends : List Call → Type 0
  Ends r =
      ((t : List Call) × (m : String) × (r ≡ t ++ fatal m ∷ []) × (collect run_view t ≡ []))
      ⊎ ((t : List Call) × (r ≡ t ++ run_calls t) × (collect run_view t ≡ []))

  run-Ends : (t : List Call) → collect run_view t ≡ [] → Ends (run_and_close w ticks t).1
  unfolding run_and_close embed ◌>>=◌
  run-Ends t quiet =
      inr (t ++ notify ∷ [], simp append_assoc, simp (collect-append, append-nil, quiet))

  connect-Ends :
      (cfg : Config) (t : List Call) → collect run_view t ≡ [] → Ends (connect w ticks cfg t).1
  unfolding connect init_scheduler embed ◌>>=◌
  connect-Ends cfg t quiet =
      let t' = t ++ open_db cfg.dsn ∷ [] in
      let opened : collect run_view t' ≡ [] = simp (collect-append, append-nil, quiet) in
      elim (Option-cases (w.open_error cfg.dsn)) [
        | inr (e, bad) ↦ rw bad (inl (t', _, refl, opened))
        | inl fine ↦
            let r = Scheduler.new (w.broker t') cfg.rabbitmq_url [] in
            let made : collect run_view (t' ++ map connection r.1) ≡ [] =
              simp (collect-append, append-nil, connection-quiet, quiet) in
            let ends =
              λ (o : Option String). Ends (init_scheduler w ticks o (t' ++ map connection r.1)).1 in
            rw fine (elim (Option-cases r.0) [
              | inr (e, bad) ↦ subst ends (sym bad) (inl (t' ++ map connection r.1, _, refl, made))
              | inl good ↦ subst ends (sym good) (run-Ends (t' ++ map connection r.1) made)
            ])
      ]

  -- The process of the scheduler ends by an error of its start, before it has read a workflow; or it
  -- runs once, and then the last calls close its channel and its connection, in this order.
  pub main-Ends : (config_file : String) → Ends (main w ticks config_file []).1
  unfolding main ◌>>=◌
  main-Ends config_file = elim (Result-cases (w.read config_file)) [
    | inr (e, bad) ↦ rw bad (inl (read_file config_file ∷ [], _, refl, refl))
    | inl (text, good) ↦ elim (Result-cases (w.decode_config text)) [
      | inr (e, bad) ↦ rw good (rw bad (inl (read_file config_file ∷ [], _, refl, refl)))
      | inl (cfg, decoded) ↦
          rw good (rw decoded (connect-Ends cfg (read_file config_file ∷ []) refl))
    ]
  ]
