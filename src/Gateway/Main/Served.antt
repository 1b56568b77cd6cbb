-- ===== src/Gateway/Main/Served.antt =====
-- What the gateway does between its start and its end, or how its start ends before it serves.
use mathlib.Core.Path.{subst}
use workflow_automation_go_z.Common.{
  ℤ, Bool, true, false, some, err, ℕ, String, Option, none, List, [], ◌∷◌, ◌++◌, map, Action, ok,
  embed, ◌>>=◌, ◌≡◌, refl, sym, ap, ◌∙◌, ◌⊎◌, inl, inr, Option-cases, Result-cases, collect,
  collect-append, collect-snoc_quiet, append-nil, append_assoc,
}
use workflow_automation_go_z.Amqp as Amqp
use workflow_automation_go_z.Queue
use workflow_automation_go_z.Worker.Start as Workers
use workflow_automation_go_z.Worker.Start.{consumer_view, from, rounds, Refusal, start-cases}
use workflow_automation_go_z.Gateway.Handlers.{Route, public_routes, protected_routes}
use workflow_automation_go_z.Gateway.Main.{
  Config, Call, load_config, new_server, open_db, auto_migrate, new_redis, new_engine, publisher,
  workers, add_routes, fetch_keys, print, serve, fatal, World, pool, warning, greeting, must, warn,
  connect_engine, new_service_context, add_handlers, start_workers, serve_until_stopped, main,
}

-- What matters to a client: routes, each with its method, its path and whether a token is required,
-- consumers, what is printed, and serving.
pub data Shown : Type 0 where
  routes : List (String × String × Bool) → Shown
  consumer : ℕ → Shown
  printed : String → Shown
  serves : String → ℤ → Shown

abbrev row_of : Route → String × String × Bool
row_of r = (r.method, r.path, r.with_jwt)

abbrev pub shown : Call → List Shown
shown (add_routes rs) = routes (map row_of rs) ∷ []
shown (workers (Workers.go_consume i)) = consumer i ∷ []
shown (print s) = printed s ∷ []
shown (serve host port) = serves host port ∷ []
shown _ = []

shown-workers :
    (u : List Workers.Call) → collect shown (map workers u) ≡ map consumer (collect consumer_view u)
shown-workers [] = refl
shown-workers (Workers.go_consume i ∷ u) = ap (λ l. consumer i ∷ l) (shown-workers u)
shown-workers (Workers.dial url ∷ u) = shown-workers u
shown-workers (Workers.open_channel i ∷ u) = shown-workers u
shown-workers (Workers.qos i n ∷ u) = shown-workers u
shown-workers (Workers.close_channel i ∷ u) = shown-workers u
shown-workers (Workers.close_connection ∷ u) = shown-workers u
shown-workers (Workers.go_close ∷ u) = shown-workers u

shown-publisher : (u : List Amqp.Call) → collect shown (map publisher u) ≡ []
shown-publisher [] = refl
shown-publisher (c ∷ u) = shown-publisher u

-- The routes for everyone, and those that require a token.
abbrev pub open_routes : List (String × String × Bool)
open_routes =
    ("GET", "/health", false)
    ∷ ("POST", "/auth/login", false)
    ∷ ("POST", "/webhooks/:workflowId", false)
    ∷ ("GET", "/executions/:id/stream", false)
    ∷ []

abbrev pub token_routes : List (String × String × Bool)
token_routes =
    ("GET", "/workflows", true)
    ∷ ("POST", "/workflows", true)
    ∷ ("GET", "/workflows/:id", true)
    ∷ ("PUT", "/workflows/:id", true)
    ∷ ("DELETE", "/workflows/:id", true)
    ∷ ("GET", "/workflows/:workflowId/executions", true)
    ∷ ("GET", "/executions/:id", true)
    ∷ []

-- What is shown of a gateway that serves with these consumers, or with these and a warning.
abbrev pub served : Config → List ℕ → List Shown → List Shown
served c consumers warned =
    routes open_routes
    ∷ routes token_routes
    ∷ (map consumer consumers ++ (warned ++ printed (greeting c) ∷ serves c.host c.port ∷ []))

module _ (w : World) where
  -- The process ended before anything was shown, at a call that came to an error or because there
  -- is no publisher.
  abbrev pub Ended : Config → List Call → Type 0
  Ended c r =
      (u : List Call) × (m : String) × (r ≡ u ++ fatal m ∷ [])
      × (collect shown u ≡ [])
      × (((t : List Call) × (call : Call) × (e : String) × (w.call_error t call ≡ some e)
            × (u ≡ t ++ call ∷ []))
          ⊎ ((t : List Call) × (e : String) × ((Queue.new (w.broker t) c.rabbitmq_url []).0
                ≡ some e)))

  -- The gateway served: with all its consumers where their start came to no error, and otherwise,
  -- where a call of the start came to an error, with a warning of the error and those that were
  -- started by then.
  abbrev pub Running : Config → List Call → Type 0
  Running c r =
      (t : List Call) × (let p = Workers.start (w.worker_broker t) (pool c) [] in
        ((p.0 ≡ none) × (collect shown r ≡ served c (from 0 (rounds c.worker_count)) []))
        ⊎ ((e : String) × (p.0 ≡ some e)
            × Refusal (w.worker_broker t) p.1
            × (collect shown r ≡ served c (collect consumer_view p.1) (printed (warning e) ∷ []))))

  abbrev pub Outcome : Config → List Call → Type 0
  Outcome c r = Ended c r ⊎ Running c r

  must-Outcome :
      (cfg : Config) (c : Call) (prefix : String) (rest : Action Call (Unit {0})) (t : List Call)
      → shown c ≡ []
      → collect shown t ≡ []
      → ((u : List Call) → collect shown u ≡ [] → Outcome cfg (rest u).1)
      → Outcome cfg (must w c prefix rest t).1
  unfolding must ◌>>=◌
  must-Outcome cfg c prefix rest t quiet none_yet goes = elim (Option-cases (w.call_error t c)) [
    | inr (e, bad) ↦ rw bad (
        inl (
          t ++ c ∷ [],
          _,
          refl,
          collect-snoc_quiet shown t c quiet ∙ none_yet,
          inl (t, c, e, bad, refl),
        ))
    | inl fine ↦ rw fine (goes (t ++ c ∷ []) (collect-snoc_quiet shown t c quiet ∙ none_yet))
  ]

  -- What `main` does once the service context is there.
  abbrev rest : Config → Action Call (Unit {0})
  rest c = add_handlers w c >>= λ _. start_workers w c >>= λ _. serve_until_stopped w c

  module _ (c : Config) (t : List Call) (none_yet : collect shown t ≡ []) where
    abbrev routed : List Call
    routed =
        ((t ++ add_routes public_routes ∷ []) ++ fetch_keys c.jwks_url ∷ [])
        ++ add_routes protected_routes ∷ []

    abbrev pool_run : Option String × List Workers.Call
    pool_run = Workers.start (w.worker_broker routed) (pool c) []

    -- The calls of `main` from the workers' start on, by the error that it comes to.
    abbrev ran : Option String → List Call
    ran failed =
        ((warn failed >>= λ _. serve_until_stopped w c) (routed ++ map workers pool_run.1)).1

    rest-Outcome : Outcome c (rest c t).1
    unfolding add_handlers start_workers serve_until_stopped embed ◌>>=◌ public_routes
        protected_routes
    rest-Outcome = elim (start-cases (w.worker_broker routed) (pool c)) [
      | inl (fine, all, closed) ↦
          let with_all : collect shown (ran none) ≡ served c (collect consumer_view pool_run.1) [] =
            simp (collect-append, append-nil, append_assoc, none_yet, shown-workers) in
          inr (
            routed,
            inl (
              fine,
              ap (λ failed. collect shown (ran failed)) fine
                  ∙ with_all
                  ∙ ap (λ is. served c is []) all,
            ),
          )
      | inr (e, failed, why, closed) ↦ inr (
        routed,
        inr (
          e,
          failed,
          why,
          ap (λ failed. collect shown (ran failed)) failed
              ∙ simp (collect-append, append-nil, append_assoc, none_yet, shown-workers),
        ),
      )
    ]

  module _ (c : Config) where
    context-Outcome :
        (t : List Call) → collect shown t ≡ [] → Outcome c (new_service_context w c (rest c) t).1
    unfolding new_service_context connect_engine embed ◌>>=◌
    context-Outcome t none_yet =
        must-Outcome c (open_db c.dsn) "failed to connect to database: " _ t refl none_yet (λ u e.
          must-Outcome c auto_migrate "failed to auto migrate: " _ u refl e (λ v e'.
            let v' = v ++ new_redis c.redis_addr ∷ [] in
            let r = Queue.new (w.broker v') c.rabbitmq_url [] in
            let quiet : collect shown (v' ++ map publisher r.1) ≡ [] =
              simp (collect-append, append-nil, shown-publisher, e') in
            let connected = λ (o : Option String).
              Outcome c (connect_engine w c (rest c) o (v' ++ map publisher r.1)).1 in
            elim (Option-cases r.0) [
              | inr (m, bad) ↦
                  subst connected (sym bad)
                    (inl (v' ++ map publisher r.1, _, refl, quiet, inr (v', m, bad)))
              | inl fine ↦ subst connected (sym fine) (
                  must-Outcome c (new_engine c.engine_addr)
                    "failed to connect to execution-engine: " (rest c) _ refl quiet
                    (rest-Outcome c))
            ]))

  -- The start of the gateway ends in one of four ways. The configuration cannot be loaded, and the
  -- process ends with that error. Or a call comes to an error, or the publisher does, and the process
  -- ends before it has a route or a consumer, before it prints and before it serves. Or the four
  -- open routes and the seven that require a token are registered, the workers' start comes to no
  -- error, a consumer is started for each worker, in order, and the server is then run once. Or the
  -- same with a warning, where a call of the workers' start comes to an error: the gateway serves
  -- with the consumers that were started by then.
  pub main-serves :
      (config_file : String)
      → let r = (main w config_file []).1 in
        ((e : String) × (w.load config_file ≡ err e) × (r ≡ load_config config_file ∷ fatal e ∷ []))
        ⊎ ((c : Config) × (w.load config_file ≡ ok c) × (Ended c r ⊎ Running c r))
  unfolding main ◌>>=◌
  main-serves config_file = elim (Result-cases (w.load config_file)) [
    | inr (e, bad) ↦ rw bad (inl (e, refl, refl))
    | inl (c, good) ↦ rw good (
        inr (
          c,
          refl,
          must-Outcome c (new_server c) "" (new_service_context w c (rest c))
              (load_config config_file ∷ []) refl refl (context-Outcome c),
        ))
  ]
