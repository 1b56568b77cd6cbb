-- ===== src/Engine/Main/Served.antt =====
-- What the engine serves with, or how its start ends before.
use workflow_automation_go_z.Common.{
  some, err, true, eq_iff, arith, ◌≢◌, String, List, [], ◌∷◌, ◌++◌, str_eq, ◌<>◌, decimal_int,
  Action, ok, ◌>>=◌, ◌≡◌, refl, sym, ap, ◌∙◌, ◌⊎◌, inl, inr, Option-cases, Result-cases, Bool-cases,
  collect, collect-append, collect-snoc_quiet, append-nil,
}
use workflow_automation_go_z.Engine.Runner.{RunnerFactory}
use workflow_automation_go_z.Engine.Main.{
  Config, Call, read_file, new_exporter, set_tracer_provider, shutdown_tracer, open_db, new_client,
  listen, getenv, serve, fatal, World, must, init_tracer, factory_of, prefer, start_server, connect,
  trace_and_connect, main,
}

abbrev pub serve_view : Call → List RunnerFactory
serve_view (serve f) = f ∷ []
serve_view _ = []

-- The key that is taken: that of the environment, or that of the file where the environment has none.
abbrev pub KeyOf : String → String → String → Type 0
KeyOf env file key = ((env ≢ "") × (key ≡ env)) ⊎ ((env ≡ "") × (key ≡ file))

prefer-KeyOf : (env file : String) → KeyOf env file (prefer env file)
prefer-KeyOf env file = elim (Bool-cases (str_eq env "")) [
  | inl e ↦ inr ((eq_iff env "").0 e, rw e refl)
  | inr e ↦ inl (λ same. ground (arith, (eq_iff env "").1 same), rw e refl)
]

module _ (w : World) where
  -- The process ended before it served, at a call that came to an error.
  abbrev pub Refused : List Call → Type 0
  Refused r =
      (t : List Call) × (c : Call) × (e : String) × (m : String) × (w.call_error t c ≡ some e)
      × (r ≡ (t ++ c ∷ []) ++ fatal m ∷ [])
      × (collect serve_view (t ++ c ∷ []) ≡ [])

  -- It served once, with these keys.
  abbrev pub Served : Config → List Call → Type 0
  Served cfg r =
      (t : List Call) × (f : RunnerFactory) × (collect serve_view r ≡ f ∷ [])
      × KeyOf (w.env t "ANTHROPIC_API_KEY") cfg.anthropic_api_key f.anthropic_api_key
      × KeyOf (w.env (t ++ getenv "ANTHROPIC_API_KEY" ∷ []) "OPENAI_API_KEY") cfg.openai_api_key
          f.openai_api_key
      × (f.rdb ≡ true)

  abbrev pub Outcome : Config → List Call → Type 0
  Outcome cfg r = Refused r ⊎ Served cfg r

  must-Outcome :
      (cfg : Config) (c : Call) (prefix : String) (rest : Action Call (Unit {0})) (t : List Call)
      → serve_view c ≡ []
      → collect serve_view t ≡ []
      → ((u : List Call) → collect serve_view u ≡ [] → Outcome cfg (rest u).1)
      → Outcome cfg (must w c prefix rest t).1
  unfolding must ◌>>=◌
  must-Outcome cfg c prefix rest t quiet none_yet goes = elim (Option-cases (w.call_error t c)) [
    | inr (e, bad) ↦
        rw bad (inl (t, c, e, _, bad, refl, collect-snoc_quiet serve_view t c quiet ∙ none_yet))
    | inl fine ↦ rw fine (goes (t ++ c ∷ []) (collect-snoc_quiet serve_view t c quiet ∙ none_yet))
  ]

  module _ (cfg : Config) (t : List Call) (none_yet : collect serve_view t ≡ []) where
    abbrev with_key : List Call
    with_key = t ++ getenv "ANTHROPIC_API_KEY" ∷ []

    abbrev factory : RunnerFactory
    factory = factory_of w cfg (w.env t "ANTHROPIC_API_KEY") (w.env with_key "OPENAI_API_KEY")

    abbrev served : List Call
    served = (with_key ++ getenv "OPENAI_API_KEY" ∷ []) ++ serve factory ∷ []

    served-once :
        (rest : List Call)
        → collect serve_view rest ≡ []
        → collect serve_view (served ++ rest) ≡ factory ∷ []
    served-once rest e = simp (collect-append, append-nil, none_yet, e)

    factory-keys :
        KeyOf (w.env t "ANTHROPIC_API_KEY") cfg.anthropic_api_key factory.anthropic_api_key
        × KeyOf (w.env with_key "OPENAI_API_KEY") cfg.openai_api_key factory.openai_api_key
        × (factory.rdb ≡ true)
    factory-keys = (prefer-KeyOf _ _, prefer-KeyOf _ _, refl)

    start-Outcome : Outcome cfg (start_server w cfg t).1
    unfolding start_server must ◌>>=◌
    start-Outcome =
        elim (Option-cases
          (w.call_error (with_key ++ getenv "OPENAI_API_KEY" ∷ []) (serve factory))) [
            | inr (e, bad) ↦ rw bad (
                inr (
                  t,
                  factory,
                  served-once (fatal ("serve" <> ": " <> e) ∷ []) refl,
                  factory-keys.0,
                  factory-keys.1,
                  factory-keys.2,
                ))
            | inl fine ↦ elim (Bool-cases (str_eq cfg.jaeger_endpoint "")) [
              | inl off ↦ rw fine (
                  rw off (
                    inr (
                      t,
                      factory,
                      sym (ap (collect serve_view) (append-nil served)) ∙ served-once [] refl,
                      factory-keys.0,
                      factory-keys.1,
                      factory-keys.2,
                    )))
              | inr on ↦ rw fine (
                  rw on (
                    inr (
                      t,
                      factory,
                      served-once (shutdown_tracer ∷ []) refl,
                      factory-keys.0,
                      factory-keys.1,
                      factory-keys.2,
                    )))
            ]
          ]

  connect-Outcome :
      (cfg : Config) (t : List Call) → collect serve_view t ≡ [] → Outcome cfg (connect w cfg t).1
  unfolding connect ◌>>=◌
  connect-Outcome cfg t none_yet =
      must-Outcome cfg (open_db cfg.dsn) "connect db" _ t refl none_yet (λ u e.
        must-Outcome cfg (listen (":" <> decimal_int cfg.port)) "listen" (start_server w cfg)
          (u ++ new_client cfg.redis_addr ∷ []) refl
          (collect-snoc_quiet serve_view u (new_client cfg.redis_addr) refl ∙ e)
          (start-Outcome cfg))

  trace-Outcome :
      (cfg : Config) (t : List Call)
      → collect serve_view t ≡ []
      → Outcome cfg (trace_and_connect w cfg t).1
  unfolding init_tracer ◌>>=◌
  trace-Outcome cfg t none_yet = elim (Bool-cases (str_eq cfg.jaeger_endpoint "")) [
    | inl off ↦ rw off (connect-Outcome cfg t none_yet)
    | inr on ↦
        let c = new_exporter cfg.jaeger_endpoint in
        let quiet = collect-snoc_quiet serve_view t c refl ∙ none_yet in
        elim (Option-cases (w.call_error t c)) [
          | inr (e, bad) ↦ rw on (rw bad (inl (t, c, e, _, bad, refl, quiet)))
          | inl fine ↦ rw on (
              rw fine (
                connect-Outcome cfg ((t ++ c ∷ []) ++ set_tracer_provider ∷ [])
                  (collect-snoc_quiet serve_view (t ++ c ∷ []) set_tracer_provider refl ∙ quiet)))
        ]
  ]

  -- The start of the engine serves at most once. The file cannot be read, or cannot be decoded, and
  -- the process ends with that error. Or a call comes to an error before it serves, and the process
  -- ends at this call. Or it serves once: for each of the two API keys with the value of its own
  -- environment variable, or with its own key of the file where that variable is empty.
  pub main-cases :
      (config_file : String)
      → let r = (main w config_file []).1 in
        ((e : String) × (((w.read [] config_file ≡ err e)
              × (r ≡ read_file config_file ∷ fatal ("read config: " <> e) ∷ []))
            ⊎ ((text : String) × (w.read [] config_file ≡ ok text)
                × (w.decode_config text ≡ err e)
                × (r ≡ read_file config_file ∷ fatal ("parse config: " <> e) ∷ []))))
        ⊎ ((text : String) × (cfg : Config) × (w.read [] config_file ≡ ok text)
            × (w.decode_config text ≡ ok cfg)
            × (Refused r ⊎ Served cfg r))
  unfolding main ◌>>=◌
  main-cases config_file = elim (Result-cases (w.read [] config_file)) [
    | inr (e, bad) ↦ rw bad (inl (e, inl (refl, refl)))
    | inl (text, good) ↦ elim (Result-cases (w.decode_config text)) [
      | inr (e, bad) ↦ rw good (rw bad (inl (e, inr (text, refl, bad, refl))))
      | inl (cfg, decoded) ↦ rw good (
          rw decoded
            (inr (text, cfg, refl, decoded, trace-Outcome cfg (read_file config_file ∷ []) refl)))
    ]
  ]
