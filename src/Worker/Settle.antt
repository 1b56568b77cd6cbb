-- ===== src/Worker/Settle.antt =====
-- How `handle` settles a delivery, and when it calls the engine.
use workflow_automation_go_z.Common.{
  Bool, true, false, none, some, List, [], ◌∷◌, ◌++◌, ◌≡◌, refl, ap, ◌∙◌, ◌↔◌, ◌⊎◌, inl, inr,
  collect, collect-append, append-nil, ◌>>=◌, Bool-cases, Option-cases, arith, if◌then◌else◌,
}
use workflow_automation_go_z.Queue.{ExecutionMessage, max_retries}
use workflow_automation_go_z.Worker.{
  Delivery, RunExecutionReq, Loaded, found, record_not_found, db_error, Call, ack, nack,
  first_execution, run_execution, World, death_count, at_least, request_of, handle,
}

-- How deliveries were settled: `true` for an Ack, `false` for a Nack.
abbrev pub settle_view : Call → List Bool
settle_view (ack _) = true ∷ []
settle_view (nack _) = false ∷ []
settle_view _ = []

abbrev pub dispatch_view : Call → List RunExecutionReq
dispatch_view (run_execution r) = r ∷ []
dispatch_view _ = []

abbrev pub settle : Delivery → Bool → Call
settle d true = ack d
settle d false = nack d

pub Loaded-cases : (l : Loaded) → (l ≡ found) ⊎ ((l ≡ record_not_found) ⊎ (l ≡ db_error))
Loaded-cases found = inl refl
Loaded-cases record_not_found = inr (inl refl)
Loaded-cases db_error = inr (inr refl)

module _ (w : World) (d : Delivery) (t : List Call) where
  -- The trace in front of the engine's call, and in front of the settlement after it.
  abbrev pub loaded_trace : ExecutionMessage → List Call
  loaded_trace msg = t ++ first_execution msg.execution_id ∷ []

  abbrev pub called_trace : ExecutionMessage → List Call
  called_trace msg = loaded_trace msg ++ run_execution (request_of msg) ∷ []

  -- Why a delivery is handed back: it has retries left and a message, and the database fails to
  -- load the execution, or it is found and the engine fails.
  abbrev pub Requeued : Type 0
  Requeued =
      (at_least (death_count d.headers) max_retries ≡ false)
      × (msg : ExecutionMessage) × (w.decode_message d.body ≡ some msg)
      × ((w.load_execution t msg.execution_id ≡ db_error)
          ⊎ ((w.load_execution t msg.execution_id ≡ found)
              × (w.engine_fails (loaded_trace msg) (request_of msg) ≡ true)))

  -- The same for a call of the engine.
  abbrev pub Dispatched : ExecutionMessage → Type 0
  Dispatched msg =
      (at_least (death_count d.headers) max_retries ≡ false)
      × (w.decode_message d.body ≡ some msg)
      × (w.load_execution t msg.execution_id ≡ found)

  -- The five ways through `handle`.
  pub handle-exhausted :
      at_least (death_count d.headers) max_retries ≡ true → (handle w d t).1 ≡ t ++ ack d ∷ []
  unfolding handle ◌>>=◌
  handle-exhausted e = rw e

  pub handle-malformed :
      at_least (death_count d.headers) max_retries ≡ false
      → w.decode_message d.body ≡ none
      → (handle w d t).1 ≡ t ++ ack d ∷ []
  unfolding handle ◌>>=◌
  handle-malformed e m = rw (e, m)

  module _ (msg : ExecutionMessage) (left : at_least (death_count d.headers) max_retries ≡ false)
      (decoded : w.decode_message d.body ≡ some msg) where
    pub handle-not_found :
        w.load_execution t msg.execution_id ≡ record_not_found
        → (handle w d t).1 ≡ loaded_trace msg ++ ack d ∷ []
    unfolding handle ◌>>=◌
    handle-not_found l = rw (left, decoded, l)

    pub handle-db_error :
        w.load_execution t msg.execution_id ≡ db_error
        → (handle w d t).1 ≡ loaded_trace msg ++ nack d ∷ []
    unfolding handle ◌>>=◌
    handle-db_error l = rw (left, decoded, l)

    pub handle-found :
        w.load_execution t msg.execution_id ≡ found
        → (handle w d t).1
          ≡ called_trace msg
            ++ (if w.engine_fails (loaded_trace msg) (request_of msg) then nack d else ack d) ∷ []
    unfolding handle ◌>>=◌
    handle-found l =
        rw (left, decoded, l)
          (elim (Bool-cases (w.engine_fails (loaded_trace msg) (request_of msg))) [
            | inl e ↦ rw e
            | inr e ↦ rw e
          ])

  module _ (msg : ExecutionMessage) (left : at_least (death_count d.headers) max_retries ≡ false)
      (decoded : w.decode_message d.body ≡ some msg) where
    -- The two traces show nothing of a settlement.
    loaded-settled : collect settle_view (loaded_trace msg) ≡ collect settle_view t
    loaded-settled = simp (collect-append, append-nil)

    called-settled : collect settle_view (called_trace msg) ≡ collect settle_view t
    called-settled = simp (collect-append, append-nil)

    decoded-settles :
        (acked : Bool) × (u : List Call) × ((handle w d t).1 ≡ u ++ settle d acked ∷ [])
        × (collect settle_view u ≡ collect settle_view t)
        × ((acked ≡ false) ↔ Requeued)
    decoded-settles = elim (Loaded-cases (w.load_execution t msg.execution_id)) [
      | inl f ↦ elim (Bool-cases (w.engine_fails (loaded_trace msg) (request_of msg))) [
        | inl e ↦ (
          false,
          called_trace msg,
          handle-found msg left decoded f ∙ rw e,
          called-settled,
          (λ h. (left, msg, decoded, inr (f, e)), λ r. refl),
        )
        | inr e ↦ (
          true,
          called_trace msg,
          handle-found msg left decoded f ∙ rw e,
          called-settled,
          (λ h. cc, λ r. ground arith),
        )
      ]
      | inr (inl n) ↦ (
        true,
        loaded_trace msg,
        handle-not_found msg left decoded n,
        loaded-settled,
        (λ h. cc, λ r. ground arith),
      )
      | inr (inr b) ↦ (
        false,
        loaded_trace msg,
        handle-db_error msg left decoded b,
        loaded-settled,
        (λ h. (left, msg, decoded, inl b), λ r. refl),
      )
    ]

    decoded-dispatches :
        ((collect dispatch_view (handle w d t).1 ≡ collect dispatch_view t)
          × ((m : ExecutionMessage) → ¬ Dispatched m))
        ⊎ ((collect dispatch_view (handle w d t).1 ≡ collect dispatch_view t ++ request_of msg ∷ [])
            × Dispatched msg)
    decoded-dispatches = elim (Loaded-cases (w.load_execution t msg.execution_id)) [
      | inl f ↦ inr (
        ap (collect dispatch_view) (handle-found msg left decoded f)
            ∙ elim (Bool-cases (w.engine_fails (loaded_trace msg) (request_of msg))) [
              | inl e ↦ rw e (simp (collect-append, append-nil))
              | inr e ↦ rw e (simp (collect-append, append-nil))
            ],
        (left, decoded, f),
      )
      | inr (inl n) ↦ inl (
        ap (collect dispatch_view) (handle-not_found msg left decoded n)
            ∙ simp (collect-append, append-nil),
        λ m h. ground arith,
      )
      | inr (inr b) ↦ inl (
        ap (collect dispatch_view) (handle-db_error msg left decoded b)
            ∙ simp (collect-append, append-nil),
        λ m h. ground arith,
      )
    ]

  -- A delivery is settled once, and this is the last call that is made for it. It is a Nack exactly
  -- where the delivery has retries left, its body decodes, and either the database fails to load the
  -- execution, or the execution is found and the engine's call fails.
  pub handle-settles :
      (acked : Bool) × (u : List Call) × ((handle w d t).1 ≡ u ++ settle d acked ∷ [])
      × (collect settle_view u ≡ collect settle_view t)
      × ((acked ≡ false) ↔ Requeued)
  handle-settles = elim (Bool-cases (at_least (death_count d.headers) max_retries)) [
    | inl e ↦ (true, t, handle-exhausted e, refl, (λ h. cc, λ r. cc))
    | inr left ↦ elim (Option-cases (w.decode_message d.body)) [
      | inl m ↦ (true, t, handle-malformed left m, refl, (λ h. cc, λ r. cc))
      | inr (msg, m) ↦ decoded-settles msg left m
    ]
  ]

  -- What the engine is asked between the traces `t` and `r`: nothing where there is nothing to ask for
  -- this delivery, and the request of its message otherwise.
  abbrev pub Requests : List Call → Type 0
  Requests r =
      ((collect dispatch_view r ≡ collect dispatch_view t)
        × ((m : ExecutionMessage) → ¬ Dispatched m))
      ⊎ ((msg : ExecutionMessage) × (collect dispatch_view r
            ≡ collect dispatch_view t ++ request_of msg ∷ [])
          × Dispatched msg)

  -- The engine is called at most once for a delivery, with the ids and the payload of its message,
  -- and exactly where the delivery has retries left, its body decodes and the execution is found.
  pub handle-dispatches :
      ((collect dispatch_view (handle w d t).1 ≡ collect dispatch_view t)
        × ((m : ExecutionMessage) → ¬ Dispatched m))
      ⊎ ((msg : ExecutionMessage) × (collect dispatch_view (handle w d t).1
            ≡ collect dispatch_view t ++ request_of msg ∷ [])
          × Dispatched msg)
  handle-dispatches = elim (Bool-cases (at_least (death_count d.headers) max_retries)) [
    | inl e ↦ inl (
      ap (collect dispatch_view) (handle-exhausted e) ∙ simp (collect-append, append-nil),
      λ m h. cc,
    )
    | inr left ↦ elim (Option-cases (w.decode_message d.body)) [
      | inl m ↦ inl (
        ap (collect dispatch_view) (handle-malformed left m) ∙ simp (collect-append, append-nil),
        λ n h. cc,
      )
      | inr (msg, m) ↦ elim (decoded-dispatches msg left m) [
        | inl r ↦ inl r
        | inr (eq, h) ↦ inr (msg, eq, h)
      ]
    ]
  ]
