-- ===== src/Scheduler/Triggers.antt =====
-- What one check creates and publishes.
use workflow_automation_go_z.Common.{
  ℕ, String, true, false, Option, none, some, List, [], ◌∷◌, ◌++◌, map, ◌≡◌, refl, sym, ap, ◌∙◌,
  inl, inr, collect, collect-append, append-nil, append_assoc, ◌>>=◌, Bool-cases, Quiet,
  quiet_rules, if◌then◌else◌,
}
use workflow_automation_go_z.Amqp
use workflow_automation_go_z.Scheduler.{
  Workflow, Call, find_workflows, now, create_execution, amqp, World, fires, announce, trigger,
  trigger_due, check_and_trigger, truncate, encode_message, exchange, routing_key_run,
  schedule_payload, new_execution,
}

-- The workflow and the status of an execution that is inserted.
abbrev pub created_view : Call → List (ℕ × String)
created_view (create_execution e) = (e.workflow_id, e.status) ∷ []
created_view _ = []

-- The exchange, the routing key and the body of what is published.
abbrev published_of : Amqp.Call → List (String × String × String)
published_of (Amqp.publish x k p) = (x, k, p.body) ∷ []
published_of _ = []

abbrev pub published_view : Call → List (String × String × String)
published_view (amqp c) = published_of c
published_view _ = []

-- The workflows that are due, in their order.
abbrev pub due : World → ℕ → List Workflow → List Workflow
due w at [] = []
due w at (wf ∷ wfs) = if fires w at wf then wf ∷ due w at wfs else due w at wfs

abbrev pub pending : Workflow → ℕ × String
pending wf = (wf.id, "pending")

-- The message that announces an execution with this id.
abbrev pub message_of : Workflow → ℕ → String × String × String
message_of wf id = (
  exchange,
  routing_key_run,
  encode_message
      (record { execution_id = id; workflow_id = wf.id; trigger_payload = schedule_payload }),
)

-- The messages of these workflows, whose inserts came to these ids, or failed.
abbrev pub messages : List Workflow → List (Option ℕ) → List (String × String × String)
messages [] ids = []
messages (wf ∷ wfs) [] = []
messages (wf ∷ wfs) (none ∷ ids) = messages wfs ids
messages (wf ∷ wfs) (some id ∷ ids) = message_of wf id ∷ messages wfs ids

module _ (w : World) where
  announce-creates : (wf : Workflow) (id : Option ℕ) → Quiet created_view (announce w wf id)
  unfolding announce
  announce-creates wf none = search quiet_rules
  announce-creates wf (some id) = search quiet_rules

  -- The trace once the insert of `trigger` has been asked for, and its answer.
  abbrev pub inserted : Workflow → List Call → List Call
  inserted wf t = (t ++ now ∷ []) ++ create_execution (new_execution wf (w.clock t)) ∷ []

  abbrev pub new_id : Workflow → List Call → Option ℕ
  new_id wf t = w.create (t ++ now ∷ []) (new_execution wf (w.clock t))

  trigger-creates :
      (wf : Workflow) (t : List Call)
      → collect created_view (trigger w wf t).1 ≡ collect created_view t ++ pending wf ∷ []
  unfolding trigger ◌>>=◌
  trigger-creates wf t =
      (announce-creates wf (new_id wf t)).at (inserted wf t) ∙ simp (collect-append, append-nil)

  announce-publishes :
      (wf : Workflow) (id : Option ℕ) (t : List Call)
      → collect published_view (announce w wf id t).1
        ≡ collect published_view t ++ messages (wf ∷ []) (id ∷ [])
  unfolding announce ◌>>=◌
  announce-publishes wf none t = sym (append-nil _)
  announce-publishes wf (some id) t = simp (collect-append, append-nil)

  trigger-publishes :
      (wf : Workflow) (t : List Call)
      → collect published_view (trigger w wf t).1
        ≡ collect published_view t ++ messages (wf ∷ []) (new_id wf t ∷ [])
  unfolding trigger ◌>>=◌
  trigger-publishes wf t =
      announce-publishes wf (new_id wf t) (inserted wf t) ∙ simp (collect-append, append-nil)

  -- What the inserts for the workflows that are due answer, one after another.
  abbrev pub answers : ℕ → List Workflow → List Call → List (Option ℕ)
  answers at [] t = []
  answers at (wf ∷ wfs) t =
      if fires w at wf then new_id wf t ∷ answers at wfs (trigger w wf t).1 else answers at wfs t

  pub trigger_due-skip :
      (at : ℕ) (wf : Workflow) (wfs : List Workflow) (t : List Call)
      → fires w at wf ≡ false
      → trigger_due w at (wf ∷ wfs) t ≡ trigger_due w at wfs t
  unfolding trigger_due ◌>>=◌
  trigger_due-skip at wf wfs t e = rw e

  pub trigger_due-fire :
      (at : ℕ) (wf : Workflow) (wfs : List Workflow) (t : List Call)
      → fires w at wf ≡ true
      → trigger_due w at (wf ∷ wfs) t ≡ trigger_due w at wfs (trigger w wf t).1
  unfolding trigger_due ◌>>=◌
  trigger_due-fire at wf wfs t e = rw e

  pub trigger_due-creates :
      (at : ℕ) (wfs : List Workflow) (t : List Call)
      → collect created_view (trigger_due w at wfs t).1
        ≡ collect created_view t ++ map pending (due w at wfs)
  trigger_due-creates at [] t = unfold trigger_due ◌>>=◌ in sym (append-nil _)
  trigger_due-creates at (wf ∷ wfs) t = elim (Bool-cases (fires w at wf)) [
    | inl e ↦
        rw (trigger_due-fire at wf wfs t e, e)
          (trigger_due-creates at wfs (trigger w wf t).1
            ∙ ap (λ l. l ++ map pending (due w at wfs)) (trigger-creates wf t)
            ∙ append_assoc (collect created_view t) (pending wf ∷ []) (map pending (due w at wfs)))
    | inr e ↦ rw (trigger_due-skip at wf wfs t e, e) (trigger_due-creates at wfs t)
  ]

  messages-cons :
      (wf : Workflow) (id : Option ℕ) (wfs : List Workflow) (ids : List (Option ℕ))
      → messages (wf ∷ []) (id ∷ []) ++ messages wfs ids ≡ messages (wf ∷ wfs) (id ∷ ids)
  messages-cons wf none wfs ids = refl
  messages-cons wf (some id) wfs ids = refl

  pub trigger_due-publishes :
      (at : ℕ) (wfs : List Workflow) (t : List Call)
      → collect published_view (trigger_due w at wfs t).1
        ≡ collect published_view t ++ messages (due w at wfs) (answers at wfs t)
  trigger_due-publishes at [] t = unfold trigger_due ◌>>=◌ in sym (append-nil _)
  trigger_due-publishes at (wf ∷ wfs) t = elim (Bool-cases (fires w at wf)) [
    | inl e ↦
        let u = (trigger w wf t).1 in
        let rest = messages (due w at wfs) (answers at wfs u) in
        rw (trigger_due-fire at wf wfs t e, e)
          (trigger_due-publishes at wfs u
            ∙ ap (λ l. l ++ rest) (trigger-publishes wf t)
            ∙ append_assoc (collect published_view t) (messages (wf ∷ []) (new_id wf t ∷ [])) rest
            ∙ ap (λ l. collect published_view t ++ l)
                (messages-cons wf (new_id wf t) (due w at wfs) (answers at wfs u)))
    | inr e ↦ rw (trigger_due-skip at wf wfs t e, e) (trigger_due-publishes at wfs t)
  ]

  pub check-failed :
      (t : List Call)
      → w.scheduled t ≡ none
      → (check_and_trigger w t).1 ≡ t ++ find_workflows "schedule" true ∷ []
  unfolding check_and_trigger ◌>>=◌
  check-failed t e = rw e refl

  module _ (t : List Call) (wfs : List Workflow) (rows : w.scheduled t ≡ some wfs) where
    -- The minute of the check, which reads the clock once, after the workflows.
    abbrev pub check_minute : ℕ
    check_minute = truncate (w.clock (t ++ find_workflows "schedule" true ∷ []))

    pub check-loop :
        check_and_trigger w t
        ≡ trigger_due w check_minute wfs ((t ++ find_workflows "schedule" true ∷ []) ++ now ∷ [])
    unfolding check_and_trigger ◌>>=◌
    check-loop = rw rows

    -- A check inserts one pending execution for each workflow that it has read and that is due at
    -- the minute of the check, in their order, and no other.
    pub check_and_trigger-creates :
        collect created_view (check_and_trigger w t).1
        ≡ collect created_view t ++ map pending (due w check_minute wfs)
    check_and_trigger-creates =
        ap (λ r. collect created_view r.1) check-loop
        ∙ trigger_due-creates check_minute wfs _
        ∙ simp (collect-append, append-nil)

    -- The calls of the check in front of the first workflow.
    abbrev pub begun : List Call
    begun = (t ++ find_workflows "schedule" true ∷ []) ++ now ∷ []

    -- A check publishes for each workflow that is due, in their order, one message with the id that
    -- the insert of its execution has answered, to the exchange and the key of the run queue; where
    -- the insert has failed it publishes nothing, and it publishes nothing else.
    pub check_and_trigger-publishes :
        collect published_view (check_and_trigger w t).1
        ≡ collect published_view t
          ++ messages (due w check_minute wfs) (answers check_minute wfs begun)
    check_and_trigger-publishes =
        ap (λ r. collect published_view r.1) check-loop
        ∙ trigger_due-publishes check_minute wfs begun
        ∙ simp (collect-append, append-nil)
