-- ===== src/System/Lifecycle/Inv.antt =====
-- What holds of the shared state between two steps of the program, and how an announcement of a new
-- execution, a run and a settlement keep it.
use mathlib.Core.Path.{subst}
use workflow_automation_go_z.Common.{
  sym, ℕ, suc, ◌^◌, ◌≤◌, ◌<◌, String, Bool, true, false, Option, some, List, [], ◌∷◌, ◌++◌, pos,
  ◌==◌, ◌≡◌, ◌≢◌, refl, ap, ◌∙◌, ◌⊎◌, inl, inr, arith, Bool-cases, ==_iff, All, Any, All-append,
  All-mono, Any-left, Any-right,
}
use workflow_automation_go_z.Queue
use workflow_automation_go_z.Queue.{ExecutionMessage}
use workflow_automation_go_z.Scheduler
use workflow_automation_go_z.Worker.{Delivery, death_count}
use workflow_automation_go_z.System.State.{System, Broker, insert, kept, publish, start}

abbrev pub Ended : String → Type 0
Ended status = (status ≡ "success") ⊎ (status ≡ "failed")

-- What is written to an execution: "pending", and for each run "running" and how it ended, less what
-- the database refuses.
pub data Lived : List String → Type 0 where
  created : {h : List String} → h ≡ "pending" ∷ [] → Lived h
  ran :
      {g h : List String} {status : String}
      → Lived g
      → Ended status
      → (keep : ℕ → Bool) → h ≡ g ++ kept keep ("running" ∷ status ∷ [])
      → Lived h

-- The last status says how a run has ended.
abbrev pub Over : List String → Type 0
Over h = (g : List String) × (status : String) × Ended status × (h ≡ g ++ status ∷ [])

module _ (decode : String → Option ExecutionMessage) where
  -- The body is a message for the execution with this id.
  abbrev pub Names : ℕ → String → Type 0
  Names n body = (m : ExecutionMessage) × (decode body ≡ some m) × (m.execution_id ≡ n)

  -- The workers' decoder reads the id in what the gateway and the scheduler encode.
  pub record Readable : Type 0 where
    pub of_gateway : (m : ExecutionMessage) → Names m.execution_id (Queue.encode_message m)
    pub of_scheduler :
        (m : Scheduler.ExecutionMessage) → Names m.execution_id (Scheduler.encode_message m)

  -- A delivery is a message for an execution that is there, and has died three times at most.
  abbrev pub Sound : (ℕ → List String) → Delivery → Type 0
  Sound rows d =
      (m : ExecutionMessage) × (decode d.body ≡ some m)
      × (rows m.execution_id ≢ [])
      × (k : ℕ) × (death_count d.headers ≡ pos k)
      × (k ≤ 3)

  -- The message of an execution is in the queue, or was given up.
  abbrev pub Waits : List Delivery → List String → ℕ → Type 0
  Waits queue given_up n = Any (λ d. Names n d.body) queue ⊎ Any (Names n) given_up

  pub record Inv (s : System) : Type 0 where
    pub small : s.next_id ≤ 2 ^ 63
    pub unborn : (n : ℕ) → s.next_id ≤ n → s.rows n ≡ []
    pub lived : (n : ℕ) → s.rows n ≢ [] → Lived (s.rows n)
    pub queued : All (Sound s.rows) s.queue
    pub waits : (n : ℕ) → s.rows n ≢ [] → Over (s.rows n) ⊎ Waits s.queue s.given_up n

  pub start-Inv : Inv start
  start-Inv = record {
    small = omega arith;
    unborn = λ n h. refl;
    lived = λ n h. absurd (h refl);
    queued = tt;
    waits = λ n h. absurd (h refl);
  }

  -- A row that is there keeps its deliveries sound in another state where it is there too.
  pub Sound-mono :
      (rows rows' : ℕ → List String)
      → ((n : ℕ) → rows n ≢ [] → rows' n ≢ [])
      → (q : List Delivery) → All (Sound rows) q
      → All (Sound rows') q
  Sound-mono rows rows' keeps q h =
      All-mono (Sound rows) (Sound rows') q
        (λ d (m, e, there, k, c, few). (m, e, keeps m.execution_id there, k, c, few)) h

  -- The state with another queue and other messages given up.
  pub queue-Inv :
      (s : System) (q : List Delivery) (g : List String)
      → Inv s
      → All (Sound s.rows) q
      → ((n : ℕ) → s.rows n ≢ [] → Over (s.rows n) ⊎ Waits q g n)
      → Inv (record s { queue = q; given_up = g })
  queue-Inv s q g inv sound keeps = record {
    small = inv.small;
    unborn = inv.unborn;
    lived = inv.lived;
    queued = sound;
    waits = keeps;
  }

  module _ (s : System) (inv : Inv s) where
    module _ (room : s.next_id < 2 ^ 63) where
      inserted_rows : ℕ → List String
      inserted_rows = (insert "pending" s).rows

      inserted_keeps : (n : ℕ) → s.rows n ≢ [] → inserted_rows n ≢ []
      unfolding insert inserted_rows
      inserted_keeps n there empty = elim (Bool-cases (n == s.next_id)) [
        | inl e ↦ there (inv.unborn n (ground arith))
        | inr e ↦ there (ground arith)
      ]

      inserted_lived : (n : ℕ) → inserted_rows n ≢ [] → Lived (inserted_rows n)
      unfolding insert inserted_rows
      inserted_lived n there = elim (Bool-cases (n == s.next_id)) [
        | inl e ↦ rw e (created refl)
        | inr e ↦ rw e (inv.lived n (λ empty. there (ground arith)))
      ]

      inserted_unborn : (n : ℕ) → suc s.next_id ≤ n → inserted_rows n ≡ []
      unfolding insert inserted_rows
      inserted_unborn n h = let old = inv.unborn n (omega arith) in ground (arith, old)

      -- A row that is not over in the new state is the new one, or waited before.
      inserted-Waits :
          (q : List Delivery) (g : List String)
          → Waits q g s.next_id
          → ((n : ℕ) → Waits s.queue s.given_up n → Waits q g n)
          → (n : ℕ) → inserted_rows n ≢ []
          → Over (inserted_rows n) ⊎ Waits q g n
      unfolding insert inserted_rows
      inserted-Waits q g here old n there = elim (Bool-cases (n == s.next_id)) [
        | inl e ↦ inr (rw ((==_iff n s.next_id).0 e) here)
        | inr e ↦
            let same : inserted_rows n ≡ s.rows n = rw e refl in
            elim (inv.waits n (λ empty. there (same ∙ empty))) [
              | inl over ↦ inl (subst Over (sym same) over)
              | inr w ↦ inr (old n w)
            ]
      ]

      inserted-Inv :
          (q : List Delivery) (g : List String)
          → All (Sound inserted_rows) q
          → Waits q g s.next_id
          → ((n : ℕ) → Waits s.queue s.given_up n → Waits q g n)
          → Inv (record { rows = inserted_rows; next_id = suc s.next_id; queue = q; given_up = g })
      inserted-Inv q g sound here old = record {
        small = omega arith;
        unborn = inserted_unborn;
        lived = inserted_lived;
        queued = sound;
        waits = inserted-Waits q g here old;
      }

      new_there : inserted_rows s.next_id ≢ []
      unfolding insert inserted_rows
      new_there e = ground (arith, (==_iff s.next_id s.next_id).1 refl)

      -- A new pending execution, whose message is published or not, keeps the invariant.
      pub announced-Inv :
          (broker : Broker) (failed : Bool) (body : String)
          → Names s.next_id body
          → Inv (publish broker failed body (insert "pending" s))
      unfolding publish insert inserted_rows
      announced-Inv broker true body names =
          inserted-Inv s.queue (body ∷ s.given_up)
            (Sound-mono s.rows inserted_rows inserted_keeps s.queue inv.queued) (inr (inl names))
            (λ n w. elim w [ inl q ↦ inl q | inr g ↦ inr (inr g) ])
      announced-Inv broker false body (m, decoded, same) =
          let d = broker.arrive body in
          let read : decode d.body ≡ some m = ap decode (broker.arrive_body body) ∙ decoded in
          let new : Sound inserted_rows d =
            (m, read, rw same new_there, 0, broker.arrive_count body, omega arith) in
          inserted-Inv (s.queue ++ d ∷ []) s.given_up
            (All-append (Sound inserted_rows) s.queue (d ∷ [])
              (Sound-mono s.rows inserted_rows inserted_keeps s.queue inv.queued) (new, tt))
            (inl (Any-right (λ d. Names s.next_id d.body) s.queue (d ∷ []) (inl (m, read, same))))
            (λ n w. elim w [
              | inl q ↦ inl (Any-left (λ d. Names n d.body) s.queue (d ∷ []) q)
              | inr g ↦ inr g
            ])

  -- A property of the state that the announcement of a new execution keeps.
  pub record Announcing (broker : Broker) (P : System → Type 0) : Type 0 where
    pub announced :
        (s : System)
        → P s
        → s.next_id < 2 ^ 63
        → (failed : Bool) (body : String) → Names s.next_id body
        → P (publish broker failed body (insert "pending" s))
