-- ===== src/System/Lifecycle/Copies.antt =====
-- How many messages there are for an execution: one at most while it is pending, and none otherwise.
use mathlib.Core.Path.{subst}
use workflow_automation_go_z.Common.{
  ℕ, ◌+◌, ◌≤◌, ◌<◌, ◌^◌, String, Bool, true, false, Option, none, some, List, [], ◌∷◌, ◌++◌, ◌==◌,
  str_eq, if◌then◌else◌, ◌≡◌, ◌≢◌, refl, ap, ◌∙◌, ◌⊎◌, inl, inr, arith, Bool-cases, ==_iff,
}
use workflow_automation_go_z.Queue.{ExecutionMessage}
use workflow_automation_go_z.Worker.{Delivery}
use workflow_automation_go_z.System.State.{System, Broker, insert, kept, publish, start}
use workflow_automation_go_z.System.Lifecycle.Inv.{Ended, Names, Inv, start-Inv, announced-Inv}
use workflow_automation_go_z.System.Lifecycle.Rows.{ran_state, writes-rows}

-- Pending, or written by one run alone, less what the database refused.
abbrev pub AtMostOneRun : List String → Type 0
AtMostOneRun h =
    (h ≡ "pending" ∷ [])
    ⊎ ((status : String) × Ended status
        × (keep : ℕ → Bool) × (h ≡ "pending" ∷ kept keep ("running" ∷ status ∷ [])))

-- How many messages a row may have: one while it is pending.
abbrev pub room_for : List String → ℕ
room_for [] = 0
room_for (status ∷ []) = if str_eq status "pending" then 1 else 0
room_for (_ ∷ _ ∷ _) = 0

no_room : (l : List String) → (l ≡ []) ⊎ (room_for ("pending" ∷ l) ≡ 0)
no_room [] = inl refl
no_room (_ ∷ _) = inr refl

module _ (decode : String → Option ExecutionMessage) where
  abbrev pub names_of : ℕ → Option ExecutionMessage → ℕ
  names_of n none = 0
  names_of n (some m) = if m.execution_id == n then 1 else 0

  abbrev pub copies : ℕ → List Delivery → ℕ
  copies n [] = 0
  copies n (d ∷ q) = names_of n (decode d.body) + copies n q

  copies-append : (n : ℕ) (p q : List Delivery) → copies n (p ++ q) ≡ copies n p + copies n q
  copies-append n [] q = omega arith
  copies-append n (d ∷ p) q = omega (arith, copies-append n p q)

  pub record Once (s : System) : Type 0 where
    pub inv : Inv decode s
    pub one : (n : ℕ) → copies n s.queue ≤ room_for (s.rows n)
    pub runs : (n : ℕ) → s.rows n ≢ [] → AtMostOneRun (s.rows n)

  pub start-Once : Once start
  start-Once = record {
    inv = start-Inv decode;
    one = λ n. omega arith;
    runs = λ n h. absurd (h refl);
  }

  names_of-same : (n : ℕ) (body : String) → Names decode n body → names_of n (decode body) ≡ 1
  names_of-same n body (m, decoded, same) =
      rw decoded (ground (arith, (==_iff m.execution_id n).1 same))

  names_of-other :
      (n k : ℕ) (body : String)
      → Names decode k body
      → (n == k) ≡ false
      → names_of n (decode body) ≡ 0
  names_of-other n k body (m, decoded, same) other =
      rw decoded (ground (arith, same, ==_iff m.execution_id n))

  names_of-bound :
      (n k : ℕ) (body : String)
      → Names decode k body
      → names_of n (decode body) ≤ (if n == k then 1 else 0)
  names_of-bound n k body (m, decoded, same) =
      rw decoded (ground (arith, same, ==_iff m.execution_id n, ==_iff n k))

  module _ (s : System) (once : Once s) where
    new_rows :
        (n : ℕ)
        → (insert "pending" s).rows n ≡ (if n == s.next_id then "pending" ∷ [] else s.rows n)
    unfolding insert
    new_rows n = refl

    -- A state in which the new execution has a message more, or the same ones.
    inserted-Once :
        (t : System)
        → Inv decode t
        → ((n : ℕ) → t.rows n ≡ (if n == s.next_id then "pending" ∷ [] else s.rows n))
        → ((n : ℕ) → copies n t.queue ≤ copies n s.queue + (if n == s.next_id then 1 else 0))
        → Once t
    inserted-Once t inv rows queue = record {
      inv = inv;
      one = λ n. elim (Bool-cases (n == s.next_id)) [
        | inl e ↦
            let none_before : s.rows n ≡ [] = once.inv.unborn n (ground arith) in
            let row : t.rows n ≡ "pending" ∷ [] = rows n ∙ rw e refl in
            let before : copies n s.queue ≤ room_for [] =
              subst (λ h. copies n s.queue ≤ room_for h) none_before (once.one n) in
            rw row (ground (arith, queue n))
        | inr e ↦
            let row : t.rows n ≡ s.rows n = rows n ∙ rw e refl in
            rw row (let before = once.one n in ground (arith, queue n))
      ];
      runs = λ n there. elim (Bool-cases (n == s.next_id)) [
        | inl e ↦ inl (rows n ∙ rw e refl)
        | inr e ↦
            let row : t.rows n ≡ s.rows n = rows n ∙ rw e refl in
            rw row (once.runs n (λ empty. there (row ∙ empty)))
      ];
    }

    pub announced-Once :
        (broker : Broker)
        → s.next_id < 2 ^ 63
        → (failed : Bool) (body : String) → Names decode s.next_id body
        → Once (publish broker failed body (insert "pending" s))
    unfolding publish insert
    announced-Once broker room true body names =
        inserted-Once _ (announced-Inv decode s once.inv room broker true body names) new_rows
          (λ n. omega arith)
    announced-Once broker room false body names =
        inserted-Once _ (announced-Inv decode s once.inv room broker false body names) new_rows
          (λ n.
            let d = broker.arrive body in
            let new : names_of n (decode d.body) ≤ (if n == s.next_id then 1 else 0) =
              rw (broker.arrive_body body) (names_of-bound n s.next_id body names) in
            omega (arith, copies-append n s.queue (d ∷ [])))

  module _ (s : System) (once : Once s) (xs : List Delivery) (d : Delivery) (ys : List Delivery)
      (queue : s.queue ≡ xs ++ d ∷ ys) where
    -- The delivery's own message is counted once.
    pub taken : (n : ℕ) → copies n s.queue ≡ names_of n (decode d.body) + copies n (xs ++ ys)
    taken n =
        let split : copies n s.queue ≡ copies n (xs ++ d ∷ ys) = ap (copies n) queue in
        omega (arith, copies-append n xs (d ∷ ys), copies-append n xs ys)

    -- Another queue with no more messages, and the same rows.
    pub fewer-Once :
        (q : List Delivery) (g : List String)
        → Inv decode (record s { queue = q; given_up = g })
        → ((n : ℕ) → copies n q ≤ copies n s.queue)
        → Once (record s { queue = q; given_up = g })
    fewer-Once q g inv few = record {
      inv = inv;
      one = λ n. let before = once.one n in omega (arith, few n);
      runs = once.runs;
    }

    pub requeued_copies :
        (d' : Delivery)
        → d'.body ≡ d.body
        → (n : ℕ) → copies n (xs ++ (ys ++ d' ∷ [])) ≤ copies n s.queue
    requeued_copies d' same n =
        let again : names_of n (decode d'.body) ≡ names_of n (decode d.body) =
          ap (λ b. names_of n (decode b)) same in
        omega (
          arith,
          taken n,
          copies-append n xs (ys ++ d' ∷ []),
          copies-append n ys (d' ∷ []),
          copies-append n xs ys,
        )

    module _ (id : ℕ) (status : String) (names : Names decode id d.body) (ended : Ended status)
        (there : s.rows id ≢ []) where
      -- The execution of a message that is still in the queue has not run.
      not_run : s.rows id ≡ "pending" ∷ []
      not_run = elim (once.runs id there) [
        | inl pending ↦ pending
        | inr (old, e, keep, over) ↦ elim (no_room (kept keep ("running" ∷ old ∷ []))) [
          | inl unwritten ↦ over ∙ ap (λ l. "pending" ∷ l) unwritten
          | inr full ↦
              let room : copies id s.queue ≤ 0 =
                subst (λ k. copies id s.queue ≤ k) (ap room_for over ∙ full) (once.one id) in
              absurd (omega (arith, taken id, names_of-same id d.body names))
        ]
      ]

      module _ (keep : ℕ → Bool) (g : List String) where
        abbrev pub ran : System
        ran = record (ran_state s id status keep) { queue = xs ++ ys; given_up = g }

        ran_rows :
            (n : ℕ)
            → ran.rows n
              ≡ (if n == id then s.rows n ++ kept keep ("running" ∷ status ∷ []) else s.rows n)
        ran_rows = writes-rows s id there (kept keep ("running" ∷ status ∷ []))

        -- No message of the execution is left.
        none_left : (n : ℕ) → (n == id) ≡ true → copies n (xs ++ ys) ≡ 0
        none_left n e =
            let room : copies n s.queue ≤ room_for ("pending" ∷ []) =
              subst (λ h. copies n s.queue ≤ room_for h) (ap s.rows ((==_iff n id).0 e) ∙ not_run)
                (once.one n) in
            let own : names_of n (decode d.body) ≡ 1 =
              ap (λ k. names_of k (decode d.body)) ((==_iff n id).0 e)
              ∙ names_of-same id d.body names in
            omega (arith, taken n)

        pub ran-Once : Inv decode ran → Once ran
        ran-Once inv = record {
          inv = inv;
          one = λ n. elim (Bool-cases (n == id)) [
            | inl e ↦ omega (arith, none_left n e)
            | inr e ↦
                let same : ran.rows n ≡ s.rows n = ran_rows n ∙ rw e refl in
                rw same (let before = once.one n in omega (arith, taken n))
          ];
          runs = λ n h. elim (Bool-cases (n == id)) [
            | inl e ↦ inr (
              status,
              ended,
              keep,
              ran_rows n
                  ∙ rw e (
                      ap (λ l. l ++ kept keep ("running" ∷ status ∷ []))
                        (ap s.rows ((==_iff n id).0 e) ∙ not_run)),
            )
            | inr e ↦
                let same : ran.rows n ≡ s.rows n = ran_rows n ∙ rw e refl in
                rw same (once.runs n (λ empty. h (same ∙ empty)))
          ];
        }
