-- ===== src/Worker/Retry.antt =====
-- The life of a message: a delivery that is handed back comes again through the retry queue, with
-- one more death in its headers, until the worker acknowledges it (the comments on declareTopology
-- in publisher.go). What the broker does with a delivery that is handed back is a parameter.
use workflow_automation_go_z.Common.{
  ℕ, zero, suc, ◌+◌, ◌-◌, ◌≤◌, ◌<◌, Bool, true, false, some, List, [], ◌∷◌, ◌++◌, pos, ◌≡◌, refl,
  sym, ap, ◌∙◌, inl, inr, collect, collect-append, append-nil, append_assoc, length, replicate,
  arith, leb, leb→le, Bool-cases, length-append, if◌then◌else◌, String,
}
use workflow_automation_go_z.Queue.{ExecutionMessage}
use workflow_automation_go_z.Worker.{
  Delivery, RunExecutionReq, found, Call, ack, nack, World, death_count, request_of, handle,
}
use workflow_automation_go_z.Worker.Settle.{
  dispatch_view, loaded_trace, called_trace, handle-dispatches, handle-exhausted, handle-found,
}

abbrev is_ack : Call → Bool
is_ack (ack _) = true
is_ack _ = false

-- The last call of the trace is an Ack.
abbrev pub ends_in_ack : List Call → Bool
ends_in_ack [] = false
ends_in_ack (c ∷ []) = is_ack c
ends_in_ack (c ∷ d ∷ t) = ends_in_ack (d ∷ t)

ends_in_ack-snoc : (t : List Call) (c : Call) → ends_in_ack (t ++ c ∷ []) ≡ is_ack c
ends_in_ack-snoc [] c = refl
ends_in_ack-snoc (a ∷ []) c = refl
ends_in_ack-snoc (a ∷ b ∷ t) c = ends_in_ack-snoc (b ∷ t) c

-- What the broker does to a delivery that comes again: it counts one more death.
pub record Redelivery : Type 0 where
  pub again : Delivery → Delivery
  pub counts :
      (d : Delivery) (n : ℕ)
      → death_count d.headers ≡ pos n
      → death_count (again d).headers ≡ pos (suc n)
  pub keeps_body : (d : Delivery) → (again d).body ≡ d.body

module _ (w : World) (broker : Redelivery) where
  -- At most `fuel` deliveries of one message: whether it was acknowledged, and the calls.
  unfoldable pub deliver : ℕ → Delivery → List Call → Bool × List Call
  deliver zero d t = (false, t)
  deliver (suc fuel) d t =
      let t' = (handle w d t).1 in
      let rest = deliver fuel (broker.again d) t' in if ends_in_ack t' then (true, t') else rest

  -- What one more delivery adds to the requests of the engine.
  requests_once :
      (d : Delivery) (t : List Call)
      → (rs : List RunExecutionReq) × (collect dispatch_view (handle w d t).1
          ≡ collect dispatch_view t ++ rs)
        × (length rs ≤ 1)
  requests_once d t = elim (handle-dispatches w d t) [
    | inl (eq, _) ↦ ([], eq ∙ sym (append-nil _), omega arith)
    | inr (msg, eq, _) ↦ (request_of msg ∷ [], eq, omega arith)
  ]

  deliver-acked :
      (fuel : ℕ) (d : Delivery) (t : List Call)
      → ends_in_ack (handle w d t).1 ≡ true
      → deliver (suc fuel) d t ≡ (true, (handle w d t).1)
  unfolding deliver
  deliver-acked fuel d t e = rw e

  deliver-again :
      (fuel : ℕ) (d : Delivery) (t : List Call)
      → ends_in_ack (handle w d t).1 ≡ false
      → deliver (suc fuel) d t ≡ deliver fuel (broker.again d) (handle w d t).1
  unfolding deliver
  deliver-again fuel d t e = rw e

  -- A message that has died often enough is acknowledged, and asks nothing of the engine.
  exhausted :
      (fuel k : ℕ) (d : Delivery) (t : List Call)
      → death_count d.headers ≡ pos k
      → 3 ≤ k
      → deliver (suc fuel) d t ≡ (true, t ++ ack d ∷ [])
  exhausted fuel k d t e h =
      let last : (handle w d t).1 ≡ t ++ ack d ∷ [] =
        handle-exhausted w d t (rw e (ground arith)) in
      deliver-acked fuel d t (ap ends_in_ack last ∙ ends_in_ack-snoc t (ack d))
      ∙ ap (λ (u : List Call). (true, u)) last

  -- With a message that has died `k` times, at most three, four rounds less `k` are enough for the
  -- worker to acknowledge it, and the engine is called at most three times less `k`.
  pub deliver_bounded :
      (fuel k : ℕ) (d : Delivery) (t : List Call)
      → death_count d.headers ≡ pos k
      → k ≤ 3
      → 4 ≤ fuel + k
      → ((deliver fuel d t).0 ≡ true)
        × (rs : List RunExecutionReq) × (collect dispatch_view (deliver fuel d t).1
            ≡ collect dispatch_view t ++ rs)
        × (length rs ≤ 3 - k)
  deliver_bounded zero k d t e small h = absurd (omega arith)
  deliver_bounded (suc fuel) k d t e small h = elim (Bool-cases (leb 3 k)) [
    | inl out ↦
        rw (exhausted fuel k d t e (leb→le 3 k out))
          (refl, [], simp (collect-append, append-nil), omega arith)
    | inr left ↦
        let room : k < 3 = ground arith in
        let (rs, eq, one) = requests_once d t in
        elim (Bool-cases (ends_in_ack (handle w d t).1)) [
          | inl a ↦ rw (deliver-acked fuel d t a) (refl, rs, eq, omega arith)
          | inr b ↦
              let (done, more, eq', few) =
                deliver_bounded fuel (suc k) (broker.again d) (handle w d t).1 (broker.counts d k e)
                  (omega arith) (omega arith) in
              rw (deliver-again fuel d t b) (
                done,
                rs ++ more,
                eq' ∙ ap (λ l. l ++ more) eq ∙ append_assoc (collect dispatch_view t) rs more,
                omega (arith, length-append rs more),
              )
        ]
  ]

  module _ (msg : ExecutionMessage) (body : String) (decoded : w.decode_message body ≡ some msg)
      (there : (t : List Call) → w.load_execution t msg.execution_id ≡ found)
      (fails : (t : List Call) → w.engine_fails t (request_of msg) ≡ true) where
    -- Where the execution is always found and the engine always fails, a message that has died `k`
    -- times, at most three, is sent to the engine three times less `k`, always as the same request,
    -- and then acknowledged, within four rounds less `k`: a new message is tried three times in all.
    pub deliver-failing :
        (fuel k : ℕ) (d : Delivery) (t : List Call)
        → d.body ≡ body
        → death_count d.headers ≡ pos k
        → k ≤ 3
        → 4 ≤ fuel + k
        → ((deliver fuel d t).0 ≡ true)
          × (collect dispatch_view (deliver fuel d t).1
              ≡ collect dispatch_view t ++ replicate (3 - k) (request_of msg))
    deliver-failing zero k d t same e small h = absurd (omega arith)
    deliver-failing (suc fuel) k d t same e small h = elim (Bool-cases (leb 3 k)) [
      | inl out ↦
          let none_left : 3 - k ≡ 0 = (ground arith) in
          rw (exhausted fuel k d t e (leb→le 3 k out), none_left)
            (refl, simp (collect-append, append-nil))
      | inr left ↦
          let room : 3 - k ≡ suc (3 - suc k) = (ground arith) in
          let nacked : (handle w d t).1 ≡ called_trace w d t msg ++ nack d ∷ [] =
            handle-found w d t msg (rw e left) (rw same decoded) (there t)
            ∙ rw (fails (loaded_trace w d t msg)) refl in
          let (done, eq) =
            deliver-failing fuel (suc k) (broker.again d) (handle w d t).1
              (broker.keeps_body d ∙ same) (broker.counts d k e) (ground arith) (ground arith) in
          rw
            (
              deliver-again fuel d t
                  (ap ends_in_ack nacked ∙ ends_in_ack-snoc (called_trace w d t msg) (nack d)),
              room,
            )
            (
              done,
              eq
                  ∙ ap (λ u. collect dispatch_view u ++ replicate (3 - suc k) (request_of msg))
                      nacked
                  ∙ simp (collect-append, append-nil, append_assoc),
            )
    ]
