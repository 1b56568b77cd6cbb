-- ===== src/System/Lifecycle/Drain.antt =====
-- The queue is emptied: however the handling of the deliveries goes, each one leaves the queue for good
-- within the retries that it has left.
use mathlib.Core.Path.{subst}
use workflow_automation_go_z.Common.{
  ℕ, zero, suc, ◌+◌, ◌-◌, ◌≤◌, ◌<◌, Bool, String, Option, List, [], ◌∷◌, ◌++◌, ℤ, pos, negsuc, ◌≡◌,
  ◌≢◌, refl, sym, ap, ◌⊎◌, inl, inr, arith, Any,
}
use workflow_automation_go_z.Queue.{ExecutionMessage}
use workflow_automation_go_z.Engine.Outside as Engine
use workflow_automation_go_z.Engine.Runner.{RunnerFactory}
use workflow_automation_go_z.Worker
use workflow_automation_go_z.Worker.{Delivery, death_count}
use workflow_automation_go_z.System.State.{System, Broker, kept}
use workflow_automation_go_z.System.Lifecycle.{settle, Reachable, handled}
use workflow_automation_go_z.System.Lifecycle.Inv.{Over, Names, Readable, Inv}
use workflow_automation_go_z.System.Lifecycle.Rows.{writes_grow}
use workflow_automation_go_z.System.Lifecycle.Settling.{settles}
use workflow_automation_go_z.System.Lifecycle.Reach.{Step-Inv, Reachable-Inv}

-- How often a message with this count of deaths is handled before it is dropped, and the sum of these.
abbrev tries : ℤ → ℕ
tries (pos k) = 4 - k
tries (negsuc _) = 0

abbrev pub left : List Delivery → ℕ
left [] = 0
left (d ∷ q) = tries (death_count d.headers) + left q

left-append : (p q : List Delivery) → left (p ++ q) ≡ left p + left q
left-append [] q = omega arith
left-append (d ∷ p) q = omega (arith, left-append p q)

tries_at :
    (d : Delivery) (k : ℕ) → death_count d.headers ≡ pos k → tries (death_count d.headers) ≡ 4 - k
tries_at d k count = ap tries count

module _ (F : Type 0) (broker : Broker) (factory : RunnerFactory)
    (decode : String → Option ExecutionMessage) where
  -- What each handling meets, which may depend on the state: the answers of the worker's reads and of
  -- the connection to the engine, those that the engine gets, and the status writes that are refused.
  module _ (own : System → Worker.World) (w : System → Engine.World F)
      (keep : System → ℕ → Bool) where
    -- The state after the first delivery of the queue has been handled.
    abbrev pub next : System → Delivery → List Delivery → System
    next s d ys = handled broker F factory decode (own s) (w s) d s (keep s) [] ys

    -- So many deliveries are handled, each the first of the queue, until none is left.
    pub data Emptied : ℕ → System → System → Type 0 where
      empty : {s : System} → s.queue ≡ [] → Emptied 0 s s
      handle_first :
          {n : ℕ} {s t : System} (d : Delivery) (ys : List Delivery)
          → s.queue ≡ d ∷ ys
          → Emptied n (next s d ys) t
          → Emptied (suc n) s t

    module _ (readable : Readable decode) where
      module _ (s : System) (inv : Inv decode s) (d : Delivery) (ys : List Delivery)
          (queue : s.queue ≡ d ∷ ys) where
        next-Inv : Inv decode (next s d ys)
        next-Inv =
            Step-Inv F broker factory decode readable s _ inv
              (settle (own s) (w s) (keep s) [] d ys queue)

        fewer : (k : ℕ) → death_count d.headers ≡ pos k → k ≤ 3 → left ys < left s.queue
        fewer k count few =
            let all : left s.queue ≡ left (d ∷ ys) = ap left queue in
            omega (arith, all, tries_at d k count)

        fewer_again :
            (k : ℕ)
            → death_count d.headers ≡ pos k
            → k < 3
            → left (ys ++ broker.redelivery.again d ∷ []) < left s.queue
        fewer_again k count few =
            let all : left s.queue ≡ left (d ∷ ys) = ap left queue in
            let d' = broker.redelivery.again d in
            omega (
              arith,
              all,
              tries_at d k count,
              left-append ys (d' ∷ []),
              tries_at d' (suc k) (broker.redelivery.counts d k count),
            )

        -- Fewer handlings are left, and no execution is gone.
        Onward : System → Type 0
        Onward t = (left t.queue < left s.queue) × ((n : ℕ) → s.rows n ≢ [] → t.rows n ≢ [])

        onward : Onward (next s d ys)
        unfolding Onward
        onward = elim (settles F broker factory decode (own s) (w s) (keep s) s inv [] d ys queue) [
          | inl (count, eq) ↦ subst Onward (sym eq) (fewer 3 count (omega arith), λ n there. there)
          | inr (inl ((k, count, few), eq)) ↦
              subst Onward (sym eq) (fewer_again k count few, λ n there. there)
          | inr (inr ((k, count, few), id, status, names, old, ended, inl (u, r, lost, eq))) ↦
              subst Onward (sym eq) (
                fewer_again k count few,
                writes_grow s id old (kept (keep s) ("running" ∷ status ∷ [])),
              )
          | inr (inr ((k, count, few), id, status, names, old, ended, inr eq)) ↦
              subst Onward (sym eq) (
                fewer k count (omega arith),
                writes_grow s id old (kept (keep s) ("running" ∷ status ∷ [])),
              )
        ]

      Drained : System → Type 0
      Drained s =
          (n : ℕ) × (t : System) × (n ≤ left s.queue)
          × Emptied n s t
          × Inv decode t
          × (t.queue ≡ [])
          × ((n : ℕ) → s.rows n ≢ [] → t.rows n ≢ [])

      drain :
          (fuel : ℕ) (q : List Delivery) (s : System)
          → Inv decode s
          → s.queue ≡ q
          → left s.queue ≤ fuel
          → Drained s
      unfolding Drained Onward
      drain fuel [] s inv queue enough = (0, s, omega arith, empty queue, inv, queue, λ n h. h)
      drain zero (d ∷ ys) s inv queue enough =
          let (less, grows) = onward s inv d ys queue in absurd (omega (arith, less, enough))
      drain (suc fuel) (d ∷ ys) s inv queue enough =
          let (less, grows) = onward s inv d ys queue in
          let (m, t, few, steps, kept, gone, grows') =
            drain fuel (next s d ys).queue (next s d ys) (next-Inv s inv d ys queue) refl
              (omega (arith, less, enough)) in
          (
            suc m,
            t,
            omega (arith, few, less),
            handle_first d ys queue steps,
            kept,
            gone,
            λ n there. grows' n (grows n there),
          )

      -- Where the workers' decoder reads back the id of an encoded message: from every reachable
      -- state the workers empty the queue by handling its first delivery again and again, whatever
      -- the reads and the engine answer to each handling, whichever calls of the engine are lost and
      -- whichever status writes are refused, as long as no settlement is lost. It takes at most
      -- four handlings for each message, less the deaths that it has had. Then each execution that
      -- was there has "success" or "failed" for its last status, or its message was given up.
      pub Reachable-drains :
          {s : System}
          → Reachable broker F factory decode s
          → (n : ℕ) × (t : System) × (n ≤ left s.queue)
            × Emptied n s t
            × (t.queue ≡ [])
            × ((n : ℕ) → s.rows n ≢ [] → Over (t.rows n) ⊎ Any (Names decode n) t.given_up)
      unfolding Drained
      Reachable-drains {s} reach =
          let (m, t, few, steps, inv, gone, grows) =
            drain (left s.queue) s.queue s (Reachable-Inv F broker factory decode readable reach)
              refl (omega arith) in
          (
            m,
            t,
            few,
            steps,
            gone,
            λ n there. elim (inv.waits n (grows n there)) [
              | inl over ↦ inl over
              | inr (inr g) ↦ inr g
              | inr (inl q) ↦ absurd (subst (Any (λ (d : Delivery). Names decode n d.body)) gone q)
            ],
          )
