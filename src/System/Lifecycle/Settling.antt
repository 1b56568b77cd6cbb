-- ===== src/System/Lifecycle/Settling.antt =====
-- What becomes of a delivery that is handled, and that it keeps the invariant.
use mathlib.Core.Path.{subst}
use workflow_automation_go_z.Common.{
  Bool, true, not, Bool-cases, suc, ◌≤◌, Any, Any-right, if◌then◌else◌, ℕ, ◌<◌, String, Option,
  some, List, [], ◌∷◌, ◌++◌, pos, ◌≡◌, ◌≢◌, refl, sym, ap, ◌∙◌, ◌⊎◌, inl, inr, arith,
}
use workflow_automation_go_z.Queue.{ExecutionMessage}
use workflow_automation_go_z.Engine.Outside as Engine
use workflow_automation_go_z.Engine.Runner.{RunnerFactory}
use workflow_automation_go_z.Worker
use workflow_automation_go_z.Worker.{Delivery, death_count, at_least}
use workflow_automation_go_z.System.State.{System, Broker, write_all, all_kept}
use workflow_automation_go_z.System.Lifecycle.{handled, unsettled, settled_queue, dropped}
use workflow_automation_go_z.System.Lifecycle.Inv.{Ended, Names, Sound, Waits, Over, Inv}
use workflow_automation_go_z.System.Lifecycle.Rows.{
  ran_state, kept-writes, ran_state-queue, ran_state-given,
}
use workflow_automation_go_z.System.Lifecycle.Runs.{
  run-Inv, run-Over, taken-Sound, acked-Inv, dropped-Inv, again-Inv,
}
use workflow_automation_go_z.System.Lifecycle.Handled.{Outcome, outcome}
use workflow_automation_go_z.System.Lifecycle.Handled

module _ (F : Type 0) (broker : Broker) (factory : RunnerFactory)
    (decode : String → Option ExecutionMessage) where
  -- What may become of a delivery between `xs` and `ys` in the queue, in a database that takes the
  -- status writes that `keep` says.
  module _ (own : Worker.World) (keep : ℕ → Bool) (s : System) (xs : List Delivery) (d : Delivery)
      (ys : List Delivery) where
    abbrev pub Few : Type 0
    Few = (k : ℕ) × (death_count d.headers ≡ pos k) × (k < 3)

    -- It comes again, in the state that this one is in then.
    abbrev pub again : System → System
    again t = record t {
      queue = xs ++ (ys ++ broker.redelivery.again d ∷ []);
      given_up = s.given_up;
    }

    -- It is gone for good, and counts as given up if a status of its run was refused.
    abbrev pub gone : String → System → System
    gone status t = record t {
      queue = xs ++ ys;
      given_up =
          if not (all_kept keep ("running" ∷ status ∷ [])) then d.body ∷ s.given_up else s.given_up;
    }

    abbrev pub Settled : System → Type 0
    Settled t =
        ((death_count d.headers ≡ pos 3)
          × (t ≡ record s { queue = xs ++ ys; given_up = d.body ∷ s.given_up }))
        ⊎ ((Few × (t ≡ again s))
            ⊎ (Few
                × (n : ℕ) × (status : String) × Names decode n d.body
                × (s.rows n ≢ [])
                × Ended status
                × (((u : List Worker.Call) × (r : Worker.RunExecutionReq) × (own.engine_fails u r
                        ≡ true)
                      × (t ≡ again (ran_state s n status keep)))
                    ⊎ (t ≡ gone status (ran_state s n status keep)))))

  module _ (own : Worker.World) (w : Engine.World F) (keep : ℕ → Bool) (s : System)
      (inv : Inv decode s) (xs : List Delivery) (d : Delivery) (ys : List Delivery)
      (queue : s.queue ≡ xs ++ d ∷ ys) where
    abbrev pub next : System
    next = handled broker F factory decode own w d s keep xs ys

    sound : Sound decode s.rows d
    sound = taken-Sound decode s inv xs d ys queue

    pub settles : Settled own keep s xs d ys next
    unfolding handled settled_queue dropped
    settles =
        let (m, decoded, there, k, count, few) = sound in
        elim (outcome F broker factory decode own w s d inv sound) [
          | Handled.dropped out acked quiet ↦
              inl (ground (arith), rw (acked, out, quiet) (unfold write_all in refl))
          | Handled.requeued left nacked quiet ↦
              inr (
                inl ((k, count, ground arith), rw (nacked, left, quiet) (unfold write_all in refl)))
          | Handled.unanswered left nacked u r lost n status (names, old, ended, wrote) ↦ inr (
              inr (
                (k, count, ground arith),
                n,
                status,
                names,
                old,
                ended,
                inl (
                  u,
                  r,
                  lost,
                  rw (nacked, left, wrote)
                      (ap (λ ws. again own keep s xs d ys (write_all ws s))
                        (kept-writes s n status keep)),
                ),
              ))
          | Handled.ran left acked n status (names, old, ended, wrote) ↦ inr (
              inr (
                (k, count, ground arith),
                n,
                status,
                names,
                old,
                ended,
                inr (
                    rw (acked, left, wrote)
                      (ap (λ ws. gone own keep s xs d ys status (write_all ws s))
                        (kept-writes s n status keep))),
              ))
        ]

    -- A body names one execution.
    Names-one : (i j : ℕ) → Names decode i d.body → Names decode j d.body → i ≡ j
    Names-one i j (m, e, is) (m', e', is') =
        let same : some m ≡ some m' = sym e ∙ e' in ground arith

    -- The message in the queue, while its execution runs.
    here : (n : ℕ) → Names decode n d.body → Waits decode s.queue s.given_up n
    here n names = inl (
        subst (Any (λ (d : Delivery). Names decode n d.body)) (sym queue)
          (Any-right (λ d. Names decode n d.body) xs (d ∷ ys) (inl names)))

    module _ (n : ℕ) (status : String) (names : Names decode n d.body) (there : s.rows n ≢ [])
        (ended : Ended status) where
      abbrev ran_on : System
      ran_on = ran_state s n status keep

      ran-Inv : Inv decode ran_on
      ran-Inv = run-Inv decode s inv n there status ended keep (here n names)

      ran_queue : ran_on.queue ≡ xs ++ d ∷ ys
      ran_queue = ran_state-queue s n status keep ∙ queue

      gone-Inv : Inv decode (gone own keep s xs d ys status ran_on)
      gone-Inv = elim (Bool-cases (all_kept keep ("running" ∷ status ∷ []))) [
        | inl all ↦ rw all (
            subst (λ g. Inv decode (record ran_on { queue = xs ++ ys; given_up = g }))
              (ran_state-given s n status keep)
              (acked-Inv decode ran_on ran-Inv xs d ys ran_queue (λ j other.
                subst (λ i. Over (ran_on.rows i)) (Names-one n j names other)
                  (run-Over decode s inv n there status ended keep all))))
        | inr some_lost ↦ rw some_lost (
            subst (λ g. Inv decode (record ran_on { queue = xs ++ ys; given_up = d.body ∷ g }))
              (ran_state-given s n status keep)
              (dropped-Inv decode ran_on ran-Inv xs d ys ran_queue))
      ]

    again_counts :
        Few own keep s xs d ys
        → (j : ℕ) → death_count d.headers ≡ pos j
        → j ≤ 3
        → death_count (broker.redelivery.again d).headers ≡ pos (suc j) × (suc j ≤ 3)
    again_counts (k, count, few) j c _ =
        let same : pos j ≡ pos k = sym c ∙ count in (broker.redelivery.counts d j c, ground arith)

    pub Settled-Inv : (t : System) → Settled own keep s xs d ys t → Inv decode t
    Settled-Inv t (inl (count, eq)) =
        subst (Inv decode) (sym eq) (dropped-Inv decode s inv xs d ys queue)
    Settled-Inv t (inr (inl (few, eq))) = subst (Inv decode) (sym eq) (
        again-Inv decode s inv xs d ys queue (broker.redelivery.again d)
          (broker.redelivery.keeps_body d) (again_counts few))
    Settled-Inv t (inr (inr (few, n, status, names, there, ended, inl (u, r, lost, eq)))) =
        subst (Inv decode) (sym eq) (
          subst
            (λ g. Inv decode (record (ran_on n status names there ended) {
              queue = xs ++ (ys ++ broker.redelivery.again d ∷ []);
              given_up = g;
            }))
            (ran_state-given s n status keep)
            (again-Inv decode (ran_on n status names there ended)
              (ran-Inv n status names there ended) xs d ys (ran_queue n status names there ended)
              (broker.redelivery.again d) (broker.redelivery.keeps_body d) (again_counts few)))
    Settled-Inv t (inr (inr (few, n, status, names, there, ended, inr eq))) =
        subst (Inv decode) (sym eq) (gone-Inv n status names there ended)

    pub unsettled-Inv : Inv decode (unsettled broker F factory decode own w d s keep)
    unfolding unsettled
    unsettled-Inv = elim (outcome F broker factory decode own w s d inv sound) [
      | Handled.dropped out acked quiet ↦ rw quiet (unfold write_all in inv)
      | Handled.requeued left nacked quiet ↦ rw quiet (unfold write_all in inv)
      | Handled.unanswered left nacked u r lost n status (names, there, ended, wrote) ↦
          rw (wrote, kept-writes s n status keep) (ran-Inv n status names there ended)
      | Handled.ran left acked n status (names, there, ended, wrote) ↦
          rw (wrote, kept-writes s n status keep) (ran-Inv n status names there ended)
    ]
