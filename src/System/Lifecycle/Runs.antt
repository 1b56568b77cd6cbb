-- ===== src/System/Lifecycle/Runs.antt =====
-- A run of an execution, and the three ways in which its delivery leaves the queue, keep the invariant.
use mathlib.Core.Path.{subst}
use workflow_automation_go_z.Common.{
  ℕ, suc, ◌≤◌, String, Bool, true, Option, List, [], ◌∷◌, ◌++◌, pos, ◌==◌, ◌≡◌, ◌≢◌, refl, sym, ap,
  ◌∙◌, ◌⊎◌, inl, inr, Bool-cases, ==_iff, append_assoc, All, Any, All-append, All-split, Any-left,
  Any-right, Any-split,
}
use workflow_automation_go_z.Queue.{ExecutionMessage}
use workflow_automation_go_z.Worker.{Delivery, death_count}
use workflow_automation_go_z.System.State.{System, kept, all_kept, kept-all}
use workflow_automation_go_z.System.Lifecycle.Rows.{
  ran_state, ran_state-next, ran_state-queue, ran_state-given, writes-rows, writes_grow,
}
use workflow_automation_go_z.System.Lifecycle.Inv.{
  Ended, Lived, ran, Names, Sound, Sound-mono, Waits, Over, Inv, queue-Inv,
}

module _ (decode : String → Option ExecutionMessage) (s : System) (inv : Inv decode s) where
  module _ (id : ℕ) (there : s.rows id ≢ []) where
    module _ (status : String) (ended : Ended status) (keep : ℕ → Bool) where
      abbrev ran_here : System
      ran_here = ran_state s id status keep

      abbrev wrote : List String
      wrote = kept keep ("running" ∷ status ∷ [])

      ran_lived : (n : ℕ) → ran_here.rows n ≢ [] → Lived (ran_here.rows n)
      ran_lived n h = elim (Bool-cases (n == id)) [
        | inl e ↦
            ran (inv.lived n (λ empty. there (ap s.rows (sym ((==_iff n id).0 e)) ∙ empty))) ended
              keep (writes-rows s id there wrote n ∙ rw e refl)
        | inr e ↦
            let same : ran_here.rows n ≡ s.rows n = writes-rows s id there wrote n ∙ rw e refl in
            rw same (inv.lived n (λ empty. h (same ∙ empty)))
      ]

      ran_or_left :
          Waits decode s.queue s.given_up id
          → (n : ℕ) → ran_here.rows n ≢ []
          → Over (ran_here.rows n) ⊎ Waits decode s.queue s.given_up n
      ran_or_left here n h = elim (Bool-cases (n == id)) [
        | inl e ↦ inr (subst (Waits decode s.queue s.given_up) (sym ((==_iff n id).0 e)) here)
        | inr e ↦
            let same : ran_here.rows n ≡ s.rows n = writes-rows s id there wrote n ∙ rw e refl in
            elim (inv.waits n (λ empty. h (same ∙ empty))) [
              | inl over ↦ inl (subst Over (sym same) over)
              | inr w ↦ inr w
            ]
      ]

      -- A run keeps the invariant while a message of its execution waits.
      pub run-Inv : Waits decode s.queue s.given_up id → Inv decode ran_here
      run-Inv here = record {
        small = rw (ran_state-next s id status keep) inv.small;
        unborn = λ n h. writes-rows s id there wrote n ∙ elim (Bool-cases (n == id)) [
          | inl e ↦ absurd (
              there (
                ap s.rows (sym ((==_iff n id).0 e))
                ∙ inv.unborn n (rw (ran_state-next s id status keep) at h)))
          | inr e ↦ rw e (inv.unborn n (rw (ran_state-next s id status keep) at h))
        ];
        lived = ran_lived;
        queued = rw (ran_state-queue s id status keep) (
            Sound-mono decode s.rows ran_here.rows (writes_grow s id there wrote) s.queue
              inv.queued);
        waits =
            rw (ran_state-queue s id status keep, ran_state-given s id status keep)
              (ran_or_left here);
      }

      -- Where nothing is refused, the run is over.
      pub run-Over : all_kept keep ("running" ∷ status ∷ []) ≡ true → Over (ran_here.rows id)
      run-Over all = (
        s.rows id ++ "running" ∷ [],
        status,
        ended,
        writes-rows s id there wrote id
            ∙ rw ((==_iff id id).1 refl) (
                ap (λ l. s.rows id ++ l) (kept-all keep ("running" ∷ status ∷ []) all)
                ∙ sym (append_assoc (s.rows id) ("running" ∷ []) (status ∷ []))),
      )

  -- A delivery between `xs` and `ys` in the queue.
  module _ (xs : List Delivery) (d : Delivery) (ys : List Delivery)
      (queue : s.queue ≡ xs ++ d ∷ ys) where
    sound_parts :
        All (Sound decode s.rows) xs × (Sound decode s.rows d) × All (Sound decode s.rows) ys
    sound_parts =
        let (before, (here, after)) =
          All-split (Sound decode s.rows) xs (d ∷ ys)
            (subst (All (Sound decode s.rows)) queue inv.queued) in
        (before, here, after)

    pub taken-Sound : Sound decode s.rows d
    taken-Sound = sound_parts.1

    -- What waits in the queue is the delivery or one of the others.
    Waits-split :
        (n : ℕ)
        → Waits decode s.queue s.given_up n
        → Names decode n d.body ⊎ Waits decode (xs ++ ys) s.given_up n
    Waits-split n (inr g) = inr (inr g)
    Waits-split n (inl q) =
        let P = λ (d : Delivery). Names decode n d.body in
        elim (Any-split P xs (d ∷ ys) (subst (Any P) queue q)) [
          | inl a ↦ inr (inl (Any-left P xs ys a))
          | inr (inl h) ↦ inl h
          | inr (inr b) ↦ inr (inl (Any-right P xs ys b))
        ]

    rest-Sound : All (Sound decode s.rows) (xs ++ ys)
    rest-Sound = All-append (Sound decode s.rows) xs ys sound_parts.0 sound_parts.2

    -- The execution of the delivery, or one that is over, or waits without the delivery.
    split_row :
        (n : ℕ)
        → s.rows n ≢ []
        → Names decode n d.body ⊎ (Over (s.rows n) ⊎ Waits decode (xs ++ ys) s.given_up n)
    split_row n there = elim (inv.waits n there) [
      | inl over ↦ inr (inl over)
      | inr w ↦ elim (Waits-split n w) [ inl names ↦ inl names | inr other ↦ inr (inr other) ]
    ]

    -- A delivery may go for good if its execution is over.
    pub acked-Inv :
        ((n : ℕ) → Names decode n d.body → Over (s.rows n))
        → Inv decode (record s { queue = xs ++ ys })
    acked-Inv moved = queue-Inv decode s (xs ++ ys) s.given_up inv rest-Sound (λ n there.
        elim (split_row n there) [ inl names ↦ inl (moved n names) | inr other ↦ other ])

    pub dropped-Inv : Inv decode (record s { queue = xs ++ ys; given_up = d.body ∷ s.given_up })
    dropped-Inv = queue-Inv decode s (xs ++ ys) (d.body ∷ s.given_up) inv rest-Sound (λ n there.
        elim (split_row n there) [
          | inl names ↦ inr (inr (inl names))
          | inr (inl over) ↦ inl over
          | inr (inr (inl q)) ↦ inr (inl q)
          | inr (inr (inr g)) ↦ inr (inr (inr g))
        ])

    pub again-Inv :
        (d' : Delivery)
        → d'.body ≡ d.body
        → ((k : ℕ)
            → death_count d.headers ≡ pos k
            → k ≤ 3
            → death_count d'.headers ≡ pos (suc k) × (suc k ≤ 3))
        → Inv decode (record s { queue = xs ++ (ys ++ d' ∷ []) })
    again-Inv d' same counts =
        let (m, decoded, there, k, count, few) = taken-Sound in
        let (count', few') = counts k count few in
        let new : Sound decode s.rows d' =
          (m, ap decode same ∙ decoded, there, suc k, count', few') in
        queue-Inv decode s (xs ++ (ys ++ d' ∷ [])) s.given_up inv
          (All-append (Sound decode s.rows) xs (ys ++ d' ∷ []) sound_parts.0
            (All-append (Sound decode s.rows) ys (d' ∷ []) sound_parts.2 (new, tt)))
          (λ n old.
            let P = λ (d : Delivery). Names decode n d.body in
            elim (split_row n old) [
              | inl names ↦ inr (
                  inl (
                    Any-right P xs (ys ++ d' ∷ [])
                      (Any-right P ys (d' ∷ []) (inl (rw same names)))))
              | inr (inl over) ↦ inl over
              | inr (inr (inl q)) ↦ inr (
                  inl (elim (Any-split P xs ys q) [
                    | inl a ↦ Any-left P xs (ys ++ d' ∷ []) a
                    | inr b ↦ Any-right P xs (ys ++ d' ∷ []) (Any-left P ys (d' ∷ []) b)
                  ]))
              | inr (inr (inr g)) ↦ inr (inr g)
            ])
