-- ===== src/System/Announces.antt =====
-- What the engine publishes on a channel while a step runs: no event that ends a stream.
use workflow_automation_go_z.Common.{
  String, Bool, true, false, List, [], ◌∷◌, ◌++◌, ◌≡◌, refl, sym, ap, ◌∙◌, inl, inr, str_eq,
  if◌then◌else◌, arith, Bool-cases, collect, collect-snoc, append-nil, append_assoc, Quiet,
  quiet_rules, ◌>>=◌, pure, ask, tell,
}
use workflow_automation_go_z.Engine.Outside.{Call, Trace, M, publish}
use workflow_automation_go_z.Gateway.Stream.{is_finished}
use workflow_automation_go_z.Gateway.Stream.Finished.{unfinished}

-- The payloads on a channel.
abbrev pub heard : String → Call → List String
heard c (publish channel payload) = if str_eq channel c then payload ∷ [] else []
heard c _ = []

pub unfinished-append :
    (ps qs : List String)
    → unfinished ps ≡ true
    → unfinished qs ≡ true
    → unfinished (ps ++ qs) ≡ true
unfinished-append [] qs h k = k
unfinished-append (p ∷ ps) qs h k = ground (arith, unfinished-append ps qs)

module _ (c : String) where
  -- What the action publishes on the channel ends no stream.
  pub record Announces {A : Type 0} (m : M A) : Type 0 where
    pub at :
        (t : Trace)
        → (ps : List String) × (collect (heard c) (m t).1 ≡ collect (heard c) t ++ ps)
          × (unfinished ps ≡ true)

  pub Quiet-Announces : {A : Type 0} (m : M A) → Quiet (heard c) m → Announces m
  Quiet-Announces m q = record { at = λ t. ([], q.at t ∙ sym (append-nil _), refl) }

  pub Announces-pure : {A : Type 0} (a : A) → Announces (pure a)
  Announces-pure a = Quiet-Announces (pure a) (search quiet_rules)

  pub Announces-ask :
      {A : Type 0} (k : Call) (answer : Trace → A) → heard c k ≡ [] → Announces (ask k answer)
  Announces-ask k answer e = Quiet-Announces (ask k answer) (search (quiet_rules, e))

  pub Announces-tell : (k : Call) → heard c k ≡ [] → Announces (tell k)
  Announces-tell k e = Quiet-Announces (tell k) (search (quiet_rules, e))

  pub Announces-publish :
      (channel payload : String)
      → is_finished payload ≡ false
      → Announces (tell (publish channel payload))
  Announces-publish channel payload e = record {
    at = λ t. elim (Bool-cases (str_eq channel c)) [
      | inl same ↦ (
        payload ∷ [],
        unfold ◌>>=◌ in (collect-snoc (heard c) t (publish channel payload) ∙ rw same refl),
        rw e refl,
      )
      | inr other ↦ (
        [],
        unfold ◌>>=◌ in (collect-snoc (heard c) t (publish channel payload) ∙ rw other refl),
        refl,
      )
    ];
  }

  pub Announces-bind :
      {A B : Type 0} (m : M A) (f : A → M B)
      → Announces m
      → ((a : A) → Announces (f a))
      → Announces (m >>= f)
  unfolding ◌>>=◌
  Announces-bind m f km kf = record {
    at = λ t.
        let (ps, eq, fine) = km.at t in
        let (qs, eq', fine') = (kf (m t).0).at (m t).1 in
        (
          ps ++ qs,
          eq' ∙ ap (λ l. l ++ qs) eq ∙ append_assoc (collect (heard c) t) ps qs,
          unfinished-append ps qs fine fine',
        );
  }

  pub Announces-if :
      {A : Type 0} (b : Bool) (m n : M A)
      → Announces m
      → Announces n
      → Announces (if b then m else n)
  Announces-if true m n km kn = km
  Announces-if false m n km kn = kn

pub ruleset announce_rules =
    (Announces-pure, Announces-ask, Announces-tell, Announces-bind, Announces-if)
