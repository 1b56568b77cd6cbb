-- ===== src/Playground/FanOut.antt =====
-- `runFanOut` of playground/step_runner_demo.go: a goroutine for each step sends its result on a
-- channel with room for all of them, and the main goroutine prints as many results as there are steps. The line in front of them
-- is left out.
use mathlib.Core.List.{Perm, perm_middle, map-append}
use mathlib.Core.List.Perm
use mathlib.Core.Path.{subst}
use workflow_automation_go_z.Common.{
  ℕ, suc, ◌+◌, ◌≤◌, ◌<◌, String, List, [], ◌∷◌, ◌++◌, map, ◌<>◌, ◌≡◌, refl, ap, none, ◌>>=◌, ◌∙◌,
  ◌⊎◌, inl, inr, arith, length, length-append, append_assoc, append-nil,
}
use workflow_automation_go_z.Value.{string, single}
use workflow_automation_go_z.Playground.{
  StepRunner, http_step, transform_step, Outcome, output, failed, World, output_of, error, run,
}

pub record StepResult (F : Type 0) : Type 0 where
  pub step_id : String
  pub result : Outcome F

abbrev pub NamedRunner : Type 0
NamedRunner = String × StepRunner

abbrev pub runners : List NamedRunner
runners =
    ("step1", http_step "https://api.example.com/users")
    ∷ ("step2", http_step "https://api.example.com/products")
    ∷ ("step3", transform_step "summary")
    ∷ ("step4", http_step "https://api.example.com/orders")
    ∷ ("step5", transform_step "report")
    ∷ []

-- The goroutines that have not sent yet, what waits in the channel, and what is printed.
pub record FanOut (F : Type 0) : Type 0 where
  pub running : List NamedRunner
  pub channel : List (StepResult F)
  pub printed : List String

module _ {F : Type 0} (w : World F) where
  -- `context.Background()` is never done.
  abbrev pub background : World F
  background = record w { done = λ t. none }

  -- What a goroutine sends.
  unfoldable pub result_of : NamedRunner → StepResult F
  unfolding run
  result_of (id, r) = record {
    step_id = id;
    result = (run background r (single "from" (string id)) []).0;
  }

  unfoldable pub result_line : StepResult F → String
  unfolding error
  result_line r = elim (r.result) [
    | failed e ↦ "  [" <> r.step_id <> "] ERROR: " <> error e <> "\n"
    | output out ↦ "  [" <> r.step_id <> "] OK: " <> w.sprint out <> "\n"
  ]

  -- With a channel of this capacity, for so many results to print.
  module _ (capacity : ℕ) where
    pub data Step (s : FanOut F) : FanOut F → Type 0 where
      send :
          (xs : List NamedRunner) (r : NamedRunner) (ys : List NamedRunner)
          → s.running ≡ xs ++ r ∷ ys
          → length s.channel < capacity
          → Step s (record s { running = xs ++ ys; channel = s.channel ++ result_of r ∷ [] })
      receive :
          (r : StepResult F) (rest : List (StepResult F))
          → s.channel ≡ r ∷ rest
          → length s.printed < capacity
          → Step s (record s { channel = rest; printed = s.printed ++ result_line r ∷ [] })

    pub data Reached (rs : List NamedRunner) : FanOut F → Type 0 where
      first : Reached rs (record { running = rs; channel = []; printed = [] })
      later : {s t : FanOut F} → Reached rs s → Step s t → Reached rs t

  -- The line that the OK of a step prints.
  abbrev pub ok_line : NamedRunner → String
  ok_line (id, r) =
      "  [" <> id <> "] OK: " <> w.sprint (output_of w r (single "from" (string id))) <> "\n"

  ok_line_lem : (r : NamedRunner) → result_line (result_of r) ≡ ok_line r
  unfolding result_of result_line ◌>>=◌
  ok_line_lem (id, r) = refl

-- A member that is moved from one part of a list to another.
module _ {A : Type 0} (x : A) where
  in_middle : (ws cs ps : List A) → Perm (ws ++ (cs ++ x ∷ ps)) (x ∷ (ws ++ (cs ++ ps)))
  in_middle ws cs ps =
      Perm.trans (Perm.append_left ws (perm_middle cs ps)) (perm_middle ws (cs ++ ps))

  move_second :
      (xs ys cs ps : List A)
      → Perm ((xs ++ ys) ++ ((cs ++ x ∷ []) ++ ps)) ((xs ++ x ∷ ys) ++ (cs ++ ps))
  move_second xs ys cs ps =
      let sent : Perm ((xs ++ ys) ++ ((cs ++ x ∷ []) ++ ps)) (x ∷ ((xs ++ ys) ++ (cs ++ ps))) =
        rw (append_assoc cs (x ∷ []) ps) (in_middle (xs ++ ys) cs ps) in
      let front : Perm ((xs ++ x ∷ ys) ++ (cs ++ ps)) (x ∷ ((xs ++ ys) ++ (cs ++ ps))) =
        rw (append_assoc xs (x ∷ ys) (cs ++ ps), append_assoc xs ys (cs ++ ps))
          (perm_middle xs (ys ++ (cs ++ ps))) in
      Perm.trans sent (Perm.symm front)

  move_third : (ws cs ps : List A) → Perm (ws ++ (cs ++ (ps ++ x ∷ []))) (ws ++ ((x ∷ cs) ++ ps))
  move_third ws cs ps = Perm.append_left ws (
      subst (λ (l : List A). Perm (cs ++ (ps ++ x ∷ [])) (x ∷ (cs ++ l))) (append-nil ps)
        (in_middle cs ps []))

module _ {F : Type 0} (w : World F) where
  -- The lines that are still to be sent, in the channel, and printed.
  abbrev lines : List NamedRunner → List (StepResult F) → List String → List String
  lines running channel printed =
      map (ok_line w) running ++ (map (result_line w) channel ++ printed)

  send-lines :
      (xs : List NamedRunner) (r : NamedRunner) (ys : List NamedRunner)
      (channel : List (StepResult F)) (printed : List String)
      → Perm
          (lines (xs ++ ys) (channel ++ result_of w r ∷ []) printed)
          (lines (xs ++ r ∷ ys) channel printed)
  send-lines xs r ys channel printed =
      simp (map-append, ok_line_lem w r)
        (move_second (ok_line w r) (map (ok_line w) xs) (map (ok_line w) ys)
          (map (result_line w) channel) printed)

  module _ (rs : List NamedRunner) where
    record Inv (s : FanOut F) : Type 0 where
      all_lines : Perm (lines s.running s.channel s.printed) (map (ok_line w) rs)
      counted : length s.running + length s.channel + length s.printed ≡ length rs

    Step-Inv : (s t : FanOut F) → Inv s → Step w (length rs) s t → Inv t
    Step-Inv s _ inv (send xs r ys running room) = record {
      all_lines = Perm.trans (send-lines xs r ys s.channel s.printed) (
          subst (λ (l : List NamedRunner). Perm (lines l s.channel s.printed) (map (ok_line w) rs))
            running inv.all_lines);
      counted =
          let before : length s.running ≡ length xs + suc (length ys) =
            ap length running ∙ length-append xs (r ∷ ys) in
          omega
            (arith, length-append xs ys, length-append s.channel (result_of w r ∷ []), inv.counted);
    }
    Step-Inv s _ inv (receive r rest channel left) = record {
      all_lines =
          Perm.trans
            (move_third (result_line w r) (map (ok_line w) s.running) (map (result_line w) rest)
              s.printed)
            (subst
              (λ (l : List (StepResult F)). Perm (lines s.running l s.printed) (map (ok_line w) rs))
              channel inv.all_lines);
      counted =
          let before : length s.channel ≡ suc (length rest) = ap length channel in
          omega (arith, length-append s.printed (result_line w r ∷ []), inv.counted);
    }

    Reached-Inv : {s : FanOut F} → Reached w (length rs) rs s → Inv s
    Reached-Inv first = record {
      all_lines = rw (append-nil (map (ok_line w) rs)) Perm.rfl;
      counted = omega arith;
    }
    Reached-Inv (later {s} {t} reached step) = Step-Inv s t (Reached-Inv reached) step

    -- What a state that still has a line to print goes on with.
    next-step :
        (s : FanOut F)
        → Inv s
        → ((t : FanOut F) × Step w (length rs) s t) ⊎ Perm s.printed (map (ok_line w) rs)
    next-step s inv = go s.running s.channel refl refl
      where
        go :
            (running : List NamedRunner) (channel : List (StepResult F))
            → s.running ≡ running
            → s.channel ≡ channel
            → ((t : FanOut F) × Step w (length rs) s t) ⊎ Perm s.printed (map (ok_line w) rs)
        go (r ∷ ys) channel e f =
            let n : length s.running ≡ suc (length ys) = ap length e in
            inl (_, send [] r ys e (omega (arith, inv.counted)))
        go [] (r ∷ rest) e f =
            let n : length s.channel ≡ suc (length rest) = ap length f in
            inl (_, receive r rest f (omega (arith, inv.counted)))
        go [] [] e f = inr (
            subst (λ (l : List NamedRunner). Perm (lines l [] s.printed) (map (ok_line w) rs)) e
              (subst
                (λ (l : List (StepResult F)).
                  Perm (lines s.running l s.printed) (map (ok_line w) rs))
                f inv.all_lines))

    -- The fan-out never stands still before its end, however its goroutines are interleaved: in every
    -- state that it reaches, its channel holds at most as many results as there are steps, and either
    -- a goroutine can go on, or one line for each step has been printed, in some order, with the
    -- output of the step and no error.
    pub fan_out-prints :
        {s : FanOut F}
        → Reached w (length rs) rs s
        → (length s.channel ≤ length rs)
          × (((t : FanOut F) × Step w (length rs) s t) ⊎ Perm s.printed (map (ok_line w) rs))
    fan_out-prints {s} reached =
        let inv = Reached-Inv reached in (omega (arith, inv.counted), next-step s inv)
