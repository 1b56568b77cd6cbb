-- ===== src/System/Lifecycle/Rows.antt =====
-- What the status writes of a run change: the row of its execution alone.
use workflow_automation_go_z.Common.{
  ℕ, String, Bool, true, false, map, append-nil, List, [], ◌∷◌, ◌++◌, ◌==◌, if◌then◌else◌, ◌≡◌, ◌≢◌,
  refl, sym, ap, ◌∙◌, inl, inr, Bool-cases, ==_iff, append_assoc,
}
use workflow_automation_go_z.System.State.{System, born, write, write_all, kept, kept-map}

-- The writes of these statuses to the execution with an id.
abbrev pub writes : ℕ → List String → List (ℕ × String)
writes id ws = map (λ w. (id, w)) ws

pub born_lem : (h : List String) → h ≢ [] → born h ≡ true
born_lem [] there = absurd (there refl)
born_lem (x ∷ h) there = refl

append-not_nil : (g : List String) (x : String) (h : List String) → g ++ x ∷ h ≢ []
append-not_nil [] x h e = cc
append-not_nil (y ∷ g) x h e = cc

append-nil_left : (g h : List String) → g ++ h ≡ [] → g ≡ []
append-nil_left [] h e = refl
append-nil_left (x ∷ g) h e = cc

-- Statuses change rows alone.
write_all-next : (ws : List (ℕ × String)) (s : System) → (write_all ws s).next_id ≡ s.next_id
unfolding write_all
write_all-next [] s = refl
write_all-next (w ∷ ws) s = write_all-next ws (write w s)

write_all-queue : (ws : List (ℕ × String)) (s : System) → (write_all ws s).queue ≡ s.queue
unfolding write_all
write_all-queue [] s = refl
write_all-queue (w ∷ ws) s = write_all-queue ws (write w s)

write_all-given : (ws : List (ℕ × String)) (s : System) → (write_all ws s).given_up ≡ s.given_up
unfolding write_all
write_all-given [] s = refl
write_all-given (w ∷ ws) s = write_all-given ws (write w s)

-- The state once a run of an execution has written what the database takes.
abbrev pub ran_state : System → ℕ → String → (ℕ → Bool) → System
ran_state s id status keep = write_all (writes id (kept keep ("running" ∷ status ∷ []))) s

module _ (s : System) (id : ℕ) (status : String) (keep : ℕ → Bool) where
  pub ran_state-next : (ran_state s id status keep).next_id ≡ s.next_id
  ran_state-next = write_all-next (writes id (kept keep ("running" ∷ status ∷ []))) s

  pub kept-writes :
      kept keep ((id, "running") ∷ (id, status) ∷ [])
      ≡ writes id (kept keep ("running" ∷ status ∷ []))
  kept-writes = kept-map {B = ℕ × String} (λ w. (id, w)) keep ("running" ∷ status ∷ [])

  pub ran_state-queue : (ran_state s id status keep).queue ≡ s.queue
  ran_state-queue = write_all-queue (writes id (kept keep ("running" ∷ status ∷ []))) s

  pub ran_state-given : (ran_state s id status keep).given_up ≡ s.given_up
  ran_state-given = write_all-given (writes id (kept keep ("running" ∷ status ∷ []))) s

write_all-rows :
    (id : ℕ) (ws : List String) (n : ℕ) (s : System)
    → s.rows n ≢ []
    → (n == id) ≡ true
    → (write_all (writes id ws) s).rows n ≡ s.rows n ++ ws
unfolding write_all
write_all-rows id [] n s old e = sym (append-nil _)
write_all-rows id (w ∷ ws) n s old e =
    let here : (write (id, w) s).rows n ≡ s.rows n ++ w ∷ [] =
      rw (e, born_lem (s.rows n) old) refl in
    write_all-rows id ws n (write (id, w) s)
      (λ empty. append-not_nil (s.rows n) w [] (sym here ∙ empty)) e
    ∙ ap (λ l. l ++ ws) here
    ∙ append_assoc (s.rows n) (w ∷ []) ws

write_all-other :
    (id : ℕ) (ws : List String) (n : ℕ) (s : System)
    → (n == id) ≡ false
    → (write_all (writes id ws) s).rows n ≡ s.rows n
unfolding write_all
write_all-other id [] n s e = refl
write_all-other id (w ∷ ws) n s e = write_all-other id ws n (write (id, w) s) e ∙ rw e refl

module _ (s : System) (id : ℕ) (there : s.rows id ≢ []) where
  -- Some statuses are written to their execution, and nothing to another one.
  pub writes-rows :
      (ws : List String) (n : ℕ)
      → (write_all (writes id ws) s).rows n ≡ (if n == id then s.rows n ++ ws else s.rows n)
  writes-rows ws n = elim (Bool-cases (n == id)) [
    | inl e ↦
        let same = (==_iff n id).0 e in
        write_all-rows id ws n s (λ empty. there (ap s.rows (sym same) ∙ empty)) e ∙ rw e refl
    | inr e ↦ write_all-other id ws n s e ∙ rw e refl
  ]

  pub writes_grow :
      (ws : List String) (n : ℕ) → s.rows n ≢ [] → (write_all (writes id ws) s).rows n ≢ []
  writes_grow ws n old empty = elim (Bool-cases (n == id)) [
    | inl e ↦ old (append-nil_left (s.rows n) ws (sym (writes-rows ws n ∙ rw e refl) ∙ empty))
    | inr e ↦ old (sym (writes-rows ws n ∙ rw e refl) ∙ empty)
  ]
