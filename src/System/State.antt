-- ===== src/System/State.antt =====
-- The state of the whole program that its parts share: the rows of executions, the run queue and what
-- the database and the broker do to them. Neither is code of the repository: what is taken of them is
-- that an insert gets the next free id, that a status, if it is written, goes to the row with its id,
-- and that a delivery that is handed back comes again.
use workflow_automation_go_z.Common.{
  ℕ, suc, append-nil, append_assoc, refl, ap, ◌∙◌, ◌^◌, String, Bool, true, false, ◌&&◌, List, [],
  arith, ◌∷◌, ◌++◌, map, inl, inr, Bool-cases, pos, ◌==◌, ltb, if◌then◌else◌, ◌≡◌,
}
use workflow_automation_go_z.Worker.{Delivery, death_count}
use workflow_automation_go_z.Worker.Retry.{Redelivery}

pub record System : Type 0 where
  -- the statuses that were written to the execution with an id, oldest first; no row has none
  pub rows : ℕ → List String
  pub next_id : ℕ
  pub queue : List Delivery
  -- the bodies of the messages that were never published, that a worker has dropped after the last
  -- retry, or that it has acknowledged after a run of which the database refused a status; the
  -- program keeps no record of them
  pub given_up : List String

abbrev pub born : List String → Bool
born [] = false
born (_ ∷ _) = true

-- How a message that is published arrives, and how one that is handed back comes again.
pub record Broker : Type 0 where
  pub arrive : String → Delivery
  pub arrive_body : (body : String) → (arrive body).body ≡ body
  pub arrive_count : (body : String) → death_count (arrive body).headers ≡ pos 0
  pub redelivery : Redelivery

unfoldable pub insert : String → System → System
insert status s = record s {
  rows = λ n. if n == s.next_id then status ∷ [] else s.rows n;
  next_id = suc s.next_id;
}

-- A status is written to a row that is there.
unfoldable pub write : ℕ × String → System → System
write (id, status) s = record s {
  rows = λ n. if (n == id) && born (s.rows n) then s.rows n ++ status ∷ [] else s.rows n;
}

unfoldable pub write_all : List (ℕ × String) → System → System
unfolding write
write_all [] s = s
write_all (w ∷ ws) s = write_all ws (write w s)

-- Those of some writes that the database does not refuse.
abbrev pub kept {ℓ} : {A : Type ℓ} → (ℕ → Bool) → List A → List A
kept keep [] = []
kept keep (x ∷ xs) = let rest = kept (λ i. keep (suc i)) xs in if keep 0 then x ∷ rest else rest

abbrev pub all_kept {ℓ} : {A : Type ℓ} → (ℕ → Bool) → List A → Bool
all_kept keep [] = true
all_kept keep (x ∷ xs) = keep 0 && all_kept (λ i. keep (suc i)) xs

pub kept-map {ℓ κ} :
    {A : Type ℓ} {B : Type κ} (f : A → B) (keep : ℕ → Bool) (xs : List A)
    → kept keep (map f xs) ≡ map f (kept keep xs)
kept-map f keep [] = refl
kept-map f keep (x ∷ xs) = elim (Bool-cases (keep 0)) [
  | inl e ↦ rw e (ap (λ l. f x ∷ l) (kept-map f (λ i. keep (suc i)) xs))
  | inr e ↦ rw e (kept-map f (λ i. keep (suc i)) xs)
]

pub kept-all {ℓ} :
    {A : Type ℓ} (keep : ℕ → Bool) (xs : List A) → all_kept keep xs ≡ true → kept keep xs ≡ xs
kept-all keep [] all = refl
kept-all keep (x ∷ xs) all = elim (Bool-cases (keep 0)) [
  | inl e ↦ rw e (ap (λ l. x ∷ l) (kept-all (λ i. keep (suc i)) xs (rw e at all)))
  | inr e ↦ absurd (ground (arith, all))
]

-- The state after the calls `t`, which come after the calls `pre`.
module _ {C : Type 0} (apply : List C → C → System → System) where
  unfoldable pub replay : List C → List C → System → System
  replay pre [] s = s
  replay pre (c ∷ t) s = replay (pre ++ c ∷ []) t (apply pre c s)

-- The ids end where those of an int64 do.
abbrev pub has_id : System → Bool
has_id s = ltb s.next_id (2 ^ 63)

-- A publication, which may fail.
unfoldable pub publish : Broker → Bool → String → System → System
publish broker true body s = record s { given_up = body ∷ s.given_up }
publish broker false body s = record s { queue = s.queue ++ broker.arrive body ∷ [] }

abbrev pub start : System
start = record { rows = λ n. []; next_id = 1; queue = []; given_up = [] }

module _ {C : Type 0} (apply : List C → C → System → System) where
  replay-append :
      (pre t u : List C) (s : System)
      → replay apply pre (t ++ u) s ≡ replay apply (pre ++ t) u (replay apply pre t s)
  unfolding replay
  replay-append pre [] u s = rw (append-nil pre) refl
  replay-append pre (c ∷ t) u s =
      replay-append (pre ++ c ∷ []) t u (apply pre c s)
      ∙ ap (λ p. replay apply p u (replay apply (pre ++ c ∷ []) t (apply pre c s)))
          (append_assoc pre (c ∷ []) t)

  pub after-snoc :
      (t : List C) (c : C) (s : System)
      → replay apply [] (t ++ c ∷ []) s ≡ apply t c (replay apply [] t s)
  unfolding replay
  after-snoc t c s = replay-append [] t (c ∷ []) s
