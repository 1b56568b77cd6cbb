-- ===== src/Scheduler/Due.antt =====
-- At which minutes a cron expression is due.
use workflow_automation_go_z.Common.{
  ℕ, ◌+◌, ◌-◌, ◌%◌, ◌≤◌, ◌<◌, true, ◌≡◌, ◌↔◌, arith, ltb→lt, lt→ltb,
}
use workflow_automation_go_z.Scheduler.{minute, second, is_due}

-- A cron expression of five fields, by its method `Next`: the times at which it fires are whole
-- minutes, and `Next` is the first of them that is later.
pub record IsSchedule (next : ℕ → ℕ) (Fires : ℕ → Type 0) : Type 0 where
  pub on_minute : (t : ℕ) → Fires t → t % minute ≡ 0
  pub next_fires : (t : ℕ) → Fires (next t)
  pub next_later : (t : ℕ) → t < next t
  pub next_least : (t f : ℕ) → t < f → Fires f → next t ≤ f

module _ (next : ℕ → ℕ) (Fires : ℕ → Type 0) (s : IsSchedule next Fires) (at : ℕ)
    (late : minute ≤ at) (whole : at % minute ≡ 0) where
  next_is_at : next (at - minute) < at + second → next (at - minute) ≡ at
  next_is_at h = omega (
    arith,
    s.on_minute (next (at - minute)) (s.next_fires (at - minute)),
    s.next_later (at - minute),
  )

  -- At a whole minute, past the first, a schedule is due exactly if it fires at that minute: not at
  -- the minute before it, which the previous check has seen, and not later.
  pub is_due_iff : (is_due next at ≡ true) ↔ Fires at
  unfolding is_due
  is_due_iff = (
    λ h. rw (next_is_at (ltb→lt _ _ h)) at (s.next_fires (at - minute)),
    λ f. lt→ltb _ _ (omega (arith, s.next_least (at - minute) at (omega arith) f)),
  )

-- A schedule without a time left to come answers the zero time, and is due at every minute.
pub is_due-never_fires : (next : ℕ → ℕ) (at : ℕ) → ((t : ℕ) → next t ≡ 0) → is_due next at ≡ true
unfolding is_due
is_due-never_fires next at never = rw never (lt→ltb _ _ (omega arith))
