-- ===== src/Common/Effects.antt =====
-- Code that calls the outside world (a database, a broker, a clock) as functions on the trace of the
-- calls made so far, oldest first. An answer of the outside is a function of that trace, so that it
-- may depend on everything that the code has done before.
use mathlib.Core.Path.{◌≡◌, refl, sym, ◌∙◌, ap}
use mathlib.Core.List.{List, [], ◌∷◌, ◌++◌, map, append-nil, append_assoc}

-- An action that makes calls of type `C` and returns an `A`.
abbrev pub Action : Type 0 → Type 0 → Type 0
Action C A = List C → A × List C

module _ {C A : Type 0} where
  pub pure : A → Action C A
  pure a t = (a, t)

  -- A call whose answer the code reads.
  pub ask : C → (List C → A) → Action C A
  ask c answer t = (answer t, t ++ c ∷ [])

-- A call whose result the code drops.
pub tell : {C : Type 0} → C → Action C (Unit {0})
tell c t = (tt, t ++ c ∷ [])

infixl 5 ◌>>=◌ ◌>>◌
-- Opening this opens `pure`, `ask` and `tell` too.
unfoldable pub ◌>>=◌ : {C A B : Type 0} → Action C A → (A → Action C B) → Action C B
unfolding pure ask tell
◌>>=◌ m f t = let (a, t') = m t in f a t'

abbrev pub ◌>>◌ : {C B : Type 0} → Action C (Unit {0}) → Action C B → Action C B
m >> k = m >>= λ _. k

-- What the calls of a trace show through a view, in order.
module _ {C V : Type 0} (view : C → List V) where
  abbrev pub collect : List C → List V
  collect [] = []
  collect (c ∷ t) = view c ++ collect t

  pub collect-append : (t u : List C) → collect (t ++ u) ≡ collect t ++ collect u
  collect-append [] u = refl
  collect-append (c ∷ t) u =
      rw (collect-append t u) (sym (append_assoc (view c) (collect t) (collect u)))

  pub collect-snoc : (t : List C) (c : C) → collect (t ++ c ∷ []) ≡ collect t ++ view c
  collect-snoc t c = collect-append t (c ∷ []) ∙ ap (λ l. collect t ++ l) (append-nil (view c))

  pub collect-snoc_quiet : (t : List C) (c : C) → view c ≡ [] → collect (t ++ c ∷ []) ≡ collect t
  collect-snoc_quiet t c e = collect-snoc t c ∙ ap (λ l. collect t ++ l) e ∙ append-nil (collect t)

  -- The action makes no call that the view shows.
  pub record Quiet {A : Type 0} (m : Action C A) : Type 0 where
    pub at : (t : List C) → collect (m t).1 ≡ collect t

  pub Quiet-pure : {A : Type 0} (a : A) → Quiet (pure a)
  unfolding pure
  Quiet-pure a = record { at = λ t. refl }

  pub Quiet-ask : {A : Type 0} (c : C) (answer : List C → A) → view c ≡ [] → Quiet (ask c answer)
  unfolding ask
  Quiet-ask c answer e = record { at = λ t. collect-snoc_quiet t c e }

  pub Quiet-tell : (c : C) → view c ≡ [] → Quiet (tell c)
  unfolding tell
  Quiet-tell c e = record { at = λ t. collect-snoc_quiet t c e }

  pub Quiet-bind :
      {A B : Type 0} (m : Action C A) (f : A → Action C B)
      → Quiet m
      → ((a : A) → Quiet (f a))
      → Quiet (m >>= f)
  unfolding ◌>>=◌
  Quiet-bind m f km kf = record { at = λ t. (kf (m t).0).at (m t).1 ∙ km.at t }

pub ruleset quiet_rules = (Quiet-pure, Quiet-ask, Quiet-tell, Quiet-bind)

-- Calls of one kind as a part of those of another. What the part is told may depend on what was called
-- before it.
unfoldable pub embed : {C D A : Type 0} → (C → D) → (List D → Action C A) → Action D A
embed f m t = let (a, u) = m t [] in (a, t ++ map f u)
