-- ===== src/Common/Lists.antt =====
-- Lists measured by native numbers, under the library's names.
use Prim.Native.Nat.{ℕ, zero, suc, ◌+◌}
use mathlib.Core.Path.{◌≡◌}
use mathlib.Core.List.{List, [], ◌∷◌, ◌++◌}
use mathlib.Core.Logic.{◌⊎◌, inl, inr}
use native.Mathlib.Omega.{arith}

module _ {ℓ} {A : Type ℓ} where
  abbrev pub length : List A → ℕ
  length [] = 0
  length (x ∷ xs) = suc (length xs)

  abbrev pub replicate : ℕ → A → List A
  replicate zero a = []
  replicate (suc n) a = a ∷ replicate n a

  pub length-append : (xs ys : List A) → length (xs ++ ys) ≡ length xs + length ys
  length-append [] ys = omega arith
  length-append (x ∷ xs) ys = omega (arith, length-append xs ys)

-- Every member of a list has a property, or some member has it.
module _ {ℓ} {A : Type ℓ} (P : A → Type 0) where
  abbrev pub All : List A → Type 0
  All [] = Unit
  All (x ∷ xs) = P x × All xs

  abbrev pub Any : List A → Type 0
  Any [] = ⊥
  Any (x ∷ xs) = P x ⊎ Any xs

  pub All-append : (xs ys : List A) → All xs → All ys → All (xs ++ ys)
  All-append [] ys h k = k
  All-append (x ∷ xs) ys (p, h) k = (p, All-append xs ys h k)

  pub All-split : (xs ys : List A) → All (xs ++ ys) → All xs × All ys
  All-split [] ys h = (tt, h)
  All-split (x ∷ xs) ys (p, h) = let (a, b) = All-split xs ys h in ((p, a), b)

  pub Any-left : (xs ys : List A) → Any xs → Any (xs ++ ys)
  Any-left [] ys h = elim h [ ]
  Any-left (x ∷ xs) ys (inl p) = inl p
  Any-left (x ∷ xs) ys (inr h) = inr (Any-left xs ys h)

  pub Any-right : (xs ys : List A) → Any ys → Any (xs ++ ys)
  Any-right [] ys h = h
  Any-right (x ∷ xs) ys h = inr (Any-right xs ys h)

  pub Any-split : (xs ys : List A) → Any (xs ++ ys) → Any xs ⊎ Any ys
  Any-split [] ys h = inr h
  Any-split (x ∷ xs) ys (inl p) = inl (inl p)
  Any-split (x ∷ xs) ys (inr h) = elim (Any-split xs ys h) [ inl a ↦ inl (inr a) | inr b ↦ inr b ]

pub All-mono {ℓ} :
    {A : Type ℓ} (P Q : A → Type 0) (xs : List A) → ((x : A) → P x → Q x) → All P xs → All Q xs
All-mono P Q [] f h = tt
All-mono P Q (x ∷ xs) f (p, h) = (f x p, All-mono P Q xs f h)
