-- ===== src/Common/Text.antt =====
-- Go strings as native texts: concatenation, the decimal digits of `%d`, and code points.
pub mod Reading
use Prim.Native.Nat.{ℕ, zero, suc, ◌+◌, ◌<◌, ◌/◌, ◌%◌}
use Prim.Native.String
use Prim.Native.String.{String}
use mathlib.Core.Path.{◌≡◌, refl, ap, ◌∙◌}
use mathlib.Core.Bool.{Bool, true, not, ◌&&◌}
use mathlib.Core.Logic.{inl, inr}
use native.Mathlib.Omega.{arith}
use text.Mathlib.TextLemmas.{nil-append, cons-append}
use mathlib.Core.List.{List, [], ◌∷◌, ◌++◌}
use Prim.Native.Char.{code}
use workflow_automation_go_z.Common.Tests.{◌==◌, Bool-cases, if◌then◌else◌}

infixr 60 ◌<>◌
abbrev pub ◌<>◌ : String → String → String
a <> b = String.◌++◌ a b

-- The digit of a number below ten.
digit : ℕ → String
digit n =
    if n == 0
    then "0"
    else if n == 1
    then "1"
    else if n == 2
    then "2"
    else if n == 3
    then "3"
    else if n == 4
    then "4"
    else if n == 5
    then "5"
    else if n == 6
    then "6"
    else if n == 7
    then "7"
    else if n == 8
    then "8"
    else "9"

-- The digits of `n` in front of `out`. The fuel is the number itself and one more, which is at
-- least the count of its digits.
digits : ℕ → ℕ → String → String
unfolding digit
digits zero n out = out
digits (suc fuel) n out =
    let rest = digits fuel (n / 10) (digit (n % 10) <> out) in
    if n / 10 == 0 then digit (n % 10) <> out else rest

-- `%d` and `strconv`-style printing of a number that is not negative.
unfoldable pub decimal : ℕ → String
unfolding digits
decimal n = digits (suc n) n ""

-- The code points of a text. `String` has its own `[]` and `∷`.
abbrev pub codes : String → List ℕ
codes String.[] = []
codes (String.◌∷◌ c s) = code c ∷ codes s

decimal_example : decimal 1024 ≡ "1024"
unfolding decimal
decimal_example = refl

pub codes-append : (a b : String) → codes (a <> b) ≡ codes a ++ codes b
codes-append String.[] b = ap codes (nil-append b)
codes-append (String.◌∷◌ c a) b =
    ap codes (cons-append c a b) ∙ ap (λ l. code c ∷ l) (codes-append a b)

-- No code point is a quotation mark or a backslash.
abbrev pub plain : List ℕ → Bool
plain [] = true
plain (c ∷ s) = not (c == 34) && (not (c == 92) && plain s)

pub plain-append : (s t : List ℕ) → plain s ≡ true → plain t ≡ true → plain (s ++ t) ≡ true
plain-append [] t h k = k
plain-append (c ∷ s) t h k = ground (arith, plain-append s t)

digit-codes : (n : ℕ) → n < 10 → codes (digit n) ≡ (48 + n) ∷ []
unfolding digit
digit-codes zero h = refl
digit-codes (suc zero) h = refl
digit-codes (suc (suc zero)) h = refl
digit-codes (suc (suc (suc zero))) h = refl
digit-codes (suc (suc (suc (suc zero)))) h = refl
digit-codes (suc (suc (suc (suc (suc zero))))) h = refl
digit-codes (suc (suc (suc (suc (suc (suc zero)))))) h = refl
digit-codes (suc (suc (suc (suc (suc (suc (suc zero))))))) h = refl
digit-codes (suc (suc (suc (suc (suc (suc (suc (suc zero)))))))) h = refl
digit-codes (suc (suc (suc (suc (suc (suc (suc (suc (suc zero))))))))) h = refl
digit-codes (suc (suc (suc (suc (suc (suc (suc (suc (suc (suc n)))))))))) h = absurd (omega arith)

digit-plain : (n : ℕ) → n < 10 → plain (codes (digit n)) ≡ true
digit-plain n h = rw (digit-codes n h) (ground arith)

digits-plain :
    (fuel n : ℕ) (out : String)
    → plain (codes out) ≡ true
    → plain (codes (digits fuel n out)) ≡ true
unfolding digits
digits-plain zero n out h = h
digits-plain (suc fuel) n out h =
    let q : plain (codes (digit (n % 10) <> out)) ≡ true =
      rw (codes-append (digit (n % 10)) out) (
        plain-append (codes (digit (n % 10))) (codes out) (digit-plain (n % 10) (omega arith)) h) in
    elim (Bool-cases (n / 10 == 0)) [
      | inl e ↦ rw e q
      | inr e ↦ rw e (digits-plain fuel (n / 10) (digit (n % 10) <> out) q)
    ]

pub decimal-plain : (n : ℕ) → plain (codes (decimal n)) ≡ true
unfolding decimal
decimal-plain n = digits-plain (suc n) n "" refl
