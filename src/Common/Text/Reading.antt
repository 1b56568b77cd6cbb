-- ===== src/Common/Text/Reading.antt =====
-- A printed number reads as itself, so that two numbers are printed alike only if they are equal.
use Prim.Native.Nat.{ℕ, zero, suc, ◌+◌, ◌*◌, ◌-◌, ◌<◌, ◌/◌, ◌%◌}
use Prim.Native.String.{String}
use mathlib.Core.Path.{◌≡◌, refl, sym, ap, ◌∙◌}
use mathlib.Core.List.{List, [], ◌∷◌, ◌++◌}
use mathlib.Core.Bool.{true, ◌&&◌}
use mathlib.Core.Logic.{◌≢◌, inl, inr}
use native.Mathlib.Omega.{arith}
use workflow_automation_go_z.Common.Tests.{◌==◌, leb, if◌then◌else◌, Bool-cases}
use workflow_automation_go_z.Common.Lists.{length}
use workflow_automation_go_z.Common.Text.{
  ◌<>◌, digit, digits, decimal, codes, codes-append, digit-codes,
}

-- The number that a list of digits stands for, behind the digits of `acc`.
abbrev pub value : ℕ → List ℕ → ℕ
value acc [] = acc
value acc (c ∷ s) = value (acc * 10 + (c - 48)) s

value-digit :
    (acc d : ℕ) (out : String)
    → d < 10
    → value acc (codes (digit d <> out)) ≡ value (acc * 10 + d) (codes out)
value-digit acc d out h =
    rw (codes-append (digit d) out, digit-codes d h)
      (ap (λ k. value (acc * 10 + k) (codes out)) (omega arith))

value-digits :
    (fuel n : ℕ) (out : String)
    → n < fuel
    → value 0 (codes (digits fuel n out)) ≡ value n (codes out)
unfolding digits
value-digits zero n out h = absurd (omega arith)
value-digits (suc fuel) n out h = elim (Bool-cases (n / 10 == 0)) [
  | inl e ↦
      rw e (value-digit 0 (n % 10) out (omega arith) ∙ ap (λ k. value k (codes out)) (ground arith))
  | inr e ↦ rw e (
      value-digits fuel (n / 10) (digit (n % 10) <> out) (ground arith)
      ∙ value-digit (n / 10) (n % 10) out (omega arith)
      ∙ ap (λ k. value k (codes out)) (omega arith))
]

pub value-decimal : (n : ℕ) → value 0 (codes (decimal n)) ≡ n
unfolding decimal
value-decimal n = value-digits (suc n) n "" (omega arith)

pub decimal_inj : (m n : ℕ) → decimal m ≡ decimal n → m ≡ n
decimal_inj m n e = sym (value-decimal m) ∙ ap (λ s. value 0 (codes s)) e ∙ value-decimal n

cons_grows : (c : ℕ) (l : List ℕ) → l ≡ c ∷ l → ⊥
cons_grows c l e = let longer : length l ≡ suc (length l) = ap length e in omega arith

-- A number is not printed with a minus sign.
pub decimal-minus : (m n : ℕ) → decimal m ≢ "-" <> decimal n
decimal-minus m n e =
    let printed : codes (decimal m) ≡ 45 ∷ codes (decimal n) =
      ap codes e ∙ codes-append "-" (decimal n) in
    let read : m ≡ n = sym (value-decimal m) ∙ ap (value 0) printed ∙ value-decimal n in
    cons_grows 45 (codes (decimal n)) (ap (λ k. codes (decimal k)) (sym read) ∙ printed)

-- The number at the front of a list of code points, up to the first that is no digit.
abbrev pub read_number : ℕ → List ℕ → ℕ
read_number acc [] = acc
read_number acc (c ∷ s) =
    let rest = read_number (acc * 10 + (c - 48)) s in if leb 48 c && leb c 57 then rest else acc

read_number-digit :
    (acc d : ℕ) (l : List ℕ)
    → d < 10
    → read_number acc ((48 + d) ∷ l) ≡ read_number (acc * 10 + d) l
read_number-digit acc d l h =
    let is : (leb 48 (48 + d) && leb (48 + d) 57) ≡ true = (ground arith) in
    let same : 48 + d - 48 ≡ d = (omega arith) in rw (is, same) refl

read_number-digits :
    (fuel n : ℕ) (out : String) (l : List ℕ)
    → n < fuel
    → read_number 0 (codes (digits fuel n out) ++ l) ≡ read_number n (codes out ++ l)
unfolding digits
read_number-digits zero n out l h = absurd (omega arith)
read_number-digits (suc fuel) n out l h =
    let last : (acc : ℕ)
        → read_number acc (codes (digit (n % 10) <> out) ++ l)
          ≡ read_number (acc * 10 + n % 10) (codes out ++ l) =
      λ acc.
        rw (codes-append (digit (n % 10)) out, digit-codes (n % 10) (omega arith))
          (read_number-digit acc (n % 10) (codes out ++ l) (omega arith)) in
    elim (Bool-cases (n / 10 == 0)) [
      | inl e ↦ rw e (last 0 ∙ ap (λ k. read_number k (codes out ++ l)) (ground arith))
      | inr e ↦ rw e (
          read_number-digits fuel (n / 10) (digit (n % 10) <> out) l (ground arith)
          ∙ last (n / 10)
          ∙ ap (λ k. read_number k (codes out ++ l)) (omega arith))
    ]

-- A printed number is read back from in front of a comma.
pub read_number-decimal : (n : ℕ) (l : List ℕ) → read_number 0 (codes (decimal n) ++ 44 ∷ l) ≡ n
unfolding decimal
read_number-decimal n l = read_number-digits (suc n) n "" (44 ∷ l) (omega arith)
