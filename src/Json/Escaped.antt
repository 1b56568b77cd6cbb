-- ===== src/Json/Escaped.antt =====
-- The escapes of a JSON text hide every quotation mark in it.
use Prim.Native.Char.{Char, code}
use workflow_automation_go_z.Common.{
  ℕ, String, Bool, true, false, not, ◌&&◌, ◌==◌, ltb, ◌/◌, ◌%◌, Bool-cases, inl, inr, List, [], ◌∷◌,
  ◌++◌, ◌≡◌, refl, arith, codes, codes-append, ◌<>◌, plain, decimal-plain,
}
use workflow_automation_go_z.Json.{escape_char, escape, hex_digit, one_char}

-- A quotation mark stands only behind a backslash that is not itself escaped, and the text does not
-- end with such a backslash. The flag says that one stands in front of the text.
abbrev pub escaped : Bool → List ℕ → Bool
escaped true [] = false
escaped true (c ∷ s) = escaped false s
escaped false [] = true
escaped false (c ∷ s) = let rest = escaped (c == 92) s in not (c == 34) && rest

pub escaped-append :
    (b : Bool) (s t : List ℕ)
    → escaped b s ≡ true
    → escaped false t ≡ true
    → escaped b (s ++ t) ≡ true
escaped-append true [] t h k = ground arith
escaped-append true (c ∷ s) t h k = escaped-append false s t h k
escaped-append false [] t h k = k
escaped-append false (c ∷ s) t h k = ground (arith, escaped-append (c == 92) s t)

plain-escaped : (s : List ℕ) → plain s ≡ true → escaped false s ≡ true
plain-escaped [] h = refl
plain-escaped (c ∷ s) h = ground (arith, plain-escaped s)

hex_digit-plain : (n : ℕ) → plain (codes (hex_digit n)) ≡ true
unfolding hex_digit
hex_digit-plain n = elim (Bool-cases (n == 10)) [
  | inl e6 ↦ rw e6 refl
  | inr e6 ↦ rw e6 (elim (Bool-cases (n == 11)) [
    | inl e5 ↦ rw e5 refl
    | inr e5 ↦ rw e5 (elim (Bool-cases (n == 12)) [
      | inl e4 ↦ rw e4 refl
      | inr e4 ↦ rw e4 (elim (Bool-cases (n == 13)) [
        | inl e3 ↦ rw e3 refl
        | inr e3 ↦ rw e3 (elim (Bool-cases (n == 14)) [
          | inl e2 ↦ rw e2 refl
          | inr e2 ↦ rw e2 (elim (Bool-cases (n == 15)) [
            | inl e1 ↦ rw e1 refl
            | inr e1 ↦ rw e1 (decimal-plain n)
          ])
        ])
      ])
    ])
  ])
]

control-escaped :
    (c : ℕ) → escaped false (codes ("\\u00" <> hex_digit (c / 16) <> hex_digit (c % 16))) ≡ true
control-escaped c =
    rw
      (
        codes-append "\\u00" (hex_digit (c / 16) <> hex_digit (c % 16)),
        codes-append (hex_digit (c / 16)) (hex_digit (c % 16)),
      )
      (escaped-append false (codes (hex_digit (c / 16))) (codes (hex_digit (c % 16)))
        (plain-escaped (codes (hex_digit (c / 16))) (hex_digit-plain (c / 16)))
        (plain-escaped (codes (hex_digit (c % 16))) (hex_digit-plain (c % 16))))

one_char-escaped :
    (c : Char)
    → (code c == 34) ≡ false
    → (code c == 92) ≡ false
    → escaped false (codes (one_char c)) ≡ true
unfolding one_char
one_char-escaped c e e' = ground arith

escape_char-escaped : (c : Char) → escaped false (codes (escape_char c)) ≡ true
unfolding escape_char
escape_char-escaped c = elim (Bool-cases (code c == 34)) [
  | inl e13 ↦ rw e13 refl
  | inr e13 ↦ rw e13 (elim (Bool-cases (code c == 92)) [
    | inl e12 ↦ rw e12 refl
    | inr e12 ↦ rw e12 (elim (Bool-cases (code c == 8)) [
      | inl e11 ↦ rw e11 refl
      | inr e11 ↦ rw e11 (elim (Bool-cases (code c == 12)) [
        | inl e10 ↦ rw e10 refl
        | inr e10 ↦ rw e10 (elim (Bool-cases (code c == 10)) [
          | inl e9 ↦ rw e9 refl
          | inr e9 ↦ rw e9 (elim (Bool-cases (code c == 13)) [
            | inl e8 ↦ rw e8 refl
            | inr e8 ↦ rw e8 (elim (Bool-cases (code c == 9)) [
              | inl e7 ↦ rw e7 refl
              | inr e7 ↦ rw e7 (elim (Bool-cases (ltb (code c) 32)) [
                | inl e6 ↦ rw e6 (control-escaped (code c))
                | inr e6 ↦ rw e6 (elim (Bool-cases (code c == 60)) [
                  | inl e5 ↦ rw e5 refl
                  | inr e5 ↦ rw e5 (elim (Bool-cases (code c == 62)) [
                    | inl e4 ↦ rw e4 refl
                    | inr e4 ↦ rw e4 (elim (Bool-cases (code c == 38)) [
                      | inl e3 ↦ rw e3 refl
                      | inr e3 ↦ rw e3 (elim (Bool-cases (code c == 8232)) [
                        | inl e2 ↦ rw e2 refl
                        | inr e2 ↦ rw e2 (elim (Bool-cases (code c == 8233)) [
                          | inl e1 ↦ rw e1 refl
                          | inr e1 ↦ rw e1 (one_char-escaped c e13 e12)
                        ])
                      ])
                    ])
                  ])
                ])
              ])
            ])
          ])
        ])
      ])
    ])
  ])
]

pub escape-escaped : (s : String) → escaped false (codes (escape s)) ≡ true
unfolding escape
escape-escaped String.[] = refl
escape-escaped (String.◌∷◌ c s) = rw (codes-append (escape_char c) (escape s)) (
    escaped-append false (codes (escape_char c)) (codes (escape s)) (escape_char-escaped c)
      (escape-escaped s))
