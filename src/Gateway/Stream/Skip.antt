-- ===== src/Gateway/Stream/Skip.antt =====
-- A search for a key in a JSON text passes over what stands inside quoted texts and over numbers.
use workflow_automation_go_z.Common.{
  ℕ, Bool, true, false, ◌==◌, List, [], ◌∷◌, ◌++◌, ◌≡◌, refl, ◌∙◌, arith,
}
use workflow_automation_go_z.Common.{plain}
use workflow_automation_go_z.Json.Escaped.{escaped}
use workflow_automation_go_z.Gateway.Stream.{has_prefix, contains}

-- `"type":` and what follows it
abbrev pub key : List ℕ → List ℕ
key q = 34 ∷ 116 ∷ 121 ∷ 112 ∷ 101 ∷ 34 ∷ 58 ∷ q

pub contains-miss :
    (d : ℕ) (s p : List ℕ) → has_prefix (d ∷ s) p ≡ false → contains (d ∷ s) p ≡ contains s p
unfolding contains
contains-miss d s p e = rw e refl

-- A key does not start where there is no quotation mark, nor in front of something else.
no_mark : (q s : List ℕ) (d : ℕ) → (d == 34) ≡ false → has_prefix (d ∷ s) (key q) ≡ false
unfolding has_prefix
no_mark q s d e = rw e refl

no_word :
    (q s : List ℕ) (d : ℕ)
    → has_prefix s (116 ∷ 121 ∷ 112 ∷ 101 ∷ 34 ∷ 58 ∷ q) ≡ false
    → has_prefix (d ∷ s) (key q) ≡ false
unfolding has_prefix
no_word q s d e = ground arith

module _ (q rest : List ℕ) (c : ℕ) where
  -- Inside a quoted text no word is followed by a quotation mark and a colon.
  no_key :
      (w u : List ℕ)
      → plain w ≡ true
      → escaped false u ≡ true
      → (c == 58) ≡ false
      → has_prefix (u ++ 34 ∷ c ∷ rest) (w ++ 34 ∷ 58 ∷ q) ≡ false
  unfolding has_prefix
  no_key [] [] p h k = ground arith
  no_key [] (d ∷ u) p h k = ground arith
  no_key (x ∷ w) [] p h k = ground arith
  no_key (x ∷ w) (d ∷ u) p h k = ground (arith, no_key w u)

  skip_text :
      (b : Bool) (u : List ℕ)
      → escaped b u ≡ true
      → (c == 58) ≡ false
      → contains (u ++ 34 ∷ c ∷ rest) (key q) ≡ contains (34 ∷ c ∷ rest) (key q)
  skip_text true [] h k = ground arith
  skip_text false [] h k = refl
  skip_text true (d ∷ u) h k =
      contains-miss d (u ++ 34 ∷ c ∷ rest) (key q)
        (no_word q (u ++ 34 ∷ c ∷ rest) d (no_key (116 ∷ 121 ∷ 112 ∷ 101 ∷ []) u refl h k))
      ∙ skip_text false u h k
  skip_text false (d ∷ u) h k =
      contains-miss d (u ++ 34 ∷ c ∷ rest) (key q) (no_mark q (u ++ 34 ∷ c ∷ rest) d (ground arith))
      ∙ skip_text (d == 92) u (ground arith) k

  -- A quoted text and the character behind it hold no key.
  pub skip_quoted :
      (u : List ℕ)
      → escaped false u ≡ true
      → (c == 58) ≡ false
      → (c == 34) ≡ false
      → (c == 116) ≡ false
      → contains (34 ∷ u ++ 34 ∷ c ∷ rest) (key q) ≡ contains rest (key q)
  skip_quoted u h k l m =
      contains-miss 34 (u ++ 34 ∷ c ∷ rest) (key q)
        (no_word q (u ++ 34 ∷ c ∷ rest) 34 (no_key (116 ∷ 121 ∷ 112 ∷ 101 ∷ []) u refl h k))
      ∙ skip_text false u h k
      ∙ contains-miss 34 (c ∷ rest) (key q)
          (no_word q (c ∷ rest) 34 (unfold has_prefix in rw m refl))
      ∙ contains-miss c rest (key q) (no_mark q rest c l)

pub skip_number :
    (q s rest : List ℕ) → plain s ≡ true → contains (s ++ rest) (key q) ≡ contains rest (key q)
skip_number q [] rest h = refl
skip_number q (c ∷ s) rest h =
    contains-miss c (s ++ rest) (key q) (no_mark q (s ++ rest) c (ground arith))
    ∙ skip_number q s rest (ground arith)
