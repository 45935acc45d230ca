-- ===== src/Prelude/Text.antt =====
-- Texts: the bytes of a string before its NUL.
use hana_core.Prelude.{
  inr, inl, Bool-cases, some_eq, ◌++◌, ℕ, List, [], ◌∷◌, ◌≡◌, refl, arith, Bool, true, false, ◌&&◌,
  ◌==◌, Option, none, some,
}
use mathlib.Core.Path.{ap₂}

-- `strcmp(a, b) == 0`.
unfoldable pub eq_text : List ℕ → List ℕ → Bool
eq_text [] [] = true
eq_text [] (d ∷ ds) = false
eq_text (c ∷ cs) [] = false
eq_text (c ∷ cs) (d ∷ ds) = (c == d) && eq_text cs ds

pub eq_text_refl : (a : List ℕ) → eq_text a a ≡ true
unfolding eq_text
eq_text_refl [] = refl
eq_text_refl (c ∷ cs) = ground (arith, eq_text_refl cs)

pub eq_text_sound : (a b : List ℕ) → eq_text a b ≡ true → a ≡ b
unfolding eq_text
eq_text_sound [] [] h = refl
eq_text_sound [] (d ∷ ds) h = cc
eq_text_sound (c ∷ cs) [] h = cc
eq_text_sound (c ∷ cs) (d ∷ ds) h =
    ap₂ (λ (x : ℕ) (l : List ℕ). x ∷ l) (ground arith) (eq_text_sound cs ds (ground arith))

-- What is left of a text behind a prefix: `strncmp(text, pre, strlen(pre)) == 0`.
unfoldable pub behind : List ℕ → List ℕ → Option (List ℕ)
behind [] path = some path
behind (c ∷ cs) [] = none
behind (c ∷ cs) (d ∷ ds) = elim (c == d) [ true ↦ behind cs ds | false ↦ none ]

pub behind_sound : (pre path rest : List ℕ) → behind pre path ≡ some rest → path ≡ pre ++ rest
unfolding behind
behind_sound [] path rest e = some_eq e
behind_sound (c ∷ cs) [] rest e = cc
behind_sound (c ∷ cs) (d ∷ ds) rest e = elim (Bool-cases (c == d)) [
  | inl hit ↦
      ap₂ (λ (x : ℕ) (l : List ℕ). x ∷ l) (ground arith)
        (behind_sound cs ds rest (rw (hit, behind) at e))
  | inr miss ↦ cc (rw (miss, behind) at e)
]

pub behind-append : (pre rest : List ℕ) → behind pre (pre ++ rest) ≡ some rest
unfolding behind
behind-append [] rest = refl
behind-append (c ∷ cs) rest = rw (same, behind) (behind-append cs rest)
  where
    same : c == c ≡ true
    same = ground arith
