-- ===== src/Fat32/Patch.antt =====
-- A sector of which four bytes are replaced.
use hana_core.Prelude.{
  length-drop, length-take, length-append, ℕ, zero, suc, List, [], ◌∷◌, ◌++◌, ◌+◌, ◌/◌, ◌%◌, ◌^◌,
  ◌≡◌, ◌≤◌, ◌<◌, ◌⊎◌, refl, ap, ◌∙◌, length, take, drop, arith, inl, inr,
}
use hana_core.Hanafs.Image.{le_bytes, le_value}
use hana_core.Fat32.{patched}
use hana_core.Hanafs.Image.Codec.{le4}

-- Four bytes before the ones that are replaced, and four behind them.
front :
    (o off : ℕ) (s r : List ℕ)
    → o + 4 ≤ off
    → off ≤ length s
    → take 4 (drop o (take off s ++ r)) ≡ take 4 (drop o s)
front zero off (a ∷ b ∷ c ∷ d ∷ s) r h fits = four off h
  where
    four : (off : ℕ) → 4 ≤ off → take 4 (take off (a ∷ b ∷ c ∷ d ∷ s) ++ r) ≡ a ∷ b ∷ c ∷ d ∷ []
    four (suc (suc (suc (suc off)))) h = refl
    four _ h = absurd (omega arith)
front (suc o) zero s r h fits = absurd (omega arith)
front (suc o) (suc off) (x ∷ s) r h fits = front o off s r (omega arith) (omega arith)
front _ _ _ r h fits = absurd (omega arith)

-- Four bytes behind the ones that are replaced by four.
past :
    (o off : ℕ) (s : List ℕ) (a b c d : ℕ)
    → off + 4 ≤ o
    → off + 4 ≤ length s
    → take 4 (drop o (take off s ++ (a ∷ b ∷ c ∷ d ∷ drop (off + 4) s))) ≡ take 4 (drop o s)
past (suc (suc (suc (suc o)))) zero (p ∷ q ∷ r ∷ t ∷ s) a b c d h fits = refl
past (suc o) (suc off) (x ∷ s) a b c d h fits =
    ap (λ (n : ℕ). take 4 (drop o (take off s ++ (a ∷ b ∷ c ∷ d ∷ drop n (x ∷ s)))))
      {y = suc (off + 4)} (omega arith)
    ∙ past o off s a b c d (omega arith) (omega arith)
past _ _ _ a b c d h fits = absurd (omega arith)

at_place : (off : ℕ) (s r : List ℕ) → off ≤ length s → drop off (take off s ++ r) ≡ r
at_place zero s r h = refl
at_place (suc off) [] r h = absurd (omega arith)
at_place (suc off) (x ∷ s) r h = at_place off s r (omega arith)

-- The entry that was written, and one at another place.
pub entry_in-patched :
    (off w : ℕ) (s : List ℕ)
    → off + 4 ≤ length s
    → w < 2 ^ 28
    → le_value (take 4 (drop off (patched s off w))) % 2 ^ 28 ≡ w
unfolding le_bytes
entry_in-patched off w s fits small =
    ap (λ (l : List ℕ). le_value (take 4 l) % 2 ^ 28)
      (at_place off s (le_bytes 4 w ++ drop (off + 4) s) (omega arith))
    ∙ ap (λ (n : ℕ). n % 2 ^ 28) {y = w} (le4 w (omega arith))
    ∙ omega arith

pub entry_in-patched_other :
    (o off w : ℕ) (s : List ℕ)
    → (o + 4 ≤ off) ⊎ (off + 4 ≤ o)
    → off + 4 ≤ length s
    → take 4 (drop o (patched s off w)) ≡ take 4 (drop o s)
unfolding le_bytes
entry_in-patched_other o off w s (inl before) fits =
    front o off s (le_bytes 4 w ++ drop (off + 4) s) before (omega arith)
entry_in-patched_other o off w s (inr behind) fits =
    past o off s (w % 256) (w / 256 % 256) (w / 256 / 256 % 256) (w / 256 / 256 / 256 % 256) behind
      fits

pub length-patched :
    (off w : ℕ) (s : List ℕ) → off + 4 ≤ length s → length (patched s off w) ≡ length s
unfolding le_bytes
length-patched off w s fits =
    length-append (take off s) (le_bytes 4 w ++ drop (off + 4) s)
    ∙ omega (arith, length-take off s, length-drop (off + 4) s)
