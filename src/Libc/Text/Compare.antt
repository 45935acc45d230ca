-- ===== src/Libc/Text/Compare.antt =====
-- The readers of texts in kernel/libs/libc.c: they find the texts that memory holds, and compare
-- them as the rest of the kernel's model does, which works on the bytes before the NUL.
use hana_core.Prelude.{
  subst, ℕ, zero, suc, ◌+◌, ◌<◌, ◌≡◌, ◌≢◌, ◌↔◌, inl, inr, true, false, ◌==◌, none, some, List, [],
  ◌∷◌, ap, arith, Bool-cases, length,
}
use hana_core.Prelude.Int.{ℤ, pos, sub_ℕ}
use hana_core.Prelude.Text.{eq_text, behind}
use hana_core.Libc.{Ram}
use hana_core.Libc.Text.{IsText, end_of, strlen, strcmp, strncmp, strncmp_from}

pub end_of-IsText :
    (f : ℕ) (m : Ram) (p : ℕ) (l : List ℕ)
    → IsText m p l
    → length l < f
    → end_of f m p ≡ some (p + length l)
unfolding end_of
end_of-IsText zero m p l t h = absurd (omega arith)
end_of-IsText (suc f) m p [] t h = ground arith
end_of-IsText (suc f) m p (c ∷ l) (tc, tn, tl) h =
    let e : m p == 0 ≡ false = ground arith in
    rw (e, end_of-IsText f m (p + 1) l tl (omega arith)) (ap some (omega arith))

-- `strlen` gives the number of bytes before the NUL, with fuel for each of them and the NUL.
pub strlen-IsText :
    (f : ℕ) (m : Ram) (s : ℕ) (l : List ℕ)
    → IsText m s l
    → length l < f
    → strlen f m s ≡ some (length l)
unfolding strlen
strlen-IsText f m s l t h = rw (end_of-IsText f m s l t h) (ap some (omega arith))

-- `strcmp` ends, with fuel for the bytes of the first text and its NUL, and its result is 0
-- exactly where the two texts are equal.
pub strcmp-eq_text :
    (f : ℕ) (m : Ram) (a b : ℕ) (x y : List ℕ)
    → IsText m a x
    → IsText m b y
    → length x < f
    → (v : ℤ) × ((strcmp f m a b ≡ some v) × ((v ≡ pos 0) ↔ (eq_text x y ≡ true)))
unfolding strcmp eq_text
strcmp-eq_text zero m a b x y p q h = absurd (omega arith)
strcmp-eq_text (suc f) m a b [] [] p q h = (sub_ℕ (m a) (m b), ground arith)
strcmp-eq_text (suc f) m a b [] (d ∷ ds) p q h = (sub_ℕ (m a) (m b), ground arith)
strcmp-eq_text (suc f) m a b (c ∷ cs) [] p q h = (sub_ℕ (m a) (m b), ground arith)
strcmp-eq_text (suc f) m a b (c ∷ cs) (d ∷ ds) (pc, pn, pl) (qc, qn, ql) h =
    elim (Bool-cases (c == d)) [
      | inl same ↦
          let go : m a == m b ≡ true = ground arith in
          let more : m a == 0 ≡ false = ground arith in
          rw (go, more, same) (strcmp-eq_text f m (a + 1) (b + 1) cs ds pl ql (omega arith))
      | inr other ↦
          let stop : m a == m b ≡ false = ground arith in (sub_ℕ (m a) (m b), ground arith)
    ]

strncmp_from-behind :
    (m : Ram) (a b i : ℕ) (x y : List ℕ)
    → IsText m (a + i) x
    → IsText m (b + i) y
    → (strncmp_from m a b i (length y) ≡ pos 0) ↔ (behind y x ≢ none)
unfolding strncmp_from behind
strncmp_from-behind m a b i x [] p q = ground arith
strncmp_from-behind m a b i [] (d ∷ ds) p q = ground arith
strncmp_from-behind m a b i (c ∷ cs) (d ∷ ds) (pc, pn, pl) (qc, qn, ql) =
    elim (Bool-cases (d == c)) [
      | inl same ↦
          let go : m (a + i) == m (b + i) ≡ true = ground arith in
          let more : m (a + i) == 0 ≡ false = ground arith in
          let up : (s : ℕ) → s + i + 1 ≡ s + (i + 1) = λ s. omega arith in
          rw (same, behind)
            (rw (go, more)
              (strncmp_from-behind m a b (i + 1) cs ds (subst (λ (s : ℕ). IsText m s cs) (up a) pl)
                (subst (λ (s : ℕ). IsText m s ds) (up b) ql)))
      | inr other ↦
          let stop : m (a + i) == m (b + i) ≡ false = ground arith in
          rw (other, behind) (ground arith)
    ]

-- `strncmp` with the length of its second text is 0 exactly where that text starts the first one.
pub strncmp-behind :
    (m : Ram) (a b : ℕ) (x y : List ℕ)
    → IsText m a x
    → IsText m b y
    → (strncmp m a b (length y) ≡ pos 0) ↔ (behind y x ≢ none)
unfolding strncmp
strncmp-behind m a b x [] p q = unfold behind in ground arith
strncmp-behind m a b x (d ∷ ds) p q =
    let e : suc (length ds) == 0 ≡ false = ground arith in
    rw e (
      strncmp_from-behind m a b 0 x (d ∷ ds) (subst (λ (s : ℕ). IsText m s x) (omega arith) p)
        (subst (λ (s : ℕ). IsText m s (d ∷ ds)) (omega arith) q))
