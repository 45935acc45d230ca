-- ===== src/Prelude/Window.antt =====
-- An array read as a ring: the items at positions `t`, `t + 1`, … taken modulo its length.
use native.Mathlib.Nat.{mod-add-mod, mod-eq_of_lt, mod-eq-sub-mod, mod-lt, add-zero}
use native.Mathlib.Numerals.{add-one}
use mathlib.Core.Path.{ap₂}
use hana_core.Prelude.{
  take, drop, ◌≤◌, sym, ℕ, zero, suc, ◌+◌, ◌-◌, ◌%◌, ◌<◌, ◌≡◌, ◌≢◌, refl, ap, ◌∙◌, List, [], ◌∷◌,
  ◌++◌, get_or, set, length, arith, le_or_lt, inl, inr,
}

unfoldable pub window : List ℕ → ℕ → ℕ → ℕ → List ℕ
window buf cap t zero = []
window buf cap t (suc n) = get_or buf (t % cap) 0 ∷ window buf cap (t + 1) n

get_or-set_self : (xs : List ℕ) (i v : ℕ) → i < length xs → get_or (set xs i v) i 0 ≡ v
get_or-set_self [] i v h = absurd (omega arith)
get_or-set_self (x ∷ xs) zero v h = refl
get_or-set_self (x ∷ xs) (suc i) v h = get_or-set_self xs i v (omega arith)

get_or-set_ne : (xs : List ℕ) (i j v : ℕ) → i ≢ j → get_or (set xs i v) j 0 ≡ get_or xs j 0
get_or-set_ne [] i j v h = refl
get_or-set_ne (x ∷ xs) zero zero v h = absurd (h refl)
get_or-set_ne (x ∷ xs) zero (suc j) v h = refl
get_or-set_ne (x ∷ xs) (suc i) zero v h = refl
get_or-set_ne (x ∷ xs) (suc i) (suc j) v h = get_or-set_ne xs i j v (λ e. h (ap suc e))

-- Fewer than `cap` steps on lead to another slot.
mod_ne : (cap t k : ℕ) → 0 < k → k < cap → (t + k) % cap ≢ t % cap
mod_ne cap t k pos small e = elim (le_or_lt cap (t % cap + k)) [
  | inl over ↦ omega (
    arith,
    e,
    mod-add-mod t cap k,
    mod-eq-sub-mod {n = t % cap + k} {m = cap} over,
    mod-eq_of_lt {n = t % cap + k - cap} {m = cap}
        (omega (arith, mod-lt t {m = cap} (omega arith))),
  )
  | inr under ↦ omega (arith, e, mod-add-mod t cap k, mod-eq_of_lt under)
]

-- A write just behind a window of fewer than `cap` items extends it.
window-set_at :
    (buf : List ℕ) (cap t n x i : ℕ)
    → length buf ≡ cap
    → n < cap
    → i ≡ (t + n) % cap
    → window (set buf i x) cap t (suc n) ≡ window buf cap t n ++ (x ∷ [])
unfolding window
window-set_at buf cap t zero x i l h e =
    ap (λ (v : ℕ). v ∷ [])
      (rw (e, add-zero) (get_or-set_self buf (t % cap) x (omega (arith, mod-lt t {m = cap} h))))
window-set_at buf cap t (suc n) x i l h e =
    ap₂ ◌∷◌ (get_or-set_ne buf i (t % cap) x (rw e (mod_ne cap t (suc n) (omega arith) h)))
      (window-set_at buf cap (t + 1) n x i l (omega arith) (e ∙ ap (λ (k : ℕ). k % cap) shift))
  where
    shift : t + suc n ≡ t + 1 + n
    shift = omega arith

pub window-set :
    (buf : List ℕ) (cap t n x : ℕ)
    → length buf ≡ cap
    → n < cap
    → window (set buf ((t + n) % cap) x) cap t (n + 1) ≡ window buf cap t n ++ (x ∷ [])
window-set buf cap t n x l h = rw add-one (window-set_at buf cap t n x ((t + n) % cap) l h refl)

pub length-window : (buf : List ℕ) (cap t n : ℕ) → length (window buf cap t n) ≡ n
unfolding window
length-window buf cap t zero = refl
length-window buf cap t (suc n) = ap suc (length-window buf cap (t + 1) n)

-- `window` steps at a count that a test found to be positive.
pub window_of_pos :
    (buf : List ℕ) (cap t n : ℕ)
    → 0 < n
    → window buf cap t n ≡ get_or buf (t % cap) 0 ∷ window buf cap (t + 1) (n - 1)
unfolding window
window_of_pos buf cap t zero h = absurd (omega arith)
window_of_pos buf cap t (suc n) h =
    ap (λ (k : ℕ). get_or buf (t % cap) 0 ∷ window buf cap (t + 1) k) (omega arith)

pub window_none : (buf : List ℕ) (cap t : ℕ) → window buf cap t 0 ≡ []
unfolding window
window_none buf cap t = refl

pub take-window :
    (buf : List ℕ) (cap t k n : ℕ) → k ≤ n → take k (window buf cap t n) ≡ window buf cap t k
unfolding window
take-window buf cap t zero n h = refl
take-window buf cap t (suc k) zero h = absurd (omega arith)
take-window buf cap t (suc k) (suc n) h =
    ap (λ (l : List ℕ). get_or buf (t % cap) 0 ∷ l) (take-window buf cap (t + 1) k n (omega arith))

pub drop-window :
    (buf : List ℕ) (cap t k n : ℕ)
    → k ≤ n
    → drop k (window buf cap t n) ≡ window buf cap (t + k) (n - k)
unfolding window
drop-window buf cap t zero n h = ap₂ (λ (i m : ℕ). window buf cap i m) (omega arith) (omega arith)
drop-window buf cap t (suc k) zero h = absurd (omega arith)
drop-window buf cap t (suc k) (suc n) h =
    drop-window buf cap (t + 1) k n (omega arith)
    ∙ ap₂ (λ (i m : ℕ). window buf cap i m) (omega arith) (omega arith)

-- Only the slot of the start matters.
pub window-mod :
    (buf : List ℕ) (cap t u n : ℕ) → t % cap ≡ u % cap → window buf cap t n ≡ window buf cap u n
unfolding window
window-mod buf cap t u zero e = refl
window-mod buf cap t u (suc n) e = ap₂ ◌∷◌ (ap (λ (i : ℕ). get_or buf i 0) e) (
    window-mod buf cap (t + 1) (u + 1) n
      (sym (mod-add-mod t cap 1) ∙ ap (λ (i : ℕ). (i + 1) % cap) e ∙ mod-add-mod u cap 1))
