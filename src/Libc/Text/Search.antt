-- ===== src/Libc/Text/Search.antt =====
-- The searches of kernel/libs/libc.c, `strchr`, `strrchr` and `strstr`, against searches of the
-- bytes before the NUL.
use hana_core.Prelude.{
  ℕ, zero, suc, ◌+◌, ◌%◌, ◌<◌, ◌≡◌, refl, ◌∙◌, inl, inr, Bool, true, false, ◌||◌, ◌==◌, Option,
  none, some, List, [], ◌∷◌, ap, arith, if◌then◌else◌, Bool-cases, Option-cases, length,
}
use mathlib.Core.Option.{map as option_map}
use hana_core.Prelude.Text.{behind}
use hana_core.Libc.{Ram}
use hana_core.Libc.Text.{IsText, chr_from, strchr, rchr_from, strrchr, starts_at, str_from, strstr}

-- The first and the last index of a byte, and the first index where a text starts.
unfoldable pub index_of : ℕ → List ℕ → Option ℕ
index_of c [] = none
index_of c (d ∷ l) = if d == c then some 0 else option_map suc (index_of c l)

unfoldable pub last_index_of : ℕ → List ℕ → Option ℕ
last_index_of c [] = none
last_index_of c (d ∷ l) = elim (last_index_of c l) [
  | some i ↦ some (suc i)
  | none ↦ if d == c then some 0 else none
]

unfoldable pub text_index : List ℕ → List ℕ → Option ℕ
text_index y [] = none
text_index y (d ∷ l) = elim (behind y (d ∷ l)) [
  | some rest ↦ some 0
  | none ↦ option_map suc (text_index y l)
]

-- The address of what was found in a text at `s`, or the null pointer.
unfoldable pub address : ℕ → Option ℕ → ℕ
address s none = 0
address s (some i) = s + i

address-suc : (s : ℕ) (o : Option ℕ) → address (s + 1) o ≡ address s (option_map suc o)
unfolding address
address-suc s none = refl
address-suc s (some i) = omega arith

chr_from-address :
    (f : ℕ) (m : Ram) (s c : ℕ) (l : List ℕ)
    → IsText m s l
    → length l < f
    → chr_from f m s c ≡ some (address s (index_of c l))
unfolding chr_from index_of address
chr_from-address zero m s c l t h = absurd (omega arith)
chr_from-address (suc f) m s c [] t h = ground arith
chr_from-address (suc f) m s c (d ∷ l) (tc, tn, tl) h =
    let ih = chr_from-address f m (s + 1) c l tl (omega arith) in
    let e : m s == 0 ≡ false = ground arith in
    rw (e, ih, tc)
      (elim (Bool-cases (d == c)) [
        | inl hit ↦ rw hit (ap some (omega arith))
        | inr miss ↦ rw miss (ap some (address-suc s (index_of c l)))
      ])

-- `strchr` ends, with fuel for the text and its NUL, and gives the first place of the byte in the
-- text, or the null pointer where the text does not have it.
pub strchr-address :
    (f : ℕ) (m : Ram) (s c : ℕ) (l : List ℕ)
    → IsText m s l
    → length l < f
    → strchr f m s c ≡ some (address s (index_of (c % 256) l))
unfolding strchr
strchr-address f m s c l t h = chr_from-address f m s (c % 256) l t h

-- The last place so far, with one found earlier to fall back on.
last_or : ℕ → ℕ → Option ℕ → ℕ
last_or last s none = last
last_or last s (some i) = s + i

rchr_from-last_or :
    (f : ℕ) (m : Ram) (s c last : ℕ) (l : List ℕ)
    → IsText m s l
    → length l < f
    → rchr_from f m s c last ≡ some (last_or last s (last_index_of c l))
unfolding rchr_from last_index_of last_or
rchr_from-last_or zero m s c last l t h = absurd (omega arith)
rchr_from-last_or (suc f) m s c last [] t h = ground arith
rchr_from-last_or (suc f) m s c last (d ∷ l) (tc, tn, tl) h =
    let e : m s == 0 ≡ false = ground arith in
    let ih = rchr_from-last_or f m (s + 1) c (if m s == c then s else last) l tl (omega arith) in
    rw (e, ih)
      (elim (Option-cases (last_index_of c l)) [
        | inl gone ↦
            rw (gone, last_index_of)
              (rw tc (elim (Bool-cases (d == c)) [
                | inl hit ↦ rw hit (ap some (omega arith))
                | inr miss ↦ rw miss refl
              ]))
        | inr (i, found) ↦ rw (found, last_index_of) (ap some (omega arith))
      ])

last_or-null : (s : ℕ) (o : Option ℕ) → last_or 0 s o ≡ address s o
unfolding last_or address
last_or-null s none = refl
last_or-null s (some i) = refl

-- `strrchr` ends, with the same fuel, and gives the last place of the byte in the text, or the
-- null pointer.
pub strrchr-address :
    (f : ℕ) (m : Ram) (s c : ℕ) (l : List ℕ)
    → IsText m s l
    → length l < f
    → strrchr f m s c ≡ some (address s (last_index_of (c % 256) l))
unfolding strrchr
strrchr-address f m s c l t h =
    rchr_from-last_or f m s (c % 256) 0 l t h ∙ ap some (last_or-null s (last_index_of (c % 256) l))

-- Is there anything behind the prefix?
is_some : Option (List ℕ) → Bool
is_some none = false
is_some (some rest) = true

starts_at-behind :
    (f : ℕ) (m : Ram) (p n : ℕ) (x y : List ℕ)
    → IsText m p x
    → IsText m n y
    → length y < f
    → starts_at f m p n ≡ some (is_some (behind y x))
unfolding starts_at behind is_some
starts_at-behind zero m p n x y t u h = absurd (omega arith)
starts_at-behind (suc f) m p n x [] t u h = ground arith
starts_at-behind (suc f) m p n [] (d ∷ y) t (ud, un, ul) h =
    let e : m p == 0 ≡ true = ground arith in
    let k : m n == 0 ≡ false = ground arith in rw e (rw k refl)
starts_at-behind (suc f) m p n (c ∷ x) (d ∷ y) (tc, tn, tl) (ud, un, ul) h =
    let e : m p == 0 ≡ false = ground arith in
    let k : m n == 0 ≡ false = ground arith in
    elim (Bool-cases (d == c)) [
      | inl same ↦
          let go : m p == m n ≡ true = ground arith in
          rw (same, behind)
            (rw (e, k, go) (starts_at-behind f m (p + 1) (n + 1) x y tl ul (omega arith)))
      | inr other ↦
          let stop : m p == m n ≡ false = ground arith in rw (other, behind) (rw (e, k, stop) refl)
    ]

str_from-address :
    (g f : ℕ) (m : Ram) (s needle : ℕ) (x y : List ℕ)
    → IsText m s x
    → IsText m needle y
    → length x < f
    → length y < g
    → str_from g f m s needle ≡ some (address s (text_index y x))
unfolding str_from text_index
str_from-address g zero m s needle x y t u h k = absurd (omega arith)
str_from-address g (suc f) m s needle [] y t u h k =
    let e : m s == 0 ≡ true = ground arith in rw e (unfold address in refl)
str_from-address g (suc f) m s needle (c ∷ x) y (tc, tn, tl) u h k =
    let e : m s == 0 ≡ false = ground arith in
    let ih = str_from-address g f m (s + 1) needle x y tl u (omega arith) k in
    let here = starts_at-behind g m s needle (c ∷ x) y (tc, tn, tl) u k in
    rw (e, here, ih)
      (elim (Option-cases (behind y (c ∷ x))) [
        | inl gone ↦
            rw (gone, text_index) (unfold is_some in ap some (address-suc s (text_index y x)))
        | inr (rest, found) ↦
            rw (found, text_index) (unfold is_some address in ap some (omega arith))
      ])

-- Where the search for a needle is to end.
unfoldable pub needle_at : ℕ → List ℕ → List ℕ → ℕ
needle_at s [] x = s
needle_at s (d ∷ ds) x = address s (text_index (d ∷ ds) x)

-- `strstr` ends, with fuel for each text and its NUL, and gives the first place of the needle in
-- the haystack, the haystack itself for an empty needle, or the null pointer where the needle does
-- not occur; also where an argument is the null pointer.
pub strstr-address :
    (f : ℕ) (m : Ram) (haystack needle : ℕ) (x y : List ℕ)
    → IsText m haystack x
    → IsText m needle y
    → (length x < f) × (length y < f)
    → strstr f m haystack needle
      ≡ some (if (haystack == 0) || (needle == 0) then 0 else needle_at haystack y x)
unfolding strstr needle_at
strstr-address f m haystack needle x [] t u (h, k) = ground arith
strstr-address f m haystack needle x (d ∷ ds) t u (h, k) =
    let e : m needle == 0 ≡ false = ground arith in
    rw (e, str_from-address f f m haystack needle x (d ∷ ds) t u h k) (ground arith)
