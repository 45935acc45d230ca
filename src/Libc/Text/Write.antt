-- ===== src/Libc/Text/Write.antt =====
-- The writers of texts in kernel/libs/libc.c, `strcpy`, `strcat` and `strncpy`: what they leave at
-- the destination and that they leave the rest of the memory alone.
use hana_core.Prelude.{
  ℕ, zero, suc, ◌+◌, ◌-◌, ◌≤◌, ◌<◌, ◌≡◌, refl, ◌∙◌, ◌⊎◌, inl, inr, true, false, ◌&&◌, ◌==◌, some,
  List, [], ◌∷◌, ◌++◌, ap, sym, arith, if◌then◌else◌, length, le_or_lt, get_or, leb, ltb, subst,
}
use hana_core.Libc.{Ram, store}
use hana_core.Libc.Blocks.{store_same, store_other}
use hana_core.Libc.Text.{IsText, copy_text, strcpy, strcat, pad, strncpy, strncpy_from}
use hana_core.Libc.Text.Compare.{end_of-IsText}

-- A text stays where no byte of it changes.
IsText-frame :
    (m after : Ram) (p : ℕ) (l : List ℕ)
    → ((x : ℕ) → p ≤ x → x ≤ p + length l → after x ≡ m x)
    → IsText m p l
    → IsText after p l
IsText-frame m after p [] same t = same p (omega arith) (omega arith) ∙ t
IsText-frame m after p (c ∷ l) same (tc, tn, tl) = (
  same p (omega arith) (omega arith) ∙ tc,
  tn,
  IsText-frame m after (p + 1) l (λ x low high. same x (omega arith) (omega arith)) tl,
)

-- The memory holds the text at `d`, and elsewhere what it held before.
abbrev pub Written : Ram → ℕ → List ℕ → Ram → Type 0
Written m d l after = IsText after d l × ((x : ℕ) → (x < d) ⊎ (d + length l < x) → after x ≡ m x)

copy_text-Written :
    (f : ℕ) (m : Ram) (d s : ℕ) (l : List ℕ)
    → IsText m s l
    → (d ≤ s) ⊎ (s + length l < d)
    → length l < f
    → (after : Ram) × ((copy_text f m d s ≡ some after) × Written m d l after)
unfolding copy_text
copy_text-Written zero m d s l t apart h = absurd (omega arith)
copy_text-Written (suc f) m d s [] t apart h =
    let e : m s == 0 ≡ true = ground arith in
    (
      store m d (m s),
      (
        rw e refl,
        (
          store_same m d (m s) ∙ t,
          λ (x : ℕ) (far : (x < d) ⊎ (d + 0 < x)). store_other m d (m s) x (omega (arith, far)),
        ),
      ),
    )
copy_text-Written (suc f) m d s (c ∷ l) (tc, tn, tl) apart h =
    let e : m s == 0 ≡ false = ground arith in
    let m1 : Ram = store m d (m s) in
    let t1 : IsText m1 (s + 1) l =
      IsText-frame m m1 (s + 1) l (λ x low high. store_other m d (m s) x (omega (arith, apart)))
        tl in
    let ih = copy_text-Written f m1 (d + 1) (s + 1) l t1 (omega (arith, apart)) (omega arith) in
    (
      ih.0,
      (
        rw e ih.1.0,
        (
          (ih.1.1.1 d (inl (omega arith)) ∙ store_same m d (m s) ∙ tc, tn, ih.1.1.0),
          λ (x : ℕ) (far : (x < d) ⊎ (d + suc (length l) < x)).
              ih.1.1.1 x (omega (arith, far)) ∙ store_other m d (m s) x (omega (arith, far)),
        ),
      ),
    )

-- `strcpy` ends, with fuel for the bytes of the source and its NUL; the destination then holds the
-- text of the source and every byte outside it is unchanged, unless the destination starts inside
-- the source, above its start.
pub strcpy-Written :
    (f : ℕ) (m : Ram) (dst src : ℕ) (l : List ℕ)
    → IsText m src l
    → (dst ≤ src) ⊎ (src + length l < dst)
    → length l < f
    → (after : Ram) × ((strcpy f m dst src ≡ some after) × Written m dst l after)
unfolding strcpy
strcpy-Written f m dst src l t apart h = copy_text-Written f m dst src l t apart h

-- A text whose bytes are kept, up to where another text has been put behind it.
IsText-append :
    (m after : Ram) (p : ℕ) (a b : List ℕ)
    → IsText m p a
    → ((x : ℕ) → x < p + length a → after x ≡ m x)
    → IsText after (p + length a) b
    → IsText after p (a ++ b)
IsText-append m after p [] b t same u = subst (λ (q : ℕ). IsText after q b) (omega arith) u
IsText-append m after p (c ∷ a) b (tc, tn, tl) same u = (
  same p (omega arith) ∙ tc,
  tn,
  IsText-append m after (p + 1) a b tl (λ x h. same x (omega arith))
      (subst (λ (q : ℕ). IsText after q b) (omega arith) u),
)

-- `strcat` ends, with fuel for each text and its NUL; the destination then holds its own text
-- followed by that of the source, and the bytes before it and behind the new text are unchanged,
-- unless the source's text reaches past the end of the destination's.
pub strcat-Written :
    (f : ℕ) (m : Ram) (dest src : ℕ) (a b : List ℕ)
    → IsText m dest a
    → IsText m src b
    → (dest + length a ≤ src) ⊎ (src + length b < dest + length a)
    → (length a < f) × (length b < f)
    → (after : Ram) × ((strcat f m dest src ≡ some after)
        × (IsText after dest (a ++ b)
            × ((x : ℕ) → (x < dest + length a) ⊎ (dest + length a + length b < x) → after x ≡ m x)))
unfolding strcat
strcat-Written f m dest src a b t u apart (fa, fb) =
    let put = copy_text-Written f m (dest + length a) src b u apart fb in
    (
      put.0,
      (
        rw (end_of-IsText f m dest a t fa) put.1.0,
        (IsText-append m put.0 dest a b t (λ x h. put.1.1.1 x (inl h)) put.1.1.0, put.1.1.1),
      ),
    )

pad_lem :
    (m : Ram) (d i left x : ℕ)
    → pad m d i left x ≡ (if leb (d + i) x && ltb x (d + i + left) then 0 else m x)
unfolding pad store
pad_lem m d i zero x = ground arith
pad_lem m d i (suc left) x = pad_lem (store m (d + i) 0) d (i + 1) left x ∙ ground arith

-- What is left of a block of `n` bytes at `d` that holds a text padded with zeros.
unfoldable pub padded_text : Ram → ℕ → ℕ → List ℕ → Ram
padded_text m d n l x = if leb d x && ltb x (d + n) then get_or l (x - d) 0 else m x

padded_text-cons :
    (m : Ram) (d n c : ℕ) (l : List ℕ) (x : ℕ)
    → padded_text (store m d c) (d + 1) n l x ≡ padded_text m d (suc n) (c ∷ l) x
unfolding padded_text store
padded_text-cons m d n c l x = elim (le_or_lt x d) [
  | inl low ↦ elim (le_or_lt d x) [
    | inl at_ ↦ let e : x - d ≡ 0 = omega arith in rw e (ground arith)
    | inr below ↦ ground arith
  ]
  | inr above ↦ let e : x - d ≡ suc (x - (d + 1)) = omega arith in rw e (ground arith)
]

strncpy_from-padded_text :
    (m : Ram) (d s i left : ℕ) (l : List ℕ) (x : ℕ)
    → IsText m (s + i) l
    → (d ≤ s) ⊎ (s + i + length l < d + i)
    → strncpy_from m d s i left x ≡ padded_text m (d + i) left l x
unfolding strncpy_from
strncpy_from-padded_text m d s i zero l x t apart = unfold padded_text in ground arith
strncpy_from-padded_text m d s i (suc left) [] x t apart =
    let e : m (s + i) == 0 ≡ true = ground arith in
    rw e (pad_lem m d i (suc left) x ∙ unfold padded_text in refl)
strncpy_from-padded_text m d s i (suc left) (c ∷ l) x (tc, tn, tl) apart =
    let e : m (s + i) == 0 ≡ false = ground arith in
    let m1 : Ram = store m (d + i) (m (s + i)) in
    let more : strncpy_from m d s i (suc left) x ≡ strncpy_from m1 d s (i + 1) left x = rw e refl in
    let up : (p : ℕ) → p + i + 1 ≡ p + (i + 1) = λ p. omega arith in
    let t1 : IsText m1 (s + (i + 1)) l =
      subst (λ (p : ℕ). IsText m1 p l) (up s)
        (IsText-frame m m1 (s + i + 1) l
          (λ y low high. store_other m (d + i) (m (s + i)) y (omega (arith, apart, low, high)))
          tl) in
    more
    ∙ strncpy_from-padded_text m1 d s (i + 1) left l x t1 (omega (arith, apart))
    ∙ ap (λ (q : ℕ). padded_text m1 q left l x) (sym (up d))
    ∙ rw tc (padded_text-cons m (d + i) left c l x)

-- `strncpy` leaves `n` bytes at the destination, those of the source's text and behind them zeros
-- (so no NUL where the text is as long as `n`), and changes no other byte, unless the destination
-- starts inside the source's text, above its start.
pub strncpy-padded_text :
    (m : Ram) (dst src n : ℕ) (l : List ℕ) (x : ℕ)
    → IsText m src l
    → (dst ≤ src) ⊎ (src + length l < dst)
    → strncpy m dst src n x ≡ padded_text m dst n l x
unfolding strncpy
strncpy-padded_text m dst src n l x t apart =
    strncpy_from-padded_text m dst src 0 n l x (subst (λ (p : ℕ). IsText m p l) (omega arith) t)
      (omega (arith, apart))
    ∙ ap (λ (q : ℕ). padded_text m q n l x) (omega arith)
