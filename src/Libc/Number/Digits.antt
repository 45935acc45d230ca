-- ===== src/Libc/Number/Digits.antt =====
-- The digits that the printers of kernel/libs/libc.c leave in a buffer, most significant first, and
-- what a short buffer keeps of them.
use native.Mathlib.Nat.{zero-add}
use hana_core.Prelude.{
  ℕ, zero, suc, ◌+◌, ◌-◌, ◌/◌, ◌%◌, ◌≤◌, ◌<◌, ◌≡◌, refl, ap, ◌∙◌, sym, false, ◌==◌, ltb, some, List,
  [], ◌∷◌, ◌++◌, if◌then◌else◌, length, get_or, take, arith, Bool-cases, inl, inr, subst,
}
use mathlib.Core.Path.{ap₂}
use mathlib.Core.Option.{map as option_map}
use hana_core.Hanafs.Path.Shape.{take_enough}
use hana_core.Libc.Number.{fill, fill_tmp, truncated, reversed, emit, utoa, decimal_char}
use mathlib.Core.List.{append_assoc, append-nil}

-- Both loops copy `tmp` from its end, the second one all of it.
reversed-truncated :
    (tmp : List ℕ) (i left : ℕ) → i + left ≡ length tmp → reversed tmp i left ≡ truncated tmp 0 left
unfolding reversed truncated
reversed-truncated tmp i zero e = refl
reversed-truncated tmp i (suc left) e =
    let at_ : length tmp - 1 - i ≡ 0 + left = omega (arith, e) in
    rw (at_, reversed-truncated tmp (i + 1) left (omega (arith, e))) refl

truncated-take :
    (tmp : List ℕ) (start k : ℕ) → truncated tmp start k ≡ take k (truncated tmp 0 (start + k))
unfolding truncated
truncated-take tmp start zero = refl
truncated-take tmp start (suc k) =
    let e : start + suc k ≡ suc (start + k) = omega arith in
    rw (e, zero-add, truncated-take tmp start k) refl

length-truncated : (tmp : List ℕ) (start k : ℕ) → length (truncated tmp start k) ≡ k
unfolding truncated
length-truncated tmp start zero = refl
length-truncated tmp start (suc k) = ap suc (length-truncated tmp start k)

-- Printing keeps the first `buflen - 1` bytes of the digits, most significant first.
pub emit-take :
    (tmp : List ℕ) (buflen : ℕ)
    → 0 < buflen
    → emit tmp buflen ≡ some (take (buflen - 1) (truncated tmp 0 (length tmp)))
unfolding emit
emit-take tmp buflen h =
    let e : buflen == 0 ≡ false = ground arith in
    rw e (elim (Bool-cases (ltb buflen (length tmp + 1))) [
      | inl short ↦
          let lt : buflen < length tmp + 1 = ground arith in
          let whole : length tmp - (buflen - 1) + (buflen - 1) ≡ length tmp = omega arith in
          rw short
            (ap some (truncated-take tmp (length tmp - (buflen - 1)) (buflen - 1) ∙ rw whole refl))
      | inr long ↦
          let ge : length tmp + 1 ≤ buflen = ground arith in
          rw long (
            ap some (
              reversed-truncated tmp 0 (length tmp) (omega arith)
              ∙ sym (
                  take_enough (buflen - 1) (truncated tmp 0 (length tmp))
                    (omega (arith, length-truncated tmp 0 (length tmp))))))
    ])

truncated-cons :
    (c : ℕ) (tmp : List ℕ) (k : ℕ) → truncated (c ∷ tmp) 0 (suc k) ≡ truncated tmp 0 k ++ (c ∷ [])
unfolding truncated
truncated-cons c tmp zero = refl
truncated-cons c tmp (suc k) =
    ap₂ ◌∷◌
      (ap (λ (i : ℕ). get_or (c ∷ tmp) i 0) (zero-add (suc k))
        ∙ sym (ap (λ (i : ℕ). get_or tmp i 0) (zero-add k)))
      (truncated-cons c tmp k)

-- The digits of a number in a base, most significant first, in front of a text.
unfoldable pub numeral : (ℕ → ℕ) → ℕ → ℕ → ℕ → List ℕ → List ℕ
numeral char base zero v tail = tail
numeral char base (suc room) v tail =
    let rest = numeral char base room (v / base) (char (v % base) ∷ tail) in
    if v == 0 then tail else rest

pub numeral_zero :
    (char : ℕ → ℕ) (base room : ℕ) (tail : List ℕ) → numeral char base room 0 tail ≡ tail
unfolding numeral
numeral_zero char base zero tail = refl
numeral_zero char base (suc room) tail = ground arith

pub numeral-append :
    (char : ℕ → ℕ) (base room v : ℕ) (a b : List ℕ)
    → numeral char base room v (a ++ b) ≡ numeral char base room v a ++ b
unfolding numeral
numeral-append char base zero v a b = refl
numeral-append char base (suc room) v a b = elim (Bool-cases (v == 0)) [
  | inl none_ ↦ rw none_ refl
  | inr some_ ↦ rw some_ (numeral-append char base room (v / base) (char (v % base) ∷ a) b)
]

-- The buffer read from its end spells the number.
truncated-fill :
    (char : ℕ → ℕ) (base room v : ℕ) (tail : List ℕ)
    → truncated (fill char base room v) 0 (length (fill char base room v)) ++ tail
      ≡ numeral char base room v tail
unfolding fill numeral
truncated-fill char base zero v tail = unfold truncated in refl
truncated-fill char base (suc room) v tail = elim (Bool-cases (v == 0)) [
  | inl none_ ↦ rw none_ (unfold truncated in refl)
  | inr some_ ↦
      let tmp : List ℕ = fill char base room (v / base) in
      let c : ℕ = char (v % base) in
      rw some_ (
        ap (λ (l : List ℕ). l ++ tail) (truncated-cons c tmp (length tmp))
        ∙ append_assoc (truncated tmp 0 (length tmp)) (c ∷ []) tail
        ∙ truncated-fill char base room (v / base) (c ∷ tail))
]

length-fill : (char : ℕ → ℕ) (base room v : ℕ) → length (fill char base room v) ≤ room
unfolding fill
length-fill char base zero v = omega arith
length-fill char base (suc room) v = elim (Bool-cases (v == 0)) [
  | inl none_ ↦ rw none_ (omega arith)
  | inr some_ ↦ rw some_ (omega (arith, length-fill char base room (v / base)))
]

-- What is printed for a number in a buffer with enough space.
unfoldable pub printed : (ℕ → ℕ) → ℕ → ℕ → ℕ → List ℕ
printed char base room v = if v == 0 then b'0' ∷ [] else numeral char base room v []

pub truncated-fill_tmp :
    (char : ℕ → ℕ) (base room v : ℕ)
    → truncated (fill_tmp char base room v) 0 (length (fill_tmp char base room v))
      ≡ printed char base room v
unfolding fill_tmp printed
truncated-fill_tmp char base room v = elim (Bool-cases (v == 0)) [
  | inl none_ ↦ rw none_ (unfold truncated in refl)
  | inr some_ ↦ rw some_ (sym (append-nil _) ∙ truncated-fill char base room v [])
]

length-fill_tmp :
    (char : ℕ → ℕ) (base room v : ℕ) → 0 < room → length (fill_tmp char base room v) ≤ room
unfolding fill_tmp
length-fill_tmp char base room v h = elim (Bool-cases (v == 0)) [
  | inl none_ ↦ rw none_ (omega arith)
  | inr some_ ↦ rw some_ (length-fill char base room v)
]

-- A short buffer gets the beginning of what a buffer with enough space gets.
pub emit-printed :
    (char : ℕ → ℕ) (base room v buflen : ℕ)
    → 0 < buflen
    → emit (fill_tmp char base room v) buflen ≡ some (take (buflen - 1) (printed char base room v))
emit-printed char base room v buflen h =
    emit-take (fill_tmp char base room v) buflen h
    ∙ ap (λ (l : List ℕ). some (take (buflen - 1) l)) (truncated-fill_tmp char base room v)

pub emit_whole :
    (char : ℕ → ℕ) (base room v buflen : ℕ)
    → 0 < room
    → room < buflen
    → emit (fill_tmp char base room v) buflen ≡ some (printed char base room v)
emit_whole char base room v buflen pr h =
    emit-printed char base room v buflen (omega arith)
    ∙ ap some (
        take_enough (buflen - 1) (printed char base room v) (
          subst (λ (l : List ℕ). length l ≤ buflen - 1) (truncated-fill_tmp char base room v)
            (omega (
              arith,
              length-truncated (fill_tmp char base room v) 0 (length (fill_tmp char base room v)),
              length-fill_tmp char base room v pr,
            ))))

-- In a buffer too short for the number, `utoa` leaves the most significant digits, as many as there
-- is space for beside the NUL; in every buffer of at least one byte it leaves the beginning of what
-- 24 bytes hold.
pub utoa_short :
    (value buflen : ℕ)
    → 0 < buflen
    → utoa value buflen ≡ option_map (take (buflen - 1)) (utoa value 24)
unfolding utoa
utoa_short value buflen h =
    emit-printed decimal_char 10 23 value buflen h
    ∙ sym (
        ap (option_map (take (buflen - 1)))
          (emit_whole decimal_char 10 23 value 24 (omega arith) (omega arith)))
