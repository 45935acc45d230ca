-- ===== src/Libc/Number/Scan.antt =====
-- How `strtol` of kernel/libs/libc.c reads the digits that the printers leave.
use native.Mathlib.Nat.{
  div-le_self, pow-zero, mul_comm, div-lt_iff_lt-mul, pow-succ', mul_comm, pow-zero, zero-mul,
  mod-lt, div-add-mod', mod-eq_of_lt,
}
use hana_core.Prelude.{
  ◌⊎◌, ℕ, zero, suc, ◌+◌, ◌*◌, ◌/◌, ◌%◌, ◌^◌, ◌≤◌, ◌<◌, ◌≡◌, refl, ap, ◌∙◌, sym, Bool, true, false,
  ◌==◌, none, some, List, [], ◌∷◌, ◌++◌, arith, Bool-cases, inl, inr, le_or_lt, subst,
}
use hana_core.Libc.Number.{
  skip_space, is_space, read_sign, digit_of, taken, scan, convert, strtol, decimal_char, hex_char,
}
use hana_core.Libc.Number.Digits.{numeral, numeral_zero, numeral-append, printed}

-- The characters of a base are its digits, in their order.
abbrev pub Reads : (ℕ → ℕ) → ℕ → Type 0
Reads char base = (d : ℕ) → d < base → taken base (char d) ≡ some d

pub decimal_char-Reads : Reads decimal_char 10
unfolding decimal_char taken digit_of
decimal_char-Reads d h = ground arith

pub hex_char-Reads : Reads hex_char 16
unfolding hex_char taken digit_of
hex_char-Reads d h = ground arith

module _ (char : ℕ → ℕ) (base : ℕ) (big : 0 < base) where
  scan_digit :
      (c d : ℕ) (tail : List ℕ) (acc : ℕ) (any : Bool)
      → taken base c ≡ some d
      → scan base (c ∷ tail) acc any ≡ scan base tail ((acc * base + d) % 2 ^ 64) true
  unfolding scan
  scan_digit c d tail acc any e = rw (e, scan) refl

  -- The last digit joins what is before it.
  scan_last :
      Reads char base
      → (v : ℕ) (tail : List ℕ) (any : Bool) → v < 2 ^ 64
      → scan base (char (v % base) ∷ tail) (v / base) any ≡ scan base tail v true
  scan_last reads v tail any w =
      scan_digit (char (v % base)) (v % base) tail (v / base) any
        (reads (v % base) (mod-lt v {m = base} big))
      ∙ ap (λ (n : ℕ). scan base tail n true)
          (ap (λ (n : ℕ). n % 2 ^ 64) (div-add-mod' v base) ∙ mod-eq_of_lt w)

  smaller : (v room : ℕ) → v < base ^ suc room → v / base < base ^ room
  smaller v room h =
      (div-lt_iff_lt-mul big).1
        (subst (λ (n : ℕ). v < n) (pow-succ' base room ∙ mul_comm base (base ^ room)) h)

  pub scan-numeral :
      Reads char base
      → (room v : ℕ) (tail : List ℕ) (any : Bool) → 0 < v
      → v < 2 ^ 64
      → v < base ^ room
      → scan base (numeral char base room v tail) 0 any ≡ scan base tail v true
  unfolding numeral
  scan-numeral reads zero v tail any h w fits = absurd (omega (arith, pow-zero base))
  scan-numeral reads (suc room) v tail any h w fits =
      let e : v == 0 ≡ false = ground arith in
      rw e (elim (le_or_lt (v / base) 0) [
        | inl last ↦
            let z : v / base ≡ 0 = omega (arith, last) in
            rw (z, numeral_zero char base room (char (v % base) ∷ tail))
              (subst (λ (n : ℕ). scan base (char (v % base) ∷ tail) n any ≡ scan base tail v true) z
                (scan_last reads v tail any w))
        | inr more ↦
            scan-numeral reads room (v / base) (char (v % base) ∷ tail) any more
              (omega (arith, w, div-le_self v base)) (smaller v room fits)
            ∙ scan_last reads v tail true w
      ])

  -- A number's text starts with a digit other than 0.
  pub numeral_head :
      (room v : ℕ) (tail : List ℕ)
      → 0 < v
      → v < base ^ room
      → (d : ℕ) × (rest : List ℕ) × (numeral char base room v tail ≡ char d ∷ rest)
        × (0 < d)
        × (d < base)
  unfolding numeral
  numeral_head zero v tail h fits = absurd (omega (arith, pow-zero base))
  numeral_head (suc room) v tail h fits =
      let e : v == 0 ≡ false = ground arith in
      elim (le_or_lt (v / base) 0) [
        | inl last ↦
            let z : v / base ≡ 0 = omega (arith, last) in
            (
              v % base,
              tail,
              rw (e, z) (numeral_zero char base room (char (v % base) ∷ tail)),
              omega (arith, div-add-mod' v base, ap (λ (n : ℕ). n * base) z, zero-mul base),
              mod-lt v {m = base} big,
            )
        | inr more ↦
            rw e (numeral_head room (v / base) (char (v % base) ∷ tail) more (smaller v room fits))
      ]

-- A text that does not continue a number of the base.
abbrev pub Stops : ℕ → List ℕ → Type 0
Stops base [] = Unit
Stops base (c ∷ s) = taken base c ≡ none

scan-Stops :
    (base : ℕ) (rest : List ℕ) (acc : ℕ) (any : Bool)
    → Stops base rest
    → scan base rest acc any ≡ (acc, any, rest)
unfolding scan
scan-Stops base [] acc any h = refl
scan-Stops base (c ∷ s) acc any h = rw (h, scan) refl

-- The base reads its characters, and zero is printed as the character 0.
module _ (char : ℕ → ℕ) (base : ℕ) (big : 1 < base) (reads : Reads char base) where
  pub scan-printed :
      (room v : ℕ) (rest : List ℕ) (any : Bool)
      → v < 2 ^ 64
      → v < base ^ room
      → Stops base rest
      → scan base (printed char base room v ++ rest) 0 any ≡ (v, true, rest)
  unfolding printed
  scan-printed room v rest any w fits stops = elim (Bool-cases (v == 0)) [
    | inl none_ ↦
        let z : v ≡ 0 = ground arith in
        let sum : (0 * base + 0) % 2 ^ 64 ≡ 0 = omega (arith, zero-mul base) in
        rw none_ (
          scan_digit char base (omega arith) b'0' 0 rest 0 any zero_digit
          ∙ rw (z, sum) (scan-Stops base rest 0 true stops))
    | inr some_ ↦ rw some_ (
        ap (λ (l : List ℕ). scan base l 0 any) (sym (numeral-append char base room v [] rest))
        ∙ scan-numeral char base (omega arith) reads room v rest any (ground arith) w fits
        ∙ scan-Stops base rest v true stops)
  ]
    where
      zero_digit : taken base b'0' ≡ some 0
      zero_digit = unfold taken digit_of in ground arith

-- The text of a number starts with a character of the base, 0 only if nothing is behind it.
pub printed_head :
    (char : ℕ → ℕ) (base room v : ℕ)
    → 0 < base
    → v < base ^ room
    → (printed char base room v ≡ b'0' ∷ [])
      ⊎ ((d : ℕ) × (rest : List ℕ) × (printed char base room v ≡ char d ∷ rest)
          × (0 < d)
          × (d < base))
unfolding printed
printed_head char base room v big fits = elim (Bool-cases (v == 0)) [
  | inl none_ ↦ inl (rw none_ refl)
  | inr some_ ↦ inr (rw some_ (numeral_head char base big room v [] (ground arith) fits))
]

-- Behind a character that is neither a space nor a sign, `strtol` starts at once.
pub starts_plain :
    (c base : ℕ) (s : List ℕ) → b'0' ≤ c → strtol (c ∷ s) base ≡ convert base (c ∷ s) (false, c ∷ s)
unfolding strtol skip_space is_space read_sign
starts_plain c base s h =
    let a : c == b' ' ≡ false = ground arith in
    let b : c == b'\t' ≡ false = ground arith in
    let d : c == b'\n' ≡ false = ground arith in
    let e : c == b'\r' ≡ false = ground arith in
    let f : c == 12 ≡ false = ground arith in
    let g : c == 11 ≡ false = ground arith in
    let i : c == b'-' ≡ false = ground arith in
    let j : c == b'+' ≡ false = ground arith in rw (a, b, d, e, f, g) (rw (i, j) refl)
