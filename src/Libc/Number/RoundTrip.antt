-- ===== src/Libc/Number/RoundTrip.antt =====
-- Reading back what was printed, kernel/libs/libc.c: `strtol` and `atoi` after `utoa`, `utoa64` and
-- `utoa64_hex`.
use hana_core.Prelude.{
  ◌&&◌, ℕ, ◌%◌, ◌^◌, ◌<◌, ◌≡◌, refl, ap, ◌∙◌, sym, Bool, true, false, ◌==◌, some, List, [], ◌∷◌,
  ◌++◌, arith, inl, inr,
}
use hana_core.Prelude.Int.{pos}
use hana_core.Libc.Number.{
  Parsed, has_prefix, pick_base, skip_prefix, finish, convert, strtol, signed, atoi, utoa, utoa64,
  utoa64_hex, decimal_char, hex_char,
}
use hana_core.Libc.Number.Digits.{printed, emit_whole}
use mathlib.Core.List.{append-nil}
use hana_core.Libc.Number.Scan.{
  Reads, Stops, decimal_char-Reads, hex_char-Reads, scan-printed, printed_head, starts_plain,
}

-- The base's digits but 0 are printed as other characters than 0, behind it in order.
abbrev pub Leads : (ℕ → ℕ) → ℕ → Type 0
Leads char base = (d : ℕ) → 0 < d → d < base → b'0' < char d

pub decimal_char-Leads : Leads decimal_char 10
unfolding decimal_char
decimal_char-Leads d h k = omega arith

pub hex_char-Leads : Leads hex_char 16
unfolding hex_char
hex_char-Leads d h k = ground arith

-- What follows does not turn a printed 0 into a prefix.
abbrev pub NoPrefix : ℕ → List ℕ → Type 0
NoPrefix base rest = (base == 16) && has_prefix (b'0' ∷ rest) ≡ false

no_prefix : (c base : ℕ) (s : List ℕ) → b'0' < c → (base == 16) && has_prefix (c ∷ s) ≡ false
unfolding has_prefix
no_prefix c base s h = let e : c == b'0' ≡ false = ground arith in ground (arith, e)

module _ (char : ℕ → ℕ) (base : ℕ) (big : 1 < base) (reads : Reads char base)
    (leads : Leads char base) where
  pub convert-printed :
      (room v : ℕ) (nptr rest : List ℕ) (minus : Bool)
      → v < 2 ^ 64
      → v < base ^ room
      → Stops base rest
      → NoPrefix base rest
      → convert base nptr (minus, printed char base room v ++ rest)
        ≡ finish nptr minus (v, true, rest)
  unfolding convert pick_base skip_prefix
  convert-printed room v nptr rest minus w fits stops plain =
      let nonzero : base == 0 ≡ false = ground arith in
      let start : (base == 16) && has_prefix (printed char base room v ++ rest) ≡ false =
        elim (printed_head char base room v (omega arith) fits) [
          | inl e ↦ rw e plain
          | inr (d, r, e, dp, db) ↦ rw e (no_prefix (char d) base (r ++ rest) (leads d dp db))
        ] in
      rw nonzero
        (rw start (rw (scan-printed char base big reads room v rest false w fits stops) refl))

  pub strtol-printed :
      (room v : ℕ) (rest : List ℕ)
      → v < 2 ^ 64
      → v < base ^ room
      → Stops base rest
      → NoPrefix base rest
      → strtol (printed char base room v ++ rest) base ≡ record { word = v; endptr = rest }
  strtol-printed room v rest w fits stops plain =
      starts
      ∙ convert-printed room v (printed char base room v ++ rest) rest false w fits stops plain
      ∙ (unfold finish in refl)
    where
      starts :
          strtol (printed char base room v ++ rest) base
          ≡ convert base
              (printed char base room v ++ rest)
              (false, printed char base room v ++ rest)
      starts = elim (printed_head char base room v (omega arith) fits) [
        | inl e ↦ rw e (starts_plain b'0' base rest (omega arith))
        | inr (d, r, e, dp, db) ↦
            rw e (starts_plain (char d) base (r ++ rest) (omega (arith, leads d dp db)))
      ]

-- Reading back what `utoa64` left in a buffer of 32 bytes or more gives the number again, and the
-- end of reading is what stands behind it, where that does not go on with a digit.
pub strtol-utoa64 :
    (value buflen : ℕ) (rest : List ℕ)
    → value < 2 ^ 64
    → 31 < buflen
    → Stops 10 rest
    → (text : List ℕ) × (utoa64 value buflen ≡ some text)
      × (strtol (text ++ rest) 10 ≡ record { word = value; endptr = rest })
unfolding utoa64
strtol-utoa64 value buflen rest w room stops = (
  printed decimal_char 10 31 value,
  emit_whole decimal_char 10 31 value buflen (omega arith) room,
  strtol-printed decimal_char 10 (omega arith) decimal_char-Reads decimal_char-Leads 31 value rest w
      (omega arith) stops refl,
)

-- The same for `utoa64_hex` and base 16, where nothing stands behind the number.
pub strtol-utoa64_hex :
    (value buflen : ℕ)
    → value < 2 ^ 64
    → 31 < buflen
    → (text : List ℕ) × (utoa64_hex value buflen ≡ some text)
      × (strtol text 16 ≡ record { word = value; endptr = [] })
unfolding utoa64_hex
strtol-utoa64_hex value buflen w room = (
  printed hex_char 16 31 value,
  emit_whole hex_char 16 31 value buflen (omega arith) room,
  ap (λ (l : List ℕ). strtol l 16) (sym (append-nil _))
      ∙ strtol-printed hex_char 16 (omega arith) hex_char-Reads hex_char-Leads 31 value [] w
          (omega arith) tt (unfold has_prefix in refl),
)

-- A word of 32 bits as an `int`.
pub atoi_word :
    (text rest : List ℕ) (w : ℕ)
    → strtol text 10 ≡ record { word = w; endptr = rest }
    → atoi text ≡ signed 32 (w % 2 ^ 32)
unfolding atoi
atoi_word text rest w e = ap (λ (r : Parsed). signed 32 (r.word % 2 ^ 32)) e

-- `atoi` gives back each `int` from 0 up that `utoa` printed in a buffer of 24 bytes or more.
pub atoi-utoa :
    (value buflen : ℕ)
    → value < 2 ^ 31
    → 23 < buflen
    → (text : List ℕ) × (utoa value buflen ≡ some text) × (atoi text ≡ pos value)
unfolding utoa
atoi-utoa value buflen w room = (
  printed decimal_char 10 23 value,
  emit_whole decimal_char 10 23 value buflen (omega arith) room,
  atoi_word (printed decimal_char 10 23 value) [] value (
        ap (λ (l : List ℕ). strtol l 10) (sym (append-nil _))
        ∙ strtol-printed decimal_char 10 (omega arith) decimal_char-Reads decimal_char-Leads 23
            value [] (omega arith) (omega arith) tt refl)
      ∙ unfold signed in ground arith,
)
