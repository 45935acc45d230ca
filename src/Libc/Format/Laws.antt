-- ===== src/Libc/Format/Laws.antt =====
-- What the formatted output of kernel/libs/libc.c writes.
use native.Mathlib.Nat.{mod-eq_of_lt}
use hana_core.Prelude.{
  ℕ, ◌-◌, ◌%◌, ◌^◌, ◌≤◌, ◌<◌, min, ◌≡◌, ◌≢◌, refl, ap, ◌∙◌, sym, true, false, ◌==◌, ltb, leb,
  Option, none, some, List, [], ◌∷◌, ◌++◌, if◌then◌else◌, length, take, arith, Bool-cases, inl, inr,
}
use mathlib.Core.Path.{ap₂}
use mathlib.Core.Option.{map as option_map}
use hana_core.Hanafs.Path.Shape.{take_enough}
use hana_core.Libc.Number.{
  strtol, atoi, signed, utoa, convert, finish, skip_space, read_sign, decimal_char,
}
use hana_core.Libc.Number.Digits.{printed, emit_whole}
use hana_core.Libc.Number.Scan.{decimal_char-Reads}
use hana_core.Libc.Number.RoundTrip.{strtol-printed, convert-printed, decimal_char-Leads, atoi_word}
use hana_core.Libc.Format.{
  Arg, word, plain, format, vsprintf, Printed, bounded, vsnprintf, with_sign, magnitude, format_d,
  format_number, convert_arg, take_number, takes_number,
}
use mathlib.Core.List.{append-nil}

-- A text with no `%`.
abbrev pub IsLiteral : List ℕ → Type 0
IsLiteral [] = Unit
IsLiteral (c ∷ l) = (c ≢ b'%') × IsLiteral l

-- Plain text before a format is written as it stands.
format-append :
    (lit fmt : List ℕ) (args : List Arg)
    → IsLiteral lit
    → format plain (lit ++ fmt) args
      ≡ option_map (λ (out : List ℕ). lit ++ out) (format plain fmt args)
unfolding format
format-append [] fmt args h = id_map (format plain fmt args)
  where
    id_map : (o : Option (List ℕ)) → o ≡ option_map (λ (out : List ℕ). [] ++ out) o
    id_map none = refl
    id_map (some out) = refl
format-append (c ∷ lit) fmt args (hc, h) =
    let e : c == b'%' ≡ false = ground arith in
    rw (e, format-append lit fmt args h) (twice (format plain fmt args))
  where
    twice :
        (o : Option (List ℕ))
        → option_map (λ (out : List ℕ). c ∷ out) (option_map (λ (out : List ℕ). lit ++ out) o)
          ≡ option_map (λ (out : List ℕ). (c ∷ lit) ++ out) o
    twice none = refl
    twice (some out) = refl

-- A format whose last byte is the `%` of a directive has no defined result, whatever plain text
-- stands before it and whatever arguments follow.
pub vsprintf_open :
    (lit : List ℕ) (args : List Arg) → IsLiteral lit → vsprintf (lit ++ (b'%' ∷ [])) args ≡ none
unfolding vsprintf
vsprintf_open lit args h = rw (format-append lit (b'%' ∷ []) args h) (unfold format in refl)

-- The result of a conversion of a number between two plain texts.
format_one :
    (lit after : List ℕ) (c n : ℕ) (out : List ℕ)
    → IsLiteral lit
    → IsLiteral after
    → convert_arg 0 c (word n ∷ []) ≡ some (out, [])
    → c ≢ b'l'
    → vsprintf (lit ++ (b'%' ∷ c ∷ after)) (word n ∷ []) ≡ some (lit ++ (out ++ after))
unfolding vsprintf
format_one lit after c n out hl ha e nl =
    let tail : format plain after [] ≡ some after = literal after ha in
    let l : c == b'l' ≡ false = ground arith in
    rw (format-append lit (b'%' ∷ c ∷ after) (word n ∷ []) hl)
      (unfold format in rw (l, e) (rw tail refl))
  where
    literal : (s : List ℕ) → IsLiteral s → format plain s [] ≡ some s
    literal s h =
        ap (λ (l : List ℕ). format plain l []) (sym (append-nil s))
        ∙ format-append s [] [] h
        ∙ unfold format in ap some (append-nil s)

-- `vsnprintf` writes no more than a buffer of `n` bytes has space for beside the NUL: the
-- beginning of what `vsprintf` gives, and all of it where it fits. It returns the number of bytes
-- that it wrote, or the length of the whole result where the buffer has no bytes. The result of
-- `vsprintf` has to be shorter than 1024 bytes, the size of the array that it is put in first.
pub vsnprintf-vsprintf :
    (n : ℕ) (fmt : List ℕ) (args : List Arg) (bytes : List ℕ)
    → vsprintf fmt args ≡ some bytes
    → length bytes < 1024
    → vsnprintf n fmt args
      ≡ some (
          if n == 0
          then record { count = length bytes; buffer = none }
          else record { count = min (n - 1) (length bytes); buffer = some (take (n - 1) bytes) })
unfolding vsnprintf bounded
vsnprintf-vsprintf n fmt args bytes e h =
    let small : leb 1024 (length bytes) ≡ false = ground arith in
    rw e (
      rw small (elim (Bool-cases (n == 0)) [
        | inl none_ ↦ rw none_ refl
        | inr some_ ↦ rw some_ (elim (Bool-cases (leb n (length bytes))) [
          | inl long ↦
              let le : n ≤ length bytes = ground arith in
              rw long (ap some (ap₂ copied (omega arith) refl))
          | inr short ↦
              let lt : length bytes < n = ground arith in
              rw short (
                ap some (
                  ap₂ copied (omega (arith, some_pos n some_)) (
                    take_enough (length bytes) bytes (omega arith)
                    ∙ sym (take_enough (n - 1) bytes (omega arith)))))
        ])
      ]))
  where
    copied : ℕ → List ℕ → Printed
    copied k l = record { count = k; buffer = some l }

    some_pos : (k : ℕ) → k == 0 ≡ false → 0 < k
    some_pos k z = ground arith

-- A result of 1024 bytes or more overruns the array of `vsnprintf`, however short the buffer is.
pub vsnprintf_overrun :
    (n : ℕ) (fmt : List ℕ) (args : List Arg) (bytes : List ℕ)
    → vsprintf fmt args ≡ some bytes
    → 1024 ≤ length bytes
    → vsnprintf n fmt args ≡ none
unfolding vsnprintf bounded
vsnprintf_overrun n fmt args bytes e h =
    let big : leb 1024 (length bytes) ≡ true = ground arith in rw e (rw big refl)

-- The text of `%d`.
int_text : ℕ → List ℕ
int_text val =
    with_sign 32 val (printed decimal_char 10 23 (if ltb val (2 ^ 31) then val else 2 ^ 32 - val))

atoi-int_text : (val : ℕ) → val < 2 ^ 32 → atoi (int_text val) ≡ signed 32 val
unfolding int_text with_sign
atoi-int_text val w = elim (Bool-cases (ltb val (2 ^ 31))) [
  | inl up ↦ rw up (
      atoi_word (printed decimal_char 10 23 val) [] val (
        ap (λ (l : List ℕ). strtol l 10) (sym (append-nil _))
        ∙ strtol-printed decimal_char 10 (omega arith) decimal_char-Reads decimal_char-Leads 23 val
            [] (omega arith) (omega arith) tt refl)
      ∙ ap (signed 32) (mod-eq_of_lt w))
  | inr down ↦
      let m : ℕ = 2 ^ 32 - val in
      let ge : 2 ^ 31 ≤ val = ground arith in
      let minus : strtol (b'-' ∷ printed decimal_char 10 23 m) 10
          ≡ finish (b'-' ∷ printed decimal_char 10 23 m) true (m, true, []) =
        unfold strtol skip_space read_sign in
        (ap (λ (l : List ℕ). convert 10 (b'-' ∷ printed decimal_char 10 23 m) (true, l))
            (sym (append-nil _))
          ∙ convert-printed decimal_char 10 (omega arith) decimal_char-Reads decimal_char-Leads 23 m
              (b'-' ∷ printed decimal_char 10 23 m) [] true (omega arith) (omega arith) tt refl) in
      rw down (
        atoi_word (b'-' ∷ printed decimal_char 10 23 m) [] ((2 ^ 64 - m) % 2 ^ 64)
          (minus ∙ unfold finish in refl)
        ∙ ap (signed 32) (omega arith))
]

utoa_whole : (v : ℕ) → utoa v 32 ≡ some (printed decimal_char 10 23 v)
unfolding utoa
utoa_whole v = emit_whole decimal_char 10 23 v 32 (omega arith) (omega arith)

magnitude-up : (v : ℕ) → v < 2 ^ 31 → magnitude 32 v ≡ some v
unfolding magnitude
magnitude-up v h = ground arith

magnitude-down : (v : ℕ) → 2 ^ 31 < v → magnitude 32 v ≡ some (2 ^ 32 - v)
unfolding magnitude
magnitude-down v h = ground arith

format_d_lem : (n : ℕ) → n % 2 ^ 32 ≢ 2 ^ 31 → format_d 0 n ≡ some (int_text (n % 2 ^ 32))
unfolding format_d int_text
format_d_lem n ne = elim (Bool-cases (ltb (n % 2 ^ 32) (2 ^ 31))) [
  | inl up ↦ rw (magnitude-up (n % 2 ^ 32) (ground arith), up) (rw (utoa_whole (n % 2 ^ 32)) refl)
  | inr down ↦
      rw (magnitude-down (n % 2 ^ 32) (ground (arith, ne)), down)
        (rw (utoa_whole (2 ^ 32 - n % 2 ^ 32)) refl)
]

-- `%d` between plain texts writes them and a number between them that `atoi` reads as the argument,
-- for every `int` but the least one, whose negation C leaves undefined.
pub atoi-vsprintf :
    (lit after : List ℕ) (n : ℕ)
    → IsLiteral lit
    → IsLiteral after
    → n % 2 ^ 32 ≢ 2 ^ 31
    → (number : List ℕ) × (vsprintf (lit ++ (b'%' ∷ b'd' ∷ after)) (word n ∷ [])
        ≡ some (lit ++ (number ++ after)))
      × (atoi number ≡ signed 32 (n % 2 ^ 32))
atoi-vsprintf lit after n hl ha ne = (
  int_text (n % 2 ^ 32),
  format_one lit after b'd' n (int_text (n % 2 ^ 32)) hl ha
      (unfold convert_arg take_number takes_number format_number in rw (format_d_lem n ne) refl)
      (omega arith),
  atoi-int_text (n % 2 ^ 32) (omega arith),
)
