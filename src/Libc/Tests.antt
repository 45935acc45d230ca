-- ===== src/Libc/Tests.antt =====
-- The C library at concrete memories, texts and formats.
use hana_core.Prelude.{
  ℕ, ◌≡◌, ◌↔◌, refl, List, [], ◌∷◌, ◌++◌, none, some, true, ◌%◌, ◌^◌, ◌<◌, ◌⊎◌, inr, ◌==◌, ◌||◌,
  if◌then◌else◌, get_or, take, min, arith, ◌-◌,
}
use hana_core.Prelude.Int.{ℤ, pos}
use hana_core.Prelude.Text.{eq_text}
use hana_core.Libc.{Ram, memmove}
use hana_core.Libc.Blocks.{copied, memmove-copied}
use hana_core.Libc.Text.{IsText, strcmp, strcat, strstr}
use hana_core.Libc.Text.Compare.{strcmp-eq_text}
use hana_core.Libc.Text.Write.{strcat-Written}
use hana_core.Libc.Text.Search.{needle_at, strstr-address}
use hana_core.Libc.Number.{
  is_space, skip_space, read_sign, convert, pick_base, skip_prefix, has_prefix, scan, taken,
  digit_of, finish, fill_tmp, fill, truncated, utoa64_hex, hex_char, emit, reversed, strtol, atoi,
  signed,
}
use hana_core.Libc.Format.{
  format, convert_arg, take_text, take_number, takes_number, format_number, format_x, upper_char,
  word, text, vsprintf, vsnprintf,
}
use hana_core.Libc.Format.Laws.{atoi-vsprintf, vsnprintf-vsprintf}

-- `usr` at 1, `r` at 5, `us` at 7.
abbrev ram : Ram
ram x = get_or (0 ∷ b'u' ∷ b's' ∷ b'r' ∷ 0 ∷ b'r' ∷ 0 ∷ b'u' ∷ b's' ∷ 0 ∷ []) x 0

usr-IsText : IsText ram 1 (b'u' ∷ b's' ∷ b'r' ∷ [])
usr-IsText = omega arith

r-IsText : IsText ram 5 (b'r' ∷ [])
r-IsText = omega arith

us-IsText : IsText ram 7 (b'u' ∷ b's' ∷ [])
us-IsText = omega arith

memmove-copied_example : memmove ram 2 1 3 4 ≡ copied ram 2 1 3 4
memmove-copied_example = memmove-copied ram 2 1 3 4

strcmp-eq_text_example :
    (v : ℤ) × ((strcmp 9 ram 1 7 ≡ some v)
      × ((v ≡ pos 0) ↔ (eq_text (b'u' ∷ b's' ∷ b'r' ∷ []) (b'u' ∷ b's' ∷ []) ≡ true)))
strcmp-eq_text_example =
    strcmp-eq_text 9 ram 1 7 (b'u' ∷ b's' ∷ b'r' ∷ []) (b'u' ∷ b's' ∷ []) usr-IsText us-IsText
      (omega arith)

strcat-Written_example :
    (after : Ram) × ((strcat 9 ram 7 5 ≡ some after)
      × (IsText after 7 (b'u' ∷ b's' ∷ b'r' ∷ [])
          × ((x : ℕ) → (x < 9) ⊎ (10 < x) → after x ≡ ram x)))
strcat-Written_example =
    strcat-Written 9 ram 7 5 (b'u' ∷ b's' ∷ []) (b'r' ∷ []) us-IsText r-IsText (inr (omega arith))
      (omega arith, omega arith)

strstr-address_example :
    strstr 9 ram 1 5
    ≡ some (if ◌==◌ 1 0 || ◌==◌ 5 0 then 0 else needle_at 1 (b'r' ∷ []) (b'u' ∷ b's' ∷ b'r' ∷ []))
strstr-address_example =
    strstr-address 9 ram 1 5 (b'u' ∷ b's' ∷ b'r' ∷ []) (b'r' ∷ []) usr-IsText r-IsText
      (omega arith, omega arith)

-- `%d` of -5.
atoi-vsprintf_example :
    (number : List ℕ) × (vsprintf ((b'=' ∷ []) ++ (b'%' ∷ b'd' ∷ [])) (word (2 ^ 32 - 5) ∷ [])
      ≡ some ((b'=' ∷ []) ++ (number ++ [])))
    × (atoi number ≡ signed 32 ((2 ^ 32 - 5) % 2 ^ 32))
atoi-vsprintf_example = atoi-vsprintf (b'=' ∷ []) [] (2 ^ 32 - 5) (omega arith, tt) tt (omega arith)

print_text :
    vsprintf (b'%' ∷ b's' ∷ []) (text (b'a' ∷ b'b' ∷ b'c' ∷ []) ∷ [])
    ≡ some (b'a' ∷ b'b' ∷ b'c' ∷ [])
unfolding vsprintf format convert_arg take_text
print_text = refl

-- `%x` prints capitals and `%lx` small letters.
print_hex :
    vsprintf (b'%' ∷ b'x' ∷ b'%' ∷ b'l' ∷ b'x' ∷ []) (word 171 ∷ word 171 ∷ [])
    ≡ some (b'A' ∷ b'B' ∷ b'a' ∷ b'b' ∷ [])
unfolding vsprintf format convert_arg take_number takes_number format_number format_x upper_char
    fill_tmp fill truncated utoa64_hex hex_char emit reversed
print_hex = refl

-- ` -0x1Fz`.
read_hex :
    strtol (b' ' ∷ b'-' ∷ b'0' ∷ b'x' ∷ b'1' ∷ b'F' ∷ b'z' ∷ []) 0
    ≡ record { word = 2 ^ 64 - 31; endptr = b'z' ∷ [] }
unfolding strtol skip_space is_space read_sign convert pick_base skip_prefix has_prefix scan taken
    digit_of finish
read_hex = refl

vsnprintf-vsprintf_example :
    vsnprintf 3 (b'%' ∷ b's' ∷ []) (text (b'a' ∷ b'b' ∷ b'c' ∷ []) ∷ [])
    ≡ some (
        if ◌==◌ 3 0 then record { count = 3; buffer = none } else record {
          count = min (3 - 1) 3;
          buffer = some (take (3 - 1) (b'a' ∷ b'b' ∷ b'c' ∷ []));
        })
vsnprintf-vsprintf_example =
    vsnprintf-vsprintf 3 (b'%' ∷ b's' ∷ []) (text (b'a' ∷ b'b' ∷ b'c' ∷ []) ∷ [])
      (b'a' ∷ b'b' ∷ b'c' ∷ []) print_text (omega arith)
