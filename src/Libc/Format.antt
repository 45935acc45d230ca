-- ===== src/Libc/Format.antt =====
-- kernel/libs/libc.c, formatted output: `vsprintf`, `vsnprintf` and the wrappers that gather their
-- arguments, `sprintf` and `snprintf`. The result is the bytes that are written before the last
-- NUL, and `none` where the code runs into what C leaves undefined: a missing argument, one of
-- another kind, a format that ends inside a directive, a result that overruns the buffer, the negation
-- of the least `int` or `long`.
use hana_core.Prelude.{
  ◌||◌, ℕ, zero, suc, ◌+◌, ◌-◌, ◌%◌, ◌^◌, ◌≡◌, Bool, true, false, ◌&&◌, ◌==◌, ltb, leb, Option,
  none, some, List, [], ◌∷◌, ◌++◌, if◌then◌else◌, length, take, replicate, ◌>>=◌,
}
use mathlib.Core.Option.{map as option_map}
use hana_core.Libc.Number.{utoa, utoa64, utoa64_hex, fill_tmp, truncated}
pub mod Laws

-- An argument: a text, or a word in the register that `va_arg` reads its low bits from.
pub data Arg : Type 0 where
  text : List ℕ → Arg
  word : ℕ → Arg

-- `"0123456789ABCDEF"[d]`.
unfoldable pub upper_char : ℕ → ℕ
upper_char d = if ltb d 10 then b'0' + d else b'A' + (d - 10)

-- The magnitude that is printed behind the sign for a word of `w` bits. The least number of that width
-- has no negation.
unfoldable pub magnitude : ℕ → ℕ → Option ℕ
magnitude w val =
    if val == 2 ^ (w - 1)
    then none
    else if ltb val (2 ^ (w - 1))
    then some val
    else some (2 ^ w - val)

unfoldable pub with_sign : ℕ → ℕ → List ℕ → List ℕ
with_sign w val digits = if ltb val (2 ^ (w - 1)) then digits else b'-' ∷ digits

-- `%d`, with the number of `l` before it.
unfoldable pub format_d : ℕ → ℕ → Option (List ℕ)
format_d len_mod arg =
    if len_mod == 0
    then (magnitude 32 (arg % 2 ^ 32) >>= λ m. option_map (with_sign 32 (arg % 2 ^ 32)) (utoa m 32))
    else (magnitude 64 (arg % 2 ^ 64) >>= λ m.
        option_map (with_sign 64 (arg % 2 ^ 64)) (utoa64 m 64))

unfoldable pub format_u : ℕ → ℕ → Option (List ℕ)
format_u len_mod arg = if len_mod == 0 then utoa (arg % 2 ^ 32) 32 else utoa64 (arg % 2 ^ 64) 64

-- The digits of `%x` are copied from the end of their buffer.
unfoldable pub format_x : ℕ → ℕ → Option (List ℕ)
format_x len_mod arg =
    let tmp : List ℕ = fill_tmp upper_char 16 31 (arg % 2 ^ 32) in
    if len_mod == 0 then some (truncated tmp 0 (length tmp)) else utoa64_hex (arg % 2 ^ 64) 64

unfoldable pub format_p : ℕ → Option (List ℕ)
format_p arg =
    option_map (λ (tmp : List ℕ). b'0' ∷ b'x' ∷ (replicate (16 - length tmp) b'0' ++ tmp))
      (utoa64_hex (arg % 2 ^ 64) 32)

-- A directive that takes a number.
unfoldable pub format_number : ℕ → ℕ → ℕ → Option (List ℕ)
format_number len_mod c arg =
    if c == b'd'
    then format_d len_mod arg
    else if c == b'u'
    then format_u len_mod arg
    else if c == b'x'
    then format_x len_mod arg
    else if c == b'p'
    then format_p arg
    else some (arg % 256 ∷ [])

unfoldable pub takes_number : ℕ → Bool
takes_number c = (c == b'd') || ((c == b'u') || ((c == b'x') || ((c == b'p') || (c == b'c'))))

unfoldable pub take_text : List Arg → Option (List ℕ × List Arg)
take_text (text t ∷ args) = some (t, args)
take_text (word n ∷ args) = none
take_text [] = none

unfoldable pub take_number : ℕ → ℕ → List Arg → Option (List ℕ × List Arg)
take_number len_mod c (word n ∷ args) =
    option_map (λ (out : List ℕ). (out, args)) (format_number len_mod c n)
take_number len_mod c (text t ∷ args) = none
take_number len_mod c [] = none

-- The `switch` of `vsprintf`: what it writes and the arguments that are left.
unfoldable pub convert_arg : ℕ → ℕ → List Arg → Option (List ℕ × List Arg)
convert_arg len_mod c args =
    if c == b's'
    then take_text args
    else if takes_number c
    then take_number len_mod c args
    else if c == b'%'
    then some (b'%' ∷ [], args)
    else some (b'%' ∷ c ∷ [], args)

-- Where the loop of `vsprintf` stands: in plain text, or behind a `%` and a number of `l`.
pub data Mode : Type 0 where
  plain : Mode
  directive : ℕ → Mode

-- A format that ends in a directive makes the loop step over its NUL.
unfoldable pub format : Mode → List ℕ → List Arg → Option (List ℕ)
format plain [] args = some []
format (directive len_mod) [] args = none
format plain (c ∷ fmt) args =
    let open_ = format (directive 0) fmt args in
    let copy = option_map (λ (out : List ℕ). c ∷ out) (format plain fmt args) in
    if c == b'%' then open_ else copy
format (directive len_mod) (c ∷ fmt) args =
    let longer = format (directive (len_mod + 1)) fmt args in
    let step = convert_arg len_mod c args >>= λ r.
    option_map (λ (out : List ℕ). r.0 ++ out) (format plain fmt r.1) in
    if (c == b'l') && ltb len_mod 2 then longer else step

unfoldable pub vsprintf : List ℕ → List Arg → Option (List ℕ)
vsprintf fmt args = format plain fmt args

unfoldable pub sprintf : List ℕ → List Arg → Option (List ℕ)
sprintf fmt args = vsprintf fmt args

-- What `vsnprintf` returns, and the text it leaves in the buffer, if it writes to it.
pub record Printed : Type 0 where
  pub count : ℕ
  pub buffer : Option (List ℕ)

-- `vsnprintf` behind its call of `vsprintf`, which wrote these bytes and a NUL to `tmp[1024]`.
unfoldable pub bounded : ℕ → List ℕ → Option Printed
bounded n bytes =
    let to_copy : ℕ = if leb n (length bytes) then n - 1 else length bytes in
    if leb 1024 (length bytes)
    then none
    else if n == 0
    then some record { count = length bytes; buffer = none }
    else some record { count = to_copy; buffer = some (take to_copy bytes) }

unfoldable pub vsnprintf : ℕ → List ℕ → List Arg → Option Printed
vsnprintf n fmt args = vsprintf fmt args >>= bounded n

unfoldable pub snprintf : ℕ → List ℕ → List Arg → Option Printed
snprintf n fmt args = vsnprintf n fmt args
