-- ===== src/Libc/Number.antt =====
-- kernel/libs/libc.c, the numbers in texts: `strtol`, `atoi`, `utoa`, `utoa64`, `utoa64_hex`. A text
-- is the list of the bytes before its NUL, and reading past its end gives the NUL. A `long` is
-- kept as its 64-bit word, so a sum that overflows wraps.
use hana_core.Prelude.{
  ℕ, zero, suc, ◌+◌, ◌-◌, ◌*◌, ◌/◌, ◌%◌, ◌^◌, Bool, true, false, ◌&&◌, ◌||◌, ◌==◌, ltb, leb, Option,
  none, some, List, [], ◌∷◌, if◌then◌else◌, length, get_or, drop,
}
use hana_core.Prelude.Int.{ℤ, pos, negsuc}
pub mod Digits
pub mod Scan
pub mod RoundTrip

-- What `strtol` gives: the word of its result, and the text that `*endptr` points to.
pub record Parsed : Type 0 where
  pub word : ℕ
  pub endptr : List ℕ

unfoldable pub is_space : ℕ → Bool
is_space c =
    (c == b' ') || ((c == b'\t') || ((c == b'\n') || ((c == b'\r') || ((c == 12) || (c == 11)))))

unfoldable pub skip_space : List ℕ → List ℕ
unfolding is_space
skip_space [] = []
skip_space (c ∷ s) = let rest = skip_space s in if is_space c then rest else c ∷ s

-- The sign, `true` for minus, and the text behind it.
unfoldable pub read_sign : List ℕ → Bool × List ℕ
read_sign [] = (false, [])
read_sign (c ∷ s) =
    if c == b'-' then (true, s) else if c == b'+' then (false, s) else (false, c ∷ s)

-- `s[0] == '0' && (s[1] == 'x' || s[1] == 'X')`.
unfoldable pub has_prefix : List ℕ → Bool
has_prefix s = (get_or s 0 0 == b'0') && ((get_or s 1 0 == b'x') || (get_or s 1 0 == b'X'))

unfoldable pub pick_base : ℕ → List ℕ → ℕ
pick_base base s =
    if base == 0
    then (if has_prefix s then 16 else if get_or s 0 0 == b'0' then 8 else 10)
    else base

unfoldable pub skip_prefix : ℕ → List ℕ → List ℕ
skip_prefix base s = if (base == 16) && has_prefix s then drop 2 s else s

unfoldable pub digit_of : ℕ → Option ℕ
digit_of c =
    if leb b'0' c && leb c b'9'
    then some (c - b'0')
    else if leb b'a' c && leb c b'z'
    then some (c - b'a' + 10)
    else if leb b'A' c && leb c b'Z'
    then some (c - b'A' + 10)
    else none

-- The digit that the loop takes at a byte, where it goes on.
unfoldable pub taken : ℕ → ℕ → Option ℕ
taken base c = elim (digit_of c) [ none ↦ none | some d ↦ if leb base d then none else some d ]

-- The loop of `strtol`: the sum, whether there was a digit, and the text left.
unfoldable pub scan : ℕ → List ℕ → ℕ → Bool → ℕ × Bool × List ℕ
scan base [] acc any = (acc, any, [])
scan base (c ∷ s) acc any = elim (taken base c) [
  | none ↦ (acc, any, c ∷ s)
  | some d ↦ scan base s ((acc * base + d) % 2 ^ 64) true
]

-- `sign * acc`, and the end: the start of the whole text where there was no digit.
unfoldable pub finish : List ℕ → Bool → ℕ × Bool × List ℕ → Parsed
finish nptr minus (acc, any, s) = record {
  word = if minus then (2 ^ 64 - acc) % 2 ^ 64 else acc;
  endptr = if any then s else nptr;
}

-- The conversion behind the sign.
unfoldable pub convert : ℕ → List ℕ → Bool × List ℕ → Parsed
convert base nptr (minus, s) =
    let radix : ℕ = pick_base base s in finish nptr minus (scan radix (skip_prefix radix s) 0 false)

unfoldable pub strtol : List ℕ → ℕ → Parsed
strtol nptr base = convert base nptr (read_sign (skip_space nptr))

-- A word as a signed number of `w` bits.
unfoldable pub signed : ℕ → ℕ → ℤ
signed w n = if ltb n (2 ^ (w - 1)) then pos n else negsuc (2 ^ w - 1 - n)

unfoldable pub atoi : List ℕ → ℤ
atoi str = signed 32 ((strtol str 10).word % 2 ^ 32)

-- `'0' + d`, and `hex[d]`.
unfoldable pub decimal_char : ℕ → ℕ
decimal_char d = b'0' + d

unfoldable pub hex_char : ℕ → ℕ
hex_char d = if ltb d 10 then b'0' + d else b'a' + (d - 10)

-- The loop that fills the temporary buffer, `room` bytes of it left, least digit first.
module _ (char : ℕ → ℕ) (base : ℕ) where
  unfoldable pub fill : ℕ → ℕ → List ℕ
  fill zero value = []
  fill (suc room) value =
      let rest = fill room (value / base) in if value == 0 then [] else char (value % base) ∷ rest

  unfoldable pub fill_tmp : ℕ → ℕ → List ℕ
  fill_tmp room value = if value == 0 then b'0' ∷ [] else fill room value

-- The loop for a short buffer: `tmp[i-1]` for `i` from `start + k` down to `start + 1`.
unfoldable pub truncated : List ℕ → ℕ → ℕ → List ℕ
truncated tmp start zero = []
truncated tmp start (suc k) = get_or tmp (start + k) 0 ∷ truncated tmp start k

-- The loop otherwise: `tmp[pos-1-i]` from `i` on, `left` rounds.
unfoldable pub reversed : List ℕ → ℕ → ℕ → List ℕ
reversed tmp i zero = []
reversed tmp i (suc left) = get_or tmp (length tmp - 1 - i) 0 ∷ reversed tmp (i + 1) left

-- The text that is left in the buffer; none is written to a null buffer or one of no bytes.
unfoldable pub emit : List ℕ → ℕ → Option (List ℕ)
emit tmp buflen =
    if buflen == 0
    then none
    else if ltb buflen (length tmp + 1)
    then some (truncated tmp (length tmp - (buflen - 1)) (buflen - 1))
    else some (reversed tmp 0 (length tmp))

unfoldable pub utoa : ℕ → ℕ → Option (List ℕ)
utoa value buflen = emit (fill_tmp decimal_char 10 23 value) buflen

unfoldable pub utoa64 : ℕ → ℕ → Option (List ℕ)
utoa64 value buflen = emit (fill_tmp decimal_char 10 31 value) buflen

-- `value & 0xF` and `value >>= 4` are the remainder and the quotient by 16.
unfoldable pub utoa64_hex : ℕ → ℕ → Option (List ℕ)
utoa64_hex value buflen = emit (fill_tmp hex_char 16 31 value) buflen
