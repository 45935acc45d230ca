-- ===== src/Libc/Text.antt =====
-- kernel/libs/libc.c, the texts: the bytes in memory from an address to a NUL. A loop that runs
-- to the NUL takes fuel, one unit for each byte it reads, and gives `none` where that runs out; a
-- null pointer is the address 0.
use hana_core.Prelude.{
  ◌>>=◌, leb, ℕ, zero, suc, ◌+◌, ◌-◌, ◌%◌, ◌≡◌, ◌≢◌, Bool, true, false, ◌&&◌, ◌||◌, not, ◌==◌,
  Option, none, some, List, [], ◌∷◌, if◌then◌else◌,
}
use hana_core.Prelude.Int.{ℤ, pos, sub_ℕ}
use hana_core.Libc.{Ram, store}
use mathlib.Core.Option.{map as option_map}
pub mod Compare
pub mod Write
pub mod Search

-- Reading the text at an address gives these bytes.
abbrev pub IsText : Ram → ℕ → List ℕ → Type 0
IsText m p [] = m p ≡ 0
IsText m p (c ∷ l) = (m p ≡ c) × (c ≢ 0) × IsText m (p + 1) l

-- `while (*p) ++p`.
unfoldable pub end_of : ℕ → Ram → ℕ → Option ℕ
end_of zero m p = none
end_of (suc f) m p = let rest = end_of f m (p + 1) in if m p == 0 then some p else rest

unfoldable pub strlen : ℕ → Ram → ℕ → Option ℕ
strlen f m s = option_map (λ (p : ℕ). p - s) (end_of f m s)

unfoldable pub strcmp : ℕ → Ram → ℕ → ℕ → Option ℤ
strcmp zero m a b = none
strcmp (suc f) m a b =
    let rest = strcmp f m (a + 1) (b + 1) in
    if not (m a == 0) && (m a == m b) then rest else some (sub_ℕ (m a) (m b))

-- The rounds that `strncmp` has left, from index `i`.
unfoldable pub strncmp_from : Ram → ℕ → ℕ → ℕ → ℕ → ℤ
strncmp_from m a b i zero = pos 0
strncmp_from m a b i (suc left) =
    let rest = strncmp_from m a b (i + 1) left in
    if not (m (a + i) == 0) && (m (a + i) == m (b + i)) then rest else sub_ℕ (m (a + i)) (m (b + i))

unfoldable pub strncmp : Ram → ℕ → ℕ → ℕ → ℤ
strncmp m a b n = if n == 0 then pos 0 else strncmp_from m a b 0 n

unfoldable pub isdigit : ℕ → ℕ
isdigit c = if leb b'0' c && leb c b'9' then 1 else 0

-- `while ((*d++ = *s++))`.
unfoldable pub copy_text : ℕ → Ram → ℕ → ℕ → Option Ram
copy_text zero m d s = none
copy_text (suc f) m d s =
    let rest = copy_text f (store m d (m s)) (d + 1) (s + 1) in
    if m s == 0 then some (store m d (m s)) else rest

unfoldable pub strcpy : ℕ → Ram → ℕ → ℕ → Option Ram
strcpy f m dst src = copy_text f m dst src

-- The second loop of `strncpy`.
unfoldable pub pad : Ram → ℕ → ℕ → ℕ → Ram
pad m d i zero = m
pad m d i (suc left) = pad (store m (d + i) 0) d (i + 1) left

-- Its first loop, which hands over to the second at the NUL.
unfoldable pub strncpy_from : Ram → ℕ → ℕ → ℕ → ℕ → Ram
strncpy_from m d s i zero = m
strncpy_from m d s i (suc left) =
    let rest = strncpy_from (store m (d + i) (m (s + i))) d s (i + 1) left in
    if m (s + i) == 0 then pad m d i (suc left) else rest

unfoldable pub strncpy : Ram → ℕ → ℕ → ℕ → Ram
strncpy m dst src n = strncpy_from m dst src 0 n

unfoldable pub strcat : ℕ → Ram → ℕ → ℕ → Option Ram
strcat f m dest src = do d ← end_of f m dest; copy_text f m d src

-- The byte that the search of `strchr` and `strrchr` compares is the low one of its argument.
unfoldable pub chr_from : ℕ → Ram → ℕ → ℕ → Option ℕ
chr_from zero m s cc = none
chr_from (suc f) m s cc =
    let rest = chr_from f m (s + 1) cc in
    if m s == 0 then some 0 else if m s == cc then some s else rest

unfoldable pub strchr : ℕ → Ram → ℕ → ℕ → Option ℕ
strchr f m s c = chr_from f m s (c % 256)

unfoldable pub rchr_from : ℕ → Ram → ℕ → ℕ → ℕ → Option ℕ
rchr_from zero m s cc last = none
rchr_from (suc f) m s cc last =
    let rest = rchr_from f m (s + 1) cc (if m s == cc then s else last) in
    if m s == 0 then some last else rest

unfoldable pub strrchr : ℕ → Ram → ℕ → ℕ → Option ℕ
strrchr f m s c = rchr_from f m s (c % 256) 0

-- Does the needle at `n` stand at `p`? This is the inner loop of `strstr` and its test.
unfoldable pub starts_at : ℕ → Ram → ℕ → ℕ → Option Bool
starts_at zero m p n = none
starts_at (suc f) m p n =
    let rest = starts_at f m (p + 1) (n + 1) in
    if not (m p == 0) && (not (m n == 0) && (m p == m n)) then rest else some (m n == 0)

unfoldable pub str_from : ℕ → ℕ → Ram → ℕ → ℕ → Option ℕ
str_from g zero m h needle = none
str_from g (suc f) m h needle =
    let rest = str_from g f m (h + 1) needle in
    if m h == 0 then some 0 else do hit ← starts_at g m h needle; if hit then some h else rest

unfoldable pub strstr : ℕ → Ram → ℕ → ℕ → Option ℕ
strstr f m haystack needle =
    if (haystack == 0) || (needle == 0)
    then some 0
    else if m needle == 0
    then some haystack
    else str_from f f m haystack needle
