-- ===== src/Libc.antt =====
-- kernel/libs/libc.c, the blocks of memory: `memset`, `memcpy`, `memmove`, `memcmp`. Memory gives
-- each address its byte. A block does not run past the last address, so no sum of addresses wraps.
-- The texts, the numbers and the formatted output of the same file are in the modules below.
use hana_core.Prelude.{ℕ, zero, suc, ◌+◌, ◌%◌, ◌||◌, ◌==◌, ltb, if◌then◌else◌}
use hana_core.Prelude.Int.{ℤ, pos, negsuc}
pub mod Blocks
pub mod Text
pub mod Number
pub mod Format
mod Tests

abbrev pub Ram : Type 0
Ram = ℕ → ℕ

-- `*a = v`.
unfoldable pub store : Ram → ℕ → ℕ → Ram
store m a v x = if x == a then v else m x

-- The rounds that `memset` has left, from index `i`.
unfoldable pub memset_from : Ram → ℕ → ℕ → ℕ → ℕ → Ram
memset_from m s c i zero = m
memset_from m s c i (suc left) = memset_from (store m (s + i) (c % 256)) s c (i + 1) left

unfoldable pub memset : Ram → ℕ → ℕ → ℕ → Ram
memset m s c n = memset_from m s c 0 n

-- A loop that copies upwards.
unfoldable pub copy_up : Ram → ℕ → ℕ → ℕ → ℕ → Ram
copy_up m d s i zero = m
copy_up m d s i (suc left) = copy_up (store m (d + i) (m (s + i))) d s (i + 1) left

-- A loop that copies downwards, `i` bytes to go.
unfoldable pub copy_down : Ram → ℕ → ℕ → ℕ → Ram
copy_down m d s zero = m
copy_down m d s (suc i) = copy_down (store m (d + i) (m (s + i))) d s i

unfoldable pub memcpy : Ram → ℕ → ℕ → ℕ → Ram
memcpy m dst src n = copy_up m dst src 0 n

unfoldable pub memmove : Ram → ℕ → ℕ → ℕ → Ram
memmove m d s n =
    if (d == s) || (n == 0) then m else if ltb d s then copy_up m d s 0 n else copy_down m d s n

unfoldable pub memcmp_from : Ram → ℕ → ℕ → ℕ → ℕ → ℤ
memcmp_from m a b i zero = pos 0
memcmp_from m a b i (suc left) =
    let rest = memcmp_from m a b (i + 1) left in
    if ltb (m (a + i)) (m (b + i))
    then negsuc 0
    else if ltb (m (b + i)) (m (a + i))
    then pos 1
    else rest

unfoldable pub memcmp : Ram → ℕ → ℕ → ℕ → ℤ
memcmp m s1 s2 n = memcmp_from m s1 s2 0 n
