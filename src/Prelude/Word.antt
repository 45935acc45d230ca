-- ===== src/Prelude/Word.antt =====
-- 64-bit machine words as native numbers: `uint64_t`, `size_t` and `uintptr_t` arithmetic wraps,
-- and a mask of ones is a remainder.
use Prim.Native.Nat.{bit_and, bit_and-bitwise, digits}
use native.Mathlib.Nat.{
  pow-succ', div-add-mod, div-add-mod', mod-lt, add-mul-mod_self_left, mod-eq_of_lt, mul-one,
  div-one, div-div-eq-div-mul, div-lt_iff_lt-mul, mul-mod_left,
}
use hana_core.Prelude.{
  ℕ, zero, suc, ◌+◌, ◌-◌, ◌*◌, ◌/◌, ◌%◌, ◌^◌, ◌≤◌, ◌<◌, min, ◌≡◌, refl, ap, ◌∙◌, arith,
}

abbrev pub word : ℕ
word = 2 ^ 64

-- `a + b`, `a - b` and `a * b` on `size_t`.
abbrev pub add64 : ℕ → ℕ → ℕ
add64 a b = (a + b) % 2 ^ 64

abbrev pub sub64 : ℕ → ℕ → ℕ
sub64 a b = (a + 2 ^ 64 - b) % 2 ^ 64

abbrev pub mul64 : ℕ → ℕ → ℕ
mul64 a b = (a * b) % 2 ^ 64

-- `~a` on `size_t`.
abbrev pub not64 : ℕ → ℕ
not64 a = 2 ^ 64 - 1 - a

-- `(uint64_t)-1`, which the kernel returns for a failed system call.
abbrev pub minus_one : ℕ
minus_one = 2 ^ 64 - 1

-- The digits of a conjunction, for at most `fuel` places.
abbrev conj : ℕ → ℕ → ℕ → ℕ
conj fuel x y = digits (λ rest. zero) min fuel x y

-- Places beyond those of the first number add nothing.
conj_more : (x short long y : ℕ) → x ≤ short → short ≤ long → conj long x y ≡ conj short x y
conj_more zero zero zero y s l = refl
conj_more zero zero (suc long) y s l = refl
conj_more zero (suc short) (suc long) y s l = refl
conj_more x (suc short) zero y s l = absurd (omega arith)
conj_more (suc x) zero long y s l = absurd (omega arith)
conj_more (suc x) (suc short) (suc long) y s l =
    omega (arith, conj_more (suc x / 2) short long (y / 2) (omega arith) (omega arith))

-- The lowest binary digit of a conjunction, and the other ones.
pub bit_and_halves : (x y : ℕ) → bit_and x y ≡ min (x % 2) (y % 2) + 2 * bit_and (x / 2) (y / 2)
bit_and_halves (suc x) y =
    let enough = conj_more (suc x / 2) (suc x / 2) x (y / 2) (omega arith) (omega arith) in
    omega (arith, enough, bit_and-bitwise (suc x / 2) (y / 2), bit_and-bitwise (suc x) y)
bit_and_halves zero y = omega (arith, bit_and-bitwise 0 (y / 2), bit_and-bitwise 0 y)

bit_and-nothing : (top x : ℕ) → x ≤ top → bit_and x 0 ≡ 0
bit_and-nothing top zero h = refl
bit_and-nothing zero (suc x) h = absurd (omega arith)
bit_and-nothing (suc top) (suc x) h =
    let rest = bit_and-nothing top (suc x / 2) (omega arith) in
    omega (arith, rest, bit_and_halves (suc x) 0)

pub bit_and-zero : (x : ℕ) → bit_and x 0 ≡ 0
bit_and-zero x = bit_and-nothing x x (omega arith)

pub two_pow_pos : (k : ℕ) → 1 ≤ 2 ^ k
two_pow_pos zero = omega arith
two_pow_pos (suc k) = omega (arith, pow-succ' 2 k, two_pow_pos k)

-- Division with remainder by `2 * p` from that by `p` of the half.
mod_double : (a p : ℕ) → 1 ≤ p → a % (2 * p) ≡ a / 2 % p * 2 + a % 2
mod_double a p h =
    ap (λ (t : ℕ). t % (2 * p)) split
    ∙ add-mul-mod_self_left low (2 * p) (a / 2 / p)
    ∙ mod-eq_of_lt (omega (arith, mod-lt (a / 2) {m = p} h))
  where
    low : ℕ
    low = a / 2 % p * 2 + a % 2

    split : a ≡ low + 2 * p * (a / 2 / p)
    split = omega (arith, div-add-mod (a / 2) p)

-- `a & (2^k - 1)` is `a % 2^k`.
pub bit_and_mask : (k a : ℕ) → bit_and a (2 ^ k - 1) ≡ a % 2 ^ k
bit_and_mask zero a = omega (arith, bit_and-zero a)
bit_and_mask (suc k) a =
    bit_and_halves a (2 ^ suc k - 1)
    ∙ rw (halve, odd, bit_and_mask k (a / 2)) (omega (arith, double, pow-succ' 2 k))
  where
    halve : (2 ^ suc k - 1) / 2 ≡ 2 ^ k - 1
    halve = omega (arith, pow-succ' 2 k, two_pow_pos k)

    odd : (2 ^ suc k - 1) % 2 ≡ 1
    odd = omega (arith, pow-succ' 2 k, two_pow_pos k)

    double : a % 2 ^ suc k ≡ a / 2 % 2 ^ k * 2 + a % 2
    double = rw (pow-succ' 2 k) (mod_double a (2 ^ k) (two_pow_pos k))

-- `a & (m * 2^k)` drops the k lowest digits of `a`.
pub bit_and_shift : (k m a : ℕ) → bit_and a (m * 2 ^ k) ≡ bit_and (a / 2 ^ k) m * 2 ^ k
bit_and_shift zero m a = simp (mul-one, div-one)
bit_and_shift (suc k) m a =
    bit_and_halves a (m * 2 ^ suc k)
    ∙ rw (halve, even, bit_and_shift k m (a / 2), div-div-eq-div-mul, ← pow-succ' 2 k)
        (omega (arith, ap (λ (t : ℕ). bit_and (a / 2 ^ suc k) m * t) (pow-succ' 2 k)))
  where
    halve : m * 2 ^ suc k / 2 ≡ m * 2 ^ k
    halve = omega (arith, ap (λ (t : ℕ). m * t) (pow-succ' 2 k))

    even : m * 2 ^ suc k % 2 ≡ 0
    even = omega (arith, ap (λ (t : ℕ). m * t) (pow-succ' 2 k))

-- `a & ~(2^k - 1)` on a word clears the k lowest digits.
pub clear_low :
    (k j a : ℕ)
    → 2 ^ k * 2 ^ j ≡ 2 ^ 64
    → a < 2 ^ 64
    → bit_and a (not64 (2 ^ k - 1)) ≡ a - a % 2 ^ k
clear_low k j a e h = rw (shape) (
    bit_and_shift k (2 ^ j - 1) a
    ∙ rw (bit_and_mask j (a / 2 ^ k), mod-eq_of_lt small) (omega (arith, div-add-mod' a (2 ^ k))))
  where
    succ : 2 ^ j ≡ 2 ^ j - 1 + 1
    succ = omega (arith, two_pow_pos j)

    shape : not64 (2 ^ k - 1) ≡ (2 ^ j - 1) * 2 ^ k
    shape = omega (arith, e, two_pow_pos k, ap (λ (t : ℕ). t * 2 ^ k) succ)

    small : a / 2 ^ k < 2 ^ j
    small = (div-lt_iff_lt-mul (two_pow_pos k)).1 (omega arith)

-- `(v + (a - 1)) & ~(a - 1)` for a power of two `a`, where the sum does not wrap.
pub round_up :
    (k j v : ℕ)
    → 2 ^ k * 2 ^ j ≡ 2 ^ 64
    → v + (2 ^ k - 1) < 2 ^ 64
    → let r = bit_and (add64 v (2 ^ k - 1)) (not64 (2 ^ k - 1)) in
      (r % 2 ^ k ≡ 0) × (v ≤ r) × (r < v + 2 ^ k)
round_up k j v e h = rw (plain, clear_low k j sum e h) (aligned, above, below)
  where
    sum : ℕ
    sum = v + (2 ^ k - 1)

    plain : add64 v (2 ^ k - 1) ≡ sum
    plain = mod-eq_of_lt h

    quotient : sum - sum % 2 ^ k ≡ sum / 2 ^ k * 2 ^ k
    quotient = omega (arith, div-add-mod' sum (2 ^ k))

    aligned : (sum - sum % 2 ^ k) % 2 ^ k ≡ 0
    aligned = rw quotient (mul-mod_left (sum / 2 ^ k) (2 ^ k))

    above : v ≤ sum - sum % 2 ^ k
    above = omega (arith, mod-lt sum {m = 2 ^ k} (two_pow_pos k))

    below : sum - sum % 2 ^ k < v + 2 ^ k
    below = omega (arith, two_pow_pos k)
