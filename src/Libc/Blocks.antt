-- ===== src/Libc/Blocks.antt =====
-- What the block operations of kernel/libs/libc.c leave in memory.
use hana_core.Prelude.{
  sym, ◌||◌, ℕ, zero, suc, ◌+◌, ◌-◌, ◌≤◌, ◌<◌, ◌≡◌, refl, ◌%◌, ◌∙◌, ◌≢◌, ◌⊎◌, inl, inr, ◌&&◌, ltb,
  leb, arith, if◌then◌else◌, Bool-cases, ◌==◌, le_or_lt,
}
use hana_core.Prelude.Int.{ℤ, pos, negsuc}
use hana_core.Libc.{
  Ram, store, memset, memset_from, copy_up, copy_down, memcpy, memmove, memcmp, memcmp_from,
}

-- What a copy of `n` bytes from `s` to `d` has to leave: the old bytes of the source, in place.
unfoldable pub copied : Ram → ℕ → ℕ → ℕ → Ram
copied m d s n x = if leb d x && ltb x (d + n) then m (s + (x - d)) else m x

pub store_same : (m : Ram) (a v : ℕ) → store m a v a ≡ v
unfolding store
store_same m a v = ground arith

pub store_other : (m : Ram) (a v x : ℕ) → x ≢ a → store m a v x ≡ m x
unfolding store
store_other m a v x h = ground arith

copy_up_outside :
    (m : Ram) (d s i k x : ℕ) → (x < d + i) ⊎ (d + i + k ≤ x) → copy_up m d s i k x ≡ m x
unfolding copy_up
copy_up_outside m d s i zero x h = refl
copy_up_outside m d s i (suc k) x h =
    copy_up_outside (store m (d + i) (m (s + i))) d s (i + 1) k x (omega (arith, h))
    ∙ store_other m (d + i) (m (s + i)) x (omega (arith, h))

-- An upward copy reads each source byte before it is overwritten.
copy_up_inside :
    (m : Ram) (d s i k j : ℕ)
    → (d ≤ s) ⊎ (s + (i + k) ≤ d)
    → i ≤ j
    → j < i + k
    → copy_up m d s i k (d + j) ≡ m (s + j)
unfolding copy_up
copy_up_inside m d s i zero j apart low high = absurd (omega arith)
copy_up_inside m d s i (suc k) j apart low high = elim (le_or_lt j i) [
  | inl now ↦
      let e : j ≡ i = omega arith in
      rw e (
        copy_up_outside (store m (d + i) (m (s + i))) d s (i + 1) k (d + i) (omega arith)
        ∙ store_same m (d + i) (m (s + i)))
  | inr later ↦
      copy_up_inside (store m (d + i) (m (s + i))) d s (i + 1) k j (omega (arith, apart))
        (omega arith) (omega arith)
      ∙ store_other m (d + i) (m (s + i)) (s + j) (omega (arith, apart))
]

copy_down_outside : (m : Ram) (d s i x : ℕ) → (x < d) ⊎ (d + i ≤ x) → copy_down m d s i x ≡ m x
unfolding copy_down
copy_down_outside m d s zero x h = refl
copy_down_outside m d s (suc i) x h =
    copy_down_outside (store m (d + i) (m (s + i))) d s i x (omega (arith, h))
    ∙ store_other m (d + i) (m (s + i)) x (omega (arith, h))

copy_down_inside : (m : Ram) (d s i j : ℕ) → s ≤ d → j < i → copy_down m d s i (d + j) ≡ m (s + j)
unfolding copy_down
copy_down_inside m d s zero j up h = absurd (omega arith)
copy_down_inside m d s (suc i) j up h = elim (le_or_lt i j) [
  | inl now ↦
      let e : j ≡ i = omega arith in
      rw e (
        copy_down_outside (store m (d + i) (m (s + i))) d s i (d + i) (omega arith)
        ∙ store_same m (d + i) (m (s + i)))
  | inr later ↦
      copy_down_inside (store m (d + i) (m (s + i))) d s i j up (omega arith)
      ∙ store_other m (d + i) (m (s + i)) (s + j) (omega arith)
]

-- A memory that agrees with the copy inside the block and with the old one outside is the copy.
is_copied :
    (m after : Ram) (d s n : ℕ)
    → ((j : ℕ) → j < n → after (d + j) ≡ m (s + j))
    → ((x : ℕ) → (x < d) ⊎ (d + n ≤ x) → after x ≡ m x)
    → (x : ℕ) → after x ≡ copied m d s n x
unfolding copied
is_copied m after d s n inside outside x = elim (le_or_lt d x) [
  | inr below ↦ outside x (inl below) ∙ ground arith
  | inl above ↦ elim (le_or_lt (d + n) x) [
    | inl past ↦ outside x (inr past) ∙ ground arith
    | inr within ↦
        let e : x ≡ d + (x - d) = omega arith in
        let hit : after (d + (x - d)) ≡ m (s + (x - d)) = inside (x - d) (omega arith) in
        (cc) ∙ hit ∙ ground arith
  ]
]

-- The three ways through `memmove`.
memmove_ways :
    (m : Ram) (d s n : ℕ)
    → ((memmove m d s n ≡ m) × ((d ≡ s) ⊎ (n ≡ 0)))
      ⊎ ((memmove m d s n ≡ copy_up m d s 0 n) × (d < s))
      ⊎ ((memmove m d s n ≡ copy_down m d s n) × (s < d))
unfolding memmove
memmove_ways m d s n = elim (Bool-cases ((d == s) || (n == 0))) [
  | inl none_ ↦ inl (rw none_ refl, ground arith)
  | inr some_ ↦ elim (Bool-cases (ltb d s)) [
    | inl up ↦ inr (inl (rw some_ (rw up refl), ground arith))
    | inr down ↦ inr (inr (rw some_ (rw down refl), ground arith))
  ]
]

-- `memmove` leaves the old bytes of the source block in the destination block, in order, and
-- every other byte as it was, however the two blocks overlap.
pub memmove-copied : (m : Ram) (d s n x : ℕ) → memmove m d s n x ≡ copied m d s n x
memmove-copied m d s n = is_copied m (memmove m d s n) d s n inside outside
  where
    inside : (j : ℕ) → j < n → memmove m d s n (d + j) ≡ m (s + j)
    inside j h = elim (memmove_ways m d s n) [
      | inl (e, inl same) ↦ rw e (rw same refl)
      | inl (e, inr empty) ↦ absurd (omega arith)
      | inr (inl (e, lt)) ↦
          rw e (copy_up_inside m d s 0 n j (inl (omega arith)) (omega arith) (omega arith))
      | inr (inr (e, gt)) ↦ rw e (copy_down_inside m d s n j (omega arith) h)
    ]

    outside : (x : ℕ) → (x < d) ⊎ (d + n ≤ x) → memmove m d s n x ≡ m x
    outside x h = elim (memmove_ways m d s n) [
      | inl (e, why) ↦ rw e refl
      | inr (inl (e, lt)) ↦ rw e (copy_up_outside m d s 0 n x (omega (arith, h)))
      | inr (inr (e, gt)) ↦ rw e (copy_down_outside m d s n x h)
    ]

-- `memcpy` does the same unless the destination starts inside the source block, above its start.
pub memcpy-copied :
    (m : Ram) (dst src n x : ℕ)
    → (dst ≤ src) ⊎ (src + n ≤ dst)
    → memcpy m dst src n x ≡ copied m dst src n x
unfolding memcpy
memcpy-copied m dst src n x apart =
    is_copied m (copy_up m dst src 0 n) dst src n
      (λ j h. copy_up_inside m dst src 0 n j (omega (arith, apart)) (omega arith) (omega arith))
      (λ y h. copy_up_outside m dst src 0 n y (omega (arith, h))) x

memset_from_lem :
    (m : Ram) (s c i k x : ℕ)
    → memset_from m s c i k x ≡ (if leb (s + i) x && ltb x (s + i + k) then c % 256 else m x)
unfolding memset_from store
memset_from_lem m s c i zero x = ground arith
memset_from_lem m s c i (suc k) x =
    memset_from_lem (store m (s + i) (c % 256)) s c (i + 1) k x ∙ ground arith

-- `memset` leaves the low byte of its argument at each address of the block and changes no other.
pub memset_lem :
    (m : Ram) (s c n x : ℕ) → memset m s c n x ≡ (if leb s x && ltb x (s + n) then c % 256 else m x)
unfolding memset
memset_lem m s c n x = memset_from_lem m s c 0 n x ∙ ground arith

-- The blocks of `n` bytes from `a` and `b` first differ at index `k`, the lesser byte in the first.
abbrev pub Below : Ram → ℕ → ℕ → ℕ → ℕ → Type 0
Below m a b n k = (k < n) × (((j : ℕ) → j < k → m (a + j) ≡ m (b + j)) × (m (a + k) < m (b + k)))

-- What the sign of a comparison means.
abbrev pub Compares : Ram → ℕ → ℕ → ℕ → ℤ → Type 0
Compares m a b n (pos zero) = (j : ℕ) → j < n → m (a + j) ≡ m (b + j)
Compares m a b n (pos (suc k)) = (i : ℕ) × Below m b a n i
Compares m a b n (negsuc k) = (i : ℕ) × Below m a b n i

memcmp_from-Compares :
    (m : Ram) (a b n i left : ℕ)
    → i + left ≡ n
    → ((j : ℕ) → j < i → m (a + j) ≡ m (b + j))
    → Compares m a b n (memcmp_from m a b i left)
unfolding memcmp_from
memcmp_from-Compares m a b n i zero e same = λ j h. same j (omega (arith, h, e))
memcmp_from-Compares m a b n i (suc left) e same = elim (Bool-cases (ltb (m (a + i)) (m (b + i)))) [
  | inl less ↦ rw less (i, (omega (arith, e), (same, ground arith)))
  | inr least ↦ rw least (elim (Bool-cases (ltb (m (b + i)) (m (a + i)))) [
    | inl more ↦
        rw more (i, (omega (arith, e), ((λ (j : ℕ) (h : j < i). sym (same j h)), ground arith)))
    | inr most ↦
        rw most (memcmp_from-Compares m a b n (i + 1) left (omega (arith, e)) (also (ground arith)))
  ])
]
  where
    also : m (a + i) ≡ m (b + i) → (j : ℕ) → j < i + 1 → m (a + j) ≡ m (b + j)
    also now j h = elim (le_or_lt i j) [
      | inl at_ ↦ let e : j ≡ i = omega arith in rw e now
      | inr before ↦ same j before
    ]

-- `memcmp` is 0 exactly on equal blocks; otherwise its sign tells which block has the lesser byte
-- at the first index where they differ.
pub memcmp-Compares : (m : Ram) (s1 s2 n : ℕ) → Compares m s1 s2 n (memcmp m s1 s2 n)
unfolding memcmp
memcmp-Compares m s1 s2 n =
    memcmp_from-Compares m s1 s2 n 0 n (omega arith) (λ j h. absurd (omega arith))
