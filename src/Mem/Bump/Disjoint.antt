-- ===== src/Mem/Bump/Disjoint.antt =====
-- What the bump allocator promises: page-aligned regions that never overlap.
use hana_core.Prelude.{ℕ, ◌≡◌, ◌%◌, ◌^◌, ◌+◌, ◌≤◌, ◌<◌, List, [], ◌∷◌, refl, subst, arith}
use native.Mathlib.Nat.{mod-eq_of_lt}
use hana_core.Prelude.Word.{round_up, add64}
use hana_core.Mem.Bump.{Boot, page, align_up, start, bump_alloc_alloc, alloc_all}

-- Rounding up to a page, where the sum does not wrap.
pub align_page :
    (v : ℕ)
    → v + 0xfff < 2 ^ 64
    → (align_up v page % 0x1000 ≡ 0) × (v ≤ align_up v page) × (align_up v page < v + 0x1000)
unfolding align_up
align_page v h = round_up 12 52 v refl h

-- Rounding up to 16 bytes.
pub align_16 :
    (v : ℕ)
    → v + 15 < 2 ^ 64
    → (align_up v 16 % 16 ≡ 0) × (v ≤ align_up v 16) × (align_up v 16 < v + 16)
unfolding align_up
align_16 v h = round_up 4 60 v refl h

-- A page request that fits under 2^64 returns a page-aligned region at or above the pointer, and
-- moves the pointer to a page boundary at or behind the region's end, less than two pages on.
pub bump_alloc_lem :
    (b : Boot) (p size : ℕ)
    → start b p + size + 0x1ffe < 2 ^ 64
    → let (addr, q) = bump_alloc_alloc b p size page in
      (addr % 0x1000 ≡ 0)
      × (start b p ≤ addr)
      × (addr + size ≤ q)
      × (q % 0x1000 ≡ 0)
      × (q ≤ start b p + size + 0x1ffe)
unfolding bump_alloc_alloc
bump_alloc_lem b p size h =
    rw fits
      (omega (arith, first, align_page (align_up (start b p) page + size) (omega (arith, first))))
  where
    first :
        (align_up (start b p) page % 0x1000 ≡ 0)
        × (start b p ≤ align_up (start b p) page)
        × (align_up (start b p) page < start b p + 0x1000)
    first = align_page (start b p) (omega arith)

    fits : add64 (align_up (start b p) page) size ≡ align_up (start b p) page + size
    fits = mod-eq_of_lt (omega (arith, first))

-- The regions lie one behind the other from `lo` on.
abbrev pub Ascending : ℕ → List (ℕ × ℕ) → Type 0
Ascending lo [] = Unit
Ascending lo ((addr, size) ∷ rs) = (lo ≤ addr) × (addr % 0x1000 ≡ 0) × Ascending (addr + size) rs

abbrev pub demand : List ℕ → ℕ
demand [] = 0
demand (s ∷ ss) = s + 0x1ffe + demand ss

pub start_of_pos : (b : Boot) (p : ℕ) → 0 < p → start b p ≡ p
unfolding start
start_of_pos b p h = ground arith

Ascending-mono : (lo lo' : ℕ) (rs : List (ℕ × ℕ)) → lo' ≤ lo → Ascending lo rs → Ascending lo' rs
Ascending-mono lo lo' [] h t = tt
Ascending-mono lo lo' ((addr, size) ∷ rs) h t = (omega arith, t.1, t.2)

-- Any series of requests whose rounded total fits under 2^64 returns page-aligned regions, each
-- behind the end of the one before it.
pub alloc_all-Ascending :
    (b : Boot) (p : ℕ) (sizes : List ℕ)
    → 0 < start b p
    → start b p + demand sizes < 2 ^ 64
    → Ascending (start b p) (alloc_all b p sizes)
unfolding alloc_all
alloc_all-Ascending b p [] pos h = tt
alloc_all-Ascending b p (size ∷ sizes) pos h =
    let rest =
      alloc_all-Ascending b q sizes (omega (arith, step, same)) (omega (arith, step, same)) in
    (
      step.1,
      step.0,
      Ascending-mono q (addr + size) (alloc_all b q sizes) step.2
          (subst (λ (t : ℕ). Ascending t (alloc_all b q sizes)) same rest),
    )
  where
    addr : ℕ
    addr = (bump_alloc_alloc b p size page).0

    q : ℕ
    q = (bump_alloc_alloc b p size page).1

    step :
        (addr % 0x1000 ≡ 0)
        × (start b p ≤ addr)
        × (addr + size ≤ q)
        × (q % 0x1000 ≡ 0)
        × (q ≤ start b p + size + 0x1ffe)
    step = bump_alloc_lem b p size (omega arith)

    same : start b q ≡ q
    same = start_of_pos b q (omega (arith, step))
