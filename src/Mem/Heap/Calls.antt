-- ===== src/Mem/Heap/Calls.antt =====
-- `kmalloc` and `kfree` as wholes: what a call returns, and that the heap stays sound.
use hana_core.Prelude.{
  ℕ, List, ◌∷◌, ◌+◌, ◌*◌, ◌≡◌, ◌≤◌, ◌<◌, ◌^◌, ◌-◌, refl, arith, Option, some, inl, inr,
  Option-cases, Bool-cases, leb, false, ◌==◌, subst, some_eq,
}
use hana_core.Prelude.Word.{add64}
use hana_core.Mem.Bump.{Boot, start}
use hana_core.Mem.Bump.Disjoint.{align_page, align_16}
use hana_core.Mem.Heap.{
  left_over, Block, Heap, first_fit, hand_out, retry, attempt, kmalloc, kfree, total_of, grow_pages,
  take_used, insert_free, header, is_empty,
}
use hana_core.Mem.Heap.Cover.{covers, Fit}
use hana_core.Mem.Heap.Conserve.{take_used-covers, insert_free-covers}
use hana_core.Mem.Heap.Blocks.{Ends, first_fit-Fit, take_used-Fit, insert_free-Fit}
use hana_core.Mem.Heap.Exclusive.{
  IsSound, hand_out-IsSound, grown, grown-IsSound, heap_grow_lem, fresh_block,
}

-- The request's total holds the header and the payload.
total_of_bounds :
    (size : ℕ) → size + 0x100 < 2 ^ 64 → (size + 16 ≤ total_of size) × (total_of size < size + 32)
unfolding total_of
total_of_bounds size h = omega (arith, align_16 size (omega arith))

-- What growth asks for is enough for the request, and no more than four pages above it.
grow_pages_bounds :
    (total : ℕ)
    → total + 0x1000 < 2 ^ 64
    → (0 < grow_pages total)
      × (total ≤ grow_pages total * 0x1000)
      × (grow_pages total * 0x1000 ≤ total + 0x4000)
unfolding grow_pages
grow_pages_bounds total h = ground (arith, align_page total (omega arith))

retry-IsSound :
    (b : Boot) (h : Heap) (total : ℕ) → 0 < total → IsSound b h → IsSound b (retry h total).1
unfolding retry
retry-IsSound b h total some_bytes s = elim (Option-cases (first_fit total h.free)) [
  | inl e ↦ rw (e, retry) s
  | inr ((blk, rest), e) ↦ rw (e, retry) (hand_out-IsSound b h total blk rest e some_bytes s)
]

attempt-IsSound :
    (b : Boot) (h : Heap) (total : ℕ)
    → start b h.bump_ptr + total + 0x6000 < 2 ^ 64
    → 0 < total
    → IsSound b h
    → IsSound b (attempt b h total).1
unfolding attempt
attempt-IsSound b h total room some_bytes s = elim (Option-cases (first_fit total h.free)) [
  | inl e ↦
      rw (e, attempt)
        (rw (heap_grow_lem b h (grow_pages total) bounds.0) (
          retry-IsSound b (grown b h (grow_pages total)) total some_bytes
            (grown-IsSound b h (grow_pages total) bounds.0 (omega (arith, bounds)) s)))
  | inr ((blk, rest), e) ↦ rw (e, attempt) (hand_out-IsSound b h total blk rest e some_bytes s)
]
  where
    bounds :
        (0 < grow_pages total)
        × (total ≤ grow_pages total * 0x1000)
        × (grow_pages total * 0x1000 ≤ total + 0x4000)
    bounds = grow_pages_bounds total (omega arith)

-- A call of `kmalloc` keeps the heap sound, if the bump allocator has room to grow for it.
pub kmalloc-IsSound :
    (b : Boot) (h : Heap) (size : ℕ)
    → start b h.bump_ptr + size + 0x8000 < 2 ^ 64
    → IsSound b h
    → IsSound b (kmalloc b h size).1
unfolding kmalloc
kmalloc-IsSound b h size room s =
    ground (arith, attempt-IsSound b h (total_of size), total_of_bounds size)

-- The bytes that the two lists hold together.
abbrev pub held : Heap → ℕ → ℕ
held h a = covers h.free a + covers h.used a

-- Freeing a block in use keeps the heap sound, and moves bytes to the free list without losing one.
pub kfree-IsSound :
    (b : Boot) (h : Heap) (ptr : ℕ) {h' : Heap}
    → kfree h ptr ≡ some h'
    → IsSound b h
    → IsSound b h' × ((a : ℕ) → held h' a ≡ held h a)
unfolding kfree
kfree-IsSound b h ptr {h'} e s = elim (Bool-cases (ptr == 0)) [
  | inl z ↦ subst P (some_eq (rw z at e)) (s, λ a. refl)
  | inr nz ↦ elim (Option-cases (take_used (ptr - header) h.used)) [
    | inl t ↦ cc (rw (nz, t) at e)
    | inr ((blk, used), t) ↦ subst P (some_eq (rw (nz, t) at e)) (released blk used t)
  ]
]
  where
    P : Heap → Type 0
    P g = IsSound b g × ((a : ℕ) → held g a ≡ held h a)

    released :
        (blk : Block) (used : List Block)
        → take_used (ptr - header) h.used ≡ some (blk, used)
        → P (record h { free = insert_free blk h.free; used = used })
    released blk used t = (
      record {
        free_fit = insert_free-Fit blk h.free fit.0 s.free_fit;
        used_fit = fit.1;
        once = λ a. omega (arith, s.once a, same a);
        below = λ a p. omega (arith, s.below a p, same a);
        started = s.started;
      },
      same,
    )
      where
        fit : Ends blk × Fit used × (blk.addr ≡ ptr - header)
        fit = take_used-Fit (ptr - header) h.used blk used t s.used_fit

        same : (a : ℕ) → covers (insert_free blk h.free) a + covers used a ≡ held h a
        same a = omega (
          arith,
          take_used-covers (ptr - header) h.used a blk used t,
          insert_free-covers blk h.free a fit.0 s.free_fit,
        )

-- A request of at most `size` bytes is met from a block of that size.
first_fit-head :
    (total : ℕ) (c : Block) (cs : List Block)
    → total ≤ c.size
    → (blk : Block) × (rest : List Block) × (first_fit total (c ∷ cs) ≡ some (blk, rest))
      × (total ≤ blk.size)
unfolding first_fit
first_fit-head total c cs h = elim (Bool-cases (leb (add64 total (add64 header 16)) c.size)) [
  | inl split ↦ (
    record { addr = c.addr; size = total },
    record { addr = c.addr + total; size = left_over total c.size } ∷ cs,
    ground arith,
    omega arith,
  )
  | inr whole ↦ (c, cs, ground arith, h)
]

-- What a successful call of `kmalloc` has done: `blk` is newly in use, its payload holds the
-- request, and the pointer is behind its header.
pub record Served (h : Heap) (size : ℕ) (r : Option ℕ × Heap) (blk : Block) : Type 0 where
  pub pointer : r.0 ≡ some (blk.addr + header)
  pub in_use : r.1.used ≡ blk ∷ h.used
  pub fits : size + header ≤ blk.size

Served-hand_out :
    (h g : Heap) (size : ℕ) (blk : Block) (rest : List Block)
    → g.used ≡ h.used
    → size + header ≤ blk.size
    → Served h size (hand_out g blk rest) blk
unfolding hand_out
Served-hand_out h g size blk rest e f = ground arith

retry-Served :
    (h g : Heap) (size total : ℕ) (blk : Block) (rest : List Block)
    → first_fit total g.free ≡ some (blk, rest)
    → g.used ≡ h.used
    → size + header ≤ blk.size
    → Served h size (retry g total) blk
unfolding retry
retry-Served h g size total blk rest e u f = rw (e, retry) (Served-hand_out h g size blk rest u f)

attempt-Served :
    (b : Boot) (h : Heap) (size total : ℕ)
    → start b h.bump_ptr + total + 0x6000 < 2 ^ 64
    → size + header ≤ total
    → Fit h.free
    → (blk : Block) × Served h size (attempt b h total) blk
unfolding attempt
attempt-Served b h size total room want f = elim (Option-cases (first_fit total h.free)) [
  | inr ((blk, rest), e) ↦ (
    blk,
    rw (e, attempt)
        (Served-hand_out h h size blk rest refl
          (omega (arith, first_fit-Fit total h.free blk rest e f))),
  )
  | inl e ↦
      let (blk, rest, e', big) =
        first_fit-head total (fresh_block b h (grow_pages total)) h.free (omega (arith, bounds)) in
      (
        blk,
        rw (e, attempt)
            (rw (heap_grow_lem b h (grow_pages total) bounds.0) (
              retry-Served h (grown b h (grow_pages total)) size total blk rest e' refl
                (omega arith))),
      )
]
  where
    bounds :
        (0 < grow_pages total)
        × (total ≤ grow_pages total * 0x1000)
        × (grow_pages total * 0x1000 ≤ total + 0x4000)
    bounds = grow_pages_bounds total (omega arith)

-- A request that is not empty, on a heap with a free block and a bump allocator with room, is
-- always served: the pointer returned is the payload of a block that was not in use before and
-- that has room for the header and `size` bytes.
pub kmalloc_serves :
    (b : Boot) (h : Heap) (size : ℕ)
    → is_empty h.free ≡ false
    → 0 < size
    → start b h.bump_ptr + size + 0x8000 < 2 ^ 64
    → IsSound b h
    → (blk : Block) × Served h size (kmalloc b h size) blk
unfolding kmalloc
kmalloc_serves b h size full pos room s =
    let (blk, r) =
      attempt-Served b h size (total_of size) (omega (arith, total_of_bounds size))
        (omega (arith, total_of_bounds size)) s.free_fit in
    (blk, rw (full, nonzero) r)
  where
    nonzero : size == 0 ≡ false
    nonzero = ground arith
