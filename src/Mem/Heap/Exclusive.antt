-- ===== src/Mem/Heap/Exclusive.antt =====
-- The heap never hands out memory twice.
use hana_core.Prelude.{
  ℕ, List, ◌∷◌, ◌+◌, ◌*◌, ◌%◌, ◌≡◌, ◌≤◌, ◌<◌, ◌^◌, arith, some, inl, inr, true, le_or_lt,
}
use hana_core.Prelude.Word.{add64, mul64}
use hana_core.Mem.Bump.{Boot, page, start, pma_alloc_pages, bump_alloc_alloc, vmm_map_range}
use hana_core.Mem.Bump.Disjoint.{bump_alloc_lem, start_of_pos}
use hana_core.Mem.Heap.{Block, Heap, heap_grow_pages, first_fit, hand_out}
use hana_core.Mem.Heap.Cover.{covers, Fit, holds_range, holds_outside}
use hana_core.Mem.Heap.Conserve.{first_fit-covers}
use hana_core.Mem.Heap.Blocks.{first_fit-Fit}

-- A byte belongs to at most one block, free or in use, and none from the bump pointer on does.
pub record IsSound (b : Boot) (h : Heap) : Type 0 where
  pub free_fit : Fit h.free
  pub used_fit : Fit h.used
  pub once : (a : ℕ) → covers h.free a + covers h.used a ≤ 1
  pub below : (a : ℕ) → start b h.bump_ptr ≤ a → covers h.free a + covers h.used a ≡ 0
  pub started : 0 < start b h.bump_ptr

pub hand_out-IsSound :
    (b : Boot) (h : Heap) (total : ℕ) (blk : Block) (rest : List Block)
    → first_fit total h.free ≡ some (blk, rest)
    → 0 < total
    → IsSound b h
    → IsSound b (hand_out h blk rest).1
unfolding hand_out
hand_out-IsSound b h total blk rest e some_bytes s = record {
  free_fit = (first_fit-Fit total h.free blk rest e s.free_fit).1;
  used_fit = ((first_fit-Fit total h.free blk rest e s.free_fit).0, s.used_fit);
  once = λ a. omega (arith, first_fit-covers total h.free a blk rest e some_bytes, s.once a);
  below = λ a p. omega (arith, first_fit-covers total h.free a blk rest e some_bytes, s.below a p);
  started = s.started;
}

abbrev pub fresh_block : Boot → Heap → ℕ → Block
fresh_block b h pages =
    let size = mul64 pages page in
    record { addr = (bump_alloc_alloc b h.bump_ptr size page).0; size = size }

abbrev pub grown : Boot → Heap → ℕ → Heap
grown b h pages = record h {
  free = fresh_block b h pages ∷ h.free;
  heap_size = add64 h.heap_size (mul64 pages page);
  bump_ptr = (bump_alloc_alloc b h.bump_ptr (mul64 pages page) page).1;
}

-- Growth puts one block of fresh pages in front of the free list.
pub heap_grow_lem :
    (b : Boot) (h : Heap) (pages : ℕ)
    → 0 < pages
    → heap_grow_pages b h pages ≡ (true, grown b h pages)
unfolding heap_grow_pages pma_alloc_pages vmm_map_range
heap_grow_lem b h pages pos = ground arith

pub grown-IsSound :
    (b : Boot) (h : Heap) (pages : ℕ)
    → 0 < pages
    → start b h.bump_ptr + pages * 0x1000 + 0x1ffe < 2 ^ 64
    → IsSound b h
    → IsSound b (grown b h pages)
grown-IsSound b h pages pos room s = record {
  free_fit = (omega (arith, place), s.free_fit);
  used_fit = s.used_fit;
  once = λ a. elim (le_or_lt (start b h.bump_ptr) a) [
    | inl p ↦ omega (arith, s.below a p, holds_range addr size a)
    | inr p ↦ omega (arith, s.once a, holds_outside addr size a (inl (omega (arith, place))))
  ];
  below = λ a p. omega (
    arith,
    s.below a (omega (arith, place, moved)),
    holds_outside addr size a (inr (omega (arith, place, moved))),
  );
  started = omega (arith, place, moved, s.started);
}
  where
    size : ℕ
    size = mul64 pages page

    addr : ℕ
    addr = (bump_alloc_alloc b h.bump_ptr size page).0

    q : ℕ
    q = (bump_alloc_alloc b h.bump_ptr size page).1

    place :
        (addr % 0x1000 ≡ 0)
        × (start b h.bump_ptr ≤ addr)
        × (addr + size ≤ q)
        × (q % 0x1000 ≡ 0)
        × (q ≤ start b h.bump_ptr + size + 0x1ffe)
    place = bump_alloc_lem b h.bump_ptr size (omega arith)

    moved : start b q ≡ q
    moved = start_of_pos b q (omega (arith, place, s.started))
