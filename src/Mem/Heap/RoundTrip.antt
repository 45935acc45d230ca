-- ===== src/Mem/Heap/RoundTrip.antt =====
-- What `kmalloc` hands out can be given back to `kfree`.
use hana_core.Prelude.{
  ℕ, List, ◌∷◌, ◌+◌, ◌-◌, ◌≡◌, ◌<◌, ◌^◌, refl, ap, ◌∙◌, arith, some, false, true, ◌==◌,
}
use hana_core.Mem.Bump.{Boot, start}
use hana_core.Mem.Heap.{Block, Heap, is_empty, kmalloc, kfree, take_used, insert_free, header}
use hana_core.Mem.Heap.Exclusive.{IsSound}
use hana_core.Mem.Heap.Calls.{kmalloc-IsSound, kfree-IsSound, Served, kmalloc_serves}
use hana_core.Mem.Heap.Cover.{holds, covers}

take_used_first :
    (blk : Block) (used : List Block)
    → take_used (blk.addr + header - header) (blk ∷ used) ≡ some (blk, used)
unfolding take_used
take_used_first blk used = rw (same, take_used)
  where
    same : blk.addr == blk.addr + header - header ≡ true
    same = ground arith

kfree_used :
    (g : Heap) (blk : Block) (used : List Block)
    → g.used ≡ blk ∷ used
    → kfree g (blk.addr + header) ≡ some (record g { free = insert_free blk g.free; used = used })
unfolding kfree
kfree_used g blk used e =
    rw (nonzero, ap (take_used (blk.addr + header - header)) e ∙ take_used_first blk used, kfree)
  where
    nonzero : blk.addr + header == 0 ≡ false
    nonzero = ground arith

-- Where a request is served, freeing the pointer that it returned succeeds: the blocks in use are
-- again those from before the request, the heap is sound, and the free list holds what it held and
-- each byte of the block that was handed out once more.
pub kmalloc-kfree :
    (b : Boot) (h : Heap) (size : ℕ)
    → is_empty h.free ≡ false
    → 0 < size
    → start b h.bump_ptr + size + 0x8000 < 2 ^ 64
    → IsSound b h
    → let g = (kmalloc b h size).1 in
      (blk : Block) × (h' : Heap) × Served h size (kmalloc b h size) blk
      × (kfree g (blk.addr + header) ≡ some h')
      × (h'.used ≡ h.used)
      × IsSound b h'
      × ((a : ℕ) → covers h'.free a ≡ covers g.free a + holds blk a)
kmalloc-kfree b h size full pos room s =
    let (blk, r) = kmalloc_serves b h size full pos room s in
    let g = (kmalloc b h size).1 in
    let freed = kfree_used g blk h.used r.in_use in
    let (sound, same) =
      kfree-IsSound b g (blk.addr + header) freed (kmalloc-IsSound b h size room s) in
    (
      blk,
      record g { free = insert_free blk g.free; used = h.used },
      r,
      freed,
      refl,
      sound,
      λ a. omega (arith, same a, ap (λ (l : List Block). covers l a) r.in_use),
    )
