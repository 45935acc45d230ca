-- ===== src/Mem/Heap/Tests.antt =====
-- Runs of kernel/mem/heap.cpp.
use hana_core.Prelude.{◌+◌, ℕ, ◌≡◌, [], ◌∷◌, refl, arith, none, some}
use hana_core.Mem.Bump.{
  Boot, start, first_addr, align_up, pma_alloc_pages, bump_alloc_alloc, vmm_map_range,
}
use hana_core.Mem.Heap.{
  header, Block, Heap, heap_init, heap_grow_pages, kmalloc, kfree, total_of, first_fit, hand_out,
  attempt, is_empty, retry, grow_pages, take_used, insert_free, walk, join_next, join_prev,
}
use hana_core.Mem.Heap.RoundTrip.{kmalloc-kfree}
use hana_core.Mem.Heap.Exclusive.{IsSound}
use hana_core.Mem.Heap.Calls.{kmalloc-IsSound, kfree-IsSound, kmalloc_serves, Served, held}
use hana_core.Mem.Heap.History.{
  nothing, Reach, here, next, malloc, free, Reach-IsSound, kmalloc_wraps,
}
use hana_core.Mem.Heap.Cover.{holds, covers}

abbrev boot : Boot
boot = record { kernel_end = 0x201234; hhdm_offset = none }

abbrev block : ℕ → ℕ → Block
block a n = record { addr = a; size = n }

-- The heap of a start with 64 KiB at 0x10000.
abbrev fresh : Heap
fresh = heap_init 0x10000 nothing 0x10000

-- After a request of 100 bytes.
abbrev one : Heap
one = (kmalloc boot fresh 100).1

init_test : fresh ≡ record {
  free = block 0x10000 0x10000 ∷ [];
  used = [];
  heap_start = 0x10000;
  heap_size = 0x10000;
  bump_ptr = 0;
}
unfolding heap_init align_up
init_test = refl

malloc_test : (kmalloc boot fresh 100).0 ≡ some 0x10010
unfolding heap_init align_up kmalloc is_empty attempt total_of first_fit hand_out
malloc_test = refl

split_test : one.free ≡ block 0x10080 0xff80 ∷ []
unfolding heap_init align_up kmalloc is_empty attempt total_of first_fit hand_out
split_test = refl

grow_test : (kmalloc boot fresh 0x20000).0 ≡ some 0x202010
unfolding heap_init align_up kmalloc is_empty attempt total_of first_fit hand_out retry grow_pages
    heap_grow_pages pma_alloc_pages bump_alloc_alloc vmm_map_range start first_addr
grow_test = refl

merge_test :
    insert_free (block 32 16) (block 16 16 ∷ block 48 16 ∷ block 96 16 ∷ [])
    ≡ block 16 48 ∷ block 96 16 ∷ []
unfolding insert_free walk join_prev join_next
merge_test = refl

one_freed : kfree one 0x10010 ≡ some (record fresh { used = [] })
unfolding heap_init align_up kmalloc is_empty attempt total_of first_fit hand_out kfree take_used
    insert_free join_next
one_freed = refl

fresh-IsSound : IsSound boot fresh
unfolding start first_addr align_up
fresh-IsSound = Reach-IsSound boot 0x10000 0x10000 (omega arith) (omega arith) here

one-IsSound : IsSound boot one
unfolding start first_addr align_up heap_init
one-IsSound = kmalloc-IsSound boot fresh 100 (omega arith) fresh-IsSound

two_steps : Reach boot fresh (record fresh { used = [] })
unfolding start first_addr align_up heap_init
two_steps = next (next here (malloc 100 (omega arith))) (free 0x10010 one_freed)

Reach-IsSound_example : IsSound boot (record fresh { used = [] })
unfolding start first_addr align_up
Reach-IsSound_example = Reach-IsSound boot 0x10000 0x10000 (omega arith) (omega arith) two_steps

kfree-IsSound_example :
    IsSound boot (record fresh { used = [] })
    × ((a : ℕ) → held (record fresh { used = [] }) a ≡ held one a)
kfree-IsSound_example = kfree-IsSound boot one 0x10010 one_freed one-IsSound

kmalloc_serves_example : (blk : Block) × Served fresh 100 (kmalloc boot fresh 100) blk
unfolding start first_addr align_up heap_init is_empty
kmalloc_serves_example =
    kmalloc_serves boot fresh 100 refl (omega arith) (omega arith) fresh-IsSound

kmalloc_wraps_example : (kmalloc boot fresh 0xffff_ffff_ffff_fff0).0 ≡ some 0x10010
unfolding heap_init align_up
kmalloc_wraps_example =
    kmalloc_wraps boot fresh 0xffff_ffff_ffff_fff0 (block 0x10000 0x10000) [] refl (omega arith)
      (omega arith) (omega arith)

kmalloc-kfree_example :
    let g = (kmalloc boot fresh 100).1 in
    (blk : Block) × (h' : Heap) × Served fresh 100 (kmalloc boot fresh 100) blk
    × (kfree g (blk.addr + header) ≡ some h')
    × (h'.used ≡ fresh.used)
    × IsSound boot h'
    × ((a : ℕ) → covers h'.free a ≡ covers g.free a + holds blk a)
unfolding start first_addr align_up heap_init is_empty
kmalloc-kfree_example = kmalloc-kfree boot fresh 100 refl (omega arith) (omega arith) fresh-IsSound
