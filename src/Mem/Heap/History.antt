-- ===== src/Mem/Heap/History.antt =====
-- Histories of heap calls, and a request whose total wraps.
use hana_core.Prelude.{ℕ, List, [], ◌∷◌, ◌+◌, ◌-◌, ◌≡◌, ◌≤◌, ◌<◌, ◌^◌, refl, arith, some, inr}
use hana_core.Prelude.Word.{add64, clear_low}
use hana_core.Mem.Bump.{Boot, start, align_up}
use hana_core.Mem.Heap.{
  Block, Heap, heap_init, first_fit, hand_out, attempt, is_empty, kmalloc, kfree, total_of,
  static_heap_size,
}
use hana_core.Mem.Heap.Cover.{holds_range, holds_outside}
use hana_core.Mem.Heap.Exclusive.{IsSound}
use hana_core.Mem.Heap.Calls.{kmalloc-IsSound, kfree-IsSound}

abbrev pub nothing : Heap
nothing = record { free = []; used = []; heap_start = 0; heap_size = 0; bump_ptr = 0 }

-- A call of the kernel on its heap: a request that the bump allocator has room for, or the freeing
-- of a block in use.
pub data Step (b : Boot) : Heap → Heap → Type 0 where
  malloc :
      {h : Heap} (size : ℕ)
      → start b h.bump_ptr + size + 0x8000 < 2 ^ 64
      → Step b h (kmalloc b h size).1
  free : {h h' : Heap} (ptr : ℕ) → kfree h ptr ≡ some h' → Step b h h'

pub data Reach (b : Boot) (s : Heap) : Heap → Type 0 where
  here : Reach b s s
  next : {t u : Heap} → Reach b s t → Step b t u → Reach b s u

Step-IsSound : {b : Boot} {h h' : Heap} → Step b h h' → IsSound b h → IsSound b h'
Step-IsSound {b} (malloc {h = h} size room) s = kmalloc-IsSound b h size room s
Step-IsSound {b} (free {h = h} ptr e) s = (kfree-IsSound b h ptr e s).0

Reach-IsSound_from : {b : Boot} {s h : Heap} → IsSound b s → Reach b s h → IsSound b h
Reach-IsSound_from i here = i
Reach-IsSound_from i (next r st) = Step-IsSound st (Reach-IsSound_from i r)

one_block-IsSound :
    (b : Boot) (x n hs : ℕ)
    → n ≤ static_heap_size
    → x + static_heap_size ≤ start b 0
    → start b 0 < 2 ^ 64
    → IsSound b (record nothing {
      free = record { addr = x; size = n } ∷ [];
      heap_start = hs;
      heap_size = n;
    })
one_block-IsSound b x n hs small below fits = record {
  free_fit = (omega arith, tt);
  used_fit = tt;
  once = λ a. omega (arith, holds_range x n a);
  below = λ a p. omega (arith, holds_outside x n a (inr (omega arith)));
  started = omega arith;
}

heap_init-IsSound :
    (b : Boot) (buffer size : ℕ)
    → buffer + static_heap_size ≤ start b 0
    → start b 0 < 2 ^ 64
    → IsSound b (heap_init buffer nothing size)
unfolding heap_init
heap_init-IsSound b buffer size below fits =
    one_block-IsSound b buffer _ buffer (ground arith) below fits

-- After any series of such calls on a fresh heap, no byte of memory is in two blocks, free or in use, and none
-- from the bump pointer on is in any.
pub Reach-IsSound :
    (b : Boot) (buffer size : ℕ) {h : Heap}
    → buffer + static_heap_size ≤ start b 0
    → start b 0 < 2 ^ 64
    → Reach b (heap_init buffer nothing size) h
    → IsSound b h
Reach-IsSound b buffer size below fits r =
    Reach-IsSound_from (heap_init-IsSound b buffer size below fits) r

total_of_wraps : (size : ℕ) → 2 ^ 64 - 32 < size → size < 2 ^ 64 → total_of size ≤ 16
unfolding total_of align_up
total_of_wraps size lo hi = rw (clear_low 4 60 (add64 size 15) refl (omega arith)) (omega arith)

-- The total of a request in the last 31 sizes wraps: where the first free block has at least 16 bytes,
-- `kmalloc` returns the address 16 bytes behind its start, however small the block is.
pub kmalloc_wraps :
    (b : Boot) (h : Heap) (size : ℕ) (c : Block) (cs : List Block)
    → h.free ≡ c ∷ cs
    → 16 ≤ c.size
    → 2 ^ 64 - 32 < size
    → size < 2 ^ 64
    → (kmalloc b h size).0 ≡ some (c.addr + 16)
unfolding kmalloc attempt first_fit hand_out is_empty
kmalloc_wraps b h size c cs e big lo hi = ground (arith, total_of_wraps size lo hi)
