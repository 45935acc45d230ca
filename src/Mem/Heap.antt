-- ===== src/Mem/Heap.antt =====
-- kernel/mem/heap.cpp: the free-list heap. A block is a header's address with the size that the
-- header holds. The linked list `free_list` is a list of blocks in its order; `used` are the
-- headers of the blocks that are handed out, which stay in memory while the caller has the
-- payload. Logging is left out.
pub mod Cover
pub mod Conserve
pub mod Blocks
pub mod Exclusive
pub mod Calls
pub mod History
pub mod RoundTrip
mod Tests
use hana_core.Prelude.{
  ℕ, Option, none, some, List, [], ◌∷◌, ◌-◌, ◌==◌, ltb, leb, if◌then◌else◌, ◌+◌, ◌*◌, ◌/◌, Bool,
  true, false,
}
use hana_core.Prelude.Word.{add64, mul64}
use hana_core.Mem.Bump.{Boot, page, align_up, pma_alloc_pages, vmm_map_range}

pub record Block : Type 0 where
  pub addr : ℕ
  pub size : ℕ

pub record Heap : Type 0 where
  pub free : List Block
  pub used : List Block
  pub heap_start : ℕ
  pub heap_size : ℕ
  pub bump_ptr : ℕ

abbrev pub align : ℕ
align = 16

-- `sizeof(FreeBlock)`, a size and a pointer, is 16 already.
abbrev pub header : ℕ
header = 16

abbrev pub static_heap_size : ℕ
static_heap_size = 1024 * 1024

-- `buffer` is the address of `static_heap`; a null `heap_start` is 0.
pub heap_init : ℕ → Heap → ℕ → Heap
unfolding align_up
heap_init buffer h size = if h.heap_start == 0 then fresh else h
  where
    capped : ℕ
    capped =
        let wanted = align_up size page in
        if ltb static_heap_size wanted then static_heap_size else wanted

    fresh : Heap
    fresh = record h {
      free = record { addr = buffer; size = capped } ∷ [];
      heap_start = buffer;
      heap_size = capped;
    }

pub heap_grow_pages : Boot → Heap → ℕ → Bool × Heap
heap_grow_pages b h pages =
    if pages == 0
    then (false, h)
    else (let (blk, ptr) = pma_alloc_pages b h.bump_ptr pages in
        grown (record h { bump_ptr = ptr }) blk)
  where
    mapped : Heap → ℕ → ℕ → Bool × Heap
    mapped h blk grow_size =
        if vmm_map_range blk blk grow_size 0 == 0
        then (
          true,
          record h {
            free = record { addr = blk; size = grow_size } ∷ h.free;
            heap_size = add64 h.heap_size grow_size;
          },
        )
        else (false, h)

    grown : Heap → Option ℕ → Bool × Heap
    grown h none = (false, h)
    grown h (some blk) = mapped h blk (mul64 pages page)

-- The total that a request needs, its header included.
pub total_of : ℕ → ℕ
total_of size = add64 (align_up size align) header

-- The size of the block that a split leaves. A request whose total wraps to 0 has both headers at one
-- address, and the last write to the size counts.
abbrev pub left_over : ℕ → ℕ → ℕ
left_over total size = if total == 0 then 0 else size - total

-- The first block that is large enough: what is handed out, and the list that stays.
pub first_fit : ℕ → List Block → Option (Block × List Block)
first_fit total [] = none
first_fit total (cur ∷ cs) = elim (leb total cur.size) [
  | true ↦
      if leb (add64 total (add64 header 16)) cur.size
      then some (
        record { addr = cur.addr; size = total },
        record { addr = cur.addr + total; size = left_over total cur.size } ∷ cs,
      )
      else some (cur, cs)
  | false ↦ elim (first_fit total cs) [ none ↦ none | some (b, rest) ↦ some (b, cur ∷ rest) ]
]

pub hand_out : Heap → Block → List Block → Option ℕ × Heap
hand_out h b rest = (some (b.addr + header), record h { free = rest; used = b ∷ h.used })

-- The second attempt of the loop, behind a growth that succeeded.
pub retry : Heap → ℕ → Option ℕ × Heap
retry h total = elim (first_fit total h.free) [
  | none ↦ (none, h)
  | some (b, rest) ↦ hand_out h b rest
]

-- The pages that a failed first attempt asks for.
pub grow_pages : ℕ → ℕ
grow_pages total =
    let pages_needed = align_up total page / page in
    let needed = if pages_needed == 0 then 1 else pages_needed in if ltb needed 4 then 4 else needed

pub attempt : Boot → Heap → ℕ → Option ℕ × Heap
attempt b h total = elim (first_fit total h.free) [
  | none ↦
      let (grew, h') = heap_grow_pages b h (grow_pages total) in
      if grew then retry h' total else (none, h')
  | some (blk, rest) ↦ hand_out h blk rest
]

pub is_empty : List Block → Bool
is_empty [] = true
is_empty (b ∷ bs) = false

pub kmalloc : Boot → Heap → ℕ → Option ℕ × Heap
kmalloc b h size =
    if is_empty h.free
    then (none, h)
    else if size == 0
    then (none, h)
    else attempt b h (total_of size)

-- Coalescing with the next free block.
pub join_next : Block → List Block → List Block
join_next blk [] = blk ∷ []
join_next blk (cur ∷ cs) =
    if blk.addr + blk.size == cur.addr
    then record blk { size = add64 blk.size cur.size } ∷ cs
    else blk ∷ cur ∷ cs

-- Coalescing with the previous free block, then with the next.
pub join_prev : Block → Block → List Block → List Block
join_prev prev blk cs =
    if prev.addr + prev.size == blk.addr
    then join_next (record prev { size = add64 prev.size blk.size }) cs
    else prev ∷ join_next blk cs

-- The walk `while (cur && cur < blk)` from the node behind `prev` on.
pub walk : Block → Block → List Block → List Block
walk prev blk [] = join_prev prev blk []
walk prev blk (cur ∷ cs) =
    if ltb cur.addr blk.addr then prev ∷ walk cur blk cs else join_prev prev blk (cur ∷ cs)

pub insert_free : Block → List Block → List Block
insert_free blk [] = join_next blk []
insert_free blk (cur ∷ cs) =
    if ltb cur.addr blk.addr then walk cur blk cs else join_next blk (cur ∷ cs)

-- The header at an address, taken out of the blocks in use.
pub take_used : ℕ → List Block → Option (Block × List Block)
take_used a [] = none
take_used a (b ∷ bs) =
    if b.addr == a
    then some (b, bs)
    else elim (take_used a bs) [ none ↦ none | some (c, rest) ↦ some (c, b ∷ rest) ]

-- `none` is a fault: the pointer is no payload that `kmalloc` handed out and that is still in use.
-- A null pointer is 0.
pub kfree : Heap → ℕ → Option Heap
kfree h ptr = if ptr == 0 then some h else elim (take_used (ptr - header) h.used) [
  | none ↦ none
  | some (blk, used) ↦ some (record h { free = insert_free blk h.free; used = used })
]
