-- ===== src/Mem/Bump.antt =====
-- kernel/mem/bump_alloc.cpp, pma.cpp and vmm.cpp: pages handed out upwards from the end of the
-- kernel image. Logging is left out. The linker and the boot loader set `Boot`.
pub mod Disjoint
mod Tests
use Prim.Native.Nat.{bit_and}
use hana_core.Prelude.{
  ℕ, Option, none, some, List, [], ◌∷◌, ◌-◌, ◌==◌, ltb, if◌then◌else◌, ◌+◌, ◌%◌, ◌^◌,
}
use hana_core.Prelude.Word.{add64, sub64, mul64, not64}

-- `__kernel_end` and the answer to the higher-half request.
pub record Boot : Type 0 where
  pub kernel_end : ℕ
  pub hhdm_offset : Option ℕ

abbrev pub page : ℕ
page = 0x1000

unfoldable pub align_up : ℕ → ℕ → ℕ
align_up v a = let mask = sub64 a 1 in bit_and (add64 v mask) (not64 mask)

-- Where the first allocation starts: an offset is added to a physical address only.
unfoldable pub first_addr : Boot → ℕ
unfolding align_up
first_addr b = align_up (shifted b.hhdm_offset) page
  where
    shifted : Option ℕ → ℕ
    shifted none = b.kernel_end
    shifted (some off) =
        if ltb b.kernel_end 0x1_0000_0000 then add64 b.kernel_end off else b.kernel_end

-- The pointer that the next call starts from: zero means that no call was made yet.
unfoldable pub start : Boot → ℕ → ℕ
start b bump_ptr = if bump_ptr == 0 then first_addr b else bump_ptr

-- The address returned, and the new `bump_ptr`.
unfoldable pub bump_alloc_alloc : Boot → ℕ → ℕ → ℕ → ℕ × ℕ
bump_alloc_alloc b bump_ptr size align =
    let addr = align_up (start b bump_ptr) (if align == 0 then 1 else align) in
    (addr, align_up (add64 addr size) page)

unfoldable pub bump_alloc_used : Boot → ℕ → ℕ
bump_alloc_used b bump_ptr = if bump_ptr == 0 then 0 else sub64 bump_ptr b.kernel_end

-- `none` is a null pointer.
unfoldable pub pma_alloc_pages : Boot → ℕ → ℕ → Option ℕ × ℕ
pma_alloc_pages b bump_ptr count =
    if count == 0
    then (none, bump_ptr)
    else (let (addr, ptr) = bump_alloc_alloc b bump_ptr (mul64 count page) page in (some addr, ptr))

-- A stub that reports success.
unfoldable pub vmm_map_range : ℕ → ℕ → ℕ → ℕ → ℕ
vmm_map_range phys virt size flags = 0

-- The regions that a series of page requests returns, as (address, byte count).
pub alloc_all : Boot → ℕ → List ℕ → List (ℕ × ℕ)
alloc_all b bump_ptr [] = []
alloc_all b bump_ptr (size ∷ sizes) =
    let (addr, ptr) = bump_alloc_alloc b bump_ptr size page in (addr, size) ∷ alloc_all b ptr sizes
