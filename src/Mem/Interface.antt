-- ===== src/Mem/Interface.antt =====
-- What the other parts of the kernel ask of its heap, and the heap of kernel/mem/heap.cpp as that.
use hana_core.Prelude.{ℕ, Option}
use hana_core.Mem.Bump.{Boot}
use hana_core.Mem.Heap.{Heap, heap_init, kmalloc}

pub record Memory : Type 1 where
  pub State : Type 0
  pub init : State → ℕ → State
  pub alloc : State → ℕ → Option ℕ × State

-- The kernel's heap, with `static_heap` at `buffer`.
abbrev pub kernel_memory : Boot → ℕ → Memory
kernel_memory b buffer = record {
  State = Heap;
  init = λ h n. heap_init buffer h n;
  alloc = λ h n. kmalloc b h n;
}
