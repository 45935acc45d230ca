-- ===== src/Elf/Tests.antt =====
-- Runs of kernel/userland/elf_loader.cpp.
use hana_core.Prelude.{
  ℕ, List, [], ◌∷◌, ◌++◌, ◌≡◌, ◌^◌, ◌-◌, refl, arith, none, some, get_or, replicate, true,
}
use hana_core.Mem.Bump.{Boot, bump_alloc_alloc, start, first_addr, align_up}
use hana_core.Elf.{
  read_le, is_valid_elf64, ehdr, phdr, phdrs, span, load, entry_at, load_span,
  elf64_load_from_memory,
}
use hana_core.Elf.Bounds.{Inside, image, elf64_load-Inside}

abbrev boot : Boot
boot = record { kernel_end = 0x200000; hhdm_offset = none }

abbrev zeros : ℕ → List ℕ
zeros n = replicate n 0

-- One segment of four bytes at 0x400000, in an image of a page.
abbrev blob : List ℕ
blob =
    (0x7f ∷ b'E' ∷ b'L' ∷ b'F' ∷ [])
    ++ (zeros 22 ++ (0x40 ∷ []) ++ zeros 5)
    ++ ((64 ∷ []) ++ zeros 21)
    ++ (56 ∷ 0 ∷ 1 ∷ [])
    ++ zeros 7
    ++ ((1 ∷ []) ++ zeros 7)
    ++ ((120 ∷ []) ++ zeros 7)
    ++ (0 ∷ 0 ∷ 0x40 ∷ [])
    ++ zeros 13
    ++ ((4 ∷ []) ++ zeros 7)
    ++ (0 ∷ 0x10 ∷ [])
    ++ zeros 14
    ++ (1 ∷ 2 ∷ 3 ∷ 4 ∷ [])

abbrev data_at : ℕ → ℕ
data_at o = get_or blob o 0

load_test :
    elf64_load_from_memory boot 0 data_at 124
    ≡ (some 0x200000, 0x201000, record { dest = 0x200000; from = 120; count = 4 } ∷ [])
unfolding elf64_load_from_memory load_span is_valid_elf64 ehdr phdrs phdr read_le span load entry_at
    bump_alloc_alloc start first_addr align_up
load_test = refl

-- The segment's end is behind the end of the blob.
short_test : (elf64_load_from_memory boot 0 data_at 122).0 ≡ none
unfolding elf64_load_from_memory load_span is_valid_elf64 ehdr phdrs phdr read_le span load entry_at
    bump_alloc_alloc start first_addr align_up
short_test = refl

-- A segment whose address wraps is copied below the image, which starts at 0x200000.
below_test :
    load 100 0x200000 0x1000 0x1000 (
      record {
        p_type = 1;
        p_offset = 0;
        p_vaddr = 2 ^ 64 - 0x1000;
        p_filesz = 16;
        p_memsz = 0x1000;
      }
      ∷ [])
    ≡ (true, record { dest = 0x1fe000; from = 0; count = 16 } ∷ [])
unfolding load
below_test = refl

elf64_load-Inside_example :
    Inside 124
      (image boot 0 data_at).0
      (image boot 0 data_at).1
      (elf64_load_from_memory boot 0 data_at 124).2
unfolding ehdr phdrs phdr read_le span bump_alloc_alloc start first_addr align_up
elf64_load-Inside_example =
    elf64_load-Inside boot 0 data_at 124 (omega arith, omega arith, tt) (omega arith)
