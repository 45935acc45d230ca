-- ===== src/Mem/Bump/Tests.antt =====
-- Runs of kernel/mem/bump_alloc.cpp.
use hana_core.Prelude.{◌≡◌, [], ◌∷◌, refl, arith, none, some}
use hana_core.Mem.Bump.{
  Boot, page, align_up, first_addr, start, bump_alloc_alloc, bump_alloc_used, pma_alloc_pages,
  alloc_all,
}
use hana_core.Mem.Bump.Disjoint.{alloc_all-Ascending, Ascending}

abbrev boot : Boot
boot = record { kernel_end = 0x201234; hhdm_offset = some 0xffff_8000_0000_0000 }

first_test : first_addr boot ≡ 0xffff_8000_0020_2000
unfolding first_addr align_up
first_test = refl

alloc_test : bump_alloc_alloc boot 0 5000 page ≡ (0xffff_8000_0020_2000, 0xffff_8000_0020_4000)
unfolding bump_alloc_alloc start first_addr align_up
alloc_test = refl

used_test : bump_alloc_used boot 0x203000 ≡ 0x1dcc
unfolding bump_alloc_used
used_test = refl

pages_test : pma_alloc_pages boot 0x203000 3 ≡ (some 0x203000, 0x206000)
unfolding pma_alloc_pages bump_alloc_alloc start first_addr align_up
pages_test = refl

no_pages_test : pma_alloc_pages boot 0x203000 0 ≡ (none, 0x203000)
unfolding pma_alloc_pages
no_pages_test = refl

alloc_all-Ascending_example : Ascending (start boot 0) (alloc_all boot 0 (5000 ∷ 1 ∷ 4096 ∷ []))
unfolding start first_addr align_up
alloc_all-Ascending_example =
    alloc_all-Ascending boot 0 (5000 ∷ 1 ∷ 4096 ∷ []) (omega arith) (omega arith)
