-- ===== src/Mem/Heap/Conserve.antt =====
-- Taking a block from the free list and putting one back conserve memory: each byte is held by as
-- many blocks after as before.
use hana_core.Prelude.{
  ℕ, List, [], ◌∷◌, ◌+◌, ◌≡◌, ◌<◌, ◌^◌, refl, arith, some, inl, inr, Option-cases,
}
use hana_core.Prelude.Word.{add64}
use hana_core.Mem.Heap.{Block, first_fit, join_next, join_prev, walk, insert_free, take_used}
use hana_core.Mem.Heap.Cover.{holds, covers, Fit, holds_split, holds_merge}

pub first_fit-covers :
    (total : ℕ) (bs : List Block) (a : ℕ) (b : Block) (rest : List Block)
    → first_fit total bs ≡ some (b, rest)
    → 0 < total
    → covers bs a ≡ holds b a + covers rest a
unfolding first_fit
first_fit-covers total [] a b rest e h = cc
first_fit-covers total (cur ∷ cs) a b rest e h = elim (Option-cases (first_fit total cs)) [
  | inl e' ↦ ground (arith, e', holds_split cur.addr cur.size total a)
  | inr ((c, r), e') ↦
      ground (arith, first_fit-covers total cs a c r e' h, holds_split cur.addr cur.size total a)
]

pub take_used-covers :
    (x : ℕ) (bs : List Block) (a : ℕ) (b : Block) (rest : List Block)
    → take_used x bs ≡ some (b, rest)
    → covers bs a ≡ holds b a + covers rest a
unfolding take_used
take_used-covers x [] a b rest e = cc
take_used-covers x (cur ∷ cs) a b rest e = elim (Option-cases (take_used x cs)) [
  | inl e' ↦ ground arith
  | inr ((c, r), e') ↦ ground (arith, take_used-covers x cs a c r e')
]

pub join_next-covers :
    (blk : Block) (cs : List Block) (a : ℕ)
    → Fit cs
    → covers (join_next blk cs) a ≡ holds blk a + covers cs a
unfolding join_next
join_next-covers blk [] a f = refl
join_next-covers blk (cur ∷ cs) a f = ground (arith, holds_merge blk cur a)

pub join_prev-covers :
    (prev blk : Block) (cs : List Block) (a : ℕ)
    → blk.addr + blk.size < 2 ^ 64
    → Fit cs
    → covers (join_prev prev blk cs) a ≡ holds prev a + (holds blk a + covers cs a)
unfolding join_prev
join_prev-covers prev blk cs a h f = ground (
  arith,
  holds_merge prev blk a,
  join_next-covers blk cs a f,
  join_next-covers (record prev { size = add64 prev.size blk.size }) cs a f,
)

pub walk-covers :
    (prev blk : Block) (cs : List Block) (a : ℕ)
    → blk.addr + blk.size < 2 ^ 64
    → Fit cs
    → covers (walk prev blk cs) a ≡ holds prev a + (holds blk a + covers cs a)
unfolding walk
walk-covers prev blk [] a h f = join_prev-covers prev blk [] a h f
walk-covers prev blk (cur ∷ cs) a h f =
    ground (arith, join_prev-covers prev blk (cur ∷ cs) a h f, walk-covers cur blk cs a h f.1)

pub insert_free-covers :
    (blk : Block) (cs : List Block) (a : ℕ)
    → blk.addr + blk.size < 2 ^ 64
    → Fit cs
    → covers (insert_free blk cs) a ≡ holds blk a + covers cs a
unfolding insert_free
insert_free-covers blk [] a h f = join_next-covers blk [] a f
insert_free-covers blk (cur ∷ cs) a h f =
    ground (arith, join_next-covers blk (cur ∷ cs) a f, walk-covers cur blk cs a h f.1)
