-- ===== src/Mem/Heap/Blocks.antt =====
-- Which blocks the list operations give: sizes, and ends below 2^64.
use hana_core.Prelude.{
  ℕ, List, [], ◌∷◌, ◌+◌, ◌≡◌, ◌≤◌, ◌<◌, ◌^◌, arith, some, inl, inr, Option-cases,
}
use hana_core.Prelude.Word.{add64}
use hana_core.Mem.Heap.{Block, first_fit, join_next, join_prev, walk, insert_free, take_used}
use hana_core.Mem.Heap.Cover.{Fit}

abbrev pub Ends : Block → Type 0
Ends b = b.addr + b.size < 2 ^ 64

pub first_fit-Fit :
    (total : ℕ) (bs : List Block) (b : Block) (rest : List Block)
    → first_fit total bs ≡ some (b, rest)
    → Fit bs
    → Ends b × Fit rest × (total ≤ b.size)
unfolding first_fit
first_fit-Fit total [] b rest e f = cc
first_fit-Fit total (cur ∷ cs) b rest e f = elim (Option-cases (first_fit total cs)) [
  | inl e' ↦ ground arith
  | inr ((c, r), e') ↦ ground (arith, first_fit-Fit total cs c r e' f.1)
]

pub take_used-Fit :
    (x : ℕ) (bs : List Block) (b : Block) (rest : List Block)
    → take_used x bs ≡ some (b, rest)
    → Fit bs
    → Ends b × Fit rest × (b.addr ≡ x)
unfolding take_used
take_used-Fit x [] b rest e f = cc
take_used-Fit x (cur ∷ cs) b rest e f = elim (Option-cases (take_used x cs)) [
  | inl e' ↦ ground arith
  | inr ((c, r), e') ↦ ground (arith, take_used-Fit x cs c r e' f.1)
]

pub join_next-Fit : (blk : Block) (cs : List Block) → Ends blk → Fit cs → Fit (join_next blk cs)
unfolding join_next
join_next-Fit blk [] h f = (h, tt)
join_next-Fit blk (cur ∷ cs) h f = ground arith

pub join_prev-Fit :
    (prev blk : Block) (cs : List Block)
    → Ends prev
    → Ends blk
    → Fit cs
    → Fit (join_prev prev blk cs)
unfolding join_prev
join_prev-Fit prev blk cs p h f = ground (
  arith,
  join_next-Fit blk cs h f,
  join_next-Fit (record prev { size = add64 prev.size blk.size }) cs,
)

pub walk-Fit :
    (prev blk : Block) (cs : List Block) → Ends prev → Ends blk → Fit cs → Fit (walk prev blk cs)
unfolding walk
walk-Fit prev blk [] p h f = join_prev-Fit prev blk [] p h f
walk-Fit prev blk (cur ∷ cs) p h f =
    ground (arith, join_prev-Fit prev blk (cur ∷ cs) p h f, walk-Fit cur blk cs f.0 h f.1)

pub insert_free-Fit : (blk : Block) (cs : List Block) → Ends blk → Fit cs → Fit (insert_free blk cs)
unfolding insert_free
insert_free-Fit blk [] h f = join_next-Fit blk [] h f
insert_free-Fit blk (cur ∷ cs) h f =
    ground (arith, join_next-Fit blk (cur ∷ cs) h f, walk-Fit cur blk cs f.0 h f.1)
