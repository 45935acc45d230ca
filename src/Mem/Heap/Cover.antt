-- ===== src/Mem/Heap/Cover.antt =====
-- How many blocks of a list hold a byte of memory.
use hana_core.Prelude.{
  ◌⊎◌, inl, inr, ℕ, List, [], ◌∷◌, ◌+◌, ◌-◌, ◌≡◌, ◌≤◌, ◌<◌, ◌^◌, leb, ltb, ◌&&◌, if◌then◌else◌,
  arith,
}
use hana_core.Prelude.Word.{add64}
use hana_core.Mem.Heap.{Block}

pub holds : Block → ℕ → ℕ
holds b a = if leb b.addr a && ltb a (b.addr + b.size) then 1 else 0

abbrev pub covers : List Block → ℕ → ℕ
covers [] a = 0
covers (b ∷ bs) a = holds b a + covers bs a

-- Every block ends below 2^64.
abbrev pub Fit : List Block → Type 0
Fit [] = Unit
Fit (b ∷ bs) = (b.addr + b.size < 2 ^ 64) × Fit bs

-- A split block holds what its two parts hold.
pub holds_split :
    (x n total a : ℕ)
    → total ≤ n
    → holds (record { addr = x; size = n }) a
      ≡ holds (record { addr = x; size = total }) a
        + holds (record { addr = x + total; size = n - total }) a
unfolding holds
holds_split x n total a h = ground arith

-- A block enlarged by its neighbour holds what both held.
pub holds_merge :
    (b c : Block) (a : ℕ)
    → b.addr + b.size ≡ c.addr
    → c.addr + c.size < 2 ^ 64
    → holds (record b { size = add64 b.size c.size }) a ≡ holds b a + holds c a
unfolding holds
holds_merge b c a e h = ground arith

pub holds_range : (x n a : ℕ) → holds (record { addr = x; size = n }) a ≤ 1
unfolding holds
holds_range x n a = ground arith

pub holds_outside :
    (x n a : ℕ) → (a < x) ⊎ (x + n ≤ a) → holds (record { addr = x; size = n }) a ≡ 0
unfolding holds
holds_outside x n a (inl h) = ground arith
holds_outside x n a (inr h) = ground arith
