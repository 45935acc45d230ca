-- ===== src/Fd/Table.antt =====
-- Which descriptor is given out.
use hana_core.Prelude.{
  ◌∙◌, ap, ◌&&◌, take, Bool-cases, ℕ, suc, List, [], ◌∷◌, ◌+◌, ◌≡◌, ◌≤◌, inl, inr, refl, arith,
  some, get_elem?, leb, true, false,
}
use hana_core.Prelude.Int.{ℤ, pos, negsuc}
use hana_core.Fd.{fdtable_get, FdEntry, is_none, alloc_from, fdtable_alloc_fd}

-- The descriptor `fd` of a table is free.
abbrev pub IsFree : List FdEntry → ℕ → Type 0
IsFree t fd = (e : FdEntry) × (get_elem? t fd ≡ some e) × (is_none e.type ≡ true)

abbrev pub AllBusy : List FdEntry → Type 0
AllBusy [] = Unit
AllBusy (e ∷ es) = (is_none e.type ≡ false) × AllBusy es

-- What the scan finds from a descriptor above the standard three on.
abbrev pub Found : ℕ → List FdEntry → ℤ → Type 0
Found i t (pos fd) = (k : ℕ) × (fd ≡ i + k) × IsFree t k × AllBusy (take k t)
Found i t (negsuc n) = AllBusy t

Found-cons :
    (i : ℕ) (x : FdEntry) (t : List FdEntry) (r : ℤ)
    → is_none x.type ≡ false
    → Found (i + 1) t r
    → Found i (x ∷ t) r
Found-cons i x t (pos fd) busy (k, e, f, b) = (suc k, omega arith, f, (busy, b))
Found-cons i x t (negsuc n) busy b = (busy, b)

alloc_from-Found : (t : List FdEntry) (i : ℕ) → 3 ≤ i → Found i t (alloc_from t i)
unfolding alloc_from
alloc_from-Found [] i h = tt
alloc_from-Found (x ∷ xs) i h = elim (Bool-cases (is_none x.type)) [
  | inl free ↦ rw (reserved, free) (0, omega arith, (x, refl, free), tt)
  | inr busy ↦
      rw (reserved, busy)
        (Found-cons i x xs (alloc_from xs (i + 1)) busy (alloc_from-Found xs (i + 1) (omega arith)))
]
  where
    reserved : leb 3 i ≡ true
    reserved = ground arith

-- `fdtable_alloc_fd` gives the lowest free descriptor from 3 on, and -1 only if none is free: a
-- table `a ∷ b ∷ c ∷ t` has its standard descriptors in front.
pub fdtable_alloc_fd-Found :
    (a b c : FdEntry) (t : List FdEntry) → Found 3 t (fdtable_alloc_fd (a ∷ b ∷ c ∷ t))
unfolding fdtable_alloc_fd
fdtable_alloc_fd-Found a b c t = alloc_from-Found t 3 (omega arith)

-- A descriptor that the scan gives out is one of the table.
alloc_from-get :
    (t : List FdEntry) (i fd : ℕ)
    → alloc_from t i ≡ pos fd
    → (k : ℕ) × (fd ≡ i + k) × (e : FdEntry) × (get_elem? t k ≡ some e)
unfolding alloc_from
alloc_from-get [] i fd h = cc
alloc_from-get (x ∷ xs) i fd h = elim (Bool-cases (leb 3 i && is_none x.type)) [
  | inl here ↦ (0, ground (arith, here), x, refl)
  | inr further ↦
      let (k, at, e, found) = alloc_from-get xs (i + 1) fd (ground (arith, further)) in
      (suc k, omega (arith, at), e, found)
]

pub fdtable_get-fdtable_alloc_fd :
    (t : List FdEntry) (fd : ℕ)
    → fdtable_alloc_fd t ≡ pos fd
    → (e : FdEntry) × (fdtable_get t (pos fd) ≡ some e)
unfolding fdtable_alloc_fd fdtable_get
fdtable_get-fdtable_alloc_fd t fd h =
    let (k, at, e, found) = alloc_from-get t 0 fd h in
    (e, ap (λ (i : ℕ). get_elem? t i) {y = k} (omega (arith, at)) ∙ found)
