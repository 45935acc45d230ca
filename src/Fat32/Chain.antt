-- ===== src/Fat32/Chain.antt =====
-- Allocating a cluster, and freeing a chain.
use hana_core.Prelude.{
  subst, ℕ, zero, suc, List, [], ◌∷◌, ◌+◌, ◌-◌, ◌*◌, ◌/◌, ◌%◌, ◌^◌, ◌≡◌, ◌≢◌, ◌≤◌, ◌<◌, ◌⊎◌, refl,
  subst, ap, sym, ◌∙◌, some, Bool, true, false, ◌&&◌, ◌||◌, ◌==◌, ltb, leb, if◌then◌else◌, length,
  arith, inl, inr, Bool-cases,
}
use hana_core.Hanafs.Image.{Ata}
use hana_core.Hanafs.Image.Sectors.{IsDisk}
use hana_core.Fat32.{
  Volume, end_of_chain, is_end, entry_count, read_fat_entry, write_fat_entry, find_from,
  find_free_cluster, alloc_cluster, free_from, free_cluster_chain,
}
use hana_core.Fat32.Table.{IsOnDisk, IsReadable, HasEntry, write_fat_entry-read_fat_entry}

unfoldable pub contains : ℕ → List ℕ → Bool
contains k [] = false
contains k (c ∷ cs) = (k == c) || contains k cs

module _ {D : Type 0} (ata : Ata D) (v : Volume) where
  -- How a search from `c` on over `n` clusters ends.
  abbrev pub Found : D → ℕ → ℕ → ℕ → Type 0
  Found d c n r =
      ((r ≡ 0) × ((k : ℕ) → c ≤ k → k < c + n → read_fat_entry ata v d k ≢ 0))
      ⊎ ((c ≤ r) × (r < c + n) × (read_fat_entry ata v d r ≡ 0))

  -- A chain of clusters, from `c` on: each leads to the next, and the last one to an end.
  abbrev pub IsChain : D → ℕ → List ℕ → Type 0
  IsChain d c [] = is_end c ≡ true
  IsChain d c (x ∷ xs) =
      (x ≡ c)
      × (2 ≤ c)
      × (c < 0x0FFFFFF7)
      × HasEntry v c
      × (contains c xs ≡ false)
      × IsChain d (read_fat_entry ata v d c) xs

  -- The table after the clusters of a list were freed.
  abbrev pub Freed : D → D → List ℕ → Type 0
  Freed d d' cs =
      (k : ℕ)
      → HasEntry v k
      → read_fat_entry ata v d' k ≡ (if contains k cs then 0 else read_fat_entry ata v d k)

  -- How an allocation ends.
  abbrev pub Allocated : D → ℕ × D → Type 0
  Allocated d r =
      ((r.0 ≡ 0)
        × (r.1 ≡ d)
        × ((k : ℕ) → 2 ≤ k → k < v.fat_size * 128 → read_fat_entry ata v d k ≢ 0))
      ⊎ ((2 ≤ r.0)
          × (r.0 < v.fat_size * 128)
          × (read_fat_entry ata v d r.0 ≡ 0)
          × ((k : ℕ)
              → HasEntry v k
              → read_fat_entry ata v r.1 k
                ≡ (if k == r.0 then end_of_chain else read_fat_entry ata v d k)))

module _ {D : Type 0} (ata : Ata D) (v : Volume) (disk : IsDisk ata) (reads : IsReadable ata)
    (on : IsOnDisk v) where
  find_from-Found : (n c : ℕ) (d : D) → Found ata v d c n (find_from ata v d c n)
  unfolding find_from
  find_from-Found zero c d = inl (refl, λ k low high. absurd (omega arith))
  find_from-Found (suc n) c d = elim (Bool-cases (read_fat_entry ata v d c == 0)) [
    | inl free ↦ rw (free, find_from) (inr (omega arith, omega arith, ground (arith, free)))
    | inr used ↦
        rw (used, find_from)
          (longer used (find_from ata v d (c + 1) n) (find_from-Found n (c + 1) d))
  ]
    where
      longer :
          (read_fat_entry ata v d c == 0) ≡ false
          → (r : ℕ) → Found ata v d (c + 1) n r
          → Found ata v d c (suc n) r
      longer used r (inl (z, all)) = inl (
        z,
        λ k low high zero_there. elim (Bool-cases (k == c)) [
          | inl here ↦ ground (
            arith,
            used,
            zero_there,
            ap (read_fat_entry ata v d) {x = k} {y = c} (ground (arith, here)),
          )
          | inr there ↦ all k (ground (arith, low, there)) (omega (arith, high)) zero_there
        ],
      )
      longer used r (inr (low, high, free)) = inr (omega (arith, low), omega (arith, high), free)

  -- Writing an entry, at the clusters of a chain that does not have it.
  IsChain-write_fat_entry :
      (d : D) (c w x : ℕ) (xs : List ℕ)
      → HasEntry v c
      → contains c xs ≡ false
      → IsChain ata v d x xs
      → IsChain ata v (write_fat_entry ata v d c w).1 x xs
  unfolding contains
  IsChain-write_fat_entry d c w x [] has away chain = chain
  IsChain-write_fat_entry d c w x (y ∷ ys) has away (same, low, high, has_x, once, rest) =
      let other : (x == c) ≡ false = ground (arith, away, same) in
      let stays : read_fat_entry ata v (write_fat_entry ata v d c w).1 x
          ≡ read_fat_entry ata v d x =
        (write_fat_entry-read_fat_entry ata v disk reads on d c w x has has_x).1 ∙ rw other refl in
      (
        same,
        low,
        high,
        has_x,
        once,
        subst (λ (n : ℕ). IsChain ata v (write_fat_entry ata v d c w).1 n ys) (sym stays)
            (IsChain-write_fat_entry d c w (read_fat_entry ata v d x) ys has (ground (arith, away))
              rest),
      )

  free_one : (d : D) (c : ℕ) → HasEntry v c → Freed ata v d (write_fat_entry ata v d c 0).1 (c ∷ [])
  unfolding contains
  free_one d c has k has_k =
      (write_fat_entry-read_fat_entry ata v disk reads on d c 0 k has has_k).1 ∙ ground arith

  goes_on :
      (c next y : ℕ) (ys : List ℕ)
      → contains c (y ∷ ys) ≡ false
      → y ≡ next
      → 2 ≤ next
      → next < 0x0FFFFFF7
      → (is_end next || (next == c)) ≡ false
  unfolding contains
  goes_on c next y ys once same low high = ground (arith, once, same, low, high)

  both :
      (k c x : ℕ) (cs : List ℕ) (d : D) (now : ℕ)
      → x ≡ c
      → now ≡ (if contains k (c ∷ []) then 0 else read_fat_entry ata v d k)
      → (if contains k cs then 0 else now)
        ≡ (if contains k (x ∷ cs) then 0 else read_fat_entry ata v d k)
  unfolding contains
  both k c x cs d now same h = ground (arith, same, h)

  -- Freeing a chain, with a round for each cluster, ends with the clusters of the chain free and every
  -- other entry as it was.
  pub free_from-Freed :
      (f : ℕ) (d : D) (c x : ℕ) (xs : List ℕ)
      → IsChain ata v d c (x ∷ xs)
      → length xs < f
      → (d' : D) × (free_from ata v f d c ≡ some d') × Freed ata v d d' (x ∷ xs)
  unfolding free_from
  free_from-Freed zero d c x xs chain enough = absurd (omega arith)
  free_from-Freed (suc f) d c x [] (same, low, high, has, once, ends) enough =
      let d1 = (write_fat_entry ata v d c 0).1 in
      let inside : (leb 2 c && ltb c 0x0FFFFFF8) ≡ true = ground (arith, low, high) in
      (
        d1,
        rw (inside, free_from) (rw ends refl),
        subst (λ (y : ℕ). Freed ata v d d1 (y ∷ [])) (sym same) (free_one d c has),
      )
  free_from-Freed (suc f) d c x (y ∷ ys) (same, low, high, has, once, rest) enough =
      let next = read_fat_entry ata v d c in
      let d1 = (write_fat_entry ata v d c 0).1 in
      let inside : (leb 2 c && ltb c 0x0FFFFFF8) ≡ true = ground (arith, low, high) in
      let (d', run, freed) =
        free_from-Freed f d1 next y ys (IsChain-write_fat_entry d c 0 next (y ∷ ys) has once rest)
          (omega (arith, enough)) in
      (
        d',
        rw (inside, free_from) (rw (goes_on c next y ys once rest.0 rest.1 rest.2) run),
        λ k has_k.
            freed k has_k
            ∙ both k c x (y ∷ ys) d (read_fat_entry ata v d1 k) same (free_one d c has k has_k),
      )

  -- A chain of which no cluster comes twice is freed: with a round for each cluster
  -- `free_cluster_chain` ends, the entries of the chain are 0, and every other entry is what it was.
  pub free_cluster_chain-Freed :
      (d : D) (c x : ℕ) (xs : List ℕ) (f : ℕ)
      → IsChain ata v d c (x ∷ xs)
      → length xs < f
      → (d' : D) × (free_cluster_chain ata v f d c ≡ some d') × Freed ata v d d' (x ∷ xs)
  unfolding free_cluster_chain
  free_cluster_chain-Freed d c x xs f chain enough =
      let (d', run, freed) = free_from-Freed f d c x xs chain enough in
      let big : ltb c 2 ≡ false = ground (arith, chain.1) in (d', rw big run, freed)

  -- The search of a whole table.
  search_lem :
      (d : D)
      → v.fat_size * 128 ≤ 2 ^ 28
      → find_free_cluster ata v d ≡ find_from ata v d 2 (v.fat_size * 128 - 2)
  unfolding find_free_cluster entry_count
  search_lem d small = rw (no_guard) (ap (λ (n : ℕ). find_from ata v d 2 (n - 2)) count)
    where
      no_guard : ((v.fat_size == 0) || (v.bytes_per_sector == 0)) ≡ false
      no_guard = rw on.sectors_512 (ground (arith, on.some_size))

      count : v.fat_size * v.bytes_per_sector / 4 % 2 ^ 32 ≡ v.fat_size * 128
      count = rw on.sectors_512 (omega (arith, small))

  allocated :
      (d : D) (r : ℕ)
      → v.fat_size * 128 ≤ 2 ^ 28
      → find_free_cluster ata v d ≡ r
      → Found ata v d 2 (v.fat_size * 128 - 2) r
      → Allocated ata v d (alloc_cluster ata v d)
  unfolding alloc_cluster
  allocated d r small e (inl (z, all)) =
      rw (e ∙ z) (inl (refl, refl, λ k low high. all k low (omega (arith, high))))
  allocated d r small e (inr (low, high, free)) =
      let has : HasEntry v r = (omega (arith, high), omega (arith, high, small)) in
      let nonzero : (r == 0) ≡ false = ground (arith, low) in
      let done =
        (write_fat_entry-read_fat_entry ata v disk reads on d r end_of_chain r has has).0 in
      rw (e) (
        rw (nonzero, done)
          (inr (
            low,
            has.0,
            free,
            λ k has_k.
                (write_fat_entry-read_fat_entry ata v disk reads on d r end_of_chain k has has_k).1,
          )))

  -- Allocating a cluster of a table of at most 2^28 entries: where it gives 0, nothing changes and
  -- every entry from 2 on is in use; else the cluster was free, ends a chain now, and every other entry
  -- is what it was.
  pub alloc_cluster-Allocated :
      (d : D) → v.fat_size * 128 ≤ 2 ^ 28 → Allocated ata v d (alloc_cluster ata v d)
  alloc_cluster-Allocated d small =
      allocated d (find_from ata v d 2 (v.fat_size * 128 - 2)) small (search_lem d small)
        (find_from-Found (v.fat_size * 128 - 2) 2 d)
