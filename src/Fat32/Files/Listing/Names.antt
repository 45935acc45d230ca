-- ===== src/Fat32/Files/Listing/Names.antt =====
-- kernel/filesystem/fat32.cpp: which names `fat32_list_dir` lists.
use hana_core.Prelude.{
  ◌*◌, ◌%◌, ◌/◌, ◌&&◌, ℕ, zero, suc, List, [], ◌∷◌, ◌++◌, ◌+◌, ◌≡◌, ◌≤◌, ◌<◌, refl, ap, sym, ◌∙◌,
  Option, none, some, Bool, true, false, ◌||◌, ◌==◌, not, ltb, if◌then◌else◌, length, take, get_or,
  arith, inl, inr, Bool-cases,
}
use hana_core.Hanafs.Image.{Ata}
use hana_core.Fat32.{Volume, fat32_read_sector, read_fat_entry}
use hana_core.Fat32.Name.{display_name}
use hana_core.Fat32.Chain.{IsChain}
use hana_core.Fat32.Directory.{entry_at, goes_on, sector_of, entries_per_sector}
use hana_core.Fat32.Files.Read.{last_cluster, ReadsCluster, ReadsChain}
use hana_core.Fat32.Files.Listing.{
  bit_and, is_listed, list_sector, prepend, list_cluster, list_chain, fat32_list_dir, dir_from,
  list_at, without_drive,
}
use hana_core.Prelude.Word.{bit_and_mask, bit_and_shift}

-- Is the end of the directory among the entries?
unfoldable pub ends : List (List ℕ) → Bool
ends [] = false
ends (e ∷ es) = (get_or e 0 0 == 0) || ends es

-- An entry of a file, by the layout of the attribute byte: the first byte is not that of a removed
-- entry, and neither bit 3 is set, as in a volume label and in each entry of a long name, nor bit 4,
-- as in a directory.
abbrev pub is_file_entry : List ℕ → Bool
is_file_entry e =
    not (get_or e 0 0 == 0xE5) && ((get_or e 11 0 / 8 % 2 == 0) && (get_or e 11 0 / 16 % 2 == 0))

is_listed-is_file_entry : (e : List ℕ) → is_listed e ≡ is_file_entry e
unfolding is_listed
is_listed-is_file_entry e =
    let a : ℕ = get_or e 11 0 in
    let label : bit_and a 8 ≡ a / 8 % 2 * 8 =
      bit_and_shift 3 1 a ∙ ap (λ (n : ℕ). n * 8) (bit_and_mask 1 (a / 8)) in
    let directory : bit_and a 16 ≡ a / 16 % 2 * 16 =
      bit_and_shift 4 1 a ∙ ap (λ (n : ℕ). n * 16) (bit_and_mask 1 (a / 16)) in
    rw (label, directory, bit_and_mask 4 a) (ground arith)

-- The names of the entries of files before the end of the directory.
unfoldable pub names_of : List (List ℕ) → List (List ℕ)
names_of [] = []
names_of (e ∷ es) =
    let rest = names_of es in
    if get_or e 0 0 == 0
    then []
    else if is_file_entry e
    then display_name (take 11 e) ∷ rest
    else rest

ends-append : (a b : List (List ℕ)) → ends (a ++ b) ≡ ends a || ends b
unfolding ends
ends-append [] b = refl
ends-append (e ∷ a) b = ground (arith, ends-append a b)

names_of-append_end : (a b : List (List ℕ)) → ends a ≡ true → names_of (a ++ b) ≡ names_of a
unfolding names_of ends
names_of-append_end [] b h = cc
names_of-append_end (e ∷ a) b h = elim (Bool-cases (get_or e 0 0 == 0)) [
  | inl zero_ ↦ rw zero_ refl
  | inr used ↦ rw (used, names_of-append_end a b (rw used at h)) refl
]

names_of-append :
    (a b : List (List ℕ)) → ends a ≡ false → names_of (a ++ b) ≡ names_of a ++ names_of b
unfolding names_of ends
names_of-append [] b h = refl
names_of-append (e ∷ a) b h = elim (Bool-cases (get_or e 0 0 == 0)) [
  | inl zero_ ↦ absurd (true_false (sym (rw zero_ at h)))
  | inr used ↦
      rw (used, names_of-append a b (rw used at h))
        (elim (Bool-cases (is_file_entry e)) [
          | inl listed ↦ rw listed refl
          | inr other ↦ rw other refl
        ])
]
  where
    true_false : false ≡ true → ⊥
    true_false p = cc

-- The entries of a sector.
unfoldable pub sector_entries : List ℕ → ℕ → ℕ → List (List ℕ)
sector_entries sector off zero = []
sector_entries sector off (suc n) = entry_at sector off ∷ sector_entries sector (off + 32) n

list_sector-names_of :
    (sector : List ℕ) (n off : ℕ)
    → list_sector sector off n
      ≡ (ends (sector_entries sector off n), names_of (sector_entries sector off n))
unfolding list_sector sector_entries ends names_of
list_sector-names_of sector zero off = refl
list_sector-names_of sector (suc n) off =
    let e : List ℕ = entry_at sector off in
    elim (Bool-cases (get_or e 0 0 == 0)) [
      | inl zero_ ↦ rw zero_ refl
      | inr used ↦
          rw (used, is_listed-is_file_entry e, list_sector-names_of sector n (off + 32))
            (elim (Bool-cases (is_file_entry e)) [
              | inl listed ↦ rw listed refl
              | inr other ↦ rw other refl
            ])
    ]

module _ {D : Type 0} (ata : Ata D) (v : Volume) where
  open v use {sectors_per_cluster}

  -- The entries of a cluster's sectors, and those of a chain of clusters.
  unfoldable pub entries_in : Option (List ℕ) → List (List ℕ)
  unfolding sector_entries
  entries_in none = []
  entries_in (some sector) = sector_entries sector 0 (entries_per_sector ata v)

  unfoldable pub cluster_entries : D → ℕ → ℕ → ℕ → List (List ℕ)
  unfolding entries_in fat32_read_sector
  cluster_entries d c s zero = []
  cluster_entries d c s (suc n) =
      entries_in (fat32_read_sector ata v d (sector_of ata v c s)) ++ cluster_entries d c (s + 1) n

  unfoldable pub chain_entries : D → List ℕ → List (List ℕ)
  unfolding cluster_entries
  chain_entries d [] = []
  chain_entries d (c ∷ cs) = cluster_entries d c 0 sectors_per_cluster ++ chain_entries d cs

  prepend-names_of :
      (a b : List (List ℕ))
      → prepend (ends a, names_of a) (some (ends b), names_of b)
        ≡ (some (ends (a ++ b)), names_of (a ++ b))
  prepend-names_of a b = elim (Bool-cases (ends a)) [
    | inl last ↦ rw (last, ends-append a b, names_of-append_end a b last) (rw last refl)
    | inr more ↦ rw (more, ends-append a b, names_of-append a b more) (rw more refl)
  ]

  list_cluster-names_of :
      (d : D) (c n s : ℕ)
      → ReadsCluster ata v d c s n
      → list_cluster ata v d c s n
        ≡ (some (ends (cluster_entries d c s n)), names_of (cluster_entries d c s n))
  unfolding list_cluster cluster_entries
  list_cluster-names_of d c zero s r = unfold ends names_of in refl
  list_cluster-names_of d c (suc n) s ((x, e), r) =
      rw (e, list_cluster)
        (rw
          (
            list_sector-names_of x (entries_per_sector ata v) 0,
            list_cluster-names_of d c n (s + 1) r,
          )
          (unfold entries_in in
            prepend-names_of (sector_entries x 0 (entries_per_sector ata v))
              (cluster_entries d c (s + 1) n)))

  -- The loop over a chain of clusters.
  pub list_chain-names_of :
      (f : ℕ) (d : D) (c : ℕ) (cs : List ℕ)
      → IsChain ata v d c cs
      → ReadsChain ata v d cs
      → length cs < f
      → list_chain ata v f d c ≡ some (true, names_of (chain_entries d cs))
  unfolding list_chain chain_entries
  list_chain-names_of zero d c cs chain r fuel = absurd (omega arith)
  list_chain-names_of (suc f) d c [] ended r fuel =
      let stop : goes_on c ≡ false = ground (arith, ended) in rw stop (unfold names_of in refl)
  list_chain-names_of (suc f) d c (x ∷ xs) (same, low, high, has, once, chain) (r, rs) fuel =
      let start : goes_on c ≡ true = ground arith in
      let next : ℕ = read_fat_entry ata v d c in
      let here : List (List ℕ) = cluster_entries d x 0 sectors_per_cluster in
      let got : list_cluster ata v d c 0 sectors_per_cluster ≡ (some (ends here), names_of here) =
        ap (λ (k : ℕ). list_cluster ata v d k 0 sectors_per_cluster) (sym same)
        ∙ list_cluster-names_of d x sectors_per_cluster 0 r in
      rw start (
        rw got (elim (Bool-cases (ends here)) [
          | inl last ↦ rw last (
              ap (λ (l : List (List ℕ)). some (true, l))
                (sym (names_of-append_end here (chain_entries d xs) last)))
          | inr more ↦ rw more (
              rw (names_of-append here (chain_entries d xs) more)
                (elim (Bool-cases (not (goes_on next) || (next == c))) [
                  | inl stop ↦
                      rw (stop, last_cluster ata v d c next xs chain once stop)
                        (unfold chain_entries names_of in refl)
                  | inr on ↦
                      rw on (rw (list_chain-names_of f d next xs chain rs (omega arith)) refl)
                ]))
        ]))

  -- `fat32_list_dir` of `/` passes on exactly the names of the entries of the root directory that are
  -- in use and, by the bits of the attribute byte, neither volume labels, long names nor directories,
  -- in order, up to the first entry that was never used; it succeeds, with fuel for the clusters of the directory and one more, where
  -- their sectors can be read and have at most 4096 bytes.
  pub fat32_list_dir-names_of :
      (f : ℕ) (d : D) (root : ℕ) (cs : List ℕ)
      → IsChain ata v d root cs
      → ReadsChain ata v d cs
      → length cs < f
      → 2 ≤ root
      → (0 < v.bytes_per_sector) × (v.bytes_per_sector ≤ 4096)
      → fat32_list_dir ata v true f d root (b'/' ∷ []) ≡ some (true, names_of (chain_entries d cs))
  unfolding fat32_list_dir dir_from list_at without_drive
  fat32_list_dir-names_of f d root cs chain r fuel low (some_bytes, few) =
      let a : ltb root 2 ≡ false = ground arith in
      let b : v.bytes_per_sector == 0 ≡ false = ground arith in
      let c : ltb 4096 v.bytes_per_sector ≡ false = ground arith in
      rw (a, b, c) (list_chain-names_of f d root cs chain r fuel)
