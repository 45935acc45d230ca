-- ===== src/Fat32/Tests.antt =====
-- A volume of 128 clusters in two copies of a table of one sector, and one in a module's image.
use hana_core.Prelude.{
  length-take, ℕ, List, [], ◌∷◌, ◌++◌, ◌%◌, ◌^◌, ◌≡◌, ◌≢◌, refl, ap, ◌∙◌, some, true, false, ◌==◌,
  if◌then◌else◌, length, take, replicate, arith,
}
use hana_core.Hanafs.Image.{Ata, padded}
use hana_core.Hanafs.Image.Sectors.{IsDisk, length-padded}
use hana_core.Hanafs.Path.Shape.{take_enough}
use hana_core.Fat32.{Volume, read_fat_entry, write_fat_entry, alloc_cluster, free_cluster_chain}
use hana_core.Fat32.Table.{IsOnDisk, IsReadable, write_fat_entry-read_fat_entry}
use hana_core.Fat32.Chain.{
  contains, Allocated, Freed, IsChain, alloc_cluster-Allocated, free_cluster_chain-Freed,
}
use hana_core.Fat32.Module.{IsInModule, alloc_cluster_twice}
use mathlib.Core.List.{append-nil}

abbrev pub Disk : Type 0
Disk = ℕ → List ℕ

-- A disk whose sectors have 512 bytes.
abbrev pub sectors_disk : Ata Disk
sectors_disk = record {
  read_sector = λ d n. some (padded (take 512 (d n)));
  write_sector = λ d n bytes. (true, λ m. if m == n then bytes else d m);
}

pub sectors_disk-IsDisk : IsDisk sectors_disk
sectors_disk-IsDisk = record {
  works = λ d n bytes. refl;
  keeps = λ d n bytes sized.
      ap some (ap (λ (l : List ℕ). padded (take 512 l)) (same d n bytes) ∙ whole bytes sized);
  others = λ d n m bytes ne. ap (λ (l : List ℕ). some (padded (take 512 l))) (other d n m bytes ne);
}
  where
    same : (d : Disk) (n : ℕ) (bytes : List ℕ) → (if n == n then bytes else d n) ≡ bytes
    same d n bytes = ground arith

    other : (d : Disk) (n m : ℕ) (bytes : List ℕ) → n ≢ m → (if m == n then bytes else d m) ≡ d m
    other d n m bytes ne = ground arith

    whole : (bytes : List ℕ) → length bytes ≡ 512 → padded (take 512 bytes) ≡ bytes
    whole bytes sized =
        ap padded (take_enough 512 bytes (omega (arith, sized)))
        ∙ ap (λ (n : ℕ). bytes ++ replicate n 0) {y = 0} (omega (arith, sized))
        ∙ append-nil bytes

pub sectors_disk-IsReadable : IsReadable sectors_disk
sectors_disk-IsReadable d n = (
  padded (take 512 (d n)),
  refl,
  length-padded (take 512 (d n)) (omega (arith, length-take 512 (d n))),
)

abbrev pub volume : Volume
volume = record {
  fat_begin_lba = 32;
  cluster_begin_lba = 34;
  sectors_per_cluster = 1;
  bytes_per_sector = 512;
  fat_size = 1;
  num_fats = 2;
  module_drive = false;
  module_image = [];
}

pub volume-IsOnDisk : IsOnDisk volume
volume-IsOnDisk = record {
  sectors_512 = refl;
  no_module = refl;
  some_fat = omega arith;
  some_size = omega arith;
  below = omega arith;
}

-- The table's first sector: two entries that are taken, then a chain of the clusters 2 and 3.
abbrev pub table : List ℕ
table = 248 ∷ 255 ∷ 255 ∷ 15 ∷ 255 ∷ 255 ∷ 255 ∷ 15 ∷ 3 ∷ 0 ∷ 0 ∷ 0 ∷ 255 ∷ 255 ∷ 255 ∷ 15 ∷ []

abbrev pub chained : Disk
chained n = if n == 32 then table else []

write_fat_entry-read_fat_entry_example :
    let (done, d') = write_fat_entry sectors_disk volume chained 3 7 in
    (done ≡ true)
    × (read_fat_entry sectors_disk volume d' 2
        ≡ (if 2 == 3 then 7 % 2 ^ 28 else read_fat_entry sectors_disk volume chained 2))
write_fat_entry-read_fat_entry_example =
    write_fat_entry-read_fat_entry sectors_disk volume sectors_disk-IsDisk sectors_disk-IsReadable
      volume-IsOnDisk chained 3 7 2 (omega arith, omega arith) (omega arith, omega arith)

alloc_cluster-Allocated_example :
    Allocated sectors_disk volume chained (alloc_cluster sectors_disk volume chained)
alloc_cluster-Allocated_example =
    alloc_cluster-Allocated sectors_disk volume sectors_disk-IsDisk sectors_disk-IsReadable
      volume-IsOnDisk chained (omega arith)

-- The first free cluster is 4.
first_free : (alloc_cluster sectors_disk volume chained).0 ≡ 4
unfolding alloc_cluster
first_free = refl

pub chained-IsChain : IsChain sectors_disk volume chained 2 (2 ∷ 3 ∷ [])
unfolding read_fat_entry contains
chained-IsChain = (
  refl,
  omega arith,
  omega arith,
  (omega arith, omega arith),
  refl,
  (refl, omega arith, omega arith, (omega arith, omega arith), refl, refl),
)

free_cluster_chain-Freed_example :
    (d' : Disk) × (free_cluster_chain sectors_disk volume 2 chained 2 ≡ some d')
    × Freed sectors_disk volume chained d' (2 ∷ 3 ∷ [])
free_cluster_chain-Freed_example =
    free_cluster_chain-Freed sectors_disk volume sectors_disk-IsDisk sectors_disk-IsReadable
      volume-IsOnDisk chained 2 2 (3 ∷ []) 2 chained-IsChain (omega arith)

-- The same table in the image of a module.
abbrev in_module : Volume
in_module = record volume {
  fat_begin_lba = 0;
  module_drive = true;
  module_image = table ++ replicate 2048 0;
}

in_module-IsInModule : IsInModule in_module
in_module-IsInModule = record { in_image = refl }

alloc_cluster_twice_example :
    let (c, d') = alloc_cluster sectors_disk in_module chained in
    ((alloc_cluster sectors_disk in_module d').0 ≡ c)
    × ((k : ℕ)
        → read_fat_entry sectors_disk in_module d' k
          ≡ read_fat_entry sectors_disk in_module chained k)
alloc_cluster_twice_example =
    alloc_cluster_twice sectors_disk in_module in_module-IsInModule sectors_disk-IsDisk chained
