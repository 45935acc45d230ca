-- ===== src/Fat32.antt =====
-- kernel/filesystem/fat32.cpp: the file allocation table and its chains of clusters. The disk is the
-- interface that HanaFS has. A `uint32_t` wraps at 2^32; a sector has the bytes that were read.
pub mod Patch
pub mod Table
pub mod Chain
pub mod Module
pub mod Name
pub mod Directory
pub mod Files
mod Tests
use hana_core.Prelude.{
  ℕ, zero, suc, List, [], ◌∷◌, ◌++◌, ◌+◌, ◌-◌, ◌*◌, ◌/◌, ◌%◌, ◌^◌, Option, none, some, Bool, true,
  false, ◌&&◌, ◌||◌, ◌==◌, ltb, leb, if◌then◌else◌, length, take, drop,
}
use hana_core.Hanafs.Image.{Ata, le_bytes, le_value}

-- What a mount leaves in the variables of the file. `module_image` is the image of a boot module;
-- `module_drive` says that `mounted_drive` is 1.
pub record Volume : Type 0 where
  pub fat_begin_lba : ℕ
  pub cluster_begin_lba : ℕ
  pub sectors_per_cluster : ℕ
  pub bytes_per_sector : ℕ
  pub fat_size : ℕ
  pub num_fats : ℕ
  pub module_drive : Bool
  pub module_image : List ℕ

abbrev pub bad_cluster : ℕ
bad_cluster = 0x0FFFFFF7

abbrev pub end_of_chain : ℕ
end_of_chain = 0x0FFFFFFF

abbrev pub is_end : ℕ → Bool
is_end next = (next == 0) || leb 0x0FFFFFF8 next

unfoldable pub cluster_to_lba : Volume → ℕ → ℕ
cluster_to_lba v cluster =
    (v.cluster_begin_lba + (cluster + 2 ^ 32 - 2) % 2 ^ 32 * v.sectors_per_cluster) % 2 ^ 32

-- Where the entry of a cluster lies in a copy of the table.
abbrev pub fat_offset : ℕ → ℕ
fat_offset cluster = cluster * 4 % 2 ^ 32

unfoldable pub ent_offset : Volume → ℕ → ℕ
ent_offset v cluster = fat_offset cluster % v.bytes_per_sector

unfoldable pub sector_index : Volume → ℕ → ℕ
sector_index v cluster = fat_offset cluster / v.bytes_per_sector

-- The four bytes at `off` replaced.
abbrev pub patched : List ℕ → ℕ → ℕ → List ℕ
patched sector off w = take off sector ++ (le_bytes 4 w ++ drop (off + 4) sector)

-- The number of the entries that a search looks at.
unfoldable pub entry_count : Volume → ℕ
entry_count v = v.fat_size * v.bytes_per_sector / 4 % 2 ^ 32

module _ {D : Type 0} (ata : Ata D) (v : Volume) where
  open ata use {read_sector, write_sector}
  open v use {fat_begin_lba, bytes_per_sector, fat_size, num_fats, module_drive, module_image}

  unfoldable pub fat32_read_sector : D → ℕ → Option (List ℕ)
  fat32_read_sector disk lba =
      let off = lba * bytes_per_sector in
      if module_drive && ltb 0 (length module_image) && ltb 0 bytes_per_sector
      then (if leb (off + bytes_per_sector) (length module_image)
          then some (take bytes_per_sector (drop off module_image))
          else none)
      else read_sector disk lba

  abbrev pub entry_in : ℕ → Option (List ℕ) → ℕ
  entry_in off none = bad_cluster
  entry_in off (some sector) = le_value (take 4 (drop off sector)) % 2 ^ 28

  unfoldable pub read_fat_entry : D → ℕ → ℕ
  unfolding fat32_read_sector ent_offset sector_index le_value
  read_fat_entry disk cluster =
      if ltb 512 bytes_per_sector
      then bad_cluster
      else entry_in (ent_offset v cluster)
          (fat32_read_sector disk ((fat_begin_lba + sector_index v cluster) % 2 ^ 32))

  -- The sector of the copy `i` of the table.
  abbrev pub copy_lba : ℕ → ℕ → ℕ
  copy_lba i cluster = (fat_begin_lba + i * fat_size + sector_index v cluster) % 2 ^ 32

  -- The loop over `n` copies from `i` on.
  unfoldable pub write_copies : D → ℕ → ℕ → ℕ → ℕ → Bool × D
  unfolding fat32_read_sector ent_offset sector_index le_bytes
  write_copies disk cluster w i zero = (true, disk)
  write_copies disk cluster w i (suc n) = elim (fat32_read_sector disk (copy_lba i cluster)) [
    | none ↦ (false, disk)
    | some sector ↦
        let (done, disk') =
          write_sector disk (copy_lba i cluster) (patched sector (ent_offset v cluster) w) in
        elim done [ false ↦ (false, disk') | true ↦ write_copies disk' cluster w (i + 1) n ]
  ]

  -- `true` is a result of 0.
  unfoldable pub write_fat_entry : D → ℕ → ℕ → Bool × D
  unfolding write_copies
  write_fat_entry disk cluster val =
      if (bytes_per_sector == 0) || (fat_size == 0) || ltb 4096 bytes_per_sector
      then (false, disk)
      else write_copies disk cluster (val % 2 ^ 28) 0 num_fats

  -- The loop over `n` clusters from `c` on.
  unfoldable pub find_from : D → ℕ → ℕ → ℕ
  unfolding read_fat_entry
  find_from disk c zero = 0
  find_from disk c (suc n) = elim (read_fat_entry disk c == 0) [
    | true ↦ c
    | false ↦ find_from disk (c + 1) n
  ]

  unfoldable pub find_free_cluster : D → ℕ
  unfolding find_from entry_count
  find_free_cluster disk =
      if (fat_size == 0) || (bytes_per_sector == 0) then 0 else find_from disk 2 (entry_count v - 2)

  -- The cluster, or 0, and the disk.
  unfoldable pub alloc_cluster : D → ℕ × D
  unfolding find_free_cluster write_fat_entry
  alloc_cluster disk =
      let c = find_free_cluster disk in
      let (done, disk') = write_fat_entry disk c end_of_chain in
      if c == 0 then (0, disk) else (if done then c else 0, disk')

  -- `none`: the fuel ran out.
  unfoldable pub free_from : ℕ → D → ℕ → Option D
  unfolding read_fat_entry write_fat_entry
  free_from zero disk cur = none
  free_from (suc f) disk cur =
      let next = read_fat_entry disk cur in
      let disk' = (write_fat_entry disk cur 0).1 in
      elim (leb 2 cur && ltb cur 0x0FFFFFF8) [
        | false ↦ some disk
        | true ↦ elim (is_end next || (next == cur)) [
          | true ↦ some disk'
          | false ↦ free_from f disk' next
        ]
      ]

  unfoldable pub free_cluster_chain : ℕ → D → ℕ → Option D
  unfolding free_from
  free_cluster_chain fuel disk start = if ltb start 2 then some disk else free_from fuel disk start
