-- ===== src/Fat32/Files/Content.antt =====
-- kernel/filesystem/fat32.cpp: the contents of files, `fat32_write_file` and `fat32_read_file`.
use hana_core.Prelude.{
  ℕ, zero, suc, List, [], ◌∷◌, ◌++◌, ◌+◌, ◌-◌, ◌%◌, ◌^◌, Option, none, some, Bool, true, false,
  ◌||◌, ◌==◌, not, ltb, leb, if◌then◌else◌, length, take, drop, replicate, ◌>>=◌,
}
use hana_core.Hanafs.Image.{Ata}
use hana_core.Libc.Number.{atoi}
use hana_core.Fat32.{
  Volume, end_of_chain, fat32_read_sector, read_fat_entry, write_fat_entry, alloc_cluster,
  free_cluster_chain,
}
use hana_core.Fat32.Directory.{goes_on, sector_of}
use hana_core.Fat32.Files.{
  format_short_name, to_uint32, remove_dir_entry_by_path, get_parent_cluster_and_name, add_entry,
}

-- How the writing of a cluster ends: with the bytes that are left, or -1.
pub data Wrote (D : Type 0) : Type 0 where
  failed : D → Wrote D
  wrote : D → List ℕ → Wrote D

module _ {D : Type 0} (ata : Ata D) (v : Volume) where
  open ata use {write_sector}
  open v use {sectors_per_cluster, bytes_per_sector}

  -- A sector of the bytes that are left, filled up with zeros.
  abbrev pub sector_buf : List ℕ → List ℕ
  sector_buf bytes =
      take bytes_per_sector bytes
      ++ replicate (bytes_per_sector - length (take bytes_per_sector bytes)) 0

  -- The sectors of a cluster from `s` on, until no bytes are left.
  unfoldable pub write_cluster : D → ℕ → ℕ → ℕ → List ℕ → Wrote D
  write_cluster disk cluster s zero bytes = wrote disk bytes
  write_cluster disk cluster s (suc n) bytes =
      let (done, disk') = write_sector disk (sector_of ata v cluster s) (sector_buf bytes) in
      elim done [
        | false ↦ failed disk'
        | true ↦ elim (drop bytes_per_sector bytes) [
          | [] ↦ wrote disk' []
          | c ∷ rest ↦ write_cluster disk' cluster (s + 1) n (c ∷ rest)
        ]
      ]

  -- The chain written so far is given back, if there is one.
  unfoldable pub abandon : ℕ → D → ℕ → Option ((Bool × D) × ℕ)
  unfolding free_cluster_chain
  abandon fuel disk first =
      if first == 0
      then some ((false, disk), 0)
      else (free_cluster_chain ata v fuel disk first >>= λ disk'. some ((false, disk'), 0))

  -- The previous cluster is linked to `c`, and `c` marked as the last one.
  unfoldable pub link : D → ℕ → ℕ → Bool × D
  unfolding write_fat_entry
  link disk prev c =
      let (linked, disk1) = if prev == 0 then (true, disk) else write_fat_entry ata v disk prev c in
      elim linked [ false ↦ (false, disk1) | true ↦ write_fat_entry ata v disk1 c end_of_chain ]

  -- How the loop over the clusters goes on: with the first cluster of the file, or with -1.
  unfoldable pub write_chain : ℕ → ℕ → D → ℕ → ℕ → List ℕ → Option ((Bool × D) × ℕ)
  unfolding alloc_cluster link write_cluster abandon
  write_chain fuel rounds disk first prev [] = some ((true, disk), first)
  write_chain fuel zero disk first prev (b ∷ bytes) = none
  write_chain fuel (suc n) disk first prev (b ∷ bytes) =
      let (c, disk1) = alloc_cluster ata v disk in
      let first' : ℕ = if first == 0 then c else first in
      if c == 0
      then abandon fuel disk1 first
      else (let (linked, disk2) = link disk1 prev c in
          elim linked [
            | false ↦ abandon fuel disk2 first'
            | true ↦ elim (write_cluster disk2 c 0 sectors_per_cluster (b ∷ bytes)) [
              | failed disk3 ↦ abandon fuel disk3 first'
              | wrote disk3 rest ↦ write_chain fuel n disk3 first' c rest
            ]
          ])

  -- The entry of the file, or the chain given back.
  unfoldable pub finish_file : ℕ → ℕ → ℕ × List ℕ → ℕ → (Bool × D) × ℕ → Option (Bool × D)
  unfolding add_entry free_cluster_chain
  finish_file fuel root parent len ((false, disk), first) = some (false, disk)
  finish_file fuel root parent len ((true, disk), first) =
      add_entry ata v fuel disk root 0x20 first (len % 2 ^ 32) (some parent) >>= λ r. elim r.0 [
        | true ↦ some r
        | false ↦ free_cluster_chain ata v fuel r.1 first >>= λ disk'. some (false, disk')
      ]

  -- What follows the removal of the old entry, whose result is not looked at.
  unfoldable pub write_new : ℕ → ℕ → D → ℕ → Option (ℕ × List ℕ) → List ℕ → Option (Bool × D)
  unfolding write_chain finish_file
  write_new fuel rounds disk root none bytes = some (false, disk)
  write_new fuel rounds disk root (some parent) bytes = elim (format_short_name parent.1) [
    | none ↦ some (false, disk)
    | some name11 ↦
        write_chain fuel rounds disk 0 0 bytes >>= finish_file fuel root parent (length bytes)
  ]

  unfoldable pub fat32_write_file : Bool → ℕ → ℕ → D → ℕ → List ℕ → List ℕ → Option (Bool × D)
  unfolding remove_dir_entry_by_path get_parent_cluster_and_name write_new
  fat32_write_file ready fuel rounds disk root path bytes =
      if ready
      then (remove_dir_entry_by_path ata v fuel disk root path true >>= λ r.
          get_parent_cluster_and_name ata v fuel r.1 root path >>= λ parent.
          write_new fuel rounds r.1 root parent bytes)
      else some (false, disk)

  -- The sectors of a cluster from `s` on, until `len` bytes are there; the bytes read, or -1.
  unfoldable pub read_cluster : D → ℕ → ℕ → ℕ → ℕ → List ℕ → Option (List ℕ)
  unfolding fat32_read_sector
  read_cluster disk len cluster s zero buf = some buf
  read_cluster disk len cluster s (suc n) buf =
      elim (fat32_read_sector ata v disk (sector_of ata v cluster s)) [
        | none ↦ none
        | some sector ↦
            let buf' = buf ++ take (len - length buf) (take bytes_per_sector sector) in
            let rest = read_cluster disk len cluster (s + 1) n buf' in
            if leb len (length buf') then some buf' else rest
      ]

  -- The loop over the chain; the inner option is `none` for -1.
  unfoldable pub read_chain : ℕ → D → ℕ → ℕ → List ℕ → Option (Option (List ℕ))
  unfolding read_cluster read_fat_entry
  read_chain zero disk len cluster buf = none
  read_chain (suc f) disk len cluster buf =
      let next = read_fat_entry ata v disk cluster in
      if goes_on cluster
      then elim (read_cluster disk len cluster 0 sectors_per_cluster buf) [
        | none ↦ some none
        | some buf' ↦
            let rest = read_chain f disk len next buf' in
            if leb len (length buf') || (not (goes_on next) || (next == cluster))
            then some (some buf')
            else rest
      ]
      else some (some buf)

  -- The path is a cluster number in decimal digits. The bytes are those put into the buffer, whose
  -- number is returned.
  unfoldable pub fat32_read_file : Bool → ℕ → D → List ℕ → ℕ → Option (Option (List ℕ))
  unfolding read_chain to_uint32 atoi
  fat32_read_file ready fuel disk path len =
      let cluster = to_uint32 (atoi path) in
      if not ready
        || ((len == 0)
            || (ltb cluster 2
                || ((bytes_per_sector == 0)
                    || ((sectors_per_cluster == 0) || ltb 4096 bytes_per_sector))))
      then some none
      else read_chain fuel disk len cluster []
