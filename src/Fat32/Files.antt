-- ===== src/Fat32/Files.antt =====
-- kernel/filesystem/fat32.cpp: paths, files and the public calls. `none` says that fuel ran out, or
-- that the code reads a variable that it did not set; `false` is a result of -1. The file name is
-- not null; the messages to the log are left out.
use Prim.Native.Nat.{bit_and}
use hana_core.Prelude.{
  ℕ, zero, suc, List, [], ◌∷◌, ◌++◌, ◌+◌, ◌-◌, ◌*◌, ◌/◌, ◌%◌, ◌^◌, Option, none, some, Bool, true,
  false, ◌&&◌, ◌||◌, ◌==◌, not, ltb, leb, if◌then◌else◌, length, take, drop, set, replicate, ◌>>=◌,
}
use hana_core.Prelude.Int.{ℤ, pos, negsuc}
use hana_core.Hanafs.Image.{Ata, le_bytes}
use hana_core.Libc.Number.{atoi}
use hana_core.Fat32.{
  Volume, end_of_chain, cluster_to_lba, fat32_read_sector, read_fat_entry, write_fat_entry,
  alloc_cluster, free_cluster_chain,
}
use hana_core.Fat32.Name.{format_short_name}
use hana_core.Fat32.Directory.{
  Place, wanted_by, component, without_slash, goes_on, entry_at, entry_attr, entry_cluster,
  put_entry, find_entry, write_dir_entry, sector_of,
}
pub mod Content
pub mod Read
pub mod Create
pub mod Open
pub mod Listing
mod Tests

-- `(uint32_t)` of an `int`.
unfoldable pub to_uint32 : ℤ → ℕ
to_uint32 (pos n) = n
to_uint32 (negsuc n) = 2 ^ 32 - 1 - n

-- The entries of a new directory keep the bytes that were not set.
unfoldable pub dot_entry : List ℕ → List ℕ → ℕ → List ℕ
dot_entry old name11 cluster =
    name11
    ++ (0x10
        ∷ (take 8 (drop 12 old)
            ++ (le_bytes 2 (cluster / 2 ^ 16)
                ++ (take 4 (drop 22 old) ++ (le_bytes 2 cluster ++ take 4 (drop 28 old))))))

-- `.` in front of `n` spaces.
abbrev pub dot_name : ℕ → List ℕ
dot_name n = b'.' ∷ replicate n b' '

-- The first sector of a new directory.
unfoldable pub dotted : List ℕ → ℕ → ℕ → List ℕ
dotted sector newc pcl =
    put_entry (put_entry sector 0 (dot_entry (entry_at sector 0) (dot_name 10) newc)) 32
      (dot_entry (entry_at sector 32) (b'.' ∷ dot_name 9) pcl)

module _ {D : Type 0} (ata : Ata D) (v : Volume) where
  open ata use {write_sector}
  open v use {sectors_per_cluster, bytes_per_sector}

  -- The way to the parent directory and the last component. With `check`, as in
  -- `get_parent_cluster_and_name`, each entry on the way is a directory.
  unfoldable pub locate : Bool → ℕ → D → ℕ → List ℕ → ℕ → Option (Option (ℕ × List ℕ))
  unfolding component find_entry wanted_by entry_cluster
  locate check fuel disk current [] rounds = some none
  locate check fuel disk current (c ∷ path) zero = none
  locate check fuel disk current (c ∷ path) (suc n) =
      let part = component 63 (c ∷ path) in
      elim part.1 [
        | [] ↦ some (some (current, part.0))
        | d ∷ more ↦ find_entry ata v fuel disk (wanted_by part.0) current >>= λ found. elim found [
          | none ↦ some none
          | some place ↦
              let entry = entry_at place.sector place.off in
              if check && (bit_and (entry_attr entry) 0x10 == 0)
              then some none
              else locate check fuel disk (entry_cluster entry) (d ∷ more) n
        ]
      ]

  -- The end of `remove_dir_entry_by_path`, at the entry that was found.
  unfoldable pub remove_at : ℕ → D → Bool → Option Place → Option (Bool × D)
  unfolding free_cluster_chain entry_cluster
  remove_at fuel disk remove_clusters none = some (false, disk)
  remove_at fuel disk remove_clusters (some place) =
      let start = entry_cluster (entry_at place.sector place.off) in
      let freed =
        if remove_clusters && leb 2 start
        then free_cluster_chain ata v fuel disk start
        else some disk in
      freed >>= λ disk'. some (write_sector disk' place.lba (set place.sector place.off 0xE5))

  abbrev remove_from : ℕ → D → Bool → Option (ℕ × List ℕ) → Option (Bool × D)
  remove_from fuel disk remove_clusters none = some (false, disk)
  remove_from fuel disk remove_clusters (some (parent, name)) =
      find_entry ata v fuel disk (wanted_by name) parent >>= remove_at fuel disk remove_clusters

  -- The path `/` leaves the last component unset.
  unfoldable pub remove_dir_entry_by_path : ℕ → D → ℕ → List ℕ → Bool → Option (Bool × D)
  unfolding remove_at locate
  remove_dir_entry_by_path fuel disk root [] remove_clusters = some (false, disk)
  remove_dir_entry_by_path fuel disk root (c ∷ path) remove_clusters =
      elim (without_slash (c ∷ path)) [
        | [] ↦ none
        | d ∷ p ↦
            locate false fuel disk root (d ∷ p) (length (d ∷ p))
            >>= remove_from fuel disk remove_clusters
      ]

  unfoldable pub get_parent_cluster_and_name : ℕ → D → ℕ → List ℕ → Option (Option (ℕ × List ℕ))
  unfolding locate
  get_parent_cluster_and_name fuel disk root path =
      locate true fuel disk root (without_slash path) (length path)

  -- An entry in a parent directory, under a name that can be a short name.
  unfoldable pub add_entry : ℕ → D → ℕ → ℕ → ℕ → ℕ → Option (ℕ × List ℕ) → Option (Bool × D)
  unfolding write_dir_entry format_short_name
  add_entry fuel disk root attr first_cluster filesize none = some (false, disk)
  add_entry fuel disk root attr first_cluster filesize (some (parent, name)) =
      elim (format_short_name name) [
        | none ↦ some (false, disk)
        | some name11 ↦
            write_dir_entry ata v fuel disk root parent name11 attr first_cluster filesize
      ]

  unfoldable pub fat32_create_file : Bool → ℕ → D → ℕ → List ℕ → Option (Bool × D)
  unfolding add_entry get_parent_cluster_and_name
  fat32_create_file ready fuel disk root path =
      if ready
      then get_parent_cluster_and_name fuel disk root path >>= add_entry fuel disk root 0x20 0 0
      else some (false, disk)

  unfoldable pub fat32_unlink : Bool → ℕ → D → ℕ → List ℕ → Option (Bool × D)
  unfolding remove_dir_entry_by_path
  fat32_unlink ready fuel disk root path =
      if ready then remove_dir_entry_by_path fuel disk root path true else some (false, disk)

  unfoldable pub fat32_remove_dir : Bool → ℕ → D → ℕ → List ℕ → Option (Bool × D)
  unfolding remove_dir_entry_by_path
  fat32_remove_dir ready fuel disk root path =
      if ready then remove_dir_entry_by_path fuel disk root path true else some (false, disk)

  -- The sectors `s` to `s + n - 1` of a cluster filled with zeros.
  unfoldable pub zero_sectors : D → ℕ → ℕ → ℕ → Bool × D
  zero_sectors disk cluster s zero = (true, disk)
  zero_sectors disk cluster s (suc n) =
      let (done, disk') =
        write_sector disk (sector_of ata v cluster s) (replicate bytes_per_sector 0) in
      elim done [ false ↦ (false, disk') | true ↦ zero_sectors disk' cluster (s + 1) n ]

  -- The contents of a new directory.
  unfoldable pub init_dir : D → ℕ → ℕ → Bool × D
  unfolding zero_sectors fat32_read_sector dotted
  init_dir disk newc parent =
      let (zeroed, disk1) = zero_sectors disk newc 0 sectors_per_cluster in
      let lba = cluster_to_lba v newc in
      elim zeroed [
        | false ↦ (false, disk1)
        | true ↦ elim (fat32_read_sector ata v disk1 lba) [
          | none ↦ (false, disk1)
          | some sector ↦
              write_sector disk1 lba (dotted sector newc (if ltb parent 2 then 0 else parent))
        ]
      ]

  -- What `fat32_make_dir` does behind the writing of the entry.
  abbrev after_entry : ℕ → ℕ → ℕ → Bool × D → Option (Bool × D)
  after_entry fuel newc parent (true, disk) = some (init_dir disk newc parent)
  after_entry fuel newc parent (false, disk) =
      free_cluster_chain ata v fuel disk newc >>= λ disk'. some (false, disk')

  unfoldable pub make_dir_in : ℕ → D → ℕ → Option (ℕ × List ℕ) → Option (Bool × D)
  unfolding write_dir_entry format_short_name alloc_cluster init_dir free_cluster_chain
  make_dir_in fuel disk root none = some (false, disk)
  make_dir_in fuel disk root (some (parent, name)) = elim (format_short_name name) [
    | none ↦ some (false, disk)
    | some name11 ↦
        let (newc, disk1) = alloc_cluster ata v disk in
        if newc == 0
        then some (false, disk1)
        else (write_dir_entry ata v fuel disk1 root parent name11 0x10 newc 0
            >>= after_entry fuel newc parent)
  ]

  unfoldable pub fat32_make_dir : Bool → ℕ → D → ℕ → List ℕ → Option (Bool × D)
  unfolding make_dir_in get_parent_cluster_and_name
  fat32_make_dir ready fuel disk root path =
      if ready
      then get_parent_cluster_and_name fuel disk root path >>= make_dir_in fuel disk root
      else some (false, disk)
