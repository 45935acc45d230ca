-- ===== src/Fat32/Directory.antt =====
-- kernel/filesystem/fat32.cpp: directories as chains of clusters with entries of 32 bytes. The code
-- has the search for a component three times; it is modelled once. A walk takes fuel for the
-- clusters that it visits, as a chain may be a circle; `none` says that the fuel ran out. A sector
-- has a whole number of entries.
use Prim.Native.Nat.{bit_and}
use hana_core.Prelude.{
  ℕ, zero, suc, List, [], ◌∷◌, ◌++◌, ◌+◌, ◌-◌, ◌*◌, ◌/◌, ◌%◌, ◌^◌, Option, none, some, Bool, true,
  false, ◌&&◌, ◌||◌, ◌==◌, not, ltb, leb, if◌then◌else◌, length, take, drop, get_or, set, replicate,
  ◌>>=◌,
}
use mathlib.Core.Option.{map as option_map}
use hana_core.Hanafs.Image.{Ata, le_bytes, le_value}
use hana_core.Fat32.{
  Volume, bad_cluster, is_end, cluster_to_lba, fat32_read_sector, read_fat_entry, write_fat_entry,
  alloc_cluster, free_cluster_chain,
}
use hana_core.Fat32.Name.{format_short_name, entry_matches}
pub mod Entry
pub mod Slot
pub mod Put

-- The 32 bytes of an entry, the four before the low cluster bytes left as they are.
unfoldable pub entry_bytes : List ℕ → List ℕ → ℕ → ℕ → ℕ → List ℕ
entry_bytes old name11 attr first_cluster filesize =
    name11
    ++ (attr
        ∷ (replicate 8 0
            ++ (le_bytes 2 (first_cluster / 2 ^ 16)
                ++ (take 4 (drop 22 old) ++ (le_bytes 2 first_cluster ++ le_bytes 4 filesize)))))

-- A sector with an entry at `off` replaced.
unfoldable pub put_entry : List ℕ → ℕ → List ℕ → List ℕ
put_entry sector off entry = take off sector ++ (entry ++ drop (off + 32) sector)

abbrev pub entry_at : List ℕ → ℕ → List ℕ
entry_at sector off = take 32 (drop off sector)

-- `(high << 16) | low`.
unfoldable pub entry_cluster : List ℕ → ℕ
entry_cluster entry = le_value (take 2 (drop 20 entry)) * 2 ^ 16 + le_value (take 2 (drop 26 entry))

unfoldable pub entry_size : List ℕ → ℕ
entry_size entry = le_value (take 4 (drop 28 entry))

abbrev pub entry_attr : List ℕ → ℕ
entry_attr entry = get_or entry 11 0

abbrev pub is_free : ℕ → Bool
is_free first = (first == 0) || (first == 0xE5)

-- The first free entry among the `n` from `off` on.
unfoldable pub free_off : List ℕ → ℕ → ℕ → Option ℕ
free_off sector off zero = none
free_off sector off (suc n) =
    let rest = free_off sector (off + 32) n in
    if is_free (get_or sector off 0) then some off else rest

-- How the search of a sector or a cluster ends: at the end of the directory, behind its last entry,
-- at an entry.
pub data Seen (A : Type 0) : Type 0 where
  stopped : Seen A
  passed : Seen A
  hit : A → Seen A

-- The entries that a search for a component takes: not those of long names.
unfoldable pub wanted_by : List ℕ → List ℕ → Bool
unfolding entry_matches
wanted_by comp entry =
    not (bit_and (entry_attr entry) 0x0F == 0x0F) && entry_matches comp (take 11 entry)

-- The first entry in use that is wanted.
unfoldable pub search_sector : (List ℕ → Bool) → List ℕ → ℕ → ℕ → Seen ℕ
search_sector wanted sector off zero = passed
search_sector wanted sector off (suc n) =
    let rest = search_sector wanted sector (off + 32) n in
    let first = get_or sector off 0 in
    if first == 0
    then stopped
    else if first == 0xE5
    then rest
    else if wanted (entry_at sector off)
    then hit off
    else rest

-- The sector of an entry, its bytes, and the place of the entry in it.
pub record Place : Type 0 where
  pub lba : ℕ
  pub sector : List ℕ
  pub off : ℕ

-- A component of a path, at most 63 bytes of it, and the path behind it and one slash.
unfoldable pub component : ℕ → List ℕ → List ℕ × List ℕ
component room [] = ([], [])
component zero (c ∷ p) = ([], if c == b'/' then p else c ∷ p)
component (suc room) (c ∷ p) =
    let rest = component room p in if c == b'/' then ([], p) else (c ∷ rest.0, rest.1)

abbrev pub without_slash : List ℕ → List ℕ
without_slash [] = []
without_slash (c ∷ p) = if c == b'/' then p else c ∷ p

-- Neither 0, nor bad, nor an end mark.
abbrev pub goes_on : ℕ → Bool
goes_on cluster = not ((cluster == 0) || ((cluster == bad_cluster) || leb 0x0FFFFFF8 cluster))

module _ {D : Type 0} (ata : Ata D) (v : Volume) where
  open ata use {write_sector}
  open v use {sectors_per_cluster, bytes_per_sector}

  abbrev pub entries_per_sector : ℕ
  entries_per_sector = bytes_per_sector / 32

  abbrev pub sector_of : ℕ → ℕ → ℕ
  sector_of cluster s = (cluster_to_lba v cluster + s) % 2 ^ 32

  -- What a search made of a sector that was read, and of the sectors behind it.
  abbrev pub in_sector : ℕ → List ℕ → Seen ℕ → Option (Seen Place) → Option (Seen Place)
  in_sector lba sector stopped rest = some stopped
  in_sector lba sector passed rest = rest
  in_sector lba sector (hit off) rest = some (hit record { lba = lba; sector = sector; off = off })

  -- The `n` sectors of a cluster from `s` on; `none`: one cannot be read.
  unfoldable pub search_cluster : D → (List ℕ → Bool) → ℕ → ℕ → ℕ → Option (Seen Place)
  unfolding fat32_read_sector search_sector
  search_cluster disk wanted cluster s zero = some passed
  search_cluster disk wanted cluster s (suc n) =
      elim (fat32_read_sector ata v disk (sector_of cluster s)) [
        | none ↦ none
        | some sector ↦
            in_sector (sector_of cluster s) sector
              (search_sector wanted sector 0 entries_per_sector)
              (search_cluster disk wanted cluster (s + 1) n)
      ]

  -- What is done behind a cluster; the inner option is the entry, `none` for -1.
  abbrev pub behind_cluster : Option (Seen Place) → Option (Option Place) → Option (Option Place)
  behind_cluster none rest = some none
  behind_cluster (some stopped) rest = some none
  behind_cluster (some passed) rest = rest
  behind_cluster (some (hit place)) rest = some (some place)

  unfoldable pub find_entry : ℕ → D → (List ℕ → Bool) → ℕ → Option (Option Place)
  unfolding search_cluster read_fat_entry
  find_entry zero disk wanted cluster = none
  find_entry (suc f) disk wanted cluster =
      let next = read_fat_entry ata v disk cluster in
      let rest = find_entry f disk wanted next in
      if goes_on cluster
      then behind_cluster (search_cluster disk wanted cluster 0 sectors_per_cluster)
          (if goes_on next then rest else some none)
      else some none

  -- The loop of `write_dir_entry` over the sectors of a cluster: where the free entry is.
  unfoldable pub slot_in_cluster : D → ℕ → ℕ → ℕ → Option (Seen Place)
  unfolding fat32_read_sector free_off
  slot_in_cluster disk cluster s zero = some passed
  slot_in_cluster disk cluster s (suc n) =
      elim (fat32_read_sector ata v disk (sector_of cluster s)) [
        | none ↦ none
        | some sector ↦ elim (free_off sector 0 entries_per_sector) [
          | none ↦ slot_in_cluster disk cluster (s + 1) n
          | some off ↦ some (hit record { lba = sector_of cluster s; sector = sector; off = off })
        ]
      ]

  unfoldable pub find_slot : ℕ → D → ℕ → Option (Option Place)
  unfolding slot_in_cluster read_fat_entry
  find_slot zero disk cluster = none
  find_slot (suc f) disk cluster =
      let next = read_fat_entry ata v disk cluster in
      let rest = find_slot f disk next in
      if goes_on cluster
      then behind_cluster (slot_in_cluster disk cluster 0 sectors_per_cluster)
          (if goes_on next then rest else some none)
      else some none

  -- The entry is written into the slot; `false` is a result of -1.
  abbrev pub write_slot : D → List ℕ → ℕ → ℕ → ℕ → Option Place → Bool × D
  write_slot disk name11 attr first_cluster filesize none = (false, disk)
  write_slot disk name11 attr first_cluster filesize (some place) = write_sector disk place.lba (
      put_entry place.sector place.off
        (entry_bytes (entry_at place.sector place.off) name11 attr first_cluster filesize))

  unfoldable pub write_dir_entry : ℕ → D → ℕ → ℕ → List ℕ → ℕ → ℕ → ℕ → Option (Bool × D)
  unfolding find_slot
  write_dir_entry f disk root parent name11 attr first_cluster filesize =
      option_map (write_slot disk name11 attr first_cluster filesize)
        (find_slot f disk (if ltb parent 2 then root else parent))
