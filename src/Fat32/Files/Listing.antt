-- ===== src/Fat32/Files/Listing.antt =====
-- kernel/filesystem/fat32.cpp: `fat32_list_dir` on a volume that is mounted, for a path with no
-- prefix of another drive, which the code first tries to mount. The names are those that the
-- callback gets, in order, also where the listing then fails.
use Prim.Native.Nat.{bit_and}
use hana_core.Prelude.{
  ℕ, zero, suc, List, [], ◌∷◌, ◌++◌, ◌+◌, ◌/◌, Option, none, some, Bool, true, false, ◌&&◌, ◌||◌,
  ◌==◌, not, ltb, if◌then◌else◌, length, take, drop, get_or, map, ◌>>=◌,
}
use mathlib.Core.Option.{map as option_map}
use hana_core.Prelude.Text.{eq_text}
use hana_core.Hanafs.Image.{Ata}
use hana_core.Fat32.{Volume, fat32_read_sector, read_fat_entry}
use hana_core.Fat32.Name.{fat_toupper, trim_spaces, until, display_name}
use hana_core.Fat32.Directory.{
  component, without_slash, entry_at, entry_attr, entry_cluster, find_entry, goes_on, sector_of,
  entries_per_sector,
}
pub mod Names

-- The entries that the walk takes: the part of the name before a dot is the component in capitals.
unfoldable pub wanted_dir : List ℕ → List ℕ → Bool
unfolding eq_text until trim_spaces
wanted_dir comp entry =
    (bit_and (entry_attr entry) 0x08 == 0)
    && (not (bit_and (entry_attr entry) 0x0F == 0x0F)
        && eq_text (map fat_toupper comp)
            (until (λ c. (c == 0) || (c == b'.')) (trim_spaces (take 8 entry))))

-- `p += 2` behind a drive letter and a colon.
unfoldable pub without_drive : List ℕ → List ℕ
without_drive [] = []
without_drive (a ∷ []) = a ∷ []
without_drive (a ∷ b ∷ path) = if b == b':' then path else a ∷ b ∷ path

-- The entries that are listed: in use, no volume label, no long name, no directory.
unfoldable pub is_listed : List ℕ → Bool
is_listed entry =
    not (get_or entry 0 0 == 0xE5)
    && ((bit_and (entry_attr entry) 0x08 == 0)
        && (not (bit_and (entry_attr entry) 0x0F == 0x0F)
            && (bit_and (entry_attr entry) 0x10 == 0)))

-- The `n` entries of a sector from `off` on: is the end of the directory among them, and the names.
unfoldable pub list_sector : List ℕ → ℕ → ℕ → Bool × List (List ℕ)
unfolding is_listed display_name
list_sector sector off zero = (false, [])
list_sector sector off (suc n) =
    let rest = list_sector sector (off + 32) n in
    let entry = entry_at sector off in
    if get_or entry 0 0 == 0
    then (true, [])
    else if is_listed entry
    then (rest.0, display_name (take 11 entry) ∷ rest.1)
    else rest

-- The names of a sector in front of what follows it, if the directory goes on.
abbrev pub prepend :
    Bool × List (List ℕ) → Option Bool × List (List ℕ) → Option Bool × List (List ℕ)
prepend (true, names) rest = (some true, names)
prepend (false, names) (r, more) = (r, names ++ more)

-- The names of a cluster in front of those of the other clusters.
abbrev pub in_front_of :
    Option Bool × List (List ℕ) → Option (Bool × List (List ℕ)) → Option (Bool × List (List ℕ))
in_front_of (none, names) rest = some (false, names)
in_front_of (some true, names) rest = some (true, names)
in_front_of (some false, names) rest =
    option_map (λ (r : Bool × List (List ℕ)). (r.0, names ++ r.1)) rest

module _ {D : Type 0} (ata : Ata D) (v : Volume) where
  open v use {sectors_per_cluster, bytes_per_sector}

  unfoldable pub dir_from : ℕ → D → ℕ → List ℕ → ℕ → Option (Option ℕ)
  unfolding component find_entry wanted_dir entry_cluster
  dir_from fuel disk cluster [] rounds = some (some cluster)
  dir_from fuel disk cluster (c ∷ path) zero = none
  dir_from fuel disk cluster (c ∷ path) (suc n) =
      let part = component 63 (c ∷ path) in
      find_entry ata v fuel disk (wanted_dir part.0) cluster >>= λ found. elim found [
        | none ↦ some none
        | some place ↦
            let entry = entry_at place.sector place.off in
            let rest = dir_from fuel disk (entry_cluster entry) part.1 n in
            if bit_and (entry_attr entry) 0x10 == 0 then some none else rest
      ]

  -- The `n` sectors of a cluster from `s` on: `none` where one cannot be read, else whether the end
  -- of the directory was met.
  unfoldable pub list_cluster : D → ℕ → ℕ → ℕ → Option Bool × List (List ℕ)
  unfolding fat32_read_sector list_sector
  list_cluster disk cluster s zero = (some false, [])
  list_cluster disk cluster s (suc n) =
      elim (fat32_read_sector ata v disk (sector_of ata v cluster s)) [
        | none ↦ (none, [])
        | some sector ↦
            prepend (list_sector sector 0 (entries_per_sector ata v))
              (list_cluster disk cluster (s + 1) n)
      ]

  unfoldable pub list_chain : ℕ → D → ℕ → Option (Bool × List (List ℕ))
  unfolding list_cluster read_fat_entry
  list_chain zero disk cluster = none
  list_chain (suc f) disk cluster =
      let next = read_fat_entry ata v disk cluster in
      let rest = list_chain f disk next in
      if goes_on cluster
      then in_front_of (list_cluster disk cluster 0 sectors_per_cluster)
          (if not (goes_on next) || (next == cluster) then some (true, []) else rest)
      else some (true, [])

  -- The loops behind the walk.
  unfoldable pub list_at : ℕ → D → Option ℕ → Option (Bool × List (List ℕ))
  unfolding list_chain
  list_at fuel disk none = some (false, [])
  list_at fuel disk (some cluster) =
      if ltb cluster 2 || ((bytes_per_sector == 0) || ltb 4096 bytes_per_sector)
      then some (false, [])
      else list_chain fuel disk cluster

  unfoldable pub fat32_list_dir : Bool → ℕ → D → ℕ → List ℕ → Option (Bool × List (List ℕ))
  unfolding dir_from list_at without_drive
  fat32_list_dir ready fuel disk root path =
      let p : List ℕ = without_slash (without_drive path) in
      if ready then dir_from fuel disk root p (length p) >>= list_at fuel disk else some (false, [])
