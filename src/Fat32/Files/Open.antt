-- ===== src/Fat32/Files/Open.antt =====
-- kernel/filesystem/fat32.cpp: `fat32_get_file_alloc`, which walks a path and reads the whole file
-- into memory of its own. It compares names in its own way. Whether the heap serves a request of a
-- size is a parameter; the inner option of a result is `none` for a null pointer.
use Prim.Native.Nat.{bit_and}
use hana_core.Prelude.{
  ℕ, zero, suc, List, [], ◌∷◌, ◌++◌, ◌+◌, ◌-◌, Option, none, some, Bool, true, false, ◌&&◌, ◌||◌,
  ◌==◌, not, if◌then◌else◌, length, take, drop, get_or, map, ◌>>=◌,
}
use hana_core.Prelude.Text.{eq_text}
use hana_core.Hanafs.Image.{Ata}
use hana_core.Libc.Number.{fill_tmp, decimal_char, truncated}
use hana_core.Fat32.{Volume}
use hana_core.Fat32.Name.{fat_toupper, until}
use hana_core.Fat32.Directory.{
  component, without_slash, entry_at, entry_attr, entry_cluster, entry_size, find_entry,
}
use hana_core.Fat32.Files.Content.{fat32_read_file}
pub mod Match
pub mod Found

-- Each space among the eight bytes of the name becomes a NUL, and the extension follows the first.
unfoldable pub short_name : List ℕ → List ℕ
unfolding until
short_name entry =
    until (λ c. (c == b' ') || (c == 0)) (take 8 entry)
    ++ (if get_or entry 8 0 == b' ' then [] else b'.' ∷ take 3 (drop 8 entry))

unfoldable pub has_dot : List ℕ → Bool
has_dot [] = false
has_dot (c ∷ cs) = (c == b'.') || has_dot cs

-- A component in capitals with a dot is compared with the whole name, another with what is before
-- the dot.
unfoldable pub name_matches : List ℕ → List ℕ → Bool
unfolding short_name has_dot eq_text until
name_matches comp entry =
    if has_dot comp
    then eq_text comp (until (λ c. c == 0) (short_name entry))
    else eq_text comp (until (λ c. (c == 0) || (c == b'.')) (short_name entry))

-- Neither a volume label nor an entry of a long name, and of the name.
unfoldable pub wanted_file : List ℕ → List ℕ → Bool
unfolding name_matches
wanted_file comp entry =
    (bit_and (entry_attr entry) 0x08 == 0)
    && (not (bit_and (entry_attr entry) 0x0F == 0x0F)
        && name_matches (map fat_toupper comp) (take 11 entry))

-- A `uint32_t` has ten digits at most.
unfoldable pub cluster_text : ℕ → List ℕ
unfolding fill_tmp decimal_char truncated
cluster_text c = let tmp = fill_tmp decimal_char 10 10 c in truncated tmp 0 (length tmp)

module _ {D : Type 0} (ata : Ata D) (v : Volume) (served : ℕ → Bool) where
  -- The entry of the last component.
  unfoldable pub read_found : ℕ → D → List ℕ → Option (Option (List ℕ))
  unfolding fat32_read_file cluster_text entry_cluster entry_size
  read_found fuel disk entry =
      let size : ℕ = if entry_size entry == 0 then 1 else entry_size entry in
      if served size
      then fat32_read_file ata v true fuel disk (cluster_text (entry_cluster entry)) size
      else some none

  unfoldable pub open_from : ℕ → D → ℕ → List ℕ → ℕ → Option (Option (List ℕ))
  unfolding component find_entry wanted_file read_found
  open_from fuel disk current [] rounds = some none
  open_from fuel disk current (c ∷ path) zero = none
  open_from fuel disk current (c ∷ path) (suc n) =
      let part = component 63 (c ∷ path) in
      find_entry ata v fuel disk (wanted_file part.0) current >>= λ found. elim found [
        | none ↦ some none
        | some place ↦
            let entry = entry_at place.sector place.off in
            let is_dir = not (bit_and (entry_attr entry) 0x10 == 0) in
            elim part.1 [
              | [] ↦ if is_dir then some none else read_found fuel disk entry
              | d ∷ more ↦
                  let rest = open_from fuel disk (entry_cluster entry) (d ∷ more) n in
                  if is_dir then rest else some none
            ]
      ]

  unfoldable pub fat32_get_file_alloc : Bool → ℕ → D → ℕ → List ℕ → Option (Option (List ℕ))
  unfolding open_from
  fat32_get_file_alloc ready fuel disk root path =
      if ready
      then elim (without_slash path) [
        | [] ↦ some none
        | d ∷ p ↦ open_from fuel disk root (d ∷ p) (length (d ∷ p))
      ]
      else some none
